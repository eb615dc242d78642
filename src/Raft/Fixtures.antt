-- ===== src/Raft/Fixtures.antt =====
-- Servers of raft1/raft.go and a codec of the persistent state (the term, the vote, and three
-- numbers an entry), for the examples.
use mit.Prelude.{ℕ, zero, suc, Bool, true, false, Option, none, some, List, [], ◌∷◌, replicate}
use mit.Raft.{EState, follower, leading, LogEntry, PersistentState, Raft}

abbrev vote_code : Option ℕ → ℕ
vote_code none = 0
vote_code (some c) = suc c

abbrev noop_code : Bool → ℕ
noop_code false = 0
noop_code true = 1

abbrev entries_code : List (LogEntry ℕ) → List ℕ
entries_code [] = []
entries_code (e ∷ es) = e.term ∷ noop_code e.noop ∷ e.value ∷ entries_code es

abbrev pub encode : PersistentState ℕ → List ℕ
encode p = p.current_term ∷ vote_code p.voted_for ∷ entries_code p.log

abbrev vote_of_code : ℕ → Option ℕ
vote_of_code zero = none
vote_of_code (suc c) = some c

abbrev noop_of_code : ℕ → Bool
noop_of_code zero = false
noop_of_code (suc _) = true

abbrev entries_of_code : List ℕ → List (LogEntry ℕ)
entries_of_code (t ∷ n ∷ v ∷ rest) =
    record { term = t; noop = noop_of_code n; value = v } ∷ entries_of_code rest
entries_of_code _ = []

abbrev pub decode : List ℕ → Option (PersistentState ℕ)
decode (t ∷ v ∷ rest) =
    some (record { current_term = t; voted_for = vote_of_code v; log = entries_of_code rest })
decode _ = none

abbrev pub entry : ℕ → ℕ → LogEntry ℕ
entry t v = record { term = t; noop = false; value = v }

abbrev pub state : ℕ → List (LogEntry ℕ) → PersistentState ℕ
state t log = record { current_term = t; voted_for = none; log = log }

-- A server of a cluster of so many, in a term, with a role, a log and what it saved of it.
abbrev pub server : ℕ → ℕ → ℕ → EState → List (LogEntry ℕ) → Raft ℕ
server peers me t role log = record {
  peers = peers;
  me = me;
  persistent = state t log;
  commit_index = 0;
  last_applied = 0;
  leader = none;
  leader_lease = 0;
  reset_heart_beats = replicate peers false;
  state = role;
  next_index = replicate peers 1;
  match_index = replicate peers 0;
  commit_signal = false;
  saved = encode (state t log);
}

abbrev pub root : LogEntry ℕ
root = entry 0 0

abbrev pub start_log : List (LogEntry ℕ)
start_log = root ∷ []

abbrev pub lead_log : List (LogEntry ℕ)
lead_log = root ∷ entry 1 7 ∷ entry 1 8 ∷ []

abbrev pub node : Raft ℕ
node = server 3 1 0 follower start_log

abbrev pub lead : Raft ℕ
lead = server 3 0 1 leading lead_log
