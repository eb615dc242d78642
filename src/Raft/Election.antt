-- ===== src/Raft/Election.antt =====
-- raft1/raft.go: candidateLoop, cut at the points where it sleeps, takes the mutex or waits for
-- replies.
pub mod Counting
use mit.Prelude.{
  ℕ, suc, ◌-◌, ◌+◌, ◌/◌, max, Bool, true, false, ◌&&◌, ◌||◌, not, Option, none, some, List, [], ◌∷◌,
  map, nat_eqb, ltb, leb, length, get_elem?, if◌then◌else◌,
}
use mit.Raft.{EState, follower, candidate, leading, state_eqb, LogEntry, PersistentState, Raft}
use mit.Raft.Vote.{RequestVoteArgs, RequestVoteReply, last_entry}

-- `rf.Xs[i] = v` for every other server `i`, counting from `i`.
abbrev pub set_others : ℕ → ℕ → ℕ → List ℕ → List ℕ
set_others me v i [] = []
set_others me v i (x ∷ xs) = (if nat_eqb i me then x else v) ∷ set_others me v (suc i) xs

abbrev pub need_yes : ℕ → ℕ
need_yes peers = peers / 2 + 1

abbrev pub need_no : ℕ → ℕ
need_no peers = peers - need_yes peers + 1

-- How the wait for votes ends; `waiting` if the replies so far do not decide.
pub data Count : Type 0 where
  timed_out waiting : Count
  newer_term : ℕ → Count
  counted : ℕ → ℕ → Count

-- The inner loop, over what arrives: `none` is the timer, a failed call is a reply of zeros.
unfoldable pub count_votes : ℕ → ℕ → ℕ → ℕ → ℕ → List (Option RequestVoteReply) → Count
count_votes term yes_needed no_needed y n [] = waiting
count_votes term yes_needed no_needed y n (none ∷ rest) = timed_out
count_votes term yes_needed no_needed y n (some r ∷ rest) =
    let y' = if r.vote_granted then y + 1 else y in
    let n' = if r.vote_granted then n else n + 1 in
    let again = count_votes term yes_needed no_needed y' n' rest in
    if not r.vote_granted && ltb term r.term
    then newer_term r.term
    else if leb yes_needed y'
    then counted y' n'
    else if leb no_needed n'
    then counted y' n'
    else again

-- The loop as it is entered: the candidate has its own vote.
unfoldable pub election : ℕ → ℕ → List (Option RequestVoteReply) → Count
unfolding count_votes
election peers term arrivals = count_votes term (need_yes peers) (need_no peers) 1 0 arrivals

module _ {ℓ} {V : Type ℓ} where
  -- The test at the head of the loop: whether to become a candidate, and the state otherwise.
  -- `lease` is the time since the leader was heard.
  unfoldable pub candidate_check : Raft V → Bool → ℕ → ℕ → Bool × Raft V
  candidate_check rf prev_cand_timeout lease dur =
      let prev_timed_out = state_eqb rf.state candidate && prev_cand_timeout in
      let step_up = state_eqb rf.state follower && leb dur lease in
      if prev_timed_out || step_up
      then (true, rf)
      else (false, if state_eqb rf.state candidate then record rf { state = follower } else rf)

  abbrev pub candidacy : Raft V → LogEntry V → RequestVoteArgs × Raft V
  candidacy rf last = (
    record {
      term = rf.current_term + 1;
      candidate_id = rf.me;
      last_log_index = length rf.log - 1;
      last_log_term = last.term;
    },
    record rf {
      state = candidate;
      persistent = record rf.persistent {
        current_term = rf.current_term + 1;
        voted_for = some rf.me;
      };
      leader = none;
    },
  )

  -- A new term, a vote for itself, and the arguments for the others; `none` is a panic.
  unfoldable pub become_candidate : Raft V → Option (RequestVoteArgs × Raft V)
  become_candidate rf = elim (last_entry rf.log) [
    | none ↦ none
    | some last ↦ some (candidacy rf last)
  ]

  abbrev pub win : Raft V → Raft V
  win rf = record rf {
    next_index = set_others rf.me (length rf.log) 0 rf.next_index;
    match_index = set_others rf.me 0 0 rf.match_index;
    state = leading;
    leader = some rf.me;
    reset_heart_beats = map (λ _. true) rf.reset_heart_beats;
  }

  -- What becomes of the state when the wait has ended.
  unfoldable pub finish_election : Raft V → ℕ → Count → Raft V
  finish_election rf term timed_out = rf
  finish_election rf term waiting = rf
  finish_election rf term (newer_term max_term) = record rf {
    persistent = record rf.persistent {
      current_term = max rf.current_term max_term;
      voted_for = none;
    };
    state = follower;
    leader = none;
  }
  finish_election rf term (counted y n) =
      if not (state_eqb rf.state candidate)
      then rf
      else if leb (need_yes rf.peers) y
      then win rf
      else record rf { state = follower }
