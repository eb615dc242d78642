-- ===== src/Raft.antt =====
-- raft1/raft.go: one server of the cluster, its state and what it writes to its persister.
pub mod Vote
pub mod Append
pub mod Election
pub mod Leader
pub mod Apply
pub mod Node
pub mod Quorum
pub mod Restart
pub mod Fixtures
mod Examples
mod Scenarios
use mit.Prelude.{ℕ, Bool, true, false, not, Option, none, some, List, [], ◌∷◌, nat_eqb, replicate}

pub data EState : Type 0 where
  follower candidate leading : EState

abbrev pub state_eqb : EState → EState → Bool
state_eqb follower follower = true
state_eqb candidate candidate = true
state_eqb leading leading = true
state_eqb _ _ = false

pub record LogEntry {ℓ} (V : Type ℓ) : Type ℓ where
  pub term : ℕ
  pub noop : Bool
  pub value : V

-- `none` stands for the -1 of `VotedFor`.
pub record PersistentState {ℓ} (V : Type ℓ) : Type ℓ where
  pub current_term : ℕ
  pub voted_for : Option ℕ
  pub log : List (LogEntry V)

-- `peers` is their number. A channel of `resetHeartBeats` holds one item or none. `saved` is what
-- the persister holds, and `commit_signal` that the condition variable was signalled.
pub record Raft {ℓ} (V : Type ℓ) : Type ℓ where
  pub peers : ℕ
  pub me : ℕ
  pub persistent : PersistentState V
  pub open persistent use *
  pub commit_index : ℕ
  pub last_applied : ℕ
  pub leader : Option ℕ
  pub leader_lease : ℕ
  pub reset_heart_beats : List Bool
  pub state : EState
  pub next_index : List ℕ
  pub match_index : List ℕ
  pub commit_signal : Bool
  pub saved : List ℕ

abbrev pub option_eqb : Option ℕ → Option ℕ → Bool
option_eqb none none = true
option_eqb (some a) (some b) = nat_eqb a b
option_eqb _ _ = false

module _ {ℓ} {V : Type ℓ} where
  -- `encode` is what labgob makes of the persistent state.
  abbrev pub persist : (PersistentState V → List ℕ) → Raft V → Raft V
  persist encode rf = record rf { saved = encode rf.persistent }

  -- `readPersist`: an empty state is left alone, and one that does not decode is fatal (`none`).
  unfoldable pub read_persist :
      (List ℕ → Option (PersistentState V)) → List ℕ → Raft V → Option (Raft V)
  read_persist decode [] rf = some rf
  read_persist decode (b ∷ bytes) rf = elim (decode (b ∷ bytes)) [
    | none ↦ none
    | some s ↦ some (record rf { persistent = s })
  ]

  -- The state that `Make` builds; the goroutines that it starts are the operations of the children.
  unfoldable pub fresh : V → ℕ → ℕ → ℕ → List ℕ → Raft V
  fresh zero_value peers me now bytes = record {
    peers = peers;
    me = me;
    persistent = record {
      current_term = 0;
      voted_for = none;
      log = record { term = 0; noop = true; value = zero_value } ∷ [];
    };
    commit_index = 0;
    last_applied = 0;
    leader = none;
    leader_lease = now;
    reset_heart_beats = replicate peers false;
    state = follower;
    next_index = replicate peers 0;
    match_index = replicate peers 0;
    commit_signal = false;
    saved = bytes;
  }

  unfoldable pub make :
      (List ℕ → Option (PersistentState V)) → V → ℕ → ℕ → ℕ → List ℕ → Option (Raft V)
  unfolding fresh read_persist
  make decode zero_value peers me now bytes =
      read_persist decode bytes (fresh zero_value peers me now bytes)
