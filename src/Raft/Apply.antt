-- ===== src/Raft/Apply.antt =====
-- raft1/raft.go: commitIndexLoop, and the messages of raftapi/raftapi.go that it sends.
pub mod Order
use mit.Prelude.{
  ℕ, suc, ◌-◌, ◌+◌, ◌<◌, ◌≤◌, ◌≡◌, refl, arith, Bool, true, false, not, Option, none, some, List,
  [], ◌∷◌, ltb, leb, length, get_elem?, drop, take, if◌then◌else◌,
}
use mit.Raft.{LogEntry, Raft}

-- The fields of a snapshot stay unset: the code sends none.
pub record ApplyMsg {ℓ} (V : Type ℓ) : Type ℓ where
  pub command_valid : Bool
  pub command : V
  pub command_index : ℕ

-- One round of the loop. `next` is lastCommitIndex + 1, which starts at 0.
pub data Round {ℓ} (V : Type ℓ) : Type ℓ where
  asleep panicked : Round V
  pushed : List (ApplyMsg V) → ℕ → Round V

module _ {ℓ} {V : Type ℓ} where
  -- The messages for the entries that were copied, from index `i` on.
  abbrev pub messages : ℕ → List (LogEntry V) → List (ApplyMsg V)
  messages i [] = []
  messages i (l ∷ ls) =
      record { command_valid = not l.noop; command = l.value; command_index = i }
      ∷ messages (suc i) ls

  unfoldable pub apply_round : Raft V → ℕ → Round V
  apply_round rf next =
      if ltb rf.commit_index next
      then asleep
      else if ltb (length rf.log) next
      then panicked
      else let add = drop next rf.log in pushed (messages next add) (next + length add)
