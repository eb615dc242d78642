-- ===== src/Raft/Vote.antt =====
-- raft1/raft.go: the RequestVote handler.
pub mod Laws
use mit.Prelude.{
  ℕ, ◌-◌, Bool, true, false, ◌&&◌, ◌||◌, not, Option, none, some, List, nat_eqb, ltb, leb, length,
  get_elem?, if◌then◌else◌,
}
use mit.Raft.{EState, follower, LogEntry, PersistentState, Raft, option_eqb, persist}

pub record RequestVoteArgs : Type 0 where
  pub term : ℕ
  pub candidate_id : ℕ
  pub last_log_index : ℕ
  pub last_log_term : ℕ

pub record RequestVoteReply : Type 0 where
  pub term : ℕ
  pub vote_granted : Bool

module _ {ℓ} {V : Type ℓ} where
  -- `rf.Log[len(rf.Log)-1]`, which panics (`none`) on an empty log.
  abbrev pub last_entry : List (LogEntry V) → Option (LogEntry V)
  last_entry log = get_elem? log (length log - 1)

  abbrev pub refuses : Raft V → RequestVoteArgs → Bool
  refuses rf args =
      ltb args.term rf.current_term
      || (nat_eqb args.term rf.current_term
          && (not (option_eqb rf.voted_for none)
              || not (option_eqb rf.voted_for (some args.candidate_id))))

  abbrev pub up_to_date : Raft V → LogEntry V → RequestVoteArgs → Bool
  up_to_date rf last args =
      ltb last.term args.last_log_term
      || (nat_eqb args.last_log_term last.term && leb (length rf.log - 1) args.last_log_index)

  abbrev pub vote_on :
      (PersistentState V → List ℕ)
      → ℕ
      → Raft V
      → RequestVoteArgs
      → LogEntry V
      → RequestVoteReply × Raft V
  vote_on encode now rf args last =
      if refuses rf args
      then (record { term = rf.current_term; vote_granted = false }, rf)
      else if up_to_date rf last args
      then (
        record { term = rf.current_term; vote_granted = true },
        persist encode (record rf {
          persistent = record rf.persistent {
            current_term = args.term;
            voted_for = some args.candidate_id;
          };
          state = follower;
          leader = some args.candidate_id;
          leader_lease = now;
        }),
      )
      else (
        record { term = rf.current_term; vote_granted = false },
        record rf { persistent = record rf.persistent { current_term = args.term }; leader = none },
      )

  -- `RequestVote`; `none` is a panic.
  unfoldable pub request_vote :
      (PersistentState V → List ℕ)
      → ℕ
      → Raft V
      → RequestVoteArgs
      → Option (RequestVoteReply × Raft V)
  request_vote encode now rf args = elim (last_entry rf.log) [
    | none ↦ none
    | some last ↦ some (vote_on encode now rf args last)
  ]
