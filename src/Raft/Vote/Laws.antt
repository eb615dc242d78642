-- ===== src/Raft/Vote/Laws.antt =====
-- When RequestVote of raft1/raft.go grants, and what it leaves.
use mit.Prelude.{ℕ, ◌≡◌, arith, ◌&&◌, some, List, ltb, leb}
use mit.Raft.{LogEntry, PersistentState, Raft}
use mit.Raft.Vote.{RequestVoteArgs, RequestVoteReply, last_entry, refuses, up_to_date, request_vote}

module _ {ℓ} {V : Type ℓ} (encode : PersistentState V → List ℕ) where
  -- A request is refused exactly if its term is not newer.
  refuses_iff :
      (rf : Raft V) (args : RequestVoteArgs) → refuses rf args ≡ leb args.term rf.current_term
  refuses_iff rf args = ground arith

  -- The reply: a grant exactly for a newer term from a log that is up to date, with the term from
  -- before.
  pub vote_reply :
      (now : ℕ) (rf rf' : Raft V) (args : RequestVoteArgs) (reply : RequestVoteReply)
      (last : LogEntry V)
      → last_entry rf.log ≡ some last
      → request_vote encode now rf args ≡ some (reply, rf')
      → (reply.vote_granted ≡ (ltb rf.current_term args.term && up_to_date rf last args))
        × (reply.term ≡ rf.current_term)
  unfolding request_vote
  vote_reply now rf rf' args reply last k h = ground (arith, refuses_iff rf args)
