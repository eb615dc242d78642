-- ===== src/Raft/Restart.antt =====
-- A server of raft1/raft.go that stops and is made again from what its persister holds.
use mit.Prelude.{ℕ, ◌≡◌, ◌≢◌, arith, true, Option, some, List, []}
use mit.Raft.{LogEntry, PersistentState, Raft, make, fresh}
use mit.Raft.Vote.{RequestVoteArgs, RequestVoteReply, last_entry, up_to_date, vote_on, request_vote}
use mit.Raft.Election.{become_candidate}

module _ {ℓ} {V : Type ℓ} (encode : PersistentState V → List ℕ)
    (decode : List ℕ → Option (PersistentState V)) where
  -- A candidacy is not saved: a server that becomes a candidate, votes for itself, stops and is
  -- made again then grants another candidate's request in the term of its own candidacy, if its log
  -- is up to date, and what the server had saved is its state, which is read back.
  pub restart_votes_again :
      (rf rf1 : Raft V) (zero_value : V) (now : ℕ) (own args : RequestVoteArgs) (last : LogEntry V)
      → rf.saved ≡ encode rf.persistent
      → decode (encode rf.persistent) ≡ some rf.persistent
      → encode rf.persistent ≢ []
      → become_candidate rf ≡ some (own, rf1)
      → last_entry rf.log ≡ some last
      → args.term ≡ own.term
      → up_to_date rf last args ≡ true
      → (rf1.voted_for ≡ some rf.me)
        × (rf1.current_term ≡ args.term)
        × ((rf2 : Raft V) × (rf3 : Raft V) × (reply : RequestVoteReply) × (make decode zero_value
                rf.peers rf.me now rf1.saved
              ≡ some rf2)
            × (request_vote encode now rf2 args ≡ some (reply, rf3))
            × (reply.vote_granted ≡ true))
  unfolding make become_candidate request_vote
  restart_votes_again rf rf1 zero_value now own args last saved back full camp k same fresh_log =
      let rf2 = record (fresh zero_value rf.peers rf.me now rf.saved) {
        persistent = rf.persistent;
      } in
      (
        ground arith,
        ground arith,
        (
          rf2,
          (vote_on encode now rf2 args last).1,
          (vote_on encode now rf2 args last).0,
          ground arith,
          ground arith,
          ground arith,
        ),
      )
