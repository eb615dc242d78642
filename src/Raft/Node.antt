-- ===== src/Raft/Node.antt =====
-- One server of raft1/raft.go as a machine over its critical sections, and the votes that it gives.
use mit.Prelude.{ℕ, ◌≤◌, ◌<◌, ◌≡◌, arith, Bool, Option, none, some, List, if◌then◌else◌}
use mit.Raft.{PersistentState, Raft}
use mit.Raft.Vote.{RequestVoteArgs, RequestVoteReply, request_vote}
use mit.Raft.Append.{AppendEntriesArgs, AppendEntriesReply, append_entries}
use mit.Raft.Election.{
  Count, timed_out, waiting, newer_term, counted, candidate_check, become_candidate,
  finish_election,
}
use mit.Raft.Leader.{heartbeat_reply, start}

-- What runs under the mutex: a handler, one stretch of candidateLoop, singleHeartBeat after its
-- RPC, or Start.
pub data Event {ℓ} (V : Type ℓ) : Type ℓ where
  vote_request : ℕ → RequestVoteArgs → Event V
  append_request : ℕ → AppendEntriesArgs V → Event V
  check_lease : Bool → ℕ → ℕ → Event V
  candidacy_starts : Event V
  election_ends : ℕ → Count → Event V
  beat_answered : ℕ → ℕ → Bool → AppendEntriesReply → Event V
  command : V → Event V

module _ {ℓ} {V : Type ℓ} (encode : PersistentState V → List ℕ) where
  abbrev second {κ} : {A : Type κ} → Option (A × Raft V) → Option (Raft V)
  second none = none
  second (some (_, rf)) = some rf

  -- The state after an event; `none` is a panic.
  unfoldable pub handle : Raft V → Event V → Option (Raft V)
  handle rf (vote_request now args) = second (request_vote encode now rf args)
  handle rf (append_request now args) = some (append_entries encode now rf args).1
  handle rf (check_lease prev lease dur) = some (candidate_check rf prev lease dur).1
  handle rf candidacy_starts = second (become_candidate rf)
  handle rf (election_ends term c) = some (finish_election rf term c)
  handle rf (beat_answered now i is_ok r) = second (heartbeat_reply now rf i is_ok r)
  handle rf (command v) = some (start rf v).1

  abbrev granted : RequestVoteArgs → Option (RequestVoteReply × Raft V) → Option (ℕ × ℕ)
  granted args none = none
  granted args (some (reply, _)) =
      if reply.vote_granted then some (args.term, args.candidate_id) else none

  abbrev own_vote : Option (RequestVoteArgs × Raft V) → Option (ℕ × ℕ)
  own_vote none = none
  own_vote (some (args, _)) = some (args.term, args.candidate_id)

  -- The vote that an event gives, as a term and a candidate: a granted request, or a candidacy.
  unfoldable pub vote_of : Raft V → Event V → Option (ℕ × ℕ)
  vote_of rf (vote_request now args) = granted args (request_vote encode now rf args)
  vote_of rf candidacy_starts = own_vote (become_candidate rf)
  vote_of rf _ = none

  -- No event lowers the term.
  pub handle-term :
      (rf rf' : Raft V) (ev : Event V)
      → handle rf ev ≡ some rf'
      → rf.current_term ≤ rf'.current_term
  unfolding handle request_vote append_entries candidate_check become_candidate finish_election
      heartbeat_reply start
  handle-term rf rf' (vote_request now args) h = ground arith
  handle-term rf rf' (append_request now args) h = ground arith
  handle-term rf rf' (check_lease prev lease dur) h = ground arith
  handle-term rf rf' candidacy_starts h = ground arith
  handle-term rf rf' (election_ends term timed_out) h = ground arith
  handle-term rf rf' (election_ends term waiting) h = ground arith
  handle-term rf rf' (election_ends term (newer_term m)) h = ground arith
  handle-term rf rf' (election_ends term (counted y n)) h = ground arith
  handle-term rf rf' (beat_answered now i is_ok r) h = ground arith
  handle-term rf rf' (command v) h = ground arith

  -- A vote is for a term that is new to the server, and the server then is in that term with
  -- that vote.
  pub handle-vote :
      (rf rf' : Raft V) (ev : Event V) (t c : ℕ)
      → handle rf ev ≡ some rf'
      → vote_of rf ev ≡ some (t, c)
      → (rf.current_term < t) × (rf'.current_term ≡ t) × (rf'.voted_for ≡ some c)
  unfolding handle vote_of request_vote become_candidate
  handle-vote rf rf' (vote_request now args) t c h v = ground arith
  handle-vote rf rf' candidacy_starts t c h v = ground arith
  handle-vote rf rf' _ t c h v = cc
