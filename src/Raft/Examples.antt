-- ===== src/Raft/Examples.antt =====
-- The theorems on raft1/raft.go at concrete servers. Commands are numbers.
use mit.Prelude.{ℕ, zero, suc, ◌≡◌, refl, true, false, ◌&&◌, none, some, [], ◌∷◌, ltb}
use mit.Raft.{Raft}
use mit.Raft.Vote.{RequestVoteArgs, RequestVoteReply, up_to_date, request_vote}
use mit.Raft.Vote.Laws.{vote_reply}
use mit.Raft.Append.{AppendEntriesArgs, append_entries}
use mit.Raft.Append.Matching.{Matches, append_replicates}
use mit.Raft.Leader.{heartbeat_args}
use mit.Raft.Fixtures.{encode, entry, root, start_log, lead_log, node, lead}

abbrev request : RequestVoteArgs
request = record { term = 1; candidate_id = 0; last_log_index = 0; last_log_term = 0 }

abbrev node_votes : Raft ℕ
node_votes = record node {
  persistent = record { current_term = 1; voted_for = some 0; log = start_log };
  leader = some 0;
  leader_lease = 5;
  saved = encode (record { current_term = 1; voted_for = some 0; log = start_log });
}

abbrev granted_reply : RequestVoteReply
granted_reply = record { term = 0; vote_granted = true }

votes : request_vote encode 5 node request ≡ some (granted_reply, node_votes)
unfolding request_vote
votes = refl

vote_reply_example : (true ≡ (ltb 0 1 && up_to_date node root request)) × (◌≡◌ {A = ℕ} 0 0)
vote_reply_example = vote_reply encode 5 node node_votes request granted_reply root refl votes

-- A leader with a longer log refuses a newer candidate, takes over its term and stays leader.
abbrev newer : RequestVoteArgs
newer = record { term = 2; candidate_id = 1; last_log_index = 0; last_log_term = 0 }

abbrev lead_refuses : Raft ℕ
lead_refuses = record lead {
  persistent = record { current_term = 2; voted_for = none; log = lead_log };
  leader = none;
}

refuses_newer :
    request_vote encode 5 lead newer
    ≡ some (record { term = 1; vote_granted = false }, lead_refuses)
unfolding request_vote
refuses_newer = refl

abbrev beat : AppendEntriesArgs ℕ
beat = record {
  term = 1;
  leader_id = 0;
  prev_log_index = 0;
  prev_log_term = 0;
  entries = entry 1 7 ∷ entry 1 8 ∷ [];
  leader_commit = 0;
}

beats : heartbeat_args lead 1 ≡ some (some beat)
unfolding heartbeat_args
beats = refl

matching : Matches start_log lead_log
matching zero e e' h h' t = refl
matching (suc i) e e' h h' t = cc

append_replicates_example : (append_entries encode 5 node beat).1.log ≡ lead_log
unfolding append_entries
append_replicates_example = append_replicates encode 5 1 node lead beat beats matching refl
