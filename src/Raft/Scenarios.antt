-- ===== src/Raft/Scenarios.antt =====
-- The theorems on raft1/raft.go for leaders, elections, clusters and restarts, at concrete ones.
use mit.Prelude.{
  update, ℕ, ◌+◌, ◌≤◌, ◌<◌, ◌≡◌, ◌≢◌, ◌⊎◌, refl, arith, true, false, some, List, [], ◌∷◌, length,
  get_elem?, count_ge,
}
use mit.Raft.{follower, candidate, leading, LogEntry, PersistentState, Raft, make}
use mit.Raft.Vote.{RequestVoteArgs, RequestVoteReply, request_vote}
use mit.Raft.Append.{AppendEntriesArgs, AppendEntriesReply, append_entries}
use mit.Raft.Append.Commit.{late_append_erases}
use mit.Raft.Election.{need_yes, become_candidate}
use mit.Raft.Leader.{heartbeat_reply}
use mit.Raft.Leader.Support.{commit_support, one_reply_commits}
use mit.Raft.Apply.{ApplyMsg, pushed, messages, apply_round}
use mit.Raft.Apply.Order.{apply_passes_commit}
use mit.Raft.Node.{vote_request, candidacy_starts, handle, vote_of}
use mit.Raft.Quorum.{Cluster, Reach, here, next, at, tally, cast, election_safety}
use mit.Raft.Restart.{restart_votes_again}
use mit.Raft.Fixtures.{encode, decode, entry, server, root, start_log, lead_log, node, lead}

-- A late heartbeat reaches a server that has the leader's log, all of it committed.
abbrev synced : Raft ℕ
synced = record (server 3 1 1 follower lead_log) { commit_index = 2 }

abbrev late : AppendEntriesArgs ℕ
late = record {
  term = 1;
  leader_id = 0;
  prev_log_index = 0;
  prev_log_term = 0;
  entries = [];
  leader_commit = 0;
}

late_append_erases_example :
    ((append_entries encode 5 synced late).0.success ≡ true)
    × ((append_entries encode 5 synced late).1.commit_index ≡ 2)
    × (length (append_entries encode 5 synced late).1.log ≤ 2)
late_append_erases_example =
    late_append_erases encode 5 synced late refl refl (omega arith) (omega arith)

abbrev yes_vote : RequestVoteReply
yes_vote = record { term = 0; vote_granted = true }

abbrev no_vote : RequestVoteReply
no_vote = record { term = 1; vote_granted = false }

abbrev replies : List RequestVoteReply
replies = yes_vote ∷ no_vote ∷ no_vote ∷ yes_vote ∷ []

-- A leader of five whose log the others lack, and a success of server 1.
abbrev big_lead : Raft ℕ
big_lead = server 5 0 1 leading lead_log

abbrev success : AppendEntriesReply
success = record { term = 1; success = true }

abbrev big_committed : Raft ℕ
big_committed = record big_lead {
  commit_index = 2;
  commit_signal = true;
  next_index = 1 ∷ 3 ∷ 1 ∷ 1 ∷ 1 ∷ [];
  match_index = 2 ∷ 2 ∷ 0 ∷ 0 ∷ 0 ∷ [];
}

commits : heartbeat_reply 5 big_lead 1 true success ≡ some (false, big_committed)
unfolding heartbeat_reply
commits = refl

one_reply_commits_example : big_committed.commit_index ≡ 2
one_reply_commits_example =
    one_reply_commits 5 1 big_lead big_committed false success (entry 1 8) refl (omega arith)
      (omega arith) (omega arith) (omega arith) (λ e. omega arith) refl refl refl refl (omega arith)
      commits

commit_support_example :
    (big_committed.commit_index ≡ 0)
    ⊎ ((e : LogEntry ℕ) × (0 < big_committed.commit_index)
        × (get_elem? big_committed.log big_committed.commit_index ≡ some e)
        × (e.term ≡ big_committed.current_term)
        × (5 ≤ count_ge big_committed.commit_index big_committed.match_index + 3))
commit_support_example = commit_support 5 1 big_lead big_committed true false success refl commits

-- A server that has sent entry 0 wakes when entry 1 is committed.
abbrev woken : Raft ℕ
woken = record lead { commit_index = 1 }

abbrev sent : List (ApplyMsg ℕ)
sent = messages 1 (entry 1 7 ∷ entry 1 8 ∷ [])

round : apply_round woken 1 ≡ pushed sent 3
unfolding apply_round
round = refl

apply_passes_commit_example :
    get_elem? sent 1 ≡ some (record { command_valid = true; command = 8; command_index = 2 })
apply_passes_commit_example =
    apply_passes_commit woken 1 3 2 sent (entry 1 8) round refl (omega arith)

-- Server 0 of three campaigns and server 1 votes for it.
abbrev start_node : ℕ → Raft ℕ
start_node i = server 3 i 0 follower start_log

abbrev campaigner : Raft ℕ
campaigner = record (start_node 0) {
  state = candidate;
  persistent = record { current_term = 1; voted_for = some 0; log = start_log };
}

abbrev request : RequestVoteArgs
request = record { term = 1; candidate_id = 0; last_log_index = 0; last_log_term = 0 }

abbrev voter : Raft ℕ
voter = record (start_node 1) {
  persistent = record { current_term = 1; voted_for = some 0; log = start_log };
  leader = some 0;
  leader_lease = 5;
  saved = encode (record { current_term = 1; voted_for = some 0; log = start_log });
}

campaigns : handle encode (start_node 0) candidacy_starts ≡ some campaigner
unfolding handle become_candidate
campaigns = refl

voted : handle encode (start_node 1) (vote_request 5 request) ≡ some voter
unfolding handle request_vote
voted = refl

gives : vote_of encode (start_node 1) (vote_request 5 request) ≡ some (1, 0)
unfolding vote_of request_vote
gives = refl

abbrev one_vote : Cluster encode
one_vote = record {
  nodes = update start_node 0 campaigner;
  votes = cast 0 (vote_of encode (start_node 0) candidacy_starts) [];
}

abbrev two_votes : Cluster encode
two_votes = record {
  nodes = update one_vote.nodes 1 voter;
  votes = cast 1 (vote_of encode (start_node 1) (vote_request 5 request)) one_vote.votes;
}

reached : Reach encode start_node two_votes
reached =
    next (next here (at 0 candidacy_starts campaigner campaigns))
      (at 1 (vote_request 5 request) voter voted)

majority : need_yes 3 ≤ tally two_votes.votes 3 1 0
unfolding vote_of become_candidate request_vote
majority = omega arith

election_safety_example : ◌≡◌ {A = ℕ} 0 0
election_safety_example = election_safety encode reached 3 1 0 0 majority majority

full_state : (p : PersistentState ℕ) → encode p ≢ []
full_state p e = cc

abbrev own : RequestVoteArgs
own = record { term = 1; candidate_id = 1; last_log_index = 0; last_log_term = 0 }

abbrev campaigner1 : Raft ℕ
campaigner1 = record node {
  state = candidate;
  persistent = record { current_term = 1; voted_for = some 1; log = start_log };
}

campaigns1 : become_candidate node ≡ some (own, campaigner1)
unfolding become_candidate
campaigns1 = refl

restart_votes_again_example :
    (campaigner1.voted_for ≡ some 1)
    × (◌≡◌ {A = ℕ} 1 1)
    × ((rf2 : Raft ℕ) × (rf3 : Raft ℕ) × (reply : RequestVoteReply) × (make decode 0 3 1 5
            campaigner1.saved
          ≡ some rf2)
        × (request_vote encode 5 rf2 request ≡ some (reply, rf3))
        × (reply.vote_granted ≡ true))
restart_votes_again_example =
    restart_votes_again encode decode node campaigner1 0 5 own request root refl refl
      (full_state node.persistent) campaigns1 refl refl refl
