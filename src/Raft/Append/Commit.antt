-- ===== src/Raft/Append/Commit.antt =====
-- The commit index under AppendEntries of raft1/raft.go.
use mit.Prelude.{ℕ, ◌+◌, ◌<◌, ◌≤◌, ◌≡◌, arith, true, List, take, length, length-append, length-take}
use mit.Raft.{PersistentState, Raft}
use mit.Raft.Append.{AppendEntriesArgs, has_entry, append_entries}

module _ {ℓ} {V : Type ℓ} (encode : PersistentState V → List ℕ) where
  -- A request of the current term whose previous entry is in the log, whose entries end below the
  -- commit index, and whose commit index of the leader is not above it, such as a heartbeat that
  -- arrives late, is accepted and erases committed entries, while the commit index stays.
  pub late_append_erases :
      (now : ℕ) (rf : Raft V) (args : AppendEntriesArgs V)
      → args.term ≡ rf.current_term
      → has_entry rf.log args.prev_log_index args.prev_log_term ≡ true
      → args.prev_log_index + length args.entries < rf.commit_index
      → args.leader_commit ≤ rf.commit_index
      → ((append_entries encode now rf args).0.success ≡ true)
        × ((append_entries encode now rf args).1.commit_index ≡ rf.commit_index)
        × (length (append_entries encode now rf args).1.log ≤ rf.commit_index)
  unfolding append_entries
  late_append_erases now rf args current prev below old = ground (
    arith,
    length-append (take (args.prev_log_index + 1) rf.log) args.entries,
    length-take (args.prev_log_index + 1) rf.log,
  )
