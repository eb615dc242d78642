-- ===== src/Raft/Append.antt =====
-- raft1/raft.go: the AppendEntries handler.
pub mod Matching
pub mod Commit
use mit.Prelude.{
  ℕ, ◌-◌, ◌+◌, Bool, true, false, ◌&&◌, Option, none, some, List, ◌++◌, nat_eqb, ltb, min, length,
  take, get_elem?, if◌then◌else◌,
}
use mit.Raft.{EState, follower, LogEntry, PersistentState, Raft, persist}

pub record AppendEntriesArgs {ℓ} (V : Type ℓ) : Type ℓ where
  pub term : ℕ
  pub leader_id : ℕ
  pub prev_log_index : ℕ
  pub prev_log_term : ℕ
  pub entries : List (LogEntry V)
  pub leader_commit : ℕ

pub record AppendEntriesReply : Type 0 where
  pub term : ℕ
  pub success : Bool

module _ {ℓ} {V : Type ℓ} where
  -- `len(rf.Log) > prev && rf.Log[prev].Term == term`
  abbrev pub has_entry : List (LogEntry V) → ℕ → ℕ → Bool
  has_entry log prev term = elim (get_elem? log prev) [
    | none ↦ false
    | some e ↦ nat_eqb e.term term
  ]

  -- The state once the sender is accepted as the leader of its term.
  abbrev pub follow : ℕ → Raft V → AppendEntriesArgs V → Raft V
  follow now rf args = record rf {
    persistent = record rf.persistent { current_term = args.term; voted_for = some args.leader_id };
    state = follower;
    leader = some args.leader_id;
    leader_lease = now;
  }

  abbrev pub spliced : List (LogEntry V) → AppendEntriesArgs V → List (LogEntry V)
  spliced log args = take (args.prev_log_index + 1) log ++ args.entries

  -- The commit index, and whether it moved, after the log has become `log`.
  abbrev pub advance : Raft V → AppendEntriesArgs V → Raft V
  advance rf args =
      if ltb rf.commit_index args.leader_commit
      then record rf {
        commit_index = min args.leader_commit (length rf.log - 1);
        commit_signal = true;
      }
      else rf

  unfoldable pub append_entries :
      (PersistentState V → List ℕ) → ℕ → Raft V → AppendEntriesArgs V → AppendEntriesReply × Raft V
  append_entries encode now rf args =
      if ltb args.term rf.current_term
      then (record { term = rf.current_term; success = false }, rf)
      else let rf1 = follow now rf args in
        if has_entry rf.log args.prev_log_index args.prev_log_term
        then (
          record { term = rf.current_term; success = true },
          persist encode (
              advance
                (record rf1 { persistent = record rf1.persistent { log = spliced rf.log args } })
                args),
        )
        else (record { term = rf.current_term; success = false }, rf1)
