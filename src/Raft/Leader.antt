-- ===== src/Raft/Leader.antt =====
-- raft1/raft.go: singleHeartBeat, before its RPC and after it, and Start.
pub mod Support
use mit.Prelude.{
  ℕ, zero, suc, ◌-◌, ◌+◌, ◌/◌, Bool, true, false, ◌&&◌, ◌||◌, not, Option, none, some, List, [],
  ◌∷◌, ◌++◌, nat_eqb, ltb, leb, length, get_elem?, get_or, set, drop, if◌then◌else◌, sorted,
}
use mit.Raft.{EState, follower, leading, state_eqb, LogEntry, PersistentState, Raft}
use mit.Raft.Append.{AppendEntriesArgs, AppendEntriesReply}

-- The place in the sorted match indexes that is read as committed.
abbrev pub commit_place : ℕ → ℕ
commit_place peers = peers / 2 + 1

module _ {ℓ} {V : Type ℓ} where
  abbrev pub args_at : Raft V → ℕ → Option (AppendEntriesArgs V)
  args_at rf zero = none
  args_at rf (suc pi) = elim (get_elem? rf.log pi) [
    | none ↦ none
    | some e ↦ some (record {
      term = rf.current_term;
      leader_id = rf.me;
      prev_log_index = pi;
      prev_log_term = e.term;
      entries = drop (suc pi) rf.log;
      leader_commit = rf.commit_index;
    })
  ]

  -- The arguments for server `i`, `some none` if this server does not lead, `none` for a panic:
  -- an index of -1 or one past the log.
  unfoldable pub heartbeat_args : Raft V → ℕ → Option (Option (AppendEntriesArgs V))
  heartbeat_args rf i =
      if not (state_eqb rf.state leading) then some none else elim (get_elem? rf.next_index i) [
        | none ↦ none
        | some n ↦ elim (args_at rf n) [ none ↦ none | some a ↦ some (some a) ]
      ]

  abbrev pub caught_up : Raft V → ℕ → Raft V
  caught_up rf i = record rf {
    next_index = set rf.next_index i (length rf.log);
    match_index = set (set rf.match_index i (length rf.log - 1)) rf.me (length rf.log - 1);
  }

  -- Both branches read `rf.Log[c]`, the second one for its debug message.
  abbrev pub try_commit : Raft V → Option (Raft V)
  try_commit rf = elim (get_elem? (sorted rf.match_index) (commit_place rf.peers)) [
    | none ↦ none
    | some c ↦ elim (get_elem? rf.log c) [
      | none ↦ none
      | some e ↦ some (
          if ltb rf.commit_index c && nat_eqb e.term rf.current_term
          then record rf { commit_index = c; commit_signal = true }
          else rf)
    ]
  ]

  -- After the RPC: whether to send again at once, and the state; `none` is a panic. A next index
  -- of 0 stays 0 where the code has -1: either one makes the next `heartbeat_args` panic.
  unfoldable pub heartbeat_reply :
      ℕ → Raft V → ℕ → Bool → AppendEntriesReply → Option (Bool × Raft V)
  heartbeat_reply now rf i is_ok r =
      if not (state_eqb rf.state leading)
      then some (false, rf)
      else if not is_ok
      then some (true, rf)
      else if r.success
      then elim (try_commit (caught_up rf i)) [ none ↦ none | some rf' ↦ some (false, rf') ]
      else if ltb rf.current_term r.term
      then some (
        false,
        record rf {
          persistent = record rf.persistent { current_term = r.term; voted_for = none };
          state = follower;
          leader = none;
          leader_lease = now;
        },
      )
      else some
          (false, record rf { next_index = set rf.next_index i (get_or rf.next_index i 0 - 1) })

  -- `Start`: the index and term that the command would have, and whether it was taken.
  unfoldable pub start : Raft V → V → (ℕ × ℕ × Bool) × Raft V
  start rf command =
      let is_leader = state_eqb rf.state leading in
      (
        (length rf.log, rf.current_term, is_leader),
        if is_leader
            then record rf {
              persistent = record rf.persistent {
                log =
                    rf.log
                    ++ (record { term = rf.current_term; noop = false; value = command } ∷ []);
              };
            }
            else rf,
      )

  -- `GetState`
  unfoldable pub get_state : Raft V → ℕ × Bool
  get_state rf = (rf.current_term, state_eqb rf.state leading)
