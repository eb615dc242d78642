-- ===== src/RaftTest.antt =====
-- raft1/test.go: what the tester of Raft keeps of each server, and its checks. A server is known by
-- its place. `rfsrv` is the address of the proxy, `none` for nil.
pub mod Applier
pub mod Snapshots
pub mod Leaders
pub mod Agree
pub mod Count
pub mod Applied
mod Examples
use mit.Prelude.{
  ℕ, zero, suc, ◌+◌, Bool, true, false, ◌&&◌, not, Option, none, some, List, [], ◌∷◌, ltb,
  get_elem?, set, if◌then◌else◌, HasEq, nat_eq, ◌==◌, lookup, insert,
}
use mit.Raft.Apply.{ApplyMsg}

-- The error strings: `fine` is the empty one. The values that they print are left out.
pub data ErrMsg : Type 0 where
  fine err_rpc nil_snapshot undecodable : ErrMsg
  differs : (index server other : ℕ) → ErrMsg
  out_of_order : (server index : ℕ) → ErrMsg
  unexpected : (server expected got : ℕ) → ErrMsg
  mismatch : (server : ℕ) → ErrMsg

abbrev pub is_fine : ErrMsg → Bool
is_fine fine = true
is_fine _ = false

pub record RaftServer {ℓ} (V : Type ℓ) : Type ℓ where
  pub rfsrv : Option ℕ
  pub apply_err : ErrMsg
  pub logs : List (ℕ × V)

pub record Test {ℓ} (V : Type ℓ) : Type ℓ where
  pub srvs : List (RaftServer V)
  pub max_index : ℕ

-- What nCommitted ends in: Fatal, or a count with the command.
pub data Committed {ℓ} (V : Type ℓ) : Type ℓ where
  fatal : Committed V
  counted : ℕ → Option V → Committed V

module _ {ℓ} {V : Type ℓ} where
  abbrev pub new_raft_server : ℕ → RaftServer V
  new_raft_server srv = record { rfsrv = some srv; apply_err = fine; logs = [] }

  abbrev pub entry : RaftServer V → ℕ → Option V
  entry rs i = lookup i rs.logs

  abbrev pub is_present : Option V → Bool
  is_present none = false
  is_present (some _) = true

  -- `me.entry(index - 1)`: the key -1 is never there.
  abbrev pub prev_ok : RaftServer V → ℕ → Bool
  prev_ok me zero = false
  prev_ok me (suc i) = is_present (entry me i)

  -- The servers after a change of one; `none` where the place is out of range.
  abbrev pub with_server : Test V → ℕ → (RaftServer V → RaftServer V) → Option (Test V)
  with_server ts i f = elim (get_elem? ts.srvs i) [
    | none ↦ none
    | some me ↦ some (record ts { srvs = set ts.srvs i (f me) })
  ]

  -- mksrv, where the place has a server.
  abbrev pub mksrv : Test V → ℕ → ℕ → Option (Test V)
  mksrv ts i dc = with_server ts i (λ me. record me { rfsrv = some dc })

  -- The second loop of kill.
  abbrev pub kill : Test V → List ℕ → Option (Test V)
  kill ts [] = some ts
  kill ts (i ∷ is) = elim (with_server ts i (λ me. record me { rfsrv = none })) [
    | none ↦ none
    | some ts' ↦ kill ts' is
  ]

  abbrev pub copy_log : List (ℕ × V) → List (ℕ × V) → List (ℕ × V)
  copy_log [] logs = logs
  copy_log ((k, v) ∷ xlog) logs = copy_log xlog (insert k v logs)

  abbrev pub ingest_log : Test V → ℕ → List (ℕ × V) → Option (Test V)
  ingest_log ts i xlog = with_server ts i (λ me. record me { logs = copy_log xlog [] })

  abbrev pub apply_err : Test V → ℕ → ErrMsg → Option (Test V)
  apply_err ts i err = with_server ts i (λ me. record me { apply_err = err })

module _ {ℓ} {V : Type ℓ} ⦃e : HasEq V⦄ where
  -- The server has another value at the index.
  abbrev pub conflicts : ℕ → V → RaftServer V → Bool
  conflicts index v rs = elim (entry rs index) [ none ↦ false | some old ↦ not (old == v) ]

  -- The loop of CheckLogs, from place `j` on: the last conflict stays.
  abbrev pub clash : ℕ → V → ℕ → ℕ → List (RaftServer V) → ErrMsg → ErrMsg
  clash index v i j [] err = err
  clash index v i j (rs ∷ srvs) err =
      clash index v i (suc j) srvs (if conflicts index v rs then differs index i j else err)

  unfoldable pub check_logs : Test V → ℕ → ApplyMsg V → Option ((ErrMsg × Bool) × Test V)
  check_logs ts i m = elim (get_elem? ts.srvs i) [
    | none ↦ none
    | some me ↦
        let err = clash m.command_index m.command i 0 ts.srvs fine in
        let me' = record me { logs = insert m.command_index m.command me.logs } in
        some (
          (err, prev_ok me m.command_index),
          record {
            srvs = set ts.srvs i me';
            max_index = if ltb ts.max_index m.command_index then m.command_index else ts.max_index;
          },
        )
  ]

  abbrev pub unmatched : ℕ → Option V → V → Bool
  unmatched count none cmd1 = ltb 0 count
  unmatched count (some cmd) cmd1 = ltb 0 count && not (cmd == cmd1)

  -- The loop of nCommitted, with the count and the command so far.
  abbrev pub committed_from : ℕ → List (RaftServer V) → ℕ → Option V → Committed V
  committed_from index [] count cmd = counted count cmd
  committed_from index (rs ∷ srvs) count cmd =
      let skip = committed_from index srvs count cmd in
      if not (is_fine rs.apply_err) then fatal else elim (entry rs index) [
        | none ↦ skip
        | some cmd1 ↦
            let more = committed_from index srvs (suc count) (some cmd1) in
            if unmatched count cmd cmd1 then fatal else more
      ]

  unfoldable pub n_committed : Test V → ℕ → Committed V
  n_committed ts index = committed_from index ts.srvs 0 none
