-- ===== src/RaftTest/Applier.antt =====
-- raft1/server.go and raft1/proxy.go: the process that reads what Raft applies and reports it to
-- the tester. The tester's RPCs are lost, executed without a reply, or answered.
use mit.Prelude.{
  ℕ, suc, Bool, false, ◌&&◌, not, Option, none, some, List, [], ◌∷◌, ltb, if◌then◌else◌, HasEq,
  nat_eq,
}
use mit.KvSrv.Clerk.{Delivery, request_lost, reply_lost, delivered}
use mit.Raft.Apply.{ApplyMsg}
use mit.RaftTest.{ErrMsg, err_rpc, out_of_order, is_fine, Test, check_logs, apply_err, ingest_log}

-- `rfsrv`, without its Raft and its proxy. The state of the tester stands beside it.
pub record Rfsrv {ℓ} (V : Type ℓ) : Type ℓ where
  pub me : ℕ
  pub last_applied : ℕ
  pub log : List (ℕ × V)

module _ {ℓ} {V : Type ℓ} where
  -- The proxies of ApplyErr and IngestLog.
  abbrev pub report : Delivery → Test V → ℕ → ErrMsg → Option (Test V)
  report request_lost ts i err = some ts
  report _ ts i err = if is_fine err then some ts else apply_err ts i err

  abbrev pub send_log : Delivery → Test V → ℕ → List (ℕ × V) → Option (Test V)
  send_log request_lost ts i xlog = some ts
  send_log _ ts i xlog = ingest_log ts i xlog

module _ {ℓ} {V : Type ℓ} ⦃e : HasEq V⦄ where
  -- The proxy of CheckLogs.
  abbrev pub check_rpc : Delivery → Test V → ℕ → ApplyMsg V → Option ((ErrMsg × Bool) × Test V)
  check_rpc request_lost ts i m = some ((err_rpc, false), ts)
  check_rpc reply_lost ts i m = elim (check_logs ts i m) [
    | none ↦ none
    | some (_, ts') ↦ some ((err_rpc, false), ts')
  ]
  check_rpc delivered ts i m = check_logs ts i m

  abbrev pub order_err : ℕ → ApplyMsg V → ErrMsg → Bool → ErrMsg
  order_err me m err prevok =
      if ltb 1 m.command_index && not prevok then out_of_order me m.command_index else err

  -- One turn of applier's loop, with the fates of its two RPCs.
  unfoldable pub apply_msg : Delivery → Delivery → Test V → ℕ → ApplyMsg V → Option (Test V)
  apply_msg d d' ts me m = if not m.command_valid then some ts else elim (check_rpc d ts me m) [
    | none ↦ none
    | some ((err, prevok), ts') ↦ report d' ts' me (order_err me m err prevok)
  ]

  -- applier, on the messages that it pulls, from turn `k` on; each turn has the fates of its RPCs.
  abbrev pub applier :
      (ℕ → Delivery × Delivery) → ℕ → Test V → ℕ → List (ApplyMsg V) → Option (Test V)
  applier fates k ts me [] = some ts
  applier fates k ts me (m ∷ ms) = elim (apply_msg (fates k).0 (fates k).1 ts me m) [
    | none ↦ none
    | some ts' ↦ applier fates (suc k) ts' me ms
  ]
