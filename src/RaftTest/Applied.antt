-- ===== src/RaftTest/Applied.antt =====
-- The messages of commitIndexLoop (raft1/raft.go) at the applier of raft1/server.go.
use mit.Prelude.{
  ℕ, zero, suc, ◌+◌, ◌<◌, ◌≡◌, refl, sym, ap, ◌∙◌, arith, true, false, ◌&&◌, not, Option, none,
  some, List, [], ◌∷◌, ltb, nat_eqb_iff, get_elem?, get_elem?-set_self, get_elem?-lt, set,
  set-cases, if◌then◌else◌, HasEq, nat_eq, lookup-insert, insert-cases, inl, inr, ◌⊎◌,
}
use mit.KvSrv.Clerk.{Delivery, delivered}
use mit.Raft.{LogEntry}
use mit.Raft.Apply.{ApplyMsg, messages}
use mit.Raft.Apply.Order.{message}
use mit.RaftTest.{fine, RaftServer, Test, entry, is_present, prev_ok, check_logs}
use mit.RaftTest.Agree.{AllHave, clash-fine, recorded}
use mit.RaftTest.Applier.{apply_msg, applier}

-- Every RPC of the applier is executed and answered.
abbrev pub AllDelivered : (ℕ → Delivery × Delivery) → Type 0
AllDelivered fates = (k : ℕ) → fates k ≡ (delivered, delivered)

module _ {ℓ} {V : Type ℓ} where
  abbrev value_of : Option (LogEntry V) → Option V
  value_of none = none
  value_of (some l) = some l.value

  -- No server has another value than the log has, from index `k` of the log on.
  abbrev pub IsFaithful : ℕ → List (LogEntry V) → List (RaftServer V) → Type ℓ
  IsFaithful k ls srvs =
      (p : ℕ) (l : LogEntry V) → get_elem? ls p ≡ some l → AllHave (k + p) l.value srvs

  -- Every entry is a command.
  abbrev pub IsPlain : List (LogEntry V) → Type ℓ
  IsPlain ls = (p : ℕ) (l : LogEntry V) → get_elem? ls p ≡ some l → l.noop ≡ false

module _ {ℓ} {V : Type ℓ} ⦃e : HasEq V⦄ where
  -- A message that no server conflicts with, behind an entry or at index 1, is recorded.
  apply_msg-records :
      (ts : Test V) (i : ℕ) (me : RaftServer V) (m : ApplyMsg V)
      → get_elem? ts.srvs i ≡ some me
      → m.command_valid ≡ true
      → AllHave m.command_index m.command ts.srvs
      → (ltb 1 m.command_index && not (prev_ok me m.command_index)) ≡ false
      → (next : ℕ) × (apply_msg delivered delivered ts i m
          ≡ some (record { srvs = set ts.srvs i (recorded m me); max_index = next }))
  unfolding apply_msg check_logs
  apply_msg-records ts i me m have valid all ordered = (
    (if ltb ts.max_index m.command_index then m.command_index else ts.max_index),
    rw (valid, have, ordered, clash-fine m.command_index m.command i 0 ts.srvs all) refl,
  )

  recorded-IsFaithful :
      (k : ℕ) (l : LogEntry V) (ls : List (LogEntry V)) (srvs : List (RaftServer V)) (i : ℕ)
      (me : RaftServer V)
      → get_elem? srvs i ≡ some me
      → IsFaithful k (l ∷ ls) srvs
      → IsFaithful (suc k) ls (set srvs i (recorded (message k l) me))
  recorded-IsFaithful k l ls srvs i me have ok p l' at j rs w got en =
      elim (set-cases srvs i j (recorded (message k l) me) rs got) [
        | inr old ↦ ok (suc p) l' at j rs w old (ap (entry rs) (omega arith) ∙ en)
        | inl (_, is) ↦
            elim (insert-cases k (suc k + p) l.value w me.logs
              (ap (λ s. entry s (suc k + p)) (sym is) ∙ en)) [
                | inl (late, _) ↦ absurd (omega arith)
                | inr old ↦ ok (suc p) l' at i me w have (ap (entry me) (omega arith) ∙ old)
              ]
      ]

  entry-recorded_self :
      (m : ApplyMsg V) (me : RaftServer V) → entry (recorded m me) m.command_index ≡ some m.command
  entry-recorded_self m me =
      lookup-insert m.command_index m.command_index m.command me.logs
      ∙ rw ((nat_eqb_iff m.command_index m.command_index).1 refl) refl

  entry-recorded_other :
      (m : ApplyMsg V) (me : RaftServer V) (q : ℕ)
      → q < m.command_index
      → entry (recorded m me) q ≡ entry me q
  entry-recorded_other m me q h = lookup-insert m.command_index q m.command me.logs ∙ ground (arith)

  -- What stands at place `i` after the run: the entries of the log, and below it what there was.
  abbrev Recorded : ℕ → List (LogEntry V) → RaftServer V → RaftServer V → Type ℓ
  Recorded k ls me me' =
      (me'.apply_err ≡ me.apply_err)
      × ((p : ℕ) (l : LogEntry V) → get_elem? ls p ≡ some l → entry me' (k + p) ≡ some l.value)
      × ((q : ℕ) → q < k → entry me' q ≡ entry me q)

  Recorded-cons :
      (k : ℕ) (l : LogEntry V) (ls : List (LogEntry V)) (me me' : RaftServer V)
      → Recorded (suc k) ls (recorded (message k l) me) me'
      → Recorded k (l ∷ ls) me me'
  Recorded-cons k l ls me me' (quiet, new, old) =
      (quiet, have, λ q h. old q (omega arith) ∙ entry-recorded_other (message k l) me q h)
    where
      have :
          (p : ℕ) (l' : LogEntry V)
          → get_elem? (l ∷ ls) p ≡ some l'
          → entry me' (k + p) ≡ some l'.value
      have zero l' at =
          ap (entry me') (omega arith)
          ∙ old k (omega arith)
          ∙ entry-recorded_self (message k l) me
          ∙ ap value_of at
      have (suc p) l' at = ap (entry me') (omega arith) ∙ new p l' at

  applier-cons :
      (fates : ℕ → Delivery × Delivery) (turn : ℕ) (ts ts' : Test V) (i : ℕ) (m : ApplyMsg V)
      (ms : List (ApplyMsg V))
      → AllDelivered fates
      → apply_msg delivered delivered ts i m ≡ some ts'
      → applier fates turn ts i (m ∷ ms) ≡ applier fates (suc turn) ts' i ms
  applier-cons fates turn ts ts' i m ms arrive h = rw (applier, arrive turn, h) refl

  applier-from :
      (fates : ℕ → Delivery × Delivery) (turn : ℕ) (ls : List (LogEntry V)) (k : ℕ) (ts : Test V)
      (i : ℕ) (me : RaftServer V)
      → AllDelivered fates
      → get_elem? ts.srvs i ≡ some me
      → IsPlain ls
      → IsFaithful (suc k) ls ts.srvs
      → (k ≡ 0) ⊎ (is_present (entry me k) ≡ true)
      → (ts' : Test V) × (me' : RaftServer V) × (applier fates turn ts i (messages (suc k) ls)
          ≡ some ts')
        × (get_elem? ts'.srvs i ≡ some me')
        × Recorded (suc k) ls me me'
  applier-from fates turn [] k ts i me arrive have plain ok prev =
      (ts, me, refl, have, (refl, (λ p l. cc), λ q h. refl))
  applier-from fates turn (l ∷ ls) k ts i me arrive have plain ok prev =
      let m = message (suc k) l in
      let all : AllHave (suc k) l.value ts.srvs =
        λ j rs w got en. ok 0 l refl j rs w got (ap (entry rs) (omega arith) ∙ en) in
      let (next, run) =
        apply_msg-records ts i me m have (ap not (plain 0 l refl)) all (in_order k me prev) in
      let me1 = recorded m me in
      let here : get_elem? (set ts.srvs i me1) i ≡ some me1 =
        get_elem?-set_self ts.srvs i me1 (get_elem?-lt ts.srvs i me have) in
      let (ts', me', rest, at, done) =
        applier-from fates (suc turn) ls (suc k)
          (record { srvs = set ts.srvs i me1; max_index = next }) i me1 arrive here
          (λ p. plain (suc p)) (recorded-IsFaithful (suc k) l ls ts.srvs i me have ok)
          (inr (ap is_present (entry-recorded_self m me))) in
      (
        ts',
        me',
        applier-cons fates turn ts (record { srvs = set ts.srvs i me1; max_index = next }) i m
              (messages (suc (suc k)) ls) arrive run
            ∙ rest,
        at,
        Recorded-cons (suc k) l ls me me' done,
      )
    where
      in_order :
          (k : ℕ) (me : RaftServer V)
          → (k ≡ 0) ⊎ (is_present (entry me k) ≡ true)
          → (ltb 1 (suc k) && not (prev_ok me (suc k))) ≡ false
      in_order k me (inl z) = rw z refl
      in_order k me (inr p) = rw p (ground arith)

  -- The tester records a log in which only the entry at index 0 is no command: if the server of
  -- place `i` has no error, no server has another value at an index than the log, and every RPC to
  -- the tester is executed and answered, then the applier, on the messages of commitIndexLoop for
  -- the whole log, reports no error, and afterwards the tester has the log's value at each index
  -- from 1 on.
  pub applier-messages :
      (fates : ℕ → Delivery × Delivery) (ts : Test V) (i : ℕ) (me : RaftServer V)
      (first : LogEntry V) (ls : List (LogEntry V))
      → AllDelivered fates
      → get_elem? ts.srvs i ≡ some me
      → me.apply_err ≡ fine
      → first.noop ≡ true
      → IsPlain ls
      → IsFaithful 1 ls ts.srvs
      → (ts' : Test V) × (me' : RaftServer V) × (applier fates 0 ts i (messages 0 (first ∷ ls))
          ≡ some ts')
        × (get_elem? ts'.srvs i ≡ some me')
        × (me'.apply_err ≡ fine)
        × ((p : ℕ) (l : LogEntry V) → get_elem? ls p ≡ some l → entry me' (suc p) ≡ some l.value)
  unfolding apply_msg
  applier-messages fates ts i me first ls arrive have quiet head plain ok =
      let (ts', me', run, at, (same, new, old)) =
        applier-from fates 1 ls 0 ts i me arrive have plain ok (inl refl) in
      (
        ts',
        me',
        rw head run,
        at,
        same ∙ quiet,
        λ p l here. ap (entry me') (omega arith) ∙ new p l here,
      )
