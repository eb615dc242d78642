-- ===== src/RaftTest/Snapshots/CatchUp.antt =====
-- A snapshot that one server of raft1/server.go makes, at another.
use mit.Prelude.{
  ℕ, zero, suc, ◌+◌, ◌%◌, ◌≤◌, ◌<◌, ◌≡◌, refl, sym, ap, ◌∙◌, arith, not, Option, none, some, List,
  [], ◌∷◌, nat_eqb, nat_eqb_iff, get_elem?, set, HasEq, nat_eq, lookup, lookup-insert, insert,
  Bool-cases, Option-cases, inl, inr,
}
use mathlib.Core.Option.{some-injective, none-ne-some}
use mit.KvSrv.Clerk.{Delivery, delivered}
use mit.Raft.Apply.{ApplyMsg}
use mit.RaftTest.{fine, RaftServer, Test, copy_log}
use mit.RaftTest.Applier.{Rfsrv, report}
use mit.RaftTest.Snapshots.{
  ingest_from, value_or, snap_from, ingest_snap, snapshot_at, snapshot_msg, command_msg, Turn,
  checked, ingested, apply_snap,
}

module _ {ℓ} {V : Type ℓ} where
  lookup-ingest_below :
      (xlog : List V) (j k : ℕ) (log : List (ℕ × V))
      → k < j
      → lookup k (ingest_from j xlog log) ≡ lookup k log
  lookup-ingest_below [] j k log h = refl
  lookup-ingest_below (v ∷ xlog) j k log h =
      lookup-ingest_below xlog (suc j) k (insert j v log) (omega arith)
      ∙ lookup-insert j k v log
      ∙ ground arith

  lookup-ingest_in :
      (xlog : List V) (j p : ℕ) (v : V) (log : List (ℕ × V))
      → get_elem? xlog p ≡ some v
      → lookup (j + p) (ingest_from j xlog log) ≡ some v
  lookup-ingest_in [] j p v log h = cc
  lookup-ingest_in (x ∷ xlog) j zero v log h =
      lookup-ingest_below xlog (suc j) (j + 0) (insert j x log) (omega arith)
      ∙ lookup-insert j (j + 0) x log
      ∙ rw ((nat_eqb_iff j (j + 0)).1 (omega arith)) h
  lookup-ingest_in (x ∷ xlog) j (suc p) v log h =
      ap (λ k. lookup k (ingest_from (suc j) xlog (insert j x log))) (omega arith)
      ∙ lookup-ingest_in xlog (suc j) p v (insert j x log) h

  snap_from-get :
      (nil : V) (log : List (ℕ × V)) (j n p : ℕ)
      → p < n
      → get_elem? (snap_from nil log j n) p ≡ some (value_or nil (lookup (j + p) log))
  snap_from-get nil log j zero p h = absurd (omega arith)
  snap_from-get nil log j (suc n) zero h =
      ap (λ k. some (value_or nil (lookup k log))) (omega arith)
  snap_from-get nil log j (suc n) (suc p) h =
      snap_from-get nil log (suc j) n p (omega arith)
      ∙ ap (λ k. some (value_or nil (lookup k log))) (omega arith)

module _ {ℓ κ} {V : Type ℓ} {Bytes : Type κ} (nil : V) (encode : ℕ × List V → Bytes) where
  -- What a snapshot is, where one is due.
  snapshot_at-is :
      (log : List (ℕ × V)) (index n : ℕ) (bytes : Bytes)
      → snapshot_at nil encode log index ≡ some (n, bytes)
      → (n ≡ index) × (bytes ≡ encode (index, snap_from nil log 0 (index + 1)))
  unfolding snapshot_at
  snapshot_at-is log index n bytes h = elim (Bool-cases (nat_eqb ((index + 1) % 10) 0)) [
    | inr x ↦ absurd (none-ne-some (n, bytes) (rw x at h))
    | inl y ↦
        let same : (index, encode (index, snap_from nil log 0 (index + 1))) ≡ (n, bytes) =
          some-injective (index, encode (index, snap_from nil log 0 (index + 1))) (n, bytes)
            (rw y at h) in
        (ap (λ s. s.0) (sym same), ap (λ s. s.1) (sym same))
  ]

module _ {ℓ κ} {V : Type ℓ} {Bytes : Type κ} ⦃e : HasEq V⦄ (nil : V) (encode : ℕ × List V → Bytes)
    (decode : Bytes → Option (ℕ × List V)) where
  apply_snap-made :
      (d d' : Delivery) (ts : Test V) (rs : Rfsrv V) (m : ApplyMsg V) (t : Turn V Bytes) (n : ℕ)
      (bytes : Bytes)
      → apply_snap nil encode decode d d' ts rs (command_msg m) ≡ some t
      → t.made ≡ some (n, bytes)
      → snapshot_at nil encode t.server.log t.server.last_applied ≡ some (n, bytes)
  unfolding apply_snap
  apply_snap-made d d' ts rs m t n bytes run made = elim (Bool-cases (not m.command_valid)) [
    | inl y ↦ absurd (
        none-ne-some (n, bytes)
          (ap (λ u. u.made)
              (some-injective (record { made = none; server = rs; tester = ts }) t
                (rw (apply_snap, y) at run))
            ∙ made))
    | inr v ↦ elim (Option-cases (checked nil encode decode d ts rs m)) [
      | inl z ↦ absurd (none-ne-some t (rw (apply_snap, v, z) at run))
      | inr ((err, ts'), got) ↦ elim (Option-cases (report d' ts' rs.me err)) [
        | inl z ↦ absurd (none-ne-some t (rw (apply_snap, v, got, z) at run))
        | inr (ts'', told) ↦
            let log = insert m.command_index m.command rs.log in
            let after : Turn V Bytes = record {
              made = snapshot_at nil encode log m.command_index;
              server = record rs { last_applied = m.command_index; log = log };
              tester = ts'';
            } in
            let same : after ≡ t = some-injective after t (rw (apply_snap, v, got, told) at run) in
            ap (λ u. snapshot_at nil encode u.server.log u.server.last_applied) (sym same)
            ∙ ap (λ u. u.made) same
            ∙ made
      ]
    ]
  ]

  abbrev restored : (rs : Rfsrv V) (index : ℕ) (log : List (ℕ × V)) → Rfsrv V
  restored rs index log = record rs {
    last_applied = index;
    log = ingest_from 0 (snap_from nil log 0 (index + 1)) [];
  }

  ingest_snap-restored :
      (rs : Rfsrv V) (index : ℕ) (log : List (ℕ × V))
      → decode (encode (index, snap_from nil log 0 (index + 1)))
        ≡ some (index, snap_from nil log 0 (index + 1))
      → ingest_snap decode rs (some (encode (index, snap_from nil log 0 (index + 1)))) (some index)
        ≡ (fine, restored rs index log)
  unfolding ingest_snap
  ingest_snap-restored rs index log back =
      rw (ingest_snap, back, (nat_eqb_iff index index).1 refl) refl

  -- If the codec reads back what it wrote, a server that is sent the snapshot that another server
  -- made after a command takes over its last index and, up to there, its log, with nil where the
  -- other has no entry. Its turn ends, with no snapshot of its own.
  pub snapshot_catches_up :
      (d d' : Delivery) (ts : Test V) (rs : Rfsrv V) (m : ApplyMsg V) (t : Turn V Bytes) (n : ℕ)
      (bytes : Bytes) (ts' : Test V) (other : Rfsrv V) (me : RaftServer V)
      → ((s : ℕ × List V) → decode (encode s) ≡ some s)
      → apply_snap nil encode decode d d' ts rs (command_msg m) ≡ some t
      → t.made ≡ some (n, bytes)
      → get_elem? ts'.srvs other.me ≡ some me
      → (t' : Turn V Bytes) × (apply_snap nil encode decode delivered delivered ts' other
            (snapshot_msg (some bytes) n)
          ≡ some t')
        × (t'.made ≡ none)
        × (t'.server.last_applied ≡ t.server.last_applied)
        × ((j : ℕ)
            → j ≤ t.server.last_applied
            → lookup j t'.server.log ≡ some (value_or nil (lookup j t.server.log)))
  unfolding apply_snap
  snapshot_catches_up d d' ts rs m t n bytes ts' other me back run made have =
      let log = t.server.log in
      let index = t.server.last_applied in
      let (same_n, same_bytes) =
        snapshot_at-is nil encode log index n bytes
          (apply_snap-made d d' ts rs m t n bytes run made) in
      let next = restored other index log in
      let took : ingest_snap decode other (some bytes) (some n) ≡ (fine, next) =
        rw (same_n, same_bytes)
          (ingest_snap-restored other index log (back (index, snap_from nil log 0 (index + 1)))) in
      let told = record ts' {
        srvs = set ts'.srvs other.me (record me { logs = copy_log next.log [] });
      } in
      (
        record { made = none; server = next; tester = told },
        ap (ingested delivered delivered ts' other.me) took ∙ rw (ingested, have) refl,
        refl,
        refl,
        λ j h.
            ap (λ k. lookup k next.log) (omega arith)
            ∙ lookup-ingest_in (snap_from nil log 0 (index + 1)) 0 j (value_or nil (lookup j log))
                []
                (snap_from-get nil log 0 (index + 1) j (omega arith)
                  ∙ ap (λ k. some (value_or nil (lookup k log))) (omega arith)),
      )
