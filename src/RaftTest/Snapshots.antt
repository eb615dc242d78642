-- ===== src/RaftTest/Snapshots.antt =====
-- raft1/server.go: applierSnap and ingestSnap, of a test with snapshots.
pub mod CatchUp
use mit.Prelude.{
  ℕ, zero, suc, ◌+◌, ◌%◌, Bool, true, false, ◌&&◌, ◌||◌, not, Option, none, some, List, [], ◌∷◌,
  ltb, nat_eqb, if◌then◌else◌, HasEq, nat_eq, lookup, insert,
}
use mit.KvSrv.Clerk.{Delivery}
use mit.Raft.Apply.{ApplyMsg}
use mit.RaftTest.{
  ErrMsg, fine, err_rpc, nil_snapshot, undecodable, out_of_order, unexpected, mismatch, is_fine,
  Test,
}
use mit.RaftTest.Applier.{Rfsrv, report, send_log, check_rpc, order_err}

-- `index` is `none` for -1.
abbrev pub wrong_index : Option ℕ → ℕ → Bool
wrong_index none included = false
wrong_index (some index) included = not (nat_eqb index included)

module _ {ℓ} {V : Type ℓ} where
  -- ingestSnap's loop over xlog, from `j` on.
  abbrev pub ingest_from : ℕ → List V → List (ℕ × V) → List (ℕ × V)
  ingest_from j [] log = log
  ingest_from j (v ∷ xlog) log = ingest_from (suc j) xlog (insert j v log)

  -- The loop that builds xlog from place `j` on, `n` entries; `nil` is read where there is none.
  abbrev pub value_or : V → Option V → V
  value_or nil none = nil
  value_or nil (some v) = v

  abbrev pub snap_from : V → List (ℕ × V) → ℕ → ℕ → List V
  snap_from nil log j zero = []
  snap_from nil log j (suc n) = value_or nil (lookup j log) ∷ snap_from nil log (suc j) n

module _ {ℓ κ} {V : Type ℓ} {Bytes : Type κ} (decode : Bytes → Option (ℕ × List V)) where
  -- ingestSnap, of a snapshot or nil.
  unfoldable pub ingest_snap : Rfsrv V → Option Bytes → Option ℕ → ErrMsg × Rfsrv V
  ingest_snap rs none index = (nil_snapshot, rs)
  ingest_snap rs (some snapshot) index = elim (decode snapshot) [
    | none ↦ (undecodable, rs)
    | some (included, xlog) ↦
        if wrong_index index included
        then (mismatch rs.me, rs)
        else (fine, record rs { last_applied = included; log = ingest_from 0 xlog [] })
  ]

-- What the loop pulls: a snapshot with its index, or a command.
pub data Pulled {ℓ κ} (V : Type ℓ) (Bytes : Type κ) : Type (ℓ ⊔ κ) where
  snapshot_msg : Option Bytes → ℕ → Pulled V Bytes
  command_msg : ApplyMsg V → Pulled V Bytes

-- The process and the tester after a turn, and the snapshot handed to Raft with its index.
pub record Turn {ℓ κ} (V : Type ℓ) (Bytes : Type κ) : Type (ℓ ⊔ κ) where
  pub made : Option (ℕ × Bytes)
  pub server : Rfsrv V
  pub tester : Test V

-- The reports of a turn with a snapshot.
abbrev pub ingested {ℓ κ} :
    {V : Type ℓ} {Bytes : Type κ}
    → Delivery
    → Delivery
    → Test V
    → ℕ
    → ErrMsg × Rfsrv V
    → Option (Turn V Bytes)
ingested d d' ts me (err, rs') = elim (send_log d ts me rs'.log) [
  | none ↦ none
  | some ts' ↦ elim (report d' ts' me err) [
    | none ↦ none
    | some ts'' ↦ some (record { made = none; server = rs'; tester = ts'' })
  ]
]

module _ {ℓ κ} {V : Type ℓ} {Bytes : Type κ} (nil : V) (encode : ℕ × List V → Bytes) where
  -- The entries 0 to `index`, if a snapshot is due there.
  unfoldable pub snapshot_at : List (ℕ × V) → ℕ → Option (ℕ × Bytes)
  snapshot_at log index =
      if nat_eqb ((index + 1) % 10) 0
      then some (index, encode (index, snap_from nil log 0 (index + 1)))
      else none

module _ {ℓ κ} {V : Type ℓ} {Bytes : Type κ} ⦃e : HasEq V⦄ (nil : V) (encode : ℕ × List V → Bytes)
    (decode : Bytes → Option (ℕ × List V)) where
  -- The error of a command out of place, or what the tester answers.
  abbrev pub checked : Delivery → Test V → Rfsrv V → ApplyMsg V → Option (ErrMsg × Test V)
  checked d ts rs m =
      if not (nat_eqb m.command_index (rs.last_applied + 1))
      then some (unexpected rs.me (rs.last_applied + 1) m.command_index, ts)
      else elim (check_rpc d ts rs.me m) [
        | none ↦ none
        | some ((err_rpc, _), ts') ↦ some (err_rpc, ts')
        | some ((err, prevok), ts') ↦ some (order_err rs.me m err prevok, ts')
      ]

  -- One turn of applierSnap's loop, with the fates of its RPCs: `d` of CheckLogs or IngestLog, and
  -- `d'` of ApplyErr.
  unfoldable pub apply_snap :
      Delivery → Delivery → Test V → Rfsrv V → Pulled V Bytes → Option (Turn V Bytes)
  apply_snap d d' ts rs (snapshot_msg snapshot index) =
      ingested d d' ts rs.me (ingest_snap decode rs snapshot (some index))
  apply_snap d d' ts rs (command_msg m) =
      if not m.command_valid
      then some (record { made = none; server = rs; tester = ts })
      else elim (checked d ts rs m) [
        | none ↦ none
        | some (err, ts') ↦ elim (report d' ts' rs.me err) [
          | none ↦ none
          | some ts'' ↦
              let log = insert m.command_index m.command rs.log in
              some (record {
                made = snapshot_at nil encode log m.command_index;
                server = record rs { last_applied = m.command_index; log = log };
                tester = ts'';
              })
        ]
      ]
