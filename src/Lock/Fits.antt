-- ===== src/Lock/Fits.antt =====
-- What each client of a lock may rely on, and what its branches make of a reply.
use text.Mathlib.TextEquality.{eq_iff}
use mit.Prelude.{
  ℕ, ◌+◌, ◌≤◌, ◌<◌, String, ◌≡◌, ◌≢◌, true, false, some, ◌⊎◌, arith, lookup, string_eq,
}
use mit.KvSrv.Rpc.{version_mod}
use mit.KvSrv.Server.{Value, KvServer}
use mit.KvSrv.Server.Laws.{found_reply}
use mit.Lock.{
  Lock, Pc, idle, acquiring, held, releasing, fatal, acquire_put, release_put, acquire_check,
  release_check, unlocked, acquire_got, acquire_checked, release_got, release_checked,
}

-- What a client with identity `id` may rely on while the lock's entry is `e`.
abbrev pub Fits : Value → String → Pc → Type 0
Fits e id idle = e.val ≢ id
Fits e id acquiring = e.val ≢ id
Fits e id (acquire_put v true) = (v ≤ e.version) × (e.version ≡ v → e.val ≡ unlocked) × (e.val ≢ id)
Fits e id (acquire_put v false) =
    (v ≤ e.version) × (e.version ≡ v → e.val ≡ unlocked) × (e.val ≡ id → e.version ≡ v + 1)
Fits e id (acquire_check v) =
    (v ≤ e.version) × (e.version ≡ v → e.val ≡ unlocked) × (e.val ≡ id → e.version ≡ v + 1)
Fits e id held = e.val ≡ id
Fits e id releasing = e.val ≡ id
Fits e id (release_put v true) = (e.val ≡ id) × (e.version ≡ v)
Fits e id (release_put v false) =
    (v ≤ e.version) × (e.version ≡ v → e.val ≡ id) × (e.val ≡ id → e.version ≡ v)
Fits e id (release_check v) =
    (v ≤ e.version) × (e.version ≡ v → e.val ≡ id) × (e.val ≡ id → e.version ≡ v)
Fits e id fatal = ⊥

-- A change of the entry by somebody who neither finds nor leaves `id` there.
pub Fits-other :
    (e e' : Value) (id : String) (p : Pc)
    → e.val ≢ id
    → e'.val ≢ id
    → e'.version ≡ e.version + 1
    → Fits e id p
    → Fits e' id p
Fits-other e e' id idle a b c f = b
Fits-other e e' id acquiring a b c f = b
Fits-other e e' id (acquire_put v true) a b c f = (omega arith, λ k. absurd (omega arith), b)
Fits-other e e' id (acquire_put v false) a b c f =
    (omega arith, λ k. absurd (omega arith), λ k. absurd (b k))
Fits-other e e' id (acquire_check v) a b c f =
    (omega arith, λ k. absurd (omega arith), λ k. absurd (b k))
Fits-other e e' id held a b c f = absurd (a f)
Fits-other e e' id releasing a b c f = absurd (a f)
Fits-other e e' id (release_put v true) a b c f = absurd (a f.0)
Fits-other e e' id (release_put v false) a b c f =
    (omega arith, λ k. absurd (omega arith), λ k. absurd (b k))
Fits-other e e' id (release_check v) a b c f =
    (omega arith, λ k. absurd (omega arith), λ k. absurd (b k))
Fits-other e e' id fatal a b c f = f

-- What one client's RPC does to the entry: nothing, or one version up between the unlocked value
-- and the client's identity.
abbrev pub Change : String → Value → Value → Type 0
Change id e e' =
    (e' ≡ e)
    ⊎ ((e'.version ≡ e.version + 1)
        × ((e.val ≡ unlocked) ⊎ (e.val ≡ id))
        × ((e'.val ≡ unlocked) ⊎ (e'.val ≡ id)))

abbrev pub Own : Lock → Value → Pc × KvServer → Type 0
Own lk e r =
    (e' : Value) × (lookup lk.name r.1.kv ≡ some e') × Fits e' lk.id r.0 × Change lk.id e e'

pub acquire_got-Fits :
    (lk : Lock) (e : Value) → e.val ≢ lk.id → Fits e lk.id (acquire_got lk (found_reply e))
unfolding acquire_got
acquire_got-Fits lk e h = ground (arith, eq_iff e.val lk.id, eq_iff e.val unlocked)

pub acquire_checked-Fits :
    (lk : Lock) (e : Value) (v : ℕ)
    → v + 1 < version_mod
    → Fits e lk.id (acquire_check v)
    → Fits e lk.id (acquire_checked lk v (found_reply e))
unfolding acquire_checked
acquire_checked-Fits lk e v room h = ground (arith, eq_iff e.val lk.id, h.2)

pub release_got-Fits :
    (lk : Lock) (e : Value)
    → lk.id ≢ unlocked
    → e.val ≡ lk.id
    → Fits e lk.id (release_got lk (found_reply e))
unfolding release_got
release_got-Fits lk e named h = ground (arith, eq_iff e.val lk.id, eq_iff e.val unlocked)

pub release_checked-Fits :
    (lk : Lock) (e : Value) (v : ℕ)
    → Fits e lk.id (release_check v)
    → Fits e lk.id (release_checked lk v (found_reply e))
unfolding release_checked
release_checked-Fits lk e v h = ground (arith, eq_iff e.val lk.id, h.2)
