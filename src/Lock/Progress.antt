-- ===== src/Lock/Progress.antt =====
-- Acquire of kvsrv1/lock/lock.go when no RPC is lost.
use text.Mathlib.TextEquality.{eq_iff}
use mit.Prelude.{◌+◌, ◌<◌, ◌≡◌, ◌≢◌, refl, some, lookup, string_eq, arith, inl, inr, true}
use mit.KvSrv.Rpc.{version_mod}
use mit.KvSrv.Server.{Value, KvServer}
use mit.KvSrv.Clerk.{delivered, call_get, call_put}
use mit.Lock.{Lock, Pc, acquiring, held, acquire_put, unlocked, exec, acquire_got, acquire_answer}
use mit.KvSrv.Server.Laws.{get_found, put_found, found_reply}

-- Two RPCs of one client, back to back, that both arrive.
abbrev pub exec_twice : Lock → Pc → KvServer → Pc × KvServer
exec_twice lk p s = let (p', s') = exec lk delivered p s in exec lk delivered p' s'

module _ (lk : Lock) (s : KvServer) (e : Value) (found : lookup lk.name s.kv ≡ some e)
    (named : lk.id ≢ unlocked) (room : e.version + 1 < version_mod) where
  acquire_got-free : e.val ≡ unlocked → acquire_got lk (found_reply e) ≡ acquire_put e.version true
  unfolding acquire_got
  acquire_got-free free = ground (arith, eq_iff e.val lk.id, eq_iff e.val unlocked)

  -- By a client with a non-empty identity, a free lock whose version has room to grow is acquired
  -- by two RPCs that arrive with none between them, and then holds that identity.
  pub acquire_free :
      e.val ≡ unlocked
      → ((exec_twice lk acquiring s).0 ≡ held)
        × (lookup lk.name (exec_twice lk acquiring s).1.kv
            ≡ some (record { val = lk.id; version = e.version + 1 }))
  unfolding exec call_get call_put acquire_answer
  acquire_free free =
      rw (get_found s lk.name e found, acquire_got-free free)
        (elim (put_found s lk.name lk.id e.version e found room) [
          | inl (eq, err, now) ↦ rw err (refl, now)
          | inr (ne, err, now) ↦ absurd (ne refl)
        ])
