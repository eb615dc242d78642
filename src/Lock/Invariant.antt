-- ===== src/Lock/Invariant.antt =====
-- RPCs and what the client that sends them may rely on (kvsrv1/lock/lock.go).
use mit.Prelude.{
  ℕ, ◌+◌, ◌<◌, String, ◌≡◌, ◌≢◌, refl, sym, Bool, true, false, some, inl, inr, arith, lookup,
  string_eq,
}
use mit.KvSrv.Rpc.{GetReply, version_mod}
use mit.KvSrv.Server.{Value, KvServer}
use mit.KvSrv.Clerk.{Delivery, request_lost, reply_lost, delivered, call_get, call_put}
use mit.KvSrv.Server.Laws.{found_reply, get_found, put_found}
use mit.Lock.{
  Lock, Pc, idle, acquiring, held, releasing, fatal, acquire_put, release_put, acquire_check,
  release_check, unlocked, exec, get_then, acquire_got, acquire_answer, acquire_checked,
  release_got, release_answer, release_checked,
}
use mit.Lock.Fits.{
  Fits, Own, acquire_got-Fits, acquire_checked-Fits, release_got-Fits, release_checked-Fits,
}

module _ (lk : Lock) (s : KvServer) (e : Value) (found : lookup lk.name s.kv ≡ some e)
    (named : lk.id ≢ unlocked) (room : e.version + 1 < version_mod) where
  stay : (p : Pc) → Fits e lk.id p → Own lk e (p, s)
  stay p f = (e, found, f, inl refl)

  exec-Own-get :
      (again : Pc) (d : Delivery) (after : GetReply → Pc)
      → Fits e lk.id again
      → Fits e lk.id (after (found_reply e))
      → Own lk e (get_then d lk s again after)
  unfolding call_get
  exec-Own-get again request_lost after f g = stay again f
  exec-Own-get again reply_lost after f g = stay again f
  exec-Own-get again delivered after f g =
      rw (get_found s lk.name e found) (stay (after (found_reply e)) g)

  acquire_put-weaken :
      (v : ℕ) (first : Bool)
      → Fits e lk.id (acquire_put v first)
      → Fits e lk.id (acquire_put v false)
  acquire_put-weaken v true f = (f.0, f.1, λ k. absurd (f.2 k))
  acquire_put-weaken v false f = f

  release_put-weaken :
      (v : ℕ) (first : Bool)
      → Fits e lk.id (release_put v first)
      → Fits e lk.id (release_put v false)
  release_put-weaken v true f = (omega arith, λ _. f.0, λ _. f.1)
  release_put-weaken v false f = f

  -- The entry after a Put that matched.
  abbrev stored : String → ℕ → Value
  stored value v = record { val = value; version = v + 1 }

  exec-Own-acquire :
      (v : ℕ) (first : Bool) (d : Delivery)
      → Fits e lk.id (acquire_put v first)
      → Own lk e (exec lk d (acquire_put v first) s)
  unfolding exec call_put acquire_answer
  exec-Own-acquire v first request_lost f =
      stay (acquire_put v false) (acquire_put-weaken v first f)
  exec-Own-acquire v first reply_lost f =
      let (lo, free, own) = acquire_put-weaken v first f in
      elim (put_found s lk.name lk.id v e found (omega arith)) [
        | inl (eq, err, now) ↦ (
          stored lk.id v,
          now,
          (omega arith, λ k. absurd (omega arith), λ k. refl),
          inr (omega arith, inl (free eq), inr refl),
        )
        | inr (ne, err, now) ↦ (e, now, (lo, free, own), inl refl)
      ]
  exec-Own-acquire v true delivered f =
      let (lo, free, own) = acquire_put-weaken v true f in
      elim (put_found s lk.name lk.id v e found (omega arith)) [
        | inl (eq, err, now) ↦
            rw err (stored lk.id v, now, refl, inr (omega arith, inl (free eq), inr refl))
        | inr (ne, err, now) ↦ rw err (e, now, f.2, inl refl)
      ]
  exec-Own-acquire v false delivered f = elim (put_found s lk.name lk.id v e found (omega arith)) [
    | inl (eq, err, now) ↦
        rw err (stored lk.id v, now, refl, inr (omega arith, inl (f.1 eq), inr refl))
    | inr (ne, err, now) ↦ rw err (e, now, f, inl refl)
  ]

  exec-Own-release :
      (v : ℕ) (first : Bool) (d : Delivery)
      → Fits e lk.id (release_put v first)
      → Own lk e (exec lk d (release_put v first) s)
  unfolding exec call_put release_answer
  exec-Own-release v first request_lost f =
      stay (release_put v false) (release_put-weaken v first f)
  exec-Own-release v first reply_lost f =
      let (lo, held_at, own) = release_put-weaken v first f in
      elim (put_found s lk.name unlocked v e found (omega arith)) [
        | inl (eq, err, now) ↦ (
          stored unlocked v,
          now,
          (omega arith, λ k. absurd (omega arith), λ k. absurd (named (sym k))),
          inr (omega arith, inr (held_at eq), inl refl),
        )
        | inr (ne, err, now) ↦ (e, now, (lo, held_at, own), inl refl)
      ]
  exec-Own-release v true delivered f =
      elim (put_found s lk.name unlocked v e found (omega arith)) [
        | inl (eq, err, now) ↦
            rw err
              (stored unlocked v, now, λ k. named (sym k), inr (omega arith, inr f.0, inl refl))
        | inr (ne, err, now) ↦ absurd (ne f.1)
      ]
  exec-Own-release v false delivered f =
      elim (put_found s lk.name unlocked v e found (omega arith)) [
        | inl (eq, err, now) ↦
            rw err (
              stored unlocked v,
              now,
              λ k. named (sym k),
              inr (omega arith, inr (f.1 eq), inl refl),
            )
        | inr (ne, err, now) ↦ rw err (e, now, f, inl refl)
      ]

  -- Every RPC of a client that fits its entry leaves it fitting the entry that it leaves.
  pub exec-Own : (d : Delivery) (p : Pc) → Fits e lk.id p → Own lk e (exec lk d p s)
  unfolding exec
  exec-Own d idle f = stay idle f
  exec-Own d held f = stay held f
  exec-Own d fatal f = absurd f
  exec-Own d acquiring f = exec-Own-get acquiring d (acquire_got lk) f (acquire_got-Fits lk e f)
  exec-Own d (acquire_put v first) f = exec-Own-acquire v first d f
  exec-Own d (acquire_check v) f =
      exec-Own-get (acquire_check v) d (acquire_checked lk v) f
        (acquire_checked-Fits lk e v (omega arith) f)
  exec-Own d releasing f =
      exec-Own-get releasing d (release_got lk) f (release_got-Fits lk e named f)
  exec-Own d (release_put v first) f = exec-Own-release v first d f
  exec-Own d (release_check v) f =
      exec-Own-get (release_check v) d (release_checked lk v) f (release_checked-Fits lk e v f)
