-- ===== src/KvTest/OpLog/Attempts.antt =====
-- kvtest1/porcupine.go: what an attempt of a clerk does to the order of the calls.
use mit.Prelude.{
  ℕ, ◌+◌, ◌≤◌, ◌<◌, ◌≡◌, refl, sym, subst, Bool, true, false, Option, none, some, inl, inr, arith,
  nat_eqb, nat_eqb_iff, lookup, string_eq, length, Bool-cases, Option-cases, count,
}
use mit.KvSrv.Rpc.{PutArgs, GetArgs, err_version, empty_put, version_mod}
use mit.KvSrv.Server.{KvServer, make_kv_server, put}
use mit.KvSrv.Server.Laws.{put_lem, put_done, put_stale}
use mit.KvSrv.Model.{KvOutput}
use mit.KvSrv.Model.Refines.{Request, get_req, put_req, serve}
use mit.KvTest.OpLog.{Call, running}
use mit.KvSrv.Rpc.{empty_get}
use mit.KvSrv.Server.{get}
use mit.KvSrv.Server.Laws.{put_refused}
use mit.KvSrv.Clerk.{Delivery, request_lost, reply_lost, delivered, call_get, call_put, answered}
use mit.KvSrv.Clerk.Outcomes.{Err-ok?}
use mit.KvTest.OpLog.{attempt, after, get_out, put_out}
use mit.KvTest.OpLog.Played.{maybe_out, Told, Matches, Points, who, Played, Played-at, Played-grows}

-- An attempt changes nothing, or is served after all others, or is a Put that was done before
-- and now ends; `k` is how often the call stands in the order.
pub data Outcome (now start : ℕ) (first : Bool) (s : KvServer) (k : ℕ) (r : Request)
    : Option KvOutput → KvServer → Type 0 where
  nothing : Outcome now start first s k r none s
  served :
      (o : Option KvOutput)
      → k ≡ 0
      → Matches (after start now o) now (serve s r).0
      → Outcome now start first s k r o (serve s r).1
  again : first ≡ false → 1 ≤ k → Outcome now start first s k r (some maybe_out) s

get_told :
    (s : KvServer) (a : GetArgs)
    → get_out (true, get s a empty_get) ≡ some (serve s (get_req a)).0.output
unfolding get
get_told s a = elim (Option-cases (lookup a.key s.kv)) [
  | inl e ↦ rw e refl
  | inr (v, e) ↦ rw e refl
]

told :
    (first : Bool) (s : KvServer) (a : PutArgs)
    → Told
        (record { value = ""; version = 0; err = answered first (put s a empty_put).0.err })
        (serve s (put_req a)).0
told first s a = elim (Err-ok? (put s a empty_put).0.err) [
  | inl y ↦ inl (rw y refl)
  | inr n ↦ elim (put_refused s a n).1 [ inl v ↦ refused first v | inr m ↦ inl (rw m refl) ]
]
  where
    refused :
        (f : Bool)
        → (put s a empty_put).0.err ≡ err_version
        → Told
            (record { value = ""; version = 0; err = answered f (put s a empty_put).0.err })
            (serve s (put_req a)).0
    refused true v = inl (rw v refl)
    refused false v = inr (refl, rw v refl, inr v)

module _ (req : ℕ → Request) where
  -- A Put that the server has done, and whose call knows nothing yet, is not done again.
  pub performed_stale :
      (calls : ℕ → Call) (s : KvServer) (ps : Points) (c start : ℕ) (first : Bool) (a : PutArgs)
      → calls c ≡ running start first
      → req c ≡ put_req a
      → 1 ≤ count c (who ps)
      → length ps + 1 < version_mod
      → Played req calls make_kv_server ps s
      → (first ≡ false) × ((put s a empty_put).0.err ≡ err_version) × ((put s a empty_put).1 ≡ s)
  unfolding make_kv_server lookup
  performed_stale calls s ps c start first a e is n room p =
      let (z, j, u, rest, b, le, q, r) =
        Played-at req calls 0 make_kv_server s ps c n (omega arith) (λ k v h. cc) p in
      let m : Matches (running start first) u (serve z (put_req a)).0 =
        subst (λ x. Matches x u (serve z (put_req a)).0) e
          (subst (λ x. Matches (calls c) u (serve z x).0) is q) in
      let (_, no_first, _, did) = m in
      let version_le : a.version ≤ j = elim (Option-cases (lookup a.key z.kv)) [
        | inl gone ↦ ground (arith, put_lem z a a.key)
        | inr (v, found) ↦ ground (arith, put_lem z a a.key, b a.key v found)
      ] in
      let (v, found, lo, hi) =
        Played-grows req calls (put z a empty_put).1 s rest a.key
          (record { val = a.value; version = a.version + 1 })
          (subst (λ x. Played req calls (serve z x).1 rest s) is r) (put_done z a did (omega arith))
          (omega arith) in
      let (err, unchanged) = put_stale s a v found (omega arith) in (no_first, err, unchanged)

  module _ (calls : ℕ → Call) (s : KvServer) (ps : Points) (c start now : ℕ) (first : Bool)
      (is : calls c ≡ running start first) (old : start ≤ now) (room : length ps + 1 < version_mod)
      (p : Played req calls make_kv_server ps s) where
    get_new : (a : GetArgs) → req c ≡ get_req a → count c (who ps) ≡ 0
    unfolding make_kv_server lookup
    get_new a r = elim (Bool-cases (nat_eqb (count c (who ps)) 0)) [
      | inl y ↦ (nat_eqb_iff (count c (who ps)) 0).0 y
      | inr n ↦
          let (z, j, u, rest, b, le, q, more) =
            Played-at req calls 0 make_kv_server s ps c (ground arith) (omega arith) (λ k e h. cc)
              p in
          let m : Matches (running start first) u (serve z (get_req a)).0 =
            subst (λ x. Matches x u (serve z (get_req a)).0) is
              (subst (λ x. Matches (calls c) u (serve z x).0) r q) in
          absurd (omega (arith, m.2))
    ]

    abbrev Result : Request → Option KvOutput × KvServer → Type 0
    Result r x = Outcome now start first s (count c (who ps)) r x.0 x.1

    put_again :
        (a : PutArgs)
        → req c ≡ put_req a
        → nat_eqb (count c (who ps)) 0 ≡ false
        → (first ≡ false) × ((put s a empty_put).0.err ≡ err_version) × ((put s a empty_put).1 ≡ s)
    put_again a r n = performed_stale calls s ps c start first a is r (ground arith) room p

    pub attempt-Outcome : (d : Delivery) (r : Request) → req c ≡ r → Result r (attempt d first r s)
    unfolding attempt call_get call_put
    attempt-Outcome request_lost (get_req a) r = nothing
    attempt-Outcome reply_lost (get_req a) r = nothing
    attempt-Outcome delivered (get_req a) r =
        subst (λ o. Result (get_req a) (o, s)) (sym (get_told s a))
          (served (some (serve s (get_req a)).0.output) (get_new a r) (old, omega arith, inl refl))
    attempt-Outcome request_lost (put_req a) r = nothing
    attempt-Outcome reply_lost (put_req a) r = elim (Bool-cases (nat_eqb (count c (who ps)) 0)) [
      | inl y ↦ elim (Err-ok? (put s a empty_put).0.err) [
        | inl did ↦ served none ((nat_eqb_iff (count c (who ps)) 0).0 y) (old, refl, refl, did)
        | inr m ↦ subst (λ z. Result (put_req a) (none, z)) (sym (put_refused s a m).0) nothing
      ]
      | inr n ↦ subst (λ z. Result (put_req a) (none, z)) (sym (put_again a r n).2) nothing
    ]
    attempt-Outcome delivered (put_req a) r = elim (Bool-cases (nat_eqb (count c (who ps)) 0)) [
      | inl y ↦
          served
            (some
              (record { value = ""; version = 0; err = answered first (put s a empty_put).0.err }))
            ((nat_eqb_iff (count c (who ps)) 0).0 y) (old, omega arith, told first s a)
      | inr n ↦
          let (no_first, err, same) = put_again a r n in
          let ends : put_out first (true, (put s a empty_put).0, (put s a empty_put).1)
              ≡ (some maybe_out, s) =
            rw (no_first, err, same) refl in
          subst (Result (put_req a)) (sym ends) (again no_first (ground arith))
    ]
