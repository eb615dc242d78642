-- ===== src/KvSrv/Clerk/Outcomes.antt =====
-- What a clerk's answer to a Put says about the server.
use mit.Prelude.{
  ℕ, ◌+◌, ◌≤◌, ◌<◌, ◌≡◌, ◌≢◌, refl, subst, Bool, true, false, Option, none, some, List, [], ◌∷◌,
  ◌⊎◌, inl, inr, arith, if◌then◌else◌, lookup, string_eq, length,
}
use mit.KvSrv.Rpc.{
  Err, PutArgs, unset, ok, err_no_key, err_version, err_maybe, err_wrong_leader, err_wrong_group,
  empty_put, version_mod,
}
use mit.KvSrv.Server.{Value, KvServer, put, put_all}
use mit.KvSrv.Server.Laws.{put_all-grows, put_stale, put_done, put_refused}
use mit.KvSrv.Clerk.{
  Delivery, request_lost, reply_lost, delivered, Attempt, attempt, call_put, answered, clerk_put,
}

abbrev pub count_ok : Err → ℕ
count_ok ok = 1
count_ok _ = 0

pub Err-ok? : (e : Err) → (e ≡ ok) ⊎ (e ≢ ok)
Err-ok? ok = inl refl
Err-ok? unset = inr (λ p. cc)
Err-ok? err_no_key = inr (λ p. cc)
Err-ok? err_version = inr (λ p. cc)
Err-ok? err_maybe = inr (λ p. cc)
Err-ok? err_wrong_leader = inr (λ p. cc)
Err-ok? err_wrong_group = inr (λ p. cc)

abbrev pub executed : Delivery → PutArgs → KvServer → ℕ
executed request_lost args s = 0
executed reply_lost args s = count_ok (put s args empty_put).0.err
executed delivered args s = count_ok (put s args empty_put).0.err

-- How often the server performs the clerk's Put: executions that it answers with OK, whether or
-- not the answer arrives, up to the attempt whose answer arrives.
abbrev pub performed : PutArgs → List Attempt → KvServer → ℕ
performed args [] s = 0
performed args (attempt before d ∷ rest) s =
    let s1 = put_all s before in
    let more = performed args rest (call_put d args s1).2 in
    executed d args s1 + (if (call_put d args s1).0 then 0 else more)

-- The Puts of a schedule, the clerk's own ones included.
abbrev pub events : List Attempt → ℕ
events [] = 0
events (attempt before d ∷ rest) = length before + 1 + events rest

-- Once the stored version has passed the clerk's, a resend performs nothing and ends in ErrMaybe.
put_past :
    (args : PutArgs) (sched : List Attempt) (s s' : KvServer) (v : Value) (r : Err)
    → lookup args.key s.kv ≡ some v
    → args.version < v.version
    → v.version + events sched < version_mod
    → clerk_put false args sched s ≡ some (r, s')
    → (r ≡ err_maybe) × (performed args sched s ≡ 0)
unfolding clerk_put
put_past args [] s s' v r found past room h = cc
put_past args (attempt before request_lost ∷ rest) s s' v r found past room h =
    let (w, now, lo, hi) = put_all-grows s before args.key v found (omega arith) in
    let later = put_past args rest (put_all s before) s' w r now (omega arith) (omega arith) h in
    (later.0, omega (arith, later.1))
put_past args (attempt before reply_lost ∷ rest) s s' v r found past room h =
    let (w, now, lo, hi) = put_all-grows s before args.key v found (omega arith) in
    let (e, same) = put_stale (put_all s before) args w now (omega arith) in
    let later =
      put_past args rest (put_all s before) s' w r now (omega arith) (omega arith) (rw same at h) in
    (later.0, rw (e, same) (omega (arith, later.1)))
put_past args (attempt before delivered ∷ rest) s s' v r found past room h =
    let (w, now, lo, hi) = put_all-grows s before args.key v found (omega arith) in
    let (e, same) = put_stale (put_all s before) args w now (omega arith) in (ground arith, rw e)

-- What an answer promises about the number of times that the Put was performed.
abbrev pub Promise : Err → ℕ → Type 0
Promise ok n = n ≡ 1
Promise err_no_key n = n ≡ 0
Promise err_version n = n ≡ 0
Promise err_maybe n = n ≤ 1
Promise _ n = ⊥

-- An answer that arrives promises what the server did.
answer :
    (first : Bool) (x r : Err) (t s' : KvServer)
    → (x ≡ ok) ⊎ ((x ≡ err_version) ⊎ (x ≡ err_no_key))
    → ◌≡◌ {A = Option (Err × KvServer)} (some (answered first x, t)) (some (r, s'))
    → Promise r (count_ok x + 0)
answer first ok r t s' c h = let e : r ≡ ok = cc in rw e refl
answer first err_no_key r t s' c h = let e : r ≡ err_no_key = cc in rw e refl
answer true err_version r t s' c h = let e : r ≡ err_version = cc in rw e refl
answer false err_version r t s' c h = let e : r ≡ err_maybe = cc in rw e (omega arith)
answer first unset r t s' c h = absurd (ground arith)
answer first err_maybe r t s' c h = absurd (ground arith)
answer first err_wrong_leader r t s' c h = absurd (ground arith)
answer first err_wrong_group r t s' c h = absurd (ground arith)

count_ok-refused : (x : Err) → (x ≡ err_version) ⊎ (x ≡ err_no_key) → count_ok x ≡ 0
count_ok-refused x (inl e) = rw e
count_ok-refused x (inr e) = rw e

-- One executed attempt, by its answer: performed, with the stored version past the clerk's, or
-- refused, with nothing changed.
put_once :
    (s : KvServer) (args : PutArgs)
    → args.version + 1 < version_mod
    → (((put s args empty_put).0.err ≡ ok)
        × (lookup args.key (put s args empty_put).1.kv
            ≡ some (record { val = args.value; version = args.version + 1 })))
      ⊎ (((put s args empty_put).1 ≡ s)
          × (((put s args empty_put).0.err ≡ err_version)
              ⊎ ((put s args empty_put).0.err ≡ err_no_key)))
put_once s args room = elim (Err-ok? (put s args empty_put).0.err) [
  | inl e ↦ inl (e, put_done s args e room)
  | inr n ↦ inr (put_refused s args n)
]

-- Whatever the network and the other clerks do, a Put is performed at most once, and exactly once,
-- never, or perhaps, as its answer says: OK, a plain ErrVersion or ErrNoKey, ErrMaybe. It has no
-- other answer. Versions are taken not to wrap within the schedule.
pub put_outcome :
    (first : Bool) (args : PutArgs) (sched : List Attempt) (s s' : KvServer) (r : Err)
    → args.version + 1 + events sched < version_mod
    → clerk_put first args sched s ≡ some (r, s')
    → Promise r (performed args sched s)
unfolding clerk_put
put_outcome first args [] s s' r room h = cc
put_outcome first args (attempt before request_lost ∷ rest) s s' r room h =
    let later = put_outcome false args rest (put_all s before) s' r (omega arith) h in
    subst (Promise r) (omega arith) later
put_outcome first args (attempt before reply_lost ∷ rest) s s' r room h =
    let t = (put (put_all s before) args empty_put).1 in
    elim (put_once (put_all s before) args (omega arith)) [
      | inl (e, now) ↦
          let later = put_past args rest t s' _ r now (omega arith) (omega arith) h in
          rw (later.0, later.1, e) (omega arith)
      | inr (same, e) ↦
          subst (Promise r) (omega (arith, count_ok-refused _ e))
            (put_outcome false args rest t s' r (omega arith) h)
    ]
put_outcome first args (attempt before delivered ∷ rest) s s' r room h =
    elim (put_once (put_all s before) args (omega arith)) [
      | inl (e, now) ↦ answer first _ r _ s' (inl e) h
      | inr (same, e) ↦ answer first _ r _ s' (inr e) h
    ]

abbrev pub answers : List Attempt → Bool
answers [] = false
answers (attempt _ delivered ∷ rest) = true
answers (attempt _ _ ∷ rest) = answers rest

abbrev pub is_some {ℓ} : {A : Type ℓ} → Option A → Bool
is_some none = false
is_some (some _) = true

-- A Put returns exactly when some attempt's reply arrives: the retry loop has no other end.
pub put_returns :
    (first : Bool) (args : PutArgs) (sched : List Attempt) (s : KvServer)
    → is_some (clerk_put first args sched s) ≡ answers sched
unfolding clerk_put
put_returns first args [] s = refl
put_returns first args (attempt before request_lost ∷ rest) s =
    put_returns false args rest (put_all s before)
put_returns first args (attempt before reply_lost ∷ rest) s =
    put_returns false args rest (put (put_all s before) args empty_put).1
put_returns first args (attempt before delivered ∷ rest) s = refl
