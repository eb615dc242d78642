-- ===== src/Mr/Coordinator/Uuids.antt =====
-- The uuids of the coordinator's tasks (mr/coordinator.go).
use mit.Prelude.{
  ℕ, zero, suc, ◌+◌, ◌-◌, ◌≤◌, ◌<◌, ◌^◌, ◌≡◌, refl, sym, ap, subst, arith, none, some, List, [],
  ◌∷◌, ◌++◌, ltb, get_elem?, nat_eqb, if◌then◌else◌, Option-cases, Bool-cases, inl, inr, lookup,
  insert, delete, nat_eq, keys, count, IsDistinct, insert-IsDistinct, delete-IsDistinct,
}
use mit.Mr.Coordinator.{
  Task, TsWork, Stage, mapping, awaiting_maps, reducing, awaiting_reduces, over, Coordinator,
  assign, request_work, remove_at, hand_over, signal_finished, record_pending, complete, expire,
  run_at, run_step, Event, work_requested, handed, signalled, controller_pending,
  controller_completed, controller_tick, run_goes, step,
}

abbrev pub count_id : ℕ → List TsWork → ℕ
count_id u [] = 0
count_id u (p ∷ ps) = (if nat_eqb p.id u then 1 else 0) + count_id u ps

-- How often a uuid is in use: in hand, pending, or in the controller's table.
abbrev pub uses : ℕ → Coordinator → ℕ
uses u c = count_id u c.handing + count_id u c.pending + count u (keys c.working)

pub record Fresh (c : Coordinator) : Type 0 where
  pub once : (u : ℕ) → uses u c ≤ 1
  pub unused : (u : ℕ) → c.autoinc ≤ u → uses u c ≡ 0
  pub distinct : IsDistinct (keys c.working)

module _ {ℓ} {V : Type ℓ} where
  pub lookup-none : (u : ℕ) (m : List (ℕ × V)) → count u (keys m) ≡ 0 → lookup u m ≡ none
  unfolding lookup
  lookup-none u [] h = refl
  lookup-none u ((k, v) ∷ m) h = ground (arith, lookup-none u m)

  count-insert :
      (u k : ℕ) (v : V) (m : List (ℕ × V))
      → lookup k m ≡ none
      → count u (keys (insert k v m)) ≡ count u (keys m) + (if nat_eqb k u then 1 else 0)
  unfolding lookup insert
  count-insert u k v [] h = omega arith
  count-insert u k v ((j, x) ∷ m) h = ground (arith, count-insert u k v m)

  count-delete : (u k : ℕ) (m : List (ℕ × V)) → count u (keys (delete k m)) ≤ count u (keys m)
  unfolding delete
  count-delete u k [] = omega arith
  count-delete u k ((j, x) ∷ m) = ground (arith, count-delete u k m)

count_id-append :
    (u : ℕ) (xs ys : List TsWork) → count_id u (xs ++ ys) ≡ count_id u xs + count_id u ys
count_id-append u [] ys = omega arith
count_id-append u (x ∷ xs) ys = omega (arith, count_id-append u xs ys)

count_id-remove_at :
    (u : ℕ) (xs : List TsWork) (i : ℕ) (p : TsWork)
    → get_elem? xs i ≡ some p
    → count_id u (remove_at i xs) + (if nat_eqb p.id u then 1 else 0) ≡ count_id u xs
count_id-remove_at u [] i p h = cc
count_id-remove_at u (x ∷ xs) zero p h = ground arith
count_id-remove_at u (x ∷ xs) (suc i) p h = omega (arith, count_id-remove_at u xs i p h)

-- A step that uses no uuid more often, and hands none out again, keeps them fresh.
Fresh-fewer :
    {c c' : Coordinator}
    → Fresh c
    → ((u : ℕ) → uses u c' ≤ uses u c)
    → c.autoinc ≤ c'.autoinc
    → IsDistinct (keys c'.working)
    → Fresh c'
Fresh-fewer f fewer up d = record {
  once = λ u. omega (arith, f.once u, fewer u);
  unused = λ u h. omega (arith, f.unused u (omega arith), fewer u);
  distinct = d;
}

assign-Fresh :
    (c : Coordinator) (now : ℕ) (ts : List Task)
    → c.autoinc + 1 < 2 ^ 32
    → Fresh c
    → Fresh (assign c now ts).1
assign-Fresh c now [] room f = f
assign-Fresh c now (t ∷ rest) room f = record {
  once = λ u. ground (arith, f.once u, f.unused u);
  unused = λ u h. ground (arith, f.unused u);
  distinct = f.distinct;
}

hand_over-Fresh : (c c' : Coordinator) (i : ℕ) → hand_over c i ≡ some c' → Fresh c → Fresh c'
unfolding hand_over
hand_over-Fresh c c' i h f = elim (Option-cases (get_elem? c.handing i)) [
  | inl k ↦ absurd (ground arith)
  | inr (p, k) ↦
      let same : c.working ≡ c'.working = ground arith in
      Fresh-fewer f
        (λ u.
          ground
            (arith, count_id-remove_at u c.handing i p k, count_id-append u c.pending (p ∷ [])))
        (ground arith) (subst (λ m. IsDistinct (keys m)) same f.distinct)
]

record_pending-Fresh :
    (c c' : Coordinator) (ps : List TsWork)
    → c.pending ≡ ps
    → record_pending c ps ≡ some c'
    → Fresh c
    → Fresh c'
record_pending-Fresh c c' [] e h f = cc
record_pending-Fresh c c' (p ∷ rest) e h f =
    let free : lookup p.id c.working ≡ none =
      lookup-none p.id c.working (ground (arith, f.once p.id, ap (count_id p.id) e)) in
    let now_is : insert p.id p c.working ≡ c'.working = ground arith in
    Fresh-fewer f (λ u. ground (arith, count-insert u p.id p c.working free, ap (count_id u) e))
      (ground arith)
      (subst (λ m. IsDistinct (keys m)) now_is (insert-IsDistinct c.working p.id p f.distinct))

complete-Fresh : (c c' : Coordinator) (ids : List ℕ) → complete c ids ≡ some c' → Fresh c → Fresh c'
complete-Fresh c c' [] h f = cc
complete-Fresh c c' (co ∷ rest) h f = elim (Option-cases (lookup co c.working)) [
  | inl k ↦
      let same : c.working ≡ c'.working = ground arith in
      Fresh-fewer f (λ u. ground arith) (ground arith)
        (subst (λ m. IsDistinct (keys m)) same f.distinct)
  | inr (p, k) ↦
      let now_is : delete co c.working ≡ c'.working = ground arith in
      Fresh-fewer f (λ u. ground (arith, count-delete u co c.working)) (ground arith)
        (subst (λ m. IsDistinct (keys m)) now_is (delete-IsDistinct c.working co f.distinct))
]

expire-Fresh : (c c' : Coordinator) (now k : ℕ) → expire c now k ≡ some c' → Fresh c → Fresh c'
unfolding expire
expire-Fresh c c' now k h f = elim (Option-cases (lookup k c.working)) [
  | inl e ↦ absurd (ground arith)
  | inr (p, e) ↦ elim (Bool-cases (ltb 10 (now - p.ts))) [
    | inl late ↦
        let now_is : delete k c.working ≡ c'.working = ground arith in
        Fresh-fewer f (λ u. ground (arith, count-delete u k c.working)) (ground arith)
          (subst (λ m. IsDistinct (keys m)) now_is (delete-IsDistinct c.working k f.distinct))
    | inr early ↦ let same : c ≡ c' = ground arith in subst Fresh same f
  ]
]

kept-Fresh :
    (c c' : Coordinator)
    → (c'.autoinc ≡ c.autoinc)
      × (c'.handing ≡ c.handing)
      × (c'.pending ≡ c.pending)
      × (c'.working ≡ c.working)
    → Fresh c
    → Fresh c'
kept-Fresh c c' (a, h, p, w) f =
    Fresh-fewer f
      (λ u. omega (
        arith,
        ap (count_id u) h,
        ap (count_id u) p,
        ap (λ (m : List (ℕ × TsWork)). count u (keys m)) w,
      ))
      (omega arith) (subst (λ m. IsDistinct (keys m)) (sym w) f.distinct)

run_at-kept :
    (files : ℕ) (c c' : Coordinator) (s : Stage)
    → run_at files c s ≡ some c'
    → (c'.autoinc ≡ c.autoinc)
      × (c'.handing ≡ c.handing)
      × (c'.pending ≡ c.pending)
      × (c'.working ≡ c.working)
run_at-kept files c c' (mapping []) h = ground arith
run_at-kept files c c' (mapping (t ∷ rest)) h = ground arith
run_at-kept files c c' (awaiting_maps zero) h = ground arith
run_at-kept files c c' (awaiting_maps (suc n)) h = ground arith
run_at-kept files c c' (reducing []) h = ground arith
run_at-kept files c c' (reducing (t ∷ rest)) h = ground arith
run_at-kept files c c' (awaiting_reduces zero) h = ground arith
run_at-kept files c c' (awaiting_reduces (suc n)) h = ground arith
run_at-kept files c c' over h = cc

pub step-Fresh :
    (files : ℕ) (c c' : Coordinator) (ev : Event)
    → c.autoinc + 1 < 2 ^ 32
    → step files c ev ≡ some c'
    → Fresh c
    → Fresh c'
unfolding step request_work signal_finished run_step
step-Fresh files c c' (work_requested now) room h f =
    let same : (assign c now c.tasks).1 ≡ c' = ground arith in
    subst Fresh same (assign-Fresh c now c.tasks room f)
step-Fresh files c c' (handed i) room h f = hand_over-Fresh c c' i h f
step-Fresh files c c' (signalled uuid) room h f =
    kept-Fresh c c' (ground arith, ground arith, ground arith, ground arith) f
step-Fresh files c c' controller_pending room h f = record_pending-Fresh c c' c.pending refl h f
step-Fresh files c c' controller_completed room h f = complete-Fresh c c' c.completed_ids h f
step-Fresh files c c' (controller_tick now k) room h f = expire-Fresh c c' now k h f
step-Fresh files c c' run_goes room h f = kept-Fresh c c' (run_at-kept files c c' c.stage h) f

-- A step hands out at most one uuid.
pub step-autoinc :
    (files : ℕ) (c c' : Coordinator) (ev : Event)
    → step files c ev ≡ some c'
    → c'.autoinc ≤ c.autoinc + 1
unfolding step request_work hand_over signal_finished expire run_step
step-autoinc files c c' (work_requested now) h = ground arith
step-autoinc files c c' (handed i) h = ground arith
step-autoinc files c c' (signalled uuid) h = ground arith
step-autoinc files c c' controller_pending h = ground arith
step-autoinc files c c' controller_completed h = ground arith
step-autoinc files c c' (controller_tick now k) h = ground arith
step-autoinc files c c' run_goes h = omega (arith, run_at-kept files c c' c.stage h)
