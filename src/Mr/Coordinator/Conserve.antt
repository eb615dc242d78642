-- ===== src/Mr/Coordinator/Conserve.antt =====
-- Sums over the tasks that the coordinator (mr/coordinator.go) has, wherever they are.
use mit.Prelude.{
  ℕ, zero, suc, ◌+◌, ◌≡◌, refl, ap, subst, arith, Option, none, some, List, [], ◌∷◌, ◌++◌,
  get_elem?, Option-cases, inl, inr, lookup, nat_eq, sum_values, sum_values-insert,
  sum_values-delete,
}
use mit.Mr.Coordinator.{
  Task, TsWork, Stage, mapping, awaiting_maps, reducing, awaiting_reduces, over, Coordinator,
  reduce_tasks, assign, request_work, remove_at, hand_over, signal_finished, record_pending,
  complete, expire, run_at, run_step, Event, work_requested, handed, signalled, controller_pending,
  controller_completed, controller_tick, run_goes, step,
}
use mit.Mr.Coordinator.Uuids.{count_id, Fresh, lookup-none}

abbrev pub sum_tasks : (Task → ℕ) → List Task → ℕ
sum_tasks w [] = 0
sum_tasks w (t ∷ ts) = w t + sum_tasks w ts

abbrev pub sum_works : (Task → ℕ) → List TsWork → ℕ
sum_works w [] = 0
sum_works w (p ∷ ps) = w p.work + sum_works w ps

-- The weight of the tasks that `run` has still to feed.
abbrev pub unfed : (Task → ℕ) → ℕ → Stage → ℕ
unfed w n (mapping todo) = sum_tasks w todo + sum_tasks w (reduce_tasks n 0 n)
unfed w n (awaiting_maps _) = sum_tasks w (reduce_tasks n 0 n)
unfed w n (reducing todo) = sum_tasks w todo
unfed w n (awaiting_reduces _) = 0
unfed w n over = 0

-- The weight of the tasks under way: queued, in hand, pending, worked on, or finished and not yet
-- received.
abbrev pub live : (Task → ℕ) → Coordinator → ℕ
live w c =
    sum_tasks w c.tasks
    + sum_works w c.handing
    + sum_works w c.pending
    + sum_values (λ p. w p.work) c.working
    + sum_tasks w c.finished

abbrev pub total : (Task → ℕ) → Coordinator → ℕ
total w c = live w c + sum_tasks w c.received + unfed w c.n_reduce c.stage

sum_tasks-append :
    (w : Task → ℕ) (xs ys : List Task) → sum_tasks w (xs ++ ys) ≡ sum_tasks w xs + sum_tasks w ys
sum_tasks-append w [] ys = omega arith
sum_tasks-append w (x ∷ xs) ys = omega (arith, sum_tasks-append w xs ys)

sum_works-append :
    (w : Task → ℕ) (xs ys : List TsWork) → sum_works w (xs ++ ys) ≡ sum_works w xs + sum_works w ys
sum_works-append w [] ys = omega arith
sum_works-append w (x ∷ xs) ys = omega (arith, sum_works-append w xs ys)

sum_works-remove_at :
    (w : Task → ℕ) (xs : List TsWork) (i : ℕ) (p : TsWork)
    → get_elem? xs i ≡ some p
    → sum_works w (remove_at i xs) + w p.work ≡ sum_works w xs
sum_works-remove_at w [] i p h = cc
sum_works-remove_at w (x ∷ xs) zero p h = ground arith
sum_works-remove_at w (x ∷ xs) (suc i) p h = omega (arith, sum_works-remove_at w xs i p h)

module _ (w : Task → ℕ) (blind : (t : Task) (u : Option ℕ) → w (record t { uuid = u }) ≡ w t) where
  assign-total :
      (c : Coordinator) (now : ℕ) (ts : List Task)
      → c.tasks ≡ ts
      → total w (assign c now ts).1 ≡ total w c
  assign-total c now [] e = refl
  assign-total c now (t ∷ rest) e = omega (arith, blind t (some c.autoinc), ap (sum_tasks w) e)

  hand_over-total : (c c' : Coordinator) (i : ℕ) → hand_over c i ≡ some c' → total w c' ≡ total w c
  unfolding hand_over
  hand_over-total c c' i h = elim (Option-cases (get_elem? c.handing i)) [
    | inl k ↦ absurd (ground arith)
    | inr (p, k) ↦
        ground (arith, sum_works-remove_at w c.handing i p k, sum_works-append w c.pending (p ∷ []))
  ]

  record_pending-total :
      (c c' : Coordinator) (ps : List TsWork)
      → Fresh c
      → c.pending ≡ ps
      → record_pending c ps ≡ some c'
      → total w c' ≡ total w c
  record_pending-total c c' [] f e h = cc
  record_pending-total c c' (p ∷ rest) f e h =
      let free : lookup p.id c.working ≡ none =
        lookup-none p.id c.working (ground (arith, f.once p.id, ap (count_id p.id) e)) in
      ground (arith, sum_values-insert (λ q. w q.work) p.id p c.working free, ap (sum_works w) e)

  complete-total :
      (c c' : Coordinator) (ids : List ℕ)
      → Fresh c
      → complete c ids ≡ some c'
      → total w c' ≡ total w c
  complete-total c c' [] f h = cc
  complete-total c c' (co ∷ rest) f h = elim (Option-cases (lookup co c.working)) [
    | inl k ↦ ground arith
    | inr (p, k) ↦ ground (
      arith,
      sum_tasks-append w c.finished (p.work ∷ []),
      sum_values-delete (λ q. w q.work) co p c.working f.distinct k,
    )
  ]

  expire-total :
      (c c' : Coordinator) (now k : ℕ) → Fresh c → expire c now k ≡ some c' → total w c' ≡ total w c
  unfolding expire
  expire-total c c' now k f h = elim (Option-cases (lookup k c.working)) [
    | inl e ↦ absurd (ground arith)
    | inr (p, e) ↦ ground (
      arith,
      sum_tasks-append w c.tasks (p.work ∷ []),
      sum_values-delete (λ q. w q.work) k p c.working f.distinct e,
    )
  ]

  run_at-total :
      (files : ℕ) (c c' : Coordinator) (s : Stage)
      → c.stage ≡ s
      → run_at files c s ≡ some c'
      → total w c' ≡ total w c
  run_at-total files c c' (mapping []) e h = ground (arith, ap (unfed w c.n_reduce) e)
  run_at-total files c c' (mapping (t ∷ rest)) e h =
      ground (arith, ap (unfed w c.n_reduce) e, sum_tasks-append w c.tasks (t ∷ []))
  run_at-total files c c' (awaiting_maps zero) e h = ground (arith, ap (unfed w c.n_reduce) e)
  run_at-total files c c' (awaiting_maps (suc n)) e h = ground (arith, ap (unfed w c.n_reduce) e)
  run_at-total files c c' (reducing []) e h = ground (arith, ap (unfed w c.n_reduce) e)
  run_at-total files c c' (reducing (t ∷ rest)) e h =
      ground (arith, ap (unfed w c.n_reduce) e, sum_tasks-append w c.tasks (t ∷ []))
  run_at-total files c c' (awaiting_reduces zero) e h = ground (arith, ap (unfed w c.n_reduce) e)
  run_at-total files c c' (awaiting_reduces (suc n)) e h = ground (arith, ap (unfed w c.n_reduce) e)
  run_at-total files c c' over e h = cc

  -- Where the uuids in use are distinct and below the next one, and whatever weight is given to
  -- tasks, but for their uuids, no step changes its total over the
  -- channels, the handlers, the controller's table, the received and the tasks still to feed.
  pub step-total :
      (files : ℕ) (c c' : Coordinator) (ev : Event)
      → Fresh c
      → step files c ev ≡ some c'
      → total w c' ≡ total w c
  unfolding step request_work signal_finished run_step
  step-total files c c' (work_requested now) f h =
      let same : (assign c now c.tasks).1 ≡ c' = ground arith in
      subst (λ d. total w d ≡ total w c) same (assign-total c now c.tasks refl)
  step-total files c c' (handed i) f h = hand_over-total c c' i h
  step-total files c c' (signalled uuid) f h = ground arith
  step-total files c c' controller_pending f h = record_pending-total c c' c.pending f refl h
  step-total files c c' controller_completed f h = complete-total c c' c.completed_ids f h
  step-total files c c' (controller_tick now k) f h = expire-total c c' now k f h
  step-total files c c' run_goes f h = run_at-total files c c' c.stage refl h
