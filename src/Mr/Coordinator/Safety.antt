-- ===== src/Mr/Coordinator/Safety.antt =====
-- The states that the coordinator of mr/coordinator.go reaches.
use mit.Prelude.{
  ℕ, suc, ◌+◌, ◌≤◌, ◌<◌, ◌^◌, ◌≡◌, refl, sym, ap, ◌∙◌, subst, arith, String, true, Option, some,
  List, [], ◌∷◌, length, if◌then◌else◌,
}
use mit.Mr.Coordinator.{
  Task, Stage, mapping, awaiting_maps, reducing, awaiting_reduces, over, Coordinator, map_tasks,
  reduce_tasks, make_coordinator, assign, request_work, hand_over, signal_finished, expire,
  run_step, Event, work_requested, handed, signalled, controller_pending, controller_completed,
  controller_tick, run_goes, step,
}
use mit.Mr.Coordinator.Uuids.{step-Fresh, step-autoinc}
use mit.Mr.Coordinator.Conserve.{sum_tasks, unfed, live, total, step-total}
use mit.Mr.Coordinator.Stages.{
  Reach, here, next, one, is_map, past_maps, is_over, one-tasks, maps-all, reduces-none, live-zero,
  unfed-zero, tasks-zero, mapped, maps-mapped, AtStage, Inv, Steady, Steady-Inv, complete-Steady,
  pending-Steady, is_map_blind, Left, run-Inv,
}

assign-Steady :
    (c c' : Coordinator) (now : ℕ) (ts : List Task) → (assign c now ts).1 ≡ c' → Steady c c'
assign-Steady c c' now [] h = (cc, cc, cc, cc)
assign-Steady c c' now (t ∷ rest) h = (cc, cc, cc, cc)

module _ (files : List String) (n_reduce : ℕ) where
  start-Inv : Inv files n_reduce 0 (make_coordinator files n_reduce)
  unfolding make_coordinator
  start-Inv = record {
    fresh = record { once = λ u. omega arith; unused = λ u h. omega arith; distinct = tt };
    issued = omega arith;
    reducers = refl;
    at_stage = refl;
    done_over = refl;
    weights = λ w blind. omega arith;
  }

  step-Left :
      (n : ℕ) (c c' : Coordinator) (ev : Event)
      → step (length files) c ev ≡ some c'
      → Inv files n_reduce n c
      → Left files n_reduce n c'
  unfolding step request_work hand_over signal_finished expire run_step
  step-Left n c c' (work_requested now) h inv =
      Steady-Inv c c' (assign-Steady c c' now c.tasks (ground arith)) inv
  step-Left n c c' (handed i) h inv = Steady-Inv c c' (ground arith) inv
  step-Left n c c' (signalled uuid) h inv = Steady-Inv c c' (ground arith) inv
  step-Left n c c' controller_pending h inv = Steady-Inv c c' (pending-Steady c c' c.pending h) inv
  step-Left n c c' controller_completed h inv =
      Steady-Inv c c' (complete-Steady c c' c.completed_ids h) inv
  step-Left n c c' (controller_tick now k) h inv = Steady-Inv c c' (ground arith) inv
  step-Left n c c' run_goes h inv = run-Inv files n_reduce n c c' c.stage refl h inv

  step-Inv :
      (n : ℕ) (c c' : Coordinator) (ev : Event)
      → suc n < 2 ^ 32
      → step (length files) c ev ≡ some c'
      → Inv files n_reduce n c
      → Inv files n_reduce (suc n) c'
  step-Inv n c c' ev room h inv =
      let left = step-Left n c c' ev h inv in
      record {
        fresh = step-Fresh (length files) c c' ev (omega (arith, inv.issued)) h inv.fresh;
        issued = omega (arith, inv.issued, step-autoinc (length files) c c' ev h);
        reducers = left.2;
        at_stage = left.0;
        done_over = left.1;
        weights =
            λ w blind. step-total w blind (length files) c c' ev inv.fresh h ∙ inv.weights w blind;
      }

  Reach-Inv :
      {n : ℕ} {c : Coordinator} → n < 2 ^ 32 → Reach files n_reduce n c → Inv files n_reduce n c
  Reach-Inv room here = start-Inv
  Reach-Inv {n = suc n} {c = c'} room (next {c = c} ev r h) =
      step-Inv n c c' ev room h (Reach-Inv (omega arith) r)

  -- The state's weights, in terms of the files.
  map_weight : {n : ℕ} (c : Coordinator) → Inv files n_reduce n c → total is_map c ≡ length files
  map_weight c inv = omega (
    arith,
    inv.weights is_map is_map_blind,
    maps-all n_reduce 0 files,
    reduces-none n_reduce 0 n_reduce,
  )

  maps_received :
      {n : ℕ} (c : Coordinator) (s : Stage)
      → c.stage ≡ s
      → past_maps s ≡ true
      → Inv files n_reduce n c
      → length files ≤ sum_tasks is_map c.received
  maps_received c s e h inv =
      by_stage s h (subst (AtStage (length files) n_reduce c.received) e inv.at_stage)
    where
      by_stage :
          (s : Stage)
          → past_maps s ≡ true
          → AtStage (length files) n_reduce c.received s
          → length files ≤ sum_tasks is_map c.received
      by_stage (mapping _) h got = cc
      by_stage (awaiting_maps _) h got = cc
      by_stage (reducing _) h got = omega (arith, got)
      by_stage (awaiting_reduces _) h got = got.1
      by_stage over h got = got.1

  mapped-below : (w : Task → ℕ) (t : Task) → is_map t ≡ 0 → mapped w t ≡ 0
  mapped-below w t h = ground arith

  -- Once `run` feeds reduce tasks, in a run of less than 2^32 steps, no map task is queued, in hand,
  -- pending, in the controller's table or among the finished, and the map tasks that were received
  -- are those that the job started with, each as often: any weight of map tasks that does not
  -- look at the uuids is 0 over the former and has the same sum over the latter two.
  pub maps_first :
      {n : ℕ} {c : Coordinator} (w : Task → ℕ)
      → ((t : Task) (u : Option ℕ) → w (record t { uuid = u }) ≡ w t)
      → n < 2 ^ 32
      → Reach files n_reduce n c
      → past_maps c.stage ≡ true
      → (live (mapped w) c ≡ 0)
        × (sum_tasks (mapped w) c.received ≡ sum_tasks w (map_tasks n_reduce 0 files))
  maps_first {c} w blind room r h =
      let inv = Reach-Inv room r in
      let counts : (live is_map c ≡ 0) × (unfed is_map c.n_reduce c.stage ≡ 0) =
        omega (arith, maps_received c c.stage refl h inv, map_weight c inv) in
      let below = mapped-below w in
      let idle : live (mapped w) c ≡ 0 = live-zero is_map (mapped w) below c counts.0 in
      (
        idle,
        omega (
          arith,
          idle,
          inv.weights (mapped w) (λ t u. ap (λ k. if t.mapper then k else 0) (blind t u)),
          unfed-zero is_map (mapped w) below c.n_reduce c.stage counts.1,
          tasks-zero is_map (mapped w) below (reduce_tasks n_reduce 0 n_reduce)
              (reduces-none n_reduce 0 n_reduce).0,
          maps-mapped w n_reduce 0 files,
        ),
      )

  -- When `Done` answers yes, in a run of less than 2^32 steps, the tasks that were received are
  -- those that the job started with, each as often: any weight that does not look at the uuids has
  -- the same sum over both.
  pub all_received :
      {n : ℕ} {c : Coordinator} (w : Task → ℕ)
      → ((t : Task) (u : Option ℕ) → w (record t { uuid = u }) ≡ w t)
      → n < 2 ^ 32
      → Reach files n_reduce n c
      → c.done ≡ true
      → sum_tasks w c.received
        ≡ sum_tasks w (map_tasks n_reduce 0 files) + sum_tasks w (reduce_tasks n_reduce 0 n_reduce)
  all_received {c} w blind room r h =
      let inv = Reach-Inv room r in
      let got = over_got c c.stage refl (sym inv.done_over ∙ h) inv in
      let everything = inv.weights one (λ t u. refl) in
      let idle : live one c ≡ 0 = omega (
        arith,
        got,
        everything,
        one-tasks c.received,
        one-tasks (map_tasks n_reduce 0 files),
        one-tasks (reduce_tasks n_reduce 0 n_reduce),
        maps-all n_reduce 0 files,
        reduces-none n_reduce 0 n_reduce,
      ) in
      omega (
        arith,
        live-zero one w (λ t h. absurd (omega arith)) c idle,
        inv.weights w blind,
        unfed_none c c.stage refl (sym inv.done_over ∙ h),
      )
    where
      over_got :
          {n : ℕ} (c : Coordinator) (s : Stage)
          → c.stage ≡ s
          → is_over s ≡ true
          → Inv files n_reduce n c
          → length c.received ≡ length files + n_reduce
      over_got c (mapping _) e h inv = cc
      over_got c (awaiting_maps _) e h inv = cc
      over_got c (reducing _) e h inv = cc
      over_got c (awaiting_reduces _) e h inv = cc
      over_got c over e h inv =
          (subst (AtStage (length files) n_reduce c.received) e inv.at_stage).0

      unfed_none :
          (c : Coordinator) (s : Stage)
          → c.stage ≡ s
          → is_over s ≡ true
          → unfed w c.n_reduce c.stage ≡ 0
      unfed_none c (mapping _) e h = cc
      unfed_none c (awaiting_maps _) e h = cc
      unfed_none c (reducing _) e h = cc
      unfed_none c (awaiting_reduces _) e h = cc
      unfed_none c over e h = ap (unfed w c.n_reduce) e
