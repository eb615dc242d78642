-- ===== src/Mr/Coordinator/Stages.antt =====
-- The stages of `run` in mr/coordinator.go and what has been received at each.
use mit.Prelude.{
  ℕ, zero, suc, ◌+◌, ◌≤◌, ◌≡◌, refl, sym, ap, ◌∙◌, subst, arith, String, Bool, true, false, Option,
  some, List, [], ◌∷◌, length, if◌then◌else◌, Option-cases, inl, inr, sum_values,
}
use mit.Mr.Coordinator.{
  Task, TsWork, Stage, mapping, awaiting_maps, reducing, awaiting_reduces, over, Coordinator,
  map_tasks, reduce_tasks, make_coordinator, send, record_pending, complete, receive_finished, feed,
  run_at, Event, step,
}
use mit.Mr.Coordinator.Uuids.{Fresh}
use mit.Mr.Coordinator.Conserve.{sum_tasks, sum_works, unfed, live, total}

-- The states that the coordinator of a job reaches, by the number of steps.
pub data Reach (files : List String) (n_reduce : ℕ) : ℕ → Coordinator → Type 0 where
  here : Reach files n_reduce 0 (make_coordinator files n_reduce)
  next :
      {n : ℕ} {c c' : Coordinator} (ev : Event)
      → Reach files n_reduce n c
      → step (length files) c ev ≡ some c'
      → Reach files n_reduce (suc n) c'

abbrev pub one : Task → ℕ
one _ = 1

abbrev pub is_map : Task → ℕ
is_map t = if t.mapper then 1 else 0

-- Whether the map tasks are over.
abbrev pub past_maps : Stage → Bool
past_maps (mapping _) = false
past_maps (awaiting_maps _) = false
past_maps _ = true

abbrev pub is_over : Stage → Bool
is_over over = true
is_over _ = false

pub one-tasks : (xs : List Task) → sum_tasks one xs ≡ length xs
one-tasks [] = refl
one-tasks (x ∷ xs) = omega (arith, one-tasks xs)

pub maps-all :
    (n k : ℕ) (files : List String)
    → (sum_tasks is_map (map_tasks n k files) ≡ length files)
      × (length (map_tasks n k files) ≡ length files)
maps-all n k [] = (refl, refl)
maps-all n k (f ∷ files) = omega (arith, maps-all n (suc k) files)

pub reduces-none :
    (n r k : ℕ) → (sum_tasks is_map (reduce_tasks n r k) ≡ 0) × (length (reduce_tasks n r k) ≡ k)
reduces-none n r zero = (refl, refl)
reduces-none n r (suc k) = omega (arith, reduces-none n (suc r) k)

-- The weights of the map tasks alone.
abbrev pub mapped : (Task → ℕ) → Task → ℕ
mapped w t = if t.mapper then w t else 0

pub maps-mapped :
    (w : Task → ℕ) (n k : ℕ) (files : List String)
    → sum_tasks (mapped w) (map_tasks n k files) ≡ sum_tasks w (map_tasks n k files)
maps-mapped w n k [] = refl
maps-mapped w n k (f ∷ files) = omega (arith, maps-mapped w n (suc k) files)

-- Where a task without the weight `u` has no weight `w`, no `w` is where no `u` is.
module _ (u w : Task → ℕ) (below : (t : Task) → u t ≡ 0 → w t ≡ 0) where
  pub tasks-zero : (xs : List Task) → sum_tasks u xs ≡ 0 → sum_tasks w xs ≡ 0
  tasks-zero [] h = refl
  tasks-zero (x ∷ xs) h = omega (arith, below x (omega arith), tasks-zero xs (omega arith))

  works-zero : (xs : List TsWork) → sum_works u xs ≡ 0 → sum_works w xs ≡ 0
  works-zero [] h = refl
  works-zero (x ∷ xs) h = omega (arith, below x.work (omega arith), works-zero xs (omega arith))

  values-zero :
      (m : List (ℕ × TsWork)) → sum_values (λ p. u p.work) m ≡ 0 → sum_values (λ p. w p.work) m ≡ 0
  values-zero [] h = refl
  values-zero ((k, x) ∷ m) h =
      omega (arith, below x.work (omega arith), values-zero m (omega arith))

  pub live-zero : (c : Coordinator) → live u c ≡ 0 → live w c ≡ 0
  live-zero c h = omega (
    arith,
    tasks-zero c.tasks (omega arith),
    works-zero c.handing (omega arith),
    works-zero c.pending (omega arith),
    values-zero c.working (omega arith),
    tasks-zero c.finished (omega arith),
  )

  pub unfed-zero : (n : ℕ) (s : Stage) → unfed u n s ≡ 0 → unfed w n s ≡ 0
  unfed-zero n (mapping todo) h =
      omega (arith, tasks-zero todo (omega arith), tasks-zero (reduce_tasks n 0 n) (omega arith))
  unfed-zero n (awaiting_maps _) h = tasks-zero (reduce_tasks n 0 n) h
  unfed-zero n (reducing todo) h = tasks-zero todo h
  unfed-zero n (awaiting_reduces _) h = refl
  unfed-zero n over h = refl

-- What has been received at each stage, of a job with so many files and reducers.
abbrev pub AtStage : ℕ → ℕ → List Task → Stage → Type 0
AtStage files reducers got (mapping _) = length got ≡ 0
AtStage files reducers got (awaiting_maps n) = length got + n ≡ files
AtStage files reducers got (reducing _) = (length got ≡ files) × (sum_tasks is_map got ≡ files)
AtStage files reducers got (awaiting_reduces n) =
    (length got + n ≡ files + reducers) × (files ≤ sum_tasks is_map got)
AtStage files reducers got over = (length got ≡ files + reducers) × (files ≤ sum_tasks is_map got)

pub record Inv (files : List String) (n_reduce : ℕ) (n : ℕ) (c : Coordinator) : Type 0 where
  pub fresh : Fresh c
  pub issued : c.autoinc ≤ n
  pub reducers : c.n_reduce ≡ n_reduce
  pub at_stage : AtStage (length files) n_reduce c.received c.stage
  pub done_over : c.done ≡ is_over c.stage
  pub weights :
      (w : Task → ℕ)
      → ((t : Task) (u : Option ℕ) → w (record t { uuid = u }) ≡ w t)
      → total w c
        ≡ sum_tasks w (map_tasks n_reduce 0 files) + sum_tasks w (reduce_tasks n_reduce 0 n_reduce)

-- The parts that only `run` touches.
abbrev pub Steady : Coordinator → Coordinator → Type 0
Steady c c' =
    (c'.stage ≡ c.stage)
    × (c'.received ≡ c.received)
    × (c'.n_reduce ≡ c.n_reduce)
    × (c'.done ≡ c.done)

pub Steady-Inv :
    {files : List String} {n_reduce n : ℕ} (c c' : Coordinator)
    → Steady c c'
    → Inv files n_reduce n c
    → (AtStage (length files) n_reduce c'.received c'.stage)
      × (c'.done ≡ is_over c'.stage)
      × (c'.n_reduce ≡ n_reduce)
Steady-Inv {files} {n_reduce} c c' (stage, got, reds, done) inv = (
  subst (λ s. AtStage (length files) n_reduce c'.received s) (sym stage)
      (subst (λ g. AtStage (length files) n_reduce g c.stage) (sym got) inv.at_stage),
  done ∙ inv.done_over ∙ ap is_over (sym stage),
  reds ∙ inv.reducers,
)

pub complete-Steady : (c c' : Coordinator) (ids : List ℕ) → complete c ids ≡ some c' → Steady c c'
complete-Steady c c' [] h = cc
complete-Steady c c' (co ∷ rest) h = ground arith

pub pending-Steady :
    (c c' : Coordinator) (ps : List TsWork) → record_pending c ps ≡ some c' → Steady c c'
pending-Steady c c' [] h = cc
pending-Steady c c' (p ∷ rest) h = ground arith

pub is_map_blind : (t : Task) (u : Option ℕ) → is_map (record t { uuid = u }) ≡ is_map t
is_map_blind t u = refl

module _ (files : List String) (n_reduce n : ℕ) where
  -- When the wait for the map tasks ends, nothing is under way, and each map task was received.
  maps_end :
      (c : Coordinator)
      → c.stage ≡ awaiting_maps 0
      → Inv files n_reduce n c
      → (length c.received ≡ length files) × (sum_tasks is_map c.received ≡ length files)
  maps_end c e inv =
      let got = subst (AtStage (length files) n_reduce c.received) e inv.at_stage in
      let all = inv.weights one (λ t u. refl) in
      let maps = inv.weights is_map is_map_blind in
      let none_live : live one c ≡ 0 = omega (
        arith,
        got,
        all,
        one-tasks c.received,
        one-tasks (map_tasks n_reduce 0 files),
        one-tasks (reduce_tasks n_reduce 0 n_reduce),
        ap (unfed one c.n_reduce) e,
        ap (λ k. sum_tasks one (reduce_tasks k 0 k)) inv.reducers,
        maps-all n_reduce 0 files,
      ) in
      omega (
        arith,
        got,
        maps,
        maps-all n_reduce 0 files,
        reduces-none n_reduce 0 n_reduce,
        live-zero one is_map (λ t h. absurd (omega arith)) c none_live,
        ap (unfed is_map c.n_reduce) e,
        ap (λ k. sum_tasks is_map (reduce_tasks k 0 k)) inv.reducers,
      )

  -- What `run` leaves in place.
  abbrev pub Left : Coordinator → Type 0
  Left c =
      (AtStage (length files) n_reduce c.received c.stage)
      × (c.done ≡ is_over c.stage)
      × (c.n_reduce ≡ n_reduce)

  feed-Left :
      (c c' : Coordinator) (t : Task) (after : Stage)
      → feed c t after ≡ some c'
      → Left (record c { stage = after })
      → Left c'
  feed-Left c c' t after h left = elim (Option-cases (send c.capacity c.tasks t)) [
    | inl e ↦ absurd (ground arith)
    | inr (ts, e) ↦
        let same : record c { tasks = ts; stage = after } ≡ c' = ground arith in
        subst Left same left
  ]

  receive-Left :
      (c c' : Coordinator) (ts : List Task) (after : Stage)
      → receive_finished c ts after ≡ some c'
      → ((t : Task) → Left (record c { stage = after; received = t ∷ c.received }))
      → Left c'
  receive-Left c c' [] after h left = cc
  receive-Left c c' (t ∷ rest) after h left =
      let same : record c { finished = rest; stage = after; received = t ∷ c.received } ≡ c' = cc in
      subst Left same (left t)

  pub run-Inv :
      (c c' : Coordinator) (s : Stage)
      → c.stage ≡ s
      → run_at (length files) c s ≡ some c'
      → Inv files n_reduce n c
      → Left c'
  run-Inv c c' s e h inv =
      moves c c' s h e (subst (AtStage (length files) n_reduce c.received) e inv.at_stage)
        (inv.done_over ∙ ap is_over e) inv.reducers inv
    where
      moves :
          (c c' : Coordinator) (s : Stage)
          → run_at (length files) c s ≡ some c'
          → c.stage ≡ s
          → AtStage (length files) n_reduce c.received s
          → c.done ≡ is_over s
          → c.n_reduce ≡ n_reduce
          → Inv files n_reduce n c
          → Left c'
      moves c c' (mapping []) h e got done reds inv =
          let same : record c { stage = awaiting_maps (length files) } ≡ c' = cc in
          subst Left same (omega arith, done, reds)
      moves c c' (mapping (t ∷ rest)) h e got done reds inv =
          feed-Left c c' t (mapping rest) h (got, done, reds)
      moves c c' (awaiting_maps zero) h e got done reds inv =
          let same : record c { stage = reducing (reduce_tasks c.n_reduce 0 c.n_reduce) } ≡ c' =
            cc in
          subst Left same (maps_end c e inv, done, reds)
      moves c c' (awaiting_maps (suc k)) h e got done reds inv =
          receive-Left c c' c.finished (awaiting_maps k) h (λ t. (omega arith, done, reds))
      moves c c' (reducing []) h e got done reds inv =
          let same : record c { stage = awaiting_reduces c.n_reduce } ≡ c' = cc in
          subst Left same ((omega arith, omega arith), done, reds)
      moves c c' (reducing (t ∷ rest)) h e got done reds inv =
          feed-Left c c' t (reducing rest) h (got, done, reds)
      moves c c' (awaiting_reduces zero) h e got done reds inv =
          let same : record c { stage = over; done = true } ≡ c' = cc in
          subst Left same ((omega arith, omega arith), refl, reds)
      moves c c' (awaiting_reduces (suc k)) h e got done reds inv =
          receive-Left c c' c.finished (awaiting_reduces k) h
            (λ t. ((omega arith, omega arith), done, reds))
      moves c c' over h e got done reds inv = cc
