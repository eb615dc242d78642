-- ===== src/Mr/Examples.antt =====
-- The theorems on mr/ for a job of one file and one reduce task.
use mit.Prelude.{
  ℕ, suc, ◌+◌, ◌≡◌, refl, arith, String, Bool, true, false, Option, none, some, List, [], ◌∷◌,
  length, lookup, insert, delete, nat_eq, string_eq, ◌==◌, subst, Option-cases, inl, inr,
  if◌then◌else◌,
}
use mit.Mr.Coordinator.{
  Task, Stage, reducing, awaiting_maps, over, Coordinator, map_tasks, reduce_tasks,
  make_coordinator, Event, work_requested, handed, signalled, controller_pending,
  controller_completed, run_goes, step, request_work, hand_over, signal_finished, run_step,
}
use mit.Mr.Coordinator.Uuids.{Fresh}
use mit.Mr.Coordinator.Conserve.{sum_tasks, live}
use mit.Mr.Coordinator.Stages.{mapped, Reach, here, next}
use mit.Mr.Coordinator.Safety.{maps_first, all_received}
use mit.Mr.Worker.{KeyValue, handle_reduce, reduce_all, held}
use mit.Mr.Worker.Shuffle.{map_files, mine, all_values, shuffle}

-- What happens to one task: it is fed, requested, handed over, recorded, signalled, completed and
-- received.
abbrev task_events : ℕ → List Event
task_events uuid =
    run_goes
    ∷ run_goes
    ∷ work_requested 0
    ∷ handed 0
    ∷ controller_pending
    ∷ signalled uuid
    ∷ controller_completed
    ∷ run_goes
    ∷ run_goes
    ∷ []

abbrev run_all : List Event → Coordinator → Option Coordinator
run_all [] c = some c
run_all (ev ∷ evs) c = elim (step 1 c ev) [ none ↦ none | some c' ↦ run_all evs c' ]

abbrev files : List String
files = "f" ∷ []

run_all-Reach :
    (n : ℕ) (evs : List Event) (c c' : Coordinator)
    → Reach files 1 n c
    → run_all evs c ≡ some c'
    → Reach files 1 (length evs + n) c'
run_all-Reach n [] c c' r h =
    let same : c ≡ c' = cc in
    subst (λ k. Reach files 1 k c') (omega arith) (subst (Reach files 1 n) same r)
run_all-Reach n (ev ∷ evs) c c' r h = elim (Option-cases (step 1 c ev)) [
  | inl e ↦ absurd (ground arith)
  | inr (d, e) ↦
      let rest : run_all evs d ≡ some c' = ground arith in
      subst (λ k. Reach files 1 k c') (omega arith)
        (run_all-Reach (suc n) evs d c' (next ev r e) rest)
]

abbrev map_task : Option ℕ → Task
map_task u = record {
  ready = true;
  mapper = true;
  file = "f";
  task = 0;
  total_reducers = 1;
  uuid = u;
}

abbrev reduce_task : Option ℕ → Task
reduce_task u = record {
  ready = true;
  mapper = false;
  file = "";
  task = 0;
  total_reducers = 1;
  uuid = u;
}

-- The coordinator between two tasks.
abbrev quiet : ℕ → Stage → List Task → Bool → Coordinator
quiet issued stage received done = record {
  n_reduce = 1;
  capacity = 1;
  autoinc = issued;
  tasks = [];
  handing = [];
  pending = [];
  completed_ids = [];
  working = [];
  finished = [];
  stage = stage;
  received = received;
  done = done;
}

abbrev mapped_job : Coordinator
mapped_job = quiet 1 (reducing (reduce_task none ∷ [])) (map_task (some 0) ∷ []) false

abbrev finished : Coordinator
finished = quiet 2 over (reduce_task (some 1) ∷ map_task (some 0) ∷ []) true

maps_run : run_all (task_events 0) (make_coordinator files 1) ≡ some mapped_job
unfolding step make_coordinator request_work hand_over signal_finished run_step lookup insert delete
maps_run = refl

reduces_run : run_all (task_events 1) mapped_job ≡ some finished
unfolding step request_work hand_over signal_finished run_step lookup insert delete
reduces_run = refl

Reach-mapped : Reach files 1 9 mapped_job
Reach-mapped = run_all-Reach 0 (task_events 0) (make_coordinator files 1) mapped_job here maps_run

Reach-finished : Reach files 1 18 finished
Reach-finished = run_all-Reach 9 (task_events 1) mapped_job finished Reach-mapped reduces_run

-- The number of a task, with the map tasks before the reduce tasks.
abbrev weight : Task → ℕ
weight t = if t.mapper then t.task + 1 else t.task + 100

maps_first_example :
    (live (mapped weight) mapped_job ≡ 0)
    × (sum_tasks (mapped weight) mapped_job.received ≡ sum_tasks weight (map_tasks 1 0 files))
maps_first_example = maps_first files 1 weight (λ t u. refl) (omega arith) Reach-mapped refl

all_received_example :
    sum_tasks weight finished.received
    ≡ sum_tasks weight (map_tasks 1 0 files) + sum_tasks weight (reduce_tasks 1 0 1)
all_received_example = all_received files 1 weight (λ t u. refl) (omega arith) Reach-finished refl

-- A task in the queue is requested.
abbrev queued : Coordinator
queued = record (quiet 0 (awaiting_maps 1) [] false) { tasks = map_task none ∷ [] }

abbrev requested : Coordinator
requested = (request_work queued 3).1

queued-Fresh : Fresh queued
queued-Fresh = record { once = λ u. omega arith; unused = λ u h. omega arith; distinct = tt }

-- Files hold the pairs as they are; keys hash to their first byte's parity.
abbrev pair : String → String → KeyValue
pair k v = record { key = k; value = v }

abbrev hash : String → ℕ
hash k = if k == "a" then 0 else 1

abbrev outputs : List (List KeyValue)
outputs = (pair "a" "1" ∷ pair "b" "2" ∷ []) ∷ (pair "a" "3" ∷ []) ∷ []

shuffle_example :
    (m : List (String × List String)) × (handle_reduce some
        (λ k vs. k)
        0
        (map_files hash (λ slc. slc) 2 outputs)
      ≡ some (reduce_all (λ k vs. k) m))
    × ((k : String) → held (lookup k m) ≡ mine hash 2 k 0 (all_values k outputs))
shuffle_example = shuffle hash (λ slc. slc) some 2 (λ slc. refl) (λ k vs. k) 0 outputs
