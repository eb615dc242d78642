-- ===== src/Mr/Coordinator.antt =====
-- mr/coordinator.go: its channels, its goroutines and its RPC handlers, one send or receive at a
-- time. `none` is a step that would block.
pub mod Uuids
pub mod Conserve
pub mod Stages
pub mod Safety
use mit.Prelude.{
  ℕ, zero, suc, ◌+◌, ◌-◌, ◌%◌, ◌^◌, String, Bool, true, false, Option, none, some, List, [], ◌∷◌,
  ◌++◌, ltb, length, get_elem?, if◌then◌else◌, lookup, insert, delete, nat_eq,
}

-- `WorkRequestReply` (mr/rpc.go), which also is the task itself; the -1 of a fresh one is `none`.
pub record Task : Type 0 where
  pub ready : Bool
  pub mapper : Bool
  pub file : String
  pub task : ℕ
  pub total_reducers : ℕ
  pub uuid : Option ℕ

-- `TsWork`, with the uuid that its task was given; times are in seconds.
pub record TsWork : Type 0 where
  pub work : Task
  pub id : ℕ
  pub ts : ℕ

-- Where `run` is: feeding the map tasks, waiting for so many of them, and so for reduce tasks.
pub data Stage : Type 0 where
  mapping : List Task → Stage
  awaiting_maps : ℕ → Stage
  reducing : List Task → Stage
  awaiting_reduces : ℕ → Stage
  over : Stage

-- The channels in their order, the table of the controller, and `handing`: tasks that a
-- RequestWork has taken and not yet sent to `pending`. `received` are the tasks that `run` has
-- received as finished; the code forgets them.
pub record Coordinator : Type 0 where
  pub n_reduce : ℕ
  pub capacity : ℕ
  pub autoinc : ℕ
  pub tasks : List Task
  pub handing : List TsWork
  pub pending : List TsWork
  pub completed_ids : List ℕ
  pub working : List (ℕ × TsWork)
  pub finished : List Task
  pub stage : Stage
  pub received : List Task
  pub done : Bool

abbrev pub map_tasks : ℕ → ℕ → List String → List Task
map_tasks n_reduce n [] = []
map_tasks n_reduce n (f ∷ files) =
    record {
      ready = true;
      mapper = true;
      file = f;
      task = n;
      total_reducers = n_reduce;
      uuid = none;
    }
    ∷ map_tasks n_reduce (suc n) files

-- `for r := range nReduce`, from `r` on for `k` rounds.
abbrev pub reduce_tasks : ℕ → ℕ → ℕ → List Task
reduce_tasks n_reduce r zero = []
reduce_tasks n_reduce r (suc k) =
    record {
      ready = true;
      mapper = false;
      file = "";
      task = r;
      total_reducers = n_reduce;
      uuid = none;
    }
    ∷ reduce_tasks n_reduce (suc r) k

-- `MakeCoordinator`, with `run` at its start.
unfoldable pub make_coordinator : List String → ℕ → Coordinator
make_coordinator files n_reduce = record {
  n_reduce = n_reduce;
  capacity = length files;
  autoinc = 0;
  tasks = [];
  handing = [];
  pending = [];
  completed_ids = [];
  working = [];
  finished = [];
  stage = mapping (map_tasks n_reduce 0 files);
  received = [];
  done = false;
}

-- A send on a buffered channel.
abbrev pub send {ℓ} : {A : Type ℓ} → ℕ → List A → A → Option (List A)
send cap ch a = if ltb (length ch) cap then some (ch ++ a ∷ []) else none

-- `atomic.Int32`, as a bit pattern.
abbrev pub next_id : ℕ → ℕ
next_id n = (n + 1) % 2 ^ 32

-- RequestWork up to its send: the reply, and the task with its uuid in hand.
abbrev pub assign : Coordinator → ℕ → List Task → Bool × Coordinator
assign c now [] = (false, c)
assign c now (t ∷ rest) = (
  true,
  record c {
    autoinc = next_id c.autoinc;
    tasks = rest;
    handing =
        record { work = record t { uuid = some c.autoinc }; id = c.autoinc; ts = now } ∷ c.handing;
  },
)

unfoldable pub request_work : Coordinator → ℕ → Bool × Coordinator
request_work c now = assign c now c.tasks

abbrev pub remove_at : ℕ → List TsWork → List TsWork
remove_at i [] = []
remove_at zero (p ∷ ps) = ps
remove_at (suc i) (p ∷ ps) = p ∷ remove_at i ps

-- The send of RequestWork, by the handler that holds the `i`th task in hand.
unfoldable pub hand_over : Coordinator → ℕ → Option Coordinator
hand_over c i = elim (get_elem? c.handing i) [
  | none ↦ none
  | some p ↦ elim (send c.capacity c.pending p) [
    | none ↦ none
    | some pending ↦ some (record c { handing = remove_at i c.handing; pending = pending })
  ]
]

-- SignalFinished
unfoldable pub signal_finished : Coordinator → ℕ → Option Coordinator
signal_finished c uuid = elim (send c.capacity c.completed_ids uuid) [
  | none ↦ none
  | some ids ↦ some (record c { completed_ids = ids })
]

-- The controller's first case.
abbrev pub record_pending : Coordinator → List TsWork → Option Coordinator
record_pending c [] = none
record_pending c (p ∷ rest) = some (record c { pending = rest; working = insert p.id p c.working })

-- The controller's second case, with its send, as one step, which does not go while the send would
-- block; an id that is not in its table is dropped.
abbrev pub complete : Coordinator → List ℕ → Option Coordinator
complete c [] = none
complete c (co ∷ rest) = elim (lookup co c.working) [
  | none ↦ some (record c { completed_ids = rest })
  | some p ↦ elim (send c.capacity c.finished p.work) [
    | none ↦ none
    | some fin ↦
        some (record c { completed_ids = rest; working = delete co c.working; finished = fin })
  ]
]

-- The body of the controller's third case, for the entry of key `k`: the removal and the send are one
-- step, which does not go while the send would block.
unfoldable pub expire : Coordinator → ℕ → ℕ → Option Coordinator
expire c now k = elim (lookup k c.working) [
  | none ↦ none
  | some p ↦
      if ltb 10 (now - p.ts)
      then elim (send c.capacity c.tasks p.work) [
        | none ↦ none
        | some tasks ↦ some (record c { working = delete k c.working; tasks = tasks })
      ]
      else some c
]

abbrev pub receive_finished : Coordinator → List Task → Stage → Option Coordinator
receive_finished c [] after = none
receive_finished c (t ∷ rest) after =
    some (record c { finished = rest; stage = after; received = t ∷ c.received })

abbrev pub feed : Coordinator → Task → Stage → Option Coordinator
feed c t after = elim (send c.capacity c.tasks t) [
  | none ↦ none
  | some tasks ↦ some (record c { tasks = tasks; stage = after })
]

-- The next send or receive of `run`, for so many files.
abbrev pub run_at : ℕ → Coordinator → Stage → Option Coordinator
run_at files c (mapping []) = some (record c { stage = awaiting_maps files })
run_at files c (mapping (t ∷ rest)) = feed c t (mapping rest)
run_at files c (awaiting_maps zero) =
    some (record c { stage = reducing (reduce_tasks c.n_reduce 0 c.n_reduce) })
run_at files c (awaiting_maps (suc n)) = receive_finished c c.finished (awaiting_maps n)
run_at files c (reducing []) = some (record c { stage = awaiting_reduces c.n_reduce })
run_at files c (reducing (t ∷ rest)) = feed c t (reducing rest)
run_at files c (awaiting_reduces zero) = some (record c { stage = over; done = true })
run_at files c (awaiting_reduces (suc n)) = receive_finished c c.finished (awaiting_reduces n)
run_at files c over = none

unfoldable pub run_step : ℕ → Coordinator → Option Coordinator
run_step files c = run_at files c c.stage

-- What can happen next: an RPC of a worker, or a case of the controller, or a step of `run`.
pub data Event : Type 0 where
  work_requested : ℕ → Event
  handed : ℕ → Event
  signalled : ℕ → Event
  controller_pending controller_completed : Event
  controller_tick : ℕ → ℕ → Event
  run_goes : Event

unfoldable pub step : ℕ → Coordinator → Event → Option Coordinator
step files c (work_requested now) = some (request_work c now).1
step files c (handed i) = hand_over c i
step files c (signalled uuid) = signal_finished c uuid
step files c controller_pending = record_pending c c.pending
step files c controller_completed = complete c c.completed_ids
step files c (controller_tick now k) = expire c now k
step files c run_goes = run_step files c
