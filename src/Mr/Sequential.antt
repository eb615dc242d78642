-- ===== src/Mr/Sequential.antt =====
-- main/mrsequential.go, and a whole job of mr/coordinator.go's workers beside it. `inputs` are the
-- files that are read, with their contents; `mapf` and `reducef` are the application's.
pub mod Order
pub mod Lines
pub mod Refines
use mit.Prelude.{
  ℕ, zero, suc, String, Bool, true, false, Option, none, some, List, [], ◌∷◌, ◌++◌, if◌then◌else◌,
  string_eq, ◌==◌, less,
}
use mit.Mr.Worker.{KeyValue, handle_map, handle_reduce, reduce_all}

-- The loop that reads the files, calls Map and gathers `intermediate`.
abbrev pub intermediate : (String → String → List KeyValue) → List (String × String) → List KeyValue
intermediate mapf [] = []
intermediate mapf ((filename, content) ∷ inputs) = mapf filename content ++ intermediate mapf inputs

-- `ByKey.Less`
abbrev pub less_key : KeyValue → KeyValue → Bool
less_key a b = less a.key b.key

-- The loops over `i`, `j` and `k`, inside the group of `key` with the values so far.
abbrev pub group_on : String → List String → List KeyValue → List (String × List String)
group_on key vals [] = (key, vals) ∷ []
group_on key vals (kv ∷ rest) =
    let same = group_on key (vals ++ kv.value ∷ []) rest in
    let next = group_on kv.key (kv.value ∷ []) rest in
    if kv.key == key then same else (key, vals) ∷ next

abbrev pub groups : List KeyValue → List (String × List String)
groups [] = []
groups (kv ∷ rest) = group_on kv.key (kv.value ∷ []) rest

-- `main`, from the inputs to the lines of mr-out-0; `sort` is `sort.Sort(ByKey(…))`.
unfoldable pub sequential :
    (List KeyValue → List KeyValue)
    → (String → String → List KeyValue)
    → (String → List String → String)
    → List (String × String)
    → List (String × String)
sequential sort mapf reducef inputs = reduce_all reducef (groups (sort (intermediate mapf inputs)))

module _ {ℓ} {Bytes : Type ℓ} (fnv : String → ℕ) (encode : List KeyValue → Bytes)
    (decode : Bytes → Option (List KeyValue)) (n_reduce : ℕ) where
  -- The files of the map tasks, in the order of their numbers.
  abbrev pub map_phase :
      (String → String → List KeyValue) → List (String × String) → List (List (ℕ × Bytes))
  map_phase mapf [] = []
  map_phase mapf ((filename, content) ∷ inputs) =
      handle_map fnv encode n_reduce (mapf filename content) ∷ map_phase mapf inputs

  -- The outputs of the reduce tasks from `r` on, of which there are `k`, one after another.
  abbrev pub reduce_phase :
      (String → List String → String)
      → List (List (ℕ × Bytes))
      → ℕ
      → ℕ
      → Option (List (String × String))
  reduce_phase reducef dir r zero = some []
  reduce_phase reducef dir r (suc k) = elim (handle_reduce decode reducef r dir) [
    | none ↦ none
    | some lines ↦ elim (reduce_phase reducef dir (suc r) k) [
      | none ↦ none
      | some more ↦ some (lines ++ more)
    ]
  ]

  -- The code of handleMap and handleReduce for each task of a job once, the map tasks first, with no
  -- coordinator: tasks that are given out again, or run at once, are left out.
  unfoldable pub distributed :
      (String → String → List KeyValue)
      → (String → List String → String)
      → List (String × String)
      → Option (List (String × String))
  distributed mapf reducef inputs = reduce_phase reducef (map_phase mapf inputs) 0 n_reduce
