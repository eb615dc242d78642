-- ===== src/Mr/Worker.antt =====
-- mr/worker.go: what a map task and a reduce task do with the data. The files of a map task are
-- listed by their bucket; a directory lists the files of each map task, in the order of ReadDir.
pub mod Shuffle
use mit.Prelude.{
  ℕ, ◌%◌, ◌^◌, String, Option, none, some, List, [], ◌∷◌, ◌++◌, get_or, lookup, insert, HasEq,
  nat_eq, string_eq, map,
}

pub record KeyValue : Type 0 where
  pub key : String
  pub value : String

-- What a map to slices holds at a key, none of it if it has no such key.
abbrev pub held {ℓ} : {V : Type ℓ} → Option (List V) → List V
held none = []
held (some vs) = vs

-- `m[k] = append(m[k], v)`, with the test for the key.
abbrev pub append_at {ℓ κ} :
    {K : Type ℓ} {V : Type κ} ⦃e : HasEq K⦄ → K → V → List (K × List V) → List (K × List V)
append_at k v m = insert k (held (lookup k m) ++ v ∷ []) m

abbrev pub add_pairs : List KeyValue → List (String × List String) → List (String × List String)
add_pairs [] kvs = kvs
add_pairs (pair ∷ slc) kvs = add_pairs slc (append_at pair.key pair.value kvs)

-- The second loop: the lines of the output, as the key and what `reducef` makes of its values.
abbrev pub reduce_all :
    (String → List String → String) → List (String × List String) → List (String × String)
reduce_all reducef [] = []
reduce_all reducef ((k, vals) ∷ kvs) = (k, reducef k vals) ∷ reduce_all reducef kvs

-- `h.Sum32() & 0x7fffffff`; `fnv` is the FNV-1a of hash/fnv.
abbrev pub ihash : (String → ℕ) → String → ℕ
ihash fnv key = fnv key % 2 ^ 31

-- The two loops of handleMap; `encode` and `decode` are encoding/json's, of a
-- slice of KeyValue, and `Bytes` is what a file holds.
module _ (fnv : String → ℕ) (n_reduce : ℕ) where
  abbrev pub aggregate : List KeyValue → List (ℕ × List KeyValue) → List (ℕ × List KeyValue)
  aggregate [] agg = agg
  aggregate (kv ∷ kva) agg = aggregate kva (append_at (ihash fnv kv.key % n_reduce) kv agg)

abbrev pub encoded {ℓ} :
    {Bytes : Type ℓ} → (List KeyValue → Bytes) → List (ℕ × List KeyValue) → List (ℕ × Bytes)
encoded encode [] = []
encoded encode ((h, slc) ∷ agg) = (h, encode slc) ∷ encoded encode agg

-- handleMap, from what `mapf` returns to the files, by bucket.
unfoldable pub handle_map {ℓ} :
    {Bytes : Type ℓ} → (String → ℕ) → (List KeyValue → Bytes) → ℕ → List KeyValue → List (ℕ × Bytes)
handle_map fnv encode n_reduce kva = encoded encode (aggregate fnv n_reduce kva [])

module _ {ℓ} {Bytes : Type ℓ} (decode : Bytes → Option (List KeyValue)) where
  -- The first loop of handleReduce; `none` is its log.Fatalf.
  abbrev pub read_pairs :
      ℕ
      → List (List (ℕ × Bytes))
      → List (String × List String)
      → Option (List (String × List String))
  read_pairs r [] kvs = some kvs
  read_pairs r (files ∷ dir) kvs = elim (lookup r files) [
    | none ↦ read_pairs r dir kvs
    | some bytes ↦ elim (decode bytes) [
      | none ↦ none
      | some slc ↦ read_pairs r dir (add_pairs slc kvs)
    ]
  ]

  unfoldable pub handle_reduce :
      (String → List String → String)
      → ℕ
      → List (List (ℕ × Bytes))
      → Option (List (String × String))
  handle_reduce reducef r dir = elim (read_pairs r dir []) [
    | none ↦ none
    | some kvs ↦ some (reduce_all reducef kvs)
  ]
