-- ===== src/Mr/Worker/Shuffle.antt =====
-- What mr/worker.go does to the pairs between Map and Reduce.
use mit.Prelude.{
  ℕ, ◌%◌, ◌≡◌, refl, sym, ap, ◌∙◌, arith, String, Option, none, some, List, [], ◌∷◌, ◌++◌,
  if◌then◌else◌, lookup, lookup-insert, HasEq, nat_eq, string_eq, ◌==◌, append-nil, nat_eqb,
  Option-cases, inl, inr, Bool-cases,
}
use mathlib.Core.List.{append_assoc}
use mit.Mr.Worker.{
  KeyValue, held, append_at, ihash, aggregate, encoded, handle_map, add_pairs, read_pairs,
  reduce_all, handle_reduce,
}

-- The values that the pairs give to a key, in order.
abbrev pub values : String → List KeyValue → List String
values k [] = []
values k (kv ∷ kvs) = let rest = values k kvs in if kv.key == k then kv.value ∷ rest else rest

abbrev pub all_values : String → List (List KeyValue) → List String
all_values k [] = []
all_values k (kva ∷ kvas) = values k kva ++ all_values k kvas

held-append_at :
    {K V : Type 0} ⦃e : HasEq K⦄ (k j : K) (v : V) (m : List (K × List V))
    → held (lookup j (append_at k v m)) ≡ held (lookup j m) ++ (if e.same k j then v ∷ [] else [])
held-append_at ⦃e⦄ k j v m = elim (Bool-cases (e.same k j)) [
  | inl y ↦ rw (lookup-insert, y, (e.same_iff k j).0 y)
  | inr n ↦ rw (lookup-insert, n, append-nil)
]

held-add_pairs :
    (k : String) (slc : List KeyValue) (kvs : List (String × List String))
    → held (lookup k (add_pairs slc kvs)) ≡ held (lookup k kvs) ++ values k slc
held-add_pairs k [] kvs = sym (append-nil _)
held-add_pairs k (kv ∷ slc) kvs = elim (Bool-cases (kv.key == k)) [
  | inl y ↦ rw (held-add_pairs k slc, held-append_at kv.key k, y, append_assoc)
  | inr n ↦ rw (held-add_pairs k slc, held-append_at kv.key k, n, append-nil)
]

module _ (fnv : String → ℕ) (n_reduce : ℕ) where
  -- The pairs that belong to a bucket, in order.
  abbrev pub bucket : ℕ → List KeyValue → List KeyValue
  bucket r [] = []
  bucket r (kv ∷ kva) =
      let rest = bucket r kva in if nat_eqb (ihash fnv kv.key % n_reduce) r then kv ∷ rest else rest

  held-aggregate :
      (r : ℕ) (kva : List KeyValue) (agg : List (ℕ × List KeyValue))
      → held (lookup r (aggregate fnv n_reduce kva agg)) ≡ held (lookup r agg) ++ bucket r kva
  held-aggregate r [] agg = sym (append-nil _)
  held-aggregate r (kv ∷ kva) agg = elim (Bool-cases (nat_eqb (ihash fnv kv.key % n_reduce) r)) [
    | inl y ↦
        rw (held-aggregate r kva, held-append_at (ihash fnv kv.key % n_reduce) r, y, append_assoc)
    | inr n ↦
        rw (held-aggregate r kva, held-append_at (ihash fnv kv.key % n_reduce) r, n, append-nil)
  ]

  -- Of the pairs of a bucket, a key has all its values if it hashes there, and else none.
  values-bucket :
      (k : String) (r : ℕ) (kva : List KeyValue)
      → values k (bucket r kva) ≡ (if nat_eqb (ihash fnv k % n_reduce) r then values k kva else [])
  values-bucket k r [] = ground arith
  values-bucket k r (kv ∷ kva) = ground (arith, values-bucket k r kva, string_eq.same_iff kv.key k)

-- What a key has in a reduce task: all, if it hashes there.
abbrev pub mine : (String → ℕ) → ℕ → String → ℕ → List String → List String
mine fnv n_reduce k r xs = if nat_eqb (ihash fnv k % n_reduce) r then xs else []

mine-append :
    (fnv : String → ℕ) (n_reduce : ℕ) (k : String) (r : ℕ) (xs ys : List String)
    → mine fnv n_reduce k r (xs ++ ys) ≡ mine fnv n_reduce k r xs ++ mine fnv n_reduce k r ys
mine-append fnv n_reduce k r xs ys = elim (Bool-cases (nat_eqb (ihash fnv k % n_reduce) r)) [
  | inl y ↦ rw y
  | inr n ↦ rw n
]

mine-nil : (fnv : String → ℕ) (n_reduce : ℕ) (k : String) (r : ℕ) → mine fnv n_reduce k r [] ≡ []
mine-nil fnv n_reduce k r = elim (Bool-cases (nat_eqb (ihash fnv k % n_reduce) r)) [
  | inl y ↦ rw y
  | inr n ↦ rw n
]

aggregate-mine :
    (fnv : String → ℕ) (n_reduce : ℕ) (k : String) (r : ℕ) (kva : List KeyValue)
    → values k (held (lookup r (aggregate fnv n_reduce kva [])))
      ≡ mine fnv n_reduce k r (values k kva)
unfolding lookup
aggregate-mine fnv n_reduce k r kva =
    ap (values k) (held-aggregate fnv n_reduce r kva []) ∙ values-bucket fnv n_reduce k r kva

lookup-encoded {ℓ} :
    {Bytes : Type ℓ} (encode : List KeyValue → Bytes) (r : ℕ) (agg : List (ℕ × List KeyValue))
    → lookup r (encoded encode agg)
      ≡ elim (lookup r agg) [ none ↦ none | some slc ↦ some (encode slc) ]
unfolding lookup
lookup-encoded encode r [] = refl
lookup-encoded encode r ((h, slc) ∷ agg) = ground (arith, lookup-encoded encode r agg)

-- The files of the map tasks, in their order.
abbrev pub map_files {ℓ} :
    {Bytes : Type ℓ}
    → (String → ℕ)
    → (List KeyValue → Bytes)
    → ℕ
    → List (List KeyValue)
    → List (List (ℕ × Bytes))
map_files fnv encode n_reduce [] = []
map_files fnv encode n_reduce (kva ∷ kvas) =
    handle_map fnv encode n_reduce kva ∷ map_files fnv encode n_reduce kvas

module _ {ℓ} {Bytes : Type ℓ} (fnv : String → ℕ) (encode : List KeyValue → Bytes)
    (decode : Bytes → Option (List KeyValue)) (n_reduce : ℕ)
    (back : (slc : List KeyValue) → decode (encode slc) ≡ some slc) where
  lookup-handle_map :
      (r : ℕ) (kva : List KeyValue)
      → lookup r (handle_map fnv encode n_reduce kva)
        ≡ elim (lookup r (aggregate fnv n_reduce kva [])) [
          | none ↦ none
          | some slc ↦ some (encode slc)
        ]
  unfolding handle_map
  lookup-handle_map r kva = lookup-encoded encode r (aggregate fnv n_reduce kva [])

  read_none :
      (r : ℕ) (kva : List KeyValue) (dir : List (List (ℕ × Bytes)))
      (kvs : List (String × List String))
      → lookup r (aggregate fnv n_reduce kva []) ≡ none
      → read_pairs decode r (handle_map fnv encode n_reduce kva ∷ dir) kvs
        ≡ read_pairs decode r dir kvs
  read_none r kva dir kvs e = rw (read_pairs, lookup-handle_map r kva, e)

  read_some :
      (r : ℕ) (kva slc : List KeyValue) (dir : List (List (ℕ × Bytes)))
      (kvs : List (String × List String))
      → lookup r (aggregate fnv n_reduce kva []) ≡ some slc
      → read_pairs decode r (handle_map fnv encode n_reduce kva ∷ dir) kvs
        ≡ read_pairs decode r dir (add_pairs slc kvs)
  read_some r kva slc dir kvs e = rw (read_pairs, lookup-handle_map r kva, e, back slc)

  -- Reading the files of a bucket never fails, and then each key holds what it held and its values.
  pub shuffle_onto :
      (r : ℕ) (kvas : List (List KeyValue)) (kvs : List (String × List String))
      → (m : List (String × List String)) × (read_pairs decode r
            (map_files fnv encode n_reduce kvas)
            kvs
          ≡ some m)
        × ((k : String)
            → held (lookup k m) ≡ held (lookup k kvs) ++ mine fnv n_reduce k r (all_values k kvas))
  shuffle_onto r [] kvs = (kvs, refl, λ k. rw (mine-nil fnv n_reduce k r, append-nil))
  shuffle_onto r (kva ∷ kvas) kvs = elim (Option-cases (lookup r (aggregate fnv n_reduce kva []))) [
    | inl e ↦
        let rest = shuffle_onto r kvas kvs in
        let none_here : (k : String) → mine fnv n_reduce k r (values k kva) ≡ [] =
          λ k. sym (aggregate-mine fnv n_reduce k r kva) ∙ ap (λ o. values k (held o)) e in
        (
          rest.0,
          read_none r kva (map_files fnv encode n_reduce kvas) kvs e ∙ rest.1,
          λ k. rw (rest.2 k, mine-append fnv n_reduce k r (values k kva), none_here k),
        )
    | inr (slc, e) ↦
        let rest = shuffle_onto r kvas (add_pairs slc kvs) in
        let here : (k : String) → values k slc ≡ mine fnv n_reduce k r (values k kva) =
          λ k. ap (λ o. values k (held o)) (sym e) ∙ aggregate-mine fnv n_reduce k r kva in
        (
          rest.0,
          read_some r kva slc (map_files fnv encode n_reduce kvas) kvs e ∙ rest.1,
          λ k. rw (
            rest.2 k,
            held-add_pairs k slc kvs,
            here k,
            mine-append fnv n_reduce k r (values k kva),
            append_assoc,
          ),
        )
  ]

  -- If JSON reads back what it wrote, a reduce task that follows all the map tasks ends, and it
  -- calls `reducef` on groups in which a key has, of all pairs that Map made, all its values in
  -- their order if it hashes to this task, and else none.
  pub shuffle :
      (reducef : String → List String → String) (r : ℕ) (kvas : List (List KeyValue))
      → (m : List (String × List String)) × (handle_reduce decode reducef r
            (map_files fnv encode n_reduce kvas)
          ≡ some (reduce_all reducef m))
        × ((k : String) → held (lookup k m) ≡ mine fnv n_reduce k r (all_values k kvas))
  unfolding handle_reduce lookup
  shuffle reducef r kvas =
      let all = shuffle_onto r kvas [] in (all.0, rw (handle_reduce, all.1), all.2)
