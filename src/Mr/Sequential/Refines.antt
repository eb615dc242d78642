-- ===== src/Mr/Sequential/Refines.antt =====
-- A whole job of mr/ against main/mrsequential.go.
use mit.Prelude.{
  ℕ, zero, suc, ◌+◌, ◌%◌, ◌<◌, ◌≡◌, refl, sym, ap, ◌∙◌, arith, String, Bool, true, false, ◌&&◌,
  Option, some, List, [], ◌∷◌, ◌++◌, if◌then◌else◌, string_eq, nat_eq, ◌==◌, Bool-cases, inl, inr,
  lookup, nat_eqb, nat_eqb_iff, leb, ltb, append-nil,
}
use mathlib.Core.List.{Perm}
use mathlib.Core.List.Perm
use native.Mathlib.Nat.{mod-lt}
use mit.Mr.Worker.{KeyValue, ihash, reduce_all, handle_reduce}
use mit.Mr.Worker.Shuffle.{values, all_values, mine, map_files, shuffle_onto}
use mit.Mr.Sequential.{intermediate, sequential, map_phase, reduce_phase, distributed}
use mit.Mr.Sequential.Order.{IsOrdered, values-Perm}
use mit.Mr.Sequential.Lines.{
  outputs, one_line, outputs-append, groups-outputs, IsClean-outputs, IsClean-nil,
  read_pairs-IsClean,
}

abbrev pub map_outputs :
    (String → String → List KeyValue) → List (String × String) → List (List KeyValue)
map_outputs mapf [] = []
map_outputs mapf ((filename, content) ∷ inputs) = mapf filename content ∷ map_outputs mapf inputs

values-append :
    (k : String) (xs ys : List KeyValue) → values k (xs ++ ys) ≡ values k xs ++ values k ys
values-append k [] ys = refl
values-append k (x ∷ xs) ys = elim (Bool-cases (x.key == k)) [
  | inl y ↦ rw (y, values-append k xs ys)
  | inr n ↦ rw (n, values-append k xs ys)
]

values-intermediate :
    (k : String) (mapf : String → String → List KeyValue) (inputs : List (String × String))
    → values k (intermediate mapf inputs) ≡ all_values k (map_outputs mapf inputs)
values-intermediate k mapf [] = refl
values-intermediate k mapf ((filename, content) ∷ inputs) = rw (
  values-append k (mapf filename content) (intermediate mapf inputs),
  values-intermediate k mapf inputs,
)

-- An application whose Reduce does not look at the order of the values.
abbrev pub IsUnordered : (String → List String → String) → Type 0
IsUnordered reducef = (k : String) (xs ys : List String) → Perm xs ys → reducef k xs ≡ reducef k ys

one_line-Perm :
    (reducef : String → List String → String) (k : String) (xs ys : List String)
    → IsUnordered reducef
    → Perm xs ys
    → one_line reducef k xs ≡ one_line reducef k ys
one_line-Perm reducef k [] ys any p = ap (one_line reducef k) (Perm.nil-eq p)
one_line-Perm reducef k (x ∷ xs) [] any p = ap (one_line reducef k) (Perm.eq-nil p)
one_line-Perm reducef k (x ∷ xs) (y ∷ ys) any p = rw (any k (x ∷ xs) (y ∷ ys) p)

module _ {ℓ} {Bytes : Type ℓ} (fnv : String → ℕ) (encode : List KeyValue → Bytes)
    (decode : Bytes → Option (List KeyValue)) (n_reduce : ℕ)
    (back : (slc : List KeyValue) → decode (encode slc) ≡ some slc)
    (reducef : String → List String → String) where
  map_phase-map_files :
      (mapf : String → String → List KeyValue) (inputs : List (String × String))
      → map_phase fnv encode decode n_reduce mapf inputs
        ≡ map_files fnv encode n_reduce (map_outputs mapf inputs)
  map_phase-map_files mapf [] = refl
  map_phase-map_files mapf ((filename, content) ∷ inputs) = rw (map_phase-map_files mapf inputs)

  -- One reduce task writes the lines of the keys that hash to it.
  handle_reduce-outputs :
      (r : ℕ) (kvas : List (List KeyValue))
      → (lines : List (String × String)) × (handle_reduce decode reducef r
            (map_files fnv encode n_reduce kvas)
          ≡ some lines)
        × ((k : String)
            → outputs k lines ≡ one_line reducef k (mine fnv n_reduce k r (all_values k kvas)))
  unfolding handle_reduce lookup
  handle_reduce-outputs r kvas =
      let (m, ran, have) = shuffle_onto fnv encode decode n_reduce back r kvas [] in
      let clean =
        read_pairs-IsClean decode r (map_files fnv encode n_reduce kvas) [] m IsClean-nil ran in
      (
        reduce_all reducef m,
        rw (handle_reduce, ran),
        λ k. IsClean-outputs reducef k m clean ∙ ap (one_line reducef k) (have k),
      )

  abbrev within : ℕ → ℕ → ℕ → Bool
  within h r n = leb r h && ltb h (r + n)

  within_none : (h r : ℕ) → within h r 0 ≡ false
  within_none h r = ground arith

  within-split :
      (k : String) (h r n : ℕ) (xs : List String)
      → one_line reducef k (if nat_eqb h r then xs else [])
          ++ (if within h (suc r) n then one_line reducef k xs else [])
        ≡ (if within h r (suc n) then one_line reducef k xs else [])
  within-split k h r n xs = elim (Bool-cases (nat_eqb h r)) [
    | inl y ↦
        let off : within h (suc r) n ≡ false = ground (arith, nat_eqb_iff h r) in
        let on : within h r (suc n) ≡ true = ground (arith, nat_eqb_iff h r) in
        rw (y, off, on, append-nil)
    | inr ne ↦
        let same : within h (suc r) n ≡ within h r (suc n) = ground (arith, nat_eqb_iff h r) in
        rw (ne, same)
  ]

  reduce_phase-outputs :
      (kvas : List (List KeyValue)) (n r : ℕ)
      → (lines : List (String × String)) × (reduce_phase fnv encode decode n_reduce reducef
            (map_files fnv encode n_reduce kvas)
            r
            n
          ≡ some lines)
        × ((k : String)
            → outputs k lines ≡ (
                if within (ihash fnv k % n_reduce) r n
                then one_line reducef k (all_values k kvas)
                else []))
  reduce_phase-outputs kvas zero r = ([], refl, λ k. rw (within_none (ihash fnv k % n_reduce) r))
  reduce_phase-outputs kvas (suc n) r =
      let (lines, ran, have) = handle_reduce-outputs r kvas in
      let (more, ran', have') = reduce_phase-outputs kvas n (suc r) in
      (
        lines ++ more,
        rw (reduce_phase, ran, ran'),
        λ k.
            outputs-append k lines more
            ∙ rw (have k, have' k)
                (within-split k (ihash fnv k % n_reduce) r n (all_values k kvas)),
      )

  -- What a job writes for a key.
  pub distributed-outputs :
      (mapf : String → String → List KeyValue) (inputs : List (String × String))
      → 0 < n_reduce
      → (lines : List (String × String)) × (distributed fnv encode decode n_reduce mapf reducef
            inputs
          ≡ some lines)
        × ((k : String)
            → outputs k lines ≡ one_line reducef k (all_values k (map_outputs mapf inputs)))
  unfolding distributed
  distributed-outputs mapf inputs some_task =
      let (lines, ran, have) = reduce_phase-outputs (map_outputs mapf inputs) n_reduce 0 in
      (
        lines,
        rw (map_phase-map_files mapf inputs) ran,
        λ k.
            let on : within (ihash fnv k % n_reduce) 0 n_reduce ≡ true =
              ground (arith, mod-lt (ihash fnv k) some_task) in
            have k ∙ rw on,
      )

  -- A job whose map tasks and then reduce tasks each run once ends, and a key has in the outputs of
  -- all reduce tasks the same line, or none, as in the output of the sequential program: if there is
  -- a reduce task, JSON reads back what it wrote, `sort` permutes and orders, and Reduce does not
  -- look at the order of the values.
  pub distributed-sequential :
      (sort : List KeyValue → List KeyValue) (mapf : String → String → List KeyValue)
      (inputs : List (String × String))
      → 0 < n_reduce
      → ((l : List KeyValue) → Perm (sort l) l)
      → ((l : List KeyValue) → IsOrdered (sort l))
      → IsUnordered reducef
      → (lines : List (String × String)) × (distributed fnv encode decode n_reduce mapf reducef
            inputs
          ≡ some lines)
        × ((k : String) → outputs k lines ≡ outputs k (sequential sort mapf reducef inputs))
  unfolding sequential
  distributed-sequential sort mapf inputs some_task permutes orders any =
      let (lines, ran, have) = distributed-outputs mapf inputs some_task in
      let gathered = intermediate mapf inputs in
      (
        lines,
        ran,
        λ k.
            have k
            ∙ sym (
                groups-outputs reducef k (sort gathered) (orders gathered)
                ∙ one_line-Perm reducef k (values k (sort gathered)) (values k gathered) any
                    (values-Perm k (permutes gathered))
                ∙ ap (one_line reducef k) (values-intermediate k mapf inputs)),
      )
