-- ===== src/Mr/Jobs.antt =====
-- The theorems on whole jobs of mr/, for the word count of two short files.
use Prim.Native.Char.{Char, code}
use mathlib.Core.List.{Perm}
use mathlib.Core.List.Perm
use mit.Prelude.{
  ℕ, ◌≡◌, refl, arith, String, Bool, some, List, [], ◌∷◌, if◌then◌else◌, string_eq, ◌==◌, leb,
  less-asym, Bool-cases, inl, inr,
}
use mit.Mr.Worker.{KeyValue}
use mit.Mr.Sequential.{less_key, sequential, distributed}
use mit.Mr.Sequential.Order.{IsOrdered}
use mit.Mr.Sequential.Lines.{outputs}
use mit.Mr.Sequential.Refines.{distributed-sequential}
use mit.Mr.Apps.{words, count_map, count_reduce}
use mit.Mr.Apps.Count.{occurs, counted, wc_counts}
use mit.Mr.Apps.Index.{reduces-IsUnordered}

abbrev insert_pair : KeyValue → List KeyValue → List KeyValue
insert_pair a [] = a ∷ []
insert_pair a (b ∷ l) =
    let later = insert_pair a l in if less_key b a then b ∷ later else a ∷ (b ∷ l)

abbrev sort_pairs : List KeyValue → List KeyValue
sort_pairs [] = []
sort_pairs (a ∷ l) = insert_pair a (sort_pairs l)

insert_pair-Perm : (a : KeyValue) (l : List KeyValue) → Perm (insert_pair a l) (a ∷ l)
insert_pair-Perm a [] = Perm.refl (a ∷ [])
insert_pair-Perm a (b ∷ l) = elim (Bool-cases (less_key b a)) [
  | inl y ↦ rw y (Perm.trans (Perm.cons b (insert_pair-Perm a l)) (Perm.swap a b l))
  | inr n ↦ rw n (Perm.refl (a ∷ (b ∷ l)))
]

sort_pairs-Perm : (l : List KeyValue) → Perm (sort_pairs l) l
sort_pairs-Perm [] = Perm.refl []
sort_pairs-Perm (a ∷ l) =
    Perm.trans (insert_pair-Perm a (sort_pairs l)) (Perm.cons a (sort_pairs-Perm l))

insert_pair-IsOrdered :
    (a : KeyValue) (l : List KeyValue) → IsOrdered l → IsOrdered (insert_pair a l)
insert_pair-IsOrdered a [] o = tt
insert_pair-IsOrdered a (b ∷ []) o = elim (Bool-cases (less_key b a)) [
  | inl y ↦ rw y (less-asym b.key a.key y, tt)
  | inr n ↦ rw n (n, tt)
]
insert_pair-IsOrdered a (b ∷ (c ∷ l)) o = elim (Bool-cases (less_key b a)) [
  | inl y ↦ elim (Bool-cases (less_key c a)) [
    | inl z ↦ rw (y, z) (o.0, rw z at (insert_pair-IsOrdered a (c ∷ l) o.1))
    | inr m ↦ rw (y, m) (less-asym b.key a.key y, (m, o.1))
  ]
  | inr n ↦ rw n (n, o)
]

sort_pairs-IsOrdered : (l : List KeyValue) → IsOrdered (sort_pairs l)
sort_pairs-IsOrdered [] = tt
sort_pairs-IsOrdered (a ∷ l) = insert_pair-IsOrdered a (sort_pairs l) (sort_pairs-IsOrdered l)

abbrev inputs : List (String × String)
inputs = ("f", "b a b") ∷ ("g", "a, c") ∷ []

abbrev letter : Char → Bool
letter c = leb 65 (code c)

abbrev hash : String → ℕ
hash k = if k == "a" then 0 else 1

abbrev digit : ℕ → String
digit n = if leb 2 n then "2" else "1"

words_run : words letter "b a, c" ≡ "b" ∷ "a" ∷ "c" ∷ []
words_run = refl

distributed-sequential_example :
    (lines : List (String × String)) × (distributed hash
        (λ slc. slc)
        some
        2
        (count_map letter)
        (count_reduce digit)
        inputs
      ≡ some lines)
    × ((k : String)
        → outputs k lines
          ≡ outputs k (sequential sort_pairs (count_map letter) (count_reduce digit) inputs))
distributed-sequential_example =
    distributed-sequential hash (λ slc. slc) some 2 (λ slc. refl) (count_reduce digit) sort_pairs
      (count_map letter) inputs (omega arith) sort_pairs-Perm sort_pairs-IsOrdered
      (reduces-IsUnordered digit).0

wc_counts_example :
    (lines : List (String × String)) × (distributed hash
        (λ slc. slc)
        some
        2
        (count_map letter)
        (count_reduce digit)
        inputs
      ≡ some lines)
    × ((w : String) → outputs w lines ≡ counted digit (occurs letter w inputs))
wc_counts_example =
    wc_counts hash (λ slc. slc) some 2 letter digit inputs (λ slc. refl) (omega arith)
