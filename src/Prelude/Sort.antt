-- ===== src/Prelude/Sort.antt =====
-- `slices.Sort` as an insertion sort, and what stands at a place of a sorted list.
use Prim.Native.Nat.{ℕ, zero, suc, ◌+◌, ◌≤◌}
use mathlib.Core.Path.{◌≡◌, refl}
use mathlib.Core.Option.{some}
use mathlib.Core.List.{List, [], ◌∷◌}
use native.Mathlib.Omega.{arith}
use mit.Prelude.Tests.{leb, if◌then◌else◌}
use mit.Prelude.Lists.{length, get_elem?}

abbrev pub insert_sorted : ℕ → List ℕ → List ℕ
insert_sorted x [] = x ∷ []
insert_sorted x (y ∷ ys) = let rest = insert_sorted x ys in if leb x y then x ∷ y ∷ ys else y ∷ rest

abbrev pub sorted : List ℕ → List ℕ
sorted [] = []
sorted (x ∷ xs) = insert_sorted x (sorted xs)

-- How many elements are no smaller than `c`.
abbrev pub count_ge : ℕ → List ℕ → ℕ
count_ge c [] = 0
count_ge c (x ∷ xs) = (if leb c x then 1 else 0) + count_ge c xs

abbrev AllGe : ℕ → List ℕ → Type 0
AllGe x [] = Unit
AllGe x (y ∷ ys) = (x ≤ y) × AllGe x ys

abbrev IsSorted : List ℕ → Type 0
IsSorted [] = Unit
IsSorted (x ∷ xs) = AllGe x xs × IsSorted xs

AllGe-le : (x y : ℕ) (xs : List ℕ) → x ≤ y → AllGe y xs → AllGe x xs
AllGe-le x y [] h a = tt
AllGe-le x y (z ∷ zs) h a = (omega arith, AllGe-le x y zs h a.1)

AllGe-insert : (x y : ℕ) (xs : List ℕ) → x ≤ y → AllGe x xs → AllGe x (insert_sorted y xs)
AllGe-insert x y [] h a = (h, tt)
AllGe-insert x y (z ∷ zs) h a = ground (arith, AllGe-insert x y zs h)

insert-IsSorted : (x : ℕ) (xs : List ℕ) → IsSorted xs → IsSorted (insert_sorted x xs)
insert-IsSorted x [] s = (tt, tt)
insert-IsSorted x (y ∷ ys) s =
    ground (arith, insert-IsSorted x ys, AllGe-insert y x ys, AllGe-le x y ys)

sorted-IsSorted : (xs : List ℕ) → IsSorted (sorted xs)
sorted-IsSorted [] = tt
sorted-IsSorted (x ∷ xs) = insert-IsSorted x (sorted xs) (sorted-IsSorted xs)

count_ge-insert : (c x : ℕ) (xs : List ℕ) → count_ge c (insert_sorted x xs) ≡ count_ge c (x ∷ xs)
count_ge-insert c x [] = refl
count_ge-insert c x (y ∷ ys) = ground (arith, count_ge-insert c x ys)

count_ge-sorted : (c : ℕ) (xs : List ℕ) → count_ge c (sorted xs) ≡ count_ge c xs
count_ge-sorted c [] = refl
count_ge-sorted c (x ∷ xs) = omega (arith, count_ge-insert c x (sorted xs), count_ge-sorted c xs)

length-insert : (x : ℕ) (xs : List ℕ) → length (insert_sorted x xs) ≡ suc (length xs)
length-insert x [] = refl
length-insert x (y ∷ ys) = ground (arith, length-insert x ys)

length-sorted : (xs : List ℕ) → length (sorted xs) ≡ length xs
length-sorted [] = refl
length-sorted (x ∷ xs) = omega (arith, length-insert x (sorted xs), length-sorted xs)

AllGe-count : (x : ℕ) (xs : List ℕ) → AllGe x xs → count_ge x xs ≡ length xs
AllGe-count x [] a = refl
AllGe-count x (y ∷ ys) a = ground (arith, AllGe-count x ys a.1)

AllGe-get : (x : ℕ) (xs : List ℕ) (p c : ℕ) → AllGe x xs → get_elem? xs p ≡ some c → x ≤ c
AllGe-get x [] p c a h = cc
AllGe-get x (y ∷ ys) zero c a h = ground arith
AllGe-get x (y ∷ ys) (suc p) c a h = AllGe-get x ys p c a.1 h

-- At least `length - p` elements are no smaller than the one at place `p` of a sorted list.
place-support :
    (xs : List ℕ) (p c : ℕ) → IsSorted xs → get_elem? xs p ≡ some c → length xs ≤ count_ge c xs + p
place-support [] p c s h = cc
place-support (x ∷ xs) zero c s h = ground (arith, AllGe-count x xs s.0)
place-support (x ∷ xs) (suc p) c s h = ground (arith, place-support xs p c s.1 h)

count_ge-le : (c : ℕ) (xs : List ℕ) → count_ge c xs ≤ length xs
count_ge-le c [] = omega arith
count_ge-le c (x ∷ xs) = ground (arith, count_ge-le c xs)

-- If at least `length - p` elements reach `m`, so does the one at place `p`.
place-reaches :
    (xs : List ℕ) (p c m : ℕ)
    → IsSorted xs
    → get_elem? xs p ≡ some c
    → length xs ≤ count_ge m xs + p
    → m ≤ c
place-reaches [] p c m s h k = cc
place-reaches (x ∷ xs) zero c m s h k = ground (arith, count_ge-le m xs)
place-reaches (x ∷ xs) (suc p) c m s h k =
    ground (arith, place-reaches xs p c m s.1 h, AllGe-get x xs p c s.0 h)

-- At least `length - p` elements are no smaller than the one at place `p` after sorting.
pub sorted-support :
    (xs : List ℕ) (p c : ℕ) → get_elem? (sorted xs) p ≡ some c → length xs ≤ count_ge c xs + p
sorted-support xs p c h = omega (
  arith,
  place-support (sorted xs) p c (sorted-IsSorted xs) h,
  count_ge-sorted c xs,
  length-sorted xs,
)

-- If at least `length - p` elements reach `m`, so does the one at place `p` after sorting.
pub sorted-reaches :
    (xs : List ℕ) (p c m : ℕ)
    → get_elem? (sorted xs) p ≡ some c
    → length xs ≤ count_ge m xs + p
    → m ≤ c
sorted-reaches xs p c m h k =
    place-reaches (sorted xs) p c m (sorted-IsSorted xs) h
      (omega (arith, count_ge-sorted m xs, length-sorted xs))
