-- ===== src/Prelude/Sums.antt =====
-- Membership, distinctness and sums over lists of numbers.
use Prim.Native.Nat.{ℕ, ◌+◌, ◌≤◌}
use mathlib.Core.Path.{◌≡◌, refl}
use mathlib.Core.Logic.{◌≢◌, inl, inr}
use mathlib.Core.Bool.{Bool, true, false, ◌||◌}
use mathlib.Core.List.{List, [], ◌∷◌, ◌++◌}
use native.Mathlib.Omega.{arith}
use mit.Prelude.Tests.{nat_eqb, nat_eqb_iff, Bool-cases, if◌then◌else◌}
use mit.Prelude.Lists.{length}

abbrev pub member : ℕ → List ℕ → Bool
member a [] = false
member a (x ∷ xs) = nat_eqb x a || member a xs

abbrev pub IsDistinct : List ℕ → Type 0
IsDistinct [] = Unit
IsDistinct (x ∷ xs) = (member x xs ≡ false) × IsDistinct xs

abbrev pub count : ℕ → List ℕ → ℕ
count a [] = 0
count a (x ∷ xs) = (if nat_eqb x a then 1 else 0) + count a xs

pub count-le-length : (a : ℕ) (xs : List ℕ) → count a xs ≤ length xs
count-le-length a [] = omega arith
count-le-length a (x ∷ xs) = ground (arith, count-le-length a xs)

pub count-append :
    (g : ℕ) (seen rest : List ℕ) → count g (seen ++ rest) ≡ count g seen + count g rest
count-append g [] rest = ground arith
count-append g (s ∷ seen) rest =
    let later : count g (seen ++ rest) ≡ count g seen + count g rest = count-append g seen rest in
    ground arith

abbrev pub sum_by : (ℕ → ℕ) → List ℕ → ℕ
sum_by f [] = 0
sum_by f (x ∷ xs) = f x + sum_by f xs

pub sum_by-off :
    (f g : ℕ → ℕ) (a : ℕ) (xs : List ℕ)
    → member a xs ≡ false
    → ((x : ℕ) → x ≢ a → g x ≡ f x)
    → sum_by g xs ≡ sum_by f xs
sum_by-off f g a [] off same = refl
sum_by-off f g a (x ∷ xs) off same =
    omega (arith, sum_by-off f g a xs (ground arith) same, same x (ground arith))

-- A sum over distinct numbers when the summand changes at one of them.
pub sum_by-one :
    (f g : ℕ → ℕ) (a : ℕ) (xs : List ℕ)
    → IsDistinct xs
    → member a xs ≡ true
    → ((x : ℕ) → x ≢ a → g x ≡ f x)
    → sum_by g xs + f a ≡ sum_by f xs + g a
sum_by-one f g a [] d on same = cc
sum_by-one f g a (x ∷ xs) d on same = elim (Bool-cases (nat_eqb x a)) [
  | inl e ↦ ground (arith, sum_by-off f g a xs (ground (arith, nat_eqb_iff x a, d.0)) same)
  | inr ne ↦ omega (arith, sum_by-one f g a xs d.1 (ground arith) same, same x (ground arith))
]

-- The same when it changes at two.
pub sum_by-two :
    (f g : ℕ → ℕ) (a b : ℕ) (xs : List ℕ)
    → IsDistinct xs
    → member a xs ≡ true
    → member b xs ≡ true
    → a ≢ b
    → ((x : ℕ) → x ≢ a → x ≢ b → g x ≡ f x)
    → sum_by g xs + f a + f b ≡ sum_by f xs + g a + g b
sum_by-two f g a b xs d ina inb ne same =
    let mid = λ (x : ℕ). if nat_eqb x a then g a else f x in
    let one : sum_by mid xs + f a ≡ sum_by f xs + mid a =
      sum_by-one f mid a xs d ina (λ x n. ground arith) in
    let two : sum_by g xs + mid b ≡ sum_by mid xs + g b =
      sum_by-one mid g b xs d inb (λ x n. ground (arith, same x, nat_eqb_iff x a)) in
    ground arith
