-- ===== src/Prelude/Text.antt =====
-- Go's order on strings: by the characters' numbers, which is the order of their bytes.
use Prim.Native.Nat.{compare, Ordering}
use Prim.Native.Char.{code}
use Prim.Native.String.{String, [], ◌∷◌}
use mathlib.Core.Path.{◌≡◌, refl}
use mathlib.Core.Bool.{Bool, true, false}
use native.Mathlib.Omega.{arith}
use text.Mathlib.TextEquality.{codes_equal}

-- `s < t`
abbrev pub less : String → String → Bool
less s [] = false
less [] (d ∷ t) = true
less (c ∷ s) (d ∷ t) =
    let rest = less s t in
    elim (compare (code c) (code d)) [
      | Ordering.lt ↦ true
      | Ordering.eq ↦ rest
      | Ordering.gt ↦ false
    ]

pub less_irrefl : (s : String) → less s s ≡ false
less_irrefl [] = refl
less_irrefl (c ∷ s) = ground (arith, less_irrefl s)

pub less-eq : (s t : String) → less s t ≡ false → less t s ≡ false → s ≡ t
less-eq [] [] p q = refl
less-eq [] (d ∷ t) p q = cc
less-eq (c ∷ s) [] p q = cc
less-eq (c ∷ s) (d ∷ t) p q = ground (arith, codes_equal c d, less-eq s t)

-- If neither s < t nor t < u, then not s < u.
pub less_trans : (s t u : String) → less s t ≡ false → less t u ≡ false → less s u ≡ false
less_trans s t [] p q = refl
less_trans s [] (e ∷ u) p q = cc
less_trans [] (d ∷ t) (e ∷ u) p q = cc
less_trans (c ∷ s) (d ∷ t) (e ∷ u) p q = ground (arith, less_trans s t u)

pub less-asym : (s t : String) → less s t ≡ true → less t s ≡ false
less-asym s [] h = cc
less-asym [] (d ∷ t) h = refl
less-asym (c ∷ s) (d ∷ t) h = ground (arith, less-asym s t)
