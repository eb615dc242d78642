-- ===== src/Prelude/Assoc.antt =====
-- Go maps as association lists, over any type of keys with a decided equality.
use mathlib.Core.Path.{◌≡◌, refl, sym, ◌∙◌}
use mathlib.Core.Logic.{◌↔◌, ◌⊎◌, inl, inr}
use mathlib.Core.Bool.{Bool, true}
use mathlib.Core.Option.{Option, none, some, some-injective}
use mathlib.Core.List.{List, [], ◌∷◌}
use native.Mathlib.Omega.{arith}
use Prim.Native.Nat.{ℕ}
use Prim.Native.String.{String}
use text.Mathlib.Text.{◌==◌ as str_eq}
use text.Mathlib.TextEquality.{eq_iff}
use mit.Prelude.Tests.{nat_eqb, nat_eqb_iff, if◌then◌else◌, Bool-cases}

-- The types whose equality Go decides.
pub record HasEq {ℓ} (K : Type ℓ) : Type ℓ where
  pub same : K → K → Bool
  pub same_iff : (j k : K) → (same j k ≡ true) ↔ (j ≡ k)

instance abbrev pub string_eq : HasEq String
string_eq = record { same = str_eq; same_iff = eq_iff }

instance abbrev pub nat_eq : HasEq ℕ
nat_eq = record { same = nat_eqb; same_iff = nat_eqb_iff }

abbrev pub ◌==◌ {ℓ} : {K : Type ℓ} ⦃e : HasEq K⦄ → K → K → Bool
◌==◌ ⦃e⦄ j k = e.same j k

infix 50 ◌==◌
module _ {ℓ κ} {K : Type ℓ} {V : Type κ} ⦃e : HasEq K⦄ where
  -- v, ok := m[k]
  unfoldable pub lookup : K → List (K × V) → Option V
  lookup k [] = none
  lookup k ((j, v) ∷ m) = if e.same j k then some v else lookup k m

  -- m[k] = v
  unfoldable pub insert : K → V → List (K × V) → List (K × V)
  insert k v [] = (k, v) ∷ []
  insert k v ((j, w) ∷ m) =
      let rest = insert k v m in if e.same j k then (k, v) ∷ m else (j, w) ∷ rest

  -- delete(m, k)
  unfoldable pub delete : K → List (K × V) → List (K × V)
  delete k [] = []
  delete k ((j, w) ∷ m) = let rest = delete k m in if e.same j k then rest else (j, w) ∷ rest

  pub lookup-insert :
      (k j : K) (v : V) (m : List (K × V))
      → lookup j (insert k v m) ≡ (if e.same k j then some v else lookup j m)
  unfolding lookup insert
  lookup-insert k j v [] = refl
  lookup-insert k j v ((i, w) ∷ m) =
      ground (arith, e.same_iff k j, e.same_iff i k, e.same_iff i j, lookup-insert k j v m)

  pub lookup-delete :
      (k j : K) (m : List (K × V))
      → lookup j (delete k m) ≡ (if e.same k j then none else lookup j m)
  unfolding lookup delete
  lookup-delete k j [] = ground arith
  lookup-delete k j ((i, w) ∷ m) =
      ground (arith, e.same_iff k j, e.same_iff i k, e.same_iff i j, lookup-delete k j m)

  -- A value of the map after a write is the new one, or was there before.
  pub insert-cases :
      (k j : K) (v w : V) (m : List (K × V))
      → lookup j (insert k v m) ≡ some w
      → ((j ≡ k) × (w ≡ v)) ⊎ (lookup j m ≡ some w)
  insert-cases k j v w m h = elim (Bool-cases (e.same k j)) [
    | inl y ↦
        inl
          (sym ((e.same_iff k j).0 y), some-injective w v (sym h ∙ rw y at (lookup-insert k j v m)))
    | inr n ↦ inr (rw n at (sym (lookup-insert k j v m)) ∙ h)
  ]

pub ruleset map_laws = (lookup-insert, lookup-delete)
