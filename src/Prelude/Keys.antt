-- ===== src/Prelude/Keys.antt =====
-- The keys of a Go map with numbers for keys, and sums over its values.
use Prim.Native.Nat.{ℕ, ◌+◌}
use mathlib.Core.Path.{◌≡◌, refl}
use mathlib.Core.Logic.{◌≢◌}
use mathlib.Core.Bool.{false, ◌||◌}
use mathlib.Core.Option.{none, some}
use mathlib.Core.List.{List, [], ◌∷◌}
use native.Mathlib.Omega.{arith}
use mit.Prelude.Tests.{nat_eqb, nat_eqb_iff}
use mit.Prelude.Assoc.{lookup, insert, delete, nat_eq}
use mit.Prelude.Sums.{member, IsDistinct}

module _ {ℓ} {V : Type ℓ} where
  abbrev pub keys : List (ℕ × V) → List ℕ
  keys [] = []
  keys ((g, _) ∷ m) = g ∷ keys m

  abbrev pub sum_values : (V → ℕ) → List (ℕ × V) → ℕ
  sum_values w [] = 0
  sum_values w ((k, v) ∷ m) = w v + sum_values w m

  member-insert :
      (m : List (ℕ × V)) (g a : ℕ) (v : V)
      → member a (keys (insert g v m)) ≡ (nat_eqb g a || member a (keys m))
  unfolding insert
  member-insert [] g a v = ground arith
  member-insert ((k, w) ∷ m) g a v = ground (arith, member-insert m g a v)

  pub insert-IsDistinct :
      (m : List (ℕ × V)) (g : ℕ) (v : V) → IsDistinct (keys m) → IsDistinct (keys (insert g v m))
  unfolding insert
  insert-IsDistinct [] g v d = (refl, tt)
  insert-IsDistinct ((k, w) ∷ m) g v d =
      ground (arith, insert-IsDistinct m g v d.1, member-insert m g k v, nat_eqb_iff k g)

  member-delete :
      (m : List (ℕ × V)) (g a : ℕ)
      → member a (keys m) ≡ false
      → member a (keys (delete g m)) ≡ false
  unfolding delete
  member-delete [] g a h = refl
  member-delete ((k, w) ∷ m) g a h = ground (arith, member-delete m g a)

  pub delete-IsDistinct :
      (m : List (ℕ × V)) (g : ℕ) → IsDistinct (keys m) → IsDistinct (keys (delete g m))
  unfolding delete
  delete-IsDistinct [] g d = tt
  delete-IsDistinct ((k, w) ∷ m) g d =
      ground (arith, delete-IsDistinct m g d.1, member-delete m g k)

  pub insert-some : (m : List (ℕ × V)) (g : ℕ) (v : V) → keys (insert g v m) ≢ []
  unfolding insert
  insert-some [] g v e = cc
  insert-some ((k, w) ∷ m) g v e = ground arith

  pub sum_values-insert :
      (w : V → ℕ) (k : ℕ) (v : V) (m : List (ℕ × V))
      → lookup k m ≡ none
      → sum_values w (insert k v m) ≡ sum_values w m + w v
  unfolding lookup insert
  sum_values-insert w k v [] h = omega arith
  sum_values-insert w k v ((j, u) ∷ m) h = ground (arith, sum_values-insert w k v m)

  delete-off :
      (w : V → ℕ) (k : ℕ) (m : List (ℕ × V))
      → member k (keys m) ≡ false
      → sum_values w (delete k m) ≡ sum_values w m
  unfolding delete
  delete-off w k [] h = refl
  delete-off w k ((j, u) ∷ m) h = ground (arith, delete-off w k m)

  pub sum_values-delete :
      (w : V → ℕ) (k : ℕ) (v : V) (m : List (ℕ × V))
      → IsDistinct (keys m)
      → lookup k m ≡ some v
      → sum_values w (delete k m) + w v ≡ sum_values w m
  unfolding lookup delete
  sum_values-delete w k v [] d h = cc
  sum_values-delete w k v ((j, u) ∷ m) d h =
      ground (arith, sum_values-delete w k v m d.1, delete-off w k m, nat_eqb_iff j k)
