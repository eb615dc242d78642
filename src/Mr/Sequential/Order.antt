-- ===== src/Mr/Sequential/Order.antt =====
-- Lists of pairs in the order of their keys.
use mit.Prelude.{
  ◌≡◌, ◌≢◌, refl, subst, arith, String, false, List, [], ◌∷◌, string_eq, ◌==◌, less, less-eq,
  less_trans, Bool-cases, inl, inr,
}
use mathlib.Core.List.{Perm, Permᴰ}
use mathlib.Core.List.Permᴰ
use mathlib.Core.Logic.{∥∥₁_elim}
use mit.Mr.Worker.{KeyValue}
use mit.Mr.Worker.Shuffle.{values}
use mit.Mr.Sequential.{less_key}

-- What `sort.Sort` leaves: no pair is less than the one before it.
abbrev pub IsOrdered : List KeyValue → Type 0
IsOrdered [] = Unit
IsOrdered (a ∷ []) = Unit
IsOrdered (a ∷ (b ∷ l)) = (less_key b a ≡ false) × IsOrdered (b ∷ l)

-- A key before an ordered list that begins behind it does not occur in the list.
pub values-gone :
    (k : String) (b : KeyValue) (l : List KeyValue)
    → less b.key k ≡ false
    → b.key ≢ k
    → IsOrdered (b ∷ l)
    → values k (b ∷ l) ≡ []
values-gone k b [] after ne o = ground (arith, string_eq.same_iff b.key k)
values-gone k b (c ∷ l) after ne o =
    let far : less c.key k ≡ false = less_trans c.key b.key k o.0 after in
    let other : c.key ≢ k =
      λ e. ne (less-eq b.key k after (subst (λ j. less j b.key ≡ false) e o.0)) in
    ground (arith, string_eq.same_iff b.key k, values-gone k c l far other o.1)

values-cons :
    (k : String) (a : KeyValue) (xs ys : List KeyValue)
    → Permᴰ (values k xs) (values k ys)
    → Permᴰ (values k (a ∷ xs)) (values k (a ∷ ys))
values-cons k a xs ys p = elim (Bool-cases (a.key == k)) [
  | inl y ↦ rw y (Permᴰ.cons refl p)
  | inr n ↦ rw n p
]

values-swap :
    (k : String) (a b : KeyValue) (l : List KeyValue)
    → Permᴰ (values k (a ∷ (b ∷ l))) (values k (b ∷ (a ∷ l)))
values-swap k a b l = elim (Bool-cases (a.key == k)) [
  | inl y ↦ elim (Bool-cases (b.key == k)) [
    | inl z ↦ rw (y, z) (Permᴰ.swap refl refl)
    | inr n ↦ rw (y, n) (Permᴰ.refl (a.value ∷ values k l))
  ]
  | inr n ↦ rw n (Permᴰ.refl (values k (b ∷ l)))
]

values-Permᴰ :
    (k : String) {xs ys : List KeyValue} → Permᴰ xs ys → Permᴰ (values k xs) (values k ys)
values-Permᴰ k Permᴰ.nil = Permᴰ.nil
values-Permᴰ k (Permᴰ.cons {a} {b} {l₁} {l₂} e p) =
    subst (λ x. Permᴰ (values k (a ∷ l₁)) (values k (x ∷ l₂))) e
      (values-cons k a l₁ l₂ (values-Permᴰ k p))
values-Permᴰ k (Permᴰ.swap {a} {b} {a'} {b'} {l} e f) =
    subst (λ x. Permᴰ (values k (a ∷ (b ∷ l))) (values k (a' ∷ (x ∷ l)))) e
      (subst (λ x. Permᴰ (values k (a ∷ (b ∷ l))) (values k (x ∷ (a ∷ l)))) f (values-swap k a b l))
values-Permᴰ k (Permᴰ.trans p q) = Permᴰ.trans (values-Permᴰ k p) (values-Permᴰ k q)

pub values-Perm :
    (k : String) {xs ys : List KeyValue} → Perm xs ys → Perm (values k xs) (values k ys)
values-Perm k p = ∥∥₁_elim p (hlevel) (λ d. ∣ values-Permᴰ k d ∣₁)
