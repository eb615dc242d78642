-- ===== src/Mr/Apps/Index.antt =====
-- The Reduce functions of mrapps/ and the order of the values.
use mit.Prelude.{
  ℕ, suc, ◌≡◌, refl, ap, ◌∙◌, arith, String, List, [], ◌∷◌, length, less-eq, less_trans, less-asym,
  Bool-cases, inl, inr, string_eq, ◌==◌,
}
use mathlib.Core.List.{Perm, Permᴰ}
use mathlib.Core.Logic.{∥∥₁_elim}
use mathlib.Core.HLevel.{hedberg}
use native.Mathlib.Nat.{ℕ_set}
use mit.Mr.Sequential.Refines.{IsUnordered}
use mit.Mr.Apps.{count_reduce, index_reduce, insert_text, sort_texts}

insert_text_comm :
    (s t : String) (l : List String)
    → insert_text s (insert_text t l) ≡ insert_text t (insert_text s l)
insert_text_comm s t [] = ground (arith, less-eq s t, less-asym s t)
insert_text_comm s t (u ∷ l) = ground (
  arith,
  insert_text_comm s t l,
  less-eq s t,
  less-asym s t,
  less-asym t s,
  less_trans u s t,
  less_trans u t s,
  less_trans s t u,
  less_trans t s u,
  less-asym u s,
  less-asym u t,
)

sort_texts-Permᴰ : {xs ys : List String} → Permᴰ xs ys → sort_texts xs ≡ sort_texts ys
sort_texts-Permᴰ Permᴰ.nil = refl
sort_texts-Permᴰ (Permᴰ.cons {a} {b} e p) = λ i. insert_text (e i) (sort_texts-Permᴰ p i)
sort_texts-Permᴰ (Permᴰ.swap {a} {b} {a'} {b'} {l} e f) =
    insert_text_comm a b (sort_texts l)
    ∙ (λ i. insert_text (f i) (insert_text (e i) (sort_texts l)))
sort_texts-Permᴰ (Permᴰ.trans p q) = sort_texts-Permᴰ p ∙ sort_texts-Permᴰ q

length-Permᴰ : {xs ys : List String} → Permᴰ xs ys → length xs ≡ length ys
length-Permᴰ Permᴰ.nil = refl
length-Permᴰ (Permᴰ.cons e p) = ap suc (length-Permᴰ p)
length-Permᴰ (Permᴰ.swap e f) = refl
length-Permᴰ (Permᴰ.trans p q) = length-Permᴰ p ∙ length-Permᴰ q

length-Perm : {xs ys : List String} → Perm xs ys → length xs ≡ length ys
length-Perm p = ∥∥₁_elim p (ℕ_set _ _) length-Permᴰ

String-discrete : Discrete String
String-discrete s t = elim (Bool-cases (s == t)) [
  | inl y ↦ yes ((string_eq.same_iff s t).0 y)
  | inr n ↦ no (λ e. cc ((string_eq.same_iff s t).1 e, n))
]

sort_texts-Perm : {xs ys : List String} → Perm xs ys → sort_texts xs ≡ sort_texts ys
sort_texts-Perm p = ∥∥₁_elim p (hlevel (hedberg String-discrete)) sort_texts-Permᴰ

-- Neither the word count's nor the indexer's Reduce looks at the order of the values.
pub reduces-IsUnordered :
    (itoa : ℕ → String) → IsUnordered (count_reduce itoa) × IsUnordered (index_reduce itoa)
reduces-IsUnordered itoa =
    (λ k xs ys p. ap itoa (length-Perm p), λ k xs ys p. rw (length-Perm p, sort_texts-Perm p))
