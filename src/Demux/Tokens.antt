-- ===== src/Demux/Tokens.antt =====
-- tester1/demux: messages with tags, and the callers whose tags they have.
use mit.Prelude.{
  ℕ, ◌+◌, ◌≡◌, refl, List, none, some, [], ◌∷◌, ◌++◌, arith, nat_eqb, nat_eqb_iff, nat_eq, lookup,
  lookup-insert, lookup-delete, insert, delete, if◌then◌else◌,
}

module _ {ℓ} {B : Type ℓ} where
  abbrev pub count_tag : ℕ → List (ℕ × B) → ℕ
  count_tag t [] = 0
  count_tag t ((u, _) ∷ xs) = (if nat_eqb u t then 1 else 0) + count_tag t xs

  pub count_tag-append :
      (t : ℕ) (xs ys : List (ℕ × B)) → count_tag t (xs ++ ys) ≡ count_tag t xs + count_tag t ys
  count_tag-append t [] ys = omega arith
  count_tag-append t (x ∷ xs) ys = omega (arith, count_tag-append t xs ys)

  -- Every message has a tag of the map, and its caller and body are related.
  abbrev pub Known : (ℕ → B → Type 0) → List (ℕ × ℕ) → List (ℕ × B) → Type 0
  Known R calls [] = Unit
  Known R calls ((t, b) ∷ xs) = ((c : ℕ) × (lookup t calls ≡ some c) × R c b) × Known R calls xs

  module _ (R : ℕ → B → Type 0) (calls : List (ℕ × ℕ)) where
    pub Known-append :
        (xs ys : List (ℕ × B)) → Known R calls xs → Known R calls ys → Known R calls (xs ++ ys)
    Known-append [] ys h k = k
    Known-append (x ∷ xs) ys h k = (h.0, Known-append xs ys h.1 k)

    pub Known-split :
        (xs : List (ℕ × B)) (y : ℕ × B) (ys : List (ℕ × B))
        → Known R calls (xs ++ (y ∷ ys))
        → Known R calls (xs ++ ys)
    Known-split [] y ys h = h.1
    Known-split (x ∷ xs) y ys h = (h.0, Known-split xs y ys h.1)

    pub Known-at :
        (xs : List (ℕ × B)) (t : ℕ) (b : B) (ys : List (ℕ × B))
        → Known R calls (xs ++ ((t, b) ∷ ys))
        → (c : ℕ) × (lookup t calls ≡ some c) × R c b
    Known-at [] t b ys h = h.0
    Known-at (x ∷ xs) t b ys h = Known-at xs t b ys h.1

    pub Known-insert :
        (t c : ℕ) (xs : List (ℕ × B))
        → lookup t calls ≡ none
        → Known R calls xs
        → Known R (insert t c calls) xs
    Known-insert t c [] free h = tt
    Known-insert t c ((u, b) ∷ xs) free ((d, at, r), h) = (
      (d, ground (arith, lookup-insert t u c calls, nat_eqb_iff t u, at, free), r),
      Known-insert t c xs free h,
    )

    pub Known-delete :
        (t : ℕ) (xs : List (ℕ × B))
        → count_tag t xs ≡ 0
        → Known R calls xs
        → Known R (delete t calls) xs
    Known-delete t [] none_of h = tt
    Known-delete t ((u, b) ∷ xs) none_of ((d, at, r), h) = (
      (d, ground (arith, lookup-delete t u calls, nat_eqb_iff t u, at), r),
      Known-delete t xs (ground arith) h,
    )

    pub Known-free :
        (t : ℕ) (xs : List (ℕ × B)) → lookup t calls ≡ none → Known R calls xs → count_tag t xs ≡ 0
    Known-free t [] free h = refl
    Known-free t ((u, b) ∷ xs) free ((d, at, r), h) =
        ground (arith, nat_eqb_iff u t, at, free, Known-free t xs free h)
