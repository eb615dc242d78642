-- ===== src/Tester/Parts.antt =====
-- The two parts of a Partition (tester1/group.go), and the tests of its turns.
use mit.Prelude.{
  ℕ, ◌≡◌, refl, sym, ap, ◌∙◌, arith, Bool, true, false, ◌&&◌, ◌||◌, not, List, [], ◌∷◌, nat_eqb,
  nat_eqb_iff, member, Bool-cases, inl, inr,
}
use mathlib.Core.Bool.{true≢false}
use mit.Tester.Ends.{cut, joined}

-- One server is in each part; both are in one part.
abbrev pub across : List ℕ → List ℕ → ℕ → ℕ → Bool
across p q x y = (member x p && member y q) || (member x q && member y p)

abbrev pub within : List ℕ → List ℕ → ℕ → ℕ → Bool
within p q x y = (member x p && member y p) || (member x q && member y q)

-- No server is in both parts.
abbrev pub IsDisjoint : List ℕ → List ℕ → Type 0
IsDisjoint p q = (x : ℕ) → member x p ≡ true → member x q ≡ false

module _ (p q : List ℕ) (disjoint : IsDisjoint p q) (i : ℕ) (here : member i p ≡ true) where
  pub in_part : (x : ℕ) → nat_eqb i x ≡ true → member x p ≡ true
  in_part x h = ap (λ k. member k p) (sym ((nat_eqb_iff i x).0 h)) ∙ here

  pub joined-across : (c : ℕ → Bool) (x y : ℕ) → across p q x y ≡ true → joined c i p x y ≡ false
  joined-across c x y h = ground (arith, in_part x, in_part y, disjoint x, disjoint y)

  pub cut-across :
      (x y : ℕ) → across p q x y ≡ true → (nat_eqb i x || nat_eqb i y) ≡ true → cut i q x y ≡ true
  cut-across x y h k = ground (arith, in_part x, in_part y, disjoint x, disjoint y)

  pub cut-within : (x y : ℕ) → within p q x y ≡ true → cut i q x y ≡ false
  cut-within x y h = ground (arith, in_part x, in_part y, disjoint x, disjoint y)

pub off :
    (o c j k : Bool)
    → j ≡ false
    → (k ≡ true → c ≡ true)
    → (k || not o) ≡ true
    → ((o && not c) || j) ≡ false
off o c j k clear all h = ground (arith, clear, all, h)

pub stays : (o c j : Bool) → c ≡ false → o ≡ true → ((o && not c) || j) ≡ true
stays o c j h k = rw (h, k)

pub or_right : (a : Bool) {b : Bool} → b ≡ true → (a || b) ≡ true
or_right true h = refl
or_right false h = h

pub or_left : {a : Bool} (b : Bool) → a ≡ true → (a || b) ≡ true
or_left b h = rw h

pub left_or : (a m : Bool) → (a || m) ≡ true → m ≡ false → (a || false) ≡ true
left_or true m h e = refl
left_or false m h e = rw e at h

pub and-swap : (a b : Bool) → (a && b) ≡ true → (b && a) ≡ true
and-swap true true h = refl
and-swap true false h = h
and-swap false b h = absurd (true≢false (sym h))

pub and-left : (a b : Bool) → (a && b) ≡ true → a ≡ true
and-left true b h = refl
and-left false b h = h

pub and-right : (a b : Bool) → (a && b) ≡ true → b ≡ true
and-right true b h = h
and-right false b h = absurd (true≢false (sym h))

pub only-head : (i x : ℕ) → member x (i ∷ []) ≡ true → nat_eqb i x ≡ true
only-head i x h = ground arith

pub within-left :
    (p q : List ℕ) (x y : ℕ) → member x p ≡ true → member y p ≡ true → within p q x y ≡ true
within-left p q x y h k = rw (h, k) refl

pub both : {a b : Bool} → a ≡ true → b ≡ true → (a && b) ≡ true
both h k = rw (h, k)

-- What is left of a test of `i ∷ is` where the rest fails.
pub head_or : (a m k : Bool) → ((a || m) || k) ≡ true → m ≡ false → ((a || false) || k) ≡ true
head_or true m k h e = refl
head_or false m k h e = rw e at h

pub head_two :
    (a m b l k : Bool)
    → (((a || m) || (b || l)) || k) ≡ true
    → (m || l) ≡ false
    → (((a || false) || (b || false)) || k) ≡ true
head_two true m b l k h e = refl
head_two false false true l k h e = refl
head_two false false false l k h e = rw e at h
head_two false true b l k h e = absurd (true≢false e)

pub singles :
    (i x y : ℕ)
    → (member x (i ∷ []) || member y (i ∷ [])) ≡ true
    → (nat_eqb i x || nat_eqb i y) ≡ true
singles i x y h = ground arith

pub joined-left :
    (c : ℕ → Bool) (i : ℕ) (p : List ℕ) (x y : ℕ)
    → member x (i ∷ []) ≡ true
    → member y p ≡ true
    → c y ≡ true
    → joined c i p x y ≡ true
joined-left c i p x y hx hy hc = ground (arith, hc)

pub joined-right :
    (c : ℕ → Bool) (i : ℕ) (p : List ℕ) (x y : ℕ)
    → member x (i ∷ []) ≡ true
    → member y p ≡ true
    → c y ≡ true
    → joined c i p y x ≡ true
joined-right c i p x y hx hy hc = ground (arith, hc)

pub IsDisjoint-sym : (p q : List ℕ) → IsDisjoint p q → IsDisjoint q p
IsDisjoint-sym p q h x k = elim (Bool-cases (member x p)) [
  | inl y ↦ absurd (true≢false (sym k ∙ h x y))
  | inr n ↦ n
]

pub across-sym : (p q : List ℕ) (x y : ℕ) → across p q x y ≡ true → across q p x y ≡ true
across-sym p q x y h = ground (arith, h)

pub within-sym : (p q : List ℕ) (x y : ℕ) → within p q x y ≡ true → within q p x y ≡ true
within-sym p q x y h = ground (arith, h)

pub across-or : (p q : List ℕ) (x y : ℕ) → across p q x y ≡ true → (member x p || member y p) ≡ true
across-or p q x y h = ground (arith, h)

pub other : (a b : Bool) → (a || b) ≡ true → a ≡ false → b ≡ true
other true b h k = absurd (true≢false k)
other false b h k = h
