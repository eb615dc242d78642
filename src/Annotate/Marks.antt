-- ===== src/Annotate/Marks.antt =====
-- tester1/annotation.go: the loops of AnnotateShutdown and AnnotateRestart.
use mathlib.Core.Option.{some-injective}
use mit.Prelude.{
  ℕ, zero, suc, ◌<◌, ◌≡◌, refl, sym, ap, subst, ◌∙◌, Bool, true, false, ◌||◌, not, Option, none,
  some, List, [], ◌∷◌, inl, inr, string_eq, get_elem?, set, get_elem?-ne-none, length, length-set,
  Option-cases, if◌then◌else◌,
}
use mit.Annotate.Faults.{mark_one, mark_on, mark_all}

abbrev pub AllBelow : ℕ → List ℕ → Type 0
AllBelow n [] = Unit
AllBelow n (i ∷ is) = (i < n) × AllBelow n is

pub set-same : (xs : List Bool) (i : ℕ) (v : Bool) → get_elem? xs i ≡ some v → set xs i v ≡ xs
set-same [] i v e = refl
set-same (x ∷ xs) zero v e = ap (λ y. y ∷ xs) (sym (some-injective x v e))
set-same (x ∷ xs) (suc i) v e = ap (◌∷◌ x) (set-same xs i v e)

pub both_false : (a b : Bool) → (a || b) ≡ false → (a ≡ false) × (b ≡ false)
both_false true b e = cc
both_false false b e = (refl, e)

pub unchanged : (v b : Bool) → (if v then not b else b) ≡ false → b ≡ v
unchanged true true e = refl
unchanged true false e = cc
unchanged false b e = e

abbrev mark_through : Bool → Option (Bool × List Bool) → Option (Bool × List Bool)
mark_through c none = none
mark_through c (some r) = some (c || r.0, r.1)

-- The flags with `v` written for each of the servers, and whether one of them had another.
abbrev pub set_all : Bool → List ℕ → List Bool → List Bool
set_all v [] crashed = crashed
set_all v (id ∷ servers) crashed = set_all v servers (set crashed id v)

abbrev pub is_other : Bool → Option Bool → Bool
is_other v none = false
is_other v (some b) = if v then not b else b

abbrev pub differs : Bool → List ℕ → List Bool → Bool
differs v [] crashed = false
differs v (id ∷ servers) crashed = is_other v (get_elem? crashed id) || differs v servers crashed

-- The loop that marks servers ends, with the flags written, and with whether one was another; if
-- nothing changed, the list is the same.
pub mark_all-same :
    (v : Bool) (servers : List ℕ) (crashed : List Bool)
    → AllBelow (length crashed) servers
    → (c : Bool) × (crashed' : List Bool) × (mark_all v servers crashed ≡ some (c, crashed'))
      × (length crashed' ≡ length crashed)
      × (crashed' ≡ set_all v servers crashed)
      × (c ≡ differs v servers crashed)
      × (c ≡ false → crashed' ≡ crashed)
unfolding mark_all
mark_all-same v [] crashed h = (false, crashed, refl, refl, refl, refl, λ _. refl)
mark_all-same v (id ∷ servers) crashed (lt, h) = elim (Option-cases (get_elem? crashed id)) [
  | inl gone ↦ absurd (get_elem?-ne-none crashed id lt gone)
  | inr (b, found) ↦
      let (c, crashed', eq, len, all, other, same) =
        mark_all-same v servers (set crashed id v)
          (subst (λ k. AllBelow k servers) (sym (length-set crashed id v)) h) in
      (
        (if v then not b else b) || c,
        crashed',
        ap (λ o. mark_on (mark_all v servers) (mark_one v id crashed o)) found
            ∙ ap (mark_through (if v then not b else b)) eq,
        len ∙ length-set crashed id v,
        all,
        ap (λ k. (if v then not b else b) || k) other
            ∙ first_other b found (if v then not b else b) refl
            ∙ ap (λ o. is_other v o || differs v servers crashed) (sym found),
        λ none_changed.
            let (kept, later) = both_false (if v then not b else b) c none_changed in
            same later ∙ set-same crashed id v (found ∙ ap some (unchanged v b kept)),
      )
]
  where
    first_other :
        (b : Bool)
        → get_elem? crashed id ≡ some b
        → (o : Bool) → (if v then not b else b) ≡ o
        → (o || differs v servers (set crashed id v)) ≡ (o || differs v servers crashed)
    first_other b found true e = refl
    first_other b found false e =
        ap (differs v servers) (set-same crashed id v (found ∙ ap some (unchanged v b e)))
