-- ===== src/RaftTest/Leaders/Unique.antt =====
-- What checkOneLeader of raft1/test.go finds.
use mit.Prelude.{
  ℕ, zero, suc, ◌+◌, ◌≤◌, ◌≡◌, ◌≢◌, refl, sym, ap, ◌∙◌, arith, Bool, true, false, Option, none,
  some, List, [], ◌∷◌, ◌++◌, ltb, nat_eqb, nat_eqb_iff, append-nil, ltb→lt, ◌⊎◌, length, get_elem?,
  get_elem?-lt, if◌then◌else◌, nat_eq, lookup, lookup-insert, insert, Option-cases, Bool-cases, inl,
  inr,
}
use mathlib.Core.Option.{some-injective, none-ne-some}
use mathlib.Core.List.{append_assoc}
use mathlib.Core.Bool.{true≢false}
use mit.RaftTest.Leaders.{
  leaders_of, gather, is_later, last_term, leader, first_of, pick, check_round,
}

-- The places, from `i` on, whose answer is to lead in term `t`.
abbrev places : ℕ → ℕ → List (Option (ℕ × Bool)) → List ℕ
places t i [] = []
places t i (some (u, true) ∷ answers) =
    let more = places t (suc i) answers in if nat_eqb u t then i ∷ more else more
places t i (_ ∷ answers) = places t (suc i) answers

leaders_of-insert :
    (t u : ℕ) (is : List ℕ) (m : List (ℕ × List ℕ))
    → leaders_of t (insert u is m) ≡ (if nat_eqb u t then is else leaders_of t m)
leaders_of-insert t u is m = elim (Bool-cases (nat_eqb u t)) [
  | inl y ↦ rw (leaders_of, lookup-insert u t is m, y) refl
  | inr n ↦ rw (leaders_of, lookup-insert u t is m, n) refl
]

leaders_of-gather :
    (t i : ℕ) (answers : List (Option (ℕ × Bool))) (m : List (ℕ × List ℕ))
    → leaders_of t (gather i answers m) ≡ leaders_of t m ++ places t i answers
leaders_of-gather t i [] m = sym (append-nil (leaders_of t m))
leaders_of-gather t i (some (u, true) ∷ answers) m =
    let next = leaders_of u m ++ i ∷ [] in
    leaders_of-gather t (suc i) answers (insert u next m)
    ∙ ap (λ is. is ++ places t (suc i) answers) (leaders_of-insert t u next m)
    ∙ moved (elim (Bool-cases (nat_eqb u t)) [
      | inl y ↦ inl (y, ap (λ w. leaders_of w m) ((nat_eqb_iff u t).0 y))
      | inr n ↦ inr n
    ])
  where
    moved :
        ((nat_eqb u t ≡ true) × (leaders_of u m ≡ leaders_of t m)) ⊎ (nat_eqb u t ≡ false)
        → (if nat_eqb u t then leaders_of u m ++ i ∷ [] else leaders_of t m)
            ++ places t (suc i) answers
          ≡ leaders_of t m ++ places t i (some (u, true) ∷ answers)
    moved (inl (y, same)) =
        rw (y, same) (append_assoc (leaders_of t m) (i ∷ []) (places t (suc i) answers))
    moved (inr n) = rw n refl
leaders_of-gather t i (some (u, false) ∷ answers) m = leaders_of-gather t (suc i) answers m
leaders_of-gather t i (none ∷ answers) m = leaders_of-gather t (suc i) answers m

-- No term of the map is past `t`, or has two leaders.
abbrev IsWithin : ℕ → List (ℕ × List ℕ) → Type 0
IsWithin t m = (u : ℕ) (is : List ℕ) → lookup u m ≡ some is → (u ≤ t) × (length is ≤ 1)

IsWithin-cons :
    (t v : ℕ) (js : List ℕ) (m : List (ℕ × List ℕ))
    → v ≤ t
    → length js ≤ 1
    → IsWithin t m
    → IsWithin t ((v, js) ∷ m)
unfolding lookup
IsWithin-cons t v js m below one rest u is h = elim (Bool-cases (nat_eqb v u)) [
  | inl y ↦
      let same : js ≡ is = some-injective js is (rw y at h) in
      (omega (arith, (nat_eqb_iff v u).0 y), omega (arith, ap length same))
  | inr n ↦ rest u is (rw n at h)
]

lookup-head :
    (t v : ℕ) (js : List ℕ) (m : List (ℕ × List ℕ))
    → ((is : List ℕ) × (lookup t m ≡ some is)) ⊎ (v ≡ t)
    → (is : List ℕ) × (lookup t ((v, js) ∷ m) ≡ some is)
unfolding lookup
lookup-head t v js m h = elim (Bool-cases (nat_eqb v t)) [
  | inl y ↦ (js, rw y)
  | inr n ↦ elim h [
    | inl (is, at) ↦ (is, rw (n, at))
    | inr same ↦ absurd (true≢false (sym ((nat_eqb_iff v t).1 same) ∙ n))
  ]
]

-- The term that the loop ends with is one of the map, or the one that it began with; no term of
-- the map is later, nor is the one that it began with, and none has two leaders.
last_term-lookup :
    (m : List (ℕ × List ℕ)) (last : Option ℕ) (t : ℕ)
    → last_term m last ≡ some (some t)
    → (((is : List ℕ) × (lookup t m ≡ some is)) ⊎ (last ≡ some t))
      × ((u : ℕ) → last ≡ some u → u ≤ t)
      × IsWithin t m
unfolding lookup
last_term-lookup [] last t h =
    let same : last ≡ some t = some-injective last (some t) h in
    (inr same, (λ u e. omega (arith, some-injective u t (sym e ∙ same))), λ u is. cc)
last_term-lookup ((v, js) ∷ m) last t h = elim (Bool-cases (ltb 1 (length js))) [
  | inl y ↦ absurd (none-ne-some (some t) (rw y at h))
  | inr n ↦ elim (Bool-cases (is_later v last)) [
    | inl z ↦
        let (have, top, rest) = last_term-lookup m (some v) t (rw (n, z) at h) in
        (
          inl (
              lookup-head t v js m
                (elim have [ inl at ↦ inl at | inr e ↦ inr (some-injective v t e) ])),
          (λ u e. omega (arith, top v refl, ltb→lt u v (sym (ap (is_later v) e) ∙ z))),
          IsWithin-cons t v js m (top v refl) (ground arith) rest,
        )
    | inr z ↦
        let (have, top, rest) = last_term-lookup m last t (rw (n, z) at h) in
        (
          elim have [ inl at ↦ inl (lookup-head t v js m (inl at)) | inr e ↦ inr e ],
          top,
          IsWithin-cons t v js m (early v last t z top) (ground arith) rest,
        )
  ]
]
  where
    early :
        (v : ℕ) (last : Option ℕ) (t : ℕ)
        → is_later v last ≡ false
        → ((u : ℕ) → last ≡ some u → u ≤ t)
        → v ≤ t
    early v none t z top = cc
    early v (some u) t z top = ground (arith, top u refl)

places-get :
    (t i p j : ℕ) (answers : List (Option (ℕ × Bool)))
    → get_elem? (places t i answers) p ≡ some j
    → (q : ℕ) × (j ≡ i + q) × (get_elem? answers q ≡ some (some (t, true)))
places-get t i p j [] h = cc
places-get t i p j (none ∷ answers) h =
    let (q, e, at) = places-get t (suc i) p j answers h in (suc q, omega arith, at)
places-get t i p j (some (u, false) ∷ answers) h =
    let (q, e, at) = places-get t (suc i) p j answers h in (suc q, omega arith, at)
places-get t i zero j (some (u, true) ∷ answers) h = elim (Bool-cases (nat_eqb u t)) [
  | inr n ↦
      let (q, e, at) = places-get t (suc i) zero j answers (rw n at h) in (suc q, omega arith, at)
  | inl y ↦
      let first : some i ≡ some j = rw y at h in
      (
        0,
        omega (arith, some-injective i j first),
        ap (λ w. some (some (w, true))) ((nat_eqb_iff u t).0 y),
      )
]
places-get t i (suc p) j (some (u, true) ∷ answers) h = elim (Bool-cases (nat_eqb u t)) [
  | inr n ↦
      let (q, e, at) = places-get t (suc i) (suc p) j answers (rw n at h) in
      (suc q, omega arith, at)
  | inl y ↦
      let (q, e, at) = places-get t (suc i) p j answers (rw y at h) in (suc q, omega arith, at)
]

abbrev fst_of : Option (Option (ℕ × Bool)) → ℕ
fst_of (some (some (u, _))) = u
fst_of _ = 0

places-has :
    (t i q : ℕ) (answers : List (Option (ℕ × Bool)))
    → get_elem? answers q ≡ some (some (t, true))
    → (p : ℕ) × (get_elem? (places t i answers) p ≡ some (i + q))
places-has t i q [] h = cc
places-has t i zero (none ∷ answers) h = cc
places-has t i zero (some (u, false) ∷ answers) h = cc
places-has t i zero (some (u, true) ∷ answers) h =
    let same : u ≡ t = ap fst_of h in (0, rw ((nat_eqb_iff u t).1 same) (ap some (omega arith)))
places-has t i (suc q) (none ∷ answers) h =
    let (p, at) = places-has t (suc i) q answers h in (p, at ∙ ap some (omega arith))
places-has t i (suc q) (some (u, false) ∷ answers) h =
    let (p, at) = places-has t (suc i) q answers h in (p, at ∙ ap some (omega arith))
places-has t i (suc q) (some (u, true) ∷ answers) h = elim (Bool-cases (nat_eqb u t)) [
  | inl y ↦
      let (p, at) = places-has t (suc i) q answers h in (suc p, rw y (at ∙ ap some (omega arith)))
  | inr n ↦ let (p, at) = places-has t (suc i) q answers h in (p, rw n (at ∙ ap some (omega arith)))
]

only-place :
    (t i j : ℕ) (answers : List (Option (ℕ × Bool)))
    → length (places t 0 answers) ≤ 1
    → get_elem? (places t 0 answers) 0 ≡ some i
    → get_elem? answers j ≡ some (some (t, true))
    → j ≡ i
only-place t i j answers one first at =
    let (p, has) = places-has t 0 j answers at in
    let start : p ≡ 0 = omega (arith, get_elem?-lt (places t 0 answers) p (0 + j) has) in
    omega (
      arith,
      some-injective i (0 + j) (sym first ∙ ap (get_elem? (places t 0 answers)) (sym start) ∙ has),
    )

first_of-leader : (is : List ℕ) (i : ℕ) → first_of is ≡ leader i → get_elem? is 0 ≡ some i
first_of-leader [] i h = cc
first_of-leader (j ∷ is) i h = cc

leaders_of-length :
    (t u : ℕ) (m : List (ℕ × List ℕ))
    → IsWithin t m
    → (length (leaders_of u m) ≤ 1) × (leaders_of u m ≢ [] → u ≤ t)
leaders_of-length t u m within = elim (Option-cases (lookup u m)) [
  | inl n ↦ rw (leaders_of, n) (omega arith, λ h. absurd (h refl))
  | inr (is, at) ↦ let (below, one) = within u is at in rw (leaders_of, at) (one, λ h. below)
]

abbrev IsLeader : List (Option (ℕ × Bool)) → ℕ → Type 0
IsLeader answers i =
    (t : ℕ) × (get_elem? answers i ≡ some (some (t, true)))
    × ((j u : ℕ) → get_elem? answers j ≡ some (some (u, true)) → (u ≤ t) × (u ≡ t → j ≡ i))

pick-leader :
    (answers : List (Option (ℕ × Bool))) (i : ℕ) (o : Option (Option ℕ))
    → last_term (gather 0 answers []) none ≡ o
    → pick (gather 0 answers []) o ≡ leader i
    → IsLeader answers i
unfolding lookup
pick-leader answers i none e h = cc
pick-leader answers i (some none) e h = cc
pick-leader answers i (some (some t)) e h =
    let m = gather 0 answers [] in
    let (have, top, within) = last_term-lookup m none t e in
    let placed : (u : ℕ) → leaders_of u m ≡ places u 0 answers =
      λ u. leaders_of-gather u 0 answers [] in
    let first : get_elem? (places t 0 answers) 0 ≡ some i =
      ap (λ is. get_elem? is 0) (sym (placed t)) ∙ first_of-leader (leaders_of t m) i h in
    let (q, here, at) = places-get t 0 0 i answers first in
    let one : length (places t 0 answers) ≤ 1 =
      omega (arith, ap length (placed t), (leaders_of-length t t m within).0) in
    (
      t,
      ap (get_elem? answers) (omega arith) ∙ at,
      λ j u there.
          let (p, has) = places-has u 0 j answers there in
          let some_there : leaders_of u m ≢ [] =
            λ z. none-ne-some (0 + j) (ap (λ is. get_elem? is p) (sym z ∙ placed u) ∙ has) in
          (
            (leaders_of-length t u m within).1 some_there,
            λ same.
                only-place t i j answers one first (there ∙ ap (λ w. some (some (w, true))) same),
          ),
    )

-- If a round ends with a leader, then that server answered to lead in some term, no server that
-- answered to lead is in a later term, and none but it leads in that term.
pub check_round-leader :
    (answers : List (Option (ℕ × Bool))) (i : ℕ)
    → check_round answers ≡ leader i
    → (t : ℕ) × (get_elem? answers i ≡ some (some (t, true)))
      × ((j u : ℕ) → get_elem? answers j ≡ some (some (u, true)) → (u ≤ t) × (u ≡ t → j ≡ i))
unfolding check_round
check_round-leader answers i h = pick-leader answers i (last_term (gather 0 answers []) none) refl h
