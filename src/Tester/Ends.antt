-- ===== src/Tester/Ends.antt =====
-- What connect and disconnect of tester1/group.go do to the ends between the servers of a group.
use mit.Prelude.{
  ℕ, ◌<◌, ◌≡◌, refl, sym, ap, ◌∙◌, arith, Bool, true, false, ◌&&◌, ◌||◌, not, some, List, [], ◌∷◌,
  nat_eqb, nat_eqb_iff, length, get_elem?, get_elem?-ne-none, get_elem?-set_self, get_elem?-set_ne,
  set, length-set, member, nat_eq, if◌then◌else◌, Bool-cases, Option-cases, inl, inr,
}
use mathlib.Core.Bool.{false≢true}
use mit.Net.{Network, at_bool}
use mit.Tester.{ServerGrp, end_name, mark, connect, disconnect}
use mit.Tester.Loops.{
  is_on, is_marked, AllBelow, touched, and_false, keep_and, enable_peers-is_on, disable_peers-is_on,
}

and_swap : (a b : Bool) → (a && b) ≡ (b && a)
and_swap true b = keep_and b
and_swap false b = sym (and_false b)

two_cuts : (o p q : Bool) → ((o && not p) && not q) ≡ (o && not (p || q))
two_cuts true true q = refl
two_cuts true false q = refl
two_cuts false p q = refl

two_joins : (o p q : Bool) → ((o || p) || q) ≡ (o || (p || q))
two_joins true p q = refl
two_joins false p q = refl

-- A test that the matching peer passes, spread over the peer and the rest.
spread :
    (cj cy a b m : Bool)
    → (b ≡ true → cj ≡ cy)
    → ((cj && (a && b)) || (a && (m && cy))) ≡ (a && ((b || m) && cy))
spread cj cy false b m h = rw (and_false cj) refl
spread cj cy true false m h = rw (and_false cj) refl
spread true cy true true m h = h refl
spread false false true true m h = and_false m
spread false true true true m h = absurd (false≢true (h refl))

-- The ends that a disconnect or a connect of `i` is about.
abbrev pub cut : ℕ → List ℕ → ℕ → ℕ → Bool
cut i from x y = (nat_eqb i x && member y from) || (nat_eqb i y && member x from)

abbrev pub joined : (ℕ → Bool) → ℕ → List ℕ → ℕ → ℕ → Bool
joined c i to x y = (nat_eqb i x && (member y to && c y)) || (nat_eqb i y && (member x to && c x))

module _ (n : ℕ) (ends : ℕ → ℕ → ℕ)
    (apart : (i j a b : ℕ)
      → i < n
      → j < n
      → a < n
      → b < n
      → ends i j ≡ ends a b
      → (i ≡ a) × (j ≡ b)) where
  ends-eq :
      (i j a b : ℕ)
      → i < n
      → j < n
      → a < n
      → b < n
      → nat_eqb (ends i j) (ends a b) ≡ (nat_eqb i a && nat_eqb j b)
  ends-eq i j a b li lj la lb = ground (arith, apart i j a b li lj la lb)

  -- The ends from `i`, and those to `i`, that a loop touches.
  touched-from :
      (c : ℕ → Bool) (i x y : ℕ) (to : List ℕ)
      → i < n
      → x < n
      → y < n
      → AllBelow n to
      → touched c (ends i) (ends x y) to ≡ (nat_eqb i x && (member y to && c y))
  touched-from c i x y [] li lx ly below = sym (and_false (nat_eqb i x))
  touched-from c i x y (j ∷ to) li lx ly below =
      rw (ends-eq i j x y li below.0 lx ly, touched-from c i x y to li lx ly below.1)
        (spread (c j) (c y) (nat_eqb i x) (nat_eqb j y) (member y to)
          (λ h. ap c ((nat_eqb_iff j y).0 h)))

  touched-to :
      (c : ℕ → Bool) (i x y : ℕ) (from : List ℕ)
      → i < n
      → x < n
      → y < n
      → AllBelow n from
      → touched c (λ j. ends j i) (ends x y) from ≡ (nat_eqb i y && (member x from && c x))
  touched-to c i x y [] li lx ly below = sym (and_false (nat_eqb i y))
  touched-to c i x y (j ∷ from) li lx ly below =
      rw
        (
          ends-eq j i x y below.0 li lx ly,
          and_swap (nat_eqb j x) (nat_eqb i y),
          touched-to c i x y from li lx ly below.1,
        )
        (spread (c j) (c x) (nat_eqb i y) (nat_eqb j x) (member x from)
          (λ h. ap c ((nat_eqb_iff j x).0 h)))

  -- A group of `n` servers, whose end from `i` to `j` is `ends i j`.
  abbrev pub IsGroup : ServerGrp → Type 0
  IsGroup sg =
      ((i j : ℕ) → i < n → j < n → end_name sg i j ≡ some (ends i j)) × (length sg.connected ≡ n)

  mark-some :
      (sg : ServerGrp) (i : ℕ) (b : Bool)
      → IsGroup sg
      → i < n
      → mark sg i b ≡ some (record sg { connected = set sg.connected i b })
  mark-some sg i b ok lt = elim (Option-cases (get_elem? sg.connected i)) [
    | inl z ↦ absurd (get_elem?-ne-none sg.connected i (omega (arith, lt, ok.1)) z)
    | inr (c, at) ↦ rw (mark, at) refl
  ]

  is_marked-set :
      (sg : ServerGrp) (i x : ℕ) (b : Bool)
      → IsGroup sg
      → i < n
      → at_bool (get_elem? (set sg.connected i b) x) ≡ (if nat_eqb i x then b else is_marked sg x)
  is_marked-set sg i x b ok lt = elim (Bool-cases (nat_eqb i x)) [
    | inl y ↦ rw y (
        ap (λ k. at_bool (get_elem? (set sg.connected i b) k)) (sym ((nat_eqb_iff i x).0 y))
        ∙ ap at_bool (get_elem?-set_self sg.connected i b (omega (arith, lt, ok.1))))
    | inr z ↦ rw z (ap at_bool (get_elem?-set_ne sg.connected b (ground (arith, nat_eqb_iff i x))))
  ]

  cut-from :
      (i x y : ℕ) (from : List ℕ)
      → i < n
      → x < n
      → y < n
      → AllBelow n from
      → touched (λ j. true) (ends i) (ends x y) from ≡ (nat_eqb i x && member y from)
  cut-from i x y from li lx ly below =
      touched-from (λ j. true) i x y from li lx ly below
      ∙ ap (λ b. nat_eqb i x && b) (sym (keep_and (member y from)))

  cut-to :
      (i x y : ℕ) (from : List ℕ)
      → i < n
      → x < n
      → y < n
      → AllBelow n from
      → touched (λ j. true) (λ j. ends j i) (ends x y) from ≡ (nat_eqb i y && member x from)
  cut-to i x y from li lx ly below =
      touched-to (λ j. true) i x y from li lx ly below
      ∙ ap (λ b. nat_eqb i y && b) (sym (keep_and (member x from)))

  pub disconnect-is_on :
      (sg : ServerGrp) (net : Network) (i : ℕ) (from : List ℕ)
      → IsGroup sg
      → i < n
      → AllBelow n from
      → (sg' : ServerGrp) × (net' : Network) × (disconnect sg net i from ≡ some (sg', net'))
        × IsGroup sg'
        × ((x : ℕ) → is_marked sg' x ≡ (if nat_eqb i x then false else is_marked sg x))
        × ((x y : ℕ)
            → x < n
            → y < n
            → is_on net' (ends x y) ≡ (is_on net (ends x y) && not (cut i from x y)))
  unfolding disconnect
  disconnect-is_on sg net i from ok lt below =
      let sg' = record sg { connected = set sg.connected i false } in
      let (net1, run1, on1) =
        disable_peers-is_on n (end_name sg' i) (ends i) (λ j l. ok.0 i j lt l) from net below in
      let (net2, run2, on2) =
        disable_peers-is_on n (λ j. end_name sg' j i) (λ j. ends j i) (λ j l. ok.0 j i l lt) from
          net1 below in
      (
        sg',
        net2,
        rw (disconnect, mark-some sg i false ok lt, run1, run2) refl,
        ((ok.0, length-set sg.connected i false ∙ ok.1)),
        (λ x. is_marked-set sg i x false ok lt),
        λ x y lx ly.
            on2 (ends x y)
            ∙ rw
                (
                  on1 (ends x y),
                  cut-from i x y from lt lx ly below,
                  cut-to i x y from lt lx ly below,
                )
                (two_cuts (is_on net (ends x y)) (nat_eqb i x && member y from)
                  (nat_eqb i y && member x from)),
      )

  pub connect-is_on :
      (sg : ServerGrp) (net : Network) (i : ℕ) (to : List ℕ)
      → IsGroup sg
      → i < n
      → AllBelow n to
      → (sg' : ServerGrp) × (net' : Network) × (connect sg net i to ≡ some (sg', net'))
        × IsGroup sg'
        × ((x : ℕ) → is_marked sg' x ≡ (if nat_eqb i x then true else is_marked sg x))
        × ((x y : ℕ)
            → x < n
            → y < n
            → is_on net' (ends x y) ≡ (is_on net (ends x y) || joined (is_marked sg') i to x y))
  unfolding connect
  connect-is_on sg net i to ok lt below =
      let next = set sg.connected i true in
      let len : length next ≡ n = length-set sg.connected i true ∙ ok.1 in
      let sg' = record sg { connected = next } in
      let (net1, run1, on1) =
        enable_peers-is_on n next len (end_name sg' i) (ends i) (λ j l. ok.0 i j lt l) to net
          below in
      let (net2, run2, on2) =
        enable_peers-is_on n next len (λ j. end_name sg' j i) (λ j. ends j i) (λ j l. ok.0 j i l lt)
          to net1 below in
      let c = is_marked sg' in
      (
        sg',
        net2,
        rw (connect, mark-some sg i true ok lt, run1, run2) refl,
        (ok.0, len),
        (λ x. is_marked-set sg i x true ok lt),
        λ x y lx ly.
            on2 (ends x y)
            ∙ rw
                (
                  on1 (ends x y),
                  touched-from c i x y to lt lx ly below,
                  touched-to c i x y to lt lx ly below,
                )
                (two_joins (is_on net (ends x y)) (nat_eqb i x && (member y to && c y))
                  (nat_eqb i y && (member x to && c x))),
      )
