-- ===== src/Tester/Partition.antt =====
-- What Partition of tester1/group.go leaves of the ends between the servers of a group.
use mit.Prelude.{
  ℕ, ◌<◌, ◌≡◌, refl, ap, ◌∙◌, arith, true, false, ◌&&◌, ◌||◌, not, some, List, [], ◌∷◌, nat_eqb,
  nat_eqb_iff, member, Bool-cases, inl, inr,
}
use mit.Net.{Network}
use mit.Tester.{ServerGrp, connect, disconnect, separate, partition}
use mit.Tester.Loops.{is_on, is_marked, AllBelow}
use mit.Tester.Ends.{IsGroup, cut, joined, connect-is_on, disconnect-is_on}
use mit.Tester.Parts.{
  across, within, IsDisjoint, in_part, joined-across, cut-across, cut-within, off, stays, head_or,
  head_two, or_left, or_right, left_or, and-swap, and-left, and-right, only-head, within-left, both,
  singles, joined-left, joined-right, IsDisjoint-sym, across-sym, within-sym, across-or, other,
}

module _ (n : ℕ) (ends : ℕ → ℕ → ℕ)
    (apart : (i j a b : ℕ)
      → i < n
      → j < n
      → a < n
      → b < n
      → ends i j ≡ ends a b
      → (i ≡ a) × (j ≡ b)) where
  -- What a run of Partition over the servers `is` of the part `p` guarantees: a mark stays and is
  -- set for each of `is`; the ends across that were off, or are of one of `is`, are off; the ends
  -- within a part that were on stay on; and those between one of `is` and a marked server of `p`,
  -- or one that is marked by the run, are on.
  abbrev Separated : List ℕ → List ℕ → List ℕ → ServerGrp → Network → ServerGrp → Network → Type 0
  Separated p q is sg net sg' net' =
      ((x : ℕ) → (member x is || is_marked sg x) ≡ true → is_marked sg' x ≡ true)
      × ((x y : ℕ)
          → x < n
          → y < n
          → across p q x y ≡ true
          → ((member x is || member y is) || not (is_on net (ends x y))) ≡ true
          → is_on net' (ends x y) ≡ false)
      × ((x y : ℕ)
          → x < n
          → y < n
          → within p q x y ≡ true
          → is_on net (ends x y) ≡ true
          → is_on net' (ends x y) ≡ true)
      × ((x y : ℕ)
          → x < n
          → y < n
          → member x is ≡ true
          → member y p ≡ true
          → (member y is || is_marked sg y) ≡ true
          → (is_on net' (ends x y) && is_on net' (ends y x)) ≡ true)

  module _ (p q : List ℕ) (disjoint : IsDisjoint p q) (below_p : AllBelow n p)
      (below_q : AllBelow n q) where
    -- One turn of the loop.
    turn-Separated :
        (i : ℕ) (sg : ServerGrp) (net : Network)
        → member i p ≡ true
        → i < n
        → IsGroup n ends apart sg
        → (sg1 : ServerGrp) × (net1 : Network) × (sg2 : ServerGrp) × (net2 : Network) × (disconnect
              sg net i q
            ≡ some (sg1, net1))
          × (connect sg1 net1 i p ≡ some (sg2, net2))
          × IsGroup n ends apart sg2
          × Separated p q (i ∷ []) sg net sg2 net2
    turn-Separated i sg net here lt ok =
        let (sg1, net1, run1, ok1, marks1, on1) =
          disconnect-is_on n ends apart sg net i q ok lt below_q in
        let (sg2, net2, run2, ok2, marks2, on2) =
          connect-is_on n ends apart sg1 net1 i p ok1 lt below_p in
        let on : (x y : ℕ)
            → x < n
            → y < n
            → is_on net2 (ends x y)
              ≡ ((is_on net (ends x y) && not (cut i q x y)) || joined (is_marked sg2) i p x y) =
          λ x y lx ly.
            on2 x y lx ly ∙ ap (λ b. b || joined (is_marked sg2) i p x y) (on1 x y lx ly) in
        let marks : (x : ℕ)
            → (member x (i ∷ []) || is_marked sg x) ≡ true
            → is_marked sg2 x ≡ true =
          λ x h. ground (arith, marks1 x, marks2 x) in
        (
          sg1,
          net1,
          sg2,
          net2,
          run1,
          run2,
          ok2,
          (
            marks,
            (λ x y lx ly a h.
                on x y lx ly
                ∙ off (is_on net (ends x y)) (cut i q x y) _
                    (member x (i ∷ []) || member y (i ∷ []))
                    (joined-across p q disjoint i here (is_marked sg2) x y a)
                    (λ k. cut-across p q disjoint i here x y a (singles i x y k)) h),
            (λ x y lx ly w h.
                on x y lx ly
                ∙ stays (is_on net (ends x y)) (cut i q x y) (joined (is_marked sg2) i p x y)
                    (cut-within p q disjoint i here x y w) h),
            (λ x y lx ly hx hy h.
                both
                  (on x y lx ly
                    ∙ or_right _ (joined-left (is_marked sg2) i p x y hx hy (marks y h)))
                  (on y x ly lx
                    ∙ or_right _ (joined-right (is_marked sg2) i p x y hx hy (marks y h)))),
          ),
        )

    separate-cons :
        (i : ℕ) (is : List ℕ) (sg sg1 sg2 : ServerGrp) (net net1 net2 : Network)
        → disconnect sg net i q ≡ some (sg1, net1)
        → connect sg1 net1 i p ≡ some (sg2, net2)
        → separate p q (i ∷ is) sg net ≡ separate p q is sg2 net2
    separate-cons i is sg sg1 sg2 net net1 net2 h k = rw (separate, h, k) refl

    -- Turns one after another.
    Separated-cons :
        (i : ℕ) (is : List ℕ) (sg sg2 sg' : ServerGrp) (net net2 net' : Network)
        → member i p ≡ true
        → ((x : ℕ) → member x is ≡ true → member x p ≡ true)
        → Separated p q (i ∷ []) sg net sg2 net2
        → Separated p q is sg2 net2 sg' net'
        → Separated p q (i ∷ is) sg net sg' net'
    Separated-cons i is sg sg2 sg' net net2 net' here inside (m1, a1, t1, j1) (m2, a2, t2, j2) = (
      (λ x h. elim (Bool-cases (member x is)) [
        | inl y ↦ m2 x (or_left (is_marked sg2 x) y)
        | inr z ↦ m2 x (
            or_right (member x is)
              (m1 x (head_or (nat_eqb i x) (member x is) (is_marked sg x) h z)))
      ]),
      (λ x y lx ly a h. elim (Bool-cases (member x is || member y is)) [
        | inl k ↦ a2 x y lx ly a (or_left (not (is_on net2 (ends x y))) k)
        | inr k ↦
            let was : is_on net2 (ends x y) ≡ false = a1 x y lx ly a (
              head_two (nat_eqb i x) (member x is) (nat_eqb i y) (member y is)
                (not (is_on net (ends x y))) h k) in
            a2 x y lx ly a (or_right (member x is || member y is) (ap not was))
      ]),
      (λ x y lx ly w h. t2 x y lx ly w (t1 x y lx ly w h)),
      (λ x y lx ly hx hy h. elim (Bool-cases (member x is)) [
        | inl k ↦ j2 x y lx ly k hy (elim (Bool-cases (member y is)) [
          | inl l ↦ or_left (is_marked sg2 y) l
          | inr l ↦
              or_right (member y is)
                (m1 y (head_or (nat_eqb i y) (member y is) (is_marked sg y) h l))
        ])
        | inr k ↦
            let first : member x (i ∷ []) ≡ true = left_or (nat_eqb i x) (member x is) hx k in
            let in_p : member x p ≡ true = in_part p q disjoint i here x (only-head i x first) in
            elim (Bool-cases (member y is)) [
              | inl l ↦ and-swap (is_on net' (ends y x)) (is_on net' (ends x y)) (
                  j2 y x ly lx l in_p
                    (or_right (member x is) (m1 x (or_left (is_marked sg x) first))))
              | inr l ↦
                  let both_on =
                    j1 x y lx ly first hy
                      (head_or (nat_eqb i y) (member y is) (is_marked sg y) h l) in
                  both
                    (t2 x y lx ly (within-left p q x y in_p hy)
                      (and-left (is_on net2 (ends x y)) (is_on net2 (ends y x)) both_on))
                    (t2 y x ly lx (within-left p q y x hy in_p)
                      (and-right (is_on net2 (ends x y)) (is_on net2 (ends y x)) both_on))
            ]
      ]),
    )

    separate-Separated :
        (is : List ℕ) (sg : ServerGrp) (net : Network)
        → AllBelow n is
        → ((x : ℕ) → member x is ≡ true → member x p ≡ true)
        → IsGroup n ends apart sg
        → (sg' : ServerGrp) × (net' : Network) × (separate p q is sg net ≡ some (sg', net'))
          × IsGroup n ends apart sg'
          × Separated p q is sg net sg' net'
    separate-Separated [] sg net below inside ok = (
      sg,
      net,
      refl,
      ok,
      ((λ x h. h), (λ x y lx ly a h. ground arith), (λ x y lx ly w h. h), λ x y lx ly hx hy h. cc),
    )
    separate-Separated (i ∷ is) sg net below inside ok =
        let here : member i p ≡ true =
          inside i (or_left (member i is) ((nat_eqb_iff i i).1 refl)) in
        let rest : (x : ℕ) → member x is ≡ true → member x p ≡ true =
          λ x h. inside x (or_right (nat_eqb i x) h) in
        let (sg1, net1, sg2, net2, run1, run2, ok2, turn) =
          turn-Separated i sg net here below.0 ok in
        let (sg', net', run, ok', later) = separate-Separated is sg2 net2 below.1 rest ok2 in
        (
          sg',
          net',
          separate-cons i is sg sg1 sg2 net net1 net2 run1 run2 ∙ run,
          ok',
          Separated-cons i is sg sg2 sg' net net2 net' here rest turn later,
        )

  -- Partition of a group into two parts without a common server ends, and then every end between
  -- servers of different parts is disabled and every end between servers of one part is enabled,
  -- whatever was connected before: if each end has a name of its own and the parts have only
  -- servers of the group.
  pub partition-is_on :
      (sg : ServerGrp) (net : Network) (p1 p2 : List ℕ)
      → IsGroup n ends apart sg
      → AllBelow n p1
      → AllBelow n p2
      → IsDisjoint p1 p2
      → (sg' : ServerGrp) × (net' : Network) × (partition sg net p1 p2 ≡ some (sg', net'))
        × ((x y : ℕ) → x < n → y < n → across p1 p2 x y ≡ true → is_on net' (ends x y) ≡ false)
        × ((x y : ℕ) → x < n → y < n → within p1 p2 x y ≡ true → is_on net' (ends x y) ≡ true)
  unfolding partition
  partition-is_on sg net p1 p2 ok below1 below2 disjoint =
      let back : IsDisjoint p2 p1 = IsDisjoint-sym p1 p2 disjoint in
      let (sg1, net1, run1, ok1, (m1, a1, t1, j1)) =
        separate-Separated p1 p2 disjoint below1 below2 p1 sg net below1 (λ x h. h) ok in
      let (sg2, net2, run2, ok2, (m2, a2, t2, j2)) =
        separate-Separated p2 p1 back below2 below1 p2 sg1 net1 below2 (λ x h. h) ok1 in
      (
        sg2,
        net2,
        rw (partition, run1, run2) refl,
        (λ x y lx ly a. a2 x y lx ly (across-sym p1 p2 x y a) (
            or_right (member x p2 || member y p2) (
              ap not
                (a1 x y lx ly a (or_left (not (is_on net (ends x y))) (across-or p1 p2 x y a)))))),
        λ x y lx ly w. elim (Bool-cases (member x p1 && member y p1)) [
          | inl k ↦ t2 x y lx ly (within-sym p1 p2 x y w) (
              and-left (is_on net1 (ends x y)) (is_on net1 (ends y x)) (
                j1 x y lx ly (and-left (member x p1) (member y p1) k)
                  (and-right (member x p1) (member y p1) k)
                  (or_left (is_marked sg y) (and-right (member x p1) (member y p1) k))))
          | inr k ↦
              let l : (member x p2 && member y p2) ≡ true =
                other (member x p1 && member y p1) (member x p2 && member y p2) w k in
              and-left (is_on net2 (ends x y)) (is_on net2 (ends y x)) (
                j2 x y lx ly (and-left (member x p2) (member y p2) l)
                  (and-right (member x p2) (member y p2) l)
                  (or_left (is_marked sg1 y) (and-right (member x p2) (member y p2) l)))
        ],
      )
