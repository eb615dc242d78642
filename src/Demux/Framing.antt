-- ===== src/Demux/Framing.antt =====
-- tester1/demux/transport.go: what ReadCall reads of what WriteCall has written, also where the
-- connection breaks in the middle of a message.
use mit.Prelude.{
  ℕ, zero, suc, ◌-◌, ◌%◌, ◌^◌, ◌≤◌, ◌<◌, ◌≡◌, refl, ap, ◌∙◌, true, inl, inr, List, [], ◌∷◌, ◌++◌,
  length, length-append, length-take, take, drop, ltb, leb, ltb→lt, nat_eqb, nat_eqb_iff,
  Bool-cases, arith,
}
use mit.Demux.Transport.{
  Msg, little_endian, from_little_endian, IoErr, eof, unexpected_eof, full, not_full, read_full,
  got, failed, read_body, read_length, read_call,
}

little_endian-round : (n : ℕ) → n < 2 ^ 32 → from_little_endian (little_endian n) ≡ n
little_endian-round n h = omega arith

module _ {A : Type 0} where
  take-append : (xs ys : List A) → take (length xs) (xs ++ ys) ≡ xs
  take-append [] ys = refl
  take-append (x ∷ xs) ys = ap (◌∷◌ x) (take-append xs ys)

  drop-append : (xs ys : List A) → drop (length xs) (xs ++ ys) ≡ ys
  drop-append [] ys = refl
  drop-append (x ∷ xs) ys = drop-append xs ys

  -- The first `k` of a list, up to or behind a cut.
  pub take-within : (k : ℕ) (xs ys : List A) → k ≤ length xs → take k (xs ++ ys) ≡ take k xs
  take-within zero xs ys h = refl
  take-within (suc k) [] ys h = absurd (omega arith)
  take-within (suc k) (x ∷ xs) ys h = ap (◌∷◌ x) (take-within k xs ys (omega arith))

  pub take-beyond :
      (k : ℕ) (xs ys : List A) → length xs ≤ k → take k (xs ++ ys) ≡ xs ++ take (k - length xs) ys
  take-beyond k [] ys h = ap (λ j. take j ys) (omega arith)
  take-beyond zero (x ∷ xs) ys h = absurd (omega arith)
  take-beyond (suc k) (x ∷ xs) ys h =
      ap (◌∷◌ x) (take-beyond k xs ys (omega arith) ∙ ap (λ j. xs ++ take j ys) (omega arith))

read_full-append : (xs ys : List ℕ) → read_full (length xs) (xs ++ ys) ≡ full xs ys
read_full-append xs ys =
    let fits : leb (length xs) (length (xs ++ ys)) ≡ true = ground (arith, length-append xs ys) in
    rw (fits, take-append xs ys, drop-append xs ys) refl

-- Fewer bytes than are asked for.
read_full-short :
    (n : ℕ) (bs : List ℕ) → length bs < n → (e : IoErr) × (read_full n bs ≡ not_full e)
read_full-short n bs h = elim (Bool-cases (nat_eqb (length bs) 0)) [
  | inl y ↦ (eof, ground arith)
  | inr n ↦ (unexpected_eof, ground arith)
]

abbrev pub frame : (Msg → List ℕ) → Msg → List ℕ
frame marshall m = little_endian (length (marshall m) % 2 ^ 32) ++ marshall m

module _ (marshall : Msg → List ℕ) (unmarshall : List ℕ → Msg)
    (back : (m : Msg) → unmarshall (marshall m) ≡ m) where
  frame-length :
      (m : Msg)
      → length (marshall m) < 2 ^ 32
      → from_little_endian (little_endian (length (marshall m) % 2 ^ 32)) ≡ length (marshall m)
  frame-length m h = little_endian-round (length (marshall m) % 2 ^ 32) (omega arith) ∙ omega arith

  pub read_call-frame :
      (m : Msg) (rest : List ℕ)
      → length (marshall m) < 2 ^ 32
      → read_call unmarshall (frame marshall m ++ rest) ≡ got m rest
  unfolding read_call
  read_call-frame m rest h =
      let b = marshall m in
      ap (read_length unmarshall) (read_full-append (little_endian (length b % 2 ^ 32)) (b ++ rest))
      ∙ ap (λ n. read_body unmarshall n (read_full n (b ++ rest))) (frame-length m h)
      ∙ ap (read_body unmarshall (length b)) (read_full-append b rest)
      ∙ rw ((nat_eqb_iff (length b) (length b)).1 refl) (ap (λ x. got x rest) (back m))

  -- A message of which a part arrives is an error.
  pub read_call-cut :
      (m : Msg) (k : ℕ)
      → length (marshall m) < 2 ^ 32
      → k < length (frame marshall m)
      → (e : IoErr) × (read_call unmarshall (take k (frame marshall m)) ≡ failed e)
  unfolding read_call
  read_call-cut m k h short =
      let b = marshall m in
      let head = little_endian (length b % 2 ^ 32) in
      elim (Bool-cases (ltb k 4)) [
        | inl y ↦
            let (e, eq) =
              read_full-short 4 (take k (frame marshall m))
                (omega (arith, ltb→lt k 4 y, length-take k (frame marshall m))) in
            (e, ap (read_length unmarshall) eq)
        | inr n ↦
            let ge : 4 ≤ k = ground arith in
            let (e, eq) =
              read_full-short (length b) (take (k - 4) b)
                (omega (arith, ge, length-take (k - 4) b)) in
            (
              e,
              ap (λ bs. read_length unmarshall (read_full 4 bs)) (take-beyond k head b ge)
                  ∙ ap (read_length unmarshall) (read_full-append head (take (k - 4) b))
                  ∙ ap (λ j. read_body unmarshall j (read_full j (take (k - 4) b)))
                      (frame-length m h)
                  ∙ ap (read_body unmarshall (length b)) eq,
            )
      ]
