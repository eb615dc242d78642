-- ===== src/Demux/Arrival.antt =====
-- tester1/demux/transport.go: what a reader gets of a connection that breaks.
use mit.Prelude.{
  ℕ, suc, ◌+◌, ◌-◌, ◌%◌, ◌^◌, ◌≤◌, ◌<◌, ◌≡◌, refl, sym, ap, ◌∙◌, subst, Bool, true, false, inl, inr,
  ◌⊎◌, List, [], ◌∷◌, ◌++◌, length, take, leb, leb→le, Bool-cases, arith, if◌then◌else◌, append-nil,
}
use mathlib.Core.List.{append_assoc}
use mit.Demux.Transport.{
  Msg, Writer, little_endian, IoErr, eof, write_call, read_call, write_calls, noted, ended_by,
  then_read, read_on, read_calls,
}
use mit.Demux.Framing.{frame, take-within, take-beyond, read_call-frame, read_call-cut}

abbrev open_writer : List ℕ → ℕ → Writer
open_writer bs left = record { sent = bs; left = left; is_broken = false }

abbrev broken : List ℕ → Writer
broken bs = record { sent = bs; left = 0; is_broken = true }

module _ (marshall : Msg → List ℕ) where
  abbrev pub frame_size : Msg → ℕ
  frame_size m = length (marshall m) + 4

  -- Every message has a length of 32 bits.
  abbrev pub AllShort : List Msg → Type 0
  AllShort [] = Unit
  AllShort (m ∷ ms) = (length (marshall m) < 2 ^ 32) × AllShort ms

  -- The messages that fit, whole and in order, in `left` bytes.
  abbrev pub fitting : ℕ → List Msg → List Msg
  fitting left [] = []
  fitting left (m ∷ ms) =
      let rest = fitting (left - frame_size m) ms in
      if leb (frame_size m) left then m ∷ rest else []

module _ (marshall : Msg → List ℕ) (unmarshall : List ℕ → Msg)
    (back : (m : Msg) → unmarshall (marshall m) ≡ m) where
  -- A WriteCall passes on the whole message, or breaks in the middle of it.
  write_call-cases :
      (m : Msg) (bs : List ℕ) (left : ℕ)
      → ((frame_size marshall m ≤ left)
          × (write_call marshall m (open_writer bs left)
              ≡ (true, open_writer (bs ++ frame marshall m) (left - frame_size marshall m))))
        ⊎ ((left < frame_size marshall m)
            × (write_call marshall m (open_writer bs left)
                ≡ (false, broken (bs ++ take left (frame marshall m)))))
  unfolding write_call
  write_call-cases m bs left =
      let b = marshall m in
      let head = little_endian (length b % 2 ^ 32) in
      elim (Bool-cases (leb 4 left)) [
        | inl y ↦
            let ge : 4 ≤ left = leb→le 4 left y in
            elim (Bool-cases (leb (length b) (left - 4))) [
              | inl z ↦
                  let left_is : left - 4 - length b ≡ left - frame_size marshall m = omega arith in
                  inl (
                    omega (arith, leb→le (length b) (left - 4) z),
                    rw (y, z)
                        (ap (λ xs. (true, open_writer xs (left - 4 - length b)))
                            (append_assoc bs head b)
                          ∙ ap (λ l. (true, open_writer (bs ++ frame marshall m) l)) left_is),
                  )
              | inr n ↦ inr (
                ground arith,
                rw (y, n)
                    (ap (λ xs. (false, broken xs))
                      (append_assoc bs head (take (left - 4) b)
                        ∙ ap (◌++◌ bs) (sym (take-beyond left head b ge)))),
              )
            ]
        | inr n ↦ inr (
          ground arith,
          rw n (
              ap (λ xs. (false, broken (bs ++ xs))) (sym (take-within left head b (ground arith)))),
        )
      ]

  broken-ends :
      (ms : List Msg) (bs : List ℕ) → write_calls marshall ms (broken bs) ≡ ([], broken bs)
  unfolding write_calls write_call
  broken-ends [] bs = refl
  broken-ends (m ∷ ms) bs = ap (noted m false) (broken-ends ms bs)

  -- The outcome of the calls of WriteCall and of the reader, behind what was sent before.
  abbrev Arrived : List Msg → List ℕ → List Msg × Writer → List Msg → Type 0
  Arrived ms bs written fits =
      (tail : List ℕ) × (e : IoErr) × (written.0 ≡ fits)
      × (written.1.sent ≡ bs ++ tail)
      × (read_calls unmarshall (suc (length ms)) tail ≡ ended_by fits e)

  arrive :
      (ms : List Msg) (bs : List ℕ) (left : ℕ)
      → AllShort marshall ms
      → Arrived ms bs (write_calls marshall ms (open_writer bs left)) (fitting marshall left ms)
  unfolding write_calls read_calls read_call
  arrive [] bs left h = ([], eof, refl, sym (append-nil bs), refl)
  arrive (m ∷ ms) bs left (h, hs) =
      let after : Bool × Writer → List Msg × Writer =
        λ r. noted m r.0 (write_calls marshall ms r.1) in
      elim (write_call-cases m bs left) [
        | inl (fits, eq) ↦
            let y : leb (frame_size marshall m) left ≡ true = ground arith in
            let (tail, e, done, sent_is, read_is) =
              arrive ms (bs ++ frame marshall m) (left - frame_size marshall m) hs in
            subst (Arrived (m ∷ ms) bs (after (write_call marshall m (open_writer bs left))))
              (rw y refl)
              (
                frame marshall m ++ tail,
                e,
                ap (λ r. (after r).0) eq ∙ ap (◌∷◌ m) done,
                ap (λ r. (after r).1.sent) eq ∙ sent_is ∙ append_assoc bs (frame marshall m) tail,
                ap (read_on (read_calls unmarshall (suc (length ms))))
                      (read_call-frame marshall unmarshall back m tail h)
                    ∙ ap (then_read m) read_is,
              )
        | inr (short, eq) ↦
            let n : leb (frame_size marshall m) left ≡ false = ground arith in
            let ends = broken-ends ms (bs ++ take left (frame marshall m)) in
            let (e, cut) = read_call-cut marshall unmarshall back m left h (omega arith) in
            subst (Arrived (m ∷ ms) bs (after (write_call marshall m (open_writer bs left))))
              (rw n refl)
              (
                take left (frame marshall m),
                e,
                ap (λ r. (after r).0) eq ∙ ap (λ r. (noted m false r).0) ends,
                ap (λ r. (after r).1.sent) eq ∙ ap (λ r. (noted m false r).1.sent) ends,
                ap (read_on (read_calls unmarshall (suc (length ms)))) cut,
              )
      ]

  -- On a connection that takes `left` bytes before it breaks, exactly the calls of WriteCall whose
  -- messages fit have no error, and a reader then reads exactly these messages, in order, and
  -- ends by an error, if each has a length of 32 bits and decoding gives back what was encoded.
  pub frames-arrive :
      (ms : List Msg) (left : ℕ)
      → AllShort marshall ms
      → let written =
          write_calls marshall ms (record { sent = []; left = left; is_broken = false }) in
        (written.0 ≡ fitting marshall left ms)
        × ((e : IoErr) × (read_calls unmarshall (suc (length ms)) written.1.sent
              ≡ ended_by (fitting marshall left ms) e))
  frames-arrive ms left h =
      let (tail, e, done, sent_is, read_is) = arrive ms [] left h in
      (done, (e, ap (read_calls unmarshall (suc (length ms))) sent_is ∙ read_is))
