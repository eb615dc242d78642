-- ===== src/Demux/Moves.antt =====
-- tester1/demux: what the map, the reader and a caller do together to the owners of the tags.
use mit.Prelude.{
  ℕ, ◌≡◌, refl, sym, ap, ◌∙◌, subst, Bool, true, false, Option, none, some, List, [], ◌∷◌, inl, inr,
  arith, nat_eqb, nat_eqb_iff, nat_eq, lookup, lookup-delete, delete, keys, member, IsDistinct,
  delete-IsDistinct, Bool-cases, update, update-all,
}
use mathlib.Core.Option.{some-injective}
use mit.Demux.{Reply, Reader, reading, closing, listing, returned, fatal, draining, sending, sent}
use mit.Demux.System.{Caller, answered}
use mit.Demux.Owners.{Hands, Mode, IsOwn, Handed, Answered, Owners}

abbrev pub is_sending : Reader → Bool
is_sending (sending _ _ _ _) = true
is_sending _ = false

Hands-no : (rd : Reader) (t c : ℕ) → is_sending rd ≡ false → ¬ Hands rd t c
Hands-no (sending _ _ _ _) t c n h = cc
Hands-no reading t c n h = h
Hands-no closing t c n h = h
Hands-no listing t c n h = h
Hands-no returned t c n h = h
Hands-no fatal t c n h = h
Hands-no (draining _) t c n h = h

delete-absent : (t : ℕ) (m : List (ℕ × ℕ)) → member t (keys m) ≡ false → delete t m ≡ m
unfolding delete
delete-absent t [] h = refl
delete-absent t ((k, v) ∷ m) h = ground (arith, delete-absent t m)

-- The first key of a map with distinct keys.
pub keys-head :
    (t : ℕ) (ts : List ℕ) (m : List (ℕ × ℕ))
    → IsDistinct (keys m)
    → keys m ≡ t ∷ ts
    → ((c : ℕ) × (lookup t m ≡ some c)) × (keys (delete t m) ≡ ts)
unfolding lookup delete
keys-head t ts [] d e = cc
keys-head t ts ((k, v) ∷ m) d e =
    let same : k ≡ t = cc in
    let rest : keys m ≡ ts = cc in
    rw ((nat_eqb_iff k t).1 same) (
      (v, refl),
      ap keys (delete-absent t m (subst (λ j. member j (keys m) ≡ false) same d.0)) ∙ rest,
    )

sent-Mode :
    (closed : Bool) (calls : List (ℕ × ℕ)) (t c : ℕ) (r : Reply) (left : Option (List ℕ))
    → Mode (sending t c r left) closed calls
    → Mode (sent left) closed calls
sent-Mode closed calls t c r none m = tt
sent-Mode closed calls t c r (some ts) m = m

sent-is_sending : (left : Option (List ℕ)) → is_sending (sent left) ≡ false
sent-is_sending none = refl
sent-is_sending (some ts) = refl

module _ (req : ℕ → List ℕ) (Serves : List ℕ → List ℕ → Bool → Type 0) (calls : List (ℕ × ℕ))
    (callers : ℕ → Caller) where
  Handed-no : (rd' : Reader) → is_sending rd' ≡ false → Handed req Serves calls callers rd'
  Handed-no (sending _ _ _ _) n = cc
  Handed-no reading n = tt
  Handed-no closing n = tt
  Handed-no listing n = tt
  Handed-no returned n = tt
  Handed-no fatal n = tt
  Handed-no (draining _) n = tt

module _ (req : ℕ → List ℕ) (Serves : List ℕ → List ℕ → Bool → Type 0) {closed : Bool}
    {calls : List (ℕ × ℕ)} {callers : ℕ → Caller} {rd : Reader}
    (o : Owners req Serves closed calls callers rd) where
  -- The reader goes on without a reply, and the map may be closed.
  pub Owners-reader :
      (rd' : Reader) (closed' : Bool)
      → is_sending rd ≡ false
      → is_sending rd' ≡ false
      → Mode rd' closed' calls
      → Owners req Serves closed' calls callers rd'
  Owners-reader rd' closed' n n' m = record {
    owned = o.owned;
    waits = λ c t h. elim (o.waits c t h) [ inl a ↦ inl a | inr b ↦ absurd (Hands-no rd t c n b) ];
    handed = Handed-no req Serves calls callers rd' n';
    own = o.own;
    distinct = o.distinct;
    mode = m;
  }

  Mode-close : (r : Reader) → Mode r closed calls → Mode r true calls
  Mode-close reading m = tt
  Mode-close closing m = tt
  Mode-close listing m = refl
  Mode-close (draining ts) m = (refl, m.1)
  Mode-close (sending _ _ _ none) m = tt
  Mode-close (sending _ _ _ (some ts)) m = (refl, m.1)
  Mode-close returned m = (refl, m.1)
  Mode-close fatal m = m

  pub Owners-close : Owners req Serves true calls callers rd
  Owners-close = record {
    owned = o.owned;
    waits = o.waits;
    handed = o.handed;
    own = o.own;
    distinct = o.distinct;
    mode = Mode-close rd o.mode;
  }

  -- A reply for a tag in the map, after which the reader has `left` to fail.
  pub Owners-reply :
      (t c : ℕ) (r : Reply) (left : Option (List ℕ))
      → lookup t calls ≡ some c
      → is_sending rd ≡ false
      → IsOwn req Serves c r
      → Mode (sending t c r left) closed (delete t calls)
      → Owners req Serves closed (delete t calls) callers (sending t c r left)
  Owners-reply t c r left at n good m = record {
    owned = λ u d h. o.owned u d (ground (arith, lookup-delete t u calls));
    waits = λ d u h. elim (o.waits d u h) [
      | inl found ↦ elim (Bool-cases (nat_eqb t u)) [
        | inl y ↦
            let same : t ≡ u = (nat_eqb_iff t u).0 y in
            inr (
              same,
              some-injective c d (sym at ∙ subst (λ v. lookup v calls ≡ some d) (sym same) found),
            )
        | inr no_match ↦ inl (lookup-delete t u calls ∙ rw no_match found)
      ]
      | inr b ↦ absurd (Hands-no rd u d n b)
    ];
    handed = (o.owned t c at, ground (arith, lookup-delete t t calls, nat_eqb_iff t t), good);
    own = o.own;
    distinct = delete-IsDistinct calls t o.distinct;
    mode = m;
  }

module _ (req : ℕ → List ℕ) (Serves : List ℕ → List ℕ → Bool → Type 0) {closed : Bool}
    {calls : List (ℕ × ℕ)} {callers : ℕ → Caller} where
  -- The caller takes the reply that is sent to it.
  pub Owners-hand :
      (t c : ℕ) (r : Reply) (left : Option (List ℕ))
      → Owners req Serves closed calls callers (sending t c r left)
      → Owners req Serves closed calls (update callers c (answered r)) (sent left)
  Owners-hand t c r left o =
      let (aw, no_call, good) = o.handed in
      let none_for : (u : ℕ) → ¬ (lookup u calls ≡ some c) = λ u h. cc (
        subst (λ v. lookup v calls ≡ none) (some-injective t u (sym aw ∙ o.owned u c h)) no_call,
        h,
      ) in
      record {
        owned = λ u d h. elim (Bool-cases (nat_eqb c d)) [
          | inl y ↦ absurd (none_for u (h ∙ ap some (sym ((nat_eqb_iff c d).0 y))))
          | inr n ↦ rw n (o.owned u d h)
        ];
        waits = λ d u h. elim (Bool-cases (nat_eqb c d)) [
          | inl y ↦ let no_wait : none ≡ some u = rw y at h in cc
          | inr n ↦ elim (o.waits d u (rw n at h)) [
            | inl found ↦ inl found
            | inr (_, same) ↦ cc (n, (nat_eqb_iff c d).1 same)
          ]
        ];
        handed =
            Handed-no req Serves calls (update callers c (answered r)) (sent left)
              (sent-is_sending left);
        own = update-all (Answered req Serves) callers c (answered r) good (λ j _. o.own j);
        distinct = o.distinct;
        mode = sent-Mode closed calls t c r left o.mode;
      }
