-- ===== src/Demux/Puts.antt =====
-- tester1/demux: what a put in the map does to the owners of the tags.
use mit.Prelude.{
  ℕ, ◌≡◌, ◌≢◌, sym, ap, ◌∙◌, subst, Bool, false, none, some, List, inl, inr, arith, nat_eqb,
  nat_eqb_iff, nat_eq, lookup-insert, insert, insert-IsDistinct, insert-cases, Bool-cases, update,
  update-all,
}
use mathlib.Core.Option.{some-injective}
use mit.Demux.{Reader, reading, closing, listing, returned, fatal, draining, sending}
use mit.Demux.System.{Caller, tagged, queued}
use mit.Demux.Owners.{awaited, Mode, Handed, Answered, Owners}

module _ (req : ℕ → List ℕ) (Serves : List ℕ → List ℕ → Bool → Type 0) {closed : Bool}
    {calls : List (ℕ × ℕ)} {callers : ℕ → Caller} {rd : Reader}
    (o : Owners req Serves closed calls callers rd) where
  module _ (c t : ℕ) (is : callers c ≡ tagged t)
      (fresh : (d : ℕ) → ¬ (awaited (callers d) ≡ some t)) where
    not_c : (d u : ℕ) → awaited (callers d) ≡ some u → c ≢ d
    not_c d u h e = cc (ap awaited is, subst (λ j. awaited (callers j) ≡ some u) (sym e) h)

    others : (d : ℕ) → c ≢ d → update callers c (queued t) d ≡ callers d
    others d ne = ground (arith, nat_eqb_iff c d)

    Handed-put :
        (r : Reader)
        → Handed req Serves calls callers r
        → Handed req Serves (insert t c calls) (update callers c (queued t)) r
    Handed-put (sending u d r left) (a, no_call, good) = (
      ap awaited (others d (not_c d u a)) ∙ a,
      lookup-insert t u c calls ∙ ground (arith, fresh d, nat_eqb_iff t u),
      good,
    )
    Handed-put reading h = tt
    Handed-put closing h = tt
    Handed-put listing h = tt
    Handed-put returned h = tt
    Handed-put fatal h = tt
    Handed-put (draining _) h = tt

    Mode-open :
        closed ≡ false → (r : Reader) → Mode r closed calls → Mode r closed (insert t c calls)
    Mode-open no_close reading m = tt
    Mode-open no_close closing m = tt
    Mode-open no_close listing m = m
    Mode-open no_close (draining ts) m = cc
    Mode-open no_close (sending _ _ _ none) m = tt
    Mode-open no_close (sending _ _ _ (some ts)) m = cc
    Mode-open no_close returned m = cc
    Mode-open no_close fatal m = m

    -- A put in an open map of a tag that nobody waits for.
    pub Owners-put :
        closed ≡ false
        → Owners req Serves closed (insert t c calls) (update callers c (queued t)) rd
    Owners-put no_close = record {
      owned = λ u d h. elim (insert-cases t u c d calls h) [
        | inl (same_tag, same) ↦ rw ((nat_eqb_iff c d).1 (sym same)) (ap some (sym same_tag))
        | inr found ↦ ap awaited (others d (not_c d u (o.owned u d found))) ∙ o.owned u d found
      ];
      waits = λ d u h. elim (Bool-cases (nat_eqb c d)) [
        | inl y ↦
            let same_tag : t ≡ u = some-injective t u (rw y at h) in
            inl (
              lookup-insert t u c calls
              ∙ rw ((nat_eqb_iff t u).1 same_tag) (ap some ((nat_eqb_iff c d).0 y)))
        | inr n ↦
            let before : awaited (callers d) ≡ some u = rw n at h in
            elim (o.waits d u before) [
              | inl found ↦ inl (
                  lookup-insert t u c calls
                  ∙ ground (arith, fresh d, nat_eqb_iff t u, before, found))
              | inr b ↦ inr b
            ]
      ];
      handed = Handed-put rd o.handed;
      own = update-all (Answered req Serves) callers c (queued t) tt (λ j _. o.own j);
      distinct = insert-IsDistinct calls t c o.distinct;
      mode = Mode-open no_close rd o.mode;
    }
