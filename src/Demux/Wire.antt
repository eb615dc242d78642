-- ===== src/Demux/Wire.antt =====
-- tester1/demux: the messages under way while the client's reader reads, and their tags.
use mathlib.Core.Option.{some-injective}
use mit.Prelude.{
  ℕ, ◌+◌, ◌≤◌, ◌≡◌, ◌≢◌, refl, sym, ap, ◌∙◌, subst, Bool, true, false, none, some, List, [], ◌∷◌,
  ◌++◌, inl, inr, arith, nat_eqb, nat_eqb_iff, nat_eq, lookup, insert, update, update-all,
  Bool-cases, if◌then◌else◌,
}
use mit.Demux.{Reply, Reader, reading, closing, listing, returned, fatal, draining, sending}
use mit.Demux.System.{Caller, queued, waiting, under_way}
use mit.Demux.Tokens.{count_tag, count_tag-append, Known, Known-append, Known-insert, Known-free}
use mit.Demux.Owners.{awaited, Hands, is_live, Owners}

abbrev pub Sent : (ℕ → List ℕ) → ℕ → List ℕ → Type 0
Sent req c b = req c ≡ b

abbrev pub Served : (ℕ → List ℕ) → (List ℕ → List ℕ → Bool → Type 0) → ℕ → Reply → Type 0
Served req Serves c r = (r.is_err ≡ false) × Serves (req c) r.rep r.is_ok

abbrev pub Handing : (ℕ → Caller) → Reader → Type 0
Handing callers (sending t c r none) = callers c ≡ waiting t
Handing callers _ = Unit

abbrev pub total : ℕ → List (ℕ × List ℕ) → List (ℕ × List ℕ) → List (ℕ × Reply) → ℕ
total t requests pending replies = count_tag t requests + count_tag t pending + count_tag t replies

pub Handing-keep :
    (callers : ℕ → Caller) (c : ℕ) (p : Caller)
    → ((t : ℕ) → callers c ≢ waiting t)
    → (r : Reader) → Handing callers r
    → Handing (update callers c p) r
Handing-keep callers c p no_wait (sending t d r none) h = elim (Bool-cases (nat_eqb c d)) [
  | inl y ↦ absurd (no_wait t (subst (λ j. callers j ≡ waiting t) (sym ((nat_eqb_iff c d).0 y)) h))
  | inr n ↦ rw n h
]
Handing-keep callers c p no_wait reading h = tt
Handing-keep callers c p no_wait (sending t d r (some ts)) h = tt
Handing-keep callers c p no_wait closing h = tt
Handing-keep callers c p no_wait listing h = tt
Handing-keep callers c p no_wait returned h = tt
Handing-keep callers c p no_wait fatal h = tt
Handing-keep callers c p no_wait (draining ts) h = tt

module _ (req : ℕ → List ℕ) (Serves : List ℕ → List ℕ → Bool → Type 0) where
  pub record Wire (calls : List (ℕ × ℕ)) (callers : ℕ → Caller) (rd : Reader)
      (requests pending : List (ℕ × List ℕ)) (replies : List (ℕ × Reply)) : Type 0 where
    pub asked : Known (Sent req) calls requests
    pub taken : Known (Sent req) calls pending
    pub given : Known (Served req Serves) calls replies
    pub once : (t : ℕ) → total t requests pending replies ≤ 1
    pub unsent : (c t : ℕ) → callers c ≡ queued t → total t requests pending replies ≡ 0
    pub handing : Handing callers rd

  module _ {closed : Bool} {calls : List (ℕ × ℕ)} {callers : ℕ → Caller} {rd : Reader}
      {requests pending : List (ℕ × List ℕ)} {replies : List (ℕ × Reply)}
      (o : Owners req Serves closed calls callers rd)
      (w : Wire calls callers rd requests pending replies) where
    Hands-waits :
        (r : Reader) (t c : ℕ)
        → is_live r ≡ true
        → Handing callers r
        → Hands r t c
        → callers c ≡ waiting t
    Hands-waits (sending t' c' r none) t c l h (e, e') =
        subst (λ d. callers d ≡ waiting t) e' (h ∙ ap waiting e)
    Hands-waits reading t c l h k = absurd k
    Hands-waits (sending t' c' r (some ts)) t c l h k = cc
    Hands-waits closing t c l h k = absurd k
    Hands-waits listing t c l h k = absurd k
    Hands-waits returned t c l h k = absurd k
    Hands-waits fatal t c l h k = absurd k
    Hands-waits (draining ts) t c l h k = absurd k

    queued-In : is_live rd ≡ true → (c t : ℕ) → callers c ≡ queued t → lookup t calls ≡ some c
    queued-In l c t q = elim (o.waits c t (ap awaited q)) [
      | inl found ↦ found
      | inr hd ↦ cc (q, Hands-waits rd t c l w.handing hd)
    ]

    -- A caller that moves to a state in which it is not queued.
    pub Wire-caller :
        (c : ℕ) (p : Caller) (rd' : Reader)
        → ((t : ℕ) → p ≢ queued t)
        → Handing (update callers c p) rd'
        → Wire calls (update callers c p) rd' requests pending replies
    Wire-caller c p rd' no_queue hd = record {
      asked = w.asked;
      taken = w.taken;
      given = w.given;
      once = w.once;
      unsent =
          update-all (λ d q. (t : ℕ) → q ≡ queued t → total t requests pending replies ≡ 0) callers
            c p (λ t e. absurd (no_queue t e)) (λ d _. w.unsent d);
      handing = hd;
    }

    -- A tag that nobody waits for is put in the map.
    pub Wire-put :
        (c t : ℕ)
        → lookup t calls ≡ none
        → Handing (update callers c (queued t)) rd
        → Wire (insert t c calls) (update callers c (queued t)) rd requests pending replies
    Wire-put c t free hd = record {
      asked = Known-insert (Sent req) calls t c requests free w.asked;
      taken = Known-insert (Sent req) calls t c pending free w.taken;
      given = Known-insert (Served req Serves) calls t c replies free w.given;
      once = w.once;
      unsent =
          update-all (λ d q. (u : ℕ) → q ≡ queued u → total u requests pending replies ≡ 0) callers
            c (queued t)
            (λ u e.
              let same : t ≡ u = cc in
              subst (λ v. total v requests pending replies ≡ 0) same
                (omega (
                  arith,
                  Known-free (Sent req) calls t requests free w.asked,
                  Known-free (Sent req) calls t pending free w.taken,
                  Known-free (Served req Serves) calls t replies free w.given,
                )))
            (λ d _. w.unsent d);
      handing = hd;
    }

    -- A queued caller writes its request.
    pub Wire-write :
        (c t : ℕ) (is_lost : Bool)
        → is_live rd ≡ true
        → callers c ≡ queued t
        → Handing (update callers c (waiting t)) rd
        → Wire calls
            (update callers c (waiting t))
            rd
            (under_way is_lost requests (t, req c))
            pending
            replies
    Wire-write c t true l q hd = Wire-caller c (waiting t) rd (λ u e. cc) hd
    Wire-write c t false l q hd =
        let found = queued-In l c t q in
        let only : (d u : ℕ) → callers d ≡ queued u → c ≢ d → nat_eqb t u ≡ false = λ d u qd ne.
          elim (Bool-cases (nat_eqb t u)) [
            | inl y ↦ absurd (
                ne (
                  some-injective c d (
                    sym found
                    ∙ ap (λ v. lookup v calls) ((nat_eqb_iff t u).0 y)
                    ∙ queued-In l d u qd)))
            | inr n ↦ n
          ] in
        let more : (u : ℕ)
            → total u (requests ++ ((t, req c) ∷ [])) pending replies
              ≡ total u requests pending replies + (if nat_eqb t u then 1 else 0) =
          λ u. omega (arith, count_tag-append u requests ((t, req c) ∷ [])) in
        record {
          asked =
              Known-append (Sent req) calls requests ((t, req c) ∷ []) w.asked
                ((c, found, refl), tt);
          taken = w.taken;
          given = w.given;
          once = λ u. elim (Bool-cases (nat_eqb t u)) [
            | inl y ↦
                let unsent_t : total u requests pending replies ≡ 0 =
                  subst (λ v. total v requests pending replies ≡ 0) ((nat_eqb_iff t u).0 y)
                    (w.unsent c t q) in
                ground (arith, more u, unsent_t)
            | inr n ↦ ground (arith, more u, w.once u)
          ];
          unsent =
              update-all
                (λ d p.
                  (u : ℕ)
                  → p ≡ queued u
                  → total u (requests ++ ((t, req c) ∷ [])) pending replies ≡ 0)
                callers c (waiting t) (λ u e. cc)
                (λ d ne u qd. ground (arith, more u, only d u qd ne, w.unsent d u qd));
          handing = hd;
        }
