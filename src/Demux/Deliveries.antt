-- ===== src/Demux/Deliveries.antt =====
-- tester1/demux: what the server and the client's reader do to the messages under way.
use mathlib.Core.Option.{some-injective}
use mit.Prelude.{
  ◌⊎◌, ℕ, ◌+◌, ◌≤◌, ◌≡◌, refl, sym, ap, ◌∙◌, subst, Bool, true, false, none, some, List, [], ◌∷◌,
  ◌++◌, inl, inr, arith, nat_eqb, nat_eqb_iff, nat_eq, lookup, delete, if◌then◌else◌,
}
use mit.Demux.{Reply, Reader, sending}
use mit.Demux.System.{Caller, idle, tagged, queued, waiting, answered, answer_of, under_way}
use mit.Demux.Tokens.{
  count_tag, count_tag-append, Known, Known-append, Known-split, Known-at, Known-delete,
}
use mit.Demux.Owners.{awaited, Owners}
use mit.Demux.Wire.{Sent, Served, total, Wire}

under_way-count :
    {B : Type 0} (u : ℕ) (is_lost : Bool) (xs : List (ℕ × B)) (t : ℕ) (b : B)
    → count_tag u (under_way is_lost xs (t, b)) ≤ count_tag u xs + (if nat_eqb t u then 1 else 0)
under_way-count u true xs t b = ground arith
under_way-count u false xs t b = ground (arith, count_tag-append u xs ((t, b) ∷ []))

under_way-Known :
    {B : Type 0} (R : ℕ → B → Type 0) (calls : List (ℕ × ℕ)) (is_lost : Bool) (xs : List (ℕ × B))
    (x : ℕ × B)
    → Known R calls xs
    → (c : ℕ) × (lookup x.0 calls ≡ some c) × R c x.1
    → Known R calls (under_way is_lost xs x)
under_way-Known R calls true xs x h k = h
under_way-Known R calls false xs x h k = Known-append R calls xs (x ∷ []) h (k, tt)

awaited-cases : (p : Caller) (t : ℕ) → awaited p ≡ some t → (p ≡ queued t) ⊎ (p ≡ waiting t)
awaited-cases (queued u) t h = inl (ap queued (some-injective u t h))
awaited-cases (waiting u) t h = inr (ap waiting (some-injective u t h))
awaited-cases idle t h = cc
awaited-cases (tagged u) t h = cc
awaited-cases (answered r) t h = cc

module _ (req : ℕ → List ℕ) (Serves : List ℕ → List ℕ → Bool → Type 0) {calls : List (ℕ × ℕ)}
    {callers : ℕ → Caller} {rd : Reader} {requests pending : List (ℕ × List ℕ)}
    {replies : List (ℕ × Reply)}
    (w : Wire req Serves calls callers rd requests pending replies) where
  pub Wire-read_request :
      (x : ℕ × List ℕ) (rest : List (ℕ × List ℕ))
      → requests ≡ x ∷ rest
      → Wire req Serves calls callers rd rest (x ∷ pending) replies
  Wire-read_request x rest e =
      let known : Known (Sent req) calls (x ∷ rest) = subst (Known (Sent req) calls) e w.asked in
      let moved : (t : ℕ) → total t requests pending replies ≡ total t rest (x ∷ pending) replies =
        λ t. ap (λ xs. total t xs pending replies) e ∙ omega arith in
      record {
        asked = known.1;
        taken = (known.0, w.taken);
        given = w.given;
        once = λ t. omega (arith, w.once t, moved t);
        unsent = λ c t q. sym (moved t) ∙ w.unsent c t q;
        handing = w.handing;
      }

  -- The server answers one of the requests that it serves.
  pub Wire-serve :
      (t : ℕ) (b rep : List ℕ) (is_ok is_lost : Bool) (before after : List (ℕ × List ℕ))
      → pending ≡ before ++ ((t, b) ∷ after)
      → Serves b rep is_ok
      → Wire req Serves calls callers rd requests
          (before ++ after)
          (under_way is_lost replies (t, answer_of rep is_ok))
  Wire-serve t b rep is_ok is_lost before after e served =
      let known : Known (Sent req) calls (before ++ ((t, b) ∷ after)) =
        subst (Known (Sent req) calls) e w.taken in
      let (c, at, is) = Known-at (Sent req) calls before t b after known in
      let reply : Served req Serves c (answer_of rep is_ok) =
        (refl, subst (λ x. Serves x rep is_ok) (sym is) served) in
      let more : (u : ℕ)
          → total u requests (before ++ after) (under_way is_lost replies (t, answer_of rep is_ok))
            ≤ total u requests pending replies =
        λ u.
          let was : count_tag u pending ≡ count_tag u (before ++ ((t, b) ∷ after)) =
            ap (count_tag u) e in
          ground (
            arith,
            was,
            count_tag-append u before ((t, b) ∷ after),
            count_tag-append u before after,
            under_way-count u is_lost replies t (answer_of rep is_ok),
          ) in
      record {
        asked = w.asked;
        taken = Known-split (Sent req) calls before (t, b) after known;
        given =
            under_way-Known (Served req Serves) calls is_lost replies (t, answer_of rep is_ok)
              w.given (c, at, reply);
        once = λ u. omega (arith, more u, w.once u);
        unsent = λ d u q. omega (arith, more u, w.unsent d u q);
        handing = w.handing;
      }

  -- The reader takes the first message for the caller `c`.
  pub Wire-reply :
      {closed : Bool} (t c : ℕ) (r : Reply) (rest : List (ℕ × Reply))
      → Owners req Serves closed calls callers rd
      → replies ≡ (t, r) ∷ rest
      → lookup t calls ≡ some c
      → Wire req Serves (delete t calls) callers (sending t c r none) requests pending rest
  Wire-reply t c r rest o e at =
      let was : (u : ℕ) → count_tag u replies ≡ (if nat_eqb t u then 1 else 0) + count_tag u rest =
        λ u. ap (count_tag u) e in
      let known : Known (Served req Serves) calls ((t, r) ∷ rest) =
        subst (Known (Served req Serves) calls) e w.given in
      let head : nat_eqb t t ≡ true = (nat_eqb_iff t t).1 refl in
      record {
        asked =
            Known-delete (Sent req) calls t requests (ground (arith, was t, w.once t, head))
              w.asked;
        taken =
            Known-delete (Sent req) calls t pending (ground (arith, was t, w.once t, head)) w.taken;
        given =
            Known-delete (Served req Serves) calls t rest (ground (arith, was t, w.once t, head))
              known.1;
        once = λ u. ground (arith, was u, w.once u);
        unsent = λ d u q. ground (arith, was u, w.unsent d u q);
        handing = elim (awaited-cases (callers c) t (o.owned t c at)) [
          | inl q ↦ absurd (ground (arith, was t, w.unsent c t q, head))
          | inr h ↦ h
        ];
      }
