-- ===== src/Demux/Invariant.antt =====
-- tester1/demux: the tags, their owners and the messages while the goroutines step.
use mathlib.Core.Option.{some-injective}
use mit.Prelude.{
  nat_eqb, nat_eqb_iff, ℕ, suc, ◌+◌, ◌≤◌, ◌<◌, ◌≡◌, refl, sym, ap, ◌∙◌, subst, Bool, true, Option,
  none, some, List, inl, inr, arith, nat_eq, lookup, Bool-cases, Option-cases, update, update-all,
}
use mit.Demux.{Reader, tag, put, reply_fail, new_demux_clnt, new_call_map}
use mit.Demux.System.{Caller, idle, tagged, queued, waiting, answered, System, enqueued, start}
use mit.Demux.Owners.{awaited, is_live, Owners, Owners-caller}
use mit.Demux.Moves.{}
use mit.Demux.Puts.{Owners-put}
use mit.Demux.Wire.{Handing, Handing-keep, Wire, Wire-caller, Wire-put}

abbrev pub tag_of : Caller → Option ℕ
tag_of (tagged t) = some t
tag_of p = awaited p

pub record Tags (next_tag : ℕ) (callers : ℕ → Caller) : Type 0 where
  pub below : (c t : ℕ) → tag_of (callers c) ≡ some t → t < next_tag
  pub single : (c d t : ℕ) → tag_of (callers c) ≡ some t → tag_of (callers d) ≡ some t → c ≡ d

pub Tags-keep :
    {k : ℕ} {callers : ℕ → Caller} (c : ℕ) (p : Caller)
    → ((t : ℕ) → tag_of p ≡ some t → tag_of (callers c) ≡ some t)
    → Tags k callers
    → Tags k (update callers c p)
Tags-keep {callers} c p sub i =
    let was : (j t : ℕ) → tag_of (update callers c p j) ≡ some t → tag_of (callers j) ≡ some t =
      update-all (λ j q. (t : ℕ) → tag_of q ≡ some t → tag_of (callers j) ≡ some t) callers c p sub
        (λ j _ t h. h) in
    record {
      below = λ d t h. i.below d t (was d t h);
      single = λ d e t h h'. i.single d e t (was d t h) (was e t h');
    }

pub Tags-new :
    {k : ℕ} {callers : ℕ → Caller} (c : ℕ)
    → Tags k callers
    → Tags (k + 1) (update callers c (tagged k))
Tags-new {k} {callers} c i =
    let new : (t u : ℕ) → some u ≡ some t → t ≡ u = λ t u h. sym (some-injective u t h) in
    record {
      below =
          update-all (λ j q. (t : ℕ) → tag_of q ≡ some t → t < k + 1) callers c (tagged k)
            (λ t h. omega (arith, new t k h)) (λ j _ t h. omega (arith, i.below j t h));
      single = λ d e t h h'. elim (Bool-cases (nat_eqb c d)) [
        | inl y ↦ elim (Bool-cases (nat_eqb c e)) [
          | inl z ↦ sym ((nat_eqb_iff c d).0 y) ∙ (nat_eqb_iff c e).0 z
          | inr n ↦
              let mine = new t k (rw y at h) in
              let old = i.below e t (rw n at h') in absurd (omega arith)
        ]
        | inr m ↦ elim (Bool-cases (nat_eqb c e)) [
          | inl z ↦
              let mine = new t k (rw z at h') in
              let old = i.below d t (rw m at h) in absurd (omega arith)
          | inr n ↦ i.single d e t (rw m at h) (rw n at h')
        ]
      ];
    }

awaited-tag_of : (p : Caller) (t : ℕ) → awaited p ≡ some t → tag_of p ≡ some t
awaited-tag_of (queued u) t h = h
awaited-tag_of (waiting u) t h = h
awaited-tag_of idle t h = h
awaited-tag_of (tagged u) t h = cc
awaited-tag_of (answered r) t h = h

module _ (req : ℕ → List ℕ) (Serves : List ℕ → List ℕ → Bool → Type 0) where
  abbrev pub OwnersOf : System → Type 0
  OwnersOf s = Owners req Serves s.clnt.callmap.closed s.clnt.callmap.calls s.callers s.reader

  abbrev pub WireOf : System → Reader → Type 0
  WireOf s rd = Wire req Serves s.clnt.callmap.calls s.callers rd s.requests s.pending s.replies

  pub record Inv (n : ℕ) (s : System) : Type 0 where
    pub few : s.clnt.next_tag ≤ n + 1
    pub tags : Tags s.clnt.next_tag s.callers
    pub owners : OwnersOf s
    pub live : is_live s.reader ≡ true → WireOf s s.reader

  pub start-Inv : Inv 0 (start req Serves)
  unfolding start new_demux_clnt tag new_call_map lookup
  start-Inv = record {
    few = omega arith;
    tags = record { below = λ c t h. cc; single = λ c d t h k. cc };
    owners = record {
      owned = λ t c h. cc;
      waits = λ c t h. cc;
      handed = tt;
      own = λ c. tt;
      distinct = tt;
      mode = tt;
    };
    live = λ _. record {
      asked = tt;
      taken = tt;
      given = tt;
      once = λ t. omega arith;
      unsent = λ c t h. omega arith;
      handing = tt;
    };
  }

  pub Step-Inv-enqueue :
      {n : ℕ} {s : System} (c t : ℕ)
      → s.callers c ≡ tagged t
      → Inv n s
      → Inv (suc n) (record s {
        clnt = record s.clnt { callmap = (put t c s.clnt.callmap).1 };
        callers = update s.callers c (enqueued t (put t c s.clnt.callmap).0);
      })
  unfolding put
  Step-Inv-enqueue {n} {s} c t e inv =
      let fresh : (d : ℕ) → ¬ (awaited (s.callers d) ≡ some t) =
        λ d h. cc (e, h, inv.tags.single d c t (awaited-tag_of (s.callers d) t h) (ap tag_of e)) in
      let keep : (p : Caller) → is_live s.reader ≡ true → Handing (update s.callers c p) s.reader =
        λ p l. Handing-keep s.callers c p (λ u h. cc (e, h)) s.reader (inv.live l).handing in
      let not_in : lookup t s.clnt.callmap.calls ≡ none =
        elim (Option-cases (lookup t s.clnt.callmap.calls)) [
          | inl gone ↦ gone
          | inr (d, at) ↦ absurd (fresh d (inv.owners.owned t d at))
        ] in
      elim (Bool-cases s.clnt.callmap.closed) [
        | inl y ↦ rw y (record {
          few = omega (arith, inv.few);
          tags = Tags-keep c (answered reply_fail) (λ u h. cc) inv.tags;
          owners =
              Owners-caller req Serves c (answered reply_fail) (sym (ap awaited e)) (inl refl) (
                subst (λ b. Owners req Serves b s.clnt.callmap.calls s.callers s.reader) y
                  inv.owners);
          live = λ l.
              Wire-caller req Serves inv.owners (inv.live l) c (answered reply_fail) s.reader
                (λ u h. cc) (keep (answered reply_fail) l);
        })
        | inr no_close ↦ rw no_close (record {
          few = omega (arith, inv.few);
          tags = Tags-keep c (queued t) (λ u h. ap tag_of e ∙ h) inv.tags;
          owners =
              Owners-put req Serves
                (subst (λ b. Owners req Serves b s.clnt.callmap.calls s.callers s.reader) no_close
                  inv.owners)
                c t e fresh refl;
          live = λ l. Wire-put req Serves inv.owners (inv.live l) c t not_in (keep (queued t) l);
        })
      ]
