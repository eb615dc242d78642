-- ===== src/Demux/Steps.antt =====
-- tester1/demux: the steps of the goroutines and the invariant.
use mit.Prelude.{
  keys, ℕ, suc, ◌+◌, ◌%◌, ◌<◌, ◌≡◌, refl, sym, ap, ◌∙◌, subst, Bool, true, false, Option, none,
  some, List, [], ◌∷◌, inl, inr, arith, nat_eq, Bool-cases, update,
}
use mit.Demux.{
  Reply, Reader, reading, closing, listing, returned, draining, sending, tag, tag_mod, close,
  outstanding, close_clnt, reply, remove, reply_fail, sent,
}
use mit.Demux.System.{
  Caller, tagged, waiting, answered, System, reply_step, Step, take_tag, enqueue, write,
  read_request, serve, read_reply, read_error, close_map, list_tags, fail_one, drained, hand_over,
  close_by_user,
}
use mit.Demux.Owners.{awaited, is_live, Mode, Owners, Owners-caller}
use mit.Demux.Moves.{keys-head, is_sending, Owners-reader, Owners-close, Owners-reply, Owners-hand}
use mit.Demux.Tokens.{Known}
use mit.Demux.Wire.{Served, Handing, Handing-keep, Wire-caller, Wire-write}
use mit.Demux.Deliveries.{Wire-read_request, Wire-serve, Wire-reply}
use mit.Demux.Invariant.{Tags-keep, Tags-new, tag_of, Inv, Step-Inv-enqueue}

keys-empty : (m : List (ℕ × ℕ)) → keys m ≡ [] → m ≡ []
keys-empty [] e = refl
keys-empty ((k, v) ∷ m) e = cc

module _ (req : ℕ → List ℕ) (Serves : List ℕ → List ℕ → Bool → Type 0) where
  abbrev pub OwnersAt : System → Reader → Type 0
  OwnersAt s rd = Owners req Serves s.clnt.callmap.closed s.clnt.callmap.calls s.callers rd

  -- The reader moves on and takes no message.
  Inv-reader :
      {n : ℕ} {s : System} (rd rd' : Reader)
      → s.reader ≡ rd
      → is_sending rd ≡ false
      → is_sending rd' ≡ false
      → is_live rd' ≡ false
      → (Mode rd s.clnt.callmap.closed s.clnt.callmap.calls
          → Mode rd' s.clnt.callmap.closed s.clnt.callmap.calls)
      → Inv req Serves n s
      → Inv req Serves (suc n) (record s { reader = rd' })
  Inv-reader {s = s} rd rd' e no_send no_send' dead mode inv =
      let o : OwnersAt s rd = subst (OwnersAt s) e inv.owners in
      record {
        few = omega (arith, inv.few);
        tags = inv.tags;
        owners =
            Owners-reader req Serves o rd' s.clnt.callmap.closed no_send no_send' (mode o.mode);
        live = λ l. cc (dead, l);
      }

  Step-Inv-read_reply :
      {n : ℕ} {s : System} (t : ℕ) (r : Reply) (rest : List (ℕ × Reply))
      → s.reader ≡ reading
      → s.replies ≡ (t, r) ∷ rest
      → Inv req Serves n s
      → Inv req Serves (suc n) (reply_step t r none (record s { replies = rest }))
  unfolding reply remove
  Step-Inv-read_reply {s = s} t r rest e head inv =
      let w = inv.live (ap is_live e) in
      let o : OwnersAt s reading = subst (OwnersAt s) e inv.owners in
      let known : Known (Served req Serves) s.clnt.callmap.calls ((t, r) ∷ rest) =
        subst (Known (Served req Serves) s.clnt.callmap.calls) head w.given in
      let (c, at, good) = known.0 in
      rw at (record {
        few = omega (arith, inv.few);
        tags = inv.tags;
        owners = Owners-reply req Serves o t c r none at refl (inr good) tt;
        live = λ _. Wire-reply req Serves w t c r rest inv.owners head at;
      })

  Step-Inv-fail_one :
      {n : ℕ} {s : System} (t : ℕ) (ts : List ℕ)
      → s.reader ≡ draining (t ∷ ts)
      → Inv req Serves n s
      → Inv req Serves (suc n) (reply_step t reply_fail (some ts) s)
  unfolding reply remove
  Step-Inv-fail_one {s = s} t ts e inv =
      let o : OwnersAt s (draining (t ∷ ts)) = subst (OwnersAt s) e inv.owners in
      let ((c, at), rest) = keys-head t ts s.clnt.callmap.calls o.distinct o.mode.1 in
      rw at (record {
        few = omega (arith, inv.few);
        tags = inv.tags;
        owners =
            Owners-reply req Serves o t c reply_fail (some ts) at refl (inl refl) (o.mode.0, rest);
        live = λ l. cc;
      })

  Handing-sent : (callers : ℕ → Caller) (left : Option (List ℕ)) → Handing callers (sent left)
  Handing-sent callers none = tt
  Handing-sent callers (some ts) = tt

  sent-live :
      (t c : ℕ) (r : Reply) (left : Option (List ℕ))
      → is_live (sent left) ≡ true
      → is_live (sending t c r left) ≡ true
  sent-live t c r none l = refl
  sent-live t c r (some ts) l = cc

  Step-Inv-hand_over :
      {n : ℕ} {s : System} (c t u : ℕ) (r : Reply) (left : Option (List ℕ))
      → s.reader ≡ sending t c r left
      → s.callers c ≡ waiting u
      → Inv req Serves n s
      → Inv req Serves
          (suc n)
          (record s { callers = update s.callers c (answered r); reader = sent left })
  Step-Inv-hand_over {s = s} c t u r left e at inv =
      let o : OwnersAt s (sending t c r left) = subst (OwnersAt s) e inv.owners in
      record {
        few = omega (arith, inv.few);
        tags = Tags-keep c (answered r) (λ v h. cc) inv.tags;
        owners = Owners-hand req Serves t c r left o;
        live = λ l.
            Wire-caller req Serves inv.owners (inv.live (ap is_live e ∙ sent-live t c r left l)) c
              (answered r) (sent left) (λ v h. cc)
              (Handing-sent (update s.callers c (answered r)) left);
      }

  closed_by_user :
      {n : ℕ} {s : System}
      → Inv req Serves n s
      → Inv req Serves
          (suc n)
          (record s { clnt = record s.clnt { callmap = record s.clnt.callmap { closed = true } } })
  closed_by_user inv = record {
    few = omega (arith, inv.few);
    tags = inv.tags;
    owners = Owners-close req Serves inv.owners;
    live = inv.live;
  }

  pub Step-Inv :
      {n : ℕ} {s s' : System}
      → n + 2 < tag_mod
      → Step req Serves s s'
      → Inv req Serves n s
      → Inv req Serves (suc n) s'
  unfolding tag close outstanding close_clnt
  Step-Inv {n} {s} room (take_tag c e) inv =
      let p : Caller = tagged s.clnt.next_tag in
      let next_is : (s.clnt.next_tag + 1) % tag_mod ≡ s.clnt.next_tag + 1 =
        omega (arith, inv.few) in
      rw next_is (record {
        few = omega (arith, inv.few);
        tags = Tags-new c inv.tags;
        owners = Owners-caller req Serves c p (sym (ap awaited e)) tt inv.owners;
        live = λ l.
            Wire-caller req Serves inv.owners (inv.live l) c p s.reader (λ t h. cc)
              (Handing-keep s.callers c p (λ t h. cc (e, h)) s.reader (inv.live l).handing);
      })
  Step-Inv room (enqueue c t e) inv = Step-Inv-enqueue req Serves c t e inv
  Step-Inv {n} {s} room (write c t is_lost e) inv = record {
    few = omega (arith, inv.few);
    tags = Tags-keep c (waiting t) (λ u h. ap tag_of e ∙ h) inv.tags;
    owners = Owners-caller req Serves c (waiting t) (sym (ap awaited e)) tt inv.owners;
    live = λ l.
        Wire-write req Serves inv.owners (inv.live l) c t is_lost l e
          (Handing-keep s.callers c (waiting t) (λ u h. cc (e, h)) s.reader (inv.live l).handing);
  }
  Step-Inv {n} {s} room (read_request x rest e) inv = record {
    few = omega (arith, inv.few);
    tags = inv.tags;
    owners = inv.owners;
    live = λ l. Wire-read_request req Serves (inv.live l) x rest e;
  }
  Step-Inv {n} {s} room (serve t b rep is_ok is_lost before after e served) inv = record {
    few = omega (arith, inv.few);
    tags = inv.tags;
    owners = inv.owners;
    live = λ l. Wire-serve req Serves (inv.live l) t b rep is_ok is_lost before after e served;
  }
  Step-Inv room (read_reply t r rest e head) inv = Step-Inv-read_reply t r rest e head inv
  Step-Inv room (read_error e) inv = Inv-reader reading closing e refl refl refl (λ m. m) inv
  Step-Inv {n} {s} room (close_map e) inv =
      let o : OwnersAt s closing = subst (OwnersAt s) e inv.owners in
      record {
        few = omega (arith, inv.few);
        tags = inv.tags;
        owners = Owners-reader req Serves o listing true refl refl refl;
        live = λ l. cc;
      }
  Step-Inv {s = s} room (list_tags e) inv =
      Inv-reader listing (draining (outstanding s.clnt.callmap)) e refl refl refl (λ m. (m, refl))
        inv
  Step-Inv room (fail_one t ts e) inv = Step-Inv-fail_one t ts e inv
  Step-Inv {s = s} room (drained e) inv =
      Inv-reader (draining []) returned e refl refl refl
        (λ m. (m.0, keys-empty s.clnt.callmap.calls m.1)) inv
  Step-Inv room (hand_over c t u r left e at) inv = Step-Inv-hand_over c t u r left e at inv
  Step-Inv {n} {s} room close_by_user inv = elim (Bool-cases s.clnt.callmap.closed) [
    | inl y ↦ rw y (closed_by_user inv)
    | inr no_close ↦ rw no_close (closed_by_user inv)
  ]
