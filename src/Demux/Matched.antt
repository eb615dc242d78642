-- ===== src/Demux/Matched.antt =====
-- tester1/demux: the calls of SendReceive, and what they return.
use mit.Prelude.{
  ℕ, suc, ◌+◌, ◌<◌, ◌≡◌, ◌≢◌, refl, ap, subst, Bool, some, List, inl, inr, arith, nat_eq, lookup,
}
use mit.Demux.{Reader, fatal, returned, tag_mod}
use mit.Demux.System.{Caller, idle, tagged, queued, waiting, answered, System, Reach, here, next}
use mit.Demux.Owners.{awaited, IsOwn, Answered, Mode}
use mit.Demux.Invariant.{Inv, start-Inv}
use mit.Demux.Steps.{OwnersAt, Step-Inv}

module _ (req : ℕ → List ℕ) (Serves : List ℕ → List ℕ → Bool → Type 0) where
  Reach-Inv : {n : ℕ} {s : System} → n + 2 < tag_mod → Reach req Serves n s → Inv req Serves n s
  Reach-Inv room here = start-Inv req Serves
  Reach-Inv {n = suc n} room (next r st) =
      Step-Inv req Serves (omega arith) st (Reach-Inv (omega arith) r)

  none-returned :
      (s : System) (c t : ℕ)
      → OwnersAt req Serves s s.reader
      → awaited (s.callers c) ≡ some t
      → s.reader ≢ returned
  unfolding lookup
  none-returned s c t inv a e =
      let o : OwnersAt req Serves s returned = subst (OwnersAt req Serves s) e inv in
      elim (o.waits c t a) [
        | inl found ↦ cc (subst (λ m. lookup t m ≡ some c) o.mode.1 found)
        | inr b ↦ absurd b
      ]

  -- A call has returned with the failure or with what the server made of its own request, or it
  -- waits for a reader that has not returned.
  abbrev pub IsFair : Reader → ℕ → Caller → Type 0
  IsFair rd c (answered r) = IsOwn req Serves c r
  IsFair rd c (queued t) = rd ≢ returned
  IsFair rd c (waiting t) = rd ≢ returned
  IsFair rd c _ = Unit

  fair :
      (s : System) (c : ℕ)
      → OwnersAt req Serves s s.reader
      → (p : Caller) → s.callers c ≡ p
      → IsFair s.reader c p
  fair s c o (answered r) e = subst (Answered req Serves c) e (o.own c)
  fair s c o (queued t) e = none-returned s c t o (ap awaited e)
  fair s c o (waiting t) e = none-returned s c t o (ap awaited e)
  fair s c o idle e = tt
  fair s c o (tagged t) e = tt

  -- In every state that is reached in fewer steps than there are tags, however the goroutines
  -- interleave, the messages are lost and the connection fails: a call of SendReceive that has
  -- returned has the failure or what the server made of its own request, a call in the map or
  -- in its Write finds a reader that has not returned, and the reader has not ended the program.
  pub calls-matched :
      {n : ℕ} {s : System}
      → n + 2 < tag_mod
      → Reach req Serves n s
      → (c : ℕ) → IsFair s.reader c (s.callers c) × (s.reader ≢ fatal)
  calls-matched {s = s} room r c =
      let o = (Reach-Inv room r).owners in
      (
        fair s c o (s.callers c) refl,
        λ e. subst (λ rd. Mode rd s.clnt.callmap.closed s.clnt.callmap.calls) e o.mode,
      )
