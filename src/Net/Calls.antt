-- ===== src/Net/Calls.antt =====
-- labrpc/labrpc.go: ClientEnd's Call and Forward, on an end without a call function of its own.
-- `encode` is labgob's of the arguments and `decode` of the reply.
use mit.Prelude.{ℕ, ◌≡◌, refl, ap, Bool, true, false, Option, none, some, List, if◌then◌else◌}
use mit.KvSrv.Clerk.{Delivery, request_lost}
use mit.Net.{Network, ReplyMsg, no_reply, Chances, process_req}
use mit.Net.Delivered.{deliver, process_req-deliver}

-- What Call returns, with the reply that it fills in; a reply that cannot be read is log.Fatalf.
pub data Returned {ℓ} (R : Type ℓ) : Type ℓ where
  failed fatal : Returned R
  succeeded : R → Returned R

module _ {ℓ} {R : Type ℓ} where
  abbrev pub unmarshalled : (List ℕ → Option R) → ReplyMsg → Returned R
  unmarshalled decode rep =
      if rep.ok then elim (decode rep.reply) [ none ↦ fatal | some r ↦ succeeded r ] else failed

module _ {ℓ} {S : Type ℓ} where
  -- The reply that a request has; `sent` is false where the network was destroyed instead.
  abbrev pub reply_of : Bool → ReplyMsg × S → S → ReplyMsg × S
  reply_of true done s = done
  reply_of false done s = (no_reply, s)

  -- `Forward`; `handler` takes the bytes of the request.
  unfoldable pub forward :
      Network
      → Network
      → ℕ
      → Bool
      → Chances
      → (ℕ → List ℕ → S → ReplyMsg × S)
      → List ℕ
      → S
      → ReplyMsg × S
  forward rn rn' endname sent ch handler args s =
      reply_of sent (process_req rn rn' endname ch (λ at. handler at args) s) s

module _ {ℓ κ ρ} {S : Type ℓ} {A : Type κ} {R : Type ρ} (encode : A → List ℕ)
    (decode : List ℕ → Option R) where
  -- `Call`
  unfoldable pub call :
      Network
      → Network
      → ℕ
      → Bool
      → Chances
      → (ℕ → List ℕ → S → ReplyMsg × S)
      → A
      → S
      → Returned R × S
  call rn rn' endname sent ch handler args s =
      let (rep, s') =
        reply_of sent (process_req rn rn' endname ch (λ at. handler at (encode args)) s) s in
      (unmarshalled decode rep, s')

  -- A Call leaves its server with at most one execution of the request, and if it succeeds or is
  -- fatal, with one, whose reply it has: it ends in one of the ways that the clerks reckon with.
  pub call-deliver :
      (rn rn' : Network) (endname : ℕ) (sent : Bool) (ch : Chances)
      (handler : ℕ → List ℕ → S → ReplyMsg × S) (args : A) (s : S)
      → (d : Delivery) × (at : ℕ) × (call rn rn' endname sent ch handler args s ≡ (
          let (rep, s') = deliver d (handler at (encode args)) s in (unmarshalled decode rep, s')))
  unfolding call
  call-deliver rn rn' endname false ch handler args s = (request_lost, 0, refl)
  call-deliver rn rn' endname true ch handler args s =
      let (d, at, same, fate) =
        process_req-deliver rn rn' endname ch (λ at. handler at (encode args)) s in
      (d, at, ap (λ r. (unmarshalled decode r.0, r.1)) same)
