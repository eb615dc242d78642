-- ===== src/Net/Delivered.antt =====
-- What a client of labrpc/labrpc.go can see of a call.
use mit.Prelude.{
  ℕ, ◌≡◌, ◌⊎◌, refl, ap, ◌∙◌, arith, Bool, true, false, ◌&&◌, ◌||◌, not, Option, none, some,
  Bool-cases, Option-cases, inl, inr, lookup, nat_eq, nat_eqb,
}
use mit.KvSrv.Clerk.{Delivery, request_lost, reply_lost, delivered}
use mit.Net.{
  Network, at_bool, at_pointer, same_pointer, read_endname_info, is_server_dead, ReplyMsg, no_reply,
  Chances, process_req,
}

-- The end is enabled and connected to the name of the server that stands at the address `at`.
pub record IsRouted (rn : Network) (endname name at : ℕ) : Type 0 where
  pub enabled : lookup endname rn.enabled ≡ some true
  pub connected : lookup endname rn.connections ≡ some (some name)
  pub served : lookup name rn.servers ≡ some (some at)

-- The end is still enabled, and the server still the one of its name.
pub record IsAlive (rn : Network) (endname name at : ℕ) : Type 0 where
  pub enabled : lookup endname rn.enabled ≡ some true
  pub served : lookup name rn.servers ≡ some (some at)

-- Why a call has ended as it did.
abbrev pub Fate : Network → Network → ℕ → Chances → Delivery → ℕ → Type 0
Fate rn rn' endname ch request_lost at =
    ((name : ℕ) (at' : ℕ) → ¬ IsRouted rn endname name at')
    ⊎ ((rn.reliable ≡ false) × (ch.drops_request ≡ true))
Fate rn rn' endname ch reply_lost at =
    (name : ℕ) × IsRouted rn endname name at
    × ((rn.reliable ≡ true) ⊎ (ch.drops_request ≡ false))
    × ((¬ IsAlive rn' endname name at)
        ⊎ ((ch.returned ≡ false) ⊎ ((rn.reliable ≡ false) × (ch.drops_reply ≡ true))))
Fate rn rn' endname ch delivered at =
    (name : ℕ) × IsRouted rn endname name at
    × ((rn.reliable ≡ true) ⊎ (ch.drops_request ≡ false))
    × IsAlive rn' endname name at
    × (ch.returned ≡ true)
    × ((rn.reliable ≡ true) ⊎ (ch.drops_reply ≡ false))

bool_at : (o : Option Bool) → at_bool o ≡ true → o ≡ some true
bool_at none h = cc
bool_at (some b) h = ap some h

pointer_at : (o : Option (Option ℕ)) (p : ℕ) → at_pointer o ≡ some p → o ≡ some (some p)
pointer_at none p h = cc
pointer_at (some q) p h = ap some h

pointer_same :
    (o : Option (Option ℕ)) (p : ℕ)
    → same_pointer (at_pointer o) (some p) ≡ true
    → o ≡ some (some p)
pointer_same none p h = cc
pointer_same (some none) p h = cc
pointer_same (some (some q)) p h = ap (λ k. some (some k)) (ground arith)

both : (a b : Bool) → (not a || not b) ≡ false → (a ≡ true) × (b ≡ true)
both true true h = (refl, refl)
both true false h = cc
both false b h = cc

-- What is_server_dead finds.
alive_lem :
    (rn : Network) (endname name at : ℕ)
    → is_server_dead rn endname name (some at) ≡ false
    → IsAlive rn endname name at
unfolding is_server_dead
alive_lem rn endname name at h =
    let (e, s) =
      both (at_bool (lookup endname rn.enabled))
        (same_pointer (at_pointer (lookup name rn.servers)) (some at)) h in
    record { enabled = bool_at _ e; served = pointer_same _ at s }

dead_lem :
    (rn : Network) (endname name at : ℕ)
    → is_server_dead rn endname name (some at) ≡ true
    → ¬ IsAlive rn endname name at
unfolding is_server_dead
dead_lem rn endname name at h a =
    let self : nat_eqb at at ≡ true = ground arith in
    let alive : is_server_dead rn endname name (some at) ≡ false =
      rw (a.enabled, a.served, self) refl in
    cc

-- A test for a message that is dropped.
drop_lem :
    (r d : Bool)
    → ((not r && d) ≡ true → (r ≡ false) × (d ≡ true))
      × ((not r && d) ≡ false → (r ≡ true) ⊎ (d ≡ false))
drop_lem true d = ((λ h. cc), λ h. inl refl)
drop_lem false d = ((λ h. (refl, h)), λ h. inr h)

given_up :
    (ret dead : Bool)
    → ((not ret || dead) ≡ true → (ret ≡ false) ⊎ (dead ≡ true))
      × ((not ret || dead) ≡ false → (ret ≡ true) × (dead ≡ false))
given_up true dead = ((λ h. inr h), λ h. (refl, h))
given_up false dead = ((λ h. inl refl), λ h. cc)

module _ {ℓ} {S : Type ℓ} where
  -- The three ends of a call at one server, as the clerks take them.
  abbrev pub deliver : Delivery → (S → ReplyMsg × S) → S → ReplyMsg × S
  deliver request_lost handler s = (no_reply, s)
  deliver reply_lost handler s = (no_reply, (handler s).1)
  deliver delivered handler s = handler s

  -- Whatever the draws and the changes of the network, a call ends in one of the three ways that
  -- the clerks reckon with. Exactly if the end is enabled and connected to the name of a server,
  -- and the request is not dropped, it is executed, once, at the server of that name; and then it
  -- is answered with that server's reply exactly if the end is still enabled and the server still
  -- there when the call ends, the handler returned before it was given up, and the reply is not
  -- dropped. Only a network that is not reliable drops messages.
  pub process_req-deliver :
      (rn rn' : Network) (endname : ℕ) (ch : Chances) (handler : ℕ → S → ReplyMsg × S) (s : S)
      → (d : Delivery) × (at : ℕ) × (process_req rn rn' endname ch handler s
          ≡ deliver d (handler at) s)
        × Fate rn rn' endname ch d at
  unfolding process_req read_endname_info is_server_dead
  process_req-deliver rn rn' endname ch handler s =
      elim (Option-cases (at_pointer (lookup endname rn.connections))) [
        | inl c ↦ (request_lost, 0, rw c refl, inl (λ name at r. clash r.connected c))
        | inr (name, c) ↦ elim (Option-cases (at_pointer (lookup name rn.servers))) [
          | inl v ↦ (
            request_lost,
            0,
            rw (c, v) refl,
            inl (λ name' at r.
                clash r.served
                  (ap (λ n. at_pointer (lookup n rn.servers)) (same r.connected c) ∙ v)),
          )
          | inr (at, v) ↦ elim (Bool-cases (at_bool (lookup endname rn.enabled))) [
            | inr e ↦
                (request_lost, at, rw (c, v, e) refl, inl (λ n a r. cc (ap at_bool r.enabled)))
            | inl e ↦
                let routed : IsRouted rn endname name at = record {
                  enabled = bool_at _ e;
                  connected = pointer_at _ name c;
                  served = pointer_at _ at v;
                } in
                elim (Bool-cases (not rn.reliable && ch.drops_request)) [
                  | inl d ↦ (request_lost, at, rw (c, v, e, d) refl, inr ((drop_lem _ _).0 d))
                  | inr d ↦
                      let sent = (drop_lem _ _).1 d in
                      elim (Bool-cases
                        (not ch.returned || is_server_dead rn' endname name (some at))) [
                          | inl k ↦ (
                            reply_lost,
                            at,
                            rw (c, v, e, d, k) refl,
                            (name, routed, sent, gone name at ((given_up _ _).0 k)),
                          )
                          | inr k ↦
                              let (ret, alive) = (given_up _ _).1 k in
                              elim (Bool-cases (not rn.reliable && ch.drops_reply)) [
                                | inl l ↦ (
                                  reply_lost,
                                  at,
                                  rw (c, v, e, d, k, l) refl,
                                  (name, routed, sent, inr (inr ((drop_lem _ _).0 l))),
                                )
                                | inr l ↦ (
                                  delivered,
                                  at,
                                  rw (c, v, e, d, k, l) refl,
                                  (
                                    name,
                                    routed,
                                    sent,
                                    alive_lem rn' endname name at alive,
                                    ret,
                                    (drop_lem _ _).1 l,
                                  ),
                                )
                              ]
                        ]
                ]
          ]
        ]
      ]
    where
      clash : {o : Option (Option ℕ)} {p : ℕ} → o ≡ some (some p) → at_pointer o ≡ none → ⊥
      clash h k = cc (ap at_pointer h)

      same : {o : Option (Option ℕ)} {p q : ℕ} → o ≡ some (some p) → at_pointer o ≡ some q → p ≡ q
      same h k = cc (ap at_pointer h)

      gone :
          (name at : ℕ)
          → (ch.returned ≡ false) ⊎ (is_server_dead rn' endname name (some at) ≡ true)
          → (¬ IsAlive rn' endname name at)
            ⊎ ((ch.returned ≡ false) ⊎ ((rn.reliable ≡ false) × (ch.drops_reply ≡ true)))
      gone name at (inl r) = inr (inl r)
      gone name at (inr d) = inl (dead_lem rn' endname name at d)
