-- ===== src/Tester/Clients/Reach.antt =====
-- Which servers a client of tester1/clnts.go can call.
use mit.Prelude.{
  ℕ, ◌≡◌, ◌≢◌, refl, ap, ◌∙◌, arith, Bool, true, false, none, some, List, [], ◌∷◌, member, nat_eq,
  nat_eqb, nat_eqb_iff, lookup, insert, if◌then◌else◌, Bool-cases, Option-cases, inl, inr,
}
use mathlib.Core.Option.{some-injective}
use mit.Net.{
  Network, make_end as net_make_end, enable, connect as connect_end, ReplyMsg, no_reply, Chances,
  process_req, read_endname_info,
}
use mit.Net.Cut.{process_at-disabled}
use mit.Tester.Loops.{is_on, is_on-enable}
use mit.Tester.Clients.{
  Clnt, make_end, allowed_l, enable_all, enable_allowed, connect_all, disconnect_all, connect_to,
}

-- An end that has the value keeps it.
enable_all-kept :
    (b : Bool) (ends : List (ℕ × ℕ)) (net : Network) (e : ℕ)
    → is_on net e ≡ b
    → is_on (enable_all b ends net) e ≡ b
enable_all-kept b [] net e h = h
enable_all-kept b ((s, e') ∷ ends) net e h =
    enable_all-kept b ends (enable net e' b) e (is_on-enable net e' e b ∙ either (nat_eqb e' e))
  where
    either : (c : Bool) → (if c then b else is_on net e) ≡ b
    either true = refl
    either false = h

enable_all-is_on :
    (b : Bool) (ends : List (ℕ × ℕ)) (net : Network) (server e : ℕ)
    → lookup server ends ≡ some e
    → is_on (enable_all b ends net) e ≡ b
unfolding lookup
enable_all-is_on b [] net server e h = cc
enable_all-is_on b ((s, e') ∷ ends) net server e h = elim (Bool-cases (nat_eqb s server)) [
  | inl y ↦
      enable_all-kept b ends (enable net e' b) e
        (is_on-enable net e' e b ∙ rw ((nat_eqb_iff e' e).1 (some-injective e' e (rw y at h))) refl)
  | inr n ↦ enable_all-is_on b ends (enable net e' b) server e (rw n at h)
]

made : (net : Network) (name : ℕ) → lookup name net.ends ≡ none → net_make_end net name ≢ none
unfolding net_make_end
made net name new q = ground (arith, new)

enable_all-ends :
    (b : Bool) (ends : List (ℕ × ℕ)) (net : Network) → (enable_all b ends net).ends ≡ net.ends
unfolding enable
enable_all-ends b [] net = refl
enable_all-ends b ((s, e) ∷ ends) net = enable_all-ends b ends (enable net e b)

-- The end that makeEnd gives is enabled as `b`, if those that are there are, and a new one may be.
make_end-is_on :
    (clnt : Clnt) (net : Network) (server name : ℕ) (b : Bool)
    → lookup name net.ends ≡ none
    → allowed_l clnt server ≡ b
    → ((e : ℕ) → lookup server clnt.ends ≡ some e → is_on net e ≡ b)
    → (e : ℕ) × (clnt' : Clnt) × (net' : Network) × (make_end clnt net server name
        ≡ some (e, clnt', net'))
      × (is_on net' e ≡ b)
unfolding make_end net_make_end
make_end-is_on clnt net server name b new may have = elim (Option-cases (lookup server clnt.ends)) [
  | inr (e, at) ↦ (e, clnt, net, rw (make_end, at) refl, have e at)
  | inl z ↦ elim (Option-cases (net_make_end net name)) [
    | inl q ↦ absurd (made net name new q)
    | inr (net', got) ↦ (
      name,
      record clnt { ends = insert server name clnt.ends },
      enable (connect_end net' name server) name (allowed_l clnt server),
      rw (make_end, z, got) refl,
      is_on-enable (connect_end net' name server) name name (allowed_l clnt server)
          ∙ rw ((nat_eqb_iff name name).1 refl) may,
    )
  ]
]

-- After ConnectAll the end that makeEnd gives for any server is enabled, and after DisconnectAll no
-- call over it is executed or has a reply, whether it is there or new, if the name drawn for a new
-- one is not taken.
pub connect_all-make_end {ℓ} :
    {S : Type ℓ} (clnt : Clnt) (net : Network) (server name : ℕ)
    → lookup name net.ends ≡ none
    → ((e : ℕ) × (clnt' : Clnt) × (net' : Network) × (make_end
            (connect_all clnt net).0
            (connect_all clnt net).1
            server
            name
          ≡ some (e, clnt', net'))
        × (is_on net' e ≡ true))
      × ((e : ℕ) × (clnt' : Clnt) × (net' : Network) × (make_end
              (disconnect_all clnt net).0
              (disconnect_all clnt net).1
              server
              name
            ≡ some (e, clnt', net'))
          × ((later : Network) (ch : Chances) (handler : ℕ → S → ReplyMsg × S) (s : S)
              → process_req net' later e ch handler s ≡ (no_reply, s)))
unfolding connect_all disconnect_all process_req read_endname_info
connect_all-make_end clnt net server name new = (
  make_end-is_on (connect_all clnt net).0 (connect_all clnt net).1 server name true
      (ap (lookup name) (enable_all-ends true clnt.ends net) ∙ new) refl
      (λ e. enable_all-is_on true clnt.ends net server e),
  (let (e, clnt', net', run, off) =
        make_end-is_on (disconnect_all clnt net).0 (disconnect_all clnt net).1 server name false
          (ap (lookup name) (enable_all-ends false clnt.ends net) ∙ new) refl
          (λ e. enable_all-is_on false clnt.ends net server e) in
      (
        e,
        clnt',
        net',
        run,
        λ later ch handler s.
            let info = read_endname_info net' e in
            process_at-disabled later ch handler s e info info.servername info.server off,
      )),
)

enable_allowed-kept :
    (clnt : Clnt) (ends : List (ℕ × ℕ)) (net : Network) (e : ℕ)
    → is_on net e ≡ true
    → is_on (enable_allowed clnt ends net) e ≡ true
enable_allowed-kept clnt [] net e h = h
enable_allowed-kept clnt ((srv, e') ∷ ends) net e h = elim (Bool-cases (allowed_l clnt srv)) [
  | inr n ↦ rw (enable_allowed, n) (enable_allowed-kept clnt ends net e h)
  | inl y ↦
      rw (enable_allowed, y)
        (enable_allowed-kept clnt ends (enable net e' true) e
          (enable_all-kept true ((srv, e') ∷ []) net e h))
]

-- ConnectTo leaves an enabled end enabled, also where its server is not one of those that it
-- allows: makeEnd goes on to give that end for the server.
pub connect_to_keeps :
    (clnt : Clnt) (net : Network) (srvs : List ℕ) (server name e : ℕ)
    → lookup server clnt.ends ≡ some e
    → is_on net e ≡ true
    → member server srvs ≡ false
    → (allowed_l (connect_to clnt net srvs).0 server ≡ false)
      × (is_on (connect_to clnt net srvs).1 e ≡ true)
      × (make_end (connect_to clnt net srvs).0 (connect_to clnt net srvs).1 server name
          ≡ some (e, (connect_to clnt net srvs).0, (connect_to clnt net srvs).1))
unfolding connect_to make_end
connect_to_keeps clnt net srvs server name e at on out = (
  out,
  enable_allowed-kept (connect_to clnt net srvs).0 clnt.ends net e on,
  rw (make_end, at) refl,
)
