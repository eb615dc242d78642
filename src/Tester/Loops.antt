-- ===== src/Tester/Loops.antt =====
-- The loops of tester1/srv.go and tester1/group.go that enable and disable ends.
use mit.Prelude.{
  ℕ, ◌<◌, ◌≡◌, refl, sym, ap, ◌∙◌, arith, Bool, true, false, ◌&&◌, ◌||◌, not, Option, some, List,
  [], ◌∷◌, nat_eqb, length, get_elem?, get_elem?-ne-none, nat_eq, lookup, lookup-insert,
  if◌then◌else◌, Bool-cases, Option-cases, inl, inr,
}
use mit.Net.{Network, at_bool, enable}
use mit.Tester.{ServerGrp, enable_peers, disable_peers}

-- Is the end enabled? Is the server of the place marked as connected?
abbrev pub is_on : Network → ℕ → Bool
is_on net e = at_bool (lookup e net.enabled)

abbrev pub is_marked : ServerGrp → ℕ → Bool
is_marked sg i = at_bool (get_elem? sg.connected i)

abbrev pub AllBelow : ℕ → List ℕ → Type 0
AllBelow n [] = Unit
AllBelow n (j ∷ js) = (j < n) × AllBelow n js

-- The end `e` is that of a peer in the list that passes the test.
abbrev pub touched : (ℕ → Bool) → (ℕ → ℕ) → ℕ → List ℕ → Bool
touched c end e [] = false
touched c end e (j ∷ to) = (c j && nat_eqb (end j) e) || touched c end e to

pub is_on-enable :
    (net : Network) (e e' : ℕ) (b : Bool)
    → is_on (enable net e b) e' ≡ (if nat_eqb e e' then b else is_on net e')
unfolding enable
is_on-enable net e e' b = elim (Bool-cases (nat_eqb e e')) [
  | inl y ↦ rw (is_on, lookup-insert e e' b net.enabled, y) refl
  | inr n ↦ rw (is_on, lookup-insert e e' b net.enabled, n) refl
]

pub and_false : (b : Bool) → (b && false) ≡ false
and_false true = refl
and_false false = refl

pub enable_or : (m o t : Bool) → ((if m then true else o) || t) ≡ (o || ((true && m) || t))
enable_or true true t = refl
enable_or true false t = refl
enable_or false o t = refl

pub disable_and :
    (m o t : Bool) → ((if m then false else o) && not t) ≡ (o && not ((true && m) || t))
disable_and true true t = refl
disable_and true false t = refl
disable_and false o t = refl

pub keep_or : (o : Bool) → o ≡ (o || false)
keep_or true = refl
keep_or false = refl

pub keep_and : (o : Bool) → o ≡ (o && true)
keep_and true = refl
keep_and false = refl

module _ (n : ℕ) (connected : List Bool) (len : length connected ≡ n) (end : ℕ → Option ℕ)
    (name : ℕ → ℕ) (named : (j : ℕ) → j < n → end j ≡ some (name j)) where
  abbrev pub test : ℕ → Bool
  test j = at_bool (get_elem? connected j)

  abbrev pub Enabled : List ℕ → Network → Type 0
  Enabled to net =
      (net' : Network) × (enable_peers connected end to net ≡ some net')
      × ((e : ℕ) → is_on net' e ≡ (is_on net e || touched test name e to))

  enable_peers-cons :
      (j : ℕ) (to : List ℕ) (net : Network) (b : Bool)
      → j < n
      → get_elem? connected j ≡ some b
      → Enabled to (if b then enable net (name j) true else net)
      → Enabled (j ∷ to) net
  enable_peers-cons j to net false lt at (net', run, on) =
      (net', rw (enable_peers, at) run, λ e. rw (at) (on e))
  enable_peers-cons j to net true lt at (net', run, on) = (
    net',
    rw (enable_peers, at, named j lt) run,
    λ e.
        on e
        ∙ ap (λ b. b || touched test name e to) (is_on-enable net (name j) e true)
        ∙ enable_or (nat_eqb (name j) e) (is_on net e) (touched test name e to)
        ∙ ap (λ b. is_on net e || ((b && nat_eqb (name j) e) || touched test name e to))
            (sym (ap at_bool at)),
  )

  pub enable_peers-is_on : (to : List ℕ) (net : Network) → AllBelow n to → Enabled to net
  enable_peers-is_on [] net below = (net, refl, λ e. keep_or (is_on net e))
  enable_peers-is_on (j ∷ to) net below = elim (Option-cases (get_elem? connected j)) [
    | inl z ↦ absurd (get_elem?-ne-none connected j (omega (arith, below.0)) z)
    | inr (b, at) ↦
        enable_peers-cons j to net b below.0 at
          (enable_peers-is_on to (if b then enable net (name j) true else net) below.1)
  ]

module _ (n : ℕ) (end : ℕ → Option ℕ) (name : ℕ → ℕ)
    (named : (j : ℕ) → j < n → end j ≡ some (name j)) where
  pub disable_peers-is_on :
      (from : List ℕ) (net : Network)
      → AllBelow n from
      → (net' : Network) × (disable_peers end from net ≡ some net')
        × ((e : ℕ) → is_on net' e ≡ (is_on net e && not (touched (λ j. true) name e from)))
  disable_peers-is_on [] net below = (net, refl, λ e. keep_and (is_on net e))
  disable_peers-is_on (j ∷ from) net below =
      let (net', run, on) = disable_peers-is_on from (enable net (name j) false) below.1 in
      (
        net',
        rw (disable_peers, named j below.0) run,
        λ e.
            on e
            ∙ ap (λ b. b && not (touched (λ k. true) name e from))
                (is_on-enable net (name j) e false)
            ∙ disable_and (nat_eqb (name j) e) (is_on net e) (touched (λ k. true) name e from),
      )
