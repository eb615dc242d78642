-- ===== src/Tester/Clients.antt =====
-- tester1/clnts.go: the ends of a clerk's client, made on the first call to a server. Servers and
-- ends are known by the names that the network has for them.
pub mod Reach
use mit.Prelude.{
  ℕ, Bool, true, false, Option, none, some, List, [], ◌∷◌, member, nat_eq, nat_eqb, lookup, insert,
  delete, if◌then◌else◌,
}
use mit.Net.{Network, make_end as net_make_end, delete_end, enable, connect as connect_end}

-- `ends` maps a server to the name of its end; `srvs` is `none` for nil.
pub record Clnt : Type 0 where
  pub ends : List (ℕ × ℕ)
  pub srvs : Option (List ℕ)

unfoldable pub make_clnt_to : Option (List ℕ) → Clnt
make_clnt_to srvs = record { ends = []; srvs = srvs }

-- allowedL; the loop is `member`.
abbrev pub allowed_l : Clnt → ℕ → Bool
allowed_l clnt server = elim clnt.srvs [ none ↦ true | some srvs ↦ member server srvs ]

-- makeEnd, with the name that Randstring draws. `none` is a log.Fatalf of MakeEnd.
unfoldable pub make_end : Clnt → Network → ℕ → ℕ → Option (ℕ × Clnt × Network)
make_end clnt net server name = elim (lookup server clnt.ends) [
  | some e ↦ some (e, clnt, net)
  | none ↦ elim (net_make_end net name) [
    | none ↦ none
    | some net' ↦ some (
      name,
      record clnt { ends = insert server name clnt.ends },
      enable (connect_end net' name server) name (allowed_l clnt server),
    )
  ]
]

-- The loops of ConnectAll and DisconnectAll.
abbrev pub enable_all : Bool → List (ℕ × ℕ) → Network → Network
enable_all b [] net = net
enable_all b ((_, e) ∷ ends) net = enable_all b ends (enable net e b)

unfoldable pub connect_all : Clnt → Network → Clnt × Network
connect_all clnt net = (record clnt { srvs = none }, enable_all true clnt.ends net)

unfoldable pub disconnect_all : Clnt → Network → Clnt × Network
disconnect_all clnt net = (record clnt { srvs = some [] }, enable_all false clnt.ends net)

-- The loop of ConnectTo.
abbrev pub enable_allowed : Clnt → List (ℕ × ℕ) → Network → Network
enable_allowed clnt [] net = net
enable_allowed clnt ((srv, e) ∷ ends) net =
    enable_allowed clnt ends (if allowed_l clnt srv then enable net e true else net)

unfoldable pub connect_to : Clnt → Network → List ℕ → Clnt × Network
connect_to clnt net srvs =
    let clnt' = record clnt { srvs = some srvs } in (clnt', enable_allowed clnt' clnt.ends net)

-- The loop of Disconnect.
abbrev pub disable_of : ℕ → List (ℕ × ℕ) → Network → Network
disable_of srv [] net = net
disable_of srv ((s, e) ∷ ends) net =
    disable_of srv ends (if nat_eqb s srv then enable net e false else net)

unfoldable pub disconnect : Clnt → Network → ℕ → Network
disconnect clnt net srv = disable_of srv clnt.ends net

-- `remove`; `none` is a log.Fatalf of DeleteEnd.
abbrev pub remove_ends : List (ℕ × ℕ) → Network → Option Network
remove_ends [] net = some net
remove_ends ((_, e) ∷ ends) net = elim (delete_end net e) [
  | none ↦ none
  | some net' ↦ remove_ends ends net'
]

unfoldable pub remove : Clnt → Network → Option Network
remove clnt net = remove_ends clnt.ends net
