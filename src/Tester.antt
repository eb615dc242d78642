-- ===== src/Tester.antt =====
-- tester1/group.go and tester1/srv.go: the servers of a group, by place, and the ends between them
-- on the simulated network. `server_name` is ServerName. `none` is a panic or a log.Fatalf.
pub mod Loops
pub mod Ends
pub mod Parts
pub mod Clients
pub mod Partition
pub mod Calls
pub mod Groups
mod Examples
use mit.Prelude.{
  ℕ, zero, suc, ◌+◌, ◌-◌, ◌/◌, Bool, true, false, Option, none, some, List, [], ◌∷◌, ltb, nat_eqb,
  length, get_elem?, set, replicate, if◌then◌else◌,
}
use mit.Net.{Network, make_end, enable, add_server, delete_server, connect as connect_end}
use mit.Persister.{Persister, make_persister}

-- `dc` is whether a process runs. endNames is never nil: makeServer sets it.
pub record Server : Type 0 where
  pub saved : Option Persister
  pub end_names : List ℕ
  pub dc : Bool

pub record ServerGrp : Type 0 where
  pub srvs : List Server
  pub gid : ℕ
  pub connected : List Bool

-- `sg.srvs[i].endNames[j]`
abbrev pub end_name : ServerGrp → ℕ → ℕ → Option ℕ
end_name sg i j = elim (get_elem? sg.srvs i) [ none ↦ none | some s ↦ get_elem? s.end_names j ]

abbrev pub all_from : ℕ → ℕ → List ℕ
all_from i zero = []
all_from i (suc n) = i ∷ all_from (suc i) n

abbrev pub all : ServerGrp → List ℕ
all sg = all_from 0 (length sg.srvs)

-- The loops of the connects: `end` is the end for a peer, and peers that are not connected are
-- passed over.
abbrev pub enable_peers : List Bool → (ℕ → Option ℕ) → List ℕ → Network → Option Network
enable_peers connected end [] net = some net
enable_peers connected end (j ∷ to) net = elim (get_elem? connected j) [
  | none ↦ none
  | some false ↦ enable_peers connected end to net
  | some true ↦ elim (end j) [
    | none ↦ none
    | some e ↦ enable_peers connected end to (enable net e true)
  ]
]

-- The loops of the disconnects.
abbrev pub disable_peers : (ℕ → Option ℕ) → List ℕ → Network → Option Network
disable_peers end [] net = some net
disable_peers end (j ∷ from) net = elim (end j) [
  | none ↦ none
  | some e ↦ disable_peers end from (enable net e false)
]

-- `sg.connected[i] = b`
abbrev pub mark : ServerGrp → ℕ → Bool → Option ServerGrp
mark sg i b = elim (get_elem? sg.connected i) [
  | none ↦ none
  | some _ ↦ some (record sg { connected = set sg.connected i b })
]

unfoldable pub connect : ServerGrp → Network → ℕ → List ℕ → Option (ServerGrp × Network)
connect sg net i to = elim (mark sg i true) [
  | none ↦ none
  | some sg' ↦ elim (enable_peers sg'.connected (end_name sg' i) to net) [
    | none ↦ none
    | some net' ↦ elim (enable_peers sg'.connected (λ j. end_name sg' j i) to net') [
      | none ↦ none
      | some net'' ↦ some (sg', net'')
    ]
  ]
]

unfoldable pub disconnect : ServerGrp → Network → ℕ → List ℕ → Option (ServerGrp × Network)
disconnect sg net i from = elim (mark sg i false) [
  | none ↦ none
  | some sg' ↦ elim (disable_peers (end_name sg' i) from net) [
    | none ↦ none
    | some net' ↦ elim (disable_peers (λ j. end_name sg' j i) from net') [
      | none ↦ none
      | some net'' ↦ some (sg', net'')
    ]
  ]
]

abbrev pub connect_one : ServerGrp → Network → ℕ → Option (ServerGrp × Network)
connect_one sg net i = connect sg net i (all sg)

abbrev pub connect_each : List ℕ → ServerGrp → Network → Option (ServerGrp × Network)
connect_each [] sg net = some (sg, net)
connect_each (i ∷ is) sg net = elim (connect_one sg net i) [
  | none ↦ none
  | some (sg', net') ↦ connect_each is sg' net'
]

abbrev pub connect_all : ServerGrp → Network → Option (ServerGrp × Network)
connect_all sg net = connect_each (all sg) sg net

abbrev pub disconnect_all : ServerGrp → Network → ℕ → Option (ServerGrp × Network)
disconnect_all sg net i = disconnect sg net i (all sg)

-- One loop of Partition, over the servers `is` of the part `p`; `q` is the other part.
abbrev pub separate : List ℕ → List ℕ → List ℕ → ServerGrp → Network → Option (ServerGrp × Network)
separate p q [] sg net = some (sg, net)
separate p q (i ∷ is) sg net = elim (disconnect sg net i q) [
  | none ↦ none
  | some (sg', net') ↦ elim (connect sg' net' i p) [
    | none ↦ none
    | some (sg'', net'') ↦ separate p q is sg'' net''
  ]
]

unfoldable pub partition : ServerGrp → Network → List ℕ → List ℕ → Option (ServerGrp × Network)
partition sg net p1 p2 = elim (separate p1 p2 p1 sg net) [
  | none ↦ none
  | some (sg', net') ↦ separate p2 p1 p2 sg' net'
]

-- The loop of MakePartition, at server `i` with `k` to go.
abbrev pub fill : ℕ → ℕ → ℕ → ℕ → List ℕ → List ℕ → List ℕ × List ℕ
fill l zero i j p1 p2 = (p1, p2)
fill l (suc k) i j p1 p2 =
    let skip = fill l k (suc i) j p1 p2 in
    let first = fill l k (suc i) (suc j) (set p1 j i) p2 in
    let second = fill l k (suc i) (suc j) p1 (set p2 (j - length p1) i) in
    if nat_eqb i l then skip else if ltb j (length p1) then first else second

unfoldable pub make_partition : ServerGrp → ℕ → Option (List ℕ × List ℕ)
make_partition sg l =
    let n = length sg.srvs in
    let (p1, p2) = fill l n 0 0 (replicate (n / 2 + 1) 0) (replicate (n / 2) 0) in
    if nat_eqb (length p2) 0 then none else some (p1, set p2 (length p2 - 1) l)

-- The persister that startServer keeps, or a new one.
abbrev pub kept : Option Persister → Persister
kept none = make_persister
kept (some p) = p

-- Server.shutdownServer; `p` is what the process has in its persister.
abbrev pub shut : Persister → Server → Server
shut p s = if s.dc then record s { saved = some p; dc = false } else s

module _ (server_name : ℕ → ℕ → ℕ) where
  -- The loop of makeServer from place `j` on; the names are the draws of Randstring.
  abbrev pub make_ends : ℕ → ℕ → List ℕ → Network → Option Network
  make_ends gid j [] net = some net
  make_ends gid j (e ∷ names) net = elim (make_end net e) [
    | none ↦ none
    | some net' ↦ make_ends gid (suc j) names (connect_end net' e (server_name gid j))
  ]

  unfoldable pub make_server : Network → ℕ → List ℕ → Option (Server × Network)
  make_server net gid names = elim (make_ends gid 0 names net) [
    | none ↦ none
    | some net' ↦ some (record { saved = none; end_names = names; dc = false }, net')
  ]

  -- StartServer, whose process starts: `rs` is the address of the server that is added.
  unfoldable pub start_server : ServerGrp → Network → ℕ → List ℕ → ℕ → Option (ServerGrp × Network)
  start_server sg net i names rs = elim (get_elem? sg.srvs i) [
    | none ↦ none
    | some s ↦ elim (make_server net sg.gid names) [
      | none ↦ none
      | some (srv, net') ↦
          let srv' = record srv { saved = some (kept s.saved); dc = true } in
          some (record sg { srvs = set sg.srvs i srv' }, add_server net' (server_name sg.gid i) rs)
    ]
  ]

  unfoldable pub shutdown_server :
      ServerGrp → Network → ℕ → Persister → Option (ServerGrp × Network)
  shutdown_server sg net i p = elim (disconnect_all sg net i) [
    | none ↦ none
    | some (sg', net') ↦ elim (get_elem? sg'.srvs i) [
      | none ↦ none
      | some s ↦ some (
        record sg' { srvs = set sg'.srvs i (shut p s) },
        delete_server net' (server_name sg.gid i),
      )
    ]
  ]
