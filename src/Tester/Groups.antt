-- ===== src/Tester/Groups.antt =====
-- tester1/group.go: what is done to all servers of a group. The processes answer to stateSize by
-- the place of their server.
use mit.Prelude.{
  ℕ, suc, ◌≤◌, ◌≡◌, arith, Option, none, some, List, [], ◌∷◌, ltb, length, if◌then◌else◌,
  Option-cases, inl, inr,
}
use mathlib.Core.Option.{none-ne-some, some-injective}
use mit.Net.{Network}
use mit.Persister.{Persister, raft_state_size, snapshot_size}
use mit.Tester.{Server, ServerGrp, all, connect_all, start_server, shutdown_server}

unfoldable pub n_servers : ServerGrp → ℕ
n_servers sg = length sg.srvs

-- The loop of MemSize, RaftSize and SnapshotSize, on the sizes of the servers from place `i` on.
abbrev pub largest_from : (ℕ → Server → Option ℕ) → ℕ → List Server → ℕ → Option ℕ
largest_from size i [] most = some most
largest_from size i (s ∷ srvs) most = elim (size i s) [
  | none ↦ none
  | some n ↦ largest_from size (suc i) srvs (if ltb most n then n else most)
]

-- raftSize and snapshotSize of a server; `none` is the panic of one that never ran.
abbrev pub size_of : (ℕ → ℕ) → (Persister → ℕ) → ℕ → Server → Option ℕ
size_of asked size i s =
    if s.dc then some (asked i) else elim s.saved [ none ↦ none | some p ↦ some (size p) ]

unfoldable pub raft_size : (ℕ → ℕ) → ServerGrp → Option ℕ
raft_size asked sg = largest_from (size_of asked raft_state_size) 0 sg.srvs 0

unfoldable pub largest_snapshot : (ℕ → ℕ) → ServerGrp → Option ℕ
largest_snapshot asked sg = largest_from (size_of asked snapshot_size) 0 sg.srvs 0

module _ (server_name : ℕ → ℕ → ℕ) where
  -- Kill; `has` is what the processes have in their persisters.
  abbrev pub kill : (ℕ → Persister) → List ℕ → ServerGrp → Network → Option (ServerGrp × Network)
  kill has [] sg net = some (sg, net)
  kill has (i ∷ srvs) sg net = elim (shutdown_server server_name sg net i (has i)) [
    | none ↦ none
    | some (sg', net') ↦ kill has srvs sg' net'
  ]

  unfoldable pub shutdown : (ℕ → Persister) → ServerGrp → Network → Option (ServerGrp × Network)
  shutdown has sg net = kill has (all sg) sg net

  -- StartSrvs, with the draws and the address for each place.
  abbrev pub start_srvs :
      (ℕ → List ℕ) → (ℕ → ℕ) → List ℕ → ServerGrp → Network → Option (ServerGrp × Network)
  start_srvs draws address [] sg net = some (sg, net)
  start_srvs draws address (i ∷ srvs) sg net =
      elim (start_server server_name sg net i (draws i) (address i)) [
        | none ↦ none
        | some (sg', net') ↦ start_srvs draws address srvs sg' net'
      ]

  unfoldable pub start_servers :
      (ℕ → List ℕ) → (ℕ → ℕ) → ServerGrp → Network → Option (ServerGrp × Network)
  start_servers draws address sg net = elim (start_srvs draws address (all sg) sg net) [
    | none ↦ none
    | some (sg', net') ↦ connect_all sg' net'
  ]

-- The size that the loop ends with is not below that of any server.
largest_from-bound :
    (size : ℕ → Server → Option ℕ) (i : ℕ) (srvs : List Server) (most top : ℕ)
    → largest_from size i srvs most ≡ some top
    → most ≤ top
largest_from-bound size i [] most top h = omega (arith, some-injective most top h)
largest_from-bound size i (s ∷ srvs) most top h = elim (Option-cases (size i s)) [
  | inl z ↦ absurd (none-ne-some top (rw (largest_from, z) at h))
  | inr (n, got) ↦ ground (
    arith,
    largest_from-bound size (suc i) srvs (if ltb most n then n else most) top
        (rw (largest_from, got) at h),
  )
]
