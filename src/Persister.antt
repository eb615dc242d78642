-- ===== src/Persister.antt =====
-- tester1/persister.go: what outlives a server of Raft. A slice that is cloned is the value itself.
use mit.Prelude.{ℕ, List, [], length}

pub record Persister : Type 0 where
  pub raftstate : List ℕ
  pub snapshot : List ℕ

unfoldable pub make_persister : Persister
make_persister = record { raftstate = []; snapshot = [] }

abbrev pub clone : List ℕ → List ℕ
clone orig = orig

-- `Checkpoint`: a new persister with the same contents.
unfoldable pub checkpoint : Persister → Persister
checkpoint ps = record make_persister {
  raftstate = clone ps.raftstate;
  snapshot = clone ps.snapshot;
}

unfoldable pub read_raft_state : Persister → List ℕ
read_raft_state ps = clone ps.raftstate

unfoldable pub raft_state_size : Persister → ℕ
raft_state_size ps = length ps.raftstate

-- `Save`: both at once.
unfoldable pub save : Persister → List ℕ → List ℕ → Persister
save ps raftstate snapshot = record ps { raftstate = clone raftstate; snapshot = clone snapshot }

unfoldable pub read_snapshot : Persister → List ℕ
read_snapshot ps = clone ps.snapshot

unfoldable pub snapshot_size : Persister → ℕ
snapshot_size ps = length ps.snapshot
