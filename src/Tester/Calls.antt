-- ===== src/Tester/Calls.antt =====
-- The calls between the parts of a Partition (tester1/group.go) on the network of labrpc/labrpc.go.
use mit.Prelude.{ℕ, ◌<◌, ◌≡◌, true, List, some}
use mit.Net.{Network, ReplyMsg, no_reply, Chances, process_req, read_endname_info}
use mit.Net.Cut.{process_at-disabled}
use mit.Tester.{ServerGrp, partition}
use mit.Tester.Loops.{AllBelow}
use mit.Tester.Ends.{IsGroup}
use mit.Tester.Parts.{IsDisjoint, across}
use mit.Tester.Partition.{partition-is_on}

module _ (n : ℕ) (ends : ℕ → ℕ → ℕ)
    (apart : (i j a b : ℕ)
      → i < n
      → j < n
      → a < n
      → b < n
      → ends i j ≡ ends a b
      → (i ≡ a) × (j ≡ b)) where
  -- After a Partition no call from a server to one of the other part is executed or has a reply, if
  -- each end has a name of its own, the parts have only servers of the group and none in common.
  pub partition_cuts {ℓ} :
      {S : Type ℓ} (sg : ServerGrp) (net : Network) (p1 p2 : List ℕ)
      → IsGroup n ends apart sg
      → AllBelow n p1
      → AllBelow n p2
      → IsDisjoint p1 p2
      → (sg' : ServerGrp) × (net' : Network) × (partition sg net p1 p2 ≡ some (sg', net'))
        × ((x y : ℕ) (later : Network) (ch : Chances) (handler : ℕ → S → ReplyMsg × S) (s : S)
            → x < n
            → y < n
            → across p1 p2 x y ≡ true
            → process_req net' later (ends x y) ch handler s ≡ (no_reply, s))
  unfolding process_req read_endname_info
  partition_cuts sg net p1 p2 ok below1 below2 disjoint =
      let (sg', net', run, cuts, joins) =
        partition-is_on n ends apart sg net p1 p2 ok below1 below2 disjoint in
      (
        sg',
        net',
        run,
        λ x y later ch handler s lx ly a.
            let info = read_endname_info net' (ends x y) in
            process_at-disabled later ch handler s (ends x y) info info.servername info.server
              (cuts x y lx ly a),
      )
