-- ===== src/Tester/Examples.antt =====
-- The theorems on tester1/group.go for three servers, with one of them cut off, and on
-- tester1/clnts.go for a client that has called a server.
use mit.Prelude.{
  ℕ, zero, suc, ◌+◌, ◌*◌, ◌<◌, ◌≡◌, refl, arith, true, false, some, none, get_elem?, lookup, [],
  ◌∷◌,
}
use mit.Net.{Network, make_network, ReplyMsg, no_reply, Chances, process_req}
use mit.Tester.{Server, ServerGrp, end_name, partition, make_partition}
use mit.Tester.Loops.{is_on}
use mit.Tester.Ends.{IsGroup}
use mit.Tester.Parts.{IsDisjoint, across}
use mit.Tester.Calls.{partition_cuts}
use mit.Tester.Clients.{Clnt, allowed_l, make_end, connect_all, disconnect_all, connect_to}
use mit.Tester.Clients.Reach.{connect_all-make_end, connect_to_keeps}

abbrev ends : ℕ → ℕ → ℕ
ends i j = i * 3 + j

apart : (i j a b : ℕ) → i < 3 → j < 3 → a < 3 → b < 3 → ends i j ≡ ends a b → (i ≡ a) × (j ≡ b)
apart i j a b li lj la lb e = (omega arith, omega arith)

abbrev srv : ℕ → Server
srv i = record { saved = none; end_names = ends i 0 ∷ ends i 1 ∷ ends i 2 ∷ []; dc = true }

abbrev group : ServerGrp
group = record { srvs = srv 0 ∷ srv 1 ∷ srv 2 ∷ []; gid = 0; connected = true ∷ false ∷ true ∷ [] }

group-IsGroup : IsGroup 3 ends apart group
group-IsGroup = (named, refl)
  where
    at : (i j : ℕ) → j < 3 → get_elem? (srv i).end_names j ≡ some (ends i j)
    at i zero l = refl
    at i (suc zero) l = refl
    at i (suc (suc zero)) l = refl
    at i (suc (suc (suc j))) l = absurd (omega arith)

    named : (i j : ℕ) → i < 3 → j < 3 → end_name group i j ≡ some (ends i j)
    named zero j li lj = at 0 j lj
    named (suc zero) j li lj = at 1 j lj
    named (suc (suc zero)) j li lj = at 2 j lj
    named (suc (suc (suc i))) j li lj = absurd (omega arith)

parts-IsDisjoint : IsDisjoint (0 ∷ 1 ∷ []) (2 ∷ [])
parts-IsDisjoint x h = ground arith

-- With an odd number of servers the leader is in the smaller part; with an even one, server 0 is
-- in both parts.
odd_parts : make_partition group 1 ≡ some (0 ∷ 2 ∷ [], 1 ∷ [])
unfolding make_partition
odd_parts = refl

even_parts :
    make_partition (record group { srvs = srv 3 ∷ group.srvs }) 3
    ≡ some (0 ∷ 1 ∷ 2 ∷ [], 0 ∷ 3 ∷ [])
unfolding make_partition
even_parts = refl

abbrev counter : ℕ → ℕ → ReplyMsg × ℕ
counter at n = (record { ok = true; reply = suc n ∷ [] }, suc n)

partition_cuts_example :
    (sg' : ServerGrp) × (net' : Network) × (partition group make_network (0 ∷ 1 ∷ []) (2 ∷ [])
      ≡ some (sg', net'))
    × ((x y : ℕ) (later : Network) (ch : Chances) (handler : ℕ → ℕ → ReplyMsg × ℕ) (s : ℕ)
        → x < 3
        → y < 3
        → across (0 ∷ 1 ∷ []) (2 ∷ []) x y ≡ true
        → process_req net' later (ends x y) ch handler s ≡ (no_reply, s))
partition_cuts_example =
    partition_cuts 3 ends apart group make_network (0 ∷ 1 ∷ []) (2 ∷ []) group-IsGroup
      (omega arith, (omega arith, tt)) (omega arith, tt) parts-IsDisjoint

-- A client with end 7 to server 1, which has been called.
abbrev client : Clnt
client = record { ends = (1, 7) ∷ []; srvs = none }

abbrev reached : Network
reached = record make_network {
  ends = (7, 7) ∷ [];
  enabled = (7, true) ∷ [];
  connections = (7, some 1) ∷ [];
}

connect_all-make_end_example :
    ((e : ℕ) × (clnt' : Clnt) × (net' : Network) × (make_end
          (connect_all client reached).0
          (connect_all client reached).1
          2
          8
        ≡ some (e, clnt', net'))
      × (is_on net' e ≡ true))
    × ((e : ℕ) × (clnt' : Clnt) × (net' : Network) × (make_end
            (disconnect_all client reached).0
            (disconnect_all client reached).1
            2
            8
          ≡ some (e, clnt', net'))
        × ((later : Network) (ch : Chances) (handler : ℕ → ℕ → ReplyMsg × ℕ) (s : ℕ)
            → process_req net' later e ch handler s ≡ (no_reply, s)))
unfolding make_network lookup
connect_all-make_end_example = connect_all-make_end client reached 2 8 refl

connect_to_keeps_example :
    (allowed_l (connect_to client reached (2 ∷ [])).0 1 ≡ false)
    × (is_on (connect_to client reached (2 ∷ [])).1 7 ≡ true)
    × (make_end (connect_to client reached (2 ∷ [])).0 (connect_to client reached (2 ∷ [])).1 1 9
        ≡ some (7, (connect_to client reached (2 ∷ [])).0, (connect_to client reached (2 ∷ [])).1))
unfolding make_network lookup
connect_to_keeps_example = connect_to_keeps client reached (2 ∷ []) 1 9 7 refl refl refl
