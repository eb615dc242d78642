-- ===== src/ShardCfg/Change.antt =====
-- Join, Leave and what reads a configuration (shardkv1/shardcfg/shardcfg.go).
pub mod Groups
pub mod Keys
pub mod Laws
use text.Mathlib.Text.{◌==◌ as str_eq}
use mit.Prelude.{
  keys, ℕ, zero, suc, ◌+◌, String, Bool, true, false, ◌&&◌, ◌||◌, not, Option, none, some, List, [],
  ◌∷◌, nat_eqb, ltb, length, count, get_elem?, if◌then◌else◌, lookup, insert, delete, nat_eq,
}
use mit.ShardCfg.{ShardConfig, make_shard_config, rebalance}

-- A change ends in `log.Fatalf`, or returns whether it was made; `stuck` is a loop out of fuel.
pub data Outcome : Type 0 where
  fatal stuck : Outcome
  returned : Bool → ShardConfig → Outcome

abbrev pub has_server : String → List String → Bool
has_server s [] = false
has_server s (x ∷ xs) = str_eq s x || has_server s xs

abbrev pub shares_server : List String → List String → Bool
shares_server [] servers = false
shares_server (s ∷ xservers) servers = has_server s servers || shares_server xservers servers

-- The nested loops over the groups that there are.
abbrev pub clashes : List (ℕ × List String) → List String → Bool
clashes [] servers = false
clashes ((_, xservers) ∷ groups) servers = shares_server xservers servers || clashes groups servers

-- The loop of `Join`, over the new groups in the order of the map's iteration.
unfoldable pub join_from : Bool → ShardConfig → List (ℕ × List String) → Outcome
join_from changed c [] = if not changed then fatal else returned true (record c { num = c.num + 1 })
join_from changed c ((gid, servers) ∷ more) =
    let rest = join_from true (record c { groups = insert gid servers c.groups }) more in
    elim (lookup gid c.groups) [
      | some _ ↦ returned false c
      | none ↦ if clashes c.groups servers then fatal else rest
    ]

unfoldable pub join : ShardConfig → List (ℕ × List String) → Outcome
join c servers = join_from false c servers

-- The loop of `Leave`.
unfoldable pub leave_from : Bool → ShardConfig → List ℕ → Outcome
leave_from changed c [] =
    if not changed then fatal else returned true (record c { num = c.num + 1 })
leave_from changed c (gid ∷ more) =
    let rest = leave_from true (record c { groups = delete gid c.groups }) more in
    elim (lookup gid c.groups) [ none ↦ returned false c | some _ ↦ rest ]

unfoldable pub leave : ShardConfig → List ℕ → Outcome
leave c gids = leave_from false c gids

abbrev pub rebalanced : Option ShardConfig → Outcome
rebalanced none = stuck
rebalanced (some c) = returned true c

-- JoinBalance and LeaveBalance, after their first call.
abbrev pub then_rebalance : Outcome → Outcome
then_rebalance fatal = fatal
then_rebalance stuck = stuck
then_rebalance (returned false c) = returned false c
then_rebalance (returned true c) = rebalanced (rebalance c)

unfoldable pub join_balance : ShardConfig → List (ℕ × List String) → Outcome
join_balance c servers = then_rebalance (join c servers)

unfoldable pub leave_balance : ShardConfig → List ℕ → Outcome
leave_balance c gids = then_rebalance (leave c gids)

abbrev pub copy_groups : List (ℕ × List String) → List (ℕ × List String) → List (ℕ × List String)
copy_groups [] to = to
copy_groups ((k, srvs) ∷ from) to = copy_groups from (insert k srvs to)

-- `Copy`: a new configuration, its map filled key by key.
unfoldable pub copy : ShardConfig → ShardConfig
copy c = record make_shard_config {
  num = c.num;
  shards = c.shards;
  groups = copy_groups c.groups [];
}

-- `GidServers`; `none` is an index out of the array.
unfoldable pub gid_servers : ShardConfig → ℕ → Option (ℕ × Option (List String))
gid_servers c sh = elim (get_elem? c.shards sh) [
  | none ↦ none
  | some gid ↦ some (gid, lookup gid c.groups)
]

abbrev pub serves : ℕ → List ℕ → Bool
serves gid [] = false
serves gid (g ∷ shards) = nat_eqb g gid || serves gid shards

-- `IsMember`
unfoldable pub is_member : ShardConfig → ℕ → Bool
is_member c gid = serves gid c.shards

abbrev pub has_group : List (ℕ × List String) → ℕ → Bool
has_group groups g = elim (lookup g groups) [ none ↦ false | some _ ↦ true ]

abbrev pub all_grouped : List (ℕ × List String) → List ℕ → Bool
all_grouped groups [] = true
all_grouped groups (g ∷ gs) = has_group groups g && all_grouped groups gs

-- The loop that finds the smallest and the largest load.
abbrev pub loads_within : List ℕ → List ℕ → ℕ → ℕ → Bool
loads_within shards [] lo hi = not (ltb (lo + 1) hi)
loads_within shards (g ∷ gids) lo hi =
    let n = count g shards in
    loads_within shards gids (if ltb n lo then n else lo) (if ltb hi n then n else hi)

-- `CheckConfig`: whether it passes, with no call of `fatalf`.
unfoldable pub check_config : ShardConfig → List ℕ → Bool
check_config c groups =
    nat_eqb (length c.groups) (length groups)
    && (all_grouped c.groups groups
        && ((nat_eqb (length groups) 0 || all_grouped c.groups c.shards)
            && loads_within c.shards (keys c.groups) 257 0))
