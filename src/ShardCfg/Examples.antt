-- ===== src/ShardCfg/Examples.antt =====
-- The theorems on shardkv1/shardcfg/shardcfg.go at concrete configurations.
use mit.Prelude.{ℕ, ◌≡◌, ◌≢◌, ◌⊎◌, refl, arith, some, List, [], ◌∷◌, length, replicate, keys}
use mit.ShardCfg.{ShardConfig, rebalance}
use mit.ShardCfg.Assign.{AllIn}
use mit.ShardCfg.Balance.{IsEven, rebalance_lem}
use mit.ShardCfg.Change.{join_balance, leave_balance}
use mit.ShardCfg.Change.Groups.{Groups, IsJoined, IsTaken, IsJoinedUpTo, IsLeft, IsLeftUpTo}
use mit.ShardCfg.Change.Laws.{IsValid, Balanced, join_balance-Balanced, leave_balance-Balanced}

-- Two groups, of which one serves all shards but one.
abbrev lopsided : ShardConfig
lopsided = record {
  num = 3;
  shards = 7 ∷ replicate 11 4;
  groups = (4, "a" ∷ []) ∷ (7, "b" ∷ []) ∷ [];
}

lopsided-IsValid : IsValid lopsided
lopsided-IsValid = record { all_shards = refl; distinct = (refl, (refl, tt)) }

abbrev newcomers : Groups
newcomers = (9, "c" ∷ []) ∷ []

join_balance-Balanced_example :
    Balanced
      ((newcomers ≡ []) ⊎ IsTaken newcomers lopsided.groups)
      (IsJoined newcomers lopsided.groups)
      (IsJoinedUpTo newcomers lopsided.groups)
      lopsided
      (join_balance lopsided newcomers)
join_balance-Balanced_example = join_balance-Balanced lopsided newcomers lopsided-IsValid

abbrev leavers : List ℕ
leavers = 4 ∷ []

leave_balance-Balanced_example :
    Balanced
      (leavers ≡ [])
      (IsLeft leavers lopsided.groups)
      (IsLeftUpTo leavers lopsided.groups)
      lopsided
      (leave_balance lopsided leavers)
leave_balance-Balanced_example = leave_balance-Balanced lopsided leavers lopsided-IsValid

some_groups : keys lopsided.groups ≢ []
some_groups e = cc

rebalance_lem_example :
    (c' : ShardConfig) × (rebalance lopsided ≡ some c')
    × (c'.num ≡ lopsided.num)
    × (c'.groups ≡ lopsided.groups)
    × (length c'.shards ≡ length lopsided.shards)
    × AllIn (keys lopsided.groups) c'.shards
    × IsEven (keys lopsided.groups) c'.shards
rebalance_lem_example = rebalance_lem lopsided some_groups lopsided-IsValid.distinct (omega arith)
