-- ===== src/ShardCfg.antt =====
-- shardkv1/shardcfg/shardcfg.go: which group serves which shard, and how a change of the groups
-- rebalances the shards.
pub mod Analyze
pub mod Assign
pub mod Moves
pub mod Balance
pub mod Change
mod Examples
use mit.Prelude.{
  ℕ, zero, suc, ◌+◌, ◌*◌, ◌%◌, String, Bool, true, false, ◌&&◌, ◌||◌, not, Option, none, some, List,
  [], ◌∷◌, ◌++◌, map, nat_eqb, ltb, leb, length, get_elem?, get_or, replicate, count, member,
  sorted, keys, if◌then◌else◌, lookup, insert, delete, nat_eq,
}
use text.Mathlib.Text.{◌==◌ as str_eq}

abbrev pub n_shards : ℕ
n_shards = 12

-- Group ids are the `Tgid`s from 0 on; 0 is no group.
pub record ShardConfig : Type 0 where
  pub num : ℕ
  pub shards : List ℕ
  pub groups : List (ℕ × List String)

unfoldable pub make_shard_config : ShardConfig
make_shard_config = record { num = 0; shards = replicate n_shards 0; groups = [] }

-- `Key2Shard`, over the 32-bit hash of the key (FNV-1a of Go's library).
unfoldable pub key_to_shard : (String → ℕ) → String → ℕ
key_to_shard sum32 key = sum32 key % n_shards

-- The groups with most and with fewest shards and their numbers of shards.
pub record Loads : Type 0 where
  pub most_gid : Option ℕ
  pub most : Option ℕ
  pub least_gid : Option ℕ
  pub fewest : ℕ

-- `none` is the -1 that mg, mn and lg start with.
abbrev pub no_loads : Loads
no_loads = record { most_gid = none; most = none; least_gid = none; fewest = 257 }

abbrev pub exceeds : ℕ → Option ℕ → Bool
exceeds n none = true
exceeds n (some m) = ltb m n

-- The body of the loop of `analyze`, at group `g` with `n` shards.
abbrev pub weigh : Loads → ℕ → ℕ → Loads
weigh l g n =
    let l1 = if ltb n l.fewest then record l { fewest = n; least_gid = some g } else l in
    if exceeds n l1.most then record l1 { most = some n; most_gid = some g } else l1

abbrev pub weigh_all : List ℕ → Loads → List ℕ → Loads
weigh_all shards l [] = l
weigh_all shards l (g ∷ gs) = weigh_all shards (weigh l g (count g shards)) gs

-- `analyze`, over the shards and the keys of the map of groups.
unfoldable pub analyze : List ℕ → List ℕ → Loads
analyze gids shards = weigh_all shards no_loads (sorted gids)

-- What is written for a group id that may be -1: `analyze` finds a group whenever there is one, and
-- the code asks only then.
abbrev pub gid_or : Option ℕ → ℕ → ℕ
gid_or none g = g
gid_or (some lg) g = lg

-- Rebalance, first loop: the shards of no group go to the group with fewest shards. `seen` are the
-- shards already passed, in order.
unfoldable pub assign : List ℕ → List ℕ → List ℕ → List ℕ
assign gids seen [] = seen
assign gids seen (g ∷ rest) =
    let target =
      if member g gids then g else gid_or (analyze gids (seen ++ g ∷ rest)).least_gid g in
    assign gids (seen ++ target ∷ []) rest

-- `for s, g := range c.Shards { if g == mg { c.Shards[s] = lg; break } }`
unfoldable pub move_one : ℕ → ℕ → List ℕ → List ℕ
move_one mg lg [] = []
move_one mg lg (g ∷ rest) =
    let later = move_one mg lg rest in if nat_eqb g mg then lg ∷ rest else g ∷ later

-- The test of the second loop, `mn >= ln+2`, with the groups to move between.
abbrev pub unbalanced : Option ℕ → Option ℕ → Option ℕ → ℕ → Option (ℕ × ℕ)
unbalanced (some mg) (some mn) (some lg) ln = if ltb mn (ln + 2) then none else some (mg, lg)
unbalanced _ _ _ ln = none

-- Rebalance, second loop, on fuel; `none` means that the fuel ran out.
unfoldable pub even_out : ℕ → List ℕ → List ℕ → Option (List ℕ)
even_out zero gids shards = none
even_out (suc fuel) gids shards =
    let l = analyze gids shards in
    elim (unbalanced l.most_gid l.most l.least_gid l.fewest) [
      | none ↦ some shards
      | some (mg, lg) ↦ even_out fuel gids (move_one mg lg shards)
    ]

-- Fuel that is enough: a move lowers the sum of the squares of the loads.
abbrev pub move_bound : List ℕ → ℕ
move_bound shards = length shards * length shards + 1

-- `Rebalance`.
unfoldable pub rebalance : ShardConfig → Option ShardConfig
rebalance c =
    if ltb (length c.groups) 1
    then some (record c { shards = replicate (length c.shards) 0 })
    else let gids = keys c.groups in
      let assigned = assign gids [] c.shards in
      elim (even_out (move_bound assigned) gids assigned) [
        | none ↦ none
        | some shards ↦ some (record c { shards = shards })
      ]
