-- ===== src/ShardCfg/Change/Keys.antt =====
-- The keys of the map of groups under the map's operations.
use mit.Prelude.{keys, ℕ, ◌≡◌, refl, arith, String, List, [], ◌∷◌, length, member, lookup, nat_eq}
use mit.ShardCfg.Change.{has_group}

pub has_group-keys : (m : List (ℕ × List String)) (g : ℕ) → has_group m g ≡ member g (keys m)
unfolding lookup
has_group-keys [] g = refl
has_group-keys ((k, v) ∷ m) g = ground (arith, has_group-keys m g)

pub length-keys : (m : List (ℕ × List String)) → length (keys m) ≡ length m
length-keys [] = refl
length-keys ((k, v) ∷ m) = omega (arith, length-keys m)
