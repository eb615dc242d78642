-- ===== src/ShardCfg/Balance.antt =====
-- `Rebalance` of shardkv1/shardcfg/shardcfg.go and the loads that it leaves.
use mit.Prelude.{
  keys, ℕ, zero, suc, ◌+◌, ◌≤◌, ◌<◌, ◌≡◌, ◌≢◌, refl, ◌∙◌, arith, true, false, String, Option, none,
  some, List, [], ◌∷◌, ltb, length, count, member, IsDistinct, replicate, Bool-cases, ◌⊎◌, inl, inr,
}
use native.Mathlib.Nat.{zero-add}
use mit.ShardCfg.{
  ShardConfig, unbalanced, analyze, assign, move_one, move_bound, even_out, rebalance,
}
use mit.ShardCfg.Analyze.{analyze-Picked}
use mit.ShardCfg.Assign.{AllIn, assign-AllIn}
use mit.ShardCfg.Moves.{length-move_one, move_one-AllIn, spread, spread-move_one, spread-le}

-- `CheckConfig`: no group has two shards more than another.
abbrev pub IsEven : List ℕ → List ℕ → Type 0
IsEven gids shards =
    (g h : ℕ) → member g gids ≡ true → member h gids ≡ true → count g shards ≤ count h shards + 1

module _ (gids : List ℕ) (some_group : gids ≢ []) (distinct : IsDistinct gids) where
  -- What the test of the loop says: the loads are even, or a move lowers the measure.
  test_lem :
      (shards : List ℕ)
      → length shards < 257
      → let l = analyze gids shards in
        ((unbalanced l.most_gid l.most l.least_gid l.fewest ≡ none) × IsEven gids shards)
        ⊎ ((mg : ℕ) × (lg : ℕ) × (unbalanced l.most_gid l.most l.least_gid l.fewest ≡ some (mg, lg))
            × (member lg gids ≡ true)
            × (spread gids (move_one mg lg shards) < spread gids shards))
  test_lem shards small =
      let l = analyze gids shards in
      let p = analyze-Picked shards gids some_group small in
      elim (Bool-cases (ltb p.mn (l.fewest + 2))) [
        | inl e ↦ inl (
          ground (arith, p.most_gid_is, p.most_is, p.least_gid_is),
          λ g h ing inh. ground (arith, p.bounds g ing, p.bounds h inh),
        )
        | inr e ↦ inr (
          p.mg,
          p.lg,
          ground (arith, p.most_gid_is, p.most_is, p.least_gid_is),
          p.lg_in,
          spread-move_one gids shards p.mg p.lg distinct p.mg_in p.lg_in
              (ground (arith, p.mn_is, p.ln_is)),
        )
      ]

  abbrev Evened : List ℕ → Option (List ℕ) → Type 0
  Evened shards r =
      (shards' : List ℕ) × (r ≡ some shards')
      × (length shards' ≡ length shards)
      × AllIn gids shards'
      × IsEven gids shards'

  even_out_lem :
      (fuel : ℕ) (shards : List ℕ)
      → spread gids shards < fuel
      → length shards < 257
      → AllIn gids shards
      → Evened shards (even_out fuel gids shards)
  unfolding even_out
  even_out_lem zero shards enough small a = absurd (omega arith)
  even_out_lem (suc fuel) shards enough small a = elim (test_lem shards small) [
    | inl (e, even) ↦ rw (e, even_out) (shards, refl, refl, a, even)
    | inr (mg, lg, e, inl', less) ↦
        rw (e, even_out)
          (let moved = move_one mg lg shards in
            let (shards', ran, same, a', even) =
              even_out_lem fuel moved (omega arith) (omega (arith, length-move_one mg lg shards))
                (move_one-AllIn gids mg lg shards inl' a) in
            (shards', ran, same ∙ length-move_one mg lg shards, a', even))
  ]

groups-some : (m : List (ℕ × List String)) → keys m ≢ [] → ltb (length m) 1 ≡ false
groups-some [] ne = absurd (ne refl)
groups-some (g ∷ m) ne = ground arith

-- Rebalance ends within the bound, keeps the number, the groups and the count of shards, and with
-- at least one group it leaves every shard with a group that there is, and the groups' loads at
-- most one apart.
pub rebalance_lem :
    (c : ShardConfig)
    → keys c.groups ≢ []
    → IsDistinct (keys c.groups)
    → length c.shards < 257
    → (c' : ShardConfig) × (rebalance c ≡ some c')
      × (c'.num ≡ c.num)
      × (c'.groups ≡ c.groups)
      × (length c'.shards ≡ length c.shards)
      × AllIn (keys c.groups) c'.shards
      × IsEven (keys c.groups) c'.shards
unfolding rebalance
rebalance_lem c some_group distinct small =
    let gids = keys c.groups in
    let (a, l) = assign-AllIn gids [] c.shards some_group (omega arith) tt in
    let assigned = assign gids [] c.shards in
    let (shards', ran, same, a', even) =
      even_out_lem gids some_group distinct (move_bound assigned) assigned
        (omega (arith, spread-le gids assigned distinct)) (omega (arith, l)) a in
    (
      record c { shards = shards' },
      rw (groups-some c.groups some_group, ran, rebalance),
      refl,
      refl,
      same ∙ l ∙ zero-add (length c.shards),
      a',
      even,
    )

groups-none : (m : List (ℕ × List String)) → keys m ≡ [] → ltb (length m) 1 ≡ true
groups-none [] e = refl
groups-none (g ∷ m) e = cc

-- With no group Rebalance leaves every shard without one.
pub rebalance-none :
    (c : ShardConfig)
    → keys c.groups ≡ []
    → rebalance c ≡ some (record c { shards = replicate (length c.shards) 0 })
unfolding rebalance
rebalance-none c e = rw (groups-none c.groups e)
