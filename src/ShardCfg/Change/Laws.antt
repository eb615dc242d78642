-- ===== src/ShardCfg/Change/Laws.antt =====
-- Join and Leave of shardkv1/shardcfg/shardcfg.go against `CheckConfig`.
use mit.Prelude.{
  keys, ℕ, ◌+◌, ◌≤◌, ◌<◌, ◌≡◌, ◌≢◌, refl, sym, ◌∙◌, ap, ◌⊎◌, subst, arith, String, true, false,
  List, [], ◌∷◌, length, count, count-le-length, member, IsDistinct, replicate, length-replicate,
  inl, inr, nat_eq,
}
use mit.ShardCfg.{ShardConfig, n_shards, rebalance}
use mit.ShardCfg.Assign.{AllIn}
use mit.ShardCfg.Balance.{IsEven, rebalance_lem, rebalance-none}
use mit.ShardCfg.Change.{
  Outcome, fatal, stuck, returned, join_from, join, leave_from, leave, rebalanced, then_rebalance,
  join_balance, leave_balance, all_grouped, loads_within, check_config,
}
use mit.ShardCfg.Change.Groups.{
  Groups, IsJoined, IsTaken, IsJoinedUpTo, IsLeft, IsLeftUpTo, Changed, Changed-map,
  join_from-Changed, leave_from-Changed,
}
use mit.ShardCfg.Change.Keys.{has_group-keys, length-keys}

pub record IsValid (c : ShardConfig) : Type 0 where
  pub all_shards : length c.shards ≡ n_shards
  pub distinct : IsDistinct (keys c.groups)

all_grouped-AllIn :
    (m : List (ℕ × List String)) (gs : List ℕ) → AllIn (keys m) gs → all_grouped m gs ≡ true
all_grouped-AllIn m [] a = refl
all_grouped-AllIn m (g ∷ gs) a = ground (arith, has_group-keys m g, all_grouped-AllIn m gs a.1)

AllIn-weaken : (xs gs : List ℕ) (x : ℕ) → AllIn xs gs → AllIn (x ∷ xs) gs
AllIn-weaken xs [] x a = tt
AllIn-weaken xs (g ∷ gs) x a = (ground arith, AllIn-weaken xs gs x a.1)

AllIn-self : (xs : List ℕ) → AllIn xs xs
AllIn-self [] = tt
AllIn-self (x ∷ xs) = (ground arith, AllIn-weaken xs xs x (AllIn-self xs))

IsEven-within :
    (shards gids : List ℕ) (lo hi : ℕ)
    → hi ≤ lo + 1
    → ((g : ℕ) → member g gids ≡ true → (hi ≤ count g shards + 1) × (count g shards ≤ lo + 1))
    → IsEven gids shards
    → loads_within shards gids lo hi ≡ true
IsEven-within shards [] lo hi h b even = ground arith
IsEven-within shards (g ∷ gids) lo hi h b even =
    IsEven-within shards gids _ _ (ground (arith, b g))
      (λ k ink. ground (arith, b g, b k, even g k, even k g))
      (λ k j ink inj. even k j (ground arith) (ground arith))

empty? : (xs : List ℕ) → (xs ≡ []) ⊎ (xs ≢ [])
empty? [] = inl refl
empty? (x ∷ xs) = inr (λ e. cc)

-- A valid configuration whose shards are in groups and even passes the check.
checks :
    (c : ShardConfig)
    → length c.shards < 257
    → (keys c.groups ≢ [] → AllIn (keys c.groups) c.shards × IsEven (keys c.groups) c.shards)
    → check_config c (keys c.groups) ≡ true
unfolding check_config
checks c small good = elim (empty? (keys c.groups)) [
  | inl e ↦ ground (
    arith,
    length-keys c.groups,
    ap length e,
    all_grouped-AllIn c.groups (keys c.groups) (AllIn-self (keys c.groups)),
    ap (λ (ks : List ℕ). loads_within c.shards ks 257 0) e,
  )
  | inr ne ↦
      let (a, even) = good ne in
      ground (
        arith,
        length-keys c.groups,
        all_grouped-AllIn c.groups (keys c.groups) (AllIn-self (keys c.groups)),
        all_grouped-AllIn c.groups c.shards a,
        IsEven-within c.shards (keys c.groups) 257 0 (omega arith)
            (λ g k. (omega arith, omega (arith, count-le-length g c.shards))) even,
      )
]

-- What a balanced change promises, with what holds if it is fatal, and of the groups if it returns
-- true or false: it does not hang; where it returns true the number has gone up by one, the
-- configuration is valid and `CheckConfig` passes for its groups; where it returns false the number
-- and the shards are as before.
abbrev pub Balanced :
    Type 0 → (Groups → Type 0) → (Groups → Type 0) → ShardConfig → Outcome → Type 0
Balanced F P Q c fatal = F
Balanced F P Q c stuck = ⊥
Balanced F P Q c (returned true c') =
    (c'.num ≡ c.num + 1) × IsValid c' × (check_config c' (keys c'.groups) ≡ true) × P c'.groups
Balanced F P Q c (returned false c') =
    (c'.num ≡ c.num) × (c'.shards ≡ c.shards) × IsDistinct (keys c'.groups) × Q c'.groups

rebalanced-Balanced :
    (F : Type 0) (P Q : Groups → Type 0) (c c1 : ShardConfig)
    → IsValid c
    → (c1.num ≡ c.num + 1) × (c1.shards ≡ c.shards) × IsDistinct (keys c1.groups) × P c1.groups
    → Balanced F P Q c (rebalanced (rebalance c1))
rebalanced-Balanced F P Q c c1 v (num, shards, d, p) = elim (empty? (keys c1.groups)) [
  | inl e ↦ rw (rebalance-none c1 e) (
      let l : length (replicate (length c1.shards) 0) ≡ n_shards =
        length-replicate (length c1.shards) 0 ∙ ap length shards ∙ v.all_shards in
      (
        num,
        record { all_shards = l; distinct = d },
        checks (record c1 { shards = replicate (length c1.shards) 0 }) (omega (arith, l))
            (λ ne. absurd (ne e)),
        p,
      ))
  | inr ne ↦
      let (c', ran, num', groups', l, a, even) =
        rebalance_lem c1 ne d (omega (arith, ap length shards, v.all_shards)) in
      let l' : length c'.shards ≡ n_shards = l ∙ ap length shards ∙ v.all_shards in
      rw ran (
        num' ∙ num,
        record { all_shards = l'; distinct = subst (λ m. IsDistinct (keys m)) (sym groups') d },
        checks c' (omega (arith, l')) (λ _.
            subst (λ m. AllIn (keys m) c'.shards × IsEven (keys m) c'.shards) (sym groups')
              (a, even)),
        subst P (sym groups') p,
      )
]

then_rebalance-Balanced :
    (F : Type 0) (P Q : Groups → Type 0) (c : ShardConfig) (o : Outcome)
    → IsValid c
    → Changed F P Q c o
    → Balanced F P Q c (then_rebalance o)
then_rebalance-Balanced F P Q c fatal v h = h
then_rebalance-Balanced F P Q c stuck v h = h
then_rebalance-Balanced F P Q c (returned false c') v h = h
then_rebalance-Balanced F P Q c (returned true c') v h = rebalanced-Balanced F P Q c c' v h

-- From a valid configuration, JoinBalance does not hang. If it returns true, the number is the next
-- one, the configuration is valid and passes `CheckConfig` for its groups, and these are the
-- joined groups with their servers and otherwise the old ones, of which none was joined. If it
-- returns false, number and shards are as before, and the groups before one that there was
-- already have joined. It is fatal only for no groups at all, or if a group has a server of
-- one that there was or that joined before it.
pub join_balance-Balanced :
    (c : ShardConfig) (servers : Groups)
    → IsValid c
    → Balanced
        ((servers ≡ []) ⊎ IsTaken servers c.groups)
        (IsJoined servers c.groups)
        (IsJoinedUpTo servers c.groups)
        c
        (join_balance c servers)
unfolding join_balance join
join_balance-Balanced c servers v = then_rebalance-Balanced _ _ _ c (join_from false c servers) v (
    Changed-map c c.groups (join_from false c servers) reasons (λ m h. h) (λ m h. h)
      (join_from-Changed false c servers v.distinct))
  where
    reasons :
        (false ≡ false) × (servers ≡ []) ⊎ IsTaken servers c.groups
        → (servers ≡ []) ⊎ IsTaken servers c.groups
    reasons (inl h) = inl h.1
    reasons (inr h) = inr h

-- From a valid configuration, LeaveBalance does not hang. If it returns true, the number is the
-- next one, the configuration is valid and passes `CheckConfig` for its groups, and these are
-- the old ones but for those that left. If it returns false, number and shards are as before,
-- and the groups before one that there was not have left. It is fatal only for no groups at all.
pub leave_balance-Balanced :
    (c : ShardConfig) (gids : List ℕ)
    → IsValid c
    → Balanced
        (gids ≡ [])
        (IsLeft gids c.groups)
        (IsLeftUpTo gids c.groups)
        c
        (leave_balance c gids)
unfolding leave_balance leave
leave_balance-Balanced c gids v = then_rebalance-Balanced _ _ _ c (leave_from false c gids) v (
    Changed-map c c.groups (leave_from false c gids) (λ h. h.1) (λ m h. h) (λ m h. h)
      (leave_from-Changed false c gids v.distinct))
