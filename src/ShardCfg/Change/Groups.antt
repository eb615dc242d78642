-- ===== src/ShardCfg/Change/Groups.antt =====
-- The groups under Join and Leave of shardkv1/shardcfg/shardcfg.go.
use mit.Prelude.{
  keys, insert-IsDistinct, delete-IsDistinct, lookup-insert, lookup-delete, ℕ, ◌+◌, ◌≡◌, ◌≢◌, refl,
  ap, ◌⊎◌, arith, String, Bool, true, false, ◌||◌, Option, none, some, List, [], ◌∷◌, ◌++◌, member,
  IsDistinct, Bool-cases, Option-cases, inl, inr, lookup, insert, delete, nat_eq, nat_eqb_iff,
  if◌then◌else◌,
}
use mit.ShardCfg.{ShardConfig}
use mit.ShardCfg.Change.{
  Outcome, fatal, stuck, returned, shares_server, clashes, join_from, leave_from,
}

abbrev pub Groups : Type 0
Groups = List (ℕ × List String)

-- What the new groups have for a group, or else the old ones.
abbrev pub joined : Groups → Groups → ℕ → Option (List String)
joined servers old g = elim (lookup g servers) [ none ↦ lookup g old | some v ↦ some v ]

-- The groups after a join: all are as joined, and a group that joined was not there.
abbrev pub IsJoined : Groups → Groups → Groups → Type 0
IsJoined servers old new =
    (g : ℕ)
    → (lookup g new ≡ joined servers old g) × ((lookup g servers ≡ none) ⊎ (lookup g old ≡ none))

-- A group to join has a server of one that there is or of one before it.
abbrev pub IsTaken : Groups → Groups → Type 0
IsTaken servers old =
    (before : Groups) × (gid : ℕ) × (srvs : List String) × (after : Groups) × (servers
      ≡ before ++ ((gid, srvs) ∷ after))
    × ((clashes before srvs || clashes old srvs) ≡ true)

-- The groups up to one that there is already have joined.
abbrev pub IsJoinedUpTo : Groups → Groups → Groups → Type 0
IsJoinedUpTo servers old new =
    (before : Groups) × (gid : ℕ) × (srvs : List String) × (after : Groups) × (servers
      ≡ before ++ ((gid, srvs) ∷ after))
    × (lookup gid new ≢ none)
    × IsJoined before old new

-- The groups after a leave.
abbrev pub IsLeft : List ℕ → Groups → Groups → Type 0
IsLeft gids old new = (g : ℕ) → lookup g new ≡ (if member g gids then none else lookup g old)

-- The groups up to one that there is not have left.
abbrev pub IsLeftUpTo : List ℕ → Groups → Groups → Type 0
IsLeftUpTo gids old new =
    (before : List ℕ) × (gid : ℕ) × (after : List ℕ) × (gids ≡ before ++ (gid ∷ after))
    × (lookup gid new ≡ none)
    × IsLeft before old new

-- What Join and Leave promise before the rebalancing, with what holds if they are fatal, and of the
-- groups if they return true or false: the number goes up exactly if they return true, the shards
-- stay, and the groups stay distinct.
abbrev pub Changed : Type 0 → (Groups → Type 0) → (Groups → Type 0) → ShardConfig → Outcome → Type 0
Changed F P Q c fatal = F
Changed F P Q c stuck = ⊥
Changed F P Q c (returned true c') =
    (c'.num ≡ c.num + 1) × (c'.shards ≡ c.shards) × IsDistinct (keys c'.groups) × P c'.groups
Changed F P Q c (returned false c') =
    (c'.num ≡ c.num) × (c'.shards ≡ c.shards) × IsDistinct (keys c'.groups) × Q c'.groups

pub Changed-map :
    {F F' : Type 0} {P Q P' Q' : Groups → Type 0} (c : ShardConfig) (groups : Groups) (o : Outcome)
    → (F → F')
    → ((m : Groups) → P m → P' m)
    → ((m : Groups) → Q m → Q' m)
    → Changed F P Q (record c { groups = groups }) o
    → Changed F' P' Q' c o
Changed-map c groups fatal f p q h = f h
Changed-map c groups stuck f p q h = h
Changed-map c groups (returned true c') f p q (num, shards, d, h) = (num, shards, d, p c'.groups h)
Changed-map c groups (returned false c') f p q (num, shards, d, h) = (num, shards, d, q c'.groups h)

clashes-insert :
    (m : Groups) (gid : ℕ) (v srvs : List String)
    → clashes (insert gid v m) srvs ≡ true
    → (shares_server v srvs || clashes m srvs) ≡ true
unfolding insert
clashes-insert [] gid v srvs h = h
clashes-insert ((k, u) ∷ m) gid v srvs h = ground (arith, clashes-insert m gid v srvs)

IsJoined-cons :
    (gid : ℕ) (srvs : List String) (more old new : Groups)
    → lookup gid old ≡ none
    → IsJoined more (insert gid srvs old) new
    → IsJoined ((gid, srvs) ∷ more) old new
unfolding lookup
IsJoined-cons gid srvs more old new free h g =
    ground (arith, h g, lookup-insert gid g srvs old, nat_eqb_iff gid g, free)

pub join_from-Changed :
    (changed : Bool) (c : ShardConfig) (servers : Groups)
    → IsDistinct (keys c.groups)
    → Changed
        ((changed ≡ false) × (servers ≡ []) ⊎ IsTaken servers c.groups)
        (IsJoined servers c.groups)
        (IsJoinedUpTo servers c.groups)
        c
        (join_from changed c servers)
unfolding join_from lookup
join_from-Changed true c [] d = (refl, refl, d, λ g. (refl, inl refl))
join_from-Changed false c [] d = inl (refl, refl)
join_from-Changed changed c ((gid, srvs) ∷ more) d = elim (Option-cases (lookup gid c.groups)) [
  | inr (v, e) ↦
      rw (e, join_from)
        (refl, refl, d, ([], gid, srvs, more, refl, (λ k. cc), λ g. (refl, inl refl)))
  | inl e ↦ elim (Bool-cases (clashes c.groups srvs)) [
    | inl k ↦ rw (e, k, join_from) (inr ([], gid, srvs, more, refl, k))
    | inr k ↦
        rw (e, k, join_from)
          (Changed-map c (insert gid srvs c.groups)
            (join_from true (record c { groups = insert gid srvs c.groups }) more) taken
            (λ new. IsJoined-cons gid srvs more c.groups new e) (λ new h. up_to e new h)
            (join_from-Changed true (record c { groups = insert gid srvs c.groups }) more
              (insert-IsDistinct c.groups gid srvs d)))
  ]
]
  where
    taken :
        (true ≡ false) × (more ≡ []) ⊎ IsTaken more (insert gid srvs c.groups)
        → (changed ≡ false) × ((gid, srvs) ∷ more ≡ []) ⊎ IsTaken ((gid, srvs) ∷ more) c.groups
    taken (inl h) = absurd (cc h.0)
    taken (inr (before, g, ss, after, eq, h)) = inr (
      (gid, srvs) ∷ before,
      g,
      ss,
      after,
      ap (◌∷◌ (gid, srvs)) eq,
      ground (arith, clashes-insert c.groups gid srvs ss),
    )

    up_to :
        lookup gid c.groups ≡ none
        → (new : Groups) → IsJoinedUpTo more (insert gid srvs c.groups) new
        → IsJoinedUpTo ((gid, srvs) ∷ more) c.groups new
    up_to e new (before, g, ss, after, eq, there, h) = (
      (gid, srvs) ∷ before,
      g,
      ss,
      after,
      ap (◌∷◌ (gid, srvs)) eq,
      there,
      IsJoined-cons gid srvs before c.groups new e h,
    )

IsLeft-cons :
    (gid : ℕ) (more : List ℕ) (old new : Groups)
    → IsLeft more (delete gid old) new
    → IsLeft (gid ∷ more) old new
IsLeft-cons gid more old new h g = ground (arith, h g, lookup-delete gid g old)

pub leave_from-Changed :
    (changed : Bool) (c : ShardConfig) (gids : List ℕ)
    → IsDistinct (keys c.groups)
    → Changed
        ((changed ≡ false) × (gids ≡ []))
        (IsLeft gids c.groups)
        (IsLeftUpTo gids c.groups)
        c
        (leave_from changed c gids)
unfolding leave_from
leave_from-Changed true c [] d = (refl, refl, d, λ g. refl)
leave_from-Changed false c [] d = (refl, refl)
leave_from-Changed changed c (gid ∷ more) d = elim (Option-cases (lookup gid c.groups)) [
  | inl e ↦ rw (e, leave_from) (refl, refl, d, ([], gid, more, refl, e, λ g. refl))
  | inr (v, e) ↦
      rw (e, leave_from)
        (Changed-map c (delete gid c.groups)
          (leave_from true (record c { groups = delete gid c.groups }) more) (λ h. absurd (cc h.0))
          (IsLeft-cons gid more c.groups) up_to
          (leave_from-Changed true (record c { groups = delete gid c.groups }) more
            (delete-IsDistinct c.groups gid d)))
]
  where
    up_to :
        (new : Groups)
        → IsLeftUpTo more (delete gid c.groups) new
        → IsLeftUpTo (gid ∷ more) c.groups new
    up_to new (before, g, after, eq, missing, h) =
        (gid ∷ before, g, after, ap (◌∷◌ gid) eq, missing, IsLeft-cons gid before c.groups new h)
