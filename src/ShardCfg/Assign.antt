-- ===== src/ShardCfg/Assign.antt =====
-- The first loop of `Rebalance` (shardkv1/shardcfg/shardcfg.go).
use mit.Prelude.{
  ℕ, zero, suc, ◌+◌, ◌<◌, ◌≡◌, ◌≢◌, refl, ◌∙◌, subst, arith, true, some, List, [], ◌∷◌, ◌++◌,
  length, length-append, member, get_elem?, if◌then◌else◌,
}
use mit.ShardCfg.{gid_or, analyze, assign}
use mit.ShardCfg.Analyze.{analyze-Picked}

-- Every shard is served by one of the groups.
abbrev pub AllIn : List ℕ → List ℕ → Type 0
AllIn gids [] = Unit
AllIn gids (g ∷ gs) = (member g gids ≡ true) × AllIn gids gs

AllIn-snoc :
    (gids xs : List ℕ) (g : ℕ) → AllIn gids xs → member g gids ≡ true → AllIn gids (xs ++ g ∷ [])
AllIn-snoc gids [] g a h = (h, tt)
AllIn-snoc gids (x ∷ xs) g a h = (a.0, AllIn-snoc gids xs g a.1 h)

-- The group that a shard of group `g` is left with.
abbrev target : List ℕ → List ℕ → ℕ → List ℕ → ℕ
target gids seen g rest =
    if member g gids then g else gid_or (analyze gids (seen ++ g ∷ rest)).least_gid g

target-in :
    (gids seen : List ℕ) (g : ℕ) (rest : List ℕ)
    → gids ≢ []
    → length (seen ++ g ∷ rest) < 257
    → member (target gids seen g rest) gids ≡ true
target-in gids seen g rest ne small =
    let p = analyze-Picked (seen ++ g ∷ rest) gids ne small in
    ground (arith, p.least_gid_is, p.lg_in)

pub assign-AllIn :
    (gids seen todo : List ℕ)
    → gids ≢ []
    → length seen + length todo < 257
    → AllIn gids seen
    → AllIn gids (assign gids seen todo)
      × (length (assign gids seen todo) ≡ length seen + length todo)
unfolding assign
assign-AllIn gids seen [] ne small a = (a, omega arith)
assign-AllIn gids seen (g ∷ rest) ne small a =
    let t = target gids seen g rest in
    let longer : length (seen ++ t ∷ []) ≡ length seen + 1 = length-append seen (t ∷ []) in
    let (i, l) = assign-AllIn gids (seen ++ t ∷ []) rest ne (omega (arith, longer)) (
      AllIn-snoc gids seen t a
        (target-in gids seen g rest ne (omega (arith, length-append seen (g ∷ rest))))) in
    (i, omega (arith, l, longer))

get_elem?-append_left :
    (xs ys : List ℕ) (i : ℕ) (g : ℕ) → get_elem? xs i ≡ some g → get_elem? (xs ++ ys) i ≡ some g
get_elem?-append_left [] ys i g h = cc
get_elem?-append_left (x ∷ xs) ys zero g h = h
get_elem?-append_left (x ∷ xs) ys (suc i) g h = get_elem?-append_left xs ys i g h

get_elem?-append_last : (xs : List ℕ) (g : ℕ) → get_elem? (xs ++ g ∷ []) (length xs) ≡ some g
get_elem?-append_last [] g = refl
get_elem?-append_last (x ∷ xs) g = get_elem?-append_last xs g

assign-seen :
    (gids seen todo : List ℕ) (i g : ℕ)
    → get_elem? seen i ≡ some g
    → get_elem? (assign gids seen todo) i ≡ some g
unfolding assign
assign-seen gids seen [] i g h = h
assign-seen gids seen (x ∷ rest) i g h =
    assign-seen gids (seen ++ target gids seen x rest ∷ []) rest i g
      (get_elem?-append_left seen (target gids seen x rest ∷ []) i g h)

-- A shard that has a group keeps it.
pub assign-keeps :
    (gids seen todo : List ℕ) (i g : ℕ)
    → get_elem? todo i ≡ some g
    → member g gids ≡ true
    → get_elem? (assign gids seen todo) (length seen + i) ≡ some g
unfolding assign
assign-keeps gids seen [] i g h k = cc
assign-keeps gids seen (x ∷ rest) zero g h k =
    let t = target gids seen x rest in
    let same : some t ≡ some g = ground arith in
    subst (λ n. get_elem? (assign gids (seen ++ t ∷ []) rest) n ≡ some g) (omega arith)
      (assign-seen gids (seen ++ t ∷ []) rest (length seen) g (get_elem?-append_last seen t ∙ same))
assign-keeps gids seen (x ∷ rest) (suc i) g h k =
    let t = target gids seen x rest in
    subst (λ n. get_elem? (assign gids (seen ++ t ∷ []) rest) n ≡ some g)
      (omega (arith, length-append seen (t ∷ []))) (assign-keeps gids (seen ++ t ∷ []) rest i g h k)
