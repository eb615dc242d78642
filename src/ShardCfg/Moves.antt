-- ===== src/ShardCfg/Moves.antt =====
-- One move of the second loop of `Rebalance` (shardkv1/shardcfg/shardcfg.go), and the
-- spread of the loads.
use mit.Prelude.{
  ℕ, ◌+◌, ◌*◌, ◌≤◌, ◌<◌, ◌≡◌, ◌≢◌, refl, arith, true, false, List, [], ◌∷◌, nat_eqb, nat_eqb_iff,
  length, count, count-le-length, member, IsDistinct, sum_by, sum_by-two, if◌then◌else◌, Bool-cases,
  inl, inr,
}
use mit.ShardCfg.{move_one}
use mit.ShardCfg.Assign.{AllIn}

pub length-move_one : (mg lg : ℕ) (xs : List ℕ) → length (move_one mg lg xs) ≡ length xs
unfolding move_one
length-move_one mg lg [] = refl
length-move_one mg lg (x ∷ xs) = ground (arith, length-move_one mg lg xs)

pub move_one-AllIn :
    (gids : List ℕ) (mg lg : ℕ) (xs : List ℕ)
    → member lg gids ≡ true
    → AllIn gids xs
    → AllIn gids (move_one mg lg xs)
unfolding move_one
move_one-AllIn gids mg lg [] h a = tt
move_one-AllIn gids mg lg (x ∷ xs) h a = elim (Bool-cases (nat_eqb x mg)) [
  | inl e ↦ rw e (h, a.1)
  | inr ne ↦ rw ne (a.0, move_one-AllIn gids mg lg xs h a.1)
]

-- A move takes one shard from a group that has any and gives it to the other.
pub count-move_one :
    (mg lg : ℕ) (xs : List ℕ)
    → mg ≢ lg
    → 0 < count mg xs
    → (count mg (move_one mg lg xs) + 1 ≡ count mg xs)
      × (count lg (move_one mg lg xs) ≡ count lg xs + 1)
unfolding move_one
count-move_one mg lg [] ne h = absurd (omega arith)
count-move_one mg lg (x ∷ xs) ne h = ground (arith, count-move_one mg lg xs ne)

pub count-move_one_other :
    (mg lg g : ℕ) (xs : List ℕ) → g ≢ mg → g ≢ lg → count g (move_one mg lg xs) ≡ count g xs
unfolding move_one
count-move_one_other mg lg g [] ne ne' = refl
count-move_one_other mg lg g (x ∷ xs) ne ne' =
    ground (arith, count-move_one_other mg lg g xs ne ne')

-- The sum of the squares of the loads.
abbrev pub spread : List ℕ → List ℕ → ℕ
spread gids shards = sum_by (λ g. count g shards * count g shards) gids

squares : (a b : ℕ) → b + 2 ≤ a + 1 → a * a + (b + 1) * (b + 1) < (a + 1) * (a + 1) + b * b
squares a b h = grind arith

lower :
    (s' s a' a b' b : ℕ)
    → a' + 1 ≡ a
    → b' ≡ b + 1
    → b + 2 ≤ a
    → s' + a * a + b * b ≡ s + a' * a' + b' * b'
    → s' < s
lower s' s a' a b' b ea eb h e =
    let e' : s' + (a' + 1) * (a' + 1) + b * b ≡ s + a' * a' + (b + 1) * (b + 1) = rw (ea, ← eb) e in
    omega (arith, squares a' b (omega arith))

pub spread-move_one :
    (gids shards : List ℕ) (mg lg : ℕ)
    → IsDistinct gids
    → member mg gids ≡ true
    → member lg gids ≡ true
    → count lg shards + 2 ≤ count mg shards
    → spread gids (move_one mg lg shards) < spread gids shards
spread-move_one gids shards mg lg d inm inl' h =
    let ne : mg ≢ lg = λ e. ground arith in
    let (m, l) = count-move_one mg lg shards ne (omega arith) in
    let two =
      sum_by-two (λ g. count g shards * count g shards)
        (λ g. count g (move_one mg lg shards) * count g (move_one mg lg shards)) mg lg gids d inm
        inl' ne (λ g n n'. ground (arith, count-move_one_other mg lg g shards n n')) in
    lower (spread gids (move_one mg lg shards)) (spread gids shards)
      (count mg (move_one mg lg shards)) (count mg shards) (count lg (move_one mg lg shards))
      (count lg shards) m l h two

no_hits :
    (x : ℕ) (gids : List ℕ)
    → member x gids ≡ false
    → sum_by (λ g. if nat_eqb x g then 1 else 0) gids ≡ 0
no_hits x [] h = refl
no_hits x (g ∷ gids) h = ground (arith, no_hits x gids)

sum_by-zero : (gids : List ℕ) → sum_by (λ _. 0) gids ≡ 0
sum_by-zero [] = refl
sum_by-zero (g ∷ gids) = omega (arith, sum_by-zero gids)

sum_by-add : (f g : ℕ → ℕ) (xs : List ℕ) → sum_by (λ x. f x + g x) xs ≡ sum_by f xs + sum_by g xs
sum_by-add f g [] = refl
sum_by-add f g (x ∷ xs) = omega (arith, sum_by-add f g xs)

-- Every shard counts for at most one of distinct groups.
hits-le :
    (x : ℕ) (gids : List ℕ) → IsDistinct gids → sum_by (λ g. if nat_eqb x g then 1 else 0) gids ≤ 1
hits-le x [] d = omega arith
hits-le x (g ∷ gids) d = elim (Bool-cases (nat_eqb x g)) [
  | inl e ↦ rw e (omega (arith, no_hits x gids (ground (arith, nat_eqb_iff x g, d.0))))
  | inr ne ↦ rw ne (omega (arith, hits-le x gids d.1))
]

loads-le :
    (gids shards : List ℕ) → IsDistinct gids → sum_by (λ g. count g shards) gids ≤ length shards
loads-le gids [] d = omega (arith, sum_by-zero gids)
loads-le gids (x ∷ xs) d = omega (
  arith,
  sum_by-add (λ g. if nat_eqb x g then 1 else 0) (λ g. count g xs) gids,
  hits-le x gids d,
  loads-le gids xs d,
)

squares-le :
    (gids shards : List ℕ) → spread gids shards ≤ length shards * sum_by (λ g. count g shards) gids
squares-le [] shards = omega arith
squares-le (g ∷ gids) shards = grind (arith, squares-le gids shards, count-le-length g shards)

-- The measure is at most the square of the number of shards.
pub spread-le :
    (gids shards : List ℕ) → IsDistinct gids → spread gids shards ≤ length shards * length shards
spread-le gids shards d = grind (arith, squares-le gids shards, loads-le gids shards d)
