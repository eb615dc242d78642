-- ===== src/KvTest/Partitioner.antt =====
-- kvtest1/kvtest.go: Partitioner, which splits a group by chance again and again.
use mit.Prelude.{
  ℕ, suc, ◌+◌, ◌<◌, ◌≡◌, refl, arith, true, false, Option, some, List, [], ◌∷◌, length, nat_eqb,
  member, if◌then◌else◌, Bool-cases, inl, inr,
}
use mit.Net.{Network, ReplyMsg, no_reply, Chances, process_req}
use mit.Tester.{ServerGrp, partition}
use mit.Tester.Loops.{AllBelow}
use mit.Tester.Ends.{IsGroup}
use mit.Tester.Parts.{IsDisjoint, across}
use mit.Tester.Calls.{partition_cuts}

-- `pa[i]`, from place `j` on, where `draws` are the places' draws.
abbrev pub drawn : ℕ → ℕ → List ℕ → List ℕ
drawn i j [] = []
drawn i j (d ∷ draws) = let rest = drawn i (suc j) draws in if nat_eqb d i then j ∷ rest else rest

-- One turn of the loop.
unfoldable pub partitioner_turn : ServerGrp → Network → List ℕ → Option (ServerGrp × Network)
partitioner_turn sg net draws = partition sg net (drawn 0 0 draws) (drawn 1 0 draws)

drawn-AllBelow : (n i j : ℕ) (draws : List ℕ) → j + length draws ≡ n → AllBelow n (drawn i j draws)
drawn-AllBelow n i j [] h = tt
drawn-AllBelow n i j (d ∷ draws) h = elim (Bool-cases (nat_eqb d i)) [
  | inl y ↦ rw y (omega arith, drawn-AllBelow n i (suc j) draws (omega arith))
  | inr z ↦ rw z (drawn-AllBelow n i (suc j) draws (omega arith))
]

member-drawn : (i j x : ℕ) (draws : List ℕ) → x < j → member x (drawn i j draws) ≡ false
member-drawn i j x [] h = refl
member-drawn i j x (d ∷ draws) h = ground (arith, member-drawn i (suc j) x draws (omega arith))

drawn-IsDisjoint : (j : ℕ) (draws : List ℕ) → IsDisjoint (drawn 0 j draws) (drawn 1 j draws)
drawn-IsDisjoint j [] x h = cc
drawn-IsDisjoint j (d ∷ draws) x h = ground (
  arith,
  drawn-IsDisjoint (suc j) draws x,
  member-drawn 0 (suc j) x draws,
  member-drawn 1 (suc j) x draws,
)

-- Whatever is drawn, a turn of Partitioner ends, and then no call between servers with different
-- draws, of 0 and 1, is executed or has a reply, if each end has a name of its own.
pub partitioner_turn-cuts {ℓ} :
    {S : Type ℓ} (n : ℕ) (ends : ℕ → ℕ → ℕ)
    (apart : (i j a b : ℕ)
      → i < n
      → j < n
      → a < n
      → b < n
      → ends i j ≡ ends a b
      → (i ≡ a) × (j ≡ b))
    (sg : ServerGrp) (net : Network) (draws : List ℕ)
    → IsGroup n ends apart sg
    → length draws ≡ n
    → (sg' : ServerGrp) × (net' : Network) × (partitioner_turn sg net draws ≡ some (sg', net'))
      × ((x y : ℕ) (later : Network) (ch : Chances) (handler : ℕ → S → ReplyMsg × S) (s : S)
          → x < n
          → y < n
          → across (drawn 0 0 draws) (drawn 1 0 draws) x y ≡ true
          → process_req net' later (ends x y) ch handler s ≡ (no_reply, s))
unfolding partitioner_turn
partitioner_turn-cuts n ends apart sg net draws ok len =
    partition_cuts n ends apart sg net (drawn 0 0 draws) (drawn 1 0 draws) ok
      (drawn-AllBelow n 0 0 draws (omega arith)) (drawn-AllBelow n 1 0 draws (omega arith))
      (drawn-IsDisjoint 0 draws)
