-- ===== src/Annotate/Described.antt =====
-- tester1/annotation.go: what a list of flags says, and the loops over flags.
use mit.Prelude.{
  ℕ, zero, suc, ◌≡◌, refl, ap, Bool, true, false, ◌&&◌, not, Option, none, some, List, [], ◌∷◌,
  arith, lookup, string_eq, replicate, length, if◌then◌else◌,
}
use mit.Annotate.{Text, parts, Continuous}
use mit.Annotate.Faults.{Globals, tag_partition, bools_eqb, copy, add_first, parts_of, all_to}

-- The servers from `id` on with a property of their two flags.
abbrev pub ids : (Bool → Bool → Bool) → ℕ → List Bool → List Bool → List ℕ
ids p id (b ∷ bs) (c ∷ cs) = let rest = ids p (suc id) bs cs in if p b c then id ∷ rest else rest
ids p id _ _ = []

abbrev pub all_are : Bool → List Bool → Bool
all_are v [] = true
all_are v (b ∷ bs) = (if v then b else not b) && all_are v bs

-- What should be shown: nothing if all servers are connected and up.
abbrev pub described : List Bool → List Bool → Option Text
described connected crashed =
    if all_are true connected && all_are false crashed
    then none
    else some (
        parts (ids (λ b c. not c && not b) 0 connected crashed)
          (ids (λ b c. not c && b) 0 connected crashed) (ids (λ b c. c) 0 connected crashed))

abbrev pub shown : Option Continuous → Option Text
shown none = none
shown (some c) = some c.desp

-- What the reports come to: the flags of the servers, and the two partitions that were named last,
-- until something changes.
pub record Servers : Type 0 where
  pub connected : List Bool
  pub crashed : List Bool
  pub named : Option Text

-- What should be shown: the partitions that were named, or else what the flags say.
abbrev pub expected : Servers → Option Text
expected s = elim s.named [ none ↦ described s.connected s.crashed | some t ↦ some t ]

-- The framework has the `n` servers' flags, and shows what it should.
pub record IsCurrent (n : ℕ) (s : Servers) (g : Globals) : Type 0 where
  pub servers : g.finfo.nservers ≡ n
  pub connected : g.finfo.connected ≡ s.connected
  pub crashed : g.finfo.crashed ≡ s.crashed
  pub connections : length s.connected ≡ n
  pub crashes : length s.crashed ≡ n
  pub showing : shown (lookup tag_partition g.annotation.continuous) ≡ expected s

pub bools_eqb-replicate :
    (v : Bool) (bs : List Bool) → bools_eqb (replicate (length bs) v) bs ≡ all_are v bs
bools_eqb-replicate v [] = refl
bools_eqb-replicate true (true ∷ bs) = bools_eqb-replicate true bs
bools_eqb-replicate true (false ∷ bs) = refl
bools_eqb-replicate false (true ∷ bs) = refl
bools_eqb-replicate false (false ∷ bs) = bools_eqb-replicate false bs

pub bools_eqb-eq : (xs ys : List Bool) → bools_eqb xs ys ≡ true → xs ≡ ys
bools_eqb-eq [] [] e = refl
bools_eqb-eq [] (y ∷ ys) e = cc
bools_eqb-eq (true ∷ xs) [] e = cc
bools_eqb-eq (false ∷ xs) [] e = cc
bools_eqb-eq (true ∷ xs) (true ∷ ys) e = ap (◌∷◌ true) (bools_eqb-eq xs ys e)
bools_eqb-eq (true ∷ xs) (false ∷ ys) e = cc
bools_eqb-eq (false ∷ xs) (true ∷ ys) e = cc
bools_eqb-eq (false ∷ xs) (false ∷ ys) e = ap (◌∷◌ false) (bools_eqb-eq xs ys e)

pub copy-all : (dst src : List Bool) → length dst ≡ length src → copy dst src ≡ src
copy-all [] [] e = refl
copy-all [] (s ∷ src) e = absurd (omega arith)
copy-all (d ∷ dst) [] e = absurd (omega arith)
copy-all (d ∷ dst) (s ∷ src) e = ap (◌∷◌ s) (copy-all dst src (omega arith))

pub parts_of-ids :
    (id : ℕ) (bs cs : List Bool)
    → length bs ≡ length cs
    → parts_of id bs cs
      ≡ some (record {
        alone = ids (λ b c. not c && not b) id bs cs;
        conn = ids (λ b c. not c && b) id bs cs;
        crashes = ids (λ b c. c) id bs cs;
      })
parts_of-ids id [] [] e = refl
parts_of-ids id [] (c ∷ cs) e = absurd (omega arith)
parts_of-ids id (b ∷ bs) [] e = absurd (omega arith)
parts_of-ids id (true ∷ bs) (true ∷ cs) e =
    ap (add_first id true true) (parts_of-ids (suc id) bs cs (omega arith))
parts_of-ids id (true ∷ bs) (false ∷ cs) e =
    ap (add_first id true false) (parts_of-ids (suc id) bs cs (omega arith))
parts_of-ids id (false ∷ bs) (true ∷ cs) e =
    ap (add_first id false true) (parts_of-ids (suc id) bs cs (omega arith))
parts_of-ids id (false ∷ bs) (false ∷ cs) e =
    ap (add_first id false false) (parts_of-ids (suc id) bs cs (omega arith))

pub length-all_to : (v : Bool) (bs : List Bool) → length (all_to v bs) ≡ length bs
length-all_to v [] = refl
length-all_to v (b ∷ bs) = ap suc (length-all_to v bs)

pub all_are-all_to : (v : Bool) (bs : List Bool) → all_are v (all_to v bs) ≡ true
all_are-all_to v [] = refl
all_are-all_to true (b ∷ bs) = all_are-all_to true bs
all_are-all_to false (b ∷ bs) = all_are-all_to false bs

pub all_are-replicate : (v : Bool) (n : ℕ) → all_are v (replicate n v) ≡ true
all_are-replicate v zero = refl
all_are-replicate true (suc n) = all_are-replicate true n
all_are-replicate false (suc n) = all_are-replicate false n
