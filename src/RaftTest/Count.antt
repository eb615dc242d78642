-- ===== src/RaftTest/Count.antt =====
-- What nCommitted of raft1/test.go counts.
use mit.Prelude.{
  ℕ, zero, suc, ◌+◌, ◌≡◌, refl, sym, ap, ◌∙◌, arith, true, Option, none, some, List, [], ◌∷◌,
  get_elem?, if◌then◌else◌, HasEq, lt→ltb, nat_eq, ◌==◌, Option-cases, inl, inr,
}
use mathlib.Core.Option.{some-injective, none-ne-some}
use mit.RaftTest.{
  is_fine, RaftServer, Test, counted, entry, is_present, committed_from, n_committed,
}
use mit.RaftTest.Agree.{AllHave, IsAgreed}

module _ {ℓ} {V : Type ℓ} where
  -- The number of servers with an entry at the index.
  abbrev pub holders : ℕ → List (RaftServer V) → ℕ
  holders index [] = 0
  holders index (rs ∷ srvs) =
      let more = holders index srvs in if is_present (entry rs index) then suc more else more

  -- No server reported an error.
  abbrev pub IsQuiet : List (RaftServer V) → Type ℓ
  IsQuiet srvs =
      (j : ℕ) (rs : RaftServer V) → get_elem? srvs j ≡ some rs → is_fine rs.apply_err ≡ true

  -- The command is that of every server with an entry at the index.
  abbrev pub Covers : ℕ → List (RaftServer V) → Option V → Type ℓ
  Covers index srvs cmd =
      (j : ℕ) (rs : RaftServer V) (v : V)
      → get_elem? srvs j ≡ some rs
      → entry rs index ≡ some v
      → cmd ≡ some v

  Covers-cons :
      (index : ℕ) (a : RaftServer V) (srvs : List (RaftServer V)) (cmd : Option V)
      → entry a index ≡ none
      → Covers index srvs cmd
      → Covers index (a ∷ srvs) cmd
  Covers-cons index a srvs cmd n rest zero rs v at en =
      absurd (none-ne-some v (sym n ∙ ap (λ s. entry s index) (some-injective a rs at) ∙ en))
  Covers-cons index a srvs cmd n rest (suc j) rs v at en = rest j rs v at en

module _ {ℓ} {V : Type ℓ} ⦃e : HasEq V⦄ (index : ℕ) where
  -- Once the command is known, the rest is counted on.
  committed_from-some :
      (v : V) (srvs : List (RaftServer V)) (count : ℕ)
      → IsQuiet srvs
      → AllHave index v srvs
      → committed_from index srvs (suc count) (some v)
        ≡ counted (suc count + holders index srvs) (some v)
  committed_from-some v [] count quiet all = ap (λ n. counted n (some v)) (omega arith)
  committed_from-some v (rs ∷ srvs) count quiet all = elim (Option-cases (entry rs index)) [
    | inl n ↦
        rw (quiet zero rs refl, n)
          (committed_from-some v srvs count (λ j. quiet (suc j)) (λ j. all (suc j)))
    | inr (w, at) ↦
        let same : w ≡ v = all zero rs w refl at in
        let known : (v == w) ≡ true = (e.same_iff v w).1 (sym same) in
        rw (quiet zero rs refl, at, known, lt→ltb 0 (suc count) (omega arith))
          (ap (committed_from index srvs (suc (suc count))) (ap some same)
            ∙ committed_from-some v srvs (suc count) (λ j. quiet (suc j)) (λ j. all (suc j))
            ∙ ap (λ n. counted n (some v)) (omega arith))
  ]

  committed_from-holders :
      (srvs : List (RaftServer V))
      → IsQuiet srvs
      → ((j : ℕ) (rs : RaftServer V) (v : V)
          → get_elem? srvs j ≡ some rs
          → entry rs index ≡ some v
          → AllHave index v srvs)
      → (cmd : Option V) × (committed_from index srvs 0 none ≡ counted (holders index srvs) cmd)
        × Covers index srvs cmd
  committed_from-holders [] quiet agreed = (none, refl, λ j rs v at. cc)
  committed_from-holders (rs ∷ srvs) quiet agreed = elim (Option-cases (entry rs index)) [
    | inl n ↦
        let (cmd, run, have) =
          committed_from-holders srvs (λ j. quiet (suc j))
            (λ j a v at en i. agreed (suc j) a v at en (suc i)) in
        (cmd, rw (quiet zero rs refl, n) run, Covers-cons index rs srvs cmd n have)
    | inr (w, at) ↦
        let all : AllHave index w (rs ∷ srvs) = agreed zero rs w refl at in
        (
          some w,
          rw (quiet zero rs refl, at)
              (committed_from-some w srvs 0 (λ j. quiet (suc j)) (λ j. all (suc j))
                ∙ ap (λ n. counted n (some w)) (omega arith)),
          λ j a v got en. ap some (sym (all j a v got en)),
        )
  ]

  -- If the servers agree and none reported an error, nCommitted does not end the test: it counts
  -- the servers that have an entry at the index, and its command is theirs.
  pub n_committed-holders :
      (ts : Test V)
      → IsAgreed ts
      → IsQuiet ts.srvs
      → (cmd : Option V) × (n_committed ts index ≡ counted (holders index ts.srvs) cmd)
        × Covers index ts.srvs cmd
  unfolding n_committed
  n_committed-holders ts ok quiet =
      committed_from-holders ts.srvs quiet
        (λ j rs v at en i a w got en'. ok i j a rs index w v got at en' en)
