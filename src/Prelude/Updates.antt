-- ===== src/Prelude/Updates.antt =====
-- Functions of a number, changed at one place.
use Prim.Native.Nat.{ℕ}
use mathlib.Core.Path.{subst}
use mathlib.Core.Logic.{◌≢◌, inl, inr}
use mit.Prelude.Tests.{nat_eqb, nat_eqb_iff, Bool-cases, if◌then◌else◌}

module _ {ℓ} {V : Type ℓ} where
  abbrev pub update : (ℕ → V) → ℕ → V → ℕ → V
  update f i v j = if nat_eqb i j then v else f j

  pub update-all {κ} :
      (P : ℕ → V → Type κ) (f : ℕ → V) (i : ℕ) (v : V)
      → P i v
      → ((j : ℕ) → i ≢ j → P j (f j))
      → (j : ℕ) → P j (update f i v j)
  update-all P f i v own others j = elim (Bool-cases (nat_eqb i j)) [
    | inl e ↦ rw e (subst (λ k. P k v) ((nat_eqb_iff i j).0 e) own)
    | inr ne ↦ rw ne (others j (λ e. cc (ne, (nat_eqb_iff i j).1 e)))
  ]
