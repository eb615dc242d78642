-- ===== src/KvTest/Appends.antt =====
-- kvtest1/kvtest.go: CheckAppends, the check of what the clients of OneClientAppend have written.
-- A client's number and its iterations are natural numbers; `rs[c]` out of range panics.
pub mod System
pub mod Counts
pub mod Invariant
pub mod Turns
pub mod Reached
pub mod Checked
use mit.Prelude.{
  ℕ, zero, suc, ◌+◌, ◌-◌, Bool, true, false, ◌&&◌, not, Option, none, some, List, [], ◌∷◌, ltb,
  nat_eqb, nat_eq, lookup, insert, keys, length, get_elem?, if◌then◌else◌,
}
use mit.KvTest.{ClntRes}

pub record EntryN : Type 0 where
  pub id : ℕ
  pub n : ℕ

-- The two maps of CheckAppends.
pub record Seen : Type 0 where
  pub expect : List (ℕ × ℕ)
  pub skipped : List (ℕ × ℕ)

-- m[c], which is 0 where c is missing.
abbrev pub at : ℕ → List (ℕ × ℕ) → ℕ
at c m = elim (lookup c m) [ none ↦ 0 | some n ↦ n ]

-- The first loop.
abbrev pub zeros : ℕ → List (ℕ × ℕ) → List (ℕ × ℕ)
zeros zero m = m
zeros (suc n) m = insert n 0 (zeros n m)

unfoldable pub see : EntryN → Seen → Option Seen
see e seen =
    let x = at e.id seen.expect in
    if ltb e.n x
    then none
    else if nat_eqb x e.n
    then some (record seen { expect = insert e.id (x + 1) seen.expect })
    else some (record {
      expect = insert e.id (e.n + 1) seen.expect;
      skipped = insert e.id (at e.id seen.skipped + (e.n - x)) seen.skipped;
    })

abbrev pub see_then : (Seen → Option Seen) → Option Seen → Option Seen
see_then rest none = none
see_then rest (some seen) = rest seen

-- The second loop; `none` is its Fatalf.
unfoldable pub see_all : List EntryN → Seen → Option Seen
see_all [] seen = some seen
see_all (e ∷ es) seen = see_then (see_all es) (see e seen)

abbrev pub within : Seen → ℕ → Option ClntRes → Bool
within seen c none = false
within seen c (some r) =
    if ltb r.nmaybe (at c seen.skipped)
    then false
    else if ltb (r.nok + r.nmaybe) (at c seen.expect)
    then false
    else true

-- The last loop, over the keys of `expect`.
abbrev pub all_within : Seen → List ClntRes → List ℕ → Bool
all_within seen rs [] = true
all_within seen rs (c ∷ cs) = within seen c (get_elem? rs c) && all_within seen rs cs

abbrev pub judge : List EntryN → List ClntRes → ℕ → Option Seen → Bool
judge es rs ver none = false
judge es rs ver (some seen) =
    if not (nat_eqb (length es + 1) ver) then false else all_within seen rs (keys seen.expect)

abbrev pub unseen : ℕ → Seen
unseen nclnt = record { expect = zeros nclnt []; skipped = zeros nclnt [] }

-- False where CheckAppends calls Fatalf or panics.
unfoldable pub check_appends : List EntryN → ℕ → List ClntRes → ℕ → Bool
check_appends es nclnt rs ver = judge es rs ver (see_all es (unseen nclnt))
