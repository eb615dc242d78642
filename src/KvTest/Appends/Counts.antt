-- ===== src/KvTest/Appends/Counts.antt =====
-- kvtest1/kvtest.go: what one more entry does to the two maps of CheckAppends.
use mit.Prelude.{
  ℕ, zero, suc, ◌+◌, ◌-◌, ◌≤◌, ◌<◌, ◌≡◌, ◌≢◌, refl, ap, ◌∙◌, some, List, [], ◌∷◌, ◌++◌, arith, inl,
  inr, nat_eqb, nat_eqb_iff, nat_eq, lookup, insert, lookup-insert, keys, Option-cases, Bool-cases,
  ltb→lt, if◌then◌else◌,
}
use mit.KvTest.Appends.{EntryN, Seen, at, zeros, see, see_all, see_then, unseen}

abbrev pub AllBelow : ℕ → List ℕ → Type 0
AllBelow n [] = Unit
AllBelow n (c ∷ cs) = (c < n) × AllBelow n cs

pub insert-AllBelow :
    (n k v : ℕ) (m : List (ℕ × ℕ)) → k < n → AllBelow n (keys m) → AllBelow n (keys (insert k v m))
unfolding insert
insert-AllBelow n k v [] h b = (h, tt)
insert-AllBelow n k v ((j, w) ∷ m) h b = ground (arith, insert-AllBelow n k v m h b.1)

zeros-AllBelow : (n k : ℕ) → k ≤ n → AllBelow n (keys (zeros k []))
zeros-AllBelow n zero h = tt
zeros-AllBelow n (suc k) h =
    insert-AllBelow n k 0 (zeros k []) (omega arith) (zeros-AllBelow n k (omega arith))

pub unseen-AllBelow : (n : ℕ) → AllBelow n (keys (unseen n).expect)
unseen-AllBelow n = zeros-AllBelow n n (omega arith)

pub at-insert :
    (k j v : ℕ) (m : List (ℕ × ℕ)) → at j (insert k v m) ≡ (if nat_eqb k j then v else at j m)
at-insert k j v m = ground (arith, lookup-insert k j v m)

pub at-zeros : (n c : ℕ) → at c (zeros n []) ≡ 0
unfolding lookup
at-zeros zero c = refl
at-zeros (suc n) c = ground (arith, at-insert n c 0 (zeros n []), at-zeros n c)

-- What the maps hold of `c` after an entry of `c` with the number `n`, and of the others.
pub record SeenNext (c n : ℕ) (seen seen' : Seen) : Type 0 where
  pub expect : at c seen'.expect ≡ n + 1
  pub skipped : at c seen'.skipped + at c seen.expect ≡ at c seen.skipped + n
  pub others :
      (j : ℕ)
      → c ≢ j
      → (at j seen'.expect ≡ at j seen.expect) × (at j seen'.skipped ≡ at j seen.skipped)
  pub below : (m : ℕ) → c < m → AllBelow m (keys seen.expect) → AllBelow m (keys seen'.expect)

other_key : (c j v : ℕ) (m : List (ℕ × ℕ)) → c ≢ j → at j (insert c v m) ≡ at j m
other_key c j v m h = ground (arith, at-insert c j v m, nat_eqb_iff c j)

same_key : (c v : ℕ) (m : List (ℕ × ℕ)) → at c (insert c v m) ≡ v
same_key c v m = ground (arith, at-insert c c v m, nat_eqb_iff c c)

pub see_next :
    (c n : ℕ) (seen : Seen)
    → at c seen.expect ≤ n
    → (seen' : Seen) × (see (record { id = c; n = n }) seen ≡ some seen') × SeenNext c n seen seen'
unfolding see
see_next c n seen h = elim (Bool-cases (nat_eqb (at c seen.expect) n)) [
  | inl y ↦ (
    record seen { expect = insert c (at c seen.expect + 1) seen.expect },
    rw y (ground (arith, ltb→lt (n) (at c seen.expect))),
    record {
      expect = same_key c _ seen.expect ∙ ap (λ x. x + 1) ((nat_eqb_iff (at c seen.expect) n).0 y);
      skipped = ap (λ x. at c seen.skipped + x) ((nat_eqb_iff (at c seen.expect) n).0 y);
      others = λ j ne. (other_key c j _ seen.expect ne, refl);
      below = λ m lt b. insert-AllBelow m c _ seen.expect lt b;
    },
  )
  | inr d ↦
      let more : ℕ = at c seen.skipped + (n - at c seen.expect) in
      (
        record { expect = insert c (n + 1) seen.expect; skipped = insert c more seen.skipped },
        rw d (ground (arith, ltb→lt (n) (at c seen.expect))),
        record {
          expect = same_key c (n + 1) seen.expect;
          skipped = omega (arith, same_key c more seen.skipped);
          others = λ j ne. (other_key c j _ seen.expect ne, other_key c j more seen.skipped ne);
          below = λ m lt b. insert-AllBelow m c _ seen.expect lt b;
        },
      )
]

pub see_all-append :
    (es : List EntryN) (e : EntryN) (seen : Seen)
    → see_all (es ++ (e ∷ [])) seen ≡ see_then (see e) (see_all es seen)
unfolding see_all
see_all-append [] e seen = elim (Option-cases (see e seen)) [
  | inl p ↦ rw p refl
  | inr (s, p) ↦ rw p refl
]
see_all-append (x ∷ es) e seen = elim (Option-cases (see x seen)) [
  | inl p ↦ rw p refl
  | inr (s, p) ↦ rw p (see_all-append es e s)
]
