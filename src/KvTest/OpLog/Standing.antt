-- ===== src/KvTest/OpLog/Standing.antt =====
-- kvtest1/porcupine.go: how often a call stands in the order and in the log, and the times of both.
use mit.Prelude.{
  ℕ, ◌+◌, ◌≤◌, ◌≡◌, ◌≢◌, refl, Bool, true, false, Option, none, some, List, [], ◌∷◌, ◌++◌, arith,
  nat_eqb_iff, update, count, count-append,
}
use mit.KvSrv.Model.{KvOutput}
use mit.KvTest.OpLog.{Call, idle, running, done, after, append}
use mit.KvTest.OpLog.Played.{Points, UpTo, From, IsTimely}

-- How often a call stands in the order and in the log.
abbrev pub Standing : Call → ℕ → ℕ → Type 0
Standing idle p l = (p ≡ 0) × (l ≡ 0)
Standing (running _ true) p l = (p ≡ 0) × (l ≡ 0)
Standing (running _ false) p l = (p ≤ 1) × (l ≡ 0)
Standing (done _ _ _) p l = (p ≡ 1) × (l ≡ 1)

abbrev pub Started : ℕ → Call → Type 0
Started now (running start _) = start ≤ now
Started now _ = Unit

pub Started-tick : (now : ℕ) (c : Call) → Started now c → Started (now + 1) c
Started-tick now idle h = tt
Started-tick now (running start _) h = omega arith
Started-tick now (done _ _ _) h = tt

pub UpTo-tick : (now : ℕ) (ps : Points) → UpTo now ps → UpTo (now + 1) ps
UpTo-tick now [] h = tt
UpTo-tick now ((c, t) ∷ ps) h = (omega arith, UpTo-tick now ps h.1)

pub UpTo-append : (now c : ℕ) (ps : Points) → UpTo now ps → UpTo now (ps ++ ((c, now) ∷ []))
UpTo-append now c [] h = (omega arith, tt)
UpTo-append now c ((d, t) ∷ ps) h = (h.0, UpTo-append now c ps h.1)

pub From-append : (t now c : ℕ) (ps : Points) → t ≤ now → From t ps → From t (ps ++ ((c, now) ∷ []))
From-append t now c [] le h = (le, tt)
From-append t now c ((d, u) ∷ ps) le h = (h.0, From-append t now c ps le h.1)

pub IsTimely-append :
    (now c : ℕ) (ps : Points) → UpTo now ps → IsTimely ps → IsTimely (ps ++ ((c, now) ∷ []))
IsTimely-append now c [] up h = (tt, tt)
IsTimely-append now c ((d, t) ∷ ps) up h =
    (From-append t now c ps up.0 h.0, IsTimely-append now c ps up.1 h.1)

pub update_self : (calls : ℕ → Call) (c : ℕ) (q : Call) → update calls c q c ≡ q
update_self calls c q = rw ((nat_eqb_iff c c).1 refl) refl

pub count_self : (c : ℕ) (xs : List ℕ) → count c (xs ++ (c ∷ [])) ≡ count c xs + 1
count_self c xs = ground (arith, count-append c xs (c ∷ []), nat_eqb_iff c c)

pub count_other : (c d : ℕ) (xs : List ℕ) → c ≢ d → count d (xs ++ (c ∷ [])) ≡ count d xs
count_other c d xs ne = ground (arith, count-append d xs (c ∷ []), nat_eqb_iff c d)

pub append_other :
    (c d : ℕ) (log : List ℕ) (o : Option KvOutput) → c ≢ d → count d (append log c o) ≡ count d log
append_other c d log none ne = refl
append_other c d log (some out) ne = count_other c d log ne

pub Standing-log : (start : ℕ) (first : Bool) (p l : ℕ) → Standing (running start first) p l → l ≡ 0
Standing-log start true p l h = h.1
Standing-log start false p l h = h.1

pub Standing-most :
    (start : ℕ) (first : Bool) (p l : ℕ) → Standing (running start first) p l → p ≤ 1
Standing-most start true p l h = omega arith
Standing-most start false p l h = h.0

-- The call that is served stands once in the order, and in the log if it returns.
pub Standing-served :
    (start now c : ℕ) (o : Option KvOutput) (order log : List ℕ)
    → count c order ≡ 0
    → count c log ≡ 0
    → Standing (after start now o) (count c (order ++ (c ∷ []))) (count c (append log c o))
Standing-served start now c none order log p l = (omega (arith, count_self c order), l)
Standing-served start now c (some out) order log p l =
    (omega (arith, count_self c order), omega (arith, count_self c log))

pub Started-after :
    (start now : ℕ) (o : Option KvOutput) → start ≤ now → Started now (after start now o)
Started-after start now none h = h
Started-after start now (some out) h = tt
