-- ===== src/KvTest/Appends/Invariant.antt =====
-- kvtest1/kvtest.go, OneClientAppend: what a client may rely on between its RPCs, and what an RPC
-- of one client leaves to it and to the others.
use mit.Prelude.{
  ℕ, ◌+◌, ◌≤◌, ◌<◌, String, ◌≡◌, ◌≢◌, Bool, false, ◌⊎◌, inl, inr, some, List, [], ◌∷◌, ◌++◌, arith,
  length, lookup, string_eq, keys, length-append,
}
use mit.KvSrv.Server.{KvServer}
use mit.KvTest.Appends.{EntryN, Seen, at, see, see_all, unseen}
use mit.KvTest.Appends.Counts.{AllBelow, SeenNext}
use mit.KvTest.Appends.System.{Client, Pc, starting, reading, putting, failed, finished, mine}

-- Before iteration `i` a client with `nmay` answers ErrMaybe: the check expects at most `i`, and
-- what it has skipped and is still to skip are at most `nmay`.
abbrev pub Bound : Seen → ℕ → ℕ → ℕ → Type 0
Bound seen me i nmay = (at me seen.expect ≤ i) × (at me seen.skipped + i ≤ nmay + at me seen.expect)

-- A Put that the server has not executed and could execute only at its version, or one that it
-- has executed and whose reply is lost.
abbrev pub Sent : List EntryN → Seen → ℕ → Client → ℕ → List EntryN → Bool → Type 0
Sent es seen me c ver es' first =
    ((ver ≤ length es + 1)
      × (ver ≡ length es + 1 → es' ≡ es ++ (mine me c ∷ []))
      × Bound seen me c.i c.nmay)
    ⊎ ((ver < length es + 1) × (first ≡ false) × Bound seen me (c.i + 1) (c.nmay + 1))

abbrev pub Fits : List EntryN → Seen → ℕ → Client → Pc → Type 0
Fits es seen me c starting = Bound seen me c.i c.nmay
Fits es seen me c reading = Bound seen me c.i c.nmay
Fits es seen me c finished = Bound seen me c.i c.nmay
Fits es seen me c failed = ⊥
Fits es seen me c (putting ver es' first) = Sent es seen me c ver es' first

abbrev pub IsFit : List EntryN → Seen → ℕ → Client → Type 0
IsFit es seen me c = (c.nok + c.nmay ≡ c.i) × Fits es seen me c c.pc

-- What an RPC of client `me` may change.
pub data Change (me : ℕ) (es : List EntryN) (seen : Seen) : List EntryN → Seen → Type 0 where
  same : Change me es seen es seen
  more :
      (n : ℕ) (seen' : Seen)
      → see (record { id = me; n = n }) seen ≡ some seen'
      → SeenNext me n seen seen'
      → Change me es seen (es ++ (record { id = me; n = n } ∷ [])) seen'

Bound-other :
    {me j n : ℕ} {seen seen' : Seen}
    → SeenNext me n seen seen'
    → me ≢ j
    → (i nmay : ℕ) → Bound seen j i nmay
    → Bound seen' j i nmay
Bound-other {j} nx ne i nmay b = let o = nx.others j ne in (omega arith, omega arith)

Fits-other :
    {me j n : ℕ} {seen seen' : Seen} (es : List EntryN) (e : EntryN)
    → SeenNext me n seen seen'
    → me ≢ j
    → (c : Client) (pc : Pc) → Fits es seen j c pc
    → Fits (es ++ (e ∷ [])) seen' j c pc
Fits-other es e nx ne c starting f = Bound-other nx ne c.i c.nmay f
Fits-other es e nx ne c reading f = Bound-other nx ne c.i c.nmay f
Fits-other es e nx ne c finished f = Bound-other nx ne c.i c.nmay f
Fits-other es e nx ne c failed f = f
Fits-other es e nx ne c (putting ver es' first) (inl (lo, is, b)) =
    let longer = length-append es (e ∷ []) in
    inl (omega arith, λ k. absurd (omega arith), Bound-other nx ne c.i c.nmay b)
Fits-other es e nx ne c (putting ver es' first) (inr (lo, is, b)) =
    let longer = length-append es (e ∷ []) in
    inr (omega arith, is, Bound-other nx ne (c.i + 1) (c.nmay + 1) b)

pub Change-Fits :
    {me j : ℕ} {es es' : List EntryN} {seen seen' : Seen}
    → Change me es seen es' seen'
    → me ≢ j
    → (c : Client) → IsFit es seen j c
    → IsFit es' seen' j c
Change-Fits same ne c f = f
Change-Fits {es = es} (more n seen' s nx) ne c f =
    (f.0, Fits-other es (record { id = _; n = n }) nx ne c c.pc f.1)

-- The server's entry at the key, and what CheckAppends makes of it.
pub record Board (encode : List EntryN → String) (nclnt : ℕ) (s : KvServer) (es : List EntryN)
    (seen : Seen) : Type 0 where
  pub found : lookup "k" s.kv ≡ some (record { val = encode es; version = length es + 1 })
  pub scanned : see_all es (unseen nclnt) ≡ some seen
  pub below : AllBelow nclnt (keys seen.expect)
