-- ===== src/KvTest/Appends/Checked.antt =====
-- kvtest1/kvtest.go: what the clients of OneClientAppend leave, under CheckAppends.
use mit.Prelude.{
  ℕ, zero, suc, ◌+◌, ◌<◌, String, ◌≡◌, ◌≢◌, refl, ap, subst, ◌∙◌, Bool, ◌&&◌, true, false, Option,
  some, List, [], ◌∷◌, arith, length, nat_eqb_iff, get_elem?, ltb→lt,
}
use mit.KvSrv.Rpc.{version_mod}
use mit.KvSrv.Server.Laws.{get_found}
use mit.KvTest.{ClntRes, ended, get_json}
use mit.KvTest.Direct.{direct}
use mit.KvTest.Appends.{EntryN, Seen, at, check_appends, within, all_within, judge}
use mit.KvTest.Appends.Counts.{AllBelow}
use mit.KvTest.Appends.Invariant.{Bound, Fits}
use mit.KvTest.Appends.Reached.{Reach-Inv}
use mit.KvTest.Appends.System.{
  Client, Pc, starting, reading, putting, failed, finished, System, Reach, results,
}

-- A client that is between two Puts.
abbrev pub is_between : Pc → Bool
is_between (putting _ _ _) = false
is_between _ = true

abbrev result : Client → ClntRes
result c = record { nok = c.nok; nmaybe = c.nmay }

get_elem?-results :
    (cs : ℕ → Client) (n c j : ℕ)
    → j < n
    → get_elem? (results cs c n) j ≡ some (result (cs (c + j)))
get_elem?-results cs zero c j h = absurd (omega arith)
get_elem?-results cs (suc n) c zero h = ap (λ k. some (result (cs k))) (omega arith)
get_elem?-results cs (suc n) c (suc j) h =
    get_elem?-results cs n (suc c) j (omega arith) ∙ ap (λ k. some (result (cs k))) (omega arith)

Fits-Bound :
    (es : List EntryN) (seen : Seen) (me : ℕ) (c : Client) (pc : Pc)
    → is_between pc ≡ true
    → Fits es seen me c pc
    → Bound seen me c.i c.nmay
Fits-Bound es seen me c starting e f = f
Fits-Bound es seen me c reading e f = f
Fits-Bound es seen me c finished e f = f
Fits-Bound es seen me c failed e f = absurd f
Fits-Bound es seen me c (putting v es' first) e f = cc

within-Bound :
    (seen : Seen) (j : ℕ) (c : Client)
    → c.nok + c.nmay ≡ c.i
    → Bound seen j c.i c.nmay
    → within seen j (some (result c)) ≡ true
within-Bound seen j c sum b =
    ground (arith, ltb→lt c.nmay (at j seen.skipped), ltb→lt (c.nok + c.nmay) (at j seen.expect))

all_within-results :
    (seen : Seen) (cs : ℕ → Client) (n : ℕ) (js : List ℕ)
    → AllBelow n js
    → ((j : ℕ) → j < n → within seen j (some (result (cs j))) ≡ true)
    → all_within seen (results cs 0 n) js ≡ true
all_within-results seen cs n [] lt each = refl
all_within-results seen cs n (j ∷ js) (lt, rest) each =
    let same : 0 + j ≡ j = omega arith in
    ap (λ o. within seen j o && all_within seen (results cs 0 n) js) (get_elem?-results cs n 0 j lt)
    ∙ ap (λ k. within seen j (some (result (cs k))) && all_within seen (results cs 0 n) js) same
    ∙ rw (each j lt) (all_within-results seen cs n js rest each)

module _ (encode : List EntryN → String) (decode : String → Option (List EntryN))
    (back : (es : List EntryN) → decode (encode es) ≡ some es) (nclnt : ℕ) where
  -- CheckAppends accepts what the server holds and what the clients count, in every state that is
  -- reached in which no client is in its Put, whatever the network loses and however the clients
  -- interleave: GetJson reads a list and a version, no client's Get or decoding has failed, and
  -- none of the tests of CheckAppends fails. This is for JSON that reads back what it wrote, and
  -- while versions do not wrap.
  pub appends-accepted :
      {n : ℕ} {s : System}
      → n + 2 < version_mod
      → Reach encode decode nclnt n s
      → ((c : ℕ) → c < nclnt → is_between (s.clients c).pc ≡ true)
      → (es : List EntryN) × (ver : ℕ) × (get_json decode (direct.get "k" s.server)
          ≡ ended (ver, es) s.server)
        × (check_appends es nclnt (results s.clients 0 nclnt) ver ≡ true)
        × ((c : ℕ) → (s.clients c).pc ≢ failed)
  unfolding check_appends
  appends-accepted {n} {s} room r between =
      let inv = Reach-Inv encode decode back nclnt room r in
      (
        inv.es,
        length inv.es + 1,
        ap (λ reply. get_json decode (reply, s.server)) (get_found s.server "k" _ inv.board.found)
            ∙ rw (back inv.es) refl,
        ap (judge inv.es (results s.clients 0 nclnt) (length inv.es + 1)) inv.board.scanned
            ∙ rw ((nat_eqb_iff (length inv.es + 1) (length inv.es + 1)).1 refl) (
                all_within-results inv.seen s.clients nclnt _ inv.board.below (λ j lt.
                  within-Bound inv.seen j (s.clients j) (inv.fits j).0 (
                    Fits-Bound inv.es inv.seen j (s.clients j) (s.clients j).pc (between j lt)
                      (inv.fits j).1))),
        λ c e. subst (Fits inv.es inv.seen c (s.clients c)) e (inv.fits c).1,
      )
