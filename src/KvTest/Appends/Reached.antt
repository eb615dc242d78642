-- ===== src/KvTest/Appends/Reached.antt =====
-- kvtest1/kvtest.go, OneClientAppend: the states of the server and its clients that are reached.
use text.Mathlib.TextEquality.{eq_iff}
use mit.Prelude.{
  update, update-all, ℕ, zero, suc, ◌+◌, ◌≤◌, ◌<◌, String, ◌≡◌, ◌≢◌, refl, sym, ap, subst, ◌∙◌,
  Bool, true, false, ◌⊎◌, inl, inr, Option, some, List, [], ◌∷◌, ◌++◌, arith, length, lookup,
  string_eq, nat_eqb, nat_eqb_iff, keys, length-append, Bool-cases, get_elem?, if◌then◌else◌,
}
use mit.KvSrv.Rpc.{version_mod}
use mit.KvSrv.Server.{put, make_kv_server}
use mit.KvSrv.Server.Laws.{put_lem}
use mit.KvTest.Appends.{EntryN, Seen, see_all, unseen}
use mit.KvTest.Appends.Counts.{unseen-AllBelow, at-zeros}
use mit.KvTest.Appends.Invariant.{Fits, IsFit, Change, same, more, Change-Fits, Board}
use mit.KvTest.Appends.Turns.{exec-Own}
use mit.KvTest.Appends.System.{System, start, rpc, Step, run, stop, other_put, Reach, here, next}

pub record Inv (encode : List EntryN → String) (nclnt n : ℕ) (s : System) : Type 0 where
  pub es : List EntryN
  pub seen : Seen
  pub board : Board encode nclnt s.server es seen
  pub counted : length es ≤ n
  pub fits : (c : ℕ) → IsFit es seen c (s.clients c)

module _ (encode : List EntryN → String) (decode : String → Option (List EntryN))
    (back : (es : List EntryN) → decode (encode es) ≡ some es) (nclnt : ℕ) where
  start-Inv : Inv encode nclnt 0 (start encode decode)
  unfolding start put make_kv_server lookup see_all mit.Prelude.insert
  start-Inv = record {
    es = [];
    seen = unseen nclnt;
    board = record { found = refl; scanned = refl; below = unseen-AllBelow nclnt };
    counted = omega arith;
    fits = λ c. (omega arith, (omega (arith, at-zeros nclnt c), omega (arith, at-zeros nclnt c)));
  }

  Change-counted :
      {me : ℕ} {es es' : List EntryN} {seen seen' : Seen} (n : ℕ)
      → Change me es seen es' seen'
      → length es ≤ n
      → length es' ≤ suc n
  Change-counted n same h = omega arith
  Change-counted {me} {es} n (more k _ _ _) h =
      let e : EntryN = record { id = me; n = k } in omega (arith, length-append es (e ∷ []))

  Step-Inv :
      {n : ℕ} {s t : System}
      → n + 2 < version_mod
      → Step encode decode nclnt s t
      → Inv encode nclnt n s
      → Inv encode nclnt (suc n) t
  unfolding rpc
  Step-Inv {n} {s} room (run c d lt) inv =
      let (es', seen', change, board, fit) =
        exec-Own encode decode back nclnt s.server inv.es inv.seen inv.board
          (omega (arith, inv.counted)) c lt (s.clients c) (inv.fits c).0 d (s.clients c).pc refl
          (inv.fits c).1 in
      record {
        es = es';
        seen = seen';
        board = board;
        counted = Change-counted n change inv.counted;
        fits =
            update-all (IsFit es' seen') s.clients c _ fit
              (λ j ne. Change-Fits change ne (s.clients j) (inv.fits j));
      }
  Step-Inv {n} {s} room (stop c e) inv = record {
    es = inv.es;
    seen = inv.seen;
    board = inv.board;
    counted = omega (arith, inv.counted);
    fits =
        update-all (IsFit inv.es inv.seen) s.clients c _
          ((inv.fits c).0, subst (Fits inv.es inv.seen c (s.clients c)) e (inv.fits c).1)
          (λ j _. inv.fits j);
  }
  Step-Inv {n} {s} room (other_put args ne) inv = record {
    es = inv.es;
    seen = inv.seen;
    board = record {
      found = ground (arith, put_lem s.server args "k", eq_iff args.key "k", inv.board.found);
      scanned = inv.board.scanned;
      below = inv.board.below;
    };
    counted = omega (arith, inv.counted);
    fits = inv.fits;
  }

  pub Reach-Inv :
      {n : ℕ} {s : System}
      → n + 2 < version_mod
      → Reach encode decode nclnt n s
      → Inv encode nclnt n s
  Reach-Inv room here = start-Inv
  Reach-Inv {n = suc n} room (next r st) = Step-Inv (omega arith) st (Reach-Inv (omega arith) r)
