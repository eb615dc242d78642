-- ===== src/KvTest/OpLog/Invariant.antt =====
-- kvtest1/porcupine.go: the order of the calls, in the states that are reached.
use mit.Prelude.{
  ℕ, suc, ◌+◌, ◌≤◌, ◌<◌, ◌≡◌, refl, sym, subst, Bool, true, false, Option, [], ◌∷◌, ◌++◌, inl, inr,
  arith, update, update-all, length, length-append, count,
}
use mit.KvSrv.Rpc.{version_mod}
use mit.KvSrv.Server.{KvServer, make_kv_server}
use mit.KvSrv.Model.{KvOutput, Operation}
use mit.KvSrv.Model.Refines.{Request, serve}
use mit.KvTest.OpLog.{
  idle, running, done, World, attempt, attempted, after, append, begin, Step, tick, call, try,
  Reach, here, next,
}
use mit.KvTest.OpLog.Played.{
  maybe_out, Matches, Points, who, who-append, UpTo, IsTimely, Played, Played-append, Played-fresh,
  Played-weaken,
}
use mit.KvTest.OpLog.Attempts.{Outcome, nothing, served, again, attempt-Outcome}
use mit.KvTest.OpLog.Standing.{
  Standing, Started, Started-tick, UpTo-tick, UpTo-append, IsTimely-append, update_self, count_self,
  count_other, append_other, Standing-log, Standing-most, Standing-served, Started-after,
}

module _ (req : ℕ → Request) where
  pub record Inv (n : ℕ) (w : World) : Type 0 where
    pub ps : Points
    pub played : Played req w.calls make_kv_server ps w.server
    few : length ps ≤ n
    upto : UpTo w.now ps
    pub timely : IsTimely ps
    pub standing : (c : ℕ) → Standing (w.calls c) (count c (who ps)) (count c w.log)
    started : (c : ℕ) → Started w.now (w.calls c)

  begin-Inv : Inv 0 (begin req)
  unfolding begin
  begin-Inv = record {
    ps = [];
    played = refl;
    few = omega arith;
    upto = tt;
    timely = tt;
    standing = λ c. (refl, refl);
    started = λ c. tt;
  }

  call-Inv :
      {n : ℕ} {w : World} (c : ℕ)
      → w.calls c ≡ idle
      → Inv n w
      → Inv (suc n) (record w { calls = update w.calls c (running w.now true) })
  call-Inv {n} {w} c e inv =
      let q = running w.now true in
      let absent : Standing idle (count c (who inv.ps)) (count c w.log) =
        subst (λ x. Standing x (count c (who inv.ps)) (count c w.log)) e (inv.standing c) in
      record {
        ps = inv.ps;
        played = Played-fresh req w.calls make_kv_server w.server inv.ps c q absent.0 inv.played;
        few = omega (arith, inv.few);
        upto = inv.upto;
        timely = inv.timely;
        standing =
            update-all (λ d x. Standing x (count d (who inv.ps)) (count d w.log)) w.calls c q absent
              (λ d _. inv.standing d);
        started =
            update-all (λ d x. Started w.now x) w.calls c q (omega arith) (λ d _. inv.started d);
      }

  Standing-again :
      (start : ℕ) (first : Bool) (p l : ℕ)
      → Standing (running start first) p l
      → Standing (running start false) p l
  Standing-again start true p l h = (omega arith, h.1)
  Standing-again start false p l h = h

  module _ {n : ℕ} {w : World} (c start : ℕ) (first : Bool) (e : w.calls c ≡ running start first)
      (inv : Inv n w) where
    stands : Standing (running start first) (count c (who inv.ps)) (count c w.log)
    stands = subst (λ x. Standing x (count c (who inv.ps)) (count c w.log)) e (inv.standing c)

    mine : (u : ℕ) (o : Operation) → Matches (w.calls c) u o → Matches (running start first) u o
    mine u o = subst (λ x. Matches x u o) e

    old : start ≤ w.now
    old = subst (Started w.now) e (inv.started c)

    Outcome-Inv :
        (o : Option KvOutput) (s : KvServer)
        → Outcome w.now start first w.server (count c (who inv.ps)) (req c) o s
        → Inv (suc n) (attempted w c start (o, s))
    Outcome-Inv _ _ nothing =
        let q = running start false in
        record {
          ps = inv.ps;
          played =
              Played-weaken req w.calls make_kv_server w.server inv.ps c q w.now
                (λ u o le m. let (a, _, op, ok) = mine u o m in (a, refl, op, ok)) inv.upto
                inv.played;
          few = omega (arith, inv.few);
          upto = inv.upto;
          timely = inv.timely;
          standing =
              update-all (λ d x. Standing x (count d (who inv.ps)) (count d w.log)) w.calls c q
                (Standing-again start first (count c (who inv.ps)) (count c w.log) stands)
                (λ d _. inv.standing d);
          started = update-all (λ d x. Started w.now x) w.calls c q old (λ d _. inv.started d);
        }
    Outcome-Inv _ _ (again no_first at_least) =
        let q = done start w.now maybe_out in
        record {
          ps = inv.ps;
          played =
              Played-weaken req w.calls make_kv_server w.server inv.ps c q w.now
                (λ u o le m. let (a, _, op, is) = mine u o m in (a, le, inr (op, refl, inl is)))
                inv.upto inv.played;
          few = omega (arith, inv.few);
          upto = inv.upto;
          timely = inv.timely;
          standing =
              update-all (λ d x. Standing x (count d (who inv.ps)) (count d (w.log ++ (c ∷ []))))
                w.calls c q
                (
                  omega (arith, Standing-most start first _ _ stands),
                  omega (arith, count_self c w.log, Standing-log start first _ _ stands),
                )
                (λ d ne.
                  subst (Standing (w.calls d) (count d (who inv.ps)))
                    (sym (count_other c d w.log ne)) (inv.standing d));
          started = update-all (λ d x. Started w.now x) w.calls c q tt (λ d _. inv.started d);
        }
    Outcome-Inv _ _ (served o zero_times m) =
        let q = after start w.now o in
        let order : who (inv.ps ++ ((c, w.now) ∷ [])) ≡ who inv.ps ++ (c ∷ []) =
          who-append inv.ps ((c, w.now) ∷ []) in
        record {
          ps = inv.ps ++ ((c, w.now) ∷ []);
          played =
              Played-append req (update w.calls c q) make_kv_server w.server inv.ps c w.now
                (Played-fresh req w.calls make_kv_server w.server inv.ps c q zero_times inv.played)
                (subst (λ x. Matches x w.now (serve w.server (req c)).0)
                  (sym (update_self w.calls c q)) m);
          few = omega (arith, inv.few, length-append inv.ps ((c, w.now) ∷ []));
          upto = UpTo-append w.now c inv.ps inv.upto;
          timely = IsTimely-append w.now c inv.ps inv.upto inv.timely;
          standing =
              subst
                (λ cs.
                  (d : ℕ)
                  → Standing (update w.calls c q d) (count d cs) (count d (append w.log c o)))
                (sym order)
                (update-all
                  (λ d x.
                    Standing x (count d (who inv.ps ++ (c ∷ []))) (count d (append w.log c o)))
                  w.calls c q
                  (Standing-served start w.now c o (who inv.ps) w.log zero_times
                    (Standing-log start first _ _ stands))
                  (λ d ne.
                    subst (λ k. Standing (w.calls d) k (count d (append w.log c o)))
                      (sym (count_other c d (who inv.ps) ne))
                      (subst (Standing (w.calls d) (count d (who inv.ps)))
                        (sym (append_other c d w.log o ne)) (inv.standing d))));
          started =
              update-all (λ d x. Started w.now x) w.calls c q (Started-after start w.now o old)
                (λ d _. inv.started d);
        }

  Step-Inv : {n : ℕ} {v w : World} → n + 2 < version_mod → Step req v w → Inv n v → Inv (suc n) w
  Step-Inv {v = v} room tick inv = record {
    ps = inv.ps;
    played = inv.played;
    few = omega (arith, inv.few);
    upto = UpTo-tick v.now inv.ps inv.upto;
    timely = inv.timely;
    standing = inv.standing;
    started = λ c. Started-tick v.now (v.calls c) (inv.started c);
  }
  Step-Inv room (call c e) inv = call-Inv c e inv
  Step-Inv {v = v} room (try c start first d e) inv =
      let x = attempt d first (req c) v.server in
      Outcome-Inv c start first e inv x.0 x.1 (
        attempt-Outcome req v.calls v.server inv.ps c start v.now first e (old c start first e inv)
          (omega (arith, inv.few)) inv.played d (req c) refl)

  pub Reach-Inv : {n : ℕ} {w : World} → n + 2 < version_mod → Reach req n w → Inv n w
  Reach-Inv room here = begin-Inv
  Reach-Inv {n = suc n} room (next r st) = Step-Inv (omega arith) st (Reach-Inv (omega arith) r)
