-- ===== src/KvTest/OpLog/Linear.antt =====
-- kvtest1/porcupine.go: the log of clerks of kvsrv1 against the model of models1/kv.go.
use text.Mathlib.Text.{◌==◌ as str_eq}
use text.Mathlib.TextEquality.{eq_iff}
use mit.Prelude.{
  ℕ, ◌+◌, ◌≤◌, ◌<◌, ◌≡◌, refl, sym, ap, ◌∙◌, Bool, true, false, not, some, List, [], ◌∷◌, map, inl,
  inr, arith, String, lookup, string_eq, Bool-cases, count,
}
use mit.KvSrv.Rpc.{version_mod}
use mit.KvSrv.Server.{KvServer, make_kv_server}
use mit.KvSrv.Server.Laws.{put_lem}
use mit.KvSrv.Model.{KvOutput, Operation, init, step, partition, accepts}
use mit.KvSrv.Model.Refines.{
  Request, get_req, put_req, request_key, serve, state_of, is_missing_put, all, serve_other,
  step-serve,
}
use mit.KvTest.OpLog.{Call, idle, running, done, World, input_of, logged, Reach}
use mit.KvTest.OpLog.Played.{Told, Matches, Points, who, From, IsTimely, Played}
use mit.KvTest.OpLog.Invariant.{Reach-Inv}
use mit.KvTest.OpLog.Standing.{Standing}

abbrev pub is_running : Call → Bool
is_running (running _ _) = true
is_running _ = false

abbrev pub begun : Call → ℕ
begun (running start _) = start
begun (done start _ _) = start
begun idle = 0

abbrev pub ended_at : Call → ℕ
ended_at (done _ stop _) = stop
ended_at _ = 0

-- No later call of the order has returned before an earlier one began.
abbrev pub AllAfter : (ℕ → Call) → ℕ → List ℕ → Type 0
AllAfter calls t [] = Unit
AllAfter calls t (d ∷ ds) = (t ≤ ended_at (calls d)) × AllAfter calls t ds

abbrev pub IsRealTime : (ℕ → Call) → List ℕ → Type 0
IsRealTime calls [] = Unit
IsRealTime calls (c ∷ cs) = AllAfter calls (begun (calls c)) cs × IsRealTime calls cs

input-serve : (s : KvServer) (r : Request) → (serve s r).0.input ≡ input_of r
input-serve s (get_req a) = refl
input-serve s (put_req a) = refl

logged-key : (r : Request) (q : Call) → (logged r q).input.key ≡ request_key r
logged-key (get_req a) idle = refl
logged-key (get_req a) (running _ _) = refl
logged-key (get_req a) (done _ _ _) = refl
logged-key (put_req a) idle = refl
logged-key (put_req a) (running _ _) = refl
logged-key (put_req a) (done _ _ _) = refl

-- The model accepts what a call was told where it stands, but a Put's ErrNoKey.
step-Told :
    (s : KvServer) (r : Request) (k : String) (out : KvOutput)
    → Told out (serve s r).0
    → str_eq (request_key r) k ≡ true
    → step (state_of s k) (input_of r) out ≡ (
      not (is_missing_put (record { input = input_of r; output = out })),
      some (state_of (serve s r).1 k),
    )
unfolding step
step-Told s r k out (inl same) mine =
    ap (step (state_of s k) (input_of r)) same
    ∙ ap (λ i. step (state_of s k) i (serve s r).0.output) (sym (input-serve s r))
    ∙ step-serve s r k mine
    ∙ ap (λ o. (not (is_missing_put o), some (state_of (serve s r).1 k)))
        (ap (λ i. record { input = i; output = (serve s r).0.output }) (input-serve s r)
          ∙ ap (λ o. record { input = input_of r; output = o }) (sym same))
step-Told s (get_req a) k out (inr (op, is, _)) mine = absurd (omega arith)
step-Told s (put_req a) k out (inr (op, is, _)) mine =
    rw is (ground (arith, put_lem s a k, eq_iff a.key k))

module _ (req : ℕ → Request) where
  abbrev pub logged_call : (ℕ → Call) → ℕ → Operation
  logged_call calls c = logged (req c) (calls c)

  module _ (calls : ℕ → Call) (ended : (c : ℕ) → is_running (calls c) ≡ false) where
    step-logged :
        (s : KvServer) (c t : ℕ) (k : String) (q : Call)
        → is_running q ≡ false
        → Matches q t (serve s (req c)).0
        → str_eq (request_key (req c)) k ≡ true
        → step (state_of s k) (logged (req c) q).input (logged (req c) q).output
          ≡ (not (is_missing_put (logged (req c) q)), some (state_of (serve s (req c)).1 k))
    step-logged s c t k idle n m mine = absurd m
    step-logged s c t k (running _ _) n m mine = cc
    step-logged s c t k (done _ _ out) n m mine = step-Told s (req c) k out m.2 mine

    accepts-Played :
        (s s' : KvServer) (ps : Points) (k : String)
        → Played req calls s ps s'
        → let ops = partition k (map (logged_call calls) (who ps)) in
          accepts (some (state_of s k)) ops ≡ all (λ o. not (is_missing_put o)) ops
    unfolding partition accepts
    accepts-Played s s' [] k p = refl
    accepts-Played s s' ((c, t) ∷ ps) k p = elim (Bool-cases (str_eq (request_key (req c)) k)) [
      | inl mine ↦ rw (
        logged-key (req c) (calls c),
        mine,
        step-logged s c t k (calls c) (ended c) p.0 mine,
        accepts-Played (serve s (req c)).1 s' ps k p.1,
      )
      | inr other ↦
          rw (logged-key (req c) (calls c), other, ← serve_other s (req c) k other)
            (accepts-Played (serve s (req c)).1 s' ps k p.1)
    ]

    Matches-times :
        (q : Call) (t : ℕ) (o : Operation)
        → is_running q ≡ false
        → Matches q t o
        → (begun q ≤ t) × (t ≤ ended_at q)
    Matches-times idle t o n m = absurd m
    Matches-times (running _ _) t o n m = cc
    Matches-times (done _ _ out) t o n m = (m.0, m.1)

    AllAfter-From :
        (s s' : KvServer) (ps : Points) (b t : ℕ)
        → b ≤ t
        → From t ps
        → Played req calls s ps s'
        → AllAfter calls b (who ps)
    AllAfter-From s s' [] b t le f p = tt
    AllAfter-From s s' ((d, u) ∷ ps) b t le f p =
        let (_, stop) = Matches-times (calls d) u (serve s (req d)).0 (ended d) p.0 in
        (omega arith, AllAfter-From (serve s (req d)).1 s' ps b t le f.1 p.1)

    IsRealTime-Played :
        (s s' : KvServer) (ps : Points)
        → IsTimely ps
        → Played req calls s ps s'
        → IsRealTime calls (who ps)
    IsRealTime-Played s s' [] f p = tt
    IsRealTime-Played s s' ((c, t) ∷ ps) f p =
        let (start, _) = Matches-times (calls c) t (serve s (req c)).0 (ended c) p.0 in
        (
          AllAfter-From (serve s (req c)).1 s' ps (begun (calls c)) t start f.0 p.1,
          IsRealTime-Played (serve s (req c)).1 s' ps f.1 p.1,
        )

  Standing-even : (q : Call) (p l : ℕ) → is_running q ≡ false → Standing q p l → p ≡ l
  Standing-even idle p l n h = omega arith
  Standing-even (running _ _) p l n h = cc
  Standing-even (done _ _ _) p l n h = omega arith

  -- The log is linearizable, whatever the network loses and however the calls overlap, once every
  -- call that has begun has returned and as long as versions do not wrap: there is an order of
  -- exactly the calls in the log in which no call comes before another that had returned before
  -- it began, and for every key the model accepts, from its initial state, the logged operations on
  -- it in this order, exactly if no Put among them was answered with ErrNoKey.
  pub log-linearizable :
      {n : ℕ} {w : World}
      → n + 2 < version_mod
      → Reach req n w
      → ((c : ℕ) → is_running (w.calls c) ≡ false)
      → (order : List ℕ) × ((c : ℕ) → count c order ≡ count c w.log)
        × IsRealTime w.calls order
        × ((k : String)
            → accepts (some init) (partition k (map (logged_call w.calls) order))
              ≡ all (λ o. not (is_missing_put o)) (partition k (map (logged_call w.calls) order)))
  unfolding make_kv_server lookup
  log-linearizable {w = w} room r ended =
      let inv = Reach-Inv req room r in
      (
        who inv.ps,
        λ c. Standing-even (w.calls c) _ _ (ended c) (inv.standing c),
        IsRealTime-Played w.calls ended make_kv_server w.server inv.ps inv.timely inv.played,
        λ k. accepts-Played w.calls ended make_kv_server w.server inv.ps k inv.played,
      )
