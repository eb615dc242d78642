-- ===== src/KvTest/OpLog/Played.antt =====
-- kvtest1/porcupine.go: an order of the calls, as the server would serve them one after the other.
use mit.Prelude.{
  ℕ, ◌+◌, ◌≤◌, ◌<◌, ◌≡◌, refl, sym, ap, subst, false, some, List, [], ◌∷◌, ◌++◌, ◌⊎◌, inl, inr,
  arith, String, nat_eqb, nat_eqb_iff, lookup, string_eq, update, length, Bool-cases, Option-cases,
  count,
}
use mit.KvSrv.Rpc.{ok, err_version, err_maybe, version_mod}
use mit.KvSrv.Server.{Value, KvServer}
use mit.KvSrv.Server.Laws.{put_lem, put-grows}
use mit.KvSrv.Model.{KvOutput, Operation}
use mit.KvSrv.Model.Refines.{Request, get_req, put_req, serve}
use mit.KvTest.OpLog.{Call, idle, running, done}

abbrev pub maybe_out : KvOutput
maybe_out = record { value = ""; version = 0; err = err_maybe }

-- A call is told what the server answers, or, of a Put, ErrMaybe for OK or ErrVersion.
abbrev pub Told : KvOutput → Operation → Type 0
Told out o =
    (out ≡ o.output)
    ⊎ ((o.input.op ≡ 1) × (out ≡ maybe_out) × ((o.output.err ≡ ok) ⊎ (o.output.err ≡ err_version)))

-- A call that is in the order at the time `t`, where the server's operation is `o`: it has
-- returned, or it is a Put that the server has done and that knows nothing yet.
abbrev pub Matches : Call → ℕ → Operation → Type 0
Matches idle t o = ⊥
Matches (running start first) t o =
    (start ≤ t) × (first ≡ false) × (o.input.op ≡ 1) × (o.output.err ≡ ok)
Matches (done start stop out) t o = (start ≤ t) × (t ≤ stop) × Told out o

abbrev pub Points : Type 0
Points = List (ℕ × ℕ)

abbrev pub who : Points → List ℕ
who [] = []
who ((c, t) ∷ ps) = c ∷ who ps

pub who-append : (ps qs : Points) → who (ps ++ qs) ≡ who ps ++ who qs
who-append [] qs = refl
who-append ((c, t) ∷ ps) qs = ap (◌∷◌ c) (who-append ps qs)

serve-grows :
    (s : KvServer) (r : Request) (k : String) (e : Value)
    → lookup k s.kv ≡ some e
    → e.version + 1 < version_mod
    → (e' : Value) × (lookup k (serve s r).1.kv ≡ some e')
      × (e.version ≤ e'.version)
      × (e'.version ≤ e.version + 1)
serve-grows s (get_req a) k e found room = (e, found, omega arith, omega arith)
serve-grows s (put_req a) k e found room = put-grows s a k e found room

-- No version is above `m`.
abbrev pub IsBelow : ℕ → KvServer → Type 0
IsBelow m s = (k : String) (e : Value) → lookup k s.kv ≡ some e → e.version ≤ m

serve-IsBelow :
    (m : ℕ) (s : KvServer) (r : Request)
    → m + 1 < version_mod
    → IsBelow m s
    → IsBelow (m + 1) (serve s r).1
serve-IsBelow m s (get_req a) room b k e h = omega (arith, b k e h)
serve-IsBelow m s (put_req a) room b k e h = elim (Option-cases (lookup a.key s.kv)) [
  | inl gone ↦ ground (arith, put_lem s a k, b k e)
  | inr (v, found) ↦ ground (arith, put_lem s a k, b k e, b a.key v found)
]

-- Times up to `now`, from `t` on, and in their order.
abbrev pub UpTo : ℕ → Points → Type 0
UpTo now [] = Unit
UpTo now ((c, t) ∷ ps) = (t ≤ now) × UpTo now ps

abbrev pub From : ℕ → Points → Type 0
From t [] = Unit
From t ((c, u) ∷ ps) = (t ≤ u) × From t ps

abbrev pub IsTimely : Points → Type 0
IsTimely [] = Unit
IsTimely ((c, t) ∷ ps) = From t ps × IsTimely ps

module _ (req : ℕ → Request) where
  abbrev pub Played : (ℕ → Call) → KvServer → Points → KvServer → Type 0
  Played calls s [] s' = s ≡ s'
  Played calls s ((c, t) ∷ ps) s' =
      Matches (calls c) t (serve s (req c)).0 × Played calls (serve s (req c)).1 ps s'

  pub Played-append :
      (calls : ℕ → Call) (s s' : KvServer) (ps : Points) (c t : ℕ)
      → Played calls s ps s'
      → Matches (calls c) t (serve s' (req c)).0
      → Played calls s (ps ++ ((c, t) ∷ [])) (serve s' (req c)).1
  Played-append calls s s' [] c t p m = (
    subst (λ z. Matches (calls c) t (serve z (req c)).0) (sym p) m,
    ap (λ z. (serve z (req c)).1) p,
  )
  Played-append calls s s' ((d, u) ∷ ps) c t p m =
      (p.0, Played-append calls (serve s (req d)).1 s' ps c t p.1 m)

  -- A call that is not in the order changes.
  pub Played-fresh :
      (calls : ℕ → Call) (s s' : KvServer) (ps : Points) (c : ℕ) (q : Call)
      → count c (who ps) ≡ 0
      → Played calls s ps s'
      → Played (update calls c q) s ps s'
  Played-fresh calls s s' [] c q n p = p
  Played-fresh calls s s' ((d, u) ∷ ps) c q n p =
      let ne : nat_eqb c d ≡ false = ground (arith, nat_eqb_iff c d, nat_eqb_iff d c) in
      rw ne (p.0, Played-fresh calls (serve s (req d)).1 s' ps c q (ground arith) p.1)

  -- A call changes to one that still matches wherever it stands.
  pub Played-weaken :
      (calls : ℕ → Call) (s s' : KvServer) (ps : Points) (c : ℕ) (q : Call) (now : ℕ)
      → ((u : ℕ) (o : Operation) → u ≤ now → Matches (calls c) u o → Matches q u o)
      → UpTo now ps
      → Played calls s ps s'
      → Played (update calls c q) s ps s'
  Played-weaken calls s s' [] c q now m up p = p
  Played-weaken calls s s' ((d, u) ∷ ps) c q now m up p =
      let rest = Played-weaken calls (serve s (req d)).1 s' ps c q now m up.1 p.1 in
      elim (Bool-cases (nat_eqb c d)) [
        | inl y ↦
            let mine : Matches (calls c) u (serve s (req d)).0 =
              subst (λ j. Matches (calls j) u (serve s (req d)).0) (sym ((nat_eqb_iff c d).0 y))
                p.0 in
            rw y (m u (serve s (req d)).0 up.0 mine, rest)
        | inr other ↦ rw other (p.0, rest)
      ]

  -- Where a call stands in the order.
  pub Played-at :
      (calls : ℕ → Call) (m : ℕ) (s s' : KvServer) (ps : Points) (c : ℕ)
      → 1 ≤ count c (who ps)
      → m + length ps < version_mod
      → IsBelow m s
      → Played calls s ps s'
      → (z : KvServer) × (j : ℕ) × (u : ℕ) × (rest : Points) × IsBelow j z
        × (j + 1 + length rest ≤ m + length ps)
        × Matches (calls c) u (serve z (req c)).0
        × Played calls (serve z (req c)).1 rest s'
  Played-at calls m s s' [] c n room b p = absurd (omega arith)
  Played-at calls m s s' ((d, u) ∷ ps) c n room b p = elim (Bool-cases (nat_eqb d c)) [
    | inl y ↦
        let here : Matches (calls c) u (serve s (req c)).0
            × Played calls (serve s (req c)).1 ps s' =
          subst
            (λ j. Matches (calls j) u (serve s (req j)).0 × Played calls (serve s (req j)).1 ps s')
            ((nat_eqb_iff d c).0 y) p in
        (s, m, u, ps, b, omega arith, here.0, here.1)
    | inr other ↦
        let (z, j, v, rest, b', le, q, r) =
          Played-at calls (m + 1) (serve s (req d)).1 s' ps c (ground arith) (omega arith)
            (serve-IsBelow m s (req d) (omega arith) b) p.1 in
        (z, j, v, rest, b', omega arith, q, r)
  ]

  -- While versions do not wrap, a present key stays, and its version does not go down.
  pub Played-grows :
      (calls : ℕ → Call) (s s' : KvServer) (ps : Points) (k : String) (e : Value)
      → Played calls s ps s'
      → lookup k s.kv ≡ some e
      → e.version + length ps < version_mod
      → (e' : Value) × (lookup k s'.kv ≡ some e')
        × (e.version ≤ e'.version)
        × (e'.version ≤ e.version + length ps)
  Played-grows calls s s' [] k e p found room =
      (e, subst (λ z. lookup k z.kv ≡ some e) p found, omega arith, omega arith)
  Played-grows calls s s' ((d, u) ∷ ps) k e p found room =
      let (e', now, lo, hi) = serve-grows s (req d) k e found (omega arith) in
      let (e'', later, lo', hi') =
        Played-grows calls (serve s (req d)).1 s' ps k e' p.1 now (omega arith) in
      (e'', later, omega arith, omega arith)
