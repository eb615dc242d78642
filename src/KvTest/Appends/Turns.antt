-- ===== src/KvTest/Appends/Turns.antt =====
-- kvtest1/kvtest.go, OneClientAppend: the turns of a client and what they leave to it.
use mit.Prelude.{
  ℕ, ◌+◌, ◌≤◌, ◌<◌, String, ◌≡◌, refl, sym, ap, subst, ◌∙◌, Bool, true, false, ◌⊎◌, inl, inr,
  Option, some, List, [], ◌∷◌, ◌++◌, arith, length, lookup, string_eq, length-append,
}
use mit.KvSrv.Rpc.{ok, err_version, version_mod, empty_put}
use mit.KvSrv.Server.{KvServer, put}
use mit.KvSrv.Server.Laws.{get_found, put_found}
use mit.KvSrv.Clerk.{Delivery, request_lost, reply_lost, delivered, call_get, call_put, answered}
use mit.KvTest.Appends.{EntryN, Seen, see, see_then, unseen}
use mit.KvTest.Appends.Counts.{see_next, see_all-append}
use mit.KvTest.Appends.Invariant.{Bound, Sent, Fits, IsFit, Change, same, more, Board}
use mit.KvTest.Appends.System.{
  append_args, put_ended, Client, Pc, starting, reading, putting, failed, finished, mine, exec,
  get_turn, put_turn,
}

module _ (encode : List EntryN → String) (decode : String → Option (List EntryN))
    (back : (es : List EntryN) → decode (encode es) ≡ some es) (nclnt : ℕ) where
  abbrev pub Own : ℕ → List EntryN → Seen → Client × KvServer → Type 0
  Own me es seen r =
      (es' : List EntryN) × (seen' : Seen) × Change me es seen es' seen'
      × Board encode nclnt r.1 es' seen'
      × IsFit es' seen' me r.0

  module _ (s : KvServer) (es : List EntryN) (seen : Seen) (b : Board encode nclnt s es seen)
      (room : length es + 2 < version_mod) (me : ℕ) (lt : me < nclnt) (c : Client)
      (sum : c.nok + c.nmay ≡ c.i) where
    stay : (c' : Client) → IsFit es seen me c' → Own me es seen (c', s)
    stay c' f = (es, seen, same, b, f)

    got :
        get_turn decode me c s (call_get delivered (record { key = "k" }) s)
        ≡ record c { pc = putting (length es + 1) (es ++ (mine me c ∷ [])) true }
    unfolding call_get
    got = ap (λ r. get_turn decode me c s (true, r)) (get_found s "k" _ b.found) ∙ rw (back es) refl

    exec-Own-get :
        (d : Delivery)
        → Bound seen me c.i c.nmay
        → Fits es seen me c c.pc
        → Own me es seen (get_turn decode me c s (call_get d (record { key = "k" }) s), s)
    unfolding call_get
    exec-Own-get request_lost f g = stay c (sum, g)
    exec-Own-get reply_lost f g = stay c (sum, g)
    exec-Own-get delivered f g =
        subst (λ c'. Own me es seen (c', s)) (sym got)
          (stay (record c { pc = putting (length es + 1) (es ++ (mine me c ∷ [])) true })
            (sum, inl (omega arith, λ k. refl, f)))

    abbrev after : ℕ → List EntryN → KvServer
    after ver es' = (put s (append_args encode es' ver) empty_put).1

    -- What a Put that the server executes leaves.
    record Executed (ver : ℕ) (es' : List EntryN) : Type 0 where
      seen' : Seen
      change : Change me es seen (es ++ (mine me c ∷ [])) seen'
      board : Board encode nclnt (after ver es') (es ++ (mine me c ∷ [])) seen'
      bound : Bound seen' me (c.i + 1) c.nmay
      older : ver < length (es ++ (mine me c ∷ [])) + 1

    executed :
        (ver : ℕ) (es' : List EntryN)
        → ver ≡ length es + 1
        → es' ≡ es ++ (mine me c ∷ [])
        → Bound seen me c.i c.nmay
        → lookup "k" (after ver es').kv ≡ some (record { val = encode es'; version = ver + 1 })
        → Executed ver es'
    executed ver es' at_ver is (lo, hi) now =
        let (seen', eq, nx) = see_next me c.i seen lo in
        let longer = length-append es (mine me c ∷ []) in
        record {
          seen' = seen';
          change = more c.i seen' eq nx;
          board = record {
            found =
                now
                ∙ ap (λ l. some (record { val = encode l; version = ver + 1 })) is
                ∙ ap (λ v. some (record { val = encode (es ++ (mine me c ∷ [])); version = v }))
                    (omega arith);
            scanned =
                see_all-append es (mine me c) (unseen nclnt)
                ∙ ap (see_then (see (mine me c))) b.scanned
                ∙ eq;
            below = nx.below nclnt lt b.below;
          };
          bound = (omega (arith, nx.expect), omega (arith, nx.expect, nx.skipped));
          older = omega arith;
        }

    Sent-le :
        (ver : ℕ) (es' : List EntryN) (first : Bool)
        → Sent es seen me c ver es' first
        → ver ≤ length es + 1
    Sent-le ver es' first (inl (lo, _, _)) = lo
    Sent-le ver es' first (inr (lo, _, _)) = omega arith

    -- A Put of the client, by the error that the server answers.
    put-cases :
        (ver : ℕ) (es' : List EntryN) (first : Bool)
        → Sent es seen me c ver es' first
        → (((put s (append_args encode es' ver) empty_put).0.err ≡ ok) × Executed ver es')
          ⊎ (((put s (append_args encode es' ver) empty_put).0.err ≡ err_version)
              × Board encode nclnt (after ver es') es seen)
    put-cases ver es' first sent =
        let lo = Sent-le ver es' first sent in
        elim (put_found s "k" (encode es') ver (record { val = encode es; version = length es + 1 })
          b.found (omega arith)) [
            | inl (eq, err, now) ↦ elim sent [
              | inl (lo, is, bd) ↦ inl (err, executed ver es' (sym eq) (is (sym eq)) bd now)
              | inr (lo, _, _) ↦ absurd (omega arith)
            ]
            | inr (ne, err, now) ↦
                inr (err, record { found = now; scanned = b.scanned; below = b.below })
          ]

    Sent-again :
        (ver : ℕ) (es' : List EntryN) (first : Bool)
        → Sent es seen me c ver es' first
        → Sent es seen me c ver es' false
    Sent-again ver es' first (inl f) = inl f
    Sent-again ver es' first (inr (lo, _, bd)) = inr (lo, refl, bd)

    -- What the client makes of ErrVersion, which is ErrMaybe on a resend.
    refused :
        (ver : ℕ) (es' : List EntryN) (first : Bool)
        → Sent es seen me c ver es' first
        → IsFit es seen me (put_ended c (answered first err_version))
    refused ver es' true (inl (lo, is, bd)) = (sum, bd)
    refused ver es' true (inr (lo, is, bd)) = cc
    refused ver es' false (inl (lo, is, bd)) = (omega arith, (omega arith, omega arith))
    refused ver es' false (inr (lo, is, bd)) = (omega arith, bd)

    exec-Own-put :
        (d : Delivery) (ver : ℕ) (es' : List EntryN) (first : Bool)
        → Sent es seen me c ver es' first
        → Own me es seen (put_turn ver es' first c (call_put d (append_args encode es' ver) s))
    unfolding call_put
    exec-Own-put request_lost ver es' first sent =
        stay (record c { pc = putting ver es' false }) (sum, Sent-again ver es' first sent)
    exec-Own-put reply_lost ver es' first sent = elim (put-cases ver es' first sent) [
      | inl (err, x) ↦ (
        es ++ (mine me c ∷ []),
        x.seen',
        x.change,
        x.board,
        (sum, inr (x.older, refl, (omega (arith, x.bound), omega (arith, x.bound)))),
      )
      | inr (err, b') ↦ (es, seen, same, b', (sum, Sent-again ver es' first sent))
    ]
    exec-Own-put delivered ver es' first sent = elim (put-cases ver es' first sent) [
      | inl (err, x) ↦
          rw err (es ++ (mine me c ∷ []), x.seen', x.change, x.board, (omega arith, x.bound))
      | inr (err, b') ↦ rw err (es, seen, same, b', refused ver es' first sent)
    ]

    pub exec-Own :
        (d : Delivery) (pc : Pc)
        → c.pc ≡ pc
        → Fits es seen me c pc
        → Own me es seen (exec encode decode me d c pc s)
    unfolding exec
    exec-Own d starting e f = stay (record c { pc = reading }) (sum, f)
    exec-Own d reading e f = exec-Own-get d f (subst (Fits es seen me c) (sym e) f)
    exec-Own d (putting ver es' first) e f = exec-Own-put d ver es' first f
    exec-Own d failed e f = absurd f
    exec-Own d finished e f = stay c (sum, subst (Fits es seen me c) (sym e) f)
