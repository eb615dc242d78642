-- ===== src/RaftTest/Agree.antt =====
-- What the checks of raft1/test.go find out.
use mit.Prelude.{
  ℕ, zero, suc, ◌≡◌, ◌≢◌, ◌↔◌, refl, sym, ap, ◌∙◌, arith, Bool, false, Option, none, some, List, [],
  ◌∷◌, ltb, get_elem?, set, if◌then◌else◌, HasEq, nat_eq, insert-cases, set-cases, insert,
  Bool-cases, Option-cases, ◌⊎◌, inl, inr,
}
use mit.Raft.Apply.{ApplyMsg}
use mit.RaftTest.{
  ErrMsg, fine, differs, RaftServer, Test, entry, conflicts, clash, prev_ok, check_logs,
}

not_agreed : (index server other : ℕ) → differs index server other ≢ fine
not_agreed index server other h = cc

module _ {ℓ} {V : Type ℓ} where
  -- No two servers have different values at an index.
  abbrev pub IsAgreed : Test V → Type ℓ
  IsAgreed ts =
      (i j : ℕ) (a b : RaftServer V) (k : ℕ) (v w : V)
      → get_elem? ts.srvs i ≡ some a
      → get_elem? ts.srvs j ≡ some b
      → entry a k ≡ some v
      → entry b k ≡ some w
      → v ≡ w

  -- Every server that has an entry at the index has the value `v` there.
  abbrev pub AllHave : ℕ → V → List (RaftServer V) → Type ℓ
  AllHave k v srvs =
      (j : ℕ) (rs : RaftServer V) (w : V) → get_elem? srvs j ≡ some rs → entry rs k ≡ some w → w ≡ v

  abbrev entry_at : ℕ → Option (RaftServer V) → Option V
  entry_at k none = none
  entry_at k (some rs) = entry rs k

module _ {ℓ} {V : Type ℓ} ⦃e : HasEq V⦄ where
  conflicts-false :
      (k : ℕ) (v w : V) (rs : RaftServer V) → conflicts k v rs ≡ false → entry rs k ≡ some w → w ≡ v
  conflicts-false k v w rs h at = (e.same_iff w v).0 (ground arith)

  conflicts-none :
      (k : ℕ) (v : V) (rs : RaftServer V)
      → ((w : V) → entry rs k ≡ some w → w ≡ v)
      → conflicts k v rs ≡ false
  conflicts-none k v rs h = elim (Option-cases (entry rs k)) [
    | inl n ↦ rw (conflicts, n)
    | inr (w, at) ↦ rw (conflicts, at, (e.same_iff w v).1 (h w at))
  ]

  AllHave-cons :
      (k : ℕ) (v : V) (a : RaftServer V) (srvs : List (RaftServer V))
      → ((w : V) → entry a k ≡ some w → w ≡ v)
      → AllHave k v srvs
      → AllHave k v (a ∷ srvs)
  AllHave-cons k v a srvs here rest zero rs w at en = here w (ap (entry_at k) at ∙ en)
  AllHave-cons k v a srvs here rest (suc p) rs w at en = rest p rs w at en

  -- The loop keeps an error, and finds one where a server conflicts.
  clash-AllHave :
      (k : ℕ) (v : V) (i j : ℕ) (srvs : List (RaftServer V)) (err : ErrMsg)
      → clash k v i j srvs err ≡ fine
      → (err ≡ fine) × AllHave k v srvs
  clash-AllHave k v i j [] err h = (h, λ p rs w at en. cc)
  clash-AllHave k v i j (a ∷ srvs) err h = elim (Bool-cases (conflicts k v a)) [
    | inl y ↦
        absurd (not_agreed k i j (clash-AllHave k v i (suc j) srvs (differs k i j) (rw y at h)).0)
    | inr n ↦
        let (ok, rest) = clash-AllHave k v i (suc j) srvs err (rw n at h) in
        (ok, AllHave-cons k v a srvs (λ w. conflicts-false k v w a n) rest)
  ]

  pub clash-fine :
      (k : ℕ) (v : V) (i j : ℕ) (srvs : List (RaftServer V))
      → AllHave k v srvs
      → clash k v i j srvs fine ≡ fine
  clash-fine k v i j [] all = refl
  clash-fine k v i j (a ∷ srvs) all =
      rw (conflicts-none k v a (λ w. all zero a w refl))
        (clash-fine k v i (suc j) srvs (λ p. all (suc p)))

  -- What CheckLogs leaves of the server `me` at place `i`.
  abbrev pub recorded : ApplyMsg V → RaftServer V → RaftServer V
  recorded m me = record me { logs = insert m.command_index m.command me.logs }

  -- An entry of a server afterwards is the one of the message, or was there before.
  entry-recorded :
      (m : ApplyMsg V) (srvs : List (RaftServer V)) (i j : ℕ) (me b : RaftServer V) (k : ℕ) (x : V)
      → get_elem? srvs i ≡ some me
      → get_elem? (set srvs i (recorded m me)) j ≡ some b
      → entry b k ≡ some x
      → ((k ≡ m.command_index) × (x ≡ m.command))
        ⊎ ((p : ℕ) × (a : RaftServer V) × (get_elem? srvs p ≡ some a) × (entry a k ≡ some x))
  entry-recorded m srvs i j me b k x have at en = elim (set-cases srvs i j (recorded m me) b at) [
    | inr old ↦ inr (j, b, old, en)
    | inl (_, is) ↦
        elim (insert-cases m.command_index k m.command x me.logs
          (ap (λ s. entry s k) (sym is) ∙ en)) [
            | inl new ↦ inl new
            | inr old ↦ inr (i, me, have, old)
          ]
  ]

  recorded-IsAgreed :
      (m : ApplyMsg V) (ts : Test V) (i next : ℕ) (me : RaftServer V)
      → get_elem? ts.srvs i ≡ some me
      → AllHave m.command_index m.command ts.srvs
      → IsAgreed ts
      → IsAgreed (record { srvs = set ts.srvs i (recorded m me); max_index = next })
  recorded-IsAgreed m ts i next me have all ok p q a b k v w at_a at_b en_a en_b =
      elim (entry-recorded m ts.srvs i p me a k v have at_a en_a) [
        | inl (here, new) ↦ elim (entry-recorded m ts.srvs i q me b k w have at_b en_b) [
          | inl (_, new') ↦ new ∙ sym new'
          | inr (q', b', old', en') ↦ new ∙ sym (all q' b' w old' (ap (entry b') (sym here) ∙ en'))
        ]
        | inr (p', a', old, en) ↦ elim (entry-recorded m ts.srvs i q me b k w have at_b en_b) [
          | inl (here, new) ↦ all p' a' v old (ap (entry a') (sym here) ∙ en) ∙ sym new
          | inr (q', b', old', en') ↦ ok p' q' a' b' k v w old old' en en'
        ]
      ]

  -- CheckLogs of a server of the test returns; its error is empty exactly if every server that has
  -- an entry at the index has the value that is reported, and then servers that agreed still do.
  pub check_logs-IsAgreed :
      (ts : Test V) (i : ℕ) (me : RaftServer V) (m : ApplyMsg V)
      → get_elem? ts.srvs i ≡ some me
      → (err : ErrMsg) × (prevok : Bool) × (ts' : Test V) × (check_logs ts i m
          ≡ some ((err, prevok), ts'))
        × ((err ≡ fine) ↔ AllHave m.command_index m.command ts.srvs)
        × (IsAgreed ts → err ≡ fine → IsAgreed ts')
  unfolding check_logs
  check_logs-IsAgreed ts i me m have =
      let found : clash m.command_index m.command i 0 ts.srvs fine ≡ fine
          → AllHave m.command_index m.command ts.srvs =
        λ h. (clash-AllHave m.command_index m.command i 0 ts.srvs fine h).1 in
      let next = if ltb ts.max_index m.command_index then m.command_index else ts.max_index in
      (
        clash m.command_index m.command i 0 ts.srvs fine,
        prev_ok me m.command_index,
        record { srvs = set ts.srvs i (recorded m me); max_index = next },
        rw (check_logs, have),
        (found, clash-fine m.command_index m.command i 0 ts.srvs),
        λ ok h. recorded-IsAgreed m ts i next me have (found h) ok,
      )
