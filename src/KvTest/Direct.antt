-- ===== src/KvTest/Direct.antt =====
-- The loops of kvtest1/kvtest.go with a clerk whose every RPC to the server arrives, and no other
-- client at the key.
use mit.Prelude.{
  ℕ, zero, suc, ◌+◌, ◌≤◌, ◌<◌, ◌≡◌, refl, ap, ◌∙◌, arith, String, Bool, ◌&&◌, not, true, false,
  Option, some, nat_eqb, nat_eqb_iff, lookup, lookup-insert, string_eq, Bool-cases, inl, inr,
  if◌then◌else◌,
}
use mit.KvSrv.Rpc.{PutArgs, ok, err_version, empty_get, empty_put, next_version, version_mod}
use mit.KvSrv.Server.{Value, KvServer, get, get_entry, put, store}
use mit.KvTest.{
  KvClerk, ended, EntryV, fatal, get_json, get_seen, put_seen, put_turn, put_at_least_once, one_put,
}

abbrev pub direct : KvClerk KvServer
direct = record {
  get = λ key s. (get s (record { key = key }) empty_get, s);
  put = λ key value ver s.
      let (reply, s') = put s (record { key = key; value = value; version = ver }) empty_put in
      (reply.err, s');
}

abbrev put_args : String → String → ℕ → PutArgs
put_args key value ver = record { key = key; value = value; version = ver }

next_version-lt : (v : ℕ) → v + 1 < version_mod → next_version v ≡ v + 1
next_version-lt v h = omega (arith, h)

put-old :
    (s : KvServer) (key value : String) (ver : ℕ) (e : Value)
    → lookup key s.kv ≡ some e
    → nat_eqb ver e.version ≡ false
    → direct.put key value ver s ≡ (err_version, s)
unfolding put
put-old s key value ver e at n = rw (at, n) refl

put-new :
    (s : KvServer) (key value : String) (ver : ℕ) (e : Value)
    → lookup key s.kv ≡ some e
    → nat_eqb ver e.version ≡ true
    → direct.put key value ver s ≡ (ok, store s (put_args key value ver) (next_version ver))
unfolding put
put-new s key value ver e at n = rw (at, n) refl

lookup-store :
    (s : KvServer) (key value : String) (ver next : ℕ)
    → lookup key (store s (put_args key value ver) next).kv
      ≡ some (record { val = value; version = next })
lookup-store s key value ver next =
    lookup-insert key key (record { val = value; version = next }) s.kv
    ∙ rw ((string_eq.same_iff key key).1 refl) refl

-- PutAtLeastOnce ends with the version after the entry's, and stores its value under it, if it
-- starts at the entry's version or below, versions do not wrap and there is a turn for each
-- version between.
pub put_at_least_once-ends :
    (fuel : ℕ) (key value : String) (ver : ℕ) (s : KvServer) (e : Value)
    → lookup key s.kv ≡ some e
    → ver ≤ e.version
    → e.version < ver + fuel
    → e.version + 1 < version_mod
    → (s' : KvServer) × (put_at_least_once direct fuel key value ver s ≡ ended (e.version + 1) s')
      × (lookup key s'.kv ≡ some (record { val = value; version = e.version + 1 }))
unfolding put_at_least_once
put_at_least_once-ends zero key value ver s e at below turns room = absurd (omega arith)
put_at_least_once-ends (suc fuel) key value ver s e at below turns room =
    elim (Bool-cases (nat_eqb ver e.version)) [
      | inl y ↦
          let same : ver ≡ e.version = (nat_eqb_iff ver e.version).0 y in
          let next : next_version ver ≡ e.version + 1 =
            next_version-lt ver (omega arith) ∙ ap (λ v. v + 1) same in
          let p = put-new s key value ver e at y in
          (
            store s (put_args key value ver) (next_version ver),
            ap (put_turn ver (put_at_least_once direct fuel key value)) p
                ∙ ap (λ v. ended v (store s (put_args key value ver) (next_version ver))) next,
            lookup-store s key value ver (next_version ver)
                ∙ ap (λ v. some (record { val = value; version = v })) next,
          )
      | inr n ↦
          let lt : ver < e.version = ground (arith, nat_eqb_iff ver e.version) in
          let next : next_version ver ≡ ver + 1 = next_version-lt ver (omega arith) in
          let (s', run, has) =
            put_at_least_once-ends fuel key value (ver + 1) s e at (omega arith) (omega arith)
              room in
          let p = put-old s key value ver e at n in
          (
            s',
            ap (put_turn ver (put_at_least_once direct fuel key value)) p
                ∙ ap (λ v. put_at_least_once direct fuel key value v s) next
                ∙ run,
            has,
          )
    ]

and_no : (b : Bool) → (b && false) ≡ false
and_no true = refl
and_no false = refl

module _ (encode : EntryV → String) (decode : String → Option EntryV)
    (back : (e : EntryV) → decode (encode e) ≡ some e) where
  get_json-entry :
      (s : KvServer) (key : String) (e : Value) (w : EntryV)
      → lookup key s.kv ≡ some e
      → decode e.val ≡ some w
      → get_json decode (direct.get key s) ≡ ended (e.version, w) s
  unfolding get
  get_json-entry s key e w at dec =
      ap (λ o. get_json decode (get_entry o empty_get, s)) at ∙ rw (get_json, dec) refl

  one_put-current :
      (fuel me : ℕ) (key : String) (ver : ℕ) (s : KvServer) (e : Value)
      → lookup key s.kv ≡ some e
      → nat_eqb ver e.version ≡ true
      → one_put direct encode decode (suc fuel) me key ver s
        ≡ ended
            (next_version ver, true)
            (store s (put_args key (encode (record { id = me; v = ver })) ver) (next_version ver))
  unfolding one_put
  one_put-current fuel me key ver s e at y =
      let mine : EntryV = record { id = me; v = ver } in
      let retry = one_put direct encode decode fuel me key in
      let s' = store s (put_args key (encode mine) ver) (next_version ver) in
      let q =
        get_json-entry s' key (record { val = encode mine; version = next_version ver }) mine
          (lookup-store s key (encode mine) ver (next_version ver)) (back mine) in
      ap (put_seen direct decode me key ver retry) (put-new s key (encode mine) ver e at y)
      ∙ ap (get_seen me ver retry ok) q
      ∙ ap
          (λ b.
            if nat_eqb (next_version ver) (next_version ver) && (not b && not (nat_eqb ver ver))
            then fatal
            else ended (next_version ver, true) s')
          ((nat_eqb_iff me me).1 refl)
      ∙ ap (λ b. if b then fatal else ended (next_version ver, true) s')
          (and_no (nat_eqb (next_version ver) (next_version ver)))

  -- OnePut ends within two turns: it stores its entry with the version that the key had, under the
  -- version after it, and returns that version and true, whatever version it starts with, if the
  -- key has an entry that can be decoded and JSON reads back what it wrote.
  pub one_put-ends :
      (fuel me : ℕ) (key : String) (ver : ℕ) (s : KvServer) (e : Value) (w : EntryV)
      → lookup key s.kv ≡ some e
      → decode e.val ≡ some w
      → (s' : KvServer) × (one_put direct encode decode (suc (suc fuel)) me key ver s
          ≡ ended (next_version e.version, true) s')
        × (lookup key s'.kv
            ≡ some (record {
              val = encode (record { id = me; v = e.version });
              version = next_version e.version;
            }))
  unfolding one_put
  one_put-ends fuel me key ver s e w at dec =
      let mine : EntryV = record { id = me; v = e.version } in
      let s' = store s (put_args key (encode mine) e.version) (next_version e.version) in
      let self : nat_eqb e.version e.version ≡ true = (nat_eqb_iff e.version e.version).1 refl in
      (
        s',
        elim (Bool-cases (nat_eqb ver e.version)) [
          | inl y ↦
              ap (λ v. one_put direct encode decode (suc (suc fuel)) me key v s)
                ((nat_eqb_iff ver e.version).0 y)
              ∙ one_put-current (suc fuel) me key e.version s e at self
          | inr n ↦
              let retry = one_put direct encode decode (suc fuel) me key in
              ap (put_seen direct decode me key ver retry)
                (put-old s key (encode (record { id = me; v = ver })) ver e at n)
              ∙ ap (get_seen me ver retry err_version) (get_json-entry s key e w at dec)
              ∙ one_put-current fuel me key e.version s e at self
        ],
        lookup-store s key (encode mine) e.version (next_version e.version),
      )
