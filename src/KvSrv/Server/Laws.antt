-- ===== src/KvSrv/Server/Laws.antt =====
-- What `Put` and `Get` of kvsrv1/server.go do to the entries.
use mit.Prelude.{
  ℕ, ◌+◌, ◌≤◌, ◌<◌, String, ◌≡◌, ◌≢◌, Option, none, some, List, [], ◌∷◌, ◌⊎◌, inl, inr, arith,
  nat_eqb, if◌then◌else◌, lookup, string_eq, lookup-insert, Option-cases, length,
}
use text.Mathlib.Text.{◌==◌ as str_eq}
use text.Mathlib.TextEquality.{eq_iff}
use mit.KvSrv.Rpc.{
  Err, PutArgs, GetReply, ok, err_no_key, err_version, empty_get, empty_put, next_version,
  version_mod,
}
use mit.KvSrv.Server.{Value, KvServer, get, put, put_all}

-- The entry that a Put of `args` leaves where it found `o`.
abbrev pub after_put : Option Value → PutArgs → Option Value
after_put (some e) args =
    if nat_eqb args.version e.version
    then some (record { val = args.value; version = next_version args.version })
    else some e
after_put none args =
    if nat_eqb args.version 0 then some (record { val = args.value; version = 1 }) else none

-- The error that a Put of `args` is answered with where it found `o`.
abbrev pub put_err : Option Value → PutArgs → Err
put_err (some e) args = if nat_eqb args.version e.version then ok else err_version
put_err none args = if nat_eqb args.version 0 then ok else err_no_key

-- Every entry after a Put, on every branch: the one at the Put's key is `after_put`, the
-- others are as before; and the reply is `put_err`.
pub put_lem :
    (s : KvServer) (args : PutArgs) (k : String)
    → ((put s args empty_put).0.err ≡ put_err (lookup args.key s.kv) args)
      × (lookup k (put s args empty_put).1.kv
          ≡ (if str_eq args.key k then after_put (lookup args.key s.kv) args else lookup k s.kv))
unfolding put
put_lem s args k = elim (Option-cases (lookup args.key s.kv)) [
  | inl e ↦ rw e (
      ground (
        arith,
        eq_iff args.key k,
        lookup-insert args.key k (record { val = args.value; version = 1 }) s.kv,
      ))
  | inr (v, e) ↦ rw e (
      ground (
        arith,
        eq_iff args.key k,
        lookup-insert args.key k (record { val = args.value; version = next_version args.version })
            s.kv,
      ))
]

-- While versions do not wrap, a Put of anybody leaves a present key present, and its version
-- grows by at most one.
pub put-grows :
    (s : KvServer) (args : PutArgs) (k : String) (e : Value)
    → lookup k s.kv ≡ some e
    → e.version + 1 < version_mod
    → (e' : Value) × (lookup k (put s args empty_put).1.kv ≡ some e')
      × (e.version ≤ e'.version)
      × (e'.version ≤ e.version + 1)
put-grows s args k e found room = elim (Option-cases (lookup k (put s args empty_put).1.kv)) [
  | inl gone ↦ ground (arith, put_lem s args k, eq_iff args.key k)
  | inr (e', now) ↦ (
    e',
    now,
    ground (arith, put_lem s args k, eq_iff args.key k),
    ground (arith, put_lem s args k, eq_iff args.key k),
  )
]

pub put_all-grows :
    (s : KvServer) (reqs : List PutArgs) (k : String) (e : Value)
    → lookup k s.kv ≡ some e
    → e.version + length reqs < version_mod
    → (e' : Value) × (lookup k (put_all s reqs).kv ≡ some e')
      × (e.version ≤ e'.version)
      × (e'.version ≤ e.version + length reqs)
unfolding put_all
put_all-grows s [] k e found room = (e, found, omega arith, omega arith)
put_all-grows s (args ∷ reqs) k e found room =
    let (e', now, lo, hi) = put-grows s args k e found (omega arith) in
    let (e'', later, lo', hi') =
      put_all-grows (put s args empty_put).1 reqs k e' now (omega arith) in
    (e'', later, omega arith, omega arith)

-- A Put whose version is below the stored one is answered with ErrVersion and changes nothing.
pub put_stale :
    (s : KvServer) (args : PutArgs) (e : Value)
    → lookup args.key s.kv ≡ some e
    → args.version < e.version
    → ((put s args empty_put).0.err ≡ err_version) × ((put s args empty_put).1 ≡ s)
unfolding put
put_stale s args e found stale = rw found (ground arith)

-- A Put answered with OK leaves its value at its key, one version up.
pub put_done :
    (s : KvServer) (args : PutArgs)
    → (put s args empty_put).0.err ≡ ok
    → args.version + 1 < version_mod
    → lookup args.key (put s args empty_put).1.kv
      ≡ some (record { val = args.value; version = args.version + 1 })
put_done s args h room = ground (arith, put_lem s args args.key, eq_iff args.key args.key)

-- A Put answered with anything else changes nothing, and the answer is ErrVersion or ErrNoKey.
pub put_refused :
    (s : KvServer) (args : PutArgs)
    → (put s args empty_put).0.err ≢ ok
    → ((put s args empty_put).1 ≡ s)
      × (((put s args empty_put).0.err ≡ err_version) ⊎ ((put s args empty_put).0.err ≡ err_no_key))
unfolding put
put_refused s args h = ground arith

-- What a Get of a present key answers.
abbrev pub found_reply : Value → GetReply
found_reply e = record { value = e.val; version = e.version; err = ok }

pub get_found :
    (s : KvServer) (k : String) (e : Value)
    → lookup k s.kv ≡ some e
    → get s (record { key = k }) empty_get ≡ record { value = e.val; version = e.version; err = ok }
unfolding get
get_found s k e found = rw found

-- A Put of a present key, by whether its version is the stored one.
pub put_found :
    (s : KvServer) (k v : String) (n : ℕ) (e : Value)
    → lookup k s.kv ≡ some e
    → n + 1 < version_mod
    → let args : PutArgs = record { key = k; value = v; version = n } in
      ((e.version ≡ n)
        × ((put s args empty_put).0.err ≡ ok)
        × (lookup k (put s args empty_put).1.kv ≡ some (record { val = v; version = n + 1 })))
      ⊎ ((e.version ≢ n)
          × ((put s args empty_put).0.err ≡ err_version)
          × (lookup k (put s args empty_put).1.kv ≡ some e))
put_found s k v n e found room =
    ground (arith, put_lem s (record { key = k; value = v; version = n }) k, eq_iff k k)
