-- ===== src/KvSrv/Server.antt =====
-- kvsrv1/server.go: the server's map and its two handlers, each run under the server's mutex.
pub mod Laws
use mit.Prelude.{
  ℕ, String, Option, none, some, List, [], ◌∷◌, nat_eqb, if◌then◌else◌, lookup, insert, string_eq,
}
use mit.KvSrv.Rpc.{
  PutArgs, PutReply, GetArgs, GetReply, ok, err_no_key, err_version, empty_put, next_version,
}

pub record Value : Type 0 where
  pub val : String
  pub version : ℕ

pub record KvServer : Type 0 where
  pub kv : List (String × Value)

unfoldable pub make_kv_server : KvServer
make_kv_server = record { kv = [] }

-- The cases of `Get` on what the map holds; a missing key leaves the reply's other fields alone.
abbrev pub get_entry : Option Value → GetReply → GetReply
get_entry none reply = record reply { err = err_no_key }
get_entry (some e) reply = record reply { value = e.val; version = e.version; err = ok }

unfoldable pub get : KvServer → GetArgs → GetReply → GetReply
get kv args reply = get_entry (lookup args.key kv.kv) reply

abbrev pub store : KvServer → PutArgs → ℕ → KvServer
store kv args v = record { kv = insert args.key (record { val = args.value; version = v }) kv.kv }

-- The cases of `Put` on what the map holds.
abbrev pub put_entry : Option Value → KvServer → PutArgs → PutReply → PutReply × KvServer
put_entry (some e) kv args reply =
    if nat_eqb args.version e.version
    then (record reply { err = ok }, store kv args (next_version args.version))
    else (record reply { err = err_version }, kv)
put_entry none kv args reply =
    if nat_eqb args.version 0
    then (record reply { err = ok }, store kv args 1)
    else (record reply { err = err_no_key }, kv)

unfoldable pub put : KvServer → PutArgs → PutReply → PutReply × KvServer
put kv args reply = put_entry (lookup args.key kv.kv) kv args reply

-- Puts of several clerks, in the order in which the mutex admits them.
unfoldable pub put_all : KvServer → List PutArgs → KvServer
put_all kv [] = kv
put_all kv (args ∷ rest) = put_all (put kv args empty_put).1 rest
