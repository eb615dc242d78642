-- ===== src/KvTest/Appends/System.antt =====
-- kvtest1/kvtest.go: the clients of OneClientAppend over one server of kvsrv1. Their RPCs
-- interleave in any order, and each may lose its request or its reply.
use mit.Prelude.{
  update, ℕ, zero, suc, ◌+◌, ◌<◌, String, ◌≡◌, ◌≢◌, Bool, true, false, ◌&&◌, ◌||◌, Option, List, [],
  ◌∷◌, ◌++◌, if◌then◌else◌,
}
use mit.KvSrv.Rpc.{Err, PutArgs, PutReply, GetReply, ok, err_no_key, err_maybe, err_eqb, empty_put}
use mit.KvSrv.Server.{KvServer, make_kv_server, put}
use mit.KvSrv.Clerk.{Delivery, call_get, call_put, answered}
use mit.KvTest.{ClntRes, Ended, unfinished, fatal, ended, get_json}
use mit.KvTest.Appends.{EntryN}

-- Where a client stands: at the `select`, in its Get, in its Put (with whether this is the first
-- attempt), ended by Fatalf, or returned.
pub data Pc : Type 0 where
  starting reading failed finished : Pc
  putting : ℕ → List EntryN → Bool → Pc

pub record Client : Type 0 where
  pub i : ℕ
  pub nok : ℕ
  pub nmay : ℕ
  pub pc : Pc

pub record System : Type 0 where
  pub server : KvServer
  pub clients : ℕ → Client

abbrev pub fresh : Client
fresh = record { i = 0; nok = 0; nmay = 0; pc = starting }

abbrev pub mine : ℕ → Client → EntryN
mine me c = record { id = me; n = c.i }

-- What the clerk's Get makes of an attempt, and the client of what GetJson returns.
abbrev pub json_seen : ℕ → Client → Ended (ℕ × List EntryN) KvServer → Client
json_seen me c unfinished = c
json_seen me c fatal = record c { pc = failed }
json_seen me c (ended (ver, es) s) = record c { pc = putting ver (es ++ (mine me c ∷ [])) true }

abbrev pub get_turn :
    (String → Option (List EntryN)) → ℕ → Client → KvServer → Bool × GetReply → Client
get_turn decode me c s (is_ok, reply) =
    if is_ok && (err_eqb reply.err err_no_key || err_eqb reply.err ok)
    then json_seen me c (get_json decode (reply, s))
    else c

-- What the client makes of the error that PutJson returns, and the clerk's Put of an attempt.
abbrev pub put_ended : Client → Err → Client
put_ended c err =
    if err_eqb err ok
    then record { i = c.i + 1; nok = c.nok + 1; nmay = c.nmay; pc = starting }
    else if err_eqb err err_maybe
    then record { i = c.i + 1; nok = c.nok; nmay = c.nmay + 1; pc = starting }
    else record c { pc = reading }

abbrev pub put_turn :
    ℕ → List EntryN → Bool → Client → Bool × PutReply × KvServer → Client × KvServer
put_turn ver es first c (is_ok, reply, s) =
    if is_ok
    then (put_ended c (answered first reply.err), s)
    else (record c { pc = putting ver es false }, s)

abbrev pub append_args : (List EntryN → String) → List EntryN → ℕ → PutArgs
append_args encode es ver = record { key = "k"; value = encode es; version = ver }

module _ (encode : List EntryN → String) (decode : String → Option (List EntryN)) where
  -- One step of the client `me`, which is an RPC where it is in one.
  unfoldable pub exec : ℕ → Delivery → Client → Pc → KvServer → Client × KvServer
  exec me d c starting s = (record c { pc = reading }, s)
  exec me d c reading s = (get_turn decode me c s (call_get d (record { key = "k" }) s), s)
  exec me d c (putting ver es first) s =
      put_turn ver es first c (call_put d (append_args encode es ver) s)
  exec me d c failed s = (c, s)
  exec me d c finished s = (c, s)

  -- The test has put the empty list.
  unfoldable pub start : System
  start = record {
    server = (put make_kv_server (append_args encode [] 0) empty_put).1;
    clients = λ _. fresh;
  }

  unfoldable pub rpc : ℕ → Delivery → System → System
  rpc c d s =
      let (p, kv) = exec c d (s.clients c) (s.clients c).pc s.server in
      record { server = kv; clients = update s.clients c p }

  -- A client at the `select` may find `done`; the server's other keys are anybody's.
  pub data Step (nclnt : ℕ) (s : System) : System → Type 0 where
    run : (c : ℕ) (d : Delivery) → c < nclnt → Step nclnt s (rpc c d s)
    stop :
        (c : ℕ)
        → (s.clients c).pc ≡ starting
        → Step nclnt s
            (record s { clients = update s.clients c (record (s.clients c) { pc = finished }) })
    other_put :
        (args : PutArgs)
        → args.key ≢ "k"
        → Step nclnt s (record s { server = (put s.server args empty_put).1 })

  -- What is reached in `n` steps.
  pub data Reach (nclnt : ℕ) : ℕ → System → Type 0 where
    here : Reach nclnt 0 start
    next : {n : ℕ} {s t : System} → Reach nclnt n s → Step nclnt s t → Reach nclnt (suc n) t

-- The results that the clients up to `n` return, each with its counts.
abbrev pub results : (ℕ → Client) → ℕ → ℕ → List ClntRes
results cs c zero = []
results cs c (suc n) = record { nok = (cs c).nok; nmaybe = (cs c).nmay } ∷ results cs (suc c) n
