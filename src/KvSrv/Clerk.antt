-- ===== src/KvSrv/Clerk.antt =====
-- kvsrv1/client.go: a clerk's retry loops. What happens between and during the attempts is a
-- schedule: the Puts of other clerks that the server runs first, and what the network does with
-- the call. A call that fails by a timeout may have been executed or not.
pub mod Outcomes
use mit.Prelude.{
  ℕ, ◌+◌, String, Bool, true, false, ◌&&◌, ◌||◌, not, Option, none, some, List, [], ◌∷◌, length,
  if◌then◌else◌,
}
use mit.KvSrv.Rpc.{
  Err, PutArgs, PutReply, GetArgs, GetReply, ok, err_no_key, err_version, err_maybe, err_eqb,
  empty_get, empty_put,
}
use mit.KvSrv.Server.{KvServer, get, put, put_all}

-- The three ends of an RPC over the network of labrpc.
pub data Delivery : Type 0 where
  request_lost reply_lost delivered : Delivery

-- The Puts of others that the server runs before this attempt reaches it, and the attempt's end.
pub data Attempt : Type 0 where
  attempt : List PutArgs → Delivery → Attempt

-- `ck.clnt.Call(ck.server, "KVServer.Put", &args, &reply)`
unfoldable pub call_put : Delivery → PutArgs → KvServer → Bool × PutReply × KvServer
call_put request_lost args s = (false, empty_put, s)
call_put reply_lost args s = (false, empty_put, (put s args empty_put).1)
call_put delivered args s = let (reply, s') = put s args empty_put in (true, reply, s')

-- What `Put` returns when a reply has arrived: on a resend ErrVersion becomes ErrMaybe.
abbrev pub answered : Bool → Err → Err
answered first e = if err_eqb e err_version && not first then err_maybe else e

-- `Clerk.Put`; `none` if the schedule ends while the clerk is still retrying.
unfoldable pub clerk_put : Bool → PutArgs → List Attempt → KvServer → Option (Err × KvServer)
unfolding call_put
clerk_put first args [] s = none
clerk_put first args (attempt before d ∷ rest) s =
    let (is_ok, reply, s') = call_put d args (put_all s before) in
    let again = clerk_put false args rest s' in
    if is_ok then some (answered first reply.err, s') else again

-- `ck.clnt.Call(ck.server, "KVServer.Get", &args, &reply)`
unfoldable pub call_get : Delivery → GetArgs → KvServer → Bool × GetReply
call_get request_lost args s = (false, empty_get)
call_get reply_lost args s = (false, empty_get)
call_get delivered args s = (true, get s args empty_get)

-- `Clerk.Get`, with the server that it leaves.
unfoldable pub clerk_get : GetArgs → List Attempt → KvServer → Option (GetReply × KvServer)
unfolding call_get
clerk_get args [] s = none
clerk_get args (attempt before d ∷ rest) s =
    let s' = put_all s before in
    let (is_ok, reply) = call_get d args s' in
    let again = clerk_get args rest s' in
    if is_ok && (err_eqb reply.err err_no_key || err_eqb reply.err ok)
    then some (reply, s')
    else again
