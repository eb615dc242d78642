-- ===== src/KvSrv/Examples.antt =====
-- The theorems on kvsrv1/ at concrete servers and schedules.
use mit.Prelude.{◌≡◌, refl, arith, true, not, some, List, [], ◌∷◌, lookup, string_eq, insert}
use mit.KvSrv.Rpc.{PutArgs, err_maybe}
use mit.KvSrv.Server.{Value, KvServer, put, put_all}
use mit.KvSrv.Clerk.{reply_lost, delivered, Attempt, attempt, clerk_put, call_put}
use mit.KvSrv.Clerk.Outcomes.{Promise, performed, put_outcome, put_returns, is_some, answers}
use mit.KvSrv.Model.{partition, accepts}
use mit.KvSrv.Model.Refines.{
  Request, get_req, put_req, history, state_of, is_missing_put, all, history-accepts,
}

abbrev entry : Value
entry = record { val = "a"; version = 1 }

abbrev busy : KvServer
busy = record { kv = ("k", entry) ∷ [] }

abbrev args : PutArgs
args = record { key = "k"; value = "b"; version = 1 }

abbrev other : PutArgs
other = record { key = "k"; value = "c"; version = 2 }

-- The first reply is lost after the Put was executed, and another clerk's Put comes in between.
abbrev sched : List Attempt
sched = attempt [] reply_lost ∷ attempt (other ∷ []) delivered ∷ []

abbrev after : KvServer
after = record { kv = ("k", record { val = "c"; version = 3 }) ∷ [] }

ran : clerk_put true args sched busy ≡ some (err_maybe, after)
unfolding clerk_put call_put put put_all lookup insert
ran = refl

put_outcome_example : Promise err_maybe (performed args sched busy)
put_outcome_example = put_outcome true args sched busy after err_maybe (omega arith) ran

put_returns_example : is_some (clerk_put true args sched busy) ≡ answers sched
put_returns_example = put_returns true args sched busy

abbrev reqs : List Request
reqs =
    get_req (record { key = "k" })
    ∷ put_req args
    ∷ put_req other
    ∷ get_req (record { key = "k" })
    ∷ []

history-accepts_example :
    accepts (some (state_of busy "k")) (partition "k" (history busy reqs))
    ≡ all (λ o. not (is_missing_put o)) (partition "k" (history busy reqs))
history-accepts_example = history-accepts busy reqs "k"
