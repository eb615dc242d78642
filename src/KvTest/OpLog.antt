-- ===== src/KvTest/OpLog.antt =====
-- kvtest1/porcupine.go: the log of the operations of concurrent clerks of kvsrv1, whose RPCs
-- interleave and may lose their requests or replies. A call has a number, and calls once.
pub mod Played
pub mod Attempts
pub mod Standing
pub mod Invariant
pub mod Linear
use mit.Prelude.{
  ℕ, zero, suc, ◌+◌, ◌≡◌, Bool, true, false, ◌&&◌, ◌||◌, Option, none, some, List, [], ◌∷◌, ◌++◌,
  update, if◌then◌else◌,
}
use mit.KvSrv.Rpc.{PutReply, GetReply, ok, err_no_key, err_eqb}
use mit.KvSrv.Server.{KvServer, make_kv_server}
use mit.KvSrv.Clerk.{Delivery, call_get, call_put, answered}
use mit.KvSrv.Model.{KvInput, KvOutput, Operation}
use mit.KvSrv.Model.Refines.{Request, get_req, put_req}

-- A call that has begun knows its start, and whether its next attempt is the first.
pub data Call : Type 0 where
  idle : Call
  running : ℕ → Bool → Call
  done : ℕ → ℕ → KvOutput → Call

-- `log` has the calls in the order in which they returned; `now` is `time.Since(t0)`.
pub record World : Type 0 where
  pub server : KvServer
  pub calls : ℕ → Call
  pub log : List ℕ
  pub now : ℕ

abbrev pub get_out : Bool × GetReply → Option KvOutput
get_out (is_ok, reply) =
    if is_ok && (err_eqb reply.err err_no_key || err_eqb reply.err ok)
    then some (record { value = reply.value; version = reply.version; err = reply.err })
    else none

abbrev pub put_out : Bool → Bool × PutReply × KvServer → Option KvOutput × KvServer
put_out first (is_ok, reply, s) = (
  if is_ok then some (record { value = ""; version = 0; err = answered first reply.err }) else none,
  s,
)

-- An attempt of a clerk, with what the clerk then returns, if it does.
unfoldable pub attempt : Delivery → Bool → Request → KvServer → Option KvOutput × KvServer
attempt d first (get_req a) s = (get_out (call_get d a s), s)
attempt d first (put_req a) s = put_out first (call_put d a s)

abbrev pub input_of : Request → KvInput
input_of (get_req a) = record { op = 0; key = a.key; value = ""; version = 0 }
input_of (put_req a) = record { op = 1; key = a.key; value = a.value; version = a.version }

-- What the log has of a call that has returned.
abbrev pub logged : Request → Call → Operation
logged r (done start stop out) = record { input = input_of r; output = out }
logged r _ = record {
  input = input_of r;
  output = record { value = ""; version = 0; err = err_no_key };
}

-- The call after an attempt, and the log.
abbrev pub after : ℕ → ℕ → Option KvOutput → Call
after start now none = running start false
after start now (some out) = done start now out

abbrev pub append : List ℕ → ℕ → Option KvOutput → List ℕ
append log c none = log
append log c (some out) = log ++ (c ∷ [])

abbrev pub attempted : World → ℕ → ℕ → Option KvOutput × KvServer → World
attempted w c start (o, s) = record {
  server = s;
  calls = update w.calls c (after start w.now o);
  log = append w.log c o;
  now = w.now;
}

module _ (req : ℕ → Request) where
  unfoldable pub begin : World
  begin = record { server = make_kv_server; calls = λ _. idle; log = []; now = 0 }

  pub data Step (w : World) : World → Type 0 where
    tick : Step w (record w { now = w.now + 1 })
    call :
        (c : ℕ)
        → w.calls c ≡ idle
        → Step w (record w { calls = update w.calls c (running w.now true) })
    try :
        (c start : ℕ) (first : Bool) (d : Delivery)
        → w.calls c ≡ running start first
        → Step w (attempted w c start (attempt d first (req c) w.server))

  -- What is reached in `n` steps.
  pub data Reach : ℕ → World → Type 0 where
    here : Reach 0 begin
    next : {n : ℕ} {v w : World} → Reach n v → Step v w → Reach (suc n) w
