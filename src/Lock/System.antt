-- ===== src/Lock/System.antt =====
-- Clients of one lock over one server: their RPCs interleave in any order, and each may lose its
-- request or its reply.
use mit.Prelude.{update, ℕ, suc, String, ◌≡◌, ◌≢◌}
use mit.KvSrv.Rpc.{PutArgs, empty_put}
use mit.KvSrv.Server.{KvServer, make_kv_server, put}
use mit.KvSrv.Clerk.{Delivery}
use mit.Lock.{Lock, Pc, idle, acquiring, held, releasing, unlocked, put_args, exec}

pub record System : Type 0 where
  pub server : KvServer
  pub pc : ℕ → Pc

module _ (name : String) (ids : ℕ → String) where
  abbrev pub lock_of : ℕ → Lock
  lock_of i = record { name = name; id = ids i }

  -- `MakeLock` has put the lock's key; nobody has called Acquire.
  unfoldable pub start : System
  start = record {
    server = (put make_kv_server (put_args (lock_of 0) unlocked 0) empty_put).1;
    pc = λ _. idle;
  }

  unfoldable pub rpc : ℕ → Delivery → System → System
  rpc i d s =
      let (p, kv) = exec (lock_of i) d (s.pc i) s.server in
      record { server = kv; pc = update s.pc i p }

  -- A client calls Acquire when it is idle and Release when it holds the lock; other keys of the
  -- server are anybody's.
  pub data Step (s : System) : System → Type 0 where
    call_acquire : (i : ℕ) → s.pc i ≡ idle → Step s (record s { pc = update s.pc i acquiring })
    call_release : (i : ℕ) → s.pc i ≡ held → Step s (record s { pc = update s.pc i releasing })
    run : (i : ℕ) (d : Delivery) → Step s (rpc i d s)
    other_put :
        (args : PutArgs)
        → args.key ≢ name
        → Step s (record s { server = (put s.server args empty_put).1 })

  -- What is reached in `n` steps.
  pub data Reach : ℕ → System → Type 0 where
    here : Reach 0 start
    next : {n : ℕ} {s t : System} → Reach n s → Step s t → Reach (suc n) t
