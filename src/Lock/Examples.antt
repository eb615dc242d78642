-- ===== src/Lock/Examples.antt =====
-- The theorems on kvsrv1/lock/lock.go for clients whose identities are "a", "aa", "aaa" and so on.
use mit.Prelude.{
  update, ℕ, zero, suc, ◌≡◌, ◌≢◌, refl, ap, arith, String, some, [], ◌∷◌, lookup, insert, string_eq,
}
use Prim.Native.String.{◌∷◌ as str_cons}
use mit.KvSrv.Server.{Value, KvServer, put, get, make_kv_server}
use mit.KvSrv.Clerk.{delivered, call_get, call_put}
use mit.Lock.{Lock, unlocked, acquire_got, acquire_answer, acquiring, held, fatal, exec}
use mit.Lock.System.{System, start, rpc, Reach, here, next, call_acquire, run}
use mit.Lock.Progress.{exec_twice, acquire_free}
use mit.Lock.Exclusion.{mutual_exclusion, never_fatal}

abbrev unary : ℕ → String
unary zero = ""
unary (suc n) = str_cons "a" (unary n)

abbrev ids : ℕ → String
ids n = unary (suc n)

ids_named : (i : ℕ) → ids i ≢ unlocked
ids_named i e = cc

unary_distinct : (i j : ℕ) → unary i ≡ unary j → i ≡ j
unary_distinct zero zero e = refl
unary_distinct zero (suc j) e = cc
unary_distinct (suc i) zero e = cc
unary_distinct (suc i) (suc j) e = ap suc (unary_distinct i j cc)

ids_distinct : (i j : ℕ) → ids i ≡ ids j → i ≡ j
ids_distinct i j e = unary_distinct i j cc

-- Client 0 calls Acquire, and its Get and its Put arrive.
abbrev asked : System
asked = record (start "l" ids) { pc = update (start "l" ids).pc 0 acquiring }

abbrev acquired : System
acquired = rpc "l" ids 0 delivered (rpc "l" ids 0 delivered asked)

reached : Reach "l" ids 3 acquired
unfolding start
reached = next (next (next here (call_acquire 0 refl)) (run 0 delivered)) (run 0 delivered)

has_lock : acquired.pc 0 ≡ held
unfolding start rpc exec call_get call_put get put acquire_got acquire_answer make_kv_server lookup
    insert
has_lock = refl

mutual_exclusion_example : ◌≡◌ {A = ℕ} 0 0
mutual_exclusion_example =
    mutual_exclusion "l" ids ids_named ids_distinct (omega arith) reached 0 0 has_lock has_lock

never_fatal_example : acquired.pc 0 ≢ fatal
never_fatal_example = never_fatal "l" ids ids_named ids_distinct (omega arith) reached 0

abbrev lk : Lock
lk = record { name = "l"; id = "me" }

abbrev free_entry : Value
free_entry = record { val = ""; version = 3 }

abbrev free : KvServer
free = record { kv = ("l", free_entry) ∷ [] }

free_found : lookup lk.name free.kv ≡ some free_entry
unfolding lookup
free_found = refl

lk_named : lk.id ≢ unlocked
lk_named e = cc

acquire_free_example :
    ((exec_twice lk acquiring free).0 ≡ held)
    × (lookup "l" (exec_twice lk acquiring free).1.kv ≡ some (record { val = "me"; version = 4 }))
acquire_free_example = acquire_free lk free free_entry free_found lk_named (omega arith) refl
