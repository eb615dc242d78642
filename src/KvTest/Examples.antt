-- ===== src/KvTest/Examples.antt =====
-- The theorems on kvtest1/kvtest.go for a server with one key, and a stand-in for encoding/json.
use mit.KvSrv.Server.{get, put, make_kv_server}
use mit.KvSrv.Clerk.{Delivery, reply_lost, delivered, call_get, call_put}
use mit.KvTest.{get_json}
use mit.KvTest.Appends.{EntryN, check_appends}
use mit.KvTest.Appends.System.{System, start, rpc, exec, Reach, here, next, run, failed, results}
use mit.KvTest.Appends.Checked.{is_between, appends-accepted}
use mit.Prelude.{map, count, not, update}
use mit.KvSrv.Model.{init, partition, accepts}
use mit.KvSrv.Model.Refines.{Request, get_req, put_req, is_missing_put, all}
use mit.KvTest.OpLog.{
  World, running, begin, attempt, attempted, call, try, tick, Reach as OpReach, here as op_here,
  next as op_next,
}
use mit.KvTest.OpLog.Linear.{is_running, IsRealTime, logged_call, log-linearizable}
use mit.Prelude.{
  List, ◌≢◌, ◌<◌, insert, false, ℕ, zero, suc, ◌+◌, ◌≡◌, refl, ap, ◌∙◌, none, nat_eqb,
  if◌then◌else◌, arith, String, true, Option, some, [], ◌∷◌, lookup, string_eq,
}
use Prim.Native.Char.{code}
use Prim.Native.String.{[] as end_of_text, ◌∷◌ as char_cons}
use mit.KvSrv.Server.{Value, KvServer}
use mit.KvTest.{ended, EntryV, put_at_least_once, one_put}
use mit.KvTest.Direct.{direct, put_at_least_once-ends, one_put-ends}
use mit.KvSrv.Rpc.{next_version}

abbrev entry_one : Value
entry_one = record { val = "x"; version = 4 }

abbrev server : KvServer
server = record { kv = ("k", entry_one) ∷ [] }

-- An encoding that can be read back: the id in unary, a mark, and the version in unary.
abbrev strokes : ℕ → String → String
strokes zero s = s
strokes (suc n) s = char_cons "a" (strokes n s)

abbrev encode : EntryV → String
encode e = strokes e.id (char_cons "b" (strokes e.v end_of_text))

abbrev text_size : String → ℕ
text_size end_of_text = 0
text_size (char_cons c s) = suc (text_size s)

abbrev read : ℕ → String → Option EntryV
read n end_of_text = none
read n (char_cons c s) =
    if nat_eqb (code c) 97 then read (suc n) s else some (record { id = n; v = text_size s })

text_size-strokes : (n : ℕ) → text_size (strokes n end_of_text) ≡ n
text_size-strokes zero = refl
text_size-strokes (suc n) = ap suc (text_size-strokes n)

read-strokes : (n m : ℕ) (s : String) → read n (strokes m s) ≡ read (n + m) s
read-strokes n zero s = ap (λ k. read k s) (omega arith)
read-strokes n (suc m) s = read-strokes (suc n) m s ∙ ap (λ k. read k s) (omega arith)

read-encode : (e : EntryV) → read 0 (encode e) ≡ some e
read-encode e =
    read-strokes 0 e.id (char_cons "b" (strokes e.v end_of_text))
    ∙ ap (λ n. some (record { id = n; v = text_size (strokes e.v end_of_text) })) (omega arith)
    ∙ ap (λ n. some (record { id = e.id; v = n })) (text_size-strokes e.v)

put_at_least_once-ends_example :
    (s' : KvServer) × (put_at_least_once direct 3 "k" "y" 2 server ≡ ended 5 s')
    × (lookup "k" s'.kv ≡ some (record { val = "y"; version = 5 }))
unfolding lookup
put_at_least_once-ends_example =
    put_at_least_once-ends 3 "k" "y" 2 server entry_one refl (omega arith) (omega arith)
      (omega arith)

-- Client 5 starts with an old version; the key has the entry of client 2 with version 6.
abbrev entry_two : Value
entry_two = record { val = encode (record { id = 2; v = 6 }); version = 7 }

one_put-ends_example :
    (s' : KvServer) × (one_put direct encode
        (read 0)
        2
        5
        "k"
        0
        (record { kv = ("k", entry_two) ∷ [] })
      ≡ ended (next_version 7, true) s')
    × (lookup "k" s'.kv
        ≡ some (record { val = encode (record { id = 5; v = 7 }); version = next_version 7 }))
unfolding lookup
one_put-ends_example =
    one_put-ends encode (read 0) read-encode 0 5 "k" 0 (record { kv = ("k", entry_two) ∷ [] })
      entry_two (record { id = 2; v = 6 }) refl (read-encode (record { id = 2; v = 6 }))

-- The same for a list of entries, each closed by a second mark.
abbrev encode_all : List EntryN → String
encode_all [] = end_of_text
encode_all (e ∷ es) = strokes e.id (char_cons "b" (strokes e.n (char_cons "c" (encode_all es))))

abbrev with_entry : ℕ → ℕ → Option (List EntryN) → Option (List EntryN)
with_entry id n none = none
with_entry id n (some es) = some (record { id = id; n = n } ∷ es)

-- The number that is being read, after the id if that has been read.
abbrev read_all : Option ℕ → ℕ → String → Option (List EntryN)
read_all o k end_of_text = some []
read_all none k (char_cons c s) = elim (nat_eqb (code c) 97) [
  | true ↦ read_all none (suc k) s
  | false ↦ read_all (some k) 0 s
]
read_all (some id) k (char_cons c s) = elim (nat_eqb (code c) 97) [
  | true ↦ read_all (some id) (suc k) s
  | false ↦ with_entry id k (read_all none 0 s)
]

read_all-strokes :
    (o : Option ℕ) (k m : ℕ) (s : String) → read_all o k (strokes m s) ≡ read_all o (k + m) s
read_all-strokes o k zero s = ap (λ j. read_all o j s) (omega arith)
read_all-strokes none k (suc m) s =
    read_all-strokes none (suc k) m s ∙ ap (λ j. read_all none j s) (omega arith)
read_all-strokes (some id) k (suc m) s =
    read_all-strokes (some id) (suc k) m s ∙ ap (λ j. read_all (some id) j s) (omega arith)

read_all-encode : (es : List EntryN) → read_all none 0 (encode_all es) ≡ some es
read_all-encode [] = refl
read_all-encode (e ∷ es) =
    let rest = char_cons "c" (encode_all es) in
    read_all-strokes none 0 e.id (char_cons "b" (strokes e.n rest))
    ∙ read_all-strokes (some (0 + e.id)) 0 e.n rest
    ∙ ap (with_entry (0 + e.id) (0 + e.n)) (read_all-encode es)
    ∙ ap (λ i. some (record { id = i; n = 0 + e.n } ∷ es)) (omega arith)
    ∙ ap (λ n. some (record { id = e.id; n = n } ∷ es)) (omega arith)

abbrev begin_state : System
begin_state = start encode_all (read_all none 0)

abbrev turn : ℕ → Delivery → System → System
turn = rpc encode_all (read_all none 0)

-- Client 1 puts its entry without learning it, client 0 appends after it, and client 1 tries again.
abbrev contended : System
contended = turn 1 delivered (
    turn 0 delivered (
      turn 0 delivered
        (turn 0 delivered (turn 1 reply_lost (turn 1 delivered (turn 1 delivered begin_state))))))

contended_reached : Reach encode_all (read_all none 0) 2 7 contended
contended_reached =
    next
      (next
        (next
          (next
            (next (next (next here (run 1 delivered (omega arith))) (run 1 delivered (omega arith)))
              (run 1 reply_lost (omega arith)))
            (run 0 delivered (omega arith)))
          (run 0 delivered (omega arith)))
        (run 0 delivered (omega arith)))
      (run 1 delivered (omega arith))

contended_between : (c : ℕ) → c < 2 → is_between (contended.clients c).pc ≡ true
unfolding start rpc exec call_get call_put get put make_kv_server lookup insert
contended_between zero h = refl
contended_between (suc zero) h = refl
contended_between (suc (suc c)) h = absurd (omega arith)

appends-accepted_example :
    (es : List EntryN) × (ver : ℕ) × (get_json (read_all none 0) (direct.get "k" contended.server)
      ≡ ended (ver, es) contended.server)
    × (check_appends es 2 (results contended.clients 0 2) ver ≡ true)
    × ((c : ℕ) → (contended.clients c).pc ≢ failed)
appends-accepted_example =
    appends-accepted encode_all (read_all none 0) read_all-encode 2 (omega arith) contended_reached
      contended_between

-- Call 0 puts without learning it, call 1 reads what it has put, and call 0 tries again.
abbrev requests : ℕ → Request
requests zero = put_req (record { key = "k"; value = "v"; version = 0 })
requests (suc c) = get_req (record { key = "k" })

abbrev in_doubt : World
in_doubt =
    let w1 =
      attempted
        (record (begin requests) { calls = update (begin requests).calls 0 (running 0 true) }) 0 0
        (attempt reply_lost true (requests 0) (begin requests).server) in
    let w2 = record w1 { now = 1; calls = update w1.calls 1 (running 1 true) } in
    let w3 = attempted w2 1 1 (attempt delivered true (requests 1) w2.server) in
    attempted w3 0 0 (attempt delivered false (requests 0) w3.server)

in_doubt_reached : OpReach requests 6 in_doubt
unfolding begin attempt call_put
in_doubt_reached =
    op_next
      (op_next
        (op_next
          (op_next (op_next (op_next op_here (call 0 refl)) (try 0 0 true reply_lost refl)) tick)
          (call 1 refl))
        (try 1 1 true delivered refl))
      (try 0 0 false delivered refl)

in_doubt_ended : (c : ℕ) → is_running (in_doubt.calls c) ≡ false
unfolding begin attempt call_get call_put get put make_kv_server lookup insert
in_doubt_ended zero = refl
in_doubt_ended (suc zero) = refl
in_doubt_ended (suc (suc c)) =
    let not_0 : nat_eqb 0 (suc (suc c)) ≡ false = ground arith in
    let not_1 : nat_eqb 1 (suc (suc c)) ≡ false = ground arith in rw (not_0, not_1) refl

log-linearizable_example :
    (order : List ℕ) × ((c : ℕ) → count c order ≡ count c in_doubt.log)
    × IsRealTime in_doubt.calls order
    × ((k : String)
        → accepts (some init) (partition k (map (logged_call requests in_doubt.calls) order))
          ≡ all
              (λ o. not (is_missing_put o))
              (partition k (map (logged_call requests in_doubt.calls) order)))
log-linearizable_example = log-linearizable requests (omega arith) in_doubt_reached in_doubt_ended
