-- ===== src/KvTest.antt =====
-- kvtest1/kvtest.go: what the tests do with a clerk. The clerk's methods act on the state of what
-- they talk to; a loop has fuel, one unit for each turn. The log of operations is left out.
pub mod Appends
pub mod Direct
pub mod OpLog
pub mod Partitioner
mod Examples
use mit.Prelude.{
  ℕ, zero, suc, ◌+◌, String, Bool, true, false, ◌&&◌, ◌||◌, not, Option, none, some, List, [], ◌∷◌,
  leb, nat_eqb, string_eq, ◌==◌, if◌then◌else◌,
}
use mit.KvSrv.Rpc.{Err, GetReply, ok, err_version, err_maybe, err_eqb, next_version}

-- `IKVClerk`
pub record KvClerk {ℓ} (S : Type ℓ) : Type ℓ where
  pub get : String → S → GetReply × S
  pub put : String → String → ℕ → S → Err × S

-- A call that returns, ends the test by Fatalf, or has not ended when the fuel is used up.
pub data Ended {ℓ} (A S : Type ℓ) : Type ℓ where
  unfinished fatal : Ended A S
  ended : A → S → Ended A S

-- `ClntRes` and `EntryV`
pub record ClntRes : Type 0 where
  pub nok : ℕ
  pub nmaybe : ℕ

pub record EntryV : Type 0 where
  pub id : ℕ
  pub v : ℕ

-- The test of OnePut on the entry that it reads back.
abbrev pub is_wrong_value : Err → ℕ → EntryV → ℕ → ℕ → Bool
is_wrong_value err ver0 e me ver =
    (err_eqb err ok && nat_eqb ver0 (next_version ver))
    && (not (nat_eqb e.id me) && not (nat_eqb e.v ver))

module _ {S : Type 0} where
  -- What a turn of PutAtLeastOnce makes of the answer; `retry` is the next turn.
  abbrev pub put_turn : ℕ → (ℕ → S → Ended ℕ S) → Err × S → Ended ℕ S
  put_turn ver retry (err, s') =
      if err_eqb err ok
      then ended (next_version ver) s'
      else if err_eqb err err_maybe || err_eqb err err_version
      then retry (next_version ver) s'
      else if not (nat_eqb ver 0)
      then fatal
      else retry ver s'

  unfoldable pub put_at_least_once : KvClerk S → ℕ → String → String → ℕ → S → Ended ℕ S
  put_at_least_once ck zero key value ver s = unfinished
  put_at_least_once ck (suc fuel) key value ver s =
      put_turn ver (put_at_least_once ck fuel key value) (ck.put key value ver s)

  unfoldable pub check_get : KvClerk S → String → String → ℕ → S → Ended Unit S
  check_get ck key value version s =
      let (r, s') = ck.get key s in
      if not (err_eqb r.err ok)
      then fatal
      else if not (r.value == value) || not (nat_eqb r.version version)
      then fatal
      else ended tt s'

  -- GetJson, from what Get returns. `encode` and `decode` are encoding/json's, of the value's type.
  abbrev pub get_json : {A : Type 0} → (String → Option A) → GetReply × S → Ended (ℕ × A) S
  get_json decode (r, s') =
      if not (err_eqb r.err ok)
      then fatal
      else elim (decode r.value) [ none ↦ fatal | some e ↦ ended (r.version, e) s' ]

  -- What a turn of OnePut makes of the answers to its Put and its Get.
  abbrev pub get_seen :
      ℕ → ℕ → (ℕ → S → Ended (ℕ × Bool) S) → Err → Ended (ℕ × EntryV) S → Ended (ℕ × Bool) S
  get_seen me ver retry err unfinished = unfinished
  get_seen me ver retry err fatal = fatal
  get_seen me ver retry err (ended (ver0, e) s2) =
      if is_wrong_value err ver0 e me ver
      then fatal
      else if err_eqb err ok || err_eqb err err_maybe
      then ended (ver0, err_eqb err ok) s2
      else retry ver0 s2

  abbrev pub put_seen :
      KvClerk S
      → (String → Option EntryV)
      → ℕ
      → String
      → ℕ
      → (ℕ → S → Ended (ℕ × Bool) S)
      → Err × S
      → Ended (ℕ × Bool) S
  put_seen ck decode me key ver retry (err, s1) =
      if not (err_eqb err ok || (err_eqb err err_version || err_eqb err err_maybe))
      then fatal
      else get_seen me ver retry err (get_json decode (ck.get key s1))

  unfoldable pub one_put :
      KvClerk S
      → (EntryV → String)
      → (String → Option EntryV)
      → ℕ
      → ℕ
      → String
      → ℕ
      → S
      → Ended (ℕ × Bool) S
  one_put ck encode decode zero me key ver s = unfinished
  one_put ck encode decode (suc fuel) me key ver s =
      put_seen ck decode me key ver (one_put ck encode decode fuel me key)
        (ck.put key (encode (record { id = me; v = ver })) ver s)

-- The loop of CheckPutConcurrent, and its test of the version that the server has.
abbrev pub add_results : List ClntRes → ClntRes → ClntRes
add_results [] res = res
add_results (r ∷ rs) res =
    add_results rs (record { nok = res.nok + r.nok; nmaybe = res.nmaybe + r.nmaybe })

unfoldable pub check_put_concurrent : ℕ → List ClntRes → Bool → Bool
check_put_concurrent ver0 rs reliable =
    let res = add_results rs (record { nok = 0; nmaybe = 0 }) in
    if reliable then nat_eqb ver0 res.nok else leb ver0 (res.nok + res.nmaybe)
