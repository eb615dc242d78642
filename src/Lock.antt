-- ===== src/Lock.antt =====
-- kvsrv1/lock/lock.go: the branches of Acquire and Release between one RPC and the next.
pub mod System
pub mod Fits
pub mod Invariant
pub mod Exclusion
pub mod Progress
mod Examples
use mit.Prelude.{ℕ, String, Bool, true, false, ◌&&◌, ◌||◌, not, nat_eqb, if◌then◌else◌}
use text.Mathlib.Text.{◌==◌ as str_eq}
use mit.KvSrv.Rpc.{
  Err, GetReply, PutArgs, ok, err_no_key, err_version, err_maybe, err_eqb, next_version,
}
use mit.KvSrv.Server.{KvServer}
use mit.KvSrv.Clerk.{Delivery, call_get, call_put, answered}

pub record Lock : Type 0 where
  pub name : String
  pub id : String

abbrev pub unlocked : String
unlocked = ""

-- Where a client is. In `acquire_put ver first` and `release_put ver first` the clerk is about to
-- send its Put, for the first time or again; in `acquire_check` and `release_check` the Put was
-- answered with ErrMaybe; `fatal` is a `log.Fatal`.
pub data Pc : Type 0 where
  idle acquiring held releasing fatal : Pc
  acquire_put release_put : ℕ → Bool → Pc
  acquire_check release_check : ℕ → Pc

-- Acquire, after its first Get.
unfoldable pub acquire_got : Lock → GetReply → Pc
acquire_got lk r =
    if err_eqb r.err err_no_key
    then fatal
    else if not (err_eqb r.err ok)
    then fatal
    else if str_eq r.value lk.id
    then fatal
    else if not (str_eq r.value unlocked)
    then acquiring
    else acquire_put r.version true

-- Acquire, after its Put.
unfoldable pub acquire_answer : ℕ → Err → Pc
acquire_answer ver err =
    if err_eqb err err_no_key
    then fatal
    else if err_eqb err err_version
    then acquiring
    else if err_eqb err ok
    then held
    else if not (err_eqb err err_maybe)
    then fatal
    else acquire_check ver

-- Acquire, after the Get that follows ErrMaybe.
unfoldable pub acquire_checked : Lock → ℕ → GetReply → Pc
acquire_checked lk ver r =
    if err_eqb r.err ok && (nat_eqb r.version (next_version ver) && str_eq r.value lk.id)
    then held
    else acquiring

-- Release, after its first Get.
unfoldable pub release_got : Lock → GetReply → Pc
release_got lk r =
    if err_eqb r.err err_no_key
    then fatal
    else if not (err_eqb r.err ok)
    then fatal
    else if str_eq r.value unlocked
    then fatal
    else if not (str_eq r.value lk.id)
    then fatal
    else release_put r.version true

-- Release, after its Put.
unfoldable pub release_answer : ℕ → Err → Pc
release_answer ver err =
    if err_eqb err err_no_key
    then fatal
    else if err_eqb err err_version
    then fatal
    else if err_eqb err ok
    then idle
    else if not (err_eqb err err_maybe)
    then fatal
    else release_check ver

-- Release, after the Get that follows ErrMaybe.
unfoldable pub release_checked : Lock → ℕ → GetReply → Pc
release_checked lk ver r =
    if not (err_eqb r.err ok) || (not (nat_eqb r.version ver) || not (str_eq r.value lk.id))
    then idle
    else releasing

-- The clerk's Get: it goes on only with a reply of OK or ErrNoKey, and asks again otherwise.
abbrev pub get_then : Delivery → Lock → KvServer → Pc → (GetReply → Pc) → Pc × KvServer
get_then d lk s again next =
    let (is_ok, r) = call_get d (record { key = lk.name }) s in
    (if is_ok && (err_eqb r.err err_no_key || err_eqb r.err ok) then next r else again, s)

abbrev pub put_args : Lock → String → ℕ → PutArgs
put_args lk value ver = record { key = lk.name; value = value; version = ver }

-- The clerk's Put: a call that fails is sent again, no longer as the first.
abbrev pub put_then : Delivery → PutArgs → KvServer → Bool → Pc → (Err → Pc) → Pc × KvServer
put_then d args s first again next =
    let (is_ok, r, s') = call_put d args s in
    (if is_ok then next (answered first r.err) else again, s')

-- One RPC of a client that runs Acquire or Release; a client that runs neither sends none.
unfoldable pub exec : Lock → Delivery → Pc → KvServer → Pc × KvServer
exec lk d idle s = (idle, s)
exec lk d held s = (held, s)
exec lk d fatal s = (fatal, s)
exec lk d acquiring s = get_then d lk s acquiring (acquire_got lk)
exec lk d (acquire_put ver first) s =
    put_then d (put_args lk lk.id ver) s first (acquire_put ver false) (acquire_answer ver)
exec lk d (acquire_check ver) s = get_then d lk s (acquire_check ver) (acquire_checked lk ver)
exec lk d releasing s = get_then d lk s releasing (release_got lk)
exec lk d (release_put ver first) s =
    put_then d (put_args lk unlocked ver) s first (release_put ver false) (release_answer ver)
exec lk d (release_check ver) s = get_then d lk s (release_check ver) (release_checked lk ver)
