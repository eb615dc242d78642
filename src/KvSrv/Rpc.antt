-- ===== src/KvSrv/Rpc.antt =====
-- kvsrv1/rpc/rpc.go: the messages between clerks and the server.
use mit.Prelude.{ℕ, ◌+◌, ◌%◌, ◌^◌, String, Bool, true, false}

-- `unset` is the empty string, the value of an `Err` that nothing was written to.
pub data Err : Type 0 where
  unset ok err_no_key err_version err_maybe err_wrong_leader err_wrong_group : Err

abbrev pub err_eqb : Err → Err → Bool
err_eqb unset unset = true
err_eqb ok ok = true
err_eqb err_no_key err_no_key = true
err_eqb err_version err_version = true
err_eqb err_maybe err_maybe = true
err_eqb err_wrong_leader err_wrong_leader = true
err_eqb err_wrong_group err_wrong_group = true
err_eqb _ _ = false

-- `Tversion` is a uint64.
abbrev pub version_mod : ℕ
version_mod = 2 ^ 64

abbrev pub next_version : ℕ → ℕ
next_version v = (v + 1) % version_mod

pub record PutArgs : Type 0 where
  pub key : String
  pub value : String
  pub version : ℕ

pub record PutReply : Type 0 where
  pub err : Err

pub record GetArgs : Type 0 where
  pub key : String

pub record GetReply : Type 0 where
  pub value : String
  pub version : ℕ
  pub err : Err

abbrev pub empty_get : GetReply
empty_get = record { value = ""; version = 0; err = unset }

abbrev pub empty_put : PutReply
empty_put = record { err = unset }
