-- ===== src/KvSrv/Model.antt =====
-- models1/kv.go: the sequential specification of one key that histories are checked against.
pub mod Refines
use mit.Prelude.{
  ℕ, zero, suc, String, Bool, true, false, ◌&&◌, ◌||◌, Option, none, some, List, [], ◌∷◌, nat_eqb,
  if◌then◌else◌,
}
use text.Mathlib.Text.{◌==◌ as str_eq}
use mit.KvSrv.Rpc.{Err, ok, err_version, err_maybe, err_eqb, next_version}

-- `Op` is 0 for a Get and 1 for a Put.
pub record KvInput : Type 0 where
  pub op : ℕ
  pub key : String
  pub value : String
  pub version : ℕ

pub record KvOutput : Type 0 where
  pub value : String
  pub version : ℕ
  pub err : Err

pub record KvState : Type 0 where
  pub value : String
  pub version : ℕ

pub record Operation : Type 0 where
  pub input : KvInput
  pub output : KvOutput

-- `Init`
abbrev pub init : KvState
init = record { value = ""; version = 0 }

abbrev pub step_op : ℕ → KvState → KvInput → KvOutput → Bool × Option KvState
step_op zero st inp out = (str_eq out.value st.value, some st)
step_op (suc zero) st inp out =
    if nat_eqb st.version inp.version
    then (
      err_eqb out.err ok || err_eqb out.err err_maybe,
      some (record { value = inp.value; version = next_version st.version }),
    )
    else (err_eqb out.err err_version || err_eqb out.err err_maybe, some st)
step_op (suc (suc _)) st inp out = (false, none)

-- `Step`; the state `none` is the string "<invalid>".
unfoldable pub step : KvState → KvInput → KvOutput → Bool × Option KvState
step st inp out = step_op inp.op st inp out

-- The entry of one key in the map that `Partition` fills: the operations of a history on that key,
-- in their order. The list of the entries by key, which it returns, is left out.
unfoldable pub partition : String → List Operation → List Operation
partition k [] = []
partition k (o ∷ h) = let rest = partition k h in if str_eq o.input.key k then o ∷ rest else rest

-- A sequential history of one key is accepted if every step is.
unfoldable pub accepts : Option KvState → List Operation → Bool
accepts none h = false
accepts (some st) [] = true
accepts (some st) (o ∷ h) =
    let (fine, next) = step st o.input o.output in let rest = accepts next h in fine && rest
