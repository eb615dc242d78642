-- ===== src/KvSrv/Model/Refines.antt =====
-- The server against the model of one key.
use mit.Prelude.{
  String, ◌≡◌, refl, Bool, true, false, ◌&&◌, not, Option, none, some, List, [], ◌∷◌, inl, inr,
  arith, nat_eqb, lookup, string_eq, Option-cases, Bool-cases,
}
use text.Mathlib.Text.{◌==◌ as str_eq}
use text.Mathlib.TextEquality.{eq_iff}
use text.Mathlib.TextPositions.{eq_refl}
use mit.KvSrv.Rpc.{PutArgs, GetArgs, err_no_key, err_eqb, empty_get, empty_put}
use mit.KvSrv.Server.{Value, KvServer, get, put}
use mit.KvSrv.Server.Laws.{put_lem}
use mit.KvSrv.Model.{KvState, Operation, init, step, partition, accepts}

-- What the model knows of a key of the server; a key that is not there reads as ("", 0).
abbrev pub entry_state : Option Value → KvState
entry_state none = init
entry_state (some v) = record { value = v.val; version = v.version }

abbrev pub state_of : KvServer → String → KvState
state_of s k = entry_state (lookup k s.kv)

pub data Request : Type 0 where
  get_req : GetArgs → Request
  put_req : PutArgs → Request

abbrev pub request_key : Request → String
request_key (get_req a) = a.key
request_key (put_req a) = a.key

-- A request served alone, with the operation that the tester records of it (kvtest1/porcupine.go).
abbrev pub serve : KvServer → Request → Operation × KvServer
serve s (get_req a) =
    let r = get s a empty_get in
    (
      record {
        input = record { op = 0; key = a.key; value = ""; version = 0 };
        output = record { value = r.value; version = r.version; err = r.err };
      },
      s,
    )
serve s (put_req a) =
    let (r, s') = put s a empty_put in
    (
      record {
        input = record { op = 1; key = a.key; value = a.value; version = a.version };
        output = record { value = ""; version = 0; err = r.err };
      },
      s',
    )

abbrev pub history : KvServer → List Request → List Operation
history s [] = []
history s (r ∷ rs) = let (o, s') = serve s r in o ∷ history s' rs

-- The answer that the model does not know: a Put answered with ErrNoKey.
abbrev pub is_missing_put : Operation → Bool
is_missing_put o = nat_eqb o.input.op 1 && err_eqb o.output.err err_no_key

-- Other keys' requests leave a key's state alone.
pub serve_other :
    (s : KvServer) (r : Request) (k : String)
    → str_eq (request_key r) k ≡ false
    → state_of (serve s r).1 k ≡ state_of s k
serve_other s (get_req a) k ne = refl
serve_other s (put_req a) k ne = ground (arith, put_lem s a k)

-- The model accepts each answer of the server but a Put's ErrNoKey, and follows its state.
pub step-serve :
    (s : KvServer) (r : Request) (k : String)
    → str_eq (request_key r) k ≡ true
    → step (state_of s k) (serve s r).0.input (serve s r).0.output
      ≡ (not (is_missing_put (serve s r).0), some (state_of (serve s r).1 k))
unfolding step get
step-serve s (get_req a) k mine = elim (Option-cases (lookup a.key s.kv)) [
  | inl e ↦ rw (← (eq_iff a.key k).0 mine, e, eq_refl)
  | inr (v, e) ↦ rw (← (eq_iff a.key k).0 mine, e, eq_refl)
]
step-serve s (put_req a) k mine = ground (arith, put_lem s a k, eq_iff a.key k)

serve-key : (s : KvServer) (r : Request) → (serve s r).0.input.key ≡ request_key r
serve-key s (get_req a) = refl
serve-key s (put_req a) = refl

abbrev pub all {ℓ} : {A : Type ℓ} → (A → Bool) → List A → Bool
all p [] = true
all p (x ∷ xs) = let rest = all p xs in p x && rest

-- The server refines the model: of any requests, served one after another from any state, the
-- operations on one key are a history that the model accepts from that key's state, exactly if no
-- Put of that key was answered with ErrNoKey.
pub history-accepts :
    (s : KvServer) (reqs : List Request) (k : String)
    → accepts (some (state_of s k)) (partition k (history s reqs))
      ≡ all (λ o. not (is_missing_put o)) (partition k (history s reqs))
unfolding partition accepts
history-accepts s [] k = refl
history-accepts s (r ∷ rs) k = elim (Bool-cases (str_eq (request_key r) k)) [
  | inl mine ↦ rw (serve-key s r, mine, step-serve s r k mine, history-accepts (serve s r).1 rs k)
  | inr other ↦
      rw (serve-key s r, other, ← serve_other s r k other) (history-accepts (serve s r).1 rs k)
]
