-- ===== src/Net/Server.antt =====
-- labrpc/labrpc.go: a server and its services. A method is a function on the state of what the
-- services serve; that Go finds the methods by reflection is left out.
use mit.Prelude.{ℕ, ◌+◌, String, true, Option, none, some, List, [], lookup, insert, string_eq}
use mit.Net.{ReplyMsg}

pub record Service {ℓ} (S : Type ℓ) : Type ℓ where
  pub name : String
  pub methods : List (String × (List ℕ → S → List ℕ × S))

pub record Server {ℓ} (S : Type ℓ) : Type ℓ where
  pub services : List (String × Service S)
  pub count : ℕ

module _ {ℓ} {S : Type ℓ} where
  unfoldable pub make_server : Server S
  make_server = record { services = []; count = 0 }

  unfoldable pub add_service : Server S → Service S → Server S
  add_service rs svc = record rs { services = insert svc.name svc rs.services }

  -- `Service.dispatch`; `none` is its log.Fatalf.
  unfoldable pub dispatch_method : Service S → String → List ℕ → S → Option (ReplyMsg × S)
  dispatch_method svc methname args s = elim (lookup methname svc.methods) [
    | none ↦ none
    | some method ↦
        let (reply, s') = method args s in some (record { ok = true; reply = reply }, s')
  ]

  -- `Server.dispatch`, for the service and the method that the request names.
  unfoldable pub dispatch :
      Server S → String → String → List ℕ → S → Server S × Option (ReplyMsg × S)
  dispatch rs service_name method_name args s = (
    record rs { count = rs.count + 1 },
    elim (lookup service_name rs.services) [
      | none ↦ none
      | some service ↦ dispatch_method service method_name args s
    ],
  )

  unfoldable pub get_count : Server S → ℕ
  get_count rs = rs.count
