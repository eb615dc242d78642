-- ===== src/Net.antt =====
-- labrpc/labrpc.go: the simulated network. Names of ends and of servers are numbers, a server is
-- known by its address, and what a draw of rand comes to is given to the operations.
pub mod Server
pub mod Delivered
pub mod Cut
pub mod Calls
mod Examples
use mit.Prelude.{
  ℕ, suc, ◌+◌, Bool, true, false, ◌&&◌, ◌||◌, not, Option, none, some, List, [], ◌∷◌, length,
  if◌then◌else◌, lookup, insert, delete, nat_eq, nat_eqb,
}

-- The maps hold `some` for a pointer or name and `none` for nil.
pub record Network : Type 0 where
  pub reliable : Bool
  pub long_delays : Bool
  pub long_reordering : Bool
  pub ends : List (ℕ × ℕ)
  pub enabled : List (ℕ × Bool)
  pub servers : List (ℕ × Option ℕ)
  pub connections : List (ℕ × Option ℕ)
  pub count : ℕ
  pub bytes : ℕ

unfoldable pub make_network : Network
make_network = record {
  reliable = true;
  long_delays = false;
  long_reordering = false;
  ends = [];
  enabled = [];
  servers = [];
  connections = [];
  count = 0;
  bytes = 0;
}

unfoldable pub set_reliable : Network → Bool → Network
set_reliable rn on = record rn { reliable = on }

unfoldable pub is_reliable : Network → Bool
is_reliable rn = rn.reliable

unfoldable pub set_long_reordering : Network → Bool → Network
set_long_reordering rn on = record rn { long_reordering = on }

unfoldable pub set_long_delays : Network → Bool → Network
set_long_delays rn on = record rn { long_delays = on }

unfoldable pub is_long_delays : Network → Bool
is_long_delays rn = rn.long_delays

-- Reading a Go map: false or nil for a missing key.
abbrev pub at_bool : Option Bool → Bool
at_bool none = false
at_bool (some b) = b

abbrev pub at_pointer : Option (Option ℕ) → Option ℕ
at_pointer none = none
at_pointer (some p) = p

pub record EndInfo : Type 0 where
  pub is_enabled : Bool
  pub servername : Option ℕ
  pub server : Option ℕ
  pub is_reliable_net : Bool
  pub reordering : Bool

abbrev pub server_of : Network → Option ℕ → Option ℕ
server_of rn none = none
server_of rn (some name) = at_pointer (lookup name rn.servers)

unfoldable pub read_endname_info : Network → ℕ → EndInfo
read_endname_info rn endname =
    let name = at_pointer (lookup endname rn.connections) in
    record {
      is_enabled = at_bool (lookup endname rn.enabled);
      servername = name;
      server = server_of rn name;
      is_reliable_net = rn.reliable;
      reordering = rn.long_reordering;
    }

abbrev pub same_pointer : Option ℕ → Option ℕ → Bool
same_pointer none none = true
same_pointer (some p) (some q) = nat_eqb p q
same_pointer _ _ = false

unfoldable pub is_server_dead : Network → ℕ → ℕ → Option ℕ → Bool
is_server_dead rn endname name server =
    not (at_bool (lookup endname rn.enabled))
    || not (same_pointer (at_pointer (lookup name rn.servers)) server)

-- MakeEnd; `none` is its log.Fatalf.
unfoldable pub make_end : Network → ℕ → Option Network
make_end rn endname = elim (lookup endname rn.ends) [
  | some _ ↦ none
  | none ↦ some (record rn {
    ends = insert endname endname rn.ends;
    enabled = insert endname false rn.enabled;
    connections = insert endname none rn.connections;
  })
]

unfoldable pub lookup_end : Network → ℕ → Option ℕ
lookup_end rn endname = lookup endname rn.ends

-- DeleteEnd; `none` is its log.Fatalf.
unfoldable pub delete_end : Network → ℕ → Option Network
delete_end rn endname = elim (lookup endname rn.ends) [
  | none ↦ none
  | some _ ↦ some (record rn {
    ends = delete endname rn.ends;
    enabled = delete endname rn.enabled;
    connections = delete endname rn.connections;
  })
]

unfoldable pub add_server : Network → ℕ → ℕ → Network
add_server rn servername rs = record rn { servers = insert servername (some rs) rn.servers }

unfoldable pub delete_server : Network → ℕ → Network
delete_server rn servername = record rn { servers = insert servername none rn.servers }

unfoldable pub connect : Network → ℕ → ℕ → Network
connect rn endname servername = record rn {
  connections = insert endname (some servername) rn.connections;
}

unfoldable pub enable : Network → ℕ → Bool → Network
enable rn endname on = record rn { enabled = insert endname on rn.enabled }

-- What the network's goroutine counts of a request, and what is counted of a reply.
abbrev pub count_request : Network → List ℕ → Network
count_request rn args = record rn { count = rn.count + 1; bytes = rn.bytes + length args }

abbrev pub count_reply : Network → List ℕ → Network
count_reply rn reply = record rn { bytes = rn.bytes + length reply }

-- `replyMsg`
pub record ReplyMsg : Type 0 where
  pub ok : Bool
  pub reply : List ℕ

abbrev pub no_reply : ReplyMsg
no_reply = record { ok = false; reply = [] }

-- What happens by chance: a dropped request or reply, and whether the handler returns before a
-- look at the network finds that the server is dead.
pub record Chances : Type 0 where
  pub drops_request : Bool
  pub drops_reply : Bool
  pub returned : Bool

-- The end of processReq, after the handler has run or the server was found dead; `rn` is the
-- network of that moment.
abbrev pub finish_req : Network → ℕ → ℕ → EndInfo → Chances → ReplyMsg → ReplyMsg
finish_req rn endname name info ch r =
    if not ch.returned || is_server_dead rn endname name info.server
    then no_reply
    else if not info.is_reliable_net && ch.drops_reply
    then no_reply
    else r

module _ {ℓ} {S : Type ℓ} where
  -- processReq, on the network at its start and at its end. `handler` is `server.dispatch` of the
  -- request, on the state of whatever the servers serve; it runs to its end in any case,
  -- and takes effect before the call returns, also where the code gives it up and returns earlier.
  abbrev pub process_at :
      Network
      → ℕ
      → Chances
      → (ℕ → S → ReplyMsg × S)
      → EndInfo
      → Option ℕ
      → Option ℕ
      → S
      → ReplyMsg × S
  process_at rn' endname ch handler info (some name) (some server) s =
      if not info.is_enabled
      then (no_reply, s)
      else if not info.is_reliable_net && ch.drops_request
      then (no_reply, s)
      else let (r, s') = handler server s in (finish_req rn' endname name info ch r, s')
  process_at rn' endname ch handler info _ _ s = (no_reply, s)

  unfoldable pub process_req :
      Network → Network → ℕ → Chances → (ℕ → S → ReplyMsg × S) → S → ReplyMsg × S
  process_req rn rn' endname ch handler s =
      let info = read_endname_info rn endname in
      process_at rn' endname ch handler info info.servername info.server s
