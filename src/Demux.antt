-- ===== src/Demux.antt =====
-- tester1/demux: calls over one connection, matched with their replies by a tag. A channel of a
-- call is the number of its caller; what each goroutine does is in Demux/System.antt.
pub mod Transport
pub mod Framing
pub mod Arrival
pub mod System
pub mod Owners
pub mod Moves
pub mod Puts
pub mod Tokens
pub mod Wire
pub mod Deliveries
pub mod Invariant
pub mod Steps
pub mod Matched
mod Examples
use mit.Prelude.{
  ℕ, ◌+◌, ◌%◌, ◌^◌, Bool, true, false, Option, none, some, List, [], ◌∷◌, nat_eq, lookup, insert,
  delete, keys, if◌then◌else◌,
}

-- `Ttag` is a uint32.
abbrev pub tag_mod : ℕ
tag_mod = 2 ^ 32

-- `reply`, with whether its `err` is nil; bytes are numbers.
pub record Reply : Type 0 where
  pub rep : List ℕ
  pub is_ok : Bool
  pub is_err : Bool

pub record CallMap : Type 0 where
  pub closed : Bool
  pub calls : List (ℕ × ℕ)

unfoldable pub new_call_map : CallMap
new_call_map = record { closed = false; calls = [] }

unfoldable pub close : CallMap → CallMap
close cm = record cm { closed = true }

-- False is the error "conn closed".
unfoldable pub put : ℕ → ℕ → CallMap → Bool × CallMap
put tag ch cm =
    if cm.closed then (false, cm) else (true, record cm { calls = insert tag ch cm.calls })

abbrev pub removed : ℕ → CallMap → Option ℕ → Option ℕ × CallMap
removed tag cm (some ch) = (some ch, record cm { calls = delete tag cm.calls })
removed tag cm none = (none, cm)

unfoldable pub remove : ℕ → CallMap → Option ℕ × CallMap
remove tag cm = removed tag cm (lookup tag cm.calls)

-- The tags in the order in which `range` gives them.
unfoldable pub outstanding : CallMap → List ℕ
outstanding cm = keys cm.calls

pub record DemuxClnt : Type 0 where
  pub callmap : CallMap
  pub next_tag : ℕ

unfoldable pub tag : DemuxClnt → ℕ × DemuxClnt
tag dmx = (dmx.next_tag, record dmx { next_tag = (dmx.next_tag + 1) % tag_mod })

-- NewDemuxClnt takes the first tag for its own message.
unfoldable pub new_demux_clnt : DemuxClnt
unfolding tag new_call_map
new_demux_clnt = (tag (record { callmap = new_call_map; next_tag = 0 })).1

unfoldable pub close_clnt : DemuxClnt → DemuxClnt
unfolding close
close_clnt dmx = if dmx.callmap.closed then dmx else record dmx { callmap = close dmx.callmap }

-- The goroutine `reader`: in ReadCall, about to close the map after an error, about to take the
-- outstanding tags, with tags to fail, sending a reply to a channel (with the tags that it then
-- has to fail, if it is past its loop), returned, or ended by log.Fatalf.
pub data Reader : Type 0 where
  reading closing listing returned fatal : Reader
  draining : List ℕ → Reader
  sending : ℕ → ℕ → Reply → Option (List ℕ) → Reader

-- DemuxClnt.reply, up to where it sends.
abbrev pub replied : ℕ → Reply → Option (List ℕ) → Option ℕ → Reader
replied tag r left none = fatal
replied tag r left (some ch) = sending tag ch r left

unfoldable pub reply : ℕ → Reply → Option (List ℕ) → DemuxClnt → Reader × DemuxClnt
unfolding remove
reply tag r left dmx =
    let (o, cm) = remove tag dmx.callmap in (replied tag r left o, record dmx { callmap = cm })

abbrev pub reply_fail : Reply
reply_fail = record { rep = []; is_ok = false; is_err = true }

-- Where the reader goes on after a reply.
abbrev pub sent : Option (List ℕ) → Reader
sent none = reading
sent (some ts) = draining ts
