-- ===== src/Demux/Transport.antt =====
-- tester1/demux/transport.go: a message on the connection is its length in four bytes, the lowest
-- first, and its encoding. `marshall` and `unmarshall` are labrpc's, over encoding/gob.
use mit.Prelude.{
  ℕ, zero, suc, ◌+◌, ◌-◌, ◌*◌, ◌/◌, ◌%◌, ◌^◌, Bool, true, false, not, List, [], ◌∷◌, ◌++◌, length,
  take, drop, leb, nat_eqb, if◌then◌else◌,
}

pub record Msg : Type 0 where
  pub tag : ℕ
  pub data_ : List ℕ
  pub is_ok : Bool

-- encoding/binary, of a uint32.
abbrev pub little_endian : ℕ → List ℕ
little_endian n = n % 256 ∷ n / 256 % 256 ∷ n / 65536 % 256 ∷ n / 16777216 % 256 ∷ []

abbrev pub from_little_endian : List ℕ → ℕ
from_little_endian [] = 0
from_little_endian (b ∷ bs) = b + 256 * from_little_endian bs

-- What is left of the connection for the writer, under its buffer: what it has passed on, how
-- many bytes more the connection takes, and whether a write has failed, which lasts.
pub record Writer : Type 0 where
  pub sent : List ℕ
  pub left : ℕ
  pub is_broken : Bool

abbrev pub write : List ℕ → Writer → Bool × Writer
write bs w =
    if w.is_broken
    then (false, w)
    else if leb (length bs) w.left
    then (true, record w { sent = w.sent ++ bs; left = w.left - length bs })
    else (false, record { sent = w.sent ++ take w.left bs; left = 0; is_broken = true })

pub data IoErr : Type 0 where
  eof unexpected_eof short_read : IoErr

-- io.ReadFull, and so binary.Read: the bytes and what follows them, or the error.
pub data ReadFull : Type 0 where
  full : List ℕ → List ℕ → ReadFull
  not_full : IoErr → ReadFull

abbrev pub read_full : ℕ → List ℕ → ReadFull
read_full n bs =
    if leb n (length bs)
    then full (take n bs) (drop n bs)
    else if nat_eqb (length bs) 0
    then not_full eof
    else not_full unexpected_eof

pub data ReadCall : Type 0 where
  got : Msg → List ℕ → ReadCall
  failed : IoErr → ReadCall

-- Where several calls are made, the messages whose calls had no error.
abbrev pub noted : Msg → Bool → List Msg × Writer → List Msg × Writer
noted m is_ok (ms, w) = if is_ok then (m ∷ ms, w) else (ms, w)

abbrev pub write_body : List ℕ → Bool × Writer → Bool × Writer
write_body b (is_ok, w) = if is_ok then write b w else (false, w)

module _ (marshall : Msg → List ℕ) where
  -- WriteCall, with whether its error is nil.
  unfoldable pub write_call : Msg → Writer → Bool × Writer
  write_call m w = let b = marshall m in write_body b (write (little_endian (length b % 2 ^ 32)) w)

  unfoldable pub write_calls : List Msg → Writer → List Msg × Writer
  write_calls [] w = ([], w)
  write_calls (m ∷ ms) w = let (is_ok, w') = write_call m w in noted m is_ok (write_calls ms w')

-- The messages that a reader's loop reads up to the error that ends it; `none_yet` is that it has
-- not ended.
pub data Read : Type 0 where
  none_yet : Read
  ended_by : List Msg → IoErr → Read

abbrev pub then_read : Msg → Read → Read
then_read m none_yet = none_yet
then_read m (ended_by ms e) = ended_by (m ∷ ms) e

abbrev pub read_on : (List ℕ → Read) → ReadCall → Read
read_on next (failed e) = ended_by [] e
read_on next (got m rest) = then_read m (next rest)

module _ (unmarshall : List ℕ → Msg) where
  abbrev pub read_body : ℕ → ReadFull → ReadCall
  read_body nbyte (not_full e) = failed e
  read_body nbyte (full b rest) =
      if not (nat_eqb (length b) nbyte) then failed short_read else got (unmarshall b) rest

  abbrev pub read_length : ReadFull → ReadCall
  read_length (not_full e) = failed e
  read_length (full b rest) =
      let nbyte = from_little_endian b in read_body nbyte (read_full nbyte rest)

  unfoldable pub read_call : List ℕ → ReadCall
  read_call bs = read_length (read_full 4 bs)

  unfoldable pub read_calls : ℕ → List ℕ → Read
  read_calls zero bs = none_yet
  read_calls (suc fuel) bs = read_on (read_calls fuel) (read_call bs)
