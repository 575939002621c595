-- ===== src/Itch.antt =====
-- include/modules/parser_itch50.hpp: `Itch50Parser`, which reads ITCH 5.0 messages from a buffer. A
-- pointer into the buffer is the list from that place on; a byte past the end, which the checks of
-- `parse` rule out, reads as 0. A `char` is its byte.
pub mod Words
pub mod Loop
pub mod Reads
pub mod Format
pub mod Messages
pub mod Single
mod Tests
use fpga_sim_core.Prelude.{
  ℕ, zero, suc, ◌+◌, ◌-◌, ◌*◌, ◌%◌, ◌^◌, Bool, true, false, ◌&&◌, ◌||◌, Option, none, some, List,
  [], ◌∷◌, get_or, set, drop, replicate, ltb, leb, ◌==◌, if◌then◌else◌, bit_or,
}

pub data ItchType : Type 0 where
  add add_mpid executed executed_price cancel delete_order replace unknown : ItchType

pub record ItchEvent : Type 0 where
  pub type : ItchType
  pub order_reference : ℕ
  pub new_reference : ℕ
  pub shares : ℕ
  pub price_ticks : ℕ
  pub side : ℕ
  pub stock : List ℕ

abbrev pub blank_event : ItchEvent
blank_event = record {
  type = unknown;
  order_reference = 0;
  new_reference = 0;
  shares = 0;
  price_ticks = 0;
  side = 0;
  stock = replicate 9 0;
}

pub data ParseStatus : Type 0 where
  ok unknown_type truncated event_limit : ParseStatus

abbrev pub max_events : ℕ
max_events = 32

pub record Itch50Parser : Type 0 where
  pub events : List ItchEvent
  pub event_count : ℕ
  pub byte_count : ℕ
  pub consumed : ℕ
  pub status : ParseStatus

unfoldable pub fresh : Itch50Parser
fresh = record {
  events = replicate max_events blank_event;
  event_count = 0;
  byte_count = 0;
  consumed = 0;
  status = ok;
}

-- `reset` leaves the stored events.
unfoldable pub reset : Itch50Parser → Itch50Parser
reset p = record p { event_count = 0; byte_count = 0; consumed = 0; status = ok }

abbrev pub byte : List ℕ → ℕ → ℕ
byte p i = get_or p i 0

-- `for (; i < 8; ++i) value = (value << 8U) | p[i]` in 64 bits, `rounds` rounds from place `i`.
unfoldable pub u64be_loop : List ℕ → ℕ → ℕ → ℕ → ℕ
u64be_loop p i zero value = value
u64be_loop p i (suc rounds) value =
    u64be_loop p (i + 1) rounds (bit_or (value * 2 ^ 8 % 2 ^ 64) (byte p i))

-- `u64be(p + at)`.
unfoldable pub u64be : List ℕ → ℕ → ℕ
unfolding u64be_loop
u64be p at = u64be_loop p at 8 0

-- `u32be(p + at)`; a byte shifted by 24 fits in 32 bits.
unfoldable pub u32be : List ℕ → ℕ → ℕ
u32be p at =
    bit_or
      (bit_or (bit_or (byte p at * 2 ^ 24 % 2 ^ 32) (byte p (at + 1) * 2 ^ 16))
        (byte p (at + 2) * 2 ^ 8))
      (byte p (at + 3))

unfoldable pub length_for : ℕ → ℕ
length_for type =
    if type == b'A'
    then 36
    else if type == b'F'
    then 40
    else if type == b'E'
    then 31
    else if type == b'C'
    then 36
    else if type == b'X'
    then 23
    else if type == b'D'
    then 19
    else if type == b'U'
    then 35
    else 0

unfoldable pub decode_add : List ℕ → ItchEvent
decode_add p = record blank_event {
  type = if byte p 0 == b'A' then add else add_mpid;
  order_reference = u64be p 11;
  side = byte p 19;
  shares = u32be p 20;
  stock =
      byte p 24
      ∷ byte p 25
      ∷ byte p 26
      ∷ byte p 27
      ∷ byte p 28
      ∷ byte p 29
      ∷ byte p 30
      ∷ byte p 31
      ∷ 0
      ∷ [];
  price_ticks = u32be p 32;
}

unfoldable pub decode_executed : List ℕ → ItchEvent
decode_executed p = record blank_event {
  type = if byte p 0 == b'E' then executed else executed_price;
  order_reference = u64be p 11;
  shares = u32be p 19;
}

unfoldable pub decode_cancel : List ℕ → ItchEvent
decode_cancel p = record blank_event {
  type = cancel;
  order_reference = u64be p 11;
  shares = u32be p 19;
}

unfoldable pub decode_delete : List ℕ → ItchEvent
decode_delete p = record blank_event { type = delete_order; order_reference = u64be p 11 }

unfoldable pub decode_replace : List ℕ → ItchEvent
decode_replace p = record blank_event {
  type = replace;
  order_reference = u64be p 11;
  new_reference = u64be p 19;
  shares = u32be p 27;
  price_ticks = u32be p 31;
}

-- `decode` fills `out` and returns true, or returns false and leaves `out` as it was.
unfoldable pub decode : List ℕ → ℕ → Option ItchEvent
decode p length =
    if length == 36 && byte p 0 == b'A' || length == 40 && byte p 0 == b'F'
    then some (decode_add p)
    else if length == 31 && byte p 0 == b'E' || length == 36 && byte p 0 == b'C'
    then some (decode_executed p)
    else if length == 23 && byte p 0 == b'X'
    then some (decode_cancel p)
    else if length == 19 && byte p 0 == b'D'
    then some (decode_delete p)
    else if length == 35 && byte p 0 == b'U'
    then some (decode_replace p)
    else none

unfoldable pub store : Itch50Parser → Option ItchEvent → Itch50Parser
store p none = p
store p (some event) = record p {
  events = set p.events p.event_count event;
  event_count = p.event_count + 1;
}

-- The loop, with fuel; `none` means that the fuel ran out, which `Loop.parse_lem` excludes. The
-- result is the parser and the final offset.
unfoldable pub parse_loop : ℕ → List ℕ → ℕ → ℕ → Itch50Parser → Option (Itch50Parser × ℕ)
parse_loop zero bytes length offset p = none
parse_loop (suc fuel) bytes length offset p =
    let here = drop offset bytes in
    let message_length : ℕ = length_for (byte here 0) in
    let rest =
      parse_loop fuel bytes length (offset + message_length)
        (store p (decode here message_length)) in
    if leb length offset
    then some (p, offset)
    else if leb max_events p.event_count
    then some (record p { status = event_limit }, offset)
    else if message_length == 0
    then some (record p { status = unknown_type }, offset)
    else if ltb (length - offset) message_length
    then some (record p { status = truncated }, offset)
    else rest

-- `consumed_ = offset` after the loop.
abbrev pub set_consumed : Option (Itch50Parser × ℕ) → Option Itch50Parser
set_consumed none = none
set_consumed (some (p, offset)) = some (record p { consumed = offset })

-- `parse(bytes, length)`; its result is the new `event_count`. A message has at least 19 bytes, so
-- one unit of fuel for each byte is enough.
unfoldable pub parse : Itch50Parser → List ℕ → ℕ → Option Itch50Parser
parse p bytes length = set_consumed (
    parse_loop (length + 1) bytes length 0
      (record p { event_count = 0; byte_count = length; status = ok }))
