-- ===== src/Walk.antt =====
-- tools/itch_analysis.hpp: `spec_length`, `be` and `Walker`, which goes through a file of messages, each
-- behind its length in two bytes. The field `data` is `bytes` here. A byte past the end, which the checks of `next` rule out, reads as 0.
pub mod Next
mod Tests
use fpga_sim_core.Prelude.{
  ℕ, zero, suc, ◌+◌, ◌-◌, ◌*◌, ◌%◌, ◌^◌, Bool, true, false, not, ◌||◌, Option, none, some, List,
  get_or, drop, ltb, leb, ◌==◌, if◌then◌else◌, bit_or,
}

unfoldable pub spec_length : ℕ → ℕ
spec_length t =
    if t == b'S' || t == b'W'
    then 12
    else if t == b'R'
    then 39
    else if t == b'H'
    then 25
    else if t == b'Y' || t == b'N'
    then 20
    else if t == b'L'
    then 26
    else if t == b'V' || t == b'J' || t == b'U'
    then 35
    else if t == b'K'
    then 28
    else if t == b'h'
    then 21
    else if t == b'A' || t == b'C'
    then 36
    else if t == b'F' || t == b'Q'
    then 40
    else if t == b'E'
    then 31
    else if t == b'X'
    then 23
    else if t == b'D' || t == b'B'
    then 19
    else if t == b'P'
    then 44
    else if t == b'I'
    then 50
    else 0

-- `be(p + at, n)`, with the word so far.
unfoldable pub be : List ℕ → ℕ → ℕ → ℕ → ℕ
be p at zero v = v
be p at (suc n) v = be p (at + 1) n (bit_or (v * 2 ^ 8 % 2 ^ 64) (get_or p at 0))

pub data Stop : Type 0 where
  end truncated_tail bad_framing : Stop

pub record Walker : Type 0 where
  pub bytes : List ℕ
  pub size : ℕ
  pub offset : ℕ
  pub stop : Stop

-- `next`: the walker after the call, and the place and length of the message if there is one.
unfoldable pub next : Walker → Walker × Option (ℕ × ℕ)
next w =
    let framed : ℕ = be w.bytes w.offset 2 0 in
    if leb w.size w.offset
    then (record w { stop = end }, none)
    else if ltb (w.size - w.offset) 2
    then (record w { stop = truncated_tail }, none)
    else if ltb (w.size - w.offset - 2) framed
    then (record w { stop = truncated_tail }, none)
    else if framed == 0 || not (spec_length (get_or w.bytes (w.offset + 2) 0) == framed)
    then (record w { stop = bad_framing }, none)
    else (record w { offset = w.offset + 2 + framed }, some (w.offset + 2, framed))
