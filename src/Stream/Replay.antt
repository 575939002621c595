-- ===== src/Stream/Replay.antt =====
-- include/pipeline/real_itch.hpp: `ReplayStream`, with Capacity as an argument. A pointer to the bytes
-- of a message is the list from there on.

pub mod Pushed
mod Tests
use fpga_sim_core.Prelude.{
  ℕ, ◌+◌, ◌%◌, ◌^◌, Bool, true, false, ◌||◌, List, get_or, set, replicate, memcpy, ltb, leb, ◌==◌,
  if◌then◌else◌,
}
use fpga_sim_core.Stream.{Message}

abbrev pub blank_message : Message
blank_message = record { bytes = replicate 40 0; length = 0; type = 0; arrival_cycle = 0 }

pub record ReplayStream : Type 0 where
  pub messages : List Message
  pub count : ℕ

unfoldable pub fresh : ℕ → ReplayStream
fresh capacity = record { messages = replicate capacity blank_message; count = 0 }

unfoldable pub push : ℕ → ReplayStream → List ℕ → ℕ → ℕ → ReplayStream × Bool
push capacity s bytes length arrival_cycle =
    let m : Message = get_or s.messages s.count blank_message in
    if leb capacity s.count || length == 0 || ltb 40 length then (s, false) else (
      record s {
        messages = set s.messages s.count (record m {
          bytes = memcpy m.bytes 0 bytes 0 length;
          length = length % 2 ^ 8;
          type = get_or bytes 0 0;
          arrival_cycle = arrival_cycle;
        });
        count = s.count + 1;
      },
      true,
    )

-- `message(i)`.
abbrev pub message : ReplayStream → ℕ → Message
message s i = get_or s.messages i blank_message
