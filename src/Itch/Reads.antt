-- ===== src/Itch/Reads.antt =====
-- Decoding a message reads its own bytes only, and every known type has a decoder for its length.
use fpga_sim_core.Prelude.{
  ℕ, zero, suc, ◌+◌, ◌≤◌, ◌<◌, ◌≡◌, ◌≢◌, refl, Option, none, List, [], ◌∷◌, ◌++◌, arith, length,
}
use fpga_sim_core.Itch.{
  ItchEvent, byte, length_for, decode, decode_add, decode_executed, decode_cancel, decode_delete,
  decode_replace, u64be, u32be,
}

-- A whole message: as long as its type says, which is a type that the parser knows.
abbrev pub IsMessage : List ℕ → Type 0
IsMessage m = (length_for (byte m 0) ≡ length m) × (0 < length m)

-- The event of a message.
abbrev pub event_of : List ℕ → Option ItchEvent
event_of m = decode m (length m)

pub decode-ne-none : (m : List ℕ) → IsMessage m → event_of m ≢ none
unfolding length_for decode
decode-ne-none m h = ground arith

-- Decoding reads only the bytes of the message.
pub byte-append : (m rest : List ℕ) (i : ℕ) → i < length m → byte (m ++ rest) i ≡ byte m i
byte-append [] rest i h = absurd (omega arith)
byte-append (x ∷ m) rest zero h = refl
byte-append (x ∷ m) rest (suc i) h = byte-append m rest i (omega arith)

module _ (m rest : List ℕ) where
  same : (i : ℕ) → i < length m → byte (m ++ rest) i ≡ byte m i
  same i h = byte-append m rest i h

  u64be-append : (at : ℕ) → at + 8 ≤ length m → u64be (m ++ rest) at ≡ u64be m at
  unfolding u64be
  u64be-append at h = rw (
    same at (omega arith),
    same (at + 1) (omega arith),
    same (at + 1 + 1) (omega arith),
    same (at + 1 + 1 + 1) (omega arith),
    same (at + 1 + 1 + 1 + 1) (omega arith),
    same (at + 1 + 1 + 1 + 1 + 1) (omega arith),
    same (at + 1 + 1 + 1 + 1 + 1 + 1) (omega arith),
    same (at + 1 + 1 + 1 + 1 + 1 + 1 + 1) (omega arith),
  )

  u32be-append : (at : ℕ) → at + 4 ≤ length m → u32be (m ++ rest) at ≡ u32be m at
  unfolding u32be
  u32be-append at h = rw (
    same at (omega arith),
    same (at + 1) (omega arith),
    same (at + 2) (omega arith),
    same (at + 3) (omega arith),
  )

  decode_add-append : 36 ≤ length m → decode_add (m ++ rest) ≡ decode_add m
  unfolding decode_add
  decode_add-append h = rw (
    u64be-append 11 (omega arith),
    u32be-append 20 (omega arith),
    u32be-append 32 (omega arith),
    same 0 (omega arith),
    same 19 (omega arith),
    same 24 (omega arith),
    same 25 (omega arith),
    same 26 (omega arith),
    same 27 (omega arith),
    same 28 (omega arith),
    same 29 (omega arith),
    same 30 (omega arith),
    same 31 (omega arith),
  )

  decode_executed-append : 31 ≤ length m → decode_executed (m ++ rest) ≡ decode_executed m
  unfolding decode_executed
  decode_executed-append h =
      rw (u64be-append 11 (omega arith), u32be-append 19 (omega arith), same 0 (omega arith))

  decode_cancel-append : 23 ≤ length m → decode_cancel (m ++ rest) ≡ decode_cancel m
  unfolding decode_cancel
  decode_cancel-append h = rw (u64be-append 11 (omega arith), u32be-append 19 (omega arith))

  decode_delete-append : 19 ≤ length m → decode_delete (m ++ rest) ≡ decode_delete m
  unfolding decode_delete
  decode_delete-append h = rw (u64be-append 11 (omega arith))

  decode_replace-append : 35 ≤ length m → decode_replace (m ++ rest) ≡ decode_replace m
  unfolding decode_replace
  decode_replace-append h = rw (
    u64be-append 11 (omega arith),
    u64be-append 19 (omega arith),
    u32be-append 27 (omega arith),
    u32be-append 31 (omega arith),
  )

  pub decode-append : 0 < length m → decode (m ++ rest) (length m) ≡ decode m (length m)
  unfolding decode
  decode-append h = rw (same 0 h) (
      ground (
        arith, decode_add-append, decode_executed-append, decode_cancel-append,
        decode_delete-append, decode_replace-append,
      ))
