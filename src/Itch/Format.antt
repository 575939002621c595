-- ===== src/Itch/Format.antt =====
-- The format of the messages, read off their bytes as plain numbers, and the event that each one tells.
use fpga_sim_core.Prelude.{
  ℕ, zero, suc, ◌+◌, ◌*◌, ◌^◌, ◌%◌, ◌<◌, ◌≡◌, ◌∙◌, refl, sym, ap, some, List, [], ◌∷◌, ◌++◌, arith,
  bit_or, take, drop, length, replicate,
}
use fpga_sim_core.Crc.Detect.{AllBytes}
use fpga_sim_core.Pcs.Block.{or_below}
use fpga_sim_core.Pcs.RoundTrip.{get_or-AllBytes}
use fpga_sim_core.Itch.{
  ItchType, ItchEvent, add, add_mpid, executed, executed_price, cancel, delete_order, replace, byte,
  length_for, decode, decode_add, decode_executed, decode_cancel, decode_delete, decode_replace,
  u64be, u32be,
}
use fpga_sim_core.Itch.Words.{u32be_lem}
use fpga_sim_core.Itch.Reads.{IsMessage, event_of}

-- The number that the `n` bytes of `m` from place `at` on write to the base 256.
abbrev pub number : List ℕ → ℕ → ℕ → ℕ
number m at zero = 0
number m at (suc n) = byte m at * 256 ^ n + number m (at + 1) n

-- An order is added: its side, shares, stock and price.
abbrev addition : ItchType → List ℕ → ItchEvent
addition kind m = record {
  type = kind;
  order_reference = number m 11 8;
  new_reference = 0;
  shares = number m 20 4;
  price_ticks = number m 32 4;
  side = byte m 19;
  stock = take 8 (drop 24 m) ++ 0 ∷ [];
}

-- An order is lowered, or replaced by one of another reference and price.
abbrev change : ItchType → List ℕ → ℕ → ℕ → ℕ → ItchEvent
change kind m reference number_of_shares price = record {
  type = kind;
  order_reference = number m 11 8;
  new_reference = reference;
  shares = number_of_shares;
  price_ticks = price;
  side = 0;
  stock = replicate 9 0;
}

-- The message `m` tells the event: the messages of ITCH 5.0, by their first byte and their length.
pub data Tells (m : List ℕ) : ItchEvent → Type 0 where
  tells_add : byte m 0 ≡ b'A' → length m ≡ 36 → Tells m (addition add m)
  tells_add_mpid : byte m 0 ≡ b'F' → length m ≡ 40 → Tells m (addition add_mpid m)
  tells_executed : byte m 0 ≡ b'E' → length m ≡ 31 → Tells m (change executed m 0 (number m 19 4) 0)
  tells_executed_price :
      byte m 0 ≡ b'C' → length m ≡ 36 → Tells m (change executed_price m 0 (number m 19 4) 0)
  tells_cancel : byte m 0 ≡ b'X' → length m ≡ 23 → Tells m (change cancel m 0 (number m 19 4) 0)
  tells_delete : byte m 0 ≡ b'D' → length m ≡ 19 → Tells m (change delete_order m 0 0 0)
  tells_replace :
      byte m 0 ≡ b'U'
      → length m ≡ 35
      → Tells m (change replace m (number m 19 8) (number m 27 4) (number m 31 4))

push_byte :
    {value w b : ℕ}
    → value ≡ w
    → w < 2 ^ 56
    → b < 256
    → bit_or (value * 2 ^ 8 % 2 ^ 64) b ≡ w * 256 + b
push_byte {value} {w} {b} e h o =
    or_below 8 256 w (value * 2 ^ 8 % 2 ^ 64) b refl (omega arith) (omega arith) ∙ omega arith

module _ (m : List ℕ) (octets : AllBytes m) where
  octet : (i : ℕ) → byte m i < 256
  octet i = get_or-AllBytes m i octets

  u64be-number : (at : ℕ) → u64be m at ≡ number m at 8
  unfolding u64be
  u64be-number at =
      let o0 = octet at in
      let o1 = octet (at + 1) in
      let o2 = octet (at + 1 + 1) in
      let o3 = octet (at + 1 + 1 + 1) in
      let o4 = octet (at + 1 + 1 + 1 + 1) in
      let o5 = octet (at + 1 + 1 + 1 + 1 + 1) in
      let o6 = octet (at + 1 + 1 + 1 + 1 + 1 + 1) in
      let o7 = octet (at + 1 + 1 + 1 + 1 + 1 + 1 + 1) in
      let x0 = push_byte {value = 0} {w = 0} refl (omega arith) o0 in
      let x1 = push_byte x0 (omega arith) o1 in
      let x2 = push_byte x1 (omega arith) o2 in
      let x3 = push_byte x2 (omega arith) o3 in
      let x4 = push_byte x3 (omega arith) o4 in
      let x5 = push_byte x4 (omega arith) o5 in
      let x6 = push_byte x5 (omega arith) o6 in
      let x7 = push_byte x6 (omega arith) o7 in x7 ∙ omega arith

  u32be-number : (at : ℕ) → u32be m at ≡ number m at 4
  u32be-number at =
      let o0 = octet at in
      let o1 = octet (at + 1) in
      let o2 = octet (at + 1 + 1) in
      let o3 = octet (at + 1 + 1 + 1) in
      let e2 : byte m (at + 2) ≡ byte m (at + 1 + 1) = ap (byte m) (omega arith) in
      let e3 : byte m (at + 3) ≡ byte m (at + 1 + 1 + 1) = ap (byte m) (omega arith) in
      u32be_lem (number m at 4) m at (omega arith) (omega arith) (omega arith) (omega arith)
        (omega arith)

drop-byte : (k : ℕ) (m : List ℕ) → k < length m → drop k m ≡ byte m k ∷ drop (suc k) m
drop-byte k [] h = absurd (omega arith)
drop-byte zero (b ∷ m) h = refl
drop-byte (suc k) (b ∷ m) h = drop-byte k m (omega arith)

-- The name of a stock in a message that is long enough.
stock_bytes :
    (m : List ℕ)
    → 31 < length m
    → take 8 (drop 24 m) ++ 0 ∷ []
      ≡ byte m 24
        ∷ byte m 25
        ∷ byte m 26
        ∷ byte m 27
        ∷ byte m 28
        ∷ byte m 29
        ∷ byte m 30
        ∷ byte m 31
        ∷ 0
        ∷ []
stock_bytes m h = rw (
  drop-byte 24 m (omega arith),
  drop-byte 25 m (omega arith),
  drop-byte 26 m (omega arith),
  drop-byte 27 m (omega arith),
  drop-byte 28 m (omega arith),
  drop-byte 29 m (omega arith),
  drop-byte 30 m (omega arith),
  drop-byte 31 m (omega arith),
)

pub Tells-IsMessage : (m : List ℕ) (e : ItchEvent) → Tells m e → IsMessage m
unfolding length_for
Tells-IsMessage m e (tells_add k l) = (ap length_for k ∙ sym l, omega arith)
Tells-IsMessage m e (tells_add_mpid k l) = (ap length_for k ∙ sym l, omega arith)
Tells-IsMessage m e (tells_executed k l) = (ap length_for k ∙ sym l, omega arith)
Tells-IsMessage m e (tells_executed_price k l) = (ap length_for k ∙ sym l, omega arith)
Tells-IsMessage m e (tells_cancel k l) = (ap length_for k ∙ sym l, omega arith)
Tells-IsMessage m e (tells_delete k l) = (ap length_for k ∙ sym l, omega arith)
Tells-IsMessage m e (tells_replace k l) = (ap length_for k ∙ sym l, omega arith)

module _ (m : List ℕ) (octets : AllBytes m) where
  -- The decoder finds the event that the message tells.
  pub Tells-decoded : (e : ItchEvent) → Tells m e → event_of m ≡ some e
  unfolding decode decode_add decode_executed decode_cancel decode_delete decode_replace
  Tells-decoded e (tells_add k l) =
      rw
        (
          stock_bytes m (omega arith),
          k,
          l,
          u64be-number m octets 11,
          u32be-number m octets 20,
          u32be-number m octets 32,
        )
        refl
  Tells-decoded e (tells_add_mpid k l) =
      rw
        (
          stock_bytes m (omega arith),
          k,
          l,
          u64be-number m octets 11,
          u32be-number m octets 20,
          u32be-number m octets 32,
        )
        refl
  Tells-decoded e (tells_executed k l) =
      rw (k, l, u64be-number m octets 11, u32be-number m octets 19) refl
  Tells-decoded e (tells_executed_price k l) =
      rw (k, l, u64be-number m octets 11, u32be-number m octets 19) refl
  Tells-decoded e (tells_cancel k l) =
      rw (k, l, u64be-number m octets 11, u32be-number m octets 19) refl
  Tells-decoded e (tells_delete k l) = rw (k, l, u64be-number m octets 11) refl
  Tells-decoded e (tells_replace k l) =
      rw
        (
          k,
          l,
          u64be-number m octets 11,
          u64be-number m octets 19,
          u32be-number m octets 27,
          u32be-number m octets 31,
        )
        refl

-- A row of messages tells a row of events.
abbrev pub AllTell : List (List ℕ) → List ItchEvent → Type 0
AllTell [] [] = Unit {0}
AllTell [] (e ∷ es) = ⊥
AllTell (m ∷ ms) [] = ⊥
AllTell (m ∷ ms) (e ∷ es) = Tells m e × AllTell ms es
