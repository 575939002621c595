-- ===== src/Pcs.antt =====
-- include/modules/phy_pcs.hpp: `Deserializer66b`, which puts a payload and its check sum into blocks
-- of seven bytes behind a marker bit, and takes blocks apart again. Buffers are lists and a null
-- pointer is `none`. A byte count wraps at 2 ^ 64 where the source adds to a length.
pub mod Block
pub mod Stream
pub mod RoundTrip
mod Tests
use fpga_sim_core.Prelude.{
  ℕ, zero, suc, ◌+◌, ◌-◌, ◌*◌, ◌/◌, ◌%◌, ◌^◌, Bool, true, false, ◌&&◌, ◌||◌, Option, none, some,
  List, get_or, set, ltb, leb, ◌==◌, if◌then◌else◌, bit_or,
}
use fpga_sim_core.Crc.{compute}

abbrev pub bytes_per_block : ℕ
bytes_per_block = 7

-- `PcsResult`.
pub record PcsResult : Type 0 where
  pub block_lock : Bool
  pub crc_valid : Bool
  pub payload_length : ℕ

-- The byte at a place of the encoded stream: the payload, its check sum, then padding.
unfoldable pub stream_byte : List ℕ → ℕ → ℕ → ℕ → ℕ
stream_byte payload length crc index =
    if ltb index length
    then get_or payload index 0
    else if index == length
    then crc / 2 ^ 24 % 256
    else if index == length + 1
    then crc / 2 ^ 16 % 256
    else if index == length + 2
    then crc / 2 ^ 8 % 256
    else if index == length + 3
    then crc % 256
    else 0

-- `block |= value << ((6U - byte) * 8U)` for each `byte` from `byte` on; `first` is the block's
-- first place in the stream.
unfoldable pub pack : (ℕ → ℕ) → ℕ → ℕ → ℕ → ℕ → ℕ
pack value first byte zero block = block
pack value first byte (suc rounds) block =
    pack value first (byte + 1) rounds (bit_or block (value (first + byte) * 2 ^ ((6 - byte) * 8)))

unfoldable pub encode_block : (ℕ → ℕ) → ℕ → ℕ
unfolding pack
encode_block value block_index =
    pack value (block_index * bytes_per_block) 0 bytes_per_block (2 ^ 56)

unfoldable pub encode_loop : (ℕ → ℕ) → ℕ → ℕ → List ℕ → List ℕ
encode_loop value block_index zero blocks = blocks
encode_loop value block_index (suc rounds) blocks =
    encode_loop value (block_index + 1) rounds
      (set blocks block_index (encode_block value block_index))

-- `ceil((length + 4) / 7)`.
unfoldable pub block_count : ℕ → ℕ
block_count length = (((length + 4) % 2 ^ 64 + bytes_per_block - 1) % 2 ^ 64) / bytes_per_block

unfoldable pub encode_into : List ℕ → ℕ → List ℕ → ℕ → ℕ × List ℕ
encode_into payload length blocks capacity =
    if capacity == 0
    then (0, blocks)
    else if ltb capacity (block_count length)
    then (0, blocks)
    else (
      block_count length,
      encode_loop (stream_byte payload length (compute payload length)) 0 (block_count length)
          blocks,
    )

-- The number of blocks, and the buffer of blocks after the call.
unfoldable pub encode : Option (List ℕ) → ℕ → Option (List ℕ) → ℕ → ℕ × Option (List ℕ)
encode none length blocks capacity = (0, blocks)
encode (some payload) length none capacity = (0, none)
encode (some payload) length (some blocks) capacity =
    let (count, blocks') = encode_into payload length blocks capacity in (count, some blocks')

-- `for (byte = left - 1; byte >= 0 && written < capacity; --byte)` on one block; the buffer and the
-- number of bytes written.
unfoldable pub unpack : ℕ → ℕ → ℕ → List ℕ → ℕ → List ℕ × ℕ
unpack capacity block zero payload written = (payload, written)
unpack capacity block (suc byte) payload written =
    if ltb written capacity
    then unpack capacity block byte (set payload written (block / 2 ^ (byte * 8) % 256))
        (written + 1)
    else (payload, written)

unfoldable pub has_marker : ℕ → Bool
has_marker block = block / 2 ^ 56 == 1

-- `for (i = i; i < count && written < capacity; ++i)`, with `rounds` blocks left.
unfoldable pub decode_loop : List ℕ → ℕ → ℕ → ℕ → List ℕ → ℕ → List ℕ × ℕ
decode_loop blocks capacity i zero payload written = (payload, written)
decode_loop blocks capacity i (suc rounds) payload written =
    if ltb written capacity
    then (let block = get_or blocks i 0 in
        let (payload', written') =
          if has_marker block
          then unpack capacity block bytes_per_block payload written
          else (payload, written) in
        decode_loop blocks capacity (i + 1) rounds payload' written')
    else (payload, written)

-- The four bytes from `at` on as a big-endian word; they are disjoint fields.
unfoldable pub expected_crc : List ℕ → ℕ → ℕ
expected_crc payload at =
    bit_or
      (bit_or (bit_or (get_or payload at 0 * 2 ^ 24) (get_or payload (at + 1) 0 * 2 ^ 16))
        (get_or payload (at + 2) 0 * 2 ^ 8))
      (get_or payload (at + 3) 0)

-- The end of `decode`, when `written` bytes are in the buffer.
unfoldable pub check : List ℕ → ℕ → ℕ → ℕ → PcsResult
check payload written capacity expected_payload_length =
    let payload_length : ℕ =
      if expected_payload_length == 0
      then if leb 4 written then written - 4 else 0
      else expected_payload_length in
    if leb ((payload_length + 4) % 2 ^ 64) written && leb payload_length capacity
    then record {
      block_lock = true;
      payload_length = payload_length;
      crc_valid = compute payload payload_length == expected_crc payload payload_length;
    }
    else record { block_lock = true; payload_length = 0; crc_valid = false }

unfoldable pub decode_into : List ℕ → ℕ → List ℕ → ℕ → ℕ → PcsResult × List ℕ
decode_into blocks count payload capacity expected_payload_length =
    let (payload', written) = decode_loop blocks capacity 0 count payload 0 in
    (check payload' written capacity expected_payload_length, payload')

abbrev pub no_result : PcsResult
no_result = record { block_lock = false; crc_valid = false; payload_length = 0 }

-- The result, and the payload buffer after the call.
unfoldable pub decode : Option (List ℕ) → ℕ → Option (List ℕ) → ℕ → ℕ → PcsResult × Option (List ℕ)
decode none count payload capacity expected_payload_length = (no_result, payload)
decode (some blocks) count none capacity expected_payload_length = (no_result, none)
decode (some blocks) count (some payload) capacity expected_payload_length =
    if count == 0
    then (no_result, some payload)
    else (let (result, payload') =
          decode_into blocks count payload capacity expected_payload_length in
        (result, some payload'))
