-- ===== src/Pcs/Tests.antt =====
-- A message of three bytes through two blocks, and what a damaged block does.
use fpga_sim_core.Prelude.{
  ℕ, ◌≡◌, ◌≢◌, refl, true, false, some, List, [], ◌∷◌, arith, replicate, take,
}
use mathlib.Core.Option
use fpga_sim_core.Pcs.{
  encode, decode, encode_into, decode_into, decode_loop, has_marker, check, block_count,
}
use fpga_sim_core.Pcs.RoundTrip.{decode-encode}
use fpga_sim_core.Crc.{compute}
use fpga_sim_core.Crc.Detect.{compute_detects}

abbrev message : List ℕ
message = 65 ∷ 0 ∷ 255 ∷ []

abbrev sent : ℕ × Option.Option (List ℕ)
sent = encode (some message) 3 (some (replicate 8 0)) 8

-- One block: 3 bytes and the check sum are 7 bytes.
one_block : sent.0 ≡ 1
unfolding encode encode_into block_count
one_block = refl

-- A block without its marker is skipped, and nothing is valid.
no_marker :
    (decode (some (65 ∷ [])) 1 (some (replicate 48 0)) 48 3).0
    ≡ record { block_lock = true; crc_valid = false; payload_length = 0 }
unfolding decode decode_into decode_loop has_marker check
no_marker = refl

decode-encode_example :
    let (count, sent_blocks) = encode (some message) 3 (some (replicate 8 0)) 8 in
    let (result, buffer') = decode sent_blocks count (some (replicate 48 0)) 48 3 in
    (result ≡ record { block_lock = true; crc_valid = true; payload_length = 3 })
    × (Option.map (take 3) buffer' ≡ some (take 3 message))
unfolding block_count
decode-encode_example =
    decode-encode message (replicate 8 0) (replicate 48 0) 3 8 48 (omega arith) (omega arith)
      (omega arith) (omega arith) refl (omega arith) refl (omega arith)

compute_detects_example : compute (65 ∷ 7 ∷ 255 ∷ []) 3 ≢ compute (65 ∷ 8 ∷ 255 ∷ []) 3
compute_detects_example =
    compute_detects (65 ∷ []) (255 ∷ []) 7 8 3 (omega arith) (omega arith) (omega arith)
      (omega arith) (omega arith) (omega arith)
