-- ===== src/Crc.antt =====
-- include/modules/phy_pcs.hpp: `Crc32`, bit by bit over 32-bit words.
pub mod Detect
mod Tests
use fpga_sim_core.Prelude.{ℕ, zero, suc, ◌+◌, ◌-◌, ◌/◌, ◌%◌, ◌^◌, List, [], ◌∷◌, bit_and, bit_xor}

abbrev pub polynomial : ℕ
polynomial = 0xEDB88320

-- `crc = (crc >> 1U) ^ (polynomial & (0U - (crc & 1U)))`.
unfoldable pub bit_step : ℕ → ℕ
bit_step crc = bit_xor (crc / 2) (bit_and polynomial ((2 ^ 32 - bit_and crc 1) % 2 ^ 32))

unfoldable pub bit_steps : ℕ → ℕ → ℕ
unfolding bit_step
bit_steps zero crc = crc
bit_steps (suc rounds) crc = bit_steps rounds (bit_step crc)

unfoldable pub byte_step : ℕ → ℕ → ℕ
unfolding bit_steps
byte_step crc byte = bit_steps 8 (bit_xor crc byte)

-- The loop over `data[0 .. length)`. A read past the end is undefined in the source; it ends here.
unfoldable pub crc_loop : List ℕ → ℕ → ℕ → ℕ
unfolding byte_step
crc_loop bytes zero crc = crc
crc_loop [] (suc n) crc = crc
crc_loop (byte ∷ bytes) (suc n) crc = crc_loop bytes n (byte_step crc byte)

-- `~crc` of a 32-bit word.
unfoldable pub compute : List ℕ → ℕ → ℕ
unfolding crc_loop
compute bytes length = 2 ^ 32 - 1 - crc_loop bytes length 0xFFFFFFFF
