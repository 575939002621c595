-- ===== src/Pcs/Block.antt =====
-- One block: its seven bytes are disjoint fields under the marker bit.
use fpga_sim_core.Prelude.{ℕ, ◌+◌, ◌*◌, ◌/◌, ◌%◌, ◌^◌, ◌<◌, ◌≡◌, refl, arith, bit_or, true}
use fpga_sim_core.Prelude.Bits.{bit_or_fields}
use fpga_sim_core.Pcs.{encode_block, has_marker}

-- The block that holds seven bytes, most significant first, as a number.
abbrev pub block_of : ℕ → ℕ → ℕ → ℕ → ℕ → ℕ → ℕ → ℕ
block_of v0 v1 v2 v3 v4 v5 v6 =
    ((((((256 + v0) * 256 + v1) * 256 + v2) * 256 + v3) * 256 + v4) * 256 + v5) * 256 + v6

-- A field or-ed in below what is there.
pub or_below : (k w q acc r : ℕ) → w ≡ 2 ^ k → acc ≡ q * w → r < w → bit_or acc r ≡ q * w + r
or_below k w q acc r we ae h = rw (ae, we) (bit_or_fields k q r (rw (← we) h))

pub or_bytes :
    (v0 v1 v2 v3 v4 v5 v6 : ℕ)
    → v0 < 256
    → v1 < 256
    → v2 < 256
    → v3 < 256
    → v4 < 256
    → v5 < 256
    → v6 < 256
    → bit_or
        (bit_or
          (bit_or
            (bit_or
              (bit_or (bit_or (bit_or (2 ^ 56) (v0 * 2 ^ 48)) (v1 * 2 ^ 40)) (v2 * 2 ^ 32))
              (v3 * 2 ^ 24))
            (v4 * 2 ^ 16))
          (v5 * 2 ^ 8))
        (v6 * 2 ^ 0)
      ≡ block_of v0 v1 v2 v3 v4 v5 v6
or_bytes v0 v1 v2 v3 v4 v5 v6 h0 h1 h2 h3 h4 h5 h6 =
    let a0 : ℕ = bit_or (2 ^ 56) (v0 * 2 ^ 48) in
    let e0 = or_below 56 (2 ^ 56) 1 (2 ^ 56) (v0 * 2 ^ 48) refl refl (omega arith) in
    let q1 : ℕ = 256 + v0 in
    let a1 : ℕ = bit_or a0 (v1 * 2 ^ 40) in
    let e1 = or_below 48 (2 ^ 48) q1 a0 (v1 * 2 ^ 40) refl (omega (arith, e0)) (omega arith) in
    let q2 : ℕ = q1 * 256 + v1 in
    let a2 : ℕ = bit_or a1 (v2 * 2 ^ 32) in
    let e2 = or_below 40 (2 ^ 40) q2 a1 (v2 * 2 ^ 32) refl (omega (arith, e1)) (omega arith) in
    let q3 : ℕ = q2 * 256 + v2 in
    let a3 : ℕ = bit_or a2 (v3 * 2 ^ 24) in
    let e3 = or_below 32 (2 ^ 32) q3 a2 (v3 * 2 ^ 24) refl (omega (arith, e2)) (omega arith) in
    let q4 : ℕ = q3 * 256 + v3 in
    let a4 : ℕ = bit_or a3 (v4 * 2 ^ 16) in
    let e4 = or_below 24 (2 ^ 24) q4 a3 (v4 * 2 ^ 16) refl (omega (arith, e3)) (omega arith) in
    let q5 : ℕ = q4 * 256 + v4 in
    let a5 : ℕ = bit_or a4 (v5 * 2 ^ 8) in
    let e5 = or_below 16 (2 ^ 16) q5 a4 (v5 * 2 ^ 8) refl (omega (arith, e4)) (omega arith) in
    let q6 : ℕ = q5 * 256 + v5 in
    let e6 = or_below 8 (2 ^ 8) q6 a5 (v6 * 2 ^ 0) refl (omega (arith, e5)) (omega arith) in
    omega (arith, e6)

abbrev pub at : (ℕ → ℕ) → ℕ → ℕ → ℕ
at value i byte = value (i * 7 + byte)

pub encode_block_lem :
    (value : ℕ → ℕ) (i : ℕ)
    → ((k : ℕ) → value k < 256)
    → encode_block value i
      ≡ block_of
          (at value i 0)
          (at value i 1)
          (at value i 2)
          (at value i 3)
          (at value i 4)
          (at value i 5)
          (at value i 6)
unfolding encode_block
encode_block_lem value i octets =
    or_bytes _ _ _ _ _ _ _ (octets _) (octets _) (octets _) (octets _) (octets _) (octets _)
      (octets _)

-- The bytes that `unpack` takes from a block, in its order.
abbrev pub byte_at : ℕ → ℕ → ℕ
byte_at block byte = block / 2 ^ (byte * 8) % 256

module _ (v0 v1 v2 v3 v4 v5 v6 : ℕ) (h0 : v0 < 256) (h1 : v1 < 256) (h2 : v2 < 256) (h3 : v3 < 256)
    (h4 : v4 < 256) (h5 : v5 < 256) (h6 : v6 < 256) where
  abbrev the_block : ℕ
  the_block = block_of v0 v1 v2 v3 v4 v5 v6

  pub block_of-bytes :
      (byte_at the_block 6 ≡ v0)
      × (byte_at the_block 5 ≡ v1)
      × (byte_at the_block 4 ≡ v2)
      × (byte_at the_block 3 ≡ v3)
      × (byte_at the_block 2 ≡ v4)
      × (byte_at the_block 1 ≡ v5)
      × (byte_at the_block 0 ≡ v6)
  block_of-bytes =
      (omega arith, omega arith, omega arith, omega arith, omega arith, omega arith, omega arith)

  pub block_of-marker : has_marker the_block ≡ true
  unfolding has_marker
  block_of-marker = rw (marked) refl
    where
      marked : the_block / 2 ^ 56 ≡ 1
      marked = omega arith
