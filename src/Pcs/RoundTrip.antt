-- ===== src/Pcs/RoundTrip.antt =====
-- What `encode` sends, `decode` receives.
use fpga_sim_core.Prelude.{
  ℕ, zero, suc, ◌+◌, ◌-◌, ◌*◌, ◌/◌, ◌%◌, ◌^◌, ◌≤◌, ◌<◌, ◌≡◌, ◌∙◌, refl, sym, ap, ap₂, true, false,
  some, List, [], ◌∷◌, arith, length, get_or, take, ltb, leb, le→leb, ==_iff, ◌==◌, bit_or,
}
use mathlib.Core.Option
use fpga_sim_core.Crc.{compute, crc_loop}
use fpga_sim_core.Crc.Detect.{AllBytes, compute-lt}
use fpga_sim_core.Pcs.{
  stream_byte, block_count, encode_loop, encode_into, encode, decode_loop, expected_crc, check,
  decode_into, decode,
}
use fpga_sim_core.Pcs.Block.{or_below}
use fpga_sim_core.Pcs.Stream.{
  seven, block_values, write_all, decode_loop-write_all, encode_loop-block, length-write_all,
  write_all-written, write_all-byte,
}

length-block_values :
    (value : ℕ → ℕ) (i rounds : ℕ) → length (block_values value i rounds) ≡ rounds * 7
unfolding block_values seven
length-block_values value i zero = refl
length-block_values value i (suc rounds) = omega (arith, length-block_values value (i + 1) rounds)

block_values-at :
    (value : ℕ → ℕ) (i rounds k : ℕ)
    → k < rounds * 7
    → get_or (block_values value i rounds) k 0 ≡ value (i * 7 + k)
unfolding block_values seven
block_values-at value i zero k h = absurd (omega arith)
block_values-at value i (suc rounds) zero h = refl
block_values-at value i (suc rounds) (suc zero) h = refl
block_values-at value i (suc rounds) (suc (suc zero)) h = refl
block_values-at value i (suc rounds) (suc (suc (suc zero))) h = refl
block_values-at value i (suc rounds) (suc (suc (suc (suc zero)))) h = refl
block_values-at value i (suc rounds) (suc (suc (suc (suc (suc zero))))) h = refl
block_values-at value i (suc rounds) (suc (suc (suc (suc (suc (suc zero)))))) h = refl
block_values-at value i (suc rounds) (suc (suc (suc (suc (suc (suc (suc k))))))) h =
    block_values-at value (i + 1) rounds k (omega arith) ∙ ap value (omega arith)

pub get_or-AllBytes : (xs : List ℕ) (k : ℕ) → AllBytes xs → get_or xs k 0 < 256
get_or-AllBytes [] k o = omega arith
get_or-AllBytes (x ∷ xs) zero o = o.0
get_or-AllBytes (x ∷ xs) (suc k) o = get_or-AllBytes xs k o.1

stream_byte-lt :
    (payload : List ℕ) (n crc k : ℕ) → AllBytes payload → stream_byte payload n crc k < 256
unfolding stream_byte
stream_byte-lt payload n crc k o = ground (arith, get_or-AllBytes payload k o)

-- The check sum reads only the bytes that it covers.
crc_loop-cong :
    (xs ys : List ℕ) (n crc : ℕ)
    → n ≤ length xs
    → n ≤ length ys
    → ((k : ℕ) → k < n → get_or xs k 0 ≡ get_or ys k 0)
    → crc_loop xs n crc ≡ crc_loop ys n crc
unfolding crc_loop
crc_loop-cong [] [] n crc hx hy e = refl
crc_loop-cong [] (y ∷ ys) zero crc hx hy e = refl
crc_loop-cong [] (y ∷ ys) (suc n) crc hx hy e = absurd (omega arith)
crc_loop-cong (x ∷ xs) [] zero crc hx hy e = refl
crc_loop-cong (x ∷ xs) [] (suc n) crc hx hy e = absurd (omega arith)
crc_loop-cong (x ∷ xs) (y ∷ ys) zero crc hx hy e = refl
crc_loop-cong (x ∷ xs) (y ∷ ys) (suc n) crc hx hy e =
    rw (e 0 (omega arith))
      (crc_loop-cong xs ys n _ (omega arith) (omega arith) (λ k h. e (suc k) (omega arith)))

take-cong :
    (xs ys : List ℕ) (n : ℕ)
    → n ≤ length xs
    → n ≤ length ys
    → ((k : ℕ) → k < n → get_or xs k 0 ≡ get_or ys k 0)
    → take n xs ≡ take n ys
take-cong xs ys zero hx hy e = refl
take-cong [] ys (suc n) hx hy e = absurd (omega arith)
take-cong (x ∷ xs) [] (suc n) hx hy e = absurd (omega arith)
take-cong (x ∷ xs) (y ∷ ys) (suc n) hx hy e =
    ap₂ ◌∷◌ (e 0 (omega arith))
      (take-cong xs ys n (omega arith) (omega arith) (λ k h. e (suc k) (omega arith)))

-- Four bytes, most significant first, are the word that they were taken from.
pub or_word :
    (crc : ℕ)
    → crc < 2 ^ 32
    → bit_or
        (bit_or
          (bit_or (crc / 2 ^ 24 % 256 * 2 ^ 24) (crc / 2 ^ 16 % 256 * 2 ^ 16))
          (crc / 2 ^ 8 % 256 * 2 ^ 8))
        (crc % 256)
      ≡ crc
or_word crc h =
    let a0 : ℕ = crc / 2 ^ 24 % 256 * 2 ^ 24 in
    let r1 : ℕ = crc / 2 ^ 16 % 256 * 2 ^ 16 in
    let e1 = or_below 24 (2 ^ 24) (crc / 2 ^ 24) a0 r1 refl (omega arith) (omega arith) in
    let a1 : ℕ = bit_or a0 r1 in
    let r2 : ℕ = crc / 2 ^ 8 % 256 * 2 ^ 8 in
    let e2 = or_below 16 (2 ^ 16) (crc / 2 ^ 16) a1 r2 refl (omega (arith, e1)) (omega arith) in
    let a2 : ℕ = bit_or a1 r2 in
    let e3 =
      or_below 8 (2 ^ 8) (crc / 2 ^ 8) a2 (crc % 256) refl (omega (arith, e2)) (omega arith) in
    omega (arith, e3)

-- The word in `expected_crc`, and the four places of the stream that hold the check sum.
abbrev word_of : ℕ → ℕ → ℕ → ℕ → ℕ
word_of b0 b1 b2 b3 = bit_or (bit_or (bit_or (b0 * 2 ^ 24) (b1 * 2 ^ 16)) (b2 * 2 ^ 8)) b3

word_of-cong :
    {b0 b1 b2 b3 c0 c1 c2 c3 : ℕ}
    → b0 ≡ c0
    → b1 ≡ c1
    → b2 ≡ c2
    → b3 ≡ c3
    → word_of b0 b1 b2 b3 ≡ word_of c0 c1 c2 c3
word_of-cong e0 e1 e2 e3 = rw (e0, e1, e2, e3)

stream_byte-crc :
    (payload : List ℕ) (n c : ℕ)
    → (stream_byte payload n c n ≡ c / 2 ^ 24 % 256)
      × (stream_byte payload n c (n + 1) ≡ c / 2 ^ 16 % 256)
      × (stream_byte payload n c (n + 2) ≡ c / 2 ^ 8 % 256)
      × (stream_byte payload n c (n + 3) ≡ c % 256)
unfolding stream_byte
stream_byte-crc payload n c = (ground arith, ground arith, ground arith, ground arith)

-- A payload of `n` bytes, sent through blocks that have room for it into a buffer with room for it
-- and its check sum.
module _ (payload blocks buffer : List ℕ) (n block_capacity capacity : ℕ)
    (octets : AllBytes payload) (some_bytes : 0 < n) (covered : n ≤ length payload)
    (room : n + 4 ≤ capacity) (buffer_size : length buffer ≡ capacity) (small : capacity < 2 ^ 63)
    (blocks_size : length blocks ≡ block_capacity) (enough : block_count n ≤ block_capacity) where
  abbrev crc : ℕ
  crc = compute payload n

  abbrev value : ℕ → ℕ
  value = stream_byte payload n crc

  abbrev sent : List ℕ
  sent = encode_loop value 0 (block_count n) blocks

  abbrev received : List ℕ
  received = (decode_loop sent capacity 0 (block_count n) buffer 0).0

  block_count_bounds : (n + 4 ≤ block_count n * 7) × (0 < block_count n)
  unfolding block_count
  block_count_bounds = (omega arith, omega arith)

  decoded :
      decode_loop sent capacity 0 (block_count n) buffer 0
      ≡ write_all capacity (block_values value 0 (block_count n)) buffer 0
  decoded =
      decode_loop-write_all value (λ k. stream_byte-lt payload n crc k octets) sent capacity 0
        (block_count n) buffer 0
        (λ k h. encode_loop-block value 0 (block_count n) k blocks (omega arith) h (omega arith))

  received-byte : (k : ℕ) → k < n + 4 → get_or received k 0 ≡ value k
  received-byte k h =
      ap (λ out. get_or out.0 k 0) decoded
      ∙ ap (λ j. get_or (write_all capacity (block_values value 0 (block_count n)) buffer 0).0 j 0)
          (omega arith)
      ∙ write_all-byte capacity (block_values value 0 (block_count n)) buffer 0 k
          (omega (arith, length-block_values value 0 (block_count n), block_count_bounds))
          (omega arith) (omega arith)
      ∙ block_values-at value 0 (block_count n) k (omega (arith, block_count_bounds))
      ∙ ap value (omega arith)

  length-received : length received ≡ capacity
  length-received =
      ap (λ out. length out.0) decoded
      ∙ length-write_all capacity (block_values value 0 (block_count n)) buffer 0
      ∙ buffer_size

  written_enough : n + 4 ≤ (decode_loop sent capacity 0 (block_count n) buffer 0).1
  written_enough = omega (
    arith,
    ap (λ out. out.1) decoded,
    write_all-written capacity (block_values value 0 (block_count n)) buffer 0 (omega arith),
    length-block_values value 0 (block_count n),
    block_count_bounds,
  )

  received-payload : (k : ℕ) → k < n → get_or received k 0 ≡ get_or payload k 0
  unfolding stream_byte
  received-payload k h =
      let below : ltb k n ≡ true = ground arith in received-byte k (omega arith) ∙ rw below

  received-crc : compute received n ≡ crc
  unfolding compute
  received-crc =
      ap (λ c. 2 ^ 32 - 1 - c)
        (crc_loop-cong received payload n 0xFFFFFFFF (omega (arith, length-received)) covered
          received-payload)

  received-expected : expected_crc received n ≡ crc
  unfolding expected_crc
  received-expected =
      let (s0, s1, s2, s3) = stream_byte-crc payload n crc in
      word_of-cong (received-byte n (omega arith) ∙ s0) (received-byte (n + 1) (omega arith) ∙ s1)
        (received-byte (n + 2) (omega arith) ∙ s2) (received-byte (n + 3) (omega arith) ∙ s3)
      ∙ or_word crc (compute-lt payload n)

  checked :
      check received (decode_loop sent capacity 0 (block_count n) buffer 0).1 capacity n
      ≡ record { block_lock = true; crc_valid = true; payload_length = n }
  unfolding check
  checked =
      let given : (n == 0) ≡ false = ground arith in
      let fits : leb ((n + 4) % 2 ^ 64) (decode_loop sent capacity 0 (block_count n) buffer 0).1
          ≡ true =
        le→leb _ _ (omega (arith, written_enough)) in
      let inside : leb n capacity ≡ true = le→leb _ _ (omega arith) in
      let same : (compute received n == expected_crc received n) ≡ true =
        (==_iff _ _).1 (received-crc ∙ sym received-expected) in
      simp (given, fits, inside, same)

  -- Decoding what `encode` sent, with the payload's length `n` as the length to expect, locks, finds the
  -- check sum valid and reports that length, and the buffer begins with the payload. The payload is
  -- of at least one byte, all below 256, the buffer has room for it and the four bytes of the check sum, fewer
  -- than 2 ^ 63 bytes in all, and there are as many blocks as the payload needs.
  pub decode-encode :
      let (count, sent_blocks) = encode (some payload) n (some blocks) block_capacity in
      let (result, buffer') = decode sent_blocks count (some buffer) capacity n in
      (result ≡ record { block_lock = true; crc_valid = true; payload_length = n })
      × (Option.map (take n) buffer' ≡ some (take n payload))
  unfolding encode encode_into decode decode_into
  decode-encode =
      let any_room : (block_capacity == 0) ≡ false = ground (arith, block_count_bounds) in
      let all_fit : ltb block_capacity (block_count n) ≡ false = ground arith in
      let sends : (block_count n == 0) ≡ false = ground (arith, block_count_bounds) in
      simp (any_room, all_fit, sends)
        (
          checked,
          ap some (
              take-cong received payload n (omega (arith, length-received)) covered
                received-payload),
        )
