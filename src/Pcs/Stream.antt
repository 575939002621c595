-- ===== src/Pcs/Stream.antt =====
-- `decode` as a plain sequential write of the bytes that the blocks hold.
use fpga_sim_core.Prelude.{
  ℕ, zero, suc, ◌+◌, ◌≤◌, ◌<◌, min, ◌≡◌, ◌∙◌, refl, sym, ap, inl, inr, true, false, List, [], ◌∷◌,
  ◌++◌, arith, length, get_or, set, length-set, get_or-set_self, get_or-set_ne, ltb, if◌then◌else◌,
  Bool-cases, ℕ_discrete,
}
use fpga_sim_core.Pcs.{unpack, encode_block, encode_loop, decode_loop, has_marker}
use fpga_sim_core.Pcs.Block.{byte_at, at, encode_block_lem, block_of-bytes, block_of-marker}

-- `payload[written++] = x` for each of `xs` while there is room.
unfoldable pub write_all : ℕ → List ℕ → List ℕ → ℕ → List ℕ × ℕ
write_all capacity [] payload written = (payload, written)
write_all capacity (x ∷ xs) payload written =
    if ltb written capacity
    then write_all capacity xs (set payload written x) (written + 1)
    else (payload, written)

write_all-full :
    (capacity : ℕ) (xs payload : List ℕ) (written : ℕ)
    → ltb written capacity ≡ false
    → write_all capacity xs payload written ≡ (payload, written)
unfolding write_all
write_all-full capacity [] payload written e = refl
write_all-full capacity (x ∷ xs) payload written e = rw e

write_all-nil :
    (capacity : ℕ) (payload : List ℕ) (written : ℕ)
    → write_all capacity [] payload written ≡ (payload, written)
unfolding write_all
write_all-nil capacity payload written = refl

write_all-append :
    (capacity : ℕ) (xs ys payload : List ℕ) (written : ℕ)
    → write_all capacity (xs ++ ys) payload written
      ≡ write_all capacity ys
          (write_all capacity xs payload written).0
          (write_all capacity xs payload written).1
unfolding write_all
write_all-append capacity [] ys payload written = refl
write_all-append capacity (x ∷ xs) ys payload written = elim (Bool-cases (ltb written capacity)) [
  | inl room ↦ rw room (write_all-append capacity xs ys (set payload written x) (written + 1))
  | inr full ↦ rw full (sym (write_all-full capacity ys payload written full))
]

unpack-write_all :
    (capacity block : ℕ) (payload : List ℕ) (written : ℕ)
    → unpack capacity block 7 payload written
      ≡ write_all capacity
          (byte_at block 6
            ∷ byte_at block 5
            ∷ byte_at block 4
            ∷ byte_at block 3
            ∷ byte_at block 2
            ∷ byte_at block 1
            ∷ byte_at block 0
            ∷ [])
          payload
          written
unfolding unpack write_all
unpack-write_all capacity block payload written = refl

-- The stream from block `i` on, `rounds` blocks of it.
unfoldable pub seven : (ℕ → ℕ) → ℕ → List ℕ
seven value i =
    at value i 0
    ∷ at value i 1
    ∷ at value i 2
    ∷ at value i 3
    ∷ at value i 4
    ∷ at value i 5
    ∷ at value i 6
    ∷ []

unfoldable pub block_values : (ℕ → ℕ) → ℕ → ℕ → List ℕ
block_values value i zero = []
block_values value i (suc rounds) = seven value i ++ block_values value (i + 1) rounds

module _ (value : ℕ → ℕ) (octets : (k : ℕ) → value k < 256) where
  unpack-seven :
      (capacity i : ℕ) (payload : List ℕ) (written : ℕ)
      → unpack capacity (encode_block value i) 7 payload written
        ≡ write_all capacity (seven value i) payload written
  unfolding seven
  unpack-seven capacity i payload written =
      let (b6, b5, b4, b3, b2, b1, b0) =
        block_of-bytes (at value i 0) (at value i 1) (at value i 2) (at value i 3) (at value i 4)
          (at value i 5) (at value i 6) (octets _) (octets _) (octets _) (octets _) (octets _)
          (octets _) (octets _) in
      rw (unpack-write_all, encode_block_lem value i octets, b6, b5, b4, b3, b2, b1, b0)

  marker-encode_block : (i : ℕ) → has_marker (encode_block value i) ≡ true
  marker-encode_block i = rw (encode_block_lem value i octets) (
      block_of-marker _ _ _ _ _ _ _ (octets _) (octets _) (octets _) (octets _) (octets _)
        (octets _) (octets _))

  -- Blocks that are those of `encode` are decoded to the stream, as far as the buffer has room.
  pub decode_loop-write_all :
      (blocks : List ℕ) (capacity i rounds : ℕ) (payload : List ℕ) (written : ℕ)
      → ((k : ℕ) → k < i + rounds → get_or blocks k 0 ≡ encode_block value k)
      → decode_loop blocks capacity i rounds payload written
        ≡ write_all capacity (block_values value i rounds) payload written
  unfolding decode_loop block_values
  decode_loop-write_all blocks capacity i zero payload written h =
      sym (write_all-nil capacity payload written)
  decode_loop-write_all blocks capacity i (suc rounds) payload written h =
      elim (Bool-cases (ltb written capacity)) [
        | inl room ↦
            rw
              (
                room,
                h i (omega arith),
                marker-encode_block i,
                unpack-seven capacity i payload written,
              )
              (decode_loop-write_all blocks capacity (i + 1) rounds _ _ (λ k hk. h k (omega arith))
                ∙ sym (
                    write_all-append capacity (seven value i) (block_values value (i + 1) rounds)
                      payload written))
        | inr full ↦
            rw full (
              sym
                (write_all-full capacity (block_values value i (suc rounds)) payload written full))
      ]

-- The blocks that `encode` leaves in its buffer.
module _ (value : ℕ → ℕ) where
  length-encode_loop :
      (i rounds : ℕ) (blocks : List ℕ) → length (encode_loop value i rounds blocks) ≡ length blocks
  unfolding encode_loop
  length-encode_loop i zero blocks = refl
  length-encode_loop i (suc rounds) blocks =
      length-encode_loop (i + 1) rounds _ ∙ length-set blocks i (encode_block value i)

  encode_loop-below :
      (i rounds k : ℕ) (blocks : List ℕ)
      → k < i
      → get_or (encode_loop value i rounds blocks) k 0 ≡ get_or blocks k 0
  unfolding encode_loop
  encode_loop-below i zero k blocks h = refl
  encode_loop-below i (suc rounds) k blocks h =
      encode_loop-below (i + 1) rounds k _ (omega arith)
      ∙ get_or-set_ne blocks (encode_block value i) 0 (omega arith)

  pub encode_loop-block :
      (i rounds k : ℕ) (blocks : List ℕ)
      → i ≤ k
      → k < i + rounds
      → i + rounds ≤ length blocks
      → get_or (encode_loop value i rounds blocks) k 0 ≡ encode_block value k
  unfolding encode_loop
  encode_loop-block i zero k blocks l h fits = absurd (omega arith)
  encode_loop-block i (suc rounds) k blocks l h fits = elim (ℕ_discrete i k) [
    | yes e ↦ rw (← e) (
        encode_loop-below (i + 1) rounds i _ (omega arith)
        ∙ get_or-set_self blocks i (encode_block value i) 0 (omega arith))
    | no ne ↦
        encode_loop-block (i + 1) rounds k _ (omega arith) (omega arith)
          (omega (arith, length-set blocks i (encode_block value i)))
  ]

-- What a sequential write leaves.
module _ (capacity : ℕ) where
  pub length-write_all :
      (xs payload : List ℕ) (written : ℕ)
      → length (write_all capacity xs payload written).0 ≡ length payload
  unfolding write_all
  length-write_all [] payload written = refl
  length-write_all (x ∷ xs) payload written = elim (Bool-cases (ltb written capacity)) [
    | inl room ↦ rw room (length-write_all xs _ _ ∙ length-set payload written x)
    | inr full ↦ rw full
  ]

  pub write_all-written :
      (xs payload : List ℕ) (written : ℕ)
      → written ≤ capacity
      → (write_all capacity xs payload written).1 ≡ min capacity (written + length xs)
  unfolding write_all
  write_all-written [] payload written h = omega arith
  write_all-written (x ∷ xs) payload written h = elim (Bool-cases (ltb written capacity)) [
    | inl room ↦
        rw room
          (omega (arith, write_all-written xs (set payload written x) (written + 1) (ground arith)))
    | inr full ↦ rw full (ground arith)
  ]

  write_all-below :
      (xs payload : List ℕ) (written k : ℕ)
      → k < written
      → get_or (write_all capacity xs payload written).0 k 0 ≡ get_or payload k 0
  unfolding write_all
  write_all-below [] payload written k h = refl
  write_all-below (x ∷ xs) payload written k h = elim (Bool-cases (ltb written capacity)) [
    | inl room ↦
        rw room (write_all-below xs _ _ k (omega arith) ∙ get_or-set_ne payload x 0 (omega arith))
    | inr full ↦ rw full
  ]

  -- Each byte for which there was room stands behind the `written` first ones.
  pub write_all-byte :
      (xs payload : List ℕ) (written k : ℕ)
      → k < length xs
      → written + k < capacity
      → capacity ≤ length payload
      → get_or (write_all capacity xs payload written).0 (written + k) 0 ≡ get_or xs k 0
  unfolding write_all
  write_all-byte [] payload written k h l fits = absurd (omega arith)
  write_all-byte (x ∷ xs) payload written zero h l fits =
      let room : ltb written capacity ≡ true = ground arith in
      let here : written + 0 ≡ written = omega arith in
      rw (room, here)
        (write_all-below xs _ _ written (omega arith)
          ∙ get_or-set_self payload written x 0 (omega arith))
  write_all-byte (x ∷ xs) payload written (suc k) h l fits =
      let room : ltb written capacity ≡ true = ground arith in
      rw room (
        ap (λ j. get_or (write_all capacity xs (set payload written x) (written + 1)).0 j 0)
          (omega arith)
        ∙ write_all-byte xs (set payload written x) (written + 1) k (omega arith) (omega arith)
            (omega (arith, length-set payload written x)))
