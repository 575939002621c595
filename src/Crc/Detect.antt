-- ===== src/Crc/Detect.antt =====
-- What the check sum detects. Each step of the loop is one-to-one on 32-bit words, since the top bit
-- of the polynomial tells afterwards which bit was shifted out.
use fpga_sim_core.Prelude.{
  ◌⊎◌, ℕ, zero, suc, ◌/◌, ◌%◌, ◌^◌, ◌≤◌, ◌<◌, ◌≡◌, ◌≢◌, ◌∙◌, refl, sym, ap, inl, inr, List, [], ◌∷◌,
  ◌++◌, arith, length, bit_xor,
}
use fpga_sim_core.Prelude.Bits.{
  bit_and-one, bit_xor-zero, bit_xor_comm, bit_xor_self, bit_xor-lt, bit_xor-top,
}
use fpga_sim_core.Crc.{polynomial, bit_step, bit_steps, byte_step, crc_loop, compute}

bit_xor_inj : (a b c : ℕ) → bit_xor a c ≡ bit_xor b c → a ≡ b
bit_xor_inj a b c e = sym (bit_xor_self a c) ∙ ap (λ x. bit_xor x c) e ∙ bit_xor_self b c

-- The mask selects the polynomial or nothing by the low bit.
mask-even : (crc : ℕ) → crc % 2 ≡ 0 → bit_step crc ≡ crc / 2
unfolding bit_step
mask-even crc e = rw (bit_and-one crc, e) (bit_xor-zero (crc / 2))

mask-odd : (crc : ℕ) → crc % 2 ≡ 1 → bit_step crc ≡ bit_xor (crc / 2) polynomial
unfolding bit_step
mask-odd crc e = rw (bit_and-one crc, e) refl

odd_or_even : (crc : ℕ) → (crc % 2 ≡ 0) ⊎ (crc % 2 ≡ 1)
odd_or_even crc = omega arith

bit_step-lt : (crc : ℕ) → crc < 2 ^ 32 → bit_step crc < 2 ^ 32
bit_step-lt crc h = elim (odd_or_even crc) [
  | inl e ↦ rw (mask-even crc e) (omega arith)
  | inr o ↦ rw (mask-odd crc o) (bit_xor-lt 32 (crc / 2) polynomial (omega arith) (omega arith))
]

-- A word shifted out of an odd one keeps the polynomial's top bit, and any other has none.
bit_step-top : (crc : ℕ) → crc < 2 ^ 32 → crc % 2 ≡ 1 → 2 ^ 31 ≤ bit_step crc
bit_step-top crc h o =
    rw (mask-odd crc o) (bit_xor-top 31 (crc / 2) polynomial (omega arith) (omega arith))

bit_step_inj : (a b : ℕ) → a < 2 ^ 32 → b < 2 ^ 32 → bit_step a ≡ bit_step b → a ≡ b
bit_step_inj a b ha hb e = elim (odd_or_even a) [
  | inl even_a ↦ elim (odd_or_even b) [
    | inl even_b ↦ omega (arith, mask-even a even_a, mask-even b even_b)
    | inr odd_b ↦ absurd (omega (arith, mask-even a even_a, bit_step-top b hb odd_b))
  ]
  | inr odd_a ↦ elim (odd_or_even b) [
    | inl even_b ↦ absurd (omega (arith, mask-even b even_b, bit_step-top a ha odd_a))
    | inr odd_b ↦ omega (
      arith,
      bit_xor_inj (a / 2) (b / 2) polynomial (sym (mask-odd a odd_a) ∙ e ∙ mask-odd b odd_b),
    )
  ]
]

bit_steps-lt : (rounds crc : ℕ) → crc < 2 ^ 32 → bit_steps rounds crc < 2 ^ 32
unfolding bit_steps
bit_steps-lt zero crc h = h
bit_steps-lt (suc rounds) crc h = bit_steps-lt rounds (bit_step crc) (bit_step-lt crc h)

bit_steps_inj :
    (rounds a b : ℕ) → a < 2 ^ 32 → b < 2 ^ 32 → bit_steps rounds a ≡ bit_steps rounds b → a ≡ b
unfolding bit_steps
bit_steps_inj zero a b ha hb e = e
bit_steps_inj (suc rounds) a b ha hb e =
    bit_step_inj a b ha hb
      (bit_steps_inj rounds (bit_step a) (bit_step b) (bit_step-lt a ha) (bit_step-lt b hb) e)

module _ (crc byte : ℕ) (word : crc < 2 ^ 32) (octet : byte < 256) where
  mixed-lt : bit_xor crc byte < 2 ^ 32
  mixed-lt = bit_xor-lt 32 crc byte word (omega arith)

  pub byte_step-lt : byte_step crc byte < 2 ^ 32
  unfolding byte_step
  byte_step-lt = bit_steps-lt 8 (bit_xor crc byte) mixed-lt

byte_step_inj_crc :
    (a b byte : ℕ)
    → a < 2 ^ 32
    → b < 2 ^ 32
    → byte < 256
    → byte_step a byte ≡ byte_step b byte
    → a ≡ b
unfolding byte_step
byte_step_inj_crc a b byte ha hb h e =
    bit_xor_inj a b byte (bit_steps_inj 8 _ _ (mixed-lt a byte ha h) (mixed-lt b byte hb h) e)

byte_step_inj_byte :
    (crc x y : ℕ) → crc < 2 ^ 32 → x < 256 → y < 256 → byte_step crc x ≡ byte_step crc y → x ≡ y
unfolding byte_step
byte_step_inj_byte crc x y h hx hy e = bit_xor_inj x y crc (
    bit_xor_comm x crc
    ∙ bit_steps_inj 8 _ _ (mixed-lt crc x h hx) (mixed-lt crc y h hy) e
    ∙ bit_xor_comm crc y)

-- A list of bytes.
abbrev pub AllBytes : List ℕ → Type 0
AllBytes [] = Unit {0}
AllBytes (b ∷ bs) = (b < 256) × AllBytes bs

pub AllBytes-append :
    (before after : List ℕ) → AllBytes before → AllBytes after → AllBytes (before ++ after)
AllBytes-append [] after ob oa = oa
AllBytes-append (b ∷ bs) after ob oa = (ob.0, AllBytes-append bs after ob.1 oa)

crc_loop-lt :
    (bytes : List ℕ) (n crc : ℕ) → AllBytes bytes → crc < 2 ^ 32 → crc_loop bytes n crc < 2 ^ 32
unfolding crc_loop
crc_loop-lt [] zero crc o h = h
crc_loop-lt (b ∷ bs) zero crc o h = h
crc_loop-lt [] (suc n) crc o h = h
crc_loop-lt (b ∷ bs) (suc n) crc o h =
    crc_loop-lt bs n (byte_step crc b) o.1 (byte_step-lt crc b h o.0)

-- The check sum of bytes is a 32-bit word.
pub compute-lt : (bytes : List ℕ) (n : ℕ) → compute bytes n < 2 ^ 32
unfolding compute
compute-lt bytes n = omega arith

crc_loop_inj :
    (bytes : List ℕ) (n a b : ℕ)
    → AllBytes bytes
    → a < 2 ^ 32
    → b < 2 ^ 32
    → crc_loop bytes n a ≡ crc_loop bytes n b
    → a ≡ b
unfolding crc_loop
crc_loop_inj [] zero a b o ha hb e = e
crc_loop_inj (c ∷ cs) zero a b o ha hb e = e
crc_loop_inj [] (suc n) a b o ha hb e = e
crc_loop_inj (c ∷ cs) (suc n) a b o ha hb e =
    byte_step_inj_crc a b c ha hb o.0
      (crc_loop_inj cs n _ _ o.1 (byte_step-lt a c ha o.0) (byte_step-lt b c hb o.0) e)

crc_loop_detects :
    (before after : List ℕ) (x y n crc : ℕ)
    → AllBytes before
    → AllBytes after
    → x < 256
    → y < 256
    → length before < n
    → crc < 2 ^ 32
    → crc_loop (before ++ x ∷ after) n crc ≡ crc_loop (before ++ y ∷ after) n crc
    → x ≡ y
unfolding crc_loop
crc_loop_detects [] after x y zero crc ob oa hx hy l h e = absurd (omega arith)
crc_loop_detects [] after x y (suc n) crc ob oa hx hy l h e =
    byte_step_inj_byte crc x y h hx hy
      (crc_loop_inj after n _ _ oa (byte_step-lt crc x h hx) (byte_step-lt crc y h hy) e)
crc_loop_detects (b ∷ bs) after x y zero crc ob oa hx hy l h e = absurd (omega arith)
crc_loop_detects (b ∷ bs) after x y (suc n) crc ob oa hx hy l h e =
    crc_loop_detects bs after x y n (byte_step crc b) ob.1 oa hx hy (omega arith)
      (byte_step-lt crc b h ob.0) e

-- A change of one byte among the `n` covered bytes always changes the check sum.
pub compute_detects :
    (before after : List ℕ) (x y n : ℕ)
    → AllBytes before
    → AllBytes after
    → x < 256
    → y < 256
    → length before < n
    → x ≢ y
    → compute (before ++ x ∷ after) n ≢ compute (before ++ y ∷ after) n
unfolding compute
compute_detects before after x y n ob oa hx hy l ne e = ne (
    crc_loop_detects before after x y n 0xFFFFFFFF ob oa hx hy l (omega arith) (
      omega (
        arith,
        crc_loop-lt (before ++ x ∷ after) n 0xFFFFFFFF
            (AllBytes-append before (x ∷ after) ob (hx, oa)),
        crc_loop-lt (before ++ y ∷ after) n 0xFFFFFFFF
            (AllBytes-append before (y ∷ after) ob (hy, oa)),
      )))
