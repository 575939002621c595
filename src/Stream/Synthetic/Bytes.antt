-- ===== src/Stream/Synthetic/Bytes.antt =====
-- The bytes that the writers of the synthetic stream leave, inside and outside of what they write, and
-- the words that the readers of the parser get back.
use fpga_sim_core.Prelude.{
  ℕ, zero, suc, ◌+◌, ◌*◌, ◌/◌, ◌%◌, ◌^◌, ◌≤◌, ◌<◌, ◌≡◌, ◌∙◌, refl, ap, inl, List, arith, length,
  length-set, get_or-set_self, get_or-set_ne, set, IsOutside, dec_lt,
}
use fpga_sim_core.Itch.{byte, u64be, u32be}
use fpga_sim_core.Itch.Words.{u64be_lem, u32be_lem}
use fpga_sim_core.Stream.Synthetic.{put_bytes, put_u32, put_u64}

pub length-put_bytes : (p : List ℕ) (at v n : ℕ) → length (put_bytes p at v n) ≡ length p
unfolding put_bytes
length-put_bytes p at v zero = refl
length-put_bytes p at v (suc n) =
    length-put_bytes (set p at (v / 2 ^ (n * 8) % 256)) (at + 1) v n ∙ length-set p at _

pub byte-put_other :
    (p : List ℕ) (at v n i : ℕ) → IsOutside at n i → byte (put_bytes p at v n) i ≡ byte p i
unfolding put_bytes
byte-put_other p at v zero i out = refl
byte-put_other p at v (suc n) i out =
    byte-put_other (set p at (v / 2 ^ (n * 8) % 256)) (at + 1) v n i (ground arith)
    ∙ get_or-set_ne p _ 0 (ground arith)

-- The byte at place `i` of a word, `k` bytes before its end.
pub byte-put :
    (p : List ℕ) (at v n i k : ℕ)
    → at + n ≤ length p
    → at ≤ i
    → i + k + 1 ≡ at + n
    → byte (put_bytes p at v n) i ≡ v / 2 ^ (k * 8) % 256
unfolding put_bytes
byte-put p at v zero i k room h e = absurd (omega arith)
byte-put p at v (suc n) i k room h e = elim (dec_lt at i) [
  | yes later ↦
      byte-put (set p at (v / 2 ^ (n * 8) % 256)) (at + 1) v n i k
        (omega (arith, length-set p at (v / 2 ^ (n * 8) % 256))) (omega arith) (omega arith)
  | no first ↦
      let same : i ≡ at = omega arith in
      let last : n ≡ k = omega arith in
      byte-put_other (set p at (v / 2 ^ (n * 8) % 256)) (at + 1) v n i (inl (omega arith))
      ∙ ap (λ j. byte (set p at (v / 2 ^ (n * 8) % 256)) j) same
      ∙ get_or-set_self p at _ 0 (omega arith)
      ∙ ap (λ r. v / 2 ^ (r * 8) % 256) last
]

-- A word that is written is read back.
pub u64be-put :
    (p : List ℕ) (at v : ℕ) → at + 8 ≤ length p → v < 2 ^ 64 → u64be (put_u64 p at v) at ≡ v
unfolding put_u64
u64be-put p at v room h =
    let written : (i k : ℕ)
        → at ≤ i
        → i + k + 1 ≡ at + 8
        → byte (put_bytes p at v 8) i ≡ v / 2 ^ (k * 8) % 256 =
      λ i k le e. byte-put p at v 8 i k room le e in
    u64be_lem v (put_bytes p at v 8) at h (written at 7 (omega arith) (omega arith))
      (written (at + 1) 6 (omega arith) (omega arith))
      (written (at + 1 + 1) 5 (omega arith) (omega arith))
      (written (at + 1 + 1 + 1) 4 (omega arith) (omega arith))
      (written (at + 1 + 1 + 1 + 1) 3 (omega arith) (omega arith))
      (written (at + 1 + 1 + 1 + 1 + 1) 2 (omega arith) (omega arith))
      (written (at + 1 + 1 + 1 + 1 + 1 + 1) 1 (omega arith) (omega arith))
      (written (at + 1 + 1 + 1 + 1 + 1 + 1 + 1) 0 (omega arith) (omega arith) ∙ omega arith)

pub u32be-put :
    (p : List ℕ) (at v : ℕ) → at + 4 ≤ length p → v < 2 ^ 32 → u32be (put_u32 p at v) at ≡ v
unfolding put_u32
u32be-put p at v room h =
    let written : (i k : ℕ)
        → at ≤ i
        → i + k + 1 ≡ at + 4
        → byte (put_bytes p at v 4) i ≡ v / 2 ^ (k * 8) % 256 =
      λ i k le e. byte-put p at v 4 i k room le e in
    u32be_lem v (put_bytes p at v 4) at h (written at 3 (omega arith) (omega arith))
      (written (at + 1) 2 (omega arith) (omega arith))
      (written (at + 2) 1 (omega arith) (omega arith))
      (written (at + 3) 0 (omega arith) (omega arith) ∙ omega arith)

-- A word depends on its own bytes only.
module _ (p p' : List ℕ) (at : ℕ) where
  pub u64be_frame :
      ((i : ℕ) → at ≤ i → i < at + 8 → byte p i ≡ byte p' i) → u64be p at ≡ u64be p' at
  unfolding u64be
  u64be_frame same = rw (
    same at (omega arith) (omega arith),
    same (at + 1) (omega arith) (omega arith),
    same (at + 1 + 1) (omega arith) (omega arith),
    same (at + 1 + 1 + 1) (omega arith) (omega arith),
    same (at + 1 + 1 + 1 + 1) (omega arith) (omega arith),
    same (at + 1 + 1 + 1 + 1 + 1) (omega arith) (omega arith),
    same (at + 1 + 1 + 1 + 1 + 1 + 1) (omega arith) (omega arith),
    same (at + 1 + 1 + 1 + 1 + 1 + 1 + 1) (omega arith) (omega arith),
  )

  pub u32be_frame :
      ((i : ℕ) → at ≤ i → i < at + 4 → byte p i ≡ byte p' i) → u32be p at ≡ u32be p' at
  unfolding u32be
  u32be_frame same = rw (
    same at (omega arith) (omega arith),
    same (at + 1) (omega arith) (omega arith),
    same (at + 2) (omega arith) (omega arith),
    same (at + 3) (omega arith) (omega arith),
  )
