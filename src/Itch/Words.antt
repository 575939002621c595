-- ===== src/Itch/Words.antt =====
-- The big-endian readers as plain numbers.
use fpga_sim_core.Prelude.{ℕ, ◌+◌, ◌*◌, ◌/◌, ◌%◌, ◌^◌, ◌<◌, ◌≡◌, ◌∙◌, refl, arith, bit_or, List}
use fpga_sim_core.Pcs.Block.{or_below}
use fpga_sim_core.Pcs.RoundTrip.{or_word}
use fpga_sim_core.Itch.{byte, u64be, u32be}

-- One round of `u64be` goes from the bytes above a place to those from that place on.
push_word :
    {value b : ℕ} (w : ℕ)
    → value ≡ w / 256
    → w < 2 ^ 64
    → b ≡ w % 256
    → bit_or (value * 2 ^ 8 % 2 ^ 64) b ≡ w
push_word {value} {b} w e h d =
    or_below 8 256 value (value * 2 ^ 8 % 2 ^ 64) b refl (omega arith) (omega arith) ∙ omega arith

-- Eight bytes, most significant first, are the word that they were taken from.
pub u64be_lem :
    (v : ℕ) (p : List ℕ) (at : ℕ)
    → v < 2 ^ 64
    → byte p at ≡ v / 2 ^ 56 % 256
    → byte p (at + 1) ≡ v / 2 ^ 48 % 256
    → byte p (at + 1 + 1) ≡ v / 2 ^ 40 % 256
    → byte p (at + 1 + 1 + 1) ≡ v / 2 ^ 32 % 256
    → byte p (at + 1 + 1 + 1 + 1) ≡ v / 2 ^ 24 % 256
    → byte p (at + 1 + 1 + 1 + 1 + 1) ≡ v / 2 ^ 16 % 256
    → byte p (at + 1 + 1 + 1 + 1 + 1 + 1) ≡ v / 2 ^ 8 % 256
    → byte p (at + 1 + 1 + 1 + 1 + 1 + 1 + 1) ≡ v % 256
    → u64be p at ≡ v
unfolding u64be
u64be_lem v p at h e0 e1 e2 e3 e4 e5 e6 e7 =
    let x0 = push_word {value = 0} (v / 2 ^ 56) (omega arith) (omega arith) e0 in
    let x1 = push_word (v / 2 ^ 48) (x0 ∙ omega arith) (omega arith) e1 in
    let x2 = push_word (v / 2 ^ 40) (x1 ∙ omega arith) (omega arith) e2 in
    let x3 = push_word (v / 2 ^ 32) (x2 ∙ omega arith) (omega arith) e3 in
    let x4 = push_word (v / 2 ^ 24) (x3 ∙ omega arith) (omega arith) e4 in
    let x5 = push_word (v / 2 ^ 16) (x4 ∙ omega arith) (omega arith) e5 in
    let x6 = push_word (v / 2 ^ 8) (x5 ∙ omega arith) (omega arith) e6 in push_word v x6 h e7

-- Four bytes likewise.
pub u32be_lem :
    (v : ℕ) (p : List ℕ) (at : ℕ)
    → v < 2 ^ 32
    → byte p at ≡ v / 2 ^ 24 % 256
    → byte p (at + 1) ≡ v / 2 ^ 16 % 256
    → byte p (at + 2) ≡ v / 2 ^ 8 % 256
    → byte p (at + 3) ≡ v % 256
    → u32be p at ≡ v
unfolding u32be
u32be_lem v p at h e0 e1 e2 e3 =
    let top : byte p at * 2 ^ 24 % 2 ^ 32 ≡ v / 2 ^ 24 % 256 * 2 ^ 24 = omega arith in
    rw (top, e1, e2, e3) (or_word v h)
