-- ===== src/Walk/Next.antt =====
-- What a step of the walker promises.
use fpga_sim_core.Prelude.{
  ℕ, ◌+◌, ◌-◌, ◌≤◌, ◌<◌, ◌≡◌, ◌≢◌, ◌⊎◌, refl, inl, inr, Option, none, some, arith, get_or, ltb, leb,
  ◌==◌, Bool-cases, ==_iff,
}
use fpga_sim_core.Walk.{Walker, Stop, end, truncated_tail, bad_framing, spec_length, be, next}

-- The length in front of the next message, and the length of its type.
abbrev pub framed_at : Walker → ℕ
framed_at w = be w.bytes w.offset 2 0

abbrev pub typed_at : Walker → ℕ
typed_at w = spec_length (get_or w.bytes (w.offset + 2) 0)

-- Why there is no next message.
abbrev pub Halted : Walker → Stop → Type 0
Halted w end = w.size ≤ w.offset
Halted w truncated_tail = (w.offset < w.size) × (w.size - w.offset < 2 + framed_at w)
Halted w bad_framing = (w.offset < w.size) × ((framed_at w ≡ 0) ⊎ (typed_at w ≢ framed_at w))

-- A message lies in the file right behind its length, which is that of its type, and the next place is
-- right behind it.
abbrev pub IsStep : Walker → Walker → Option (ℕ × ℕ) → Type 0
IsStep w w' none = (w'.offset ≡ w.offset) × Halted w w'.stop
IsStep w w' (some (at, len)) =
    (at ≡ w.offset + 2)
    × (len ≡ typed_at w)
    × (0 < len)
    × (w'.offset ≡ at + len)
    × (w'.offset ≤ w.size)

-- A call of `next` either gives a message, which lies wholly inside the file, has the length that its
-- type has and is not empty, and moves right behind it; or it moves nowhere and says why: the end of
-- the file was reached, the message runs past the end, or its length is 0 or not that of its type.
pub next-IsStep : (w : Walker) → IsStep w (next w).0 (next w).1
unfolding next
next-IsStep w = elim (Bool-cases (leb w.size w.offset)) [
  | inl done ↦ simp done (refl, ground arith)
  | inr more ↦ elim (Bool-cases (ltb (w.size - w.offset) 2)) [
    | inl short ↦ simp (more, short) (refl, (ground arith, ground arith))
    | inr prefix ↦ elim (Bool-cases (ltb (w.size - w.offset - 2) (framed_at w))) [
      | inl cut ↦ simp (more, prefix, cut) (refl, (ground arith, ground arith))
      | inr whole ↦ elim (Bool-cases (framed_at w == 0)) [
        | inl empty ↦
            simp (more, prefix, whole, empty) (refl, (ground arith, inl ((==_iff _ _).0 empty)))
        | inr full ↦ elim (Bool-cases (typed_at w == framed_at w)) [
          | inl same ↦
              simp (more, prefix, whole, full, same)
                (refl, ground arith, ground arith, refl, ground arith)
          | inr odd ↦
              simp (more, prefix, whole, full, odd) (refl, (ground arith, inr (ground arith)))
        ]
      ]
    ]
  ]
]
