-- ===== src/Ofi/Formula.antt =====
-- The order-flow imbalance of two quotes, after Cont, Kukanov and Stoikov.
use fpga_sim_core.Prelude.{
  refl, ap₂, ◌∙◌, ◌⊎◌, ◌≡◌, Bool, true, false, arith, if◌then◌else◌, Bool-cases, inl, inr,
}
use fpga_sim_core.Prelude.Int.{
  ℤ, pos, ◌+ℤ◌, ◌-ℤ◌, neg, leb_ℤ, ltb_ℤ, eqb_ℤ, int32_max, int32_min, int_laws, IsInt32, IsInt64,
  one_part, +ℤ_parts, -ℤ_parts,
}
use fpga_sim_core.Ofi.{BookQuote, OfiDsp, side_bid, side_ask, saturate}

-- `[test] amount`.
abbrev pub times_if : Bool → ℤ → ℤ
times_if true amount = amount
times_if false amount = pos 0

-- The formula in the source's comment: where `q'` is the previous quote,
-- `[Pb >= Pb'] qb - [Pb <= Pb'] qb' - [Pa <= Pa'] qa + [Pa >= Pa'] qa'`.
abbrev pub imbalance : BookQuote → BookQuote → ℤ
imbalance q' q =
    times_if (leb_ℤ q'.bid_price q.bid_price) q.bid_qty
    -ℤ times_if (leb_ℤ q.bid_price q'.bid_price) q'.bid_qty
    -ℤ times_if (leb_ℤ q.ask_price q'.ask_price) q.ask_qty
    +ℤ times_if (leb_ℤ q'.ask_price q.ask_price) q'.ask_qty

-- The imbalance of a quote after the previous one, if there is one; without one, its quantities count
-- as new.
abbrev pub imbalance_after : Bool → BookQuote → BookQuote → ℤ
imbalance_after true q' q = imbalance q' q
imbalance_after false q' q = q.bid_qty -ℤ q.ask_qty

compared :
    (p' p : ℤ)
    → ((ltb_ℤ p' p ≡ true)
        × (ltb_ℤ p p' ≡ false)
        × (eqb_ℤ p p' ≡ false)
        × (leb_ℤ p' p ≡ true)
        × (leb_ℤ p p' ≡ false))
      ⊎ (((ltb_ℤ p' p ≡ false)
            × (ltb_ℤ p p' ≡ false)
            × (eqb_ℤ p p' ≡ true)
            × (leb_ℤ p' p ≡ true)
            × (leb_ℤ p p' ≡ true))
          ⊎ ((ltb_ℤ p' p ≡ false)
              × (ltb_ℤ p p' ≡ true)
              × (eqb_ℤ p p' ≡ false)
              × (leb_ℤ p' p ≡ false)
              × (leb_ℤ p p' ≡ true)))
compared p' p = ground arith

gained :
    (p' n' p n : ℤ)
    → (if ltb_ℤ p' p then n else if eqb_ℤ p p' then n -ℤ n' else neg n')
      ≡ times_if (leb_ℤ p' p) n -ℤ times_if (leb_ℤ p p') n'
gained p' n' p n = elim (compared p' p) [
  | inl c ↦ simp (c.0, c.2, c.3, c.4) (grind int_laws)
  | inr (inl c) ↦ simp (c.0, c.2, c.3, c.4)
  | inr (inr c) ↦ simp (c.0, c.2, c.3, c.4) (grind int_laws)
]

lost :
    (p' n' p n : ℤ)
    → (if ltb_ℤ p p' then neg n else if eqb_ℤ p p' then n' -ℤ n else n')
      ≡ times_if (leb_ℤ p' p) n' -ℤ times_if (leb_ℤ p p') n
lost p' n' p n = elim (compared p' p) [
  | inl c ↦ simp (c.1, c.2, c.3, c.4) (grind int_laws)
  | inr (inl c) ↦ simp (c.1, c.2, c.3, c.4)
  | inr (inr c) ↦ simp (c.1, c.2, c.3, c.4) (grind int_laws)
]

summed : (a b c d : ℤ) → a -ℤ b +ℤ (c -ℤ d) ≡ a -ℤ b -ℤ d +ℤ c
summed a b c d = grind int_laws

pub sides_lem :
    (d : OfiDsp) (q : BookQuote)
    → side_bid d q +ℤ side_ask d q ≡ imbalance_after d.valid_previous d.previous q
unfolding side_bid side_ask
sides_lem d q = elim (Bool-cases d.valid_previous) [
  | inl after ↦ simp after (
      ap₂ (λ a b. a +ℤ b) (gained d.previous.bid_price d.previous.bid_qty q.bid_price q.bid_qty)
        (lost d.previous.ask_price d.previous.ask_qty q.ask_price q.ask_qty)
      ∙ summed (times_if (leb_ℤ d.previous.bid_price q.bid_price) q.bid_qty)
          (times_if (leb_ℤ q.bid_price d.previous.bid_price) d.previous.bid_qty)
          (times_if (leb_ℤ d.previous.ask_price q.ask_price) d.previous.ask_qty)
          (times_if (leb_ℤ q.ask_price d.previous.ask_price) q.ask_qty))
  | inr first ↦ simp first (grind int_laws)
]

-- The nearest `std::int32_t`.
abbrev pub within : ℤ → ℤ
within z = if ltb_ℤ z int32_min then int32_min else if ltb_ℤ int32_max z then int32_max else z

pub saturate_lem : (z : ℤ) → saturate z ≡ within z
unfolding saturate
saturate_lem z = ground arith

-- A quote of 32-bit quantities.
abbrev pub IsQuote : BookQuote → Type 0
IsQuote q = IsInt32 q.bid_qty × IsInt32 q.ask_qty

times_if-bound : (test : Bool) (z : ℤ) → IsInt32 z → IsInt32 (times_if test z)
times_if-bound true z i = i
times_if-bound false z i = ground arith

sum-bound :
    (a b c d : ℤ) → IsInt32 a → IsInt32 b → IsInt32 c → IsInt32 d → IsInt64 (a -ℤ b -ℤ c +ℤ d)
sum-bound a b c d i j k l = omega (
  arith,
  +ℤ_parts (a -ℤ b -ℤ c) d,
  -ℤ_parts (a -ℤ b) c,
  -ℤ_parts a b,
  one_part (a -ℤ b -ℤ c +ℤ d),
)

imbalance_after-IsInt64 :
    (v : Bool) (q' q : BookQuote) → IsQuote q' → IsQuote q → IsInt64 (imbalance_after v q' q)
imbalance_after-IsInt64 true q' q i j =
    sum-bound (times_if (leb_ℤ q'.bid_price q.bid_price) q.bid_qty)
      (times_if (leb_ℤ q.bid_price q'.bid_price) q'.bid_qty)
      (times_if (leb_ℤ q.ask_price q'.ask_price) q.ask_qty)
      (times_if (leb_ℤ q'.ask_price q.ask_price) q'.ask_qty)
      (times_if-bound (leb_ℤ q'.bid_price q.bid_price) q.bid_qty j.0)
      (times_if-bound (leb_ℤ q.bid_price q'.bid_price) q'.bid_qty i.0)
      (times_if-bound (leb_ℤ q.ask_price q'.ask_price) q.ask_qty j.1)
      (times_if-bound (leb_ℤ q'.ask_price q.ask_price) q'.ask_qty i.1)
imbalance_after-IsInt64 false q' q i j =
    omega (arith, -ℤ_parts q.bid_qty q.ask_qty, one_part (q.bid_qty -ℤ q.ask_qty))

-- With 32-bit quantities in the quote and in the previous one, the sum of the two sides is their
-- imbalance and fits in an `std::int64_t`, and what `saturate` makes of it fits in an
-- `std::int32_t`.
pub sides-fit :
    (d : OfiDsp) (q : BookQuote)
    → IsQuote d.previous
    → IsQuote q
    → let value = side_bid d q +ℤ side_ask d q in
      (value ≡ imbalance_after d.valid_previous d.previous q)
      × IsInt64 value
      × IsInt32 (saturate value)
sides-fit d q i j =
    rw (saturate_lem, sides_lem)
      (
        refl,
        imbalance_after-IsInt64 d.valid_previous d.previous q i j,
        within-IsInt32 (imbalance_after d.valid_previous d.previous q),
      )
  where
    within-IsInt32 : (z : ℤ) → IsInt32 (within z)
    within-IsInt32 z = ground arith
