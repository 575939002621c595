-- ===== src/Ofi/Lut.antt =====
-- The micro-price table.
use fpga_sim_core.Prelude.{
  ℕ, zero, suc, ◌-◌, ◌*◌, ◌/◌, ◌<◌, ◌≤◌, ◌≡◌, ◌∙◌, refl, sym, ap, ap₂, [], arith, get_or, min, max,
}
use fpga_sim_core.Prelude.Int.{
  ℤ, pos, negsuc, ◌-ℤ◌, neg, times, over, pos_part, neg_part, sub_ℕ, -ℤ_parts, one_part,
  eq_of_parts,
}
use fpga_sim_core.Ofi.{
  imbalance_min, filled, table_entry, clamped, spread_of, lookup, spread_levels,
}

get_or-filled {ℓ} :
    {A : Type ℓ} (n : ℕ) (f : ℕ → A) (i : ℕ) (d : A) → i < n → get_or (filled n f) i d ≡ f i
unfolding filled
get_or-filled zero f i d h = ground arith
get_or-filled (suc n) f zero d h = refl
get_or-filled (suc n) f (suc i) d h = get_or-filled n (λ i. f (suc i)) i d (omega arith)

clamped-bounds : (z : ℤ) → (pos_part (clamped z) ≤ 16) × (neg_part (clamped z) ≤ 16)
unfolding clamped
clamped-bounds z = ground arith

row-lt : (z : ℤ) → pos_part (clamped z -ℤ imbalance_min) < 33
row-lt z = omega (
  arith,
  clamped-bounds z,
  -ℤ_parts (clamped z) imbalance_min,
  one_part (clamped z -ℤ imbalance_min),
)

row_lem : (z : ℤ) → pos (pos_part (clamped z -ℤ imbalance_min)) -ℤ pos 16 ≡ clamped z
row_lem z = eq_of_parts (pos (pos_part (clamped z -ℤ imbalance_min)) -ℤ pos 16) (clamped z) (
    omega (
      arith,
      clamped-bounds z,
      -ℤ_parts (clamped z) imbalance_min,
      one_part (clamped z -ℤ imbalance_min),
      -ℤ_parts (pos (pos_part (clamped z -ℤ imbalance_min))) (pos 16),
    ))

spread_of-bounds : (s : ℕ) → (1 ≤ spread_of s) × (spread_of s ≤ 8)
unfolding spread_of
spread_of-bounds s = ground arith

-- The product over 16, rounded toward zero.
abbrev scaled : ℤ → ℕ → ℤ
scaled z s = over (times (times z s) 1000) 16

lookup-scaled : (z : ℤ) (s : ℕ) → lookup z s ≡ scaled (clamped z) (spread_of s)
unfolding lookup table_entry
lookup-scaled z s =
    ap (λ r. get_or r (spread_of s - 1) (pos 0))
      (get_or-filled 33 (λ i. filled spread_levels (table_entry i))
        (pos_part (clamped z -ℤ imbalance_min)) [] (row-lt z))
    ∙ get_or-filled spread_levels (table_entry (pos_part (clamped z -ℤ imbalance_min)))
        (spread_of s - 1) (pos 0) (omega (arith, spread_of-bounds s))
    ∙ ap₂ scaled (row_lem z) (omega (arith, spread_of-bounds s))

times_parts :
    (z : ℤ) (n : ℕ)
    → (pos_part (times z n) ≡ pos_part z * n) × (neg_part (times z n) ≡ neg_part z * n)
unfolding times
times_parts (pos m) n = (ground arith, ground arith)
times_parts (negsuc m) n = (ground arith, ground arith)

over_parts :
    (z : ℤ) → (pos_part (over z 16) ≡ pos_part z / 16) × (neg_part (over z 16) ≡ neg_part z / 16)
unfolding over neg
over_parts (pos m) = (refl, refl)
over_parts (negsuc m) = (ground arith, ground arith)

scaled_parts :
    (z : ℤ) (s : ℕ)
    → (pos_part (scaled z s) ≡ pos_part z * s * 1000 / 16)
      × (neg_part (scaled z s) ≡ neg_part z * s * 1000 / 16)
scaled_parts z s =
    let (p, n) = over_parts (times (times z s) 1000) in
    let (p', n') = times_parts (times z s) 1000 in
    let (p'', n'') = times_parts z s in
    (
      p ∙ ap (λ x. x / 16) (p' ∙ ap (λ x. x * 1000) p''),
      n ∙ ap (λ x. x / 16) (n' ∙ ap (λ x. x * 1000) n''),
    )

clamped-min :
    (z : ℤ)
    → (pos_part (clamped z) ≡ min (pos_part z) 16) × (neg_part (clamped z) ≡ min (neg_part z) 16)
unfolding clamped
clamped-min z = (ground arith, ground arith)

spread_of-limited : (s : ℕ) → spread_of s ≡ max 1 (min 8 s)
unfolding spread_of
spread_of-limited s = ground arith

-- For every imbalance `z` and spread `s`, also out of range: the price has the sign of the imbalance, and
-- its size is 62.5 times the size of the imbalance, at most 16, times the spread, at least 1 and at most
-- 8, rounded down.
pub lookup_lem :
    (z : ℤ) (s : ℕ)
    → (pos_part (lookup z s) ≡ min (pos_part z) 16 * max 1 (min 8 s) * 125 / 2)
      × (neg_part (lookup z s) ≡ min (neg_part z) 16 * max 1 (min 8 s) * 125 / 2)
lookup_lem z s =
    let (p, n) = scaled_parts (clamped z) (spread_of s) in
    let (p', n') = clamped-min z in
    let s' = spread_of-limited s in
    (
      ap pos_part (lookup-scaled z s) ∙ p ∙ ap₂ (λ a b. a * b * 1000 / 16) p' s' ∙ halved _,
      ap neg_part (lookup-scaled z s) ∙ n ∙ ap₂ (λ a b. a * b * 1000 / 16) n' s' ∙ halved _,
    )
  where
    halved : (x : ℕ) → x * 1000 / 16 ≡ x * 125 / 2
    halved x = omega arith

neg-suc : (m : ℕ) → neg (pos (suc m)) ≡ negsuc m
unfolding neg
neg-suc m = ground arith

neg-negsuc : (m : ℕ) → neg (negsuc m) ≡ pos (suc m)
unfolding neg
neg-negsuc m = ground arith

neg-zero : neg (pos 0) ≡ pos 0
unfolding neg
neg-zero = refl

neg-sub_ℕ : (a b : ℕ) → sub_ℕ b a ≡ neg (sub_ℕ a b)
unfolding neg
neg-sub_ℕ a b = ground arith

times-neg : (z : ℤ) (n : ℕ) → times (neg z) n ≡ neg (times z n)
unfolding times
times-neg (pos zero) n = rw neg-zero (neg-sub_ℕ (0 * n) (0 * n))
times-neg (pos (suc m)) n = rw neg-suc (neg-sub_ℕ (suc m * n) (0 * n))
times-neg (negsuc m) n = rw neg-negsuc (neg-sub_ℕ (0 * n) (suc m * n))

over-neg : (z : ℤ) → over (neg z) 16 ≡ neg (over z 16)
unfolding over
over-neg (pos zero) = ap (λ z. over z 16) neg-zero ∙ sym neg-zero
over-neg (pos (suc m)) = rw neg-suc refl
over-neg (negsuc m) = rw neg-negsuc (neg_twice (suc m / 16))
  where
    neg_twice : (a : ℕ) → pos a ≡ neg (neg (pos a))
    neg_twice zero = rw (neg-zero, neg-zero) refl
    neg_twice (suc a) = rw (neg-suc, neg-negsuc) refl

clamped-neg : (z : ℤ) → clamped (neg z) ≡ neg (clamped z)
unfolding clamped neg
clamped-neg z = ground arith

-- The table is odd: the price of the opposite imbalance at the same spread is the opposite price.
pub lookup-neg : (z : ℤ) (s : ℕ) → lookup (neg z) s ≡ neg (lookup z s)
lookup-neg z s = rw (lookup-scaled, lookup-scaled, clamped-neg, times-neg, times-neg, over-neg) refl
