-- ===== src/Stats/Ranks.antt =====
-- The percentiles are those of nearest rank.
use native.Mathlib.Nat.{mul-pos, mul-le-mul_right}
use fpga_sim_core.Prelude.{
  ℕ, zero, suc, ◌+◌, ◌-◌, ◌*◌, ◌≤◌, ◌<◌, ◌≡◌, List, [], ◌∷◌, arith, length, get_or, ◌==◌,
  Bool-cases, inl, inr,
}
use fpga_sim_core.Stats.{rank, compute_with}

abbrev pub AllAtLeast : ℕ → List ℕ → Type 0
AllAtLeast x [] = Unit {0}
AllAtLeast x (y ∷ ys) = (x ≤ y) × AllAtLeast x ys

abbrev pub IsSorted : List ℕ → Type 0
IsSorted [] = Unit {0}
IsSorted (x ∷ xs) = AllAtLeast x xs × IsSorted xs

get_or-AllAtLeast :
    (x : ℕ) (xs : List ℕ) (i : ℕ) → AllAtLeast x xs → i < length xs → x ≤ get_or xs i 0
get_or-AllAtLeast x [] i a h = absurd (omega arith)
get_or-AllAtLeast x (y ∷ ys) zero a h = a.0
get_or-AllAtLeast x (y ∷ ys) (suc i) a h = get_or-AllAtLeast x ys i a.1 (omega arith)

ascending :
    (xs : List ℕ) (i j : ℕ) → IsSorted xs → i ≤ j → j < length xs → get_or xs i 0 ≤ get_or xs j 0
ascending [] i j s le h = absurd (omega arith)
ascending (x ∷ xs) zero zero s le h = omega arith
ascending (x ∷ xs) zero (suc j) s le h = get_or-AllAtLeast x xs j s.0 (omega arith)
ascending (x ∷ xs) (suc i) zero s le h = absurd (omega arith)
ascending (x ∷ xs) (suc i) (suc j) s le h = ascending xs i j s.1 (omega arith) (omega arith)

-- The place of a percentile is inside a list of `n` samples; the samples up to it are the least
-- number of samples that is at least the percentage of all.
pub rank-nearest :
    (percent n : ℕ)
    → 0 < percent
    → percent ≤ 100
    → 0 < n
    → (rank percent n < n)
      × (percent * n ≤ 100 * (rank percent n + 1))
      × (100 * rank percent n < percent * n)
unfolding rank
rank-nearest percent n p q h =
    let low = mul-pos p h in
    let high = mul-le-mul_right n q in
    (omega (arith, low, high), omega (arith, low, high), omega (arith, low, high))

-- With a sorting that gives a sorted list of the same length, minimum, median, 99th percentile and
-- maximum are in this order, also where there is no sample.
pub compute_with-ordered :
    (sort : List ℕ → List ℕ) (samples : List ℕ)
    → IsSorted (sort samples)
    → length (sort samples) ≡ length samples
    → let s = compute_with sort samples in (s.min ≤ s.median) × (s.median ≤ s.p99) × (s.p99 ≤ s.max)
unfolding compute_with
compute_with-ordered sort samples sorted size = elim (Bool-cases (length samples == 0)) [
  | inl none ↦ simp none (omega arith, omega arith, omega arith)
  | inr present ↦
      let some_samples : 0 < length samples = ground arith in
      let half = rank-nearest 50 (length samples) (omega arith) (omega arith) some_samples in
      let most = rank-nearest 99 (length samples) (omega arith) (omega arith) some_samples in
      simp present (
        ascending (sort samples) 0 (rank 50 (length samples)) sorted (omega arith)
            (omega (arith, half, size)),
        ascending (sort samples) (rank 50 (length samples)) (rank 99 (length samples)) sorted
            (omega (arith, half, most)) (omega (arith, most, size)),
        ascending (sort samples) (rank 99 (length samples)) (length samples - 1) sorted
            (omega (arith, most)) (omega (arith, size, some_samples)),
      )
]
