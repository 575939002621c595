-- ===== src/Stats/Bins.antt =====
-- The histogram counts every sample once.
use native.Mathlib.Nat.{zero-add}
use fpga_sim_core.Prelude.{
  ℕ, zero, suc, ◌+◌, ◌%◌, ◌^◌, ◌≤◌, ◌<◌, ◌≡◌, ◌∙◌, refl, List, [], ◌∷◌, arith, length, length-set,
  get_or, set, replicate, ◌==◌, Bool-cases, inl, inr,
}
use fpga_sim_core.Stats.{histogram_bins, bin_of, count_sample, fill_histogram, compute_with}

unfoldable pub total : List ℕ → ℕ
total [] = 0
total (n ∷ ns) = n + total ns

bin_of-lt : (sample : ℕ) → bin_of sample < 32
unfolding bin_of
bin_of-lt sample = ground arith

total-set :
    (ns : List ℕ) (i v : ℕ) → i < length ns → total (set ns i v) + get_or ns i 0 ≡ total ns + v
unfolding total
total-set [] i v h = absurd (omega arith)
total-set (n ∷ ns) zero v h = omega arith
total-set (n ∷ ns) (suc i) v h = omega (arith, total-set ns i v (omega arith))

get_or-le : (ns : List ℕ) (i : ℕ) → get_or ns i 0 ≤ total ns
unfolding total
get_or-le [] i = omega arith
get_or-le (n ∷ ns) zero = omega arith
get_or-le (n ∷ ns) (suc i) = omega (arith, get_or-le ns i)

count_sample-total :
    (ns : List ℕ) (sample : ℕ)
    → length ns ≡ 32
    → total ns + 1 < 2 ^ 32
    → total (count_sample ns sample) ≡ total ns + 1
unfolding count_sample
count_sample-total ns sample size few = omega (
  arith,
  bin_of-lt sample,
  get_or-le ns (bin_of sample),
  total-set ns (bin_of sample) ((get_or ns (bin_of sample) 0 + 1) % 2 ^ 32)
      (omega (arith, bin_of-lt sample, size)),
)

count_sample-length : (ns : List ℕ) (sample : ℕ) → length (count_sample ns sample) ≡ length ns
unfolding count_sample
count_sample-length ns sample =
    length-set ns (bin_of sample) ((get_or ns (bin_of sample) 0 + 1) % 2 ^ 32)

fill_histogram-total :
    (ns samples : List ℕ)
    → length ns ≡ 32
    → total ns + length samples < 2 ^ 32
    → total (fill_histogram ns samples) ≡ total ns + length samples
unfolding fill_histogram
fill_histogram-total ns [] size few = omega arith
fill_histogram-total ns (sample ∷ samples) size few =
    let one = count_sample-total ns sample size (omega arith) in
    omega (
      arith,
      one,
      fill_histogram-total (count_sample ns sample) samples (count_sample-length ns sample ∙ size)
          (omega (arith, one)),
    )

-- The bins of the histogram add up to the number of samples, whatever the samples and the sorting,
-- where there are fewer than 2 ^ 32 of them.
pub compute_with-total :
    (sort : List ℕ → List ℕ) (samples : List ℕ)
    → length samples < 2 ^ 32
    → total (compute_with sort samples).histogram ≡ length samples
unfolding compute_with total
compute_with-total sort samples few = elim (Bool-cases (length samples == 0)) [
  | inl none ↦ simp none (ground arith)
  | inr some ↦ simp some (
      fill_histogram-total (replicate histogram_bins 0) samples refl (omega arith)
      ∙ zero-add (length samples))
]
