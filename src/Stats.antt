-- ===== src/Stats.antt =====
-- include/pipeline/tick_to_trade.hpp: `LatencyStats`. `std::sort` is the argument `sort`. A sample
-- count is the length of the list; the scratch buffer is the sorted list itself.
pub mod Bins
pub mod Ranks
mod Tests
use fpga_sim_core.Prelude.{
  ℕ, ◌+◌, ◌-◌, ◌*◌, ◌/◌, ◌%◌, ◌^◌, List, [], ◌∷◌, length, get_or, set, replicate, ltb, leb, ◌==◌,
  if◌then◌else◌,
}

abbrev pub histogram_bins : ℕ
histogram_bins = 32

abbrev pub bin_width_cycles : ℕ
bin_width_cycles = 2

pub record LatencyStats : Type 0 where
  pub count : ℕ
  pub min : ℕ
  pub median : ℕ
  pub p99 : ℕ
  pub max : ℕ
  pub histogram : List ℕ

abbrev pub no_stats : LatencyStats
no_stats = record {
  count = 0;
  min = 0;
  median = 0;
  p99 = 0;
  max = 0;
  histogram = replicate histogram_bins 0;
}

unfoldable pub bin_of : ℕ → ℕ
bin_of sample =
    let bin : ℕ = sample / bin_width_cycles in
    if leb histogram_bins bin then histogram_bins - 1 else bin

-- `++s.histogram[bin]`, in 32 bits.
unfoldable pub count_sample : List ℕ → ℕ → List ℕ
unfolding bin_of
count_sample histogram sample =
    set histogram (bin_of sample) ((get_or histogram (bin_of sample) 0 + 1) % 2 ^ 32)

-- The last loop of `compute_with`.
unfoldable pub fill_histogram : List ℕ → List ℕ → List ℕ
fill_histogram histogram [] = histogram
fill_histogram histogram (sample ∷ samples) = fill_histogram (count_sample histogram sample) samples

-- The place of a percentile in a sorted list of `n` samples, `(percent * n + 99) / 100 - 1`;
-- the product fits in 64 bits for every number of samples that the callers have.
unfoldable pub rank : ℕ → ℕ → ℕ
rank percent n = (percent * n + 99) / 100 - 1

unfoldable pub compute_with : (List ℕ → List ℕ) → List ℕ → LatencyStats
unfolding rank
compute_with sort samples =
    let n : ℕ = length samples in
    if n == 0 then no_stats else record {
      count = n;
      min = get_or (sort samples) 0 0;
      median = get_or (sort samples) (rank 50 n) 0;
      p99 = get_or (sort samples) (rank 99 n) 0;
      max = get_or (sort samples) (n - 1) 0;
      histogram = fill_histogram (replicate histogram_bins 0) samples;
    }

-- `compute`, whose buffer holds `message_count` samples.
unfoldable pub compute : ℕ → (List ℕ → List ℕ) → List ℕ → LatencyStats
compute message_count sort samples =
    if ltb message_count (length samples) then no_stats else compute_with sort samples
