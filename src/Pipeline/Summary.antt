-- ===== src/Pipeline/Summary.antt =====
-- main.cpp: what `main` works out from the pipeline for its report and for its exit code.
use fpga_sim_core.Prelude.{
  ℕ, zero, suc, ◌+◌, ◌-◌, ◌*◌, ◌/◌, ◌%◌, ◌^◌, ◌≤◌, not, ◌&&◌, List, [], ◌∷◌, arith, ltb, ◌==◌,
  length, get_or, if◌then◌else◌,
}
use fpga_sim_core.Prelude.Int.{ℤ, pos, ◌≤ℤ◌, ltb_ℤ, eqb_ℤ}
use fpga_sim_core.Engine.{cycles_to_ns_e4}
use fpga_sim_core.Pipeline.State.{TickToTrade}
use fpga_sim_core.Pipeline.Report.{ok, book_overflow_count}

pub record Ns : Type 0 where
  pub whole : ℕ
  pub frac : ℕ

unfoldable pub to_ns : ℕ → Ns
to_ns cycles = record {
  whole = cycles_to_ns_e4 cycles / 10000;
  frac = cycles_to_ns_e4 cycles % 10000;
}

-- The largest bin of the histogram.
unfoldable pub peak_of : List ℕ → ℕ → ℕ
peak_of [] peak = peak
peak_of (c ∷ cs) peak = peak_of cs (if ltb peak c then c else peak)

-- The length of the bar of a bin, in 32 bits.
unfoldable pub bar : ℕ → ℕ → ℕ
bar peak c = (c * 40 + peak + (2 ^ 32 - 1)) % 2 ^ 32 / peak

-- Over the imbalances of the messages: how many are not 0, the least and the largest, starting from 0.
pub record Spread : Type 0 where
  pub nonzero : ℕ
  pub lo : ℤ
  pub hi : ℤ

abbrev pub no_spread : Spread
no_spread = record { nonzero = 0; lo = pos 0; hi = pos 0 }

unfoldable pub widened : Spread → ℤ → Spread
widened s v = record {
  nonzero = if eqb_ℤ v (pos 0) then s.nonzero else s.nonzero + 1;
  lo = if ltb_ℤ v s.lo then v else s.lo;
  hi = if ltb_ℤ s.hi v then v else s.hi;
}

unfoldable pub spread : List ℤ → Spread → Spread
unfolding widened
spread [] s = s
spread (v ∷ vs) s = spread vs (widened s v)

-- The exit code of the demo.
unfoldable pub exit_code : ℕ → TickToTrade → ℕ
exit_code count t =
    if not (ok count t)
    then 1
    else if book_overflow_count t == 0 && not (eqb_ℤ t.cumulative_ofi (pos 0))
    then 0
    else 1

-- The bounds only move outwards.
spread-wider : (vs : List ℤ) (s : Spread) → ((spread vs s).lo ≤ℤ s.lo) × (s.hi ≤ℤ (spread vs s).hi)
unfolding spread widened
spread-wider [] s = (omega arith, omega arith)
spread-wider (v ∷ vs) s =
    let (below, above) = spread-wider vs (widened s v) in
    (ground (arith, below), ground (arith, above))

-- Every imbalance lies between the least and the largest that are reported.
pub spread_bounds :
    (vs : List ℤ) (s : Spread) (i : ℕ)
    → suc i ≤ length vs
    → let v = get_or vs i (pos 0) in ((spread vs s).lo ≤ℤ v) × (v ≤ℤ (spread vs s).hi)
unfolding spread widened
spread_bounds [] s i h = absurd (omega (arith, h))
spread_bounds (v ∷ vs) s zero h =
    let (below, above) = spread-wider vs (widened s v) in
    (ground (arith, below), ground (arith, above))
spread_bounds (v ∷ vs) s (suc i) h = spread_bounds vs (widened s v) i (omega (arith, h))
