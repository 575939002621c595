-- ===== src/Engine/Time.antt =====
-- Cycles as nanoseconds: the period is an exact fraction, and a report is rounded half up.
use fpga_sim_core.Prelude.{ℕ, ◌+◌, ◌*◌, ◌≤◌, ◌<◌, arith}
use fpga_sim_core.Engine.{cycle_ns_num, cycle_ns_den, cycles_to_ns_e4}

-- The largest cycle number for which no product of the conversion wraps.
abbrev pub max_cycles : ℕ
max_cycles = 3602879701896

-- Up to `max_cycles` the result is the number of ten-thousandths of a nanosecond nearest to the
-- exact time, a tie going up: within half a unit below and strictly less than half a unit above.
pub cycles_to_ns_e4-nearest :
    (cycles : ℕ)
    → cycles ≤ max_cycles
    → let exact = cycles * cycle_ns_num * 10000 in
      let unit = 2 * cycle_ns_den in
      (2 * exact < cycles_to_ns_e4 cycles * unit + cycle_ns_den)
      × (cycles_to_ns_e4 cycles * unit ≤ 2 * exact + cycle_ns_den)
unfolding cycles_to_ns_e4
cycles_to_ns_e4-nearest cycles h = omega arith
