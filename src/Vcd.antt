-- ===== src/Vcd.antt =====
-- include/trace/vcd_logger.hpp: `VcdLogger`. The file is the list of what is printed to it, the newest
-- first; whether `fopen` gives a file is an argument. The declarations at the head of the file are fixed
-- text and left out.
pub mod Trace
mod Tests
use fpga_sim_core.Prelude.{
  ℕ, zero, suc, ◌+◌, ◌*◌, ◌/◌, ◌%◌, ◌^◌, bit_and, Bool, true, false, Option, none, some, List, [],
  ◌∷◌, ◌==◌, if◌then◌else◌,
}
use fpga_sim_core.Prelude.Int.{ℤ, to_u32}
use fpga_sim_core.Engine.{cycle_ns_num, cycle_ns_den}

abbrev pub units_per_cycle : ℕ
units_per_cycle = (cycle_ns_num * 1000000 + cycle_ns_den / 2) / cycle_ns_den

abbrev pub units_per_half_cycle : ℕ
units_per_half_cycle = units_per_cycle / 2

-- "#t", the new value of `clk`, the new value of `tick_valid`, and that of `ofi` with the characters
-- between "b" and " #".
pub data Item : Type 0 where
  time : ℕ → Item
  clk tick_valid : Bool → Item
  ofi : List ℕ → Item

pub record VcdLogger : Type 0 where
  pub file : Option (List Item)
  pub last_time : ℕ

unfoldable pub opened : Bool → VcdLogger
opened true = record {
  file = some (ofi (b'0' ∷ []) ∷ tick_valid false ∷ clk false ∷ time 0 ∷ []);
  last_time = 0;
}
opened false = record { file = none; last_time = 0 }

-- `stamp`, with the file.
unfoldable pub stamp : List Item → ℕ → ℕ → List Item × ℕ
stamp items last_time t = if t == last_time then (items, last_time) else (time t ∷ items, t)

-- `for (; i < 32; ++i) bits[1 + i] = ((value >> (31 - i)) & 1U) ? '1' : '0'`, with the rounds left.
unfoldable pub bits_of : ℕ → ℕ → List ℕ
bits_of value zero = []
bits_of value (suc rounds) =
    (if bit_and (value / 2 ^ rounds) 1 == 0 then b'0' else b'1') ∷ bits_of value rounds

unfoldable pub write_vector : List Item → ℕ → List Item
write_vector items value = ofi (bits_of value 32) ∷ items

unfoldable pub print_cycle : List Item → ℕ → ℕ → Bool → ℤ → List Item × ℕ
print_cycle items last_time cycle valid value =
    let t : ℕ = cycle * units_per_cycle % 2 ^ 64 in
    let (items1, last1) = stamp items last_time t in
    let items2 = write_vector (tick_valid valid ∷ clk true ∷ items1) (to_u32 value) in
    let (items3, last2) = stamp items2 last1 ((t + units_per_half_cycle) % 2 ^ 64) in
    (clk false ∷ items3, last2)

-- The `cycle` of a logger with a file, and without.
abbrev pub cycle_in : VcdLogger → Option (List Item) → ℕ → Bool → ℤ → VcdLogger
cycle_in v none cycle valid value = v
cycle_in v (some items) cycle valid value =
    let (items', last) = print_cycle items v.last_time cycle valid value in
    record { file = some items'; last_time = last }

unfoldable pub cycle : VcdLogger → ℕ → Bool → ℤ → VcdLogger
cycle v n valid value = cycle_in v v.file n valid value
