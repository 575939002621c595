-- ===== src/Engine.antt =====
-- include/core/discrete_engine.hpp: the clock, its two lists of callbacks and the cycle counter.
-- A callback is a function pointer and a context: here a function on the world `W` that the
-- contexts point into, and `none` for a null pointer. Cycle numbers wrap at 2 ^ 64.
pub mod Schedule
pub mod Time
mod Tests
use fpga_sim_core.Prelude.{
  ℕ, zero, suc, ◌+◌, ◌*◌, ◌/◌, ◌%◌, ◌^◌, Bool, true, false, ◌||◌, Option, none, some, List, [], ◌∷◌,
  get_or, set, replicate, leb, if◌then◌else◌,
}

abbrev pub clock_hz : ℕ
clock_hz = 322265625

abbrev pub cycle_ns_num : ℕ
cycle_ns_num = 512

abbrev pub cycle_ns_den : ℕ
cycle_ns_den = 165

abbrev pub max_callbacks : ℕ
max_callbacks = 16

-- Unsigned 64-bit arithmetic throughout.
unfoldable pub cycles_to_ns_e4 : ℕ → ℕ
cycles_to_ns_e4 cycles =
    (((cycles * cycle_ns_num % 2 ^ 64) * 10000 % 2 ^ 64 + cycle_ns_den / 2) % 2 ^ 64) / cycle_ns_den

abbrev pub Callback : Type 0 → Type 0
Callback W = W → ℕ → W

pub record DiscreteEngine (W : Type 0) : Type 0 where
  pub posedge : List (Option (Callback W))
  pub negedge : List (Option (Callback W))
  pub count : ℕ
  pub negedge_count : ℕ
  pub cycle : ℕ

abbrev pub is_null {ℓ} : {A : Type ℓ} → Option A → Bool
is_null none = true
is_null (some a) = false

-- A call through a null pointer is undefined in the source; registration refuses null, so no
-- registered slot holds one.
abbrev pub call : {W : Type 0} → Option (Callback W) → W → ℕ → W
call none w cycle = w
call (some f) w cycle = f w cycle

module _ {W : Type 0} where
  unfoldable pub fresh : DiscreteEngine W
  fresh = record {
    posedge = replicate max_callbacks none;
    negedge = replicate max_callbacks none;
    count = 0;
    negedge_count = 0;
    cycle = 0;
  }

  unfoldable pub on_posedge : DiscreteEngine W → Option (Callback W) → DiscreteEngine W × Bool
  on_posedge e callback =
      if is_null callback || leb max_callbacks e.count
      then (e, false)
      else (record e { posedge = set e.posedge e.count callback; count = e.count + 1 }, true)

  unfoldable pub on_negedge : DiscreteEngine W → Option (Callback W) → DiscreteEngine W × Bool
  on_negedge e callback =
      if is_null callback || leb max_callbacks e.negedge_count then (e, false) else (
        record e {
          negedge = set e.negedge e.negedge_count callback;
          negedge_count = e.negedge_count + 1;
        },
        true,
      )

  unfoldable pub reset : DiscreteEngine W → DiscreteEngine W
  reset e = record e { cycle = 0 }

  -- `for (i = first; i < first + rounds; ++i) slots[i].callback(slots[i].context, cycle)`.
  unfoldable pub call_slots : List (Option (Callback W)) → ℕ → ℕ → ℕ → W → W
  call_slots slots cycle first zero w = w
  call_slots slots cycle first (suc rounds) w =
      call_slots slots cycle (first + 1) rounds (call (get_or slots first none) w cycle)

  unfoldable pub step : DiscreteEngine W → W → DiscreteEngine W × W
  step e w =
      let risen = call_slots e.posedge e.cycle 0 e.count w in
      let fallen = call_slots e.negedge e.cycle 0 e.negedge_count risen in
      (record e { cycle = (e.cycle + 1) % 2 ^ 64 }, fallen)

  unfoldable pub run : ℕ → DiscreteEngine W → W → DiscreteEngine W × W
  run zero e w = (e, w)
  run (suc cycles) e w = let (e', w') = step e w in run cycles e' w'
