-- ===== src/Ring.antt =====
-- include/core/aligned_slab.hpp: `RingBuffer<T, Count>`, a circular queue over a fixed array.
-- The array `slab_.entries` is a list of `Count` values, and the template's `Count` an argument.
-- The alignment of the slab concerns addresses only, which the model does not have.
pub mod Inv
pub mod Refine
mod Tests
use fpga_sim_core.Prelude.{
  ℕ, ◌+◌, ◌-◌, ◌%◌, Bool, true, false, Option, none, some, List, get_or, set, replicate, ◌==◌,
  if◌then◌else◌,
}

-- `RingBuffer`, its storage and its three indices.
pub record RingBuffer {ℓ} (T : Type ℓ) : Type ℓ where
  pub entries : List T
  pub head : ℕ
  pub tail : ℕ
  pub size : ℕ

module _ {ℓ} {T : Type ℓ} where
  -- A default-constructed buffer: every entry is `T{}`.
  unfoldable pub empty : ℕ → T → RingBuffer T
  empty count zeroed = record { entries = replicate count zeroed; head = 0; tail = 0; size = 0 }

  unfoldable pub push : ℕ → RingBuffer T → T → RingBuffer T × Bool
  push count r value = if r.size == count then (r, false) else (
    record r {
      entries = set r.entries r.tail value;
      tail = (r.tail + 1) % count;
      size = r.size + 1;
    },
    true,
  )

  -- The value that `pop` stores through its reference is the option; `none` is the result `false`.
  -- `zeroed` is what a read out of range would give; `Inv.head_in` rules that out.
  unfoldable pub pop : ℕ → T → RingBuffer T → RingBuffer T × Option T
  pop count zeroed r = if r.size == 0 then (r, none) else (
    record r { head = (r.head + 1) % count; size = r.size - 1 },
    some (get_or r.entries r.head zeroed),
  )
