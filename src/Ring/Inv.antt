-- ===== src/Ring/Inv.antt =====
-- The representation invariant of `RingBuffer`: the tail is `size` places past the head, round the
-- array, and every index is inside it.
use native.Mathlib.Nat.{mod-add-mod}
use fpga_sim_core.Prelude.{
  ℕ, ◌+◌, ◌-◌, ◌%◌, ◌≤◌, ◌<◌, ◌≡◌, ◌≢◌, ◌∙◌, ap, inl, inr, arith, length, length-set,
  length-replicate, ◌==◌, Bool-cases,
}
use fpga_sim_core.Ring
use fpga_sim_core.Ring.{RingBuffer}

tail_after :
    (count head size tail : ℕ)
    → tail ≡ (head + size) % count
    → (tail + 1) % count ≡ (head + (size + 1)) % count
tail_after count head size tail e = rw (e, mod-add-mod) (ap (λ k. k % count) (omega arith))

head_after :
    (count head size tail : ℕ)
    → size ≢ 0
    → tail ≡ (head + size) % count
    → tail ≡ ((head + 1) % count + (size - 1)) % count
head_after count head size tail ne e = e ∙ rw mod-add-mod (ap (λ k. k % count) (omega arith))

module _ {ℓ} {T : Type ℓ} where
  pub record IsValid (count : ℕ) (r : RingBuffer T) : Type 0 where
    pub storage : length r.entries ≡ count
    pub head_in : r.head < count
    pub size_le : r.size ≤ count
    pub tail_at : r.tail ≡ (r.head + r.size) % count

  -- A fresh buffer with room for at least one entry is valid.
  pub empty-IsValid : (count : ℕ) (z : T) → 0 < count → IsValid count (Ring.empty count z)
  unfolding Ring.empty
  empty-IsValid count z h = record {
    storage = length-replicate count z;
    head_in = h;
    size_le = omega arith;
    tail_at = omega arith;
  }

  -- `push` keeps the invariant, also when it refuses.
  pub push-IsValid :
      (count : ℕ) (r : RingBuffer T) (v : T)
      → IsValid count r
      → IsValid count (Ring.push count r v).0
  unfolding Ring.push
  push-IsValid count r v i = elim (Bool-cases (r.size == count)) [
    | inl full ↦ rw full i
    | inr room ↦ rw room (record {
      storage = length-set r.entries r.tail v ∙ i.storage;
      head_in = i.head_in;
      size_le = ground arith;
      tail_at = tail_after count r.head r.size r.tail i.tail_at;
    })
  ]

  -- `pop` keeps the invariant, also when the buffer is empty.
  pub pop-IsValid :
      (count : ℕ) (z : T) (r : RingBuffer T)
      → IsValid count r
      → IsValid count (Ring.pop count z r).0
  unfolding Ring.pop
  pop-IsValid count z r i = elim (Bool-cases (r.size == 0)) [
    | inl none_left ↦ rw none_left i
    | inr some_left ↦ rw some_left (record {
      storage = i.storage;
      head_in = omega arith;
      size_le = omega arith;
      tail_at = head_after count r.head r.size r.tail (ground arith) i.tail_at;
    })
  ]
