-- ===== src/Pipeline/Posted.antt =====
-- A decision that is posted to an empty ring.
use fpga_sim_core.Prelude.{
  ◌+◌, ◌%◌, ◌^◌, ◌≡◌, ◌∙◌, refl, ap, true, false, some, arith, get_or, set, get_or-set_self,
}
use fpga_sim_core.Ring
use fpga_sim_core.Ring.{RingBuffer}
use fpga_sim_core.Ring.Inv.{IsValid, push-IsValid, pop-IsValid}
use fpga_sim_core.Dma
use fpga_sim_core.Dma.{PcieTlp, PcieGen4x16Dma, blank_tlp}
use fpga_sim_core.Pipeline.Posting.{post_and_drain}

module _ (r : RingBuffer PcieTlp) (v : PcieTlp) (i : IsValid 64 r) (e : r.size ≡ 0) where
  push_empty : (Ring.push 64 r v).1 ≡ true
  unfolding Ring.push
  push_empty = rw e refl

  pop_pushed : (Ring.pop 64 blank_tlp (Ring.push 64 r v).0).1 ≡ some v
  unfolding Ring.push Ring.pop
  pop_pushed = rw e (
      ap (λ at. some (get_or (set r.entries r.tail v) at blank_tlp)) head_is_tail
      ∙ ap some (
          get_or-set_self r.entries r.tail v blank_tlp
            (omega (arith, head_is_tail, i.storage, i.head_in))))
    where
      head_is_tail : r.head ≡ r.tail
      head_is_tail = omega (arith, i.tail_at, i.head_in, e)

  empty_again : (Ring.pop 64 blank_tlp (Ring.push 64 r v).0).0.size ≡ 0
  unfolding Ring.push Ring.pop
  empty_again = rw e refl

-- Posting a decision to a valid, empty ring and draining it succeeds with the packet's own tag: the
-- ring is valid and empty again, the count of posts is one higher modulo 2 ^ 64 and the interrupt is
-- clear.
pub post_and_drain_lem :
    (engine : PcieGen4x16Dma) (tlp : PcieTlp)
    → IsValid 64 engine.ring
    → engine.ring.size ≡ 0
    → let (engine', good) = post_and_drain engine tlp in
      (good ≡ true)
      × IsValid 64 engine'.ring
      × (engine'.ring.size ≡ 0)
      × (engine'.posted ≡ (engine.posted + 1) % 2 ^ 64)
      × (engine'.msix ≡ false)
unfolding post_and_drain Dma.post_write Dma.consume Dma.clear_msix
post_and_drain_lem engine tlp i e = rw (push_empty engine.ring tlp i e) (
  rw (pop_pushed engine.ring tlp i e) (ground arith),
  pop-IsValid 64 blank_tlp (Ring.push 64 engine.ring tlp).0 (push-IsValid 64 engine.ring tlp i),
  empty_again engine.ring tlp i e,
  refl,
  refl,
)
