-- ===== src/Dma/Posts.antt =====
-- What goes in at `post_write` comes out at `consume`.
use mathlib.Core.List.{append_assoc}
use fpga_sim_core.Prelude.{
  ℕ, ◌+◌, ◌%◌, ◌^◌, ◌≡◌, ◌∙◌, refl, sym, ap, Bool, true, false, Option, none, some, List, [], ◌∷◌,
  ◌++◌, arith, length, length-append, if◌then◌else◌,
}
use fpga_sim_core.Ring
use fpga_sim_core.Ring.{RingBuffer}
use fpga_sim_core.Ring.Inv
use fpga_sim_core.Ring.Inv.{push-IsValid, pop-IsValid, empty-IsValid}
use fpga_sim_core.Ring.Refine.{contents, contents-push, contents-pop, restore}
use fpga_sim_core.Dma
use fpga_sim_core.Dma.{PcieGen4x16Dma, PcieTlp, ring_depth, blank_tlp}

-- The calls of a client.
pub data Call : Type 0 where
  post : PcieTlp → Call
  consumes clears : Call

-- The device with two ledgers beside it: the packets accepted so far, and those handed to the host.
pub record Ledger : Type 0 where
  pub dma : PcieGen4x16Dma
  pub accepted : List PcieTlp
  pub delivered : List PcieTlp

abbrev appended : Bool → PcieTlp → List PcieTlp → List PcieTlp
appended true tlp log = log ++ tlp ∷ []
appended false tlp log = log

abbrev handed : Option PcieTlp → List PcieTlp → List PcieTlp
handed none log = log
handed (some tlp) log = log ++ tlp ∷ []

pub after_call : Ledger → Call → Ledger
after_call l (post tlp) =
    let (dma', done) = Dma.post_write l.dma tlp in
    record l { dma = dma'; accepted = appended done tlp l.accepted }
after_call l consumes =
    let (dma', tlp) = Dma.consume l.dma in
    record l { dma = dma'; delivered = handed tlp l.delivered }
after_call l clears = record l { dma = Dma.clear_msix l.dma }

pub after_calls : Ledger → List Call → Ledger
after_calls l [] = l
after_calls l (c ∷ cs) = after_calls (after_call l c) cs

abbrev pub in_ring : PcieGen4x16Dma → List PcieTlp
in_ring d = contents ring_depth blank_tlp d.ring

pub record IsBalanced (l : Ledger) : Type 0 where
  pub ring_valid : Inv.IsValid ring_depth l.dma.ring
  pub balanced : l.accepted ≡ l.delivered ++ in_ring l.dma
  pub counted : l.dma.posted ≡ length l.accepted % 2 ^ 64

post_write-ring :
    (d : PcieGen4x16Dma) (tlp : PcieTlp)
    → (Dma.post_write d tlp).0.ring ≡ (Ring.push ring_depth d.ring tlp).0
unfolding Dma.post_write
post_write-ring d tlp = ground arith

post_write-result :
    (d : PcieGen4x16Dma) (tlp : PcieTlp)
    → (Dma.post_write d tlp).1 ≡ (Ring.push ring_depth d.ring tlp).1
unfolding Dma.post_write
post_write-result d tlp = ground arith

post_write-posted :
    (d : PcieGen4x16Dma) (tlp : PcieTlp)
    → (Dma.post_write d tlp).0.posted
      ≡ (if (Ring.push ring_depth d.ring tlp).1 then (d.posted + 1) % 2 ^ 64 else d.posted)
unfolding Dma.post_write
post_write-posted d tlp = ground arith

post_balanced :
    (log sent held : List PcieTlp) (tlp : PcieTlp) (done : Bool)
    → log ≡ sent ++ held
    → appended done tlp log ≡ sent ++ (if done then held ++ tlp ∷ [] else held)
post_balanced log sent held tlp true e = rw e (append_assoc sent held (tlp ∷ []))
post_balanced log sent held tlp false e = e

post_counted :
    (log : List PcieTlp) (tlp : PcieTlp) (done : Bool) (posted : ℕ)
    → posted ≡ length log % 2 ^ 64
    → (if done then (posted + 1) % 2 ^ 64 else posted) ≡ length (appended done tlp log) % 2 ^ 64
post_counted log tlp true posted e = omega (arith, length-append log (tlp ∷ []))
post_counted log tlp false posted e = e

consume_balanced :
    (log sent held rest : List PcieTlp) (got : Option PcieTlp)
    → log ≡ sent ++ held
    → held ≡ restore got rest
    → log ≡ handed got sent ++ rest
consume_balanced log sent held rest none e f = e ∙ ap (◌++◌ sent) f
consume_balanced log sent held rest (some tlp) e f =
    e ∙ ap (◌++◌ sent) f ∙ sym (append_assoc sent (tlp ∷ []) rest)

after_call-IsBalanced : (l : Ledger) (c : Call) → IsBalanced l → IsBalanced (after_call l c)
unfolding after_call Dma.consume Dma.clear_msix
after_call-IsBalanced l (post tlp) b = record {
  ring_valid = rw (post_write-ring l.dma tlp) (push-IsValid ring_depth l.dma.ring tlp b.ring_valid);
  balanced =
      rw
        (
          post_write-ring l.dma tlp,
          post_write-result l.dma tlp,
          contents-push ring_depth blank_tlp l.dma.ring tlp b.ring_valid,
        )
        (post_balanced l.accepted l.delivered (in_ring l.dma) tlp _ b.balanced);
  counted =
      rw (post_write-posted l.dma tlp, post_write-result l.dma tlp)
        (post_counted l.accepted tlp _ l.dma.posted b.counted);
}
after_call-IsBalanced l consumes b = record {
  ring_valid = pop-IsValid ring_depth blank_tlp l.dma.ring b.ring_valid;
  balanced =
      consume_balanced l.accepted l.delivered (in_ring l.dma) _ _ b.balanced
        (contents-pop ring_depth blank_tlp l.dma.ring);
  counted = b.counted;
}
after_call-IsBalanced l clears b = record {
  ring_valid = b.ring_valid;
  balanced = b.balanced;
  counted = b.counted;
}

after_calls-IsBalanced :
    (l : Ledger) (cs : List Call) → IsBalanced l → IsBalanced (after_calls l cs)
unfolding after_calls
after_calls-IsBalanced l [] b = b
after_calls-IsBalanced l (c ∷ cs) b =
    after_calls-IsBalanced (after_call l c) cs (after_call-IsBalanced l c b)

abbrev pub at_start : Ledger
at_start = record { dma = Dma.fresh; accepted = []; delivered = [] }

at_start-IsBalanced : IsBalanced at_start
unfolding Dma.fresh contents Ring.empty
at_start-IsBalanced = record {
  ring_valid = empty-IsValid ring_depth blank_tlp (omega arith);
  balanced = refl;
  counted = refl;
}

-- After any sequence of posts, consumes and interrupt clears from a fresh device, the packets
-- accepted are those delivered followed by those in the ring, in that order: none is lost, repeated
-- or reordered. The count of posts is the number of packets accepted, modulo 2 ^ 64.
pub posts_balance : (cs : List Call) → IsBalanced (after_calls at_start cs)
posts_balance cs = after_calls-IsBalanced at_start cs at_start-IsBalanced
