-- ===== src/Pipeline/Posting.antt =====
-- `post_decision`: the packet of a decision, posted and drained. A `std::uint32_t` of a signed word is
-- its bit pattern.
use fpga_sim_core.Prelude.{
  ℕ, zero, suc, ◌+◌, ◌-◌, ◌*◌, ◌/◌, ◌%◌, ◌^◌, Bool, true, false, not, ◌||◌, Option, none, some,
  List, get_or, set, ◌==◌, if◌then◌else◌,
}
use fpga_sim_core.Prelude.Int.{to_u32}
use fpga_sim_core.Dma
use fpga_sim_core.Dma.{PcieTlp, PcieGen4x16Dma, blank_tlp}
use fpga_sim_core.Pipeline.{Slot, fail}
use fpga_sim_core.Stream.{Message}
use fpga_sim_core.Pipeline.State.{MsgState, blank_state, TickToTrade}

-- The message of a slot that has one; the callers have checked that.
abbrev pub id_of : Option ℕ → ℕ
id_of none = 0
id_of (some id) = id

abbrev pub vacated : Slot → Slot
vacated s = record s { msg = none }

abbrev pub failed : TickToTrade → Bool → TickToTrade
failed t true = record t { desk = fail t.desk }
failed t false = t

-- `put`, from byte `i` on.
unfoldable pub put : List ℕ → ℕ → ℕ → ℕ → ℕ → List ℕ
put payload off v i zero = payload
put payload off v i (suc rounds) =
    put (set payload (off + i) (v / 2 ^ ((3 - i) * 8) % 256)) off v (i + 1) rounds

unfoldable pub decision_tlp : ℕ → MsgState → PcieTlp
unfolding put
decision_tlp id s =
    let p0 = put blank_tlp.payload 0 (id % 2 ^ 32) 0 4 in
    let p1 = put p0 4 (to_u32 s.ofi) 0 4 in
    let p2 = put p1 8 (to_u32 s.quote.bid_price) 0 4 in
    let p3 = put p2 12 (to_u32 s.quote.ask_price) 0 4 in
    record {
      address = (0x10000000 + 64 * id) % 2 ^ 64;
      byte_count = 16;
      tag = id % 2 ^ 32;
      payload = p3;
    }

abbrev pub has_tag : ℕ → Option PcieTlp → Bool
has_tag tag none = false
has_tag tag (some drained) = drained.tag == tag

-- The condition of `post_decision`, negated, with the engine after it: post, and where that succeeded
-- drain and compare the tags. The interrupt is asserted after every successful post.
unfoldable pub post_and_drain : PcieGen4x16Dma → PcieTlp → PcieGen4x16Dma × Bool
post_and_drain engine tlp =
    let (posted, accepted) = Dma.post_write engine tlp in
    if not accepted || not posted.msix
    then (posted, false)
    else (let (drained, got) = Dma.consume posted in (Dma.clear_msix drained, has_tag tlp.tag got))

unfoldable pub post_decision : (ℕ → Message) → TickToTrade → ℕ → TickToTrade
unfolding post_and_drain decision_tlp
post_decision message t cycle =
    let id : ℕ = id_of t.dma.msg in
    let (engine', good) =
      post_and_drain t.engine (decision_tlp id (get_or t.state id blank_state)) in
    let t' = failed t (not good) in
    record t' {
      engine = engine';
      latency =
          set t'.latency id ((cycle + 2 ^ 64 - (message id).arrival_cycle + 1) % 2 ^ 64 % 2 ^ 32);
      dma = vacated t'.dma;
      completed = (t'.completed + 1) % 2 ^ 64;
    }
