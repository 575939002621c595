-- ===== src/Pipeline/State.antt =====
-- The state of `BasicTickToTradePipeline`, and of one message in it. `length` of a message and the
-- number of messages come from the stream, which is an argument.
use fpga_sim_core.Prelude.{ℕ, false, List, replicate}
use fpga_sim_core.Prelude.Int.{ℤ, pos}
use fpga_sim_core.Ring
use fpga_sim_core.Orders
use fpga_sim_core.Book
use fpga_sim_core.Bram
use fpga_sim_core.Dma
use fpga_sim_core.Itch
use fpga_sim_core.Ofi
use fpga_sim_core.Ring.{RingBuffer}
use fpga_sim_core.Mac.{MacFramer}
use fpga_sim_core.Bram.{DualPortBram}
use fpga_sim_core.Dma.{PcieGen4x16Dma}
use fpga_sim_core.Itch.{Itch50Parser, ItchEvent, blank_event}
use fpga_sim_core.Ofi.{OfiDsp, BookQuote, blank_quote}
use fpga_sim_core.Pipeline.{Desk, Slot, empty_slot}

pub record MsgState : Type 0 where
  pub blocks : List ℕ
  pub block_count : ℕ
  pub payload : List ℕ
  pub frame : List ℕ
  pub frame_len : ℕ
  pub event : ItchEvent
  pub quote : BookQuote
  pub ofi : ℤ

abbrev pub blank_state : MsgState
blank_state = record {
  blocks = replicate 8 0;
  block_count = 0;
  payload = replicate 48 0;
  frame = replicate 128 0;
  frame_len = 0;
  event = blank_event;
  quote = blank_quote;
  ofi = pos 0;
}

-- `desk` holds the order table, the book and `error_`; the slot and the engine of the DMA stage are two
-- fields. The PCS decoder has no state.
pub record TickToTrade : Type 0 where
  pub desk : Desk
  pub mac_framer : MacFramer
  pub parser : Itch50Parser
  pub bram : DualPortBram BookQuote
  pub ofi : OfiDsp
  pub dma : Slot
  pub engine : PcieGen4x16Dma
  pub pcs : Slot
  pub mac : Slot
  pub parse : Slot
  pub book_slot : Slot
  pub rd : Slot
  pub ofi_in : Slot
  pub mac_beats_total : ℕ
  pub bram_ring : RingBuffer ℕ
  pub ofi_ring : RingBuffer ℕ
  pub dma_q : RingBuffer ℕ
  pub state : List MsgState
  pub latency : List ℕ
  pub next_msg : ℕ
  pub completed : ℕ
  pub cumulative_ofi : ℤ
  pub last_ofi : ℤ

-- A pipeline as it is constructed, for a stream with the given order capacity and number of messages.
unfoldable pub fresh : ℕ → ℕ → TickToTrade
fresh order_capacity message_count = record {
  desk = record { orders = Orders.fresh order_capacity; book = Book.fresh; error = false };
  mac_framer = record { previous_end = 0; ipg_valid = false };
  parser = Itch.fresh;
  bram = Bram.fresh blank_quote 32 1;
  ofi = Ofi.fresh;
  dma = empty_slot;
  engine = Dma.fresh;
  pcs = empty_slot;
  mac = empty_slot;
  parse = empty_slot;
  book_slot = empty_slot;
  rd = empty_slot;
  ofi_in = empty_slot;
  mac_beats_total = 0;
  bram_ring = Ring.empty 16 0;
  ofi_ring = Ring.empty 16 0;
  dma_q = Ring.empty 64 0;
  state = replicate message_count blank_state;
  latency = replicate message_count 0;
  next_msg = 0;
  completed = 0;
  cumulative_ofi = pos 0;
  last_ofi = pos 0;
}
