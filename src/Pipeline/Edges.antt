-- ===== src/Pipeline/Edges.antt =====
-- `posedge` and `negedge` of the pipeline, stage by stage in the order of the source. The arguments are
-- the stream's number of messages, its messages and its `empty_ask_price`.
use fpga_sim_core.Prelude.{
  ℕ, ◌+◌, ◌%◌, Bool, true, false, not, ◌&&◌, ◌||◌, Option, none, some, get_or, leb, ◌==◌,
  if◌then◌else◌,
}
use fpga_sim_core.Prelude.Int.{ℤ, ◌+ℤ◌}
use fpga_sim_core.Ring
use fpga_sim_core.Bram
use fpga_sim_core.Bram.{PortRequest, PortResponse, no_request}
use fpga_sim_core.Itch
use fpga_sim_core.Itch.{
  Itch50Parser, ParseStatus, ok, unknown_type, truncated, event_limit, blank_event,
}
use fpga_sim_core.Ofi
use fpga_sim_core.Ofi.{BookQuote, blank_quote, Stage}
use fpga_sim_core.Pipeline.{holds, free, work, finished, load, apply_to_book}
use fpga_sim_core.Stream.{Message}
use fpga_sim_core.Pipeline.State.{MsgState, TickToTrade}
use fpga_sim_core.Pipeline.Wire.{msg_state, update, mac_stage, pcs_stage}
use fpga_sim_core.Pipeline.Posting.{id_of, vacated, failed, post_decision}

-- `DualPortBram<BookQuote, 32, 1>`.
abbrev Request : Type 0
Request = PortRequest BookQuote

abbrev idle_port : Request
idle_port = no_request blank_quote 32 1

abbrev pub start_dma : TickToTrade → Option ℕ → ℕ → TickToTrade
start_dma t none cycle = t
start_dma t (some id) cycle = record t { dma = load t.dma (some id) cycle 2 }

unfoldable pub dma_stage : (ℕ → Message) → TickToTrade → ℕ → TickToTrade
dma_stage message t cycle =
    let (q', next) = Ring.pop 64 0 t.dma_q in
    let t1 = if free t.dma then start_dma (record t { dma_q = q' }) next cycle else t in
    let (dma', worked) = work t1.dma cycle in
    let t2 : TickToTrade = record t1 { dma = dma' } in
    if worked && dma'.left == 0 then post_decision message t2 cycle else t2

unfoldable pub ofi_stage : TickToTrade → ℕ → TickToTrade
ofi_stage t cycle =
    let id : ℕ = id_of t.ofi_in.msg in
    let (ring', pushed) = Ring.push 16 t.ofi_ring id in
    if holds t.ofi_in.msg && leb t.ofi_in.avail cycle
    then failed
        (record t {
          ofi = Ofi.posedge t.ofi (msg_state t id).quote;
          ofi_ring = ring';
          ofi_in = vacated t.ofi_in;
        })
        (not pushed)
    else record t { ofi = Ofi.posedge_idle t.ofi }

unfoldable pub read_stage : TickToTrade → ℕ → TickToTrade × Request
read_stage t cycle =
    let id : ℕ = id_of t.rd.msg in
    let (ring', pushed) = Ring.push 16 t.bram_ring id in
    if holds t.rd.msg && leb t.rd.avail cycle
    then (
      failed (record t { bram_ring = ring'; rd = vacated t.rd }) (not pushed),
      record idle_port { read = true; address = id % 32 },
    )
    else (t, idle_port)

unfoldable pub book_stage : ℤ → TickToTrade → ℕ → TickToTrade × Request
book_stage empty_ask_price t cycle =
    let t1 : TickToTrade = record t { book_slot = (work t.book_slot cycle).0 } in
    let id : ℕ = id_of t1.book_slot.msg in
    let s : MsgState = msg_state t1 id in
    let (desk', quote') = apply_to_book empty_ask_price t1.desk s.event in
    if finished t1.book_slot cycle && free t1.rd
    then (
      record (update t1 id (record s { quote = quote' })) {
        desk = desk';
        rd = load t1.rd (some id) (cycle + 1) 1;
        book_slot = vacated t1.book_slot;
      },
      record idle_port { write = true; address = id % 32; write_data = quote' },
    )
    else (t1, idle_port)

-- The parser after the call; `Itch.Loop.parse_lem` gives a result.
abbrev pub parsed : Itch50Parser → Option Itch50Parser → Itch50Parser
parsed p none = p
parsed p (some p') = p'

abbrev pub is_ok : ParseStatus → Bool
is_ok ok = true
is_ok unknown_type = false
is_ok truncated = false
is_ok event_limit = false

unfoldable pub parse_stage : TickToTrade → ℕ → TickToTrade
parse_stage t cycle =
    let t1 : TickToTrade = record t { parse = (work t.parse cycle).0 } in
    let id : ℕ = id_of t1.parse.msg in
    let s : MsgState = msg_state t1 id in
    let p : Itch50Parser = parsed t1.parser (Itch.parse t1.parser s.frame s.frame_len) in
    let bad : Bool =
      not (p.event_count == 1) || not (is_ok p.status) || not (p.consumed == s.frame_len) in
    if finished t1.parse cycle && free t1.book_slot
    then failed
        (record (update t1 id (record s { event = get_or p.events 0 blank_event })) {
          parser = p;
          book_slot = load t1.book_slot (some id) (cycle + 1) 1;
          parse = vacated t1.parse;
        })
        bad
    else t1

unfoldable pub posedge : ℕ → (ℕ → Message) → ℤ → TickToTrade → ℕ → TickToTrade
posedge count message empty_ask_price t cycle =
    let (t1, bram_b) = read_stage (ofi_stage (dma_stage message t cycle) cycle) cycle in
    let (t2, bram_a) = book_stage empty_ask_price t1 cycle in
    let t3 = pcs_stage count message (mac_stage (parse_stage t2 cycle) cycle) cycle in
    if t.desk.error
    then record t {
      bram = Bram.posedge blank_quote 32 1 t.bram idle_port idle_port;
      ofi = Ofi.posedge_idle t.ofi;
    }
    else record t3 { bram = Bram.posedge blank_quote 32 1 t3.bram bram_a bram_b }

-- A response of the quote RAM goes to the OFI stage; the flag says that `negedge` returns early.
unfoldable pub take_response : TickToTrade → Option ℕ → BookQuote → ℕ → TickToTrade × Bool
take_response t none quote' cycle = (failed t true, true)
take_response t (some id) quote' cycle = if not (free t.ofi_in) then (failed t true, true) else (
  record (update t id (record (msg_state t id) { quote = quote' })) {
    ofi_in = load t.ofi_in (some id) (cycle + 1) 0;
  },
  false,
)

unfoldable pub take_output : TickToTrade → Option ℕ → ℤ → TickToTrade
take_output t none value = failed t true
take_output t (some id) value =
    let (q', pushed) = Ring.push 64 t.dma_q id in
    if not pushed
    then failed (record t { dma_q = q' }) true
    else record (update t id (record (msg_state t id) { ofi = value })) {
      dma_q = q';
      last_ofi = value;
      cumulative_ofi = t.cumulative_ofi +ℤ value;
    }

unfoldable pub output_edge : TickToTrade → TickToTrade
output_edge t =
    let (ring', id) = Ring.pop 16 0 t.ofi_ring in
    if t.ofi.output.valid
    then take_output (record t { ofi_ring = ring' }) id t.ofi.output.value
    else t

unfoldable pub negedge : TickToTrade → ℕ → TickToTrade
negedge t cycle =
    let t1 : TickToTrade = record t {
      bram = Bram.negedge blank_quote 32 1 t.bram;
      ofi = Ofi.negedge t.ofi;
    } in
    let (ring', id) = Ring.pop 16 0 t1.bram_ring in
    let (t2, stop) =
      if t1.bram.response_b.valid
      then take_response (record t1 { bram_ring = ring' }) id t1.bram.response_b.value cycle
      else (t1, false) in
    if t.desk.error then t else if stop then t2 else output_edge t2
