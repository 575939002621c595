-- ===== src/Oracle/Replay.antt =====
-- include/pipeline/tick_to_trade.hpp: what the stages PARSE and BOOK do with the messages of a stream, one
-- after the other. The frame of a message is its bytes.
use fpga_sim_core.Prelude.{ℕ, zero, suc, Bool, false, not, ◌||◌, List, get_or, ◌==◌, if◌then◌else◌}
use fpga_sim_core.Prelude.Int.{ℤ}
use fpga_sim_core.Itch
use fpga_sim_core.Itch.{ItchEvent, blank_event, Itch50Parser}
use fpga_sim_core.Orders
use fpga_sim_core.Book
use fpga_sim_core.Ofi.{BookQuote}
use fpga_sim_core.Stream.{Message}
use fpga_sim_core.Stream.Synthetic.{blank_message}
use fpga_sim_core.Pipeline.{Desk, fail, apply_to_book}
use fpga_sim_core.Pipeline.Edges.{parsed, is_ok}

pub record Stages : Type 0 where
  pub parser : Itch50Parser
  pub desk : Desk

unfoldable pub fresh : Stages
unfolding Itch.fresh
fresh = record {
  parser = Itch.fresh;
  desk = record { orders = Orders.fresh 128; book = Book.fresh; error = false };
}

-- The stage PARSE on a frame: the parser after it, and whether it is an error.
unfoldable pub read_frame : Itch50Parser → Message → Itch50Parser × Bool
read_frame p m =
    let p' : Itch50Parser = parsed p (Itch.parse p m.bytes m.length) in
    (p', not (p'.event_count == 1) || not (is_ok p'.status) || not (p'.consumed == m.length))

-- A message through both stages, and the quote after it.
unfoldable pub feed : ℤ → Stages → Message → Stages × BookQuote
unfolding fail
feed empty_ask_price st m =
    let (p, bad) = read_frame st.parser m in
    let d : Desk = if bad then fail st.desk else st.desk in
    let (d', quote) = apply_to_book empty_ask_price d (get_or p.events 0 blank_event) in
    (record { parser = p; desk = d' }, quote)

-- The stages after the first `n` messages.
unfoldable pub stages_after : ℤ → List Message → ℕ → Stages
unfolding fresh feed
stages_after empty_ask_price ms zero = fresh
stages_after empty_ask_price ms (suc n) =
    (feed empty_ask_price (stages_after empty_ask_price ms n) (get_or ms n blank_message)).0

-- The quote that message `n` leads to.
unfoldable pub replayed_quote : ℤ → List Message → ℕ → BookQuote
replayed_quote empty_ask_price ms n =
    (feed empty_ask_price (stages_after empty_ask_price ms n) (get_or ms n blank_message)).1
