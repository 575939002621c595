-- ===== src/Pipeline.antt =====
-- include/pipeline/tick_to_trade.hpp: `BasicTickToTradePipeline`. Here are the slots of its stages and
-- what the book stage does with a message; the children hold the state and the clock edges. A slot
-- without a message (`msg < 0`) holds `none`. The stream's `empty_ask_price` is an argument.
pub mod Slots
pub mod Applied
pub mod Errors
pub mod State
pub mod Posting
pub mod Wire
pub mod Edges
pub mod Frozen
pub mod Posted
pub mod Line
pub mod Report
pub mod Summary
pub mod Driven
mod Tests
use fpga_sim_core.Prelude.{
  ℕ, ◌+◌, ◌-◌, ◌%◌, ◌^◌, Bool, true, false, not, ◌&&◌, ◌||◌, Option, none, some, List, ltb, leb,
  ◌==◌, if◌then◌else◌,
}
use fpga_sim_core.Prelude.Int.{ℤ, pos, int32_max, to_int32}
use fpga_sim_core.Itch.{
  ItchType, ItchEvent, add, add_mpid, executed, executed_price, cancel, delete_order, replace,
  unknown,
}
use fpga_sim_core.Orders
use fpga_sim_core.Orders.{OrderTable, Reduced}
use fpga_sim_core.Book
use fpga_sim_core.Book.{FiveLevelOrderBook, BookLevel, best_bid, best_ask}
use fpga_sim_core.Ofi.{BookQuote}

pub record Slot : Type 0 where
  pub msg : Option ℕ
  pub avail : ℕ
  pub left : ℕ

unfoldable pub empty_slot : Slot
empty_slot = record { msg = none; avail = 0; left = 0 }

abbrev pub holds {ℓ} : {A : Type ℓ} → Option A → Bool
holds none = false
holds (some m) = true

unfoldable pub free : Slot → Bool
free s = not (holds s.msg)

-- `work`: the slot after the call, and whether a cycle of work was used.
unfoldable pub work : Slot → ℕ → Slot × Bool
work s cycle =
    if holds s.msg && leb s.avail cycle && ltb 0 s.left
    then (record s { left = s.left - 1 }, true)
    else (s, false)

unfoldable pub finished : Slot → ℕ → Bool
finished s cycle = holds s.msg && leb s.avail cycle && s.left == 0

unfoldable pub load : Slot → Option ℕ → ℕ → ℕ → Slot
load s m a l = record { msg = m; avail = a; left = l }

-- `static_cast<std::int32_t>` of a message's index, as the `msg` of a slot: none for a negative number.
unfoldable pub slot_id : ℕ → Option ℕ
slot_id n = if ltb (n % 2 ^ 32) (2 ^ 31) then some (n % 2 ^ 32) else none

-- What `apply_to_book` reads and writes beside the message: the live orders, the book and `error_`.
pub record Desk : Type 0 where
  pub orders : OrderTable
  pub book : FiveLevelOrderBook
  pub error : Bool

unfoldable pub fail : Desk → Desk
fail d = record d { error = true }

-- `if (!orders_.insert(...)) fail(); book_.add(...);`
unfoldable pub enter : Desk → ℕ → Bool → ℤ → ℤ → Desk
unfolding fail
enter d reference bid price shares =
    let (orders', inserted) = Orders.insert d.orders reference bid price shares in
    let d' =
      if inserted then record d { orders = orders' } else fail (record d { orders = orders' }) in
    record d' { book = Book.add d.book bid price shares }

-- `if (!orders_.reduce(...)) fail(); else book_.execute(bid, price, applied);`, with what was reduced.
unfoldable pub take_off : Desk → Option Reduced → Desk
unfolding fail
take_off d none = fail d
take_off d (some r) = record d { book = Book.execute d.book r.side_bid r.price r.applied }

unfoldable pub lower_order : Desk → ℕ → ℤ → Desk
unfolding take_off
lower_order d reference shares =
    let (orders', result) = Orders.reduce d.orders reference shares in
    take_off (record d { orders = orders' }) result

-- The rest of the case `replace`: the new order is on the side of the old one.
unfoldable pub replace_with : Desk → Option Reduced → ItchEvent → Desk
unfolding fail enter take_off
replace_with d none e = fail d
replace_with d (some r) e =
    enter (take_off d (some r)) e.new_reference r.side_bid (to_int32 e.price_ticks)
      (to_int32 e.shares)

unfoldable pub apply_event : Desk → ItchEvent → ItchType → Desk
unfolding enter lower_order replace_with fail
apply_event d e add =
    enter d e.order_reference (e.side == b'B') (to_int32 e.price_ticks) (to_int32 e.shares)
apply_event d e add_mpid =
    enter d e.order_reference (e.side == b'B') (to_int32 e.price_ticks) (to_int32 e.shares)
apply_event d e executed = lower_order d e.order_reference (to_int32 e.shares)
apply_event d e executed_price = lower_order d e.order_reference (to_int32 e.shares)
apply_event d e cancel = lower_order d e.order_reference (to_int32 e.shares)
apply_event d e delete_order = lower_order d e.order_reference int32_max
apply_event d e replace =
    let (orders', result) = Orders.reduce d.orders e.order_reference int32_max in
    replace_with (record d { orders = orders' }) result e
apply_event d e unknown = fail d

-- The quote at the end of `apply_to_book`.
unfoldable pub quote_of : ℤ → FiveLevelOrderBook → BookQuote
quote_of empty_ask_price b =
    let bid : BookLevel = best_bid b in
    let ask : BookLevel = best_ask b in
    record {
      bid_price = if bid.valid then bid.price else pos 0;
      bid_qty = if bid.valid then bid.quantity else pos 0;
      ask_price = if ask.valid then ask.price else empty_ask_price;
      ask_qty = if ask.valid then ask.quantity else pos 0;
    }

-- `apply_to_book(s)`: the desk and the new quote of `s`.
unfoldable pub apply_to_book : ℤ → Desk → ItchEvent → Desk × BookQuote
unfolding apply_event quote_of
apply_to_book empty_ask_price d e =
    let d' = apply_event d e e.type in (d', quote_of empty_ask_price d'.book)
