-- ===== src/FullBook.antt =====
-- tools/itch_analysis.hpp: `RealBook`, every price level and every resting order of one stock, with
-- `locate_of` and `timestamp_ns`. A map is the list of its entries, whose keys differ: a `std::map` in
-- the order of the keys, an `std::unordered_map` in any order. A sum of 64 bits is exact here: it
-- takes 2 ^ 31 orders at one price to leave them.
pub mod Maps
pub mod Totals
pub mod Sorted
pub mod Sides
pub mod Changes
pub mod Keep
pub mod Best
pub mod Applied
mod Tests
use fpga_sim_core.Prelude.{
  ℕ, ◌+◌, ◌%◌, ◌^◌, Bool, true, false, ◌||◌, Option, none, some, List, [], ◌∷◌, get_or, length,
  ◌==◌, if◌then◌else◌,
}
use fpga_sim_core.Prelude.Int.{ℤ, pos, ◌+ℤ◌, ◌-ℤ◌, ltb_ℤ, leb_ℤ, eqb_ℤ}
use fpga_sim_core.Walk.{be}

unfoldable pub locate_of : List ℕ → ℕ
locate_of m = be m 1 2 0 % 2 ^ 16

unfoldable pub timestamp_ns : List ℕ → ℕ
timestamp_ns m = be m 5 6 0

pub record Order : Type 0 where
  pub bid : Bool
  pub price : ℤ
  pub shares : ℤ

pub record RealBook : Type 0 where
  pub bids : List (ℤ × ℤ)
  pub asks : List (ℤ × ℤ)
  pub orders : List (ℕ × Order)
  pub unknown_refs : ℕ

abbrev pub fresh : RealBook
fresh = record { bids = []; asks = []; orders = []; unknown_refs = 0 }

-- `find`, assignment at a key and `erase` of the two kinds of map.
unfoldable pub find_order : List (ℕ × Order) → ℕ → Option Order
find_order [] ref = none
find_order ((k, o) ∷ os) ref = let rest = find_order os ref in if k == ref then some o else rest

unfoldable pub set_order : List (ℕ × Order) → ℕ → Order → List (ℕ × Order)
set_order [] ref o = (ref, o) ∷ []
set_order ((k, v) ∷ os) ref o =
    let rest = set_order os ref o in if k == ref then (ref, o) ∷ os else (k, v) ∷ rest

unfoldable pub erase_order : List (ℕ × Order) → ℕ → List (ℕ × Order)
erase_order [] ref = []
erase_order ((k, v) ∷ os) ref =
    let rest = erase_order os ref in if k == ref then rest else (k, v) ∷ rest

unfoldable pub find_level : List (ℤ × ℤ) → ℤ → Option ℤ
find_level [] price = none
find_level ((p, q) ∷ ls) price =
    let rest = find_level ls price in if eqb_ℤ p price then some q else rest

unfoldable pub set_level : List (ℤ × ℤ) → ℤ → ℤ → List (ℤ × ℤ)
set_level [] price qty = (price, qty) ∷ []
set_level ((p, q) ∷ ls) price qty =
    let rest = set_level ls price qty in
    if eqb_ℤ p price
    then (price, qty) ∷ ls
    else if ltb_ℤ price p
    then (price, qty) ∷ (p, q) ∷ ls
    else (p, q) ∷ rest

unfoldable pub erase_level : List (ℤ × ℤ) → ℤ → List (ℤ × ℤ)
erase_level [] price = []
erase_level ((p, q) ∷ ls) price =
    let rest = erase_level ls price in if eqb_ℤ p price then rest else (p, q) ∷ rest

-- `(bid ? bids_ : asks_)`, read and written.
abbrev pub side_of : RealBook → Bool → List (ℤ × ℤ)
side_of b true = b.bids
side_of b false = b.asks

abbrev pub with_side : RealBook → Bool → List (ℤ × ℤ) → RealBook
with_side b true ls = record b { bids = ls }
with_side b false ls = record b { asks = ls }

-- A level that `operator[]` makes starts at 0.
abbrev pub quantity : Option ℤ → ℤ
quantity none = pos 0
quantity (some q) = q

unfoldable pub add : RealBook → ℕ → Bool → ℤ → ℤ → RealBook
add b ref bid price shares =
    let side = side_of b bid in
    with_side
      (record b {
        orders = set_order b.orders ref (record { bid = bid; price = price; shares = shares });
      })
      bid (set_level side price (quantity (find_level side price) +ℤ shares))

abbrev pub taken_from : RealBook → Order → Option ℤ → ℤ → RealBook
taken_from b o none n = b
taken_from b o (some qty) n =
    let qty' = qty -ℤ n in
    with_side b o.bid (
      if leb_ℤ qty' (pos 0)
      then erase_level (side_of b o.bid) o.price
      else set_level (side_of b o.bid) o.price qty')

unfoldable pub take : RealBook → Order → ℤ → RealBook
take b o n = taken_from b o (find_level (side_of b o.bid) o.price) n

abbrev pub unknown_ref : RealBook → RealBook
unknown_ref b = record b { unknown_refs = (b.unknown_refs + 1) % 2 ^ 64 }

abbrev pub reduce_found : RealBook → ℕ → Option Order → ℤ → RealBook
reduce_found b ref none shares = unknown_ref b
reduce_found b ref (some o) shares =
    let n = if ltb_ℤ o.shares shares then o.shares else shares in
    let b1 = take b o n in
    let left = o.shares -ℤ n in
    record b1 {
      orders =
          if leb_ℤ left (pos 0)
          then erase_order b1.orders ref
          else set_order b1.orders ref (record o { shares = left });
    }

unfoldable pub reduce : RealBook → ℕ → ℤ → RealBook
reduce b ref shares = reduce_found b ref (find_order b.orders ref) shares

abbrev pub remove_found : RealBook → ℕ → Option Order → RealBook
remove_found b ref none = unknown_ref b
remove_found b ref (some o) =
    let b1 = take b o o.shares in record b1 { orders = erase_order b1.orders ref }

unfoldable pub remove : RealBook → ℕ → RealBook
remove b ref = remove_found b ref (find_order b.orders ref)

abbrev pub replace_found : RealBook → List ℕ → Option Order → RealBook
replace_found b m none = unknown_ref b
replace_found b m (some o) =
    add (remove b (be m 11 8 0)) (be m 19 8 0) o.bid (pos (be m 31 4 0)) (pos (be m 27 4 0))

-- `apply`: the book after the message, and whether the message is one that touches it.
unfoldable pub apply : RealBook → List ℕ → RealBook × Bool
apply b m =
    let type : ℕ = get_or m 0 0 in
    let ref : ℕ = be m 11 8 0 in
    if type == b'A' || type == b'F'
    then (add b ref (get_or m 19 0 == b'B') (pos (be m 32 4 0)) (pos (be m 20 4 0)), true)
    else if type == b'E' || (type == b'C' || type == b'X')
    then (reduce b ref (pos (be m 19 4 0)), true)
    else if type == b'D'
    then (remove b ref, true)
    else if type == b'U'
    then (replace_found b m (find_order b.orders ref), true)
    else (b, false)

abbrev pub bid_levels : RealBook → ℕ
bid_levels b = length b.bids

abbrev pub ask_levels : RealBook → ℕ
ask_levels b = length b.asks

abbrev pub order_count : RealBook → ℕ
order_count b = length b.orders

-- The first and the last key of a map in the order of the keys.
unfoldable pub first_price : List (ℤ × ℤ) → Option ℤ
first_price [] = none
first_price ((p, q) ∷ ls) = some p

unfoldable pub last_price : List (ℤ × ℤ) → Option ℤ → Option ℤ
last_price [] last = last
last_price ((p, q) ∷ ls) last = last_price ls (some p)

unfoldable pub best_bid : RealBook → Option ℤ
best_bid b = last_price b.bids none

unfoldable pub best_ask : RealBook → Option ℤ
best_ask b = first_price b.asks
