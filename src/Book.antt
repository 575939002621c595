-- ===== src/Book.antt =====
-- include/modules/order_book.hpp: `FiveLevelOrderBook`. A side is the list of its levels, unsorted.
-- Prices and quantities are `std::int32_t`; a sum or difference of those wraps around where it does
-- not fit (undefined in the source). The count of dropped adds is a 64-bit word.
pub mod View
pub mod Keep
pub mod Best
pub mod Sound
mod Tests
use fpga_sim_core.Prelude.{
  ℕ, ◌+◌, ◌%◌, ◌^◌, Bool, true, false, not, ◌&&◌, ◌||◌, Option, none, some, List, [], ◌∷◌,
  replicate, if◌then◌else◌,
}
use fpga_sim_core.Prelude.Int.{ℤ, pos, ◌+ℤ◌, ◌-ℤ◌, ltb_ℤ, leb_ℤ, eqb_ℤ, wrap32}

pub record BookLevel : Type 0 where
  pub price : ℤ
  pub quantity : ℤ
  pub valid : Bool

abbrev pub blank_level : BookLevel
blank_level = record { price = pos 0; quantity = pos 0; valid = false }

abbrev pub Side : Type 0
Side = List BookLevel

abbrev pub levels : ℕ
levels = 5

pub record FiveLevelOrderBook : Type 0 where
  pub bids : Side
  pub asks : Side
  pub collision : Bool
  pub overflow_count : ℕ

unfoldable pub fresh : FiveLevelOrderBook
fresh = record {
  bids = replicate levels blank_level;
  asks = replicate levels blank_level;
  collision = false;
  overflow_count = 0;
}

unfoldable pub reset : FiveLevelOrderBook → FiveLevelOrderBook
reset b = record b {
  bids = replicate levels blank_level;
  asks = replicate levels blank_level;
  collision = false;
  overflow_count = 0;
}

abbrev pub at_price : ℤ → BookLevel → Bool
at_price price l = l.valid && eqb_ℤ l.price price

abbrev pub prepend {ℓ} : {A : Type ℓ} → A → Option (List A) → Option (List A)
prepend a none = none
prepend a (some rest) = some (a ∷ rest)

-- The first loop of `add`: the side after an early return, or `none` where the loop runs through.
unfoldable pub add_to_level : Side → ℤ → ℤ → Option Side
add_to_level [] price quantity = none
add_to_level (l ∷ ls) price quantity =
    let rest = add_to_level ls price quantity in
    if at_price price l
    then some (record l { quantity = wrap32 (l.quantity +ℤ quantity) } ∷ ls)
    else prepend l rest

-- The second loop of `add`.
unfoldable pub open_level : Side → ℤ → ℤ → Option Side
open_level [] price quantity = none
open_level (l ∷ ls) price quantity =
    let rest = open_level ls price quantity in
    if not l.valid
    then some (record { price = price; quantity = quantity; valid = true } ∷ ls)
    else prepend l rest

abbrev pub or_else : Option Side → Option Side → Option Side
or_else (some s) t = some s
or_else none t = t

-- `add` on one side; `none` where the add is dropped.
unfoldable pub add_side : Side → ℤ → ℤ → Option Side
add_side side price quantity =
    or_else (add_to_level side price quantity) (open_level side price quantity)

abbrev pub with_bids : FiveLevelOrderBook → Option Side → FiveLevelOrderBook
with_bids b none = record b { overflow_count = (b.overflow_count + 1) % 2 ^ 64 }
with_bids b (some side) = record b { bids = side }

abbrev pub with_asks : FiveLevelOrderBook → Option Side → FiveLevelOrderBook
with_asks b none = record b { overflow_count = (b.overflow_count + 1) % 2 ^ 64 }
with_asks b (some side) = record b { asks = side }

unfoldable pub add : FiveLevelOrderBook → Bool → ℤ → ℤ → FiveLevelOrderBook
add b bid price quantity =
    if bid
    then with_bids b (add_side b.bids price quantity)
    else with_asks b (add_side b.asks price quantity)

unfoldable pub executed_level : ℤ → BookLevel → BookLevel
executed_level quantity l =
    let quantity' = wrap32 (l.quantity -ℤ quantity) in
    if leb_ℤ quantity' (pos 0) then blank_level else record l { quantity = quantity' }

-- The loop of `execute`; without a level at the price nothing changes.
unfoldable pub execute_side : Side → ℤ → ℤ → Side
execute_side [] price quantity = []
execute_side (l ∷ ls) price quantity =
    let rest = execute_side ls price quantity in
    if at_price price l then executed_level quantity l ∷ ls else l ∷ rest

unfoldable pub execute : FiveLevelOrderBook → Bool → ℤ → ℤ → FiveLevelOrderBook
execute b bid price quantity =
    if bid
    then record b { bids = execute_side b.bids price quantity }
    else record b { asks = execute_side b.asks price quantity }

-- The loops of `best_bid` and `best_ask`, with the best level so far; `better p q` is the comparison
-- of a level's price with the best one's.
unfoldable pub best_loop : (ℤ → ℤ → Bool) → Side → BookLevel → BookLevel
best_loop better [] best = best
best_loop better (l ∷ ls) best =
    best_loop better ls
      (if l.valid && (not best.valid || better l.price best.price) then l else best)

abbrev pub higher : ℤ → ℤ → Bool
higher p q = ltb_ℤ q p

abbrev pub lower : ℤ → ℤ → Bool
lower p q = ltb_ℤ p q

unfoldable pub best_bid : FiveLevelOrderBook → BookLevel
best_bid b = best_loop higher b.bids blank_level

unfoldable pub best_ask : FiveLevelOrderBook → BookLevel
best_ask b = best_loop lower b.asks blank_level
