-- ===== src/Book/Keep.antt =====
-- `add` and `execute` on the whole book: what they change, and that they keep both sides valid.
use fpga_sim_core.Prelude.{
  ◌+◌, ◌%◌, ◌^◌, ◌≡◌, refl, Bool, true, false, not, ◌&&◌, ◌||◌, Option, none, some, if◌then◌else◌,
}
use fpga_sim_core.Prelude.Int.{ℤ, pos, ◌≤ℤ◌, IsInt32, eqb_ℤ}
use fpga_sim_core.Book
use fpga_sim_core.Book.{
  BookLevel, blank_level, Side, FiveLevelOrderBook, at_price, executed_level, execute_side,
  add_side, with_bids, with_asks,
}
use fpga_sim_core.Book.View.{
  depth, has_room, is_some, IsValid, added, reduced, Added, add_side_lem, execute_side-depth,
}

abbrev pub side_of : Bool → FiveLevelOrderBook → Side
side_of true b = b.bids
side_of false b = b.asks

abbrev pub same : Bool → Bool → Bool
same true s = s
same false s = not s

-- Whether an add finds a place.
abbrev pub fits : FiveLevelOrderBook → Bool → ℤ → Bool
fits b bid price = is_some (depth price (side_of bid b)) || has_room (side_of bid b)

bids_dropped :
    (b : FiveLevelOrderBook) (s : Bool) (q : ℤ)
    → depth q (side_of s (with_bids b none)) ≡ depth q (side_of s b)
bids_dropped b true q = refl
bids_dropped b false q = refl

asks_dropped :
    (b : FiveLevelOrderBook) (s : Bool) (q : ℤ)
    → depth q (side_of s (with_asks b none)) ≡ depth q (side_of s b)
asks_dropped b true q = refl
asks_dropped b false q = refl

module _ (b : FiveLevelOrderBook) (price quantity : ℤ) (s : Bool) (q : ℤ) where
  -- The book after an outcome of `add_side`.
  abbrev AddedTo : Bool → FiveLevelOrderBook → Type 0
  AddedTo bid b' =
      (depth q (side_of s b') ≡ (
        if fits b bid price && same bid s && eqb_ℤ price q
        then some (added (depth price (side_of bid b)) quantity)
        else depth q (side_of s b)))
      × (b'.overflow_count
          ≡ (if fits b bid price then b.overflow_count else (b.overflow_count + 1) % 2 ^ 64))

  bids-Added : (r : Option Side) → Added b.bids price quantity q r → AddedTo true (with_bids b r)
  bids-Added none a = rw (a.0, a.1) (bids_dropped b s q, refl)
  bids-Added (some side) a = rw a.0 (at_side s a.1, refl)
    where
      at_side :
          (t : Bool)
          → depth q side
            ≡ (if eqb_ℤ price q then some (added (depth price b.bids) quantity) else depth q b.bids)
          → depth q (side_of t (record b { bids = side })) ≡ (
              if t && eqb_ℤ price q
              then some (added (depth price b.bids) quantity)
              else depth q (side_of t b))
      at_side true e = e
      at_side false e = refl

  asks-Added : (r : Option Side) → Added b.asks price quantity q r → AddedTo false (with_asks b r)
  asks-Added none a = rw (a.0, a.1) (asks_dropped b s q, refl)
  asks-Added (some side) a = rw a.0 (at_side s a.1, refl)
    where
      at_side :
          (t : Bool)
          → depth q side
            ≡ (if eqb_ℤ price q then some (added (depth price b.asks) quantity) else depth q b.asks)
          → depth q (side_of t (record b { asks = side })) ≡ (
              if not t && eqb_ℤ price q
              then some (added (depth price b.asks) quantity)
              else depth q (side_of t b))
      at_side true e = refl
      at_side false e = e

-- An add finds a place where its side has a level at the price or a level not in use. Then the
-- quantity at the price grows by that of the add, or starts with it; no other price of the side and
-- nothing of the other side changes. An add without a place changes no quantity and is counted, modulo
-- 2 ^ 64.
pub add_lem :
    (b : FiveLevelOrderBook) (bid : Bool) (price quantity : ℤ) (s : Bool) (q : ℤ)
    → let b' = Book.add b bid price quantity in
      (depth q (side_of s b') ≡ (
        if fits b bid price && same bid s && eqb_ℤ price q
        then some (added (depth price (side_of bid b)) quantity)
        else depth q (side_of s b)))
      × (b'.overflow_count
          ≡ (if fits b bid price then b.overflow_count else (b.overflow_count + 1) % 2 ^ 64))
unfolding Book.add
add_lem b true price quantity s q =
    bids-Added b price quantity s q (add_side b.bids price quantity)
      (add_side_lem b.bids price quantity q)
add_lem b false price quantity s q =
    asks-Added b price quantity s q (add_side b.asks price quantity)
      (add_side_lem b.asks price quantity q)

-- An execution lowers the quantity at its price on its side, and removes the level when nothing is
-- left; no other price of the side, nothing of the other side and no count of dropped adds changes.
-- The side is valid and the quantity between 0 and 2 ^ 31 - 1.
pub execute_lem :
    (b : FiveLevelOrderBook) (bid : Bool) (price quantity : ℤ) (s : Bool) (q : ℤ)
    → IsValid (side_of bid b)
    → pos 0 ≤ℤ quantity
    → IsInt32 quantity
    → let b' = Book.execute b bid price quantity in
      (depth q (side_of s b') ≡ (
        if same bid s && eqb_ℤ price q
        then reduced (depth price (side_of bid b)) quantity
        else depth q (side_of s b)))
      × (b'.overflow_count ≡ b.overflow_count)
unfolding Book.execute
execute_lem b true price quantity true q v h i =
    (execute_side-depth b.bids price quantity q v h i, refl)
execute_lem b true price quantity false q v h i = (refl, refl)
execute_lem b false price quantity true q v h i = (refl, refl)
execute_lem b false price quantity false q v h i =
    (execute_side-depth b.asks price quantity q v h i, refl)
