-- ===== src/Book/Tests.antt =====
-- A book with two bids and one ask.
use fpga_sim_core.Prelude.{
  ◌+◌, ◌%◌, ◌^◌, ◌≡◌, refl, true, false, some, ◌&&◌, [], ◌∷◌, arith, if◌then◌else◌,
}
use fpga_sim_core.Prelude.Int.{ℤ, pos, eqb_ℤ}
use fpga_sim_core.Book
use fpga_sim_core.Book.{
  BookLevel, blank_level, FiveLevelOrderBook, best_bid, best_ask, higher, lower, add_side,
  execute_side, add_to_level, open_level, best_loop,
}
use fpga_sim_core.Book.View.{depth, added, reduced}
use fpga_sim_core.Book.Keep.{side_of, same, fits, add_lem, execute_lem}
use fpga_sim_core.Book.Best.{IsBest, best_bid_lem, best_ask_lem}
use fpga_sim_core.Book.Sound.{IsSoundBook, add-IsSoundBook, execute-IsSoundBook}

abbrev level : ℤ → ℤ → BookLevel
level price quantity = record { price = price; quantity = quantity; valid = true }

abbrev quoted : FiveLevelOrderBook
quoted = record {
  bids =
      level (pos 18925) (pos 300)
      ∷ level (pos 18927) (pos 200)
      ∷ blank_level
      ∷ blank_level
      ∷ blank_level
      ∷ [];
  asks = level (pos 18930) (pos 100) ∷ blank_level ∷ blank_level ∷ blank_level ∷ blank_level ∷ [];
  collision = false;
  overflow_count = 0;
}

quoted-IsSoundBook : IsSoundBook quoted
unfolding depth
quoted-IsSoundBook = (
  ((omega arith, omega arith, refl), ((omega arith, omega arith, refl), (tt, (tt, (tt, tt))))),
  ((omega arith, omega arith, refl), (tt, (tt, (tt, (tt, tt))))),
)

highest_bid : best_bid quoted ≡ level (pos 18927) (pos 200)
unfolding best_bid best_loop
highest_bid = refl

add_lem_example :
    let b' = Book.add quoted true (pos 18927) (pos 50) in
    (depth (pos 18927) (side_of true b') ≡ (
      if fits quoted true (pos 18927) && same true true && eqb_ℤ (pos 18927) (pos 18927)
      then some (added (depth (pos 18927) (side_of true quoted)) (pos 50))
      else depth (pos 18927) (side_of true quoted)))
    × (b'.overflow_count ≡ (
        if fits quoted true (pos 18927)
        then quoted.overflow_count
        else (quoted.overflow_count + 1) % 2 ^ 64))
add_lem_example = add_lem quoted true (pos 18927) (pos 50) true (pos 18927)

execute_lem_example :
    let b' = Book.execute quoted false (pos 18930) (pos 40) in
    (depth (pos 18930) (side_of false b') ≡ (
      if same false false && eqb_ℤ (pos 18930) (pos 18930)
      then reduced (depth (pos 18930) (side_of false quoted)) (pos 40)
      else depth (pos 18930) (side_of false quoted)))
    × (b'.overflow_count ≡ quoted.overflow_count)
execute_lem_example =
    execute_lem quoted false (pos 18930) (pos 40) false (pos 18930) quoted-IsSoundBook.1
      (omega arith) (omega arith)

best_bid_lem_example :
    IsBest higher quoted.bids (pos 18925) (best_bid quoted) (best_bid quoted).valid
best_bid_lem_example = best_bid_lem quoted (pos 18925) quoted-IsSoundBook.0

best_ask_lem_example :
    IsBest lower quoted.asks (pos 18930) (best_ask quoted) (best_ask quoted).valid
best_ask_lem_example = best_ask_lem quoted (pos 18930) quoted-IsSoundBook.1

add-IsSoundBook_example : IsSoundBook (Book.add quoted true (pos 18920) (pos 50))
unfolding depth
add-IsSoundBook_example =
    add-IsSoundBook quoted true (pos 18920) (pos 50) quoted-IsSoundBook (omega arith) (omega arith)
      tt

execute-IsSoundBook_example : IsSoundBook (Book.execute quoted true (pos 18927) (pos 200))
execute-IsSoundBook_example =
    execute-IsSoundBook quoted true (pos 18927) (pos 200) quoted-IsSoundBook (omega arith)
      (omega arith)
