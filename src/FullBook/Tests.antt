-- ===== src/FullBook/Tests.antt =====
-- A resting order that is replaced by one at the same price.
use fpga_sim_core.Prelude.{ℕ, ◌≡◌, refl, true, false, none, List, [], ◌∷◌, ◌++◌, arith, replicate}
use fpga_sim_core.Prelude.Int.{pos}
use fpga_sim_core.Walk.{be}
use fpga_sim_core.FullBook.{
  RealBook, fresh, find_order, set_order, erase_order, add, apply, best_bid, best_ask,
}
use fpga_sim_core.FullBook.Best.{IsBest}
use fpga_sim_core.FullBook.Sides.{IsBook}
use fpga_sim_core.FullBook.Changes.{add-IsBook}
use fpga_sim_core.FullBook.Applied.{IsNewReplace, fresh-IsBook, apply-IsBook}

abbrev book : RealBook
book = add fresh 1000 true (pos 100) (pos 5)

-- Reference 1000 becomes 1001, with 7 shares at price 100.
abbrev replace_message : List ℕ
replace_message =
    (b'U' ∷ replicate 16 0)
    ++ (3 ∷ 232 ∷ replicate 6 0)
    ++ (3 ∷ 233 ∷ 0 ∷ 0 ∷ 0 ∷ 7 ∷ 0 ∷ 0 ∷ 0 ∷ 100 ∷ [])

no_order : find_order fresh.orders 1000 ≡ none
unfolding find_order
no_order = refl

book-IsBook : IsBook book
book-IsBook = add-IsBook fresh 1000 true (pos 100) (pos 5) fresh-IsBook no_order (omega arith, refl)

replace_message-IsNewReplace : IsNewReplace book replace_message
unfolding add find_order set_order erase_order be
replace_message-IsNewReplace = (refl, omega arith)

apply-IsBook_example :
    let b' = (apply book replace_message).0 in
    IsBook b' × IsBest b' true (best_bid b') × IsBest b' false (best_ask b')
apply-IsBook_example =
    apply-IsBook book replace_message book-IsBook (λ e. absurd (ground (arith, e)))
      (λ _. replace_message-IsNewReplace)
