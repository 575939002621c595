-- ===== src/ItchReplay/Tests.antt =====
-- A file of three messages: a stock and two orders.
use fpga_sim_core.Prelude.{
  ℕ, ◌≡◌, ◌≤◌, ◌+◌, refl, some, none, List, [], ◌∷◌, ◌++◌, arith, length, replicate,
}
use fpga_sim_core.ItchReplay.{
  Framed, default_options, unpadded, stock_of, walk, same_text, set_option, read_options,
}
use fpga_sim_core.ItchReplay.Walked.{Ended, walk-Ended}
use fpga_sim_core.ItchReplay.Survey.{no_survey, survey, busiest, choose_locate}
use fpga_sim_core.ItchReplay.Chosen.{adds_of, choose_locate-most}
use fpga_sim_core.ItchReplay.Schedule.{dt_cycles}
use fpga_sim_core.ItchReplay.Report.{prepare}
use fpga_sim_core.ItchReplay.Prepared.{Prepared, start, prepare-Prepared}

-- Behind a type and a locate, an order with the other bytes 0.
abbrev order_bytes : ℕ → List ℕ
order_bytes locate = b'A' ∷ 0 ∷ locate ∷ replicate 33 0

abbrev stock_bytes : List ℕ
stock_bytes =
    (b'R' ∷ 0 ∷ 7 ∷ replicate 8 0)
    ++ (b'A' ∷ b'B' ∷ b' ' ∷ b' ' ∷ b' ' ∷ b' ' ∷ b' ' ∷ b' ' ∷ [])
    ++ replicate 20 0

abbrev file : List ℕ
file = (0 ∷ 39 ∷ stock_bytes) ++ (0 ∷ 36 ∷ order_bytes 7) ++ 0 ∷ 36 ∷ order_bytes 7

abbrev orders : List Framed
orders =
    record { bytes = order_bytes 7; length = 36 }
    ∷ record { bytes = order_bytes 9; length = 36 }
    ∷ record { bytes = order_bytes 9; length = 36 }
    ∷ []

stock_name : stock_of stock_bytes ≡ b'A' ∷ b'B' ∷ []
unfolding stock_of unpadded
stock_name = refl

gap_option_read :
    read_options
      (λ v. length v)
      ((b'-' ∷ b'-' ∷ b's' ∷ b'y' ∷ b'm' ∷ b'b' ∷ b'o' ∷ b'l' ∷ []) ∷ (b'A' ∷ []) ∷ [])
      default_options
    ≡ some (record default_options { want_symbol = b'A' ∷ [] })
unfolding read_options set_option same_text
gap_option_read = refl

unknown_option_read :
    read_options (λ v. length v) ((b'x' ∷ []) ∷ (b'A' ∷ []) ∷ []) default_options ≡ none
unfolding read_options set_option same_text
unknown_option_read = refl

busiest_stock : busiest ((3, 1) ∷ (7, 2) ∷ (9, 2) ∷ []) 0 0 ≡ 7
unfolding busiest
busiest_stock = refl

gap_cycles : dt_cycles 1000 2024 ≡ 330
unfolding dt_cycles
gap_cycles = refl

no_gap_cycles : dt_cycles 2024 1000 ≡ 0
unfolding dt_cycles
no_gap_cycles = refl

choose_locate-most_example :
    (r : ℕ) × (choose_locate (survey no_survey orders) [] ≡ some r)
    × (adds_of 7 orders ≤ adds_of r orders)
choose_locate-most_example = choose_locate-most orders 7 (omega arith)

walk-Ended_example :
    Ended
      (start file)
      (walk (length file + 1) (start file)).0
      (walk (length file + 1) (start file)).1
walk-Ended_example = walk-Ended (length file + 1) (start file) (omega arith)

prepare-Prepared_example : Prepared (λ v. length v) [] file (prepare (λ v. length v) [] file)
prepare-Prepared_example = prepare-Prepared (λ v. length v) [] file (omega arith)
