-- ===== src/Ofi/Tests.antt =====
-- Two quotes with an idle cycle between them.
use fpga_sim_core.Prelude.{◌≡◌, true, false, Option, none, some, List, [], ◌∷◌, arith, length, take}
use fpga_sim_core.Prelude.Int.{pos, negsuc, pos_part, neg_part, ◌+ℤ◌, IsInt32, IsInt64}
use fpga_sim_core.Ofi
use fpga_sim_core.Ofi.{
  BookQuote, Stage, OfiDsp, blank_quote, bubble, lookup, side_bid, side_ask, saturate,
}
use fpga_sim_core.Ofi.Formula.{imbalance_after, sides-fit}
use fpga_sim_core.Ofi.Stages.{outputs, imbalances, outputs_lem}
use fpga_sim_core.Ofi.Lut.{lookup_lem}

abbrev first_quote : BookQuote
first_quote = record { bid_price = pos 100; bid_qty = pos 10; ask_price = pos 102; ask_qty = pos 7 }

abbrev second_quote : BookQuote
second_quote = record { bid_price = pos 101; bid_qty = pos 4; ask_price = pos 102; ask_qty = pos 9 }

abbrev quotes : List (Option BookQuote)
quotes = some first_quote ∷ none ∷ some second_quote ∷ none ∷ none ∷ []

abbrev after_first : OfiDsp
after_first = record Ofi.fresh { previous = first_quote; valid_previous = true }

outputs_lem_example :
    outputs Ofi.fresh quotes
    ≡ take (length quotes) (bubble ∷ bubble ∷ imbalances false blank_quote quotes)
outputs_lem_example = outputs_lem quotes

sides-fit_example :
    let value = side_bid after_first second_quote +ℤ side_ask after_first second_quote in
    (value ≡ imbalance_after true first_quote second_quote)
    × IsInt64 value
    × IsInt32 (saturate value)
sides-fit_example =
    sides-fit after_first second_quote (omega arith, omega arith) (omega arith, omega arith)

lookup_lem_example : (pos_part (lookup (negsuc 4) 3) ≡ 0) × (neg_part (lookup (negsuc 4) 3) ≡ 937)
lookup_lem_example = lookup_lem (negsuc 4) 3
