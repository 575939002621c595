-- ===== src/Ofi.antt =====
-- include/modules/ofi_dsp.hpp: `MicroPriceLut` and `OfiDsp`. Sums of 64 bits are exact: none of them
-- leaves the range of `std::int64_t`.
pub mod Formula
pub mod Stages
pub mod Lut
mod Tests
use fpga_sim_core.Prelude.{
  ℕ, zero, suc, ◌+◌, ◌-◌, ◌*◌, ◌^◌, Bool, true, false, not, ◌&&◌, ◌||◌, Option, none, some, List,
  [], ◌∷◌, length, get_or, set, replicate, ltb, ◌==◌, if◌then◌else◌,
}
use fpga_sim_core.Prelude.Int.{
  ℤ, pos, negsuc, ◌+ℤ◌, ◌-ℤ◌, neg, ltb_ℤ, eqb_ℤ, int32_max, int32_min, pos_part, times, over,
}

abbrev pub imbalance_min : ℤ
imbalance_min = negsuc 15

abbrev pub imbalance_max : ℤ
imbalance_max = pos 16

abbrev pub spread_levels : ℕ
spread_levels = 8

-- The list that a loop over `i < n` fills with `f i`.
unfoldable pub filled {ℓ} : {A : Type ℓ} → ℕ → (ℕ → A) → List A
filled zero f = []
filled (suc n) f = f 0 ∷ filled n (λ i. f (suc i))

unfoldable pub table_entry : ℕ → ℕ → ℤ
table_entry i s = over (times (times (pos i -ℤ pos 16) (s + 1)) 1000) 16

abbrev pub table : List (List ℤ)
table = filled 33 (λ i. filled spread_levels (table_entry i))

unfoldable pub clamped : ℤ → ℤ
clamped imbalance =
    if ltb_ℤ imbalance imbalance_min
    then imbalance_min
    else if ltb_ℤ imbalance_max imbalance
    then imbalance_max
    else imbalance

unfoldable pub spread_of : ℕ → ℕ
spread_of spread_ticks =
    if spread_ticks == 0
    then 1
    else if ltb spread_levels spread_ticks
    then spread_levels
    else spread_ticks

unfoldable pub lookup : ℤ → ℕ → ℤ
lookup imbalance spread_ticks =
    get_or (get_or table (pos_part (clamped imbalance -ℤ imbalance_min)) [])
      (spread_of spread_ticks - 1) (pos 0)

pub record BookQuote : Type 0 where
  pub bid_price : ℤ
  pub bid_qty : ℤ
  pub ask_price : ℤ
  pub ask_qty : ℤ

abbrev pub blank_quote : BookQuote
blank_quote = record { bid_price = pos 0; bid_qty = pos 0; ask_price = pos 0; ask_qty = pos 0 }

pub record Stage : Type 0 where
  pub valid : Bool
  pub value : ℤ

abbrev pub bubble : Stage
bubble = record { valid = false; value = pos 0 }

abbrev pub pipeline_stages : ℕ
pipeline_stages = 3

pub record OfiDsp : Type 0 where
  pub previous : BookQuote
  pub valid_previous : Bool
  pub pipeline : List Stage
  pub output : Stage

unfoldable pub fresh : OfiDsp
fresh = record {
  previous = blank_quote;
  valid_previous = false;
  pipeline = replicate pipeline_stages bubble;
  output = bubble;
}

unfoldable pub reset : OfiDsp → OfiDsp
reset d = record d {
  previous = blank_quote;
  valid_previous = false;
  pipeline = replicate pipeline_stages bubble;
  output = bubble;
}

unfoldable pub side_bid : OfiDsp → BookQuote → ℤ
side_bid d q =
    if not d.valid_previous || ltb_ℤ d.previous.bid_price q.bid_price
    then q.bid_qty
    else if eqb_ℤ q.bid_price d.previous.bid_price
    then q.bid_qty -ℤ d.previous.bid_qty
    else neg d.previous.bid_qty

unfoldable pub side_ask : OfiDsp → BookQuote → ℤ
side_ask d q =
    if not d.valid_previous || ltb_ℤ q.ask_price d.previous.ask_price
    then neg q.ask_qty
    else if eqb_ℤ q.ask_price d.previous.ask_price
    then d.previous.ask_qty -ℤ q.ask_qty
    else d.previous.ask_qty

unfoldable pub saturate : ℤ → ℤ
saturate value =
    if ltb_ℤ int32_max value then int32_max else if ltb_ℤ value int32_min then int32_min else value

-- `for (i = size - 1; i > 0; --i) pipeline[i] = pipeline[i - 1]`, from round `i` on.
unfoldable pub shift_loop : ℕ → List Stage → List Stage
shift_loop zero p = p
shift_loop (suc i) p = shift_loop i (set p (suc i) (get_or p i bubble))

unfoldable pub shift : List Stage → List Stage
unfolding shift_loop
shift p = shift_loop (length p - 1) p

unfoldable pub posedge : OfiDsp → BookQuote → OfiDsp
posedge d quote =
    let value = side_bid d quote +ℤ side_ask d quote in
    record d {
      pipeline = set (shift d.pipeline) 0 (record { valid = true; value = saturate value });
      previous = quote;
      valid_previous = true;
    }

unfoldable pub posedge_idle : OfiDsp → OfiDsp
posedge_idle d = record d { pipeline = set (shift d.pipeline) 0 bubble }

unfoldable pub negedge : OfiDsp → OfiDsp
negedge d = record d { output = get_or d.pipeline (length d.pipeline - 1) bubble }
