-- ===== src/Ofi/Stages.antt =====
-- `OfiDsp` over a stream of cycles: what leaves the pipeline, and when.
use fpga_sim_core.Prelude.{
  ◌≡◌, ◌∙◌, refl, ap, Bool, true, false, Option, none, some, List, [], ◌∷◌, length, take,
}
use fpga_sim_core.Prelude.Int.{◌+ℤ◌}
use fpga_sim_core.Ofi
use fpga_sim_core.Ofi.{
  BookQuote, blank_quote, Stage, bubble, OfiDsp, posedge, posedge_idle, negedge, shift, shift_loop,
  saturate, side_bid, side_ask,
}
use fpga_sim_core.Ofi.Formula.{imbalance_after, within, sides_lem, saturate_lem}

-- One cycle, with a quote or idle.
unfoldable pub cycle : OfiDsp → Option BookQuote → OfiDsp
cycle d none = negedge (posedge_idle d)
cycle d (some q) = negedge (posedge d q)

-- The outputs of a stream of cycles.
unfoldable pub outputs : OfiDsp → List (Option BookQuote) → List Stage
outputs d [] = []
outputs d (input ∷ inputs) = let d' = cycle d input in d'.output ∷ outputs d' inputs

-- What each cycle's quote comes to: its imbalance to the last quote before it, within the range of
-- 32 bits; an idle cycle is a bubble.
unfoldable pub imbalances : Bool → BookQuote → List (Option BookQuote) → List Stage
imbalances v q' [] = []
imbalances v q' (none ∷ inputs) = bubble ∷ imbalances v q' inputs
imbalances v q' (some q ∷ inputs) =
    record { valid = true; value = within (imbalance_after v q' q) } ∷ imbalances true q inputs

holding : Bool → BookQuote → Stage → Stage → Stage → Stage → OfiDsp
holding v q' a b c o = record {
  previous = q';
  valid_previous = v;
  pipeline = a ∷ b ∷ c ∷ [];
  output = o;
}

cycle-none :
    (v : Bool) (q' : BookQuote) (a b c o : Stage)
    → cycle (holding v q' a b c o) none ≡ holding v q' bubble a b b
unfolding cycle holding posedge_idle negedge shift shift_loop
cycle-none v q' a b c o = refl

cycle-some :
    (v : Bool) (q' : BookQuote) (a b c o : Stage) (q : BookQuote)
    → cycle (holding v q' a b c o) (some q)
      ≡ holding true q (record { valid = true; value = within (imbalance_after v q' q) }) a b b
unfolding cycle holding posedge negedge shift shift_loop
cycle-some v q' a b c o q =
    ap (λ z. holding true q (record { valid = true; value = z }) a b b)
      (saturate_lem (side_bid (holding v q' a b c o) q +ℤ side_ask (holding v q' a b c o) q)
        ∙ ap within (sides_lem (holding v q' a b c o) q))

outputs_from :
    (v : Bool) (q' : BookQuote) (a b c o : Stage) (inputs : List (Option BookQuote))
    → outputs (holding v q' a b c o) inputs ≡ take (length inputs) (b ∷ a ∷ imbalances v q' inputs)
unfolding outputs imbalances holding
outputs_from v q' a b c o [] = refl
outputs_from v q' a b c o (none ∷ inputs) =
    rw cycle-none (ap (λ s. b ∷ s) (outputs_from v q' bubble a b b inputs))
outputs_from v q' a b c o (some q ∷ inputs) = rw cycle-some (
    ap (λ s. b ∷ s)
      (outputs_from true q (record { valid = true; value = within (imbalance_after v q' q) }) a b b
        inputs))

-- From a fresh start, the outputs of a stream of cycles are two bubbles and then, cycle by cycle, the
-- Cont-Kukanov-Stoikov imbalance of the cycle's quote to the last quote before it, limited to 32 bits:
-- a quote's result leaves at the end of the second cycle after its own, and an idle cycle's bubble in
-- its place.
pub outputs_lem :
    (inputs : List (Option BookQuote))
    → outputs Ofi.fresh inputs
      ≡ take (length inputs) (bubble ∷ bubble ∷ imbalances false blank_quote inputs)
unfolding Ofi.fresh holding
outputs_lem inputs = outputs_from false blank_quote bubble bubble bubble bubble inputs
