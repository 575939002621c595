-- ===== src/Pipeline/Line/Cycles.antt =====
-- Both clock edges, and any number of cycles, leave the line in order, or there is an error.
use fpga_sim_core.Prelude.{
  ◌⊎◌, ℕ, zero, suc, ◌+◌, ◌^◌, ◌≤◌, ◌≡◌, refl, inl, inr, Bool, true, false, not, Option, none, some,
  arith, if◌then◌else◌,
}
use fpga_sim_core.Prelude.Int.{ℤ}
use fpga_sim_core.Ring
use fpga_sim_core.Ring.Inv.{empty-IsValid}
use fpga_sim_core.Ring.Refine.{contents}
use fpga_sim_core.Bram
use fpga_sim_core.Ofi
use fpga_sim_core.Ofi.{BookQuote, blank_quote}
use fpga_sim_core.Pipeline.{free, load, fail, empty_slot}
use fpga_sim_core.Stream.{Message}
use fpga_sim_core.Pipeline.State.{TickToTrade, fresh}
use fpga_sim_core.Pipeline.Edges.{
  dma_stage, ofi_stage, read_stage, posedge, negedge, take_response, take_output, output_edge,
}
use fpga_sim_core.Pipeline.Frozen.{ticks}
use fpga_sim_core.Pipeline.Line.{line_of, IsLine, Fine, if-Fine, moved, free-msg}
use fpga_sim_core.Pipeline.Line.Moves.{ring_to_ofi_in, ofi_ring_to_dma_q}
use fpga_sim_core.Pipeline.Line.Front.{
  dma_stage-Fine, ofi_stage-Fine, read_stage-Fine, book_stage-Fine, if-Fine_first,
}
use fpga_sim_core.Pipeline.Line.Stages.{parse_stage-Fine, mac_stage-Fine, pcs_stage-Fine}

posedge-Fine :
    (count : ℕ) (message : ℕ → Message) (ask : ℤ) (t : TickToTrade) (cycle : ℕ)
    → count ≤ 2 ^ 31
    → Fine t
    → Fine (posedge count message ask t cycle)
unfolding posedge
posedge-Fine count message ask t cycle few f =
    let t1 =
      read_stage-Fine cycle (ofi_stage (dma_stage message t cycle) cycle)
        (ofi_stage-Fine cycle (dma_stage message t cycle) (dma_stage-Fine message cycle t f)) in
    let t2 =
      book_stage-Fine cycle ask (read_stage (ofi_stage (dma_stage message t cycle) cycle) cycle).0
        t1 in
    let t3 = mac_stage-Fine cycle _ (parse_stage-Fine cycle _ t2) in
    if-Fine t.desk.error _ _ (λ _. f) (λ _. pcs_stage-Fine count message cycle _ few t3)

take_response-Fine :
    (t : TickToTrade) (id : Option ℕ) (quote : BookQuote) (cycle : ℕ)
    → (Ring.pop 16 0 t.bram_ring).1 ≡ id
    → Fine t
    → Fine (take_response (record t { bram_ring = (Ring.pop 16 0 t.bram_ring).0 }) id quote cycle).0
unfolding take_response fail load
take_response-Fine t none quote cycle got f = inl refl
take_response-Fine t (some id) quote cycle got f =
    if-Fine_first (not (free t.ofi_in)) _ _ (λ _. inl refl)
      (λ h.
        moved
          (λ i. ring_to_ofi_in (line_of t) i id (free-msg t.ofi_in true (ground (arith, h))) got) f)

take_output-Fine :
    (t : TickToTrade) (id : Option ℕ) (value : ℤ)
    → (Ring.pop 16 0 t.ofi_ring).1 ≡ id
    → Fine t
    → Fine (take_output (record t { ofi_ring = (Ring.pop 16 0 t.ofi_ring).0 }) id value)
unfolding take_output fail
take_output-Fine t none value got f = inl refl
take_output-Fine t (some id) value got f =
    if-Fine (not (Ring.push 64 t.dma_q id).1) _ _ (λ _. inl refl)
      (λ h. moved (λ i. ofi_ring_to_dma_q (line_of t) i id got (ground (arith, h))) f)

output_edge-Fine : (t : TickToTrade) → Fine t → Fine (output_edge t)
unfolding output_edge
output_edge-Fine t f =
    if-Fine t.ofi.output.valid _ t
      (λ _. take_output-Fine t (Ring.pop 16 0 t.ofi_ring).1 t.ofi.output.value refl f) (λ _. f)

after_response-Fine :
    (r : TickToTrade × Bool) → Fine r.0 → Fine (if r.1 then r.0 else output_edge r.0)
after_response-Fine r f = if-Fine r.1 r.0 (output_edge r.0) (λ _. f) (λ _. output_edge-Fine r.0 f)

response-Fine :
    (t : TickToTrade) (cycle : ℕ)
    → Fine t
    → Fine
        (if t.bram.response_b.valid
          then take_response
              (record t { bram_ring = (Ring.pop 16 0 t.bram_ring).0 })
              (Ring.pop 16 0 t.bram_ring).1
              t.bram.response_b.value
              cycle
          else (t, false)).0
response-Fine t cycle f =
    if-Fine_first t.bram.response_b.valid
      (take_response (record t { bram_ring = (Ring.pop 16 0 t.bram_ring).0 })
        (Ring.pop 16 0 t.bram_ring).1 t.bram.response_b.value cycle)
      (t, false)
      (λ _. take_response-Fine t (Ring.pop 16 0 t.bram_ring).1 t.bram.response_b.value cycle refl f)
      (λ _. f)

negedge-Fine : (t : TickToTrade) (cycle : ℕ) → Fine t → Fine (negedge t cycle)
unfolding negedge
negedge-Fine t cycle f =
    let t1 : TickToTrade = record t {
      bram = Bram.negedge blank_quote 32 1 t.bram;
      ofi = Ofi.negedge t.ofi;
    } in
    let r =
      if t1.bram.response_b.valid
      then take_response (record t1 { bram_ring = (Ring.pop 16 0 t1.bram_ring).0 })
          (Ring.pop 16 0 t1.bram_ring).1 t1.bram.response_b.value cycle
      else (t1, false) in
    if-Fine t.desk.error t _ (λ _. f) (λ _. after_response-Fine r (response-Fine t1 cycle f))

ticks-Fine :
    (count : ℕ) (message : ℕ → Message) (ask : ℤ) (t : TickToTrade) (cycle n : ℕ)
    → count ≤ 2 ^ 31
    → Fine t
    → Fine (ticks count message ask t cycle n)
unfolding ticks
ticks-Fine count message ask t cycle zero few f = f
ticks-Fine count message ask t cycle (suc n) few f =
    ticks-Fine count message ask (negedge (posedge count message ask t cycle) cycle) (cycle + 1) n
      few
      (negedge-Fine (posedge count message ask t cycle) cycle
        (posedge-Fine count message ask t cycle few f))

fresh-IsLine : (capacity count : ℕ) → IsLine (line_of (fresh capacity count))
unfolding fresh empty_slot contents Ring.empty
fresh-IsLine capacity count = record {
  dma_q_valid = empty-IsValid 64 0 (omega arith);
  ofi_ring_valid = empty-IsValid 16 0 (omega arith);
  bram_ring_valid = empty-IsValid 16 0 (omega arith);
  sequence = refl;
  few = omega arith;
}

-- After any number of cycles from the start, unless there has been an error, the messages between the
-- wire and the decision are those taken from the wire and not completed, each in one place and in the
-- order of the stream: the place nearest to the decision holds the number `completed`, and the last
-- one is the number before `next_msg`. The three rings between the stages are valid. The stream has
-- at most 2 ^ 31 messages, so that each message's number fits in a slot.
pub ticks-IsLine :
    (capacity count : ℕ) (message : ℕ → Message) (ask : ℤ) (n : ℕ)
    → count ≤ 2 ^ 31
    → let t = ticks count message ask (fresh capacity count) 0 n in
      (t.desk.error ≡ true) ⊎ IsLine (line_of t)
ticks-IsLine capacity count message ask n few =
    ticks-Fine count message ask (fresh capacity count) 0 n few (inr (fresh-IsLine capacity count))
