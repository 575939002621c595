-- ===== src/Pipeline/Frozen.antt =====
-- The pipeline after an error.
use fpga_sim_core.Prelude.{ℕ, zero, suc, ◌+◌, ◌≡◌, ◌∙◌, refl, ap, true}
use fpga_sim_core.Prelude.Int.{ℤ}
use fpga_sim_core.Stream.{Message}
use fpga_sim_core.Pipeline.State.{TickToTrade}
use fpga_sim_core.Pipeline.Edges.{posedge, negedge}

-- `n` clock cycles from `cycle` on.
unfoldable pub ticks : ℕ → (ℕ → Message) → ℤ → TickToTrade → ℕ → ℕ → TickToTrade
ticks count message ask t cycle zero = t
ticks count message ask t cycle (suc n) =
    ticks count message ask (negedge (posedge count message ask t cycle) cycle) (cycle + 1) n

-- What the two pipelines agree in: everything but the quote RAM and the OFI stages, which alone go on.
pub record Agree (t t' : TickToTrade) : Type 0 where
  pub same_desk : t'.desk ≡ t.desk
  pub same_engine : t'.engine ≡ t.engine
  pub same_state : t'.state ≡ t.state
  pub same_latency : t'.latency ≡ t.latency
  pub same_next : t'.next_msg ≡ t.next_msg
  pub same_completed : t'.completed ≡ t.completed
  pub same_total : t'.cumulative_ofi ≡ t.cumulative_ofi

posedge-Agree :
    (count : ℕ) (message : ℕ → Message) (ask : ℤ) (t : TickToTrade) (cycle : ℕ)
    → t.desk.error ≡ true
    → Agree t (posedge count message ask t cycle)
unfolding posedge
posedge-Agree count message ask t cycle e = rw e (record {
  same_desk = refl;
  same_engine = refl;
  same_state = refl;
  same_latency = refl;
  same_next = refl;
  same_completed = refl;
  same_total = refl;
})

negedge-error : (t : TickToTrade) (cycle : ℕ) → t.desk.error ≡ true → negedge t cycle ≡ t
unfolding negedge
negedge-error t cycle e = rw e refl

Agree-trans : (t t' t'' : TickToTrade) → Agree t t' → Agree t' t'' → Agree t t''
Agree-trans t t' t'' a b = record {
  same_desk = b.same_desk ∙ a.same_desk;
  same_engine = b.same_engine ∙ a.same_engine;
  same_state = b.same_state ∙ a.same_state;
  same_latency = b.same_latency ∙ a.same_latency;
  same_next = b.same_next ∙ a.same_next;
  same_completed = b.same_completed ∙ a.same_completed;
  same_total = b.same_total ∙ a.same_total;
}

-- Once there has been an error, no clock cycle posts a decision, takes a message, or changes a latency,
-- the book, the orders or the error itself, however many follow.
pub ticks-Agree :
    (count : ℕ) (message : ℕ → Message) (ask : ℤ) (t : TickToTrade) (cycle n : ℕ)
    → t.desk.error ≡ true
    → Agree t (ticks count message ask t cycle n)
unfolding ticks
ticks-Agree count message ask t cycle zero e = record {
  same_desk = refl;
  same_engine = refl;
  same_state = refl;
  same_latency = refl;
  same_next = refl;
  same_completed = refl;
  same_total = refl;
}
ticks-Agree count message ask t cycle (suc n) e =
    let first = posedge-Agree count message ask t cycle e in
    let still = ap (λ d. d.error) first.same_desk ∙ e in
    rw (negedge-error (posedge count message ask t cycle) cycle still) (
      Agree-trans t (posedge count message ask t cycle)
        (ticks count message ask (posedge count message ask t cycle) (cycle + 1) n) first
        (ticks-Agree count message ask (posedge count message ask t cycle) (cycle + 1) n still))
