-- ===== src/Pipeline/Report.antt =====
-- What the pipeline reports, and the loop of `main.cpp` that drives it with a trace: in each cycle the
-- rising edge of the pipeline, its falling edge and then that of the trace, in the order in which `main`
-- registers them. `count` is the number of messages of the stream, `message_count` its capacity.
use fpga_sim_core.Prelude.{
  ℕ, zero, suc, ◌+◌, Bool, not, ◌&&◌, ◌||◌, List, take, ◌==◌, if◌then◌else◌,
}
use fpga_sim_core.Prelude.Int.{ℤ}
use fpga_sim_core.Ofi.{BookQuote}
use fpga_sim_core.Stats
use fpga_sim_core.Stats.{LatencyStats, compute_with}
use fpga_sim_core.Stream.{Message}
use fpga_sim_core.Vcd
use fpga_sim_core.Vcd.{VcdLogger}
use fpga_sim_core.Pipeline.{holds}
use fpga_sim_core.Pipeline.State.{TickToTrade}
use fpga_sim_core.Pipeline.Wire.{msg_state}
use fpga_sim_core.Pipeline.Edges.{posedge, negedge}

unfoldable pub done : ℕ → TickToTrade → Bool
done count t = t.completed == count || t.desk.error

unfoldable pub ok : ℕ → TickToTrade → Bool
ok count t = not t.desk.error && t.completed == count

abbrev pub message_ofi : TickToTrade → ℕ → ℤ
message_ofi t i = (msg_state t i).ofi

abbrev pub message_quote : TickToTrade → ℕ → BookQuote
message_quote t i = (msg_state t i).quote

abbrev pub wire_busy : TickToTrade → Bool
wire_busy t = holds t.pcs.msg

abbrev pub book_overflow_count : TickToTrade → ℕ
book_overflow_count t = t.desk.book.overflow_count

abbrev pub dma_posted : TickToTrade → ℕ
dma_posted t = t.engine.posted

unfoldable pub stats : ℕ → (List ℕ → List ℕ) → TickToTrade → LatencyStats
stats message_count sort t = Stats.compute message_count sort (take t.completed t.latency)

unfoldable pub stats_with : (List ℕ → List ℕ) → TickToTrade → LatencyStats
stats_with sort t = compute_with sort (take t.completed t.latency)

-- `Rig`, without the stream.
pub record Rig : Type 0 where
  pub pipeline : TickToTrade
  pub vcd : VcdLogger

unfoldable pub step_rig : ℕ → (ℕ → Message) → ℤ → Rig → ℕ → Rig
step_rig count message empty_ask_price r cycle =
    let t = negedge (posedge count message empty_ask_price r.pipeline cycle) cycle in
    record { pipeline = t; vcd = Vcd.cycle r.vcd cycle (wire_busy t) t.last_ofi }

-- The loop, with the cycles that are left up to `cycle_limit`: the rig at its end, and the cycle.
unfoldable pub drive : ℕ → (ℕ → Message) → ℤ → ℕ → Rig → ℕ → Rig × ℕ
drive count message empty_ask_price zero r cycle = (r, cycle)
drive count message empty_ask_price (suc n) r cycle =
    let rest =
      drive count message empty_ask_price n (step_rig count message empty_ask_price r cycle)
        (cycle + 1) in
    if done count r.pipeline then (r, cycle) else rest
