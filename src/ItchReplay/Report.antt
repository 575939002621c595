-- ===== src/ItchReplay/Report.antt =====
-- tools/itch_replay.cpp: the exits of `main` up to the run of the pipeline, the run itself, and what is
-- printed of the series; tools/itch_analysis.hpp: `percentile`. `std::sort` is the argument `sort`.
use fpga_sim_core.Prelude.{
  ℕ, zero, suc, ◌+◌, ◌-◌, ◌^◌, ◌%◌, min, max, Option, none, some, List, [], ◌∷◌, get_or, length,
  ◌==◌, if◌then◌else◌,
}
use fpga_sim_core.Prelude.Int.{int32_max}
use fpga_sim_core.Stats.{rank}
use fpga_sim_core.Walk.{Walker, Stop, end, truncated_tail, bad_framing}
use fpga_sim_core.Stream.{Message}
use fpga_sim_core.Stream.Replay.{ReplayStream, message}
use fpga_sim_core.Pipeline.State.{TickToTrade}
use fpga_sim_core.Pipeline.Edges.{posedge, negedge}
use fpga_sim_core.Pipeline.Report.{done}
use fpga_sim_core.ItchReplay.{Framed, Options, default_options, read_options, walk}
use fpga_sim_core.ItchReplay.Survey.{no_survey, survey, choose_locate, bump}
use fpga_sim_core.ItchReplay.Schedule
use fpga_sim_core.ItchReplay.Schedule.{Pass, pass}

-- The percent is at least 1.
unfoldable pub percentile : (List ℕ → List ℕ) → List ℕ → ℕ → ℕ
unfolding rank
percentile sort v percent = if length v == 0 then 0 else get_or (sort v) (rank percent (length v)) 0

-- `*std::min_element` and `*std::max_element` of a series that is not empty.
unfoldable pub min_element : ℕ → List ℕ → ℕ
min_element m [] = m
min_element m (x ∷ xs) = min_element (min m x) xs

unfoldable pub max_element : ℕ → List ℕ → ℕ
max_element m [] = m
max_element m (x ∷ xs) = max_element (max m x) xs

-- The four numbers of `print_series`.
pub record Series : Type 0 where
  pub least : ℕ
  pub median : ℕ
  pub p99 : ℕ
  pub largest : ℕ

unfoldable pub series : (List ℕ → List ℕ) → ℕ → List ℕ → Series
unfolding percentile min_element max_element
series sort x xs = record {
  least = min_element x xs;
  median = percentile sort (x ∷ xs) 50;
  p99 = percentile sort (x ∷ xs) 99;
  largest = max_element x xs;
}

-- How `main` ends before the run, or what the run starts from.
pub data Outcome : Type 0 where
  unknown_option framing_error unknown_symbol no_book_messages : Outcome
  ready : Options → ℕ → Pass → Outcome

abbrev pub booked : Options → ℕ → Pass → Outcome
booked o locate p = if p.book_msgs == 0 then no_book_messages else ready o locate p

abbrev pub located : Options → List Framed → Option ℕ → Outcome
located o ms none = unknown_symbol
located o ms (some locate) = booked o locate (pass o locate ms Schedule.fresh)

abbrev pub framed : Options → Walker × List Framed → Stop → Outcome
framed o r bad_framing = framing_error
framed o r end = located o r.1 (choose_locate (survey no_survey r.1) o.want_symbol)
framed o r truncated_tail = located o r.1 (choose_locate (survey no_survey r.1) o.want_symbol)

-- The walker over a file; its fuel is one more than the bytes.
abbrev pub walked : List ℕ → Walker × List Framed
walked file =
    walk (length file + 1) (record { bytes = file; size = length file; offset = 0; stop = end })

abbrev pub opened : List ℕ → Option Options → Outcome
opened file none = unknown_option
opened file (some o) = framed o (walked file) (walked file).0.stop

-- `main` up to the run, with the arguments behind the name of the file.
unfoldable pub prepare : (List ℕ → ℕ) → List (List ℕ) → List ℕ → Outcome
prepare number_of args file = opened file (read_options number_of args default_options)

-- `limit`, where the stream is not empty.
unfoldable pub limit : ReplayStream → ℕ
limit s = ((message s (s.count - 1)).arrival_cycle + 100000) % 2 ^ 64

-- The run, with the cycles that are left up to the limit: the pipeline at its end, and the cycle.
unfoldable pub run_model : ReplayStream → ℕ → TickToTrade → ℕ → TickToTrade × ℕ
run_model s zero t cycle = (t, cycle)
run_model s (suc n) t cycle =
    let rest =
      run_model s n (negedge (posedge s.count (message s) int32_max t cycle) cycle) (cycle + 1) in
    if done s.count t then (t, cycle) else rest

-- The messages of the stream by their types.
unfoldable pub model_mix : List Message → List (ℕ × ℕ) → List (ℕ × ℕ)
model_mix [] mix = mix
model_mix (m ∷ ms) mix = model_mix ms (bump 64 mix m.type)
