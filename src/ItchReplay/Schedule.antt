-- ===== src/ItchReplay/Schedule.antt =====
-- tools/itch_replay.cpp, pass 2: the full-depth book of a stock, and the stream with its arrival times.
pub mod Due
pub mod Held
pub mod Counted
use fpga_sim_core.Prelude.{
  ℕ, ◌+◌, ◌-◌, ◌*◌, ◌/◌, ◌%◌, ◌^◌, Bool, true, false, not, ◌||◌, List, [], ◌∷◌, ◌++◌, min, ltb,
  ◌==◌, if◌then◌else◌,
}
use fpga_sim_core.Book.{levels}
use fpga_sim_core.FullBook
use fpga_sim_core.FullBook.{RealBook, locate_of, timestamp_ns, bid_levels, ask_levels, order_count}
use fpga_sim_core.Stream.Replay
use fpga_sim_core.Stream.Replay.{ReplayStream}
use fpga_sim_core.ItchReplay.{Framed, Options, book_type, model_capacity}
use fpga_sim_core.ItchReplay.Survey.{type_of}

pub record Pass : Type 0 where
  pub stream : ReplayStream
  pub book : RealBook
  pub bid_series : List ℕ
  pub ask_series : List ℕ
  pub order_series : List ℕ
  pub book_msgs : ℕ
  pub over5 : ℕ
  pub prev_ts : ℕ
  pub arrival : ℕ
  pub have_prev : Bool

unfoldable pub fresh : Pass
fresh = record {
  stream = Replay.fresh model_capacity;
  book = FullBook.fresh;
  bid_series = [];
  ask_series = [];
  order_series = [];
  book_msgs = 0;
  over5 = 0;
  prev_ts = 0;
  arrival = 0;
  have_prev = false;
}

-- The cycles between two timestamps: a cycle is 512 / 165 ns.
unfoldable pub dt_cycles : ℕ → ℕ → ℕ
dt_cycles prev_ts ts =
    let dt_ns : ℕ = if ltb prev_ts ts then ts - prev_ts else 0 in dt_ns * 165 % 2 ^ 64 / 512

-- The message goes into the stream, if it has room by the option.
unfoldable pub schedule : Options → Pass → Framed → Pass
unfolding dt_cycles Replay.push
schedule o p m =
    let ts : ℕ = timestamp_ns m.bytes in
    let arrival : ℕ =
      if p.have_prev
      then (p.arrival + min (dt_cycles p.prev_ts ts) o.gap_cap) % 2 ^ 64
      else p.arrival in
    if ltb p.stream.count o.model_messages
    then record p {
      stream = (Replay.push model_capacity p.stream m.bytes m.length arrival).0;
      prev_ts = ts;
      arrival = arrival;
      have_prev = true;
    }
    else p

-- The message changes the book, whose sizes are noted.
unfoldable pub follow : Pass → Framed → Pass
follow p m =
    let book : RealBook = (FullBook.apply p.book m.bytes).0 in
    record p {
      book = book;
      bid_series = p.bid_series ++ bid_levels book ∷ [];
      ask_series = p.ask_series ++ ask_levels book ∷ [];
      order_series = p.order_series ++ order_count book ∷ [];
      book_msgs = (p.book_msgs + 1) % 2 ^ 64;
      over5 =
          if ltb levels (bid_levels book) || ltb levels (ask_levels book)
          then (p.over5 + 1) % 2 ^ 64
          else p.over5;
    }

abbrev pub is_followed : ℕ → Framed → Bool
is_followed locate m = not (not (book_type (type_of m)) || not (locate_of m.bytes == locate))

-- The body of the loop.
unfoldable pub pass_step : Options → ℕ → Pass → Framed → Pass
unfolding schedule follow
pass_step o locate p m = if is_followed locate m then schedule o (follow p m) m else p

unfoldable pub pass : Options → ℕ → List Framed → Pass → Pass
unfolding pass_step
pass o locate [] p = p
pass o locate (m ∷ ms) p = pass o locate ms (pass_step o locate p m)
