-- ===== src/Lib.antt =====
-- Verification of the FPGA simulation core: the models of the modules on the path from a received
-- block to a decision.
--
-- The program drives hardware models by a clock. `include/core/discrete_engine.hpp` calls the
-- registered handlers at both edges of each cycle. A message reaches `include/modules/phy_pcs.hpp` as
-- blocks, which carry a check sum; its payload moves through `include/modules/mac_framer.hpp` as beats
-- of `include/bus/axi4_stream.hpp`; `include/modules/parser_itch50.hpp` reads it;
-- `include/modules/order_table.hpp` and `include/modules/order_book.hpp` follow the orders; the best
-- quote goes through `include/modules/bram_memory.hpp` to `include/modules/ofi_dsp.hpp`, and the result
-- is posted by `include/modules/pcie_dma.hpp`, which holds a ring of `include/core/aligned_slab.hpp`.
-- The messages are those of a stream, made by `include/pipeline/synthetic_itch.hpp` or taken from a
-- file by `include/pipeline/real_itch.hpp`; `include/trace/vcd_logger.hpp` writes a trace.
--
-- The files, each with its children:
--   Prelude   shared names, tests, lists, integers of 32 bits, bits of words
--   Ring      `RingBuffer` (push, pop); Ring/Refine is its view as a queue
--   Engine    `DiscreteEngine` (on_posedge, on_negedge, step, run), with the world that the handlers
--             change as an argument
--   Axi, Mac  `Axi4Stream512` and `MacFramer` (verify_ipg, accept)
--   Bram      `DualPortBram` (posedge, negedge) with Depth and Latency as arguments
--   Dma       `PcieGen4x16Dma` (post_write, consume, clear_msix)
--   Crc, Pcs  `Crc32::compute` and `Deserializer66b` (encode, decode)
--   Itch      `Itch50Parser` (parse and its readers)
--   Orders    `BasicOrderTable` (insert, reduce) with Capacity as the length of the table
--   Book      `FiveLevelOrderBook` (add, execute, best_bid, best_ask)
--   Ofi       `MicroPriceLut` and `OfiDsp` (posedge, posedge_idle, negedge)
--   Stats     `LatencyStats` of `include/pipeline/tick_to_trade.hpp`, with `std::sort` as an argument
--   Pipeline  `BasicTickToTradePipeline` of the same file: `Slot` and `apply_to_book` in Pipeline itself,
--             the state in Pipeline/State, `post_decision` in Pipeline/Posting, `posedge` and
--             `negedge` stage by stage in Pipeline/Wire and Pipeline/Edges; Pipeline/Line follows the
--             messages through the places between the wire and the decision; Pipeline/Report has
--             what it reports, and the loop of `main.cpp`; Pipeline/Summary what `main` works out
--             of that and its exit code
--   Stream    the messages of a source; Stream/Synthetic is `SyntheticItchStream` of
--             `include/pipeline/synthetic_itch.hpp`, Stream/Replay is `ReplayStream` of
--             `include/pipeline/real_itch.hpp`
--   Oracle    the quotes that the synthetic stream publishes for its messages against those of the
--             stages PARSE and BOOK (Oracle/Replay), which read the messages and follow the orders:
--             Oracle/Lives and Oracle/Accounts are about the live orders, Oracle/Table about the
--             order table, Oracle/Side and Oracle/Depths about the levels of the book
--   ItchReplay  `tools/itch_replay.cpp`: the options and the exits of `main`; pass 1 in
--             ItchReplay/Survey, pass 2 in ItchReplay/Schedule, the run and its numbers in
--             ItchReplay/Report; a `std::map` is in ItchReplay/Maps; what the arguments and the directory
--             of stocks say is told apart from the loops in ItchReplay/Told
--   Vcd       `VcdLogger` of `include/trace/vcd_logger.hpp` (cycle, stamp, write_vector)
--   Walk      `Walker` of `tools/itch_analysis.hpp` (next, spec_length, be)
--   FullBook  `RealBook` of the same file (apply, add, reduce, remove, take)
--
-- State is a record, an operation is a function from the state before to the state after with the
-- result, and a parameter by reference is part of the result. A pointer that may be null is an Option.
-- Unsigned words are numbers with the wrap-around written out; signed words are integers of
-- Prelude/Int, and where a sum of 32 bits does not fit, which the source leaves undefined, the model
-- wraps around. The loops with fuel are that of `Itch50Parser::parse`, where each message has at least 19
-- bytes, and the one over the messages of a file, where each has its length in front: one unit more
-- than there are bytes is enough for both. The loop of `main.cpp` counts the cycles left up to
-- its limit. The sums of 64 bits of `RealBook` are exact: 2 ^ 31 orders at one price are needed to leave
-- them.
--
-- The pipeline takes its stream as an argument: the messages by number, and how many there are. A slot
-- keeps the number of its message, an `std::int32_t`, as an Option, which is none where it is negative.
--
-- The library functions that the tools call, `std::sort` and `std::strtoull`, are arguments.
--
-- Not modelled: the rest of the tools (`tools`) and of `main.cpp`, which open files and print.
pub mod Prelude
pub mod Ring
pub mod Engine
pub mod Axi
pub mod Mac
pub mod Bram
pub mod Dma
pub mod Crc
pub mod Pcs
pub mod Itch
pub mod Orders
pub mod Book
pub mod Ofi
pub mod Stats
pub mod Stream
pub mod Pipeline
pub mod Oracle
pub mod ItchReplay
pub mod Vcd
pub mod Walk
pub mod FullBook
