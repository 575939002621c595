-- ===== src/Oracle/Tests.antt =====
-- Runs of the stages on the stream.
use fpga_sim_core.Prelude.{◌≡◌, false, arith}
use fpga_sim_core.Stream.Synthetic.{generate, message_count, empty_ask_price, expected_quote}
use fpga_sim_core.Oracle.Replay.{stages_after, replayed_quote}
use fpga_sim_core.Oracle.Agrees.{generate-replayed_quote}

generate-replayed_quote_example :
    (replayed_quote empty_ask_price generate.messages 200 ≡ expected_quote generate 200)
    × ((stages_after empty_ask_price generate.messages message_count).desk.error ≡ false)
    × ((stages_after empty_ask_price generate.messages message_count).desk.book.overflow_count ≡ 0)
generate-replayed_quote_example = generate-replayed_quote 200 (omega arith)
