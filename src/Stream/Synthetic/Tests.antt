-- ===== src/Stream/Synthetic/Tests.antt =====
-- The first rounds of the stream.
use fpga_sim_core.Prelude.{arith}
use fpga_sim_core.Stream.Synthetic.{fresh, round, rounds}
use fpga_sim_core.Stream.Synthetic.Rounds.{IsSound, Round, round-Round, rounds-IsSound}

round-Round_example : Round (rounds 3 fresh 5 0) (round (rounds 3 fresh 5 0) 20 3).0 3
round-Round_example =
    round-Round (rounds 3 fresh 5 0) 20 3 (rounds-IsSound 3 (omega arith)) (omega arith)

rounds-IsSound_example : IsSound (rounds 256 fresh 5 0) 256
rounds-IsSound_example = rounds-IsSound 256 (omega arith)
