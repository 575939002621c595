-- ===== src/Bram/Tests.antt =====
-- A memory of 32 cells and a delay line of three stages.
use fpga_sim_core.Prelude.{ℕ, ◌≡◌, refl, true, false, arith, length}
use fpga_sim_core.Bram
use fpga_sim_core.Bram.{DualPortBram, PortRequest}
use fpga_sim_core.Bram.Latency.{latency_ignored}
use fpga_sim_core.Bram.Access.{cycle, cell, cycle_lem}

abbrev write_7 : PortRequest ℕ
write_7 = record { read = false; write = true; address = 7; write_data = 42 }

abbrev read_7 : PortRequest ℕ
read_7 = record { read = true; write = false; address = 7; write_data = 0 }

abbrev memory_of_three : DualPortBram ℕ
memory_of_three = Bram.fresh 0 32 3

-- With `Latency` 3 the answer is there at the first falling edge.
answered_at_once :
    (Bram.negedge 0 32 3 (Bram.posedge 0 32 3 memory_of_three read_7 write_7)).response_a
    ≡ record { valid = true; value = 42 }
unfolding Bram.negedge Bram.posedge Bram.fresh
answered_at_once = refl

abbrev read_8 : PortRequest ℕ
read_8 = record { read = true; write = false; address = 8; write_data = 0 }

latency_ignored_example :
    let served = Bram.negedge 0 32 3 (Bram.posedge 0 32 3 memory_of_three write_7 read_8) in
    let memory' =
      Bram.write_port 0 32 3 (Bram.write_port 0 32 3 memory_of_three.memory write_7) read_8 in
    (served.memory ≡ memory')
    × (served.response_a ≡ Bram.read_port 0 32 3 memory' write_7)
    × (served.response_b ≡ Bram.read_port 0 32 3 memory' read_8)
unfolding Bram.fresh
latency_ignored_example = latency_ignored 0 32 3 memory_of_three write_7 read_8 (omega arith) refl

cycle_lem_example :
    let m' = cycle 0 32 3 memory_of_three write_7 read_8 in
    (cell 0 32 3 m'.memory 7 ≡ 42)
    × (m'.response_a ≡ Bram.no_response 0 32 3)
    × (m'.response_b ≡ record { valid = true; value = 0 })
    × (length m'.memory ≡ 32)
unfolding Bram.fresh Bram.asserts Bram.collides
cycle_lem_example =
    cycle_lem 0 32 3 memory_of_three write_7 read_8 7 (omega arith) refl refl (omega arith) refl
