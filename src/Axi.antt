-- ===== src/Axi.antt =====
-- include/bus/axi4_stream.hpp: one beat of a 512-bit AXI4-Stream bus.
use fpga_sim_core.Prelude.{ℕ, Bool, false, ◌&&◌, List, replicate}

pub record Axi4Stream512 : Type 0 where
  pub tdata : List ℕ
  pub tkeep : ℕ
  pub tvalid : Bool
  pub tready : Bool
  pub tlast : Bool

unfoldable pub idle_beat : Axi4Stream512
idle_beat = record {
  tdata = replicate 64 0;
  tkeep = 0;
  tvalid = false;
  tready = false;
  tlast = false;
}

-- A beat moves when both sides agree.
unfoldable pub transfer : Axi4Stream512 → Bool
transfer beat = beat.tvalid && beat.tready

-- `clear` leaves a beat as it is constructed, whatever it held.
unfoldable pub clear : Axi4Stream512 → Axi4Stream512
unfolding idle_beat
clear beat = record beat {
  tdata = replicate 64 0;
  tkeep = 0;
  tvalid = false;
  tready = false;
  tlast = false;
}
