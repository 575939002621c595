-- ===== src/Stream.antt =====
-- The messages that the sources of the pipeline give it: `SyntheticMessage` of
-- include/pipeline/synthetic_itch.hpp and `ReplayMessage` of include/pipeline/real_itch.hpp, which
-- differ in the number of bytes only.
pub mod Replay
pub mod Synthetic
use fpga_sim_core.Prelude.{ℕ, List}

pub record Message : Type 0 where
  pub bytes : List ℕ
  pub length : ℕ
  pub type : ℕ
  pub arrival_cycle : ℕ
