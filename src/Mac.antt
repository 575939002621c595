-- ===== src/Mac.antt =====
-- include/modules/mac_framer.hpp: `MacFramer`, which checks the gap before a frame and takes its
-- beats one by one. `previous_end_` is a 64-bit count of bytes.
pub mod Frame
mod Tests
use fpga_sim_core.Prelude.{ℕ, ◌+◌, ◌%◌, ◌^◌, Bool, true, false, not, ◌||◌, leb, ◌==◌, if◌then◌else◌}
use fpga_sim_core.Axi.{Axi4Stream512, transfer}

abbrev pub minimum_ipg_bytes : ℕ
minimum_ipg_bytes = 12

pub record MacFramer : Type 0 where
  pub previous_end : ℕ
  pub ipg_valid : Bool

unfoldable pub reset : MacFramer → MacFramer
reset m = record m { previous_end = 0; ipg_valid = false }

unfoldable pub verify_ipg : MacFramer → ℕ → MacFramer × Bool
verify_ipg m idle_bytes =
    let enough = leb minimum_ipg_bytes idle_bytes in (record m { ipg_valid = enough }, enough)

unfoldable pub accept : MacFramer → Axi4Stream512 → MacFramer × Bool
accept m beat =
    if not (transfer beat)
    then (m, false)
    else (let end : ℕ = if beat.tlast then 0 else (m.previous_end + 64) % 2 ^ 64 in
        (record m { previous_end = end }, m.ipg_valid || not (end == 0)))
