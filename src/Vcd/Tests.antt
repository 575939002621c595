-- ===== src/Vcd/Tests.antt =====
-- Two cycles.
use fpga_sim_core.Prelude.{◌≡◌, true, false, some, List, [], ◌∷◌}
use fpga_sim_core.Prelude.Int.{pos, negsuc}
use fpga_sim_core.Vcd.{Item, opened}
use fpga_sim_core.Vcd.Trace.{LoggedCycle, read, logged, samples_of, logged-samples}

abbrev two_cycles : List LoggedCycle
two_cycles =
    record { number = 0; valid = true; ofi_value = negsuc 4 }
    ∷ record { number = 1; valid = false; ofi_value = pos 7 }
    ∷ []

logged-samples_example :
    ((items : List Item) × ((logged (opened true) two_cycles).file ≡ some items)
      × ((read items).samples
          ≡ samples_of two_cycles (record { at = 0; valid = false; value = 0 } ∷ [])))
    × (logged (opened false) two_cycles ≡ opened false)
logged-samples_example = logged-samples two_cycles
