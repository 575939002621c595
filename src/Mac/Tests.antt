-- ===== src/Mac/Tests.antt =====
-- Frames through the framer.
use fpga_sim_core.Prelude.{◌≡◌, refl, true, false, [], ◌∷◌, ◌++◌, arith}
use fpga_sim_core.Axi.{Axi4Stream512, transfer, idle_beat}
use fpga_sim_core.Mac.{MacFramer, verify_ipg, accept}
use fpga_sim_core.Mac.Frame.{accept_all, frame_accepted}

abbrev inner_beat : Axi4Stream512
inner_beat = record idle_beat { tvalid = true; tready = true }

abbrev last_beat : Axi4Stream512
last_beat = record idle_beat { tvalid = true; tready = true; tlast = true }

abbrev framer : MacFramer
framer = record { previous_end = 0; ipg_valid = false }

-- With too short a gap the inner beat is taken and the last one refused.
short_gap : (accept (accept framer inner_beat).0 last_beat).1 ≡ false
unfolding accept transfer
short_gap = refl

frame_accepted_example :
    accept_all (verify_ipg framer 12).0 (inner_beat ∷ [] ++ last_beat ∷ [])
    ≡ (record { previous_end = 0; ipg_valid = true }, true)
unfolding transfer idle_beat
frame_accepted_example =
    frame_accepted framer 12 (inner_beat ∷ []) last_beat (refl, refl, tt) refl refl refl
      (omega arith)
