-- ===== src/Walk/Tests.antt =====
-- A broken trade behind its length.
use fpga_sim_core.Prelude.{◌≡◌, refl, some, ◌∷◌, replicate}
use fpga_sim_core.Walk.{Walker, end, spec_length, be, next}
use fpga_sim_core.Walk.Next.{IsStep, next-IsStep}

abbrev walker : Walker
walker = record { bytes = 0 ∷ 19 ∷ b'B' ∷ replicate 18 0; size = 21; offset = 0; stop = end }

message_found : (next walker).1 ≡ some (2, 19)
unfolding next be spec_length
message_found = refl

next-IsStep_example : IsStep walker (next walker).0 (next walker).1
next-IsStep_example = next-IsStep walker
