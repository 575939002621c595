-- ===== src/Engine/Tests.antt =====
-- Runs of the engine, and the theorems at concrete inputs. The world is the log of what was called.
use fpga_sim_core.Prelude.{ℕ, ◌≡◌, refl, some, List, [], ◌∷◌, arith}
use fpga_sim_core.Engine
use fpga_sim_core.Engine.{
  DiscreteEngine, Callback, cycles_to_ns_e4, max_callbacks, cycle_ns_num, cycle_ns_den,
}
use fpga_sim_core.Engine.Schedule.{IsValid, step_lem, call_all, registered}

abbrev Log : Type 0
Log = List (ℕ × ℕ)

abbrev note : ℕ → Callback Log
note who log cycle = (who, cycle) ∷ log

-- Two falling-edge callbacks round one rising-edge callback, at cycle 7.
abbrev wired : DiscreteEngine Log
wired =
    (Engine.on_negedge
      (Engine.on_posedge (Engine.on_negedge start (some (note 2))).0 (some (note 1))).0
      (some (note 3))).0
  where
    start : DiscreteEngine Log
    start = record Engine.fresh { cycle = 7 }

step-wired : (Engine.step wired []).1 ≡ (3, 7) ∷ (2, 7) ∷ (1, 7) ∷ []
unfolding Engine.step Engine.fresh Engine.on_posedge Engine.on_negedge Engine.call_slots
step-wired = refl

golden_minimum : cycles_to_ns_e4 14 ≡ 434424
unfolding cycles_to_ns_e4
golden_minimum = refl

wired-IsValid : IsValid wired
unfolding Engine.fresh Engine.on_posedge Engine.on_negedge
wired-IsValid = omega arith

step_lem_example : Engine.step wired [] ≡ (
  record wired { cycle = 8 },
  call_all (registered 2 wired.negedge) 7 (call_all (registered 1 wired.posedge) 7 []),
)
unfolding Engine.fresh Engine.on_posedge Engine.on_negedge
step_lem_example = step_lem wired [] wired-IsValid
