-- ===== src/Ring/Tests.antt =====
-- Runs of the ring buffer, and the theorems at concrete inputs.
use fpga_sim_core.Prelude.{ℕ, ◌≡◌, refl, true, false, none, some, [], ◌∷◌, arith, List}
use fpga_sim_core.Ring
use fpga_sim_core.Ring.{RingBuffer}
use fpga_sim_core.Ring.Inv.{IsValid}
use fpga_sim_core.Ring.Refine.{Request, put, get, serve, fifo_serve, contents, serve_refines}

-- 8, then 9, round the end of an array of three.
abbrev wrapped : RingBuffer ℕ
wrapped = record { entries = 9 ∷ 7 ∷ 8 ∷ []; head = 2; tail = 1; size = 2 }

abbrev script : List (Request ℕ)
script = put 1 ∷ put 2 ∷ get ∷ get ∷ get ∷ get ∷ []

wrapped-IsValid : IsValid 3 wrapped
wrapped-IsValid = omega arith

serve-wrapped :
    serve 3 0 wrapped script
    ≡ (true, none)
      ∷ (false, none)
      ∷ (false, some 8)
      ∷ (false, some 9)
      ∷ (false, some 1)
      ∷ (false, none)
      ∷ []
unfolding serve Ring.push Ring.pop
serve-wrapped = refl

serve_refines_example : serve 3 0 wrapped script ≡ fifo_serve 3 (contents 3 0 wrapped) script
serve_refines_example = serve_refines 3 0 script wrapped wrapped-IsValid
