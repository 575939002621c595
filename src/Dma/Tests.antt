-- ===== src/Dma/Tests.antt =====
-- A run of the device, and the theorem at it.
use fpga_sim_core.Prelude.{[], ◌∷◌, List}
use fpga_sim_core.Dma.{blank_tlp}
use fpga_sim_core.Dma.Posts.{
  Call, post, consumes, clears, IsBalanced, after_calls, at_start, posts_balance,
}

abbrev calls : List Call
calls = post blank_tlp ∷ post (record blank_tlp { tag = 7 }) ∷ consumes ∷ clears ∷ []

posts_balance_example : IsBalanced (after_calls at_start calls)
posts_balance_example = posts_balance calls
