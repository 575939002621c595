-- ===== src/Crc/Tests.antt =====
-- The check vector of tests/test_phy_pcs.cpp.
use fpga_sim_core.Prelude.{ℕ, ◌≡◌, refl, List, [], ◌∷◌}
use fpga_sim_core.Crc.{compute}

abbrev check_text : List ℕ
check_text = b'1' ∷ b'2' ∷ b'3' ∷ b'4' ∷ b'5' ∷ b'6' ∷ b'7' ∷ b'8' ∷ b'9' ∷ []

check_vector : compute check_text 9 ≡ 0xCBF43926
unfolding compute
check_vector = refl
