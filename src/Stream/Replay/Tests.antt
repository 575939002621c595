-- ===== src/Stream/Replay/Tests.antt =====
-- A stream of one place, and a message of two bytes.
use fpga_sim_core.Prelude.{◌≤◌, ◌<◌, ◌≡◌, ◌⊎◌, true, false, List, ℕ, [], ◌∷◌}
use fpga_sim_core.Stream.Replay.{fresh, push}
use fpga_sim_core.Stream.Replay.Pushed.{Pushed, fresh-IsValid, push_lem}

abbrev two_bytes : List ℕ
two_bytes = b'D' ∷ 7 ∷ []

abbrev size : ℕ
size = 2

push_lem_example :
    let (s', good) = push 1 (fresh 1) two_bytes size 9 in
    ((good ≡ true)
      × (((fresh 1).count < 1) × (0 < size) × (size ≤ 40))
      × Pushed (fresh 1) s' 1 two_bytes size 9)
    ⊎ ((good ≡ false) × (((fresh 1).count ≡ 1) ⊎ ((size ≡ 0) ⊎ (40 < size))) × (s' ≡ fresh 1))
push_lem_example = push_lem 1 (fresh 1) two_bytes size 9 (fresh-IsValid 1)
