-- ===== src/Mac/Frame.antt =====
-- A whole frame through `MacFramer::accept`.
use fpga_sim_core.Prelude.{
  ℕ, ◌+◌, ◌*◌, ◌^◌, ◌<◌, ◌≡◌, Bool, true, false, ◌&&◌, List, [], ◌∷◌, ◌++◌, arith, length, leb,
}
use fpga_sim_core.Axi.{Axi4Stream512, transfer}
use fpga_sim_core.Mac.{MacFramer, minimum_ipg_bytes, accept, verify_ipg}

-- Every beat in order, and whether all were accepted.
unfoldable pub accept_all : MacFramer → List Axi4Stream512 → MacFramer × Bool
accept_all m [] = (m, true)
accept_all m (b ∷ bs) =
    let (m', taken) = accept m b in let (m'', rest) = accept_all m' bs in (m'', taken && rest)

-- Beats inside a frame: each moves and none is the last.
abbrev pub Inner : List Axi4Stream512 → Type 0
Inner [] = Unit {0}
Inner (b ∷ bs) = (transfer b ≡ true) × (b.tlast ≡ false) × Inner bs

accept_all-Inner :
    (m : MacFramer) (bs : List Axi4Stream512) (last : Axi4Stream512)
    → Inner bs
    → transfer last ≡ true
    → last.tlast ≡ true
    → m.previous_end + 64 * length bs < 2 ^ 64
    → accept_all m (bs ++ last ∷ []) ≡ (record m { previous_end = 0 }, m.ipg_valid)
unfolding accept_all accept
accept_all-Inner m [] last inner moves ends h = ground arith
accept_all-Inner m (b ∷ bs) last inner moves ends h = ground (
  arith,
  accept_all-Inner (record m { previous_end = m.previous_end + 64 }) bs last inner.2 moves ends,
)

-- After the gap has been checked, a frame of moving beats, of which the last alone is marked so, is
-- accepted in full exactly when the gap was long enough; the byte count is then back at 0. The frame
-- is shorter than 2 ^ 64 bytes and the framer stands at the start of a frame.
pub frame_accepted :
    (m : MacFramer) (idle_bytes : ℕ) (bs : List Axi4Stream512) (last : Axi4Stream512)
    → Inner bs
    → transfer last ≡ true
    → last.tlast ≡ true
    → m.previous_end ≡ 0
    → 64 * length bs < 2 ^ 64
    → accept_all (verify_ipg m idle_bytes).0 (bs ++ last ∷ []) ≡ (
      record { previous_end = 0; ipg_valid = leb minimum_ipg_bytes idle_bytes },
      leb minimum_ipg_bytes idle_bytes,
    )
unfolding verify_ipg
frame_accepted m idle_bytes bs last inner moves ends start h =
    accept_all-Inner (record m { ipg_valid = leb minimum_ipg_bytes idle_bytes }) bs last inner moves
      ends (omega arith)
