-- ===== src/Oracle/Sizes.antt =====
-- The number of levels of a side under `add` and `execute`.
use fpga_sim_core.Prelude.{
  ◌≡◌, refl, inl, inr, Bool, true, false, Bool-cases, Option, none, some, [], ◌∷◌, arith, length,
}
use fpga_sim_core.Prelude.Int.{ℤ}
use fpga_sim_core.Book
use fpga_sim_core.Book.{
  BookLevel, Side, FiveLevelOrderBook, add_side, executed_level, execute_side, with_bids, with_asks,
}
use fpga_sim_core.Book.View.{depth, has_room, is_some, bumped, opened, add_side-cases}
use fpga_sim_core.Book.Keep.{side_of}

length-bumped :
    (side : Side) (price quantity : ℤ) → length (bumped side price quantity) ≡ length side
unfolding bumped
length-bumped [] price quantity = refl
length-bumped (l ∷ ls) price quantity =
    let ih = length-bumped ls price quantity in ground (arith, ih)

length-opened :
    (side : Side) (price quantity : ℤ) → length (opened side price quantity) ≡ length side
unfolding opened
length-opened [] price quantity = refl
length-opened (l ∷ ls) price quantity =
    let ih = length-opened ls price quantity in ground (arith, ih)

abbrev SameLength : Side → Option Side → Type 0
SameLength side none = Unit {0}
SameLength side (some side') = length side' ≡ length side

length-add_side :
    (side : Side) (price quantity : ℤ) → SameLength side (add_side side price quantity)
length-add_side side price quantity =
    rw add_side-cases (elim (Bool-cases (is_some (depth price side))) [
      | inl found ↦ simp found (length-bumped side price quantity)
      | inr absent ↦ elim (Bool-cases (has_room side)) [
        | inl room ↦ simp (absent, room) (length-opened side price quantity)
        | inr full ↦ simp (absent, full) tt
      ]
    ])

pub length-add :
    (b : FiveLevelOrderBook) (bid : Bool) (price quantity : ℤ) (s : Bool)
    → length (side_of s (Book.add b bid price quantity)) ≡ length (side_of s b)
unfolding Book.add
length-add b true price quantity s =
    go (add_side b.bids price quantity) s (length-add_side b.bids price quantity)
  where
    go :
        (r : Option Side) (s : Bool)
        → SameLength b.bids r
        → length (side_of s (with_bids b r)) ≡ length (side_of s b)
    go none true e = refl
    go none false e = refl
    go (some side) true e = e
    go (some side) false e = refl
length-add b false price quantity s =
    go (add_side b.asks price quantity) s (length-add_side b.asks price quantity)
  where
    go :
        (r : Option Side) (s : Bool)
        → SameLength b.asks r
        → length (side_of s (with_asks b r)) ≡ length (side_of s b)
    go none true e = refl
    go none false e = refl
    go (some side) true e = refl
    go (some side) false e = e

length-execute_side :
    (side : Side) (price quantity : ℤ) → length (execute_side side price quantity) ≡ length side
unfolding execute_side
length-execute_side [] price quantity = refl
length-execute_side (l ∷ ls) price quantity =
    let ih = length-execute_side ls price quantity in ground (arith, ih)

pub length-execute :
    (b : FiveLevelOrderBook) (bid : Bool) (price quantity : ℤ) (s : Bool)
    → length (side_of s (Book.execute b bid price quantity)) ≡ length (side_of s b)
unfolding Book.execute
length-execute b true price quantity true = length-execute_side b.bids price quantity
length-execute b true price quantity false = refl
length-execute b false price quantity true = refl
length-execute b false price quantity false = length-execute_side b.asks price quantity
