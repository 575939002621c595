-- ===== src/Book/View.antt =====
-- A side as a map from prices to quantities.
use fpga_sim_core.Prelude.{
  ◌≡◌, ◌∙◌, refl, sym, subst, ap, inl, inr, Bool, true, false, not, ◌||◌, Option, none, some, [],
  ◌∷◌, arith, if◌then◌else◌, Bool-cases,
}
use fpga_sim_core.Prelude.Int.{
  ℤ, pos, ◌+ℤ◌, ◌-ℤ◌, ◌≤ℤ◌, IsInt32, leb_ℤ, eqb_ℤ, wrap32, wrap32-id, eqb_ℤ→eq, -ℤ_parts, one_part,
}
use fpga_sim_core.Book.{
  BookLevel, Side, at_price, prepend, add_to_level, open_level, add_side, executed_level,
  execute_side,
}

-- The quantity at a price, where the side has a level there.
unfoldable pub depth : ℤ → Side → Option ℤ
depth price [] = none
depth price (l ∷ ls) = if at_price price l then some l.quantity else depth price ls

unfoldable pub has_room : Side → Bool
has_room [] = false
has_room (l ∷ ls) = not l.valid || has_room ls

-- A valid level holds a positive quantity that an `std::int32_t` holds, and no level behind it has
-- its price.
abbrev pub IsSound : Bool → BookLevel → Side → Type 0
IsSound false l ls = Unit {0}
IsSound true l ls = (pos 1 ≤ℤ l.quantity) × IsInt32 l.quantity × (depth l.price ls ≡ none)

abbrev pub IsValid : Side → Type 0
IsValid [] = Unit {0}
IsValid (l ∷ ls) = IsSound l.valid l ls × IsValid ls

-- What `add` makes of the quantity at its price.
abbrev pub added : Option ℤ → ℤ → ℤ
added none quantity = quantity
added (some old) quantity = wrap32 (old +ℤ quantity)

abbrev pub is_some {ℓ} : {A : Type ℓ} → Option A → Bool
is_some none = false
is_some (some a) = true

pub is_some→none : (found : Option ℤ) → is_some found ≡ false → found ≡ none
is_some→none none e = refl
is_some→none (some n) e = ground (arith, e)

-- The two ways in which an add succeeds, as total functions.
unfoldable pub bumped : Side → ℤ → ℤ → Side
bumped [] price quantity = []
bumped (l ∷ ls) price quantity =
    let rest = bumped ls price quantity in
    if at_price price l
    then record l { quantity = wrap32 (l.quantity +ℤ quantity) } ∷ ls
    else l ∷ rest

unfoldable pub opened : Side → ℤ → ℤ → Side
opened [] price quantity = []
opened (l ∷ ls) price quantity =
    let rest = opened ls price quantity in
    if l.valid then l ∷ rest else record { price = price; quantity = quantity; valid = true } ∷ ls

add_to_level-bumped :
    (side : Side) (price quantity : ℤ)
    → add_to_level side price quantity
      ≡ (if is_some (depth price side) then some (bumped side price quantity) else none)
unfolding add_to_level depth bumped
add_to_level-bumped [] price quantity = refl
add_to_level-bumped (l ∷ ls) price quantity = elim (Bool-cases (at_price price l)) [
  | inl hit ↦ simp hit
  | inr miss ↦ simp miss (
      ap (prepend l) (add_to_level-bumped ls price quantity)
      ∙ elim (Bool-cases (is_some (depth price ls))) [
        | inl found ↦ simp found
        | inr absent ↦ simp absent
      ])
]

open_level-opened :
    (side : Side) (price quantity : ℤ)
    → open_level side price quantity
      ≡ (if has_room side then some (opened side price quantity) else none)
unfolding open_level has_room opened
open_level-opened [] price quantity = refl
open_level-opened (l ∷ ls) price quantity = elim (Bool-cases l.valid) [
  | inl used ↦ simp used (
      ap (prepend l) (open_level-opened ls price quantity)
      ∙ elim (Bool-cases (has_room ls)) [ inl room ↦ simp room | inr full ↦ simp full ])
  | inr unused ↦ simp unused
]

-- `add` on a side: to the level at the price if there is one, else to the first level not in use,
-- else dropped.
pub add_side-cases :
    (side : Side) (price quantity : ℤ)
    → add_side side price quantity ≡ (
        if is_some (depth price side)
        then some (bumped side price quantity)
        else if has_room side
        then some (opened side price quantity)
        else none)
unfolding add_side
add_side-cases side price quantity =
    rw (add_to_level-bumped, open_level-opened)
      (elim (Bool-cases (is_some (depth price side))) [
        | inl found ↦ simp found
        | inr absent ↦ simp absent
      ])

-- The prices other than the one added to.
pub depth-bumped :
    (side : Side) (price quantity q : ℤ)
    → is_some (depth price side) ≡ true
    → depth q (bumped side price quantity)
      ≡ (if eqb_ℤ price q then some (added (depth price side) quantity) else depth q side)
unfolding bumped depth
depth-bumped [] price quantity q h = ground arith
depth-bumped (l ∷ ls) price quantity q h = elim (Bool-cases l.valid) [
  | inl used ↦ elim (Bool-cases (eqb_ℤ l.price price)) [
    | inl hit ↦ simp (used, hit) (ground arith)
    | inr miss ↦ simp (used, miss) (ground (arith, depth-bumped ls price quantity q))
  ]
  | inr unused ↦ simp unused (depth-bumped ls price quantity q (ground arith))
]

pub depth-opened :
    (side : Side) (price quantity q : ℤ)
    → depth price side ≡ none
    → has_room side ≡ true
    → depth q (opened side price quantity) ≡ (if eqb_ℤ price q then some quantity else depth q side)
unfolding opened depth has_room
depth-opened [] price quantity q h room = ground arith
depth-opened (l ∷ ls) price quantity q h room = elim (Bool-cases l.valid) [
  | inl used ↦ elim (Bool-cases (eqb_ℤ l.price price)) [
    | inl hit ↦ ground arith
    | inr miss ↦ simp used (ground (arith, depth-opened ls price quantity q))
  ]
  | inr unused ↦ simp unused
]

-- The outcome of an add on a side, told by the quantities.
abbrev pub Added : Side → ℤ → ℤ → ℤ → Option Side → Type 0
Added side price quantity q none = (depth price side ≡ none) × (has_room side ≡ false)
Added side price quantity q (some side') =
    ((is_some (depth price side) || has_room side) ≡ true)
    × (depth q side'
        ≡ (if eqb_ℤ price q then some (added (depth price side) quantity) else depth q side))

-- A side under `add`: where the price has a level or a level is free, the quantity at the price grows
-- by that of the add, or starts with it, and no other price is touched; else the add is dropped, which
-- is the only case without a result.
pub add_side_lem :
    (side : Side) (price quantity q : ℤ)
    → Added side price quantity q (add_side side price quantity)
add_side_lem side price quantity q = rw add_side-cases (cases (depth price side) refl)
  where
    cases :
        (found : Option ℤ)
        → depth price side ≡ found
        → Added side price quantity q (
            if is_some found
            then some (bumped side price quantity)
            else if has_room side
            then some (opened side price quantity)
            else none)
    cases (some old) e = (rw e refl, depth-bumped side price quantity q (rw e refl))
    cases none e = elim (Bool-cases (has_room side)) [
      | inl room ↦ rw room (rw (e, room) refl, rw e (depth-opened side price quantity q e room))
      | inr full ↦ rw full (e, full)
    ]

-- What is left of a quantity after an execution, if anything is.
abbrev pub reduced : Option ℤ → ℤ → Option ℤ
reduced none quantity = none
reduced (some old) quantity =
    if leb_ℤ (old -ℤ quantity) (pos 0) then none else some (old -ℤ quantity)

pub executed-fits :
    (l : BookLevel) (quantity : ℤ)
    → pos 1 ≤ℤ l.quantity
    → IsInt32 l.quantity
    → pos 0 ≤ℤ quantity
    → IsInt32 quantity
    → IsInt32 (l.quantity -ℤ quantity)
executed-fits l quantity p k h i =
    omega
      (arith, -ℤ_parts l.quantity quantity, one_part (l.quantity -ℤ quantity), one_part quantity)

depth-executed :
    (l : BookLevel) (ls : Side) (quantity q : ℤ)
    → l.valid ≡ true
    → IsSound true l ls
    → pos 0 ≤ℤ quantity
    → IsInt32 quantity
    → depth q (executed_level quantity l ∷ ls)
      ≡ (if eqb_ℤ l.price q then reduced (some l.quantity) quantity else depth q ls)
unfolding executed_level depth
depth-executed l ls quantity q used s h i =
    rw (wrap32-id (l.quantity -ℤ quantity) (executed-fits l quantity s.0 s.1 h i))
      (elim (Bool-cases (leb_ℤ (l.quantity -ℤ quantity) (pos 0))) [
        | inl empty ↦ elim (Bool-cases (eqb_ℤ l.price q)) [
          | inl hit ↦ simp (empty, hit) (ap (λ p. depth p ls) (sym (eqb_ℤ→eq l.price q hit)) ∙ s.2)
          | inr miss ↦ simp (empty, miss)
        ]
        | inr rest ↦ simp (rest, used)
      ])

-- A side under `execute`: the quantity at the price falls by that executed, and the level is gone
-- when nothing is left; no other price is touched, and neither is anything where the price has no
-- level. The side is valid and the quantity executed is between 0 and 2 ^ 31 - 1.
pub execute_side-depth :
    (side : Side) (price quantity q : ℤ)
    → IsValid side
    → pos 0 ≤ℤ quantity
    → IsInt32 quantity
    → depth q (execute_side side price quantity)
      ≡ (if eqb_ℤ price q then reduced (depth price side) quantity else depth q side)
unfolding execute_side depth
execute_side-depth [] price quantity q v h i = ground arith
execute_side-depth (l ∷ ls) price quantity q v h i = elim (Bool-cases l.valid) [
  | inl used ↦ elim (Bool-cases (eqb_ℤ l.price price)) [
    | inl hit ↦
        simp (used, hit)
          (depth-executed l ls quantity q used (subst (λ b. IsSound b l ls) used v.0) h i
            ∙ rw (eqb_ℤ→eq l.price price hit) (ground arith))
    | inr miss ↦ simp (used, miss) (ground (arith, execute_side-depth ls price quantity q v.1 h i))
  ]
  | inr unused ↦ simp unused (execute_side-depth ls price quantity q v.1 h i)
]
