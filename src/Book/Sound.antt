-- ===== src/Book/Sound.antt =====
-- Both sides of the book stay valid under `add` and `execute`.
use fpga_sim_core.Prelude.{
  ◌≡◌, ◌∙◌, refl, subst, inl, inr, Bool, true, false, Option, none, some, [], ◌∷◌, arith,
  Bool-cases,
}
use fpga_sim_core.Prelude.Int.{
  ℤ, pos, ◌+ℤ◌, ◌-ℤ◌, ◌≤ℤ◌, IsInt32, leb_ℤ, eqb_ℤ, wrap32, wrap32-id, +ℤ_parts,
}
use fpga_sim_core.Book
use fpga_sim_core.Book.{
  BookLevel, blank_level, Side, FiveLevelOrderBook, at_price, executed_level, execute_side,
  add_side, with_bids, with_asks,
}
use fpga_sim_core.Book.View.{
  depth, has_room, is_some, IsSound, IsValid, bumped, opened, add_side-cases, is_some→none,
  executed-fits, depth-bumped, depth-opened,
}
use fpga_sim_core.Book.Keep.{side_of}

executed-IsValid :
    (l : BookLevel) (ls : Side) (quantity : ℤ)
    → l.valid ≡ true
    → IsSound true l ls
    → IsValid ls
    → pos 0 ≤ℤ quantity
    → IsInt32 quantity
    → IsValid (executed_level quantity l ∷ ls)
unfolding executed_level
executed-IsValid l ls quantity used s v h i =
    rw (wrap32-id (l.quantity -ℤ quantity) left)
      (elim (Bool-cases (leb_ℤ (l.quantity -ℤ quantity) (pos 0))) [
        | inl empty ↦ simp empty (tt, v)
        | inr rest ↦ simp (rest, used) ((ground arith, left, s.2), v)
      ])
  where
    left : IsInt32 (l.quantity -ℤ quantity)
    left = executed-fits l quantity s.0 s.1 h i

execute_side-none :
    (ls : Side) (price quantity q : ℤ)
    → depth q ls ≡ none
    → depth q (execute_side ls price quantity) ≡ none
unfolding execute_side executed_level depth
execute_side-none [] price quantity q e = refl
execute_side-none (l ∷ ls) price quantity q e =
    ground (arith, execute_side-none ls price quantity q)

pub execute_side-IsValid :
    (side : Side) (price quantity : ℤ)
    → IsValid side
    → pos 0 ≤ℤ quantity
    → IsInt32 quantity
    → IsValid (execute_side side price quantity)
unfolding execute_side
execute_side-IsValid [] price quantity v h i = tt
execute_side-IsValid (l ∷ ls) price quantity v h i = elim (Bool-cases l.valid) [
  | inl used ↦
      let s = subst (λ b. IsSound b l ls) used v.0 in
      elim (Bool-cases (eqb_ℤ l.price price)) [
        | inl hit ↦ simp (used, hit) (executed-IsValid l ls quantity used s v.1 h i)
        | inr miss ↦
            simp (used, miss)
              (
                (s.0, s.1, execute_side-none ls price quantity l.price s.2),
                execute_side-IsValid ls price quantity v.1 h i,
              )
      ]
  | inr unused ↦ simp unused (tt, execute_side-IsValid ls price quantity v.1 h i)
]

eqb_ℤ_sym : (a b : ℤ) → eqb_ℤ a b ≡ false → eqb_ℤ b a ≡ false
eqb_ℤ_sym a b = ground arith

-- The quantity that an add leaves at its price fits in an `std::int32_t`.
abbrev pub SumFits : Option ℤ → ℤ → Type 0
SumFits none quantity = Unit {0}
SumFits (some old) quantity = IsInt32 (old +ℤ quantity)

bumped_front :
    (l : BookLevel) (quantity : ℤ)
    → pos 1 ≤ℤ l.quantity
    → pos 1 ≤ℤ quantity
    → IsInt32 (l.quantity +ℤ quantity)
    → (pos 1 ≤ℤ wrap32 (l.quantity +ℤ quantity)) × IsInt32 (wrap32 (l.quantity +ℤ quantity))
bumped_front l quantity p p' i =
    rw (wrap32-id (l.quantity +ℤ quantity) i) (omega (arith, +ℤ_parts l.quantity quantity), i)

bumped-IsValid :
    (side : Side) (price quantity : ℤ)
    → IsValid side
    → pos 1 ≤ℤ quantity
    → is_some (depth price side) ≡ true
    → SumFits (depth price side) quantity
    → IsValid (bumped side price quantity)
unfolding bumped depth
bumped-IsValid [] price quantity v p found i = tt
bumped-IsValid (l ∷ ls) price quantity v p found i = elim (Bool-cases l.valid) [
  | inl used ↦
      let s = subst (λ b. IsSound b l ls) used v.0 in
      elim (Bool-cases (eqb_ℤ l.price price)) [
        | inl hit ↦
            let i' = simp (used, hit) at i in
            let front = bumped_front l quantity s.0 p i' in
            simp (used, hit) ((front.0, front.1, s.2), v.1)
        | inr miss ↦
            let found' = simp (used, miss) at found in
            simp (used, miss)
              (
                (
                  s.0,
                  s.1,
                  depth-bumped ls price quantity l.price found'
                      ∙ rw (eqb_ℤ_sym l.price price miss) s.2,
                ),
                bumped-IsValid ls price quantity v.1 p found' (simp (used, miss) at i),
              )
      ]
  | inr unused ↦
      simp unused
        (tt, bumped-IsValid ls price quantity v.1 p (simp unused at found) (simp unused at i))
]

opened-IsValid :
    (side : Side) (price quantity : ℤ)
    → IsValid side
    → pos 1 ≤ℤ quantity
    → IsInt32 quantity
    → depth price side ≡ none
    → has_room side ≡ true
    → IsValid (opened side price quantity)
unfolding opened depth has_room
opened-IsValid [] price quantity v p i absent room = tt
opened-IsValid (l ∷ ls) price quantity v p i absent room = elim (Bool-cases l.valid) [
  | inl used ↦
      let s = subst (λ b. IsSound b l ls) used v.0 in
      let room' = simp used at room in
      elim (Bool-cases (eqb_ℤ l.price price)) [
        | inl hit ↦ ground (arith, absent)
        | inr miss ↦
            let absent' = simp (used, miss) at absent in
            simp used (
              (
                s.0,
                s.1,
                depth-opened ls price quantity l.price absent' room'
                    ∙ rw (eqb_ℤ_sym l.price price miss) s.2,
              ),
              opened-IsValid ls price quantity v.1 p i absent' room',
            )
      ]
  | inr unused ↦ simp unused ((p, i, simp unused at absent), v.1)
]

-- A side keeps valid whichever way an add ends.
abbrev KeptBy : Side → Option Side → Type 0
KeptBy side none = IsValid side
KeptBy side (some side') = IsValid side'

add_side-IsValid :
    (side : Side) (price quantity : ℤ)
    → IsValid side
    → pos 1 ≤ℤ quantity
    → IsInt32 quantity
    → SumFits (depth price side) quantity
    → KeptBy side (add_side side price quantity)
add_side-IsValid side price quantity v p i fits =
    rw add_side-cases (elim (Bool-cases (is_some (depth price side))) [
      | inl found ↦ simp found (bumped-IsValid side price quantity v p found fits)
      | inr absent ↦
          let none' = is_some→none (depth price side) absent in
          elim (Bool-cases (has_room side)) [
            | inl room ↦ simp (absent, room) (opened-IsValid side price quantity v p i none' room)
            | inr full ↦ simp (absent, full) v
          ]
    ])

-- Both sides are valid.
abbrev pub IsSoundBook : FiveLevelOrderBook → Type 0
IsSoundBook b = IsValid b.bids × IsValid b.asks

kept_bids :
    (b : FiveLevelOrderBook) (r : Option Side)
    → IsSoundBook b
    → KeptBy b.bids r
    → IsSoundBook (with_bids b r)
kept_bids b none v k = v
kept_bids b (some side) v k = (k, v.1)

kept_asks :
    (b : FiveLevelOrderBook) (r : Option Side)
    → IsSoundBook b
    → KeptBy b.asks r
    → IsSoundBook (with_asks b r)
kept_asks b none v k = v
kept_asks b (some side) v k = (v.0, k)

pub fresh-IsSoundBook : IsSoundBook Book.fresh
unfolding Book.fresh
fresh-IsSoundBook = ((tt, (tt, (tt, (tt, (tt, tt))))), (tt, (tt, (tt, (tt, (tt, tt))))))

-- An add keeps both sides valid: each price in use has one level, with a positive quantity. The
-- quantity added is positive, and it and its sum with the quantity at its price are below 2 ^ 31.
pub add-IsSoundBook :
    (b : FiveLevelOrderBook) (bid : Bool) (price quantity : ℤ)
    → IsSoundBook b
    → pos 1 ≤ℤ quantity
    → IsInt32 quantity
    → SumFits (depth price (side_of bid b)) quantity
    → IsSoundBook (Book.add b bid price quantity)
unfolding Book.add
add-IsSoundBook b true price quantity v p i fits =
    kept_bids b (add_side b.bids price quantity) v
      (add_side-IsValid b.bids price quantity v.0 p i fits)
add-IsSoundBook b false price quantity v p i fits =
    kept_asks b (add_side b.asks price quantity) v
      (add_side-IsValid b.asks price quantity v.1 p i fits)

-- An execution keeps both sides valid: a level whose quantity is used up is removed. The quantity is
-- between 0 and 2 ^ 31 - 1.
pub execute-IsSoundBook :
    (b : FiveLevelOrderBook) (bid : Bool) (price quantity : ℤ)
    → IsSoundBook b
    → pos 0 ≤ℤ quantity
    → IsInt32 quantity
    → IsSoundBook (Book.execute b bid price quantity)
unfolding Book.execute
execute-IsSoundBook b true price quantity v h i =
    (execute_side-IsValid b.bids price quantity v.0 h i, v.1)
execute-IsSoundBook b false price quantity v h i =
    (v.0, execute_side-IsValid b.asks price quantity v.1 h i)
