-- ===== src/FullBook/Sides.antt =====
-- A book whose levels are the totals of its orders, and its two sides after a change.
use fpga_sim_core.Prelude.{
  ℕ, zero, suc, ◌≡◌, ◌∙◌, refl, ap, Bool, true, false, ◌&&◌, eqb, none, some, List, arith,
  if◌then◌else◌,
}
use fpga_sim_core.Prelude.Int.{kept_total, ℤ, pos, eqb_ℤ, eqb_ℤ_refl, eqb_ℤ→eq}
use fpga_sim_core.FullBook.{
  Order, RealBook, find_level, set_level, erase_level, side_of, with_side, quantity,
}
use fpga_sim_core.FullBook.Maps.{IsUnique, find-set_level, find-erase_level}
use fpga_sim_core.FullBook.Sorted.{IsSorted}
use fpga_sim_core.FullBook.Totals.{is_at, total, AllLive}

pub record IsBook (b : RealBook) : Type 0 where
  pub unique : IsUnique b.orders
  pub live : AllLive b.orders
  pub sorted : (bid : Bool) → IsSorted (side_of b bid)
  pub level_totals :
      (bid : Bool) (price : ℤ)
      → find_level (side_of b bid) price ≡ kept_total (total bid price b.orders)

pub quantity_kept : (t : ℕ) → quantity (kept_total t) ≡ pos t
quantity_kept zero = refl
quantity_kept (suc t) = refl

pub set_at :
    (b : RealBook) (o : Order) (qty : ℤ) (bid : Bool) (p : ℤ)
    → find_level (side_of (with_side b o.bid (set_level (side_of b o.bid) o.price qty)) bid) p
      ≡ (if is_at bid p o then some qty else find_level (side_of b bid) p)
set_at b o qty bid p = go o.bid bid
  where
    go :
        (side bid : Bool)
        → find_level (side_of (with_side b side (set_level (side_of b side) o.price qty)) bid) p
          ≡ (if eqb side bid && eqb_ℤ o.price p then some qty else find_level (side_of b bid) p)
    go true true = find-set_level b.bids o.price qty p
    go true false = refl
    go false true = refl
    go false false = find-set_level b.asks o.price qty p

pub erase_at :
    (b : RealBook) (o : Order) (bid : Bool) (p : ℤ)
    → find_level (side_of (with_side b o.bid (erase_level (side_of b o.bid) o.price)) bid) p
      ≡ (if is_at bid p o then none else find_level (side_of b bid) p)
erase_at b o bid p = go o.bid bid
  where
    go :
        (side bid : Bool)
        → find_level (side_of (with_side b side (erase_level (side_of b side) o.price)) bid) p
          ≡ (if eqb side bid && eqb_ℤ o.price p then none else find_level (side_of b bid) p)
    go true true = find-erase_level b.bids o.price p
    go true false = refl
    go false true = refl
    go false false = find-erase_level b.asks o.price p

pub with_side-orders :
    (b : RealBook) (bid : Bool) (ls : List (ℤ × ℤ)) → (with_side b bid ls).orders ≡ b.orders
with_side-orders b true ls = refl
with_side-orders b false ls = refl

pub side-orders :
    (b : RealBook) (os : List (ℕ × Order)) (bid : Bool)
    → side_of (record b { orders = os }) bid ≡ side_of b bid
side-orders b os true = refl
side-orders b os false = refl

eqb→eq : (a b : Bool) → eqb a b ≡ true → a ≡ b
eqb→eq true true h = refl
eqb→eq true false h = absurd (ground (arith, h))
eqb→eq false true h = absurd (ground (arith, h))
eqb→eq false false h = refl

-- At the place of an order, the total is that of the order's own level.
pub same_total :
    (os : List (ℕ × Order)) (o : Order) (bid : Bool) (p : ℤ)
    → is_at bid p o ≡ true
    → total o.bid o.price os ≡ total bid p os
same_total os o bid p e =
    let (same_bid, same_price) : (eqb o.bid bid ≡ true) × (eqb_ℤ o.price p ≡ true) =
      ground (arith, e) in
    ap (λ s. total s o.price os) (eqb→eq o.bid bid same_bid)
    ∙ ap (λ q. total bid q os) (eqb_ℤ→eq o.price p same_price)

pub at_self : (o : Order) → is_at o.bid o.price o ≡ true
at_self o = simp (eqb_ℤ_refl o.price) (go o.bid)
  where
    go : (b : Bool) → (eqb b b && true) ≡ true
    go true = refl
    go false = refl
