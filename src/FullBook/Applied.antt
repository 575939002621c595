-- ===== src/FullBook/Applied.antt =====
-- `apply` on a book whose levels are the totals of its orders.
use fpga_sim_core.Prelude.{
  ℕ, ◌<◌, ◌≡◌, ◌∙◌, refl, ap, Bool, true, false, ◌||◌, Option, none, some, List, ◌==◌, arith,
  get_or, if◌then◌else◌,
}
use fpga_sim_core.Prelude.Int.{kept_total, ℤ, pos}
use fpga_sim_core.Walk.{be}
use fpga_sim_core.FullBook.{
  Order, RealBook, best_bid, best_ask, fresh, find_level, side_of, find_order, erase_order, remove,
  remove_found, apply, replace_found,
}
use fpga_sim_core.FullBook.Sorted.{IsSorted}
use fpga_sim_core.FullBook.Totals.{total}
use fpga_sim_core.FullBook.Sides.{IsBook}
use fpga_sim_core.FullBook.Best.{IsBest, best_lem}
use fpga_sim_core.FullBook.Changes.{add-IsBook, take-orders}
use fpga_sim_core.FullBook.Keep.{unknown_ref-IsBook, remove-IsBook, reduce-IsBook}

remove-orders :
    (b : RealBook) (ref : ℕ) (o : Order)
    → find_order b.orders ref ≡ some o
    → (remove b ref).orders ≡ erase_order b.orders ref
unfolding remove
remove-orders b ref o f =
    ap (λ k. (remove_found b ref k).orders) f
    ∙ ap (λ os. erase_order os ref) (take-orders b o o.shares)

replace_found-IsBook :
    (b : RealBook) (m : List ℕ) (k : Option Order)
    → IsBook b
    → find_order b.orders (be m 11 8 0) ≡ k
    → find_order (erase_order b.orders (be m 11 8 0)) (be m 19 8 0) ≡ none
    → 0 < be m 27 4 0
    → IsBook (replace_found b m k)
replace_found-IsBook b m none v f new h = unknown_ref-IsBook b v
replace_found-IsBook b m (some o) v f new h =
    add-IsBook (remove b (be m 11 8 0)) (be m 19 8 0) o.bid (pos (be m 31 4 0)) (pos (be m 27 4 0))
      (remove-IsBook b (be m 11 8 0) v)
      (ap (λ os. find_order os (be m 19 8 0)) (remove-orders b (be m 11 8 0) o f) ∙ new) (h, refl)

pub fresh-IsBook : IsBook fresh
unfolding find_level
fresh-IsBook = record { unique = tt; live = tt; sorted = no_level; level_totals = empty }
  where
    no_level : (bid : Bool) → IsSorted (side_of fresh bid)
    no_level true = tt
    no_level false = tt

    empty :
        (bid : Bool) (price : ℤ)
        → find_level (side_of fresh bid) price ≡ kept_total (total bid price fresh.orders)
    empty true price = refl
    empty false price = refl

-- The messages that bring in an order.
abbrev pub is_add : ℕ → Bool
is_add type = type == b'A' || type == b'F'

-- The reference of a new order is not that of a live one, and it has shares.
abbrev pub IsNewAdd : RealBook → List ℕ → Type 0
IsNewAdd b m = (find_order b.orders (be m 11 8 0) ≡ none) × (0 < be m 20 4 0)

-- For a replacement, not that of one which is live besides the old one.
abbrev pub IsNewReplace : RealBook → List ℕ → Type 0
IsNewReplace b m =
    (find_order (erase_order b.orders (be m 11 8 0)) (be m 19 8 0) ≡ none) × (0 < be m 27 4 0)

applied-IsBook :
    (b : RealBook) (m : List ℕ)
    → IsBook b
    → (is_add (get_or m 0 0) ≡ true → IsNewAdd b m)
    → (get_or m 0 0 ≡ b'U' → IsNewReplace b m)
    → IsBook (apply b m).0
unfolding apply
applied-IsBook b m v fresh_add fresh_replace =
    if-IsBook (is_add (get_or m 0 0)) _ _
      (λ e.
        let (new, h) = fresh_add e in
        add-IsBook b (be m 11 8 0) (get_or m 19 0 == b'B') (pos (be m 32 4 0)) (pos (be m 20 4 0)) v
          new (h, refl))
      (λ _.
        if-IsBook (get_or m 0 0 == b'E' || (get_or m 0 0 == b'C' || get_or m 0 0 == b'X')) _ _
          (λ _. reduce-IsBook b (be m 11 8 0) (pos (be m 19 4 0)) v refl)
          (λ _.
            if-IsBook (get_or m 0 0 == b'D') _ _ (λ _. remove-IsBook b (be m 11 8 0) v)
              (λ _.
                if-IsBook (get_or m 0 0 == b'U') _ _
                  (λ e.
                    let (new, h) = fresh_replace (ground (arith, e)) in
                    replace_found-IsBook b m (find_order b.orders (be m 11 8 0)) v refl new h)
                  (λ _. v))))
  where
    if-IsBook :
        (t : Bool) (x y : RealBook × Bool)
        → (t ≡ true → IsBook x.0)
        → (t ≡ false → IsBook y.0)
        → IsBook (if t then x else y).0
    if-IsBook true x y f g = f refl
    if-IsBook false x y f g = g refl

-- A book in which every level of each side is the total of the shares of its live orders, there is no
-- level without shares, the levels stand in the order of their prices, and no reference is live twice,
-- is such a book after any message, and its best bid and ask are then the greatest price and the least
-- at which live orders have shares, or there are none. New orders have shares and a reference that is
-- not live.
pub apply-IsBook :
    (b : RealBook) (m : List ℕ)
    → IsBook b
    → (is_add (get_or m 0 0) ≡ true → IsNewAdd b m)
    → (get_or m 0 0 ≡ b'U' → IsNewReplace b m)
    → let b' = (apply b m).0 in
      IsBook b' × IsBest b' true (best_bid b') × IsBest b' false (best_ask b')
apply-IsBook b m v fresh_add fresh_replace =
    let kept = applied-IsBook b m v fresh_add fresh_replace in
    let best = best_lem (apply b m).0 kept in (kept, best.0, best.1)
