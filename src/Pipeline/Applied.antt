-- ===== src/Pipeline/Applied.antt =====
-- What a message does to the live orders, and when it is an error.
use fpga_sim_core.Prelude.{
  ℕ, ◌^◌, ◌≤◌, ◌<◌, ◌≡◌, refl, sym, subst, inl, inr, Bool, not, ◌||◌, Option, none, some, arith,
  ◌==◌, Bool-cases,
}
use fpga_sim_core.Prelude.Int.{ℤ, pos, ◌≤ℤ◌, IsInt32, int32_max, to_int32, to_int32-pos}
use fpga_sim_core.Itch.{
  ItchType, ItchEvent, add, add_mpid, executed, executed_price, cancel, delete_order, replace,
  unknown,
}
use fpga_sim_core.Orders
use fpga_sim_core.Orders.{OrderTable, Entry, Reduced, reduced_of, reduced_entry, applied_of}
use fpga_sim_core.Orders.Inv.{IsValid, is_some}
use fpga_sim_core.Orders.Keep.{insert-IsValid, reduce-IsValid}
use fpga_sim_core.Pipeline.{Desk, fail, enter, take_off, lower_order, replace_with, apply_event}

-- An event whose shares and price fit in an `std::int32_t`, the shares at least 1.
abbrev pub IsSized : ItchEvent → Type 0
IsSized e = (1 ≤ e.shares) × (e.shares < 2 ^ 31)

pub enter-orders :
    (d : Desk) (reference : ℕ) (bid : Bool) (price shares : ℤ)
    → (enter d reference bid price shares).orders
      ≡ (Orders.insert d.orders reference bid price shares).0
unfolding enter fail
enter-orders d reference bid price shares =
    elim (Bool-cases (Orders.insert d.orders reference bid price shares).1) [
      | inl e ↦ simp e
      | inr e ↦ simp e
    ]

pub enter-error :
    (d : Desk) (reference : ℕ) (bid : Bool) (price shares : ℤ)
    → (enter d reference bid price shares).error
      ≡ (d.error || not (Orders.insert d.orders reference bid price shares).1)
unfolding enter fail
enter-error d reference bid price shares =
    elim (Bool-cases (Orders.insert d.orders reference bid price shares).1) [
      | inl e ↦ simp e (ground arith)
      | inr e ↦ simp e (ground arith)
    ]

pub take_off-orders : (d : Desk) (r : Option Reduced) → (take_off d r).orders ≡ d.orders
unfolding take_off fail
take_off-orders d none = refl
take_off-orders d (some r) = refl

pub take_off-error :
    (d : Desk) (r : Option Reduced) → (take_off d r).error ≡ (d.error || not (is_some r))
unfolding take_off fail
take_off-error d none = ground arith
take_off-error d (some r) = ground arith

pub shares_fit :
    (e : ItchEvent) → IsSized e → (pos 1 ≤ℤ to_int32 e.shares) × IsInt32 (to_int32 e.shares)
shares_fit e h = rw (to_int32-pos e.shares h.1) (omega arith, omega arith)

enter-IsValid :
    (d : Desk) (reference : ℕ) (bid : Bool) (price shares : ℤ)
    → IsValid d.orders
    → pos 1 ≤ℤ shares
    → IsInt32 shares
    → IsValid (enter d reference bid price shares).orders
enter-IsValid d reference bid price shares v p i =
    rw enter-orders (insert-IsValid d.orders reference bid price shares v p i)

lower_order-IsValid :
    (d : Desk) (reference : ℕ) (shares : ℤ)
    → IsValid d.orders
    → pos 0 ≤ℤ shares
    → IsValid (lower_order d reference shares).orders
unfolding lower_order
lower_order-IsValid d reference shares v p =
    rw take_off-orders (reduce-IsValid d.orders reference shares v p)

replace_with-IsValid :
    (d : Desk) (r : Option Reduced) (e : ItchEvent)
    → IsSized e
    → IsValid d.orders
    → IsValid (replace_with d r e).orders
unfolding replace_with fail
replace_with-IsValid d none e h v = v
replace_with-IsValid d (some r) e h v =
    enter-IsValid (take_off d (some r)) e.new_reference r.side_bid (to_int32 e.price_ticks)
      (to_int32 e.shares) (subst IsValid (sym (take_off-orders d (some r))) v) (shares_fit e h).0
      (shares_fit e h).1

-- Whatever the type of a message, the table of live orders stays valid, also where the message is an
-- error. The shares of the message are between 1 and 2 ^ 31 - 1.
pub apply_event-IsValid :
    (d : Desk) (e : ItchEvent) (type : ItchType)
    → IsSized e
    → IsValid d.orders
    → IsValid (apply_event d e type).orders
unfolding apply_event fail
apply_event-IsValid d e add h v =
    enter-IsValid d e.order_reference (e.side == b'B') (to_int32 e.price_ticks) (to_int32 e.shares)
      v (shares_fit e h).0 (shares_fit e h).1
apply_event-IsValid d e add_mpid h v =
    enter-IsValid d e.order_reference (e.side == b'B') (to_int32 e.price_ticks) (to_int32 e.shares)
      v (shares_fit e h).0 (shares_fit e h).1
apply_event-IsValid d e executed h v =
    lower_order-IsValid d e.order_reference (to_int32 e.shares) v
      (omega (arith, (shares_fit e h).0))
apply_event-IsValid d e executed_price h v =
    lower_order-IsValid d e.order_reference (to_int32 e.shares) v
      (omega (arith, (shares_fit e h).0))
apply_event-IsValid d e cancel h v =
    lower_order-IsValid d e.order_reference (to_int32 e.shares) v
      (omega (arith, (shares_fit e h).0))
apply_event-IsValid d e delete_order h v =
    lower_order-IsValid d e.order_reference int32_max v (omega arith)
apply_event-IsValid d e replace h v =
    replace_with-IsValid
      (record d { orders = (Orders.reduce d.orders e.order_reference int32_max).0 })
      (Orders.reduce d.orders e.order_reference int32_max).1 e h
      (reduce-IsValid d.orders e.order_reference int32_max v (omega arith))
apply_event-IsValid d e unknown h v = v
