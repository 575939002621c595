-- ===== src/Pipeline/Errors.antt =====
-- Which messages the book stage refuses.
use fpga_sim_core.Prelude.{
  ℕ, ◌≡◌, ◌∙◌, refl, ap, subst, inl, inr, Bool, true, false, not, ◌&&◌, ◌||◌, Option, none, some,
  [], ◌∷◌, arith, ◌==◌, Bool-cases,
}
use mathlib.Core.Option
use fpga_sim_core.Prelude.Int.{ℤ, pos, ◌≤ℤ◌, -ℤ_parts, IsInt32, int32_max, to_int32}
use fpga_sim_core.Itch.{
  ItchType, ItchEvent, add, add_mpid, executed, executed_price, cancel, delete_order, replace,
  unknown,
}
use fpga_sim_core.Orders
use fpga_sim_core.Orders.{OrderTable, Entry, Reduced, blank, reduced_of, reduced_entry, applied_of}
use fpga_sim_core.Orders.Inv.{IsValid, IsSound, lookup, has_free, is_some}
use fpga_sim_core.Orders.Refine.{insert_lem, reduce-left_of, after_reduce, left_of, applied-IsInt32}
use fpga_sim_core.Pipeline.{Desk, fail, enter, take_off, lower_order, replace_with, apply_event}
use fpga_sim_core.Pipeline.Applied.{
  IsSized, enter-error, take_off-error, take_off-orders, shares_fit,
}

left_of-all : (e : Entry) → pos 1 ≤ℤ e.remaining → IsInt32 e.remaining → left_of int32_max e ≡ none
unfolding left_of
left_of-all e p i = ground (arith, -ℤ_parts e.remaining e.remaining, -ℤ_parts e.remaining int32_max)

-- Nothing is left of an order that is reduced by all that an `std::int32_t` holds.
after_reduce-all :
    (es : OrderTable) (reference : ℕ)
    → IsValid es
    → after_reduce int32_max (lookup reference es) ≡ none
unfolding lookup
after_reduce-all [] reference v = refl
after_reduce-all (e ∷ es) reference v = elim (Bool-cases e.live) [
  | inl live ↦ elim (Bool-cases (e.reference == reference)) [
    | inl hit ↦
        let s = subst (λ b. IsSound b e es) live v.0 in simp (live, hit) (left_of-all e s.0 s.1)
    | inr miss ↦ simp (live, miss) (after_reduce-all es reference v.1)
  ]
  | inr dead ↦ simp dead (after_reduce-all es reference v.1)
]

reduced_entry-all :
    (e : Entry) (es : OrderTable) → IsSound true e es → reduced_entry int32_max e ≡ blank
unfolding reduced_entry
reduced_entry-all e es s =
    rw (applied-IsInt32 int32_max e (omega arith) s.0 s.1)
      (ground (arith, -ℤ_parts e.remaining e.remaining, -ℤ_parts e.remaining int32_max))

-- It leaves its entry free.
has_free-reduce :
    (es : OrderTable) (reference : ℕ)
    → IsValid es
    → is_some (lookup reference es) ≡ true
    → has_free (Orders.reduce es reference int32_max).0 ≡ true
unfolding lookup has_free Orders.reduce
has_free-reduce [] reference v found = ground (arith, found)
has_free-reduce (e ∷ es) reference v found = elim (Bool-cases e.live) [
  | inl live ↦ elim (Bool-cases (e.reference == reference)) [
    | inl hit ↦
        let s = subst (λ b. IsSound b e es) live v.0 in
        simp (live, hit) (rw (reduced_entry-all e es s) refl)
    | inr miss ↦ simp (live, miss) (has_free-reduce es reference v.1 (simp (live, miss) at found))
  ]
  | inr dead ↦ simp dead
]

-- Which messages the book stage takes, told by the live orders.
abbrev pub accepted : OrderTable → ItchEvent → ItchType → Bool
accepted es e add = not (is_some (lookup e.order_reference es)) && has_free es
accepted es e add_mpid = not (is_some (lookup e.order_reference es)) && has_free es
accepted es e executed = is_some (lookup e.order_reference es)
accepted es e executed_price = is_some (lookup e.order_reference es)
accepted es e cancel = is_some (lookup e.order_reference es)
accepted es e delete_order = is_some (lookup e.order_reference es)
accepted es e replace =
    is_some (lookup e.order_reference es)
    && (e.order_reference == e.new_reference || not (is_some (lookup e.new_reference es)))
accepted es e unknown = false

map-is_some {ℓ κ} :
    {A : Type ℓ} {B : Type κ} (f : A → B) (o : Option A) → is_some (Option.map f o) ≡ is_some o
map-is_some f none = refl
map-is_some f (some a) = refl

entered :
    (d : Desk) (reference : ℕ) (bid : Bool) (price shares : ℤ)
    → (enter d reference bid price shares).error
      ≡ (d.error || not (not (is_some (lookup reference d.orders)) && has_free d.orders))
entered d reference bid price shares =
    enter-error d reference bid price shares
    ∙ ap (λ done. d.error || not done) (insert_lem d.orders reference bid price shares reference).0

lowered :
    (d : Desk) (reference : ℕ) (shares : ℤ)
    → IsValid d.orders
    → pos 0 ≤ℤ shares
    → (lower_order d reference shares).error
      ≡ (d.error || not (is_some (lookup reference d.orders)))
unfolding lower_order
lowered d reference shares v p =
    take_off-error (record d { orders = (Orders.reduce d.orders reference shares).0 })
      (Orders.reduce d.orders reference shares).1
    ∙ ap (λ r. d.error || not (is_some r))
        (reduce-left_of d.orders reference shares reference v p).0
    ∙ ap (λ b. d.error || not b) (map-is_some (reduced_of shares) (lookup reference d.orders))

replace_with-error :
    (d : Desk) (r : Option Reduced) (e : ItchEvent)
    → (replace_with d r e).error ≡ (
        d.error
        || not
            (is_some r && (not (is_some (lookup e.new_reference d.orders)) && has_free d.orders)))
unfolding replace_with fail
replace_with-error d none e = ground arith
replace_with-error d (some r) e =
    entered (take_off d (some r)) e.new_reference r.side_bid (to_int32 e.price_ticks)
      (to_int32 e.shares)
    ∙ rw (take_off-orders d (some r), take_off-error d (some r)) (ground arith)

replaced :
    (d : Desk) (e : ItchEvent)
    → IsValid d.orders
    → (apply_event d e replace).error ≡ (d.error || not (accepted d.orders e replace))
unfolding apply_event
replaced d e v =
    replace_with-error (record d { orders = es' }) result e
    ∙ ap (λ b. d.error || not b)
        (elim (Bool-cases (is_some (lookup e.order_reference d.orders))) [
          | inl found ↦
              simp (kept, found, has_free-reduce d.orders e.order_reference v found)
                (new_live found)
          | inr absent ↦ simp (kept, absent)
        ])
  where
    es' : OrderTable
    es' = (Orders.reduce d.orders e.order_reference int32_max).0

    result : Option Reduced
    result = (Orders.reduce d.orders e.order_reference int32_max).1

    kept : is_some result ≡ is_some (lookup e.order_reference d.orders)
    kept =
        ap is_some
          (reduce-left_of d.orders e.order_reference int32_max e.new_reference v (omega arith)).0
        ∙ map-is_some (reduced_of int32_max) (lookup e.order_reference d.orders)

    new_live :
        is_some (lookup e.order_reference d.orders) ≡ true
        → (not (is_some (lookup e.new_reference es')) && true) ≡ (
            e.order_reference == e.new_reference || not (is_some (lookup e.new_reference d.orders)))
    new_live found =
        rw
          (
            (reduce-left_of d.orders e.order_reference int32_max e.new_reference v (omega arith)).1,
            after_reduce-all d.orders e.order_reference v,
          )
          (elim (Bool-cases (e.order_reference == e.new_reference)) [
            | inl same ↦ simp same
            | inr other ↦ simp other (ground arith)
          ])

-- A message is an error exactly where it is not accepted: an add needs a reference that is not live and
-- a free entry; an execution, a cancel and a delete need a live order; a replace needs a live order and
-- a new reference that is not live or is that of the order itself; a message of another type is
-- always an error. An error stays. The table of live orders is valid and the shares of the message
-- are between 1 and 2 ^ 31 - 1.
pub apply_event-error :
    (d : Desk) (e : ItchEvent) (type : ItchType)
    → IsSized e
    → IsValid d.orders
    → (apply_event d e type).error ≡ (d.error || not (accepted d.orders e type))
unfolding apply_event fail
apply_event-error d e add h v =
    entered d e.order_reference (e.side == b'B') (to_int32 e.price_ticks) (to_int32 e.shares)
apply_event-error d e add_mpid h v =
    entered d e.order_reference (e.side == b'B') (to_int32 e.price_ticks) (to_int32 e.shares)
apply_event-error d e executed h v =
    lowered d e.order_reference (to_int32 e.shares) v (omega (arith, (shares_fit e h).0))
apply_event-error d e executed_price h v =
    lowered d e.order_reference (to_int32 e.shares) v (omega (arith, (shares_fit e h).0))
apply_event-error d e cancel h v =
    lowered d e.order_reference (to_int32 e.shares) v (omega (arith, (shares_fit e h).0))
apply_event-error d e delete_order h v = lowered d e.order_reference int32_max v (omega arith)
apply_event-error d e replace h v = replaced d e v
apply_event-error d e unknown h v = ground arith
