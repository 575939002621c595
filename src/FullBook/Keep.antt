-- ===== src/FullBook/Keep.antt =====
-- Every message keeps the levels of a book at the totals of its orders.
use fpga_sim_core.Prelude.{
  ℕ, ◌+◌, ◌-◌, ◌≤◌, ◌<◌, ◌≡◌, ◌∙◌, refl, ap, sym, subst, inl, inr, Bool, true, false, Bool-cases,
  Option, none, some, arith, if◌then◌else◌,
}
use fpga_sim_core.Prelude.Int.{
  kept_total, ℤ, pos, pos_part, neg_part, ltb_ℤ, leb_ℤ, ◌-ℤ◌, -ℤ_parts, eq_of_parts,
}
use fpga_sim_core.FullBook.{
  Order, RealBook, find_order, set_order, erase_order, find_level, side_of, take, reduce, remove,
  reduce_found, remove_found, unknown_ref,
}
use fpga_sim_core.FullBook.Maps.{IsUnique-set, IsUnique-erase}
use fpga_sim_core.FullBook.Sorted.{IsSorted}
use fpga_sim_core.FullBook.Totals.{
  is_at, part, found_part, total, AllLive-set, AllLive-erase, AllLive-find, total-set, total-erase,
}
use fpga_sim_core.FullBook.Sides.{IsBook, at_self}
use fpga_sim_core.FullBook.Changes.{take-orders, taken-IsBook}

pub unknown_ref-IsBook : (b : RealBook) → IsBook b → IsBook (unknown_ref b)
unknown_ref-IsBook b v = record {
  unique = v.unique;
  live = v.live;
  sorted = sorted;
  level_totals = totals;
}
  where
    sorted : (bid : Bool) → IsSorted (side_of (unknown_ref b) bid)
    sorted true = v.sorted true
    sorted false = v.sorted false

    totals :
        (bid : Bool) (price : ℤ)
        → find_level (side_of (unknown_ref b) bid) price ≡ kept_total (total bid price b.orders)
    totals true price = v.level_totals true price
    totals false price = v.level_totals false price

-- An order that is found is part of the total of its level.
found-le :
    (b : RealBook) (ref : ℕ) (o : Order)
    → IsBook b
    → find_order b.orders ref ≡ some o
    → pos_part o.shares ≤ total o.bid o.price b.orders
found-le b ref o v f =
    let own : part o.bid o.price o ≡ pos_part o.shares = simp (at_self o) refl in
    omega
      (arith, own, ap (found_part o.bid o.price) f, total-erase o.bid o.price b.orders ref v.unique)

erased :
    (b : RealBook) (ref : ℕ) (o : Order) (bid : Bool) (p : ℤ)
    → IsBook b
    → find_order b.orders ref ≡ some o
    → total bid p (erase_order b.orders ref) + part bid p o ≡ total bid p b.orders
erased b ref o bid p v f =
    ap (λ k. total bid p (erase_order b.orders ref) + found_part bid p k) (sym f)
    ∙ total-erase bid p b.orders ref v.unique

remove_found-IsBook :
    (b : RealBook) (ref : ℕ) (k : Option Order)
    → IsBook b
    → find_order b.orders ref ≡ k
    → IsBook (remove_found b ref k)
remove_found-IsBook b ref none v f = unknown_ref-IsBook b v
remove_found-IsBook b ref (some o) v f =
    let (some_left, natural) = AllLive-find b.orders ref o f v.live in
    subst (λ os. IsBook (record (take b o o.shares) { orders = erase_order os ref }))
      (sym (take-orders b o o.shares))
      (taken-IsBook b o o.shares (erase_order b.orders ref) v (IsUnique-erase b.orders ref v.unique)
        (AllLive-erase b.orders ref v.live) some_left (found-le b ref o v f) natural (omega arith)
        (λ bid p. erased b ref o bid p v f))

pub remove-IsBook : (b : RealBook) (ref : ℕ) → IsBook b → IsBook (remove b ref)
unfolding remove
remove-IsBook b ref v = remove_found-IsBook b ref (find_order b.orders ref) v refl

-- The shares that are taken of an order, and what is left of it.
abbrev least : ℤ → ℤ → ℤ
least shares own = if ltb_ℤ own shares then own else shares

least_lem :
    (shares own : ℤ)
    → (0 < pos_part own) × (neg_part own ≡ 0)
    → neg_part shares ≡ 0
    → (neg_part (least shares own) ≡ 0) × (pos_part (least shares own) ≤ pos_part own)
least_lem shares own h n = ground (arith, h.0, h.1)

left_lem :
    (own n : ℤ)
    → neg_part own ≡ 0
    → neg_part n ≡ 0
    → pos_part n ≤ pos_part own
    → own -ℤ n ≡ pos (pos_part own - pos_part n)
left_lem own n h k le =
    eq_of_parts (own -ℤ n) (pos (pos_part own - pos_part n))
      (omega (arith, -ℤ_parts own n, h, k, le))

gone_lem : (k : ℕ) (z : ℤ) → z ≡ pos k → leb_ℤ z (pos 0) ≡ true → k ≡ 0
gone_lem k z e h = ground (arith, e, h)

live_lem : (k : ℕ) (z : ℤ) → z ≡ pos k → leb_ℤ z (pos 0) ≡ false → 0 < k
live_lem k z e h = ground (arith, e, h)

reduce_found-IsBook :
    (b : RealBook) (ref : ℕ) (k : Option Order) (shares : ℤ)
    → IsBook b
    → find_order b.orders ref ≡ k
    → neg_part shares ≡ 0
    → IsBook (reduce_found b ref k shares)
reduce_found-IsBook b ref none shares v f h = unknown_ref-IsBook b v
reduce_found-IsBook b ref (some o) shares v f h =
    let own = AllLive-find b.orders ref o f v.live in
    let n = least shares o.shares in
    let (natural, le) = least_lem shares o.shares own h in
    let left = o.shares -ℤ n in
    let e : left ≡ pos (pos_part o.shares - pos_part n) = left_lem o.shares n own.1 natural le in
    let o' : Order = record o { shares = left } in
    subst
      (λ os. IsBook (record (take b o n) {
        orders = if leb_ℤ left (pos 0) then erase_order os ref else set_order os ref o';
      }))
      (sym (take-orders b o n))
      (elim (Bool-cases (leb_ℤ left (pos 0))) [
        | inl gone ↦
            let none_left = gone_lem (pos_part o.shares - pos_part n) left e gone in
            simp gone (
              taken-IsBook b o n (erase_order b.orders ref) v (IsUnique-erase b.orders ref v.unique)
                (AllLive-erase b.orders ref v.live) own.0 (found-le b ref o v f) natural le
                (λ bid p.
                  all_taken (is_at bid p o) (pos_part o.shares) (pos_part n) _ _
                    (omega (arith, none_left, le)) (erased b ref o bid p v f)))
        | inr kept ↦
            let some_left = live_lem (pos_part o.shares - pos_part n) left e kept in
            simp kept (
              taken-IsBook b o n (set_order b.orders ref o') v
                (IsUnique-set b.orders ref o' v.unique)
                (AllLive-set b.orders ref o'
                  (omega (arith, ap pos_part e, some_left), ap neg_part e) v.live)
                own.0 (found-le b ref o v f) natural le
                (λ bid p.
                  some_taken (is_at bid p o) (pos_part o.shares) (pos_part left) (pos_part n) _ _
                    (omega (arith, ap pos_part e, le))
                    (ap (λ x. total bid p (set_order b.orders ref o') + found_part bid p x) (sym f)
                      ∙ total-set bid p b.orders ref o')))
      ])
  where
    all_taken :
        (at : Bool) (own n t t' : ℕ)
        → own ≡ n
        → t' + (if at then own else 0) ≡ t
        → t' + (if at then n else 0) ≡ t
    all_taken true own n t t' e h = omega (arith, e, h)
    all_taken false own n t t' e h = h

    some_taken :
        (at : Bool) (own rest n t t' : ℕ)
        → rest + n ≡ own
        → t' + (if at then own else 0) ≡ t + (if at then rest else 0)
        → t' + (if at then n else 0) ≡ t
    some_taken true own rest n t t' e h = omega (arith, e, h)
    some_taken false own rest n t t' e h = omega (arith, h)

pub reduce-IsBook :
    (b : RealBook) (ref : ℕ) (shares : ℤ)
    → IsBook b
    → neg_part shares ≡ 0
    → IsBook (reduce b ref shares)
unfolding reduce
reduce-IsBook b ref shares v h = reduce_found-IsBook b ref (find_order b.orders ref) shares v refl h
