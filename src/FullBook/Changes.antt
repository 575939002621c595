-- ===== src/FullBook/Changes.antt =====
-- Adding an order, and taking shares of one, keep the levels at the totals of the orders.
use fpga_sim_core.Prelude.{
  ℕ, ◌+◌, ◌-◌, ◌≤◌, ◌<◌, ◌≡◌, ◌∙◌, refl, ap, sym, subst, inl, inr, Bool, true, false, Bool-cases,
  Option, none, some, List, arith, if◌then◌else◌,
}
use fpga_sim_core.Prelude.Int.{
  kept_total, kept_pos, ℤ, pos, pos_part, neg_part, leb_ℤ, ◌+ℤ◌, ◌-ℤ◌, +ℤ_parts, -ℤ_parts,
  eq_of_parts,
}
use fpga_sim_core.FullBook.{
  Order, RealBook, find_order, set_order, find_level, set_level, side_of, with_side, quantity, add,
  taken_from, take,
}
use fpga_sim_core.FullBook.Maps.{IsUnique, IsUnique-set}
use fpga_sim_core.FullBook.Sorted.{IsSorted, IsSorted-set, with_side-IsSorted, take-IsSorted}
use fpga_sim_core.FullBook.Totals.{is_at, part, found_part, total, AllLive, AllLive-set, total-set}
use fpga_sim_core.FullBook.Sides.{
  IsBook, quantity_kept, set_at, erase_at, with_side-orders, side-orders, same_total,
}

pub add-IsBook :
    (b : RealBook) (ref : ℕ) (bid : Bool) (price shares : ℤ)
    → IsBook b
    → find_order b.orders ref ≡ none
    → (0 < pos_part shares) × (neg_part shares ≡ 0)
    → IsBook (add b ref bid price shares)
unfolding add
add-IsBook b ref bid price shares v new some_shares =
    let o : Order = record { bid = bid; price = price; shares = shares } in
    let os = set_order b.orders ref o in
    let b1 : RealBook = record b { orders = os } in
    let qty = quantity (find_level (side_of b bid) price) +ℤ shares in
    let ls = set_level (side_of b bid) price qty in
    let kept = with_side-orders b1 bid ls in
    let side = side-orders b os bid in
    record {
      unique = subst IsUnique (sym kept) (IsUnique-set b.orders ref o v.unique);
      live = subst AllLive (sym kept) (AllLive-set b.orders ref o some_shares v.live);
      sorted = λ bid'.
          with_side-IsSorted b1 bid ls bid' (IsSorted-set (side_of b bid) price qty (v.sorted bid))
            (λ side'. subst IsSorted (sym (side-orders b os side')) (v.sorted side'));
      level_totals = λ bid' p.
          let sum : total bid' p os + found_part bid' p none
              ≡ total bid' p b.orders + part bid' p o =
            ap (λ f. total bid' p os + found_part bid' p f) (sym new)
            ∙ total-set bid' p b.orders ref o in
          ap (λ l. find_level (side_of (with_side b1 bid (set_level l price qty)) bid') p)
            (sym side)
          ∙ set_at b1 o qty bid' p
          ∙ ap (λ l. if is_at bid' p o then some qty else find_level l p) (side-orders b os bid')
          ∙ elim (Bool-cases (is_at bid' p o)) [
            | inl e ↦
                let here = same_total b.orders o bid' p e in
                let sum' : total bid' p os + 0 ≡ total bid' p b.orders + pos_part shares =
                  simp e at sum in
                let old : quantity (find_level (side_of b bid) price)
                    ≡ pos (total bid price b.orders) =
                  ap quantity (v.level_totals bid price)
                  ∙ quantity_kept (total bid price b.orders) in
                let new_qty : qty ≡ pos (total bid' p os) =
                  ap (λ q. q +ℤ shares) old
                  ∙ eq_of_parts (pos (total bid price b.orders) +ℤ shares) (pos (total bid' p os)) (
                      omega (
                        arith,
                        +ℤ_parts (pos (total bid price b.orders)) shares,
                        sum',
                        here,
                        some_shares.1,
                      )) in
                simp e (
                  ap some new_qty
                  ∙ sym (kept_pos (total bid' p os) (omega (arith, sum', some_shares.0))))
            | inr e ↦
                let sum' : total bid' p os + 0 ≡ total bid' p b.orders + 0 = simp e at sum in
                simp e (v.level_totals bid' p ∙ ap kept_total (omega (arith, sum')))
          ]
          ∙ ap (λ l. kept_total (total bid' p l)) (sym kept);
    }

-- Taking shares at the level of an order leaves the orders as they are.
taken-orders :
    (b : RealBook) (o : Order) (q : Option ℤ) (n : ℤ) → (taken_from b o q n).orders ≡ b.orders
taken-orders b o none n = refl
taken-orders b o (some q) n = with_side-orders b o.bid _

pub take-orders : (b : RealBook) (o : Order) (n : ℤ) → (take b o n).orders ≡ b.orders
unfolding take
take-orders b o n = taken-orders b o (find_level (side_of b o.bid) o.price) n

-- The levels after shares have been taken at the level of an order.
take-level :
    (b : RealBook) (o : Order) (n : ℤ) (t : ℕ) (bid : Bool) (p : ℤ)
    → find_level (side_of b o.bid) o.price ≡ kept_total t
    → 0 < t
    → neg_part n ≡ 0
    → pos_part n ≤ t
    → find_level (side_of (take b o n) bid) p
      ≡ (if is_at bid p o then kept_total (t - pos_part n) else find_level (side_of b bid) p)
unfolding take
take-level b o n t bid p f h natural le =
    let qty = pos t -ℤ n in
    let e : qty ≡ pos (t - pos_part n) =
      eq_of_parts qty (pos (t - pos_part n)) (omega (arith, -ℤ_parts (pos t) n, natural, le)) in
    ap (λ q. find_level (side_of (taken_from b o q n) bid) p) (f ∙ kept_pos t h)
    ∙ elim (Bool-cases (leb_ℤ qty (pos 0))) [
      | inl gone ↦
          let none_left : t - pos_part n ≡ 0 = zero_left (t - pos_part n) qty e gone in
          simp gone (
            erase_at b o bid p
            ∙ ap (λ k. if is_at bid p o then kept_total k else find_level (side_of b bid) p)
                (sym none_left))
      | inr kept ↦
          let some_left : 0 < t - pos_part n = more_left (t - pos_part n) qty e kept in
          simp kept (
            set_at b o qty bid p
            ∙ ap (λ q. if is_at bid p o then q else find_level (side_of b bid) p)
                (ap some e ∙ sym (kept_pos (t - pos_part n) some_left)))
    ]
  where
    zero_left : (k : ℕ) (q : ℤ) → q ≡ pos k → leb_ℤ q (pos 0) ≡ true → k ≡ 0
    zero_left k q e h = ground (arith, e, h)

    more_left : (k : ℕ) (q : ℤ) → q ≡ pos k → leb_ℤ q (pos 0) ≡ false → 0 < k
    more_left k q e h = ground (arith, e, h)

-- The orders lose what the level loses.
pub taken-IsBook :
    (b : RealBook) (o : Order) (n : ℤ) (os : List (ℕ × Order))
    → IsBook b
    → IsUnique os
    → AllLive os
    → 0 < pos_part o.shares
    → pos_part o.shares ≤ total o.bid o.price b.orders
    → neg_part n ≡ 0
    → pos_part n ≤ pos_part o.shares
    → ((bid : Bool) (p : ℤ)
        → total bid p os + (if is_at bid p o then pos_part n else 0) ≡ total bid p b.orders)
    → IsBook (record (take b o n) { orders = os })
taken-IsBook b o n os v unique live h big natural le loses = record {
  unique = unique;
  live = live;
  sorted = λ bid.
      subst IsSorted (sym (side-orders (take b o n) os bid)) (take-IsSorted b o n bid v.sorted);
  level_totals = λ bid p.
      ap (λ l. find_level l p) (side-orders (take b o n) os bid)
      ∙ take-level b o n (total o.bid o.price b.orders) bid p (v.level_totals o.bid o.price)
          (omega (arith, h, big)) natural (omega (arith, le, big))
      ∙ (let loss = loses bid p in
          elim (Bool-cases (is_at bid p o)) [
            | inl e ↦
                let here = same_total b.orders o bid p e in
                let loss' : total bid p os + pos_part n ≡ total bid p b.orders = simp e at loss in
                simp e (ap kept_total (omega (arith, loss', here)))
            | inr e ↦
                let loss' : total bid p os + 0 ≡ total bid p b.orders = simp e at loss in
                simp e (v.level_totals bid p ∙ ap kept_total (omega (arith, loss')))
          ]);
}
