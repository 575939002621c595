-- ===== src/Oracle/Taken.antt =====
-- The order table and the book when shares are taken of a live order.
use mathlib.Core.Option
use fpga_sim_core.Prelude.{
  ℕ, zero, suc, ◌-◌, ◌<◌, ◌≤◌, ◌≡◌, ◌∙◌, refl, ap, sym, subst, inl, inr, true, false, not, ◌||◌,
  Bool-cases, none, some, arith, length, set, ◌==◌, if◌then◌else◌,
}
use fpga_sim_core.Prelude.Int.{pos, ◌-ℤ◌, leb_ℤ, eqb_ℤ, wrap32, pos_part, -ℤ_parts, eq_of_parts}
use fpga_sim_core.Orders
use fpga_sim_core.Orders.{Entry, OrderTable, applied_of, reduced_of}
use fpga_sim_core.Orders.Inv.{lookup, is_some, IsValid}
use fpga_sim_core.Orders.Refine.{reduce-left_of, left_of, after_reduce}
use fpga_sim_core.Orders.Keep.{reduce-IsValid}
use fpga_sim_core.Book
use fpga_sim_core.Pipeline.{Desk, take_off, lower_order}
use fpga_sim_core.Pipeline.Applied.{take_off-orders, take_off-error}
use fpga_sim_core.Stream.Synthetic.{Live, blank_live}
use fpga_sim_core.Stream.Synthetic.Account.{
  Account, order_at, is_at, live_total, IsAccount, change-live_count,
}
use fpga_sim_core.Stream.Synthetic.Lowered.{left, lowered, reduced}
use fpga_sim_core.Oracle.Lives.{find, Distinct, find_self}
use fpga_sim_core.Oracle.Accounts.{lives, rest_of, length-lives, get_or-take, reduced-Shortened}
use fpga_sim_core.Oracle.Table.{used, fewer, used-reduce}
use fpga_sim_core.Oracle.Depths.{level_at, ShowsBook, execute-Shows}
use fpga_sim_core.Oracle.Follows.{Follows, entry_of, remaining-pos, map-if}
use fpga_sim_core.Oracle.Totals.{o-IsLive, rest_size, enough, live_total-reduced}

module _ (a : Account) (index n : ℕ) (v : IsAccount a) (h : index < a.live_count)
    (some_shares : 0 < n) (le : n ≤ pos_part (order_at a index).remaining) where
  abbrev o : Live
  o = order_at a index

  applied_all : applied_of (pos n) (entry_of o) ≡ pos n
  applied_all = ground (arith, remaining-pos o (o-IsLive a index n v h some_shares le), le)

  -- What the table keeps of the order is what the account keeps of it.
  left_of-rest : left_of (pos n) (entry_of o) ≡ Option.map entry_of (rest_of (left o (pos n)))
  unfolding left_of
  left_of-rest =
      let m = pos_part o.remaining - n in
      let e : o.remaining -ℤ applied_of (pos n) (entry_of o) ≡ pos m =
        ap (λ x. o.remaining -ℤ x) applied_all
        ∙ eq_of_parts (o.remaining -ℤ pos n) (pos m) (
            omega (
              arith,
              -ℤ_parts o.remaining (pos n),
              le,
              (o-IsLive a index n v h some_shares le).natural,
            )) in
      ap (λ x. if leb_ℤ x (pos 0) then none else some (record (entry_of o) { remaining = x })) e
      ∙ go m
      ∙ ap
          (λ x.
            Option.map entry_of
              (if eqb_ℤ x (pos 0) then none else some (record o { remaining = x })))
          (sym (rest_size a index n v h some_shares le))
    where
      go :
          (m : ℕ)
          → (if leb_ℤ (pos m) (pos 0)
              then none
              else some (record (entry_of o) { remaining = pos m }))
            ≡ Option.map entry_of
                (if eqb_ℤ (pos m) (pos 0) then none else some (record o { remaining = pos m }))
      go zero = refl
      go (suc m) = ground arith

  reduced-live_count :
      (reduced a index (pos n)).live_count
      ≡ fewer a.live_count (Option.map entry_of (rest_of (left o (pos n))))
  reduced-live_count =
      let a0 : Account = record a { live = set a.live index (left o (pos n)) } in
      let count : (lowered a index (pos n)).live_count ≡ a.live_count =
        change-live_count a0 o.bid o.level (λ q. wrap32 (q -ℤ pos n)) in
      elim (Bool-cases (eqb_ℤ (left o (pos n)).remaining (pos 0))) [
        | inl e ↦ simp e (omega (arith, count, h, v.sums.few))
        | inr e ↦ simp e count
      ]

  live_here : Distinct (lives a) → find o.reference (lives a) ≡ some o
  live_here distinct =
      ap (λ (x : Live). find x.reference (lives a))
        (sym (get_or-take a.live_count a.live index blank_live h))
      ∙ find_self (lives a) index distinct (omega (arith, length-lives a v, h))
      ∙ ap some (get_or-take a.live_count a.live index blank_live h)

  abbrev r : ℕ
  r = o.reference

  module _ (bound : ℕ) (d : Desk) (w : Follows a bound d) where
    table_here : lookup r d.orders ≡ some (entry_of o)
    table_here = w.found r ∙ ap (Option.map entry_of) (live_here w.distinct)

    reported : (Orders.reduce d.orders r (pos n)).1 ≡ some (reduced_of (pos n) (entry_of o))
    reported =
        (reduce-left_of d.orders r (pos n) r w.valid (omega arith)).0
        ∙ ap (Option.map (reduced_of (pos n))) table_here

    lookup-reduced :
        (x : ℕ)
        → lookup x (Orders.reduce d.orders r (pos n)).0
          ≡ Option.map entry_of (find x (lives (reduced a index (pos n))))
    lookup-reduced x =
        (reduce-left_of d.orders r (pos n) x w.valid (omega arith)).1
        ∙ ap (λ y. if r == x then after_reduce (pos n) y else lookup x d.orders) table_here
        ∙ ap (λ y. if r == x then y else lookup x d.orders) left_of-rest
        ∙ ap (λ y. if r == x then Option.map entry_of (rest_of (left o (pos n))) else y) (w.found x)
        ∙ sym (
            ap (Option.map entry_of) ((reduced-Shortened a index (pos n) v w.distinct h).0 x)
            ∙ map-if entry_of (r == x) (rest_of (left o (pos n))) (find x (lives a)))

    find-reduced-none : (x : ℕ) → bound ≤ x → find x (lives (reduced a index (pos n))) ≡ none
    find-reduced-none x b =
        (reduced-Shortened a index (pos n) v w.distinct h).0 x ∙ elim (Bool-cases (r == x)) [
          | inl e ↦
              let same : r ≡ x = ground (arith, e) in
              absurd (
                ground (
                  arith,
                  sym (w.below x b) ∙ ap (λ y. find y (lives a)) (sym same) ∙ live_here w.distinct,
                ))
          | inr e ↦ simp e (w.below x b)
        ]

    -- The order, taken at the book stage.
    pub lower-Follows : Follows (reduced a index (pos n)) bound (lower_order d r (pos n))
    unfolding lower_order take_off
    lower-Follows =
        let price = level_at o.bid o.level in
        let (es', result) = Orders.reduce d.orders r (pos n) in
        let d1 : Desk = record d { orders = es' } in
        let table = used-reduce d.orders r (pos n) (entry_of o) w.valid (omega arith) table_here in
        let book_eq : (take_off d1 result).book ≡ Book.execute d.book o.bid price (pos n) =
          ap (λ x. (take_off d1 x).book) reported
          ∙ ap (Book.execute d.book o.bid price) applied_all in
        let live = o-IsLive a index n v h some_shares le in
        let book =
          execute-Shows (live_total a) (live_total (reduced a index (pos n))) d.book o.bid o.level n
            live.level_lt some_shares
            (enough a index n v h some_shares le o.bid o.level (is_at_self o))
            (omega (arith, le, live.few_left)) (live_total-reduced a index n v h some_shares le)
            w.shows in
        record {
          valid =
              subst IsValid (sym (take_off-orders d1 result))
                (reduce-IsValid d.orders r (pos n) w.valid (omega arith));
          capacity = ap length (take_off-orders d1 result) ∙ table.1 ∙ w.capacity;
          in_use =
              ap used (take_off-orders d1 result)
              ∙ table.0
              ∙ ap (λ k. fewer k (left_of (pos n) (entry_of o))) w.in_use
              ∙ ap (fewer a.live_count) left_of-rest
              ∙ sym reduced-live_count;
          found = λ x. ap (lookup x) (take_off-orders d1 result) ∙ lookup-reduced x;
          distinct = (reduced-Shortened a index (pos n) v w.distinct h).1;
          below = find-reduced-none;
          shows = subst (ShowsBook (live_total (reduced a index (pos n)))) (sym book_eq) book.0;
          clean =
              take_off-error d1 result
              ∙ ap (λ x. d.error || not (is_some x)) reported
              ∙ ap (λ c. c || false) w.clean;
          none_dropped = ap (λ b. b.overflow_count) book_eq ∙ book.1 ∙ w.none_dropped;
        }
      where
        is_at_self : (x : Live) → is_at x.bid x.level x ≡ true
        is_at_self x = ground arith
