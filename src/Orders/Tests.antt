-- ===== src/Orders/Tests.antt =====
-- A table of four entries that holds two orders.
use fpga_sim_core.Prelude.{
  ◌≡◌, refl, true, false, some, not, ◌&&◌, ◌==◌, [], ◌∷◌, arith, if◌then◌else◌,
}
use mathlib.Core.Option
use fpga_sim_core.Prelude.Int.{pos}
use fpga_sim_core.Orders
use fpga_sim_core.Orders.{OrderTable, Entry, blank, order, reduced_of, reduced_entry, scan}
use fpga_sim_core.Orders.Inv.{IsValid, lookup, has_free, is_some}
use fpga_sim_core.Orders.Refine.{insert_lem, reduce_lem, report_of, still_there}

abbrev two_orders : OrderTable
two_orders =
    order 1000 true (pos 18925) (pos 300)
    ∷ blank
    ∷ order 1001 false (pos 18930) (pos 100)
    ∷ blank
    ∷ []

two_orders-IsValid : IsValid two_orders
unfolding lookup
two_orders-IsValid =
    ((omega arith, omega arith, refl), (tt, ((omega arith, omega arith, refl), (tt, tt))))

first_free_used :
    (Orders.insert two_orders 7 true (pos 1) (pos 2)).0
    ≡ order 1000 true (pos 18925) (pos 300)
      ∷ order 7 true (pos 1) (pos 2)
      ∷ order 1001 false (pos 18930) (pos 100)
      ∷ blank
      ∷ []
unfolding Orders.insert scan
first_free_used = refl

insert_lem_example :
    let (es', done) = Orders.insert two_orders 7 true (pos 1) (pos 2) in
    (done ≡ (not (is_some (lookup 7 two_orders)) && has_free two_orders))
    × (lookup 1001 es' ≡ (
        if done && 7 == 1001 then some (order 7 true (pos 1) (pos 2)) else lookup 1001 two_orders))
insert_lem_example = insert_lem two_orders 7 true (pos 1) (pos 2) 1001

reduce_lem_example :
    let (es', result) = Orders.reduce two_orders 1000 (pos 120) in
    (result ≡ Option.map (report_of (pos 120)) (lookup 1000 two_orders))
    × (lookup 1000 es' ≡ still_there (pos 120) (lookup 1000 two_orders))
reduce_lem_example = reduce_lem two_orders 1000 (pos 120) 1000 two_orders-IsValid (omega arith)
