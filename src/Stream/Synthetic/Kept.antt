-- ===== src/Stream/Synthetic/Kept.antt =====
-- A new order and a reduced one keep the account.
use fpga_sim_core.Prelude.{
  ℕ, suc, ◌+◌, ◌-◌, ◌^◌, ◌≤◌, ◌<◌, ◌≡◌, ◌≢◌, ◌∙◌, refl, ap, sym, subst, inl, inr, Bool, Bool-cases,
  arith, length, length-set, set, get_or, get_or-set_self, get_or-set_ne, if◌then◌else◌, ℕ_discrete,
}
use fpga_sim_core.Prelude.Int.{
  ℤ, pos, pos_part, neg_part, ◌+ℤ◌, ◌-ℤ◌, wrap32, wrap32-id, +ℤ_parts, -ℤ_parts, eq_of_parts,
}
use fpga_sim_core.Stream.Synthetic.{Live, blank_live, one_less, price_levels}
use fpga_sim_core.Stream.Synthetic.Account.{
  Account, qty_of, qty_at, order_at, is_at, part, live_total, IsLive, IsSummed, IsAccount,
  total-take-suc, total-take-set, total-take-new, total-le, change, change_at, change-level_counts,
  change-live, change-live_count,
}

wrap_add :
    (t : ℕ) (z : ℤ)
    → neg_part z ≡ 0
    → t + pos_part z < 2 ^ 31
    → wrap32 (pos t +ℤ z) ≡ pos (t + pos_part z)
wrap_add t z n h =
    let e : pos t +ℤ z ≡ pos (t + pos_part z) =
      eq_of_parts (pos t +ℤ z) (pos (t + pos_part z)) (omega (arith, +ℤ_parts (pos t) z, n)) in
    ap wrap32 e ∙ wrap32-id (pos (t + pos_part z)) (omega arith, omega arith)

pub wrap_sub :
    (t : ℕ) (z : ℤ)
    → neg_part z ≡ 0
    → pos_part z ≤ t
    → t < 2 ^ 31
    → wrap32 (pos t -ℤ z) ≡ pos (t - pos_part z)
wrap_sub t z n le h =
    let e : pos t -ℤ z ≡ pos (t - pos_part z) =
      eq_of_parts (pos t -ℤ z) (pos (t - pos_part z)) (omega (arith, -ℤ_parts (pos t) z, n)) in
    ap wrap32 e ∙ wrap32-id (pos (t - pos_part z)) (omega arith, omega arith)

-- A change of a level that brings it back to the total of its orders.
pub change-IsSummed :
    (a : Account) (o : Live) (f : ℤ → ℤ)
    → length a.live ≡ 128
    → a.live_count ≤ 128
    → ((bid : Bool) → length (qty_of a bid) ≡ price_levels)
    → o.level < price_levels
    → ((bid : Bool) (l : ℕ)
        → l < price_levels
        → (if is_at bid l o then f (qty_at a bid l) else qty_at a bid l) ≡ pos (live_total a bid l))
    → IsSummed (change a o.bid o.level f)
change-IsSummed a o f room few levels h totals =
    let same = change-live a o.bid o.level f in
    let count = change-live_count a o.bid o.level f in
    record {
      room = ap length same ∙ room;
      few = omega (arith, count, few);
      level_counts = λ bid. change-level_counts a o.bid o.level f bid ∙ levels bid;
      totals = λ bid l k.
          change_at a o f bid l (omega (arith, levels o.bid))
          ∙ totals bid l k
          ∙ rw (same, count) refl;
    }

abbrev pub entered : Account → Live → Account
entered a o =
    change (record a { live = set a.live a.live_count o; live_count = a.live_count + 1 }) o.bid
      o.level (λ q. wrap32 (q +ℤ o.remaining))

pub entered-IsAccount :
    (a : Account) (o : Live) → IsAccount a → IsLive o → a.live_count < 128 → IsAccount (entered a o)
entered-IsAccount a o i v few =
    let a1 : Account = record a {
      live = set a.live a.live_count o;
      live_count = a.live_count + 1;
    } in
    let f : ℤ → ℤ = λ q. wrap32 (q +ℤ o.remaining) in
    record {
      sums =
          change-IsSummed a1 o f (length-set a.live a.live_count o ∙ i.sums.room) (omega arith)
            i.sums.level_counts v.level_lt
            (λ bid l k.
              let new = total-take-new bid l a.live a.live_count o (omega (arith, i.sums.room)) in
              let old = i.sums.totals bid l k in
              let bound = total-le bid l a.live a.live_count (omega (arith, i.sums.room)) i.each in
              elim (Bool-cases (is_at bid l o)) [
                | inl e ↦
                    let new' : live_total a1 bid l ≡ live_total a bid l + pos_part o.remaining =
                      new ∙ simp e refl in
                    simp e (
                      ap f old
                      ∙ wrap_add (live_total a bid l) o.remaining v.natural
                          (omega (arith, bound, v.few_left, few))
                      ∙ ap pos (sym new'))
                | inr e ↦
                    let new' : live_total a1 bid l ≡ live_total a bid l =
                      new ∙ simp e (omega arith) in
                    simp e (old ∙ ap pos (sym new'))
              ]);
      each = λ j h.
          let count = change-live_count a1 o.bid o.level f in
          subst (λ os. IsLive (get_or os j blank_live)) (sym (change-live a1 o.bid o.level f))
            (elim (ℕ_discrete a.live_count j) [
              | yes e ↦
                  subst IsLive
                    (sym (
                      ap (λ k. get_or (set a.live a.live_count o) k blank_live) (sym e)
                      ∙ get_or-set_self a.live a.live_count o blank_live
                          (omega (arith, i.sums.room))))
                    v
              | no ne ↦
                  subst IsLive (sym (get_or-set_ne a.live o blank_live ne))
                    (i.each j (omega (arith, h, count, ne)))
            ]);
    }

abbrev pub removed : Account → ℕ → Account
removed a index = record a {
  live = set a.live index (get_or a.live (one_less a.live_count) blank_live);
  live_count = one_less a.live_count;
}

last_kept :
    (a : Account) (index m : ℕ)
    → m < length a.live
    → index ≤ m
    → get_or (set a.live index (get_or a.live m blank_live)) m blank_live
      ≡ get_or a.live m blank_live
last_kept a index m h le = elim (ℕ_discrete index m) [
  | yes e ↦
      ap (λ k. get_or (set a.live index (get_or a.live m blank_live)) k blank_live) (sym e)
      ∙ get_or-set_self a.live index _ blank_live (omega (arith, e))
  | no ne ↦ get_or-set_ne a.live _ blank_live ne
]

-- An order with nothing left may go: the last one takes its place.
pub removed-IsAccount :
    (a : Account) (index : ℕ)
    → IsSummed a
    → ((j : ℕ) → j < a.live_count → j ≢ index → IsLive (order_at a j))
    → index < a.live_count
    → pos_part (order_at a index).remaining ≡ 0
    → IsAccount (removed a index)
removed-IsAccount a index s each h gone =
    let m : ℕ = one_less a.live_count in
    let count : suc m ≡ a.live_count = omega (arith, h, s.few) in
    let size : m < length a.live = omega (arith, s.room, s.few, h) in
    let last = get_or a.live m blank_live in
    record {
      sums = record {
        room = length-set a.live index last ∙ s.room;
        few = omega (arith, s.few, h);
        level_counts = s.level_counts;
        totals = λ bid l k.
            let none_left : part bid l (order_at a index) ≡ 0 = ground (arith, gone) in
            let cut =
              total-take-suc bid l (set a.live index last) m
                (omega (arith, size, length-set a.live index last)) in
            let same = ap (part bid l) (last_kept a index m size (omega (arith, h, count))) in
            let moved =
              total-take-set bid l a.live (suc m) index last (omega (arith, h, count))
                (omega (arith, size)) in
            let all = ap (λ n. live_total (record a { live_count = n }) bid l) count in
            s.totals bid l k ∙ ap pos (omega (arith, none_left, cut, same, moved, all));
      };
      each = λ j k. elim (ℕ_discrete index j) [
        | yes e ↦
            subst IsLive
              (sym (
                ap (λ n. get_or (set a.live index last) n blank_live) (sym e)
                ∙ get_or-set_self a.live index last blank_live (omega (arith, e, k, size))))
              (each m (omega (arith, count)) (λ g. omega (arith, g, e, k)))
        | no ne ↦
            subst IsLive (sym (get_or-set_ne a.live last blank_live ne))
              (each j (omega (arith, k, count)) (λ g. ne (sym g)))
      ];
    }
