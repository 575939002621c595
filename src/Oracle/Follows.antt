-- ===== src/Oracle/Follows.antt =====
-- The order table and the book against the account of the stream.
use mathlib.Core.Option
use fpga_sim_core.Prelude.{
  eqb, ℕ, ◌+◌, ◌<◌, ◌≤◌, ◌≡◌, ◌∙◌, refl, ap, sym, subst, inl, inr, Bool, true, false, not, ◌&&◌,
  ◌||◌, Bool-cases, Option, none, some, [], ◌∷◌, arith, length, set, ◌==◌, if◌then◌else◌,
}
use fpga_sim_core.Prelude.Int.{ℤ, pos, ◌+ℤ◌, wrap32, pos_part, eq_of_parts}
use fpga_sim_core.Orders
use fpga_sim_core.Orders.{Entry, OrderTable, order}
use fpga_sim_core.Orders.Inv.{lookup, has_free, IsValid}
use fpga_sim_core.Orders.Refine.{insert_lem}
use fpga_sim_core.Orders.Keep.{insert-IsValid}
use fpga_sim_core.Book
use fpga_sim_core.Pipeline.{Desk, enter}
use fpga_sim_core.Pipeline.Applied.{enter-orders, enter-error}
use fpga_sim_core.Stream.Synthetic.{Live}
use fpga_sim_core.Stream.Synthetic.Account.{
  Account, total, live_total, IsLive, IsAccount, total-append, total-le, change-live_count,
}
use fpga_sim_core.Stream.Synthetic.Kept.{entered}
use fpga_sim_core.Oracle.Lives.{find, Distinct, find-append, Distinct-append}
use fpga_sim_core.Oracle.Accounts.{lives, lives-entered}
use fpga_sim_core.Oracle.Table.{used, used-has_free, used-insert}
use fpga_sim_core.Oracle.Depths.{level_at, ShowsBook, add-Shows}

-- The entry of a live order.
abbrev pub entry_of : Live → Entry
entry_of o = order o.reference o.bid (level_at o.bid o.level) o.remaining

-- The table holds the live orders of the account, the book their totals, and nothing went wrong. No live
-- order has a number of `bound` or above.
pub record Follows (a : Account) (bound : ℕ) (d : Desk) : Type 0 where
  pub valid : IsValid d.orders
  pub capacity : length d.orders ≡ 128
  pub in_use : used d.orders ≡ a.live_count
  pub found : (r : ℕ) → lookup r d.orders ≡ Option.map entry_of (find r (lives a))
  pub distinct : Distinct (lives a)
  pub below : (r : ℕ) → bound ≤ r → find r (lives a) ≡ none
  pub shows : ShowsBook (live_total a) d.book
  pub clean : d.error ≡ false
  pub none_dropped : d.book.overflow_count ≡ 0

enter-book :
    (d : Desk) (reference : ℕ) (bid : Bool) (price shares : ℤ)
    → (enter d reference bid price shares).book ≡ Book.add d.book bid price shares
unfolding enter
enter-book d reference bid price shares = refl

live_total-entered :
    (a : Account) (o : Live) (s : Bool) (k : ℕ)
    → IsAccount a
    → a.live_count < 128
    → live_total (entered a o) s k ≡ (
        if eqb o.bid s && o.level == k
        then live_total a s k + pos_part o.remaining
        else live_total a s k)
live_total-entered a o s k v few =
    ap (total s k) (lives-entered a o v few)
    ∙ total-append s k (lives a) (o ∷ [])
    ∙ elim (Bool-cases (eqb o.bid s && o.level == k)) [
      | inl e ↦ simp e (omega arith)
      | inr e ↦ simp e (omega arith)
    ]

pub live_total-le : (a : Account) (s : Bool) (k : ℕ) → IsAccount a → live_total a s k ≤ 64000
live_total-le a s k v = omega (
  arith,
  total-le s k a.live a.live_count (omega (arith, v.sums.room, v.sums.few)) v.each,
  v.sums.few,
)

pub remaining-pos : (o : Live) → IsLive o → o.remaining ≡ pos (pos_part o.remaining)
remaining-pos o v = eq_of_parts o.remaining (pos (pos_part o.remaining)) (omega (arith, v.natural))

pub map-if {ℓ κ} :
    {A : Type ℓ} {B : Type κ} (f : A → B) (c : Bool) (x y : Option A)
    → Option.map f (if c then x else y) ≡ (if c then Option.map f x else Option.map f y)
map-if f true x y = refl
map-if f false x y = refl

-- A new order of the stream, entered at the book stage.
pub enter-Follows :
    (a : Account) (bound : ℕ) (d : Desk) (o : Live)
    → IsAccount a
    → IsLive o
    → o.reference ≡ bound
    → a.live_count < 128
    → Follows a bound d
    → Follows
        (entered a o)
        (bound + 1)
        (enter d o.reference o.bid (level_at o.bid o.level) o.remaining)
enter-Follows a bound d o v live number few w =
    let price = level_at o.bid o.level in
    let d' = enter d o.reference o.bid price o.remaining in
    let n = pos_part o.remaining in
    let fresh_there : find o.reference (lives a) ≡ none =
      w.below o.reference (omega (arith, number)) in
    let unknown : lookup o.reference d.orders ≡ none =
      w.found o.reference ∙ ap (Option.map entry_of) fresh_there in
    let room : has_free d.orders ≡ true =
      used-has_free d.orders (omega (arith, w.in_use, w.capacity, few)) in
    let done : (Orders.insert d.orders o.reference o.bid price o.remaining).1 ≡ true =
      (insert_lem d.orders o.reference o.bid price o.remaining 0).0 ∙ rw (unknown, room) refl in
    let table = used-insert d.orders o.reference o.bid price o.remaining unknown room in
    let orders = enter-orders d o.reference o.bid price o.remaining in
    let whole = remaining-pos o live in
    let count : (entered a o).live_count ≡ a.live_count + 1 =
      change-live_count
        (record a { live = set a.live a.live_count o; live_count = a.live_count + 1 }) o.bid o.level
        (λ q. wrap32 (q +ℤ o.remaining)) in
    let book =
      add-Shows (live_total a) (live_total (entered a o)) d.book o.bid o.level n live.level_lt
        live.some_left (omega (arith, live_total-le a o.bid o.level v, live.few_left))
        (λ s k h. live_total-entered a o s k v few) w.shows in
    let same_book : d'.book ≡ Book.add d.book o.bid price (pos n) =
      enter-book d o.reference o.bid price o.remaining ∙ ap (Book.add d.book o.bid price) whole in
    let append : (r : ℕ)
        → find r (lives (entered a o)) ≡ (if o.reference == r then some o else find r (lives a)) =
      λ r. ap (find r) (lives-entered a o v few) ∙ find-append r (lives a) o fresh_there in
    record {
      valid = subst IsValid (sym orders) (
          insert-IsValid d.orders o.reference o.bid price o.remaining w.valid
            (omega (arith, live.some_left, live.natural))
            (omega (arith, live.few_left), omega (arith, live.natural)));
      capacity = ap length orders ∙ table.1 ∙ w.capacity;
      in_use = ap used orders ∙ table.0 ∙ omega (arith, w.in_use, count);
      found = λ r.
          ap (lookup r) orders
          ∙ (insert_lem d.orders o.reference o.bid price o.remaining r).1
          ∙ ap (λ c. if c && o.reference == r then some (entry_of o) else lookup r d.orders) done
          ∙ ap (λ x. if o.reference == r then some (entry_of o) else x) (w.found r)
          ∙ sym (
              ap (Option.map entry_of) (append r)
              ∙ map-if entry_of (o.reference == r) (some o) (find r (lives a)));
      distinct =
          subst Distinct (sym (lives-entered a o v few))
            (Distinct-append (lives a) o fresh_there w.distinct);
      below = λ r h.
          append r
          ∙ (let other : (o.reference == r) ≡ false = ground (arith, number, h) in
              simp other (w.below r (omega (arith, h))));
      shows = subst (ShowsBook (live_total (entered a o))) (sym same_book) book.0;
      clean =
          enter-error d o.reference o.bid price o.remaining
          ∙ ap (λ c. d.error || not c) done
          ∙ ap (λ c. c || false) w.clean;
      none_dropped = ap (λ b. b.overflow_count) same_book ∙ book.1 ∙ w.none_dropped;
    }
