-- ===== src/Orders/Refine.antt =====
-- `insert` and `reduce` as operations on the map from references to live orders.
use fpga_sim_core.Prelude.{
  ℕ, ◌≡◌, ◌∙◌, refl, sym, subst, ap, inl, inr, Bool, true, false, not, ◌&&◌, Option, none, some, [],
  ◌∷◌, arith, ◌==◌, ==_iff, if◌then◌else◌, Bool-cases,
}
use mathlib.Core.Option
use fpga_sim_core.Prelude.Int.{
  ℤ, pos, ◌-ℤ◌, ◌≤ℤ◌, IsInt32, leb_ℤ, ltb_ℤ, wrap32, wrap32-id, -ℤ_parts,
}
use fpga_sim_core.Orders
use fpga_sim_core.Orders.{
  Entry, blank, OrderTable, is_order, order, Reduced, applied_of, reduced_of, reduced_entry,
}
use fpga_sim_core.Orders.Inv.{lookup, is_some, has_free, IsSound, IsValid, fill, insert-fill}

fill-done : (es : OrderTable) (o : Entry) → (fill es o).1 ≡ has_free es
unfolding fill has_free
fill-done [] o = refl
fill-done (e ∷ es) o = elim (Bool-cases e.live) [
  | inl live ↦ simp live (fill-done es o)
  | inr dead ↦ simp dead
]

fill-full : (es : OrderTable) (o : Entry) → has_free es ≡ false → (fill es o).0 ≡ es
unfolding fill has_free
fill-full [] o h = refl
fill-full (e ∷ es) o h = elim (Bool-cases e.live) [
  | inl live ↦ simp live (ap (λ r. e ∷ r) (fill-full es o (ground arith)))
  | inr dead ↦ ground arith
]

-- A new live order is found under its reference, and hides nothing.
pub lookup-fill :
    (es : OrderTable) (o : Entry) (r : ℕ)
    → o.live ≡ true
    → lookup o.reference es ≡ none
    → has_free es ≡ true
    → lookup r (fill es o).0 ≡ (if o.reference == r then some o else lookup r es)
unfolding fill has_free lookup
lookup-fill [] o r live absent free = ground arith
lookup-fill (e ∷ es) o r live absent free = elim (Bool-cases e.live) [
  | inl busy ↦ ground (arith, lookup-fill es o r live)
  | inr dead ↦ simp (dead, live)
]

-- `insert` succeeds exactly when the reference is not live and an entry is free. Then the reference
-- leads to the new order; every other reference, and every reference after a refusal, leads where it
-- did.
pub insert_lem :
    (es : OrderTable) (reference : ℕ) (bid : Bool) (price shares : ℤ) (r : ℕ)
    → let (es', done) = Orders.insert es reference bid price shares in
      (done ≡ (not (is_some (lookup reference es)) && has_free es))
      × (lookup r es' ≡ (
          if done && reference == r then some (order reference bid price shares) else lookup r es))
insert_lem es reference bid price shares r = rw insert-fill (cases (lookup reference es) refl)
  where
    o : Entry
    o = order reference bid price shares

    cases :
        (found : Option Entry)
        → lookup reference es ≡ found
        → let (es', done) =
            if is_some found then (es, false) else fill es (order reference bid price shares) in
          (done ≡ (not (is_some found) && has_free es))
          × (lookup r es' ≡ (if done && reference == r then some o else lookup r es))
    cases (some e) h = (refl, refl)
    cases none h = elim (Bool-cases (has_free es)) [
      | inl room ↦ (fill-done es o, rw (fill-done es o, room) (lookup-fill es o r refl h room))
      | inr full ↦ (fill-done es o, rw (fill-done es o, full, fill-full es o full))
    ]

-- Reducing an order: what is left of it, if anything is.
unfoldable pub left_of : ℤ → Entry → Option Entry
left_of shares e =
    if leb_ℤ (e.remaining -ℤ applied_of shares e) (pos 0)
    then none
    else some (record e { remaining = e.remaining -ℤ applied_of shares e })

-- `lookup reference`, after an order that was found is reduced.
abbrev pub after_reduce : ℤ → Option Entry → Option Entry
after_reduce shares none = none
after_reduce shares (some e) = left_of shares e

pub applied-IsInt32 :
    (shares : ℤ) (e : Entry)
    → pos 0 ≤ℤ shares
    → pos 1 ≤ℤ e.remaining
    → IsInt32 e.remaining
    → wrap32 (e.remaining -ℤ applied_of shares e) ≡ e.remaining -ℤ applied_of shares e
applied-IsInt32 shares e h k i =
    wrap32-id (e.remaining -ℤ applied_of shares e)
      (ground (arith, -ℤ_parts e.remaining shares, -ℤ_parts e.remaining e.remaining))

-- The order at the head of the table, reduced.
lookup-reduced :
    (e : Entry) (es : OrderTable) (shares : ℤ) (r : ℕ)
    → e.live ≡ true
    → IsSound true e es
    → pos 0 ≤ℤ shares
    → lookup r (reduced_entry shares e ∷ es)
      ≡ (if e.reference == r then left_of shares e else lookup r es)
unfolding lookup reduced_entry left_of
lookup-reduced e es shares r live sound h =
    rw (applied-IsInt32 shares e h sound.0 sound.1)
      (elim (Bool-cases (leb_ℤ (e.remaining -ℤ applied_of shares e) (pos 0))) [
        | inl empty ↦ elim (Bool-cases (e.reference == r)) [
          | inl hit ↦ simp (empty, hit) (ap (λ k. lookup k es) (sym ((==_iff _ _).0 hit)) ∙ sound.2)
          | inr miss ↦ simp (empty, miss)
        ]
        | inr rest ↦ simp (rest, live)
      ])

-- The same in the words of the code.
pub reduce-left_of :
    (es : OrderTable) (reference : ℕ) (shares : ℤ) (r : ℕ)
    → IsValid es
    → pos 0 ≤ℤ shares
    → let (es', result) = Orders.reduce es reference shares in
      (result ≡ Option.map (reduced_of shares) (lookup reference es))
      × (lookup r es'
          ≡ (if reference == r then after_reduce shares (lookup reference es) else lookup r es))
unfolding Orders.reduce lookup
reduce-left_of [] reference shares r v h = ground arith
reduce-left_of (e ∷ es) reference shares r v h = elim (Bool-cases e.live) [
  | inl live ↦ elim (Bool-cases (e.reference == reference)) [
    | inl hit ↦
        simp (live, hit)
          (
            refl,
            lookup-reduced e es shares r live (subst (λ b. IsSound b e es) live v.0) h
                ∙ ground arith,
          )
    | inr miss ↦
        let rest = reduce-left_of es reference shares r v.1 h in
        simp (live, miss) (rest.0, ground (arith, rest.1))
  ]
  | inr dead ↦ simp dead (reduce-left_of es reference shares r v.1 h)
]

-- The smaller of two numbers.
abbrev pub least : ℤ → ℤ → ℤ
least a b = if leb_ℤ b a then b else a

-- What taking shares of an order should report: its side, its price, and as many shares as are wanted
-- and there.
abbrev pub report_of : ℤ → Entry → Reduced
report_of shares e = record {
  side_bid = e.bid;
  price = e.price;
  applied = least shares e.remaining;
}

-- What should then be found in place of the order.
abbrev pub still_there : ℤ → Option Entry → Option Entry
still_there shares none = none
still_there shares (some e) =
    if leb_ℤ e.remaining shares then none else some (record e { remaining = e.remaining -ℤ shares })

applied_of-least : (shares : ℤ) (e : Entry) → applied_of shares e ≡ least shares e.remaining
applied_of-least shares e = elim (Bool-cases (ltb_ℤ shares e.remaining)) [
  | inl less ↦
      let more : leb_ℤ e.remaining shares ≡ false = ground (arith, less) in simp (less, more) refl
  | inr all ↦
      let more : leb_ℤ e.remaining shares ≡ true = ground (arith, all) in simp (all, more) refl
]

reduced_of-report_of :
    (shares : ℤ) (found : Option Entry)
    → Option.map (reduced_of shares) found ≡ Option.map (report_of shares) found
reduced_of-report_of shares none = refl
reduced_of-report_of shares (some e) =
    ap (λ z. some (record { side_bid = e.bid; price = e.price; applied = z }))
      (applied_of-least shares e)

after_reduce-still_there :
    (shares : ℤ) (found : Option Entry) → after_reduce shares found ≡ still_there shares found
unfolding left_of
after_reduce-still_there shares none = refl
after_reduce-still_there shares (some e) = elim (Bool-cases (ltb_ℤ shares e.remaining)) [
  | inl less ↦
      let more : leb_ℤ e.remaining shares ≡ false = ground (arith, less) in
      let rest : leb_ℤ (e.remaining -ℤ shares) (pos 0) ≡ false =
        ground (arith, less, -ℤ_parts e.remaining shares) in
      simp (less, more, rest) refl
  | inr all ↦
      let more : leb_ℤ e.remaining shares ≡ true = ground (arith, all) in
      let rest : leb_ℤ (e.remaining -ℤ e.remaining) (pos 0) ≡ true =
        ground (arith, -ℤ_parts e.remaining e.remaining) in
      simp (all, more, rest) refl
]

-- `reduce` fails where the reference leads to no live order. Otherwise it reports the side and the price of
-- this order and, as the shares taken, the smaller of the shares asked for and those it had. Then the
-- reference leads to the same order with that many shares less, or to nothing if all it had were asked for,
-- and every other reference leads where it did. The table is valid and the shares to take are not negative.
pub reduce_lem :
    (es : OrderTable) (reference : ℕ) (shares : ℤ) (r : ℕ)
    → IsValid es
    → pos 0 ≤ℤ shares
    → let (es', result) = Orders.reduce es reference shares in
      (result ≡ Option.map (report_of shares) (lookup reference es))
      × (lookup r es'
          ≡ (if reference == r then still_there shares (lookup reference es) else lookup r es))
reduce_lem es reference shares r v h =
    let (result, found) = reduce-left_of es reference shares r v h in
    (
      result ∙ reduced_of-report_of shares (lookup reference es),
      found
          ∙ ap (λ x. if reference == r then x else lookup r es)
              (after_reduce-still_there shares (lookup reference es)),
    )
