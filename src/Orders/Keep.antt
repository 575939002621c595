-- ===== src/Orders/Keep.antt =====
-- `insert` and `reduce` keep the table valid.
use fpga_sim_core.Prelude.{
  ℕ, zero, suc, ◌≡◌, refl, sym, subst, inl, inr, Bool, true, false, Option, none, some, [], ◌∷◌,
  arith, ◌==◌, if◌then◌else◌, Bool-cases,
}
use fpga_sim_core.Prelude.Int.{ℤ, pos, ◌-ℤ◌, ◌≤ℤ◌, IsInt32, leb_ℤ, -ℤ_parts}
use fpga_sim_core.Orders
use fpga_sim_core.Orders.{
  Entry, blank, OrderTable, is_order, order, Reduced, applied_of, reduced_of, reduced_entry,
}
use fpga_sim_core.Orders.Inv.{lookup, is_some, IsSound, IsValid, fill, insert-fill}
use fpga_sim_core.Orders.Refine.{applied-IsInt32}

pub fresh-IsValid : (capacity : ℕ) → IsValid (Orders.fresh capacity)
unfolding Orders.fresh
fresh-IsValid zero = tt
fresh-IsValid (suc n) = (tt, fresh-IsValid n)

-- A reference other than the new one that led nowhere still does.
lookup-fill-none :
    (es : OrderTable) (o : Entry) (r : ℕ)
    → (o.reference == r) ≡ false
    → lookup r es ≡ none
    → lookup r (fill es o).0 ≡ none
unfolding fill lookup
lookup-fill-none [] o r ne h = refl
lookup-fill-none (e ∷ es) o r ne h = ground (arith, lookup-fill-none es o r ne)

lookup-reduce-none :
    (es : OrderTable) (reference : ℕ) (shares : ℤ) (r : ℕ)
    → lookup r es ≡ none
    → lookup r (Orders.reduce es reference shares).0 ≡ none
unfolding lookup Orders.reduce reduced_entry
lookup-reduce-none [] reference shares r h = refl
lookup-reduce-none (e ∷ es) reference shares r h =
    ground (arith, lookup-reduce-none es reference shares r)

fill-IsValid :
    (es : OrderTable) (o : Entry)
    → IsValid es
    → o.live ≡ true
    → pos 1 ≤ℤ o.remaining
    → IsInt32 o.remaining
    → lookup o.reference es ≡ none
    → IsValid (fill es o).0
unfolding fill lookup
fill-IsValid [] o v live p i absent = tt
fill-IsValid (e ∷ es) o v live p i absent = elim (Bool-cases e.live) [
  | inl busy ↦
      let s = subst (λ b. IsSound b e es) busy v.0 in
      simp busy (
        (s.0, s.1, lookup-fill-none es o e.reference (ground arith) s.2),
        fill-IsValid es o v.1 live p i (ground arith),
      )
  | inr dead ↦ simp dead (subst (λ b. IsSound b o es) (sym live) (p, i, ground arith), v.1)
]

-- A fresh order with shares that an `std::int32_t` holds leaves the table valid, whether it was
-- taken or not.
pub insert-IsValid :
    (es : OrderTable) (reference : ℕ) (bid : Bool) (price shares : ℤ)
    → IsValid es
    → pos 1 ≤ℤ shares
    → IsInt32 shares
    → IsValid (Orders.insert es reference bid price shares).0
insert-IsValid es reference bid price shares v p i =
    rw insert-fill (cases (lookup reference es) refl)
  where
    cases :
        (found : Option Entry)
        → lookup reference es ≡ found
        → IsValid
            (if is_some found then (es, false) else fill es (order reference bid price shares)).0
    cases (some e) h = v
    cases none h = fill-IsValid es (order reference bid price shares) v refl p i h

reduced-IsValid :
    (e : Entry) (es : OrderTable) (shares : ℤ)
    → e.live ≡ true
    → IsSound true e es
    → IsValid es
    → pos 0 ≤ℤ shares
    → IsValid (reduced_entry shares e ∷ es)
unfolding reduced_entry
reduced-IsValid e es shares live s v h =
    rw (applied-IsInt32 shares e h s.0 s.1)
      (elim (Bool-cases (leb_ℤ (e.remaining -ℤ applied_of shares e) (pos 0))) [
        | inl empty ↦ simp empty (tt, v)
        | inr rest ↦ simp (rest, live) ((ground arith, kept, s.2), v)
      ])
  where
    kept : IsInt32 (e.remaining -ℤ applied_of shares e)
    kept = ground (arith, -ℤ_parts e.remaining shares, -ℤ_parts e.remaining e.remaining)

-- Reducing an order by a number of shares that is not negative leaves the table valid.
pub reduce-IsValid :
    (es : OrderTable) (reference : ℕ) (shares : ℤ)
    → IsValid es
    → pos 0 ≤ℤ shares
    → IsValid (Orders.reduce es reference shares).0
unfolding Orders.reduce
reduce-IsValid [] reference shares v h = tt
reduce-IsValid (e ∷ es) reference shares v h = elim (Bool-cases e.live) [
  | inl live ↦ elim (Bool-cases (e.reference == reference)) [
    | inl hit ↦
        let s = subst (λ b. IsSound b e es) live v.0 in
        simp (live, hit) (reduced-IsValid e es shares live s v.1 h)
    | inr miss ↦
        let s = subst (λ b. IsSound b e es) live v.0 in
        simp (live, miss)
          (
            (s.0, s.1, lookup-reduce-none es reference shares e.reference s.2),
            reduce-IsValid es reference shares v.1 h,
          )
  ]
  | inr dead ↦ simp dead (tt, reduce-IsValid es reference shares v.1 h)
]
