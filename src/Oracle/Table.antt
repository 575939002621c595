-- ===== src/Oracle/Table.antt =====
-- How many entries of the table of live orders are in use.
use fpga_sim_core.Prelude.{
  ℕ, suc, ◌-◌, ◌<◌, ◌≡◌, ◌∙◌, refl, ap, subst, inl, inr, Bool, true, Bool-cases, Option, none, some,
  [], ◌∷◌, arith, length, ◌==◌, if◌then◌else◌,
}
use fpga_sim_core.Prelude.Int.{ℤ, pos, ◌-ℤ◌, ◌≤ℤ◌, leb_ℤ}
use fpga_sim_core.Orders
use fpga_sim_core.Orders.{Entry, OrderTable, order, blank, is_order, reduced_entry, applied_of}
use fpga_sim_core.Orders.Inv.{lookup, has_free, IsSound, IsValid, fill, insert-fill}
use fpga_sim_core.Orders.Refine.{left_of, applied-IsInt32}

unfoldable pub used : OrderTable → ℕ
used [] = 0
used (e ∷ es) = let rest = used es in if e.live then suc rest else rest

pub used-has_free : (es : OrderTable) → used es < length es → has_free es ≡ true
unfolding used has_free
used-has_free [] h = absurd (omega (arith, h))
used-has_free (e ∷ es) h = elim (Bool-cases e.live) [
  | inl busy ↦ simp busy (used-has_free es (ground (arith, h, busy)))
  | inr dead ↦ simp dead refl
]

used-fill :
    (es : OrderTable) (o : Entry)
    → o.live ≡ true
    → has_free es ≡ true
    → (used (fill es o).0 ≡ suc (used es)) × (length (fill es o).0 ≡ length es)
unfolding used fill has_free
used-fill [] o live room = ground (arith, room)
used-fill (e ∷ es) o live room = elim (Bool-cases e.live) [
  | inl busy ↦
      let (n, l) = used-fill es o live (ground (arith, room, busy)) in
      simp busy (ap suc n, ap suc l)
  | inr dead ↦ simp (dead, live) (refl, refl)
]

-- A new order that is taken uses one more entry.
pub used-insert :
    (es : OrderTable) (reference : ℕ) (bid : Bool) (price shares : ℤ)
    → lookup reference es ≡ none
    → has_free es ≡ true
    → let es' = (Orders.insert es reference bid price shares).0 in
      (used es' ≡ suc (used es)) × (length es' ≡ length es)
used-insert es reference bid price shares unknown room =
    rw (insert-fill, unknown) (used-fill es (order reference bid price shares) refl room)

-- The entries in use after a reduction that leaves `rest`.
abbrev pub fewer : ℕ → Option Entry → ℕ
fewer n none = n - 1
fewer n (some e) = n

-- A reduction frees the entry of an order of which nothing is left, and only this one.
pub used-reduce :
    (es : OrderTable) (reference : ℕ) (shares : ℤ) (e : Entry)
    → IsValid es
    → pos 0 ≤ℤ shares
    → lookup reference es ≡ some e
    → let es' = (Orders.reduce es reference shares).0 in
      (used es' ≡ fewer (used es) (left_of shares e)) × (length es' ≡ length es) × (0 < used es)
unfolding used lookup Orders.reduce reduced_entry left_of
used-reduce [] reference shares e v h found = ground (arith, found)
used-reduce (x ∷ es) reference shares e v h found = elim (Bool-cases x.live) [
  | inl live ↦ elim (Bool-cases (x.reference == reference)) [
    | inl hit ↦
        let s = subst (λ b. IsSound b x es) live v.0 in
        let fits = applied-IsInt32 shares x h s.0 s.1 in
        let same : x ≡ e = ground (arith, simp (live, hit) at found) in
        subst
          (λ y.
            let es' = (Orders.reduce (x ∷ es) reference shares).0 in
            (used es' ≡ fewer (used (x ∷ es)) (left_of shares y))
            × (length es' ≡ length (x ∷ es))
            × (0 < used (x ∷ es)))
          same
          (elim (Bool-cases (leb_ℤ (x.remaining -ℤ applied_of shares x) (pos 0))) [
            | inl empty ↦
                simp (live, hit)
                  (rw fits (simp empty (one_less (used es), refl, positive (used es))))
            | inr rest ↦ simp (live, hit) (rw fits (simp rest (refl, refl, positive (used es))))
          ])
    | inr miss ↦
        let (n, l, p) = used-reduce es reference shares e v.1 h (simp (live, miss) at found) in
        simp (live, miss)
          (ap suc n ∙ kept (used es) (left_of shares e) p, ap suc l, omega (arith, p))
  ]
  | inr dead ↦
      let (n, l, p) = used-reduce es reference shares e v.1 h (simp dead at found) in
      simp dead (n, ap suc l, p)
]
  where
    kept : (n : ℕ) (o : Option Entry) → 0 < n → suc (fewer n o) ≡ fewer (suc n) o
    kept n none p = omega (arith, p)
    kept n (some e) p = refl

    one_less : (n : ℕ) → n ≡ suc n - 1
    one_less n = omega arith

    positive : (n : ℕ) → 0 < suc n
    positive n = omega arith
