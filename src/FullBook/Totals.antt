-- ===== src/FullBook/Totals.antt =====
-- What the orders of a book have at a price.
use mathlib.Core.Option.{some-injective}
use fpga_sim_core.Prelude.{
  subst, ℕ, ◌+◌, ◌<◌, ◌≡◌, ◌∙◌, refl, ap, sym, inl, inr, Bool, ◌&&◌, eqb, Bool-cases, Option, none,
  some, List, [], ◌∷◌, ◌==◌, arith, if◌then◌else◌,
}
use fpga_sim_core.Prelude.Int.{ℤ, pos_part, neg_part, eqb_ℤ}
use fpga_sim_core.FullBook.{Order, find_order, set_order, erase_order}
use fpga_sim_core.FullBook.Maps.{IsUnique}

abbrev pub is_at : Bool → ℤ → Order → Bool
is_at bid price o = eqb o.bid bid && eqb_ℤ o.price price

abbrev pub part : Bool → ℤ → Order → ℕ
part bid price o = if is_at bid price o then pos_part o.shares else 0

abbrev pub total : Bool → ℤ → List (ℕ × Order) → ℕ
total bid price [] = 0
total bid price ((k, o) ∷ os) = part bid price o + total bid price os

abbrev pub found_part : Bool → ℤ → Option Order → ℕ
found_part bid price none = 0
found_part bid price (some o) = part bid price o

abbrev pub IsLive : Order → Type 0
IsLive o = (0 < pos_part o.shares) × (neg_part o.shares ≡ 0)

abbrev pub AllLive : List (ℕ × Order) → Type 0
AllLive [] = Unit {0}
AllLive ((k, o) ∷ os) = IsLive o × AllLive os

pub AllLive-set :
    (os : List (ℕ × Order)) (ref : ℕ) (o : Order)
    → IsLive o
    → AllLive os
    → AllLive (set_order os ref o)
unfolding set_order
AllLive-set [] ref o v a = (v, tt)
AllLive-set ((k, u) ∷ os) ref o v a = elim (Bool-cases (k == ref)) [
  | inl e ↦ simp e (v, a.1)
  | inr e ↦ simp e (a.0, AllLive-set os ref o v a.1)
]

pub AllLive-erase : (os : List (ℕ × Order)) (ref : ℕ) → AllLive os → AllLive (erase_order os ref)
unfolding erase_order
AllLive-erase [] ref a = tt
AllLive-erase ((k, u) ∷ os) ref a = elim (Bool-cases (k == ref)) [
  | inl e ↦ simp e (AllLive-erase os ref a.1)
  | inr e ↦ simp e (a.0, AllLive-erase os ref a.1)
]

pub AllLive-find :
    (os : List (ℕ × Order)) (ref : ℕ) (o : Order)
    → find_order os ref ≡ some o
    → AllLive os
    → IsLive o
unfolding find_order
AllLive-find [] ref o f a = absurd (ground (arith, f))
AllLive-find ((k, u) ∷ os) ref o f a = elim (Bool-cases (k == ref)) [
  | inl e ↦ let same : some u ≡ some o = simp e at f in subst IsLive (some-injective u o same) a.0
  | inr e ↦ AllLive-find os ref o (simp e at f) a.1
]

module _ (bid : Bool) (price : ℤ) where
  pub total-set :
      (os : List (ℕ × Order)) (ref : ℕ) (o : Order)
      → total bid price (set_order os ref o) + found_part bid price (find_order os ref)
        ≡ total bid price os + part bid price o
  unfolding find_order set_order
  total-set [] ref o = omega arith
  total-set ((k, u) ∷ os) ref o = elim (Bool-cases (k == ref)) [
    | inl e ↦ simp e (omega arith)
    | inr e ↦ simp e (omega (arith, total-set os ref o))
  ]

  total-erase_missing :
      (os : List (ℕ × Order)) (ref : ℕ)
      → find_order os ref ≡ none
      → total bid price (erase_order os ref) ≡ total bid price os
  unfolding find_order erase_order
  total-erase_missing [] ref f = refl
  total-erase_missing ((k, u) ∷ os) ref f = elim (Bool-cases (k == ref)) [
    | inl e ↦ let no_such : some u ≡ none = simp e at f in absurd (ground (arith, no_such))
    | inr e ↦ simp e (omega (arith, total-erase_missing os ref (simp e at f)))
  ]

  pub total-erase :
      (os : List (ℕ × Order)) (ref : ℕ)
      → IsUnique os
      → total bid price (erase_order os ref) + found_part bid price (find_order os ref)
        ≡ total bid price os
  unfolding find_order erase_order
  total-erase [] ref u = refl
  total-erase ((k, v) ∷ os) ref u = elim (Bool-cases (k == ref)) [
    | inl e ↦
        let same : k ≡ ref = ground (arith, e) in
        simp e (omega (arith, total-erase_missing os ref (ap (find_order os) (sym same) ∙ u.0)))
    | inr e ↦ simp e (omega (arith, total-erase os ref u.1))
  ]
