-- ===== src/FullBook/Sorted.antt =====
-- The levels of a side stand in the order of their prices.
use fpga_sim_core.Prelude.{
  subst, inl, inr, Bool, true, false, Bool-cases, Option, none, some, List, [], ◌∷◌, arith,
}
use fpga_sim_core.Prelude.Int.{ℤ, pos, ◌<ℤ◌, eqb_ℤ, ltb_ℤ, eqb_ℤ→eq, leb_ℤ, ◌-ℤ◌}
use fpga_sim_core.FullBook.{
  Order, RealBook, find_level, set_level, erase_level, side_of, with_side, taken_from, take,
}

-- Every price is above `p`.
abbrev pub Above : ℤ → List (ℤ × ℤ) → Type 0
Above p [] = Unit {0}
Above p ((k, q) ∷ ls) = (p <ℤ k) × Above p ls

abbrev pub IsSorted : List (ℤ × ℤ) → Type 0
IsSorted [] = Unit {0}
IsSorted ((k, q) ∷ ls) = Above k ls × IsSorted ls

Above-lower : (p p' : ℤ) (ls : List (ℤ × ℤ)) → p <ℤ p' → Above p' ls → Above p ls
Above-lower p p' [] h a = tt
Above-lower p p' ((k, q) ∷ ls) h a = (omega (arith, h, a.0), Above-lower p p' ls h a.1)

Above-set :
    (p : ℤ) (ls : List (ℤ × ℤ)) (price qty : ℤ)
    → p <ℤ price
    → Above p ls
    → Above p (set_level ls price qty)
unfolding set_level
Above-set p [] price qty h a = (h, tt)
Above-set p ((k, q) ∷ ls) price qty h a = elim (Bool-cases (eqb_ℤ k price)) [
  | inl e ↦ simp e (h, a.1)
  | inr e ↦ elim (Bool-cases (ltb_ℤ price k)) [
    | inl f ↦ simp (e, f) (h, (a.0, a.1))
    | inr f ↦ simp (e, f) (a.0, Above-set p ls price qty h a.1)
  ]
]

pub IsSorted-set :
    (ls : List (ℤ × ℤ)) (price qty : ℤ) → IsSorted ls → IsSorted (set_level ls price qty)
unfolding set_level
IsSorted-set [] price qty s = (tt, tt)
IsSorted-set ((k, q) ∷ ls) price qty s = elim (Bool-cases (eqb_ℤ k price)) [
  | inl e ↦ simp e (subst (λ p. Above p ls) (eqb_ℤ→eq k price e) s.0, s.1)
  | inr e ↦ elim (Bool-cases (ltb_ℤ price k)) [
    | inl f ↦
        let below : price <ℤ k = ground (arith, f) in
        simp (e, f) ((below, Above-lower price k ls below s.0), (s.0, s.1))
    | inr f ↦
        let above : k <ℤ price = ground (arith, e, f) in
        simp (e, f) (Above-set k ls price qty above s.0, IsSorted-set ls price qty s.1)
  ]
]

Above-erase : (p : ℤ) (ls : List (ℤ × ℤ)) (price : ℤ) → Above p ls → Above p (erase_level ls price)
unfolding erase_level
Above-erase p [] price a = tt
Above-erase p ((k, q) ∷ ls) price a = elim (Bool-cases (eqb_ℤ k price)) [
  | inl e ↦ simp e (Above-erase p ls price a.1)
  | inr e ↦ simp e (a.0, Above-erase p ls price a.1)
]

pub IsSorted-erase : (ls : List (ℤ × ℤ)) (price : ℤ) → IsSorted ls → IsSorted (erase_level ls price)
unfolding erase_level
IsSorted-erase [] price s = tt
IsSorted-erase ((k, q) ∷ ls) price s = elim (Bool-cases (eqb_ℤ k price)) [
  | inl e ↦ simp e (IsSorted-erase ls price s.1)
  | inr e ↦ simp e (Above-erase k ls price s.0, IsSorted-erase ls price s.1)
]

pub with_side-IsSorted :
    (b : RealBook) (side : Bool) (ls : List (ℤ × ℤ)) (bid : Bool)
    → IsSorted ls
    → ((bid : Bool) → IsSorted (side_of b bid))
    → IsSorted (side_of (with_side b side ls) bid)
with_side-IsSorted b true ls true s all = s
with_side-IsSorted b true ls false s all = all false
with_side-IsSorted b false ls true s all = all true
with_side-IsSorted b false ls false s all = s

taken-IsSorted :
    (b : RealBook) (o : Order) (q : Option ℤ) (n : ℤ) (bid : Bool)
    → ((bid : Bool) → IsSorted (side_of b bid))
    → IsSorted (side_of (taken_from b o q n) bid)
taken-IsSorted b o none n bid all = all bid
taken-IsSorted b o (some q) n bid all =
    with_side-IsSorted b o.bid _ bid
      (elim (Bool-cases (leb_ℤ (q -ℤ n) (pos 0))) [
        | inl e ↦ simp e (IsSorted-erase (side_of b o.bid) o.price (all o.bid))
        | inr e ↦ simp e (IsSorted-set (side_of b o.bid) o.price (q -ℤ n) (all o.bid))
      ])
      all

pub take-IsSorted :
    (b : RealBook) (o : Order) (n : ℤ) (bid : Bool)
    → ((bid : Bool) → IsSorted (side_of b bid))
    → IsSorted (side_of (take b o n) bid)
unfolding take
take-IsSorted b o n bid all = taken-IsSorted b o (find_level (side_of b o.bid) o.price) n bid all
