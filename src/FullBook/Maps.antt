-- ===== src/FullBook/Maps.antt =====
-- Looking up in the two kinds of map after a change.
use fpga_sim_core.Prelude.{
  ℕ, ◌≡◌, ◌∙◌, refl, ap, sym, inl, inr, false, Bool-cases, none, some, List, [], ◌∷◌, ◌==◌, arith,
  if◌then◌else◌,
}
use fpga_sim_core.Prelude.Int.{ℤ, eqb_ℤ}
use fpga_sim_core.FullBook.{
  Order, find_order, set_order, erase_order, find_level, set_level, erase_level,
}

-- No key stands twice.
abbrev pub IsUnique : List (ℕ × Order) → Type 0
IsUnique [] = Unit {0}
IsUnique ((k, o) ∷ os) = (find_order os k ≡ none) × IsUnique os

pub find-set_level :
    (ls : List (ℤ × ℤ)) (price qty p : ℤ)
    → find_level (set_level ls price qty) p ≡ (if eqb_ℤ price p then some qty else find_level ls p)
unfolding find_level set_level
find-set_level [] price qty p = refl
find-set_level ((k, q) ∷ ls) price qty p = let ih = find-set_level ls price qty p in ground arith

pub find-erase_level :
    (ls : List (ℤ × ℤ)) (price p : ℤ)
    → find_level (erase_level ls price) p ≡ (if eqb_ℤ price p then none else find_level ls p)
unfolding find_level erase_level
find-erase_level [] price p = ground arith
find-erase_level ((k, q) ∷ ls) price p = let ih = find-erase_level ls price p in ground arith

pub find-set_order :
    (os : List (ℕ × Order)) (ref r : ℕ) (o : Order)
    → find_order (set_order os ref o) r ≡ (if ref == r then some o else find_order os r)
unfolding find_order set_order
find-set_order [] ref r o = refl
find-set_order ((k, v) ∷ os) ref r o = let ih = find-set_order os ref r o in ground arith

pub find-erase_order :
    (os : List (ℕ × Order)) (ref r : ℕ)
    → find_order (erase_order os ref) r ≡ (if ref == r then none else find_order os r)
unfolding find_order erase_order
find-erase_order [] ref r = ground arith
find-erase_order ((k, v) ∷ os) ref r = let ih = find-erase_order os ref r in ground arith

pub IsUnique-set :
    (os : List (ℕ × Order)) (ref : ℕ) (o : Order) → IsUnique os → IsUnique (set_order os ref o)
unfolding find_order set_order
IsUnique-set [] ref o u = (refl, tt)
IsUnique-set ((k, v) ∷ os) ref o u = elim (Bool-cases (k == ref)) [
  | inl e ↦
      let same : k ≡ ref = ground (arith, e) in simp e (ap (find_order os) (sym same) ∙ u.0, u.1)
  | inr e ↦
      let ne : (ref == k) ≡ false = ground (arith, e) in
      simp e (find-set_order os ref k o ∙ simp ne u.0, IsUnique-set os ref o u.1)
]

pub IsUnique-erase : (os : List (ℕ × Order)) (ref : ℕ) → IsUnique os → IsUnique (erase_order os ref)
unfolding find_order erase_order
IsUnique-erase [] ref u = tt
IsUnique-erase ((k, v) ∷ os) ref u = elim (Bool-cases (k == ref)) [
  | inl e ↦ simp e (IsUnique-erase os ref u.1)
  | inr e ↦
      let ne : (ref == k) ≡ false = ground (arith, e) in
      simp e (find-erase_order os ref k ∙ simp ne u.0, IsUnique-erase os ref u.1)
]
