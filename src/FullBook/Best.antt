-- ===== src/FullBook/Best.antt =====
-- The best prices of a book are the extreme prices at which it has shares.
use fpga_sim_core.Prelude.{
  ℕ, zero, suc, ◌<◌, ◌≡◌, ◌⊎◌, ◌∙◌, refl, sym, subst, inl, inr, Bool, true, false, Bool-cases,
  Option, none, some, List, [], ◌∷◌, arith,
}
use fpga_sim_core.Prelude.Int.{kept_total, ℤ, pos, ◌<ℤ◌, ◌≤ℤ◌, eqb_ℤ, eqb_ℤ_refl, eqb_ℤ→eq}
use fpga_sim_core.FullBook.{
  RealBook, side_of, find_level, first_price, last_price, best_bid, best_ask,
}
use fpga_sim_core.FullBook.Totals.{total}
use fpga_sim_core.FullBook.Sorted.{Above, IsSorted}
use fpga_sim_core.FullBook.Sides.{IsBook}

abbrev IsFound : List (ℤ × ℤ) → ℤ → Type 0
IsFound ls p = (q : ℤ) × (find_level ls p ≡ some q)

found_head : (k q : ℤ) (ls : List (ℤ × ℤ)) → IsFound ((k, q) ∷ ls) k
unfolding find_level
found_head k q ls = (q, simp (eqb_ℤ_refl k) refl)

found_tail : (k q : ℤ) (ls : List (ℤ × ℤ)) (p : ℤ) → IsFound ls p → IsFound ((k, q) ∷ ls) p
unfolding find_level
found_tail k q ls p (r, f) = elim (Bool-cases (eqb_ℤ k p)) [
  | inl e ↦ (q, simp e refl)
  | inr e ↦ (r, simp e f)
]

found_cases :
    (k q : ℤ) (ls : List (ℤ × ℤ)) (p : ℤ) → IsFound ((k, q) ∷ ls) p → (k ≡ p) ⊎ IsFound ls p
unfolding find_level
found_cases k q ls p (r, f) = elim (Bool-cases (eqb_ℤ k p)) [
  | inl e ↦ inl (eqb_ℤ→eq k p e)
  | inr e ↦ inr (r, simp e at f)
]

found-above : (k : ℤ) (ls : List (ℤ × ℤ)) (p : ℤ) → Above k ls → IsFound ls p → k <ℤ p
unfolding find_level
found-above k [] p a (r, f) = absurd (ground (arith, f))
found-above k ((k', q) ∷ ls) p a f = elim (found_cases k' q ls p f) [
  | inl e ↦ subst (λ x. k <ℤ x) e a.0
  | inr g ↦ found-above k ls p a.1 g
]

last_lem :
    (k q : ℤ) (ls : List (ℤ × ℤ))
    → IsSorted ((k, q) ∷ ls)
    → (p : ℤ) × (last_price ls (some k) ≡ some p)
      × IsFound ((k, q) ∷ ls) p
      × ((p' : ℤ) → IsFound ((k, q) ∷ ls) p' → p' ≤ℤ p)
unfolding last_price find_level
last_lem k q [] s = (
  k,
  refl,
  found_head k q [],
  λ p' f. elim (found_cases k q [] p' f) [
    | inl e ↦ subst (λ x. x ≤ℤ k) e (omega arith)
    | inr g ↦ absurd (ground (arith, g.1))
  ],
)
last_lem k q ((k', q') ∷ ls) s =
    let (p, e, f, above) = last_lem k' q' ls s.1 in
    (
      p,
      e,
      found_tail k q ((k', q') ∷ ls) p f,
      λ p' g. elim (found_cases k q ((k', q') ∷ ls) p' g) [
        | inl same ↦ subst (λ x. x ≤ℤ p) same (omega (arith, s.0.0, above k' (found_head k' q' ls)))
        | inr later ↦ above p' later
      ],
    )

-- Price and total of a book.
module _ (b : RealBook) (v : IsBook b) (bid : Bool) where
  shares-found : (p : ℤ) → 0 < total bid p b.orders → IsFound (side_of b bid) p
  shares-found p h = kept_found (total bid p b.orders) (v.level_totals bid p) h
    where
      kept_found :
          (t : ℕ) → find_level (side_of b bid) p ≡ kept_total t → 0 < t → IsFound (side_of b bid) p
      kept_found zero e h = absurd (omega (arith, h))
      kept_found (suc t) e h = (pos (suc t), e)

  found-shares : (p : ℤ) → IsFound (side_of b bid) p → 0 < total bid p b.orders
  found-shares p f = kept_some (total bid p b.orders) (sym (v.level_totals bid p) ∙ f.1)
    where
      kept_some : (t : ℕ) → kept_total t ≡ some f.0 → 0 < t
      kept_some zero e = absurd (ground (arith, e))
      kept_some (suc t) e = omega arith

-- A best price of a side: the greatest bid or the least ask with shares; none if there are no shares.
abbrev IsBetter : Bool → ℤ → ℤ → Type 0
IsBetter true p p' = p' ≤ℤ p
IsBetter false p p' = p ≤ℤ p'

abbrev pub IsBest : RealBook → Bool → Option ℤ → Type 0
IsBest b bid none = (p : ℤ) → total bid p b.orders ≡ 0
IsBest b bid (some p) =
    (0 < total bid p b.orders) × ((p' : ℤ) → 0 < total bid p' b.orders → IsBetter bid p p')

nothing : (t : ℕ) (p : ℤ) → (0 < t → IsFound [] p) → t ≡ 0
unfolding find_level
nothing zero p h = refl
nothing (suc t) p h = absurd (ground (arith, (h (omega arith)).1))

best_bid-IsBest : (b : RealBook) → IsBook b → IsBest b true (best_bid b)
unfolding best_bid last_price
best_bid-IsBest b v = go b.bids refl
  where
    go : (ls : List (ℤ × ℤ)) → b.bids ≡ ls → IsBest b true (last_price ls none)
    go [] e = λ p.
        nothing (total true p b.orders) p
          (λ h. subst (λ l. IsFound l p) e (shares-found b v true p h))
    go ((k, q) ∷ ls) e =
        let (p, best, f, least) = last_lem k q ls (subst IsSorted e (v.sorted true)) in
        subst (IsBest b true) (sym best) (
          found-shares b v true p (subst (λ l. IsFound l p) (sym e) f),
          λ p' h. least p' (subst (λ l. IsFound l p') e (shares-found b v true p' h)),
        )

best_ask-IsBest : (b : RealBook) → IsBook b → IsBest b false (best_ask b)
unfolding best_ask first_price
best_ask-IsBest b v = go b.asks refl
  where
    go : (ls : List (ℤ × ℤ)) → b.asks ≡ ls → IsBest b false (first_price ls)
    go [] e = λ p.
        nothing (total false p b.orders) p
          (λ h. subst (λ l. IsFound l p) e (shares-found b v false p h))
    go ((k, q) ∷ ls) e = (
      found-shares b v false k (subst (λ l. IsFound l k) (sym e) (found_head k q ls)),
      λ p' h. at_least p' (subst (λ l. IsFound l p') e (shares-found b v false p' h)),
    )
      where
        at_least : (p' : ℤ) → IsFound ((k, q) ∷ ls) p' → k ≤ℤ p'
        at_least p' f = elim (found_cases k q ls p' f) [
          | inl same ↦ subst (λ x. k ≤ℤ x) same (omega arith)
          | inr g ↦ omega (arith, found-above k ls p' (subst IsSorted e (v.sorted false)).0 g)
        ]

pub best_lem : (b : RealBook) → IsBook b → IsBest b true (best_bid b) × IsBest b false (best_ask b)
best_lem b v = (best_bid-IsBest b v, best_ask-IsBest b v)
