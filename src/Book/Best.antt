-- ===== src/Book/Best.antt =====
-- `best_bid` and `best_ask` find the best price in use.
use fpga_sim_core.Prelude.{
  ◌≡◌, ◌∙◌, ◌⊎◌, refl, sym, subst, ap, inl, inr, Bool, true, false, not, ◌&&◌, ◌||◌, none, some, [],
  ◌∷◌, arith, Bool-cases,
}
use fpga_sim_core.Prelude.Int.{ℤ, eqb_ℤ, eqb_ℤ→eq, eqb_ℤ_refl}
use fpga_sim_core.Book.{
  BookLevel, blank_level, Side, best_loop, higher, lower, FiveLevelOrderBook, best_bid, best_ask,
}
use fpga_sim_core.Book.View.{depth, is_some, is_some→none, IsSound, IsValid}

module _ (better : ℤ → ℤ → Bool) (irrefl : (p : ℤ) → better p p ≡ false)
    (trans : (p q r : ℤ) → better p q ≡ true → better q r ≡ true → better p r ≡ true)
    (cotrans : (p q r : ℤ) → better p q ≡ false → better q r ≡ false → better p r ≡ false) where
  abbrev beats : ℤ → BookLevel → Bool
  beats q r = not r.valid || better q r.price

  -- The level the loop ends with is the one it began with or one of the side's; it is at least as
  -- good as either.
  abbrev IsFound : Side → BookLevel → ℤ → BookLevel → Type 0
  IsFound ls best q r =
      ((r ≡ best) ⊎ ((r.valid ≡ true) × (depth r.price ls ≡ some r.quantity)))
      × ((best.valid && beats best.price r) ≡ false)
      × ((is_some (depth q ls) && beats q r) ≡ false)

  -- Where a level of the side was found it is the one `depth` finds, also with a level in front.
  found_behind :
      (l : BookLevel) (ls : Side) (r : BookLevel)
      → IsSound l.valid l ls
      → depth r.price ls ≡ some r.quantity
      → depth r.price (l ∷ ls) ≡ some r.quantity
  unfolding depth
  found_behind l ls r s e = elim (Bool-cases l.valid) [
    | inl used ↦
        let v = subst (λ b. IsSound b l ls) used s in
        elim (Bool-cases (eqb_ℤ l.price r.price)) [
          | inl hit ↦
              ground (arith, sym v.2 ∙ ap (λ p. depth p ls) (eqb_ℤ→eq l.price r.price hit) ∙ e)
          | inr miss ↦ simp (used, miss) e
        ]
    | inr unused ↦ simp unused e
  ]

  depth-front :
      (l : BookLevel) (ls : Side) → l.valid ≡ true → depth l.price (l ∷ ls) ≡ some l.quantity
  unfolding depth
  depth-front l ls used = simp (used, eqb_ℤ_refl l.price)

  depth-unbeaten :
      (l : BookLevel) (ls : Side) (q : ℤ) (r : BookLevel)
      → (l.valid && beats l.price r) ≡ false
      → (is_some (depth q ls) && beats q r) ≡ false
      → (is_some (depth q (l ∷ ls)) && beats q r) ≡ false
  unfolding depth
  depth-unbeaten l ls q r front behind = elim (Bool-cases l.valid) [
    | inl used ↦ elim (Bool-cases (eqb_ℤ l.price q)) [
      | inl hit ↦
          simp (used, hit)
            (subst (λ p. beats p r ≡ false) (eqb_ℤ→eq l.price q hit)
              (subst (λ b. (b && beats l.price r) ≡ false) used front))
      | inr miss ↦ simp (used, miss) behind
    ]
    | inr unused ↦ simp unused behind
  ]

  taken :
      (l : BookLevel) (ls : Side) (best : BookLevel) (q : ℤ) (r : BookLevel)
      → l.valid ≡ true
      → (not best.valid || better l.price best.price) ≡ true
      → IsSound l.valid l ls
      → IsFound ls l q r
      → IsFound (l ∷ ls) best q r
  taken l ls best q r used more s f = (inr (origin f.0), beaten, unbeaten)
    where
      origin :
          (r ≡ l) ⊎ ((r.valid ≡ true) × (depth r.price ls ≡ some r.quantity))
          → (r.valid ≡ true) × (depth r.price (l ∷ ls) ≡ some r.quantity)
      origin (inl e) =
          subst (λ b. (b.valid ≡ true) × (depth b.price (l ∷ ls) ≡ some b.quantity)) (sym e)
            (used, depth-front l ls used)
      origin (inr e) = (e.0, found_behind l ls r s e.1)

      beaten : (best.valid && beats best.price r) ≡ false
      beaten = ground (arith, f.1, more, used, trans l.price best.price r.price)

      unbeaten : (is_some (depth q (l ∷ ls)) && beats q r) ≡ false
      unbeaten = depth-unbeaten l ls q r f.1 f.2

  passed :
      (l : BookLevel) (ls : Side) (best : BookLevel) (q : ℤ) (r : BookLevel)
      → (l.valid && (not best.valid || better l.price best.price)) ≡ false
      → IsSound l.valid l ls
      → IsFound ls best q r
      → IsFound (l ∷ ls) best q r
  passed l ls best q r less s f = (origin f.0, f.1, depth-unbeaten l ls q r front f.2)
    where
      origin :
          (r ≡ best) ⊎ ((r.valid ≡ true) × (depth r.price ls ≡ some r.quantity))
          → (r ≡ best) ⊎ ((r.valid ≡ true) × (depth r.price (l ∷ ls) ≡ some r.quantity))
      origin (inl e) = inl e
      origin (inr e) = inr (e.0, found_behind l ls r s e.1)

      front : (l.valid && beats l.price r) ≡ false
      front = ground (arith, less, f.1, cotrans l.price best.price r.price)

  step_taken :
      (l : BookLevel) (ls : Side) (best : BookLevel)
      → (l.valid && (not best.valid || better l.price best.price)) ≡ true
      → best_loop better ls l ≡ best_loop better (l ∷ ls) best
  unfolding best_loop
  step_taken l ls best more = rw more refl

  step_passed :
      (l : BookLevel) (ls : Side) (best : BookLevel)
      → (l.valid && (not best.valid || better l.price best.price)) ≡ false
      → best_loop better ls best ≡ best_loop better (l ∷ ls) best
  unfolding best_loop
  step_passed l ls best less = rw less refl

  depth-none : (q : ℤ) → depth q [] ≡ none
  unfolding depth
  depth-none q = refl

  best_loop_none : (best : BookLevel) → best_loop better [] best ≡ best
  unfolding best_loop
  best_loop_none best = refl

  best_loop-IsFound :
      (ls : Side) (best : BookLevel) (q : ℤ)
      → IsValid ls
      → IsFound ls best q (best_loop better ls best)
  best_loop-IsFound [] best q v =
      rw best_loop_none (inl refl, ground (arith, irrefl best.price), rw depth-none refl)
  best_loop-IsFound (l ∷ ls) best q v =
      elim (Bool-cases (l.valid && (not best.valid || better l.price best.price))) [
        | inl more ↦ subst (IsFound (l ∷ ls) best q) (step_taken l ls best more) (
            taken l ls best q (best_loop better ls l) (ground (arith, more)) (ground (arith, more))
              v.0 (best_loop-IsFound ls l q v.1))
        | inr less ↦ subst (IsFound (l ∷ ls) best q) (step_passed l ls best less) (
            passed l ls best q (best_loop better ls best) less v.0
              (best_loop-IsFound ls best q v.1))
      ]

higher_trans : (p q r : ℤ) → higher p q ≡ true → higher q r ≡ true → higher p r ≡ true
higher_trans p q r = ground arith

higher_cotrans : (p q r : ℤ) → higher p q ≡ false → higher q r ≡ false → higher p r ≡ false
higher_cotrans p q r = ground arith

-- What the best level of a side says of the side: if it is in use, the side holds its quantity at its
-- price and has no better price in use; else the side has no price in use.
abbrev pub IsBest : (ℤ → ℤ → Bool) → Side → ℤ → BookLevel → Bool → Type 0
IsBest better side q best true =
    (depth best.price side ≡ some best.quantity)
    × ((is_some (depth q side) && better q best.price) ≡ false)
IsBest better side q best false = depth q side ≡ none

found-IsBest :
    (better : ℤ → ℤ → Bool) (side : Side) (q : ℤ) (r : BookLevel) (v : Bool)
    → r.valid ≡ v
    → (r ≡ blank_level) ⊎ ((r.valid ≡ true) × (depth r.price side ≡ some r.quantity))
    → (is_some (depth q side) && (not r.valid || better q r.price)) ≡ false
    → IsBest better side q r v
found-IsBest better side q r true e (inl blank) u = ground (arith, sym e ∙ ap (λ b. b.valid) blank)
found-IsBest better side q r true e (inr found) u = (found.1, ground (arith, e, u))
found-IsBest better side q r false e o u = is_some→none (depth q side) (ground (arith, e, u))

-- On a valid side, `best_bid` is a level in use, with the side's quantity at its price, and no price in
-- use is higher; it is not valid exactly where no price is in use.
pub best_bid_lem :
    (b : FiveLevelOrderBook) (q : ℤ)
    → IsValid b.bids
    → IsBest higher b.bids q (best_bid b) (best_bid b).valid
unfolding best_bid
best_bid_lem b q v =
    let f =
      best_loop-IsFound higher (λ p. ground arith) higher_trans higher_cotrans b.bids blank_level q
        v in
    found-IsBest higher b.bids q (best_bid b) (best_bid b).valid refl f.0 f.2

-- On a valid side, `best_ask` is a level in use, with the side's quantity at its price, and no price in
-- use is lower; it is not valid exactly where no price is in use.
pub best_ask_lem :
    (b : FiveLevelOrderBook) (q : ℤ)
    → IsValid b.asks
    → IsBest lower b.asks q (best_ask b) (best_ask b).valid
unfolding best_ask
best_ask_lem b q v =
    let f =
      best_loop-IsFound lower (λ p. ground arith) (λ p q r h h'. higher_trans r q p h' h)
        (λ p q r h h'. higher_cotrans r q p h' h) b.asks blank_level q v in
    found-IsBest lower b.asks q (best_ask b) (best_ask b).valid refl f.0 f.2
