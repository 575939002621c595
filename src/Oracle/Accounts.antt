-- ===== src/Oracle/Accounts.antt =====
-- What a new order and a reduced one do to the live orders of the account.
use native.Mathlib.Numerals.{add-one}
use fpga_sim_core.Prelude.{
  ℕ, zero, suc, ◌+◌, ◌-◌, ◌≤◌, ◌<◌, ◌≡◌, ◌∙◌, refl, ap, sym, subst, inl, inr, Bool, Bool-cases,
  Option, none, some, List, [], ◌∷◌, ◌++◌, arith, length, length-set, length-take, set, take,
  take-set, get_or, get_or-set_self, ◌==◌, if◌then◌else◌,
}
use fpga_sim_core.Prelude.Int.{ℤ, pos, eqb_ℤ, ◌+ℤ◌, ◌-ℤ◌, wrap32}
use fpga_sim_core.Stream.Synthetic.{Live, blank_live, one_less}
use fpga_sim_core.Stream.Synthetic.Account.{
  Account, order_at, IsAccount, change, change-live, change-live_count,
}
use fpga_sim_core.Stream.Synthetic.Kept.{entered, removed}
use fpga_sim_core.Stream.Synthetic.Lowered.{left, lowered, reduced}
use fpga_sim_core.Oracle.Lives.{
  find, Distinct, find-append, find-set, Distinct-set, find-swap, Distinct-swap, Distinct-front,
}

abbrev pub lives : Account → List Live
lives a = take a.live_count a.live

set-take {ℓ} :
    {A : Type ℓ} (n : ℕ) (xs : List A) (i : ℕ) (v : A) → take n (set xs i v) ≡ set (take n xs) i v
set-take zero xs i v = refl
set-take (suc n) [] i v = refl
set-take (suc n) (x ∷ xs) zero v = refl
set-take (suc n) (x ∷ xs) (suc i) v = ap (λ r. x ∷ r) (set-take n xs i v)

pub get_or-take {ℓ} :
    {A : Type ℓ} (n : ℕ) (xs : List A) (i : ℕ) (d : A)
    → i < n
    → get_or (take n xs) i d ≡ get_or xs i d
get_or-take zero xs i d h = absurd (omega (arith, h))
get_or-take (suc n) [] i d h = refl
get_or-take (suc n) (x ∷ xs) zero d h = refl
get_or-take (suc n) (x ∷ xs) (suc i) d h = get_or-take n xs i d (omega (arith, h))

take-last {ℓ} :
    {A : Type ℓ} (n : ℕ) (xs : List A) (d : A)
    → n < length xs
    → take (suc n) xs ≡ take n xs ++ get_or xs n d ∷ []
take-last n [] d h = absurd (omega (arith, h))
take-last zero (x ∷ xs) d h = refl
take-last (suc n) (x ∷ xs) d h = ap (λ r. x ∷ r) (take-last n xs d (omega (arith, h)))

pub length-lives : (a : Account) → IsAccount a → length (lives a) ≡ a.live_count
length-lives a v = omega (arith, length-take a.live_count a.live, v.sums.room, v.sums.few)

lives-change :
    (a : Account) (side : Bool) (level : ℕ) (f : ℤ → ℤ) → lives (change a side level f) ≡ lives a
lives-change a side level f =
    ap (λ n. take n (change a side level f).live) (change-live_count a side level f)
    ∙ ap (take a.live_count) (change-live a side level f)

pub lives-entered :
    (a : Account) (o : Live)
    → IsAccount a
    → a.live_count < 128
    → lives (entered a o) ≡ lives a ++ o ∷ []
lives-entered a o v few =
    lives-change (record a { live = set a.live a.live_count o; live_count = a.live_count + 1 })
      o.bid o.level (λ q. wrap32 (q +ℤ o.remaining))
    ∙ ap (λ n. take n (set a.live a.live_count o)) (add-one a.live_count)
    ∙ take-set a.live a.live_count o (omega (arith, few, v.sums.room))

lives-lowered :
    (a : Account) (index : ℕ) (shares : ℤ)
    → lives (lowered a index shares) ≡ set (lives a) index (left (order_at a index) shares)
lives-lowered a index shares =
    let o : Live = order_at a index in
    lives-change (record a { live = set a.live index (left o shares) }) o.bid o.level
      (λ q. wrap32 (q -ℤ shares))
    ∙ set-take a.live_count a.live index (left o shares)

-- The last order takes the place of the one that goes.
lives-removed :
    (a : Account) (index n : ℕ)
    → a.live_count ≡ suc n
    → n < 128
    → lives (removed a index) ≡ set (take n a.live) index (get_or a.live n blank_live)
lives-removed a index n e h =
    let less : one_less a.live_count ≡ n = omega (arith, e, h) in
    ap (λ k. take k (set a.live index (get_or a.live k blank_live))) less
    ∙ set-take n a.live index (get_or a.live n blank_live)

-- The orders found after a reduction: what is left of the one at `index`, or none of it.
abbrev pub rest_of : Live → Option Live
rest_of o = if eqb_ℤ o.remaining (pos 0) then none else some o

abbrev pub Shortened : List Live → Live → List Live → Type 0
Shortened os rest os' =
    ((r : ℕ) → find r os' ≡ (if rest.reference == r then rest_of rest else find r os))
    × Distinct os'

-- With the last order of the list in front.
swapped :
    (ys : List Live) (last : Live) (os : List Live) (index : ℕ) (rest : Live)
    → ys ++ last ∷ [] ≡ set os index rest
    → index ≤ length ys
    → index < length os
    → rest.reference ≡ (get_or os index blank_live).reference
    → Distinct os
    → rest_of rest ≡ none
    → Shortened os rest (set ys index last)
swapped ys last os index rest e le h same d gone =
    let whole : Distinct (ys ++ last ∷ []) =
      subst Distinct (sym e) (Distinct-set os index rest d h same) in
    let (front, new) = Distinct-front ys last whole in
    let here : get_or (ys ++ last ∷ []) index blank_live ≡ rest =
      ap (λ xs. get_or xs index blank_live) e ∙ get_or-set_self os index rest blank_live h in
    (
      λ r.
          find-swap r ys index last front new le
          ∙ ap
              (λ (o : Live).
                if o.reference == r
                then none
                else if last.reference == r
                then some last
                else find r ys)
              here
          ∙ ap (λ k. if rest.reference == r then none else k)
              (sym (find-append r ys last new) ∙ ap (find r) e ∙ find-set r os index rest d h same)
          ∙ elim (Bool-cases (rest.reference == r)) [
            | inl f ↦ simp f (sym gone)
            | inr f ↦ simp f refl
          ],
      Distinct-swap ys index last front new le,
    )

removed-Shortened :
    (a1 : Account) (n : ℕ) (os : List Live) (index : ℕ) (rest : Live)
    → a1.live_count ≡ suc n
    → lives a1 ≡ set os index rest
    → length os ≡ a1.live_count
    → a1.live_count ≤ 128
    → index < length os
    → rest.reference ≡ (get_or os index blank_live).reference
    → Distinct os
    → rest_of rest ≡ none
    → length a1.live ≡ 128
    → Shortened os rest (lives (removed a1 index))
removed-Shortened a1 n os index rest count e size few h same d gone room =
    let last = get_or a1.live n blank_live in
    let whole : take n a1.live ++ last ∷ [] ≡ set os index rest =
      sym (take-last n a1.live blank_live (omega (arith, count, few, room)))
      ∙ ap (λ k. take k a1.live) (sym count)
      ∙ e in
    subst (Shortened os rest) (sym (lives-removed a1 index n count (omega (arith, count, few)))) (
      swapped (take n a1.live) last os index rest whole
        (omega (arith, h, size, count, few, room, length-take n a1.live)) h same d gone)

-- After a reduction, the reference of the order leads to what is left of it, and every other one where
-- it did.
pub reduced-Shortened :
    (a : Account) (index : ℕ) (shares : ℤ)
    → IsAccount a
    → Distinct (lives a)
    → index < a.live_count
    → Shortened (lives a) (left (order_at a index) shares) (lives (reduced a index shares))
reduced-Shortened a index shares v d h =
    let o : Live = order_at a index in
    let rest : Live = left o shares in
    let size = length-lives a v in
    let same : rest.reference ≡ (get_or (lives a) index blank_live).reference =
      ap (λ (x : Live). x.reference) (sym (get_or-take a.live_count a.live index blank_live h)) in
    let a1 = lowered a index shares in
    let f : ℤ → ℤ = λ q. wrap32 (q -ℤ shares) in
    let a0 : Account = record a { live = set a.live index rest } in
    let count : a1.live_count ≡ a.live_count = change-live_count a0 o.bid o.level f in
    let inside : index < length (lives a) = omega (arith, size, h) in
    elim (Bool-cases (eqb_ℤ rest.remaining (pos 0))) [
      | inl gone ↦
          subst (λ x. Shortened (lives a) rest (lives x))
            (sym (ap (λ b. if b then removed a1 index else a1) gone))
            (removed-Shortened a1 (a.live_count - 1) (lives a) index rest (omega (arith, count, h))
              (lives-lowered a index shares) (omega (arith, size, count))
              (omega (arith, count, v.sums.few)) inside same d
              (ap (λ b. if b then none else some rest) gone)
              (ap length (change-live a0 o.bid o.level f)
                ∙ length-set a.live index rest
                ∙ v.sums.room))
      | inr kept ↦
          subst (λ x. Shortened (lives a) rest (lives x))
            (sym (ap (λ b. if b then removed a1 index else a1) kept))
            (
              λ r.
                  ap (find r) (lives-lowered a index shares)
                  ∙ find-set r (lives a) index rest d inside same
                  ∙ ap (λ k. if rest.reference == r then k else find r (lives a))
                      (sym (ap (λ b. if b then none else some rest) kept)),
              subst Distinct (sym (lives-lowered a index shares))
                  (Distinct-set (lives a) index rest d inside same),
            )
    ]
