-- ===== src/Stream/Synthetic/Account.antt =====
-- The account that the synthetic stream keeps of its live orders: each level holds the total of its
-- orders.
use native.Mathlib.Numerals.{add-one}
use fpga_sim_core.Prelude.{
  eqb, ℕ, zero, suc, ◌+◌, ◌*◌, ◌^◌, ◌≤◌, ◌<◌, ◌≡◌, ◌∙◌, refl, ap, sym, inl, inr, Bool, true, false,
  ◌&&◌, Bool-cases, List, [], ◌∷◌, ◌++◌, arith, length, length-set, set, take, take-set, get_or,
  get_or-set_self, get_or-set_ne, ◌==◌, if◌then◌else◌,
}
use fpga_sim_core.Prelude.Int.{ℤ, pos, pos_part, neg_part}
use fpga_sim_core.Stream.Synthetic.{Live, blank_live, SyntheticItchStream, change_qty, price_levels}

pub record Account : Type 0 where
  pub live : List Live
  pub live_count : ℕ
  pub bid_qty : List ℤ
  pub ask_qty : List ℤ

abbrev pub account_of : SyntheticItchStream → Account
account_of s = record {
  live = s.live;
  live_count = s.live_count;
  bid_qty = s.bid_qty;
  ask_qty = s.ask_qty;
}

abbrev pub qty_of : Account → Bool → List ℤ
qty_of a true = a.bid_qty
qty_of a false = a.ask_qty

abbrev pub qty_at : Account → Bool → ℕ → ℤ
qty_at a bid l = get_or (qty_of a bid) l (pos 0)

abbrev pub order_at : Account → ℕ → Live
order_at a j = get_or a.live j blank_live

-- What an order adds to a level of a side.
abbrev pub is_at : Bool → ℕ → Live → Bool
is_at bid l o = eqb o.bid bid && o.level == l

abbrev pub part : Bool → ℕ → Live → ℕ
part bid l o = if is_at bid l o then pos_part o.remaining else 0

abbrev pub total : Bool → ℕ → List Live → ℕ
total bid l [] = 0
total bid l (o ∷ os) = part bid l o + total bid l os

abbrev pub live_total : Account → Bool → ℕ → ℕ
live_total a bid l = total bid l (take a.live_count a.live)

pub record IsLive (o : Live) : Type 0 where
  pub level_lt : o.level < price_levels
  pub some_left : 0 < pos_part o.remaining
  pub few_left : pos_part o.remaining ≤ 500
  pub natural : neg_part o.remaining ≡ 0
  pub fits : o.reference < 2 ^ 64

pub record IsSummed (a : Account) : Type 0 where
  pub room : length a.live ≡ 128
  pub few : a.live_count ≤ 128
  pub level_counts : (bid : Bool) → length (qty_of a bid) ≡ price_levels
  pub totals : (bid : Bool) (l : ℕ) → l < price_levels → qty_at a bid l ≡ pos (live_total a bid l)

pub record IsAccount (a : Account) : Type 0 where
  pub sums : IsSummed a
  pub each : (j : ℕ) → j < a.live_count → IsLive (order_at a j)

module _ (bid : Bool) (l : ℕ) where
  pub total-append : (xs ys : List Live) → total bid l (xs ++ ys) ≡ total bid l xs + total bid l ys
  total-append [] ys = omega arith
  total-append (x ∷ xs) ys = omega (arith, total-append xs ys)

  pub total-take-suc :
      (xs : List Live) (n : ℕ)
      → n < length xs
      → total bid l (take (suc n) xs)
        ≡ total bid l (take n xs) + part bid l (get_or xs n blank_live)
  total-take-suc [] n h = absurd (omega arith)
  total-take-suc (x ∷ xs) zero h = omega arith
  total-take-suc (x ∷ xs) (suc n) h = omega (arith, total-take-suc xs n (omega arith))

  pub total-take-set :
      (xs : List Live) (n i : ℕ) (v : Live)
      → i < n
      → n ≤ length xs
      → total bid l (take n (set xs i v)) + part bid l (get_or xs i blank_live)
        ≡ total bid l (take n xs) + part bid l v
  total-take-set [] n i v h k = absurd (omega arith)
  total-take-set (x ∷ xs) zero i v h k = absurd (omega arith)
  total-take-set (x ∷ xs) (suc n) zero v h k = omega arith
  total-take-set (x ∷ xs) (suc n) (suc i) v h k =
      omega (arith, total-take-set xs n i v (omega arith) (omega arith))

  pub total-take-new :
      (xs : List Live) (n : ℕ) (v : Live)
      → n < length xs
      → total bid l (take (n + 1) (set xs n v)) ≡ total bid l (take n xs) + part bid l v
  total-take-new xs n v h =
      ap (λ k. total bid l (take k (set xs n v))) (add-one n)
      ∙ ap (total bid l) (take-set xs n v h)
      ∙ total-append (take n xs) (v ∷ [])
      ∙ omega arith

  pub part-le : (o : Live) → IsLive o → part bid l o ≤ 500
  part-le o h = ground (arith, h.few_left)

  pub total-le :
      (xs : List Live) (n : ℕ)
      → n ≤ length xs
      → ((j : ℕ) → j < n → IsLive (get_or xs j blank_live))
      → total bid l (take n xs) ≤ 500 * n
  total-le xs zero h each = omega arith
  total-le xs (suc n) h each = omega (
    arith,
    total-take-suc xs n h,
    part-le (get_or xs n blank_live) (each n (omega arith)),
    total-le xs n (omega arith) (λ j k. each j (omega arith)),
  )

-- `change_qty` on the account.
abbrev pub change : Account → Bool → ℕ → (ℤ → ℤ) → Account
change a true level f = record a {
  bid_qty = set a.bid_qty level (f (get_or a.bid_qty level (pos 0)));
}
change a false level f = record a {
  ask_qty = set a.ask_qty level (f (get_or a.ask_qty level (pos 0)));
}

pub change_qty-change :
    (s : SyntheticItchStream) (bid : Bool) (level : ℕ) (f : ℤ → ℤ)
    → account_of (change_qty s bid level f) ≡ change (account_of s) bid level f
change_qty-change s true level f = refl
change_qty-change s false level f = refl

set_at :
    (qty : List ℤ) (level : ℕ) (f : ℤ → ℤ) (l : ℕ)
    → level < length qty
    → get_or (set qty level (f (get_or qty level (pos 0)))) l (pos 0)
      ≡ (if level == l then f (get_or qty l (pos 0)) else get_or qty l (pos 0))
set_at qty level f l h = elim (Bool-cases (level == l)) [
  | inl e ↦
      let same : level ≡ l = ground (arith, e) in
      simp e (
        ap (λ k. get_or (set qty level (f (get_or qty level (pos 0)))) k (pos 0)) (sym same)
        ∙ get_or-set_self qty level _ (pos 0) h
        ∙ ap (λ k. f (get_or qty k (pos 0))) same)
  | inr e ↦ simp e (get_or-set_ne qty _ (pos 0) (ground (arith, e)))
]

-- A change at one level of one side.
pub change_at :
    (a : Account) (o : Live) (f : ℤ → ℤ) (bid : Bool) (l : ℕ)
    → o.level < length (qty_of a o.bid)
    → qty_at (change a o.bid o.level f) bid l
      ≡ (if is_at bid l o then f (qty_at a bid l) else qty_at a bid l)
change_at a o f bid l h = go o.bid bid h
  where
    go :
        (side bid : Bool)
        → o.level < length (qty_of a side)
        → qty_at (change a side o.level f) bid l
          ≡ (if eqb side bid && o.level == l then f (qty_at a bid l) else qty_at a bid l)
    go true true h = set_at a.bid_qty o.level f l h
    go true false h = refl
    go false true h = refl
    go false false h = set_at a.ask_qty o.level f l h

pub change-level_counts :
    (a : Account) (side : Bool) (level : ℕ) (f : ℤ → ℤ) (bid : Bool)
    → length (qty_of (change a side level f) bid) ≡ length (qty_of a bid)
change-level_counts a true level f true = length-set a.bid_qty level _
change-level_counts a true level f false = refl
change-level_counts a false level f true = refl
change-level_counts a false level f false = length-set a.ask_qty level _

pub change-live :
    (a : Account) (side : Bool) (level : ℕ) (f : ℤ → ℤ) → (change a side level f).live ≡ a.live
change-live a true level f = refl
change-live a false level f = refl

pub change-live_count :
    (a : Account) (side : Bool) (level : ℕ) (f : ℤ → ℤ)
    → (change a side level f).live_count ≡ a.live_count
change-live_count a true level f = refl
change-live_count a false level f = refl
