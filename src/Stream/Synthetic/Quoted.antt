-- ===== src/Stream/Synthetic/Quoted.antt =====
-- The quote after a message is that of the best levels with live orders.
use fpga_sim_core.Prelude.{
  ℕ, zero, suc, ◌+◌, ◌-◌, ◌*◌, ◌≤◌, ◌<◌, ◌≡◌, ◌⊎◌, ◌∙◌, refl, sym, subst, ℕ_discrete, inl, inr,
  Bool, true, false, Bool-cases, Option, none, some, List, arith, length, get_or, get_or-set_self,
  if◌then◌else◌,
}
use fpga_sim_core.Prelude.Int.{ℤ, pos, ltb_ℤ, ◌+ℤ◌, ◌-ℤ◌, times, to_u32, to_int32, wrap32}
use fpga_sim_core.Ofi.{BookQuote, blank_quote}
use fpga_sim_core.Stream.Synthetic.{
  SyntheticItchStream, first_level, level_price, price_levels, update_quote, empty_ask_price,
  bid_part, ask_part,
}
use fpga_sim_core.Stream.Synthetic.Account.{
  Account, account_of, qty_of, qty_at, live_total, IsSummed,
}

-- A level is the first one of its side with shares.
pub record IsFirst (a : Account) (bid : Bool) (m : ℕ) : Type 0 where
  pub level_lt : m < price_levels
  pub some_shares : 0 < live_total a bid m
  pub none_before : (l : ℕ) → l < m → live_total a bid l ≡ 0

abbrev pub IsEmpty : Account → Bool → Type 0
IsEmpty a bid = (l : ℕ) → l < price_levels → live_total a bid l ≡ 0

pub record Quoted (a : Account) (q : BookQuote) : Type 0 where
  pub bids :
      (IsEmpty a true × (q.bid_price ≡ pos 0) × (q.bid_qty ≡ pos 0))
      ⊎ ((m : ℕ) × IsFirst a true m
          × (q.bid_price ≡ pos (1892500 - 100 * m))
          × (q.bid_qty ≡ pos (live_total a true m)))
  pub asks :
      (IsEmpty a false × (q.ask_price ≡ empty_ask_price) × (q.ask_qty ≡ pos 0))
      ⊎ ((m : ℕ) × IsFirst a false m
          × (q.ask_price ≡ pos (1893000 + 100 * m))
          × (q.ask_qty ≡ pos (live_total a false m)))

pub bid_price_lem : (m : ℕ) → m < price_levels → level_price true m ≡ pos (1892500 - 100 * m)
unfolding level_price wrap32 times to_int32 to_u32 ◌-ℤ◌
bid_price_lem zero h = refl
bid_price_lem (suc zero) h = refl
bid_price_lem (suc (suc zero)) h = refl
bid_price_lem (suc (suc (suc zero))) h = refl
bid_price_lem (suc (suc (suc (suc zero)))) h = refl
bid_price_lem (suc (suc (suc (suc (suc m))))) h = absurd (omega arith)

pub ask_price_lem : (m : ℕ) → m < price_levels → level_price false m ≡ pos (1893000 + 100 * m)
unfolding level_price wrap32 times to_int32 to_u32 ◌+ℤ◌
ask_price_lem zero h = refl
ask_price_lem (suc zero) h = refl
ask_price_lem (suc (suc zero)) h = refl
ask_price_lem (suc (suc (suc zero))) h = refl
ask_price_lem (suc (suc (suc (suc zero)))) h = refl
ask_price_lem (suc (suc (suc (suc (suc m))))) h = absurd (omega arith)

abbrev Found : List ℤ → ℕ → ℕ → Option ℕ → Type 0
Found qty l n none = (j : ℕ) → l ≤ j → j < l + n → ltb_ℤ (pos 0) (get_or qty j (pos 0)) ≡ false
Found qty l n (some m) =
    (l ≤ m)
    × (m < l + n)
    × (ltb_ℤ (pos 0) (get_or qty m (pos 0)) ≡ true)
    × ((j : ℕ) → l ≤ j → j < m → ltb_ℤ (pos 0) (get_or qty j (pos 0)) ≡ false)

from_here :
    (qty : List ℤ) (l : ℕ)
    → ltb_ℤ (pos 0) (get_or qty l (pos 0)) ≡ false
    → (j : ℕ) → (l + 1 ≤ j → ltb_ℤ (pos 0) (get_or qty j (pos 0)) ≡ false)
    → l ≤ j
    → ltb_ℤ (pos 0) (get_or qty j (pos 0)) ≡ false
from_here qty l e j later h = elim (ℕ_discrete l j) [
  | yes same ↦ subst (λ k. ltb_ℤ (pos 0) (get_or qty k (pos 0)) ≡ false) same e
  | no ne ↦ later (omega (arith, h, ne))
]

nothing : (t : ℕ) (z : ℤ) → z ≡ pos t → ltb_ℤ (pos 0) z ≡ false → t ≡ 0
nothing t z e h = ground (arith, e, h)

something : (t : ℕ) (z : ℤ) → z ≡ pos t → ltb_ℤ (pos 0) z ≡ true → 0 < t
something t z e h = ground (arith, e, h)

Found-earlier :
    (qty : List ℤ) (l n : ℕ) (o : Option ℕ)
    → ltb_ℤ (pos 0) (get_or qty l (pos 0)) ≡ false
    → Found qty (l + 1) n o
    → Found qty l (suc n) o
Found-earlier qty l n none e f = λ j h k. from_here qty l e j (λ le. f j le (omega (arith, k))) h
Found-earlier qty l n (some m) e f =
    (omega (arith, f.0), omega (arith, f.1), f.2, λ j h k. from_here qty l e j (λ le. f.3 j le k) h)

first_level-Found : (qty : List ℤ) (l n : ℕ) → Found qty l n (first_level qty l n)
unfolding first_level
first_level-Found qty l zero = λ j h k. absurd (omega (arith, h, k))
first_level-Found qty l (suc n) = elim (Bool-cases (ltb_ℤ (pos 0) (get_or qty l (pos 0)))) [
  | inl e ↦
      subst (λ b. Found qty l (suc n) (if b then some l else first_level qty (l + 1) n)) (sym e)
        (omega arith, omega arith, e, λ j h k. absurd (omega (arith, h, k)))
  | inr e ↦
      simp e (Found-earlier qty l n (first_level qty (l + 1) n) e (first_level-Found qty (l + 1) n))
]

abbrev Placed : Account → Bool → Option ℕ → Type 0
Placed a bid none = IsEmpty a bid
Placed a bid (some m) = IsFirst a bid m

Found-Placed :
    (a : Account) (bid : Bool) (o : Option ℕ)
    → IsSummed a
    → Found (qty_of a bid) 0 price_levels o
    → Placed a bid o
Found-Placed a bid none s f =
    λ l h. nothing (live_total a bid l) (qty_at a bid l) (s.totals bid l h) (f l (omega arith) h)
Found-Placed a bid (some m) s f = record {
  level_lt = f.1;
  some_shares = something (live_total a bid m) (qty_at a bid m) (s.totals bid m f.1) f.2;
  none_before = λ l h.
      nothing (live_total a bid l) (qty_at a bid l) (s.totals bid l (omega (arith, h, f.1)))
        (f.3 l (omega arith) h);
}

ask_keeps :
    (s : SyntheticItchStream) (o : Option ℕ) (q : BookQuote)
    → ((ask_part s o q).bid_price ≡ q.bid_price) × ((ask_part s o q).bid_qty ≡ q.bid_qty)
ask_keeps s none q = (refl, refl)
ask_keeps s (some m) q = (refl, refl)

bid_keeps :
    (s : SyntheticItchStream) (o : Option ℕ) (q : BookQuote)
    → ((bid_part s o q).ask_price ≡ q.ask_price) × ((bid_part s o q).ask_qty ≡ q.ask_qty)
bid_keeps s none q = (refl, refl)
bid_keeps s (some m) q = (refl, refl)

abbrev no_quote : BookQuote
no_quote = record blank_quote { ask_price = empty_ask_price }

placed-Quoted :
    (s : SyntheticItchStream) (b k : Option ℕ)
    → IsSummed (account_of s)
    → Placed (account_of s) true b
    → Placed (account_of s) false k
    → Quoted (account_of s) (ask_part s k (bid_part s b no_quote))
placed-Quoted s b k i best_bid best_ask = record {
  bids =
      (elim b
          as (λ b.
            Placed (account_of s) true b
            → (IsEmpty (account_of s) true
                × ((ask_part s k (bid_part s b no_quote)).bid_price ≡ pos 0)
                × ((ask_part s k (bid_part s b no_quote)).bid_qty ≡ pos 0))
              ⊎ ((m : ℕ) × IsFirst (account_of s) true m
                  × ((ask_part s k (bid_part s b no_quote)).bid_price ≡ pos (1892500 - 100 * m))
                  × ((ask_part s k (bid_part s b no_quote)).bid_qty
                      ≡ pos (live_total (account_of s) true m)))) [
                        | none ↦ λ p. let (e, f) = ask_keeps s k no_quote in inl (p, e, f)
                        | some m ↦ λ p.
                            let (e, f) = ask_keeps s k (bid_part s (some m) no_quote) in
                            inr
                              (m, p, e ∙ bid_price_lem m p.level_lt, f ∙ i.totals true m p.level_lt)
                      ])
        best_bid;
  asks =
      (elim k
          as (λ k.
            Placed (account_of s) false k
            → (IsEmpty (account_of s) false
                × ((ask_part s k (bid_part s b no_quote)).ask_price ≡ empty_ask_price)
                × ((ask_part s k (bid_part s b no_quote)).ask_qty ≡ pos 0))
              ⊎ ((m : ℕ) × IsFirst (account_of s) false m
                  × ((ask_part s k (bid_part s b no_quote)).ask_price ≡ pos (1893000 + 100 * m))
                  × ((ask_part s k (bid_part s b no_quote)).ask_qty
                      ≡ pos (live_total (account_of s) false m)))) [
                        | none ↦ λ p. let (e, f) = bid_keeps s b no_quote in inl (p, e, f)
                        | some m ↦
                            λ p. inr (m, p, ask_price_lem m p.level_lt, i.totals false m p.level_lt)
                      ])
        best_ask;
}

pub update_quote-Quoted :
    (s : SyntheticItchStream) (i : ℕ)
    → IsSummed (account_of s)
    → i < length s.quotes
    → Quoted (account_of s) (get_or (update_quote s i).quotes i blank_quote)
unfolding update_quote
update_quote-Quoted s i v h =
    subst (Quoted (account_of s)) (sym (get_or-set_self s.quotes i _ blank_quote h)) (
      placed-Quoted s (first_level s.bid_qty 0 price_levels) (first_level s.ask_qty 0 price_levels)
        v (Found-Placed (account_of s) true _ v (first_level-Found s.bid_qty 0 price_levels))
        (Found-Placed (account_of s) false _ v (first_level-Found s.ask_qty 0 price_levels)))
