-- ===== src/Oracle/Quotes.antt =====
-- The best levels of a book that shows the totals of the account, and its quote.
use fpga_sim_core.Prelude.{
  ℕ, ◌+◌, ◌-◌, ◌*◌, ◌<◌, ◌≡◌, ◌⊎◌, ◌∙◌, refl, ap, sym, subst, inl, inr, Bool, true, false, ◌&&◌,
  Bool-cases, some, arith, ltb, ℕ_discrete, if◌then◌else◌,
}
use fpga_sim_core.Prelude.Int.{ℤ, pos, kept_total, kept_pos}
use fpga_sim_core.Book.{BookLevel, Side, FiveLevelOrderBook, higher, lower, best_bid, best_ask}
use fpga_sim_core.Book.View.{depth, is_some}
use fpga_sim_core.Book.Best.{IsBest, best_bid_lem, best_ask_lem}
use fpga_sim_core.Ofi.{BookQuote}
use fpga_sim_core.Pipeline.{quote_of}
use fpga_sim_core.Stream.Synthetic.{empty_ask_price}
use fpga_sim_core.Stream.Synthetic.Account.{Account, live_total}
use fpga_sim_core.Stream.Synthetic.Quoted.{IsFirst, IsEmpty, Quoted}
use fpga_sim_core.Oracle.Depths.{level_at, Shows, ShowsBook}

module _ (bid : Bool) (better : ℤ → ℤ → Bool) (t : ℕ → ℕ) (side : Side) (w : Shows t bid side)
    (r : BookLevel) where
  -- A level in use is one of the stream's, with its total.
  used_level :
      depth r.price side ≡ some r.quantity
      → (j : ℕ) × (j < 5) × (r.price ≡ level_at bid j) × (kept_total (t j) ≡ some r.quantity)
  used_level e =
      let (j, h, p) = w.known r.price (ap is_some e) in
      (j, h, p, sym (w.depths j h) ∙ ap (λ q. depth q side) (sym p) ∙ e)

  no_total : (z : ℤ) → (n : ℕ) → n ≡ 0 → kept_total n ≡ some z → 0 < 0
  no_total z n e h = absurd (ground (arith, sym (ap kept_total e) ∙ h))

  pub best-none :
      (v : Bool)
      → r.valid ≡ v
      → ((l : ℕ) → l < 5 → t l ≡ 0)
      → ((q : ℤ) → IsBest better side q r v)
      → r.valid ≡ false
  best-none false e empty best = e
  best-none true e empty best =
      let (j, h, p, k) = used_level (best r.price).0 in
      absurd (omega (arith, no_total r.quantity (t j) (empty j h) k))

  pub best-first :
      (v : Bool) (m : ℕ)
      → r.valid ≡ v
      → m < 5
      → 0 < t m
      → ((l : ℕ) → l < m → t l ≡ 0)
      → ((j : ℕ) → m < j → j < 5 → better (level_at bid m) (level_at bid j) ≡ true)
      → ((q : ℤ) → IsBest better side q r v)
      → (r.valid ≡ true) × (r.price ≡ level_at bid m) × (r.quantity ≡ pos (t m))
  best-first false m e lt here before order best =
      absurd (ground (arith, sym (best (level_at bid m)) ∙ w.depths m lt ∙ kept_pos (t m) here))
  best-first true m e lt here before order best =
      let (j, h, p, k) = used_level (best r.price).0 in
      let at : depth (level_at bid m) side ≡ some (pos (t m)) =
        w.depths m lt ∙ kept_pos (t m) here in
      let unbeaten : better (level_at bid m) (level_at bid j) ≡ false =
        subst (λ q. better (level_at bid m) q ≡ false) p
          (subst (λ d. (is_some d && better (level_at bid m) r.price) ≡ false) at
            (best (level_at bid m)).1) in
      elim (ℕ_discrete j m) [
        | yes same ↦
            let k' : some (pos (t m)) ≡ some r.quantity =
              sym (kept_pos (t m) here) ∙ ap (λ x. kept_total (t x)) (sym same) ∙ k in
            (e, p ∙ ap (level_at bid) same, ground (arith, k'))
        | no ne ↦ elim (Bool-cases (ltb j m)) [
          | inl less ↦
              absurd (omega (arith, no_total r.quantity (t j) (before j (ground (arith, less))) k))
          | inr more ↦ absurd (ground (arith, unbeaten, order j (ground (arith, more, ne)) h))
        ]
      ]

higher_level : (m j : ℕ) → m < j → j < 5 → higher (level_at true m) (level_at true j) ≡ true
higher_level m j h k = ground (arith, h, k)

lower_level : (m j : ℕ) → m < j → j < 5 → lower (level_at false m) (level_at false j) ≡ true
lower_level m j h k = ground (arith, h, k)

quote_eq :
    (p q : BookQuote)
    → p.bid_price ≡ q.bid_price
    → p.bid_qty ≡ q.bid_qty
    → p.ask_price ≡ q.ask_price
    → p.ask_qty ≡ q.ask_qty
    → p ≡ q
quote_eq p q a b c d =
    λ i. record { bid_price = a i; bid_qty = b i; ask_price = c i; ask_qty = d i }

bids_eq :
    (a : Account) (b : FiveLevelOrderBook) (q : BookQuote)
    → ShowsBook (live_total a) b
    → Quoted a q
    → ((quote_of empty_ask_price b).bid_price ≡ q.bid_price)
      × ((quote_of empty_ask_price b).bid_qty ≡ q.bid_qty)
unfolding quote_of
bids_eq a b q w k = go k.bids
  where
    best : (x : ℤ) → IsBest higher b.bids x (best_bid b) (best_bid b).valid
    best x = best_bid_lem b x (w true).valid

    go :
        (IsEmpty a true × (q.bid_price ≡ pos 0) × (q.bid_qty ≡ pos 0))
          ⊎ ((m : ℕ) × IsFirst a true m
              × (q.bid_price ≡ pos (1892500 - 100 * m))
              × (q.bid_qty ≡ pos (live_total a true m)))
        → ((quote_of empty_ask_price b).bid_price ≡ q.bid_price)
          × ((quote_of empty_ask_price b).bid_qty ≡ q.bid_qty)
    go (inl (empty, p, n)) =
        let out =
          best-none true higher (live_total a true) b.bids (w true) (best_bid b) (best_bid b).valid
            refl empty best in
        (
          ap (λ c. if c then (best_bid b).price else pos 0) out ∙ sym p,
          ap (λ c. if c then (best_bid b).quantity else pos 0) out ∙ sym n,
        )
    go (inr (m, f, p, n)) =
        let (out, price, size) =
          best-first true higher (live_total a true) b.bids (w true) (best_bid b) (best_bid b).valid
            m refl f.level_lt f.some_shares f.none_before (higher_level m) best in
        (
          ap (λ c. if c then (best_bid b).price else pos 0) out ∙ price ∙ sym p,
          ap (λ c. if c then (best_bid b).quantity else pos 0) out ∙ size ∙ sym n,
        )

asks_eq :
    (a : Account) (b : FiveLevelOrderBook) (q : BookQuote)
    → ShowsBook (live_total a) b
    → Quoted a q
    → ((quote_of empty_ask_price b).ask_price ≡ q.ask_price)
      × ((quote_of empty_ask_price b).ask_qty ≡ q.ask_qty)
unfolding quote_of
asks_eq a b q w k = go k.asks
  where
    best : (x : ℤ) → IsBest lower b.asks x (best_ask b) (best_ask b).valid
    best x = best_ask_lem b x (w false).valid

    go :
        (IsEmpty a false × (q.ask_price ≡ empty_ask_price) × (q.ask_qty ≡ pos 0))
          ⊎ ((m : ℕ) × IsFirst a false m
              × (q.ask_price ≡ pos (1893000 + 100 * m))
              × (q.ask_qty ≡ pos (live_total a false m)))
        → ((quote_of empty_ask_price b).ask_price ≡ q.ask_price)
          × ((quote_of empty_ask_price b).ask_qty ≡ q.ask_qty)
    go (inl (empty, p, n)) =
        let out =
          best-none false lower (live_total a false) b.asks (w false) (best_ask b)
            (best_ask b).valid refl empty best in
        (
          ap (λ c. if c then (best_ask b).price else empty_ask_price) out ∙ sym p,
          ap (λ c. if c then (best_ask b).quantity else pos 0) out ∙ sym n,
        )
    go (inr (m, f, p, n)) =
        let (out, price, size) =
          best-first false lower (live_total a false) b.asks (w false) (best_ask b)
            (best_ask b).valid m refl f.level_lt f.some_shares f.none_before (lower_level m) best in
        (
          ap (λ c. if c then (best_ask b).price else empty_ask_price) out ∙ price ∙ sym p,
          ap (λ c. if c then (best_ask b).quantity else pos 0) out ∙ size ∙ sym n,
        )

-- The quote of a book that shows the totals of the account is the one the stream keeps.
pub quote_of-Quoted :
    (a : Account) (b : FiveLevelOrderBook) (q : BookQuote)
    → ShowsBook (live_total a) b
    → Quoted a q
    → quote_of empty_ask_price b ≡ q
quote_of-Quoted a b q w k =
    let bids = bids_eq a b q w k in
    let asks = asks_eq a b q w k in
    quote_eq (quote_of empty_ask_price b) q bids.0 bids.1 asks.0 asks.1
