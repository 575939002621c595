-- ===== src/Oracle/Totals.antt =====
-- The totals of the levels after shares are taken of a live order.
use fpga_sim_core.Prelude.{
  ℕ, ◌+◌, ◌-◌, ◌<◌, ◌≤◌, ◌≡◌, ◌∙◌, refl, ap, sym, inl, inr, Bool, true, false, Bool-cases, List,
  arith, length, set, if◌then◌else◌,
}
use fpga_sim_core.Prelude.Int.{ℤ, pos, ◌-ℤ◌, eqb_ℤ, wrap32, pos_part}
use fpga_sim_core.Stream.Synthetic.{Live}
use fpga_sim_core.Stream.Synthetic.Account.{
  Account, order_at, qty_of, qty_at, is_at, live_total, IsLive, IsAccount, total-take-set,
  change_at,
}
use fpga_sim_core.Stream.Synthetic.Kept.{wrap_sub, removed}
use fpga_sim_core.Stream.Synthetic.Lowered.{
  left, lowered, reduced, remaining_left, reduced-IsAccount,
}
use fpga_sim_core.Oracle.Follows.{live_total-le}

qty_at-live :
    (a : Account) (os : List Live) (s : Bool) (k : ℕ)
    → qty_at (record a { live = os }) s k ≡ qty_at a s k
qty_at-live a os true k = refl
qty_at-live a os false k = refl

qty_at-removed :
    (a : Account) (index : ℕ) (s : Bool) (k : ℕ) → qty_at (removed a index) s k ≡ qty_at a s k
qty_at-removed a index true k = refl
qty_at-removed a index false k = refl

qty_at-reduced :
    (a : Account) (index : ℕ) (shares : ℤ) (s : Bool) (k : ℕ)
    → qty_at (reduced a index shares) s k ≡ qty_at (lowered a index shares) s k
qty_at-reduced a index shares s k =
    elim (Bool-cases (eqb_ℤ (left (order_at a index) shares).remaining (pos 0))) [
      | inl e ↦
          ap
            (λ b.
              qty_at (if b then removed (lowered a index shares) index else lowered a index shares)
                s k)
            e
          ∙ qty_at-removed (lowered a index shares) index s k
      | inr e ↦
          ap
            (λ b.
              qty_at (if b then removed (lowered a index shares) index else lowered a index shares)
                s k)
            e
    ]

module _ (a : Account) (index n : ℕ) (v : IsAccount a) (h : index < a.live_count)
    (some_shares : 0 < n) (le : n ≤ pos_part (order_at a index).remaining) where
  abbrev o : Live
  o = order_at a index

  pub o-IsLive : IsLive o
  o-IsLive = v.each index h

  pub rest_size : (left o (pos n)).remaining ≡ pos (pos_part o.remaining - n)
  rest_size = remaining_left o (pos n) (v.each index h) refl le

  -- The level of the order has at least its shares.
  pub enough : (s : Bool) (k : ℕ) → is_at s k o ≡ true → n ≤ live_total a s k
  enough s k e =
      let moved =
        total-take-set s k a.live a.live_count index (left o (pos n)) h
          (omega (arith, v.sums.room, v.sums.few)) in
      let moved' : _ + pos_part o.remaining
          ≡ live_total a s k + pos_part (left o (pos n)).remaining =
        simp e at moved in
      omega (arith, moved', ap pos_part rest_size, le)

  pub live_total-reduced :
      (s : Bool) (k : ℕ)
      → k < 5
      → live_total (reduced a index (pos n)) s k
        ≡ (if is_at s k (order_at a index) then live_total a s k - n else live_total a s k)
  live_total-reduced s k lt =
      let f : ℤ → ℤ = λ q. wrap32 (q -ℤ pos n) in
      let a0 : Account = record a { live = set a.live index (left o (pos n)) } in
      let same = qty_at-live a (set a.live index (left o (pos n))) s k ∙ v.sums.totals s k lt in
      let size = v.sums.level_counts o.bid in
      let count : o.level < length (qty_of a0 o.bid) = level_there o.bid in
      let sum : pos (live_total (reduced a index (pos n)) s k)
          ≡ (if is_at s k o then f (qty_at a0 s k) else qty_at a0 s k) =
        sym ((reduced-IsAccount a index (pos n) v h refl le).sums.totals s k lt)
        ∙ qty_at-reduced a index (pos n) s k
        ∙ change_at a0 o f s k count in
      elim (Bool-cases (is_at s k o)) [
        | inl e ↦ simp e (
            ap pos_part (
              sum
              ∙ ap (λ b. if b then f (qty_at a0 s k) else qty_at a0 s k) e
              ∙ ap f same
              ∙ wrap_sub (live_total a s k) (pos n) refl (enough s k e)
                  (omega (arith, live_total-le a s k v))))
        | inr e ↦
            simp e (
              ap pos_part (sum ∙ ap (λ b. if b then f (qty_at a0 s k) else qty_at a0 s k) e ∙ same))
      ]
    where
      level_there :
          (b : Bool)
          → o.level < length (qty_of (record a { live = set a.live index (left o (pos n)) }) b)
      level_there true = omega (arith, v.sums.level_counts true, o-IsLive.level_lt)
      level_there false = omega (arith, v.sums.level_counts false, o-IsLive.level_lt)
