-- ===== src/Stream/Synthetic/Lowered.antt =====
-- A reduced order keeps the account.
use fpga_sim_core.Prelude.{
  ℕ, ◌+◌, ◌-◌, ◌≤◌, ◌<◌, ◌≡◌, ◌≢◌, ◌∙◌, ap, sym, subst, inl, inr, false, Bool-cases, arith,
  length-set, set, get_or, get_or-set_self, get_or-set_ne, if◌then◌else◌, ℕ_discrete,
}
use fpga_sim_core.Prelude.Int.{
  ℤ, pos, pos_part, neg_part, eqb_ℤ, ◌-ℤ◌, wrap32, wrap32-id, -ℤ_parts, eq_of_parts,
}
use fpga_sim_core.Stream.Synthetic.{Live, blank_live}
use fpga_sim_core.Stream.Synthetic.Account.{
  Account, order_at, is_at, live_total, IsLive, IsSummed, IsAccount, total-take-set, total-le,
  change, change-live, change-live_count,
}
use fpga_sim_core.Stream.Synthetic.Kept.{wrap_sub, change-IsSummed, removed, removed-IsAccount}

abbrev pub left : Live → ℤ → Live
left o shares = record o { remaining = wrap32 (o.remaining -ℤ shares) }

abbrev pub lowered : Account → ℕ → ℤ → Account
lowered a index shares =
    let o : Live = order_at a index in
    change (record a { live = set a.live index (left o shares) }) o.bid o.level
      (λ q. wrap32 (q -ℤ shares))

abbrev pub reduced : Account → ℕ → ℤ → Account
reduced a index shares =
    let a1 : Account = lowered a index shares in
    if eqb_ℤ (left (order_at a index) shares).remaining (pos 0) then removed a1 index else a1

pub remaining_left :
    (o : Live) (shares : ℤ)
    → IsLive o
    → neg_part shares ≡ 0
    → pos_part shares ≤ pos_part o.remaining
    → (left o shares).remaining ≡ pos (pos_part o.remaining - pos_part shares)
remaining_left o shares v n le =
    let e : o.remaining -ℤ shares ≡ pos (pos_part o.remaining - pos_part shares) =
      eq_of_parts (o.remaining -ℤ shares) (pos (pos_part o.remaining - pos_part shares))
        (omega (arith, -ℤ_parts o.remaining shares, n, le, v.natural)) in
    ap wrap32 e
    ∙ wrap32-id (pos (pos_part o.remaining - pos_part shares))
        (omega (arith, v.few_left), omega arith)

module _ (a : Account) (index : ℕ) (shares : ℤ) (i : IsAccount a) (h : index < a.live_count)
    (n : neg_part shares ≡ 0) (le : pos_part shares ≤ pos_part (order_at a index).remaining) where
  o : Live
  o = order_at a index

  lowered-IsSummed : IsSummed (lowered a index shares)
  unfolding o
  lowered-IsSummed =
      let a1 : Account = record a { live = set a.live index (left o shares) } in
      let f : ℤ → ℤ = λ q. wrap32 (q -ℤ shares) in
      let rest = ap pos_part (remaining_left o shares (i.each index h) n le) in
      change-IsSummed a1 o f (length-set a.live index (left o shares) ∙ i.sums.room) i.sums.few
        i.sums.level_counts (i.each index h).level_lt
        (λ bid l k.
          let moved =
            total-take-set bid l a.live a.live_count index (left o shares) h
              (omega (arith, i.sums.room, i.sums.few)) in
          let old = i.sums.totals bid l k in
          let bound =
            total-le bid l a.live a.live_count (omega (arith, i.sums.room, i.sums.few)) i.each in
          elim (Bool-cases (is_at bid l o)) [
            | inl e ↦
                let moved' : live_total a1 bid l + pos_part o.remaining
                    ≡ live_total a bid l + pos_part (left o shares).remaining =
                  simp e at moved in
                simp e (
                  ap f old
                  ∙ wrap_sub (live_total a bid l) shares n (omega (arith, moved', rest, le))
                      (omega (arith, bound, i.sums.few))
                  ∙ ap pos (omega (arith, moved', rest, le)))
            | inr e ↦
                let moved' : live_total a1 bid l + 0 ≡ live_total a bid l + 0 = simp e at moved in
                simp e (old ∙ ap pos (omega (arith, moved')))
          ])

  order-lowered :
      (j : ℕ)
      → order_at (lowered a index shares) j ≡ get_or (set a.live index (left o shares)) j blank_live
  unfolding o
  order-lowered j =
      ap (λ os. get_or os j blank_live)
        (change-live (record a { live = set a.live index (left o shares) }) o.bid o.level
          (λ q. wrap32 (q -ℤ shares)))

  order_self : order_at (lowered a index shares) index ≡ left o shares
  unfolding o
  order_self =
      order-lowered index
      ∙ get_or-set_self a.live index (left o shares) blank_live
          (omega (arith, h, i.sums.room, i.sums.few))

  count : (lowered a index shares).live_count ≡ a.live_count
  unfolding o
  count =
      change-live_count (record a { live = set a.live index (left o shares) }) o.bid o.level
        (λ q. wrap32 (q -ℤ shares))

  others :
      (j : ℕ)
      → j < (lowered a index shares).live_count
      → j ≢ index
      → IsLive (order_at (lowered a index shares) j)
  others j k ne =
      subst IsLive
        (sym (order-lowered j ∙ get_or-set_ne a.live (left o shares) blank_live (λ e. ne (sym e))))
        (i.each j (omega (arith, k, count)))

  lowered-IsAccount :
      eqb_ℤ (left (order_at a index) shares).remaining (pos 0) ≡ false
      → IsAccount (lowered a index shares)
  unfolding o
  lowered-IsAccount some_left =
      let rest = remaining_left o shares (i.each index h) n le in
      let v = i.each index h in
      record {
        sums = lowered-IsSummed;
        each = λ j k. elim (ℕ_discrete j index) [
          | yes e ↦
              subst IsLive (sym (ap (order_at (lowered a index shares)) e ∙ order_self)) (record {
                level_lt = v.level_lt;
                some_left = ground (arith, some_left, rest);
                few_left = omega (arith, ap pos_part rest, v.few_left);
                natural = ap neg_part rest;
                fits = v.fits;
              })
          | no ne ↦ others j k ne
        ];
      }

  pub reduced-IsAccount : IsAccount (reduced a index shares)
  unfolding o
  reduced-IsAccount = elim (Bool-cases (eqb_ℤ (left o shares).remaining (pos 0))) [
    | inl e ↦
        subst
          (λ b.
            IsAccount
              (if b then removed (lowered a index shares) index else lowered a index shares))
          (sym e)
          (removed-IsAccount (lowered a index shares) index lowered-IsSummed others
            (omega (arith, h, count))
            (ap (λ (u : Live). pos_part u.remaining) order_self ∙ ground (arith, e)))
    | inr e ↦
        subst
          (λ b.
            IsAccount
              (if b then removed (lowered a index shares) index else lowered a index shares))
          (sym e) (lowered-IsAccount e)
  ]

-- Reducing an order adds none.
pub reduced-count :
    (a : Account) (index : ℕ) (shares : ℤ)
    → IsAccount a
    → index < a.live_count
    → (reduced a index shares).live_count ≤ a.live_count
reduced-count a index shares i h =
    let o : Live = order_at a index in
    let count =
      change-live_count (record a { live = set a.live index (left o shares) }) o.bid o.level
        (λ q. wrap32 (q -ℤ shares)) in
    elim (Bool-cases (eqb_ℤ (left o shares).remaining (pos 0))) [
      | inl e ↦ simp e (omega (arith, count, h, i.sums.few))
      | inr e ↦ simp e (omega (arith, count))
    ]
