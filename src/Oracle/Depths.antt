-- ===== src/Oracle/Depths.antt =====
-- A book that shows the totals of the price levels, under `add` and `execute`.
use fpga_sim_core.Prelude.{
  eqb, ℕ, zero, suc, ◌+◌, ◌-◌, ◌*◌, ◌^◌, ◌<◌, ◌≤◌, ◌≡◌, ◌∙◌, refl, ap, sym, subst, inl, inr, Bool,
  true, false, ◌&&◌, Bool-cases, Option, none, some, arith, length, ◌==◌, if◌then◌else◌,
}
use fpga_sim_core.Prelude.Int.{
  ℤ, pos, ◌+ℤ◌, ◌-ℤ◌, leb_ℤ, eqb_ℤ, eqb_ℤ→eq, kept_total, kept_pos, IsInt32, wrap32-id, +ℤ_parts,
  -ℤ_parts, eq_of_parts,
}
use fpga_sim_core.Book
use fpga_sim_core.Book.{
  BookLevel, Side, FiveLevelOrderBook, add_side, executed_level, execute_side, with_bids, with_asks,
}
use fpga_sim_core.Book.View.{depth, is_some, IsValid, added, reduced}
use fpga_sim_core.Book.Keep.{side_of, same, fits, add_lem, execute_lem}
use fpga_sim_core.Book.Sound.{IsSoundBook, SumFits, add-IsSoundBook, execute-IsSoundBook}
use fpga_sim_core.Oracle.Side.{Known, room_for}
use fpga_sim_core.Oracle.Sizes.{length-add, length-execute}

-- The price of a level, without the arithmetic of `std::int32_t`.
abbrev pub level_at : Bool → ℕ → ℤ
level_at true l = pos (1892500 - 100 * l)
level_at false l = pos (1893000 + 100 * l)

pub record Shows (t : ℕ → ℕ) (bid : Bool) (side : Side) : Type 0 where
  pub valid : IsValid side
  pub size : length side ≡ 5
  pub depths : (l : ℕ) → l < 5 → depth (level_at bid l) side ≡ kept_total (t l)
  pub known : Known (level_at bid) 5 side

abbrev pub ShowsBook : (Bool → ℕ → ℕ) → FiveLevelOrderBook → Type 0
ShowsBook t b = (s : Bool) → Shows (t s) s (side_of s b)

level_at-eq :
    (bid s : Bool) (l k : ℕ)
    → l < 5
    → k < 5
    → (same bid s && eqb_ℤ (level_at bid l) (level_at s k)) ≡ (same bid s && l == k)
level_at-eq true true l k h h' = ground (arith, h, h')
level_at-eq true false l k h h' = refl
level_at-eq false true l k h h' = refl
level_at-eq false false l k h h' = ground (arith, h, h')

at_level :
    (bid s : Bool) (l : ℕ) (q : ℤ)
    → (same bid s && eqb_ℤ (level_at bid l) q) ≡ true
    → q ≡ level_at s l
at_level true true l q h = sym (eqb_ℤ→eq (level_at true l) q h)
at_level true false l q h = absurd (ground (arith, h))
at_level false true l q h = absurd (ground (arith, h))
at_level false false l q h = sym (eqb_ℤ→eq (level_at false l) q h)

sound_of : (b : FiveLevelOrderBook) (s : Bool) → IsSoundBook b → IsValid (side_of s b)
sound_of b true v = v.0
sound_of b false v = v.1

pub Shows-IsSoundBook : (t : Bool → ℕ → ℕ) (b : FiveLevelOrderBook) → ShowsBook t b → IsSoundBook b
Shows-IsSoundBook t b w = ((w true).valid, (w false).valid)

-- A change at one level of one side.
changed-Shows :
    (t t' : Bool → ℕ → ℕ) (b b' : FiveLevelOrderBook) (bid : Bool) (l : ℕ) (v : Option ℤ)
    → l < 5
    → ShowsBook t b
    → IsSoundBook b'
    → ((s : Bool) → length (side_of s b') ≡ length (side_of s b))
    → ((s : Bool) (q : ℤ)
        → depth q (side_of s b')
          ≡ (if same bid s && eqb_ℤ (level_at bid l) q then v else depth q (side_of s b)))
    → ((s : Bool) (k : ℕ)
        → k < 5
        → kept_total (t' s k) ≡ (if same bid s && l == k then v else kept_total (t s k)))
    → ShowsBook t' b'
changed-Shows t t' b b' bid l v h w sound size step total = λ s. record {
  valid = sound_of b' s sound;
  size = size s ∙ (w s).size;
  depths = λ k h'.
      step s (level_at s k)
      ∙ ap (λ c. if c then v else depth (level_at s k) (side_of s b)) (level_at-eq bid s l k h h')
      ∙ ap (λ d. if same bid s && l == k then v else d) ((w s).depths k h')
      ∙ sym (total s k h');
  known = λ q found. elim (Bool-cases (same bid s && eqb_ℤ (level_at bid l) q)) [
    | inl e ↦ (l, h, at_level bid s l q e)
    | inr e ↦
        (w s).known q
          (sym (ap is_some (step s q ∙ ap (λ c. if c then v else depth q (side_of s b)) e)) ∙ found)
  ];
}

kept_total-added :
    (t n : ℕ)
    → 0 < n
    → t + n < 2 ^ 31
    → (some (added (kept_total t) (pos n)) ≡ kept_total (t + n)) × SumFits (kept_total t) (pos n)
kept_total-added zero n h fit = (sym (kept_pos n h) ∙ ap kept_total (omega arith), tt)
kept_total-added (suc t) n h fit =
    let e : pos (suc t) +ℤ pos n ≡ pos (suc t + n) =
      eq_of_parts (pos (suc t) +ℤ pos n) (pos (suc t + n))
        (omega (arith, +ℤ_parts (pos (suc t)) (pos n))) in
    let small : IsInt32 (pos (suc t + n)) = (omega (arith, fit), omega arith) in
    let i : IsInt32 (pos (suc t) +ℤ pos n) = subst IsInt32 (sym e) small in
    (ap some (wrap32-id (pos (suc t) +ℤ pos n) i ∙ e) ∙ sym (kept_pos (suc t + n) (omega arith)), i)

kept_total-reduced : (t n : ℕ) → 0 < n → n ≤ t → reduced (kept_total t) (pos n) ≡ kept_total (t - n)
kept_total-reduced zero n h le = absurd (omega (arith, h, le))
kept_total-reduced (suc t) n h le =
    let e : pos (suc t) -ℤ pos n ≡ pos (suc t - n) =
      eq_of_parts (pos (suc t) -ℤ pos n) (pos (suc t - n))
        (omega (arith, -ℤ_parts (pos (suc t)) (pos n), le)) in
    rw e (go (suc t - n))
  where
    go : (m : ℕ) → (if leb_ℤ (pos m) (pos 0) then none else some (pos m)) ≡ kept_total m
    go zero = refl
    go (suc m) = ground arith

kept_total-if :
    (c : Bool) (m k : ℕ)
    → kept_total (if c then m else k) ≡ (if c then kept_total m else kept_total k)
kept_total-if true m k = refl
kept_total-if false m k = refl

-- The same condition on a level, told by what stands at the level itself.
at_here :
    (t : Bool → ℕ → ℕ) (f : ℕ → ℕ) (bid s : Bool) (l k : ℕ)
    → (if eqb bid s && l == k then f (t s k) else t s k)
      ≡ (if same bid s && l == k then f (t bid l) else t s k)
at_here t f true true l k = elim (Bool-cases (l == k)) [
  | inl e ↦ let e' : l ≡ k = ground (arith, e) in simp e (ap (λ j. f (t true j)) (sym e'))
  | inr e ↦ simp e refl
]
at_here t f true false l k = refl
at_here t f false true l k = refl
at_here t f false false l k = elim (Bool-cases (l == k)) [
  | inl e ↦ let e' : l ≡ k = ground (arith, e) in simp e (ap (λ j. f (t false j)) (sym e'))
  | inr e ↦ simp e refl
]

-- An add of `n` shares at a level: never dropped.
pub add-Shows :
    (t t' : Bool → ℕ → ℕ) (b : FiveLevelOrderBook) (bid : Bool) (l n : ℕ)
    → l < 5
    → 0 < n
    → t bid l + n < 2 ^ 31
    → ((s : Bool) (k : ℕ) → k < 5 → t' s k ≡ (if eqb bid s && l == k then t s k + n else t s k))
    → ShowsBook t b
    → let b' = Book.add b bid (level_at bid l) (pos n) in
      ShowsBook t' b' × (b'.overflow_count ≡ b.overflow_count)
add-Shows t t' b bid l n h some_shares fit total w =
    let price = level_at bid l in
    let at = (w bid).depths l h in
    let sum = kept_total-added (t bid l) n some_shares fit in
    let place : fits b bid price ≡ true =
      elim (Bool-cases (is_some (depth price (side_of bid b)))) [
        | inl e ↦ simp e refl
        | inr e ↦ simp e (
            room_for (level_at bid) 5 (side_of bid b) l (w bid).valid (w bid).known
              (omega (arith, (w bid).size)) h (absent (depth price (side_of bid b)) e))
      ] in
    (
      changed-Shows t t' b (Book.add b bid price (pos n)) bid l (kept_total (t bid l + n)) h w
          (add-IsSoundBook b bid price (pos n) (Shows-IsSoundBook t b w)
            (omega (arith, some_shares)) (omega (arith, fit), omega arith)
            (subst (λ d. SumFits d (pos n)) (sym at) sum.1))
          (length-add b bid price (pos n))
          (λ s q.
            (add_lem b bid price (pos n) s q).0
            ∙ ap
                (λ c.
                  if c && same bid s && eqb_ℤ price q
                  then some (added (depth price (side_of bid b)) (pos n))
                  else depth q (side_of s b))
                place
            ∙ ap (λ d. if same bid s && eqb_ℤ price q then d else depth q (side_of s b))
                (ap (λ d. some (added d (pos n))) at ∙ sum.0))
          (λ s k h'.
            ap kept_total (total s k h' ∙ at_here t (λ m. m + n) bid s l k)
            ∙ kept_total-if (same bid s && l == k) (t bid l + n) (t s k)),
      (add_lem b bid price (pos n) bid price).1 ∙ simp place refl,
    )
  where
    absent : (d : Option ℤ) → is_some d ≡ false → d ≡ none
    absent none e = refl
    absent (some z) e = absurd (ground (arith, e))

-- An execution of `n` shares at a level that has as many.
pub execute-Shows :
    (t t' : Bool → ℕ → ℕ) (b : FiveLevelOrderBook) (bid : Bool) (l n : ℕ)
    → l < 5
    → 0 < n
    → n ≤ t bid l
    → n < 2 ^ 31
    → ((s : Bool) (k : ℕ) → k < 5 → t' s k ≡ (if eqb bid s && l == k then t s k - n else t s k))
    → ShowsBook t b
    → let b' = Book.execute b bid (level_at bid l) (pos n) in
      ShowsBook t' b' × (b'.overflow_count ≡ b.overflow_count)
execute-Shows t t' b bid l n h some_shares le small total w =
    let price = level_at bid l in
    let sound = Shows-IsSoundBook t b w in
    let i : IsInt32 (pos n) = (omega (arith, small), omega arith) in
    let at = (w bid).depths l h in
    let run =
      λ (s : Bool) (q : ℤ). execute_lem b bid price (pos n) s q (w bid).valid (omega arith) i in
    (
      changed-Shows t t' b (Book.execute b bid price (pos n)) bid l (kept_total (t bid l - n)) h w
          (execute-IsSoundBook b bid price (pos n) sound (omega arith) i)
          (length-execute b bid price (pos n))
          (λ s q.
            (run s q).0
            ∙ ap (λ d. if same bid s && eqb_ℤ price q then d else depth q (side_of s b))
                (ap (λ d. reduced d (pos n)) at ∙ kept_total-reduced (t bid l) n some_shares le))
          (λ s k h'.
            ap kept_total (total s k h' ∙ at_here t (λ m. m - n) bid s l k)
            ∙ kept_total-if (same bid s && l == k) (t bid l - n) (t s k)),
      (run bid price).1,
    )
