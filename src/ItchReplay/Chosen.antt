-- ===== src/ItchReplay/Chosen.antt =====
-- The stock that is followed where none is named.
use fpga_sim_core.Prelude.{
  ℕ, suc, ◌+◌, ◌%◌, ◌^◌, ◌<◌, ◌≤◌, ◌≡◌, ◌⊎◌, ◌∙◌, refl, ap, sym, inl, inr, Bool, true, false, ◌&&◌,
  Bool-cases, some, List, [], ◌∷◌, arith, length, ltb, ◌==◌, if◌then◌else◌,
}
use fpga_sim_core.FullBook.{locate_of}
use fpga_sim_core.ItchReplay.{Framed, is_add}
use fpga_sim_core.ItchReplay.Maps.{
  value_at, value_at-put, value_at-Above, IsAscending, put-IsAscending,
}
use fpga_sim_core.ItchReplay.Survey.{
  Survey, no_survey, bump, type_of, observe, survey, busiest, choose_locate,
}

-- How many of the messages add an order of a stock.
unfoldable pub adds_of : ℕ → List Framed → ℕ
adds_of l [] = 0
adds_of l (m ∷ ms) =
    let rest = adds_of l ms in
    if is_add (type_of m) && locate_of m.bytes == l then suc rest else rest

observe-adds :
    (s : Survey) (m : Framed) (l : ℕ)
    → value_at (observe s m).adds_by_locate l 0 ≡ (
        if is_add (type_of m) && locate_of m.bytes == l
        then (value_at s.adds_by_locate (locate_of m.bytes) 0 + 1) % 2 ^ 64
        else value_at s.adds_by_locate l 0)
unfolding observe bump
observe-adds s m l = elim (Bool-cases (is_add (type_of m))) [
  | inl e ↦ simp e (value_at-put s.adds_by_locate (locate_of m.bytes) _ l 0)
  | inr e ↦ simp e refl
]

observe-IsAscending :
    (s : Survey) (m : Framed)
    → IsAscending s.adds_by_locate
    → IsAscending (observe s m).adds_by_locate
unfolding observe bump
observe-IsAscending s m a = elim (Bool-cases (is_add (type_of m))) [
  | inl e ↦ simp e (put-IsAscending s.adds_by_locate (locate_of m.bytes) _ a)
  | inr e ↦ simp e a
]

survey-IsAscending :
    (ms : List Framed) (s : Survey)
    → IsAscending s.adds_by_locate
    → IsAscending (survey s ms).adds_by_locate
unfolding survey
survey-IsAscending [] s a = a
survey-IsAscending (m ∷ ms) s a = survey-IsAscending ms (observe s m) (observe-IsAscending s m a)

observe-adds_few :
    (s : Survey) (m : Framed) (l : ℕ)
    → value_at s.adds_by_locate (locate_of m.bytes) 0 + 1 < 2 ^ 64
    → value_at (observe s m).adds_by_locate l 0 ≡ (
        if is_add (type_of m) && locate_of m.bytes == l
        then value_at s.adds_by_locate l 0 + 1
        else value_at s.adds_by_locate l 0)
observe-adds_few s m l few =
    observe-adds s m l ∙ elim (Bool-cases (is_add (type_of m) && locate_of m.bytes == l)) [
      | inl e ↦
          let same : locate_of m.bytes ≡ l = ground (arith, e) in
          simp e (omega (arith, few, ap (λ k. value_at s.adds_by_locate k 0) same))
      | inr e ↦ simp e refl
    ]

adds_of-front :
    (l : ℕ) (m : Framed) (ms : List Framed)
    → adds_of l (m ∷ ms)
      ≡ (if is_add (type_of m) && locate_of m.bytes == l then suc (adds_of l ms) else adds_of l ms)
unfolding adds_of
adds_of-front l m ms = refl

adds_of_none : (l : ℕ) → adds_of l [] ≡ 0
unfolding adds_of
adds_of_none l = refl

shifted : (c : Bool) (n k : ℕ) → (if c then n + 1 else n) + k ≡ n + (if c then suc k else k)
shifted true n k = omega arith
shifted false n k = refl

at_most : (c : Bool) (a b n : ℕ) → a ≡ (if c then b + 1 else b) → b ≤ n → a ≤ n + 1
at_most true a b n e h = omega (arith, e, h)
at_most false a b n e h = omega (arith, e, h)

-- The map holds the numbers of adds, as long as no counter wraps around.
survey-adds :
    (ms : List Framed) (s : Survey) (n : ℕ)
    → ((l : ℕ) → value_at s.adds_by_locate l 0 ≤ n)
    → n + length ms < 2 ^ 64
    → (l : ℕ)
    → value_at (survey s ms).adds_by_locate l 0 ≡ value_at s.adds_by_locate l 0 + adds_of l ms
unfolding survey
survey-adds [] s n few h l = none_added l (value_at s.adds_by_locate l 0)
  where
    none_added : (l k : ℕ) → k ≡ k + adds_of l []
    none_added l k = omega (arith, adds_of_none l)
survey-adds (m ∷ ms) s n few h l =
    let step = λ (k : ℕ). observe-adds_few s m k (omega (arith, few (locate_of m.bytes), h)) in
    survey-adds ms (observe s m) (n + 1)
      (λ k.
        at_most (is_add (type_of m) && locate_of m.bytes == k) _ (value_at s.adds_by_locate k 0) n
          (step k) (few k))
      (omega (arith, h)) l
    ∙ ap (λ k. k + adds_of l ms) (step l)
    ∙ shifted (is_add (type_of m) && locate_of m.bytes == l) (value_at s.adds_by_locate l 0)
        (adds_of l ms)
    ∙ ap (λ k. value_at s.adds_by_locate l 0 + k) (sym (adds_of-front l m ms))

-- Where the loop ends: where it began if no count is larger, or at a stock with the largest count.
abbrev Most : List (ℕ × ℕ) → ℕ → ℕ → ℕ → Type 0
Most m best locate r =
    (((l : ℕ) → value_at m l 0 ≤ best) × (r ≡ locate))
    ⊎ ((best < value_at m r 0) × ((l : ℕ) → value_at m l 0 ≤ value_at m r 0))

value_at-behind :
    (k n : ℕ) (m : List (ℕ × ℕ)) (r : ℕ)
    → value_at m k 0 ≡ 0
    → 0 < value_at m r 0
    → value_at ((k, n) ∷ m) r 0 ≡ value_at m r 0
unfolding value_at
value_at-behind k n m r absent h = elim (Bool-cases (k == r)) [
  | inl e ↦
      let same : k ≡ r = ground (arith, e) in
      absurd (omega (arith, absent, h, ap (λ x. value_at m x 0) same))
  | inr e ↦ simp e refl
]

value_at-le :
    (k n : ℕ) (m : List (ℕ × ℕ)) (l b : ℕ)
    → n ≤ b
    → value_at m l 0 ≤ b
    → value_at ((k, n) ∷ m) l 0 ≤ b
unfolding value_at
value_at-le k n m l b h h' = elim (Bool-cases (k == l)) [ inl e ↦ simp e h | inr e ↦ simp e h' ]

value_at-front : (k n : ℕ) (m : List (ℕ × ℕ)) (r : ℕ) → r ≡ k → value_at ((k, n) ∷ m) r 0 ≡ n
unfolding value_at
value_at-front k n m r e = let hit : (k == r) ≡ true = ground (arith, e) in simp hit refl

Most-larger :
    (k n : ℕ) (m : List (ℕ × ℕ)) (best locate r : ℕ)
    → value_at m k 0 ≡ 0
    → best < n
    → Most m n k r
    → Most ((k, n) ∷ m) best locate r
Most-larger k n m best locate r absent h (inl (most, e)) =
    let here = value_at-front k n m r e in
    inr (
      omega (arith, here, h),
      λ l. omega (arith, here, value_at-le k n m l n (omega arith) (most l)),
    )
Most-larger k n m best locate r absent h (inr (more, most)) =
    let here = value_at-behind k n m r absent (omega (arith, more)) in
    inr (
      omega (arith, here, h, more),
      λ l. omega (arith, here, value_at-le k n m l (value_at m r 0) (omega (arith, more)) (most l)),
    )

Most-smaller :
    (k n : ℕ) (m : List (ℕ × ℕ)) (best locate r : ℕ)
    → value_at m k 0 ≡ 0
    → n ≤ best
    → Most m best locate r
    → Most ((k, n) ∷ m) best locate r
Most-smaller k n m best locate r absent h (inl (most, e)) =
    inl (λ l. value_at-le k n m l best h (most l), e)
Most-smaller k n m best locate r absent h (inr (more, most)) =
    let here = value_at-behind k n m r absent (omega (arith, more)) in
    inr (
      omega (arith, here, more),
      λ l.
          omega
            (arith, here, value_at-le k n m l (value_at m r 0) (omega (arith, more, h)) (most l)),
    )

busiest-Most :
    (m : List (ℕ × ℕ)) (best locate : ℕ)
    → IsAscending m
    → Most m best locate (busiest m best locate)
unfolding busiest
busiest-Most [] best locate a = inl (λ l. at_none l best, refl)
  where
    at_none : (l b : ℕ) → value_at [] l 0 ≤ b
    at_none l b = omega (arith, value_at-Above {A = ℕ} l [] 0 tt)
busiest-Most ((k, n) ∷ m) best locate a =
    let absent = value_at-Above k m 0 a.0 in
    elim (Bool-cases (ltb best n)) [
      | inl e ↦ simp e (
          Most-larger k n m best locate (busiest m n k) absent (ground (arith, e))
            (busiest-Most m n k a.1))
      | inr e ↦ simp e (
          Most-smaller k n m best locate (busiest m best locate) absent (ground (arith, e))
            (busiest-Most m best locate a.1))
    ]

-- Where no stock is named, the stock that is followed has at least as many adds in the file as any other.
-- The file has less than 2 ^ 64 messages.
pub choose_locate-most :
    (ms : List Framed) (l : ℕ)
    → length ms < 2 ^ 64
    → (r : ℕ) × (choose_locate (survey no_survey ms) [] ≡ some r) × (adds_of l ms ≤ adds_of r ms)
unfolding choose_locate
choose_locate-most ms l h =
    let m = (survey no_survey ms).adds_by_locate in
    let count = survey-adds ms no_survey 0 (λ k. empty_at k) (omega (arith, h)) in
    let r = busiest m 0 0 in
    (
      r,
      refl,
      elim (busiest-Most m 0 0 (survey-IsAscending ms no_survey tt)) [
        | inl f ↦ omega (arith, count l, count r, f.0 l, empty_at l, empty_at r)
        | inr f ↦ omega (arith, count l, count r, f.1 l, empty_at l, empty_at r)
      ],
    )
  where
    empty_at : (k : ℕ) → value_at no_survey.adds_by_locate k 0 ≤ 0
    empty_at k = omega (arith, value_at-Above k no_survey.adds_by_locate 0 tt)
