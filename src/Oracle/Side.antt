-- ===== src/Oracle/Side.antt =====
-- A side of the book that shows the totals of the price levels of the synthetic stream.
use fpga_sim_core.Prelude.{
  ℕ, zero, suc, ◌<◌, ◌≤◌, ◌≡◌, ◌∙◌, refl, ap, subst, inl, inr, true, false, Bool-cases, none, [],
  ◌∷◌, arith, length, if◌then◌else◌, ℕ_discrete,
}
use fpga_sim_core.Prelude.Int.{ℤ, eqb_ℤ, eqb_ℤ_refl}
use fpga_sim_core.Book.{BookLevel, Side}
use fpga_sim_core.Book.View.{depth, has_room, is_some, IsSound, IsValid}

-- How many of the first `n` of the prices have a level.
unfoldable pub shown : (ℕ → ℤ) → ℕ → Side → ℕ
shown p zero side = 0
shown p (suc n) side =
    let rest = shown p n side in if is_some (depth (p n) side) then suc rest else rest

module _ (p : ℕ → ℤ) where
  shown-empty : (n : ℕ) → shown p n [] ≡ 0
  unfolding shown depth
  shown-empty zero = refl
  shown-empty (suc n) = shown-empty n

  shown-le : (n : ℕ) (side : Side) → shown p n side ≤ n
  unfolding shown
  shown-le zero side = omega arith
  shown-le (suc n) side = let ih = shown-le n side in ground (arith, ih)

  -- A price without a level leaves one fewer.
  pub shown-lt :
      (n : ℕ) (side : Side) (l : ℕ) → l < n → depth (p l) side ≡ none → shown p n side < n
  unfolding shown
  shown-lt zero side l h e = absurd (omega (arith, h))
  shown-lt (suc n) side l h e = elim (ℕ_discrete l n) [
    | yes same ↦
        let e' : depth (p n) side ≡ none = subst (λ k. depth (p k) side ≡ none) same e in
        rw e' (omega (arith, shown-le n side))
    | no ne ↦ let ih = shown-lt n side l (omega (arith, h, ne)) e in ground (arith, ih)
  ]

  is_some-front :
      (l : BookLevel) (ls : Side) (q : ℤ)
      → is_some (depth q ls) ≡ true
      → is_some (depth q (l ∷ ls)) ≡ true
  unfolding depth
  is_some-front l ls q h = ground (arith, h)

  shown-front : (n : ℕ) (l : BookLevel) (ls : Side) → shown p n ls ≤ shown p n (l ∷ ls)
  unfolding shown
  shown-front zero l ls = omega arith
  shown-front (suc n) l ls =
      let ih = shown-front n l ls in
      elim (Bool-cases (is_some (depth (p n) ls))) [
        | inl e ↦ simp (e, is_some-front l ls (p n) e) (omega (arith, ih))
        | inr e ↦ simp e (ground (arith, ih))
      ]

  shown-used :
      (n : ℕ) (l : BookLevel) (ls : Side) (k : ℕ)
      → k < n
      → l.valid ≡ true
      → l.price ≡ p k
      → depth l.price ls ≡ none
      → shown p n ls < shown p n (l ∷ ls)
  unfolding shown depth
  shown-used zero l ls k h used e new = absurd (omega (arith, h))
  shown-used (suc n) l ls k h used e new = elim (ℕ_discrete k n) [
    | yes same ↦
        let here : l.price ≡ p n = e ∙ ap p same in
        let front = shown-front n l ls in
        let hit : eqb_ℤ l.price (p n) ≡ true =
          subst (λ q. eqb_ℤ l.price q ≡ true) here (eqb_ℤ_refl l.price) in
        let behind : depth (p n) ls ≡ none = subst (λ q. depth q ls ≡ none) here new in
        simp (behind, used, hit) (omega (arith, front))
    | no ne ↦
        let ih = shown-used n l ls k (omega (arith, h, ne)) used e new in
        elim (Bool-cases (is_some (depth (p n) ls))) [
          | inl f ↦ simp (f, is_some-front l ls (p n) f) (omega (arith, ih))
          | inr f ↦ simp f (ground (arith, ih))
        ]
  ]

  -- Every level in use has one of the first `n` prices.
  abbrev pub Known : ℕ → Side → Type 0
  Known n side = (q : ℤ) → is_some (depth q side) ≡ true → (l : ℕ) × (l < n) × (q ≡ p l)

  Known-rest : (n : ℕ) (l : BookLevel) (ls : Side) → Known n (l ∷ ls) → Known n ls
  Known-rest n l ls k = λ q h. k q (is_some-front l ls q h)

  front_some :
      (l : BookLevel) (ls : Side) → l.valid ≡ true → is_some (depth l.price (l ∷ ls)) ≡ true
  unfolding depth
  front_some l ls used = simp (used, eqb_ℤ_refl l.price) refl

  full :
      (n : ℕ) (side : Side)
      → IsValid side
      → Known n side
      → has_room side ≡ false
      → length side ≤ shown p n side
  unfolding has_room
  full n [] v k f = omega arith
  full n (l ∷ ls) v k f =
      let used : l.valid ≡ true = ground (arith, f) in
      let s = subst (λ b. IsSound b l ls) used v.0 in
      let (j, lt, e) = k l.price (front_some l ls used) in
      let ih = full n ls v.1 (Known-rest n l ls k) (ground (arith, f)) in
      omega (arith, ih, shown-used n l ls j lt used e s.2)

  -- A side with as many levels as there are prices has room for one that has no level.
  pub room_for :
      (n : ℕ) (side : Side) (l : ℕ)
      → IsValid side
      → Known n side
      → n ≤ length side
      → l < n
      → depth (p l) side ≡ none
      → has_room side ≡ true
  room_for n side l v k size h e = elim (Bool-cases (has_room side)) [
    | inl room ↦ room
    | inr none_left ↦ absurd (omega (arith, full n side v k none_left, shown-lt n side l h e, size))
  ]
