-- ===== src/ItchReplay/Maps.antt =====
-- `std::map` with numbers as keys: the list of its entries in the order of the keys.
use fpga_sim_core.Prelude.{
  ℕ, ◌<◌, ◌≤◌, ◌≡◌, ◌∙◌, refl, ap, subst, inl, inr, false, Bool-cases, List, [], ◌∷◌, arith, ltb,
  ◌==◌, if◌then◌else◌,
}

-- The value at a key, or `d` where the key is missing.
unfoldable pub value_at {ℓ} : {A : Type ℓ} → List (ℕ × A) → ℕ → A → A
value_at [] k d = d
value_at ((j, v) ∷ r) k d = let rest = value_at r k d in if j == k then v else rest

-- `m[k] = v`.
unfoldable pub put {ℓ} : {A : Type ℓ} → List (ℕ × A) → ℕ → A → List (ℕ × A)
put [] k v = (k, v) ∷ []
put ((j, u) ∷ r) k v =
    let rest = put r k v in
    if j == k then (k, v) ∷ r else if ltb k j then (k, v) ∷ (j, u) ∷ r else (j, u) ∷ rest

abbrev pub Above {ℓ} : {A : Type ℓ} → ℕ → List (ℕ × A) → Type 0
Above k [] = Unit {0}
Above k ((j, v) ∷ r) = (k < j) × Above k r

abbrev pub IsAscending {ℓ} : {A : Type ℓ} → List (ℕ × A) → Type 0
IsAscending [] = Unit {0}
IsAscending ((j, v) ∷ r) = Above j r × IsAscending r

pub Above-le {ℓ} : {A : Type ℓ} (i j : ℕ) (r : List (ℕ × A)) → i ≤ j → Above j r → Above i r
Above-le i j [] h a = tt
Above-le i j ((k, v) ∷ r) h a = (omega (arith, h, a.0), Above-le i j r h a.1)

pub value_at-Above {ℓ} :
    {A : Type ℓ} (k : ℕ) (r : List (ℕ × A)) (d : A) → Above k r → value_at r k d ≡ d
unfolding value_at
value_at-Above k [] d a = refl
value_at-Above k ((j, v) ∷ r) d a =
    let other : (j == k) ≡ false = ground (arith, a.0) in simp other (value_at-Above k r d a.1)

pub value_at-put {ℓ} :
    {A : Type ℓ} (r : List (ℕ × A)) (k : ℕ) (v : A) (i : ℕ) (d : A)
    → value_at (put r k v) i d ≡ (if k == i then v else value_at r i d)
unfolding value_at put
value_at-put [] k v i d = refl
value_at-put ((j, u) ∷ r) k v i d =
    let ih = value_at-put r k v i d in
    elim (Bool-cases (j == k)) [
      | inl e ↦
          let same : j ≡ k = ground (arith, e) in
          simp e (elim (Bool-cases (k == i)) [
            | inl f ↦ simp f refl
            | inr f ↦ let f' : (j == i) ≡ false = ap (λ x. x == i) same ∙ f in simp (f, f') refl
          ])
      | inr e ↦ elim (Bool-cases (ltb k j)) [
        | inl less ↦ simp (e, less) refl
        | inr more ↦
            simp (e, more)
              (elim (Bool-cases (j == i)) [
                | inl f ↦ let f' : (k == i) ≡ false = ground (arith, e, f) in simp (f, f') refl
                | inr f ↦ simp f ih
              ])
      ]
    ]

put-Above {ℓ} :
    {A : Type ℓ} (i : ℕ) (r : List (ℕ × A)) (k : ℕ) (v : A)
    → i < k
    → Above i r
    → Above i (put r k v)
unfolding put
put-Above i [] k v h a = (h, tt)
put-Above i ((j, u) ∷ r) k v h a = elim (Bool-cases (j == k)) [
  | inl e ↦ simp e (h, a.1)
  | inr e ↦ elim (Bool-cases (ltb k j)) [
    | inl less ↦ simp (e, less) (h, a)
    | inr more ↦ simp (e, more) (a.0, put-Above i r k v h a.1)
  ]
]

pub put-IsAscending {ℓ} :
    {A : Type ℓ} (r : List (ℕ × A)) (k : ℕ) (v : A) → IsAscending r → IsAscending (put r k v)
unfolding put
put-IsAscending [] k v a = (tt, tt)
put-IsAscending ((j, u) ∷ r) k v a = elim (Bool-cases (j == k)) [
  | inl e ↦ let same : j ≡ k = ground (arith, e) in simp e (subst (λ x. Above x r) same a.0, a.1)
  | inr e ↦ elim (Bool-cases (ltb k j)) [
    | inl less ↦
        let h : k < j = ground (arith, less) in
        simp (e, less) ((h, Above-le k j r (omega (arith, h)) a.0), a)
    | inr more ↦
        simp (e, more) (put-Above j r k v (ground (arith, e, more)) a.0, put-IsAscending r k v a.1)
  ]
]
