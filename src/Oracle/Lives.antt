-- ===== src/Oracle/Lives.antt =====
-- The live orders of the stream by their references.
use fpga_sim_core.Prelude.{
  ℕ, zero, suc, ◌≤◌, ◌<◌, ◌≡◌, ◌∙◌, refl, ap, sym, inl, inr, false, Bool-cases, Option, none, some,
  List, [], ◌∷◌, ◌++◌, arith, length, length-append, set, get_or, ◌==◌, if◌then◌else◌,
}
use fpga_sim_core.Stream.Synthetic.{Live, blank_live}

unfoldable pub find : ℕ → List Live → Option Live
find r [] = none
find r (o ∷ os) = let rest = find r os in if o.reference == r then some o else rest

-- No reference stands twice.
abbrev pub Distinct : List Live → Type 0
Distinct [] = Unit {0}
Distinct (o ∷ os) = (find o.reference os ≡ none) × Distinct os

pub find-append :
    (r : ℕ) (os : List Live) (o : Live)
    → find o.reference os ≡ none
    → find r (os ++ o ∷ []) ≡ (if o.reference == r then some o else find r os)
unfolding find
find-append r [] o h = refl
find-append r (x ∷ os) o h = let ih = find-append r os o in ground (arith, ih, h)

pub Distinct-append :
    (os : List Live) (o : Live) → find o.reference os ≡ none → Distinct os → Distinct (os ++ o ∷ [])
unfolding find
Distinct-append [] o h d = (refl, tt)
Distinct-append (x ∷ os) o h d = (
  find-append x.reference os o (ground (arith, h)) ∙ ground (arith, h, d.0),
  Distinct-append os o (ground (arith, h)) d.1,
)

-- The order at place `i` is the one with its reference.
pub find_self :
    (os : List Live) (i : ℕ)
    → Distinct os
    → i < length os
    → find (get_or os i blank_live).reference os ≡ some (get_or os i blank_live)
unfolding find
find_self [] i d h = absurd (omega arith)
find_self (x ∷ os) zero d h = ground arith
find_self (x ∷ os) (suc i) d h =
    let ih = find_self os i d.1 (omega arith) in
    elim (Bool-cases (x.reference == (get_or os i blank_live).reference)) [
      | inl e ↦
          let same : x.reference ≡ (get_or os i blank_live).reference = ground (arith, e) in
          absurd (ground (arith, sym d.0 ∙ ap (λ r. find r os) same ∙ ih))
      | inr e ↦ simp e ih
    ]

-- Another order with the reference of the one at place `i`, in its place.
pub find-set :
    (r : ℕ) (os : List Live) (i : ℕ) (o : Live)
    → Distinct os
    → i < length os
    → o.reference ≡ (get_or os i blank_live).reference
    → find r (set os i o) ≡ (if o.reference == r then some o else find r os)
unfolding find
find-set r [] i o d h e = absurd (omega arith)
find-set r (x ∷ os) zero o d h e = ground (arith, e)
find-set r (x ∷ os) (suc i) o d h e =
    let ih = find-set r os i o d.1 (omega arith) e in
    elim (Bool-cases (x.reference == r)) [
      | inl f ↦
          let same : x.reference ≡ r = ground (arith, f) in
          elim (Bool-cases (o.reference == r)) [
            | inl g ↦
                let same' : x.reference ≡ (get_or os i blank_live).reference =
                  same ∙ sym (ground (arith, g)) ∙ e in
                absurd (
                  ground
                    (arith, sym d.0 ∙ ap (λ k. find k os) same' ∙ find_self os i d.1 (omega arith)))
            | inr g ↦ simp (f, g) refl
          ]
      | inr f ↦ simp f ih
    ]

pub Distinct-set :
    (os : List Live) (i : ℕ) (o : Live)
    → Distinct os
    → i < length os
    → o.reference ≡ (get_or os i blank_live).reference
    → Distinct (set os i o)
unfolding find
Distinct-set [] i o d h e = tt
Distinct-set (x ∷ os) zero o d h e = (ap (λ r. find r os) e ∙ d.0, d.1)
Distinct-set (x ∷ os) (suc i) o d h e = (
  find-set x.reference os i o d.1 (omega arith) e ∙ elim (Bool-cases (o.reference == x.reference)) [
    | inl g ↦
        let same' : x.reference ≡ (get_or os i blank_live).reference =
          sym (ground (arith, g)) ∙ e in
        absurd
          (ground (arith, sym d.0 ∙ ap (λ k. find k os) same' ∙ find_self os i d.1 (omega arith)))
    | inr g ↦ simp g d.0
  ],
  Distinct-set os i o d.1 (omega arith) e,
)

-- No order with a reference is at a place of a list where it is not found.
ne_at :
    (r : ℕ) (os : List Live) (i : ℕ)
    → Distinct os
    → i < length os
    → find r os ≡ none
    → ((get_or os i blank_live).reference == r) ≡ false
ne_at r os i d h none_there = elim (Bool-cases ((get_or os i blank_live).reference == r)) [
  | inl e ↦
      let same : (get_or os i blank_live).reference ≡ r = ground (arith, e) in
      absurd (ground (arith, sym none_there ∙ ap (λ k. find k os) (sym same) ∙ find_self os i d h))
  | inr e ↦ e
]

-- The order at place `i` goes, and the last one takes its place.
pub find-swap :
    (r : ℕ) (os : List Live) (i : ℕ) (last : Live)
    → Distinct os
    → find last.reference os ≡ none
    → i ≤ length os
    → find r (set os i last) ≡ (
        if (get_or (os ++ last ∷ []) i blank_live).reference == r
        then none
        else if last.reference == r
        then some last
        else find r os)
unfolding find
find-swap r [] zero last d n h = ground arith
find-swap r [] (suc i) last d n h = absurd (omega (arith, h))
find-swap r (x ∷ os) zero last d n h = elim (Bool-cases (x.reference == r)) [
  | inl e ↦
      let same : x.reference ≡ r = ground (arith, e) in
      let gone : find r os ≡ none = ap (λ k. find k os) (sym same) ∙ d.0 in
      ground (arith, e, n, gone)
  | inr e ↦ simp e refl
]
find-swap r (x ∷ os) (suc i) last d n h =
    let n' : find last.reference os ≡ none = ground (arith, n) in
    let ih = find-swap r os i last d.1 n' (omega (arith, h)) in
    elim (Bool-cases (x.reference == r)) [
      | inl e ↦
          let same : x.reference ≡ r = ground (arith, e) in
          let other : (last.reference == x.reference) ≡ false = ground (arith, n) in
          let whole = Distinct-append os last n' d.1 in
          let gone : find r (os ++ last ∷ []) ≡ none =
            find-append r os last n'
            ∙ ap (λ k. if last.reference == k then some last else find k os) (sym same)
            ∙ simp other d.0 in
          let ne =
            ne_at r (os ++ last ∷ []) i whole (omega (arith, h, length-append os (last ∷ [])))
              gone in
          let other' : (last.reference == r) ≡ false =
            ap (λ k. last.reference == k) (sym same) ∙ other in
          simp (e, ne, other') refl
      | inr e ↦ simp e ih
    ]

pub Distinct-swap :
    (os : List Live) (i : ℕ) (last : Live)
    → Distinct os
    → find last.reference os ≡ none
    → i ≤ length os
    → Distinct (set os i last)
unfolding find
Distinct-swap [] i last d n h = tt
Distinct-swap (x ∷ os) zero last d n h = (ground (arith, n), d.1)
Distinct-swap (x ∷ os) (suc i) last d n h =
    let n' : find last.reference os ≡ none = ground (arith, n) in
    let other : (last.reference == x.reference) ≡ false = ground (arith, n) in
    (
      find-swap x.reference os i last d.1 n' (omega (arith, h))
          ∙ elim (Bool-cases ((get_or (os ++ last ∷ []) i blank_live).reference == x.reference)) [
            | inl e ↦ simp e refl
            | inr e ↦ simp (e, other) d.0
          ],
      Distinct-swap os i last d.1 n' (omega (arith, h)),
    )

-- The last order of a list whose references differ.
pub Distinct-front :
    (os : List Live) (o : Live)
    → Distinct (os ++ o ∷ [])
    → Distinct os × (find o.reference os ≡ none)
unfolding find
Distinct-front [] o d = (tt, refl)
Distinct-front (x ∷ os) o d =
    let (front, n) = Distinct-front os o d.1 in
    let behind = sym (find-append x.reference os o n) ∙ d.0 in
    ((ground (arith, behind), front), ground (arith, behind, n))
