-- ===== src/ItchReplay/Told.antt =====
-- What the arguments ask for and which stock the directory names, told without the loops of `main`.
use fpga_sim_core.Prelude.{
  ℕ, ◌<◌, ◌≤◌, ◌≡◌, ◌≢◌, ◌⊎◌, ◌∙◌, refl, ap, ap₂, sym, subst, inl, inr, Bool, true, false, ◌&&◌,
  ◌||◌, Bool-cases, Option, none, some, List, [], ◌∷◌, arith, min, length, ◌^◌, ◌==◌, if◌then◌else◌,
}
use fpga_sim_core.FullBook.{locate_of}
use fpga_sim_core.ItchReplay.{
  Framed, Options, model_capacity, set_option, read_options, same_text, symbol_option,
  messages_option, gap_option, stock_of,
}
use fpga_sim_core.ItchReplay.Maps.{
  value_at, value_at-put, value_at-Above, IsAscending, put-IsAscending, Above, Above-le,
}
use fpga_sim_core.ItchReplay.Survey.{
  Survey, no_survey, observe, survey, type_of, named, busiest, choose_locate,
}
use fpga_sim_core.ItchReplay.Chosen.{adds_of, choose_locate-most}

same_text→eq : (xs ys : List ℕ) → same_text xs ys ≡ true → xs ≡ ys
unfolding same_text
same_text→eq [] [] h = refl
same_text→eq [] (y ∷ ys) h = ground (arith, h)
same_text→eq (x ∷ xs) [] h = ground (arith, h)
same_text→eq (x ∷ xs) (y ∷ ys) h =
    ap₂ (λ a b. a ∷ b) (ground (arith, h)) (same_text→eq xs ys (ground (arith, h)))

-- The last value that the arguments give with a name, as `read` reads it, or else `d`.
abbrev pub last_of {ℓ} : {A : Type ℓ} → List ℕ → (List ℕ → A) → List (List ℕ) → A → A
last_of name read [] d = d
last_of name read (n ∷ []) d = d
last_of name read (n ∷ v ∷ args) d = last_of name read args (if same_text n name then read v else d)

abbrev is_option : List ℕ → Bool
is_option n = same_text n symbol_option || same_text n messages_option || same_text n gap_option

-- Each value has a name before it that is one of the three options.
abbrev pub all_options : List (List ℕ) → Bool
all_options [] = true
all_options (n ∷ []) = true
all_options (n ∷ v ∷ args) = is_option n && all_options args

module _ (number_of : List ℕ → ℕ) where
  abbrev pub asked : List (List ℕ) → Options → Options
  asked args o = record {
    want_symbol = last_of symbol_option (λ v. v) args o.want_symbol;
    model_messages =
        last_of messages_option (λ v. min (number_of v) model_capacity) args o.model_messages;
    gap_cap = last_of gap_option number_of args o.gap_cap;
  }

  set_option-asked :
      (o : Options) (n v : List ℕ)
      → set_option number_of o n v ≡ (if is_option n then some (asked (n ∷ v ∷ []) o) else none)
  unfolding set_option same_text
  set_option-asked o n v = elim (Bool-cases (same_text n symbol_option)) [
    | inl e ↦
        let same = same_text→eq n symbol_option e in
        let e1 : same_text n messages_option ≡ false = ap (λ k. same_text k messages_option) same in
        let e2 : same_text n gap_option ≡ false = ap (λ k. same_text k gap_option) same in
        rw (e, e1, e2) refl
    | inr e ↦ elim (Bool-cases (same_text n messages_option)) [
      | inl f ↦
          let same = same_text→eq n messages_option f in
          let e2 : same_text n gap_option ≡ false = ap (λ k. same_text k gap_option) same in
          rw (e, f, e2) refl
      | inr f ↦ elim (Bool-cases (same_text n gap_option)) [
        | inl g ↦ rw (e, f, g) refl
        | inr g ↦ rw (e, f, g) refl
      ]
    ]
  ]

  pub read_options-asked :
      (args : List (List ℕ)) (o : Options)
      → read_options number_of args o ≡ (if all_options args then some (asked args o) else none)
  unfolding read_options
  read_options-asked [] o = refl
  read_options-asked (n ∷ []) o = refl
  read_options-asked (n ∷ v ∷ args) o = elim (Bool-cases (is_option n)) [
    | inl e ↦ rw (set_option-asked o n v, e) (read_options-asked args (asked (n ∷ v ∷ []) o))
    | inr e ↦ rw (set_option-asked o n v, e) refl
  ]

-- The name that the last directory message of a stock gives it, or else `d`.
abbrev pub name_of : ℕ → List Framed → List ℕ → List ℕ
name_of l [] d = d
name_of l (m ∷ ms) d =
    name_of l ms (if type_of m == b'R' && locate_of m.bytes == l then stock_of m.bytes else d)

observe-name :
    (s : Survey) (m : Framed) (l : ℕ)
    → value_at (observe s m).directory l [] ≡ (
        if type_of m == b'R' && locate_of m.bytes == l
        then stock_of m.bytes
        else value_at s.directory l [])
unfolding observe
observe-name s m l = elim (Bool-cases (type_of m == b'R')) [
  | inl e ↦ simp e (value_at-put s.directory (locate_of m.bytes) (stock_of m.bytes) l [])
  | inr e ↦ simp e refl
]

survey-name :
    (ms : List Framed) (s : Survey) (l : ℕ)
    → value_at (survey s ms).directory l [] ≡ name_of l ms (value_at s.directory l [])
unfolding survey
survey-name [] s l = refl
survey-name (m ∷ ms) s l = survey-name ms (observe s m) l ∙ ap (name_of l ms) (observe-name s m l)

observe-directory :
    (s : Survey) (m : Framed) → IsAscending s.directory → IsAscending (observe s m).directory
unfolding observe
observe-directory s m a = elim (Bool-cases (type_of m == b'R')) [
  | inl e ↦ simp e (put-IsAscending s.directory (locate_of m.bytes) (stock_of m.bytes) a)
  | inr e ↦ simp e a
]

survey-directory :
    (ms : List Framed) (s : Survey) → IsAscending s.directory → IsAscending (survey s ms).directory
unfolding survey
survey-directory [] s a = a
survey-directory (m ∷ ms) s a = survey-directory ms (observe s m) (observe-directory s m a)

same_text_refl : (xs : List ℕ) → same_text xs xs ≡ true
unfolding same_text
same_text_refl [] = refl
same_text_refl (x ∷ xs) = let ih = same_text_refl xs in ground (arith, ih)

module _ (c : ℕ) (cs : List ℕ) where
  abbrev want : List ℕ
  want = c ∷ cs

  named-found :
      (dir : List (ℕ × List ℕ)) (start : ℕ)
      → IsAscending dir
      → (named dir want start ≡ start) ⊎ (value_at dir (named dir want start) [] ≡ want)
  unfolding named value_at
  named-found [] start a = inl refl
  named-found ((l, s) ∷ r) start a = elim (Bool-cases (same_text s want)) [
    | inl e ↦ simp e (elim (named-found r l a.1) [
      | inl f ↦ inr (here (named r want l) s (same_text→eq s want e) f)
      | inr f ↦ inr (behind (named r want l) s f)
    ])
    | inr e ↦ simp e (elim (named-found r start a.1) [
      | inl f ↦ inl f
      | inr f ↦ inr (behind (named r want start) s f)
    ])
  ]
    where
      here :
          (k : ℕ) (s : List ℕ) → s ≡ want → k ≡ l → (if l == k then s else value_at r k []) ≡ want
      here k s e f = let hit : (l == k) ≡ true = ground (arith, f) in rw hit e

      behind :
          (k : ℕ) (s : List ℕ)
          → value_at r k [] ≡ want
          → (if l == k then s else value_at r k []) ≡ want
      behind k s f = elim (Bool-cases (l == k)) [
        | inl e ↦
            let same : l ≡ k = ground (arith, e) in
            let none_there : want ≡ [] =
              sym f ∙ ap (λ x. value_at r x []) (sym same) ∙ value_at-Above l r [] a.0 in
            absurd (ground (arith, none_there))
        | inr e ↦ rw e f
      ]

  named-Above :
      (dir : List (ℕ × List ℕ)) (start k : ℕ) → k < start → Above k dir → k < named dir want start
  unfolding named
  named-Above [] start k h a = h
  named-Above ((l, s) ∷ r) start k h a = elim (Bool-cases (same_text s want)) [
    | inl e ↦ simp e (named-Above r l k a.0 a.1)
    | inr e ↦ simp e (named-Above r start k h a.1)
  ]

  -- A stock of the directory with the wanted name is found, if its locate is not 0.
  named-hit :
      (dir : List (ℕ × List ℕ)) (start l : ℕ)
      → IsAscending dir
      → 0 < l
      → value_at dir l [] ≡ want
      → 0 < named dir want start
  unfolding named value_at
  named-hit [] start l a h e = absurd (ground (arith, e))
  named-hit ((j, s) ∷ r) start l a h e = elim (Bool-cases (j == l)) [
    | inl f ↦
        let s_eq : s ≡ want = ap (λ b. if b then s else value_at r l []) (sym f) ∙ e in
        let hit : same_text s want ≡ true = ap (λ x. same_text x want) s_eq ∙ same_text_refl want in
        let pos : 0 < j = ground (arith, f, h) in
        simp hit (named-Above r j 0 pos (Above-le 0 j r (omega arith) a.0))
    | inr f ↦
        let e' : value_at r l [] ≡ want = ap (λ b. if b then s else value_at r l []) (sym f) ∙ e in
        named-hit r (if same_text s want then j else start) l a.1 h e'
  ]

-- The stock to follow: one with the most adds where none is wanted, else one whose locate is not 0 and
-- whose last directory message names it so.
abbrev pub IsChosen : List Framed → List ℕ → ℕ → Type 0
IsChosen ms [] r = (l : ℕ) → adds_of l ms ≤ adds_of r ms
IsChosen ms (c ∷ want) r = (0 < r) × (name_of r ms [] ≡ c ∷ want)

-- A stock is wanted, and no other locate than 0 has its name.
abbrev pub IsUnknown : List Framed → List ℕ → Type 0
IsUnknown ms [] = ⊥
IsUnknown ms (c ∷ want) = (l : ℕ) → 0 < l → name_of l ms [] ≢ (c ∷ want)

abbrev pub ChosenOr : List Framed → List ℕ → Option ℕ → Type 0
ChosenOr ms want none = IsUnknown ms want
ChosenOr ms want (some r) = IsChosen ms want r

no_name : (l : ℕ) → value_at no_survey.directory l [] ≡ []
no_name l = value_at-Above {A = List ℕ} l [] [] tt

abbrev or_zero : Option ℕ → ℕ
or_zero none = 0
or_zero (some l) = l

pub chosen :
    (ms : List Framed) (want : List ℕ)
    → length ms < 2 ^ 64
    → ChosenOr ms want (choose_locate (survey no_survey ms) want)
unfolding choose_locate
chosen ms [] few = λ l.
    let (r, e, most) = choose_locate-most ms l few in
    let same : busiest (survey no_survey ms).adds_by_locate 0 0 ≡ r = ap or_zero e in
    subst (λ x. adds_of l ms ≤ adds_of x ms) (sym same) most
chosen ms (c ∷ want) few =
    let dir = (survey no_survey ms).directory in
    let a = survey-directory ms no_survey tt in
    let name = λ (l : ℕ). survey-name ms no_survey l ∙ ap (name_of l ms) (no_name l) in
    elim (Bool-cases (named dir (c ∷ want) 0 == 0)) [
      | inl e ↦ simp e (λ l h f.
          let hit = named-hit c want dir 0 l a h (name l ∙ f) in absurd (ground (arith, e, hit)))
      | inr e ↦ simp e (
        ground (arith, e),
        elim (named-found c want dir 0 a) [
          | inl f ↦ absurd (ground (arith, e, f))
          | inr f ↦ sym (name (named dir (c ∷ want) 0)) ∙ f
        ],
      )
    ]
