-- ===== src/Orders/Inv.antt =====
-- The table as a finite map from live references to orders, and the invariant that makes it one.
use mathlib.Core.List.{append_assoc}
use fpga_sim_core.Prelude.{
  ℕ, ◌+◌, ◌≡◌, ◌∙◌, refl, sym, ap, inl, inr, Bool, true, false, not, ◌||◌, Option, none, some, [],
  ◌∷◌, ◌++◌, length, length-append, set, ◌==◌, if◌then◌else◌, Bool-cases,
}
use fpga_sim_core.Prelude.Int.{ℤ, pos, ◌≤ℤ◌, IsInt32}
use fpga_sim_core.Orders
use fpga_sim_core.Orders.{
  Entry, blank, OrderTable, is_order, Scan, already_live, free_slot, scan, order, place, is_none,
}

-- The live order with a reference.
unfoldable pub lookup : ℕ → OrderTable → Option Entry
lookup reference [] = none
lookup reference (e ∷ es) = if is_order reference e then some e else lookup reference es

abbrev pub is_some {ℓ} : {A : Type ℓ} → Option A → Bool
is_some none = false
is_some (some a) = true

-- Some entry is free.
unfoldable pub has_free : OrderTable → Bool
has_free [] = false
has_free (e ∷ es) = not e.live || has_free es

-- What a live entry must be, beside the entries behind it: it has shares left, as many as an
-- `std::int32_t` holds, and no entry behind it has its reference.
abbrev pub IsSound : Bool → Entry → OrderTable → Type 0
IsSound false e es = Unit {0}
IsSound true e es = (pos 1 ≤ℤ e.remaining) × IsInt32 e.remaining × (lookup e.reference es ≡ none)

abbrev pub IsValid : OrderTable → Type 0
IsValid [] = Unit {0}
IsValid (e ∷ es) = IsSound e.live e es × IsValid es

-- The entry put into the first free place, and whether there was one.
unfoldable pub fill : OrderTable → Entry → OrderTable × Bool
fill [] o = ([], false)
fill (e ∷ es) o = let (es', done) = fill es o in if e.live then (e ∷ es', done) else (o ∷ es, true)

-- The first free place, counted from `i`.
first_free : OrderTable → ℕ → Option ℕ
first_free [] i = none
first_free (e ∷ es) i = if e.live then first_free es (i + 1) else some i

abbrev or_else : Option ℕ → Option ℕ → Option ℕ
or_else (some j) k = some j
or_else none k = k

scan_lem :
    (reference : ℕ) (es : OrderTable) (i : ℕ) (found : Option ℕ)
    → scan reference es i found ≡ (
        if is_some (lookup reference es)
        then already_live
        else free_slot (or_else found (first_free es i)))
unfolding scan lookup first_free
scan_lem reference [] i none = refl
scan_lem reference [] i (some j) = refl
scan_lem reference (e ∷ es) i none = elim (Bool-cases e.live) [
  | inl live ↦ elim (Bool-cases (e.reference == reference)) [
    | inl hit ↦ simp (live, hit)
    | inr miss ↦ simp (live, miss) (scan_lem reference es (i + 1) none)
  ]
  | inr dead ↦ simp dead (scan_lem reference es (i + 1) (some i))
]
scan_lem reference (e ∷ es) i (some j) = elim (Bool-cases e.live) [
  | inl live ↦ elim (Bool-cases (e.reference == reference)) [
    | inl hit ↦ simp (live, hit)
    | inr miss ↦ simp (live, miss) (scan_lem reference es (i + 1) (some j))
  ]
  | inr dead ↦ simp dead (scan_lem reference es (i + 1) (some j))
]

set-append :
    (done es : OrderTable) (e o : Entry) → set (done ++ e ∷ es) (length done) o ≡ done ++ o ∷ es
set-append [] es e o = refl
set-append (d ∷ done) es e o = ap (λ r. d ∷ r) (set-append done es e o)

-- Writing to the first free place fills it.
place-fill :
    (done es : OrderTable) (o : Entry)
    → place (done ++ es) o (free_slot (first_free es (length done)))
      ≡ (done ++ (fill es o).0, (fill es o).1)
unfolding first_free fill
place-fill done [] o = refl
place-fill done (e ∷ es) o = elim (Bool-cases e.live) [
  | inl live ↦ simp live (
      ap (λ xs. place xs o (free_slot (first_free es (length done + 1))))
        (sym (append_assoc done (e ∷ []) es))
      ∙ ap (λ k. place ((done ++ e ∷ []) ++ es) o (free_slot (first_free es k)))
          (sym (length-append done (e ∷ [])))
      ∙ place-fill (done ++ e ∷ []) es o
      ∙ ap (λ xs. (xs, (fill es o).1)) (append_assoc done (e ∷ []) (fill es o).0))
  | inr dead ↦ simp dead (ap (λ xs. (xs, true)) (set-append done es e o))
]

-- `insert` refuses a live reference, and otherwise fills the first free place, if any.
pub insert-fill :
    (es : OrderTable) (reference : ℕ) (bid : Bool) (price shares : ℤ)
    → Orders.insert es reference bid price shares ≡ (
        if is_some (lookup reference es)
        then (es, false)
        else fill es (order reference bid price shares))
unfolding Orders.insert
insert-fill es reference bid price shares =
    ap (place es (order reference bid price shares)) (scan_lem reference es 0 none)
    ∙ (elim (Bool-cases (is_some (lookup reference es))) [
      | inl taken ↦ simp taken
      | inr unknown ↦ simp unknown (place-fill [] es (order reference bid price shares))
    ])
