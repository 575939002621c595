-- ===== src/ItchReplay/Schedule/Due.antt =====
-- The messages of the stream and their arrivals, told by the messages of the stock.
use fpga_sim_core.Prelude.{
  ℕ, zero, suc, ◌+◌, ◌-◌, ◌*◌, ◌/◌, ◌%◌, ◌^◌, ◌<◌, ◌≤◌, ◌≡◌, ◌∙◌, refl, ap, inl, inr, Bool, true,
  false, ◌&&◌, ◌||◌, Bool-cases, ltb, ◌==◌, List, [], ◌∷◌, ◌++◌, arith, min, length, get_or,
  if◌then◌else◌,
}
use fpga_sim_core.Walk.{spec_length}
use fpga_sim_core.FullBook.{locate_of, timestamp_ns}
use fpga_sim_core.ItchReplay.{Framed, nothing}
use fpga_sim_core.ItchReplay.Walked.{IsWhole}
use fpga_sim_core.ItchReplay.Schedule.{dt_cycles, is_followed}

abbrev kinds : List ℕ
kinds = b'A' ∷ b'F' ∷ b'E' ∷ b'C' ∷ b'X' ∷ b'D' ∷ b'U' ∷ []

abbrev one_of : ℕ → List ℕ → Bool
one_of t [] = false
one_of t (k ∷ ks) = t == k || one_of t ks

-- A message of one of the seven types that change a book, of the stock with the locate.
abbrev pub concerns : ℕ → Framed → Bool
concerns locate m = one_of (get_or m.bytes 0 0) kinds && locate_of m.bytes == locate

pub is_followed-concerns : (locate : ℕ) (m : Framed) → is_followed locate m ≡ concerns locate m
is_followed-concerns locate m = ground arith

-- The whole cycles of 512 / 165 ns between two times, 0 where the second is not later.
abbrev pub gap : ℕ → ℕ → ℕ
gap before now = (now - before) * 165 % 2 ^ 64 / 512

pub dt_cycles-gap : (before now : ℕ) → dt_cycles before now ≡ gap before now
unfolding dt_cycles
dt_cycles-gap before now = elim (Bool-cases (ltb before now)) [
  | inl e ↦ rw e refl
  | inr e ↦ let none : now - before ≡ 0 = ground (arith, e) in rw (e, none) refl
]

-- The messages of the file that change the book of a stock.
unfoldable pub followed : ℕ → List Framed → List Framed
followed locate [] = []
followed locate (m ∷ ms) =
    let rest = followed locate ms in if concerns locate m then m ∷ rest else rest

abbrev pub stamp_at : List Framed → ℕ → ℕ
stamp_at ms i = timestamp_ns (get_or ms i nothing).bytes

-- When message `i` of a stock arrives: the first at cycle 0, each other one as many cycles after the one
-- before as their timestamps say, but no more than the cap.
unfoldable pub due : ℕ → List Framed → ℕ → ℕ
due gap_cap ms zero = 0
due gap_cap ms (suc i) =
    (due gap_cap ms i + min (gap (stamp_at ms i) (stamp_at ms (suc i))) gap_cap) % 2 ^ 64

module _ {ℓ} {A : Type ℓ} (d : A) where
  pub get_or-append :
      (xs ys : List A) (i : ℕ) → i < length xs → get_or (xs ++ ys) i d ≡ get_or xs i d
  get_or-append [] ys i h = absurd (omega (arith, h))
  get_or-append (x ∷ xs) ys zero h = refl
  get_or-append (x ∷ xs) ys (suc i) h = get_or-append xs ys i (omega (arith, h))

  pub get_or-append_last :
      (xs : List A) (y : A) (i : ℕ) → i ≡ length xs → get_or (xs ++ y ∷ []) i d ≡ y
  get_or-append_last [] y zero e = refl
  get_or-append_last [] y (suc i) e = absurd (omega (arith, e))
  get_or-append_last (x ∷ xs) y zero e = absurd (omega (arith, e))
  get_or-append_last (x ∷ xs) y (suc i) e = get_or-append_last xs y i (omega (arith, e))

pub due-append :
    (gap_cap : ℕ) (ms : List Framed) (m : Framed) (i : ℕ)
    → i < length ms
    → due gap_cap (ms ++ m ∷ []) i ≡ due gap_cap ms i
unfolding due
due-append gap_cap ms m zero h = refl
due-append gap_cap ms m (suc i) h =
    let here =
      ap (λ (x : Framed). timestamp_ns x.bytes) (get_or-append nothing ms (m ∷ []) (suc i) h) in
    let before =
      ap (λ (x : Framed). timestamp_ns x.bytes)
        (get_or-append nothing ms (m ∷ []) i (omega (arith, h))) in
    let ih = due-append gap_cap ms m i (omega (arith, h)) in
    ap
      (λ d.
        (d + min (gap (stamp_at (ms ++ m ∷ []) i) (stamp_at (ms ++ m ∷ []) (suc i))) gap_cap)
        % 2 ^ 64)
      ih
    ∙ ap (λ s. (due gap_cap ms i + min (gap s (stamp_at (ms ++ m ∷ []) (suc i))) gap_cap) % 2 ^ 64)
        before
    ∙ ap (λ s. (due gap_cap ms i + min (gap (stamp_at ms i) s) gap_cap) % 2 ^ 64) here

-- A message that changes the book fits into the stream.
pub followed_size :
    (locate : ℕ) (m : Framed)
    → is_followed locate m ≡ true
    → IsWhole m
    → (0 < m.length) × (m.length ≤ 40)
unfolding spec_length
followed_size locate m f w = (w.some_bytes, let t = w.typed in ground (arith, f, t))
