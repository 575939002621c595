-- ===== src/Vcd/Trace.antt =====
-- Reading a trace back: the samples at the falling edges of the clock.
use native.Mathlib.Nat.{pow-suc, div-div-eq-div-mul}
use fpga_sim_core.Prelude.{
  ℕ, zero, suc, ◌+◌, ◌*◌, ◌/◌, ◌%◌, ◌^◌, ◌<◌, ◌≡◌, ◌∙◌, refl, ap, sym, subst, inl, inr, bit_and,
  Bool, true, false, Bool-cases, none, some, List, [], ◌∷◌, ◌==◌, arith, if◌then◌else◌,
}
use fpga_sim_core.Prelude.Bits.{bit_and-one}
use fpga_sim_core.Prelude.Int.{ℤ, to_u32}
use fpga_sim_core.Vcd.{
  Item, time, clk, tick_valid, ofi, VcdLogger, opened, stamp, bits_of, write_vector, print_cycle,
  cycle, units_per_cycle, units_per_half_cycle,
}

-- What the signals are at a falling edge.
pub record Sample : Type 0 where
  pub at : ℕ
  pub valid : Bool
  pub value : ℕ

-- A reader of the trace: the time and the signals so far, and the samples, the newest first.
pub record Reader : Type 0 where
  pub now : ℕ
  pub valid : Bool
  pub value : ℕ
  pub samples : List Sample

abbrev digit : ℕ → ℕ
digit c = if c == b'1' then 1 else 0

-- Binary digits, most significant first, behind a number.
abbrev word_of : ℕ → List ℕ → ℕ
word_of v [] = v
word_of v (c ∷ cs) = word_of (v * 2 + digit c) cs

abbrev read_item : Item → Reader → Reader
read_item (time t) r = record r { now = t }
read_item (clk true) r = r
read_item (clk false) r = record r {
  samples = record { at = r.now; valid = r.valid; value = r.value } ∷ r.samples;
}
read_item (tick_valid b) r = record r { valid = b }
read_item (ofi cs) r = record r { value = word_of 0 cs }

abbrev pub read : List Item → Reader
read [] = record { now = 0; valid = false; value = 0; samples = [] }
read (x ∷ items) = read_item x (read items)

digit_lem : (x : ℕ) → digit (if bit_and x 1 == 0 then b'0' else b'1') ≡ x % 2
digit_lem x =
    subst (λ k. digit (if k == 0 then b'0' else b'1') ≡ x % 2) (sym (bit_and-one x))
      (go (x % 2) (omega arith))
  where
    go : (k : ℕ) → k < 2 → digit (if k == 0 then b'0' else b'1') ≡ k
    go zero h = refl
    go (suc zero) h = refl
    go (suc (suc k)) h = absurd (omega (arith, h))

halved : (value n : ℕ) → value / 2 ^ suc n ≡ value / 2 ^ n / 2
halved value n = ap (λ k. value / k) (pow-suc 2 n) ∙ sym (div-div-eq-div-mul value (2 ^ n) 2)

word-bits_of : (value n : ℕ) → word_of (value / 2 ^ n) (bits_of value n) ≡ value
unfolding bits_of
word-bits_of value zero = omega arith
word-bits_of value (suc n) =
    ap (λ v. word_of v (bits_of value n)) (omega (arith, halved value n, digit_lem (value / 2 ^ n)))
    ∙ word-bits_of value n

vector_lem : (value : ℕ) → value < 2 ^ 32 → word_of 0 (bits_of value 32) ≡ value
vector_lem value h =
    ap (λ v. word_of v (bits_of value 32)) (omega (arith, h)) ∙ word-bits_of value 32

-- Calls of `cycle`.
pub record LoggedCycle : Type 0 where
  pub number : ℕ
  pub valid : Bool
  pub ofi_value : ℤ

abbrev pub logged : VcdLogger → List LoggedCycle → VcdLogger
logged v [] = v
logged v (e ∷ es) = logged (cycle v e.number e.valid e.ofi_value) es

-- The sample of a call: half a cycle after its start, with the pattern of 32 bits of its value.
abbrev pub sample_of : LoggedCycle → Sample
sample_of e = record {
  at = (e.number * units_per_cycle % 2 ^ 64 + units_per_half_cycle) % 2 ^ 64;
  valid = e.valid;
  value = to_u32 e.ofi_value;
}

-- The samples of a row of calls, the newest first, on top of others.
abbrev pub samples_of : List LoggedCycle → List Sample → List Sample
samples_of [] before = before
samples_of (e ∷ es) before = samples_of es (sample_of e ∷ before)

-- A stamp moves the reader to its time, printed or not.
stamp_lem :
    (items : List Item) (last t : ℕ)
    → (read items).now ≡ last
    → (read (stamp items last t).0 ≡ record (read items) { now = t }) × ((stamp items last t).1 ≡ t)
unfolding stamp
stamp_lem items last t h = elim (Bool-cases (t == last)) [
  | inl e ↦
      let same : t ≡ last = ground (arith, e) in
      simp e (ap (λ k. record (read items) { now = k }) (h ∙ sym same), sym same)
  | inr e ↦ simp e (refl, refl)
]

to_u32-lt : (z : ℤ) → to_u32 z < 2 ^ 32
unfolding to_u32
to_u32-lt z = ground arith

-- One call adds one sample.
print_cycle_lem :
    (items : List Item) (last : ℕ) (e : LoggedCycle)
    → (read items).now ≡ last
    → let (items', last') = print_cycle items last e.number e.valid e.ofi_value in
      ((read items').samples ≡ sample_of e ∷ (read items).samples) × ((read items').now ≡ last')
unfolding print_cycle write_vector
print_cycle_lem items last e h =
    let t : ℕ = e.number * units_per_cycle % 2 ^ 64 in
    let s1 = stamp items last t in
    let (read1, last1) = stamp_lem items last t h in
    let items2 = ofi (bits_of (to_u32 e.ofi_value) 32) ∷ tick_valid e.valid ∷ clk true ∷ s1.0 in
    let t2 : ℕ = (t + units_per_half_cycle) % 2 ^ 64 in
    let now2 : (read items2).now ≡ s1.1 = ap (λ (r : Reader). r.now) read1 ∙ sym last1 in
    let (read3, last3) = stamp_lem items2 s1.1 t2 now2 in
    let value : word_of 0 (bits_of (to_u32 e.ofi_value) 32) ≡ to_u32 e.ofi_value =
      vector_lem (to_u32 e.ofi_value) (to_u32-lt e.ofi_value) in
    (
      ap (λ (r : Reader). record { at = r.now; valid = r.valid; value = r.value } ∷ r.samples) read3
          ∙ ap
              (λ (r : Reader).
                record {
                  at = t2;
                  valid = e.valid;
                  value = word_of 0 (bits_of (to_u32 e.ofi_value) 32);
                }
                ∷ r.samples)
              read1
          ∙ ap (λ w. record { at = t2; valid = e.valid; value = w } ∷ (read items).samples) value,
      ap (λ (r : Reader). r.now) read3 ∙ sym last3,
    )

logged_lem :
    (items : List Item) (last : ℕ) (es : List LoggedCycle)
    → (read items).now ≡ last
    → (items' : List Item) × ((logged (record { file = some items; last_time = last }) es).file
        ≡ some items')
      × ((read items').samples ≡ samples_of es (read items).samples)
unfolding cycle
logged_lem items last [] h = (items, refl, refl)
logged_lem items last (e ∷ es) h =
    let p = print_cycle items last e.number e.valid e.ofi_value in
    let (added, now) = print_cycle_lem items last e h in
    let (items', file, samples) = logged_lem p.0 p.1 es now in
    (items', file, samples ∙ ap (samples_of es) added)

no_file :
    (es : List LoggedCycle)
    → logged (record { file = none; last_time = 0 }) es ≡ record { file = none; last_time = 0 }
unfolding cycle
no_file [] = refl
no_file (e ∷ es) = no_file es

-- Reading a trace back gives one sample for each logged cycle, in order, behind that of the head of the
-- file: the time half a cycle after its start, its `tick_valid`, and the 32 bits of
-- its value. Without a file nothing is printed.
pub logged-samples :
    (es : List LoggedCycle)
    → ((items : List Item) × ((logged (opened true) es).file ≡ some items)
        × ((read items).samples ≡ samples_of es (record { at = 0; valid = false; value = 0 } ∷ [])))
      × (logged (opened false) es ≡ opened false)
unfolding opened
logged-samples es = (
  logged_lem (ofi (b'0' ∷ []) ∷ tick_valid false ∷ clk false ∷ time 0 ∷ []) 0 es refl,
  no_file es,
)
