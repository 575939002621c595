-- ===== src/Engine/Schedule.antt =====
-- The engine runs the registered callbacks in the order of registration, all rising edges before
-- all falling edges, once in each cycle.
use native.Mathlib.Numerals.{add-one}
use fpga_sim_core.Prelude.{
  ltb, drop, dec_lt, ℕ, zero, suc, ◌+◌, ◌%◌, ◌^◌, ◌≤◌, ◌<◌, ◌≡◌, ◌∙◌, refl, ap, true, false, Option,
  none, some, List, [], ◌∷◌, ◌++◌, arith, length, get_or, set, length-set, leb, if◌then◌else◌, take,
}
use fpga_sim_core.Engine
use fpga_sim_core.Engine.{DiscreteEngine, Callback, max_callbacks, call, call_slots}

-- The callbacks of one edge: the slots in use.
abbrev pub registered : {W : Type 0} → ℕ → List (Option (Callback W)) → List (Option (Callback W))
registered count slots = take count slots

-- Calls in a list's order.
unfoldable pub call_all : {W : Type 0} → List (Option (Callback W)) → ℕ → W → W
call_all [] cycle w = w
call_all (f ∷ fs) cycle w = call_all fs cycle (call f w cycle)

module _ {W : Type 0} where
  pub record IsValid (e : DiscreteEngine W) : Type 0 where
    pub posedge_slots : length e.posedge ≡ max_callbacks
    pub negedge_slots : length e.negedge ≡ max_callbacks
    pub count_le : e.count ≤ max_callbacks
    pub negedge_count_le : e.negedge_count ≤ max_callbacks

  -- An engine with nothing registered is valid.
  pub fresh-IsValid : IsValid (Engine.fresh {W = W})
  unfolding Engine.fresh
  fresh-IsValid = omega arith

  pub take-set :
      (slots : List (Option (Callback W))) (n : ℕ) (f : Option (Callback W))
      → n < length slots
      → take (suc n) (set slots n f) ≡ take n slots ++ f ∷ []
  take-set [] n f h = absurd (omega arith)
  take-set (s ∷ slots) zero f h = refl
  take-set (s ∷ slots) (suc n) f h = ap (λ r. s ∷ r) (take-set slots n f (omega arith))

  -- Registering a rising-edge callback that is not null succeeds exactly when one of the 16 slots
  -- is free, and then puts it behind those registered before; the falling edge is untouched.
  pub on_posedge_lem :
      (e : DiscreteEngine W) (f : Callback W)
      → IsValid e
      → let (e', accepted) = Engine.on_posedge e (some f) in
        (accepted ≡ ltb e.count max_callbacks)
        × (registered e'.count e'.posedge ≡ (
            if accepted
            then registered e.count e.posedge ++ some f ∷ []
            else registered e.count e.posedge))
        × (registered e'.negedge_count e'.negedge ≡ registered e.negedge_count e.negedge)
        × IsValid e'
  unfolding Engine.on_posedge
  on_posedge_lem e f v = elim (dec_lt e.count max_callbacks) [
    | yes p ↦
        let room : leb max_callbacks e.count ≡ false = ground arith in
        rw room (
          ground arith,
          rw add-one (take-set e.posedge e.count (some f) (omega arith)),
          refl,
          record {
            posedge_slots = length-set e.posedge e.count (some f) ∙ v.posedge_slots;
            negedge_slots = v.negedge_slots;
            count_le = omega arith;
            negedge_count_le = v.negedge_count_le;
          },
        )
    | no p ↦
        let full : leb max_callbacks e.count ≡ true = ground arith in
        rw full (ground arith, refl, refl, v)
  ]

  drop-cons :
      (slots : List (Option (Callback W))) (n : ℕ)
      → n < length slots
      → drop n slots ≡ get_or slots n none ∷ drop (suc n) slots
  drop-cons [] n h = absurd (omega arith)
  drop-cons (s ∷ slots) zero h = refl
  drop-cons (s ∷ slots) (suc n) h = drop-cons slots n (omega arith)

  call_slots-drop :
      (slots : List (Option (Callback W))) (cycle first rounds : ℕ) (w : W)
      → first + rounds ≤ length slots
      → call_slots slots cycle first rounds w ≡ call_all (take rounds (drop first slots)) cycle w
  unfolding call_slots call_all
  call_slots-drop slots cycle first zero w h = refl
  call_slots-drop slots cycle first (suc rounds) w h = rw (drop-cons slots first (omega arith)) (
      call_slots-drop slots cycle (first + 1) rounds _ (omega arith)
      ∙ ap
          (λ k.
            call_all (take rounds (drop k slots)) cycle (call (get_or slots first none) w cycle))
          (add-one first))

  -- One step of a valid engine calls the rising-edge callbacks in the order of registration, then
  -- the falling-edge ones, each once and with the number of the cycle, and counts the cycle.
  pub step_lem :
      (e : DiscreteEngine W) (w : W)
      → IsValid e
      → Engine.step e w ≡ (
        record e { cycle = (e.cycle + 1) % 2 ^ 64 },
        call_all
            (registered e.negedge_count e.negedge)
            e.cycle
            (call_all (registered e.count e.posedge) e.cycle w),
      )
  unfolding Engine.step
  step_lem e w v = rw (
    call_slots-drop e.posedge e.cycle 0 e.count w (omega arith),
    call_slots-drop e.negedge e.cycle 0 e.negedge_count _ (omega arith),
  )

  -- A run of `n` cycles counts `n` cycles, modulo 2 ^ 64, and keeps the registrations.
  pub run_cycle :
      (n : ℕ) (e : DiscreteEngine W) (w : W)
      → e.cycle < 2 ^ 64
      → (Engine.run n e w).0 ≡ record e { cycle = (e.cycle + n) % 2 ^ 64 }
  unfolding Engine.run Engine.step
  run_cycle zero e w h = ap (λ c. record e { cycle = c }) (omega arith)
  run_cycle (suc n) e w h =
      run_cycle n (record e { cycle = (e.cycle + 1) % 2 ^ 64 }) _ (omega arith)
      ∙ ap (λ c. record e { cycle = c }) (omega arith)
