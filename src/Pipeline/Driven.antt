-- ===== src/Pipeline/Driven.antt =====
-- The loop of `main.cpp` ends, and is a row of cycles of the pipeline.
use fpga_sim_core.Prelude.{
  ℕ, zero, suc, ◌+◌, ◌≤◌, ◌<◌, ◌≡◌, false, ◌⊎◌, refl, ap, inl, inr, true, Bool-cases, arith,
}
use fpga_sim_core.Prelude.Int.{ℤ}
use fpga_sim_core.Stream.{Message}
use fpga_sim_core.Pipeline.Frozen.{ticks}
use fpga_sim_core.Pipeline.Report.{Rig, done, step_rig, drive}

-- `k` cycles lead from one rig to the other, before each of which the pipeline was not done; then it is, or
-- there are no more cycles.
pub record Driven (count : ℕ) (message : ℕ → Message) (ask : ℤ) (n : ℕ) (r : Rig) (cycle : ℕ)
    (r' : Rig) (cycle' : ℕ) : Type 0 where
  pub k : ℕ
  pub k_le : k ≤ n
  pub cycle_eq : cycle' ≡ cycle + k
  pub pipeline_eq : r'.pipeline ≡ ticks count message ask r.pipeline cycle k
  pub running : (j : ℕ) → j < k → done count (ticks count message ask r.pipeline cycle j) ≡ false
  pub ended : (done count r'.pipeline ≡ true) ⊎ (k ≡ n)

later :
    (count : ℕ) (message : ℕ → Message) (ask : ℤ) (n : ℕ) (r : Rig) (cycle : ℕ) (r' : Rig)
    (cycle' : ℕ)
    → done count r.pipeline ≡ false
    → Driven count message ask n (step_rig count message ask r cycle) (cycle + 1) r' cycle'
    → Driven count message ask (suc n) r cycle r' cycle'
unfolding step_rig ticks
later count message ask n r cycle r' cycle' busy d = record {
  k = suc d.k;
  k_le = omega (arith, d.k_le);
  cycle_eq = omega (arith, d.cycle_eq);
  pipeline_eq = d.pipeline_eq;
  running = λ j h. earlier j h;
  ended = elim d.ended [ inl e ↦ inl e | inr e ↦ inr (ap suc e) ];
}
  where
    earlier :
        (j : ℕ) → j < suc d.k → done count (ticks count message ask r.pipeline cycle j) ≡ false
    earlier zero h = busy
    earlier (suc j) h = d.running j (omega (arith, h))

-- The loop of `main`, from any rig and with any number of cycles left, ends after `k` cycles, at most as
-- many as were left: the counter has gone up by `k`, and the pipeline has gone through `k` cycles, whatever
-- the trace prints. Before each of these cycles the pipeline was not done, and after them it is done or no
-- cycle is left, so that `k` is the first moment at which it is done if there is one in time.
pub drive-Driven :
    (count : ℕ) (message : ℕ → Message) (ask : ℤ) (n : ℕ) (r : Rig) (cycle : ℕ)
    → Driven count message ask n r cycle
        (drive count message ask n r cycle).0
        (drive count message ask n r cycle).1
unfolding drive ticks
drive-Driven count message ask zero r cycle = record {
  k = 0;
  k_le = omega arith;
  cycle_eq = omega arith;
  pipeline_eq = refl;
  running = λ j h. absurd (omega (arith, h));
  ended = inr refl;
}
drive-Driven count message ask (suc n) r cycle = elim (Bool-cases (done count r.pipeline)) [
  | inl e ↦ simp e (record {
    k = 0;
    k_le = omega arith;
    cycle_eq = omega arith;
    pipeline_eq = refl;
    running = λ j h. absurd (omega (arith, h));
    ended = inl e;
  })
  | inr e ↦
      let d = drive-Driven count message ask n (step_rig count message ask r cycle) (cycle + 1) in
      simp e (later count message ask n r cycle _ _ e d)
]
