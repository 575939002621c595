-- ===== src/Bram/Latency.antt =====
-- The loop of `posedge` runs upwards, so each stage copies the one that was overwritten just before
-- it: every stage of the delay line holds the newest request.
use fpga_sim_core.Prelude.{
  ℕ, zero, suc, ◌+◌, ◌-◌, ◌≤◌, ◌<◌, ◌≡◌, ◌∙◌, refl, ap, List, arith, length, get_or, set,
  length-set, get_or-set_self,
}
use fpga_sim_core.Bram
use fpga_sim_core.Bram.{DualPortBram, PortRequest, Pair}

module _ {ℓ} {T : Type ℓ} (z : T) (depth latency : ℕ) where
  shift-last :
      (pending : List (Pair T)) (p : Pair T) (first rounds : ℕ)
      → 0 < first
      → first + rounds ≤ length pending
      → get_or pending (first - 1) (Bram.no_pair z depth latency) ≡ p
      → get_or
          (Bram.shift z depth latency pending first rounds)
          (first + rounds - 1)
          (Bram.no_pair z depth latency)
        ≡ p
  unfolding Bram.shift
  shift-last pending p first zero h l e =
      ap (λ k. get_or pending k (Bram.no_pair z depth latency)) (omega arith) ∙ e
  shift-last pending p first (suc rounds) h l e =
      ap (λ k. get_or (Bram.shift z depth latency copied (first + 1) rounds) k blank) (omega arith)
      ∙ shift-last copied p (first + 1) rounds (omega arith)
          (omega (arith, length-set pending first newest))
          (ap (λ k. get_or copied k blank) (omega arith)
            ∙ get_or-set_self pending first newest blank (omega arith)
            ∙ e)
    where
      blank : Pair T
      blank = Bram.no_pair z depth latency

      newest : Pair T
      newest = get_or pending (first - 1) blank

      copied : List (Pair T)
      copied = set pending first newest

  -- The requests of a rising edge are served at the falling edge of the same cycle whatever
  -- `Latency` is: the parameter delays nothing.
  pub latency_ignored :
      (m : DualPortBram T) (a b : PortRequest T)
      → 0 < latency
      → length m.pending ≡ latency
      → let served = Bram.negedge z depth latency (Bram.posedge z depth latency m a b) in
        let memory' =
          Bram.write_port z depth latency (Bram.write_port z depth latency m.memory a) b in
        (served.memory ≡ memory')
        × (served.response_a ≡ Bram.read_port z depth latency memory' a)
        × (served.response_b ≡ Bram.read_port z depth latency memory' b)
  unfolding Bram.negedge Bram.posedge
  latency_ignored m a b h l = rw newest (refl, refl, refl)
    where
      loaded : List (Pair T)
      loaded = set m.pending 0 (record { a = a; b = b })

      blank : Pair T
      blank = Bram.no_pair z depth latency

      newest :
          get_or (Bram.shift z depth latency loaded 1 (latency - 1)) (latency - 1) blank
          ≡ record { a = a; b = b }
      newest =
          ap (λ k. get_or (Bram.shift z depth latency loaded 1 (latency - 1)) k blank) (omega arith)
          ∙ shift-last loaded (record { a = a; b = b }) 1 (latency - 1) (omega arith)
              (omega (arith, length-set m.pending 0 (record { a = a; b = b })))
              (get_or-set_self m.pending 0 (record { a = a; b = b }) blank (omega arith))
