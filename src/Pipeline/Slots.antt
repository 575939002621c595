-- ===== src/Pipeline/Slots.antt =====
-- A stage works for exactly the cycles it was loaded with.
use fpga_sim_core.Prelude.{
  ℕ, zero, suc, ◌+◌, ◌-◌, ◌≤◌, ◌<◌, ◌≡◌, ◌∙◌, ap, ◌&&◌, some, arith, ltb, leb, if◌then◌else◌,
}
use fpga_sim_core.Pipeline.{Slot, work, finished, load}

-- One call of `work` in each of `n` cycles from `cycle` on.
unfoldable pub worked : Slot → ℕ → ℕ → Slot
worked s cycle zero = s
worked s cycle (suc n) = worked (work s cycle).0 (cycle + 1) n

holding : ℕ → ℕ → ℕ → Slot
holding m a l = record { msg = some m; avail = a; left = l }

work-holding :
    (m a l cycle : ℕ)
    → (work (holding m a l) cycle).0 ≡ holding m a (if leb a cycle && ltb 0 l then l - 1 else l)
unfolding work holding
work-holding m a l cycle = ground arith

worked-holding :
    (m a l cycle n : ℕ) → worked (holding m a l) cycle n ≡ holding m a (l - (n - (a - cycle)))
unfolding worked
worked-holding m a l cycle zero = ap (holding m a) (omega arith)
worked-holding m a l cycle (suc n) = rw work-holding (
    worked-holding m a (if leb a cycle && ltb 0 l then l - 1 else l) (cycle + 1) n
    ∙ ap (holding m a) (ground arith))

-- A stage loaded with a message, a first cycle `a` and `l` cycles of work, which calls `work` in each
-- cycle from one not after `a` on, is finished in the cycle of its `l`-th call from `a` on and in every
-- later one, and in none before.
pub worked-finished :
    (s : Slot) (m a l cycle n : ℕ)
    → 0 < l
    → cycle ≤ a
    → finished (worked (load s (some m) a l) cycle (suc n)) (cycle + n)
      ≡ leb (a + l) (cycle + n + 1)
unfolding finished load holding
worked-finished s m a l cycle n p h = rw (worked-holding m a l cycle (suc n)) (ground arith)
