-- ===== src/Pipeline/Line/Front.antt =====
-- The stages of `posedge` from the book to the decision leave the line in order, or there is an error.
use fpga_sim_core.Prelude.{
  ℕ, ◌+◌, ◌-◌, ◌%◌, ◌^◌, ◌≡◌, ◌∙◌, ◌⊎◌, refl, sym, subst, inl, inr, Bool, true, false, not, ◌&&◌,
  Option, none, some, List, set, get_or, arith, leb, ◌==◌, if◌then◌else◌,
}
use fpga_sim_core.Prelude.Int.{ℤ}
use fpga_sim_core.Ring
use fpga_sim_core.Dma.{PcieGen4x16Dma, PcieTlp}
use fpga_sim_core.Itch.{
  ItchType, ItchEvent, add, add_mpid, executed, executed_price, cancel, delete_order, replace,
  unknown,
}
use fpga_sim_core.Orders
use fpga_sim_core.Orders.{Reduced}
use fpga_sim_core.Pipeline.{
  Desk, holds, free, work, finished, load, fail, enter, take_off, lower_order, replace_with,
  apply_event, apply_to_book,
}
use fpga_sim_core.Pipeline.Applied.{enter-error, take_off-error}
use fpga_sim_core.Stream.{Message}
use fpga_sim_core.Pipeline.State.{TickToTrade, blank_state}
use fpga_sim_core.Pipeline.Posting.{
  id_of, vacated, failed, post_decision, post_and_drain, decision_tlp,
}
use fpga_sim_core.Pipeline.Edges.{dma_stage, ofi_stage, read_stage, book_stage, start_dma}
use fpga_sim_core.Pipeline.Line.{
  Line, line_of, IsLine, Fine, holds-some, failed-Fine, if-Fine, moved, work-msg, worked-msg,
  finished-msg, free-msg,
}
use fpga_sim_core.Pipeline.Line.Moves.{
  book_to_rd, rd_to_ring, ofi_in_to_ring, dma_q_to_dma, dma_q_empty, dma_completed,
}

-- An error stays.
enter-stays :
    (d : Desk) (reference : ℕ) (bid : Bool) (price shares : ℤ)
    → d.error ≡ true
    → (enter d reference bid price shares).error ≡ true
enter-stays d reference bid price shares e = enter-error d reference bid price shares ∙ rw e refl

lower_order-stays :
    (d : Desk) (reference : ℕ) (shares : ℤ)
    → d.error ≡ true
    → (lower_order d reference shares).error ≡ true
unfolding lower_order
lower_order-stays d reference shares e =
    take_off-error (record d { orders = (Orders.reduce d.orders reference shares).0 })
      (Orders.reduce d.orders reference shares).1
    ∙ rw e refl

replace_with-stays :
    (d : Desk) (r : Option Reduced) (e : ItchEvent)
    → d.error ≡ true
    → (replace_with d r e).error ≡ true
unfolding replace_with fail
replace_with-stays d none e h = refl
replace_with-stays d (some r) e h =
    enter-stays (take_off d (some r)) _ _ _ _ (take_off-error d (some r) ∙ rw h refl)

apply_event-stays :
    (d : Desk) (e : ItchEvent) (type : ItchType)
    → d.error ≡ true
    → (apply_event d e type).error ≡ true
unfolding apply_event fail
apply_event-stays d e add h = enter-stays d _ _ _ _ h
apply_event-stays d e add_mpid h = enter-stays d _ _ _ _ h
apply_event-stays d e executed h = lower_order-stays d _ _ h
apply_event-stays d e executed_price h = lower_order-stays d _ _ h
apply_event-stays d e cancel h = lower_order-stays d _ _ h
apply_event-stays d e delete_order h = lower_order-stays d _ _ h
apply_event-stays d e replace h = replace_with-stays _ _ e h
apply_event-stays d e unknown h = refl

apply_to_book-stays :
    (ask : ℤ) (d : Desk) (e : ItchEvent) → d.error ≡ true → (apply_to_book ask d e).0.error ≡ true
unfolding apply_to_book
apply_to_book-stays ask d e h = apply_event-stays d e e.type h

-- The same as `if-Fine` for a stage with a second result.
pub if-Fine_first :
    {R : Type 0} (b : Bool) (x y : TickToTrade × R)
    → (b ≡ true → Fine x.0)
    → (b ≡ false → Fine y.0)
    → Fine (if b then x else y).0
if-Fine_first true x y h h' = h refl
if-Fine_first false x y h h' = h' refl

-- A change of the line with a change of the desk that keeps an error.
moved_with :
    {error error' : Bool} {l l' : Line}
    → (error ≡ true → error' ≡ true)
    → (IsLine l → IsLine l')
    → (error ≡ true) ⊎ IsLine l
    → (error' ≡ true) ⊎ IsLine l'
moved_with stays move (inl e) = inl (stays e)
moved_with stays move (inr i) = inr (move i)

module _ (cycle : ℕ) where
  pub book_stage-Fine : (ask : ℤ) (t : TickToTrade) → Fine t → Fine (book_stage ask t cycle).0
  unfolding book_stage load
  book_stage-Fine ask t f =
      let t1 : TickToTrade = record t { book_slot = (work t.book_slot cycle).0 } in
      let g = worked_book t f in
      if-Fine_first (finished t1.book_slot cycle && free t1.rd) _ _
        (λ h.
          moved_with (apply_to_book-stays ask t1.desk _)
            (λ i.
              book_to_rd (line_of t1) i (free-msg t1.rd (finished t1.book_slot cycle) h)
                (finished-msg t1.book_slot cycle (free t1.rd) h))
            g)
        (λ _. g)
    where
      worked_book :
          (t : TickToTrade) → Fine t → Fine (record t { book_slot = (work t.book_slot cycle).0 })
      worked_book t =
          moved (
            subst (λ m. IsLine (record (line_of t) { book = m }))
              (sym (work-msg t.book_slot cycle)))

  pub read_stage-Fine : (t : TickToTrade) → Fine t → Fine (read_stage t cycle).0
  unfolding read_stage
  read_stage-Fine t f =
      if-Fine_first (holds t.rd.msg && leb t.rd.avail cycle) _ _
        (λ h. failed-Fine _ _ (λ ok.
          moved
            (λ i.
              rd_to_ring (line_of t) i (holds-some t.rd.msg (ground (arith, h)))
                (ground (arith, ok)))
            f))
        (λ _. f)

  pub ofi_stage-Fine : (t : TickToTrade) → Fine t → Fine (ofi_stage t cycle)
  unfolding ofi_stage
  ofi_stage-Fine t f =
      if-Fine (holds t.ofi_in.msg && leb t.ofi_in.avail cycle) _ _
        (λ h. failed-Fine _ _ (λ ok.
          moved
            (λ i.
              ofi_in_to_ring (line_of t) i (holds-some t.ofi_in.msg (ground (arith, h)))
                (ground (arith, ok)))
            f))
        (λ _. f)

posted-Fine :
    (t : TickToTrade) (b : Bool) (engine : PcieGen4x16Dma) (latency : List ℕ → List ℕ)
    → t.dma.msg ≡ some (id_of t.dma.msg)
    → Fine t
    → let t' = failed t b in
      Fine (record t' {
        engine = engine;
        latency = latency t'.latency;
        dma = vacated t'.dma;
        completed = (t'.completed + 1) % 2 ^ 64;
      })
unfolding fail
posted-Fine t true engine latency e f = inl refl
posted-Fine t false engine latency e f = moved (λ i. dma_completed (line_of t) i e) f

post_decision-Fine :
    (message : ℕ → Message) (t : TickToTrade) (cycle : ℕ)
    → t.dma.msg ≡ some (id_of t.dma.msg)
    → Fine t
    → Fine (post_decision message t cycle)
unfolding post_decision
post_decision-Fine message t cycle e f =
    let id : ℕ = id_of t.dma.msg in
    let tlp : PcieTlp = decision_tlp id (get_or t.state id blank_state) in
    posted-Fine t (not (post_and_drain t.engine tlp).1) (post_and_drain t.engine tlp).0
      (λ latency.
        set latency (id_of t.dma.msg)
          ((cycle + 2 ^ 64 - (message (id_of t.dma.msg)).arrival_cycle + 1) % 2 ^ 64 % 2 ^ 32))
      e f

start_dma-Fine :
    (t : TickToTrade) (cycle : ℕ) (next : Option ℕ)
    → (Ring.pop 64 0 t.dma_q).1 ≡ next
    → t.dma.msg ≡ none
    → Fine t
    → Fine (start_dma (record t { dma_q = (Ring.pop 64 0 t.dma_q).0 }) next cycle)
unfolding load
start_dma-Fine t cycle none got e f = moved (λ i. dma_q_empty (line_of t) i got) f
start_dma-Fine t cycle (some id) got e f = moved (λ i. dma_q_to_dma (line_of t) i id e got) f

work_dma-Fine :
    (message : ℕ → Message) (t : TickToTrade) (cycle : ℕ)
    → Fine t
    → let (dma', worked) = work t.dma cycle in
      Fine (
        if worked && dma'.left == 0
        then post_decision message (record t { dma = dma' }) cycle
        else record t { dma = dma' })
work_dma-Fine message t cycle f =
    if-Fine ((work t.dma cycle).1 && (work t.dma cycle).0.left == 0)
      (post_decision message (record t { dma = (work t.dma cycle).0 }) cycle)
      (record t { dma = (work t.dma cycle).0 })
      (λ h.
        post_decision-Fine message (record t { dma = (work t.dma cycle).0 }) cycle
          (rw work-msg (worked-msg t.dma cycle (ground (arith, h)))) g)
      (λ _. g)
  where
    g : Fine (record t { dma = (work t.dma cycle).0 })
    g = moved (subst (λ m. IsLine (record (line_of t) { dma = m })) (sym (work-msg t.dma cycle))) f

pub dma_stage-Fine :
    (message : ℕ → Message) (cycle : ℕ) (t : TickToTrade)
    → Fine t
    → Fine (dma_stage message t cycle)
unfolding dma_stage
dma_stage-Fine message cycle t f =
    work_dma-Fine message
      (if free t.dma
        then start_dma (record t { dma_q = (Ring.pop 64 0 t.dma_q).0 }) (Ring.pop 64 0 t.dma_q).1
            cycle
        else t)
      cycle
      (if-Fine (free t.dma) _ t
        (λ h. start_dma-Fine t cycle (Ring.pop 64 0 t.dma_q).1 refl (free-msg t.dma true h) f)
        (λ _. f))
