-- ===== src/Pipeline/Tests.antt =====
-- One live order that is replaced.
use fpga_sim_core.Prelude.{some, ◌+◌, ◌⊎◌, ◌≡◌, refl, true, false, not, ◌||◌, [], ◌∷◌, arith, leb}
use fpga_sim_core.Prelude.Int.{pos}
use fpga_sim_core.Itch.{ItchEvent, blank_event, replace}
use fpga_sim_core.Orders.{blank, order}
use fpga_sim_core.Orders.Inv.{IsValid, lookup}
use fpga_sim_core.Book
use fpga_sim_core.Pipeline.{Desk, empty_slot, finished, load, apply_event}
use fpga_sim_core.Pipeline.Slots.{worked, worked-finished}
use fpga_sim_core.Pipeline.Applied.{apply_event-IsValid}
use fpga_sim_core.Prelude.{ℕ, false, ◌%◌, ◌^◌, replicate}
use fpga_sim_core.Ring.Inv
use fpga_sim_core.Ring.Inv.{empty-IsValid}
use fpga_sim_core.Dma
use fpga_sim_core.Dma.{PcieTlp, blank_tlp}
use fpga_sim_core.Bram
use fpga_sim_core.Itch
use fpga_sim_core.Ofi
use fpga_sim_core.Ofi.{blank_quote}
use fpga_sim_core.Ring
use fpga_sim_core.Stream.{Message}
use fpga_sim_core.Pipeline.State.{blank_state, TickToTrade, fresh}
use fpga_sim_core.Vcd.{opened}
use fpga_sim_core.Pipeline.Report.{Rig, drive}
use fpga_sim_core.Pipeline.Driven.{Driven, drive-Driven}
use fpga_sim_core.Pipeline.Line.{line_of, IsLine}
use fpga_sim_core.Pipeline.Line.Cycles.{ticks-IsLine}
use fpga_sim_core.Pipeline.Posting.{post_and_drain}
use fpga_sim_core.Pipeline.Posted.{post_and_drain_lem}
use fpga_sim_core.Pipeline.Frozen.{Agree, ticks, ticks-Agree}
use fpga_sim_core.Pipeline.Errors.{accepted, apply_event-error}

abbrev desk : Desk
desk = record {
  orders = order 1000 true (pos 18925) (pos 300) ∷ blank ∷ [];
  book = Book.fresh;
  error = false;
}

abbrev replacement : ItchEvent
replacement = record blank_event {
  type = replace;
  order_reference = 1000;
  new_reference = 1001;
  shares = 200;
  price_ticks = 18926;
}

desk-IsValid : IsValid desk.orders
unfolding lookup
desk-IsValid = ((omega arith, omega arith, refl), (tt, tt))

taken : accepted desk.orders replacement replace ≡ true
unfolding lookup
taken = refl

apply_event-IsValid_example : IsValid (apply_event desk replacement replace).orders
apply_event-IsValid_example =
    apply_event-IsValid desk replacement replace (omega arith, omega arith) desk-IsValid

apply_event-error_example :
    (apply_event desk replacement replace).error
    ≡ (desk.error || not (accepted desk.orders replacement replace))
apply_event-error_example =
    apply_event-error desk replacement replace (omega arith, omega arith) desk-IsValid

worked-finished_example :
    finished (worked (load empty_slot (some 3) 7 2) 5 (1 + 3)) (5 + 3) ≡ leb (7 + 2) (5 + 3 + 1)
worked-finished_example = worked-finished empty_slot 3 7 2 5 3 (omega arith) (omega arith)

abbrev decision : PcieTlp
decision = record blank_tlp { address = 0x10000000; byte_count = 16; tag = 7 }

fresh-ring : Ring.Inv.IsValid 64 Dma.fresh.ring
unfolding Dma.fresh
fresh-ring = empty-IsValid 64 blank_tlp (omega arith)

fresh-size : Dma.fresh.ring.size ≡ 0
unfolding Dma.fresh Ring.empty
fresh-size = refl

post_and_drain_lem_example :
    let (engine', good) = post_and_drain Dma.fresh decision in
    (good ≡ true)
    × Ring.Inv.IsValid 64 engine'.ring
    × (engine'.ring.size ≡ 0)
    × (engine'.posted ≡ (Dma.fresh.posted + 1) % 2 ^ 64)
    × (engine'.msix ≡ false)
post_and_drain_lem_example = post_and_drain_lem Dma.fresh decision fresh-ring fresh-size

abbrev message : ℕ → Message
message i = record { bytes = replicate 36 0; length = 19; type = b'D'; arrival_cycle = 5 + i }

abbrev stopped : TickToTrade
stopped = record {
  desk = record desk { error = true };
  mac_framer = record { previous_end = 0; ipg_valid = false };
  parser = Itch.fresh;
  bram = Bram.fresh blank_quote 32 1;
  ofi = Ofi.fresh;
  dma = empty_slot;
  engine = Dma.fresh;
  pcs = empty_slot;
  mac = empty_slot;
  parse = empty_slot;
  book_slot = empty_slot;
  rd = empty_slot;
  ofi_in = empty_slot;
  mac_beats_total = 0;
  bram_ring = Ring.empty 16 0;
  ofi_ring = Ring.empty 16 0;
  dma_q = Ring.empty 64 0;
  state = replicate 4 blank_state;
  latency = replicate 4 0;
  next_msg = 1;
  completed = 0;
  cumulative_ofi = pos 0;
  last_ofi = pos 0;
}

ticks-Agree_example : Agree stopped (ticks 4 message (pos 2147483647) stopped 9 100)
ticks-Agree_example = ticks-Agree 4 message (pos 2147483647) stopped 9 100 refl

ticks-IsLine_example :
    let t = ticks 4 message (pos 2147483647) (fresh 16 4) 0 100 in
    (t.desk.error ≡ true) ⊎ IsLine (line_of t)
ticks-IsLine_example = ticks-IsLine 16 4 message (pos 2147483647) 100 (omega arith)

abbrev rig : Rig
rig = record { pipeline = fresh 16 4; vcd = opened true }

drive-Driven_example :
    Driven 4 message
      (pos 2147483647)
      100
      rig
      0
      (drive 4 message (pos 2147483647) 100 rig 0).0
      (drive 4 message (pos 2147483647) 100 rig 0).1
drive-Driven_example = drive-Driven 4 message (pos 2147483647) 100 rig 0
