-- ===== src/Pipeline/Line/Stages.antt =====
-- Every stage of `posedge` leaves the line in order, or there is an error.
use fpga_sim_core.Prelude.{
  ℕ, ◌+◌, ◌^◌, ◌<◌, ◌≤◌, ◌≡◌, sym, subst, Bool, true, some, ◌&&◌, arith, ltb, leb, if◌then◌else◌,
}
use fpga_sim_core.Pipeline.{holds, free, work, finished, load, slot_id}
use fpga_sim_core.Stream.{Message}
use fpga_sim_core.Pipeline.State.{TickToTrade}
use fpga_sim_core.Pipeline.Posting.{id_of, vacated}
use fpga_sim_core.Pipeline.Wire.{send_beat, mac_stage, receive, hand_to_mac, pcs_stage}
use fpga_sim_core.Pipeline.Edges.{parse_stage}
use fpga_sim_core.Pipeline.Line.{
  line_of, IsLine, Fine, holds-none, failed-Fine, if-Fine, moved, work-msg, finished-msg, free-msg,
}
use fpga_sim_core.Pipeline.Line.Moves.{mac_to_parse, pcs_to_mac, parse_to_book, wire_to_pcs}

send_beat-Fine : (t : TickToTrade) → Fine t → Fine (send_beat t)
unfolding send_beat
send_beat-Fine t f = failed-Fine _ _ (λ _. f)

module _ (cycle : ℕ) where
  abbrev to_parse : TickToTrade → TickToTrade
  to_parse t = record t {
    parse = load t.parse (some (id_of t.mac.msg)) (cycle + 1) 2;
    mac = vacated t.mac;
  }

  to_parse-Fine :
      (t : TickToTrade)
      → Fine t
      → Fine (if finished t.mac cycle && free t.parse then to_parse t else t)
  unfolding load
  to_parse-Fine t f =
      if-Fine (finished t.mac cycle && free t.parse) (to_parse t) t
        (λ h.
          moved
            (λ i.
              mac_to_parse (line_of t) i (free-msg t.parse (finished t.mac cycle) h)
                (finished-msg t.mac cycle (free t.parse) h))
            f)
        (λ _. f)

  pub mac_stage-Fine : (t : TickToTrade) → Fine t → Fine (mac_stage t cycle)
  unfolding mac_stage
  mac_stage-Fine t f =
      let busy : Bool = holds t.mac.msg && leb t.mac.avail cycle && ltb 0 t.mac.left in
      to_parse-Fine (if busy then send_beat t else t)
        (if-Fine busy (send_beat t) t (λ _. send_beat-Fine t f) (λ _. f))

  pub parse_stage-Fine : (t : TickToTrade) → Fine t → Fine (parse_stage t cycle)
  unfolding parse_stage load
  parse_stage-Fine t f =
      let t1 : TickToTrade = record t { parse = (work t.parse cycle).0 } in
      let g = worked_parse t f in
      if-Fine (finished t1.parse cycle && free t1.book_slot) _ t1
        (λ h. failed-Fine _ _ (λ _.
          moved
            (λ i.
              parse_to_book (line_of t1) i (free-msg t1.book_slot (finished t1.parse cycle) h)
                (finished-msg t1.parse cycle (free t1.book_slot) h))
            g))
        (λ _. g)
    where
      worked_parse : (t : TickToTrade) → Fine t → Fine (record t { parse = (work t.parse cycle).0 })
      worked_parse t =
          moved
            (subst (λ m. IsLine (record (line_of t) { parse = m })) (sym (work-msg t.parse cycle)))

slot_id-small : (n : ℕ) → n < 2 ^ 31 → slot_id n ≡ some n
unfolding slot_id
slot_id-small n h = ground arith

receive-Fine :
    (count : ℕ) (message : ℕ → Message) (cycle : ℕ) (t : TickToTrade)
    → count ≤ 2 ^ 31
    → (free t.pcs && ltb t.next_msg count && leb (message t.next_msg).arrival_cycle cycle) ≡ true
    → Fine t
    → Fine (receive message t cycle)
unfolding receive load free
receive-Fine count message cycle t few h f = failed-Fine _ _ (λ _.
    moved
      (λ i.
        subst (λ m. IsLine (record (line_of t) { pcs = m; next_msg = t.next_msg + 1 }))
          (sym (slot_id-small t.next_msg (ground (arith, h, few))))
          (wire_to_pcs (line_of t) i (holds-none t.pcs.msg (ground (arith, h)))
            (ground (arith, h, few))))
      f)

hand_to_mac-Fine :
    (message : ℕ → Message) (cycle : ℕ) (t : TickToTrade)
    → (finished t.pcs cycle && free t.mac) ≡ true
    → Fine t
    → Fine (hand_to_mac message t cycle)
unfolding hand_to_mac load
hand_to_mac-Fine message cycle t h f = failed-Fine _ _ (λ _.
    moved
      (λ i.
        pcs_to_mac (line_of t) i (free-msg t.mac (finished t.pcs cycle) h)
          (finished-msg t.pcs cycle (free t.mac) h))
      f)

hand_over-Fine :
    (message : ℕ → Message) (cycle : ℕ) (t : TickToTrade)
    → Fine t
    → let t' : TickToTrade = record t { pcs = (work t.pcs cycle).0 } in
      Fine (if finished t'.pcs cycle && free t'.mac then hand_to_mac message t' cycle else t')
hand_over-Fine message cycle t f =
    if-Fine (finished (work t.pcs cycle).0 cycle && free t.mac)
      (hand_to_mac message (record t { pcs = (work t.pcs cycle).0 }) cycle)
      (record t { pcs = (work t.pcs cycle).0 })
      (λ h. hand_to_mac-Fine message cycle (record t { pcs = (work t.pcs cycle).0 }) h g) (λ _. g)
  where
    g : Fine (record t { pcs = (work t.pcs cycle).0 })
    g = moved (subst (λ m. IsLine (record (line_of t) { pcs = m })) (sym (work-msg t.pcs cycle))) f

pub pcs_stage-Fine :
    (count : ℕ) (message : ℕ → Message) (cycle : ℕ) (t : TickToTrade)
    → count ≤ 2 ^ 31
    → Fine t
    → Fine (pcs_stage count message t cycle)
unfolding pcs_stage
pcs_stage-Fine count message cycle t few f =
    let arrived : Bool =
      free t.pcs && ltb t.next_msg count && leb (message t.next_msg).arrival_cycle cycle in
    hand_over-Fine message cycle (if arrived then receive message t cycle else t) (
      if-Fine arrived (receive message t cycle) t (λ h. receive-Fine count message cycle t few h f)
        (λ _. f))
