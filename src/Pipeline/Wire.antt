-- ===== src/Pipeline/Wire.antt =====
-- The stages of `posedge` next to the wire: the PCS and the MAC.
use fpga_sim_core.Prelude.{
  memcpy, ℕ, ◌+◌, ◌-◌, ◌*◌, ◌/◌, ◌%◌, ◌^◌, Bool, true, not, ◌&&◌, ◌||◌, Option, none, some, List,
  get_or, set, replicate, ltb, leb, ◌==◌, if◌then◌else◌,
}
use fpga_sim_core.Axi.{Axi4Stream512}
use fpga_sim_core.Mac
use fpga_sim_core.Pcs
use fpga_sim_core.Pcs.{PcsResult}
use fpga_sim_core.Pipeline.{holds, free, work, finished, load, slot_id}
use fpga_sim_core.Stream.{Message}
use fpga_sim_core.Pipeline.State.{MsgState, blank_state, TickToTrade}
use fpga_sim_core.Pipeline.Posting.{id_of, vacated, failed}

abbrev pub msg_state : TickToTrade → ℕ → MsgState
msg_state t id = get_or t.state id blank_state

abbrev pub update : TickToTrade → ℕ → MsgState → TickToTrade
update t id s = record t { state = set t.state id s }

-- One beat of the frame: `at` is its offset, `n` its number of bytes.
abbrev beat_of : List ℕ → ℕ → ℕ → Bool → Axi4Stream512
beat_of payload at n last = record {
  tdata = memcpy (replicate 64 0) 0 payload at n;
  tkeep = 2 ^ n - 1;
  tvalid = true;
  tready = true;
  tlast = last;
}

unfoldable pub send_beat : TickToTrade → TickToTrade
send_beat t =
    let id : ℕ = id_of t.mac.msg in
    let s : MsgState = msg_state t id in
    let at : ℕ = (t.mac_beats_total + 2 ^ 64 - t.mac.left) * 64 % 2 ^ 64 in
    let remaining : ℕ = (s.frame_len + 2 ^ 64 - at) % 2 ^ 64 in
    let n : ℕ = if ltb remaining 64 then remaining else 64 in
    let beat : Axi4Stream512 = beat_of s.payload at n (t.mac.left == 1) in
    let (framer', taken) = Mac.accept t.mac_framer beat in
    failed
      (record (update t id (record s { frame = memcpy s.frame at beat.tdata 0 n })) {
        mac_framer = framer';
        mac = record t.mac { left = t.mac.left - 1 };
      })
      (not taken)

unfoldable pub mac_stage : TickToTrade → ℕ → TickToTrade
mac_stage t cycle =
    let t1 =
      if holds t.mac.msg && leb t.mac.avail cycle && ltb 0 t.mac.left then send_beat t else t in
    if finished t1.mac cycle && free t1.parse
    then record t1 {
      parse = load t1.parse (some (id_of t1.mac.msg)) (cycle + 1) 2;
      mac = vacated t1.mac;
    }
    else t1

abbrev filled_or {ℓ} : {A : Type ℓ} → A → Option A → A
filled_or a none = a
filled_or a (some b) = b

-- The next message on the wire becomes blocks.
unfoldable pub receive : (ℕ → Message) → TickToTrade → ℕ → TickToTrade
receive message t cycle =
    let m : Message = message t.next_msg in
    let s : MsgState = msg_state t t.next_msg in
    let (n, blocks') = Pcs.encode (some m.bytes) m.length (some s.blocks) 8 in
    failed
      (record (update t t.next_msg
        (record s { blocks = filled_or s.blocks blocks'; block_count = n })) {
          pcs = load t.pcs (slot_id t.next_msg) cycle (n % 2 ^ 32);
          next_msg = t.next_msg + 1;
        })
      (n == 0)

-- The blocks of the message become its payload.
unfoldable pub hand_to_mac : (ℕ → Message) → TickToTrade → ℕ → TickToTrade
hand_to_mac message t cycle =
    let id : ℕ = id_of t.pcs.msg in
    let s : MsgState = msg_state t id in
    let len : ℕ = (message id).length in
    let beats : ℕ = (len + 63) / 64 in
    let (r, payload') = Pcs.decode (some s.blocks) s.block_count (some s.payload) 48 len in
    let bad : Bool = not r.block_lock || not r.crc_valid || not (r.payload_length == len) in
    let (framer', gap) = Mac.verify_ipg t.mac_framer 12 in
    failed
      (record (update t id (record s { payload = filled_or s.payload payload'; frame_len = len })) {
        mac_beats_total = beats;
        mac_framer = framer';
        mac = load t.mac (some id) (cycle + 1) (beats % 2 ^ 32);
        pcs = vacated t.pcs;
      })
      (bad || not gap)

unfoldable pub pcs_stage : ℕ → (ℕ → Message) → TickToTrade → ℕ → TickToTrade
pcs_stage count message t cycle =
    let t1 =
      if free t.pcs && ltb t.next_msg count && leb (message t.next_msg).arrival_cycle cycle
      then receive message t cycle
      else t in
    let t2 : TickToTrade = record t1 { pcs = (work t1.pcs cycle).0 } in
    if finished t2.pcs cycle && free t2.mac then hand_to_mac message t2 cycle else t2
