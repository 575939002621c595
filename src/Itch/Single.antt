-- ===== src/Itch/Single.antt =====
-- A buffer that holds one message.
use native.Mathlib.Numerals.{add-one}
use fpga_sim_core.Prelude.{
  ℕ, zero, suc, ◌+◌, ◌<◌, ◌≡◌, ◌∙◌, refl, ap, true, false, ltb, leb, drop, ◌-◌, some, List, arith,
  length, set, length-set, get_or, get_or-set_self, ◌==◌,
}
use fpga_sim_core.Itch
use fpga_sim_core.Itch.{
  ItchEvent, blank_event, Itch50Parser, ok, byte, length_for, decode, store, parse_loop,
  set_consumed, max_events, decode_add, decode_executed, decode_cancel, decode_delete,
  decode_replace,
}

decode-length :
    (bytes : List ℕ) (n : ℕ) (e : ItchEvent)
    → decode bytes n ≡ some e
    → (length_for (byte bytes 0) ≡ n) × (0 < n)
unfolding decode length_for
decode-length bytes n e h = ground (arith, h)

parse_loop-end :
    (fuel : ℕ) (bytes : List ℕ) (n : ℕ) (p : Itch50Parser)
    → 0 < fuel
    → parse_loop fuel bytes n n p ≡ some (p, n)
unfolding parse_loop
parse_loop-end zero bytes n p h = absurd (ground (arith, h))
parse_loop-end (suc fuel) bytes n p h = let e : leb n n ≡ true = ground arith in rw e refl

parse_loop-single :
    (fuel n : ℕ) (bytes : List ℕ) (p : Itch50Parser) (e : ItchEvent)
    → decode bytes n ≡ some e
    → p.event_count ≡ 0
    → 0 < fuel
    → parse_loop (suc fuel) bytes n 0 p ≡ some (store p (some e), n)
unfolding parse_loop
parse_loop-single fuel n bytes p e h count f =
    let (kind, q) = decode-length bytes n e h in
    let more : leb n 0 ≡ false = ground (arith, q) in
    let space : leb max_events p.event_count ≡ false = ground (arith, count) in
    let known : (n == 0) ≡ false = ground (arith, q) in
    let fits : ltb (n - 0) n ≡ false = ground arith in
    let start : drop 0 bytes ≡ bytes = refl in
    let first : 0 + n ≡ n = omega arith in
    rw (start, kind, more, space, known, fits, h, first)
      (parse_loop-end fuel bytes n (store p (some e)) f)

-- The event of a whole message is stored first, and nothing is left.
pub parse-single :
    (p : Itch50Parser) (bytes : List ℕ) (n : ℕ) (e : ItchEvent)
    → decode bytes n ≡ some e
    → length p.events ≡ max_events
    → (p' : Itch50Parser) × (Itch.parse p bytes n ≡ some p')
      × (get_or p'.events 0 blank_event ≡ e)
      × (p'.event_count ≡ 1)
      × (p'.status ≡ ok)
      × (p'.consumed ≡ n)
      × (length p'.events ≡ max_events)
unfolding Itch.parse store
parse-single p bytes n e h size =
    let p0 : Itch50Parser = record p { event_count = 0; byte_count = n; status = ok } in
    (
      record p {
        events = set p.events 0 e;
        event_count = 1;
        byte_count = n;
        consumed = n;
        status = ok;
      },
      ap set_consumed (
          ap (λ k. parse_loop k bytes n 0 p0) (add-one n)
          ∙ parse_loop-single n n bytes p0 e h refl (decode-length bytes n e h).1),
      get_or-set_self p.events 0 e blank_event (omega (arith, size)),
      refl,
      refl,
      refl,
      length-set p.events 0 e ∙ size,
    )
