-- ===== src/Itch/Loop.antt =====
-- What `parse` guarantees of any buffer.
use fpga_sim_core.Prelude.{
  ℕ, zero, suc, ◌+◌, ◌-◌, ◌≤◌, ◌<◌, ◌≡◌, ◌⊎◌, ◌∙◌, refl, ap, inl, inr, Option, none, some, List,
  arith, drop, ltb, leb, ◌==◌, Bool-cases, ==_iff, ltb→lt,
}
use fpga_sim_core.Itch.{
  ItchEvent, ok, unknown_type, truncated, event_limit, max_events, Itch50Parser, byte, length_for,
  decode, store, parse_loop, set_consumed, parse,
}

-- Where the loop may stop: `status` says why, and each reason is what the buffer shows there.
pub record Stopped (bytes : List ℕ) (total : ℕ) (p : Itch50Parser) (offset : ℕ) : Type 0 where
  pub within : offset ≤ total
  pub counted : p.event_count ≤ max_events
  pub size_kept : p.byte_count ≡ total
  pub reason :
      ((p.status ≡ ok) × (offset ≡ total))
      ⊎ (((p.status ≡ event_limit) × (offset < total) × (p.event_count ≡ max_events))
          ⊎ (((p.status ≡ unknown_type)
                × (offset < total)
                × (length_for (byte (drop offset bytes) 0) ≡ 0))
              ⊎ ((p.status ≡ truncated)
                  × (offset < total)
                  × (total - offset < length_for (byte (drop offset bytes) 0)))))

store_kept :
    (p : Itch50Parser) (e : Option ItchEvent)
    → p.event_count < max_events
    → ((store p e).event_count ≤ max_events)
      × ((store p e).byte_count ≡ p.byte_count)
      × ((store p e).status ≡ p.status)
unfolding store
store_kept p none h = (omega arith, refl, refl)
store_kept p (some e) h = (omega arith, refl, refl)

-- Enough fuel gives a result, and it is stopped as `Stopped` says.
parse_loop_lem :
    (fuel : ℕ) (bytes : List ℕ) (total offset : ℕ) (p : Itch50Parser)
    → offset ≤ total
    → total - offset < fuel
    → p.event_count ≤ max_events
    → p.byte_count ≡ total
    → p.status ≡ ok
    → (p' : Itch50Parser) × (offset' : ℕ) × (parse_loop fuel bytes total offset p
        ≡ some (p', offset'))
      × Stopped bytes total p' offset'
unfolding parse_loop
parse_loop_lem zero bytes total offset p le fuel counted size status = absurd (omega arith)
parse_loop_lem (suc fuel) bytes total offset p le enough counted size status =
    elim (Bool-cases (leb total offset)) [
      | inl done ↦ (
        p,
        offset,
        rw done,
        record {
          within = le;
          counted = counted;
          size_kept = size;
          reason = inl (status, ground arith);
        },
      )
      | inr more ↦ elim (Bool-cases (leb max_events p.event_count)) [
        | inl full ↦ (
          record p { status = event_limit },
          offset,
          rw (more, full),
          record {
            within = le;
            counted = counted;
            size_kept = size;
            reason = inr (inl (refl, ground arith, ground arith));
          },
        )
        | inr room ↦ elim (Bool-cases (length_for (byte (drop offset bytes) 0) == 0)) [
          | inl odd ↦ (
            record p { status = unknown_type },
            offset,
            rw (more, room, odd),
            record {
              within = le;
              counted = counted;
              size_kept = size;
              reason = inr (inr (inl (refl, ground arith, (==_iff _ _).0 odd)));
            },
          )
          | inr known ↦
              elim (Bool-cases (ltb (total - offset) (length_for (byte (drop offset bytes) 0)))) [
                | inl short ↦ (
                  record p { status = truncated },
                  offset,
                  rw (more, room, known, short),
                  record {
                    within = le;
                    counted = counted;
                    size_kept = size;
                    reason = inr (inr (inr (refl, ground arith, ltb→lt _ _ short)));
                  },
                )
                | inr whole ↦
                    let needed : ℕ = length_for (byte (drop offset bytes) 0) in
                    let event : Option ItchEvent = decode (drop offset bytes) needed in
                    let kept = store_kept p event (ground arith) in
                    let fits : needed ≤ total - offset = ground arith in
                    let some_length : 0 < needed = ground arith in
                    let (p', offset', result, stopped) =
                      parse_loop_lem fuel bytes total (offset + needed) (store p event)
                        (omega arith) (omega arith) kept.0 (kept.1 ∙ size) (kept.2 ∙ status) in
                    (p', offset', rw (more, room, known, whole) result, stopped)
              ]
        ]
      ]
    ]

-- `parse` always ends with a result. At most 32 events are stored and the bytes consumed lie in the
-- buffer. The status is `ok` where the whole buffer was consumed, `event_limit` where 32 events were
-- stored and bytes are left, `unknown_type` where the next byte is of no known type, and `truncated`
-- where the next message runs past the end.
pub parse_lem :
    (p : Itch50Parser) (bytes : List ℕ) (total : ℕ)
    → (p' : Itch50Parser) × (parse p bytes total ≡ some p') × Stopped bytes total p' p'.consumed
unfolding parse
parse_lem p bytes total =
    let (p', offset', result, stopped) =
      parse_loop_lem (total + 1) bytes total 0
        (record p { event_count = 0; byte_count = total; status = ok }) (omega arith) (omega arith)
        (omega arith) refl refl in
    (
      record p' { consumed = offset' },
      ap set_consumed result,
      record {
        within = stopped.within;
        counted = stopped.counted;
        size_kept = stopped.size_kept;
        reason = stopped.reason;
      },
    )
