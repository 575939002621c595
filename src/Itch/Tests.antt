-- ===== src/Itch/Tests.antt =====
-- A delete message, alone and with a byte of no known type behind it.
use fpga_sim_core.Prelude.{ℕ, ◌≡◌, refl, some, List, [], ◌∷◌, ◌++◌, arith, length}
use fpga_sim_core.Itch
use fpga_sim_core.Itch.{
  Itch50Parser, ItchEvent, blank_event, delete_order, decode, ok, parse, max_events, decode_delete,
  u64be, u64be_loop,
}
use fpga_sim_core.Itch.Loop.{Stopped, parse_lem}
use fpga_sim_core.Itch.Messages.{concat, kept, parse-messages}
use fpga_sim_core.Itch.Format.{AllTell, tells_delete}
use fpga_sim_core.Crc.Detect.{AllBytes}

abbrev delete_message : List ℕ
delete_message = b'D' ∷ 0 ∷ 1 ∷ 0 ∷ 0 ∷ 0 ∷ 0 ∷ 0 ∷ 0 ∷ 0 ∷ 7 ∷ 0 ∷ 0 ∷ 0 ∷ 0 ∷ 0 ∷ 0 ∷ 3 ∷ 232 ∷ []

abbrev messages : List (List ℕ)
messages = delete_message ∷ delete_message ∷ []

-- The order reference is 3 * 256 + 232.
decoded :
    decode delete_message 19
    ≡ some (record blank_event { type = delete_order; order_reference = 1000 })
unfolding decode decode_delete u64be
decoded = refl

abbrev deleted : List ItchEvent
deleted =
    record blank_event { type = delete_order; order_reference = 1000 }
    ∷ record blank_event { type = delete_order; order_reference = 1000 }
    ∷ []

messages-AllBytes : AllBytes (concat messages)
messages-AllBytes = ground arith

messages-AllTell : AllTell messages deleted
messages-AllTell = (tells_delete refl refl, (tells_delete refl refl, tt))

fresh-size : length Itch.fresh.events ≡ max_events
unfolding Itch.fresh
fresh-size = refl

parse-messages_example :
    (p' : Itch50Parser) × (parse Itch.fresh (concat messages) (length (concat messages)) ≡ some p')
    × (p'.status ≡ ok)
    × (p'.consumed ≡ length (concat messages))
    × (p'.event_count ≡ 2)
    × (kept p' ≡ deleted)
parse-messages_example =
    parse-messages Itch.fresh messages deleted fresh-size messages-AllBytes messages-AllTell
      (omega arith)

parse_lem_example :
    (p' : Itch50Parser) × (parse Itch.fresh (delete_message ++ 255 ∷ []) 20 ≡ some p')
    × Stopped (delete_message ++ 255 ∷ []) 20 p' p'.consumed
parse_lem_example = parse_lem Itch.fresh (delete_message ++ 255 ∷ []) 20
