-- ===== src/Oracle/Feed.antt =====
-- A message of the stream through the stages PARSE and BOOK.
use fpga_sim_core.Prelude.{
  ℕ, ◌+◌, ◌^◌, ◌<◌, ◌≡◌, ◌∙◌, refl, ap, sym, subst, inl, inr, Bool, true, false, not, ◌||◌,
  Bool-cases, some, arith, length, get_or, ◌==◌, if◌then◌else◌,
}
use fpga_sim_core.Prelude.Int.{
  pos, pos_part, to_u32, to_int32, to_int32-to_u32, to_int32-pos, eq_of_parts, IsInt32,
}
use fpga_sim_core.Itch.{ItchEvent, blank_event, Itch50Parser, decode, max_events}
use fpga_sim_core.Itch.Single.{parse-single}
use fpga_sim_core.Stream.{Message}
use fpga_sim_core.Stream.Synthetic.{Live, level_price, price_levels, empty_ask_price}
use fpga_sim_core.Stream.Synthetic.Account.{Account, order_at, IsAccount, IsLive}
use fpga_sim_core.Stream.Synthetic.Written.{side_byte, add_event, reduce_event}
use fpga_sim_core.Stream.Synthetic.Quoted.{bid_price_lem, ask_price_lem}
use fpga_sim_core.Stream.Synthetic.Told.{Told, enters, reduces}
use fpga_sim_core.Stream.Synthetic.Kept.{entered}
use fpga_sim_core.Stream.Synthetic.Lowered.{reduced}
use fpga_sim_core.Pipeline.{Desk, fail, enter, lower_order, apply_event, apply_to_book, quote_of}
use fpga_sim_core.Pipeline.Edges.{parsed, is_ok}
use fpga_sim_core.Oracle.Depths.{level_at}
use fpga_sim_core.Oracle.Replay.{Stages, read_frame, feed}
use fpga_sim_core.Oracle.Follows.{Follows, enter-Follows, remaining-pos}
use fpga_sim_core.Oracle.Taken.{lower-Follows}

-- The stage PARSE on a message that decodes: no error, and its event.
abbrev ReadAs : ItchEvent → Itch50Parser × Bool → Type 0
ReadAs e r =
    (r.1 ≡ false) × (get_or (r.0).events 0 blank_event ≡ e) × (length (r.0).events ≡ max_events)

read-decoded :
    (p : Itch50Parser) (m : Message) (e : ItchEvent)
    → length p.events ≡ max_events
    → decode m.bytes m.length ≡ some e
    → ReadAs e (read_frame p m)
unfolding read_frame
read-decoded p m e size d =
    let (p', run, first, count, status, consumed, size') =
      parse-single p m.bytes m.length e d size in
    subst
      (λ x. ReadAs e (
        parsed p x,
        not ((parsed p x).event_count == 1)
            || not (is_ok (parsed p x).status)
            || not ((parsed p x).consumed == m.length),
      ))
      (sym run)
      (
        ap (λ k. not (k == 1) || not (is_ok p'.status) || not (p'.consumed == m.length)) count
            ∙ ap (λ s. not (is_ok s) || not (p'.consumed == m.length)) status
            ∙ ground (arith, consumed),
        first,
        size',
      )

-- The desk and the quote after a message that decodes.
feed-decoded :
    (st : Stages) (m : Message) (e : ItchEvent)
    → length st.parser.events ≡ max_events
    → decode m.bytes m.length ≡ some e
    → let (st', quote) = feed empty_ask_price st m in
      (st'.desk ≡ apply_event st.desk e e.type)
      × (quote ≡ quote_of empty_ask_price st'.desk.book)
      × (length st'.parser.events ≡ max_events)
unfolding feed apply_to_book
feed-decoded st m e size d =
    let (good, first, size') = read-decoded st.parser m e size d in
    let (p, bad) = read_frame st.parser m in
    (
      ap (λ x. apply_event (if bad then fail st.desk else st.desk) x x.type) first
          ∙ ap (λ b. apply_event (if b then fail st.desk else st.desk) e e.type) good,
      refl,
      size',
    )

level_price-at : (bid : Bool) (l : ℕ) → l < price_levels → level_price bid l ≡ level_at bid l
level_price-at true l h = bid_price_lem l h
level_price-at false l h = ask_price_lem l h

level_at-IsInt32 : (bid : Bool) (l : ℕ) → l < price_levels → IsInt32 (level_at bid l)
level_at-IsInt32 true l h = (omega (arith, h), omega arith)
level_at-IsInt32 false l h = (omega (arith, h), omega arith)

price_read :
    (bid : Bool) (l : ℕ) → l < price_levels → to_int32 (to_u32 (level_price bid l)) ≡ level_at bid l
price_read bid l h =
    ap (λ z. to_int32 (to_u32 z)) (level_price-at bid l h)
    ∙ to_int32-to_u32 (level_at bid l) (level_at-IsInt32 bid l h)

side_read : (bid : Bool) → (side_byte bid == b'B') ≡ bid
side_read true = refl
side_read false = refl

add_event-applied :
    (d : Desk) (o : Live)
    → IsLive o
    → let e =
        add_event o.reference o.bid (pos_part o.remaining) (to_u32 (level_price o.bid o.level)) in
      apply_event d e e.type ≡ enter d o.reference o.bid (level_at o.bid o.level) o.remaining
unfolding apply_event
add_event-applied d o v =
    let price = to_int32 (to_u32 (level_price o.bid o.level)) in
    let shares = to_int32 (pos_part o.remaining) in
    ap (λ b. enter d o.reference b price shares) (side_read o.bid)
    ∙ ap (λ z. enter d o.reference o.bid z shares) (price_read o.bid o.level v.level_lt)
    ∙ ap (enter d o.reference o.bid (level_at o.bid o.level))
        (to_int32-pos (pos_part o.remaining) (omega (arith, v.few_left)) ∙ sym (remaining-pos o v))

reduce_event-applied :
    (d : Desk) (type reference n : ℕ)
    → n < 2 ^ 31
    → let e = reduce_event type reference n in
      apply_event d e e.type ≡ lower_order d reference (pos n)
unfolding apply_event
reduce_event-applied d type reference n h = elim (Bool-cases (type == b'E')) [
  | inl e ↦ simp e (ap (lower_order d reference) (to_int32-pos n h))
  | inr e ↦ simp e (ap (lower_order d reference) (to_int32-pos n h))
]

Follows-later : {a : Account} {bound : ℕ} {d : Desk} → Follows a bound d → Follows a (bound + 1) d
Follows-later w = record {
  valid = w.valid;
  capacity = w.capacity;
  in_use = w.in_use;
  found = w.found;
  distinct = w.distinct;
  below = λ r h. w.below r (omega (arith, h));
  shows = w.shows;
  clean = w.clean;
  none_dropped = w.none_dropped;
}

-- The stages after the message that takes the account from `a` to `a'`.
pub record Fed (a' : Account) (bound : ℕ) (st : Stages) : Type 0 where
  pub follows : Follows a' bound st.desk
  pub events : length st.parser.events ≡ max_events

pub feed-Fed :
    {i : ℕ} {a a' : Account} {m : Message} (st : Stages)
    → Told i a a' m
    → IsAccount a
    → Fed a (1000 + i) st
    → let (st', quote) = feed empty_ask_price st m in
      Fed a' (1000 + i + 1) st' × (quote ≡ quote_of empty_ask_price st'.desk.book)
feed-Fed st (enters i a o m live number few d) v w =
    let (desk, quote, events) = feed-decoded st m _ w.events d in
    (
      record {
        follows =
            subst (Follows (entered a o) (1000 + i + 1))
              (sym (desk ∙ add_event-applied st.desk o live))
              (enter-Follows a (1000 + i) st.desk o v live number few w.follows);
        events = events;
      },
      quote,
    )
feed-Fed st (reduces i a index shares type m h natural some_shares le known d) v w =
    let n = pos_part shares in
    let whole : pos n ≡ shares = eq_of_parts (pos n) shares (omega (arith, natural)) in
    let (desk, quote, events) = feed-decoded st m _ w.events d in
    let r = (order_at a index).reference in
    let small : n < 2 ^ 31 = omega (arith, le, (v.each index h).few_left) in
    (
      record {
        follows =
            subst
              (λ z. Follows (reduced a index z) (1000 + i + 1) (feed empty_ask_price st m).0.desk)
              whole
              (subst (Follows (reduced a index (pos n)) (1000 + i + 1))
                (sym (desk ∙ reduce_event-applied st.desk type r n small))
                (Follows-later
                  (lower-Follows a index n v h some_shares le (1000 + i) st.desk w.follows)));
        events = events;
      },
      quote,
    )
