-- ===== src/Itch/Messages.antt =====
-- A buffer that is a row of whole messages is parsed to the row of their events.
use mathlib.Core.List.{append_assoc, append-nil}
use native.Mathlib.Numerals.{add-one}
use fpga_sim_core.Prelude.{
  ℕ, zero, suc, ◌+◌, ◌-◌, ◌≤◌, ◌<◌, ◌≡◌, ◌≢◌, ◌∙◌, refl, sym, ap, true, false, Option, none, some,
  List, [], ◌∷◌, ◌++◌, arith, drop, take, length, length-append, set, take-set, length-set, ltb,
  leb, ◌==◌, lt→leb, le→ltb, ne→==,
}
use fpga_sim_core.Itch.{
  ItchEvent, ok, max_events, Itch50Parser, byte, length_for, store, parse_loop, parse, set_consumed,
}
use fpga_sim_core.Crc.Detect.{AllBytes}
use fpga_sim_core.Itch.Format.{AllTell, Tells-IsMessage, Tells-decoded}
use fpga_sim_core.Itch.Reads.{IsMessage, event_of, byte-append, decode-append, decode-ne-none}

abbrev AllMessages : List (List ℕ) → Type 0
AllMessages [] = Unit {0}
AllMessages (m ∷ ms) = IsMessage m × AllMessages ms

abbrev pub concat : List (List ℕ) → List ℕ
concat [] = []
concat (m ∷ ms) = m ++ concat ms

drop-append {ℓ} : {A : Type ℓ} (xs ys : List A) → drop (length xs) (xs ++ ys) ≡ ys
drop-append [] ys = refl
drop-append (x ∷ xs) ys = drop-append xs ys

-- The parser after the events of a row of messages.
store_all : Itch50Parser → List (List ℕ) → Itch50Parser
store_all p [] = p
store_all p (m ∷ ms) = store_all (store p (event_of m)) ms

store-count :
    (p : Itch50Parser) (e : Option ItchEvent)
    → e ≢ none
    → (store p e).event_count ≡ p.event_count + 1
unfolding store
store-count p none h = absurd (h refl)
store-count p (some e) h = refl

parse_loop-messages :
    (fuel : ℕ) (done : List ℕ) (ms : List (List ℕ)) (p : Itch50Parser)
    → AllMessages ms
    → length (concat ms) < fuel
    → p.event_count + length ms ≤ max_events
    → parse_loop fuel (done ++ concat ms) (length (done ++ concat ms)) (length done) p
      ≡ some (store_all p ms, length (done ++ concat ms))
unfolding parse_loop store_all
parse_loop-messages zero done ms p whole enough room = absurd (omega arith)
parse_loop-messages (suc fuel) done [] p whole enough room =
    let e : length (done ++ []) ≡ length done = omega (arith, length-append done []) in
    let stop : leb (length done) (length done) ≡ true = ground arith in rw (e, stop)
parse_loop-messages (suc fuel) done (m ∷ ms) p whole enough room =
    rw (here, kind, more, space, known, fits, decode-append m rest some_length)
      (ap (λ b. parse_loop fuel b (length b) (length done + length m) (store p (event_of m)))
          (sym (append_assoc done m rest))
        ∙ ap (λ k. parse_loop fuel joined (length joined) k (store p (event_of m)))
            (sym (length-append done m))
        ∙ parse_loop-messages fuel (done ++ m) ms (store p (event_of m)) whole.1
            (omega (arith, length-append m rest)) (omega (arith, stored))
        ∙ ap (λ b. some (store_all (store p (event_of m)) ms, length b)) (append_assoc done m rest))
  where
    rest : List ℕ
    rest = concat ms

    joined : List ℕ
    joined = (done ++ m) ++ rest

    some_length : 0 < length m
    some_length = whole.0.1

    here : drop (length done) (done ++ (m ++ rest)) ≡ m ++ rest
    here = drop-append done (m ++ rest)

    kind : length_for (byte (m ++ rest) 0) ≡ length m
    kind = ap length_for (byte-append m rest 0 some_length) ∙ whole.0.0

    total : length (done ++ (m ++ rest)) ≡ length done + (length m + length rest)
    total = omega (arith, length-append done (m ++ rest), length-append m rest)

    more : leb (length (done ++ (m ++ rest))) (length done) ≡ false
    more = lt→leb _ _ (omega (arith, total))

    space : leb max_events p.event_count ≡ false
    space = lt→leb _ _ (omega arith)

    known : (length m == 0) ≡ false
    known = ne→== _ _ (omega arith)

    fits : ltb (length (done ++ (m ++ rest)) - length done) (length m) ≡ false
    fits = le→ltb _ _ (omega (arith, total))

    stored : (store p (event_of m)).event_count ≡ p.event_count + 1
    stored = store-count p (event_of m) (decode-ne-none m whole.0)

-- The events of a row of messages, in order.
abbrev listed : Option ItchEvent → List ItchEvent
listed none = []
listed (some e) = e ∷ []

abbrev events_of : List (List ℕ) → List ItchEvent
events_of [] = []
events_of (m ∷ ms) = listed (event_of m) ++ events_of ms

-- The stored events, as far as they count.
abbrev pub kept : Itch50Parser → List ItchEvent
kept p = take p.event_count p.events

store-kept :
    (p : Itch50Parser) (e : Option ItchEvent)
    → p.event_count < length p.events
    → kept (store p e) ≡ kept p ++ listed e
unfolding store
store-kept p none h = sym (append-nil (kept p))
store-kept p (some e) h =
    ap (λ k. take k (set p.events p.event_count e)) (add-one p.event_count)
    ∙ take-set p.events p.event_count e h

record Stored (p p' : Itch50Parser) (ms : List (List ℕ)) : Type 0 where
  pub count : p'.event_count ≡ p.event_count + length ms
  pub kept_eq : kept p' ≡ kept p ++ events_of ms
  pub status_eq : p'.status ≡ p.status

store-length :
    (p : Itch50Parser) (e : Option ItchEvent) → length (store p e).events ≡ length p.events
unfolding store
store-length p none = refl
store-length p (some e) = length-set p.events p.event_count e

store-status : (p : Itch50Parser) (e : Option ItchEvent) → (store p e).status ≡ p.status
unfolding store
store-status p none = refl
store-status p (some e) = refl

store_all-Stored :
    (p : Itch50Parser) (ms : List (List ℕ))
    → AllMessages ms
    → p.event_count + length ms ≤ length p.events
    → Stored p (store_all p ms) ms
unfolding store_all
store_all-Stored p [] whole room = record {
  count = omega arith;
  kept_eq = sym (append-nil (kept p));
  status_eq = refl;
}
store_all-Stored p (m ∷ ms) whole room =
    let counted = store-count p (event_of m) (decode-ne-none m whole.0) in
    let later =
      store_all-Stored (store p (event_of m)) ms whole.1
        (omega (arith, counted, store-length p (event_of m))) in
    record {
      count = omega (arith, counted, later.count);
      kept_eq =
          later.kept_eq
          ∙ ap (λ l. l ++ events_of ms) (store-kept p (event_of m) (omega arith))
          ∙ append_assoc (kept p) (listed (event_of m)) (events_of ms);
      status_eq = later.status_eq ∙ store-status p (event_of m);
    }

parse-events_of :
    (p : Itch50Parser) (ms : List (List ℕ))
    → length p.events ≡ max_events
    → AllMessages ms
    → length ms ≤ max_events
    → (p' : Itch50Parser) × (parse p (concat ms) (length (concat ms)) ≡ some p')
      × (p'.status ≡ ok)
      × (p'.consumed ≡ length (concat ms))
      × (p'.event_count ≡ length ms)
      × (kept p' ≡ events_of ms)
unfolding parse
parse-events_of p ms size whole few =
    let p0 : Itch50Parser = record p {
      event_count = 0;
      byte_count = length (concat ms);
      status = ok;
    } in
    let s = store_all-Stored p0 ms whole (omega arith) in
    (
      record (store_all p0 ms) { consumed = length (concat ms) },
      ap set_consumed
          (parse_loop-messages (length (concat ms) + 1) [] ms p0 whole (omega arith) (omega arith)),
      s.status_eq,
      refl,
      s.count ∙ omega arith,
      s.kept_eq,
    )

AllBytes-split : (xs ys : List ℕ) → AllBytes (xs ++ ys) → AllBytes xs × AllBytes ys
AllBytes-split [] ys o = (tt, o)
AllBytes-split (x ∷ xs) ys o = let (a, b) = AllBytes-split xs ys o.1 in ((o.0, a), b)

-- Messages that tell events are whole, and the events are those of the decoder.
told_events :
    (ms : List (List ℕ)) (es : List ItchEvent)
    → AllBytes (concat ms)
    → AllTell ms es
    → AllMessages ms × (events_of ms ≡ es) × (length ms ≡ length es)
told_events [] [] o h = (tt, refl, refl)
told_events [] (e ∷ es) o h = absurd h
told_events (m ∷ ms) [] o h = absurd h
told_events (m ∷ ms) (e ∷ es) o h =
    let (om, os) = AllBytes-split m (concat ms) o in
    let (whole, same, count) = told_events ms es os h.1 in
    (
      (Tells-IsMessage m e h.0, whole),
      ap (λ o. listed o ++ events_of ms) (Tells-decoded m om e h.0) ∙ ap (λ l. e ∷ l) same,
      ap suc count,
    )

-- A buffer of at most 32 messages that tell the events `es`, each by its first byte, its length and the
-- numbers its fields write, is consumed to its end with status `ok`, and the stored events are `es` in
-- order. The bytes are below 256, and the parser has its 32 places for events.
pub parse-messages :
    (p : Itch50Parser) (ms : List (List ℕ)) (es : List ItchEvent)
    → length p.events ≡ max_events
    → AllBytes (concat ms)
    → AllTell ms es
    → length ms ≤ max_events
    → (p' : Itch50Parser) × (parse p (concat ms) (length (concat ms)) ≡ some p')
      × (p'.status ≡ ok)
      × (p'.consumed ≡ length (concat ms))
      × (p'.event_count ≡ length es)
      × (kept p' ≡ es)
parse-messages p ms es size octets told few =
    let (whole, same, count) = told_events ms es octets told in
    let (p', run, status, consumed, counted, stored) = parse-events_of p ms size whole few in
    (p', run, status, consumed, counted ∙ count, stored ∙ same)
