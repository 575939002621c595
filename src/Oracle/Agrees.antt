-- ===== src/Oracle/Agrees.antt =====
-- The quotes of the book stage against those that the stream keeps.
use native.Mathlib.Numerals.{add-one}
use fpga_sim_core.Orders.Keep.{fresh-IsValid}
use fpga_sim_core.Book.{Side, blank_level}
use fpga_sim_core.Prelude.{
  ℕ, zero, suc, ◌+◌, ◌<◌, ◌≤◌, ◌≡◌, ◌∙◌, refl, ap, sym, subst, Bool, true, false, none, List, arith,
  length, length-replicate, get_or, ℕ_discrete, replicate,
}
use fpga_sim_core.Prelude.Int.{ℤ}
use fpga_sim_core.Itch
use fpga_sim_core.Itch.{max_events, blank_event}
use fpga_sim_core.Orders
use fpga_sim_core.Orders.{OrderTable, blank}
use fpga_sim_core.Orders.Inv.{lookup}
use fpga_sim_core.Book
use fpga_sim_core.Book.View.{depth, is_some, IsValid}
use fpga_sim_core.Book.Sound.{fresh-IsSoundBook}
use fpga_sim_core.Stream.{Message}
use fpga_sim_core.Stream.Synthetic
use fpga_sim_core.Stream.Synthetic.{
  SyntheticItchStream, blank_message, message_count, round, rounds, generate, empty_ask_price,
  expected_quote,
}
use fpga_sim_core.Stream.Synthetic.Account.{account_of}
use fpga_sim_core.Stream.Synthetic.Rounds.{IsSound, Round, round-Round, fresh-IsSound}
use fpga_sim_core.Oracle.Lives.{find}
use fpga_sim_core.Oracle.Table.{used}
use fpga_sim_core.Oracle.Depths.{level_at, Shows, ShowsBook}
use fpga_sim_core.Oracle.Replay
use fpga_sim_core.Oracle.Replay.{Stages, feed, stages_after, replayed_quote}
use fpga_sim_core.Oracle.Quotes.{quote_of-Quoted}
use fpga_sim_core.Oracle.Feed.{Fed, feed-Fed}

-- The stages after `n` messages are those of the messages up to there.
stages_after-same :
    (ms ms' : List Message) (n : ℕ)
    → ((j : ℕ) → j < n → get_or ms' j blank_message ≡ get_or ms j blank_message)
    → stages_after empty_ask_price ms' n ≡ stages_after empty_ask_price ms n
unfolding stages_after
stages_after-same ms ms' zero same = refl
stages_after-same ms ms' (suc n) same =
    let ih = stages_after-same ms ms' n (λ j h. same j (omega (arith, h))) in
    ap (λ st. (feed empty_ask_price st (get_or ms' n blank_message)).0) ih
    ∙ ap (λ m. (feed empty_ask_price (stages_after empty_ask_price ms n) m).0)
        (same n (omega arith))

replayed_quote-same :
    (ms ms' : List Message) (n : ℕ)
    → ((j : ℕ) → j ≤ n → get_or ms' j blank_message ≡ get_or ms j blank_message)
    → replayed_quote empty_ask_price ms' n ≡ replayed_quote empty_ask_price ms n
unfolding replayed_quote
replayed_quote-same ms ms' n same =
    ap (λ st. (feed empty_ask_price st (get_or ms' n blank_message)).1)
      (stages_after-same ms ms' n (λ j h. same j (omega (arith, h))))
    ∙ ap (λ m. (feed empty_ask_price (stages_after empty_ask_price ms n) m).1)
        (same n (omega arith))

-- After the first `i` messages of the stream the stages follow its account, and no message up to there was
-- an error or was dropped by the book.
pub record Agrees (s : SyntheticItchStream) (i : ℕ) : Type 0 where
  pub sound : IsSound s i
  pub fed : Fed (account_of s) (1000 + i) (stages_after empty_ask_price s.messages i)
  pub quotes : (j : ℕ) → j < i → replayed_quote empty_ask_price s.messages j ≡ expected_quote s j

next_stages :
    (ms : List Message) (i : ℕ)
    → stages_after empty_ask_price ms (i + 1)
      ≡ (feed empty_ask_price (stages_after empty_ask_price ms i) (get_or ms i blank_message)).0
unfolding stages_after
next_stages ms i = ap (stages_after empty_ask_price ms) (add-one i)

step-Agrees : (s s' : SyntheticItchStream) (i : ℕ) → Agrees s i → Round s s' i → Agrees s' (i + 1)
unfolding replayed_quote
step-Agrees s s' i g r =
    let m = get_or s'.messages i blank_message in
    let st = stages_after empty_ask_price s'.messages i in
    let same : st ≡ stages_after empty_ask_price s.messages i =
      stages_after-same s.messages s'.messages i (λ j h. r.others j (λ e. omega (arith, e, h))) in
    let (fed, quote) =
      feed-Fed st r.told g.sound.account (subst (Fed (account_of s) (1000 + i)) (sym same) g.fed) in
    record {
      sound = r.sound;
      fed =
          subst (λ n. Fed (account_of s') n (stages_after empty_ask_price s'.messages (i + 1)))
            (omega arith)
            (subst (Fed (account_of s') (1000 + i + 1)) (sym (next_stages s'.messages i)) fed);
      quotes = λ j h. elim (ℕ_discrete j i) [
        | yes e ↦
            subst (λ k. replayed_quote empty_ask_price s'.messages k ≡ expected_quote s' k) (sym e)
              (quote
                ∙ quote_of-Quoted (account_of s') (feed empty_ask_price st m).0.desk.book
                    (expected_quote s' i) fed.follows.shows (r.sound.quoted i refl))
        | no ne ↦
            replayed_quote-same s.messages s'.messages j
              (λ k le. r.others k (λ e. omega (arith, e, le, h, ne)))
            ∙ g.quotes j (omega (arith, h, ne))
            ∙ sym (r.other_quotes j ne)
      ];
    }

lookup-blank : (n r : ℕ) → lookup r (replicate n blank) ≡ none
unfolding lookup
lookup-blank zero r = refl
lookup-blank (suc n) r = lookup-blank n r

used-blank : (n : ℕ) → used (replicate n blank) ≡ 0
unfolding used
used-blank zero = refl
used-blank (suc n) = used-blank n

depth-blank : (n : ℕ) (q : ℤ) → depth q (replicate n blank_level) ≡ none
unfolding depth
depth-blank zero q = refl
depth-blank (suc n) q = depth-blank n q

blank-Shows :
    (bid : Bool) (side : Side)
    → side ≡ replicate 5 blank_level
    → IsValid side
    → Shows (λ l. 0) bid side
blank-Shows bid side e v = record {
  valid = v;
  size = ap length e;
  depths = λ l h. ap (depth (level_at bid l)) e ∙ depth-blank 5 (level_at bid l);
  known = λ q found.
      absurd
        (ground (arith, found, ap (λ ls. is_some (depth q ls)) e ∙ ap is_some (depth-blank 5 q)));
}

fresh-ShowsBook : ShowsBook (λ s l. 0) Book.fresh
unfolding Book.fresh
fresh-ShowsBook true = blank-Shows true (Book.fresh).bids refl fresh-IsSoundBook.0
fresh-ShowsBook false = blank-Shows false (Book.fresh).asks refl fresh-IsSoundBook.1

fresh-Fed : Fed (account_of Synthetic.fresh) 1000 Replay.fresh
unfolding Synthetic.fresh Replay.fresh Itch.fresh Orders.fresh Book.fresh find
fresh-Fed = record {
  follows = record {
    valid = fresh-IsValid 128;
    capacity = length-replicate 128 blank;
    in_use = used-blank 128;
    found = λ r. lookup-blank 128 r;
    distinct = tt;
    below = λ r h. refl;
    shows = fresh-ShowsBook;
    clean = refl;
    none_dropped = refl;
  };
  events = length-replicate max_events blank_event;
}

fresh-Agrees : Agrees Synthetic.fresh 0
unfolding stages_after
fresh-Agrees = record {
  sound = fresh-IsSound;
  fed = fresh-Fed;
  quotes = λ j h. absurd (omega (arith, h));
}

rounds-Agrees :
    (n : ℕ) (s : SyntheticItchStream) (arrival i : ℕ)
    → Agrees s i
    → i + n ≤ message_count
    → Agrees (rounds n s arrival i) (i + n)
unfolding rounds
rounds-Agrees zero s arrival i g h = subst (Agrees s) (omega arith) g
rounds-Agrees (suc n) s arrival i g h =
    let (s', arrival') = round s arrival i in
    subst (Agrees (rounds n s' arrival' (i + 1))) (omega arith) (
      rounds-Agrees n s' arrival' (i + 1)
        (step-Agrees s s' i g (round-Round s arrival i g.sound (omega (arith, h))))
        (omega (arith, h)))

generate-Agrees : Agrees generate message_count
unfolding generate
generate-Agrees = rounds-Agrees message_count Synthetic.fresh 5 0 fresh-Agrees (omega arith)

-- The messages of the synthetic stream, each parsed and applied to the book by the stages of the pipeline
-- one after the other, from the empty table and book on: after each of the 256 messages the quote of the
-- five-level book is the quote that the stream published for this message, which it worked out from the
-- totals of its levels. After all of them the flag for an error at the parser or the order table is not
-- set, and the book has dropped no add.
pub generate-replayed_quote :
    (i : ℕ)
    → i < message_count
    → (replayed_quote empty_ask_price generate.messages i ≡ expected_quote generate i)
      × ((stages_after empty_ask_price generate.messages message_count).desk.error ≡ false)
      × ((stages_after empty_ask_price generate.messages message_count).desk.book.overflow_count
          ≡ 0)
generate-replayed_quote i h =
    let g = generate-Agrees in (g.quotes i h, g.fed.follows.clean, g.fed.follows.none_dropped)
