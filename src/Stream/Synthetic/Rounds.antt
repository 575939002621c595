-- ===== src/Stream/Synthetic/Rounds.antt =====
-- Every round of `generate` keeps the account, writes a message that tells of it and quotes it.
use fpga_sim_core.Prelude.{
  ◌≢◌, get_or-set_ne, ℕ, zero, suc, ◌+◌, ◌%◌, ◌≤◌, ◌<◌, ◌≡◌, ◌⊎◌, ◌∙◌, refl, ap, sym, subst, min,
  inl, inr, Bool, true, false, not, ◌&&◌, ◌||◌, arith, bit_and, length, length-set,
  length-replicate, set, get_or, get_or-set_self, get_or-replicate, ltb, leb, ◌==◌, if◌then◌else◌,
}
use fpga_sim_core.Prelude.Int.{pos}
use fpga_sim_core.Ofi.{blank_quote}
use fpga_sim_core.Stream.{Message}
use fpga_sim_core.Stream.Synthetic.{
  SyntheticItchStream, blank_message, blank_live, message_count, next, add_order, reduce_order,
  choose, round, rounds, update_quote, fresh, price_levels,
}
use fpga_sim_core.Stream.Synthetic.Account.{account_of, qty_of, qty_at, live_total, IsAccount}
use fpga_sim_core.Stream.Synthetic.Told.{Told, Told-IsAccount, Told-arrival}
use fpga_sim_core.Stream.Synthetic.Steps.{
  HasRoom, HasRoom-set, others-set, Step, add_order-Step, reduce_order-Step,
}
use fpga_sim_core.Stream.Synthetic.Quoted.{Quoted, update_quote-Quoted}

-- The stream before round `i`.
pub record IsSound (s : SyntheticItchStream) (i : ℕ) : Type 0 where
  pub account : IsAccount (account_of s)
  pub room : HasRoom s
  pub few : s.live_count ≤ 100
  pub started : s.live_count ≤ i
  pub quoted : (j : ℕ) → j + 1 ≡ i → Quoted (account_of s) (get_or s.quotes j blank_quote)

module _ (s : SyntheticItchStream) (i pick : ℕ) (v : IsSound s i) (h : i < message_count) where
  some_live :
      ltb i 4 || s.live_count == 0 || not (leb 100 s.live_count) && ltb pick 45 ≡ false
      → 0 < s.live_count
  some_live e = ground (arith, e)

  few_live :
      ltb i 4 || s.live_count == 0 || not (leb 100 s.live_count) && ltb pick 45 ≡ true
      → s.live_count < 100
  few_live e = let few = v.few in let started = v.started in ground (arith, e)

  Chosen : SyntheticItchStream → Type 0
  Chosen s' = Step s s' i (min 100 (i + 1))

  widen :
      {s' : SyntheticItchStream} {n : ℕ} (r : ℕ)
      → n ≤ 100
      → n ≤ i + 1
      → Step (record s { rng = r }) s' i n
      → Chosen s'
  unfolding Chosen
  widen r a b st = record {
    told = st.told;
    room = st.room;
    count_le = omega (arith, st.count_le, a, b);
    others = st.others;
    quotes_eq = st.quotes_eq;
  }

  if-Chosen :
      (b : Bool) (x y : SyntheticItchStream)
      → (b ≡ true → Chosen x)
      → (b ≡ false → Chosen y)
      → Chosen (if b then x else y)
  if-Chosen true x y f g = f refl
  if-Chosen false x y f g = g refl

  added :
      (r : ℕ) (bid : Bool) → s.live_count < 100 → Chosen (add_order (record s { rng = r }) i bid)
  added r bid few = widen r (omega (arith, few)) (omega (arith, v.started)) (
      add_order-Step (record s { rng = r }) i bid
        (record { count = v.room.count; size = v.room.size; quote_count = v.room.quote_count })
        (omega (arith, few)) h)

  lowered :
      (type : ℕ) → (type ≡ b'E') ⊎ (type ≡ b'X') → 0 < s.live_count → Chosen (reduce_order s i type)
  lowered type known some_order =
      widen s.rng (omega (arith, v.few)) (omega (arith, v.started))
        (reduce_order-Step s i type v.room v.account some_order h known)

  choose_lem : Chosen (choose s i pick)
  unfolding choose
  choose_lem =
      if-Chosen _ _ _
        (λ e.
          if-Chosen (ltb i 4) _ _ (λ _. added s.rng (bit_and i 1 == 0) (few_live e))
            (λ _. added (next s.rng) (bit_and (next s.rng) 1 == 0) (few_live e)))
        (λ e.
          if-Chosen (ltb pick 80) _ _ (λ _. lowered b'E' (inl refl) (some_live e))
            (λ _. lowered b'X' (inr refl) (some_live e)))

  pub choose-Step : Step s (choose s i pick) i (min 100 (i + 1))
  unfolding Chosen
  choose-Step = choose_lem

-- What a round does: it keeps the stream sound, and the message tells how the account changed.
pub record Round (s s' : SyntheticItchStream) (i : ℕ) : Type 0 where
  pub told : Told i (account_of s) (account_of s') (get_or s'.messages i blank_message)
  pub sound : IsSound s' (i + 1)
  pub others :
      (j : ℕ) → j ≢ i → get_or s'.messages j blank_message ≡ get_or s.messages j blank_message
  pub other_quotes :
      (j : ℕ) → j ≢ i → get_or s'.quotes j blank_quote ≡ get_or s.quotes j blank_quote

-- The arrival and the state of the generator change nothing else.
stamped :
    (s s1 : SyntheticItchStream) (i arrival r : ℕ)
    → i < message_count
    → Step s s1 i (min 100 (i + 1))
    → let m : Message = get_or s1.messages i blank_message in
      Step s
        (record s1 { messages = set s1.messages i (record m { arrival_cycle = arrival }); rng = r })
        i
        (min 100 (i + 1))
stamped s s1 i arrival r h st =
    let m : Message = get_or s1.messages i blank_message in
    let m' : Message = record m { arrival_cycle = arrival } in
    record {
      told =
          subst (λ x. Told i (account_of s) (account_of s1) x)
            (sym (get_or-set_self s1.messages i m' blank_message (omega (arith, st.room.count, h))))
            (Told-arrival arrival st.told);
      room = HasRoom-set s1 _ i m' st.room (st.room.size i h) refl refl;
      count_le = st.count_le;
      others = λ j ne. others-set s1.messages _ i m' refl j ne ∙ st.others j ne;
      quotes_eq = st.quotes_eq;
    }

closed-Round :
    (s s2 : SyntheticItchStream) (i r : ℕ)
    → IsSound s i
    → i < message_count
    → Step (record s { rng = r }) s2 i (min 100 (i + 1))
    → Round s (update_quote s2 i) i
unfolding update_quote
closed-Round s s2 i r v h st =
    let account = Told-IsAccount st.told v.account in
    record {
      told = st.told;
      sound = record {
        account = account;
        room = record {
          count = st.room.count;
          size = st.room.size;
          quote_count = length-set s2.quotes i _ ∙ st.room.quote_count;
        };
        few = omega (arith, st.count_le);
        started = omega (arith, st.count_le);
        quoted = λ j e.
            subst (λ k. Quoted (account_of s2) (get_or (update_quote s2 i).quotes k blank_quote))
              (omega (arith, e))
              (update_quote-Quoted s2 i account.sums (omega (arith, st.room.quote_count, h)));
      };
      others = st.others;
      other_quotes = λ j ne.
          get_or-set_ne s2.quotes _ blank_quote (λ same. ne (sym same))
          ∙ ap (λ qs. get_or qs j blank_quote) st.quotes_eq;
    }

-- Round `i` of a sound stream writes message `i`, which decodes to the event that tells how the account
-- changed: a new order with its reference, side, shares and price, or an execution or a cancel of a
-- live order by at least one share and at most what it has left. The stream stays sound: every level
-- holds the total of its live orders, no more than 100 orders are live, and the quote of the message is
-- that of the best level of each side.
pub round-Round :
    (s : SyntheticItchStream) (arrival i : ℕ)
    → IsSound s i
    → i < message_count
    → Round s (round s arrival i).0 i
unfolding round
round-Round s arrival i v h =
    let s0 : SyntheticItchStream = record s { rng = next s.rng } in
    let s1 = choose s0 i (next s.rng % 100) in
    let v0 : IsSound s0 i = record {
      account = v.account;
      room = record { count = v.room.count; size = v.room.size; quote_count = v.room.quote_count };
      few = v.few;
      started = v.started;
      quoted = v.quoted;
    } in
    let m : Message = get_or s1.messages i blank_message in
    let s2 : SyntheticItchStream = record s1 {
      messages = set s1.messages i (record m { arrival_cycle = arrival });
      rng = next s1.rng;
    } in
    let st : Step s0 s2 i (min 100 (i + 1)) =
      stamped s0 s1 i arrival (next s1.rng) h (choose-Step s0 i (next s.rng % 100) v0 h) in
    closed-Round s s2 i (next s.rng) v h st

fresh-levels : (bid : Bool) → length (qty_of (account_of fresh) bid) ≡ price_levels
unfolding fresh
fresh-levels true = refl
fresh-levels false = refl

fresh-totals :
    (bid : Bool) (l : ℕ)
    → l < price_levels
    → qty_at (account_of fresh) bid l ≡ pos (live_total (account_of fresh) bid l)
unfolding fresh
fresh-totals true l h = get_or-replicate price_levels l (pos 0)
fresh-totals false l h = get_or-replicate price_levels l (pos 0)

fresh-IsAccount : IsAccount (account_of fresh)
unfolding fresh
fresh-IsAccount = record {
  sums = record {
    room = length-replicate 128 blank_live;
    few = omega arith;
    level_counts = fresh-levels;
    totals = fresh-totals;
  };
  each = λ j h. absurd (omega (arith, h));
}

pub fresh-IsSound : IsSound fresh 0
unfolding fresh
fresh-IsSound = record {
  account = fresh-IsAccount;
  room = record {
    count = length-replicate message_count blank_message;
    size = λ j h.
        ap (λ (m : Message). length m.bytes) (get_or-replicate message_count j blank_message);
    quote_count = length-replicate message_count blank_quote;
  };
  few = omega arith;
  started = omega arith;
  quoted = λ j e. absurd (omega (arith, e));
}

rounds_from :
    (n : ℕ) (s : SyntheticItchStream) (arrival i : ℕ)
    → IsSound s i
    → i + n ≤ message_count
    → IsSound (rounds n s arrival i) (i + n)
unfolding rounds
rounds_from zero s arrival i v h = subst (IsSound s) (omega arith) v
rounds_from (suc n) s arrival i v h =
    let (s', arrival') = round s arrival i in
    subst (IsSound (rounds n s' arrival' (i + 1))) (omega arith) (
      rounds_from n s' arrival' (i + 1) (round-Round s arrival i v (omega (arith, h))).sound
        (omega (arith, h)))

-- After any number of rounds from the start, as many as there are messages in `generate`, every level of
-- each side holds the total of the shares that its live orders have left, at most 100 orders are live,
-- each has between 1 and 500 shares left, and the quote of the last message is that of the best level of
-- each side, or that of an empty side.
pub rounds-IsSound : (n : ℕ) → n ≤ message_count → IsSound (rounds n fresh 5 0) n
rounds-IsSound n h =
    subst (IsSound (rounds n fresh 5 0)) (omega arith)
      (rounds_from n fresh 5 0 fresh-IsSound (omega (arith, h)))
