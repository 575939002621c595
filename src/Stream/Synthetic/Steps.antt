-- ===== src/Stream/Synthetic/Steps.antt =====
-- The steps of the synthetic stream that write a message: `add_order` and `reduce_order`.
use native.Mathlib.Nat.{mod-lt}
use fpga_sim_core.Prelude.{
  ◌≢◌, List, ℕ, ◌+◌, ◌*◌, ◌%◌, ◌≤◌, ◌<◌, ◌≡◌, ◌⊎◌, ◌∙◌, refl, ap, sym, inl, inr, Bool, true, false,
  ◌||◌, Bool-cases, some, arith, bit_and, length, length-set, set, get_or, get_or-set_self,
  get_or-set_ne, ℕ_discrete, ltb, ◌==◌, if◌then◌else◌,
}
use fpga_sim_core.Prelude.Int.{
  ℤ, pos, pos_part, neg_part, eqb_ℤ, leb_ℤ, ◌-ℤ◌, to_u32, to_int32, to_int32-pos, wrap32, ◌+ℤ◌,
}
use fpga_sim_core.Itch.{decode}
use fpga_sim_core.Stream.{Message}
use fpga_sim_core.Stream.Synthetic.{
  Live, blank_live, SyntheticItchStream, blank_message, message_count, price_levels, next,
  make_header, put_u32, put_u64, level_price, add_body, add_order, reduce_order, remove_live,
  change_qty, count_type,
}
use fpga_sim_core.Stream.Synthetic.Written.{
  add_event, add_body-decode, length-add_body, length-reduce_body, reduce_event, reduce_length,
  reduce_body-decode, make_header-length, make_header-type,
}
use fpga_sim_core.Stream.Synthetic.Account.{
  Account, account_of, IsLive, IsAccount, change_qty-change, change-live_count,
}
use fpga_sim_core.Stream.Synthetic.Kept.{removed}
use fpga_sim_core.Stream.Synthetic.Lowered.{left, reduced, reduced-count}
use fpga_sim_core.Stream.Synthetic.Told.{
  Told, enters, reduces, Told-moved, to_u32-lt, to_u32_natural, change_qty-messages,
  change_qty-quotes,
}

-- Room for every message and for every quote.
pub record HasRoom (s : SyntheticItchStream) : Type 0 where
  pub count : length s.messages ≡ message_count
  pub size : (j : ℕ) → j < message_count → length (get_or s.messages j blank_message).bytes ≡ 36
  pub quote_count : length s.quotes ≡ message_count

pub HasRoom-set :
    (s s' : SyntheticItchStream) (i : ℕ) (m : Message)
    → HasRoom s
    → length m.bytes ≡ 36
    → s'.messages ≡ set s.messages i m
    → s'.quotes ≡ s.quotes
    → HasRoom s'
HasRoom-set s s' i m r size e f = record {
  count = ap length e ∙ length-set s.messages i m ∙ r.count;
  size = λ j h. ap (λ ms. length (get_or ms j blank_message).bytes) e ∙ elim (ℕ_discrete i j) [
    | yes same ↦
        ap (λ k. length (get_or (set s.messages i m) k blank_message).bytes) (sym same)
        ∙ ap (λ (x : Message). length x.bytes)
            (get_or-set_self s.messages i m blank_message (omega (arith, same, h, r.count)))
        ∙ size
    | no ne ↦
        ap (λ (x : Message). length x.bytes) (get_or-set_ne s.messages m blank_message ne)
        ∙ r.size j h
  ];
  quote_count = ap length f ∙ r.quote_count;
}

pub others-set :
    (ms ms' : List Message) (i : ℕ) (m : Message)
    → ms' ≡ set ms i m
    → (j : ℕ) → j ≢ i
    → get_or ms' j blank_message ≡ get_or ms j blank_message
others-set ms ms' i m e j ne =
    ap (λ xs. get_or xs j blank_message) e
    ∙ get_or-set_ne ms m blank_message (λ same. ne (sym same))

-- A step that writes message `i` and no other, and a bound on the number of live orders after it.
pub record Step (s s' : SyntheticItchStream) (i bound : ℕ) : Type 0 where
  pub told : Told i (account_of s) (account_of s') (get_or s'.messages i blank_message)
  pub room : HasRoom s'
  pub count_le : s'.live_count ≤ bound
  pub others :
      (j : ℕ) → j ≢ i → get_or s'.messages j blank_message ≡ get_or s.messages j blank_message
  pub quotes_eq : s'.quotes ≡ s.quotes

level_lt :
    (a b : ℕ)
    → (if ltb (a % price_levels) (b % price_levels) then a % price_levels else b % price_levels)
      < price_levels
level_lt a b = ground arith

pub add_order-Step :
    (s : SyntheticItchStream) (i : ℕ) (bid : Bool)
    → HasRoom s
    → s.live_count < 128
    → i < message_count
    → Step s (add_order s i bid) i (s.live_count + 1)
unfolding add_order make_header
add_order-Step s i bid r few h =
    let a : ℕ = next s.rng in
    let b : ℕ = next a in
    let c : ℕ = next b in
    let level : ℕ =
      if ltb (a % price_levels) (b % price_levels) then a % price_levels else b % price_levels in
    let n : ℕ = 100 * (1 + c % 5) in
    let o : Live = record {
      reference = 1000 + i;
      remaining = to_int32 n;
      level = level;
      bid = bid;
    } in
    let shares : to_int32 n ≡ pos n = to_int32-pos n (omega arith) in
    let m0 : Message = get_or s.messages i blank_message in
    let m1 : Message = make_header m0 b'A' 36 i in
    let m : Message = record m1 {
      bytes =
          add_body m1.bytes (1000 + i) bid (to_u32 (to_int32 n)) (to_u32 (level_price bid level));
    } in
    let f : ℤ → ℤ = λ q. wrap32 (q +ℤ to_int32 n) in
    let s1 : SyntheticItchStream = record s {
      messages = set s.messages i m;
      live = set s.live s.live_count o;
      live_count = s.live_count + 1;
      adds = s.adds + 1;
      rng = c;
    } in
    let natural : neg_part (to_int32 n) ≡ 0 = ap neg_part shares in
    let size : pos_part (to_int32 n) ≡ n = ap pos_part shares in
    record {
      told =
          Told-moved (change_qty-change s1 bid level f)
            (ap (λ ms. get_or ms i blank_message) (change_qty-messages s1 bid level f)
              ∙ get_or-set_self s.messages i m blank_message (omega (arith, r.count, h)))
            (enters i (account_of s) o m
              (record {
                level_lt = level_lt a b;
                some_left = omega (arith, size);
                few_left = omega (arith, size);
                natural = natural;
                fits = omega (arith, h);
              })
              refl few
              (add_body-decode m1.bytes (1000 + i) bid (to_u32 (to_int32 n))
                  (to_u32 (level_price bid level)) (make_header-length m0 b'A' 36 i ∙ r.size i h)
                  (make_header-type m0 b'A' 36 i (omega (arith, r.size i h))) (omega (arith, h))
                  (to_u32-lt (to_int32 n)) (to_u32-lt (level_price bid level))
                ∙ ap (λ k. some (add_event (1000 + i) bid k (to_u32 (level_price bid level))))
                    (to_u32_natural (to_int32 n) natural (omega (arith, size)))));
      room =
          HasRoom-set s (change_qty s1 bid level f) i m r
            (length-add_body m1.bytes (1000 + i) bid (to_u32 (to_int32 n))
                (to_u32 (level_price bid level))
              ∙ make_header-length m0 b'A' 36 i
              ∙ r.size i h)
            (change_qty-messages s1 bid level f) (change_qty-quotes s1 bid level f);
      count_le = omega (
        arith,
        ap (λ (x : Account). x.live_count) (change_qty-change s1 bid level f),
        change-live_count (account_of s1) bid level f,
      );
      others = others-set s.messages _ i m (change_qty-messages s1 bid level f);
      quotes_eq = change_qty-quotes s1 bid level f;
    }

-- The shares that `reduce_order` takes.
abbrev taken : Bool → Live → ℤ
taken full o = if full || leb_ℤ o.remaining (pos 100) then o.remaining else pos 100

taken_lem :
    (full : Bool) (o : Live)
    → IsLive o
    → (neg_part (taken full o) ≡ 0)
      × (0 < pos_part (taken full o))
      × (pos_part (taken full o) ≤ pos_part o.remaining)
taken_lem full o v = let some_left = v.some_left in let natural = v.natural in ground arith

account-count_type :
    (s : SyntheticItchStream) (type : ℕ) → account_of (count_type s type) ≡ account_of s
account-count_type s type = elim (Bool-cases (type == b'E')) [
  | inl e ↦ simp e refl
  | inr e ↦ simp e refl
]

messages-count_type :
    (s : SyntheticItchStream) (type : ℕ) → (count_type s type).messages ≡ s.messages
messages-count_type s type = elim (Bool-cases (type == b'E')) [
  | inl e ↦ simp e refl
  | inr e ↦ simp e refl
]

quotes-count_type : (s : SyntheticItchStream) (type : ℕ) → (count_type s type).quotes ≡ s.quotes
quotes-count_type s type = elim (Bool-cases (type == b'E')) [
  | inl e ↦ simp e refl
  | inr e ↦ simp e refl
]

module _ (s : SyntheticItchStream) (index : ℕ) where
  removal :
      (b : Bool)
      → account_of (if b then remove_live s index else s)
        ≡ (if b then removed (account_of s) index else account_of s)
  unfolding remove_live
  removal true = refl
  removal false = refl

  removal-messages : (b : Bool) → (if b then remove_live s index else s).messages ≡ s.messages
  unfolding remove_live
  removal-messages true = refl
  removal-messages false = refl

  removal-quotes : (b : Bool) → (if b then remove_live s index else s).quotes ≡ s.quotes
  unfolding remove_live
  removal-quotes true = refl
  removal-quotes false = refl

index_lt : (a n : ℕ) → 0 < n → a % n < n
index_lt a n h = mod-lt a h

pub reduce_order-Step :
    (s : SyntheticItchStream) (i type : ℕ)
    → HasRoom s
    → IsAccount (account_of s)
    → 0 < s.live_count
    → i < message_count
    → (type ≡ b'E') ⊎ (type ≡ b'X')
    → Step s (reduce_order s i type) i s.live_count
unfolding reduce_order make_header
reduce_order-Step s i type r v some_live h known =
    let a : ℕ = next s.rng in
    let b : ℕ = next a in
    let index : ℕ = a % s.live_count in
    let o : Live = get_or s.live index blank_live in
    let shares : ℤ = taken (bit_and b 1 == 1) o in
    let m0 : Message = get_or s.messages i blank_message in
    let m1 : Message = make_header m0 type (reduce_length type) i in
    let m : Message = record m1 {
      bytes = put_u32 (put_u64 m1.bytes 11 o.reference) 19 (to_u32 shares);
    } in
    let f : ℤ → ℤ = λ q. wrap32 (q -ℤ shares) in
    let s1 : SyntheticItchStream = record s {
      messages = set s.messages i m;
      live = set s.live index (left o shares);
      rng = b;
    } in
    let s2 = change_qty s1 o.bid o.level f in
    let gone = eqb_ℤ (left o shares).remaining (pos 0) in
    let s3 = if gone then remove_live s2 index else s2 in
    let here = index_lt a s.live_count some_live in
    let (natural, positive, le) = taken_lem (bit_and b 1 == 1) o (v.each index here) in
    let len : (m1.length ≡ reduce_length type) = ground (arith, known) in
    let account : account_of (count_type s3 type) ≡ reduced (account_of s) index shares =
      account-count_type s3 type
      ∙ removal s2 index gone
      ∙ ap (λ x. if gone then removed x index else x) (change_qty-change s1 o.bid o.level f) in
    let written : (count_type s3 type).messages ≡ set s.messages i m =
      messages-count_type s3 type
      ∙ removal-messages s2 index gone
      ∙ change_qty-messages s1 o.bid o.level f in
    let quoted : (count_type s3 type).quotes ≡ s.quotes =
      quotes-count_type s3 type
      ∙ removal-quotes s2 index gone
      ∙ change_qty-quotes s1 o.bid o.level f in
    record {
      told =
          Told-moved account
            (ap (λ ms. get_or ms i blank_message) written
              ∙ get_or-set_self s.messages i m blank_message (omega (arith, r.count, h)))
            (reduces i (account_of s) index shares type m here natural positive le known (
              ap (decode m.bytes) len
              ∙ reduce_body-decode m1.bytes type o.reference (to_u32 shares)
                  (make_header-length m0 type (reduce_length type) i ∙ r.size i h) known
                  (make_header-type m0 type (reduce_length type) i (omega (arith, r.size i h)))
                  (v.each index here).fits (to_u32-lt shares)
              ∙ ap (λ k. some (reduce_event type o.reference k))
                  (to_u32_natural shares natural
                    (omega (arith, le, (v.each index here).few_left)))));
      room =
          HasRoom-set s (count_type s3 type) i m r
            (length-reduce_body m1.bytes o.reference (to_u32 shares)
              ∙ make_header-length m0 type (reduce_length type) i
              ∙ r.size i h)
            written quoted;
      count_le = omega (
        arith,
        ap (λ (x : Account). x.live_count) account,
        reduced-count (account_of s) index shares v here,
      );
      others = others-set s.messages _ i m written;
      quotes_eq = quoted;
    }
