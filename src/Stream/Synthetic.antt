-- ===== src/Stream/Synthetic.antt =====
-- include/pipeline/synthetic_itch.hpp: `SyntheticItchStream`, which makes a stream of messages with a
-- generator of numbers and keeps its own account of the live orders and of the best quote.
pub mod Bytes
pub mod Written
pub mod Account
pub mod Kept
pub mod Lowered
pub mod Told
pub mod Steps
pub mod Quoted
pub mod Rounds
mod Tests
use fpga_sim_core.Prelude.{
  ℕ, zero, suc, ◌+◌, ◌-◌, ◌*◌, ◌/◌, ◌%◌, ◌^◌, bit_xor, bit_and, Bool, true, false, not, ◌&&◌, ◌||◌,
  Option, none, some, List, [], ◌∷◌, get_or, set, replicate, memcpy, ltb, leb, ◌==◌, if◌then◌else◌,
}
use fpga_sim_core.Prelude.Int.{
  ℤ, pos, ◌+ℤ◌, ◌-ℤ◌, ltb_ℤ, leb_ℤ, eqb_ℤ, times, to_u32, to_int32, wrap32,
}
use fpga_sim_core.Ofi.{BookQuote, blank_quote}
use fpga_sim_core.Stream.{Message}

abbrev pub message_count : ℕ
message_count = 256

abbrev pub seed : ℕ
seed = 0x5EEDF00D

abbrev pub base_bid : ℤ
base_bid = pos 1892500

abbrev pub base_ask : ℤ
base_ask = pos 1893000

abbrev pub tick : ℕ
tick = 100

abbrev pub price_levels : ℕ
price_levels = 5

abbrev pub empty_ask_price : ℤ
empty_ask_price = pos 2147483647

abbrev pub blank_message : Message
blank_message = record { bytes = replicate 36 0; length = 0; type = 0; arrival_cycle = 0 }

pub record Live : Type 0 where
  pub reference : ℕ
  pub remaining : ℤ
  pub level : ℕ
  pub bid : Bool

abbrev pub blank_live : Live
blank_live = record { reference = 0; remaining = pos 0; level = 0; bid = false }

pub record SyntheticItchStream : Type 0 where
  pub messages : List Message
  pub quotes : List BookQuote
  pub live : List Live
  pub bid_qty : List ℤ
  pub ask_qty : List ℤ
  pub live_count : ℕ
  pub adds : ℕ
  pub executes : ℕ
  pub cancels : ℕ
  pub rng : ℕ

unfoldable pub fresh : SyntheticItchStream
fresh = record {
  messages = replicate message_count blank_message;
  quotes = replicate message_count blank_quote;
  live = replicate 128 blank_live;
  bid_qty = replicate price_levels (pos 0);
  ask_qty = replicate price_levels (pos 0);
  live_count = 0;
  adds = 0;
  executes = 0;
  cancels = 0;
  rng = seed;
}

-- `next`: the new state of the generator, which is also the result.
unfoldable pub next : ℕ → ℕ
next rng =
    let a : ℕ = bit_xor rng (rng * 2 ^ 13 % 2 ^ 32) in
    let b : ℕ = bit_xor a (a / 2 ^ 17) in bit_xor b (b * 2 ^ 5 % 2 ^ 32)

-- `for (; i < n; ++i) p[at + i] = v >> ((n - 1 - i) * 8)`, with the rounds that are left.
unfoldable pub put_bytes : List ℕ → ℕ → ℕ → ℕ → List ℕ
put_bytes p at v zero = p
put_bytes p at v (suc rounds) = put_bytes (set p at (v / 2 ^ (rounds * 8) % 256)) (at + 1) v rounds

unfoldable pub put_u32 : List ℕ → ℕ → ℕ → List ℕ
put_u32 p at v = put_bytes p at v 4

unfoldable pub put_u64 : List ℕ → ℕ → ℕ → List ℕ
put_u64 p at v = put_bytes p at v 8

unfoldable pub level_price : Bool → ℕ → ℤ
level_price bid level =
    let step = wrap32 (times (to_int32 level) tick) in
    if bid then wrap32 (base_bid -ℤ step) else wrap32 (base_ask +ℤ step)

unfoldable pub make_header : Message → ℕ → ℕ → ℕ → Message
make_header m type length seq = record m {
  length = length % 2 ^ 8;
  type = type;
  bytes = put_u32 (put_u32 (set m.bytes 0 type) 1 1) 7 (seq % 2 ^ 32);
}

-- `live_count - 1` in 64 bits.
abbrev pub one_less : ℕ → ℕ
one_less n = (n + (2 ^ 64 - 1)) % 2 ^ 64

unfoldable pub remove_live : SyntheticItchStream → ℕ → SyntheticItchStream
remove_live s index = record s {
  live = set s.live index (get_or s.live (one_less s.live_count) blank_live);
  live_count = one_less s.live_count;
}

-- The first level with a quantity, from `l` on.
unfoldable pub first_level : List ℤ → ℕ → ℕ → Option ℕ
first_level qty l zero = none
first_level qty l (suc rounds) =
    let rest = first_level qty (l + 1) rounds in
    if ltb_ℤ (pos 0) (get_or qty l (pos 0)) then some l else rest

abbrev pub bid_part : SyntheticItchStream → Option ℕ → BookQuote → BookQuote
bid_part s none q = q
bid_part s (some l) q = record q {
  bid_price = level_price true l;
  bid_qty = get_or s.bid_qty l (pos 0);
}

abbrev pub ask_part : SyntheticItchStream → Option ℕ → BookQuote → BookQuote
ask_part s none q = q
ask_part s (some l) q = record q {
  ask_price = level_price false l;
  ask_qty = get_or s.ask_qty l (pos 0);
}

unfoldable pub update_quote : SyntheticItchStream → ℕ → SyntheticItchStream
update_quote s i =
    let q : BookQuote = record blank_quote { ask_price = empty_ask_price } in
    record s {
      quotes = set s.quotes i (
          ask_part s (first_level s.ask_qty 0 price_levels)
            (bid_part s (first_level s.bid_qty 0 price_levels) q));
    }

-- `(bid ? bid_qty_ : ask_qty_)[level] = ...`.
abbrev pub change_qty : SyntheticItchStream → Bool → ℕ → (ℤ → ℤ) → SyntheticItchStream
change_qty s true level f = record s {
  bid_qty = set s.bid_qty level (f (get_or s.bid_qty level (pos 0)));
}
change_qty s false level f = record s {
  ask_qty = set s.ask_qty level (f (get_or s.ask_qty level (pos 0)));
}

-- "AAPL    ".
abbrev pub symbol : List ℕ
symbol = b'A' ∷ b'A' ∷ b'P' ∷ b'L' ∷ b' ' ∷ b' ' ∷ b' ' ∷ b' ' ∷ []

-- The bytes that `add_order` writes behind the header.
unfoldable pub add_body : List ℕ → ℕ → Bool → ℕ → ℕ → List ℕ
add_body p reference bid shares price =
    put_u32
      (memcpy (put_u32 (set (put_u64 p 11 reference) 19 (if bid then b'B' else b'S')) 20 shares) 24
        symbol 0 8)
      32 price

unfoldable pub add_order : SyntheticItchStream → ℕ → Bool → SyntheticItchStream
add_order s i bid =
    let a : ℕ = next s.rng in
    let b : ℕ = next a in
    let c : ℕ = next b in
    let level : ℕ =
      if ltb (a % price_levels) (b % price_levels) then a % price_levels else b % price_levels in
    let shares : ℤ = to_int32 (100 * (1 + c % 5)) in
    let reference : ℕ = 1000 + i in
    let m = make_header (get_or s.messages i blank_message) b'A' 36 i in
    change_qty
      (record s {
        messages = set s.messages i (record m {
          bytes = add_body m.bytes reference bid (to_u32 shares) (to_u32 (level_price bid level));
        });
        live =
            set s.live s.live_count
              (record { reference = reference; remaining = shares; level = level; bid = bid });
        live_count = s.live_count + 1;
        adds = s.adds + 1;
        rng = c;
      })
      bid level (λ q. wrap32 (q +ℤ shares))

abbrev pub count_type : SyntheticItchStream → ℕ → SyntheticItchStream
count_type s type =
    if type == b'E'
    then record s { executes = s.executes + 1 }
    else record s { cancels = s.cancels + 1 }

unfoldable pub reduce_order : SyntheticItchStream → ℕ → ℕ → SyntheticItchStream
reduce_order s i type =
    let a : ℕ = next s.rng in
    let b : ℕ = next a in
    let index : ℕ = a % s.live_count in
    let o : Live = get_or s.live index blank_live in
    let full = bit_and b 1 == 1 in
    let shares : ℤ = if full || leb_ℤ o.remaining (pos 100) then o.remaining else pos 100 in
    let m =
      make_header (get_or s.messages i blank_message) type (if type == b'E' then 31 else 23) i in
    let remaining' = wrap32 (o.remaining -ℤ shares) in
    let s1 =
      change_qty
        (record s {
          messages =
              set s.messages i
                (record m { bytes = put_u32 (put_u64 m.bytes 11 o.reference) 19 (to_u32 shares) });
          live = set s.live index (record o { remaining = remaining' });
          rng = b;
        })
        o.bid o.level (λ q. wrap32 (q -ℤ shares)) in
    count_type (if eqb_ℤ remaining' (pos 0) then remove_live s1 index else s1) type

-- The order of a round: a new one, or less of a live one.
unfoldable pub choose : SyntheticItchStream → ℕ → ℕ → SyntheticItchStream
choose s i pick =
    let must_add = ltb i 4 || s.live_count == 0 in
    let must_reduce = leb 100 s.live_count in
    if must_add || not must_reduce && ltb pick 45
    then if ltb i 4
      then add_order s i (bit_and i 1 == 0)
      else add_order (record s { rng = next s.rng }) i (bit_and (next s.rng) 1 == 0)
    else if ltb pick 80
    then reduce_order s i b'E'
    else reduce_order s i b'X'

-- One round of the loop of `generate`, with `arrival`.
unfoldable pub round : SyntheticItchStream → ℕ → ℕ → SyntheticItchStream × ℕ
round s arrival i =
    let s1 = choose (record s { rng = next s.rng }) i (next s.rng % 100) in
    let m : Message = get_or s1.messages i blank_message in
    let s2 : SyntheticItchStream = record s1 {
      messages = set s1.messages i (record m { arrival_cycle = arrival });
      rng = next s1.rng;
    } in
    (update_quote s2 i, (arrival + (3 + next s1.rng % 38)) % 2 ^ 64)

-- The rounds from `i` on.
unfoldable pub rounds : ℕ → SyntheticItchStream → ℕ → ℕ → SyntheticItchStream
rounds zero s arrival i = s
rounds (suc n) s arrival i = let (s', arrival') = round s arrival i in rounds n s' arrival' (i + 1)

unfoldable pub generate : SyntheticItchStream
generate = rounds message_count fresh 5 0

-- The accessors.
abbrev pub message : SyntheticItchStream → ℕ → Message
message s i = get_or s.messages i blank_message

abbrev pub expected_quote : SyntheticItchStream → ℕ → BookQuote
expected_quote s i = get_or s.quotes i blank_quote

unfoldable pub count_of : SyntheticItchStream → ℕ → ℕ
count_of s type = if type == b'A' then s.adds else if type == b'E' then s.executes else s.cancels
