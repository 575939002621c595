-- ===== src/Stream/Synthetic/Written.antt =====
-- What the parser reads in the bytes that `add_order` and `reduce_order` write.
use fpga_sim_core.Prelude.{
  ℕ, ◌+◌, ◌%◌, ◌^◌, ◌<◌, ◌≡◌, ◌∙◌, refl, ap, inl, inr, Bool, some, List, [], ◌∷◌, arith, length,
  length-set, set, get_or, get_or-set_self, get_or-set_ne, memcpy, length-memcpy,
  get_or-memcpy_other, get_or-memcpy, ◌==◌, ◌⊎◌, if◌then◌else◌,
}
use fpga_sim_core.Itch.{
  ItchEvent, blank_event, add, executed, cancel, byte, decode, decode_add, decode_executed,
  decode_cancel, u64be, u32be,
}
use fpga_sim_core.Stream.{Message}
use fpga_sim_core.Stream.Synthetic.{put_u32, put_u64, symbol, add_body, make_header}
use fpga_sim_core.Stream.Synthetic.Bytes.{
  length-put_bytes, byte-put_other, u64be-put, u32be-put, u64be_frame, u32be_frame,
}

abbrev pub side_byte : Bool → ℕ
side_byte bid = if bid then b'B' else b'S'

abbrev pub add_event : ℕ → Bool → ℕ → ℕ → ItchEvent
add_event reference bid shares price = record blank_event {
  type = add;
  order_reference = reference;
  side = side_byte bid;
  shares = shares;
  stock = b'A' ∷ b'A' ∷ b'P' ∷ b'L' ∷ b' ' ∷ b' ' ∷ b' ' ∷ b' ' ∷ 0 ∷ [];
  price_ticks = price;
}

decode_of_fields :
    (p : List ℕ) (reference : ℕ) (bid : Bool) (shares price : ℕ)
    → byte p 0 ≡ b'A'
    → u64be p 11 ≡ reference
    → byte p 19 ≡ side_byte bid
    → u32be p 20 ≡ shares
    → u32be p 32 ≡ price
    → ((j : ℕ) → j < 8 → byte p (24 + j) ≡ get_or symbol j 0)
    → decode p 36 ≡ some (add_event reference bid shares price)
unfolding decode decode_add
decode_of_fields p reference bid shares price kind r s n c name =
    rw
      (
        kind,
        r,
        s,
        n,
        c,
        name 0 (omega arith),
        name 1 (omega arith),
        name 2 (omega arith),
        name 3 (omega arith),
        name 4 (omega arith),
        name 5 (omega arith),
        name 6 (omega arith),
        name 7 (omega arith),
      )
      refl

length-put_u32 : (p : List ℕ) (at v : ℕ) → length (put_u32 p at v) ≡ length p
unfolding put_u32
length-put_u32 p at v = length-put_bytes p at v 4

length-put_u64 : (p : List ℕ) (at v : ℕ) → length (put_u64 p at v) ≡ length p
unfolding put_u64
length-put_u64 p at v = length-put_bytes p at v 8

before-put_u32 : (p : List ℕ) (at v i : ℕ) → i < at → byte (put_u32 p at v) i ≡ byte p i
unfolding put_u32
before-put_u32 p at v i h = byte-put_other p at v 4 i (inl h)

before-put_u64 : (p : List ℕ) (at v i : ℕ) → i < at → byte (put_u64 p at v) i ≡ byte p i
unfolding put_u64
before-put_u64 p at v i h = byte-put_other p at v 8 i (inl h)

pub add_body-decode :
    (p : List ℕ) (reference : ℕ) (bid : Bool) (shares price : ℕ)
    → length p ≡ 36
    → byte p 0 ≡ b'A'
    → reference < 2 ^ 64
    → shares < 2 ^ 32
    → price < 2 ^ 32
    → decode (add_body p reference bid shares price) 36
      ≡ some (add_event reference bid shares price)
unfolding add_body
add_body-decode p reference bid shares price size kind r s c =
    decode_of_fields (put_u32 p4 32 price) reference bid shares price
      (before_24 0 (omega arith)
        ∙ before_20 0 (omega arith)
        ∙ before_19 0 (omega arith)
        ∙ before-put_u64 p 11 reference 0 (omega arith)
        ∙ kind)
      (u64be_frame (put_u32 p4 32 price) p1 11
          (λ i le lt. before_24 i (omega arith) ∙ before_20 i (omega arith) ∙ before_19 i lt)
        ∙ u64be-put p 11 reference (omega arith) r)
      (before_24 19 (omega arith)
        ∙ before_20 19 (omega arith)
        ∙ get_or-set_self p1 19 (side_byte bid) 0 (omega (arith, size1)))
      (u32be_frame (put_u32 p4 32 price) p3 20 (λ i le lt. before_24 i lt)
        ∙ u32be-put p2 20 shares (omega (arith, size2)) s)
      (u32be-put p4 32 price (omega (arith, size4)) c)
      (λ j h.
        before-put_u32 p4 32 price (24 + j) (omega arith)
        ∙ get_or-memcpy p3 24 symbol 0 8 j (omega (arith, size3)) h
        ∙ ap (λ k. get_or symbol k 0) (omega arith))
  where
    p1 : List ℕ
    p1 = put_u64 p 11 reference

    p2 : List ℕ
    p2 = set p1 19 (side_byte bid)

    p3 : List ℕ
    p3 = put_u32 p2 20 shares

    p4 : List ℕ
    p4 = memcpy p3 24 symbol 0 8

    size1 : length p1 ≡ 36
    size1 = length-put_u64 p 11 reference ∙ size

    size2 : length p2 ≡ 36
    size2 = length-set p1 19 (side_byte bid) ∙ size1

    size3 : length p3 ≡ 36
    size3 = length-put_u32 p2 20 shares ∙ size2

    size4 : length p4 ≡ 36
    size4 = length-memcpy p3 24 symbol 0 8 ∙ size3

    before_24 : (i : ℕ) → i < 24 → byte (put_u32 p4 32 price) i ≡ byte p3 i
    before_24 i h =
        before-put_u32 p4 32 price i (omega arith) ∙ get_or-memcpy_other p3 24 symbol 0 8 i (inl h)

    before_20 : (i : ℕ) → i < 20 → byte p3 i ≡ byte p2 i
    before_20 i h = before-put_u32 p2 20 shares i h

    before_19 : (i : ℕ) → i < 19 → byte p2 i ≡ byte p1 i
    before_19 i h = get_or-set_ne p1 (side_byte bid) 0 (omega arith)

pub length-add_body :
    (p : List ℕ) (reference : ℕ) (bid : Bool) (shares price : ℕ)
    → length (add_body p reference bid shares price) ≡ length p
unfolding add_body
length-add_body p reference bid shares price =
    length-put_u32 _ 32 price
    ∙ length-memcpy _ 24 symbol 0 8
    ∙ length-put_u32 _ 20 shares
    ∙ length-set (put_u64 p 11 reference) 19 (side_byte bid)
    ∙ length-put_u64 p 11 reference

pub length-reduce_body :
    (p : List ℕ) (reference shares : ℕ)
    → length (put_u32 (put_u64 p 11 reference) 19 shares) ≡ length p
length-reduce_body p reference shares =
    length-put_u32 (put_u64 p 11 reference) 19 shares ∙ length-put_u64 p 11 reference

-- The event of an execution or of a cancel.
abbrev pub reduce_event : ℕ → ℕ → ℕ → ItchEvent
reduce_event type reference shares = record blank_event {
  type = if type == b'E' then executed else cancel;
  order_reference = reference;
  shares = shares;
}

abbrev pub reduce_length : ℕ → ℕ
reduce_length type = if type == b'E' then 31 else 23

decode_of_reduce :
    (p : List ℕ) (type reference shares : ℕ)
    → (type ≡ b'E') ⊎ (type ≡ b'X')
    → byte p 0 ≡ type
    → u64be p 11 ≡ reference
    → u32be p 19 ≡ shares
    → decode p (reduce_length type) ≡ some (reduce_event type reference shares)
unfolding decode decode_executed decode_cancel
decode_of_reduce p type reference shares (inl e) kind r s = rw (e, kind ∙ e, r, s) refl
decode_of_reduce p type reference shares (inr e) kind r s = rw (e, kind ∙ e, r, s) refl

pub reduce_body-decode :
    (p : List ℕ) (type reference shares : ℕ)
    → length p ≡ 36
    → (type ≡ b'E') ⊎ (type ≡ b'X')
    → byte p 0 ≡ type
    → reference < 2 ^ 64
    → shares < 2 ^ 32
    → decode (put_u32 (put_u64 p 11 reference) 19 shares) (reduce_length type)
      ≡ some (reduce_event type reference shares)
reduce_body-decode p type reference shares size known kind r s =
    let size1 : length (put_u64 p 11 reference) ≡ 36 = length-put_u64 p 11 reference ∙ size in
    decode_of_reduce (put_u32 (put_u64 p 11 reference) 19 shares) type reference shares known
      (before-put_u32 _ 19 shares 0 (omega arith)
        ∙ before-put_u64 p 11 reference 0 (omega arith)
        ∙ kind)
      (u64be_frame _ (put_u64 p 11 reference) 11
          (λ i le lt. before-put_u32 (put_u64 p 11 reference) 19 shares i lt)
        ∙ u64be-put p 11 reference (omega arith) r)
      (u32be-put (put_u64 p 11 reference) 19 shares (omega (arith, size1)) s)

-- The header leaves the number of bytes and puts the type in front.
pub make_header-length :
    (m : Message) (type n seq : ℕ) → length (make_header m type n seq).bytes ≡ length m.bytes
unfolding make_header
make_header-length m type n seq =
    length-put_u32 (put_u32 (set m.bytes 0 type) 1 1) 7 (seq % 2 ^ 32)
    ∙ length-put_u32 (set m.bytes 0 type) 1 1
    ∙ length-set m.bytes 0 type

pub make_header-type :
    (m : Message) (type n seq : ℕ)
    → 0 < length m.bytes
    → byte (make_header m type n seq).bytes 0 ≡ type
unfolding make_header
make_header-type m type n seq h =
    before-put_u32 (put_u32 (set m.bytes 0 type) 1 1) 7 (seq % 2 ^ 32) 0 (omega arith)
    ∙ before-put_u32 (set m.bytes 0 type) 1 1 0 (omega arith)
    ∙ get_or-set_self m.bytes 0 type 0 h
