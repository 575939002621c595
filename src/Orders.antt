-- ===== src/Orders.antt =====
-- include/modules/order_table.hpp: `BasicOrderTable<Capacity>`, a linear table of live orders. The
-- table is the list of its `Capacity` entries. Prices and share counts are `std::int32_t`; a
-- difference of those wraps around where it does not fit (undefined in the source).
pub mod Inv
pub mod Refine
pub mod Keep
mod Tests
use fpga_sim_core.Prelude.{
  ℕ, zero, suc, ◌+◌, Bool, true, false, not, ◌&&◌, Option, none, some, List, [], ◌∷◌, set,
  replicate, ◌==◌, if◌then◌else◌,
}
use fpga_sim_core.Prelude.Int.{ℤ, pos, ◌-ℤ◌, ltb_ℤ, leb_ℤ, wrap32}

pub record Entry : Type 0 where
  pub reference : ℕ
  pub price : ℤ
  pub remaining : ℤ
  pub bid : Bool
  pub live : Bool

abbrev pub blank : Entry
blank = record { reference = 0; price = pos 0; remaining = pos 0; bid = false; live = false }

abbrev pub OrderTable : Type 0
OrderTable = List Entry

unfoldable pub fresh : ℕ → OrderTable
fresh capacity = replicate capacity blank

unfoldable pub reset : ℕ → OrderTable → OrderTable
reset capacity entries = replicate capacity blank

abbrev pub is_order : ℕ → Entry → Bool
is_order reference e = e.live && e.reference == reference

abbrev pub is_none {ℓ} : {A : Type ℓ} → Option A → Bool
is_none none = true
is_none (some a) = false

-- What the loop of `insert` finds: the order is live already, or the first free slot, if any.
pub data Scan : Type 0 where
  already_live : Scan
  free_slot : Option ℕ → Scan

-- The loop from entry `i` on, with the free slot found so far.
unfoldable pub scan : ℕ → OrderTable → ℕ → Option ℕ → Scan
scan reference [] i found = free_slot found
scan reference (e ∷ es) i found =
    let rest = scan reference es (i + 1) (if not e.live && is_none found then some i else found) in
    if is_order reference e then already_live else rest

abbrev pub order : ℕ → Bool → ℤ → ℤ → Entry
order reference bid price shares = record {
  reference = reference;
  price = price;
  remaining = shares;
  bid = bid;
  live = true;
}

abbrev pub place : OrderTable → Entry → Scan → OrderTable × Bool
place entries e already_live = (entries, false)
place entries e (free_slot none) = (entries, false)
place entries e (free_slot (some i)) = (set entries i e, true)

unfoldable pub insert : OrderTable → ℕ → Bool → ℤ → ℤ → OrderTable × Bool
insert entries reference bid price shares =
    place entries (order reference bid price shares) (scan reference entries 0 none)

-- What `reduce` stores through its three references.
pub record Reduced : Type 0 where
  pub side_bid : Bool
  pub price : ℤ
  pub applied : ℤ

abbrev pub applied_of : ℤ → Entry → ℤ
applied_of shares e = if ltb_ℤ shares e.remaining then shares else e.remaining

abbrev pub reduced_of : ℤ → Entry → Reduced
reduced_of shares e = record { side_bid = e.bid; price = e.price; applied = applied_of shares e }

-- The entry after the reduction: blank once nothing remains.
unfoldable pub reduced_entry : ℤ → Entry → Entry
reduced_entry shares e =
    let remaining' = wrap32 (e.remaining -ℤ applied_of shares e) in
    if leb_ℤ remaining' (pos 0) then blank else record e { remaining = remaining' }

-- `none` is the result `false`.
unfoldable pub reduce : OrderTable → ℕ → ℤ → OrderTable × Option Reduced
reduce [] reference shares = ([], none)
reduce (e ∷ es) reference shares =
    let (es', result) = reduce es reference shares in
    if is_order reference e
    then (reduced_entry shares e ∷ es, some (reduced_of shares e))
    else (e ∷ es', result)
