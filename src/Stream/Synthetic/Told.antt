-- ===== src/Stream/Synthetic/Told.antt =====
-- What a message of the synthetic stream tells about the account.
use fpga_sim_core.Prelude.{
  ℕ, ◌+◌, ◌^◌, ◌≤◌, ◌<◌, ◌≡◌, ◌⊎◌, refl, sym, subst, Bool, true, false, some, arith,
}
use fpga_sim_core.Prelude.Int.{ℤ, pos_part, neg_part, to_u32}
use fpga_sim_core.Itch.{decode}
use fpga_sim_core.Stream.{Message}
use fpga_sim_core.Stream.Synthetic.{Live, SyntheticItchStream, level_price, change_qty}
use fpga_sim_core.Stream.Synthetic.Written.{add_event, reduce_event}
use fpga_sim_core.Stream.Synthetic.Account.{Account, order_at, IsLive, IsAccount}
use fpga_sim_core.Stream.Synthetic.Kept.{entered, entered-IsAccount}
use fpga_sim_core.Stream.Synthetic.Lowered.{reduced, reduced-IsAccount}

-- Message `i` brings in a live order, numbered `1000 + i`, or it takes some of the shares of a live order, an execution or a
-- cancel.
pub data Told : ℕ → Account → Account → Message → Type 0 where
  enters :
      (i : ℕ) (a : Account) (o : Live) (m : Message)
      → IsLive o
      → o.reference ≡ 1000 + i
      → a.live_count < 128
      → decode m.bytes m.length
        ≡ some (
            add_event o.reference o.bid (pos_part o.remaining) (to_u32 (level_price o.bid o.level)))
      → Told i a (entered a o) m
  reduces :
      (i : ℕ) (a : Account) (index : ℕ) (shares : ℤ) (type : ℕ) (m : Message)
      → index < a.live_count
      → neg_part shares ≡ 0
      → 0 < pos_part shares
      → pos_part shares ≤ pos_part (order_at a index).remaining
      → (type ≡ b'E') ⊎ (type ≡ b'X')
      → decode m.bytes m.length
        ≡ some (reduce_event type (order_at a index).reference (pos_part shares))
      → Told i a (reduced a index shares) m

pub Told-IsAccount :
    {n : ℕ} {a a' : Account} {m : Message} → Told n a a' m → IsAccount a → IsAccount a'
Told-IsAccount (enters n a o m v e few d) i = entered-IsAccount a o i v few
Told-IsAccount (reduces k a index shares type m h n s le known d) i =
    reduced-IsAccount a index shares i h n le

pub change_qty-messages :
    (s : SyntheticItchStream) (bid : Bool) (level : ℕ) (f : ℤ → ℤ)
    → (change_qty s bid level f).messages ≡ s.messages
change_qty-messages s true level f = refl
change_qty-messages s false level f = refl

pub change_qty-quotes :
    (s : SyntheticItchStream) (bid : Bool) (level : ℕ) (f : ℤ → ℤ)
    → (change_qty s bid level f).quotes ≡ s.quotes
change_qty-quotes s true level f = refl
change_qty-quotes s false level f = refl

pub Told-moved :
    {i : ℕ} {a a' a'' : Account} {m m' : Message}
    → a'' ≡ a'
    → m' ≡ m
    → Told i a a' m
    → Told i a a'' m'
Told-moved {i = i} {a = a} {m = m} e d t =
    subst (Told i a _) (sym d) (subst (λ x. Told i a x m) (sym e) t)

pub to_u32-lt : (z : ℤ) → to_u32 z < 2 ^ 32
unfolding to_u32
to_u32-lt z = ground arith

pub to_u32_natural : (z : ℤ) → neg_part z ≡ 0 → pos_part z < 2 ^ 32 → to_u32 z ≡ pos_part z
unfolding to_u32
to_u32_natural z n h = ground arith

-- When a message arrives is none of its bytes.
pub Told-arrival :
    {i : ℕ} {a a' : Account} {m : Message} (cycle : ℕ)
    → Told i a a' m
    → Told i a a' (record m { arrival_cycle = cycle })
Told-arrival cycle (enters n a o m v e few d) =
    enters n a o (record m { arrival_cycle = cycle }) v e few d
Told-arrival cycle (reduces k a index shares type m h n s le known d) =
    reduces k a index shares type (record m { arrival_cycle = cycle }) h n s le known d
