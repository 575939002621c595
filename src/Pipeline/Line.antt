-- ===== src/Pipeline/Line.antt =====
-- The messages on their way through the pipeline, in the order in which they came. `IsLine` says that
-- they are the ones taken from the wire and not completed, each in one place.
pub mod Moves
pub mod Front
pub mod Stages
pub mod Cycles
use native.Mathlib.Numerals.{add-one}
use fpga_sim_core.Prelude.{
  ℕ, ◌+◌, ◌%◌, ◌^◌, ◌≤◌, ◌<◌, ◌≡◌, ◌⊎◌, ◌∙◌, refl, sym, subst, ap, inl, inr, Bool, true, false, not,
  Option, none, some, List, [], ◌∷◌, ◌++◌, arith, length, ◌&&◌, if◌then◌else◌,
}
use fpga_sim_core.Ring
use fpga_sim_core.Ring.{RingBuffer}
use fpga_sim_core.Ring.Inv.{IsValid}
use fpga_sim_core.Ring.Refine.{contents}
use fpga_sim_core.Pipeline.{Slot, holds, free, work, finished, fail}
use fpga_sim_core.Pipeline.State.{TickToTrade}
use fpga_sim_core.Pipeline.Posting.{id_of, failed}

-- The numbers from `from` up to, not including, `to`.
abbrev pub IsRun : ℕ → List ℕ → ℕ → Type 0
IsRun from [] to = from ≡ to
IsRun from (x ∷ xs) to = (x ≡ from) × IsRun (from + 1) xs to

pub IsRun-append :
    (from : ℕ) (xs : List ℕ) (to : ℕ) → IsRun from xs to → IsRun from (xs ++ to ∷ []) (to + 1)
IsRun-append from [] to r = (sym r, ap (λ n. n + 1) r)
IsRun-append from (x ∷ xs) to r = (r.0, IsRun-append (from + 1) xs to r.1)

pub IsRun-le : (from : ℕ) (xs : List ℕ) (to : ℕ) → IsRun from xs to → from + length xs ≡ to
IsRun-le from [] to r = omega (arith, r)
IsRun-le from (x ∷ xs) to r = omega (arith, IsRun-le (from + 1) xs to r.1)

-- What a slot puts in front of the rest of the line.
abbrev pub listed : Option ℕ → List ℕ → List ℕ
listed none rest = rest
listed (some id) rest = id ∷ rest

-- Where messages are between the wire and the decision.
pub record Line : Type 0 where
  pub dma : Option ℕ
  pub dma_q : RingBuffer ℕ
  pub ofi_ring : RingBuffer ℕ
  pub ofi_in : Option ℕ
  pub bram_ring : RingBuffer ℕ
  pub rd : Option ℕ
  pub book : Option ℕ
  pub parse : Option ℕ
  pub mac : Option ℕ
  pub pcs : Option ℕ
  pub completed : ℕ
  pub next_msg : ℕ

abbrev pub line_of : TickToTrade → Line
line_of t = record {
  dma = t.dma.msg;
  dma_q = t.dma_q;
  ofi_ring = t.ofi_ring;
  ofi_in = t.ofi_in.msg;
  bram_ring = t.bram_ring;
  rd = t.rd.msg;
  book = t.book_slot.msg;
  parse = t.parse.msg;
  mac = t.mac.msg;
  pcs = t.pcs.msg;
  completed = t.completed;
  next_msg = t.next_msg;
}

-- The messages of the slots behind the rings, and all messages, oldest first.
abbrev pub in_back : Line → List ℕ
in_back l = listed l.rd (listed l.book (listed l.parse (listed l.mac (listed l.pcs []))))

abbrev pub in_flight : Line → List ℕ
in_flight l = listed l.dma (
    contents 64 0 l.dma_q
    ++ (contents 16 0 l.ofi_ring ++ listed l.ofi_in (contents 16 0 l.bram_ring ++ in_back l)))

pub record IsLine (l : Line) : Type 0 where
  pub dma_q_valid : IsValid 64 l.dma_q
  pub ofi_ring_valid : IsValid 16 l.ofi_ring
  pub bram_ring_valid : IsValid 16 l.bram_ring
  pub sequence : IsRun l.completed (in_flight l) l.next_msg
  pub few : l.next_msg < 2 ^ 64

-- What every step of the pipeline keeps: unless there has been an error, the messages are in line.
abbrev pub Fine : TickToTrade → Type 0
Fine t = (t.desk.error ≡ true) ⊎ IsLine (line_of t)

pub holds-some : (o : Option ℕ) → holds o ≡ true → o ≡ some (id_of o)
holds-some none h = ground (arith, h)
holds-some (some id) h = refl

pub holds-none : (o : Option ℕ) → not (holds o) ≡ true → o ≡ none
holds-none none h = refl
holds-none (some id) h = ground (arith, h)

pub failed-Fine : (t : TickToTrade) (b : Bool) → (b ≡ false → Fine t) → Fine (failed t b)
unfolding fail
failed-Fine t true h = inl refl
failed-Fine t false h = h refl

pub if-Fine :
    (b : Bool) (t t' : TickToTrade)
    → (b ≡ true → Fine t)
    → (b ≡ false → Fine t')
    → Fine (if b then t else t')
if-Fine true t t' h h' = h refl
if-Fine false t t' h h' = h' refl

-- A change of the line that keeps it in order.
pub moved :
    {error : Bool} {l l' : Line}
    → (IsLine l → IsLine l')
    → (error ≡ true) ⊎ IsLine l
    → (error ≡ true) ⊎ IsLine l'
moved move (inl e) = inl e
moved move (inr i) = inr (move i)

pub work-msg : (s : Slot) (cycle : ℕ) → (work s cycle).0.msg ≡ s.msg
unfolding work
work-msg s cycle = ground arith

pub worked-msg : (s : Slot) (cycle : ℕ) → (work s cycle).1 ≡ true → s.msg ≡ some (id_of s.msg)
unfolding work
worked-msg s cycle h = holds-some s.msg (ground (arith, h))

pub finished-msg :
    (s : Slot) (cycle : ℕ) (b : Bool) → (finished s cycle && b) ≡ true → s.msg ≡ some (id_of s.msg)
unfolding finished
finished-msg s cycle b h = holds-some s.msg (ground (arith, h))

pub free-msg : (s : Slot) (b : Bool) → (b && free s) ≡ true → s.msg ≡ none
unfolding free
free-msg s b h = holds-none s.msg (ground (arith, h))
