-- ===== src/Ring/Refine.antt =====
-- A valid `RingBuffer` behaves as a bounded first-in first-out queue of the values that it holds.
use native.Mathlib.Nat.{add-zero, mod-add-mod, mod-eq_of_lt, mod-eq-sub-mod}
use native.Mathlib.Numerals.{add-one, sub-one}
use fpga_sim_core.Prelude.{
  ℕ, zero, suc, ◌+◌, ◌-◌, ◌%◌, ◌<◌, ◌≡◌, ◌≢◌, ◌∙◌, refl, sym, ap, ap₂, inl, inr, Bool, true, false,
  Option, none, some, List, [], ◌∷◌, ◌++◌, arith, length, get_or, set, ◌==◌, if◌then◌else◌,
  Bool-cases,
}
use fpga_sim_core.Prelude.{dec_lt, get_or-set_self, get_or-set_ne}
use fpga_sim_core.Ring
use fpga_sim_core.Ring.{RingBuffer}
use fpga_sim_core.Ring.Inv.{IsValid, push-IsValid, pop-IsValid}

-- The specification: a queue of at most `count` values, oldest first.
module _ {ℓ} {T : Type ℓ} where
  unfoldable pub fifo_push : ℕ → List T → T → List T × Bool
  fifo_push count q v = if length q == count then (q, false) else (q ++ v ∷ [], true)

  unfoldable pub fifo_pop : List T → List T × Option T
  fifo_pop [] = ([], none)
  fifo_pop (v ∷ q) = (q, some v)

  -- The `n` entries from place `at` on, going round the array.
  unfoldable pub round_from : List T → ℕ → T → ℕ → ℕ → List T
  round_from entries count z at zero = []
  round_from entries count z at (suc n) =
      get_or entries at z ∷ round_from entries count z ((at + 1) % count) n

  -- What a buffer holds, oldest first.
  unfoldable pub contents : ℕ → T → RingBuffer T → List T
  unfolding round_from
  contents count z r = round_from r.entries count z r.head r.size

  length-round_from :
      (entries : List T) (count : ℕ) (z : T) (at n : ℕ)
      → length (round_from entries count z at n) ≡ n
  unfolding round_from
  length-round_from entries count z at zero = refl
  length-round_from entries count z at (suc n) =
      ap suc (length-round_from entries count z ((at + 1) % count) n)

  pub length-contents :
      (count : ℕ) (z : T) (r : RingBuffer T) → length (contents count z r) ≡ r.size
  unfolding contents
  length-contents count z r = length-round_from r.entries count z r.head r.size

-- A step of fewer than `count` places round the array does not come back.
round_ne : (count at k : ℕ) → at < count → suc k < count → (at + suc k) % count ≢ at
round_ne count at k h l = elim (dec_lt (at + suc k) count) [
  | yes p ↦ omega (arith, mod-eq_of_lt p)
  | no p ↦ omega (
    arith,
    mod-eq-sub-mod {n = at + suc k} {m = count} (omega arith),
    mod-eq_of_lt {n = at + suc k - count} {m = count} (omega arith),
  )
]

suc-==-zero : (n : ℕ) → (suc n == 0) ≡ false
suc-==-zero n = ground arith

round_shift : (count at n : ℕ) → (at + suc n) % count ≡ ((at + 1) % count + n) % count
round_shift count at n = rw mod-add-mod (ap (λ k. k % count) (omega arith))

module _ {ℓ} {T : Type ℓ} (z : T) (count : ℕ) where
  -- Writing just past the entries in use puts the value behind them.
  round_from-set :
      (entries : List T) (v : T) (n at i : ℕ)
      → length entries ≡ count
      → at < count
      → n < count
      → i ≡ (at + n) % count
      → round_from (set entries i v) count z at (suc n) ≡ round_from entries count z at n ++ v ∷ []
  unfolding round_from
  round_from-set entries v zero at i len h l e =
      let e' : i ≡ at = e ∙ rw add-zero (mod-eq_of_lt h) in
      rw e' (ap (λ w. w ∷ []) (get_or-set_self entries at v z (omega arith)))
  round_from-set entries v (suc n) at i len h l e =
      ap₂ ◌∷◌ (get_or-set_ne entries v z (rw e (round_ne count at n h l))) (
        round_from-set entries v n ((at + 1) % count) i len (omega arith) (omega arith)
          (e ∙ round_shift count at n))

  -- `push` accepts and refuses as the bounded queue does, and leaves its contents.
  pub push_refines :
      (r : RingBuffer T) (v : T)
      → IsValid count r
      → let (r', accepted) = Ring.push count r v in
        (contents count z r', accepted) ≡ fifo_push count (contents count z r) v
  unfolding Ring.push fifo_push contents
  push_refines r v i = elim (Bool-cases (r.size == count)) [
    | inl full ↦ rw (full, length-contents count z r, full)
    | inr room ↦
        rw (room, length-contents count z r, room) (ap (λ q. (q, true)) (grown (ground arith)))
  ]
    where
      grown :
          r.size < count
          → contents count z (record r {
            entries = set r.entries r.tail v;
            tail = (r.tail + 1) % count;
            size = r.size + 1;
          })
            ≡ contents count z r ++ v ∷ []
      grown h =
          ap (round_from (set r.entries r.tail v) count z r.head) (add-one r.size)
          ∙ round_from-set r.entries v r.size r.head r.tail i.storage i.head_in h i.tail_at

  pop_refines_at :
      (entries : List T) (head tail size : ℕ)
      → let r : RingBuffer T = record {
        entries = entries;
        head = head;
        tail = tail;
        size = size;
      } in
        let (r', got) = Ring.pop count z r in
        (contents count z r', got) ≡ fifo_pop (contents count z r)
  unfolding Ring.pop fifo_pop contents
  pop_refines_at entries head tail zero = refl
  pop_refines_at entries head tail (suc n) = rw (suc-==-zero n) (
      ap (λ k. (round_from entries count z ((head + 1) % count) k, some (get_or entries head z)))
        (sub-one (suc n)))

  -- `pop` returns the oldest value, and leaves the others.
  pub pop_refines :
      (r : RingBuffer T)
      → let (r', got) = Ring.pop count z r in
        (contents count z r', got) ≡ fifo_pop (contents count z r)
  pop_refines r = pop_refines_at r.entries r.head r.tail r.size

-- What a client can ask of a buffer, and what it sees of each call.
pub data Request {ℓ} (T : Type ℓ) : Type ℓ where
  put : T → Request T
  get : Request T

module _ {ℓ} {T : Type ℓ} where
  unfoldable pub serve : ℕ → T → RingBuffer T → List (Request T) → List (Bool × Option T)
  serve count z r [] = []
  serve count z r (put v ∷ ops) =
      let (r', accepted) = Ring.push count r v in (accepted, none) ∷ serve count z r' ops
  serve count z r (get ∷ ops) =
      let (r', got) = Ring.pop count z r in (false, got) ∷ serve count z r' ops

  unfoldable pub fifo_serve : ℕ → List T → List (Request T) → List (Bool × Option T)
  fifo_serve count q [] = []
  fifo_serve count q (put v ∷ ops) =
      let (q', accepted) = fifo_push count q v in (accepted, none) ∷ fifo_serve count q' ops
  fifo_serve count q (get ∷ ops) =
      let (q', got) = fifo_pop q in (false, got) ∷ fifo_serve count q' ops

  -- No sequence of calls tells a valid buffer of `count` entries from the bounded first-in
  -- first-out queue of its contents: the same pushes are refused and the same values come out.
  pub serve_refines :
      (count : ℕ) (z : T) (ops : List (Request T)) (r : RingBuffer T)
      → IsValid count r
      → serve count z r ops ≡ fifo_serve count (contents count z r) ops
  unfolding serve fifo_serve
  serve_refines count z [] r i = refl
  serve_refines count z (put v ∷ ops) r i = rw (
    serve_refines count z ops (Ring.push count r v).0 (push-IsValid count r v i),
    ← push_refines z count r v i,
  )
  serve_refines count z (get ∷ ops) r i = rw (
    serve_refines count z ops (Ring.pop count z r).0 (pop-IsValid count z r i),
    ← pop_refines z count r,
  )

module _ {ℓ} {T : Type ℓ} where
  read_push :
      (full accepted : Bool) (q q' grown : List T)
      → ◌≡◌ {A = List T × Bool} (q', accepted) (if full then (q, false) else (grown, true))
      → q' ≡ (if accepted then grown else q)
  read_push true accepted q q' grown e =
      let no_push : accepted ≡ false = ap (λ p. p.1) e in rw no_push (ap (λ p. p.0) e)
  read_push false accepted q q' grown e =
      let pushed : accepted ≡ true = ap (λ p. p.1) e in rw pushed (ap (λ p. p.0) e)

  -- A queue whose pop gave `got` and left `rest`.
  abbrev pub restore : Option T → List T → List T
  restore none rest = rest
  restore (some v) rest = v ∷ rest

  read_pop :
      (q q' : List T) (got : Option T)
      → ◌≡◌ {A = List T × Option T} (q', got) (fifo_pop q)
      → q ≡ restore got q'
  unfolding fifo_pop
  read_pop [] q' got e =
      let nothing : got ≡ none = ap (λ p. p.1) e in rw nothing (sym (ap (λ p. p.0) e))
  read_pop (v ∷ q) q' got e =
      let oldest : got ≡ some v = ap (λ p. p.1) e in
      rw oldest (ap (λ r. v ∷ r) (sym (ap (λ p. p.0) e)))

module _ {ℓ} {T : Type ℓ} (count : ℕ) (z : T) where
  -- What a push does to the contents, read off its result.
  pub contents-push :
      (r : RingBuffer T) (v : T)
      → IsValid count r
      → contents count z (Ring.push count r v).0
        ≡ (if (Ring.push count r v).1 then contents count z r ++ v ∷ [] else contents count z r)
  unfolding fifo_push
  contents-push r v i =
      read_push (length (contents count z r) == count) _ (contents count z r) _ _
        (push_refines z count r v i)

  -- What a pop returns is the head of the contents.
  pub contents-pop :
      (r : RingBuffer T)
      → contents count z r
        ≡ restore (Ring.pop count z r).1 (contents count z (Ring.pop count z r).0)
  contents-pop r = read_pop (contents count z r) _ _ (pop_refines z count r)
