-- ===== src/ItchReplay/Schedule/Held.antt =====
-- What the stream holds after pass 2, told by the messages of the stock.
use mathlib.Core.List.{append_assoc, append-nil}
use fpga_sim_core.Prelude.{
  ℕ, zero, suc, ◌+◌, ◌%◌, ◌^◌, ◌<◌, ◌≤◌, ◌≡◌, ◌∙◌, refl, ap, sym, subst, inl, inr, true, false, not,
  Bool-cases, List, [], ◌∷◌, ◌++◌, arith, min, length, length-append, get_or, ltb, ◌==◌,
  if◌then◌else◌, ℕ_discrete,
}
use fpga_sim_core.FullBook.{timestamp_ns}
use fpga_sim_core.Stream.{Message}
use fpga_sim_core.Stream.Replay
use fpga_sim_core.Stream.Replay.{ReplayStream, message}
use fpga_sim_core.Stream.Replay.Pushed.{IsValid, Holds, Pushed, fresh-IsValid, push_lem}
use fpga_sim_core.ItchReplay.{Framed, nothing, Options, model_capacity}
use fpga_sim_core.ItchReplay.Walked.{AllWhole}
use fpga_sim_core.ItchReplay.Schedule
use fpga_sim_core.ItchReplay.Schedule.{
  Pass, dt_cycles, schedule, follow, is_followed, pass_step, pass,
}
use fpga_sim_core.ItchReplay.Schedule.Due.{
  followed, stamp_at, due, get_or-append, get_or-append_last, due-append, followed_size, concerns,
  is_followed-concerns, dt_cycles-gap,
}

-- The stream holds the first messages of the stock, as many as the option allows, each with its arrival.
pub record Scheduled (o : Options) (ms : List Framed) (p : Pass) : Type 0 where
  pub valid : IsValid model_capacity p.stream
  pub count_eq : p.stream.count ≡ min (length ms) o.model_messages
  pub held :
      (i : ℕ)
      → i < p.stream.count
      → Holds
          (message p.stream i)
          (get_or ms i nothing).bytes
          (get_or ms i nothing).length
          (due o.gap_cap ms i)
  pub have_eq : p.have_prev ≡ not (p.stream.count == 0)
  pub first : p.stream.count ≡ 0 → p.arrival ≡ 0
  pub last :
      (i : ℕ)
      → p.stream.count ≡ suc i
      → (p.prev_ts ≡ stamp_at ms i) × (p.arrival ≡ due o.gap_cap ms i)

Holds-moved :
    {m : Message} {x y : Framed} {a b : ℕ}
    → x ≡ y
    → a ≡ b
    → Holds m x.bytes x.length a
    → Holds m y.bytes y.length b
Holds-moved {m = m} {x = x} {b = b} e f h =
    subst (λ (z : Framed). Holds m z.bytes z.length b) e (subst (Holds m x.bytes x.length) f h)

-- The cycle at which the next message arrives.
arrival_of : Options → Pass → Framed → ℕ
arrival_of o p m =
    if p.have_prev
    then (p.arrival + min (dt_cycles p.prev_ts (timestamp_ns m.bytes)) o.gap_cap) % 2 ^ 64
    else p.arrival

arrival_of-due :
    (o : Options) (ms : List Framed) (p : Pass) (m : Framed) (n : ℕ)
    → Scheduled o ms p
    → p.stream.count ≡ n
    → n ≡ length ms
    → arrival_of o p m ≡ due o.gap_cap (ms ++ m ∷ []) n
unfolding arrival_of due
arrival_of-due o ms p m zero v e size =
    let none_yet : p.have_prev ≡ false = v.have_eq ∙ ap (λ k. not (k == 0)) e in
    simp none_yet (v.first e)
arrival_of-due o ms p m (suc n) v e size =
    let have = v.have_eq in
    let one : p.have_prev ≡ true = ground (arith, have, e) in
    let (stamp, arrival) = v.last n e in
    let stamp' : stamp_at (ms ++ m ∷ []) n ≡ stamp_at ms n =
      ap (λ (x : Framed). timestamp_ns x.bytes)
        (get_or-append nothing ms (m ∷ []) n (omega (arith, size))) in
    let here : stamp_at (ms ++ m ∷ []) (suc n) ≡ timestamp_ns m.bytes =
      ap (λ (x : Framed). timestamp_ns x.bytes) (get_or-append_last nothing ms m (suc n) size) in
    ap
      (λ b.
        if b
        then (p.arrival + min (dt_cycles p.prev_ts (timestamp_ns m.bytes)) o.gap_cap) % 2 ^ 64
        else p.arrival)
      one
    ∙ ap (λ a. (a + min (dt_cycles p.prev_ts (timestamp_ns m.bytes)) o.gap_cap) % 2 ^ 64)
        (arrival ∙ sym (due-append o.gap_cap ms m n (omega (arith, size))))
    ∙ ap
        (λ s.
          (due o.gap_cap (ms ++ m ∷ []) n + min (dt_cycles s (timestamp_ns m.bytes)) o.gap_cap)
          % 2 ^ 64)
        (stamp ∙ sym stamp')
    ∙ ap
        (λ s.
          (due o.gap_cap (ms ++ m ∷ []) n + min (dt_cycles (stamp_at (ms ++ m ∷ []) n) s) o.gap_cap)
          % 2 ^ 64)
        (sym here)
    ∙ ap (λ g. (due o.gap_cap (ms ++ m ∷ []) n + min g o.gap_cap) % 2 ^ 64)
        (dt_cycles-gap (stamp_at (ms ++ m ∷ []) n) (stamp_at (ms ++ m ∷ []) (suc n)))

module _ (o : Options) (ms : List Framed) (p : Pass) (m : Framed) (v : Scheduled o ms p) where
  -- A message behind those that the stream holds.
  later_held :
      (i : ℕ)
      → i < p.stream.count
      → Holds
          (message p.stream i)
          (get_or (ms ++ m ∷ []) i nothing).bytes
          (get_or (ms ++ m ∷ []) i nothing).length
          (due o.gap_cap (ms ++ m ∷ []) i)
  later_held i h =
      let inside : i < length ms = omega (arith, h, v.count_eq) in
      Holds-moved {x = get_or ms i nothing} (sym (get_or-append nothing ms (m ∷ []) i inside))
        (sym (due-append o.gap_cap ms m i inside)) (v.held i h)

  later_last :
      (i : ℕ)
      → p.stream.count ≡ suc i
      → (p.prev_ts ≡ stamp_at (ms ++ m ∷ []) i) × (p.arrival ≡ due o.gap_cap (ms ++ m ∷ []) i)
  later_last i e =
      let inside : i < length ms = omega (arith, e, v.count_eq) in
      let (stamp, arrival) = v.last i e in
      (
        stamp
            ∙ ap (λ (x : Framed). timestamp_ns x.bytes)
                (sym (get_or-append nothing ms (m ∷ []) i inside)),
        arrival ∙ sym (due-append o.gap_cap ms m i inside),
      )

  -- No room is left by the option.
  full-Scheduled : ltb p.stream.count o.model_messages ≡ false → Scheduled o (ms ++ m ∷ []) p
  full-Scheduled e = record {
    valid = v.valid;
    count_eq =
        let count = v.count_eq in
        let full : o.model_messages ≤ p.stream.count = ground (arith, e) in
        omega (arith, count, full, length-append ms (m ∷ []));
    held = later_held;
    have_eq = v.have_eq;
    first = v.first;
    last = later_last;
  }

  taken-Scheduled :
      (s' : ReplayStream)
      → p.stream.count < o.model_messages
      → Pushed p.stream s' model_capacity m.bytes m.length (arrival_of o p m)
      → Scheduled o (ms ++ m ∷ []) (record p {
        stream = s';
        prev_ts = timestamp_ns m.bytes;
        arrival = arrival_of o p m;
        have_prev = true;
      })
  taken-Scheduled s' room r =
      let size : p.stream.count ≡ length ms = omega (arith, v.count_eq, room) in
      let new = arrival_of-due o ms p m p.stream.count v refl size in
      let here = get_or-append_last nothing ms m p.stream.count size in
      record {
        valid = r.valid;
        count_eq = omega (arith, r.count_eq, size, room, length-append ms (m ∷ []));
        held = λ i h. elim (ℕ_discrete i p.stream.count) [
          | yes e ↦
              subst
                (λ k.
                  Holds (message s' k) (get_or (ms ++ m ∷ []) k nothing).bytes
                    (get_or (ms ++ m ∷ []) k nothing).length (due o.gap_cap (ms ++ m ∷ []) k))
                (sym e) (Holds-moved {x = m} (sym here) new r.last)
          | no ne ↦
              let inside : i < p.stream.count = omega (arith, h, ne, r.count_eq) in
              subst
                (λ x.
                  Holds x (get_or (ms ++ m ∷ []) i nothing).bytes
                    (get_or (ms ++ m ∷ []) i nothing).length (due o.gap_cap (ms ++ m ∷ []) i))
                (sym (r.kept i inside)) (later_held i inside)
        ];
        have_eq = let count = r.count_eq in ground (arith, count);
        first = λ e. absurd (omega (arith, e, r.count_eq));
        last = λ i e.
            let same : p.stream.count ≡ i = omega (arith, e, r.count_eq) in
            (
              ap (λ (x : Framed). timestamp_ns x.bytes) (sym here)
                  ∙ ap (stamp_at (ms ++ m ∷ [])) same,
              new ∙ ap (due o.gap_cap (ms ++ m ∷ [])) same,
            );
      }

  schedule-Scheduled :
      o.model_messages ≤ model_capacity
      → (0 < m.length) × (m.length ≤ 40)
      → Scheduled o (ms ++ m ∷ []) (schedule o p m)
  unfolding schedule arrival_of
  schedule-Scheduled few size = elim (Bool-cases (ltb p.stream.count o.model_messages)) [
    | inl e ↦
        let room : p.stream.count < o.model_messages = ground (arith, e) in
        simp e
          (elim (push_lem model_capacity p.stream m.bytes m.length (arrival_of o p m) v.valid) [
            | inl r ↦
                taken-Scheduled
                  (Replay.push model_capacity p.stream m.bytes m.length (arrival_of o p m)).0 room
                  r.2
            | inr (bad, inl full, same) ↦ absurd (omega (arith, full, room, few))
            | inr (bad, inr (inl empty), same) ↦ absurd (omega (arith, empty, size.0))
            | inr (bad, inr (inr large), same) ↦ absurd (omega (arith, large, size.1))
          ])
    | inr e ↦ simp e (full-Scheduled e)
  ]

follow-Scheduled :
    (o : Options) (ms : List Framed) (p : Pass) (m : Framed)
    → Scheduled o ms p
    → Scheduled o ms (follow p m)
unfolding follow
follow-Scheduled o ms p m v = record {
  valid = v.valid;
  count_eq = v.count_eq;
  held = v.held;
  have_eq = v.have_eq;
  first = v.first;
  last = v.last;
}

none_pushed : (capacity : ℕ) → (Replay.fresh capacity).count ≡ 0
unfolding Replay.fresh
none_pushed capacity = refl

fresh-Scheduled : (o : Options) → Scheduled o [] Schedule.fresh
unfolding Schedule.fresh
fresh-Scheduled o =
    let count = none_pushed model_capacity in
    record {
      valid = fresh-IsValid model_capacity;
      count_eq = omega (arith, count);
      held = λ i h. absurd (omega (arith, h, count));
      have_eq = ap (λ k. not (k == 0)) (sym count);
      first = λ e. refl;
      last = λ i e. absurd (omega (arith, e, count));
    }

pass_from :
    (o : Options) (locate : ℕ) (ms done : List Framed) (p : Pass)
    → o.model_messages ≤ model_capacity
    → AllWhole ms
    → Scheduled o done p
    → Scheduled o (done ++ followed locate ms) (pass o locate ms p)
unfolding pass followed pass_step
pass_from o locate [] done p few w v = subst (λ xs. Scheduled o xs p) (sym (append-nil done)) v
pass_from o locate (m ∷ ms) done p few w v = elim (Bool-cases (is_followed locate m)) [
  | inl e ↦
      let e' : concerns locate m ≡ true = sym (is_followed-concerns locate m) ∙ e in
      simp (e, e')
        (subst (λ xs. Scheduled o xs (pass o locate ms (schedule o (follow p m) m)))
          (append_assoc done (m ∷ []) (followed locate ms))
          (pass_from o locate ms (done ++ m ∷ []) (schedule o (follow p m) m) few w.1 (
            schedule-Scheduled o done (follow p m) m (follow-Scheduled o done p m v) few
              (followed_size locate m e w.0))))
  | inr e ↦
      let e' : concerns locate m ≡ false = sym (is_followed-concerns locate m) ∙ e in
      simp (e, e') (pass_from o locate ms done p few w.1 v)
]

-- Pass 2 over the messages of a file, for a stock: the stream holds the first messages of the stock that
-- change its book, as many as there are and as the option allows, in their order. Each is there with all
-- its bytes, its length and its type. The first arrives at cycle 0, and each other one after the one before
-- by the time between their timestamps in whole cycles of 512 / 165 ns, or by the cap on gaps if that is
-- less, modulo 2 ^ 64. The option allows no more messages than the stream has room for, and the messages
-- of the file are not empty and as long as their types want.
pub pass-Scheduled :
    (o : Options) (locate : ℕ) (ms : List Framed)
    → o.model_messages ≤ model_capacity
    → AllWhole ms
    → Scheduled o (followed locate ms) (pass o locate ms Schedule.fresh)
pass-Scheduled o locate ms few w = pass_from o locate ms [] Schedule.fresh few w (fresh-Scheduled o)
