-- ===== src/ItchReplay/Schedule/Counted.antt =====
-- The count of the messages of the stock that pass 2 keeps.
use fpga_sim_core.Prelude.{
  ℕ, ◌+◌, ◌^◌, ◌%◌, ◌<◌, ◌≤◌, ◌≡◌, ◌∙◌, refl, sym, inl, inr, true, false, Bool-cases, List, [], ◌∷◌,
  arith, length, ltb,
}
use fpga_sim_core.ItchReplay.{Framed, Options}
use fpga_sim_core.ItchReplay.Schedule
use fpga_sim_core.ItchReplay.Schedule.{Pass, schedule, follow, is_followed, pass_step, pass}
use fpga_sim_core.ItchReplay.Schedule.Due.{followed, concerns, is_followed-concerns}

schedule-count : (o : Options) (p : Pass) (m : Framed) → (schedule o p m).book_msgs ≡ p.book_msgs
unfolding schedule
schedule-count o p m = elim (Bool-cases (ltb p.stream.count o.model_messages)) [
  | inl e ↦ simp e refl
  | inr e ↦ simp e refl
]

follow-count : (p : Pass) (m : Framed) → (follow p m).book_msgs ≡ (p.book_msgs + 1) % 2 ^ 64
unfolding follow
follow-count p m = refl

followed-few : (locate : ℕ) (ms : List Framed) → length (followed locate ms) ≤ length ms
unfolding followed
followed-few locate [] = omega arith
followed-few locate (m ∷ ms) = elim (Bool-cases (concerns locate m)) [
  | inl e ↦ simp e (omega (arith, followed-few locate ms))
  | inr e ↦ simp e (omega (arith, followed-few locate ms))
]

pass-count_from :
    (o : Options) (locate : ℕ) (ms : List Framed) (p : Pass)
    → p.book_msgs + length ms < 2 ^ 64
    → (pass o locate ms p).book_msgs ≡ p.book_msgs + length (followed locate ms)
unfolding pass followed pass_step
pass-count_from o locate [] p h = omega arith
pass-count_from o locate (m ∷ ms) p h = elim (Bool-cases (is_followed locate m)) [
  | inl e ↦
      let e' : concerns locate m ≡ true = sym (is_followed-concerns locate m) ∙ e in
      let one = schedule-count o (follow p m) m ∙ follow-count p m in
      simp (e, e')
        (pass-count_from o locate ms (schedule o (follow p m) m) (omega (arith, one, h))
          ∙ omega (arith, one, h))
  | inr e ↦
      let e' : concerns locate m ≡ false = sym (is_followed-concerns locate m) ∙ e in
      simp (e, e') (pass-count_from o locate ms p (omega (arith, h)))
]

none_yet : Schedule.fresh.book_msgs ≡ 0
unfolding Schedule.fresh
none_yet = refl

pub pass-count :
    (o : Options) (locate : ℕ) (ms : List Framed)
    → length ms < 2 ^ 64
    → (pass o locate ms Schedule.fresh).book_msgs ≡ length (followed locate ms)
pass-count o locate ms h =
    pass-count_from o locate ms Schedule.fresh (omega (arith, none_yet, h))
    ∙ omega (arith, none_yet)
