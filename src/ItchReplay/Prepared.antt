-- ===== src/ItchReplay/Prepared.antt =====
-- How `main` comes to the run of the pipeline, or to an exit before it, for any arguments and any file.
use fpga_sim_core.Prelude.{
  ℕ, ◌+◌, ◌^◌, ◌<◌, ◌≤◌, ◌≡◌, ◌≢◌, ◌∙◌, refl, sym, subst, inl, inr, Bool, true, false, Bool-cases,
  Option, none, some, List, [], ◌∷◌, arith, min, length, ◌==◌, if◌then◌else◌,
}
use fpga_sim_core.Walk.{Walker, Stop, end, truncated_tail, bad_framing}
use fpga_sim_core.Walk.Next.{Halted}
use fpga_sim_core.ItchReplay.{Options, default_options, model_capacity, same_text, messages_option}
use fpga_sim_core.ItchReplay.Walked.{Ended, walk-Ended, walk-few}
use fpga_sim_core.ItchReplay.Survey.{no_survey, survey, choose_locate}
use fpga_sim_core.ItchReplay.Told.{
  last_of, all_options, asked, read_options-asked, IsChosen, IsUnknown, ChosenOr, chosen,
}
use fpga_sim_core.ItchReplay.Schedule
use fpga_sim_core.ItchReplay.Schedule.{Pass, pass}
use fpga_sim_core.ItchReplay.Schedule.Due.{followed}
use fpga_sim_core.ItchReplay.Schedule.Held.{Scheduled, pass-Scheduled}
use fpga_sim_core.ItchReplay.Schedule.Counted.{pass-count}
use fpga_sim_core.ItchReplay.Report.{
  Outcome, unknown_option, framing_error, unknown_symbol, no_book_messages, ready, booked, located,
  framed, walked, opened, prepare,
}

-- The walker at the start of a file.
abbrev pub start : List ℕ → Walker
start file = record { bytes = file; size = length file; offset = 0; stop = end }

module _ (number_of : List ℕ → ℕ) (args : List (List ℕ)) (file : List ℕ) where
  abbrev options : Options
  options = asked number_of args default_options

  -- What the outcome says of the arguments and of the file, apart from the check of the options.
  abbrev pub Found : Outcome → Type 0
  Found unknown_option = ⊥
  Found framing_error = Halted (walked file).0 bad_framing
  Found unknown_symbol =
      ((walked file).0.stop ≢ bad_framing) × IsUnknown (walked file).1 options.want_symbol
  Found no_book_messages =
      ((walked file).0.stop ≢ bad_framing)
      × (locate : ℕ) × IsChosen (walked file).1 options.want_symbol locate
      × (length (followed locate (walked file).1) ≡ 0)
  Found (ready o locate p) =
      ((walked file).0.stop ≢ bad_framing)
      × (o ≡ options)
      × Ended (start file) (walked file).0 (walked file).1
      × IsChosen (walked file).1 options.want_symbol locate
      × (0 < length (followed locate (walked file).1))
      × Scheduled o (followed locate (walked file).1) p

  abbrev pub Prepared : Outcome → Type 0
  Prepared unknown_option = all_options args ≡ false
  Prepared framing_error = (all_options args ≡ true) × Found framing_error
  Prepared unknown_symbol = (all_options args ≡ true) × Found unknown_symbol
  Prepared no_book_messages = (all_options args ≡ true) × Found no_book_messages
  Prepared (ready o locate p) = (all_options args ≡ true) × Found (ready o locate p)

  Found-Prepared : (r : Outcome) → all_options args ≡ true → Found r → Prepared r
  Found-Prepared unknown_option e f = absurd f
  Found-Prepared framing_error e f = (e, f)
  Found-Prepared unknown_symbol e f = (e, f)
  Found-Prepared no_book_messages e f = (e, f)
  Found-Prepared (ready o locate p) e f = (e, f)

  ended : Ended (start file) (walked file).0 (walked file).1
  ended = walk-Ended (length file + 1) (start file) (omega arith)

  last_of-le :
      (args : List (List ℕ)) (d : ℕ)
      → d ≤ model_capacity
      → last_of messages_option (λ v. min (number_of v) model_capacity) args d ≤ model_capacity
  last_of-le [] d h = h
  last_of-le (n ∷ []) d h = h
  last_of-le (n ∷ v ∷ args) d h = last_of-le args _ (limited (same_text n messages_option))
    where
      limited : (b : Bool) → (if b then min (number_of v) model_capacity else d) ≤ model_capacity
      limited true = omega arith
      limited false = h

  few_asked : options.model_messages ≤ model_capacity
  few_asked = last_of-le args default_options.model_messages (omega arith)

  module _ (small : length file < 2 ^ 64) where
    few : length (walked file).1 < 2 ^ 64
    few = omega (arith, walk-few (length file + 1) (start file), small)

    booked-Found :
        (locate : ℕ)
        → (walked file).0.stop ≢ bad_framing
        → IsChosen (walked file).1 options.want_symbol locate
        → Found (booked options locate (pass options locate (walked file).1 Schedule.fresh))
    booked-Found locate good c =
        let p = pass options locate (walked file).1 Schedule.fresh in
        let held = pass-Scheduled options locate (walked file).1 few_asked ended.whole in
        let count = pass-count options locate (walked file).1 few in
        elim (Bool-cases (p.book_msgs == 0)) [
          | inl f ↦
              let nothing_there : length (followed locate (walked file).1) ≡ 0 =
                ground (arith, f, count) in
              subst (λ b. Found (if b then no_book_messages else ready options locate p)) (sym f)
                (good, locate, c, nothing_there)
          | inr f ↦
              let one : 0 < length (followed locate (walked file).1) = ground (arith, f, count) in
              subst (λ b. Found (if b then no_book_messages else ready options locate p)) (sym f)
                (good, refl, ended, c, one, held)
        ]

    located-Found :
        (r : Option ℕ)
        → (walked file).0.stop ≢ bad_framing
        → ChosenOr (walked file).1 options.want_symbol r
        → Found (located options (walked file).1 r)
    located-Found none good c = (good, c)
    located-Found (some locate) good c = booked-Found locate good c

    framed-Found : (s : Stop) → (walked file).0.stop ≡ s → Found (framed options (walked file) s)
    framed-Found end e =
        located-Found (choose_locate (survey no_survey (walked file).1) options.want_symbol)
          (λ f. let g : end ≡ bad_framing = sym e ∙ f in absurd (ground (arith, g)))
          (chosen (walked file).1 options.want_symbol few)
    framed-Found truncated_tail e =
        located-Found (choose_locate (survey no_survey (walked file).1) options.want_symbol)
          (λ f. let g : truncated_tail ≡ bad_framing = sym e ∙ f in absurd (ground (arith, g)))
          (chosen (walked file).1 options.want_symbol few)
    framed-Found bad_framing e = subst (Halted (walked file).0) e ended.halted

    opened-Prepared :
        (b : Bool)
        → all_options args ≡ b
        → Prepared (opened file (if b then some options else none))
    opened-Prepared true e = Found-Prepared _ e (framed-Found (walked file).0.stop refl)
    opened-Prepared false e = e

-- For any arguments behind the name of a file of fewer than 2 ^ 64 bytes, the outcome of `main` before the
-- run tells what it found, and each of the five outcomes tells its own. Unknown option: some value has a
-- name before it that is no option. In the other cases all names are options. Bad framing: the walk through
-- the file ends at a message whose length is 0 or not that of its type. In the other cases it does not
-- end at bad framing. Unknown symbol: a symbol is wanted, and no stock of another locate than 0 has it as its
-- name in the last directory message of the stock. No book messages: no message of the chosen stock changes a
-- book. Ready: the options are the last values given, or the defaults; the messages that were found
-- are whole and take up all the bytes up to the end of the walk; there is at least one message of the chosen
-- stock that changes its book, and the stream holds the first of them, as many as there are and as the
-- options allow, in their order and byte by byte, the first due at cycle 0 and each other one after the one
-- before by the time between their timestamps in whole cycles, or by the cap on gaps if that is less, modulo
-- 2 ^ 64. The chosen stock is one with the most adds where no symbol is wanted, and else one of a locate
-- other than 0 with that name.
pub prepare-Prepared :
    (number_of : List ℕ → ℕ) (args : List (List ℕ)) (file : List ℕ)
    → length file < 2 ^ 64
    → Prepared number_of args file (prepare number_of args file)
unfolding prepare
prepare-Prepared number_of args file small =
    subst (λ r. Prepared number_of args file (opened file r))
      (sym (read_options-asked number_of args default_options))
      (opened-Prepared number_of args file small (all_options args) refl)
