-- ===== src/ItchReplay/Walked.antt =====
-- The messages of a file, from first to last.
use fpga_sim_core.Prelude.{
  ℕ, zero, suc, ◌+◌, ◌-◌, ◌<◌, ◌≤◌, ◌≡◌, ◌∙◌, refl, ap, sym, subst, Option, none, some, List, [],
  ◌∷◌, arith, drop, get_or, length,
}
use fpga_sim_core.Walk.{Walker, Stop, end, truncated_tail, bad_framing, spec_length, next}
use fpga_sim_core.Walk.Next.{Halted, IsStep, next-IsStep}
use fpga_sim_core.ItchReplay.{Framed, gathered, walk}

-- A message that stands in the file behind its length: as long as its type wants, and not empty.
pub record IsWhole (m : Framed) : Type 0 where
  pub typed : m.length ≡ spec_length (get_or m.bytes 0 0)
  pub some_bytes : 0 < m.length

abbrev pub AllWhole : List Framed → Type 0
AllWhole [] = Unit {0}
AllWhole (m ∷ ms) = IsWhole m × AllWhole ms

-- The bytes that the messages take up, each with the two bytes of its length.
unfoldable pub extent : List Framed → ℕ
extent [] = 0
extent (m ∷ ms) = 2 + m.length + extent ms

get_or-drop {ℓ} :
    {A : Type ℓ} (n : ℕ) (xs : List A) (d : A) → get_or (drop n xs) 0 d ≡ get_or xs n d
get_or-drop zero [] d = refl
get_or-drop zero (x ∷ xs) d = refl
get_or-drop (suc n) [] d = refl
get_or-drop (suc n) (x ∷ xs) d = get_or-drop n xs d

next-bytes : (w : Walker) → ((next w).0.bytes ≡ w.bytes) × ((next w).0.size ≡ w.size)
unfolding next
next-bytes w = ground arith

-- Where the walk from `w` ends.
pub record Ended (w w' : Walker) (ms : List Framed) : Type 0 where
  pub halted : Halted w' w'.stop
  pub whole : AllWhole ms
  pub offset_eq : w'.offset ≡ w.offset + extent ms
  pub bytes_eq : w'.bytes ≡ w.bytes
  pub size_eq : w'.size ≡ w.size

Halted-moved :
    (w w' : Walker)
    → w'.bytes ≡ w.bytes
    → w'.size ≡ w.size
    → w'.offset ≡ w.offset
    → Halted w w'.stop
    → Halted w' w'.stop
Halted-moved w w' b s o h =
    let same : (record w { stop = w'.stop }) ≡ w' =
      λ i. record { bytes = sym b i; size = sym s i; offset = sym o i; stop = w'.stop } in
    subst (λ (x : Walker). Halted x w'.stop) same (go w'.stop h)
  where
    go : (s : Stop) → Halted w s → Halted (record w { stop = w'.stop }) s
    go end h = h
    go truncated_tail h = h
    go bad_framing h = h

gathered-Ended :
    (w w' : Walker) (found : Option (ℕ × ℕ)) (rest : Walker × List Framed)
    → w'.bytes ≡ w.bytes
    → w'.size ≡ w.size
    → IsStep w w' found
    → (w'.size - w'.offset < w.size - w.offset → Ended w' rest.0 rest.1)
    → Ended w (gathered w' found rest).0 (gathered w' found rest).1
unfolding extent
gathered-Ended w w' none rest b s (o, h) e = record {
  halted = Halted-moved w w' b s o h;
  whole = tt;
  offset_eq = omega (arith, o);
  bytes_eq = b;
  size_eq = s;
}
gathered-Ended w w' (some (at, len)) rest b s (place, typed, full, moved, fits) e =
    let r = e (omega (arith, place, full, moved, fits, s)) in
    record {
      halted = r.halted;
      whole = (
        record {
          typed =
              typed
              ∙ ap spec_length (
                  ap (λ k. get_or w.bytes k 0) (sym place)
                  ∙ ap (λ xs. get_or xs at 0) (sym b)
                  ∙ sym (get_or-drop at w'.bytes 0));
          some_bytes = full;
        },
        r.whole,
      );
      offset_eq = omega (arith, r.offset_eq, moved, place);
      bytes_eq = r.bytes_eq ∙ b;
      size_eq = r.size_eq ∙ s;
    }

-- Going through a file from a place in it, with one unit of fuel more than there are bytes left, ends
-- where there is no next message: at the end of the file, before a message that runs past it or before one
-- whose length is 0 or not that of its type. The messages found are not empty, each is as long as its type
-- wants, and with the two bytes in front of each they take up all that lies between the two places.
pub walk-Ended : (n : ℕ) (w : Walker) → w.size - w.offset < n → Ended w (walk n w).0 (walk n w).1
unfolding walk
walk-Ended zero w h = absurd (omega (arith, h))
walk-Ended (suc n) w h =
    let (b, s) = next-bytes w in
    gathered-Ended w (next w).0 (next w).1 (walk n (next w).0) b s (next-IsStep w)
      (λ less. walk-Ended n (next w).0 (omega (arith, less, h)))

gathered-few :
    (w w' : Walker) (found : Option (ℕ × ℕ)) (rest : Walker × List Framed)
    → w'.size ≡ w.size
    → IsStep w w' found
    → length rest.1 ≤ w'.size - w'.offset
    → length (gathered w' found rest).1 ≤ w.size - w.offset
gathered-few w w' none rest s h e = omega arith
gathered-few w w' (some (at, len)) rest s (place, typed, full, moved, fits) e =
    omega (arith, place, full, moved, fits, s, e)

-- There are no more messages than bytes.
pub walk-few : (n : ℕ) (w : Walker) → length (walk n w).1 ≤ w.size - w.offset
unfolding walk
walk-few zero w = omega arith
walk-few (suc n) w =
    gathered-few w (next w).0 (next w).1 (walk n (next w).0) (next-bytes w).1 (next-IsStep w)
      (walk-few n (next w).0)
