-- ===== src/ItchReplay.antt =====
-- tools/itch_replay.cpp: what `main` works out from a file of messages before and after the run of the
-- pipeline. A `std::map` with numbers as keys is the list of its entries in the order of the keys, a
-- string is the list of its characters. Opening and mapping the file and printing are left out.
pub mod Walked
pub mod Maps
pub mod Survey
pub mod Chosen
pub mod Schedule
pub mod Report
pub mod Told
pub mod Prepared
mod Tests
use fpga_sim_core.Prelude.{
  ℕ, zero, suc, ◌+◌, ◌-◌, ◌%◌, ◌^◌, Bool, true, false, ◌&&◌, ◌||◌, Option, none, some, List, [],
  ◌∷◌, get_or, take, drop, min, ◌==◌, if◌then◌else◌,
}
use fpga_sim_core.Walk.{Walker, next}

-- A message of the file: a pointer to it and its length.
pub record Framed : Type 0 where
  pub bytes : List ℕ
  pub length : ℕ

abbrev pub nothing : Framed
nothing = record { bytes = []; length = 0 }

abbrev pub gathered : Walker → Option (ℕ × ℕ) → Walker × List Framed → Walker × List Framed
gathered w none rest = (w, [])
gathered w (some (at, len)) rest =
    (rest.0, record { bytes = drop at w.bytes; length = len } ∷ rest.1)

-- The loop over `next`, with fuel: the walker at its end and the messages.
unfoldable pub walk : ℕ → Walker → Walker × List Framed
walk zero w = (w, [])
walk (suc n) w = let (w', found) = next w in gathered w' found (walk n w')

-- The characters, without the spaces at the end.
unfoldable pub unpadded : List ℕ → List ℕ
unpadded [] = []
unpadded (c ∷ cs) = shortened c (unpadded cs)
  where
    shortened : ℕ → List ℕ → List ℕ
    shortened c [] = if c == b' ' then [] else c ∷ []
    shortened c (d ∷ ds) = c ∷ d ∷ ds

unfoldable pub stock_of : List ℕ → List ℕ
unfolding unpadded
stock_of r = unpadded (take 8 (drop 11 r))

abbrev pub book_type : ℕ → Bool
book_type t =
    t == b'A' || t == b'F' || t == b'E' || t == b'C' || t == b'X' || t == b'D' || t == b'U'

abbrev pub is_add : ℕ → Bool
is_add t = t == b'A' || t == b'F'

-- The options of the command line.
pub record Options : Type 0 where
  pub want_symbol : List ℕ
  pub model_messages : ℕ
  pub gap_cap : ℕ

abbrev pub model_capacity : ℕ
model_capacity = 20000

abbrev pub default_options : Options
default_options = record { want_symbol = []; model_messages = model_capacity; gap_cap = 256 }

unfoldable pub same_text : List ℕ → List ℕ → Bool
same_text [] [] = true
same_text [] (d ∷ ds) = false
same_text (c ∷ cs) [] = false
same_text (c ∷ cs) (d ∷ ds) = c == d && same_text cs ds

abbrev pub symbol_option : List ℕ
symbol_option = b'-' ∷ b'-' ∷ b's' ∷ b'y' ∷ b'm' ∷ b'b' ∷ b'o' ∷ b'l' ∷ []

abbrev pub messages_option : List ℕ
messages_option =
    b'-' ∷ b'-' ∷ b'm' ∷ b'o' ∷ b'd' ∷ b'e' ∷ b'l' ∷ b'-' ∷ b'm' ∷ b'e' ∷ b's' ∷ b's' ∷ b'a' ∷ b'g'
    ∷ b'e' ∷ b's' ∷ []

abbrev pub gap_option : List ℕ
gap_option =
    b'-' ∷ b'-' ∷ b'g' ∷ b'a' ∷ b'p' ∷ b'-' ∷ b'c' ∷ b'a' ∷ b'p' ∷ b'-' ∷ b'c' ∷ b'y' ∷ b'c' ∷ b'l'
    ∷ b'e' ∷ b's' ∷ []

-- One option with its value; `none` is the exit with "unknown option". `std::strtoull` in base 10 is the
-- argument `number_of`.
unfoldable pub set_option : (List ℕ → ℕ) → Options → List ℕ → List ℕ → Option Options
unfolding same_text
set_option number_of o name value =
    if same_text name symbol_option
    then some (record o { want_symbol = value })
    else if same_text name messages_option
    then some (record o { model_messages = min (number_of value) model_capacity })
    else if same_text name gap_option
    then some (record o { gap_cap = number_of value })
    else none

abbrev pub and_then : Option Options → (Options → Option Options) → Option Options
and_then none f = none
and_then (some o) f = f o

-- The loop over the arguments behind the name of the file.
unfoldable pub read_options : (List ℕ → ℕ) → List (List ℕ) → Options → Option Options
unfolding set_option
read_options number_of [] o = some o
read_options number_of (name ∷ []) o = some o
read_options number_of (name ∷ value ∷ args) o =
    and_then (set_option number_of o name value) (read_options number_of args)
