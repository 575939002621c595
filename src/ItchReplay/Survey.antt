-- ===== src/ItchReplay/Survey.antt =====
-- tools/itch_replay.cpp, pass 1: what `main` counts over all the messages of the file.
use fpga_sim_core.Prelude.{
  ℕ, ◌+◌, ◌/◌, ◌%◌, ◌^◌, max, Option, none, some, List, [], ◌∷◌, get_or, ltb, ◌==◌, if◌then◌else◌,
}
use fpga_sim_core.FullBook.{locate_of, timestamp_ns}
use fpga_sim_core.ItchReplay.{Framed, stock_of, is_add, same_text}
use fpga_sim_core.ItchReplay.Maps.{value_at, put}

pub record Survey : Type 0 where
  pub mix : List (ℕ × ℕ)
  pub directory : List (ℕ × List ℕ)
  pub adds_by_locate : List (ℕ × ℕ)
  pub total : ℕ
  pub first_ts : ℕ
  pub last_ts : ℕ
  pub per_ms : List (ℕ × ℕ)

abbrev pub no_survey : Survey
no_survey = record {
  mix = [];
  directory = [];
  adds_by_locate = [];
  total = 0;
  first_ts = 0;
  last_ts = 0;
  per_ms = [];
}

-- `++m[k]` on words of `w` bits.
unfoldable pub bump : ℕ → List (ℕ × ℕ) → ℕ → List (ℕ × ℕ)
bump w m k = put m k ((value_at m k 0 + 1) % 2 ^ w)

abbrev pub type_of : Framed → ℕ
type_of m = get_or m.bytes 0 0

-- The body of the loop.
unfoldable pub observe : Survey → Framed → Survey
observe s m =
    let t : ℕ = type_of m in
    let ts : ℕ = timestamp_ns m.bytes in
    let locate : ℕ = locate_of m.bytes in
    record {
      mix = bump 64 s.mix t;
      directory = if t == b'R' then put s.directory locate (stock_of m.bytes) else s.directory;
      adds_by_locate = if is_add t then bump 64 s.adds_by_locate locate else s.adds_by_locate;
      total = (s.total + 1) % 2 ^ 64;
      first_ts = if s.first_ts == 0 then ts else s.first_ts;
      last_ts = ts;
      per_ms = bump 32 s.per_ms (ts / 1000000);
    }

unfoldable pub survey : Survey → List Framed → Survey
unfolding observe
survey s [] = s
survey s (m ∷ ms) = survey (observe s m) ms

-- The largest count of messages in a millisecond.
unfoldable pub peak_ms : List (ℕ × ℕ) → ℕ → ℕ
peak_ms [] peak = peak
peak_ms ((ms, n) ∷ r) peak = peak_ms r (max peak n)

-- The stock with a name: the last one of the directory that has it.
unfoldable pub named : List (ℕ × List ℕ) → List ℕ → ℕ → ℕ
named [] want locate = locate
named ((l, s) ∷ r) want locate = named r want (if same_text s want then l else locate)

-- The stock with the most adds: the first of them in the order of the keys.
unfoldable pub busiest : List (ℕ × ℕ) → ℕ → ℕ → ℕ
busiest [] best locate = locate
busiest ((l, n) ∷ r) best locate =
    busiest r (if ltb best n then n else best) (if ltb best n then l else locate)

abbrev pub known_locate : ℕ → Option ℕ
known_locate l = if l == 0 then none else some l

-- The stock to follow; `none` is the exit where the directory has no such name.
unfoldable pub choose_locate : Survey → List ℕ → Option ℕ
unfolding named busiest
choose_locate s [] = some (busiest s.adds_by_locate 0 0)
choose_locate s (c ∷ want) = known_locate (named s.directory (c ∷ want) 0)
