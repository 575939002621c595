-- ===== src/Stream/Replay/Pushed.antt =====
-- What `push` accepts, and what it stores.
use fpga_sim_core.Prelude.{
  ℕ, ◌+◌, ◌%◌, ◌^◌, ◌≤◌, ◌<◌, ◌≡◌, ◌⊎◌, ◌∙◌, refl, ap, inl, inr, Bool, true, false, ◌||◌,
  Bool-cases, List, arith, length, length-set, get_or, get_or-set_self, get_or-set_ne, set, memcpy,
  length-memcpy, get_or-memcpy, length-replicate, get_or-replicate, sym, subst, ℕ_discrete, ltb,
  leb, ◌==◌,
}
use fpga_sim_core.Itch.{byte}
use fpga_sim_core.Stream.{Message}
use fpga_sim_core.Stream.Replay.{ReplayStream, blank_message, fresh, push, message}

pub record IsValid (capacity : ℕ) (s : ReplayStream) : Type 0 where
  pub size : length s.messages ≡ capacity
  pub count_le : s.count ≤ capacity
  pub room : (i : ℕ) → i < capacity → length (message s i).bytes ≡ 40

-- The message of a push that is accepted: its bytes, its length, its type and its arrival.
pub record Holds (m : Message) (bytes : List ℕ) (length arrival_cycle : ℕ) : Type 0 where
  pub bytes_eq : (j : ℕ) → j < length → byte m.bytes j ≡ byte bytes j
  pub length_eq : m.length ≡ length
  pub type_eq : m.type ≡ byte bytes 0
  pub arrival_eq : m.arrival_cycle ≡ arrival_cycle

pub record Pushed (s s' : ReplayStream) (capacity : ℕ) (bytes : List ℕ) (length arrival_cycle : ℕ)
    : Type 0 where
  pub valid : IsValid capacity s'
  pub count_eq : s'.count ≡ s.count + 1
  pub last : Holds (message s' s.count) bytes length arrival_cycle
  pub kept : (i : ℕ) → i < s.count → message s' i ≡ message s i

pub fresh-IsValid : (capacity : ℕ) → IsValid capacity (fresh capacity)
unfolding fresh
fresh-IsValid capacity = record {
  size = length-replicate capacity blank_message;
  count_le = omega arith;
  room = λ i h. ap (λ (m : Message). length m.bytes) (get_or-replicate capacity i blank_message);
}

abbrev rejected : ℕ → ReplayStream → ℕ → Bool
rejected capacity s n = leb capacity s.count || n == 0 || ltb 40 n

-- A stream with room and a message of 1 to 40 bytes: it is accepted, and stored behind the others with
-- its bytes, its type and its arrival; else the push is refused and changes nothing.
pub push_lem :
    (capacity : ℕ) (s : ReplayStream) (bytes : List ℕ) (n arrival_cycle : ℕ)
    → IsValid capacity s
    → let (s', good) = push capacity s bytes n arrival_cycle in
      ((good ≡ true)
        × ((s.count < capacity) × (0 < n) × (n ≤ 40))
        × Pushed s s' capacity bytes n arrival_cycle)
      ⊎ ((good ≡ false) × ((s.count ≡ capacity) ⊎ ((n ≡ 0) ⊎ (40 < n))) × (s' ≡ s))
unfolding push
push_lem capacity s bytes n arrival_cycle v = elim (Bool-cases (rejected capacity s n)) [
  | inl e ↦ let count_le = v.count_le in simp e (inr (refl, ground (arith, e), refl))
  | inr e ↦
      let (free, some_bytes, few) : (s.count < capacity) × (0 < n) × (n ≤ 40) = ground (arith, e) in
      let m : Message = message s s.count in
      let m' : Message = record m {
        bytes = memcpy m.bytes 0 bytes 0 n;
        length = n % 2 ^ 8;
        type = get_or bytes 0 0;
        arrival_cycle = arrival_cycle;
      } in
      let here =
        get_or-set_self s.messages s.count m' blank_message (omega (arith, v.size, free)) in
      simp e (
        inl (
          refl,
          (free, some_bytes, few),
          record {
            valid = record {
              size = length-set s.messages s.count m' ∙ v.size;
              count_le = omega (arith, free);
              room = λ i h. elim (ℕ_discrete s.count i) [
                | yes same ↦
                    ap (λ k. length (get_or (set s.messages s.count m') k blank_message).bytes)
                      (sym same)
                    ∙ ap (λ (x : Message). length x.bytes) here
                    ∙ length-memcpy m.bytes 0 bytes 0 n
                    ∙ v.room s.count free
                | no ne ↦
                    ap (λ (x : Message). length x.bytes)
                      (get_or-set_ne s.messages m' blank_message ne)
                    ∙ v.room i h
              ];
            };
            count_eq = refl;
            last =
                subst (λ x. Holds x bytes n arrival_cycle) (sym here)
                  (record {
                    bytes_eq = λ j h.
                        ap (λ k. byte (memcpy m.bytes 0 bytes 0 n) k) (omega arith)
                        ∙ get_or-memcpy m.bytes 0 bytes 0 n j
                            (omega (arith, v.room s.count free, few)) h
                        ∙ ap (byte bytes) (omega arith);
                    length_eq = omega (arith, few);
                    type_eq = refl;
                    arrival_eq = refl;
                  });
            kept =
                λ i h. get_or-set_ne s.messages m' blank_message (λ same. omega (arith, same, h));
          },
        ))
]
