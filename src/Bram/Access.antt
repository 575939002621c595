-- ===== src/Bram/Access.antt =====
-- One clock cycle of the memory: what it stores, and what the next cycles read.
use fpga_sim_core.Prelude.{
  ℕ, ◌<◌, ◌≡◌, ◌∙◌, ap, inl, inr, true, false, ◌&&◌, List, arith, length, get_or, set, length-set,
  get_or-set_self, get_or-set_ne, ltb, refl, ◌==◌, ltb→lt, ==_iff, if◌then◌else◌, Bool-cases,
}
use fpga_sim_core.Bram
use fpga_sim_core.Bram.{DualPortBram, PortRequest, PortResponse, Pair, write_port}
use fpga_sim_core.Bram.Latency.{latency_ignored}

module _ {ℓ} {T : Type ℓ} (z : T) (depth latency : ℕ) where
  pub cycle : DualPortBram T → PortRequest T → PortRequest T → DualPortBram T
  cycle m a b = Bram.negedge z depth latency (Bram.posedge z depth latency m a b)

  abbrev pub cell : List T → ℕ → T
  cell memory i = get_or memory i z

  -- What a port leaves in a cell.
  abbrev pub stored : PortRequest T → ℕ → T → T
  stored r i old = if r.write && r.address == i then r.write_data else old

  write_port-length :
      (memory : List T) (r : PortRequest T)
      → length (write_port z depth latency memory r) ≡ length memory
  unfolding write_port
  write_port-length memory r = elim (Bool-cases (r.write && ltb r.address depth)) [
    | inl e ↦ rw e (length-set memory r.address r.write_data)
    | inr e ↦ rw e
  ]

  set-cell :
      (memory : List T) (i j : ℕ) (v : T)
      → i < length memory
      → cell (set memory i v) j ≡ (if i == j then v else cell memory j)
  set-cell memory i j v h = elim (Bool-cases (i == j)) [
    | inl e ↦ rw (e, ← (==_iff i j).0 e) (get_or-set_self memory i v z h)
    | inr e ↦ rw e (get_or-set_ne memory v z (ground arith))
  ]

  write_port-cell :
      (memory : List T) (r : PortRequest T) (i : ℕ)
      → length memory ≡ depth
      → i < depth
      → cell (write_port z depth latency memory r) i ≡ stored r i (cell memory i)
  unfolding write_port
  write_port-cell memory r i l h = elim (Bool-cases r.write) [
    | inl writes ↦ elim (Bool-cases (ltb r.address depth)) [
      | inl inside ↦
          simp (writes, inside)
            (set-cell memory r.address i r.write_data (ground (arith, ltb→lt r.address depth)))
      | inr outside ↦
          let other : (r.address == i) ≡ false = ground arith in simp (writes, outside, other)
    ]
    | inr reads ↦ simp reads
  ]

  -- Ports that keep to the asserts read inside the memory and nothing that the other one writes.
  asserted :
      (a b : PortRequest T)
      → Bram.asserts z depth latency a b ≡ true
      → ((a.read && ltb a.address depth) ≡ a.read)
        × ((b.read && ltb b.address depth) ≡ b.read)
        × ((a.read && b.write && b.address == a.address) ≡ false)
        × ((b.read && a.write && a.address == b.address) ≡ false)
  unfolding Bram.asserts Bram.collides
  asserted a b h = (ground (arith, h), ground (arith, h), ground (arith, h), ground (arith, h))

  -- What a port should read: the cell before the cycle, or what the port itself has just written there.
  abbrev pub answer : DualPortBram T → PortRequest T → PortResponse T
  answer m r =
      if r.read
      then record { valid = true; value = stored r r.address (cell m.memory r.address) }
      else Bram.no_response z depth latency

  answered :
      (m : DualPortBram T) (r : PortRequest T) (memory : List T)
      → (r.read && ltb r.address depth) ≡ r.read
      → (r.read ≡ true → cell memory r.address ≡ stored r r.address (cell m.memory r.address))
      → Bram.read_port z depth latency memory r ≡ answer m r
  unfolding Bram.read_port
  answered m r memory inside same = elim (Bool-cases r.read) [
    | inl reads ↦ rw (inside, reads) (ap (λ v. record { valid = true; value = v }) (same reads))
    | inr idle ↦ rw (inside, idle) refl
  ]

  inside :
      (r : PortRequest T)
      → (r.read && ltb r.address depth) ≡ r.read
      → r.read ≡ true
      → r.address < depth
  inside r e reads = ground (arith, e, reads)

  stored-other :
      (a b : PortRequest T) (v : T)
      → a.read ≡ true
      → (a.read && b.write && b.address == a.address) ≡ false
      → stored b a.address v ≡ v
  stored-other a b v reads other =
      let no_write : (b.write && b.address == a.address) ≡ false = ground (arith, reads, other) in
      rw no_write refl

  -- In a valid memory of positive latency, one cycle in which the ports keep to the asserts, so that neither
  -- one in use addresses past the end and neither one writes a cell that the other reads or writes: each
  -- cell holds what a port wrote there, or else what it held; and a port that reads gets what its cell held
  -- before the cycle, or what it wrote there itself, any other port no valid response.
  pub cycle_lem :
      (m : DualPortBram T) (a b : PortRequest T) (i : ℕ)
      → 0 < latency
      → length m.pending ≡ latency
      → length m.memory ≡ depth
      → i < depth
      → Bram.asserts z depth latency a b ≡ true
      → let m' = cycle m a b in
        (cell m'.memory i ≡ stored b i (stored a i (cell m.memory i)))
        × (m'.response_a ≡ answer m a)
        × (m'.response_b ≡ answer m b)
        × (length m'.memory ≡ depth)
  unfolding cycle Bram.read_port
  cycle_lem m a b i pos pl ml h ok =
      let (memory_eq, a_eq, b_eq) = latency_ignored z depth latency m a b pos pl in
      let twice = λ (j : ℕ) (k : j < depth).
        write_port-cell (write_port z depth latency m.memory a) b j
          (write_port-length m.memory a ∙ ml) k
        ∙ ap (stored b j) (write_port-cell m.memory a j ml k) in
      let (a_in, b_in, a_other, b_other) = asserted a b ok in
      (
        ap (λ mem. cell mem i) memory_eq ∙ twice i h,
        a_eq
            ∙ answered m a (write_port z depth latency (write_port z depth latency m.memory a) b)
                a_in
                (λ reads.
                  twice a.address (inside a a_in reads)
                  ∙ stored-other a b (stored a a.address (cell m.memory a.address)) reads a_other),
        b_eq
            ∙ answered m b (write_port z depth latency (write_port z depth latency m.memory a) b)
                b_in
                (λ reads.
                  twice b.address (inside b b_in reads)
                  ∙ ap (stored b b.address)
                      (stored-other b a (cell m.memory b.address) reads b_other)),
        ap length memory_eq
            ∙ write_port-length (write_port z depth latency m.memory a) b
            ∙ write_port-length m.memory a
            ∙ ml,
      )
