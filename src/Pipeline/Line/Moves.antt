-- ===== src/Pipeline/Line/Moves.antt =====
-- Each hand-over of a message from one place to the next leaves the line as it was.
use mathlib.Core.List.{append_assoc}
use fpga_sim_core.Prelude.{
  ℕ, ◌+◌, ◌%◌, ◌^◌, ◌<◌, ◌≡◌, ◌∙◌, refl, sym, subst, ap, true, Option, none, some, List, [], ◌∷◌,
  ◌++◌, arith,
}
use fpga_sim_core.Ring
use fpga_sim_core.Ring.{RingBuffer}
use fpga_sim_core.Ring.Inv.{IsValid, push-IsValid, pop-IsValid}
use fpga_sim_core.Ring.Refine.{contents, contents-push, contents-pop}
use fpga_sim_core.Pipeline.Posting.{id_of}
use fpga_sim_core.Pipeline.Line.{
  IsRun, IsRun-append, IsRun-le, listed, Line, in_back, in_flight, IsLine,
}

-- A change of the line that keeps its order.
same_order :
    (l l' : Line)
    → IsValid 64 l'.dma_q
    → IsValid 16 l'.ofi_ring
    → IsValid 16 l'.bram_ring
    → in_flight l' ≡ in_flight l
    → l'.completed ≡ l.completed
    → l'.next_msg ≡ l.next_msg
    → IsLine l
    → IsLine l'
same_order l l' a b c e f g i = record {
  dma_q_valid = a;
  ofi_ring_valid = b;
  bram_ring_valid = c;
  sequence = rw (e, f, g) i.sequence;
  few = rw g i.few;
}

pushed :
    (count : ℕ) (r : RingBuffer ℕ) (id : ℕ)
    → IsValid count r
    → (Ring.push count r id).1 ≡ true
    → contents count 0 (Ring.push count r id).0 ≡ contents count 0 r ++ id ∷ []
pushed count r id i e = contents-push count 0 r id i ∙ rw e refl

popped :
    (count : ℕ) (r : RingBuffer ℕ) (id : ℕ)
    → (Ring.pop count 0 r).1 ≡ some id
    → contents count 0 r ≡ id ∷ contents count 0 (Ring.pop count 0 r).0
popped count r id e = contents-pop count 0 r ∙ rw e refl

-- The last in front of the rest is the first of the rest.
regroup : (xs : List ℕ) (x : ℕ) (rest : List ℕ) → (xs ++ x ∷ []) ++ rest ≡ xs ++ x ∷ rest
regroup xs x rest = append_assoc xs (x ∷ []) rest

listed-append :
    (o : Option ℕ) (rest more : List ℕ) → listed o rest ++ more ≡ listed o (rest ++ more)
listed-append none rest more = refl
listed-append (some id) rest more = refl

module _ (l : Line) (i : IsLine l) where
  pub mac_to_parse :
      l.parse ≡ none
      → l.mac ≡ some (id_of l.mac)
      → IsLine (record l { parse = some (id_of l.mac); mac = none })
  mac_to_parse e f =
      same_order l (record l { parse = some (id_of l.mac); mac = none }) i.dma_q_valid
        i.ofi_ring_valid i.bram_ring_valid (rw (e, f) refl) refl refl i

  pub pcs_to_mac :
      l.mac ≡ none
      → l.pcs ≡ some (id_of l.pcs)
      → IsLine (record l { mac = some (id_of l.pcs); pcs = none })
  pcs_to_mac e f =
      same_order l (record l { mac = some (id_of l.pcs); pcs = none }) i.dma_q_valid
        i.ofi_ring_valid i.bram_ring_valid (rw (e, f) refl) refl refl i

  pub parse_to_book :
      l.book ≡ none
      → l.parse ≡ some (id_of l.parse)
      → IsLine (record l { book = some (id_of l.parse); parse = none })
  parse_to_book e f =
      same_order l (record l { book = some (id_of l.parse); parse = none }) i.dma_q_valid
        i.ofi_ring_valid i.bram_ring_valid (rw (e, f) refl) refl refl i

  pub book_to_rd :
      l.rd ≡ none
      → l.book ≡ some (id_of l.book)
      → IsLine (record l { rd = some (id_of l.book); book = none })
  book_to_rd e f =
      same_order l (record l { rd = some (id_of l.book); book = none }) i.dma_q_valid
        i.ofi_ring_valid i.bram_ring_valid (rw (e, f) refl) refl refl i

  pub rd_to_ring :
      l.rd ≡ some (id_of l.rd)
      → (Ring.push 16 l.bram_ring (id_of l.rd)).1 ≡ true
      → IsLine (record l { bram_ring = (Ring.push 16 l.bram_ring (id_of l.rd)).0; rd = none })
  rd_to_ring e accepted =
      same_order l (record l { bram_ring = (Ring.push 16 l.bram_ring (id_of l.rd)).0; rd = none })
        i.dma_q_valid i.ofi_ring_valid (push-IsValid 16 l.bram_ring (id_of l.rd) i.bram_ring_valid)
        (ap ahead (
          rw (pushed 16 l.bram_ring (id_of l.rd) i.bram_ring_valid accepted) (
            regroup (contents 16 0 l.bram_ring) (id_of l.rd) later
            ∙ ap (λ o. contents 16 0 l.bram_ring ++ listed o later) (sym e))))
        refl refl i
    where
      later : List ℕ
      later = in_back (record l { rd = none })

      ahead : List ℕ → List ℕ
      ahead rest =
          listed l.dma (contents 64 0 l.dma_q ++ (contents 16 0 l.ofi_ring ++ listed l.ofi_in rest))

  pub ring_to_ofi_in :
      (id : ℕ)
      → l.ofi_in ≡ none
      → (Ring.pop 16 0 l.bram_ring).1 ≡ some id
      → IsLine (record l { bram_ring = (Ring.pop 16 0 l.bram_ring).0; ofi_in = some id })
  ring_to_ofi_in id e got =
      same_order l (record l { bram_ring = (Ring.pop 16 0 l.bram_ring).0; ofi_in = some id })
        i.dma_q_valid i.ofi_ring_valid (pop-IsValid 16 0 l.bram_ring i.bram_ring_valid)
        (rw (e, popped 16 l.bram_ring id got) refl) refl refl i

  pub ofi_in_to_ring :
      l.ofi_in ≡ some (id_of l.ofi_in)
      → (Ring.push 16 l.ofi_ring (id_of l.ofi_in)).1 ≡ true
      → IsLine (record l { ofi_ring = (Ring.push 16 l.ofi_ring (id_of l.ofi_in)).0; ofi_in = none })
  ofi_in_to_ring e accepted =
      same_order l
        (record l { ofi_ring = (Ring.push 16 l.ofi_ring (id_of l.ofi_in)).0; ofi_in = none })
        i.dma_q_valid (push-IsValid 16 l.ofi_ring (id_of l.ofi_in) i.ofi_ring_valid)
        i.bram_ring_valid
        (ap (λ rest. listed l.dma (contents 64 0 l.dma_q ++ rest))
          (rw (pushed 16 l.ofi_ring (id_of l.ofi_in) i.ofi_ring_valid accepted) (
            regroup (contents 16 0 l.ofi_ring) (id_of l.ofi_in) later
            ∙ ap (λ o. contents 16 0 l.ofi_ring ++ listed o later) (sym e))))
        refl refl i
    where
      later : List ℕ
      later = contents 16 0 l.bram_ring ++ in_back l

  pub ofi_ring_to_dma_q :
      (id : ℕ)
      → (Ring.pop 16 0 l.ofi_ring).1 ≡ some id
      → (Ring.push 64 l.dma_q id).1 ≡ true
      → IsLine (record l {
        ofi_ring = (Ring.pop 16 0 l.ofi_ring).0;
        dma_q = (Ring.push 64 l.dma_q id).0;
      })
  ofi_ring_to_dma_q id got accepted =
      same_order l
        (record l { ofi_ring = (Ring.pop 16 0 l.ofi_ring).0; dma_q = (Ring.push 64 l.dma_q id).0 })
        (push-IsValid 64 l.dma_q id i.dma_q_valid) (pop-IsValid 16 0 l.ofi_ring i.ofi_ring_valid)
        i.bram_ring_valid
        (ap (listed l.dma) (
          rw (pushed 64 l.dma_q id i.dma_q_valid accepted, popped 16 l.ofi_ring id got)
            (regroup (contents 64 0 l.dma_q) id
              (contents 16 0 (Ring.pop 16 0 l.ofi_ring).0 ++ later))))
        refl refl i
    where
      later : List ℕ
      later = listed l.ofi_in (contents 16 0 l.bram_ring ++ in_back l)

  pub dma_q_to_dma :
      (id : ℕ)
      → l.dma ≡ none
      → (Ring.pop 64 0 l.dma_q).1 ≡ some id
      → IsLine (record l { dma_q = (Ring.pop 64 0 l.dma_q).0; dma = some id })
  dma_q_to_dma id e got =
      same_order l (record l { dma_q = (Ring.pop 64 0 l.dma_q).0; dma = some id })
        (pop-IsValid 64 0 l.dma_q i.dma_q_valid) i.ofi_ring_valid i.bram_ring_valid
        (rw (e, popped 64 l.dma_q id got) refl) refl refl i

  pub dma_completed :
      l.dma ≡ some (id_of l.dma)
      → IsLine (record l { dma = none; completed = (l.completed + 1) % 2 ^ 64 })
  dma_completed e =
      let sequence : IsRun l.completed (id_of l.dma ∷ later) l.next_msg =
        subst (λ o. IsRun l.completed (listed o later) l.next_msg) e i.sequence in
      let count : (l.completed + 1) % 2 ^ 64 ≡ l.completed + 1 =
        omega (arith, IsRun-le (l.completed + 1) later l.next_msg sequence.1, i.few) in
      record {
        dma_q_valid = i.dma_q_valid;
        ofi_ring_valid = i.ofi_ring_valid;
        bram_ring_valid = i.bram_ring_valid;
        sequence = rw count sequence.1;
        few = i.few;
      }
    where
      later : List ℕ
      later =
          contents 64 0 l.dma_q
          ++ (contents 16 0 l.ofi_ring ++ listed l.ofi_in (contents 16 0 l.bram_ring ++ in_back l))

  pub wire_to_pcs :
      l.pcs ≡ none
      → l.next_msg + 1 < 2 ^ 64
      → IsLine (record l { pcs = some l.next_msg; next_msg = l.next_msg + 1 })
  wire_to_pcs e few = record {
    dma_q_valid = i.dma_q_valid;
    ofi_ring_valid = i.ofi_ring_valid;
    bram_ring_valid = i.bram_ring_valid;
    sequence =
        subst (λ ids. IsRun l.completed ids (l.next_msg + 1)) longer
          (IsRun-append l.completed (in_flight l) l.next_msg i.sequence);
    few = few;
  }
    where
      longer :
          in_flight l ++ l.next_msg ∷ []
          ≡ in_flight (record l { pcs = some l.next_msg; next_msg = l.next_msg + 1 })
      longer = rw e (simp (listed-append, append_assoc))

  pub dma_q_empty :
      (Ring.pop 64 0 l.dma_q).1 ≡ none → IsLine (record l { dma_q = (Ring.pop 64 0 l.dma_q).0 })
  dma_q_empty got =
      same_order l (record l { dma_q = (Ring.pop 64 0 l.dma_q).0 })
        (pop-IsValid 64 0 l.dma_q i.dma_q_valid) i.ofi_ring_valid i.bram_ring_valid
        (ap
          (λ q. listed l.dma (
            q
            ++ (contents 16 0 l.ofi_ring
                ++ listed l.ofi_in (contents 16 0 l.bram_ring ++ in_back l))))
          (sym (contents-pop 64 0 l.dma_q ∙ rw got refl)))
        refl refl i
