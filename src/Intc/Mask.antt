-- ===== src/Intc/Mask.antt =====
-- The mask registers IMR0..IMR12 (a write sets bits) and IMCR0..IMCR12 (a write clears bits).
use casio_cg.Base.{
  ℕ, ◌+◌, ◌-◌, ◌*◌, ◌<◌, min, max, bit_or, ◌≡◌, arith, ◌==◌, if◌then◌else◌, length, get_or, set,
  get_or-set_self, get_or-set_ne, and_not, test_bit, test_bit-or, test_bit-and_not, bit_and_three,
  u8, u16, sub32,
}
use casio_cg.Intc.{intc_base, is_ipr, is_imr, read, write, Intc}

-- The addresses of IMR r, IMCR r and IPR r.
abbrev pub imr_addr : ℕ → ℕ
imr_addr r = intc_base + 0x80 + r * 4

abbrev pub imcr_addr : ℕ → ℕ
imcr_addr r = intc_base + 0xC0 + r * 4

abbrev pub ipr_addr : ℕ → ℕ
ipr_addr r = intc_base + r * 4

pub write-imr :
    (k : Intc) (r v : ℕ)
    → r < 13
    → write k (imr_addr r) v ≡ record k { imr = set k.imr r (bit_or (get_or k.imr r 0) (u8 v)) }
unfolding write is_ipr is_imr
write-imr k r v h = ground (arith, bit_and_three (sub32 (imr_addr r) intc_base))

pub write-imcr :
    (k : Intc) (r v : ℕ)
    → r < 13
    → write k (imcr_addr r) v ≡ record k { imr = set k.imr r (and_not (get_or k.imr r 0) (u8 v)) }
unfolding write is_ipr is_imr
write-imcr k r v h = ground (arith, bit_and_three (sub32 (imcr_addr r) intc_base))

pub write-ipr :
    (k : Intc) (r v : ℕ) → r < 12 → write k (ipr_addr r) v ≡ record k { ipr = set k.ipr r (u16 v) }
unfolding write is_ipr is_imr
write-ipr k r v h = ground (arith, bit_and_three (sub32 (ipr_addr r) intc_base))

read-ipr : (k : Intc) (r : ℕ) → r < 12 → read k (ipr_addr r) ≡ get_or k.ipr r 0
unfolding read is_ipr is_imr
read-ipr k r h = ground (arith, bit_and_three (sub32 (ipr_addr r) intc_base))

read-imr : (k : Intc) (r : ℕ) → r < 13 → read k (imr_addr r) ≡ get_or k.imr r 0
unfolding read is_ipr is_imr
read-imr k r h = ground (arith, bit_and_three (sub32 (imr_addr r) intc_base))

-- Writing IMR r sets exactly the mask bits that are set in the low byte of the value, writing
-- IMCR r clears exactly those, and every other mask register reads as before.
mask_registers :
    (k : Intc) (r q v i : ℕ)
    → length k.imr ≡ 13
    → r < 13
    → q < 13
    → (test_bit (read (write k (imr_addr r) v) (imr_addr q)) i ≡ (
        if q == r
        then max (test_bit (read k (imr_addr q)) i) (test_bit (u8 v) i)
        else test_bit (read k (imr_addr q)) i))
      × (test_bit (read (write k (imcr_addr r) v) (imr_addr q)) i ≡ (
          if q == r
          then min (test_bit (read k (imr_addr q)) i) (1 - test_bit (u8 v) i)
          else test_bit (read k (imr_addr q)) i))
mask_registers k r q v i len hr hq =
    rw (write-imr k r v hr, write-imcr k r v hr, read-imr k q hq, read-imr _ q hq, read-imr _ q hq)
      (ground (
        arith,
        get_or-set_self k.imr r (bit_or (get_or k.imr r 0) (u8 v)) 0,
        get_or-set_self k.imr r (and_not (get_or k.imr r 0) (u8 v)) 0,
        get_or-set_ne k.imr r q (bit_or (get_or k.imr r 0) (u8 v)) 0,
        get_or-set_ne k.imr r q (and_not (get_or k.imr r 0) (u8 v)) 0,
        test_bit-or (get_or k.imr r 0) (u8 v) i,
        test_bit-and_not (get_or k.imr r 0) (u8 v) i,
      ))

-- A priority register reads back the low 16 bits that were written to it, the other priority
-- registers and all mask registers read as before.
read-write-ipr :
    (k : Intc) (r q v : ℕ)
    → length k.ipr ≡ 12
    → r < 12
    → q < 12
    → (read (write k (ipr_addr r) v) (ipr_addr q) ≡ (if q == r then u16 v else read k (ipr_addr q)))
      × (read (write k (ipr_addr r) v) (imr_addr q) ≡ read k (imr_addr q))
read-write-ipr k r q v len hr hq =
    rw
      (
        write-ipr k r v hr,
        read-ipr k q hq,
        read-ipr _ q hq,
        read-imr k q (omega arith),
        read-imr _ q (omega arith),
      )
      (ground (arith, get_or-set_self k.ipr r (u16 v) 0, get_or-set_ne k.ipr r q (u16 v) 0))
