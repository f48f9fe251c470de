-- ===== src/Dma/Byte.antt =====
-- A transfer's accesses to a byte of the DRAM.
use casio_cg.Base.{
  ℕ, ◌+◌, ◌-◌, ◌*◌, ◌≤◌, ◌<◌, bit_and, bit_or, ◌≡◌, refl, ap, ◌∙◌, true, false, some, arith, ltb,
  ◌==◌, if◌then◌else◌, lt→ltb, bit_or-zero, bit_and_mask, u8, sub32, ◌>>>◌, bit_or_fields,
  bit_or_comm,
}
use casio_cg.Bytes.{be_read, be_write, Buffer}
use casio_cg.Memory.{
  dram_base, dram_size, xyram_base, xyram_size, cut, phys_of, in_dram, from_read, from_write,
  write_at, Memory, Mmio,
}
use casio_cg.Memory.Dram.{read_dram, write_dram}
use casio_cg.Dma.{dma_addr, as_step, byte_at_dma}

abbrev pub dram_top : ℕ
dram_top = dram_base + dram_size

-- A physical address of the DRAM is reached through the alias that is not translated.
dma_addr_dram :
    (a : ℕ)
    → dram_base ≤ a
    → a < dram_top
    → (dma_addr a ≡ 0xA0000000 + a) × (phys_of (dma_addr a) ≡ a)
unfolding dma_addr
dma_addr_dram a lo hi =
    let outside : ltb (sub32 a xyram_base) xyram_size ≡ false = ground arith in
    let low : bit_and a 0x1FFFFFFF ≡ a = omega (arith, bit_and_mask 29 a) in
    let sum : bit_or 0xA0000000 a ≡ 0xA0000000 + a = bit_or_fields 29 5 a (omega arith) in
    let addr : dma_addr a ≡ 0xA0000000 + a = rw (outside, low) sum in
    let back : bit_and (0xA0000000 + a) 0x1FFFFFFF ≡ a =
      omega (arith, bit_and_mask 29 (0xA0000000 + a)) in
    (addr, ap phys_of addr ∙ back)

one_byte : (b : Buffer) (off : ℕ) → off < b.size → be_read b off 1 ≡ some (b.at off)
unfolding be_read
one_byte b off h =
    let inside : ltb off b.size ≡ true = lt→ltb off b.size h in
    let whole : bit_or 0 (b.at off) ≡ b.at off =
      bit_or_comm 0 (b.at off) ∙ bit_or-zero (b.at off) in
    rw (inside, whole) refl

abbrev pub stored : Buffer → ℕ → ℕ → Buffer
stored b off v = record b { at = λ (j : ℕ). if j == off then v else b.at j }

store_byte :
    (b : Buffer) (off v : ℕ) → off < b.size → v < 256 → be_write b off 1 v ≡ some (stored b off v)
unfolding be_write
store_byte b off v h hv =
    let here : off + 1 - 1 - 0 ≡ off = omega arith in
    let inside : ltb off b.size ≡ true = lt→ltb off b.size h in
    let byte : u8 (v >>> (8 * 0)) ≡ v = omega arith in rw (here, inside, byte) refl

module _ {D : Type 0} (bus : Mmio D) (m : Memory D) (full : m.dram.size ≡ dram_size) (a : ℕ)
    (lo : dram_base ≤ a) (hi : a < dram_top) where
  at_dram : in_dram (phys_of (dma_addr a)) ≡ true
  at_dram = rw ((dma_addr_dram a lo hi).1) (ground arith)

  low_addr : dma_addr a < 0xE0000000
  low_addr = omega (arith, (dma_addr_dram a lo hi).0)

  pub read_byte : byte_at_dma bus m a ≡ some (m.dram.at (a - dram_base), m)
  read_byte = ap as_step (
      read_dram bus m (dma_addr a) 1 low_addr at_dram
      ∙ ap (λ p. from_read (be_read m.dram (p - dram_base) 1) m) (dma_addr_dram a lo hi).1
      ∙ ap (λ o. from_read o m) (one_byte m.dram (a - dram_base) (omega (arith, full))))

  pub write_byte :
      (v : ℕ)
      → v < 256
      → as_step (write_at bus m (dma_addr a) 1 (cut 1 v))
        ≡ some (0, record m { dram = stored m.dram (a - dram_base) v })
  write_byte v hv =
      let whole : cut 1 v ≡ v = omega arith in
      ap as_step (
        ap (write_at bus m (dma_addr a) 1) whole
        ∙ write_dram bus m (dma_addr a) 1 low_addr at_dram v
        ∙ ap (λ p. from_write (be_write m.dram (p - dram_base) 1 v) (λ b. record m { dram = b }))
            (dma_addr_dram a lo hi).1
        ∙ ap (λ o. from_write o (λ b. record m { dram = b }))
            (store_byte m.dram (a - dram_base) v (omega (arith, full)) hv))
