-- ===== src/Memory/Dram.antt =====
-- The DRAM through the aliases of the address space: cached, uncached and translated addresses of
-- the same 29-bit address are the same byte.
use native.Mathlib.Nat.{mod-lt, one-le-pow}
use casio_cg.Base.{
  ℕ, ◌+◌, ◌-◌, ◌*◌, ◌^◌, ◌≤◌, ◌<◌, ◌≡◌, refl, sym, ap, ◌∙◌, subst, true, false, arith, leb,
}
use casio_cg.Bytes.{be_read, be_write, Buffer}
use casio_cg.Bytes.RoundTrip.{read-write_bytes}
use casio_cg.Cpu.State.{Cpu}
use casio_cg.Cpu.Bus.{got, ok}
use casio_cg.Memory.{
  dram_base, translated, cut, phys_of, in_dram, from_read, from_write, read_at, write_at, load,
  store, Memory, Mmio,
}

module _ {D : Type 0} (bus : Mmio D) (m : Memory D) (va size : ℕ) (low : va < 0xE0000000)
    (inside : in_dram (phys_of va) ≡ true) where
  pub read_dram : read_at bus m va size ≡ from_read (be_read m.dram (phys_of va - dram_base) size) m
  unfolding read_at
  read_dram = let below : leb 0xE0000000 va ≡ false = ground arith in rw (below, inside) refl

  pub write_dram :
      (val : ℕ)
      → write_at bus m va size val
        ≡ from_write
            (be_write m.dram (phys_of va - dram_base) size val)
            (λ b. record m { dram = b })
  unfolding write_at
  write_dram val = let below : leb 0xE0000000 va ≡ false = ground arith in rw (below, inside) refl

load_plain :
    {D : Type 0} (bus : Mmio D) (c : Cpu) (m : Memory D) (va size : ℕ)
    → translated m va ≡ false
    → load bus c m va size ≡ read_at bus m va size
unfolding load
load_plain bus c m va size h = rw h refl

store_plain :
    {D : Type 0} (bus : Mmio D) (c : Cpu) (m : Memory D) (va size val : ℕ)
    → translated m va ≡ false
    → store bus c m va size val ≡ write_at bus m va size (cut size val)
unfolding store
store_plain bus c m va size val h = rw h refl

same_mmu :
    {D : Type 0} (m : Memory D) (b : Buffer) (va : ℕ)
    → translated (record m { dram = b }) va ≡ translated m va
unfolding translated
same_mmu m b va = refl

cut-lt : (size val : ℕ) → cut size val < 2 ^ (8 * size)
cut-lt size val = mod-lt val (one-le-pow (8 * size) 2 (omega arith))

-- What is written to DRAM by an address that is not translated is read back by any other such
-- address of the same 29-bit address: its low bits that fit the size. Only the DRAM changes.
pub load-store_dram :
    {D : Type 0} (bus : Mmio D) (c c' : Cpu) (m : Memory D) (va va' size val : ℕ)
    → translated m va ≡ false
    → translated m va' ≡ false
    → va < 0xE0000000
    → va' < 0xE0000000
    → phys_of va ≡ phys_of va'
    → in_dram (phys_of va) ≡ true
    → phys_of va - dram_base + size ≤ m.dram.size
    → size ≤ 4
    → (b : Buffer) × (store bus c m va size val ≡ ok 0 (record m { dram = b }))
      × (load bus c' (record m { dram = b }) va' size ≡ ok (cut size val) (record m { dram = b }))
load-store_dram bus c c' m va va' size val plain plain' low low' alias inside fits four =
    let off = phys_of va - dram_base in
    let (b, wrote, got, size_kept, rest) =
      read-write_bytes m.dram off size (cut size val) fits four (cut-lt size val) in
    let m' = record m { dram = b } in
    let inside' : in_dram (phys_of va') ≡ true = subst (λ p. in_dram p ≡ true) alias inside in
    let stored =
      store_plain bus c m va size val plain
      ∙ write_dram bus m va size low inside (cut size val)
      ∙ ap (λ o. from_write o (λ x. record m { dram = x })) wrote in
    let loaded =
      load_plain bus c' m' va' size (same_mmu m b va' ∙ plain')
      ∙ read_dram bus m' va' size low' inside'
      ∙ ap (λ p. from_read (be_read b (p - dram_base) size) m') (sym alias)
      ∙ ap (λ o. from_read o m') got in
    (b, stored, loaded)
