-- ===== src/Memory/Fetch.antt =====
-- `fetch16`, the fast path of an instruction fetch, against the general read.
use casio_cg.Base.{
  ℕ, ◌+◌, ◌-◌, ◌%◌, ◌^◌, ◌<◌, bit_or, ◌≡◌, refl, sym, ap, ◌∙◌, inl, inr, Bool, true, false, not,
  ◌&&◌, none, arith, ltb, leb, ◌==◌, if◌then◌else◌, ltb→lt, lt→ltb, Bool-cases, bit_and_mask, u32,
  sub32, ◌<<<◌, bit_or_fields, true≢false,
}
use casio_cg.Bytes.{be_read, Buffer}
use casio_cg.Cpu.State.{Cpu}
use casio_cg.Cpu.Bus.{Access}
use casio_cg.Flash.{flash_mut_top, sector_of, flash_read}
use casio_cg.Memory.{
  flash_size, dram_base, dram_size, translated, phys_of, in_dram, in_mmio, from_read, flash_slice,
  two_bytes, read_at, load, fetch_fast, fetch16, Memory, Mmio,
}

both :
    {A : Type 0} (s t : Bool) (x y : A)
    → (if s then (if t then x else y) else y) ≡ (if s && t then x else y)
both true t x y = refl
both false t x y = refl

first_branch : {A : Type 0} (t : Bool) (x y z : A) → t ≡ true → x ≡ z → (if t then x else y) ≡ z
first_branch true x y z h e = e
first_branch false x y z h e = absurd (true≢false (sym h))

read_two : (b : Buffer) (off : ℕ) → b.at off < 2 ^ 8 → be_read b off 2 ≡ two_bytes b off
unfolding be_read
read_two b off byte =
    let first : bit_or (u32 (0 <<< 8)) (b.at off) ≡ b.at off =
      omega (arith, bit_or_fields 8 0 (b.at off) byte) in
    rw first (both (ltb off b.size) (ltb (off + 1) b.size) _ none)

phys-lt : (va : ℕ) → phys_of va < 2 ^ 29
phys-lt va = let e : phys_of va ≡ va % 2 ^ 29 = bit_and_mask 29 va in omega arith

fast_parts : (s t : Bool) → (not s && t) ≡ true → (s ≡ false) × (t ≡ true)
fast_parts true t h = absurd (true≢false (sym h))
fast_parts false t h = (refl, h)

module _ {D : Type 0} (bus : Mmio D) (m : Memory D) where
  untranslated : (va : ℕ) → m.mmu.translating ≡ false → translated m va ≡ false
  unfolding translated
  untranslated va h = rw h refl

  -- A read of the flash below `flash_mut_top`, where no erase answers.
  flash_at :
      (pc : ℕ)
      → pc < 0xA4000000
      → phys_of pc < flash_mut_top
      → m.flash.array (phys_of pc) < 2 ^ 8
      → (ltb 0 m.flash.erase_busy && (sector_of (phys_of pc) == m.flash.erase_sect)) ≡ false
      → read_at bus m pc 2 ≡ from_read (two_bytes (flash_slice m.flash) (phys_of pc)) m
  unfolding read_at flash_read
  flash_at pc low inside byte quiet =
      let below : leb 0xE0000000 pc ≡ false = ground arith in
      let no_dram : in_dram (phys_of pc) ≡ false = ground arith in
      let no_mmio : in_mmio pc ≡ false = ground arith in
      let in_flash : ltb (phys_of pc) flash_size ≡ true = ground arith in
      let in_array : ltb (phys_of pc) flash_mut_top ≡ true =
        lt→ltb (phys_of pc) flash_mut_top inside in
      rw (below, no_dram, no_mmio, in_flash)
        (first_branch (ltb (phys_of pc) flash_mut_top) _ _ _ in_array
          (rw quiet (ap (λ r. from_read r m) (read_two (flash_slice m.flash) (phys_of pc) byte))))

  dram_at :
      (pc : ℕ)
      → pc < 0xA4000000
      → in_dram (phys_of pc) ≡ true
      → m.dram.at (phys_of pc - dram_base) < 2 ^ 8
      → read_at bus m pc 2 ≡ from_read (two_bytes m.dram (phys_of pc - dram_base)) m
  unfolding read_at
  dram_at pc low inside byte =
      let below : leb 0xE0000000 pc ≡ false = ground arith in
      rw (below, inside, read_two m.dram (phys_of pc - dram_base) byte) refl

plain_load :
    {D : Type 0} (bus : Mmio D) (c : Cpu) (m : Memory D) (va : ℕ)
    → m.mmu.translating ≡ false
    → load bus c m va 2 ≡ read_at bus m va 2
unfolding load
plain_load bus c m va h = rw (untranslated bus m va h) refl

-- The fast path, against a slow one that is the plain read where nothing is translated.
fast_lem :
    {D : Type 0} (bus : Mmio D) (m : Memory D) (pc : ℕ) (slow : Access (Memory D))
    → m.flash.array (phys_of pc) < 2 ^ 8
    → m.dram.at (phys_of pc - dram_base) < 2 ^ 8
    → (ltb 0 m.flash.erase_busy && (sector_of (phys_of pc) == m.flash.erase_sect)) ≡ false
    → (m.mmu.translating ≡ false → slow ≡ read_at bus m pc 2)
    → fetch_fast bus m pc slow ≡ slow
unfolding fetch_fast
fast_lem bus m pc slow byte byte' quiet plain =
    elim (Bool-cases (not m.mmu.translating && ltb pc 0xA4000000)) [
      | inl fast ↦
          let parts = fast_parts m.mmu.translating (ltb pc 0xA4000000) fast in
          let same = plain (parts.0) in
          let low = ltb→lt pc 0xA4000000 (parts.1) in
          rw fast (elim (Bool-cases (ltb (phys_of pc) flash_mut_top)) [
            | inl in_flash ↦
                let at = flash_at bus m pc low (ltb→lt _ _ in_flash) byte quiet in
                first_branch (ltb (phys_of pc) flash_mut_top) _ _ _ in_flash (sym (same ∙ at))
            | inr no_flash ↦
                let small = phys-lt pc in
                rw no_flash (elim (Bool-cases (ltb (sub32 (phys_of pc) dram_base) dram_size)) [
                  | inl inside ↦
                      let dram : in_dram (phys_of pc) ≡ true = ground arith in
                      let off : sub32 (phys_of pc) dram_base ≡ phys_of pc - dram_base =
                        ground arith in
                      rw (inside, off) (sym (same ∙ dram_at bus m pc low dram byte'))
                  | inr outside ↦ rw outside refl
                ])
          ])
      | inr slow_path ↦ rw slow_path refl
    ]

-- A fetch answers what a read of two bytes at the program counter answers, translated or not, as
-- long as no erase is going on in the sector of the program counter, where the flash and the DRAM
-- hold bytes.
pub fetch16-load :
    {D : Type 0} (bus : Mmio D) (c : Cpu) (m : Memory D) (pc : ℕ)
    → m.flash.array (phys_of pc) < 2 ^ 8
    → m.dram.at (phys_of pc - dram_base) < 2 ^ 8
    → (ltb 0 m.flash.erase_busy && (sector_of (phys_of pc) == m.flash.erase_sect)) ≡ false
    → fetch16 bus c m pc ≡ load bus c m pc 2
unfolding fetch16
fetch16-load bus c m pc byte byte' quiet =
    fast_lem bus m pc (load bus c m pc 2) byte byte' quiet (λ h. plain_load bus c m pc h)
