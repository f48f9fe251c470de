-- ===== src/Memory.antt =====
-- emu_go/memory.go, the memory map: `Memory.Read`, `Memory.Write` and `fetch16`, with the address
-- translation of Mmu and the flash of Flash. The registers of the MMIO bus are the interface
-- `Mmio`. The hooks of the host's tools, which are nil in a run, and `ops`, through which the user
-- break controller and the host debugger watch accesses, are left out: the path is the plain one.
pub mod Dram
pub mod Fetch
pub mod Paging
mod Tests
use casio_cg.Base.{
  ℕ, zero, suc, ◌+◌, ◌-◌, ◌*◌, ◌/◌, ◌%◌, ◌^◌, ◌≤◌, ◌<◌, min, max, bit_and, bit_or, bit_xor, ◌≡◌,
  refl, sym, ap, ap₂, ◌∙◌, subst, fun_ext, ◌≢◌, ◌↔◌, ◌⊎◌, inl, inr, Bool, true, false, not, ◌&&◌,
  ◌||◌, Option, none, some, List, [], ◌∷◌, ◌++◌, arith, ltb, leb, ◌==◌, ◌!=◌, if◌then◌else◌, ltb→lt,
  lt→ltb, le→ltb, ==_iff, Bool-cases, length, get_or, set, replicate, length-set, get_or-set_self,
  get_or-set_ne, and_not, bit_and_step, bit_or_step, bit_xor_step, test_bit, test_bit-lt,
  test_bit-zero, test_bit-and, test_bit-or, test_bit-xor, test_bit-and_not, test_bit_ext,
  bit_or-zero, bit_and-zero, bit_and_mask, bit_and_three, bit_or-lt, bit_and-le, u8, u16, u32, u64,
  sub32, sub64, ◌>>>◌, ◌<<<◌, b2u, RegMap, no_regs, reg, put, get_elem?, and_not_step, and_not-le,
  bit_or_fields, value, and_not_parts, and_not_mask, page_address, word_page, same_page,
  bit_xor_self, bit_xor-lt, true≢false, and_and, eq_of_bit_xor, test_bit_lem, and_bit, and_not_and,
}
use casio_cg.Bytes.{be_loop, be_read, be_store, be_write, Buffer}
use casio_cg.Cpu.State.{
  sr_t, sr_s, sr_q, sr_m, sr_bl, sr_rb, sr_md, sr_imask, reg_of, set_reg, has, bank1, take, drop,
  set_sr, set_bit, set_t, t_bit, Cpu,
}
use casio_cg.Cpu.Bus.{
  switch, got, rd, wr, enter_exception, general_exception, illegal, trapa, MmuFault, Access, Bus,
  Run, ok, miss, stop, done, fault, crash,
}
use casio_cg.Intc.{
  intc_sources, find_source, intc_base, is_ipr, is_imr, priority, is_masked, enabled, gate,
  seed_os_defaults, new_intc, put_cells, state_map, load_cells, has_cell, restore_state,
  has_request, append, raise_irq, raise, drops, waits, outranks, Best, better, gate_loop,
  gate_pending, Source, Intc, GateState, Pend,
}
use casio_cg.Mmu.{
  ccn_pteh, ccn_ptel, ccn_tea, ccn_mmucr, ccn_expevt, ccn_ptea, ccn_base, is_valid, is_dirty,
  is_shared, pr, page_masks, page_mask, ppn, addr_word, no_entry, entry_at, ccn_read, map_entries,
  invalidate, ccn_write, urc, new_entry, ldtlb, single_mode, matches, find_from, find, access,
  miss_of, translate_found, translate, note_fault, TlbEntry, Ccn, Translation, physical, refused,
}
use casio_cg.Flash.{
  flash_mut_top, flash_sector, erase_status_reads, byte_at, program_bytes, flash_program,
  program_all, sector_of, erase_sector, erase_chip, is_at, erase_cmd, buffer_cmd, step, flash_cmd,
  flash_status, flash_read, Fcmd, Fword, Flash, idle, unlock1, unlock2, program, erase1, erase2,
  erase3, buf_count, buf_data,
}

abbrev pub flash_size : ℕ
flash_size = 0x08000000

abbrev pub dram_base : ℕ
dram_base = 0x0C000000

abbrev pub dram_size : ℕ
dram_size = 0x00800000

abbrev pub ilram_base : ℕ
ilram_base = 0xFD800000

abbrev pub ilram_size : ℕ
ilram_size = 0x00010000

abbrev pub ilram_mask : ℕ
ilram_mask = 0x00003FFF

abbrev pub ocram_base : ℕ
ocram_base = 0xFE200000

abbrev pub ocram_size : ℕ
ocram_size = 0x00200000

abbrev pub xyram_base : ℕ
xyram_base = 0xE5000000

abbrev pub xyram_size : ℕ
xyram_size = 0x00210000

-- `Memory`, with the devices behind the bus.
pub record Memory (D : Type 0) : Type 0 where
  pub flash : Flash
  pub dram : Buffer
  pub xyram : Buffer
  pub ilram : Buffer
  pub ocram : Buffer
  pub mmu : Ccn
  pub devices : D

-- What the memory asks of the MMIO bus, and what the core asks of the devices behind it. An access
-- to a device may change all of the memory: the MMU's registers stand there, and a transfer reads
-- it, and may end in its panic.
pub record Mmio (D : Type 0) : Type 0 where
  pub read : Memory D → ℕ → ℕ → ℕ × Memory D
  pub write : Memory D → ℕ → ℕ → ℕ → Access (Memory D)
  pub intc_of : D → Intc
  pub cpuopm : D → Bool
  pub hle_of : Cpu → Memory D → Option (Cpu × Memory D)
  pub ubc_watches : D → Bool

-- `Memory.translated`, `Memory.priv`, and the mask of a written value.
unfoldable pub translated : {D : Type 0} → Memory D → ℕ → Bool
translated m va = m.mmu.translating && (ltb va 0x80000000 || ltb (sub32 va 0xC0000000) 0x20000000)

abbrev pub priv : Cpu → Bool
priv c = has c sr_md

abbrev pub cut : ℕ → ℕ → ℕ
cut size val = val % 2 ^ (8 * size)

-- The address in the 29-bit space, and the windows.
abbrev pub phys_of : ℕ → ℕ
phys_of va = bit_and va 0x1FFFFFFF

abbrev pub in_dram : ℕ → Bool
in_dram phys = leb dram_base phys && ltb phys (dram_base + dram_size)

abbrev pub in_ilram : ℕ → Bool
in_ilram va = leb ilram_base va && ltb va (ilram_base + ilram_size)

abbrev pub in_xyram : ℕ → Bool
in_xyram va = ltb (sub32 va xyram_base) xyram_size

abbrev pub in_ocram : ℕ → Bool
in_ocram va = leb ocram_base va && ltb va (ocram_base + ocram_size)

abbrev pub in_mmio : ℕ → Bool
in_mmio va = leb 0xA4000000 va && ltb va 0xC0000000

-- An index out of range is a panic.
abbrev pub from_read : {D : Type 0} → Option ℕ → Memory D → Access (Memory D)
from_read none m = stop
from_read (some v) m = ok v m

abbrev pub from_write : {D : Type 0} → Option Buffer → (Buffer → Memory D) → Access (Memory D)
from_write none put_back = stop
from_write (some b) put_back = ok 0 (put_back b)

-- The flash array as a slice.
abbrev pub flash_slice : Flash → Buffer
flash_slice f = record { size = flash_mut_top; at = f.array }

-- Two bytes of a slice, as `fetch16` puts them together.
abbrev pub two_bytes : Buffer → ℕ → Option ℕ
two_bytes b off =
    if ltb off b.size && ltb (off + 1) b.size
    then some (bit_or (u32 (b.at off <<< 8)) (b.at (off + 1)))
    else none

module _ {D : Type 0} (bus : Mmio D) where
  abbrev pub mmio_read : Memory D → ℕ → ℕ → Access (Memory D)
  mmio_read m va size = let r = bus.read m va size in ok (r.0) (r.1)

  -- `Memory.Read` after the translation, in P4 and below it.
  unfoldable pub read_high : Memory D → ℕ → ℕ → Access (Memory D)
  unfolding be_read
  read_high m va size =
      if in_ilram va
      then from_read (be_read m.ilram (bit_and (va - ilram_base) ilram_mask) size) m
      else (if in_xyram va
          then from_read (be_read m.xyram (sub32 va xyram_base) size) m
          else (if in_ocram va
              then from_read (be_read m.ocram (va - ocram_base) size) m
              else mmio_read m va size))

  unfoldable pub read_at : Memory D → ℕ → ℕ → Access (Memory D)
  unfolding read_high be_read flash_read
  read_at m va size =
      let phys = phys_of va in
      let r = flash_read m.flash phys size in
      if leb 0xE0000000 va
      then read_high m va size
      else (if in_dram phys
          then from_read (be_read m.dram (phys - dram_base) size) m
          else (if in_mmio va
              then mmio_read m va size
              else (if ltb phys flash_size
                  then (if ltb phys flash_mut_top
                      then from_read (r.0) (record m { flash = r.1 })
                      else ok (sub32 (u32 (1 <<< (size * 8))) 1) m)
                  else stop)))

  -- `Memory.Write` after the translation.
  unfoldable pub write_high : Memory D → ℕ → ℕ → ℕ → Access (Memory D)
  unfolding be_write
  write_high m va size val =
      if in_ilram va
      then from_write (be_write m.ilram (bit_and (va - ilram_base) ilram_mask) size val)
          (λ b. record m { ilram = b })
      else (if in_xyram va
          then from_write (be_write m.xyram (sub32 va xyram_base) size val)
              (λ b. record m { xyram = b })
          else (if in_ocram va
              then from_write (be_write m.ocram (va - ocram_base) size val)
                  (λ b. record m { ocram = b })
              else bus.write m va size val))

  unfoldable pub write_at : Memory D → ℕ → ℕ → ℕ → Access (Memory D)
  unfolding write_high be_write flash_cmd
  write_at m va size val =
      let phys = phys_of va in
      if leb 0xE0000000 va
      then write_high m va size val
      else (if in_dram phys
          then from_write (be_write m.dram (phys - dram_base) size val) (λ b. record m { dram = b })
          else (if in_mmio va
              then bus.write m va size val
              else (if ltb phys flash_size
                  then ok 0 (record m { flash = flash_cmd m.flash phys size val })
                  else stop)))

  -- The access at the address that the MMU gave, in the uncached alias P2.
  abbrev pub through :
      Translation × Ccn → Memory D → (Memory D → ℕ → Access (Memory D)) → Access (Memory D)
  through (physical pa, mmu) m k = k (record m { mmu = mmu }) (bit_or 0xA0000000 pa)
  through (refused f, mmu) m k = miss f (record m { mmu = mmu })

  -- `Memory.Read` and `Memory.Write`
  unfoldable pub load : Cpu → Memory D → ℕ → ℕ → Access (Memory D)
  unfolding translated translate read_at
  load c m va size =
      if translated m va
      then through (translate m.mmu va false (priv c)) m (λ m' pa. read_at m' pa size)
      else read_at m va size

  unfoldable pub store : Cpu → Memory D → ℕ → ℕ → ℕ → Access (Memory D)
  unfolding translated translate write_at
  store c m va size val =
      if translated m va
      then through (translate m.mmu va true (priv c)) m
          (λ m' pa. write_at m' pa size (cut size val))
      else write_at m va size (cut size val)

  -- `fetch16`, by what the general path answers.
  unfoldable pub fetch_fast : Memory D → ℕ → Access (Memory D) → Access (Memory D)
  fetch_fast m pc slow =
      let p = phys_of pc in
      if not m.mmu.translating && ltb pc 0xA4000000
      then (if ltb p flash_mut_top
          then from_read (two_bytes (flash_slice m.flash) p) m
          else (if ltb (sub32 p dram_base) dram_size
              then from_read (two_bytes m.dram (sub32 p dram_base)) m
              else slow))
      else slow

  unfoldable pub fetch16 : Cpu → Memory D → ℕ → Access (Memory D)
  unfolding fetch_fast load
  fetch16 c m pc = fetch_fast m pc (load c m pc 2)

  -- The memory as the core sees it.
  unfoldable pub memory_bus : Bus (Memory D)
  unfolding load store fetch16 ldtlb note_fault
  memory_bus = record {
    load = load;
    store = store;
    fetch16 = fetch16;
    ldtlb = λ m. record m { mmu = ldtlb m.mmu };
    note_fault = λ m f. record m { mmu = note_fault m.mmu f };
    mmu_at = λ m. m.mmu.translating;
    intc = λ m. bus.intc_of m.devices;
    int_mu = λ m. bus.cpuopm m.devices;
    hle = bus.hle_of;
    ubc_on = λ m. bus.ubc_watches m.devices;
  }
