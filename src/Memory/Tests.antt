-- ===== src/Memory/Tests.antt =====
-- A small machine for the properties of the memory map of emu_go/memory.go: no device answers.
use casio_cg.Base.{
  ℕ, ◌+◌, ◌%◌, bit_or, ◌≡◌, refl, true, false, none, [], ◌∷◌, arith, replicate, no_regs,
}
use casio_cg.Bytes.{Buffer}
use casio_cg.Cpu.State.{sr_t, sr_md, Cpu}
use casio_cg.Cpu.Bus.{ok, miss}
use casio_cg.Intc.{new_intc}
use casio_cg.Mmu.{
  pr, page_mask, no_entry, ccn_write, urc, new_entry, single_mode, matches, find_from, find, access,
  miss_of, note_fault, Ccn, physical,
}
use casio_cg.Mmu.Paging.{refill, refilled}
use casio_cg.Flash.{Flash, idle}
use casio_cg.Memory.{
  dram_size, ilram_size, ocram_size, xyram_size, translated, priv, cut, read_at, load, store,
  fetch16, Memory, Mmio,
}
use casio_cg.Memory.Dram.{load-store_dram}
use casio_cg.Memory.Fetch.{fetch16-load}
use casio_cg.Memory.Paging.{load-refill}

abbrev boot : Cpu
boot = record {
  r =
      0x1000 ∷ 1 ∷ 0x80000001 ∷ 3 ∷ 0xFFFFFFFF ∷ 5 ∷ 6 ∷ 7 ∷ 8 ∷ 9 ∷ 10 ∷ 11 ∷ 12 ∷ 13 ∷ 14
      ∷ 0x8C000000 ∷ [];
  rbank1 = 100 ∷ 101 ∷ 102 ∷ 103 ∷ 104 ∷ 105 ∷ 106 ∷ 107 ∷ [];
  pc = 0x200;
  pr = 0;
  gbr = 0;
  vbr = 0x80000000;
  ssr = 0;
  spc = 0;
  sgr = 0;
  dbr = 0;
  mach = 0;
  macl = 0;
  fpul = 0;
  fpscr = 0;
  sr = sr_md + sr_t;
  cycles = 0;
  pending = [];
  sleeping = false;
  idle = 0;
  irq_cnt = 0;
  fpu_ops = 0;
  in_slot = false;
  slot_pc = 0;
  exc_taken = false;
  ldst = false;
  illegal_ops = 0;
  last_illegal = (0, 0);
  faulted = false;
  last_irq = 0;
  exc_cnt = 0;
  last_exc = 0;
}

abbrev silent : Mmio Unit
silent = record {
  read = λ m va size. (0, m);
  write = λ m va size val. ok 0 m;
  intc_of = λ d. new_intc;
  cpuopm = λ d. false;
  hle_of = λ c m. none;
  ubc_watches = λ d. false;
}

abbrev blank : Flash
blank = record {
  array = λ (j : ℕ). j % 251;
  fcmd = idle;
  buf_rem = none;
  buf_w = [];
  erase_busy = 0;
  erase_sect = 0;
  erase_tog = 0;
}

abbrev zeros : ℕ → Buffer
zeros n = record { size = n; at = λ (j : ℕ). 0 }

abbrev mmu_on : Ccn
mmu_on = record { regs = no_regs; utlb = replicate 64 no_entry; translating = true; last = 0 }

abbrev machine : Memory Unit
machine = record {
  flash = blank;
  dram = zeros dram_size;
  xyram = zeros xyram_size;
  ilram = zeros ilram_size;
  ocram = zeros ocram_size;
  mmu = mmu_on;
  devices = tt;
}

p1_plain : translated machine 0x8C000010 ≡ false
unfolding translated
p1_plain = refl

p2_plain : translated machine 0xAC000010 ≡ false
unfolding translated
p2_plain = refl

p0_mapped : translated machine 0x00300124 ≡ true
unfolding translated
p0_mapped = refl

code_missing : find machine.mmu 0x00300124 (priv boot) ≡ none
unfolding find find_from matches single_mode page_mask
code_missing = refl

code_granted :
    access (refilled machine.mmu (miss_of 0x00300124 false) 0x0C161172) 0x00300124 false (priv boot)
    ≡ physical 0x0C161124
unfolding access refilled new_entry ccn_write note_fault pr page_mask
code_granted = refl

load-store_dram_example :
    (b : Buffer) × (store silent boot machine 0x8C000010 4 0x12345678
      ≡ ok 0 (record machine { dram = b }))
    × (load silent boot (record machine { dram = b }) 0xAC000010 4
        ≡ ok (cut 4 0x12345678) (record machine { dram = b }))
load-store_dram_example =
    load-store_dram silent boot boot machine 0x8C000010 0xAC000010 4 0x12345678 p1_plain p2_plain
      (omega arith) (omega arith) refl refl (omega arith) (omega arith)

fetch16-load_example :
    fetch16 silent boot machine 0x80000100 ≡ load silent boot machine 0x80000100 2
fetch16-load_example = fetch16-load silent boot machine 0x80000100 (omega arith) (omega arith) refl

load-refill_example :
    (load silent boot machine 0x00300124 4 ≡ miss (miss_of 0x00300124 false) machine)
    × (load silent boot
          (record machine { mmu = refill machine.mmu (miss_of 0x00300124 false) 0x0C161172 })
          0x00300124
          4
        ≡ read_at silent
            (record machine {
              mmu = record (refill machine.mmu (miss_of 0x00300124 false) 0x0C161172) {
                last = urc machine.mmu;
              };
            })
            (bit_or 0xA0000000 0x0C161124)
            4)
load-refill_example =
    load-refill silent boot machine 0x00300124 4 0x0C161172 0x0C161124 (omega arith) p0_mapped
      code_missing refl refl (omega arith) code_granted
