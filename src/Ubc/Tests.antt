-- ===== src/Ubc/Tests.antt =====
-- Units with channels set up as a debugger does, emu_go/ubc.go.
use casio_cg.Base.{
  ℕ, ◌+◌, bit_and, ◌≡◌, refl, Bool, true, false, none, some, [], ◌∷◌, ◌!=◌, if◌then◌else◌, u32,
  no_regs, reg, put,
}
use casio_cg.Cpu.State.{sr_t, sr_md, Cpu}
use casio_cg.Cpu.Bus.{Bus, ok}
use casio_cg.Cpu.Step.Precise.{ReturnsTo, Stepped}
use casio_cg.Intc.{new_intc}
use casio_cg.Ubc.{
  ubc_cetr1, addr, update, no_chan, new_ubc, write, restore, cond, hit0, hit1, watches_fetch,
  fetch_match, operand, Ubc,
}
use casio_cg.Ubc.Decoded.{ubc-IsDecoded, IsDecoded}
use casio_cg.Ubc.Break.{expevt_ubc, ubc_cbcr, delayed_at, step_ubc, UbcPort}
use casio_cg.Ubc.Precise.{checked, step_ubc-before}
use casio_cg.Ubc.Count.{first_break, first_break_lem}

abbrev boot : Cpu
boot = record {
  r =
      0x1000 ∷ 1 ∷ 0x80000001 ∷ 3 ∷ 0xFFFFFFFF ∷ 5 ∷ 6 ∷ 7 ∷ 8 ∷ 9 ∷ 10 ∷ 11 ∷ 12 ∷ 13 ∷ 14
      ∷ 0x8C000000 ∷ [];
  rbank1 = 100 ∷ 101 ∷ 102 ∷ 103 ∷ 104 ∷ 105 ∷ 106 ∷ 107 ∷ [];
  pc = 0x00300010;
  pr = 0;
  gbr = 0;
  vbr = 0x80000000;
  ssr = 0;
  spc = 0;
  sgr = 0;
  dbr = 0;
  mach = 0;
  macl = 0;
  fpul = 0;
  fpscr = 0;
  sr = sr_md + sr_t;
  cycles = 0;
  pending = [];
  sleeping = false;
  idle = 0;
  irq_cnt = 0;
  fpu_ops = 0;
  in_slot = false;
  slot_pc = 0;
  exc_taken = false;
  ldst = false;
  illegal_ops = 0;
  last_illegal = (0, 0);
  faulted = false;
  last_irq = 0;
  exc_cnt = 0;
  last_exc = 0;
}

-- A memory that is the unit: it keeps nothing else.
abbrev bare : Bus Ubc
bare = record {
  load = λ c m va size. ok 0 m;
  store = λ c m va size val. ok 0 m;
  fetch16 = λ c m pc. ok 0x0009 m;
  ldtlb = λ m. m;
  note_fault = λ m f. m;
  mmu_at = λ m. false;
  intc = λ m. new_intc;
  int_mu = λ m. false;
  hle = λ c m. none;
  ubc_on = λ m. m.ubc_on;
}

abbrev own : UbcPort Ubc
own = record { unit = λ m. m; put_unit = λ m u. u; pteh = λ m. 0; mstpcr0 = λ m. 0 }

-- Channel 0 on the fetch of 0x00300010, before it.
abbrev breaking : Ubc
breaking = record {
  regs = no_regs;
  ch0 = record { cbr = 0x13; crr = 1; car = 0x00300010; camr = 0 };
  ch1 = no_chan;
  op_armed = false;
  op_hit = false;
  ubc_on = true;
}

-- Channel 1 on the fetch of 0x00300010, at the third match.
abbrev counting : Ubc
counting = record new_ubc {
  regs = put no_regs ubc_cetr1 3;
  ch1 = record { cbr = 0x813; crr = 1; car = 0x00300010; camr = 0 };
  ubc_on = true;
}

abbrev plain : ℕ → Bool
plain pc = false

idle-IsDecoded : IsDecoded new_ubc
unfolding new_ubc update
idle-IsDecoded = record { first = refl; second = refl; armed = refl; told = refl }

runs_match : (fetch_match 0 counting plain 0x00300010 false).1 ≡ false
unfolding fetch_match new_ubc update watches_fetch addr cond hit0 hit1
runs_match = refl

ubc-IsDecoded_example :
    IsDecoded (write new_ubc 0xFF200020 0x11)
    × IsDecoded (restore new_ubc (put no_regs 0x20 0x11))
    × IsDecoded ((fetch_match 0 new_ubc plain 0x00300010 true).0)
    × IsDecoded (operand 0 new_ubc 0xFF200020 4 0x11 true)
ubc-IsDecoded_example =
    ubc-IsDecoded new_ubc 0xFF200020 0x11 0 0x00300010 4 (put no_regs 0x20 0x11) plain true true
      idle-IsDecoded

first_break_lem_example : first_break 3 counting ≡ some 2
first_break_lem_example = first_break_lem 2 counting refl refl refl

boot_matches : (fetch_match 0 breaking (delayed_at bare own boot breaking) boot.pc false).1 ≡ true
unfolding fetch_match watches_fetch addr cond hit0 hit1 delayed_at
boot_matches = refl

step_ubc-before_example : Stepped (step_ubc bare own boot breaking) (λ d e.
    ReturnsTo d 0x00300010 boot
    × (e ≡ checked bare own boot breaking)
    × (d.last_exc ≡ expevt_ubc)
    × (d.pc ≡ (
        if bit_and (reg (checked bare own boot breaking).regs ubc_cbcr) 1 != 0
        then boot.dbr
        else u32 (boot.vbr + 0x100))))
step_ubc-before_example =
    step_ubc-before bare own boot breaking (checked bare own boot breaking) 0 (refl, refl) refl refl
      boot_matches refl
