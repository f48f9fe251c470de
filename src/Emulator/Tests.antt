-- ===== src/Emulator/Tests.antt =====
-- A machine asleep with the converter waiting, and the host's taps of EXE.
use casio_cg.Base.{
  ℕ, ◌+◌, ◌-◌, ◌*◌, ◌≤◌, ◌≡◌, refl, inl, true, false, none, some, [], ◌∷◌, ◌++◌, arith, replicate,
  no_regs,
}
use casio_cg.Intc.{new_intc}
use casio_cg.Keysc.{new_keysc, press}
use casio_cg.GTimer.Etmu.{next_of}
use casio_cg.Cpu.State.{sr_md, Cpu}
use casio_cg.Cpu.Bus.{Bus, Run, stop, crash}
use casio_cg.Board.{adc_due, timers_due, next_due, flush_releases, Board, Keys}
use casio_cg.Emulator.{jump, due_of, polls, key_down, key_up, Devices, Emulator}
use casio_cg.Emulator.Asleep.{polls-jump}
use casio_cg.Emulator.Hold.{hold_lem, UpsBy, DownsBy, key_down-waits}

abbrev board : Board
board = record {
  keysc = record new_keysc { scan_next = 90000 };
  rtc = record { regs = no_regs; rcr1 = 0; rcr2 = 0x60; epoch_sec = 0; next_periodic = 70000 };
  etmu = record { regs = no_regs; count_div = 10; ch = [] };
  tmu = record { regs = no_regs; instr_per_sec = 73728000; ch = [] };
  adc = record {
    regs = no_regs;
    adc_mode = true;
    armed = true;
    done_at = 1400;
    sw_armed = false;
    sw_done_at = 0;
  };
  intc = new_intc;
  instr_per_sec = 10000000;
  timer_period = 30000;
  timer_next = 0;
  timer_ticks = 0;
}

abbrev devices : Devices Board
devices = record { board = λ m. m; set_board = λ m b. b; is_dirty = λ m. false; clean = λ m. m }

abbrev no_memory : Bus Board
no_memory = record {
  load = λ c m va size. stop;
  store = λ c m va size v. stop;
  fetch16 = λ c m pc. stop;
  ldtlb = λ m. m;
  note_fault = λ m f. m;
  mmu_at = λ m. false;
  intc = λ m. m.intc;
  int_mu = λ m. false;
  hle = λ c m. none;
  ubc_on = λ m. false;
}

abbrev no_keys : Keys
no_keys = record {
  tap = record { queue = []; active = false; key = (0, 0); release_at = 0; next_at = 0 };
  ups = [];
  downs = [];
  down_at = λ x. none;
}

abbrev sleeper : Emulator Board
sleeper = record {
  cpu = record {
    r = replicate 16 0;
    rbank1 = replicate 8 0;
    pc = 0x200;
    pr = 0;
    gbr = 0;
    vbr = 0x80000000;
    ssr = 0;
    spc = 0;
    sgr = 0;
    dbr = 0;
    mach = 0;
    macl = 0;
    fpul = 0;
    fpscr = 0;
    sr = sr_md;
    cycles = 50000;
    pending = [];
    sleeping = true;
    idle = 1000;
    irq_cnt = 0;
    fpu_ops = 0;
    in_slot = false;
    slot_pc = 0;
    exc_taken = false;
    ldst = false;
    illegal_ops = 0;
    last_illegal = (0, 0);
    faulted = false;
    last_irq = 0;
    exc_cnt = 0;
    last_exc = 0;
  };
  mem = board;
  keys = no_keys;
}

-- The conversion of the idle routine comes first.
sleeper_due : due_of devices sleeper ≡ 50400
unfolding next_due timers_due adc_due next_of
sleeper_due = refl

abbrev no_break : Cpu → Board → Run Board
no_break c m = crash

polls-jump_example : polls no_memory devices no_break 400 sleeper ≡ some (jump sleeper 50400)
polls-jump_example =
    polls-jump no_memory devices no_break sleeper 50400 refl refl
      (record { put_back = refl; clean_same = refl }) (omega arith)
      (omega (arith, sleeper_due), inl (refl, refl)) (omega arith) (omega arith)

-- EXE at row 0 and column 3.
hold_lem_example :
    let d = key_down no_keys new_keysc 5000 (0, 3) in
    let u = key_up d.0 d.1 5200 (0, 3) in
    let k' = press new_keysc 0 3 in (d.1 ≡ k') × (u.1 ≡ k') × ((flush_releases u.0 u.1 9000).1 ≡ k')
hold_lem_example =
    hold_lem no_keys new_keysc (0, 3) 5000 5200 9000 refl refl (omega arith) (omega arith)
      (omega arith)

abbrev one_waits : Keys
one_waits = record no_keys {
  ups = record { key = (0, 3); at = 2255000 } ∷ [];
  downs = record { key = (1, 4); at = 4505000; up = true } ∷ [];
}

key_down-waits_example :
    (at : ℕ) × (key_down one_waits new_keysc 5300 (2, 5) ≡ (
      record one_waits {
        downs = one_waits.downs ++ (record { key = (2, 5); at = at; up = false } ∷ []);
      },
      new_keysc,
    ))
    × (5300 + 3 * new_keysc.scan_period ≤ at)
    × UpsBy (at - 3 * new_keysc.scan_period) one_waits.ups
    × DownsBy (at - 6 * new_keysc.scan_period) one_waits.downs
key_down-waits_example =
    key_down-waits one_waits new_keysc 5300 5000000 (2, 5) refl (omega arith) (omega arith, tt)
      (omega arith, tt) (omega arith)
