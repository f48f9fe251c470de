-- ===== src/Cpu/Tests.antt =====
-- Runs of the core on a small machine: a memory of one word that faults at one address.
use casio_cg.Base.{
  ℕ, zero, suc, ◌+◌, ◌^◌, ◌<◌, ◌≡◌, refl, true, false, none, List, [], ◌∷◌, arith, ◌==◌,
  if◌then◌else◌, get_or,
}
use casio_cg.Intc.{new_intc, Pend}
use casio_cg.Cpu.State.{sr_t, sr_bl, sr_md, has, t_bit, Cpu}
use casio_cg.Cpu.State.Banks.{IsBanked}
use casio_cg.Cpu.Bus.{MmuFault, Bus, ok, miss, fault, crash}
use casio_cg.Cpu.Exec.Low.{movco}
use casio_cg.Cpu.Exec.Branch.{exec_plain}
use casio_cg.Cpu.Step.Loop.{run, steps, run-steps}
use casio_cg.Cpu.Step.{then_run, step_plain, step_mmu}
use casio_cg.Cpu.State.Handler.{InHandler}
use casio_cg.Cpu.Step.Precise.{ReturnsTo, Stepped, step_mmu-precise}
use casio_cg.Cpu.Step.Lock.{movco-after-fault}

abbrev page_fault : MmuFault
page_fault = record { va = 0x1000; expevt = 0x40; vector = 0x400 }

-- Every instruction is `mov.l @R0,R2`.
abbrev machine : Bus ℕ
machine = record {
  load = λ c mem va size. if va == 0x1000 then miss page_fault mem else ok mem mem;
  store = λ c mem va size v. ok 0 v;
  fetch16 = λ c mem pc. ok 0x6202 mem;
  ldtlb = λ mem. mem;
  note_fault = λ mem f. mem + 1;
  mmu_at = λ mem. true;
  intc = λ mem. new_intc;
  int_mu = λ mem. true;
  hle = λ c mem. none;
  ubc_on = λ mem. false;
}

abbrev request : Pend
request = record { level = 9; intevt = 0x123 }

abbrev boot : Cpu
boot = record {
  r =
      0x1000 ∷ 1 ∷ 0x80000001 ∷ 3 ∷ 0xFFFFFFFF ∷ 5 ∷ 6 ∷ 7 ∷ 8 ∷ 9 ∷ 10 ∷ 11 ∷ 12 ∷ 13 ∷ 14
      ∷ 0x8C000000 ∷ [];
  rbank1 = 100 ∷ 101 ∷ 102 ∷ 103 ∷ 104 ∷ 105 ∷ 106 ∷ 107 ∷ [];
  pc = 0x200;
  pr = 0;
  gbr = 0;
  vbr = 0x80000000;
  ssr = 0;
  spc = 0;
  sgr = 0;
  dbr = 0;
  mach = 0;
  macl = 0;
  fpul = 0;
  fpscr = 0;
  sr = sr_md + sr_t;
  cycles = 0;
  pending = request ∷ [];
  sleeping = false;
  idle = 0;
  irq_cnt = 0;
  fpu_ops = 0;
  in_slot = false;
  slot_pc = 0;
  exc_taken = false;
  ldst = false;
  illegal_ops = 0;
  last_illegal = (0, 0);
  faulted = false;
  last_irq = 0;
  exc_cnt = 0;
  last_exc = 0;
}

boot-IsBanked : IsBanked boot
boot-IsBanked = (refl, refl)

Below : (xs : List ℕ) → Type 0
Below [] = Unit
Below (x ∷ xs) = (x < 2 ^ 32) × Below xs

Below-get_or : (xs : List ℕ) (i : ℕ) → Below xs → get_or xs i 0 < 2 ^ 32
unfolding Below
Below-get_or [] i h = omega arith
Below-get_or (x ∷ xs) zero h = h.0
Below-get_or (x ∷ xs) (suc i) h = Below-get_or xs i h.1

boot_faults : step_plain machine boot 7 ≡ fault page_fault (record boot { pc = 0x202 }) 7
unfolding step_plain exec_plain
boot_faults = refl

boot_unblocked : has boot sr_bl ≡ false
boot_unblocked = refl

step_mmu-precise_example : Stepped (step_mmu machine boot 7) (λ d e.
    InHandler d 0x80000400
    × ReturnsTo d 0x200 boot
    × (e ≡ 8)
    × (d.in_slot ≡ false)
    × (d.exc_taken ≡ false)
    × (d.ldst ≡ false)
    × (d.last_exc ≡ 0x40))
step_mmu-precise_example =
    step_mmu-precise machine boot 7 page_fault (record boot { pc = 0x202 }) 7 boot-IsBanked
      boot_unblocked boot_faults

abbrev blocked : Cpu
blocked = record boot { sr = sr_md + sr_bl }

movco-after-fault_example :
    Stepped
      (then_run (step_mmu machine boot 7) (λ d e. movco machine d e 3))
      (λ d e. (t_bit d ≡ 0) × (e ≡ 8))
movco-after-fault_example =
    movco-after-fault machine boot 7 page_fault (record boot { pc = 0x202 }) 7 3 boot-IsBanked
      boot_unblocked boot_faults

run-steps_example :
    run machine (λ mem. false) (λ c mem. crash) 3 5 boot 7
    ≡ steps machine (λ mem. false) (λ c mem. crash) 3 5 boot 7
run-steps_example = run-steps machine (λ mem. false) (λ c mem. crash) 3 5 boot 7
