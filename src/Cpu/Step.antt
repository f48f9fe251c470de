-- ===== src/Cpu/Step.antt =====
-- One step of the core: `acceptInterrupt`, `stepMMU` with the MMU's `raise`, and `step`. The
-- natively run routines (hle.go) and the user-break step (ubc.go) are the memory's and a parameter.
pub mod Interrupt
pub mod Precise
pub mod Lock
pub mod Loop
use casio_cg.Base.{
  ℕ, zero, suc, ◌+◌, ◌-◌, ◌*◌, ◌/◌, ◌%◌, ◌^◌, ◌≤◌, ◌<◌, min, max, bit_and, bit_or, bit_xor, ◌≡◌,
  refl, sym, ap, ap₂, ◌∙◌, subst, fun_ext, ◌≢◌, ◌↔◌, ◌⊎◌, inl, inr, Bool, true, false, not, ◌&&◌,
  ◌||◌, Option, none, some, List, [], ◌∷◌, ◌++◌, arith, ltb, leb, ◌==◌, ◌!=◌, if◌then◌else◌, ltb→lt,
  lt→ltb, le→ltb, ==_iff, Bool-cases, length, get_or, set, replicate, length-set, get_or-set_self,
  get_or-set_ne, and_not, bit_and_step, bit_or_step, bit_xor_step, test_bit, test_bit-lt,
  test_bit-zero, test_bit-and, test_bit-or, test_bit-xor, test_bit-and_not, test_bit_ext,
  bit_or-zero, bit_and-zero, bit_and_mask, bit_and_three, bit_or-lt, bit_and-le, u8, u16, u32, u64,
  sub32, sub64, ◌>>>◌, ◌<<<◌, b2u, RegMap, no_regs, reg, put, get_elem?, and_not_step, and_not-le,
  bit_or_fields, value,
}
use casio_cg.Intc.{
  intc_sources, find_source, intc_base, is_ipr, is_imr, read, write, priority, is_masked, enabled,
  gate, seed_os_defaults, new_intc, put_cells, state_map, load_cells, has_cell, restore_state,
  has_request, append, raise_irq, raise, drops, waits, outranks, Best, better, gate_loop,
  gate_pending, Source, Intc, GateState, Pend,
}
use casio_cg.Cpu.State.{
  sr_t, sr_s, sr_q, sr_m, sr_bl, sr_rb, sr_md, sr_imask, reg_of, set_reg, has, bank1, take, drop,
  set_sr, set_bit, set_t, t_bit, Cpu,
}
use casio_cg.Cpu.Bus.{
  switch, got, rd, wr, enter_exception, general_exception, illegal, trapa, MmuFault, Access, Bus,
  Run, ok, miss, stop, done, fault, crash,
}
use casio_cg.Cpu.Exec.Branch.{
  is_delayed_branch, slot_illegal, far, branch_of, exec_plain, after_slot, branch_delayed,
  run_branch, execute,
}

-- `append(pending[:i], pending[i+1:]...)`
abbrev pub remove : List Pend → ℕ → List Pend
remove [] i = []
remove (p ∷ rest) zero = rest
remove (p ∷ rest) (suc i) = p ∷ remove rest i

-- The registers after an interrupt is accepted; `mu` is CPUOPM.INTMU.
unfoldable pub enter_interrupt : Cpu → Pend → Bool → Cpu
unfolding set_sr
enter_interrupt c top mu =
    let high = bit_or c.sr (sr_md + sr_rb + sr_bl) in
    let sr = if mu then bit_or (and_not high sr_imask) (u32 (top.level <<< 4)) else high in
    let saved = record c { ldst = false; ssr = c.sr; spc = c.pc; sgr = reg_of c 15 } in
    let c' = set_sr saved sr in
    record c' { pc = u32 (c.vbr + 0x600); irq_cnt = u64 (c.irq_cnt + 1); last_irq = top.intevt }

-- What `recover` puts back when an instruction faults.
unfoldable pub rollback : Cpu → Cpu → Cpu
rollback before c = record c {
  r = before.r;
  rbank1 = before.rbank1;
  pr = before.pr;
  sr = before.sr;
  gbr = before.gbr;
  mach = before.mach;
  macl = before.macl;
  fpul = before.fpul;
  fpscr = before.fpscr;
  in_slot = false;
  exc_taken = false;
  ldst = false;
}

-- The registers after `ccn.raise`, with the note for `stepUBC` that `stepMMU` makes after it.
unfoldable pub enter_fault : Cpu → MmuFault → ℕ → Cpu
unfolding set_sr
enter_fault c f spc =
    let saved = record c { ssr = c.sr; spc = spc; sgr = reg_of c 15 } in
    let c' = set_sr saved (bit_or c.sr (sr_md + sr_rb + sr_bl)) in
    record c' {
      pc = u32 (c.vbr + f.vector);
      exc_cnt = u64 (c.exc_cnt + 1);
      last_exc = f.expevt;
      faulted = true;
    }

-- What follows an instruction or an exception entry that was not stopped.
abbrev pub then_run : {M : Type 0} → Run M → (Cpu → M → Run M) → Run M
then_run (done c mem) k = k c mem
then_run (fault f c mem) k = fault f c mem
then_run crash k = crash

abbrev pub tick : Cpu → Cpu
tick c = record c { cycles = u64 (c.cycles + 1) }

module _ {M : Type 0} (bus : Bus M) where
  -- The end of `acceptInterrupt`, on what `gatePending` finds.
  abbrev pub accept_best : Cpu → M → Best → Run M
  accept_best c mem none = done c mem
  accept_best c mem (some (i, top)) =
      if leb top.level (bit_and c.sr sr_imask >>> 4)
      then done c mem
      else (let c' = record c { pending = remove c.pending i } in
          wr bus c' mem 4 0xFF000028 top.intevt
            (λ mem'. done (enter_interrupt c' top (bus.int_mu mem')) mem'))

  -- `CPU.acceptInterrupt`; `step` does not use its result.
  unfoldable pub accept_interrupt : Cpu → M → Run M
  unfolding gate_pending enter_interrupt
  accept_interrupt c mem =
      let (kept, best) = gate_pending (bus.intc mem) c.pending in
      if (length c.pending == 0) || has c sr_bl
      then done c mem
      else accept_best (record c { pending = kept }) mem best

  -- Fetch, advance and execute.
  unfoldable pub step_plain : Cpu → M → Run M
  unfolding execute
  step_plain c mem =
      got (bus.fetch16 c mem c.pc) c
        (λ op mem'. execute bus (record c { pc = u32 (c.pc + 2) }) mem' op)

  -- `ccn.raise`
  unfoldable pub mmu_raise : Cpu → M → MmuFault → ℕ → Run M
  unfolding enter_fault
  mmu_raise c mem f spc =
      if has c sr_bl then crash else done (enter_fault c f spc) (bus.note_fault mem f)

  -- The `recover` of `stepMMU`, for an instruction that began with the registers `before`.
  abbrev pub recover : Cpu → Run M → Run M
  recover before (done c mem) = done c mem
  recover before (fault f c mem) = mmu_raise (rollback before c) mem f before.pc
  recover before crash = crash

  -- `CPU.stepMMU`
  unfoldable pub step_mmu : Cpu → M → Run M
  unfolding step_plain mmu_raise rollback
  step_mmu c mem = recover c (step_plain c mem)

  -- `CPU.step` asleep, and awake once the interrupt is taken or not; `step_ubc` is the user-break
  -- step.
  unfoldable pub step_asleep : Cpu → M → Run M
  unfolding gate_pending
  step_asleep c mem =
      let c' = record c { cycles = u64 (c.cycles + 1); idle = u64 (c.idle + 1) } in
      let (kept, best) = gate_pending (bus.intc mem) c.pending in
      if length c.pending == 0 then done c' mem else elim best [
        | none ↦ done (record c' { pending = kept }) mem
        | some b ↦ done (record c' { pending = kept; sleeping = false }) mem
      ]

  unfoldable pub step_awake : (Cpu → M → Run M) → Cpu → M → Run M
  unfolding step_mmu step_plain
  step_awake step_ubc c mem = elim (bus.hle c mem) [
    | some (c', mem') ↦ done c' mem'
    | none ↦
        let run =
          if bus.ubc_on mem
          then step_ubc c mem
          else (if bus.mmu_at mem then step_mmu c mem else step_plain c mem) in
        then_run run (λ c' mem'. done (tick c') mem')
  ]

  -- `CPU.step`
  unfoldable pub step : (Cpu → M → Run M) → Cpu → M → Run M
  unfolding step_asleep accept_interrupt step_awake
  step step_ubc c mem =
      if c.sleeping
      then step_asleep c mem
      else then_run (accept_interrupt c mem) (step_awake step_ubc)
