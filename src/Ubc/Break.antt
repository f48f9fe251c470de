-- ===== src/Ubc/Break.antt =====
-- emu_go/ubc.go, the core under the user break controller: `userBreak`, `stepUBC`, and the operand
-- accesses that `opRead` and `opWrite` of emu_go/memory.go show to it. What `peekOp` changes in the
-- memory (the MMU's last hit, or a status that is read) is left out: it answers the instruction.
use casio_cg.Base.{
  ℕ, ◌+◌, bit_and, bit_or, Bool, true, false, not, ◌&&◌, ◌||◌, ◌==◌, ◌!=◌, if◌then◌else◌, u32, u64,
  reg,
}
use casio_cg.Cpu.State.{sr_bl, sr_rb, sr_md, reg_of, has, set_sr, Cpu}
use casio_cg.Cpu.Bus.{wr, Access, Bus, Run, ok, miss, stop, done}
use casio_cg.Cpu.Exec.Branch.{is_delayed_branch}
use casio_cg.Cpu.Step.{then_run, step_plain, step_mmu}
use casio_cg.Ubc.{powered, fetch_match, operand, Ubc}

abbrev pub expevt_ubc : ℕ
expevt_ubc = 0x1E0

abbrev pub ubc_cbcr : ℕ
ubc_cbcr = 0x620

-- Where the unit and what it asks for stand in the memory.
pub record UbcPort (M : Type 0) : Type 0 where
  pub unit : M → Ubc
  pub put_unit : M → Ubc → M
  pub pteh : M → ℕ
  pub mstpcr0 : M → ℕ

module _ {M : Type 0} (bus : Bus M) (port : UbcPort M) where
  -- `CPU.userBreak`
  unfoldable pub enter_break : Cpu → M → ℕ → Cpu
  unfolding set_sr
  enter_break c mem spc =
      let saved = record c { ssr = c.sr; spc = spc; sgr = reg_of c 15 } in
      let c' = set_sr saved (bit_or c.sr (sr_md + sr_rb + sr_bl)) in
      let own = bit_and (reg (port.unit mem).regs ubc_cbcr) 1 != 0 in
      record c' {
        exc_cnt = u64 (c.exc_cnt + 1);
        last_exc = expevt_ubc;
        pc = if own then c.dbr else u32 (c.vbr + 0x100);
      }

  unfoldable pub user_break : Cpu → M → ℕ → Run M
  unfolding enter_break
  user_break c mem spc =
      wr bus c mem 4 0xFF000024 expevt_ubc (λ mem'. done (enter_break c mem' spc) mem')

  -- `peekOp` and `delayedAt`
  abbrev pub op_of : Access M → ℕ
  op_of (ok op mem) = op
  op_of (miss f mem) = 0
  op_of stop = 0

  unfoldable pub delayed_at : Cpu → M → ℕ → Bool
  unfolding is_delayed_branch
  delayed_at c mem pc = is_delayed_branch (op_of (bus.fetch16 c mem pc))

  -- `opRead` and `opWrite`: a read is shown after it, a write before it.
  abbrev pub show : M → ℕ → ℕ → ℕ → Bool → M
  show mem va size val is_write =
      port.put_unit mem (operand (port.pteh mem) (port.unit mem) va size val is_write)

  abbrev pub shown : Access M → ℕ → ℕ → Access M
  shown (ok v mem) va size = ok v (show mem va size v false)
  shown (miss f mem) va size = miss f mem
  shown stop va size = stop

  abbrev pub watched : Bus M
  watched = record bus {
    load = λ c mem va size. shown (bus.load c mem va size) va size;
    store = λ c mem va size val. bus.store c (show mem va size val true) va size val;
  }

  -- The end of `stepUBC`: a branch that was not taken runs its slot too, and then the break.
  abbrev pub finish : Bool → Bool → Cpu → M → Run M
  finish live after c mem =
      if not live || (c.faulted || c.sleeping)
      then done c mem
      else (if after || (port.unit mem).op_hit then user_break c mem c.pc else done c mem)

  unfoldable pub one : Bool → Cpu → M → Run M
  unfolding step_plain step_mmu
  one armed c mem =
      let b = if armed then watched else bus in
      if bus.mmu_at mem then step_mmu b c mem else step_plain b c mem

  unfoldable pub after_one : Bool → Bool → Bool → ℕ → Cpu → M → Run M
  unfolding one user_break
  after_one live armed after pc0 c mem =
      let op = op_of (bus.fetch16 c mem pc0) in
      let slot = (bit_and op 0xFD00 == 0x8D00) && (c.pc == u32 (pc0 + 2)) in
      if c.faulted
      then done c mem
      else (if slot
          then then_run (one armed c mem) (λ c' mem'. finish live after c' mem')
          else finish live after c mem)

  -- `CPU.stepUBC`
  unfoldable pub step_ubc : Cpu → M → Run M
  unfolding fetch_match delayed_at user_break one after_one
  step_ubc c mem =
      let live = not (has c sr_bl) && powered (port.mstpcr0 mem) in
      let before = λ (m : M). fetch_match (port.pteh m) (port.unit m) (delayed_at c m) c.pc false in
      let behind = λ (m : M). fetch_match (port.pteh m) (port.unit m) (delayed_at c m) c.pc true in
      let m1 = if live then port.put_unit mem (before mem).0 else mem in
      let hits = live && (before mem).1 in
      let m2 = if live then port.put_unit m1 (behind m1).0 else m1 in
      let after = live && (behind m1).1 in
      let u2 = port.unit m2 in
      let m3 = port.put_unit m2 (record u2 { op_hit = false }) in
      let c' = record c { faulted = false } in
      let armed = live && u2.op_armed in
      if hits
      then user_break c m1 c.pc
      else then_run (one armed c' m3) (λ d m. after_one live armed after c.pc d m)
