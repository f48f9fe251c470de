-- ===== src/Cpu/Exec/Branch.antt =====
-- The delayed branches (`branchDelayed`, `slotIllegal`, ubc.go's `isDelayedBranch`) and `execute`
-- whole. A branch of `execute` ends in `branchDelayed`, so what branches is found first.
use casio_cg.Base.{
  ℕ, ◌+◌, ◌*◌, bit_and, Bool, true, false, ◌||◌, Option, none, some, [], ◌∷◌, ◌==◌, ◌!=◌,
  if◌then◌else◌, u32, u64, sub32, ◌>>>◌,
}
use casio_cg.Cpu.State.{sr_t, reg_of, set_reg, has, set_sr, Cpu}
use casio_cg.Cpu.Signed.{sext8, sext16}
use casio_cg.Cpu.Bus.{switch, got, rd, wr, general_exception, illegal, Bus, Run, done, fault, crash}
use casio_cg.Cpu.Exec.Low.{exec0, exec_whole}
use casio_cg.Cpu.Exec.Alu.{exec2, exec3, exec6}
use casio_cg.Cpu.Exec.Load.{near, literal, exec8, exec_c}
use casio_cg.Cpu.Exec.System.{exec4}

-- `isDelayedBranch`
unfoldable pub is_delayed_branch : ℕ → Bool
is_delayed_branch op =
    let kind = bit_and op 0xF0FF in
    (op == 0x000B)
    || (op == 0x002B)
    || (kind == 0x0003)
    || (kind == 0x0023)
    || (kind == 0x400B)
    || (kind == 0x402B)
    || (bit_and op 0xE000 == 0xA000)
    || (bit_and op 0xFD00 == 0x8D00)

-- `slotIllegal`
unfoldable pub slot_illegal : ℕ → Bool
unfolding is_delayed_branch
slot_illegal op =
    is_delayed_branch op
    || (bit_and op 0xFD00 == 0x8900)
    || (bit_and op 0xFF00 == 0xC300)
    || (bit_and op 0xF0FF == 0x400E)
    || (bit_and op 0xF0FF == 0x4007)

-- `c.pc + 2 + disp*2` with the 12-bit displacement, which is signed.
unfoldable pub far : Cpu → ℕ → ℕ
far c d12 =
    let disp = if bit_and d12 0x800 != 0 then sub32 d12 0x1000 else d12 in
    u32 (c.pc + 2 + u32 (disp * 2))

-- The CPU and the target with which an opcode calls `branchDelayed`: rts and rte; braf and bsrf;
-- jmp and jsr; bt/s and bf/s, when they are taken; bra and bsr.
unfoldable pub branch_of : Cpu → ℕ → Option (Cpu × ℕ)
unfolding set_sr near far
branch_of c op =
    let n = bit_and (op >>> 8) 0xF in
    let call = record c { pr = u32 (c.pc + 2) } in
    let by_reg = u32 (c.pc + 2 + reg_of c n) in
    let cond = some (c, near c (bit_and op 0xFF)) in
    let by_digit =
      switch (op >>> 12)
        ((0xA, some (c, far c (bit_and op 0xFFF)))
          ∷ (0xB, some (call, far c (bit_and op 0xFFF)))
          ∷ [])
        none in
    let by_two =
      switch (op >>> 8)
        ((0x8D, if has c sr_t then cond else none) ∷ (0x8F, if has c sr_t then none else cond) ∷ [])
        by_digit in
    let by_field =
      switch (bit_and op 0xF0FF)
        ((0x0003, some (call, by_reg))
          ∷ (0x0023, some (c, by_reg))
          ∷ (0x400B, some (call, reg_of c n))
          ∷ (0x402B, some (c, reg_of c n))
          ∷ [])
        by_two in
    switch op ((0x000B, some (c, c.pr)) ∷ (0x002B, some (set_sr c c.ssr, c.spc)) ∷ []) by_field

module _ {M : Type 0} (bus : Bus M) where
  -- `execute` of an instruction that is no delayed branch.
  unfoldable pub exec_plain : Cpu → M → ℕ → Run M
  unfolding exec_whole exec0 exec2 exec3 exec4 exec6 exec8 exec_c sext8 sext16 literal illegal
  exec_plain c mem op =
      let n = bit_and (op >>> 8) 0xF in
      let m = bit_and (op >>> 4) 0xF in
      let d4 = bit_and op 0xF in
      let d8 = bit_and op 0xFF in
      exec_whole bus c mem op (
        switch (op >>> 12)
          ((0x0, exec0 bus c mem op)
            ∷ (0x1, wr bus c mem 4 (u32 (reg_of c n + d4 * 4)) (reg_of c m) (done c))
            ∷ (0x2, exec2 bus c mem op)
            ∷ (0x3, exec3 bus c mem op)
            ∷ (0x4, exec4 bus c mem op)
            ∷ (0x5, rd bus c mem 4 (u32 (reg_of c m + d4 * 4)) (λ v. done (set_reg c n v)))
            ∷ (0x6, exec6 bus c mem op)
            ∷ (0x7, done (set_reg c n (u32 (reg_of c n + sext8 d8))) mem)
            ∷ (0x8, exec8 bus c mem op)
            ∷ (0x9, rd bus c mem 2 (u32 (c.pc + 2 + d8 * 2)) (λ v. done (set_reg c n (sext16 v))))
            ∷ (0xC, exec_c bus c mem op)
            ∷ (0xD, rd bus c mem 4 (literal c d8) (λ v. done (set_reg c n v)))
            ∷ (0xE, done (set_reg c n (sext8 d8)) mem)
            ∷ (0xF, done (record c { fpu_ops = u64 (c.fpu_ops + 1) }) mem)
            ∷ [])
          (illegal bus c mem op))

  -- What follows the delay slot: the branch, unless the slot took an exception.
  abbrev pub after_slot : ℕ → Run M → Run M
  after_slot target (done c mem) =
      if c.exc_taken
      then done (record c { in_slot = false; exc_taken = false }) mem
      else done (record c { in_slot = false; pc = target }) mem
  after_slot target (fault f c mem) = fault f c mem
  after_slot target crash = crash

  -- `CPU.branchDelayed`. A slot that is let through is no branch (Slot).
  unfoldable pub branch_delayed : Cpu → M → ℕ → Run M
  unfolding slot_illegal general_exception exec_plain
  branch_delayed c mem target = got (bus.fetch16 c mem c.pc) c (λ slot mem'.
      let bad = record c { illegal_ops = u64 (c.illegal_ops + 1); last_illegal = (slot, c.pc) } in
      let owner = sub32 c.pc 2 in
      let inside = record c { pc = u32 (c.pc + 2); in_slot = true; slot_pc = owner } in
      if slot_illegal slot
      then general_exception bus bad mem' 0x1A0 owner
      else after_slot target (exec_plain inside mem' slot))

  -- `CPU.execute`
  abbrev pub run_branch : Cpu → M → ℕ → Option (Cpu × ℕ) → Run M
  run_branch c mem op none = exec_plain c mem op
  run_branch c mem op (some (c', target)) = branch_delayed c' mem target

  unfoldable pub execute : Cpu → M → ℕ → Run M
  unfolding branch_of
  execute c mem op = run_branch c mem op (branch_of c op)
