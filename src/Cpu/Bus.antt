-- ===== src/Cpu/Bus.antt =====
-- What the core asks of the memory (emu_go/memory.go, mmu.go) and how an instruction ends. The
-- memory is an interface: a type of states and its operations.
use casio_cg.Base.{
  ℕ, ◌+◌, bit_or, Bool, false, Option, List, [], ◌∷◌, ◌==◌, if◌then◌else◌, u32, u64, sub32, ◌<<<◌,
}
use casio_cg.Intc.{Intc}
use casio_cg.Cpu.State.{sr_bl, sr_rb, sr_md, reg_of, has, set_sr, Cpu}

-- `mmuFault`
pub record MmuFault : Type 0 where
  pub va : ℕ
  pub expevt : ℕ
  pub vector : ℕ

-- What an access answers: a value and the memory after it, the MMU's panic, or another panic. A
-- write answers a value that nobody reads.
pub data Access (M : Type 0) : Type 0 where
  ok : ℕ → M → Access M
  miss : MmuFault → M → Access M
  stop : Access M

-- The memory behind `CPU.mem`. It sees the CPU's mode and clock, and changes neither.
pub record Bus (M : Type 0) : Type 0 where
  pub load : Cpu → M → ℕ → ℕ → Access M
  pub store : Cpu → M → ℕ → ℕ → ℕ → Access M
  pub fetch16 : Cpu → M → ℕ → Access M
  pub ldtlb : M → M
  pub note_fault : M → MmuFault → M
  pub mmu_at : M → Bool
  pub intc : M → Intc
  pub int_mu : M → Bool
  pub hle : Cpu → M → Option (Cpu × M)
  pub ubc_on : M → Bool

-- How an instruction ends: `fault` is a panic with an mmuFault, `crash` any other panic.
pub data Run (M : Type 0) : Type 0 where
  done : Cpu → M → Run M
  fault : MmuFault → Cpu → M → Run M
  crash : Run M

-- A Go switch on a number.
abbrev pub switch : {A : Type 0} → ℕ → List (ℕ × A) → A → A
switch x [] default = default
switch x ((k, a) ∷ rest) default = let other = switch x rest default in if x == k then a else other

-- What follows a read.
abbrev pub got : {M : Type 0} → Access M → Cpu → (ℕ → M → Run M) → Run M
got (ok v mem) c k = k v mem
got (miss f mem) c k = fault f c mem
got stop c k = crash

module _ {M : Type 0} (bus : Bus M) where
  -- `mem.R8`, `mem.R16`, `mem.R32` by the size in bytes, and `mem.W8`, `mem.W16`, `mem.W32`.
  abbrev pub rd : Cpu → M → ℕ → ℕ → (ℕ → M → Run M) → Run M
  rd c mem size va k = got (bus.load c mem va size) c k

  abbrev pub wr : Cpu → M → ℕ → ℕ → ℕ → (M → Run M) → Run M
  wr c mem size va v k = got (bus.store c mem va size v) c (λ _ mem'. k mem')

  -- The registers after exception entry at VBR + 0x100.
  unfoldable pub enter_exception : Cpu → ℕ → ℕ → Cpu
  unfolding set_sr
  enter_exception c expevt spc =
      let saved = record c { ssr = c.sr; spc = spc; sgr = reg_of c 15; ldst = false } in
      let high = set_sr saved (bit_or c.sr (sr_md + sr_rb + sr_bl)) in
      record high {
        pc = u32 (c.vbr + 0x100);
        exc_taken = c.in_slot;
        exc_cnt = u64 (c.exc_cnt + 1);
        last_exc = expevt;
      }

  -- `CPU.generalException`
  unfoldable pub general_exception : Cpu → M → ℕ → ℕ → Run M
  unfolding enter_exception
  general_exception c mem expevt spc =
      if has c sr_bl
      then crash
      else wr c mem 4 0xFF000024 expevt (λ mem'. done (enter_exception c expevt spc) mem')

  -- `CPU.illegal`
  unfoldable pub illegal : Cpu → M → ℕ → Run M
  unfolding general_exception
  illegal c mem op =
      let at = sub32 c.pc 2 in
      let c' = record c { illegal_ops = u64 (c.illegal_ops + 1); last_illegal = (op, at) } in
      if c.in_slot
      then general_exception c' mem 0x1A0 c.slot_pc
      else general_exception c' mem 0x180 at

  -- `CPU.trapa`
  unfoldable pub trapa : Cpu → M → ℕ → Run M
  unfolding general_exception
  trapa c mem imm =
      wr c mem 4 0xFF000020 (u32 (imm <<< 2)) (λ mem'. general_exception c mem' 0x160 c.pc)
