-- ===== src/Cpu/Exec/Load.antt =====
-- `execute` for the opcodes 0x1nnn, 0x5nnn, and 0x8nnn to 0xEnnn but the delayed branches.
use casio_cg.Base.{
  ℕ, ◌+◌, ◌*◌, bit_and, bit_or, bit_xor, [], ◌∷◌, ◌==◌, if◌then◌else◌, and_not, u32, ◌>>>◌,
}
use casio_cg.Cpu.State.{sr_t, reg_of, set_reg, has, set_t, Cpu}
use casio_cg.Cpu.Signed.{sext8, sext16}
use casio_cg.Cpu.Bus.{switch, rd, wr, illegal, trapa, Bus, Run, done}

-- `c.pc + 2 + uint32(s8(d8))*2`
unfoldable pub near : Cpu → ℕ → ℕ
unfolding sext8
near c d8 = u32 (c.pc + 2 + sext8 d8 * 2)

-- `((c.pc + 2) &^ 3) + d8*4`
unfoldable pub literal : Cpu → ℕ → ℕ
literal c d8 = u32 (and_not (u32 (c.pc + 2)) 3 + d8 * 4)

module _ {M : Type 0} (bus : Bus M) where
  unfoldable pub exec8 : Cpu → M → ℕ → Run M
  unfolding sext8 sext16 set_t near illegal
  exec8 c mem op =
      let m = bit_and (op >>> 4) 0xF in
      let d4 = bit_and op 0xF in
      let d8 = bit_and op 0xFF in
      let byte = u32 (reg_of c m + d4) in
      let half = u32 (reg_of c m + d4 * 2) in
      switch (bit_and (op >>> 8) 0xF)
        ((0x0, wr bus c mem 1 byte (bit_and (reg_of c 0) 0xFF) (done c))
          ∷ (0x1, wr bus c mem 2 half (bit_and (reg_of c 0) 0xFFFF) (done c))
          ∷ (0x4, rd bus c mem 1 byte (λ v. done (set_reg c 0 (sext8 v))))
          ∷ (0x5, rd bus c mem 2 half (λ v. done (set_reg c 0 (sext16 v))))
          ∷ (0x8, done (set_t c (reg_of c 0 == sext8 d8)) mem)
          ∷ (0x9, done (if has c sr_t then record c { pc = near c d8 } else c) mem)
          ∷ (0xB, done (if has c sr_t then c else record c { pc = near c d8 }) mem)
          ∷ (0xD, done c mem)
          ∷ (0xF, done c mem)
          ∷ [])
        (illegal bus c mem op)

  -- and.b, xor.b and or.b #imm,@(R0,GBR): the read and the write of one byte.
  abbrev pub rmw : Cpu → M → (ℕ → ℕ) → Run M
  rmw c mem change =
      let va = u32 (c.gbr + reg_of c 0) in
      rd bus c mem 1 va (λ v mem'. wr bus c mem' 1 va (change v) (done c))

  unfoldable pub exec_c : Cpu → M → ℕ → Run M
  unfolding sext8 sext16 set_t literal trapa
  exec_c c mem op =
      let d8 = bit_and op 0xFF in
      let byte = u32 (c.gbr + d8) in
      let half = u32 (c.gbr + d8 * 2) in
      let long = u32 (c.gbr + d8 * 4) in
      let r0 = reg_of c 0 in
      switch (bit_and (op >>> 8) 0xF)
        ((0x0, wr bus c mem 1 byte (bit_and r0 0xFF) (done c))
          ∷ (0x1, wr bus c mem 2 half (bit_and r0 0xFFFF) (done c))
          ∷ (0x2, wr bus c mem 4 long r0 (done c))
          ∷ (0x3, trapa bus c mem d8)
          ∷ (0x4, rd bus c mem 1 byte (λ v. done (set_reg c 0 (sext8 v))))
          ∷ (0x5, rd bus c mem 2 half (λ v. done (set_reg c 0 (sext16 v))))
          ∷ (0x6, rd bus c mem 4 long (λ v. done (set_reg c 0 v)))
          ∷ (0x7, done (set_reg c 0 (literal c d8)) mem)
          ∷ (0x8, done (set_t c (bit_and r0 d8 == 0)) mem)
          ∷ (0x9, done (set_reg c 0 (bit_and r0 d8)) mem)
          ∷ (0xA, done (set_reg c 0 (bit_xor r0 d8)) mem)
          ∷ (0xB, done (set_reg c 0 (bit_or r0 d8)) mem)
          ∷ (0xC, rd bus c mem 1 (u32 (c.gbr + r0)) (λ v. done (set_t c (bit_and v d8 == 0))))
          ∷ (0xD, rmw c mem (λ v. bit_and v d8))
          ∷ (0xE, rmw c mem (λ v. bit_xor v d8))
          ∷ (0xF, rmw c mem (λ v. bit_or v d8))
          ∷ [])
        (done c mem)
