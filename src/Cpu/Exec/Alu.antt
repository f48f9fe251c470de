-- ===== src/Cpu/Exec/Alu.antt =====
-- `execute` for the opcodes 0x2nnn, 0x3nnn, 0x6nnn and 0x7nnn.
use casio_cg.Base.{
  ℕ, ◌+◌, ◌*◌, ◌%◌, ◌^◌, bit_and, bit_or, bit_xor, not, [], ◌∷◌, ltb, leb, ◌==◌, u32, sub32, ◌>>>◌,
  ◌<<<◌,
}
use casio_cg.Cpu.State.{reg_of, set_reg, set_t, Cpu}
use casio_cg.Cpu.Signed.{sext8, sext16, slt, neg32, not32}
use casio_cg.Cpu.Arith.{addc, subc, negc, addv, subv, div0s, div1, dmulu, dmuls, cmp_str}
use casio_cg.Cpu.Bus.{switch, rd, wr, illegal, Bus, Run, done}

module _ {M : Type 0} (bus : Bus M) where
  -- mov.b, mov.w, mov.l Rm,@-Rn: Rn moves first, so Rn itself is stored moved.
  unfoldable pub push : Cpu → M → ℕ → ℕ → ℕ → Run M
  push c mem size n m =
      let c' = set_reg c n (sub32 (reg_of c n) size) in
      wr bus c' mem size (reg_of c' n) (reg_of c' m % 2 ^ (8 * size)) (done c')

  unfoldable pub exec2 : Cpu → M → ℕ → Run M
  unfolding set_t div0s cmp_str push sext16 illegal
  exec2 c mem op =
      let n = bit_and (op >>> 8) 0xF in
      let m = bit_and (op >>> 4) 0xF in
      let rn = reg_of c n in
      let rm = reg_of c m in
      switch (bit_and op 0xF)
        ((0x0, wr bus c mem 1 rn (bit_and rm 0xFF) (done c))
          ∷ (0x1, wr bus c mem 2 rn (bit_and rm 0xFFFF) (done c))
          ∷ (0x2, wr bus c mem 4 rn rm (done c))
          ∷ (0x4, push c mem 1 n m)
          ∷ (0x5, push c mem 2 n m)
          ∷ (0x6, push c mem 4 n m)
          ∷ (0x7, done (div0s c n m) mem)
          ∷ (0x8, done (set_t c (bit_and rn rm == 0)) mem)
          ∷ (0x9, done (set_reg c n (bit_and rn rm)) mem)
          ∷ (0xA, done (set_reg c n (bit_xor rn rm)) mem)
          ∷ (0xB, done (set_reg c n (bit_or rn rm)) mem)
          ∷ (0xC, done (set_t c (cmp_str rn rm)) mem)
          ∷ (0xD, done (set_reg c n (bit_or (bit_and rm 0xFFFF <<< 16) (rn >>> 16))) mem)
          ∷ (0xE, done (record c { macl = u32 (bit_and rn 0xFFFF * bit_and rm 0xFFFF) }) mem)
          ∷ (0xF, done (record c { macl = u32 (sext16 rn * sext16 rm) }) mem)
          ∷ [])
        (illegal bus c mem op)

  unfoldable pub exec3 : Cpu → M → ℕ → Run M
  unfolding set_t slt addc subc addv subv div1 dmulu dmuls illegal
  exec3 c mem op =
      let n = bit_and (op >>> 8) 0xF in
      let m = bit_and (op >>> 4) 0xF in
      let rn = reg_of c n in
      let rm = reg_of c m in
      switch (bit_and op 0xF)
        ((0x0, done (set_t c (rn == rm)) mem)
          ∷ (0x2, done (set_t c (leb rm rn)) mem)
          ∷ (0x3, done (set_t c (not (slt rn rm))) mem)
          ∷ (0x6, done (set_t c (ltb rm rn)) mem)
          ∷ (0x7, done (set_t c (slt rm rn)) mem)
          ∷ (0x8, done (set_reg c n (sub32 rn rm)) mem)
          ∷ (0xC, done (set_reg c n (u32 (rn + rm))) mem)
          ∷ (0xA, done (subc c n m) mem)
          ∷ (0xE, done (addc c n m) mem)
          ∷ (0xB, done (subv c n m) mem)
          ∷ (0xF, done (addv c n m) mem)
          ∷ (0x4, done (div1 c n m) mem)
          ∷ (0x5, done (dmulu c n m) mem)
          ∷ (0xD, done (dmuls c n m) mem)
          ∷ [])
        (illegal bus c mem op)

  -- mov.b, mov.w, mov.l @Rm+,Rn: Rm moves after Rn is written, also when they are one register.
  unfoldable pub load_inc : Cpu → M → ℕ → ℕ → ℕ → (ℕ → ℕ) → Run M
  load_inc c mem size n m extend = rd bus c mem size (reg_of c m) (λ v mem'.
      let c' = set_reg c n (extend v) in done (set_reg c' m (u32 (reg_of c' m + size))) mem')

  unfoldable pub exec6 : Cpu → M → ℕ → Run M
  unfolding load_inc sext8 sext16 not32 neg32 negc
  exec6 c mem op =
      let n = bit_and (op >>> 8) 0xF in
      let m = bit_and (op >>> 4) 0xF in
      let rm = reg_of c m in
      switch (bit_and op 0xF)
        ((0x0, rd bus c mem 1 rm (λ v. done (set_reg c n (sext8 v))))
          ∷ (0x1, rd bus c mem 2 rm (λ v. done (set_reg c n (sext16 v))))
          ∷ (0x2, rd bus c mem 4 rm (λ v. done (set_reg c n v)))
          ∷ (0x3, done (set_reg c n rm) mem)
          ∷ (0x4, load_inc c mem 1 n m sext8)
          ∷ (0x5, load_inc c mem 2 n m sext16)
          ∷ (0x6, load_inc c mem 4 n m (λ v. v))
          ∷ (0x7, done (set_reg c n (not32 rm)) mem)
          ∷ (
            0x8,
            done
                (set_reg c n (
                  bit_or (bit_or (bit_and rm 0xFF <<< 8) (bit_and (rm >>> 8) 0xFF))
                    (bit_and rm 0xFFFF0000)))
                mem,
          )
          ∷ (
            0x9,
            done (set_reg c n (bit_or (bit_and rm 0xFFFF <<< 16) (bit_and (rm >>> 16) 0xFFFF))) mem,
          )
          ∷ (0xA, done (negc c n m) mem)
          ∷ (0xB, done (set_reg c n (neg32 rm)) mem)
          ∷ (0xC, done (set_reg c n (bit_and rm 0xFF)) mem)
          ∷ (0xD, done (set_reg c n (bit_and rm 0xFFFF)) mem)
          ∷ (0xE, done (set_reg c n (sext8 rm)) mem)
          ∷ (0xF, done (set_reg c n (sext16 rm)) mem)
          ∷ [])
        (done c mem)
