-- ===== src/Cpu/Exec/System.antt =====
-- `exec4`, the opcodes 0x4nnn: shifts, control and system registers, tas.b, movua.l, the banks.
use casio_cg.Base.{
  ℕ, ◌+◌, ◌^◌, bit_and, bit_or, Bool, true, false, ◌&&◌, [], ◌∷◌, ltb, ◌==◌, ◌!=◌, if◌then◌else◌,
  get_or, set, u32, sub32, ◌>>>◌, ◌<<<◌,
}
use casio_cg.Cpu.State.{reg_of, set_reg, set_sr, set_t, Cpu}
use casio_cg.Cpu.Arith.{shll, shlr, shar, rotl, rotr, rotcl, rotcr, shad, shld}
use casio_cg.Cpu.Bus.{switch, rd, wr, illegal, Bus, Run, done}
use casio_cg.Cpu.Exec.Low.{mac_w_op}

-- `c.rbank1[k] = v`
unfoldable pub put_bank : Cpu → ℕ → ℕ → Cpu
put_bank c k v = record c { rbank1 = set c.rbank1 k v }

module _ {M : Type 0} (bus : Bus M) where
  -- `X = mem.R32(r[n]); r[n] += 4`, where writing X may swap the banks.
  unfoldable pub pop_into : Cpu → M → ℕ → (ℕ → Cpu) → Run M
  pop_into c mem n write =
      rd bus c mem 4 (reg_of c n)
        (λ v mem'. let c' = write v in done (set_reg c' n (u32 (reg_of c' n + 4))) mem')

  -- `r[n] -= 4; mem.W32(r[n], x)`
  unfoldable pub push_from : Cpu → M → ℕ → ℕ → Run M
  push_from c mem n x =
      let c' = set_reg c n (sub32 (reg_of c n) 4) in wr bus c' mem 4 (reg_of c' n) x (done c')

  -- tas.b @Rn
  unfoldable pub tas : Cpu → M → ℕ → Run M
  unfolding set_t
  tas c mem n = rd bus c mem 1 (reg_of c n) (λ v mem'.
      let c' = set_t c (v == 0) in wr bus c' mem' 1 (reg_of c' n) (bit_or v 0x80) (done c'))

  -- movua.l @Rm,R0 and @Rm+,R0: four byte reads.
  unfoldable pub movua : Cpu → M → ℕ → Bool → Run M
  movua c mem n inc =
      let a = reg_of c n in
      rd bus c mem 1 a (λ b0 mem1. rd bus c mem1 1 (u32 (a + 1)) (λ b1 mem2.
        rd bus c mem2 1 (u32 (a + 2)) (λ b2 mem3. rd bus c mem3 1 (u32 (a + 3)) (λ b3 mem4.
          let v =
            bit_or (bit_or (bit_or (u32 (b0 <<< 24)) (u32 (b1 <<< 16))) (u32 (b2 <<< 8))) b3 in
          let c' = if inc && (n != 0) then set_reg c n (u32 (a + 4)) else c in
          done (set_reg c' 0 v) mem4))))

  -- The moves to and from the control and system registers.
  unfoldable pub exec4_transfer : Cpu → M → ℕ → Run M → Run M
  unfolding set_sr pop_into push_from
  exec4_transfer c mem op rest =
      let n = bit_and (op >>> 8) 0xF in
      let rn = reg_of c n in
      switch (bit_and op 0xFF)
        ((0x0E, done (set_sr c rn) mem)
          ∷ (0x1E, done (record c { gbr = rn }) mem)
          ∷ (0x2E, done (record c { vbr = rn }) mem)
          ∷ (0x3E, done (record c { ssr = rn }) mem)
          ∷ (0x4E, done (record c { spc = rn }) mem)
          ∷ (0x3A, done (record c { sgr = rn }) mem)
          ∷ (0xFA, done (record c { dbr = rn }) mem)
          ∷ (0x0A, done (record c { mach = rn }) mem)
          ∷ (0x1A, done (record c { macl = rn }) mem)
          ∷ (0x2A, done (record c { pr = rn }) mem)
          ∷ (0x5A, done (record c { fpul = rn }) mem)
          ∷ (0x6A, done (record c { fpscr = rn }) mem)
          ∷ (0x07, pop_into c mem n (set_sr c))
          ∷ (0x17, pop_into c mem n (λ v. record c { gbr = v }))
          ∷ (0x27, pop_into c mem n (λ v. record c { vbr = v }))
          ∷ (0x37, pop_into c mem n (λ v. record c { ssr = v }))
          ∷ (0x47, pop_into c mem n (λ v. record c { spc = v }))
          ∷ (0x36, pop_into c mem n (λ v. record c { sgr = v }))
          ∷ (0xF6, pop_into c mem n (λ v. record c { dbr = v }))
          ∷ (0x06, pop_into c mem n (λ v. record c { mach = v }))
          ∷ (0x16, pop_into c mem n (λ v. record c { macl = v }))
          ∷ (0x26, pop_into c mem n (λ v. record c { pr = v }))
          ∷ (0x56, pop_into c mem n (λ v. record c { fpul = v }))
          ∷ (0x66, pop_into c mem n (λ v. record c { fpscr = v }))
          ∷ (0x03, push_from c mem n c.sr)
          ∷ (0x13, push_from c mem n c.gbr)
          ∷ (0x23, push_from c mem n c.vbr)
          ∷ (0x33, push_from c mem n c.ssr)
          ∷ (0x43, push_from c mem n c.spc)
          ∷ (0x32, push_from c mem n c.sgr)
          ∷ (0xF2, push_from c mem n c.dbr)
          ∷ (0x02, push_from c mem n c.mach)
          ∷ (0x12, push_from c mem n c.macl)
          ∷ (0x22, push_from c mem n c.pr)
          ∷ (0x52, push_from c mem n c.fpul)
          ∷ (0x62, push_from c mem n c.fpscr)
          ∷ (0x1B, tas c mem n)
          ∷ (0xA9, movua c mem n false)
          ∷ (0xE9, movua c mem n true)
          ∷ [])
        rest

  -- The register banks, then the opcodes told by their last digit.
  unfoldable pub exec4_rest : Cpu → M → ℕ → Run M
  unfolding put_bank pop_into push_from mac_w_op shad shld illegal
  exec4_rest c mem op =
      let n = bit_and (op >>> 8) 0xF in
      let m = bit_and (op >>> 4) 0xF in
      let k = bit_and (op >>> 4) 7 in
      let kind = bit_and op 0x8F in
      let other =
        switch (bit_and op 0xF)
          ((0xF, mac_w_op bus c mem n m)
            ∷ (0xC, done (shad c n m) mem)
            ∷ (0xD, done (shld c n m) mem)
            ∷ [])
          (illegal bus c mem op) in
      switch kind
        ((0x8E, done (put_bank c k (reg_of c n)) mem)
          ∷ (0x87, pop_into c mem n (put_bank c k))
          ∷ (0x83, push_from c mem n (get_or c.rbank1 k 0))
          ∷ [])
        other

  -- `exec4`: the shifts and comparisons of one register first.
  unfoldable pub exec4 : Cpu → M → ℕ → Run M
  unfolding shll shlr shar rotl rotr rotcl rotcr set_t exec4_transfer exec4_rest
  exec4 c mem op =
      let n = bit_and (op >>> 8) 0xF in
      let rn = reg_of c n in
      let less = sub32 rn 1 in
      switch (bit_and op 0xFF)
        ((0x00, done (shll c n) mem)
          ∷ (0x01, done (shlr c n) mem)
          ∷ (0x04, done (rotl c n) mem)
          ∷ (0x05, done (rotr c n) mem)
          ∷ (0x08, done (set_reg c n (u32 (rn <<< 2))) mem)
          ∷ (0x09, done (set_reg c n (rn >>> 2)) mem)
          ∷ (0x18, done (set_reg c n (u32 (rn <<< 8))) mem)
          ∷ (0x19, done (set_reg c n (rn >>> 8)) mem)
          ∷ (0x28, done (set_reg c n (u32 (rn <<< 16))) mem)
          ∷ (0x29, done (set_reg c n (rn >>> 16)) mem)
          ∷ (0x20, done (shll c n) mem)
          ∷ (0x21, done (shar c n) mem)
          ∷ (0x24, done (rotcl c n) mem)
          ∷ (0x25, done (rotcr c n) mem)
          ∷ (0x10, done (set_t (set_reg c n less) (less == 0)) mem)
          ∷ (0x11, done (set_t c (ltb rn (2 ^ 31))) mem)
          ∷ (0x15, done (set_t c (ltb 0 rn && ltb rn (2 ^ 31))) mem)
          ∷ [])
        (exec4_transfer c mem op (exec4_rest c mem op))
