-- ===== src/Cpu/Exec/Low.antt =====
-- `execute` for the opcodes 0x0nnn: register reads, indexed moves, the reservation, MAC.L.
use casio_cg.Base.{
  ℕ, ◌+◌, ◌*◌, bit_and, true, false, [], ◌∷◌, ◌==◌, if◌then◌else◌, get_or, and_not, u32, ◌>>>◌,
}
use casio_cg.Cpu.State.{sr_t, sr_s, sr_q, sr_m, reg_of, set_reg, set_bit, set_t, t_bit, Cpu}
use casio_cg.Cpu.Signed.{sext8, sext16}
use casio_cg.Cpu.Arith.{mac_l, mac_w}
use casio_cg.Cpu.Bus.{switch, rd, wr, illegal, Bus, Run, done}

-- `r[0] + r[n]`
abbrev pub indexed : Cpu → ℕ → ℕ
indexed c n = u32 (reg_of c 0 + reg_of c n)

module _ {M : Type 0} (bus : Bus M) where
  -- movli.l @Rn,R0 reserves; movco.l R0,@Rn stores while the reservation holds, T telling so.
  unfoldable pub movli : Cpu → M → ℕ → Run M
  movli c mem n =
      rd bus c mem 4 (reg_of c n) (λ v mem'. done (record (set_reg c 0 v) { ldst = true }) mem')

  unfoldable pub movco : Cpu → M → ℕ → Run M
  unfolding set_t
  movco c mem n =
      let after = record (set_t c c.ldst) { ldst = false } in
      if c.ldst
      then wr bus c mem 4 (reg_of c n) (reg_of c 0) (λ mem'. done after mem')
      else done after mem

  -- mac.l @Rm+,@Rn+, and mac.w @Rm+,@Rn+
  unfoldable pub mac_l_op : Cpu → M → ℕ → ℕ → Run M
  unfolding mac_l
  mac_l_op c mem n m = rd bus c mem 4 (reg_of c n) (λ tn mem'.
      let c' = set_reg c n (u32 (reg_of c n + 4)) in
      rd bus c' mem' 4 (reg_of c' m)
        (λ tm mem''. done (mac_l (set_reg c' m (u32 (reg_of c' m + 4))) tn tm) mem''))

  unfoldable pub mac_w_op : Cpu → M → ℕ → ℕ → Run M
  unfolding mac_w
  mac_w_op c mem n m = rd bus c mem 2 (reg_of c n) (λ tn mem'.
      let c' = set_reg c n (u32 (reg_of c n + 2)) in
      rd bus c' mem' 2 (reg_of c' m)
        (λ tm mem''. done (mac_w (set_reg c' m (u32 (reg_of c' m + 2))) tn tm) mem''))

  -- The opcodes of one word, and those of 0x0nnn but the branches.
  unfoldable pub exec0_by_d4 : Cpu → M → ℕ → Run M
  unfolding illegal
  exec0_by_d4 c mem op =
      let n = bit_and (op >>> 8) 0xF in
      let m = bit_and (op >>> 4) 0xF in
      switch (bit_and op 0xF)
        ((0x4, wr bus c mem 1 (indexed c n) (bit_and (reg_of c m) 0xFF) (done c))
          ∷ (0x5, wr bus c mem 2 (indexed c n) (bit_and (reg_of c m) 0xFFFF) (done c))
          ∷ (0x6, wr bus c mem 4 (indexed c n) (reg_of c m) (done c))
          ∷ (0x7, done (record c { macl = u32 (reg_of c n * reg_of c m) }) mem)
          ∷ (0xF, mac_l_op c mem n m)
          ∷ (0xC, rd bus c mem 1 (indexed c m) (λ v. done (set_reg c n (sext8 v))))
          ∷ (0xD, rd bus c mem 2 (indexed c m) (λ v. done (set_reg c n (sext16 v))))
          ∷ (0xE, rd bus c mem 4 (indexed c m) (λ v. done (set_reg c n v)))
          ∷ [])
        (illegal bus c mem op)

  unfoldable pub exec0 : Cpu → M → ℕ → Run M
  unfolding exec0_by_d4 movli movco
  exec0 c mem op =
      let n = bit_and (op >>> 8) 0xF in
      let rest =
        if bit_and op 0x8F == 0x82
        then done (set_reg c n (get_or c.rbank1 (bit_and (op >>> 4) 7) 0)) mem
        else exec0_by_d4 c mem op in
      switch (bit_and op 0xFF)
        ((0x02, done (set_reg c n c.sr) mem)
          ∷ (0x12, done (set_reg c n c.gbr) mem)
          ∷ (0x22, done (set_reg c n c.vbr) mem)
          ∷ (0x32, done (set_reg c n c.ssr) mem)
          ∷ (0x42, done (set_reg c n c.spc) mem)
          ∷ (0x0A, done (set_reg c n c.mach) mem)
          ∷ (0x1A, done (set_reg c n c.macl) mem)
          ∷ (0x2A, done (set_reg c n c.pr) mem)
          ∷ (0x3A, done (set_reg c n c.sgr) mem)
          ∷ (0xFA, done (set_reg c n c.dbr) mem)
          ∷ (0x29, done (set_reg c n (t_bit c)) mem)
          ∷ (0x83, done c mem)
          ∷ (0x93, done c mem)
          ∷ (0xA3, done c mem)
          ∷ (0xB3, done c mem)
          ∷ (0xD3, done c mem)
          ∷ (0xE3, done c mem)
          ∷ (0x63, movli c mem n)
          ∷ (0x73, movco c mem n)
          ∷ [])
        rest

  -- The opcodes without a field, then movca.l; `rest` is the switch on the high digit.
  unfoldable pub exec_whole : Cpu → M → ℕ → Run M → Run M
  exec_whole c mem op rest =
      let movca =
        if bit_and op 0xF0FF == 0x00C3
        then wr bus c mem 4 (reg_of c (bit_and (op >>> 8) 0xF)) (reg_of c 0) (done c)
        else rest in
      switch op
        ((0x0009, done c mem)
          ∷ (0x0008, done (set_bit c sr_t false) mem)
          ∷ (0x0018, done (set_bit c sr_t true) mem)
          ∷ (0x0019, done (record c { sr = and_not c.sr (sr_q + sr_m + sr_t) }) mem)
          ∷ (0x0028, done (record c { mach = 0; macl = 0 }) mem)
          ∷ (0x0048, done (set_bit c sr_s false) mem)
          ∷ (0x0058, done (set_bit c sr_s true) mem)
          ∷ (0x001B, done (record c { sleeping = true }) mem)
          ∷ (0x0038, done c (bus.ldtlb mem))
          ∷ (0x00AB, done c mem)
          ∷ (0x0093, done c mem)
          ∷ [])
        movca
