-- ===== src/Ubc/Precise.antt =====
-- A user break before an instruction: the handler starts with the CPU as the instruction found it.
use casio_cg.Base.{ℕ, ◌+◌, bit_and, ◌≡◌, refl, true, false, arith, ◌!=◌, if◌then◌else◌, u32, reg}
use casio_cg.Cpu.State.{sr_bl, has, drop, set_sr, Cpu}
use casio_cg.Cpu.State.Banks.{IsBanked, take-append, drop-append, append-take-drop}
use casio_cg.Cpu.Bus.{Bus, ok}
use casio_cg.Cpu.Step.Precise.{ReturnsTo, Stepped}
use casio_cg.Ubc.{powered, fetch_match}
use casio_cg.Ubc.Break.{
  expevt_ubc, ubc_cbcr, enter_break, user_break, delayed_at, step_ubc, UbcPort,
}

module _ {M : Type 0} (bus : Bus M) (port : UbcPort M) where
  break-ReturnsTo :
      (c : Cpu) (mem : M) (spc : ℕ) → IsBanked c → ReturnsTo (enter_break bus port c mem spc) spc c
  unfolding enter_break set_sr
  break-ReturnsTo c mem spc (len, len1) = ground (
    arith,
    append-take-drop 8 c.r,
    drop-append 8 c.rbank1 (drop 8 c.r) len1,
    take-append 8 c.rbank1 (drop 8 c.r) len1,
  )

  break_state :
      (c : Cpu) (mem : M) (spc : ℕ)
      → ((enter_break bus port c mem spc).last_exc ≡ expevt_ubc)
        × ((enter_break bus port c mem spc).pc ≡ (
            if bit_and (reg (port.unit mem).regs ubc_cbcr) 1 != 0
            then c.dbr
            else u32 (c.vbr + 0x100)))
  unfolding enter_break set_sr
  break_state c mem spc = (refl, refl)

  user_break-ReturnsTo :
      (c : Cpu) (mem mem' : M) (spc v : ℕ)
      → IsBanked c
      → bus.store c mem 0xFF000024 4 expevt_ubc ≡ ok v mem'
      → Stepped (user_break bus port c mem spc) (λ d e.
        ReturnsTo d spc c
        × (e ≡ mem')
        × (d.last_exc ≡ expevt_ubc)
        × (d.pc ≡ (
            if bit_and (reg (port.unit mem').regs ubc_cbcr) 1 != 0
            then c.dbr
            else u32 (c.vbr + 0x100))))
  unfolding user_break
  user_break-ReturnsTo c mem mem' spc v w h =
      let (code, target) = break_state c mem' spc in
      rw h (break-ReturnsTo c mem' spc w, refl, code, target)

-- The memory after the check of the fetch, where it is made.
abbrev pub checked : {M : Type 0} → Bus M → UbcPort M → Cpu → M → M
checked bus port c mem =
    port.put_unit mem
      (fetch_match (port.pteh mem) (port.unit mem) (delayed_at bus port c mem) c.pc false).0

-- Where a channel matches the fetch of an instruction and asks for a break before it, with SR.BL
-- clear and the unit powered, `stepUBC` runs nothing of it: it ends in the handler, at DBR or
-- VBR + 0x100 by CBCR, from which an rte returns to that instruction with the registers it found.
pub step_ubc-before :
    {M : Type 0} (bus : Bus M) (port : UbcPort M) (c : Cpu) (mem mem' : M) (v : ℕ)
    → IsBanked c
    → has c sr_bl ≡ false
    → powered (port.mstpcr0 mem) ≡ true
    → (fetch_match (port.pteh mem) (port.unit mem) (delayed_at bus port c mem) c.pc false).1 ≡ true
    → bus.store c (checked bus port c mem) 0xFF000024 4 expevt_ubc ≡ ok v mem'
    → Stepped (step_ubc bus port c mem) (λ d e.
      ReturnsTo d c.pc c
      × (e ≡ mem')
      × (d.last_exc ≡ expevt_ubc)
      × (d.pc ≡ (
          if bit_and (reg (port.unit mem').regs ubc_cbcr) 1 != 0
          then c.dbr
          else u32 (c.vbr + 0x100))))
unfolding step_ubc
step_ubc-before bus port c mem mem' v w bl power match wrote =
    rw (bl, power, match)
      (user_break-ReturnsTo bus port c (checked bus port c mem) mem' c.pc v w wrote)
