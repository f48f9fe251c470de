-- ===== src/Cpu/Step/Precise.antt =====
-- `stepMMU`: a faulting instruction leaves no trace in the registers.
use casio_cg.Base.{ℕ, ◌+◌, ◌≡◌, refl, false, arith, u32}
use casio_cg.Cpu.State.{sr_bl, has, drop, set_sr, Cpu}
use casio_cg.Cpu.State.Banks.{IsBanked, take-append, drop-append, append-take-drop, arch}
use casio_cg.Cpu.State.Handler.{sr_handler, InHandler, set_mask}
use casio_cg.Cpu.Bus.{MmuFault, Bus, Run, done, fault, crash}
use casio_cg.Cpu.Step.{rollback, enter_fault, step_plain, mmu_raise, step_mmu}

-- The CPU d is in a handler that an rte leaves for the address pc with the registers of c.
abbrev pub ReturnsTo : Cpu → ℕ → Cpu → Type 0
ReturnsTo d pc c = (d.spc ≡ pc) × (arch (set_sr d d.ssr) ≡ arch c)

abbrev pub Stepped : {M : Type 0} → Run M → (Cpu → M → Type 0) → Type 0
Stepped (done c mem) P = P c mem
Stepped (fault f c mem) P = ⊥
Stepped crash P = ⊥

rollback-ReturnsTo :
    (c c' : Cpu) (f : MmuFault) (spc : ℕ)
    → IsBanked c
    → ReturnsTo (enter_fault (rollback c c') f spc) spc c
unfolding enter_fault rollback set_sr
rollback-ReturnsTo c c' f spc (len, len1) = ground (
  arith,
  append-take-drop 8 c.r,
  drop-append 8 c.rbank1 (drop 8 c.r) len1,
  take-append 8 c.rbank1 (drop 8 c.r) len1,
)

rollback-InHandler :
    (c c' : Cpu) (f : MmuFault) (spc : ℕ)
    → InHandler (enter_fault (rollback c c') f spc) (u32 (c'.vbr + f.vector))
unfolding enter_fault rollback set_sr
rollback-InHandler c c' f spc = ground (arith, set_mask c.sr sr_handler)

pub rollback-flags :
    (c c' : Cpu) (f : MmuFault) (spc : ℕ)
    → ((enter_fault (rollback c c') f spc).in_slot ≡ false)
      × ((enter_fault (rollback c c') f spc).exc_taken ≡ false)
      × ((enter_fault (rollback c c') f spc).ldst ≡ false)
      × ((enter_fault (rollback c c') f spc).last_exc ≡ f.expevt)
unfolding enter_fault rollback set_sr
rollback-flags c c' f spc = ground arith

-- When an access of an instruction faults, however far the instruction got (its state c' then is
-- arbitrary), and SR.BL is clear, `stepMMU` ends in the MMU's handler, at the VBR that the fault
-- finds plus the fault's vector with MD, RB and BL set, with the registers banked so that an rte
-- returns to the instruction's own address with SR, both register banks, PR, GBR, MACH, MACL, FPUL
-- and FPSCR as before it; the CPU is in no delay slot and holds no reservation.
pub step_mmu-precise :
    {M : Type 0} (bus : Bus M) (c : Cpu) (mem : M) (f : MmuFault) (c' : Cpu) (mem' : M)
    → IsBanked c
    → has c sr_bl ≡ false
    → step_plain bus c mem ≡ fault f c' mem'
    → Stepped (step_mmu bus c mem) (λ d e.
      InHandler d (u32 (c'.vbr + f.vector))
      × ReturnsTo d c.pc c
      × (e ≡ bus.note_fault mem' f)
      × (d.in_slot ≡ false)
      × (d.exc_taken ≡ false)
      × (d.ldst ≡ false)
      × (d.last_exc ≡ f.expevt))
unfolding step_mmu mmu_raise rollback
step_mmu-precise bus c mem f c' mem' w bl h =
    let (slot, exc, res, last) = rollback-flags c c' f c.pc in
    rw (h, bl)
      (rollback-InHandler c c' f c.pc, rollback-ReturnsTo c c' f c.pc w, refl, slot, exc, res, last)

-- Where nothing faults, the step with address translation is the plain one.
pub step_mmu-plain :
    {M : Type 0} (bus : Bus M) (c : Cpu) (mem : M) (c' : Cpu) (mem' : M)
    → step_plain bus c mem ≡ done c' mem'
    → step_mmu bus c mem ≡ done c' mem'
unfolding step_mmu
step_mmu-plain bus c mem c' mem' h = rw h refl
