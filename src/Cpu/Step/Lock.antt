-- ===== src/Cpu/Step/Lock.antt =====
-- The instructions that a lock is made of: tas.b, and movli.l with movco.l.
use casio_cg.Base.{
  ℕ, bit_or, ◌≡◌, refl, sym, ◌∙◌, ◌≢◌, true, false, arith, ◌==◌, length, get_or-set_self,
  get_or-set_ne, b2u,
}
use casio_cg.Cpu.State.{sr_bl, reg_of, set_reg, has, set_t, t_bit, Cpu}
use casio_cg.Cpu.State.Flags.{t_bit-set_t, set_t-r, set_t-reg}
use casio_cg.Cpu.State.Banks.{IsBanked}
use casio_cg.Cpu.Bus.{MmuFault, Bus, ok, done, fault}
use casio_cg.Cpu.Exec.Low.{movli, movco}
use casio_cg.Cpu.Exec.System.{tas}
use casio_cg.Cpu.Step.{rollback, enter_fault, then_run, step_plain, mmu_raise, step_mmu}
use casio_cg.Cpu.Step.Precise.{Stepped, rollback-flags}

-- tas.b @Rn where the byte read is v and the write is accepted: T tells whether v was 0, what is
-- written is v with its upper bit set, and the registers are as before.
tas_lem :
    {M : Type 0} (bus : Bus M) (c : Cpu) (mem : M) (n v u : ℕ) (mem' mem'' : M)
    → bus.load c mem (reg_of c n) 1 ≡ ok v mem'
    → bus.store (set_t c (v == 0)) mem' (reg_of c n) 1 (bit_or v 0x80) ≡ ok u mem''
    → Stepped (tas bus c mem n) (λ d e. (t_bit d ≡ b2u (v == 0)) × (d.r ≡ c.r) × (e ≡ mem''))
unfolding tas
tas_lem bus c mem n v u mem' mem'' read write =
    rw (read, set_t-reg c (v == 0) n, write) (t_bit-set_t c (v == 0), set_t-r c (v == 0), refl)

movco_held :
    {M : Type 0} (bus : Bus M) (c : Cpu) (mem : M) (k u : ℕ) (mem' : M)
    → bus.store (record c { ldst = true }) mem (reg_of c k) 4 (reg_of c 0) ≡ ok u mem'
    → movco bus (record c { ldst = true }) mem k
      ≡ done (record (set_t (record c { ldst = true }) true) { ldst = false }) mem'
unfolding movco
movco_held bus c mem k u mem' write = rw write refl

-- movco.l without a reservation stores nothing and clears T.
movco_lost :
    {M : Type 0} (bus : Bus M) (c : Cpu) (mem : M) (k : ℕ)
    → c.ldst ≡ false
    → movco bus c mem k ≡ done (record (set_t c false) { ldst = false }) mem
unfolding movco
movco_lost bus c mem k h = rw h refl

-- movli.l @Rn,R0 and then movco.l R0,@Rk where both accesses are accepted and Rk is not R0: R0 is
-- stored at Rk, T is set, and no reservation is left.
movli-movco :
    {M : Type 0} (bus : Bus M) (c : Cpu) (mem : M) (n k v u : ℕ) (mem' mem'' : M)
    → length c.r ≡ 16
    → k ≢ 0
    → bus.load c mem (reg_of c n) 4 ≡ ok v mem'
    → bus.store (record (set_reg c 0 v) { ldst = true }) mem' (reg_of c k) 4 v ≡ ok u mem''
    → Stepped
        (then_run (movli bus c mem n) (λ c' e. movco bus c' e k))
        (λ d e. (t_bit d ≡ 1) × (d.ldst ≡ false) × (reg_of d 0 ≡ v) × (e ≡ mem''))
unfolding movli
movli-movco bus c mem n k v u mem' mem'' len hk read write =
    let c' = record (set_reg c 0 v) { ldst = true } in
    let zero_read : reg_of c' 0 ≡ v = get_or-set_self c.r 0 v 0 (omega arith) in
    let other : reg_of c' k ≡ reg_of c k = get_or-set_ne c.r 0 k v 0 (λ e. hk (sym e)) in
    let stored : bus.store c' mem' (reg_of c' k) 4 (reg_of c' 0) ≡ ok u mem'' =
      rw (other, zero_read) write in
    rw (read, movco_held bus (set_reg c 0 v) mem' k u mem'' stored)
      (t_bit-set_t c' true, refl, set_t-reg c' true 0 ∙ zero_read, refl)

-- A fault of the MMU between movli.l and movco.l breaks the reservation: in the handler, and after
-- it, movco.l leaves the memory as it is and clears T.
pub movco-after-fault :
    {M : Type 0} (bus : Bus M) (c : Cpu) (mem : M) (f : MmuFault) (c' : Cpu) (mem' : M) (k : ℕ)
    → IsBanked c
    → has c sr_bl ≡ false
    → step_plain bus c mem ≡ fault f c' mem'
    → Stepped
        (then_run (step_mmu bus c mem) (λ d e. movco bus d e k))
        (λ d e. (t_bit d ≡ 0) × (e ≡ bus.note_fault mem' f))
unfolding step_mmu mmu_raise rollback
movco-after-fault bus c mem f c' mem' k w bl h =
    let d = enter_fault (rollback c c') f c.pc in
    let free : d.ldst ≡ false = (rollback-flags c c' f c.pc).2 in
    rw (h, bl, movco_lost bus d (bus.note_fault mem' f) k free) (t_bit-set_t d false, refl)
