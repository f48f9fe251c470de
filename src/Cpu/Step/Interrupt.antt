-- ===== src/Cpu/Step/Interrupt.antt =====
-- `acceptInterrupt`: when it accepts, and what an accepted interrupt leaves.
use casio_cg.Base.{ℕ, ◌≤◌, bit_and, ◌≡◌, ◌⊎◌, true, none, some, List, arith, ◌>>>◌}
use casio_cg.Intc.{Best, gate_pending, Pend}
use casio_cg.Cpu.State.{sr_bl, sr_imask, has, Cpu}
use casio_cg.Cpu.Bus.{Bus, done}
use casio_cg.Cpu.Step.{accept_interrupt}

-- IMASK of a status register.
abbrev pub imask : ℕ → ℕ
imask sr = bit_and sr sr_imask >>> 4

-- No request may interrupt at the mask: there is none, or its level is no higher.
abbrev pub Held : Best → ℕ → Type 0
Held none mask = Unit
Held (some (i, top)) mask = top.level ≤ mask

-- `acceptInterrupt` with SR.BL set, or with no request that may be presented, or with one whose
-- level IMASK holds back, changes at most the list of pending requests.
accept_interrupt-refuses :
    {M : Type 0} (bus : Bus M) (c : Cpu) (mem : M) (kept : List Pend) (best : Best)
    → gate_pending (bus.intc mem) c.pending ≡ (kept, best)
    → (has c sr_bl ≡ true) ⊎ Held best (imask c.sr)
    → (accept_interrupt bus c mem ≡ done c mem)
      ⊎ (accept_interrupt bus c mem ≡ done (record c { pending = kept }) mem)
unfolding accept_interrupt
accept_interrupt-refuses bus c mem kept none e h = rw e (ground arith)
accept_interrupt-refuses bus c mem kept (some (i, top)) e h = rw e (ground arith)
