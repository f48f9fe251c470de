-- ===== src/GTimer/Tmu/Writes.antt =====
-- emu_go/gtimer.go, `tmu.write` on a channel, as changes in the history of the channel: it takes the
-- channel, and then writes the register, which for TCR may be that of a new prescaler.
use casio_cg.Base.{
  ℕ, ◌≤◌, ◌<◌, ◌^◌, ◌≡◌, refl, sym, subst, inl, inr, Bool, true, false, ◌&&◌, arith, bit_and, ◌==◌,
  ◌!=◌, if◌then◌else◌, Bool-cases,
}
use casio_cg.GTimer.{restart, write_tcr, TimerChan}
use casio_cg.GTimer.Service.{Step, own, set_tcor, set_tcnt, set_tcr}
use casio_cg.GTimer.History.{Reach, retune, here, after, retuned}
use casio_cg.GTimer.Tmu.{tmu_unf, chan_div, tmu_write_chan, Tmu}
use casio_cg.GTimer.Tmu.Synced.{
  chan_div_pos, tmu_div_tpsc, restart_same_div, write_tcor_same_div, write_tcnt_same_div,
}

if_both :
    (P : TimerChan → Type 0) (a b : Bool) (x y : TimerChan)
    → (b ≡ true → P (if a then x else y))
    → (b ≡ false → P y)
    → P (if a && b then x else y)
if_both P true true x y h k = h refl
if_both P true false x y h k = k refl
if_both P false true x y h k = h refl
if_both P false false x y h k = k refl

restart_if_same_div :
    (t : Tmu) (b : Bool) (c : TimerChan) (cyc d : ℕ)
    → chan_div t (if b then restart c cyc d else c) ≡ chan_div t c
restart_if_same_div t true c cyc d = restart_same_div t c cyc d
restart_if_same_div t false c cyc d = refl

-- The write of a register of a channel, in the history of the channel, from the divisor before to
-- the divisor after.
pub tmu_write_chan-Reach :
    (t : Tmu) (c : TimerChan) (cyc top field v : ℕ)
    → ((d : TimerChan) → chan_div t d ≤ top)
    → v < 2 ^ 32
    → let d = tmu_write_chan c cyc (chan_div t) field v in
      Reach top (chan_div t c) c cyc (chan_div t d) d
unfolding tmu_write_chan
tmu_write_chan-Reach t c cyc top field v low hv = elim (Bool-cases (field == 0)) [
  | inl a ↦ rw a (keeps _ (set_tcor c' v hv) (write_tcor_same_div t c' cyc (chan_div t c') v))
  | inr a ↦ elim (Bool-cases (field == 4)) [
    | inl b ↦
        rw (a, b) (keeps _ (set_tcnt c' v hv) (write_tcnt_same_div t c' cyc (chan_div t c') v))
    | inr b ↦ elim (Bool-cases (field == 8)) [
      | inl d ↦ rw (a, b, d) tuned
      | inr d ↦ rw (a, b, d) start
    ]
  ]
]
  where
    c' : TimerChan
    c' = record c { owned = true }

    Now : TimerChan → Type 0
    Now d = Reach top (chan_div t c) c cyc (chan_div t d) d

    start : Now c'
    start = unfold chan_div in after {cyc' = cyc} (here cyc) (omega arith) (own c)

    keeps : (d : TimerChan) → Step cyc (chan_div t c') c' d → chan_div t d ≡ chan_div t c' → Now d
    keeps d st e =
        subst (λ k. Reach top (chan_div t c) c cyc k d) (sym e)
          (after {cyc' = cyc} start (omega arith) st)

    w : ℕ
    w = bit_and v 0xFFFF

    e : TimerChan
    e = write_tcr c' w tmu_unf

    tuned : Now (
        if e.running && (bit_and e.tcr 7 != bit_and c.tcr 7)
        then restart e cyc (chan_div t e)
        else e)
    tuned =
        if_both Now e.running (bit_and e.tcr 7 != bit_and c.tcr 7) (restart e cyc (chan_div t e)) e
          (λ new.
            subst (λ k. Reach top (chan_div t c) c cyc k (retune c' cyc (chan_div t e) w tmu_unf))
              (sym (restart_if_same_div t e.running e cyc (chan_div t e)))
              (retuned {cyc' = cyc} (chan_div t e) w tmu_unf start (omega arith) (chan_div_pos t e)
                (low e)))
          (λ same.
            keeps e (set_tcr c' w tmu_unf)
              (unfold chan_div in tmu_div_tpsc t.instr_per_sec e.tcr c.tcr (ground arith)))
