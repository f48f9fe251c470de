-- ===== src/GTimer/History.antt =====
-- The changes of a timer channel over time: register writes of both units, a new TMU prescaler, and
-- the ticks. A change of the host's clock speed is not one of them.
use casio_cg.Base.{
  ℕ, ◌+◌, ◌*◌, ◌^◌, ◌≤◌, ◌<◌, ◌≡◌, refl, inl, Bool, true, false, arith, if◌then◌else◌,
}
use casio_cg.GTimer.{restart, write_tcr, TimerChan}
use casio_cg.GTimer.Count.{IsWords}
use casio_cg.GTimer.Service.{IsSynced, Step, Step-IsSynced, restart-IsSynced}

-- A TMU TCR write with a new prescaler: the channel, if it runs, starts anew with the divisor div.
abbrev pub retune : TimerChan → ℕ → ℕ → ℕ → ℕ → TimerChan
retune c cyc div v unf = let d = write_tcr c v unf in if d.running then restart d cyc div else d

-- The changes of a channel over time, from a divisor on: cycles do not go back, and no divisor is
-- more than `top`.
pub data Reach (top first : ℕ) (c : TimerChan) : ℕ → ℕ → TimerChan → Type 0 where
  here : (cyc : ℕ) → Reach top first c cyc first c
  after :
      {cyc cyc' div : ℕ} {d e : TimerChan}
      → Reach top first c cyc div d
      → cyc ≤ cyc'
      → Step cyc' div d e
      → Reach top first c cyc' div e
  retuned :
      {cyc cyc' div : ℕ} {d : TimerChan} (div' v unf : ℕ)
      → Reach top first c cyc div d
      → cyc ≤ cyc'
      → 0 < div'
      → div' ≤ top
      → Reach top first c cyc' div' (retune d cyc' div' v unf)

-- Divisors stay within the bound.
divisor_bounds :
    {top first : ℕ} {c : TimerChan} {cyc div : ℕ} {d : TimerChan}
    → 0 < first
    → first ≤ top
    → Reach top first c cyc div d
    → (0 < div) × (div ≤ top)
divisor_bounds pos low (here cyc) = (pos, low)
divisor_bounds pos low (after r h st) = divisor_bounds pos low r
divisor_bounds pos low (retuned div' v unf r h pos' low') = (pos', low')

restarted-IsSynced :
    (b : Bool) (c d : TimerChan) (div : ℕ)
    → IsWords c
    → (b ≡ false → c.running ≡ false)
    → IsWords d × IsSynced d div
    → let e : TimerChan = if b then d else c in IsWords e × IsSynced e div
restarted-IsSynced true c d div w off s = s
restarted-IsSynced false c d div w off s = (w, inl (off refl))

retune-IsSynced :
    (c : TimerChan) (cyc div v unf : ℕ)
    → 0 < div
    → cyc + 2 ^ 32 * div < 2 ^ 64
    → IsWords c
    → IsWords (retune c cyc div v unf) × IsSynced (retune c cyc div v unf) div
retune-IsSynced c cyc div v unf pos fits w =
    let d = write_tcr c v unf in
    let w' : IsWords d =
      unfold write_tcr in
      record {
        tcor_fits = w.tcor_fits;
        tcnt_fits = w.tcnt_fits;
        start_cnt_fits = w.start_cnt_fits;
      } in
    restarted-IsSynced d.running d (restart d cyc div) div w' (λ off. off)
      (restart-IsSynced cyc div pos fits d w')

-- Whatever registers are written, a new prescaler included, and whenever the unit ticks, a channel
-- that starts out in step stays in step: while it runs, its next underflow is set for a cycle at
-- which it reloads under the divisor of that time. Divisors are positive and at most `top`, and
-- the longest period at `top` does not wrap.
pub Reach-IsSynced :
    {top first : ℕ} {c : TimerChan} {cyc div : ℕ} {d : TimerChan}
    → 0 < first
    → first ≤ top
    → cyc + 2 ^ 32 * top < 2 ^ 64
    → IsWords c
    → IsSynced c first
    → Reach top first c cyc div d
    → IsWords d × IsSynced d div
Reach-IsSynced pos low fits w s (here cyc) = (w, s)
Reach-IsSynced pos low fits w s (after r h st) =
    let (p, l) = divisor_bounds pos low r in
    Step-IsSynced p (omega arith) st (Reach-IsSynced pos low (omega arith) w s r)
Reach-IsSynced pos low fits w s (retuned div' v unf r h pos' low') =
    retune-IsSynced _ _ div' v unf pos' (omega arith) (Reach-IsSynced pos low (omega arith) w s r).0
