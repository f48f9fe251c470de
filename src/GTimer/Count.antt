-- ===== src/GTimer/Count.antt =====
-- The count of a running channel, which the code computes from the cycle it was started at, is
-- that of a counter which steps once in `div` cycles and reloads TCOR after 0.
use native.Mathlib.Decide.{dec_lt}
use native.Mathlib.Nat.{mod-eq_of_lt, mod-eq-sub-mod, zero-div}
use casio_cg.Base.{
  ℕ, zero, suc, ◌+◌, ◌-◌, ◌/◌, ◌%◌, ◌^◌, ◌≤◌, ◌<◌, min, ◌≡◌, refl, sym, ap, ◌∙◌, true, false, arith,
}
use casio_cg.GTimer.{cur, restart, write_tcor, TimerChan}

-- The hardware counter: n steps from the count `cnt`.
unfoldable pub countdown : ℕ → ℕ → ℕ → ℕ
countdown tcor zero cnt = cnt
countdown tcor (suc n) zero = countdown tcor n tcor
countdown tcor (suc n) (suc cnt) = countdown tcor n cnt

-- A channel whose registers are 32-bit words.
pub record IsWords (c : TimerChan) : Type 0 where
  pub tcor_fits : c.tcor < 2 ^ 32
  pub tcnt_fits : c.tcnt < 2 ^ 32
  pub start_cnt_fits : c.start_cnt < 2 ^ 32

-- Up to the first reload the counter goes down by one each step.
pub countdown-sub : (tcor n cnt : ℕ) → n ≤ cnt → countdown tcor n cnt ≡ cnt - n
unfolding countdown
countdown-sub tcor zero cnt h = omega arith
countdown-sub tcor (suc n) zero h = absurd (omega arith)
countdown-sub tcor (suc n) (suc cnt) h = omega (arith, countdown-sub tcor n cnt)

pub countdown-add :
    (tcor a b cnt : ℕ) → countdown tcor (a + b) cnt ≡ countdown tcor b (countdown tcor a cnt)
unfolding countdown
countdown-add tcor zero b cnt = ap (λ k. countdown tcor k cnt) (omega arith)
countdown-add tcor (suc a) b zero =
    let e : suc a + b ≡ suc (a + b) = omega arith in rw e (countdown-add tcor a b tcor)
countdown-add tcor (suc a) b (suc cnt) =
    let e : suc a + b ≡ suc (a + b) = omega arith in rw e (countdown-add tcor a b cnt)

-- The step after 0 reloads TCOR.
pub countdown-reload : (tcor cnt : ℕ) → countdown tcor (suc cnt) cnt ≡ tcor
unfolding countdown
countdown-reload tcor zero = refl
countdown-reload tcor (suc cnt) = countdown-reload tcor cnt

-- From a reload on, the counter is periodic.
countdown-mod_fuel : (fuel tcor m : ℕ) → m < fuel → countdown tcor m tcor ≡ tcor - m % (tcor + 1)
countdown-mod_fuel zero tcor m h = absurd (omega arith)
countdown-mod_fuel (suc fuel) tcor m h = elim (dec_lt tcor m) [
  | no q ↦
      omega (arith, countdown-sub tcor m tcor, mod-eq_of_lt {n = m} {m = tcor + 1} (omega arith))
  | yes q ↦
      let m' : ℕ = m - suc tcor in
      let e : suc tcor + m' ≡ m = omega arith in
      let wrap : m % (tcor + 1) ≡ m' % (tcor + 1) =
        mod-eq-sub-mod {n = m} {m = tcor + 1} (omega arith)
        ∙ ap (λ k. k % (tcor + 1)) (omega arith) in
      let jump : countdown tcor m tcor ≡ countdown tcor m' tcor =
        ap (λ k. countdown tcor k tcor) (sym e)
        ∙ countdown-add tcor (suc tcor) m' tcor
        ∙ ap (countdown tcor m') (countdown-reload tcor tcor) in
      jump ∙ countdown-mod_fuel fuel tcor m' (omega arith) ∙ ap (λ k. tcor - k) (sym wrap)
]

-- After the first reload.
pub countdown-mod :
    (tcor n cnt : ℕ) → cnt < n → countdown tcor n cnt ≡ tcor - (n - cnt - 1) % (tcor + 1)
countdown-mod tcor n cnt h =
    let m : ℕ = n - cnt - 1 in
    let e : suc cnt + m ≡ n = omega arith in
    ap (λ k. countdown tcor k cnt) (sym e)
    ∙ countdown-add tcor (suc cnt) m cnt
    ∙ ap (countdown tcor m) (countdown-reload tcor cnt)
    ∙ countdown-mod_fuel (suc m) tcor m (omega arith)

-- A running channel reads as the hardware counter that started at its start cycle with its start
-- count and has stepped once in every `div` cycles since.
pub cur-eq-countdown :
    (c : TimerChan) (cyc div : ℕ)
    → IsWords c
    → c.running ≡ true
    → c.start_cyc ≤ cyc
    → cur c cyc div ≡ countdown c.tcor ((cyc - c.start_cyc) / div) c.start_cnt
unfolding cur
cur-eq-countdown c cyc div w on after = ground (
  arith,
  w.tcor_fits,
  w.start_cnt_fits,
  countdown-sub c.tcor ((cyc - c.start_cyc) / div) c.start_cnt,
  countdown-mod c.tcor ((cyc - c.start_cyc) / div) c.start_cnt,
)

-- The count is a 32-bit word.
pub cur-lt : (c : TimerChan) (cyc div : ℕ) → IsWords c → cur c cyc div < 2 ^ 32
unfolding cur
cur-lt c cyc div w = ground (arith, w.tcnt_fits)

-- At the cycle it is started at, a channel reads as the count it is started with.
pub cur_at_start :
    (c : TimerChan) (cyc div n : ℕ)
    → n < 2 ^ 32
    → c.start_cyc ≡ cyc
    → c.start_cnt ≡ n
    → c.tcnt ≡ n
    → cur c cyc div ≡ n
unfolding cur
cur_at_start c cyc div n small e f g =
    let zero_steps : (cyc - c.start_cyc) / div ≡ 0 =
      ap (λ k. k / div) (omega arith) ∙ zero-div div in
    ground (arith, zero_steps)

-- Restarting a channel at a cycle leaves the count that is read at that cycle as it was.
restart_keeps_count :
    (c : TimerChan) (cyc div : ℕ)
    → IsWords c
    → 0 < div
    → cur (restart c cyc div) cyc div ≡ cur c cyc div
unfolding restart
restart_keeps_count c cyc div w pos =
    cur_at_start _ cyc div (cur c cyc div) (cur-lt c cyc div w) refl refl refl

-- A write of TCOR to a running channel that has reloaded once since its start, with no more counts
-- since that reload than the old and the new TCOR, moves its count by the difference of the two
-- TCOR values, since the count is worked out with the new TCOR.
pub write_tcor_jumps :
    (c : TimerChan) (cyc div v : ℕ)
    → IsWords c
    → v < 2 ^ 32
    → 0 < div
    → c.running ≡ true
    → c.start_cyc ≤ cyc
    → c.start_cnt < (cyc - c.start_cyc) / div
    → (cyc - c.start_cyc) / div ≤ c.start_cnt + 1 + min c.tcor v
    → cur (write_tcor c cyc div v) cyc div + c.tcor ≡ cur c cyc div + v
unfolding write_tcor
write_tcor_jumps c cyc div v w small pos on after reloaded first =
    let c' : TimerChan = record c { tcor = v } in
    let w' : IsWords c' = omega arith in
    let n : ℕ = (cyc - c.start_cyc) / div in
    let before =
      cur-eq-countdown c cyc div w on after ∙ countdown-mod c.tcor n c.start_cnt reloaded in
    let later = cur-eq-countdown c' cyc div w' on after ∙ countdown-mod v n c.start_cnt reloaded in
    let kept = restart_keeps_count c' cyc div w' pos in
    let old_rem = mod-eq_of_lt {n = n - c.start_cnt - 1} {m = c.tcor + 1} (omega arith) in
    let new_rem = mod-eq_of_lt {n = n - c.start_cnt - 1} {m = v + 1} (omega arith) in
    ground (arith, before, later, kept, old_rem, new_rem)

pub cur_stopped : (c : TimerChan) (cyc div : ℕ) → c.running ≡ false → cur c cyc div ≡ c.tcnt
unfolding cur
cur_stopped c cyc div off = ground arith
