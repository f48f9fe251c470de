-- ===== src/Rtc/Periodic.antt =====
-- The periodic interrupt: `alignPeriodic`, writes of RCR2, and `tick`.
use native.Mathlib.Decide.{ℕ_discrete}
use native.Mathlib.Nat.{zero-mod, add-mod_right, mul-mod_left, mod-lt, div-add-mod'}
use casio_cg.Base.{
  ℕ, ◌+◌, ◌*◌, ◌/◌, ◌%◌, ◌^◌, ◌≤◌, ◌<◌, bit_and, bit_or, ◌≡◌, refl, sym, ◌∙◌, subst, ◌⊎◌, inl, inr,
  false, ◌&&◌, ◌||◌, List, arith, ltb, leb, ◌==◌, ◌!=◌, if◌then◌else◌, Bool-cases, bit_and_step,
  bit_or_step, bit_and_mask, u64, sub32,
}
use casio_cg.Intc.{raise, Intc, Pend}
use casio_cg.Rtc.{
  rtc_base, pes, period_of, period_instr, aligned_cycle, align_periodic, rtc_write, rtc_tick, Rtc,
}

pes_lem : (a : ℕ) → pes a ≡ a / 16 % 8
unfolding pes
pes_lem a = bit_and_mask 3 (a / 16)

or_even : (a b c : ℕ) → b ≡ c * 2 → bit_or a b ≡ bit_or (a / 2) c * 2 + a % 2
or_even a b c e = let h : b / 2 ≡ c = omega arith in bit_or_step a b ∙ rw h (omega arith)

low_three : (b : ℕ) → bit_or b 8 % 8 ≡ b % 8
low_three b =
    omega (arith, or_even b 8 4 refl, or_even (b / 2) 4 2 refl, or_even (b / 2 / 2) 2 1 refl)

shift_four : (a : ℕ) → bit_or a 0x80 / 16 ≡ bit_or (a / 2 / 2 / 2 / 2) 8
shift_four a = omega (
  arith,
  or_even a 0x80 0x40 refl,
  or_even (a / 2) 0x40 0x20 refl,
  or_even (a / 2 / 2) 0x20 0x10 refl,
  or_even (a / 2 / 2 / 2) 0x10 8 refl,
)

-- Setting the flag PEF leaves the PES field alone.
pes-pef : (a : ℕ) → pes (bit_or a 0x80) ≡ pes a
pes-pef a =
    pes_lem (bit_or a 0x80)
    ∙ omega (arith, shift_four a, low_three (a / 2 / 2 / 2 / 2))
    ∙ sym (pes_lem a)

-- The PES field is off exactly when the test of `tick` finds it so.
pes-off : (a : ℕ) → bit_and a 0x70 ≡ pes a * 16
pes-off a = omega (
  arith,
  pes_lem a,
  bit_and_step a 0x70,
  bit_and_step (a / 2) 0x38,
  bit_and_step (a / 2 / 2) 0x1c,
  bit_and_step (a / 2 / 2 / 2) 0x0e,
  bit_and_mask 3 (a / 2 / 2 / 2 / 2),
)

-- The cycle n is a whole number of periods of PES value p, if that is on.
abbrev pub OnGrid : ℕ → ℕ → ℕ → Type 0
OnGrid p n ips = (p ≡ 0) ⊎ (n % period_of p ips ≡ 0)

-- The next event, if one is programmed, is at a whole number of periods of the clock.
abbrev pub IsAligned : Rtc → ℕ → Type 0
IsAligned r ips = OnGrid (pes r.rcr2) r.next_periodic ips

-- Aligning schedules the first multiple of the period after now.
align_periodic_lem :
    (r : Rtc) (cyc ips : ℕ)
    → 0 < period_instr r ips
    → cyc + period_instr r ips < 2 ^ 64
    → let r' = align_periodic r cyc ips in
      (cyc < r'.next_periodic)
      × (r'.next_periodic ≤ cyc + period_instr r ips)
      × (r'.next_periodic % period_instr r ips ≡ 0)
unfolding aligned_cycle
align_periodic_lem r cyc ips pos fits =
    let p : ℕ = period_instr r ips in
    let some_time : (p == 0) ≡ false = ground arith in
    let low = mod-lt cyc pos in
    let split = div-add-mod' cyc p in
    let next : (cyc / p + 1) * p ≡ cyc / p * p + p = omega arith in
    let flat : u64 ((cyc / p + 1) * p) ≡ (cyc / p + 1) * p = omega arith in
    rw (some_time, flat) (omega arith, omega arith, mul-mod_left (cyc / p + 1) p)

aligned_cycle-mod : (p cyc : ℕ) → cyc + p < 2 ^ 64 → aligned_cycle p cyc % p ≡ 0
unfolding aligned_cycle
aligned_cycle-mod p cyc fits = elim (Bool-cases (p == 0)) [
  | inl off ↦ rw off (zero-mod p)
  | inr on ↦
      let split = div-add-mod' cyc p in
      let next : (cyc / p + 1) * p ≡ cyc / p * p + p = omega arith in
      let flat : u64 ((cyc / p + 1) * p) ≡ (cyc / p + 1) * p = omega arith in
      rw (on, flat) (mul-mod_left (cyc / p + 1) p)
]

period_of-lt : (p ips : ℕ) → ips < 2 ^ 62 → period_of p ips < 2 ^ 63
unfolding period_of
period_of-lt p ips h = ground arith

-- One period on from a grid cycle.
OnGrid-add :
    (p n ips : ℕ)
    → ips < 2 ^ 62
    → n < 2 ^ 62
    → OnGrid p n ips
    → OnGrid p (u64 (n + period_of p ips)) ips
OnGrid-add p n ips hi hn (inl off) = inl off
OnGrid-add p n ips hi hn (inr on) =
    let q : ℕ = period_of p ips in
    let flat : u64 (n + q) ≡ n + q = omega (arith, period_of-lt p ips hi) in
    inr (rw flat (add-mod_right n q ∙ on))

-- Writing any register and ticking keep the next periodic event at a whole number of periods of
-- the clock's own phase: writing the PES field that is programmed already does not restart it.
rtc-IsAligned :
    (r : Rtc) (k : Intc) (cyc ips va v : ℕ) (ps : List Pend)
    → cyc < 2 ^ 62
    → ips < 2 ^ 62
    → r.next_periodic < 2 ^ 62
    → IsAligned r ips
    → IsAligned (rtc_write r cyc ips va v) ips × IsAligned (rtc_tick r k cyc ips ps).0 ips
unfolding rtc_write rtc_tick
rtc-IsAligned r k cyc ips va v ps hc hi hn a = (
  elim (Bool-cases (off == 0x1C)) [
    | inl x ↦ rw x a
    | inr x ↦ elim (Bool-cases (off == 0x1E)) [
      | inr y ↦ rw (x, y) a
      | inl y ↦ elim (Bool-cases ((p != 0) && ((p != pes r.rcr2) || (r.next_periodic == 0)))) [
        | inl z ↦ rw (x, y, z) (inr (aligned_cycle-mod (period_of p ips) cyc fits))
        | inr z ↦ rw (x, y, z) (unchanged z)
      ]
    ]
  ],
  elim (Bool-cases (bit_and r.rcr2 0x70 == 0)) [
    | inl x ↦ rw x a
    | inr x ↦ elim (Bool-cases (leb r.next_periodic cyc)) [
      | inr y ↦ rw (x, y) a
      | inl y ↦ rw (x, y, pes-pef) (OnGrid-add (pes r.rcr2) r.next_periodic ips hi hn a)
    ]
  ],
)
  where
    off : ℕ
    off = sub32 va rtc_base

    p : ℕ
    p = pes (bit_and v 0xFF)

    fits : cyc + period_of p ips < 2 ^ 64
    fits = omega (arith, period_of-lt p ips hi)

    unchanged :
        ((p != 0) && ((p != pes r.rcr2) || (r.next_periodic == 0))) ≡ false
        → OnGrid p r.next_periodic ips
    unchanged e = elim (ℕ_discrete p 0) [
      | yes z ↦ inl z
      | no z ↦
          let same : pes r.rcr2 ≡ p = ground arith in
          subst (λ q. OnGrid q r.next_periodic ips) same a
    ]

-- A tick does nothing while no period is programmed or the next event is not due; a due event
-- sets the flag PEF, requests the interrupt at level 9 through the controller, and moves on by
-- one period.
pub rtc_tick_lem :
    (r : Rtc) (k : Intc) (cyc ips : ℕ) (ps : List Pend)
    → rtc_tick r k cyc ips ps ≡ (
        if (pes r.rcr2 == 0) || ltb cyc r.next_periodic then (r, ps) else (
          record r {
            rcr2 = bit_or r.rcr2 0x80;
            next_periodic = u64 (r.next_periodic + period_instr r ips);
          },
          raise k ps 0xAA0 9,
        ))
unfolding rtc_tick
rtc_tick_lem r k cyc ips ps = ground (arith, pes-off r.rcr2)
