-- ===== src/GTimer/Service.antt =====
-- Underflow scheduling: `nextUnf` of a running channel is always a cycle at which the counter
-- reloads, and `service` reports each due underflow and moves on to the first one after now.
use native.Mathlib.Nat.{mul-div_cancel, mul-mod_left}
use casio_cg.Base.{
  ℕ, zero, suc, ◌+◌, ◌-◌, ◌*◌, ◌/◌, ◌%◌, ◌^◌, ◌≤◌, ◌<◌, bit_or, ◌≡◌, refl, ap, ◌∙◌, ◌⊎◌, inl, inr,
  Bool, true, false, arith, ltb, leb, Bool-cases, u64,
}
use casio_cg.GTimer.{
  cur, underflow_at, restart, set_running, catch_up, service_period, service, write_tcr, write_tcnt,
  write_tcor, TimerChan,
}
use casio_cg.GTimer.Count.{countdown, countdown-mod, cur-eq-countdown, cur-lt, IsWords}

-- The counter reloads at cycle t.
abbrev pub IsReload : TimerChan → ℕ → ℕ → Type 0
IsReload c div t = (k : ℕ) × (t ≡ c.start_cyc + (c.start_cnt + 1 + k * (c.tcor + 1)) * div)

-- A running channel is scheduled for a reload.
abbrev pub IsSynced : TimerChan → ℕ → Type 0
IsSynced c div = (c.running ≡ false) ⊎ IsReload c div c.next_unf

-- At a reload the count is TCOR again.
cur_at_reload :
    (c : TimerChan) (div t : ℕ)
    → IsWords c
    → c.running ≡ true
    → 0 < div
    → IsReload c div t
    → cur c t div ≡ c.tcor
cur_at_reload c div t w on pos (k, e) =
    let n : ℕ = c.start_cnt + 1 + k * (c.tcor + 1) in
    let steps : (t - c.start_cyc) / div ≡ n =
      ap (λ x. x / div) (omega arith) ∙ mul-div_cancel n pos in
    let rem : (n - c.start_cnt - 1) % (c.tcor + 1) ≡ 0 =
      ap (λ x. x % (c.tcor + 1)) (omega arith) ∙ mul-mod_left k (c.tcor + 1) in
    cur-eq-countdown c t div w on (omega arith)
    ∙ ap (λ x. countdown c.tcor x c.start_cnt) steps
    ∙ countdown-mod c.tcor n c.start_cnt (omega arith)
    ∙ omega (arith, rem)

-- The loop stops at the first cycle after now that is a whole number of periods on.
catch_up_lem :
    (fuel period cyc nx : ℕ)
    → 0 < period
    → cyc + period < 2 ^ 64
    → nx ≤ cyc + period
    → cyc < fuel + nx
    → (j : ℕ) × (catch_up fuel period cyc nx ≡ nx + j * period)
      × (cyc < catch_up fuel period cyc nx)
      × (catch_up fuel period cyc nx ≤ cyc + period)
unfolding catch_up
catch_up_lem zero period cyc nx pos fits near enough = (0, omega arith, omega arith, omega arith)
catch_up_lem (suc fuel) period cyc nx pos fits near enough = elim (Bool-cases (leb nx cyc)) [
  | inr late ↦ rw late (0, omega arith, ground arith, omega arith)
  | inl due ↦
      let due' : nx ≤ cyc = ground arith in
      let flat : u64 (nx + period) ≡ nx + period = omega arith in
      let (j, e, l, r) =
        catch_up_lem fuel period cyc (nx + period) pos fits (omega arith) (omega arith) in
      rw (due, flat) (suc j, omega arith, l, r)
]

-- What a due call of `service` does: it sets the underflow flag and reschedules for a reload which
-- is later than now by one period at most, and leaves the count alone.
pub record IsServiced (c c' : TimerChan) (cyc div unf : ℕ) : Type 0 where
  pub later : cyc < c'.next_unf
  pub soon : c'.next_unf ≤ cyc + (c.tcor + 1) * div
  pub reload : IsReload c' div c'.next_unf
  pub flagged : c'.tcr ≡ bit_or c.tcr unf
  pub same_tcor : c'.tcor ≡ c.tcor
  pub same_count : (t : ℕ) → cur c' t div ≡ cur c t div

module _ (c : TimerChan) (cyc div unf : ℕ) (pos : 0 < div)
    (fits : cyc + (c.tcor + 1) * div < 2 ^ 64) where
  service_period_lem : service_period c div ≡ (c.tcor + 1) * div
  unfolding service_period
  service_period_lem =
      let some_time : 0 < (c.tcor + 1) * div = omega arith in
      let flat : u64 ((c.tcor + 1) * div) ≡ (c.tcor + 1) * div = omega arith in
      rw flat (ground arith)

  service_runs :
      c.running ≡ true
      → c.next_unf ≤ cyc
      → service c cyc div unf ≡ (
        true,
        record c {
          next_unf = catch_up (suc (cyc - c.next_unf)) (service_period c div) cyc c.next_unf;
          tcr = bit_or c.tcr unf;
        },
      )
  unfolding service
  service_runs on due = ground arith

  -- An underflow of a running channel that is due is reported, exactly once: the next one is
  -- scheduled for the first reload after now.
  pub service_due :
      c.running ≡ true
      → IsReload c div c.next_unf
      → c.next_unf ≤ cyc
      → let (due, c') = service c cyc div unf in (due ≡ true) × IsServiced c c' cyc div unf
  service_due on (k, e) due =
      let (j, jumps, l, r) =
        catch_up_lem (suc (cyc - c.next_unf)) (service_period c div) cyc c.next_unf
          (rw service_period_lem (grind arith)) (rw service_period_lem fits) (omega arith)
          (omega arith) in
      rw (service_runs on due) (
        refl,
        record {
          later = l;
          soon = omega (arith, service_period_lem);
          reload = (k + j, jumps ∙ rw service_period_lem (omega arith));
          flagged = refl;
          same_tcor = refl;
          same_count = λ t. unfold cur in refl;
        },
      )

  -- A call of `service` before the scheduled cycle, or on a stopped channel, does nothing.
  pub service_idle : (c.running ≡ false) ⊎ (cyc < c.next_unf) → service c cyc div unf ≡ (false, c)
  unfolding service
  service_idle idle = ground arith

-- A change of a channel at cycle cyc that keeps its divisor: what the register writes of both units
-- and their ticks do, but for a new prescaler.
pub data Step (cyc div : ℕ) : TimerChan → TimerChan → Type 0 where
  own : (c : TimerChan) → Step cyc div c (record c { owned = true })
  start_stop : (c : TimerChan) (on : Bool) → Step cyc div c (set_running c on cyc div)
  set_tcor : (c : TimerChan) (v : ℕ) → v < 2 ^ 32 → Step cyc div c (write_tcor c cyc div v)
  set_tcnt : (c : TimerChan) (v : ℕ) → v < 2 ^ 32 → Step cyc div c (write_tcnt c cyc div v)
  set_tcr : (c : TimerChan) (v unf : ℕ) → Step cyc div c (write_tcr c v unf)
  tick : (c : TimerChan) (unf : ℕ) → Step cyc div c (service c cyc div unf).1

module _ (cyc div : ℕ) (pos : 0 < div) (fits : cyc + 2 ^ 32 * div < 2 ^ 64) where
  underflow_at_lem : (n : ℕ) → n < 2 ^ 32 → underflow_at cyc n div ≡ cyc + (n + 1) * div
  unfolding underflow_at
  underflow_at_lem n h =
      let small : (n + 1) * div ≤ 2 ^ 32 * div = grind arith in
      let a : u64 ((n + 1) * div) ≡ (n + 1) * div = omega arith in
      let b : u64 (cyc + (n + 1) * div) ≡ cyc + (n + 1) * div = omega arith in rw (a, b)

  set_running-IsSynced :
      (c : TimerChan) (on : Bool)
      → IsWords c
      → IsSynced c div
      → IsWords (set_running c on cyc div) × IsSynced (set_running c on cyc div) div
  unfolding set_running
  set_running-IsSynced c false w s = (ground (arith, cur-lt c cyc div w), inl (ground arith))
  set_running-IsSynced c true w s = elim (Bool-cases c.running) [
    | inl on ↦ (ground arith, ground (arith, s))
    | inr off ↦ (ground arith, inr (0, ground (arith, underflow_at_lem c.tcnt w.tcnt_fits)))
  ]

  pub restart-IsSynced :
      (c : TimerChan) → IsWords c → IsWords (restart c cyc div) × IsSynced (restart c cyc div) div
  unfolding restart
  restart-IsSynced c w =
      let small : cur c cyc div < 2 ^ 32 = cur-lt c cyc div w in
      (omega arith, inr (0, omega (arith, underflow_at_lem (cur c cyc div) small)))

  write_tcor-IsSynced :
      (c : TimerChan) (v : ℕ)
      → v < 2 ^ 32
      → IsWords c
      → IsSynced c div
      → IsWords (write_tcor c cyc div v) × IsSynced (write_tcor c cyc div v) div
  unfolding write_tcor restart
  write_tcor-IsSynced c v h w s =
      let w' : IsWords (record c { tcor = v }) = omega arith in
      let n : ℕ = cur (record c { tcor = v }) cyc div in
      let small : n < 2 ^ 32 = cur-lt (record c { tcor = v }) cyc div w' in
      elim (Bool-cases c.running) [
        | inl on ↦ (ground arith, inr (0, ground (arith, underflow_at_lem n small)))
        | inr off ↦ (ground arith, inl (ground arith))
      ]

  write_tcnt-IsSynced :
      (c : TimerChan) (v : ℕ)
      → v < 2 ^ 32
      → IsWords c
      → IsSynced c div
      → IsWords (write_tcnt c cyc div v) × IsSynced (write_tcnt c cyc div v) div
  unfolding write_tcnt
  write_tcnt-IsSynced c v h w s = elim (Bool-cases c.running) [
    | inl on ↦ (ground arith, inr (0, ground (arith, underflow_at_lem v h)))
    | inr off ↦ (ground arith, inl (ground arith))
  ]

  service-IsSynced :
      (c : TimerChan) (unf : ℕ)
      → IsWords c
      → IsSynced c div
      → IsWords (service c cyc div unf).1 × IsSynced (service c cyc div unf).1 div
  unfolding service
  service-IsSynced c unf w s = elim (Bool-cases (ltb cyc c.next_unf)) [
    | inl early ↦ ground (arith, s, w)
    | inr due ↦ elim (Bool-cases c.running) [
      | inr off ↦ ground (arith, s, w)
      | inl on ↦ elim s [
        | inl off ↦ cc
        | inr r ↦
            let short : (c.tcor + 1) * div ≤ 2 ^ 32 * div = grind arith in
            let done = service_due c cyc div unf pos (omega arith) on r (ground arith) in
            (ground (arith, w), inr done.1.reload)
      ]
    ]
  ]

pub Step-IsSynced :
    {cyc div : ℕ} {c d : TimerChan}
    → 0 < div
    → cyc + 2 ^ 32 * div < 2 ^ 64
    → Step cyc div c d
    → IsWords c × IsSynced c div
    → IsWords d × IsSynced d div
Step-IsSynced {cyc} {div} pos fits (own c) (w, s) = (
  record { tcor_fits = w.tcor_fits; tcnt_fits = w.tcnt_fits; start_cnt_fits = w.start_cnt_fits },
  s,
)
Step-IsSynced {cyc} {div} pos fits (start_stop c on) (w, s) =
    set_running-IsSynced cyc div pos fits c on w s
Step-IsSynced {cyc} {div} pos fits (set_tcor c v h) (w, s) =
    write_tcor-IsSynced cyc div pos fits c v h w s
Step-IsSynced {cyc} {div} pos fits (set_tcnt c v h) (w, s) =
    write_tcnt-IsSynced cyc div pos fits c v h w s
Step-IsSynced {cyc} {div} pos fits (set_tcr c v unf) (w, s) =
    unfold write_tcr in
    (
      record {
        tcor_fits = w.tcor_fits;
        tcnt_fits = w.tcnt_fits;
        start_cnt_fits = w.start_cnt_fits;
      },
      s,
    )
Step-IsSynced {cyc} {div} pos fits (tick c unf) (w, s) = service-IsSynced cyc div pos fits c unf w s
