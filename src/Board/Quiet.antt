-- ===== src/Board/Quiet.antt =====
-- Before the cycle of `nextDue` no device and no queued key has anything to do.
use casio_cg.Base.{
  ℕ, ◌<◌, bit_and, ◌≡◌, refl, sym, ap, ◌∙◌, ◌⊎◌, inl, inr, true, false, ◌&&◌, List, [], ◌∷◌, arith,
  ltb, leb, if◌then◌else◌, lt→ltb, true≢false, pick_on, pick_off,
}
use casio_cg.Intc.{Intc, Pend}
use casio_cg.Keysc.{tick, Keysc}
use casio_cg.Rtc.{rtc_tick, Rtc}
use casio_cg.GTimer.{service, next, TimerChan}
use casio_cg.GTimer.Etmu.{
  etmu_intevt, etmu_unf, etmu_unie, etmu_div, tick_chans, etmu_tick, next_of, Etmu,
}
use casio_cg.GTimer.Tmu.{tmu_intevt, tmu_unf, tmu_unie, chan_div, tmu_tick, Tmu}
use casio_cg.Adc.{soft_tick, idle_tick, adc_tick, Adc}
use casio_cg.Board.{legacy_tick, Board}

pub keysc_quiet :
    (intc : Intc) (cycles : ℕ) (k : Keysc) (ps : List Pend)
    → cycles < k.scan_next
    → tick intc cycles k ps ≡ (k, ps)
unfolding tick
keysc_quiet intc cycles k ps h =
    let test : ltb cycles k.scan_next ≡ true = lt→ltb cycles k.scan_next h in rw test refl

pub rtc_quiet :
    (r : Rtc) (k : Intc) (cycles ips : ℕ) (ps : List Pend)
    → (bit_and r.rcr2 0x70 ≡ 0) ⊎ (cycles < r.next_periodic)
    → rtc_tick r k cycles ips ps ≡ (r, ps)
unfolding rtc_tick
rtc_quiet r k cycles ips ps (inl off) = rw off refl
rtc_quiet r k cycles ips ps (inr early) = ground arith

chan_quiet : (c : TimerChan) (cyc div unf : ℕ) → cyc < next c → service c cyc div unf ≡ (false, c)
unfolding service next
chan_quiet c cyc div unf h = ground arith

chans_quiet :
    (k : Intc) (cyc : ℕ) (div : TimerChan → ℕ) (unf unie : ℕ) (events : List ℕ)
    (cs : List TimerChan) (ps : List Pend)
    → cyc < next_of cs
    → tick_chans k cyc div unf unie events cs ps ≡ (cs, ps)
unfolding tick_chans next_of
chans_quiet k cyc div unf unie events [] ps h = refl
chans_quiet k cyc div unf unie [] (c ∷ cs) ps h = refl
chans_quiet k cyc div unf unie (ev ∷ events) (c ∷ cs) ps h =
    let here = chan_quiet c cyc (div c) unf (omega (arith, h)) in
    let rest = chans_quiet k cyc div unf unie events cs ps (omega (arith, h)) in
    rw (here, rest) refl

pub etmu_quiet :
    (e : Etmu) (k : Intc) (cyc : ℕ) (ps : List Pend)
    → cyc < next_of e.ch
    → etmu_tick e k cyc ps ≡ (e, ps)
unfolding etmu_tick
etmu_quiet e k cyc ps h =
    rw (chans_quiet k cyc (λ c. etmu_div e) etmu_unf etmu_unie etmu_intevt e.ch ps h) refl

pub tmu_quiet :
    (t : Tmu) (k : Intc) (cyc : ℕ) (ps : List Pend)
    → cyc < next_of t.ch
    → tmu_tick t k cyc ps ≡ (t, ps)
unfolding tmu_tick
tmu_quiet t k cyc ps h =
    rw (chans_quiet k cyc (chan_div t) tmu_unf tmu_unie tmu_intevt t.ch ps h) refl

adc_quiet :
    (p : Adc) (k : Intc) (cycles idle : ℕ) (ps : List Pend)
    → (p.sw_armed ≡ false) ⊎ (cycles < p.sw_done_at)
    → (p.armed ≡ false) ⊎ (idle < p.done_at)
    → adc_tick p k cycles idle ps ≡ (p, ps)
unfolding adc_tick soft_tick idle_tick
adc_quiet p k cycles idle ps a b =
    let soft : (p.sw_armed && leb p.sw_done_at cycles) ≡ false = ground (arith, a) in
    let asleep : (p.armed && leb p.done_at idle) ≡ false = ground (arith, b) in
    rw (soft, asleep) refl

legacy_quiet :
    (b : Board) (cycles : ℕ) (ps : List Pend)
    → cycles < b.timer_next
    → legacy_tick b cycles ps ≡ (b, ps)
unfolding legacy_tick
legacy_quiet b cycles ps h =
    let test : leb b.timer_next cycles ≡ false = ground (arith, h) in rw test refl

-- What the converter's own test needs: a conversion of the idle routine that is not done.
abbrev pub IsAwake : Adc → ℕ → Type 0
IsAwake p idle = (p.adc_mode ≡ false) ⊎ ((p.armed ≡ false) ⊎ (idle < p.done_at))

pub converter_quiet :
    (b : Board) (c idle : ℕ) (ps : List Pend)
    → IsAwake b.adc idle
    → ((b.adc.adc_mode ≡ true) × ((b.adc.sw_armed ≡ false) ⊎ (c < b.adc.sw_done_at)))
      ⊎ ((b.adc.adc_mode ≡ false) × (c < b.timer_next))
    → (if b.adc.adc_mode
        then (
          record b { adc = (adc_tick b.adc b.intc c idle ps).0 },
          (adc_tick b.adc b.intc c idle ps).1,
        )
        else legacy_tick b c ps)
      ≡ (b, ps)
converter_quiet b c idle ps (inl off) (inl (on, soft)) = elim (true≢false (sym on ∙ off)) [ ]
converter_quiet b c idle ps (inr awake) (inl (on, soft)) =
    pick_on b.adc.adc_mode _ _ on
    ∙ ap (λ r. (record b { adc = r.0 }, r.1)) (adc_quiet b.adc b.intc c idle ps soft awake)
converter_quiet b c idle ps awake (inr (off, later)) =
    pick_off b.adc.adc_mode _ _ off ∙ legacy_quiet b c ps later
