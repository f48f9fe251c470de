-- ===== src/GTimer/Etmu/Synced.antt =====
-- Every channel of the ETMU stays in step with the hardware counter under all register writes
-- and ticks.
use casio_cg.Base.{
  ℕ, zero, suc, ◌+◌, ◌-◌, ◌*◌, ◌/◌, ◌%◌, ◌^◌, ◌<◌, bit_and, ◌≡◌, refl, inl, inr, true, ◌||◌, List,
  [], ◌∷◌, arith, ltb, leb, ◌!=◌, Bool-cases, set,
}
use casio_cg.GTimer.{service, TimerChan}
use casio_cg.GTimer.Count.{IsWords}
use casio_cg.GTimer.Service.{
  IsSynced, Step-IsSynced, Step, start_stop, set_tcor, set_tcnt, set_tcr, tick,
}
use casio_cg.Intc.{Intc, Pend}
use casio_cg.GTimer.Etmu.{
  etmu_intevt, etmu_unf, etmu_unie, chan, etmu_div, etmu_off, write_chan, etmu_write, tick_chans,
  etmu_tick, Etmu,
}

-- Every channel has 32-bit registers, and is set to underflow at a reload while it runs.
abbrev pub AllSynced : (TimerChan → ℕ) → List TimerChan → Type 0
AllSynced div [] = Unit
AllSynced div (c ∷ cs) = IsWords c × IsSynced c (div c) × AllSynced div cs

pub AllSynced-set :
    (div : TimerChan → ℕ) (cs : List TimerChan) (i : ℕ) (c : TimerChan)
    → AllSynced div cs
    → IsWords c
    → IsSynced c (div c)
    → AllSynced div (set cs i c)
AllSynced-set div [] i c s w h = tt
AllSynced-set div (d ∷ ds) zero c s w h = (w, h, s.2)
AllSynced-set div (d ∷ ds) (suc i) c s w h = (s.0, s.1, AllSynced-set div ds i c s.2 w h)

pub AllSynced-chan :
    (div : TimerChan → ℕ) (cs : List TimerChan) (i : ℕ)
    → AllSynced div cs
    → IsWords (chan cs i) × IsSynced (chan cs i) (div (chan cs i))
AllSynced-chan div [] i s = (omega arith, inl refl)
AllSynced-chan div (c ∷ cs) zero s = (s.0, s.1)
AllSynced-chan div (c ∷ cs) (suc i) s = AllSynced-chan div cs i s.2

-- A write to a channel's register keeps the channel in step.
write_chan-IsSynced :
    (c : TimerChan) (cyc div field v : ℕ)
    → 0 < div
    → cyc + 2 ^ 32 * div < 2 ^ 64
    → v < 2 ^ 32
    → IsWords c
    → IsSynced c div
    → IsWords (write_chan c cyc div field v) × IsSynced (write_chan c cyc div field v) div
unfolding write_chan
write_chan-IsSynced c cyc div field v pos fits hv w s =
    let c' : TimerChan = record c { owned = true } in
    let w' : IsWords c' = omega arith in
    let step = λ (d : TimerChan) (st : Step cyc div c' d). Step-IsSynced pos fits st (w', s) in
    ground (
      arith,
      w,
      s,
      step _ (start_stop c' (bit_and v 1 != 0)),
      step _ (set_tcor c' v hv),
      step _ (set_tcnt c' v hv),
      step _ (set_tcr c' (bit_and v 0xFF) etmu_unf),
    )

-- The ticks of the channels; the divisor depends on a channel's TCR up to its flags.
pub tick_chans-AllSynced :
    (k : Intc) (cyc : ℕ) (div : TimerChan → ℕ) (unf unie : ℕ) (events : List ℕ)
    (cs : List TimerChan) (ps : List Pend)
    → ((c : TimerChan) → 0 < div c)
    → ((c : TimerChan) → cyc + 2 ^ 32 * div c < 2 ^ 64)
    → ((c : TimerChan) (d : ℕ) → div (service c cyc d unf).1 ≡ div c)
    → AllSynced div cs
    → AllSynced div (tick_chans k cyc div unf unie events cs ps).0
unfolding tick_chans
tick_chans-AllSynced k cyc div unf unie events [] ps pos fits same s = tt
tick_chans-AllSynced k cyc div unf unie [] (c ∷ cs) ps pos fits same s = s
tick_chans-AllSynced k cyc div unf unie (ev ∷ events) (c ∷ cs) ps pos fits same s =
    let (w, h) = Step-IsSynced (pos c) (fits c) (tick c unf) (s.0, s.1) in
    (
      w,
      rw (same c (div c)) h,
      tick_chans-AllSynced k cyc div unf unie events cs _ pos fits same s.2,
    )

etmu_div_pos : (e : Etmu) → 0 < etmu_div e
unfolding etmu_div
etmu_div_pos e = ground arith

-- A register write to the ETMU, at any address, and a tick of it both leave every channel with
-- 32-bit registers and, while it runs, set to underflow at a cycle at which it reloads.
etmu-AllSynced :
    (e : Etmu) (k : Intc) (cyc va v : ℕ) (ps : List Pend)
    → cyc + 2 ^ 32 * etmu_div e < 2 ^ 64
    → v < 2 ^ 32
    → AllSynced (λ c. etmu_div e) e.ch
    → AllSynced (λ c. etmu_div e) (etmu_write e cyc va v).ch
      × AllSynced (λ c. etmu_div e) (etmu_tick e k cyc ps).0.ch
unfolding etmu_write etmu_tick
etmu-AllSynced e k cyc va v ps fits hv s = (
  elim (Bool-cases (ltb off 0x30 || leb 0xF0 off)) [
    | inl out ↦ rw out s
    | inr inside ↦
        let old = AllSynced-chan (λ c. etmu_div e) e.ch i s in
        let new =
          write_chan-IsSynced (chan e.ch i) cyc (etmu_div e) ((off - 0x30) % 0x20) v
            (etmu_div_pos e) fits hv old.0 old.1 in
        rw inside (AllSynced-set (λ c. etmu_div e) e.ch i _ s new.0 new.1)
  ],
  tick_chans-AllSynced k cyc (λ c. etmu_div e) etmu_unf etmu_unie etmu_intevt e.ch ps
      (λ c. etmu_div_pos e) (λ c. fits) (λ c d. refl) s,
)
  where
    off : ℕ
    off = etmu_off va

    i : ℕ
    i = (off - 0x30) / 0x20
