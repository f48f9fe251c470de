-- ===== src/GTimer/Tmu/Synced.antt =====
-- Every channel of the TMU stays in step with the hardware counter under all register writes and
-- ticks, also when its prescaler changes.
use casio_cg.GTimer.Count.{IsWords}
use casio_cg.GTimer.Service.{
  IsSynced, restart-IsSynced, Step-IsSynced, Step, start_stop, set_tcor, set_tcnt,
}
use native.Mathlib.Nat.{div-le_self}
use casio_cg.Intc.{Intc, Pend}
use casio_cg.GTimer.Etmu.Synced.{AllSynced, AllSynced-set, AllSynced-chan, tick_chans-AllSynced}
use casio_cg.GTimer.Etmu.{chan}
use casio_cg.Base.{
  ℕ, ◌+◌, ◌-◌, ◌*◌, ◌/◌, ◌%◌, ◌^◌, ◌≤◌, ◌<◌, bit_and, bit_or, ◌≡◌, refl, sym, ap, ◌∙◌, subst,
  fun_ext, inl, inr, Bool, true, false, ◌&&◌, ◌||◌, List, [], ◌∷◌, arith, ltb, leb, ◌==◌, ◌!=◌,
  if◌then◌else◌, Bool-cases, bit_or_step, bit_and_mask, sub32, ◌<<<◌,
}
use casio_cg.GTimer.{restart, set_running, service, write_tcr, write_tcnt, write_tcor, TimerChan}
use casio_cg.GTimer.Tmu.{
  tmu_base, tmu_pphi, tmu_intevt, tmu_unf, tmu_unie, tmu_div, chan_div, start_chans, tmu_write_chan,
  tmu_write, tmu_tick, Tmu,
}

pub chan_div_pos : (t : Tmu) (c : TimerChan) → 0 < chan_div t c
unfolding chan_div tmu_div
chan_div_pos t c = ground arith

-- The divisor depends on the prescaler bits alone.
pub tmu_div_tpsc : (ips a b : ℕ) → bit_and a 7 ≡ bit_and b 7 → tmu_div ips a ≡ tmu_div ips b
unfolding tmu_div
tmu_div_tpsc ips a b e = rw e

bit_or_unf : (a : ℕ) → bit_and (bit_or a tmu_unf) 7 ≡ bit_and a 7
bit_or_unf a =
    bit_and_mask 3 (bit_or a tmu_unf)
    ∙ omega (arith, bit_or_step a 0x100, bit_or_step (a / 2) 0x80, bit_or_step (a / 2 / 2) 0x40)
    ∙ sym (bit_and_mask 3 a)

-- Setting the underflow flag leaves the divisor alone.
service_same_div :
    (t : Tmu) (cyc : ℕ) (c : TimerChan) (d : ℕ)
    → chan_div t (service c cyc d tmu_unf).1 ≡ chan_div t c
unfolding chan_div service
service_same_div t cyc c d =
    ground (arith, tmu_div_tpsc t.instr_per_sec (bit_or c.tcr tmu_unf) c.tcr (bit_or_unf c.tcr))

pub write_tcor_same_div :
    (t : Tmu) (c : TimerChan) (cyc d v : ℕ) → chan_div t (write_tcor c cyc d v) ≡ chan_div t c
unfolding chan_div write_tcor restart
write_tcor_same_div t c cyc d v = ground arith

pub write_tcnt_same_div :
    (t : Tmu) (c : TimerChan) (cyc d v : ℕ) → chan_div t (write_tcnt c cyc d v) ≡ chan_div t c
unfolding chan_div write_tcnt
write_tcnt_same_div t c cyc d v = ground arith

set_running_same_div :
    (t : Tmu) (c : TimerChan) (on : Bool) (cyc d : ℕ)
    → chan_div t (set_running c on cyc d) ≡ chan_div t c
unfolding chan_div set_running
set_running_same_div t c on cyc d = ground arith

pub restart_same_div :
    (t : Tmu) (c : TimerChan) (cyc d : ℕ) → chan_div t (restart c cyc d) ≡ chan_div t c
unfolding chan_div restart
restart_same_div t c cyc d = refl

module _ (t : Tmu) (cyc : ℕ) (fits : (d : TimerChan) → cyc + 2 ^ 32 * chan_div t d < 2 ^ 64) where
  -- A running channel whose prescaler has changed since `old` is restarted, and is in step again.
  retune-IsSynced :
      (c : TimerChan) (old : ℕ)
      → IsWords c
      → IsSynced c (tmu_div t.instr_per_sec old)
      → let d =
          if c.running && (bit_and c.tcr 7 != bit_and old 7)
          then restart c cyc (chan_div t c)
          else c in
        IsWords d × IsSynced d (chan_div t d)
  retune-IsSynced c old w s = elim (Bool-cases (c.running && (bit_and c.tcr 7 != bit_and old 7))) [
    | inl new ↦
        rw (new, restart_same_div)
          (restart-IsSynced cyc (chan_div t c) (chan_div_pos t c) (fits c) c w)
    | inr same ↦ rw same (w, still same)
  ]
    where
      still : (c.running && (bit_and c.tcr 7 != bit_and old 7)) ≡ false → IsSynced c (chan_div t c)
      still e = elim (Bool-cases c.running) [
        | inr off ↦ inl off
        | inl on ↦
            let div : tmu_div t.instr_per_sec c.tcr ≡ tmu_div t.instr_per_sec old =
              tmu_div_tpsc t.instr_per_sec c.tcr old (ground arith) in
            unfold chan_div in subst (IsSynced c) (sym div) s
      ]

  tmu_write_chan-IsSynced :
      (c : TimerChan) (field v : ℕ)
      → v < 2 ^ 32
      → IsWords c
      → IsSynced c (chan_div t c)
      → let d = tmu_write_chan c cyc (chan_div t) field v in IsWords d × IsSynced d (chan_div t d)
  unfolding tmu_write_chan
  tmu_write_chan-IsSynced c field v hv w s = elim (Bool-cases (field == 0)) [
    | inl a ↦ rw (a, write_tcor_same_div) (step _ (set_tcor c' v hv))
    | inr a ↦ elim (Bool-cases (field == 4)) [
      | inl b ↦ rw (a, b, write_tcnt_same_div) (step _ (set_tcnt c' v hv))
      | inr b ↦ elim (Bool-cases (field == 8)) [
        | inl d ↦
            rw (a, b, d)
              (unfold chan_div write_tcr in
                retune-IsSynced (write_tcr c' (bit_and v 0xFFFF) tmu_unf) c.tcr (omega arith) s)
        | inr d ↦ rw (a, b, d) (w', s')
      ]
    ]
  ]
    where
      c' : TimerChan
      c' = record c { owned = true }

      w' : IsWords c'
      w' = omega arith

      s' : IsSynced c' (chan_div t c')
      s' = unfold chan_div in s

      step :
          (d : TimerChan) → Step cyc (chan_div t c') c' d → IsWords d × IsSynced d (chan_div t c')
      step d st = Step-IsSynced (chan_div_pos t c') (fits c') st (w', s')

chan_div_lt : (t : Tmu) (c : TimerChan) → t.instr_per_sec < 2 ^ 30 → chan_div t c < 2 ^ 30
unfolding chan_div tmu_div
chan_div_lt t c h =
    let rate = (tmu_pphi / 4) / 2 ^ (2 * bit_and c.tcr 7) in
    let rate' = if rate == 0 then 1 else rate in
    let ips = if t.instr_per_sec == 0 then 70_000_000 else t.instr_per_sec in
    let less : ips / rate' ≤ ips = div-le_self ips rate' in ground (arith, less)

start_chans-AllSynced :
    (t : Tmu) (v cyc i : ℕ) (cs : List TimerChan)
    → ((d : TimerChan) → cyc + 2 ^ 32 * chan_div t d < 2 ^ 64)
    → AllSynced (chan_div t) cs
    → AllSynced (chan_div t) (start_chans v cyc (chan_div t) i cs)
unfolding start_chans
start_chans-AllSynced t v cyc i [] fits s = tt
start_chans-AllSynced t v cyc i (c ∷ cs) fits s =
    let on : Bool = bit_and v (1 <<< i) != 0 in
    let (w, h) = Step-IsSynced (chan_div_pos t c) (fits c) (start_stop c on) (s.0, s.1) in
    (w, rw set_running_same_div h, start_chans-AllSynced t v cyc (i + 1) cs fits s.2)

tmu_write-AllSynced :
    (t : Tmu) (cyc va v : ℕ)
    → ((d : TimerChan) → cyc + 2 ^ 32 * chan_div t d < 2 ^ 64)
    → v < 2 ^ 32
    → AllSynced (chan_div t) t.ch
    → AllSynced (chan_div t) (tmu_write t cyc va v).ch
unfolding tmu_write
tmu_write-AllSynced t cyc va v fits hv s = elim (Bool-cases (off == 0x04)) [
  | inl start ↦ rw start (start_chans-AllSynced t v cyc 0 t.ch fits s)
  | inr other ↦ elim (Bool-cases (ltb off 0x08 || leb (0x08 + 3 * 0xC) off)) [
    | inl out ↦ rw (other, out) s
    | inr inside ↦
        let old = AllSynced-chan (chan_div t) t.ch i s in
        let new =
          tmu_write_chan-IsSynced t cyc fits (chan t.ch i) ((off - 0x08) % 0xC) v hv old.0 old.1 in
        rw (other, inside) (AllSynced-set (chan_div t) t.ch i _ s new.0 new.1)
  ]
]
  where
    off : ℕ
    off = sub32 va tmu_base

    i : ℕ
    i = (off - 0x08) / 0xC

-- A register write to the TMU, at any address, and a tick of it both leave every channel with
-- 32-bit registers and, while it runs, set to underflow at a cycle at which it reloads under its
-- prescaler after the change.
tmu-AllSynced :
    (t : Tmu) (k : Intc) (cyc va v : ℕ) (ps : List Pend)
    → cyc < 2 ^ 63
    → t.instr_per_sec < 2 ^ 30
    → v < 2 ^ 32
    → AllSynced (chan_div t) t.ch
    → AllSynced (chan_div (tmu_write t cyc va v)) (tmu_write t cyc va v).ch
      × AllSynced (chan_div t) (tmu_tick t k cyc ps).0.ch
unfolding tmu_tick
tmu-AllSynced t k cyc va v ps hc hi hv s =
    let fits = λ (d : TimerChan). small d in
    (
      subst (λ d. AllSynced d (tmu_write t cyc va v).ch) same_div
          (tmu_write-AllSynced t cyc va v fits hv s),
      tick_chans-AllSynced k cyc (chan_div t) tmu_unf tmu_unie tmu_intevt t.ch ps (chan_div_pos t)
          fits (service_same_div t cyc) s,
    )
  where
    small : (d : TimerChan) → cyc + 2 ^ 32 * chan_div t d < 2 ^ 64
    small d = omega (arith, chan_div_lt t d hi)

    same_div : chan_div t ≡ chan_div (tmu_write t cyc va v)
    same_div = unfold chan_div tmu_write in fun_ext λ c. ap (λ x. tmu_div x c.tcr) (ground arith)
