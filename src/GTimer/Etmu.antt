-- ===== src/GTimer/Etmu.antt =====
-- The ETMU of emu_go/gtimer.go (`etmuCounter`): six channels at 0xA44D0000. The cycle count of
-- the CPU is the argument cyc.
pub mod Synced
pub mod ReadBack
use casio_cg.Base.{
  ℕ, zero, suc, ◌+◌, ◌-◌, ◌*◌, ◌/◌, ◌%◌, ◌^◌, ◌≤◌, ◌<◌, min, max, bit_and, bit_or, bit_xor, ◌≡◌,
  refl, sym, ap, ap₂, ◌∙◌, subst, fun_ext, ◌≢◌, ◌↔◌, ◌⊎◌, inl, inr, Bool, true, false, not, ◌&&◌,
  ◌||◌, Option, none, some, List, [], ◌∷◌, ◌++◌, arith, ltb, leb, ◌==◌, ◌!=◌, if◌then◌else◌, ltb→lt,
  lt→ltb, le→ltb, ==_iff, Bool-cases, length, get_or, set, replicate, length-set, get_or-set_self,
  get_or-set_ne, and_not, bit_and_step, bit_or_step, bit_xor_step, test_bit, test_bit-lt,
  test_bit-zero, test_bit-and, test_bit-or, test_bit-xor, test_bit-and_not, test_bit_ext,
  bit_or-zero, bit_and-zero, bit_and_mask, bit_and_three, bit_or-lt, bit_and-le, u8, u16, u32, u64,
  sub32, sub64, ◌>>>◌, ◌<<<◌, b2u, RegMap, no_regs, reg, put, get_elem?, and_not_step, and_not-le,
  bit_or_fields, value,
}
use casio_cg.Intc.{
  intc_sources, find_source, intc_base, is_ipr, is_imr, read, write, priority, is_masked, enabled,
  gate, seed_os_defaults, new_intc, put_cells, state_map, load_cells, has_cell, restore_state,
  has_request, append, raise_irq, raise, drops, waits, outranks, Best, better, gate_loop,
  gate_pending, Source, Intc, GateState, Pend,
}
use casio_cg.GTimer.{
  cur, underflow_at, restart, set_running, catch_up, service_period, service, max_uint64, next,
  write_tcr, write_tcnt, write_tcor, timer_key, chan_key, save_chan, save_chans, revive,
  restore_chan, restore_chans, drop_chan_keys, TimerChan,
}

pub record Etmu : Type 0 where
  pub regs : RegMap
  pub count_div : ℕ
  pub ch : List TimerChan

abbrev pub etmu_base : ℕ
etmu_base = 0xA44D0000

abbrev pub etmu_intevt : List ℕ
etmu_intevt = 0x9e0 ∷ 0xc20 ∷ 0xc40 ∷ 0x900 ∷ 0xd00 ∷ 0xfa0 ∷ []

abbrev pub etmu_unf : ℕ
etmu_unf = 0x2

abbrev pub etmu_unie : ℕ
etmu_unie = 0x1

-- A channel as Go makes it.
abbrev pub blank : TimerChan
blank = record {
  tcor = 0;
  tcnt = 0;
  tcr = 0;
  running = false;
  start_cyc = 0;
  start_cnt = 0;
  next_unf = 0;
  owned = false;
}

abbrev pub chan : List TimerChan → ℕ → TimerChan
chan cs i = get_or cs i blank

-- `etmuCounter.div`
unfoldable pub etmu_div : Etmu → ℕ
etmu_div e = if e.count_div == 0 then 4 else e.count_div

-- `etmuCounter.legacy`
unfoldable pub legacy : Etmu → ℕ → ℕ
legacy e cyc =
    if e.count_div == 0
    then bit_and (u32 (sub64 0 (cyc >>> 2))) 0xFFFFFF
    else u32 (sub64 0 (cyc / e.count_div))

unfoldable pub etmu_off : ℕ → ℕ
etmu_off va = bit_and (sub32 va etmu_base) 0xFFFF

-- A register of channel c, by its offset in the channel.
unfoldable pub read_chan : TimerChan → ℕ → ℕ → ℕ → Option ℕ
read_chan c cyc div field =
    if field == 0
    then some (if c.running then 1 else 0)
    else (if field == 4
        then some c.tcor
        else (if field == 8
            then some (cur c cyc div)
            else (if field == 0xC then some c.tcr else none)))

-- `etmuCounter.read`
unfoldable pub etmu_read : Etmu → ℕ → ℕ → ℕ
etmu_read e cyc va =
    let off = etmu_off va in
    let div = etmu_div e in
    if ((off == 0xD8) || (off == 0xC8)) && not (chan e.ch 5).owned
    then legacy e cyc
    else (if off == 0xC8
        then cur (chan e.ch 5) cyc div
        else (if leb 0x30 off && ltb off 0xF0
            then (elim (read_chan (chan e.ch ((off - 0x30) / 0x20)) cyc div ((off - 0x30) % 0x20)) [
              | some v ↦ v
              | none ↦ reg e.regs off
            ])
            else reg e.regs off))

-- A write to a register of channel c, by its offset in the channel.
unfoldable pub write_chan : TimerChan → ℕ → ℕ → ℕ → ℕ → TimerChan
write_chan c cyc div field val =
    let c' : TimerChan = record c { owned = true } in
    if field == 0
    then set_running c' (bit_and val 1 != 0) cyc div
    else (if field == 4
        then write_tcor c' cyc div val
        else (if field == 8
            then write_tcnt c' cyc div val
            else (if field == 0xC then write_tcr c' (bit_and val 0xFF) etmu_unf else c)))

-- `etmuCounter.write`
unfoldable pub etmu_write : Etmu → ℕ → ℕ → ℕ → Etmu
etmu_write e cyc va val =
    let off = etmu_off va in
    let e' : Etmu = record e { regs = put e.regs off val } in
    if ltb off 0x30 || leb 0xF0 off
    then e'
    else (let i = (off - 0x30) / 0x20 in
        let c = write_chan (chan e.ch i) cyc (etmu_div e) ((off - 0x30) % 0x20) val in
        record e' { ch = set e.ch i c })

-- The loop of `etmuCounter.tick` from channel i on: each due channel that has its interrupt
-- enabled requests one.
unfoldable pub tick_chans :
    Intc
    → ℕ
    → (TimerChan → ℕ)
    → ℕ
    → ℕ
    → List ℕ
    → List TimerChan
    → List Pend
    → List TimerChan × List Pend
tick_chans k cyc div unf unie events [] ps = ([], ps)
tick_chans k cyc div unf unie [] (c ∷ cs) ps = (c ∷ cs, ps)
tick_chans k cyc div unf unie (ev ∷ events) (c ∷ cs) ps =
    let (due, c') = service c cyc (div c) unf in
    let ps' = if due && (bit_and c'.tcr unie != 0) then raise k ps ev 0 else ps in
    let (cs', ps'') = tick_chans k cyc div unf unie events cs ps' in (c' ∷ cs', ps'')

-- `etmuCounter.tick`
unfoldable pub etmu_tick : Etmu → Intc → ℕ → List Pend → Etmu × List Pend
etmu_tick e k cyc ps =
    let (cs, ps') = tick_chans k cyc (λ c. etmu_div e) etmu_unf etmu_unie etmu_intevt e.ch ps in
    (record e { ch = cs }, ps')

-- `etmuCounter.next` and `tmu.next`: the earliest underflow.
unfoldable pub next_of : List TimerChan → ℕ
next_of [] = max_uint64
next_of (c ∷ cs) = min (next c) (next_of cs)
