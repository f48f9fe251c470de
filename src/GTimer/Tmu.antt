-- ===== src/GTimer/Tmu.antt =====
-- The TMU of emu_go/gtimer.go: three channels at 0xA4490000 with a prescaler each.
pub mod Synced
pub mod Writes
use casio_cg.Base.{
  ℕ, zero, suc, ◌+◌, ◌-◌, ◌*◌, ◌/◌, ◌%◌, ◌^◌, ◌≤◌, ◌<◌, min, max, bit_and, bit_or, bit_xor, ◌≡◌,
  refl, sym, ap, ap₂, ◌∙◌, subst, fun_ext, ◌≢◌, ◌↔◌, ◌⊎◌, inl, inr, Bool, true, false, not, ◌&&◌,
  ◌||◌, Option, none, some, List, [], ◌∷◌, ◌++◌, arith, ltb, leb, ◌==◌, ◌!=◌, if◌then◌else◌, ltb→lt,
  lt→ltb, le→ltb, ==_iff, Bool-cases, length, get_or, set, replicate, length-set, get_or-set_self,
  get_or-set_ne, and_not, bit_and_step, bit_or_step, bit_xor_step, test_bit, test_bit-lt,
  test_bit-zero, test_bit-and, test_bit-or, test_bit-xor, test_bit-and_not, test_bit_ext,
  bit_or-zero, bit_and-zero, bit_and_mask, bit_and_three, bit_or-lt, bit_and-le, u8, u16, u32, u64,
  sub32, sub64, ◌>>>◌, ◌<<<◌, b2u, RegMap, no_regs, reg, put, get_elem?, and_not_step, and_not-le,
  bit_or_fields, value,
}
use casio_cg.Intc.{
  intc_sources, find_source, intc_base, is_ipr, is_imr, read, write, priority, is_masked, enabled,
  gate, seed_os_defaults, new_intc, put_cells, state_map, load_cells, has_cell, restore_state,
  has_request, append, raise_irq, raise, drops, waits, outranks, Best, better, gate_loop,
  gate_pending, Source, Intc, GateState, Pend,
}
use casio_cg.GTimer.{
  cur, underflow_at, restart, set_running, catch_up, service_period, service, max_uint64, next,
  write_tcr, write_tcnt, write_tcor, timer_key, chan_key, save_chan, save_chans, revive,
  restore_chan, restore_chans, drop_chan_keys, TimerChan,
}
use casio_cg.GTimer.Etmu.{
  etmu_base, etmu_intevt, etmu_unf, etmu_unie, blank, chan, etmu_div, legacy, etmu_off, read_chan,
  etmu_read, write_chan, etmu_write, tick_chans, etmu_tick, next_of, Etmu,
}

-- `instr_per_sec` is the bus's setting; 0 means that none is made.
pub record Tmu : Type 0 where
  pub regs : RegMap
  pub instr_per_sec : ℕ
  pub ch : List TimerChan

abbrev pub tmu_base : ℕ
tmu_base = 0xA4490000

abbrev pub tmu_pphi : ℕ
tmu_pphi = 29_491_200

abbrev pub tmu_intevt : List ℕ
tmu_intevt = 0x400 ∷ 0x420 ∷ 0x440 ∷ []

abbrev pub tmu_unf : ℕ
tmu_unf = 0x100

abbrev pub tmu_unie : ℕ
tmu_unie = 0x20

-- `tmu.div` of the channel with this TCR.
unfoldable pub tmu_div : ℕ → ℕ → ℕ
tmu_div instr_per_sec tcr =
    let rate = (tmu_pphi / 4) / 2 ^ (2 * bit_and tcr 7) in
    let rate' = if rate == 0 then 1 else rate in
    let ips = if instr_per_sec == 0 then 70_000_000 else instr_per_sec in
    let d = ips / rate' in if d == 0 then 1 else d

unfoldable pub chan_div : Tmu → TimerChan → ℕ
chan_div t c = tmu_div t.instr_per_sec c.tcr

-- The start bits, read back: bit i is 1 while channel i runs.
unfoldable pub start_bits : List TimerChan → ℕ → ℕ → ℕ
start_bits [] i v = v
start_bits (c ∷ cs) i v = start_bits cs (i + 1) (if c.running then bit_or v (1 <<< i) else v)

-- `tmu.read`
unfoldable pub tmu_read : Tmu → ℕ → ℕ → ℕ
tmu_read t cyc va =
    let off = sub32 va tmu_base in
    if off == 0x04
    then start_bits t.ch 0 0
    else (if leb 0x08 off && ltb off (0x08 + 3 * 0xC)
        then (let c = chan t.ch ((off - 0x08) / 0xC) in
            let field = (off - 0x08) % 0xC in
            if field == 0
            then c.tcor
            else (if field == 4
                then cur c cyc (chan_div t c)
                else (if field == 8 then c.tcr else reg t.regs off)))
        else reg t.regs off)

-- A write of TSTR, from channel i on.
unfoldable pub start_chans : ℕ → ℕ → (TimerChan → ℕ) → ℕ → List TimerChan → List TimerChan
start_chans val cyc div i [] = []
start_chans val cyc div i (c ∷ cs) =
    set_running c (bit_and val (1 <<< i) != 0) cyc (div c) ∷ start_chans val cyc div (i + 1) cs

-- A write to a register of channel c, by its offset in the channel. A new prescaler restarts a
-- running channel from its count.
unfoldable pub tmu_write_chan : TimerChan → ℕ → (TimerChan → ℕ) → ℕ → ℕ → TimerChan
tmu_write_chan c cyc div field val =
    let c' : TimerChan = record c { owned = true } in
    if field == 0
    then write_tcor c' cyc (div c') val
    else (if field == 4
        then write_tcnt c' cyc (div c') val
        else (if field == 8
            then (let d = write_tcr c' (bit_and val 0xFFFF) tmu_unf in
                if d.running && (bit_and d.tcr 7 != bit_and c.tcr 7)
                then restart d cyc (div d)
                else d)
            else c'))

-- `tmu.write`
unfoldable pub tmu_write : Tmu → ℕ → ℕ → ℕ → Tmu
tmu_write t cyc va val =
    let off = sub32 va tmu_base in
    let t' : Tmu = record t { regs = put t.regs off val } in
    if off == 0x04
    then record t' { ch = start_chans val cyc (chan_div t) 0 t.ch }
    else (if ltb off 0x08 || leb (0x08 + 3 * 0xC) off
        then t'
        else (let i = (off - 0x08) / 0xC in
            let c = tmu_write_chan (chan t.ch i) cyc (chan_div t) ((off - 0x08) % 0xC) val in
            record t' { ch = set t.ch i c }))

-- `tmu.tick`
unfoldable pub tmu_tick : Tmu → Intc → ℕ → List Pend → Tmu × List Pend
tmu_tick t k cyc ps =
    let (cs, ps') = tick_chans k cyc (chan_div t) tmu_unf tmu_unie tmu_intevt t.ch ps in
    (record t { ch = cs }, ps')
