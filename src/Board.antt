-- ===== src/Board.antt =====
-- The devices that act by themselves: `MMIOBus.tick` of emu_go/mmio.go, and `Emulator.nextDue` of
-- emu_go/emulator.go, the cycle before which none of them has anything to do. The tapper of
-- emu_go/keysc.go and the queues of the host's keys belong to the emulator.
pub mod Due
mod Quiet
use casio_cg.Base.{
  ℕ, zero, suc, ◌+◌, ◌-◌, ◌*◌, ◌/◌, ◌%◌, ◌^◌, ◌≤◌, ◌<◌, min, max, bit_and, bit_or, bit_xor, ◌≡◌,
  refl, sym, ap, ap₂, ◌∙◌, subst, fun_ext, ◌≢◌, ◌↔◌, ◌⊎◌, inl, inr, Bool, true, false, not, ◌&&◌,
  ◌||◌, Option, none, some, List, [], ◌∷◌, ◌++◌, arith, ltb, leb, ◌==◌, ◌!=◌, if◌then◌else◌, ltb→lt,
  lt→ltb, le→ltb, ==_iff, Bool-cases, length, get_or, set, replicate, length-set, get_or-set_self,
  get_or-set_ne, and_not, bit_and_step, bit_or_step, bit_xor_step, test_bit, test_bit-lt,
  test_bit-zero, test_bit-and, test_bit-or, test_bit-xor, test_bit-and_not, test_bit_ext,
  bit_or-zero, bit_and-zero, bit_and_mask, bit_and_three, bit_or-lt, bit_and-le, u8, u16, u32, u64,
  sub32, sub64, ◌>>>◌, ◌<<<◌, b2u, RegMap, no_regs, reg, put, get_elem?, and_not_step, and_not-le,
  bit_or_fields, value, and_not_parts, and_not_mask, page_address, word_page, same_page,
  bit_xor_self, bit_xor-lt, true≢false, and_and, eq_of_bit_xor, test_bit_lem, and_bit, and_not_and,
  bit_or_comm, test_bit-pow_self, test_bit-pow_ne, word_above, bit_or_null,
}
use casio_cg.Intc.{
  intc_sources, find_source, intc_base, is_ipr, is_imr, read, write, priority, is_masked, enabled,
  gate, seed_os_defaults, new_intc, put_cells, state_map, load_cells, has_cell, restore_state,
  has_request, append, raise_irq, raise, drops, waits, outranks, Best, better, gate_loop,
  gate_pending, Source, Intc, GateState, Pend,
}
use casio_cg.Keysc.{
  keysc_base, keysc_intevt, keysc_level, keysc_flag_scan, keysc_flag_detect,
  default_key_scan_period, new_keysc, any_word, any_held, cols_of, rows_of, key_data, any_enabled,
  key_bit, press, release, release_all, resume_defaults, scan, tick, tap_hold_scans, tap_gap_scans,
  next_tap, drive, Keysc, KeyTapper,
}
use casio_cg.Rtc.{
  rtc_base, rtc_intevt, rtc_level, epoch_dow, set_clock, bcd, pes, period_of, period_instr, is_leap,
  year_length, year_loop, month_lengths, month_loop, date_of, rtc_read, aligned_cycle,
  align_periodic, rtc_write, rtc_tick, Rtc, YearDay, MonthDay, Date,
}
use casio_cg.GTimer.{
  cur, underflow_at, restart, set_running, catch_up, service_period, service, max_uint64, next,
  write_tcr, write_tcnt, write_tcor, timer_key, chan_key, save_chan, save_chans, revive,
  restore_chan, restore_chans, drop_chan_keys, TimerChan,
}
use casio_cg.GTimer.Etmu.{
  etmu_base, etmu_intevt, etmu_unf, etmu_unie, blank, chan, etmu_div, legacy, etmu_off, read_chan,
  etmu_read, write_chan, etmu_write, tick_chans, etmu_tick, next_of, Etmu,
}
use casio_cg.GTimer.Tmu.{
  tmu_base, tmu_pphi, tmu_intevt, tmu_unf, tmu_unie, tmu_div, chan_div, start_bits, tmu_read,
  start_chans, tmu_write_chan, tmu_write, tmu_tick, Tmu,
}
use casio_cg.Adc.{
  adc_base, timer_intevt, timer_level, adc_sleep_div, adc_soft_div, adc_battery_raw, flag_off,
  adc_read, soft_start, idle_start, adc_write, set_timer_flag, soft_tick, clear_start, idle_tick,
  adc_tick, adc_key_mode, adc_key_armed, adc_key_left, adc_key_sw, adc_key_sw_left, left, save_adc,
  restore_adc, Adc,
}

-- The ticking part of `MMIOBus`.
pub record Board : Type 0 where
  pub keysc : Keysc
  pub rtc : Rtc
  pub etmu : Etmu
  pub tmu : Tmu
  pub adc : Adc
  pub intc : Intc
  pub instr_per_sec : ℕ
  pub timer_period : ℕ
  pub timer_next : ℕ
  pub timer_ticks : ℕ

-- The periodic timer that stands in for the converter until the OS starts a conversion.
unfoldable pub legacy_tick : Board → ℕ → List Pend → Board × List Pend
legacy_tick b cycles ps =
    if leb b.timer_next cycles
    then (
      record b {
        timer_next = u64 (cycles + b.timer_period);
        timer_ticks = u64 (b.timer_ticks + 1);
        adc = set_timer_flag b.adc;
      },
      raise b.intc ps timer_intevt timer_level,
    )
    else (b, ps)

-- `MMIOBus.tick`, at the CPU's cycle and idle counts.
unfoldable pub bus_tick : Board → ℕ → ℕ → List Pend → Board × List Pend
bus_tick b cycles idle ps =
    let k = b.intc in
    let (keysc, ps1) = tick k cycles b.keysc ps in
    let (rtc, ps2) = rtc_tick b.rtc k cycles b.instr_per_sec ps1 in
    let (etmu, ps3) = etmu_tick b.etmu k cycles ps2 in
    let (tmu, ps4) = tmu_tick b.tmu k cycles ps3 in
    let b' = record b { keysc = keysc; rtc = rtc; etmu = etmu; tmu = tmu } in
    let (adc, ps5) = adc_tick b.adc k cycles idle ps4 in
    if b.timer_period == 0
    then (record b { keysc = keysc }, ps1)
    else (if b.adc.adc_mode then (record b' { adc = adc }, ps5) else legacy_tick b' cycles ps4)

-- `pendingRelease` and `pendingPress`
pub record Release : Type 0 where
  pub key : ℕ × ℕ
  pub at : ℕ

pub record Press : Type 0 where
  pub key : ℕ × ℕ
  pub at : ℕ
  pub up : Bool

-- The emulator's keys: the tapper, and what the host's presses and releases wait for.
pub record Keys : Type 0 where
  pub tap : KeyTapper
  pub ups : List Release
  pub downs : List Press
  pub down_at : ℕ × ℕ → Option ℕ

abbrev pub first_up : List Release → ℕ → ℕ
first_up [] d = d
first_up (p ∷ ps) d = first_up ps (min d p.at)

abbrev pub first_down : List Press → ℕ → ℕ
first_down [] d = d
first_down (p ∷ ps) d = min d p.at

abbrev pub first_tap : KeyTapper → List (ℕ × ℕ) → ℕ → ℕ
first_tap t [] d = if t.active then min d (t.release_at - 1) else d
first_tap t (q ∷ qs) d = min d (if t.active then t.release_at - 1 else t.next_at - 1)

-- `Emulator.nextDue`
unfoldable pub adc_due : Adc → ℕ → ℕ → Bool → ℕ → ℕ
adc_due p cycles idle sleeping d =
    let d' = if p.sw_armed then min d p.sw_done_at else d in
    if p.armed && sleeping then min d' (u64 (cycles + (p.done_at - min p.done_at idle))) else d'

unfoldable pub timers_due : Board → ℕ → ℕ → Bool → ℕ → ℕ
timers_due b cycles idle sleeping d =
    let d1 = if b.adc.adc_mode then adc_due b.adc cycles idle sleeping d else min d b.timer_next in
    let d2 = if bit_and b.rtc.rcr2 0x70 != 0 then min d1 b.rtc.next_periodic else d1 in
    min d2 (min (next_of b.etmu.ch) (next_of b.tmu.ch))

unfoldable pub next_due : Board → Keys → ℕ → ℕ → Bool → ℕ
next_due b q cycles idle sleeping =
    let d = b.keysc.scan_next in
    let d1 = if b.timer_period == 0 then d else timers_due b cycles idle sleeping d in
    first_tap q.tap q.tap.queue (first_down q.downs (first_up q.ups d1))

-- `Emulator.flushReleases`: the presses whose time has come, then the releases.
unfoldable pub flush_downs : ℕ → List Press → Keys → Keysc → Keys × Keysc
unfolding press
flush_downs now [] q k = (record q { downs = [] }, k)
flush_downs now (p ∷ ps) q k =
    let k' = press k (p.key.0) (p.key.1) in
    let later = u64 (now + tap_hold_scans * k.scan_period) in
    let q' : Keys =
      if p.up
      then record q { ups = q.ups ++ (record { key = p.key; at = later } ∷ []) }
      else record q {
        down_at = λ key. if key.0 == p.key.0 && key.1 == p.key.1 then some now else q.down_at key;
      } in
    let rest = flush_downs now ps q' k' in
    if leb p.at now then rest else (record q { downs = p ∷ ps }, k)

unfoldable pub flush_ups : ℕ → List Release → Keysc → List Release × Keysc
unfolding release
flush_ups now [] k = ([], k)
flush_ups now (p ∷ ps) k =
    let released = flush_ups now ps (release k (p.key.0) (p.key.1)) in
    let kept = flush_ups now ps k in if leb p.at now then released else (p ∷ kept.0, kept.1)

unfoldable pub flush_releases : Keys → Keysc → ℕ → Keys × Keysc
unfolding flush_downs flush_ups
flush_releases q k now =
    let (q', k') = flush_downs now q.downs q k in
    let (ups, k'') = flush_ups now q'.ups k' in (record q' { ups = ups }, k'')
