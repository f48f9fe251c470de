-- ===== src/Adc.antt =====
-- emu_go/mmio.go, the battery converter `periphIRQ`: its registers, the two ways to start a
-- conversion, `adcTick`, and its part of the save state (`regionRegs`, `restoreRegionRegs`). The
-- cycle counts of the CPU and the host's speed are arguments.
pub mod Convert
pub mod Saved
mod Tests
use casio_cg.Base.{
  ℕ, zero, suc, ◌+◌, ◌-◌, ◌*◌, ◌/◌, ◌%◌, ◌^◌, ◌≤◌, ◌<◌, min, max, bit_and, bit_or, bit_xor, ◌≡◌,
  refl, sym, ap, ap₂, ◌∙◌, subst, fun_ext, ◌≢◌, ◌↔◌, ◌⊎◌, inl, inr, Bool, true, false, not, ◌&&◌,
  ◌||◌, Option, none, some, List, [], ◌∷◌, ◌++◌, arith, ltb, leb, ◌==◌, ◌!=◌, if◌then◌else◌, ltb→lt,
  lt→ltb, le→ltb, ==_iff, Bool-cases, length, get_or, set, replicate, length-set, get_or-set_self,
  get_or-set_ne, and_not, bit_and_step, bit_or_step, bit_xor_step, test_bit, test_bit-lt,
  test_bit-zero, test_bit-and, test_bit-or, test_bit-xor, test_bit-and_not, test_bit_ext,
  bit_or-zero, bit_and-zero, bit_and_mask, bit_and_three, bit_or-lt, bit_and-le, u8, u16, u32, u64,
  sub32, sub64, ◌>>>◌, ◌<<<◌, b2u, RegMap, no_regs, reg, put, get_elem?, and_not_step, and_not-le,
  bit_or_fields, value, and_not_parts, and_not_mask, page_address, word_page, same_page,
  bit_xor_self, bit_xor-lt, true≢false, and_and, eq_of_bit_xor, test_bit_lem, and_bit, and_not_and,
  bit_or_comm, test_bit-pow_self, test_bit-pow_ne, word_above, bit_or_null,
}
use casio_cg.Intc.{
  intc_sources, find_source, intc_base, is_ipr, is_imr, read, write, priority, is_masked, enabled,
  gate, seed_os_defaults, new_intc, put_cells, state_map, load_cells, has_cell, restore_state,
  has_request, append, raise_irq, raise, drops, waits, outranks, Best, better, gate_loop,
  gate_pending, Source, Intc, GateState, Pend,
}

abbrev pub adc_base : ℕ
adc_base = 0xA4610000

abbrev pub timer_intevt : ℕ
timer_intevt = 0x560

abbrev pub timer_level : ℕ
timer_level = 8

abbrev pub adc_sleep_div : ℕ
adc_sleep_div = 64

abbrev pub adc_soft_div : ℕ
adc_soft_div = 10000

abbrev pub adc_battery_raw : ℕ
adc_battery_raw = 0x7140

-- `periphIRQ`
pub record Adc : Type 0 where
  pub regs : RegMap
  pub adc_mode : Bool
  pub armed : Bool
  pub done_at : ℕ
  pub sw_armed : Bool
  pub sw_done_at : ℕ

-- The word of the end flags, at each of its four bytes.
abbrev pub flag_off : ℕ → ℕ
flag_off off = if leb 0x88 off && ltb off 0x8C then 0x88 else off

-- `periphIRQ.read`
unfoldable pub adc_read : Adc → ℕ → ℕ
adc_read p va =
    let off = sub32 va adc_base in
    if off == 0x82 || off == 0x84 then adc_battery_raw else reg p.regs (flag_off off)

-- `periphIRQ.write`: a start by software, the register, and a start by the idle routine.
abbrev pub soft_start : Adc → ℕ → ℕ → Adc
soft_start p cycles ips = record p {
  adc_mode = true;
  sw_armed = true;
  sw_done_at = u64 (cycles + ips / adc_soft_div);
}

abbrev pub idle_start : Adc → ℕ → ℕ → ℕ → Adc
idle_start p idle ips val =
    let on = bit_and val 0x8000 != 0 in
    if on
    then record p { armed = true; adc_mode = true; done_at = u64 (idle + ips / adc_sleep_div) }
    else record p { armed = false }

unfoldable pub adc_write : Adc → ℕ → ℕ → ℕ → ℕ → ℕ → Adc
adc_write p cycles idle ips va val =
    let off = sub32 va adc_base in
    let starts = off == 0x88 && bit_and val 0x2000 != 0 in
    let p' = if starts then soft_start p cycles ips else p in
    let val' = if starts then and_not val 0x2000 else val in
    let q = record p' { regs = put p'.regs (flag_off off) val' } in
    if flag_off off == 0x8C then idle_start q idle ips val' else q

-- `setTimerFlag`
abbrev pub set_timer_flag : Adc → Adc
set_timer_flag p = record p { regs = put p.regs 0x88 (bit_or (reg p.regs 0x88) 0xC000) }

-- `adcTick`, the two conversions in their order.
unfoldable pub soft_tick : Adc → Intc → ℕ → List Pend → Adc × List Pend
soft_tick p k cycles ps =
    if p.sw_armed && leb p.sw_done_at cycles
    then (set_timer_flag (record p { sw_armed = false }), raise k ps timer_intevt timer_level)
    else (p, ps)

abbrev pub clear_start : Adc → Adc
clear_start p = record p {
  armed = false;
  regs = put p.regs 0x8C (and_not (reg p.regs 0x8C) 0x8000);
}

unfoldable pub idle_tick : Adc → Intc → ℕ → List Pend → Adc × List Pend
idle_tick p k idle ps =
    if p.armed && leb p.done_at idle
    then (set_timer_flag (clear_start p), raise k ps timer_intevt timer_level)
    else (p, ps)

unfoldable pub adc_tick : Adc → Intc → ℕ → ℕ → List Pend → Adc × List Pend
unfolding soft_tick idle_tick
adc_tick p k cycles idle ps = let r = soft_tick p k cycles ps in idle_tick (r.0) k idle (r.1)

-- The keys of the save state.
abbrev pub adc_key_mode : ℕ
adc_key_mode = 0x10000

abbrev pub adc_key_armed : ℕ
adc_key_armed = 0x10001

abbrev pub adc_key_left : ℕ
adc_key_left = 0x10002

abbrev pub adc_key_sw : ℕ
adc_key_sw = 0x10003

abbrev pub adc_key_sw_left : ℕ
adc_key_sw_left = 0x10004

abbrev pub left : ℕ → ℕ → ℕ
left at now = u32 (at - min at now)

-- The converter's case of `regionRegs` and of `restoreRegionRegs`.
unfoldable pub save_adc : Adc → ℕ → ℕ → RegMap
save_adc p cycles idle =
    let m = if p.adc_mode then put p.regs adc_key_mode 1 else p.regs in
    let m' =
      if p.armed then put (put m adc_key_armed 1) adc_key_left (left p.done_at idle) else m in
    if p.sw_armed then put (put m' adc_key_sw 1) adc_key_sw_left (left p.sw_done_at cycles) else m'

unfoldable pub restore_adc : RegMap → ℕ → ℕ → Adc
restore_adc m cycles idle = record {
  regs = λ k. if ltb k adc_key_mode then m k else none;
  adc_mode = reg m adc_key_mode == 1;
  armed = reg m adc_key_armed == 1;
  done_at = u64 (idle + reg m adc_key_left);
  sw_armed = reg m adc_key_sw == 1;
  sw_done_at = u64 (cycles + reg m adc_key_sw_left);
}
