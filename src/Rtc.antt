-- ===== src/Rtc.antt =====
-- emu_go/rtc.go: the real-time clock at 0xA413FEC0. The CPU's cycle count and the bus's
-- instructions per second are arguments; `ips` is the latter as `instrPerSec` returns it.
pub mod Calendar
pub mod Civil
pub mod Periodic
mod Tests
use casio_cg.Base.{
  ℕ, zero, suc, ◌+◌, ◌-◌, ◌*◌, ◌/◌, ◌%◌, ◌^◌, ◌≤◌, ◌<◌, min, max, bit_and, bit_or, bit_xor, ◌≡◌,
  refl, sym, ap, ap₂, ◌∙◌, subst, fun_ext, ◌≢◌, ◌↔◌, ◌⊎◌, inl, inr, Bool, true, false, not, ◌&&◌,
  ◌||◌, Option, none, some, List, [], ◌∷◌, ◌++◌, arith, ltb, leb, ◌==◌, ◌!=◌, if◌then◌else◌, ltb→lt,
  lt→ltb, le→ltb, ==_iff, Bool-cases, length, get_or, set, replicate, length-set, get_or-set_self,
  get_or-set_ne, and_not, bit_and_step, bit_or_step, bit_xor_step, test_bit, test_bit-lt,
  test_bit-zero, test_bit-and, test_bit-or, test_bit-xor, test_bit-and_not, test_bit_ext,
  bit_or-zero, bit_and-zero, bit_and_mask, bit_and_three, bit_or-lt, bit_and-le, u8, u16, u32, u64,
  sub32, sub64, ◌>>>◌, ◌<<<◌, b2u, RegMap, no_regs, reg, put, get_elem?, and_not_step, and_not-le,
  bit_or_fields, value,
}
use casio_cg.Intc.{
  intc_sources, find_source, intc_base, is_ipr, is_imr, read, write, priority, is_masked, enabled,
  gate, seed_os_defaults, new_intc, put_cells, state_map, load_cells, has_cell, restore_state,
  has_request, append, raise_irq, raise, drops, waits, outranks, Best, better, gate_loop,
  gate_pending, Source, Intc, GateState, Pend,
}

-- `rtc`
pub record Rtc : Type 0 where
  pub regs : RegMap
  pub rcr1 : ℕ
  pub rcr2 : ℕ
  pub epoch_sec : ℕ
  pub next_periodic : ℕ

abbrev pub rtc_base : ℕ
rtc_base = 0xA413FEC0

abbrev pub rtc_intevt : ℕ
rtc_intevt = 0xAA0

abbrev pub rtc_level : ℕ
rtc_level = 9

abbrev pub epoch_dow : ℕ
epoch_dow = 5

-- `rtc.instrPerSec`; 0 stands for a bus that sets no rate.
unfoldable pub instr_per_sec : ℕ → ℕ
instr_per_sec bus_ips = if bus_ips == 0 then 70_000_000 else bus_ips

-- `rtc.SetClock` at a time that is not before 1970.
unfoldable pub set_clock : Rtc → ℕ → ℕ → ℕ → Rtc
set_clock r cyc ips unix =
    let s = if ltb unix 1_262_304_000 then 0 else unix - 1_262_304_000 in
    record r { epoch_sec = sub64 s (cyc / ips) }

-- `bcd`
unfoldable pub bcd : ℕ → ℕ
bcd v = u32 (bit_or (u64 ((v / 10) <<< 4)) (v % 10))

-- The PES field of RCR2.
unfoldable pub pes : ℕ → ℕ
pes rcr2 = bit_and (rcr2 >>> 4) 7

-- The period in instructions of a PES value, 0 = off.
unfoldable pub period_of : ℕ → ℕ → ℕ
period_of p ips =
    if p == 1
    then ips / 256
    else (if p == 2
        then ips / 64
        else (if p == 3
            then ips / 16
            else (if p == 4
                then ips / 4
                else (if p == 5
                    then ips / 2
                    else (if p == 6 then ips else (if p == 7 then u64 (ips * 2) else 0))))))

-- `rtc.periodInstr`
abbrev pub period_instr : Rtc → ℕ → ℕ
period_instr r ips = period_of (pes r.rcr2) ips

unfoldable pub is_leap : ℕ → Bool
is_leap y = (y % 4 == 0) && ((y % 100 != 0) || (y % 400 == 0))

unfoldable pub year_length : ℕ → ℕ
year_length y = if is_leap y then 366 else 365

-- A day of a year.
pub record YearDay : Type 0 where
  pub year : ℕ
  pub day : ℕ

-- The loop over the years, from year y on. A year has more than one day, so `days + 1` rounds
-- are enough.
unfoldable pub year_loop : ℕ → ℕ → ℕ → YearDay
year_loop zero days y = record { year = y; day = days }
year_loop (suc fuel) days y =
    let rest = year_loop fuel (days - year_length y) (y + 1) in
    if ltb days (year_length y) then record { year = y; day = days } else rest

unfoldable pub month_lengths : ℕ → List ℕ
month_lengths y =
    31 ∷ (if is_leap y then 29 else 28) ∷ 31 ∷ 30 ∷ 31 ∷ 30 ∷ 31 ∷ 31 ∷ 30 ∷ 31 ∷ 30 ∷ 31 ∷ []

-- A day of a month, both from 0.
pub record MonthDay : Type 0 where
  pub month : ℕ
  pub day : ℕ

-- The loop over the months, from month m on: `n` months are left before the last.
unfoldable pub month_loop : List ℕ → ℕ → ℕ → ℕ → MonthDay
month_loop lengths zero days m = record { month = m; day = days }
month_loop lengths (suc n) days m =
    let rest = month_loop lengths n (days - get_or lengths m 0) (m + 1) in
    if leb (get_or lengths m 0) days then rest else record { month = m; day = days }

-- A date, with month and day from 1.
pub record Date : Type 0 where
  pub year : ℕ
  pub month : ℕ
  pub day : ℕ

-- The date of a day counted from 2010-01-01.
unfoldable pub date_of : ℕ → Date
date_of days =
    let yd = year_loop (suc days) days 2010 in
    let md = month_loop (month_lengths yd.year) 11 yd.day 0 in
    record { year = yd.year; month = md.month + 1; day = md.day + 1 }

-- `rtc.read`
unfoldable pub rtc_read : Rtc → ℕ → ℕ → ℕ → ℕ
rtc_read r cyc ips va =
    let off = sub32 va rtc_base in
    let sec = u64 (r.epoch_sec + cyc / ips) in
    if off == 0x00
    then bit_and (u32 (u64 ((cyc % ips) * 128) / ips)) 0x7F
    else (if off == 0x02
        then bcd (sec % 60)
        else (if off == 0x04
            then bcd (sec / 60 % 60)
            else (if off == 0x06
                then bcd (sec / 3600 % 24)
                else (if off == 0x08
                    then u32 ((sec / 86400 + epoch_dow) % 7)
                    else (if off == 0x0A
                        then bcd (date_of (sec / 86400)).day
                        else (if off == 0x0C
                            then bcd (date_of (sec / 86400)).month
                            else (if off == 0x0E
                                then (let y = (date_of (sec / 86400)).year in
                                    bit_or (u32 (bcd (y / 100) <<< 8)) (bcd (y % 100)))
                                else (if off == 0x1C
                                    then r.rcr1
                                    else (if off == 0x1E then r.rcr2 else reg r.regs off)))))))))

-- The cycle that `rtc.alignPeriodic` schedules.
unfoldable pub aligned_cycle : ℕ → ℕ → ℕ
aligned_cycle p cyc = if p == 0 then 0 else u64 ((cyc / p + 1) * p)

-- `rtc.alignPeriodic`
abbrev pub align_periodic : Rtc → ℕ → ℕ → Rtc
align_periodic r cyc ips = record r { next_periodic = aligned_cycle (period_instr r ips) cyc }

-- `rtc.write`
unfoldable pub rtc_write : Rtc → ℕ → ℕ → ℕ → ℕ → Rtc
rtc_write r cyc ips va val =
    let off = sub32 va rtc_base in
    if off == 0x1C
    then record r { rcr1 = bit_and val 0xFF }
    else (if off == 0x1E
        then (let r' : Rtc = record r { rcr2 = bit_and val 0xFF } in
            let p = pes r'.rcr2 in
            if (p != 0) && ((p != pes r.rcr2) || (r.next_periodic == 0))
            then align_periodic r' cyc ips
            else r')
        else record r { regs = put r.regs off val })

-- `rtc.tick`
unfoldable pub rtc_tick : Rtc → Intc → ℕ → ℕ → List Pend → Rtc × List Pend
rtc_tick r k cyc ips ps =
    if bit_and r.rcr2 0x70 == 0
    then (r, ps)
    else (if leb r.next_periodic cyc
        then (
          record r {
            next_periodic = u64 (r.next_periodic + period_instr r ips);
            rcr2 = bit_or r.rcr2 0x80;
          },
          raise k ps rtc_intevt rtc_level,
        )
        else (r, ps))
