-- ===== src/Rtc/Civil.antt =====
-- The calendar written another way: the day number of a date by the Gregorian formula, without a
-- table of months and without a test for leap years, and what a program that decodes the clock's
-- BCD registers by it sees.
use casio_cg.Base.{
  ℕ, zero, suc, sym, ◌+◌, ◌-◌, ◌*◌, ◌/◌, ◌%◌, ◌^◌, ◌<◌, bit_or, ◌≡◌, ap, ◌∙◌, inl, inr, arith, ltb,
  Bool-cases, u32, u64, ◌<<<◌, bit_or_fields, refl, if◌then◌else◌,
}
use casio_cg.Rtc.{rtc_base, bcd, is_leap, year_length, month_lengths, date_of, rtc_read, Rtc, Date}
use casio_cg.Rtc.Calendar.{
  days_of_years, span, day_number, IsDate, date_of_lem, from_bcd, bcd_lem, month_length_le,
}

-- The leap days of the years up to y: one in four years, none in a hundred, one in four hundred.
leap_days : ℕ → ℕ
leap_days y = y / 4 + y / 400 - y / 100

-- The days from 2010-01-01 to a date. Years start in March, so that the leap day is the last day
-- of its year and the months before each one have (153 m + 2) / 5 days.
pub civil_days : Date → ℕ
unfolding leap_days
civil_days d =
    let y = if ltb d.month 3 then d.year - 1 else d.year in
    365 * y + leap_days y + (153 * ((d.month + 9) % 12) + 2) / 5 + (d.day - 1) - 734078

leap_days-suc : (y : ℕ) → leap_days (y + 1) + 365 ≡ leap_days y + year_length (y + 1)
unfolding leap_days year_length is_leap
leap_days-suc y = ground arith

days_of_years_lem : (n y : ℕ) → days_of_years (y + 1) n + leap_days y ≡ 365 * n + leap_days (y + n)
unfolding days_of_years
days_of_years_lem zero y =
    let e : leap_days (y + 0) ≡ leap_days y = ap leap_days (omega arith) in omega (arith, e)
days_of_years_lem (suc n) y =
    let e : leap_days (y + 1 + n) ≡ leap_days (y + suc n) = ap leap_days (omega arith) in
    omega (arith, days_of_years_lem n (y + 1), leap_days-suc y, e)

-- The days before the month m + 1, in the first two months and in the others.
early_months :
    (y m : ℕ) → m < 2 → span (month_lengths y) 0 m + 306 ≡ (153 * ((m + 10) % 12) + 2) / 5
unfolding span month_lengths
early_months y zero h = refl
early_months y (suc zero) h = refl
early_months y (suc (suc m)) h = absurd (omega arith)

late_months :
    (y m : ℕ)
    → m < 10
    → span (month_lengths y) 0 (2 + m) + 306 ≡ year_length y + (153 * ((m + 12) % 12) + 2) / 5
unfolding span month_lengths year_length
late_months y zero h = ground arith
late_months y (suc zero) h = ground arith
late_months y (suc (suc zero)) h = ground arith
late_months y (suc (suc (suc zero))) h = ground arith
late_months y (suc (suc (suc (suc zero)))) h = ground arith
late_months y (suc (suc (suc (suc (suc zero))))) h = ground arith
late_months y (suc (suc (suc (suc (suc (suc zero)))))) h = ground arith
late_months y (suc (suc (suc (suc (suc (suc (suc zero))))))) h = ground arith
late_months y (suc (suc (suc (suc (suc (suc (suc (suc zero)))))))) h = ground arith
late_months y (suc (suc (suc (suc (suc (suc (suc (suc (suc zero))))))))) h = ground arith
late_months y (suc (suc (suc (suc (suc (suc (suc (suc (suc (suc m)))))))))) h = absurd (omega arith)

-- The table of months and the test for leap years count as the formula does.
day_number-civil_days : (d : Date) → IsDate d → day_number d ≡ civil_days d
unfolding day_number civil_days
day_number-civil_days d w =
    let n : ℕ = d.year - 2010 in
    let from : days_of_years 2010 n + leap_days 2009 ≡ 365 * n + leap_days (2009 + n) =
      days_of_years_lem n 2009 in
    let start : leap_days 2009 ≡ 487 = unfold leap_days in refl in
    let before : leap_days (2009 + n) ≡ leap_days (d.year - 1) =
      ap leap_days (omega (arith, w.in_era)) in
    let now : leap_days (d.year - 1 + 1) ≡ leap_days d.year =
      ap leap_days (omega (arith, w.in_era)) in
    let long : year_length (d.year - 1 + 1) ≡ year_length d.year =
      ap year_length (omega (arith, w.in_era)) in
    let this = leap_days-suc (d.year - 1) in
    elim (Bool-cases (ltb d.month 3)) [
      | inl early ↦
          let m = early_months d.year (d.month - 1) (ground (arith, w.month_pos)) in
          rw early (omega (arith, w.in_era, w.month_pos, w.day_pos))
      | inr late ↦
          let two : 2 + (d.month - 3) ≡ d.month - 1 = ground arith in
          let m = late_months d.year (d.month - 3) (omega (arith, w.month_le)) in
          let same = ap (span (month_lengths d.year) 0) two in
          rw late (omega (arith, w.in_era, w.month_pos, w.day_pos, this, now, long, m, same))
    ]

-- What a program makes of the clock's registers: the seconds since 2010-01-01, from the BCD
-- second, minute, hour, day, month and year that `read` gives.
pub decode_clock : (ℕ → ℕ) → ℕ
decode_clock read =
    let y = read (rtc_base + 0x0E) in
    let d : Date = record {
      year = from_bcd (y / 256) * 100 + from_bcd (y % 256);
      month = from_bcd (read (rtc_base + 0x0C));
      day = from_bcd (read (rtc_base + 0x0A));
    } in
    ((civil_days d * 24 + from_bcd (read (rtc_base + 0x06))) * 60
        + from_bcd (read (rtc_base + 0x04)))
      * 60
    + from_bcd (read (rtc_base + 0x02))

year_word :
    (y : ℕ)
    → y < 10000
    → let w = bit_or (u32 (bcd (y / 100) <<< 8)) (bcd (y % 100)) in
      from_bcd (w / 256) * 100 + from_bcd (w % 256) ≡ y
year_word y h =
    let hi = bcd_lem (y / 100) (omega arith) in
    let lo = bcd_lem (y % 100) (omega arith) in
    let flat : u32 (bcd (y / 100) <<< 8) ≡ bcd (y / 100) * 2 ^ 8 = omega arith in
    let sum = bit_or_fields 8 (bcd (y / 100)) (bcd (y % 100)) (omega arith) in
    let a : (bcd (y / 100) * 2 ^ 8 + bcd (y % 100)) / 256 ≡ bcd (y / 100) = omega arith in
    let b : (bcd (y / 100) * 2 ^ 8 + bcd (y % 100)) % 256 ≡ bcd (y % 100) = omega arith in
    rw (flat, sum, a, b, hi.0, lo.0) (omega arith)

-- Decoding the registers by the calendar formula gives the clock's count of seconds back, up to the
-- year 9999.
pub decode_clock_lem :
    (r : Rtc) (cyc ips : ℕ)
    → let sec = u64 (r.epoch_sec + cyc / ips) in
      (date_of (sec / 86400)).year < 10000 → decode_clock (rtc_read r cyc ips) ≡ sec
unfolding decode_clock rtc_read
decode_clock_lem r cyc ips h =
    let sec : ℕ = u64 (r.epoch_sec + cyc / ips) in
    let d : Date = date_of (sec / 86400) in
    let (w, e) = date_of_lem (sec / 86400) in
    let short = month_length_le d.year (d.month - 1) in
    rw
      (
        year_word d.year h,
        (bcd_lem d.month (omega (arith, w.month_le))).0,
        (bcd_lem d.day (omega (arith, w.day_le, short))).0,
        (bcd_lem (sec / 3600 % 24) (omega arith)).0,
        (bcd_lem (sec / 60 % 60) (omega arith)).0,
        (bcd_lem (sec % 60) (omega arith)).0,
        sym (day_number-civil_days d w) ∙ e,
      )
      (omega arith)
