-- ===== src/Rtc/Tests.antt =====
-- The calendar and the periodic interrupt at concrete values.
use casio_cg.Base.{◌+◌, ◌*◌, ◌<◌, ◌≡◌, refl, sym, subst, arith, no_regs}
use casio_cg.Rtc.{
  is_leap, year_length, year_loop, month_lengths, month_loop, date_of, rtc_read, Rtc, Date,
}
use casio_cg.Rtc.Civil.{decode_clock, decode_clock_lem}

-- 2012-02-29, 10:00:00.
abbrev leap_day : Date
leap_day = record { year = 2012; month = 2; day = 29 }

abbrev clock : Rtc
clock = record {
  regs = no_regs;
  rcr1 = 0;
  rcr2 = 0;
  epoch_sec = 789 * 86400 + 36000;
  next_periodic = 0;
}

date_of_789 : date_of 789 ≡ leap_day
unfolding date_of month_lengths year_loop month_loop year_length is_leap
date_of_789 = refl

era : (date_of 789).year < 10000
era = subst (λ d. d.year < 10000) (sym date_of_789) (omega arith)

decode_clock_lem_example : decode_clock (rtc_read clock 5000 1000) ≡ 789 * 86400 + 36005
decode_clock_lem_example = decode_clock_lem clock 5000 1000 era

-- Two interrupts a second.
abbrev twice : Rtc
twice = record clock { rcr2 = 0x50 }
