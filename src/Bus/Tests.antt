-- ===== src/Bus/Tests.antt =====
-- The clock and the free counter by a physical address.
use casio_cg.Base.{◌≡◌, refl, inr, true, false, some, arith}
use casio_cg.Bus.{free_counter, rtc, contains, find, find_hit_in, find_hit, window}
use casio_cg.Bus.Lookup.{find_hit-contains}

counter_here : contains free_counter 0xA4130004 ≡ true
unfolding contains window
counter_here = refl

clock_elsewhere : contains rtc 0xA4130004 ≡ false
unfolding contains window
clock_elsewhere = refl

find_hit-contains_example : find_hit 0x04130004 ≡ some (free_counter, 0xA4130004)
find_hit-contains_example =
    find_hit-contains free_counter 0xA4130004 0x04130004 counter_here (inr clock_elsewhere)
      (inr (omega arith, omega arith, omega arith, omega arith))

runs_clock : find_hit 0x8413FEC4 ≡ some (rtc, 0xA413FEC4)
unfolding find_hit find window contains find_hit_in
runs_clock = refl
