-- ===== src/GTimer.antt =====
-- emu_go/gtimer.go: the down-counter channels (`timerChan`), their save-state keys, and the two
-- units that own them, in the child modules Etmu and Tmu. Cycle counts are uint64, registers are
-- uint32; `div` is the number of instructions in one count.
pub mod Count
pub mod Service
pub mod History
pub mod Saved
pub mod Etmu
pub mod Tmu
mod Tests
use casio_cg.Base.{
  ℕ, zero, suc, ◌+◌, ◌-◌, ◌*◌, ◌/◌, ◌%◌, ◌^◌, ◌≤◌, ◌<◌, min, max, bit_and, bit_or, bit_xor, ◌≡◌,
  refl, sym, ap, ap₂, ◌∙◌, subst, fun_ext, ◌≢◌, ◌↔◌, ◌⊎◌, inl, inr, Bool, true, false, not, ◌&&◌,
  ◌||◌, Option, none, some, List, [], ◌∷◌, ◌++◌, arith, ltb, leb, ◌==◌, ◌!=◌, if◌then◌else◌, ltb→lt,
  lt→ltb, le→ltb, ==_iff, Bool-cases, length, get_or, set, replicate, length-set, get_or-set_self,
  get_or-set_ne, and_not, bit_and_step, bit_or_step, bit_xor_step, test_bit, test_bit-lt,
  test_bit-zero, test_bit-and, test_bit-or, test_bit-xor, test_bit-and_not, test_bit_ext,
  bit_or-zero, bit_and-zero, bit_and_mask, bit_and_three, bit_or-lt, bit_and-le, u8, u16, u32, u64,
  sub32, sub64, ◌>>>◌, ◌<<<◌, b2u, RegMap, no_regs, reg, put, get_elem?, and_not_step, and_not-le,
  bit_or_fields,
}

-- `timerChan`
pub record TimerChan : Type 0 where
  pub tcor : ℕ
  pub tcnt : ℕ
  pub tcr : ℕ
  pub running : Bool
  pub start_cyc : ℕ
  pub start_cnt : ℕ
  pub next_unf : ℕ
  pub owned : Bool

-- `timerChan.cur`
unfoldable pub cur : TimerChan → ℕ → ℕ → ℕ
cur c cyc div =
    if not c.running || ltb cyc c.start_cyc
    then c.tcnt
    else (let elapsed = (cyc - c.start_cyc) / div in
        if leb elapsed c.start_cnt
        then sub32 c.start_cnt (u32 elapsed)
        else (let period = c.tcor + 1 in
            let rem = (elapsed - c.start_cnt - 1) % period in sub32 c.tcor (u32 rem)))

-- `cyc + (uint64(cnt)+1)*div`
unfoldable pub underflow_at : ℕ → ℕ → ℕ → ℕ
underflow_at cyc cnt div = u64 (cyc + u64 ((cnt + 1) * div))

-- `timerChan.restart`
unfoldable pub restart : TimerChan → ℕ → ℕ → TimerChan
restart c cyc div =
    let n = cur c cyc div in
    record c { tcnt = n; start_cyc = cyc; start_cnt = n; next_unf = underflow_at cyc n div }

-- `timerChan.setRunning`
unfoldable pub set_running : TimerChan → Bool → ℕ → ℕ → TimerChan
set_running c on cyc div =
    if on && not c.running
    then record c {
      running = true;
      start_cyc = cyc;
      start_cnt = c.tcnt;
      next_unf = underflow_at cyc c.tcnt div;
    }
    else (if not on && c.running then record c { tcnt = cur c cyc div; running = false } else c)

-- The loop `for c.nextUnf <= cyc { c.nextUnf += period }`. Each round adds at least 1, so
-- `cyc - nextUnf + 1` rounds are enough.
unfoldable pub catch_up : ℕ → ℕ → ℕ → ℕ → ℕ
catch_up zero period cyc next = next
catch_up (suc fuel) period cyc next =
    let rest = catch_up fuel period cyc (u64 (next + period)) in if leb next cyc then rest else next

unfoldable pub service_period : TimerChan → ℕ → ℕ
service_period c div = let period = u64 ((c.tcor + 1) * div) in if period == 0 then div else period

-- `timerChan.service`: whether an underflow was due, and the channel afterwards.
unfoldable pub service : TimerChan → ℕ → ℕ → ℕ → Bool × TimerChan
service c cyc div unf = if not c.running || ltb cyc c.next_unf then (false, c) else (
  true,
  record c {
    next_unf = catch_up (suc (cyc - c.next_unf)) (service_period c div) cyc c.next_unf;
    tcr = bit_or c.tcr unf;
  },
)

abbrev pub max_uint64 : ℕ
max_uint64 = 2 ^ 64 - 1

-- `timerChan.next`
unfoldable pub next : TimerChan → ℕ
next c = if not c.running then max_uint64 else c.next_unf

-- `timerChan.writeTCR`: a 0 clears the underflow flag, and a 1 leaves it.
unfoldable pub write_tcr : TimerChan → ℕ → ℕ → TimerChan
write_tcr c val unf = record c { tcr = bit_or (and_not val unf) (bit_and (bit_and c.tcr val) unf) }

-- Writing TCNT, which restarts a running channel from the value.
unfoldable pub write_tcnt : TimerChan → ℕ → ℕ → ℕ → TimerChan
write_tcnt c cyc div val =
    if c.running
    then record c {
      tcnt = val;
      start_cyc = cyc;
      start_cnt = val;
      next_unf = underflow_at cyc val div;
    }
    else record c { tcnt = val }

-- Writing TCOR.
unfoldable pub write_tcor : TimerChan → ℕ → ℕ → ℕ → TimerChan
write_tcor c cyc div val =
    let c' = record c { tcor = val } in if c.running then restart c' cyc div else c'

-- The save-state keys of channel i.
abbrev pub timer_key : ℕ
timer_key = 0xF0000000

unfoldable pub chan_key : ℕ → ℕ → ℕ
chan_key i field = bit_or (bit_or timer_key (i <<< 8)) field

unfoldable pub save_chan : RegMap → TimerChan → ℕ → ℕ → ℕ → RegMap
save_chan m c i cyc div =
    if not c.owned && not c.running
    then m
    else put
        (put (put (put m (chan_key i 0) c.tcor) (chan_key i 1) (cur c cyc div)) (chan_key i 2)
          c.tcr)
        (chan_key i 3) (bit_or (b2u c.running) (b2u c.owned <<< 1))

-- `saveTimerChans`, from channel i on. `div i` of the source looks at channel i at most.
unfoldable pub save_chans : RegMap → List TimerChan → ℕ → ℕ → (TimerChan → ℕ) → RegMap
save_chans m [] i cyc div = m
save_chans m (c ∷ cs) i cyc div = save_chans (save_chan m c i cyc (div c)) cs (i + 1) cyc div

-- The channel with the four saved values. The divisor is asked for once the channel's TCR is in
-- place, as in the source.
unfoldable pub revive : ℕ → ℕ → ℕ → ℕ → ℕ → (TimerChan → ℕ) → TimerChan
revive tcor tcnt tcr flags cyc div =
    let c : TimerChan = record {
      tcor = tcor;
      tcnt = tcnt;
      tcr = tcr;
      running = bit_and flags 1 != 0;
      start_cyc = 0;
      start_cnt = 0;
      next_unf = 0;
      owned = bit_and flags 2 != 0;
    } in
    if c.running
    then record c {
      start_cyc = cyc;
      start_cnt = c.tcnt;
      next_unf = underflow_at cyc c.tcnt (div c);
    }
    else c

-- Channel i from the saved keys.
unfoldable pub restore_chan : RegMap → ℕ → ℕ → (TimerChan → ℕ) → TimerChan
restore_chan m i cyc div =
    revive (reg m (chan_key i 0)) (reg m (chan_key i 1)) (reg m (chan_key i 2))
      (reg m (chan_key i 3)) cyc div

-- The channels of `restoreTimerChans`: n of them from channel i on.
unfoldable pub restore_chans : RegMap → ℕ → ℕ → ℕ → (TimerChan → ℕ) → List TimerChan
restore_chans m zero i cyc div = []
restore_chans m (suc n) i cyc div = restore_chan m i cyc div ∷ restore_chans m n (i + 1) cyc div

-- The map that `restoreTimerChans` returns: the keys below the channels'.
unfoldable pub drop_chan_keys : RegMap → RegMap
drop_chan_keys m k = if ltb k timer_key then m k else none
