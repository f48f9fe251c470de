-- ===== src/GTimer/Tests.antt =====
-- The timers at concrete channels.
use casio_cg.Base.{ℕ, ◌+◌, ◌≤◌, ◌≡◌, refl, inr, true, none, [], ◌∷◌, arith, no_regs, RegMap}
use casio_cg.GTimer.{
  cur, service, write_tcor, timer_key, save_chans, restore_chans, drop_chan_keys, TimerChan,
}
use casio_cg.GTimer.Count.{countdown, cur-eq-countdown, write_tcor_jumps, IsWords}
use casio_cg.GTimer.Service.{IsReload, IsSynced, service_due, IsServiced, set_tcor, tick}
use casio_cg.GTimer.History.{Reach, Reach-IsSynced, retune, retuned, here, after}
use casio_cg.GTimer.Saved.{AllRestored, AllWords, restore-save}
use casio_cg.GTimer.Etmu.{blank, Etmu}
use casio_cg.GTimer.Tmu.{Tmu}

-- A channel with a period of 100 counts that starts at cycle 1000 with count 7.
abbrev running_chan : TimerChan
running_chan = record {
  tcor = 99;
  tcnt = 7;
  tcr = 0;
  running = true;
  start_cyc = 1000;
  start_cnt = 7;
  next_unf = 1080;
  owned = true;
}

running_chan-IsWords : IsWords running_chan
running_chan-IsWords = record {
  tcor_fits = omega arith;
  tcnt_fits = omega arith;
  start_cnt_fits = omega arith;
}

cur-eq-countdown_example : cur running_chan 1500 10 ≡ countdown 99 50 7
cur-eq-countdown_example =
    cur-eq-countdown running_chan 1500 10 running_chan-IsWords refl (omega arith)

-- 42 counts after the reload the count is 57; a write of TCOR makes it 7.
write_tcor_jumps_example :
    cur (write_tcor running_chan 1500 10 49) 1500 10 + 99 ≡ cur running_chan 1500 10 + 49
write_tcor_jumps_example =
    write_tcor_jumps running_chan 1500 10 49 running_chan-IsWords (omega arith) (omega arith) refl
      (omega arith) (omega arith) (omega arith)

running_chan-IsReload : IsReload running_chan 10 1080
running_chan-IsReload = (0, refl)

running_chan-IsSynced : IsSynced running_chan 10
running_chan-IsSynced = inr running_chan-IsReload

service_due_example :
    ((service running_chan 1500 10 2).0 ≡ true)
    × IsServiced running_chan (service running_chan 1500 10 2).1 1500 10 2
service_due_example =
    service_due running_chan 1500 10 2 (omega arith) (omega arith) refl running_chan-IsReload
      (omega arith)

-- TCOR is written at cycle 1200, the prescaler goes from 10 to 40 at 1300, and the unit ticks.
abbrev retuned_chan : TimerChan
retuned_chan = retune (write_tcor running_chan 1200 10 49) 1300 40 1 2

reached : Reach 40 10 running_chan 6000 40 (service retuned_chan 6000 40 2).1
reached =
    after
      (retuned 40 1 2 (after (here 1000) (omega arith) (set_tcor running_chan 49 (omega arith)))
        (omega arith) (omega arith) (omega arith))
      (omega arith) (tick retuned_chan 2)

Reach-IsSynced_example :
    IsWords (service retuned_chan 6000 40 2).1 × IsSynced (service retuned_chan 6000 40 2).1 40
Reach-IsSynced_example =
    Reach-IsSynced (omega arith) (omega arith) (omega arith) running_chan-IsWords
      running_chan-IsSynced reached

-- Six channels, the first one running.
abbrev etmu : Etmu
etmu = record {
  regs = no_regs;
  count_div = 10;
  ch = running_chan ∷ blank ∷ blank ∷ blank ∷ blank ∷ blank ∷ [];
}

blank-IsWords : IsWords blank
blank-IsWords = record {
  tcor_fits = omega arith;
  tcnt_fits = omega arith;
  start_cnt_fits = omega arith;
}

abbrev tmu : Tmu
tmu = record { regs = no_regs; instr_per_sec = 73728000; ch = running_chan ∷ blank ∷ blank ∷ [] }

no_keys : (k : ℕ) → timer_key ≤ k → no_regs k ≡ none
no_keys k h = refl

-- A TMU channel that ran out and was stopped, through TSTR only: no write to its own registers.
abbrev started_only : TimerChan
started_only = record blank { tcr = 0x100 }

started_only-IsWords : IsWords started_only
started_only-IsWords = record {
  tcor_fits = omega arith;
  tcnt_fits = omega arith;
  start_cnt_fits = omega arith;
}

words : AllWords (running_chan ∷ started_only ∷ [])
words = (running_chan-IsWords, (started_only-IsWords, tt))

abbrev two_saved : RegMap
two_saved = save_chans no_regs (running_chan ∷ started_only ∷ []) 0 1500 (λ c. 10)

restore-save_example :
    AllRestored
      (λ c. 10)
      1500
      (running_chan ∷ started_only ∷ [])
      (restore_chans two_saved 2 0 1500 (λ c. 10))
    × ((k : ℕ) → drop_chan_keys two_saved k ≡ no_regs k)
restore-save_example =
    restore-save (running_chan ∷ started_only ∷ []) no_regs 1500 (λ c. 10) (omega arith) no_keys
      words
