-- ===== src/GTimer/Saved.antt =====
-- The save-state keys of the channels: `saveTimerChans` and `restoreTimerChans`.
use casio_cg.GTimer.Count.{cur-lt, cur_at_start, cur_stopped, IsWords}
use casio_cg.Base.{
  ℕ, ◌+◌, ◌*◌, ◌^◌, ◌≤◌, ◌<◌, bit_and, bit_or, ◌≡◌, refl, ◌∙◌, ◌⊎◌, inl, inr, Bool, true, false,
  ◌||◌, none, List, [], ◌∷◌, arith, ◌!=◌, Bool-cases, length, ◌<<<◌, b2u, RegMap, reg,
  bit_or_fields, value,
}
use casio_cg.GTimer.{
  cur, timer_key, chan_key, save_chan, save_chans, revive, restore_chan, restore_chans,
  drop_chan_keys, TimerChan,
}

pub chan_key_lem :
    (i field : ℕ) → i < 2 ^ 16 → field < 256 → chan_key i field ≡ timer_key + i * 256 + field
unfolding chan_key
chan_key_lem i field hi hf =
    let a : bit_or timer_key (i * 2 ^ 8) ≡ timer_key + i * 256 =
      bit_or_fields 28 15 (i * 256) (omega arith) in
    let b : bit_or ((0xF00000 + i) * 2 ^ 8) field ≡ (0xF00000 + i) * 2 ^ 8 + field =
      bit_or_fields 8 (0xF00000 + i) field hf in
    let e : timer_key + i * 256 ≡ (0xF00000 + i) * 2 ^ 8 = omega arith in
    rw (a, e) (b ∙ omega arith)

-- What a restored channel has in common with the one that was saved at cycle cyc: all registers,
-- whether it runs, and the count.
pub record IsRevived (c c' : TimerChan) (cyc div : ℕ) : Type 0 where
  pub same_tcor : c'.tcor ≡ c.tcor
  pub same_tcr : c'.tcr ≡ c.tcr
  pub same_running : c'.running ≡ c.running
  pub same_owned : c'.owned ≡ c.owned
  pub same_count : cur c' cyc div ≡ cur c cyc div

-- A channel that was never set up, or one that is restored without its keys.
pub record IsBlank (c : TimerChan) : Type 0 where
  pub no_tcor : c.tcor ≡ 0
  pub no_tcnt : c.tcnt ≡ 0
  pub no_tcr : c.tcr ≡ 0
  pub stopped : c.running ≡ false
  pub not_owned : c.owned ≡ false

-- What restoring makes of a channel: it comes back if software wrote to its registers or it runs,
-- and is blank else.
abbrev pub IsRestored : TimerChan → TimerChan → ℕ → ℕ → Type 0
IsRestored c c' cyc div =
    (((c.owned || c.running) ≡ true) × IsRevived c c' cyc div)
    ⊎ (((c.owned || c.running) ≡ false) × IsBlank c')

abbrev pub AllRestored : (TimerChan → ℕ) → ℕ → List TimerChan → List TimerChan → Type 0
AllRestored div cyc [] [] = Unit
AllRestored div cyc [] (d ∷ ds) = ⊥
AllRestored div cyc (c ∷ cs) [] = ⊥
AllRestored div cyc (c ∷ cs) (d ∷ ds) = IsRestored c d cyc (div c) × AllRestored div cyc cs ds

-- Saving the channels from i on writes no key below theirs.
save_chan_below :
    (m : RegMap) (c : TimerChan) (i cyc div k : ℕ)
    → i < 2 ^ 16
    → k < timer_key + i * 256
    → save_chan m c i cyc div k ≡ m k
unfolding save_chan
save_chan_below m c i cyc div k hi hk = ground (
  arith,
  chan_key_lem i 0 hi (omega arith),
  chan_key_lem i 1 hi (omega arith),
  chan_key_lem i 2 hi (omega arith),
  chan_key_lem i 3 hi (omega arith),
)

save_chans_below :
    (cs : List TimerChan) (m : RegMap) (i cyc : ℕ) (div : TimerChan → ℕ) (k : ℕ)
    → i + length cs ≤ 2 ^ 16
    → k < timer_key + i * 256
    → save_chans m cs i cyc div k ≡ m k
unfolding save_chans
save_chans_below [] m i cyc div k hi hk = refl
save_chans_below (c ∷ cs) m i cyc div k hi hk =
    save_chans_below cs (save_chan m c i cyc (div c)) (i + 1) cyc div k (omega arith) (omega arith)
    ∙ save_chan_below m c i cyc (div c) k (omega arith) hk

-- The four fields of channel i, read back.
module _ (m : RegMap) (c : TimerChan) (i cyc div : ℕ) (hi : i < 2 ^ 16)
    (used : (c.owned || c.running) ≡ true) where
  saved_fields :
      (reg (save_chan m c i cyc div) (chan_key i 0) ≡ c.tcor)
      × (reg (save_chan m c i cyc div) (chan_key i 1) ≡ cur c cyc div)
      × (reg (save_chan m c i cyc div) (chan_key i 2) ≡ c.tcr)
      × (reg (save_chan m c i cyc div) (chan_key i 3) ≡ bit_or (b2u c.running) (b2u c.owned <<< 1))
  unfolding save_chan
  saved_fields = ground (
    arith,
    chan_key_lem i 0 hi (omega arith),
    chan_key_lem i 1 hi (omega arith),
    chan_key_lem i 2 hi (omega arith),
    chan_key_lem i 3 hi (omega arith),
  )

flags_running : (r o : Bool) → (bit_and (bit_or (b2u r) (b2u o <<< 1)) 1 != 0) ≡ r
flags_running true true = refl
flags_running true false = refl
flags_running false true = refl
flags_running false false = refl

flags_owned : (r o : Bool) → (bit_and (bit_or (b2u r) (b2u o <<< 1)) 2 != 0) ≡ o
flags_owned true true = refl
flags_owned true false = refl
flags_owned false true = refl
flags_owned false false = refl

save_chan_above :
    (m : RegMap) (c : TimerChan) (i cyc div k : ℕ)
    → i < 2 ^ 16
    → timer_key + (i + 1) * 256 ≤ k
    → save_chan m c i cyc div k ≡ m k
unfolding save_chan
save_chan_above m c i cyc div k hi hk = ground (
  arith,
  chan_key_lem i 0 hi (omega arith),
  chan_key_lem i 1 hi (omega arith),
  chan_key_lem i 2 hi (omega arith),
  chan_key_lem i 3 hi (omega arith),
)

-- A restored channel depends on its four keys only.
restore_chan_ext :
    (m m' : RegMap) (i cyc : ℕ) (div : TimerChan → ℕ)
    → m (chan_key i 0) ≡ m' (chan_key i 0)
    → m (chan_key i 1) ≡ m' (chan_key i 1)
    → m (chan_key i 2) ≡ m' (chan_key i 2)
    → m (chan_key i 3) ≡ m' (chan_key i 3)
    → restore_chan m i cyc div ≡ restore_chan m' i cyc div
unfolding restore_chan
restore_chan_ext m m' i cyc div a b c d =
    λ t. revive (value (a t)) (value (b t)) (value (c t)) (value (d t)) cyc div

revive-IsRevived :
    (c : TimerChan) (cyc d : ℕ) (div : TimerChan → ℕ)
    → IsWords c
    → IsRevived c
        (revive c.tcor (cur c cyc d) c.tcr (bit_or (b2u c.running) (b2u c.owned <<< 1)) cyc div)
        cyc
        d
unfolding revive
revive-IsRevived c cyc d div w =
    let run = flags_running c.running c.owned in
    let own = flags_owned c.running c.owned in
    let n : ℕ = cur c cyc d in
    let c' = revive c.tcor n c.tcr (bit_or (b2u c.running) (b2u c.owned <<< 1)) cyc div in
    record {
      same_tcor = ground arith;
      same_tcr = ground arith;
      same_running = ground (arith, run);
      same_owned = ground (arith, own);
      same_count = elim (Bool-cases c.running) [
        | inl on ↦
            cur_at_start c' cyc d n (cur-lt c cyc d w) (ground (arith, run)) (ground (arith, run))
              (ground arith)
        | inr off ↦ cur_stopped c' cyc d (ground (arith, run)) ∙ ground arith
      ];
    }

restore_chan-used :
    (m : RegMap) (c : TimerChan) (i cyc : ℕ) (div : TimerChan → ℕ)
    → i < 2 ^ 16
    → IsWords c
    → (c.owned || c.running) ≡ true
    → IsRevived c (restore_chan (save_chan m c i cyc (div c)) i cyc div) cyc (div c)
unfolding restore_chan
restore_chan-used m c i cyc div hi w used =
    let (a, b, d, e) = saved_fields m c i cyc (div c) hi used in
    rw (a, b, d, e) (revive-IsRevived c cyc (div c) div w)

restore_chan-unused :
    (m : RegMap) (c : TimerChan) (i cyc : ℕ) (div : TimerChan → ℕ)
    → i < 2 ^ 16
    → ((k : ℕ) → timer_key + i * 256 ≤ k → m k ≡ none)
    → (c.owned || c.running) ≡ false
    → IsBlank (restore_chan (save_chan m c i cyc (div c)) i cyc div)
unfolding restore_chan revive save_chan
restore_chan-unused m c i cyc div hi fresh unused =
    let a = fresh (chan_key i 0) (omega (arith, chan_key_lem i 0 hi (omega arith))) in
    let b = fresh (chan_key i 1) (omega (arith, chan_key_lem i 1 hi (omega arith))) in
    let d = fresh (chan_key i 2) (omega (arith, chan_key_lem i 2 hi (omega arith))) in
    let e = fresh (chan_key i 3) (omega (arith, chan_key_lem i 3 hi (omega arith))) in
    record {
      no_tcor = ground (arith, a, b, d, e);
      no_tcnt = ground (arith, a, b, d, e);
      no_tcr = ground (arith, a, b, d, e);
      stopped = ground (arith, a, b, d, e);
      not_owned = ground (arith, a, b, d, e);
    }

-- Channels whose registers are 32 bits wide.
abbrev pub AllWords : List TimerChan → Type 0
AllWords [] = Unit
AllWords (c ∷ cs) = IsWords c × AllWords cs

restore_chan-IsRestored :
    (m : RegMap) (c : TimerChan) (i cyc : ℕ) (div : TimerChan → ℕ)
    → i < 2 ^ 16
    → ((k : ℕ) → timer_key + i * 256 ≤ k → m k ≡ none)
    → IsWords c
    → IsRestored c (restore_chan (save_chan m c i cyc (div c)) i cyc div) cyc (div c)
restore_chan-IsRestored m c i cyc div hi fresh w = elim (Bool-cases (c.owned || c.running)) [
  | inl used ↦ inl (used, restore_chan-used m c i cyc div hi w used)
  | inr unused ↦ inr (unused, restore_chan-unused m c i cyc div hi fresh unused)
]

restore_chans-AllRestored :
    (cs : List TimerChan) (m : RegMap) (i cyc : ℕ) (div : TimerChan → ℕ)
    → i + length cs ≤ 2 ^ 16
    → ((k : ℕ) → timer_key + i * 256 ≤ k → m k ≡ none)
    → AllWords cs
    → AllRestored div cyc cs (restore_chans (save_chans m cs i cyc div) (length cs) i cyc div)
unfolding save_chans restore_chans
restore_chans-AllRestored [] m i cyc div hi fresh t = tt
restore_chans-AllRestored (c ∷ cs) m i cyc div hi fresh t =
    let m' : RegMap = save_chan m c i cyc (div c) in
    let low : i < 2 ^ 16 = omega arith in
    let same = λ (f : ℕ) (hf : f < 4).
      save_chans_below cs m' (i + 1) cyc div (chan_key i f) (omega arith)
        (omega (arith, chan_key_lem i f low (omega arith))) in
    let here =
      restore_chan_ext (save_chans m' cs (i + 1) cyc div) m' i cyc div (same 0 (omega arith))
        (same 1 (omega arith)) (same 2 (omega arith)) (same 3 (omega arith)) in
    (
      rw here (restore_chan-IsRestored m c i cyc div low fresh t.0),
      restore_chans-AllRestored cs m' (i + 1) cyc div (omega arith)
          (λ k h. save_chan_above m c i cyc (div c) k low h ∙ fresh k (omega arith)) t.1,
    )

-- Channels of a unit saved into its register map, which has no keys of channels, and restored at
-- the same cycle: every channel that software wrote to or that runs has the registers, the running
-- state, the ownership and the count it had; any other comes back blank, whatever its registers
-- held; and the register map comes back without the channels' keys.
pub restore-save :
    (cs : List TimerChan) (m : RegMap) (cyc : ℕ) (div : TimerChan → ℕ)
    → length cs ≤ 2 ^ 16
    → ((k : ℕ) → timer_key ≤ k → m k ≡ none)
    → AllWords cs
    → AllRestored div cyc cs (restore_chans (save_chans m cs 0 cyc div) (length cs) 0 cyc div)
      × ((k : ℕ) → drop_chan_keys (save_chans m cs 0 cyc div) k ≡ m k)
unfolding drop_chan_keys
restore-save cs m cyc div short fresh words = (
  restore_chans-AllRestored cs m 0 cyc div (omega arith) (λ k h. fresh k (omega arith)) words,
  λ k. ground (arith, fresh k, save_chans_below cs m 0 cyc div k),
)
