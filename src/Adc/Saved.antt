-- ===== src/Adc/Saved.antt =====
-- The save state of the converter.
use casio_cg.Base.{
  ℕ, ◌+◌, ◌-◌, ◌^◌, ◌≤◌, ◌<◌, ◌≡◌, refl, sym, ap, ◌∙◌, fun_ext, inl, inr, Bool, true, false, none,
  arith, ltb, ◌==◌, if◌then◌else◌, ltb→lt, Bool-cases, u64, b2u, RegMap, reg, put, value, pick_on,
  pick_off,
}
use casio_cg.Adc.{
  adc_key_mode, adc_key_armed, adc_key_left, adc_key_sw, adc_key_sw_left, left, save_adc,
  restore_adc, Adc,
}

-- What the map holds at each key, by the flags.
marked : RegMap → Bool → Bool → Bool → ℕ → ℕ → RegMap
marked regs mode armed sw wait sw_wait =
    let m = if mode then put regs adc_key_mode 1 else regs in
    let m' = if armed then put (put m adc_key_armed 1) adc_key_left wait else m in
    if sw then put (put m' adc_key_sw 1) adc_key_sw_left sw_wait else m'

marked-register :
    (regs : RegMap) (mode armed sw : Bool) (wait sw_wait k : ℕ)
    → k < 0x10000
    → marked regs mode armed sw wait sw_wait k ≡ regs k
unfolding marked
marked-register regs true true true wait sw_wait k h = ground (arith, h)
marked-register regs true true false wait sw_wait k h = ground (arith, h)
marked-register regs true false true wait sw_wait k h = ground (arith, h)
marked-register regs true false false wait sw_wait k h = ground (arith, h)
marked-register regs false true true wait sw_wait k h = ground (arith, h)
marked-register regs false true false wait sw_wait k h = ground (arith, h)
marked-register regs false false true wait sw_wait k h = ground (arith, h)
marked-register regs false false false wait sw_wait k h = ground (arith, h)

marked-mode :
    (regs : RegMap) (mode armed sw : Bool) (wait sw_wait : ℕ)
    → ((k : ℕ) → 0x10000 ≤ k → regs k ≡ none)
    → reg (marked regs mode armed sw wait sw_wait) adc_key_mode ≡ b2u mode
unfolding marked
marked-mode regs true true true wait sw_wait h = refl
marked-mode regs true true false wait sw_wait h = refl
marked-mode regs true false true wait sw_wait h = refl
marked-mode regs true false false wait sw_wait h = refl
marked-mode regs false true true wait sw_wait h = ap value (h adc_key_mode (omega arith))
marked-mode regs false true false wait sw_wait h = ap value (h adc_key_mode (omega arith))
marked-mode regs false false true wait sw_wait h = ap value (h adc_key_mode (omega arith))
marked-mode regs false false false wait sw_wait h = ap value (h adc_key_mode (omega arith))

marked-armed :
    (regs : RegMap) (mode armed sw : Bool) (wait sw_wait : ℕ)
    → ((k : ℕ) → 0x10000 ≤ k → regs k ≡ none)
    → reg (marked regs mode armed sw wait sw_wait) adc_key_armed ≡ b2u armed
unfolding marked
marked-armed regs true true true wait sw_wait h = refl
marked-armed regs true true false wait sw_wait h = refl
marked-armed regs true false true wait sw_wait h = ap value (h adc_key_armed (omega arith))
marked-armed regs true false false wait sw_wait h = ap value (h adc_key_armed (omega arith))
marked-armed regs false true true wait sw_wait h = refl
marked-armed regs false true false wait sw_wait h = refl
marked-armed regs false false true wait sw_wait h = ap value (h adc_key_armed (omega arith))
marked-armed regs false false false wait sw_wait h = ap value (h adc_key_armed (omega arith))

marked-left :
    (regs : RegMap) (mode armed sw : Bool) (wait sw_wait : ℕ)
    → ((k : ℕ) → 0x10000 ≤ k → regs k ≡ none)
    → reg (marked regs mode armed sw wait sw_wait) adc_key_left ≡ (if armed then wait else 0)
unfolding marked
marked-left regs true true true wait sw_wait h = refl
marked-left regs true true false wait sw_wait h = refl
marked-left regs true false true wait sw_wait h = ap value (h adc_key_left (omega arith))
marked-left regs true false false wait sw_wait h = ap value (h adc_key_left (omega arith))
marked-left regs false true true wait sw_wait h = refl
marked-left regs false true false wait sw_wait h = refl
marked-left regs false false true wait sw_wait h = ap value (h adc_key_left (omega arith))
marked-left regs false false false wait sw_wait h = ap value (h adc_key_left (omega arith))

marked-sw :
    (regs : RegMap) (mode armed sw : Bool) (wait sw_wait : ℕ)
    → ((k : ℕ) → 0x10000 ≤ k → regs k ≡ none)
    → reg (marked regs mode armed sw wait sw_wait) adc_key_sw ≡ b2u sw
unfolding marked
marked-sw regs true true true wait sw_wait h = refl
marked-sw regs true true false wait sw_wait h = ap value (h adc_key_sw (omega arith))
marked-sw regs true false true wait sw_wait h = refl
marked-sw regs true false false wait sw_wait h = ap value (h adc_key_sw (omega arith))
marked-sw regs false true true wait sw_wait h = refl
marked-sw regs false true false wait sw_wait h = ap value (h adc_key_sw (omega arith))
marked-sw regs false false true wait sw_wait h = refl
marked-sw regs false false false wait sw_wait h = ap value (h adc_key_sw (omega arith))

marked-sw_left :
    (regs : RegMap) (mode armed sw : Bool) (wait sw_wait : ℕ)
    → ((k : ℕ) → 0x10000 ≤ k → regs k ≡ none)
    → reg (marked regs mode armed sw wait sw_wait) adc_key_sw_left ≡ (if sw then sw_wait else 0)
unfolding marked
marked-sw_left regs true true true wait sw_wait h = refl
marked-sw_left regs true true false wait sw_wait h = ap value (h adc_key_sw_left (omega arith))
marked-sw_left regs true false true wait sw_wait h = refl
marked-sw_left regs true false false wait sw_wait h = ap value (h adc_key_sw_left (omega arith))
marked-sw_left regs false true true wait sw_wait h = refl
marked-sw_left regs false true false wait sw_wait h = ap value (h adc_key_sw_left (omega arith))
marked-sw_left regs false false true wait sw_wait h = refl
marked-sw_left regs false false false wait sw_wait h = ap value (h adc_key_sw_left (omega arith))

flag_back : (b : Bool) → (b2u b == 1) ≡ b
flag_back true = refl
flag_back false = refl

left_back :
    (b : Bool) (at now now' : ℕ)
    → at < now + 2 ^ 32
    → now' + 2 ^ 32 < 2 ^ 64
    → u64 (now' + (if b then left at now else 0)) ≡ now' + (if b then at - now else 0)
left_back true at now now' near fits = omega (arith, near, fits)
left_back false at now now' near fits = omega (arith, near, fits)

registers :
    (m regs : RegMap)
    → ((k : ℕ) → k < 0x10000 → m k ≡ regs k)
    → ((k : ℕ) → 0x10000 ≤ k → regs k ≡ none)
    → (k : ℕ) → (if ltb k 0x10000 then m k else none) ≡ regs k
registers m regs low free k = elim (Bool-cases (ltb k 0x10000)) [
  | inl under ↦ pick_on (ltb k 0x10000) (m k) none under ∙ low k (ltb→lt k 0x10000 under)
  | inr over ↦ pick_off (ltb k 0x10000) (m k) none over ∙ sym (free k (ground (arith, over)))
]

-- A converter saved at some counts and restored at others has its registers and its conversions,
-- with as much time left as before, if that fits a word and its registers lie below the keys of the
-- state.
restore_adc-save_adc :
    (p : Adc) (cycles idle cycles' idle' : ℕ)
    → ((k : ℕ) → 0x10000 ≤ k → p.regs k ≡ none)
    → p.done_at < idle + 2 ^ 32
    → p.sw_done_at < cycles + 2 ^ 32
    → idle' + 2 ^ 32 < 2 ^ 64
    → cycles' + 2 ^ 32 < 2 ^ 64
    → restore_adc (save_adc p cycles idle) cycles' idle' ≡ record p {
      done_at = idle' + (if p.armed then p.done_at - idle else 0);
      sw_done_at = cycles' + (if p.sw_armed then p.sw_done_at - cycles else 0);
    }
unfolding restore_adc save_adc marked
restore_adc-save_adc p cycles idle cycles' idle' free near sw_near fits sw_fits =
    let wait = left p.done_at idle in
    let sw_wait = left p.sw_done_at cycles in
    let m = marked p.regs p.adc_mode p.armed p.sw_armed wait sw_wait in
    let mode = marked-mode p.regs p.adc_mode p.armed p.sw_armed wait sw_wait free in
    let armed = marked-armed p.regs p.adc_mode p.armed p.sw_armed wait sw_wait free in
    let waits = marked-left p.regs p.adc_mode p.armed p.sw_armed wait sw_wait free in
    let sw = marked-sw p.regs p.adc_mode p.armed p.sw_armed wait sw_wait free in
    let sw_waits = marked-sw_left p.regs p.adc_mode p.armed p.sw_armed wait sw_wait free in
    let low : (k : ℕ) → k < 0x10000 → m k ≡ p.regs k =
      marked-register p.regs p.adc_mode p.armed p.sw_armed wait sw_wait in
    let at = ap (λ n. u64 (idle' + n)) waits ∙ left_back p.armed p.done_at idle idle' near fits in
    let sw_at =
      ap (λ n. u64 (cycles' + n)) sw_waits
      ∙ left_back p.sw_armed p.sw_done_at cycles cycles' sw_near sw_fits in
    λ j. record {
      regs = fun_ext (registers m p.regs low free) j;
      adc_mode = (ap (λ n. n == 1) mode ∙ flag_back p.adc_mode) j;
      armed = (ap (λ n. n == 1) armed ∙ flag_back p.armed) j;
      done_at = at j;
      sw_armed = (ap (λ n. n == 1) sw ∙ flag_back p.sw_armed) j;
      sw_done_at = sw_at j;
    }
