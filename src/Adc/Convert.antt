-- ===== src/Adc/Convert.antt =====
-- The conversions: each one that is started ends once, after its time.
use casio_cg.Base.{
  ℕ, ◌<◌, ◌≡◌, refl, ap, ◌∙◌, ◌⊎◌, inl, inr, false, List, [], ◌∷◌, arith, leb, Bool-cases, and_not,
  put,
}
use casio_cg.Intc.{Intc, Pend}
use casio_cg.Adc.{soft_start, set_timer_flag, adc_tick, Adc}

-- The ticks at a list of times, cycles and idle cycles, with the requests kept.
abbrev pub ticks : Adc → Intc → List (ℕ × ℕ) → List Pend → Adc × List Pend
ticks p k [] ps = (p, ps)
ticks p k (t ∷ ts) ps = let r = adc_tick p k (t.0) (t.1) ps in ticks (r.0) k ts (r.1)

abbrev pub AllBefore : ℕ → List (ℕ × ℕ) → Type 0
AllBefore at [] = Unit
AllBefore at (t ∷ ts) = (t.0 < at) × AllBefore at ts

quiet_tick :
    (p : Adc) (k : Intc) (cycles idle : ℕ) (ps : List Pend)
    → p.armed ≡ false
    → (p.sw_armed ≡ false) ⊎ (cycles < p.sw_done_at)
    → adc_tick p k cycles idle ps ≡ (p, ps)
unfolding adc_tick
quiet_tick p k cycles idle ps off (inl none_left) = rw (none_left, off) refl
quiet_tick p k cycles idle ps off (inr early) = elim (Bool-cases p.sw_armed) [
  | inl on ↦ let test : leb p.sw_done_at cycles ≡ false = ground arith in rw (on, test, off) refl
  | inr done ↦ rw (done, off) refl
]

after :
    (p : Adc) (k : Intc) (ts : List (ℕ × ℕ)) (ps : List Pend)
    → p.armed ≡ false
    → p.sw_armed ≡ false
    → ticks p k ts ps ≡ (p, ps)
after p k [] ps off done = refl
after p k (t ∷ ts) ps off done =
    ap (λ r. ticks r.0 k ts r.1) (quiet_tick p k t.0 t.1 ps off (inl done))
    ∙ after p k ts ps off done

-- The converter after a start by software at a cycle, and after its end.
abbrev pub started : Adc → ℕ → ℕ → ℕ → Adc
started p cycles ips val = record (soft_start p cycles ips) {
  regs = put p.regs 0x88 (and_not val 0x2000);
}

abbrev pub ended : Adc → Adc
ended p = set_timer_flag (record p { sw_armed = false })
