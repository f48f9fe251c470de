-- ===== src/Keysc/Scan.antt =====
-- The scans of the key-scan unit: how long a released key is still reported.
use casio_cg.Base.{
  ℕ, zero, suc, ◌+◌, ◌-◌, ◌*◌, min, bit_and, bit_or, ◌≡◌, refl, ap, ap₂, ◌∙◌, inl, inr, Bool, true,
  false, [], arith, ltb, ◌==◌, ◌!=◌, if◌then◌else◌, Bool-cases, get_or, replicate, bit_and-le, u32,
  u64, ◌>>>◌, ◌<<<◌, b2u,
}
use casio_cg.Intc.{Intc}
use casio_cg.Keysc.{cols_of, rows_of, key_data, any_enabled, release_all, scan, tick, Keysc}

-- The unit is on and in its normal mode.
pub record IsNormal (k : Keysc) : Type 0 where
  pub enabled : (bit_and k.ctrl 0x8000 == 0) ≡ false
  pub running : (k.mode == 0) ≡ false
  pub on_demand : (bit_and k.mode 0x800 != 0) ≡ false
  pub scanning : (bit_and k.mode 0x200 != 0) ≡ true

-- The tick at which a scan is due, and how many of n scans report, the flags being acknowledged
-- before each of them.
abbrev pub scan_tick : Intc → Keysc → Keysc
scan_tick intc k = (tick intc k.scan_next k []).0

pub reports : ℕ → Intc → Keysc → ℕ
reports zero intc k = 0
reports (suc n) intc k =
    let after = scan_tick intc (record k { flags = 0 }) in
    b2u (after.flags != 0) + reports n intc after

due_now : (x : ℕ) → ltb x x ≡ false
due_now x = ground arith

due_tick :
    (intc : Intc) (k : Keysc) (cycles : ℕ)
    → IsNormal k
    → ltb cycles k.scan_next ≡ false
    → (tick intc cycles k []).0
      ≡ scan (record k { scan_next = u64 (cycles + k.scan_period) }) (any_enabled k)
unfolding tick any_enabled key_data
due_tick intc k cycles w due = rw (due, w.enabled, w.running) refl

scan_tick_lem :
    (intc : Intc) (k : Keysc)
    → IsNormal k
    → scan_tick intc k
      ≡ scan (record k { scan_next = u64 (k.scan_next + k.scan_period) }) (any_enabled k)
scan_tick_lem intc k w = due_tick intc k k.scan_next w (due_now k.scan_next)

idle_scan :
    (k : Keysc)
    → IsNormal k
    → scan (record k { flags = 0 }) false ≡ record k {
      flags = if ltb 0 k.scan_left then 2 else 0;
      scan_left = if ltb 0 k.scan_left then k.scan_left - 1 else k.scan_left;
      was_held = false;
    }
unfolding scan
idle_scan k w = elim (Bool-cases (ltb 0 k.scan_left)) [
  | inl left ↦ rw (w.on_demand, w.scanning, left) refl
  | inr none_left ↦ rw (w.on_demand, w.scanning, none_left) refl
]

held_scan : (k : Keysc) → IsNormal k → (scan k true).scan_left ≡ 2
unfolding scan
held_scan k w = rw (w.on_demand, w.scanning) refl

next_scan :
    (intc : Intc) (k : Keysc)
    → IsNormal k
    → any_enabled k ≡ false
    → scan_tick intc (record k { flags = 0 }) ≡ record k {
      flags = if ltb 0 k.scan_left then 2 else 0;
      scan_left = if ltb 0 k.scan_left then k.scan_left - 1 else k.scan_left;
      was_held = false;
      scan_next = u64 (k.scan_next + k.scan_period);
    }
unfolding any_enabled key_data
next_scan intc k w up =
    let q = record k { scan_next = u64 (k.scan_next + k.scan_period) } in
    let wq : IsNormal q = record {
      enabled = w.enabled;
      running = w.running;
      on_demand = w.on_demand;
      scanning = w.scanning;
    } in
    let wk : IsNormal (record k { flags = 0 }) = record {
      enabled = w.enabled;
      running = w.running;
      on_demand = w.on_demand;
      scanning = w.scanning;
    } in
    scan_tick_lem intc (record k { flags = 0 }) wk
    ∙ ap (λ b. scan (record q { flags = 0 }) b) up
    ∙ idle_scan q wq

b2u_flag : (b : Bool) → b2u ((if b then 2 else 0) != 0) ≡ b2u b
b2u_flag true = refl
b2u_flag false = refl

counted :
    (n left : ℕ)
    → b2u (ltb 0 left) + min n (if ltb 0 left then left - 1 else left) ≡ min (suc n) left
counted n left = ground arith

reports_lem :
    (n : ℕ) (intc : Intc) (k : Keysc)
    → IsNormal k
    → any_enabled k ≡ false
    → reports n intc k ≡ min n k.scan_left
unfolding reports any_enabled key_data
reports_lem zero intc k w up = omega arith
reports_lem (suc n) intc k w up =
    let q = record k {
      flags = if ltb 0 k.scan_left then 2 else 0;
      scan_left = if ltb 0 k.scan_left then k.scan_left - 1 else k.scan_left;
      was_held = false;
      scan_next = u64 (k.scan_next + k.scan_period);
    } in
    let wq : IsNormal q = record {
      enabled = w.enabled;
      running = w.running;
      on_demand = w.on_demand;
      scanning = w.scanning;
    } in
    rw (next_scan intc k w up) (
      ap₂ (λ x y. x + y) (b2u_flag (ltb 0 k.scan_left)) (reports_lem n intc q wq up)
      ∙ counted n k.scan_left)

empty_word : (k : Keysc) (w : ℕ) → get_or k.held w 0 ≡ 0 → key_data k w ≡ 0
unfolding key_data
empty_word k w h =
    let low = if bit_and (cols_of k >>> (2 * w)) 1 != 0 then rows_of k else 0 in
    let high = if bit_and (cols_of k >>> (2 * w + 1)) 1 != 0 then u32 (rows_of k <<< 8) else 0 in
    ap (λ x. bit_and x (bit_or low high)) h ∙ omega (arith, bit_and-le 0 (bit_or low high))

none_held : (k : Keysc) → any_enabled (release_all k) ≡ false
unfolding any_enabled release_all
none_held k =
    let up = record k { held = replicate 6 0 } in
    rw
      (
        empty_word up 0 refl,
        empty_word up 1 refl,
        empty_word up 2 refl,
        empty_word up 3 refl,
        empty_word up 4 refl,
        empty_word up 5 refl,
      )
      refl

released : (k : Keysc) → IsNormal k → IsNormal (release_all (scan k true))
unfolding scan release_all
released k w = record {
  enabled = w.enabled;
  running = w.running;
  on_demand = w.on_demand;
  scanning = w.scanning;
}

left_two : (k : Keysc) → IsNormal k → (release_all (scan k true)).scan_left ≡ 2
unfolding release_all
left_two k w = held_scan k w

-- A key within the enables that is down at a scan in the normal mode, and let go after it, is
-- reported by exactly two scans more, if the OS acknowledges the flags before each of them.
pub release_all-reports :
    (intc : Intc) (k : Keysc) (n : ℕ)
    → IsNormal k
    → any_enabled k ≡ true
    → reports n intc (release_all (scan_tick intc k)) ≡ min n 2
release_all-reports intc k n w down =
    let q = record k { scan_next = u64 (k.scan_next + k.scan_period) } in
    let wq : IsNormal q = record {
      enabled = w.enabled;
      running = w.running;
      on_demand = w.on_demand;
      scanning = w.scanning;
    } in
    let held : scan_tick intc k ≡ scan q true = scan_tick_lem intc k w ∙ ap (scan q) down in
    ap (λ x. reports n intc (release_all x)) held
    ∙ reports_lem n intc (release_all (scan q true)) (released q wq) (none_held (scan q true))
    ∙ ap (min n) (left_two q wq)
