-- ===== src/Keysc.antt =====
-- emu_go/keysc.go, the key-scan unit `keyscUnit` and the queue of key taps `keyTapper`.
pub mod Matrix
pub mod Scan
pub mod Tap
mod Tests
use casio_cg.Base.{
  ℕ, zero, suc, ◌+◌, ◌-◌, ◌*◌, ◌/◌, ◌%◌, ◌^◌, ◌≤◌, ◌<◌, min, max, bit_and, bit_or, bit_xor, ◌≡◌,
  refl, sym, ap, ap₂, ◌∙◌, subst, fun_ext, ◌≢◌, ◌↔◌, ◌⊎◌, inl, inr, Bool, true, false, not, ◌&&◌,
  ◌||◌, Option, none, some, List, [], ◌∷◌, ◌++◌, arith, ltb, leb, ◌==◌, ◌!=◌, if◌then◌else◌, ltb→lt,
  lt→ltb, le→ltb, ==_iff, Bool-cases, length, get_or, set, replicate, length-set, get_or-set_self,
  get_or-set_ne, and_not, bit_and_step, bit_or_step, bit_xor_step, test_bit, test_bit-lt,
  test_bit-zero, test_bit-and, test_bit-or, test_bit-xor, test_bit-and_not, test_bit_ext,
  bit_or-zero, bit_and-zero, bit_and_mask, bit_and_three, bit_or-lt, bit_and-le, u8, u16, u32, u64,
  sub32, sub64, ◌>>>◌, ◌<<<◌, b2u, RegMap, no_regs, reg, put, get_elem?, and_not_step, and_not-le,
  bit_or_fields, value, and_not_parts, and_not_mask, page_address, word_page, same_page,
  bit_xor_self, bit_xor-lt, true≢false, and_and, eq_of_bit_xor, test_bit_lem, and_bit, and_not_and,
  bit_or_comm,
}
use casio_cg.Intc.{
  intc_sources, find_source, intc_base, is_ipr, is_imr, priority, is_masked, enabled, gate,
  seed_os_defaults, new_intc, put_cells, state_map, load_cells, has_cell, restore_state,
  has_request, append, raise_irq, raise, drops, waits, outranks, Best, better, gate_loop,
  gate_pending, Source, Intc, GateState, Pend,
}

abbrev pub keysc_base : ℕ
keysc_base = 0xA44B0000

abbrev pub keysc_intevt : ℕ
keysc_intevt = 0xBE0

abbrev pub keysc_level : ℕ
keysc_level = 13

abbrev pub keysc_flag_scan : ℕ
keysc_flag_scan = 0x02

abbrev pub keysc_flag_detect : ℕ
keysc_flag_detect = 0x08

abbrev pub default_key_scan_period : ℕ
default_key_scan_period = 750000

-- `keyscUnit`. `held` has six words.
pub record Keysc : Type 0 where
  pub regs : RegMap
  pub held : List ℕ
  pub ctrl : ℕ
  pub mode : ℕ
  pub ie : ℕ
  pub flags : ℕ
  pub scan_period : ℕ
  pub scan_next : ℕ
  pub scan_left : ℕ
  pub was_held : Bool

-- `newKeysc`
abbrev pub new_keysc : Keysc
new_keysc = record {
  regs = no_regs;
  held = replicate 6 0;
  ctrl = 0;
  mode = 0;
  ie = 0;
  flags = 0;
  scan_period = default_key_scan_period;
  scan_next = 0;
  scan_left = 0;
  was_held = false;
}

-- `anyHeld`
abbrev pub any_word : List ℕ → Bool
any_word [] = false
any_word (w ∷ ws) = (w != 0) || any_word ws

unfoldable pub any_held : Keysc → Bool
any_held k = any_word k.held

-- `data`: word w within the enabled columns and rows.
abbrev pub cols_of : Keysc → ℕ
cols_of k = elim (k.regs 0x1A) [ some v ↦ v | none ↦ 0x0FFF ]

abbrev pub rows_of : Keysc → ℕ
rows_of k = elim (k.regs 0x1C) [ some v ↦ bit_and v 0xFF | none ↦ 0xFF ]

unfoldable pub key_data : Keysc → ℕ → ℕ
key_data k w =
    let low = if bit_and (cols_of k >>> (2 * w)) 1 != 0 then rows_of k else 0 in
    let high = if bit_and (cols_of k >>> (2 * w + 1)) 1 != 0 then u32 (rows_of k <<< 8) else 0 in
    bit_and (get_or k.held w 0) (bit_or low high)

-- `anyEnabled`
unfoldable pub any_enabled : Keysc → Bool
unfolding key_data
any_enabled k =
    any_word
      (key_data k 0 ∷ key_data k 1 ∷ key_data k 2 ∷ key_data k 3 ∷ key_data k 4 ∷ key_data k 5 ∷ [])

-- `press`, `release` and `releaseAll`
abbrev pub key_bit : ℕ → ℕ → ℕ
key_bit row col = 2 ^ (row + 8 * bit_and col 1)

unfoldable pub press : Keysc → ℕ → ℕ → Keysc
unfolding any_held
press k row col =
    let w = col >>> 1 in
    let down = set k.held w (bit_or (get_or k.held w 0) (key_bit row col)) in
    let next = if any_held k then k.scan_next else 0 in
    if ltb row 8 && ltb col 12 then record k { held = down; scan_next = next } else k

unfoldable pub release : Keysc → ℕ → ℕ → Keysc
release k row col =
    let w = col >>> 1 in
    let up = set k.held w (and_not (get_or k.held w 0) (key_bit row col)) in
    if ltb row 8 && ltb col 12 then record k { held = up } else k

unfoldable pub release_all : Keysc → Keysc
release_all k = record k { held = replicate 6 0 }

-- `resumeDefaults`
unfoldable pub resume_defaults : Keysc → Keysc
resume_defaults k = record k {
  ctrl = 0x8000;
  mode = 0x200;
  ie = 0x48;
  flags = 0;
  scan_left = 0;
  was_held = false;
}

-- `keyscUnit.read` and `keyscUnit.write`
unfoldable pub read : Keysc → ℕ → ℕ → ℕ
unfolding key_data
read k va size =
    let off = sub32 va keysc_base in
    let i = off >>> 1 in
    let w = key_data k i in
    let low = if ltb (i + 1) 6 then key_data k (i + 1) else 0 in
    if ltb off 0x0C
    then (if size == 2
        then w
        else (if size == 1
            then (if bit_and off 1 == 0 then w >>> 8 else bit_and w 0xFF)
            else bit_or (u32 (w <<< 16)) low))
    else (if off == 0x0C
        then k.ctrl
        else (if off == 0x10
            then k.mode
            else (if off == 0x12
                then 2
                else (if off == 0x14 then bit_or (u32 (k.ie <<< 8)) k.flags else reg k.regs off))))

unfoldable pub write : Keysc → ℕ → ℕ → Keysc
write k va val =
    let off = sub32 va keysc_base in
    if off == 0x0C
    then record k { ctrl = bit_and val 0xFFFF }
    else (if off == 0x10
        then record k { mode = bit_and val 0xFFFF }
        else (if off == 0x14
            then record k {
              ie = bit_and (val >>> 8) 0xFF;
              flags = and_not k.flags (bit_and val 0xFF);
            }
            else record k { regs = put k.regs off val }))

-- A scan of an enabled unit, with whether a key is held within the enables.
unfoldable pub scan : Keysc → Bool → Keysc
scan k held =
    let detected = if held && not k.was_held then bit_or k.flags keysc_flag_detect else k.flags in
    let left = if held then 2 else k.scan_left in
    let reports =
      (bit_and k.mode 0x800 != 0) || ((bit_and k.mode 0x200 != 0) && (held || ltb 0 left)) in
    record k {
      flags = if reports then bit_or detected keysc_flag_scan else detected;
      scan_left = if reports && (not held && ltb 0 left) then left - 1 else left;
      was_held = held;
    }

-- `keyscUnit.tick` at a cycle, with the pending requests.
unfoldable pub tick : Intc → ℕ → Keysc → List Pend → Keysc × List Pend
unfolding any_enabled scan raise
tick intc cycles k ps =
    let due = record k { scan_next = u64 (cycles + k.scan_period) } in
    let held = any_enabled k in
    let scanned = scan due held in
    if ltb cycles k.scan_next
    then (k, ps)
    else (if (bit_and k.ctrl 0x8000 == 0) || (k.mode == 0)
        then (record due { was_held = held }, ps)
        else (
          scanned,
          if bit_and scanned.flags scanned.ie != 0
              then raise intc ps keysc_intevt keysc_level
              else ps,
        ))

-- `keyTapper`
pub record KeyTapper : Type 0 where
  pub queue : List (ℕ × ℕ)
  pub active : Bool
  pub key : ℕ × ℕ
  pub release_at : ℕ
  pub next_at : ℕ

abbrev pub tap_hold_scans : ℕ
tap_hold_scans = 3

abbrev pub tap_gap_scans : ℕ
tap_gap_scans = 3

-- `keyTapper.drive`, when no key is down.
abbrev pub next_tap : KeyTapper → List (ℕ × ℕ) → Keysc → ℕ → KeyTapper × Keysc
next_tap t [] k now = (t, k)
next_tap t (key ∷ rest) k now = if ltb now t.next_at then (t, k) else (
  record t {
    queue = rest;
    key = key;
    active = true;
    release_at = u64 (now + tap_hold_scans * k.scan_period);
  },
  press k (key.0) (key.1),
)

unfoldable pub drive : KeyTapper → Keysc → ℕ → KeyTapper × Keysc
unfolding press release
drive t k now =
    if t.active
    then (if leb t.release_at now
        then (
          record t { active = false; next_at = u64 (now + tap_gap_scans * k.scan_period) },
          release k (t.key.0) (t.key.1),
        )
        else (t, k))
    else next_tap t t.queue k now
