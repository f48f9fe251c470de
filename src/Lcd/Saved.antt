-- ===== src/Lcd/Saved.antt =====
-- The save state of the display controller: `stateMap` and `restoreState`.
pub mod RoundTrip
use casio_cg.Base.{
  ℕ, zero, suc, ◌+◌, ◌-◌, ◌*◌, ◌/◌, ◌%◌, ◌^◌, ◌≤◌, ◌<◌, min, max, bit_and, bit_or, bit_xor, ◌≡◌,
  refl, sym, ap, ap₂, ◌∙◌, subst, fun_ext, ◌≢◌, ◌↔◌, ◌⊎◌, inl, inr, Bool, true, false, not, ◌&&◌,
  ◌||◌, Option, none, some, List, [], ◌∷◌, ◌++◌, arith, ltb, leb, ◌==◌, ◌!=◌, if◌then◌else◌, ltb→lt,
  lt→ltb, le→ltb, ==_iff, Bool-cases, length, get_or, set, replicate, length-set, get_or-set_self,
  get_or-set_ne, and_not, bit_and_step, bit_or_step, bit_xor_step, test_bit, test_bit-lt,
  test_bit-zero, test_bit-and, test_bit-or, test_bit-xor, test_bit-and_not, test_bit_ext,
  bit_or-zero, bit_and-zero, bit_and_mask, bit_and_three, bit_or-lt, bit_and-le, u8, u16, u32, u64,
  sub32, sub64, ◌>>>◌, ◌<<<◌, b2u, RegMap, no_regs, reg, put, get_elem?, and_not_step, and_not-le,
  bit_or_fields, value, and_not_parts, and_not_mask, page_address, word_page, same_page,
  bit_xor_self, bit_xor-lt, true≢false, and_and, eq_of_bit_xor, test_bit_lem, and_bit, and_not_and,
  bit_or_comm, test_bit-pow_self, test_bit-pow_ne, word_above, bit_or_null,
}
use casio_cg.Lcd.{
  panel_w, panel_h, lcd_reg, os_origin_h, fb_width, fb_height, put_word, boot_defaults, new_lcd, rs,
  backlight, lit, frame_gen, hsa, hea, vsa, vea, org, h_up, v_up, vertical_first, set_address,
  store_pixel, step_h, step_v, walk_on, pixel, put_data, lcd_read, lcd_write, dma, render_row,
  render_rows, clear, render_os, render_panel, seed_row, seed_rows, seed_from_vram, Lcd,
}

abbrev pub lcd_key_ver : ℕ
lcd_key_ver = 0xFFFFFFFF

abbrev pub lcd_key_idx : ℕ
lcd_key_idx = 0x80001000

abbrev pub lcd_key_h : ℕ
lcd_key_h = 0x80001001

abbrev pub lcd_key_v : ℕ
lcd_key_v = 0x80001002

abbrev pub lcd_key_reg : ℕ
lcd_key_reg = 0x80000000

-- The loop of `stateMap` over n registers from index i on. `lcdKeyReg|i` is a sum, i being below
-- 0x800.
unfoldable pub put_words : RegMap → (ℕ → ℕ) → ℕ → ℕ → RegMap
put_words m words i zero = m
put_words m words i (suc n) =
    let stored = if words i != 0 then put m (lcd_key_reg + i) (words i) else m in
    put_words stored words (i + 1) n

-- `stateMap`
unfoldable pub state_map : Lcd → RegMap
state_map l =
    let marked = put (put no_regs lcd_key_ver 2) lcd_key_idx l.idx in
    put_words (put (put marked lcd_key_h l.h) lcd_key_v l.v) l.words 0 lcd_reg

-- `restoreState`. Each key of a map that `stateMap` wrote sets a place of its own, so the order in
-- which Go visits them does not matter, and the result is written place by place.
abbrev pub load_words : RegMap → ℕ → ℕ
load_words m i = if ltb i lcd_reg then u16 (reg m (lcd_key_reg + i)) else 0

unfoldable pub restore_state : Lcd → RegMap → Lcd
unfolding boot_defaults
restore_state l m =
    let ver = reg m lcd_key_ver in
    let w = load_words m in
    if ver == 1 || ver == 2
    then record l {
      idx = bit_and (reg m lcd_key_idx) (lcd_reg - 1);
      h = reg m lcd_key_h;
      v = reg m lcd_key_v;
      words = if ver == 1 then put_word w 0x007 (bit_or (w 0x007) 0x0100) else w;
    }
    else boot_defaults (record l { words = λ i. 0; idx = 0; h = 0; v = 0 })

-- The registers of a controller: words of 16 bits, and nothing beyond the array.
pub record IsSavable (l : Lcd) : Type 0 where
  pub index : l.idx < lcd_reg
  pub word : (i : ℕ) → l.words i < 2 ^ 16
  pub beyond : (i : ℕ) → lcd_reg ≤ i → l.words i ≡ 0
