-- ===== src/Lcd.antt =====
-- emu_go/lcd.go, the display controller `lcd`: its registers, the address counter that walks over
-- the panel's memory GRAM, the stream of a DMA transfer, and what the host draws. The line RS is a
-- bit of the port controller, whose registers are an argument.
pub mod Saved
pub mod Window
pub mod Walk
pub mod Stream
pub mod Fill
pub mod Picture
mod Tests
use casio_cg.Base.{
  ℕ, zero, suc, ◌+◌, ◌-◌, ◌*◌, ◌/◌, ◌%◌, ◌^◌, ◌≤◌, ◌<◌, min, max, bit_and, bit_or, bit_xor, ◌≡◌,
  refl, sym, ap, ap₂, ◌∙◌, subst, fun_ext, ◌≢◌, ◌↔◌, ◌⊎◌, inl, inr, Bool, true, false, not, ◌&&◌,
  ◌||◌, Option, none, some, List, [], ◌∷◌, ◌++◌, arith, ltb, leb, ◌==◌, ◌!=◌, if◌then◌else◌, ltb→lt,
  lt→ltb, le→ltb, ==_iff, Bool-cases, length, get_or, set, replicate, length-set, get_or-set_self,
  get_or-set_ne, and_not, bit_and_step, bit_or_step, bit_xor_step, test_bit, test_bit-lt,
  test_bit-zero, test_bit-and, test_bit-or, test_bit-xor, test_bit-and_not, test_bit_ext,
  bit_or-zero, bit_and-zero, bit_and_mask, bit_and_three, bit_or-lt, bit_and-le, u8, u16, u32, u64,
  sub32, sub64, ◌>>>◌, ◌<<<◌, b2u, RegMap, no_regs, reg, put, get_elem?, and_not_step, and_not-le,
  bit_or_fields, value, and_not_parts, and_not_mask, page_address, word_page, same_page,
  bit_xor_self, bit_xor-lt, true≢false, and_and, eq_of_bit_xor, test_bit_lem, and_bit, and_not_and,
  bit_or_comm, test_bit-pow_self, test_bit-pow_ne, word_above, bit_or_null,
}

abbrev pub panel_w : ℕ
panel_w = 396

abbrev pub panel_h : ℕ
panel_h = 224

abbrev pub lcd_reg : ℕ
lcd_reg = 0x800

abbrev pub os_origin_h : ℕ
os_origin_h = 389

abbrev pub fb_width : ℕ
fb_width = 384

abbrev pub fb_height : ℕ
fb_height = 216

-- `lcd`. `words` are the 0x800 registers and `gram` the 396 * 224 pixels, by their index.
pub record Lcd : Type 0 where
  pub idx : ℕ
  pub words : ℕ → ℕ
  pub h : ℕ
  pub v : ℕ
  pub gram : ℕ → ℕ
  pub gen : ℕ

-- `a[i] = v`
abbrev pub put_word : (ℕ → ℕ) → ℕ → ℕ → ℕ → ℕ
put_word a i v j = if j == i then v else a j

-- `bootDefaults`
unfoldable pub boot_defaults : Lcd → Lcd
boot_defaults l =
    let a = put_word (put_word l.words 0x003 0x00A0) 0x007 0x0100 in
    let b = put_word (put_word a 0x210 0) 0x211 (panel_w - 1) in
    record l { words = put_word (put_word b 0x212 0) 0x213 (panel_h - 1) }

-- `newLCD`
unfoldable pub new_lcd : Lcd
unfolding boot_defaults
new_lcd = boot_defaults (record { idx = 0; words = λ i. 0; h = 0; v = 0; gram = λ j. 0; gen = 0 })

-- `rs` and `lit`, by the registers of the port controller.
abbrev pub rs : RegMap → Bool
rs pfc = bit_and (reg pfc 0x13C) 0x10 != 0

abbrev pub backlight : Option ℕ → Bool
backlight none = true
backlight (some v) = bit_and v 0x20 != 0

unfoldable pub lit : RegMap → Lcd → Bool
lit pfc l = bit_and (l.words 0x007) 0x0100 != 0 && backlight (pfc 0x12E)

-- `frameGen`
unfoldable pub frame_gen : RegMap → Lcd → ℕ
unfolding lit
frame_gen pfc l = bit_or (u64 (l.gen <<< 1)) (b2u (lit pfc l))

-- `window`
abbrev pub hsa : Lcd → ℕ
hsa l = bit_and (l.words 0x210) 0x1FF

abbrev pub hea : Lcd → ℕ
hea l = bit_and (l.words 0x211) 0x1FF

abbrev pub vsa : Lcd → ℕ
vsa l = bit_and (l.words 0x212) 0x1FF

abbrev pub vea : Lcd → ℕ
vea l = bit_and (l.words 0x213) 0x1FF

-- The bits of the entry mode R003.
abbrev pub org : Lcd → Bool
org l = bit_and (l.words 0x003) 0x80 != 0

abbrev pub h_up : Lcd → Bool
h_up l = bit_and (l.words 0x003) 0x10 != 0

abbrev pub v_up : Lcd → Bool
v_up l = bit_and (l.words 0x003) 0x20 != 0

abbrev pub vertical_first : Lcd → Bool
vertical_first l = bit_and (l.words 0x003) 0x08 != 0

-- `setAddress`
unfoldable pub set_address : Lcd → Lcd
set_address l =
    let h = bit_and (l.words 0x200) 0x1FF in
    let v = bit_and (l.words 0x201) 0x1FF in
    if org l
    then record l {
      h = if h_up l then u32 (hsa l + h) else sub32 (hea l) h;
      v = if v_up l then u32 (vsa l + v) else sub32 (vea l) v;
    }
    else record l { h = h; v = v }

-- `pixel`: the word is stored, and the counter walks on, `stepH` and `stepV` telling of a wrap.
unfoldable pub store_pixel : Lcd → ℕ → Lcd
store_pixel l c =
    if ltb l.h panel_w && ltb l.v panel_h
    then record l { gram = put_word l.gram (l.v * panel_w + l.h) c; gen = u64 (l.gen + 1) }
    else l

unfoldable pub step_h : Lcd → Lcd × Bool
step_h l =
    if h_up l
    then (if leb (hea l) l.h
        then (record l { h = hsa l }, true)
        else (record l { h = u32 (l.h + 1) }, false))
    else (if leb l.h (hsa l)
        then (record l { h = hea l }, true)
        else (record l { h = sub32 l.h 1 }, false))

unfoldable pub step_v : Lcd → Lcd × Bool
step_v l =
    if v_up l
    then (if leb (vea l) l.v
        then (record l { v = vsa l }, true)
        else (record l { v = u32 (l.v + 1) }, false))
    else (if leb l.v (vsa l)
        then (record l { v = vea l }, true)
        else (record l { v = sub32 l.v 1 }, false))

unfoldable pub walk_on : Lcd → Lcd
unfolding step_h step_v
walk_on l =
    if vertical_first l
    then (let r = step_v l in if r.1 then (step_h (r.0)).0 else r.0)
    else (let r = step_h l in if r.1 then (step_v (r.0)).0 else r.0)

unfoldable pub pixel : Lcd → ℕ → Lcd
unfolding store_pixel walk_on
pixel l c = walk_on (store_pixel l c)

-- `data`
unfoldable pub put_data : Lcd → ℕ → Lcd
unfolding pixel set_address
put_data l v =
    let stored = record l { words = put_word l.words l.idx v } in
    if l.idx == 0x202
    then pixel l v
    else (if l.idx == 0x200 || l.idx == 0x201 then set_address stored else stored)

-- `read` and `write`
unfoldable pub lcd_read : RegMap → Lcd → ℕ
lcd_read pfc l = if rs pfc then (if l.idx == 0x202 then 0 else l.words l.idx) else l.idx

unfoldable pub lcd_write : RegMap → Lcd → ℕ → Lcd
unfolding put_data
lcd_write pfc l val =
    if rs pfc then put_data l (u16 val) else record l { idx = bit_and val (lcd_reg - 1) }

-- `dma`: the bytes in pairs, the first one the upper; an odd byte at the end is left.
unfoldable pub dma : Lcd → List ℕ → Lcd
unfolding put_data
dma l [] = l
dma l (x ∷ []) = l
dma l (x ∷ (y ∷ src)) = dma (put_data l (bit_or (u16 (x <<< 8)) y)) src

-- `renderOS` and `renderPanel`: n pixels of a row from x on, from the GRAM indices that go down
-- from `last`, into the buffer from pixel `first` on.
unfoldable pub render_row : (ℕ → ℕ) → ℕ → ℕ → ℕ → ℕ → (ℕ → ℕ) → ℕ → ℕ
render_row gram last first x zero dst = dst
render_row gram last first x (suc n) dst =
    let c = gram (last - x) in
    let at = (first + x) * 2 in
    render_row gram last first (x + 1) n (put_word (put_word dst at (u8 (c >>> 8))) (at + 1) (u8 c))

unfoldable pub render_rows : (ℕ → ℕ) → ℕ → ℕ → ℕ → ℕ → (ℕ → ℕ) → ℕ → ℕ
unfolding render_row
render_rows gram width origin y zero dst = dst
render_rows gram width origin y (suc n) dst =
    render_rows gram width origin (y + 1) n
      (render_row gram (y * panel_w + origin) (y * width) 0 width dst)

abbrev pub clear : ℕ → (ℕ → ℕ) → ℕ → ℕ
clear n dst j = if ltb j n then 0 else dst j

unfoldable pub render_os : RegMap → Lcd → (ℕ → ℕ) → ℕ → ℕ
unfolding lit
render_os pfc l dst =
    if lit pfc l
    then render_rows l.gram fb_width os_origin_h 0 fb_height dst
    else clear (fb_width * fb_height * 2) dst

unfoldable pub render_panel : RegMap → Lcd → (ℕ → ℕ) → ℕ → ℕ
unfolding lit
render_panel pfc l dst =
    if lit pfc l
    then render_rows l.gram panel_w (panel_w - 1) 0 panel_h dst
    else clear (panel_w * panel_h * 2) dst

-- `seedFromVRAM`
unfoldable pub seed_row : (ℕ → ℕ) → ℕ → ℕ → ℕ → (ℕ → ℕ) → ℕ → ℕ
seed_row src y x zero gram = gram
seed_row src y x (suc n) gram =
    let i = (y * fb_width + x) * 2 in
    let c = bit_or (u16 (src i <<< 8)) (src (i + 1)) in
    seed_row src y (x + 1) n (put_word gram (y * panel_w + os_origin_h - x) c)

unfoldable pub seed_rows : (ℕ → ℕ) → ℕ → ℕ → (ℕ → ℕ) → ℕ → ℕ
unfolding seed_row
seed_rows src y zero gram = gram
seed_rows src y (suc n) gram = seed_rows src (y + 1) n (seed_row src y 0 fb_width gram)

unfoldable pub seed_from_vram : Lcd → (ℕ → ℕ) → ℕ → Lcd
seed_from_vram l src frame = record l {
  gram = seed_rows src 0 fb_height (λ j. if ltb j (panel_w * panel_h) then frame else l.gram j);
  gen = u64 (l.gen + 1);
}
