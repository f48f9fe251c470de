-- ===== src/Lcd/Picture.antt =====
-- What the host draws: the area of the OS, after a push of the frame and after a resume.
use casio_cg.Base.{
  ℕ, zero, suc, ◌+◌, ◌-◌, ◌*◌, ◌/◌, ◌%◌, ◌^◌, ◌≤◌, ◌<◌, bit_and, bit_or, ◌≡◌, refl, sym, ap, ◌∙◌,
  subst, ◌≢◌, ◌⊎◌, inl, inr, true, false, ◌&&◌, List, arith, ltb, ◌==◌, ◌!=◌, if◌then◌else◌, ==_iff,
  Bool-cases, length, get_or, u8, u16, ◌>>>◌, ◌<<<◌, RegMap, bit_or_fields, true≢false,
}
use casio_cg.Lcd.{
  panel_w, panel_h, os_origin_h, fb_width, fb_height, put_word, backlight, lit, hsa, hea, vsa, vea,
  h_up, v_up, vertical_first, dma, render_row, render_rows, render_os, seed_row, seed_rows,
  seed_from_vram, Lcd,
}
use casio_cg.Lcd.Walk.{column, line, place, width, height, IsWindow}
use casio_cg.Lcd.Stream.{pixel_at}
use casio_cg.Lcd.Fill.{fill_lem}

-- A byte of a pixel: the upper one first.
abbrev byte_of : ℕ → ℕ → ℕ
byte_of b c = if b == 0 then u8 (c >>> 8) else u8 c

row_miss :
    (gram : ℕ → ℕ) (last first n x : ℕ) (dst : ℕ → ℕ) (j : ℕ)
    → (j < (first + x) * 2) ⊎ ((first + x + n) * 2 ≤ j)
    → render_row gram last first x n dst j ≡ dst j
unfolding render_row
row_miss gram last first zero x dst j h = refl
row_miss gram last first (suc n) x dst j h =
    row_miss gram last first n (x + 1) _ j (ground arith) ∙ ground arith

row_hit :
    (gram : ℕ → ℕ) (last first n x : ℕ) (dst : ℕ → ℕ) (k b : ℕ)
    → x ≤ k
    → k < x + n
    → b < 2
    → render_row gram last first x n dst ((first + k) * 2 + b) ≡ byte_of b (gram (last - k))
unfolding render_row
row_hit gram last first zero x dst k b lo hi hb = absurd (omega arith)
row_hit gram last first (suc n) x dst k b lo hi hb = elim (Bool-cases (x == k)) [
  | inl same ↦
      let e : x ≡ k = (==_iff _ _).0 same in
      row_miss gram last first n (x + 1) _ ((first + k) * 2 + b) (inl (omega (arith, e)))
      ∙ ap
          (λ y.
            put_word (put_word dst ((first + y) * 2) (u8 (gram (last - y) >>> 8)))
              ((first + y) * 2 + 1) (u8 (gram (last - y))) ((first + k) * 2 + b))
          e
      ∙ ground arith
  | inr other ↦
      let differ : x ≢ k = λ e. absurd (true≢false (sym ((==_iff _ _).1 e) ∙ other)) in
      row_hit gram last first n (x + 1) _ k b (omega (arith, differ)) (omega arith) hb
]

module _ (gram : ℕ → ℕ) (wide origin : ℕ) where
  rows_miss :
      (n y : ℕ) (dst : ℕ → ℕ) (j : ℕ)
      → (j < y * wide * 2) ⊎ ((y + n) * wide * 2 ≤ j)
      → render_rows gram wide origin y n dst j ≡ dst j
  unfolding render_rows
  rows_miss zero y dst j h = refl
  rows_miss (suc n) y dst j h =
      rows_miss n (y + 1) _ j (outside h) ∙ row_miss gram _ (y * wide) wide 0 dst j (in_row h)
    where
      outside :
          (j < y * wide * 2) ⊎ ((y + suc n) * wide * 2 ≤ j)
          → (j < (y + 1) * wide * 2) ⊎ ((y + 1 + n) * wide * 2 ≤ j)
      outside (inl a) = inl (grind arith)
      outside (inr a) = inr (grind arith)

      in_row :
          (j < y * wide * 2) ⊎ ((y + suc n) * wide * 2 ≤ j)
          → (j < (y * wide + 0) * 2) ⊎ ((y * wide + 0 + wide) * 2 ≤ j)
      in_row (inl a) = inl (grind arith)
      in_row (inr a) = inr (grind arith)

  rows_hit :
      (n y : ℕ) (dst : ℕ → ℕ) (q k b : ℕ)
      → q < n
      → k < wide
      → b < 2
      → render_rows gram wide origin y n dst (((y + q) * wide + k) * 2 + b)
        ≡ byte_of b (gram ((y + q) * panel_w + origin - k))
  unfolding render_rows
  rows_hit zero y dst q k b hq hk hb = absurd (omega arith)
  rows_hit (suc n) y dst zero k b hq hk hb =
      let e : y + 0 ≡ y = omega arith in
      let here : render_rows gram wide origin (y + 1) n
            (render_row gram (y * panel_w + origin) (y * wide) 0 wide dst) ((y * wide + k) * 2 + b)
          ≡ byte_of b (gram (y * panel_w + origin - k)) =
        rows_miss n (y + 1) _ ((y * wide + k) * 2 + b) (inl (grind arith))
        ∙ row_hit gram (y * panel_w + origin) (y * wide) wide 0 dst k b (omega arith) (omega arith)
            hb in
      rw e here
  rows_hit (suc n) y dst (suc q) k b hq hk hb =
      let e : y + suc q ≡ y + 1 + q = omega arith in
      rw e (rows_hit n (y + 1) _ q k b (omega arith) hk hb)

-- The two bytes of a pixel come out as they went in.
two_bytes :
    (x y b : ℕ)
    → x < 256
    → y < 256
    → b < 2
    → byte_of b (bit_or (u16 (x <<< 8)) y) ≡ (if b == 0 then x else y)
two_bytes x y b hx hy hb =
    let e : bit_or (u16 (x <<< 8)) y ≡ x * 2 ^ 8 + y =
      ap (λ t. bit_or t y) {x = u16 (x <<< 8)} {y = x * 2 ^ 8} (omega arith)
      ∙ bit_or_fields 8 x y hy in
    rw e (ground arith)

one_bit : (b : ℕ) → b < 2 → (b == 0) ≡ false → b ≡ 1
one_bit b h e = ground arith

-- The GRAM holds a picture of 384 * 216 pixels, given by its bytes, where the OS draws.
abbrev Holds : (ℕ → ℕ) → (ℕ → ℕ) → Type 0
Holds gram a =
    (y x : ℕ)
    → y < fb_height
    → x < fb_width
    → gram (y * panel_w + os_origin_h - x)
      ≡ bit_or (u16 (a ((y * fb_width + x) * 2) <<< 8)) (a ((y * fb_width + x) * 2 + 1))

drawn :
    (pfc : RegMap) (l : Lcd) (a dst : ℕ → ℕ) (j : ℕ)
    → lit pfc l ≡ true
    → ((i : ℕ) → a i < 256)
    → Holds l.gram a
    → j < fb_width * fb_height * 2
    → render_os pfc l dst j ≡ a j
unfolding render_os
drawn pfc l a dst j on bytes holds hj =
    let y = j / 2 / fb_width in
    let x = j / 2 % fb_width in
    let b = j % 2 in
    let at = (y * fb_width + x) * 2 in
    let index : ((0 + y) * fb_width + x) * 2 + b ≡ j = omega arith in
    let hit =
      rows_hit l.gram fb_width os_origin_h fb_height 0 dst y x b (omega arith) (omega arith)
        (omega arith) in
    let same : (if b == 0 then a at else a (at + 1)) ≡ a j = elim (Bool-cases (b == 0)) [
      | inl even ↦ let z : at ≡ j = omega (arith, (==_iff b 0).0 even) in rw even (ap a z)
      | inr odd ↦ let z : at + 1 ≡ j = omega (arith, one_bit b (omega arith) odd) in rw odd (ap a z)
    ] in
    rw on (
      ap (render_rows l.gram fb_width os_origin_h 0 fb_height dst) (sym index)
      ∙ hit
      ∙ ap (λ i. byte_of b (l.gram i)) {y = y * panel_w + os_origin_h - x} (omega arith)
      ∙ ap (byte_of b) (holds y x (omega arith) (omega arith))
      ∙ two_bytes (a at) (a (at + 1)) b (bytes at) (bytes (at + 1)) (omega arith)
      ∙ same)

-- The registers as the OS sets them for a push of its frame, and the counter at the corner.
pub record IsOsPush (l : Lcd) : Type 0 where
  pub selected : l.idx ≡ 0x202
  pub left : hsa l ≡ 6
  pub right : hea l ≡ os_origin_h
  pub top : vsa l ≡ 0
  pub bottom : vea l ≡ fb_height - 1
  pub mirrored : h_up l ≡ false
  pub downward : v_up l ≡ true
  pub lines : vertical_first l ≡ false
  pub at_h : l.h ≡ os_origin_h
  pub at_v : l.v ≡ 0

-- With the registers as the OS sets them, and the panel lit, a transfer of the 384 * 216 pixels of
-- VRAM is what the host then draws, byte for byte.
pub render_os-dma :
    (pfc : RegMap) (l : Lcd) (src : List ℕ) (dst : ℕ → ℕ) (j : ℕ)
    → IsOsPush l
    → lit pfc l ≡ true
    → length src ≡ fb_width * fb_height * 2
    → ((i : ℕ) → get_or src i 0 < 256)
    → j < fb_width * fb_height * 2
    → render_os pfc (dma l src) dst j ≡ get_or src j 0
unfolding lit
render_os-dma pfc l src dst j o on whole bytes hj =
    let wide : width l ≡ fb_width = omega (arith, o.left, o.right) in
    let high : height l ≡ fb_height = omega (arith, o.top, o.bottom) in
    let w : IsWindow l = record {
      wide = omega (arith, o.left, o.right);
      in_width = omega (arith, o.right);
      high = omega (arith, o.top, o.bottom);
      in_height = omega (arith, o.bottom);
      by_line = o.lines;
    } in
    let at_column : (x : ℕ) → column l x ≡ os_origin_h - x = λ x. rw (o.mirrored, o.right) refl in
    let at_line : (y : ℕ) → line l y ≡ y = λ y. rw (o.downward, o.top) (omega arith) in
    let filled = λ (y x : ℕ) (hy : y < height l) (hx : x < width l).
      fill_lem l src y x w o.selected (o.at_h ∙ sym (at_column 0)) (o.at_v ∙ sym (at_line 0))
        (rw (wide, high) (whole ∙ omega arith)) hy hx in
    drawn pfc (dma l src) (λ i. get_or src i 0) dst j
      (ap (λ (ws : ℕ → ℕ). bit_and (ws 0x007) 0x0100 != 0 && backlight (pfc 0x12E))
          (filled 0 0 (omega (arith, high)) (omega (arith, wide))).3
        ∙ on)
      bytes
      (λ y x hy hx.
        ap (dma l src).gram {y = place l y x} (omega (arith, at_line y, at_column x))
        ∙ (filled y x (omega (arith, high)) (omega (arith, wide))).0
        ∙ ap (λ t. pixel_at src (y * t + x)) wide)
      hj

seed_row_miss :
    (src : ℕ → ℕ) (n y x : ℕ) (gram : ℕ → ℕ) (j : ℕ)
    → x + n ≤ fb_width
    → (j < y * panel_w + 6) ⊎ (y * panel_w + 390 - x ≤ j)
    → seed_row src y x n gram j ≡ gram j
unfolding seed_row
seed_row_miss src zero y x gram j hx h = refl
seed_row_miss src (suc n) y x gram j hx h =
    seed_row_miss src n y (x + 1) _ j (omega arith) (ground arith) ∙ ground arith

seed_row_hit :
    (src : ℕ → ℕ) (n y x : ℕ) (gram : ℕ → ℕ) (k : ℕ)
    → x + n ≤ fb_width
    → x ≤ k
    → k < x + n
    → seed_row src y x n gram (y * panel_w + os_origin_h - k)
      ≡ bit_or (u16 (src ((y * fb_width + k) * 2) <<< 8)) (src ((y * fb_width + k) * 2 + 1))
unfolding seed_row
seed_row_hit src zero y x gram k hx lo hi = absurd (omega arith)
seed_row_hit src (suc n) y x gram k hx lo hi = elim (Bool-cases (x == k)) [
  | inl same ↦
      let e : x ≡ k = (==_iff _ _).0 same in
      let value = λ (t : ℕ).
        bit_or (u16 (src ((y * fb_width + t) * 2) <<< 8)) (src ((y * fb_width + t) * 2 + 1)) in
      let self : (y * panel_w + os_origin_h - k == y * panel_w + os_origin_h - k) ≡ true =
        (==_iff _ _).1 refl in
      seed_row_miss src n y (x + 1) _ (y * panel_w + os_origin_h - k) (omega arith)
        (inr (omega (arith, e)))
      ∙ ap
          (λ t.
            put_word gram (y * panel_w + os_origin_h - t) (value t) (y * panel_w + os_origin_h - k))
          e
      ∙ rw self refl
  | inr other ↦
      let differ : x ≢ k = λ e. absurd (true≢false (sym ((==_iff _ _).1 e) ∙ other)) in
      seed_row_hit src n y (x + 1) _ k (omega arith) (omega (arith, differ)) (omega arith)
]

seed_rows_miss :
    (src : ℕ → ℕ) (n y : ℕ) (gram : ℕ → ℕ) (j : ℕ)
    → j < y * panel_w + 6
    → seed_rows src y n gram j ≡ gram j
unfolding seed_rows
seed_rows_miss src zero y gram j h = refl
seed_rows_miss src (suc n) y gram j h =
    seed_rows_miss src n (y + 1) _ j (omega arith)
    ∙ seed_row_miss src fb_width y 0 gram j (omega arith) (inl h)

seed_rows_hit :
    (src : ℕ → ℕ) (n y : ℕ) (gram : ℕ → ℕ) (q k : ℕ)
    → q < n
    → k < fb_width
    → seed_rows src y n gram ((y + q) * panel_w + os_origin_h - k)
      ≡ bit_or
          (u16 (src (((y + q) * fb_width + k) * 2) <<< 8))
          (src (((y + q) * fb_width + k) * 2 + 1))
unfolding seed_rows
seed_rows_hit src zero y gram q k hq hk = absurd (omega arith)
seed_rows_hit src (suc n) y gram zero k hq hk =
    let e : y + 0 ≡ y = omega arith in
    let here : seed_rows src (y + 1) n (seed_row src y 0 fb_width gram)
          (y * panel_w + os_origin_h - k)
        ≡ bit_or (u16 (src ((y * fb_width + k) * 2) <<< 8)) (src ((y * fb_width + k) * 2 + 1)) =
      seed_rows_miss src n (y + 1) _ (y * panel_w + os_origin_h - k) (omega arith)
      ∙ seed_row_hit src fb_width y 0 gram k (omega arith) (omega arith) (omega arith) in
    rw e here
seed_rows_hit src (suc n) y gram (suc q) k hq hk =
    let e : y + suc q ≡ y + 1 + q = omega arith in
    rw e (seed_rows_hit src n (y + 1) _ q k (omega arith) hk)

abbrev under : Lcd → ℕ → ℕ → ℕ
under l frame j = if ltb j (panel_w * panel_h) then frame else l.gram j

-- After a resume from VRAM, with the panel lit, the host draws VRAM, byte for byte, whatever the
-- GRAM and the colour of the frame.
pub render_os-seed_from_vram :
    (pfc : RegMap) (l : Lcd) (src : ℕ → ℕ) (frame : ℕ) (dst : ℕ → ℕ) (j : ℕ)
    → lit pfc l ≡ true
    → ((i : ℕ) → src i < 256)
    → j < fb_width * fb_height * 2
    → render_os pfc (seed_from_vram l src frame) dst j ≡ src j
unfolding seed_from_vram lit
render_os-seed_from_vram pfc l src frame dst j on bytes hj =
    drawn pfc (seed_from_vram l src frame) src dst j on bytes
      (λ y x hy hx.
        subst
          (λ t.
            seed_rows src 0 fb_height (under l frame) (t * panel_w + os_origin_h - x)
            ≡ bit_or (u16 (src ((t * fb_width + x) * 2) <<< 8)) (src ((t * fb_width + x) * 2 + 1)))
          {x = 0 + y} {y = y} (omega arith)
          (seed_rows_hit src fb_height 0 (under l frame) y x hy hx))
      hj
