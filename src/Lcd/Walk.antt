-- ===== src/Lcd/Walk.antt =====
-- The walk of the address counter over a window: the next column, and the first one of the next row.
use casio_cg.Base.{
  ℕ, suc, ◌+◌, ◌-◌, ◌*◌, ◌≤◌, ◌<◌, ◌≡◌, refl, ap, inl, inr, true, false, arith, ltb, leb, ◌==◌,
  if◌then◌else◌, Bool-cases, bit_and_mask, u32, u64, sub32,
}
use casio_cg.Lcd.{
  panel_w, panel_h, put_word, hsa, hea, vsa, vea, h_up, v_up, vertical_first, store_pixel, step_h,
  step_v, walk_on, Lcd,
}

-- The place of column i and row r, counted from the corner that the scan starts from.
abbrev pub column : Lcd → ℕ → ℕ
column l i = if h_up l then hsa l + i else hea l - i

abbrev pub line : Lcd → ℕ → ℕ
line l r = if v_up l then vsa l + r else vea l - r

abbrev pub place : Lcd → ℕ → ℕ → ℕ
place l r i = line l r * panel_w + column l i

abbrev pub width : Lcd → ℕ
width l = hea l + 1 - hsa l

abbrev pub height : Lcd → ℕ
height l = vea l + 1 - vsa l

-- A window on the panel, filled line by line.
pub record IsWindow (l : Lcd) : Type 0 where
  pub wide : hsa l ≤ hea l
  pub in_width : hea l < panel_w
  pub high : vsa l ≤ vea l
  pub in_height : vea l < panel_h
  pub by_line : vertical_first l ≡ false

-- The controller with its counter at a place, and with some GRAM.
abbrev pub standing : Lcd → ℕ → ℕ → (ℕ → ℕ) → ℕ → Lcd
standing l r i g n = record l { h = column l i; v = line l r; gram = g; gen = n }

abbrev pub next_line : Lcd → ℕ → ℕ
next_line l r = if suc r == height l then 0 else suc r

module _ (l : Lcd) (w : IsWindow l) where
  h_limit : hea l ≤ 0x1FF
  h_limit = omega (arith, bit_and_mask 9 (l.words 0x211))

  v_limit : vea l ≤ 0x1FF
  v_limit = omega (arith, bit_and_mask 9 (l.words 0x213))

  pub stored :
      (r i : ℕ) (g : ℕ → ℕ) (n c : ℕ)
      → r < height l
      → i < width l
      → store_pixel (standing l r i g n) c
        ≡ standing l r i (put_word g (place l r i) c) (u64 (n + 1))
  unfolding store_pixel
  stored r i g n c hr hi =
      let a : ltb (column l i) panel_w ≡ true = ground (arith, w.in_width, w.wide) in
      let b : ltb (line l r) panel_h ≡ true = ground (arith, w.in_height, w.high) in rw (a, b) refl

  h_mid :
      (r i : ℕ) (g : ℕ → ℕ) (n : ℕ)
      → suc i < width l
      → step_h (standing l r i g n) ≡ (standing l r (suc i) g n, false)
  unfolding step_h
  h_mid r i g n hi = elim (Bool-cases (h_up l)) [
    | inl up ↦
        let test : leb (hea l) (hsa l + i) ≡ false = ground arith in
        let here : u32 (hsa l + i + 1) ≡ hsa l + suc i = omega (arith, h_limit) in
        rw (up, test, here) refl
    | inr down ↦
        let test : leb (hea l - i) (hsa l) ≡ false = ground (arith, w.wide) in
        let here : sub32 (hea l - i) 1 ≡ hea l - suc i = omega (arith, h_limit) in
        rw (down, test, here) refl
  ]

  h_end :
      (r i : ℕ) (g : ℕ → ℕ) (n : ℕ)
      → suc i ≡ width l
      → step_h (standing l r i g n) ≡ (standing l r 0 g n, true)
  unfolding step_h
  h_end r i g n hi = elim (Bool-cases (h_up l)) [
    | inl up ↦
        let test : leb (hea l) (hsa l + i) ≡ true = ground (arith, w.wide) in
        let here : hsa l ≡ hsa l + 0 = omega arith in
        rw (up, test) (ap (λ (x : ℕ). (record (standing l r i g n) { h = x }, true)) here)
    | inr down ↦
        let test : leb (hea l - i) (hsa l) ≡ true = ground (arith, w.wide) in
        let here : hea l ≡ hea l - 0 = omega arith in
        rw (down, test) (ap (λ (x : ℕ). (record (standing l r i g n) { h = x }, true)) here)
  ]

  v_mid :
      (r i : ℕ) (g : ℕ → ℕ) (n : ℕ)
      → suc r < height l
      → step_v (standing l r i g n) ≡ (standing l (suc r) i g n, false)
  unfolding step_v
  v_mid r i g n hr = elim (Bool-cases (v_up l)) [
    | inl up ↦
        let test : leb (vea l) (vsa l + r) ≡ false = ground arith in
        let here : u32 (vsa l + r + 1) ≡ vsa l + suc r = omega (arith, v_limit) in
        rw (up, test, here) refl
    | inr down ↦
        let test : leb (vea l - r) (vsa l) ≡ false = ground (arith, w.high) in
        let here : sub32 (vea l - r) 1 ≡ vea l - suc r = omega (arith, v_limit) in
        rw (down, test, here) refl
  ]

  v_end :
      (r i : ℕ) (g : ℕ → ℕ) (n : ℕ)
      → suc r ≡ height l
      → step_v (standing l r i g n) ≡ (standing l 0 i g n, true)
  unfolding step_v
  v_end r i g n hr = elim (Bool-cases (v_up l)) [
    | inl up ↦
        let test : leb (vea l) (vsa l + r) ≡ true = ground (arith, w.high) in
        let here : vsa l ≡ vsa l + 0 = omega arith in
        rw (up, test) (ap (λ (x : ℕ). (record (standing l r i g n) { v = x }, true)) here)
    | inr down ↦
        let test : leb (vea l - r) (vsa l) ≡ true = ground (arith, w.high) in
        let here : vea l ≡ vea l - 0 = omega arith in
        rw (down, test) (ap (λ (x : ℕ). (record (standing l r i g n) { v = x }, true)) here)
  ]

  -- The counter after a pixel: the next column, or the first one of the next row.
  pub walk_mid :
      (r i : ℕ) (g : ℕ → ℕ) (n : ℕ)
      → suc i < width l
      → walk_on (standing l r i g n) ≡ standing l r (suc i) g n
  unfolding walk_on
  walk_mid r i g n hi = rw (w.by_line, h_mid r i g n hi) refl

  pub walk_end :
      (r i : ℕ) (g : ℕ → ℕ) (n : ℕ)
      → suc i ≡ width l
      → r < height l
      → walk_on (standing l r i g n) ≡ standing l (next_line l r) 0 g n
  unfolding walk_on
  walk_end r i g n hi hr = elim (Bool-cases (suc r == height l)) [
    | inl last ↦ rw (w.by_line, h_end r i g n hi, last, v_end r 0 g n (ground arith)) refl
    | inr more ↦ rw (w.by_line, h_end r i g n hi, more, v_mid r 0 g n (ground arith)) refl
  ]

column_fits : (l : Lcd) (w : IsWindow l) (i : ℕ) → i < width l → column l i < panel_w
column_fits l w i h = ground (arith, w.in_width, w.wide)

column_inj : (l : Lcd) (i i' : ℕ) → i < width l → i' < width l → column l i ≡ column l i' → i ≡ i'
column_inj l i i' h h' e = ground arith

line_inj : (l : Lcd) (r r' : ℕ) → r < height l → r' < height l → line l r ≡ line l r' → r ≡ r'
line_inj l r r' h h' e = ground arith

-- Two places of the window are one only if their row and column are.
pub place_inj :
    (l : Lcd) (w : IsWindow l) (r r' i i' : ℕ)
    → r < height l
    → r' < height l
    → i < width l
    → i' < width l
    → place l r i ≡ place l r' i'
    → (r ≡ r') × (i ≡ i')
place_inj l w r r' i i' hr hr' hi hi' e =
    let a = column_fits l w i hi in
    let b = column_fits l w i' hi' in
    (
      line_inj l r r' hr hr' (omega (arith, e, a, b)),
      column_inj l i i' hi hi' (omega (arith, e, a, b)),
    )
