-- ===== src/Lcd/Stream.antt =====
-- Words written one after the other to the data port.
use casio_cg.Base.{
  ℕ, zero, suc, ◌+◌, ◌*◌, ◌<◌, bit_or, ◌≡◌, refl, sym, ap, ap₂, ◌∙◌, List, [], ◌∷◌, arith, length,
  get_or, u16, ◌<<<◌,
}
use casio_cg.Lcd.{put_data, dma, Lcd}

-- m words of p from `off` on, written to the data port.
unfoldable pub stream : Lcd → (ℕ → ℕ) → ℕ → ℕ → Lcd
stream l p off zero = l
stream l p off (suc m) = stream (put_data l (p off)) p (off + 1) m

stream-append :
    (p : ℕ → ℕ) (m m' off : ℕ) (x : Lcd)
    → stream (stream x p off m) p (off + m) m' ≡ stream x p off (m + m')
unfolding stream
stream-append p zero m' off x =
    ap (λ a. stream x p a m') {x = off + 0} {y = off} (omega arith)
    ∙ ap (stream x p off) {x = m'} {y = 0 + m'} (omega arith)
stream-append p (suc m) m' off x =
    ap (λ a. stream (stream (put_data x (p off)) p (off + 1) m) p a m') (omega arith)
    ∙ stream-append p m m' (off + 1) (put_data x (p off))
    ∙ sym (ap (stream x p off) {x = suc m + m'} {y = suc (m + m')} (omega arith))

pub stream_ext :
    (p q : ℕ → ℕ) (m off off' : ℕ) (x : Lcd)
    → ((k : ℕ) → k < m → p (off + k) ≡ q (off' + k))
    → stream x p off m ≡ stream x q off' m
unfolding stream
stream_ext p q zero off off' x h = refl
stream_ext p q (suc m) off off' x h =
    let here : p off ≡ q off' =
      ap p {x = off} {y = off + 0} (omega arith) ∙ h 0 (omega arith) ∙ ap q (omega arith) in
    ap (λ v. stream (put_data x v) p (off + 1) m) here
    ∙ stream_ext p q m (off + 1) (off' + 1) (put_data x (q off')) (λ k hk.
      ap p {x = off + 1 + k} {y = off + suc k} (omega arith)
      ∙ h (suc k) (omega arith)
      ∙ ap q (omega arith))

-- m runs of w words.
unfoldable pub stream_rows : Lcd → (ℕ → ℕ) → ℕ → ℕ → ℕ → Lcd
unfolding stream
stream_rows x p off w zero = x
stream_rows x p off w (suc m) = stream_rows (stream x p off w) p (off + w) w m

pub stream_rows_lem :
    (p : ℕ → ℕ) (w m off : ℕ) (x : Lcd) → stream_rows x p off w m ≡ stream x p off (m * w)
unfolding stream_rows
stream_rows_lem p w zero off x = ap (stream x p off) {x = 0} {y = 0 * w} (omega arith)
stream_rows_lem p w (suc m) off x =
    stream_rows_lem p w m (off + w) (stream x p off w)
    ∙ stream-append p w (m * w) off x
    ∙ ap (stream x p off) {x = w + m * w} {y = suc m * w} (grind arith)

-- The pixel that two bytes of a transfer make.
abbrev pub pixel_at : List ℕ → ℕ → ℕ
pixel_at src k = bit_or (u16 (get_or src (k * 2) 0 <<< 8)) (get_or src (k * 2 + 1) 0)

pixel_at-cons : (x y k : ℕ) (src : List ℕ) → pixel_at src k ≡ pixel_at (x ∷ (y ∷ src)) (suc k)
pixel_at-cons x y k src =
    ap₂ (λ a b. bit_or (u16 (a <<< 8)) b)
      (ap (λ i. get_or (x ∷ (y ∷ src)) i 0) {x = suc (suc (k * 2))} {y = suc k * 2} (omega arith))
      (ap (λ i. get_or (x ∷ (y ∷ src)) i 0) {x = suc (suc (k * 2 + 1))} {y = suc k * 2 + 1}
        (omega arith))

-- A transfer of 2 * m bytes is a stream of m words.
pub dma-stream :
    (m : ℕ) (l : Lcd) (src : List ℕ) → length src ≡ m * 2 → dma l src ≡ stream l (pixel_at src) 0 m
unfolding dma stream
dma-stream zero l [] h = refl
dma-stream zero l (x ∷ src) h = absurd (omega (arith, h))
dma-stream (suc m) l [] h = absurd (omega (arith, h))
dma-stream (suc m) l (x ∷ []) h = absurd (omega (arith, h))
dma-stream (suc m) l (x ∷ (y ∷ src)) h =
    let l' = put_data l (bit_or (u16 (x <<< 8)) y) in
    dma-stream m l' src (omega (arith, h))
    ∙ stream_ext (pixel_at src) (pixel_at (x ∷ (y ∷ src))) m 0 1 l' (λ k hk.
      ap (pixel_at src) {x = 0 + k} {y = k} (omega arith)
      ∙ pixel_at-cons x y k src
      ∙ ap (pixel_at (x ∷ (y ∷ src))) {x = suc k} {y = 1 + k} (omega arith))
