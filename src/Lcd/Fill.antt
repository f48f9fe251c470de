-- ===== src/Lcd/Fill.antt =====
-- A stream of pixels fills the window row by row, from the corner that the entry mode gives, in the
-- modes that go along rows.
use casio_cg.Base.{
  ℕ, zero, suc, ◌+◌, ◌-◌, ◌*◌, ◌≤◌, ◌<◌, ◌≡◌, refl, sym, ap, ◌∙◌, subst, ◌≢◌, inl, inr, Bool, true,
  false, List, arith, ◌==◌, if◌then◌else◌, ==_iff, Bool-cases, length, u64, true≢false,
}
use casio_cg.Lcd.{put_word, walk_on, put_data, dma, Lcd}
use casio_cg.Lcd.Window.{put_data-pixel}
use casio_cg.Lcd.Walk.{
  column, line, place, width, height, standing, next_line, stored, walk_mid, walk_end, place_inj,
  IsWindow,
}
use casio_cg.Lcd.Stream.{stream, stream_rows, stream_rows_lem, pixel_at, dma-stream}

-- The GRAM after m pixels of row r from column i on, and after m whole rows from row r on.
unfoldable pub paint : Lcd → (ℕ → ℕ) → (ℕ → ℕ) → ℕ → ℕ → ℕ → ℕ → ℕ → ℕ
paint l p g r i zero off = g
paint l p g r i (suc m) off = paint l p (put_word g (place l r i) (p off)) r (suc i) m (off + 1)

unfoldable pub paint_lines : Lcd → (ℕ → ℕ) → (ℕ → ℕ) → ℕ → ℕ → ℕ → ℕ → ℕ
unfolding paint
paint_lines l p g r zero off = g
paint_lines l p g r (suc m) off =
    paint_lines l p (paint l p g r 0 (width l) off) (suc r) m (off + width l)

module _ (l : Lcd) (w : IsWindow l) (selected : l.idx ≡ 0x202) (p : ℕ → ℕ) where
  one :
      (r i : ℕ) (g : ℕ → ℕ) (n c : ℕ)
      → r < height l
      → i < width l
      → put_data (standing l r i g n) c
        ≡ walk_on (standing l r i (put_word g (place l r i) c) (u64 (n + 1)))
  one r i g n c hr hi =
      put_data-pixel (standing l r i g n) c selected ∙ ap walk_on (stored l w r i g n c hr hi)

  -- m pixels, to the end of a row.
  stream_line :
      (m r i off : ℕ) (g : ℕ → ℕ) (n : ℕ)
      → suc (i + m) ≡ width l
      → r < height l
      → (n' : ℕ) × (stream (standing l r i g n) p off (suc m)
          ≡ standing l (next_line l r) 0 (paint l p g r i (suc m) off) n')
  unfolding stream paint
  stream_line zero r i off g n hi hr =
      (u64 (n + 1), one r i g n (p off) hr (omega arith) ∙ walk_end l w r i _ _ (omega arith) hr)
  stream_line (suc m) r i off g n hi hr =
      let g' = put_word g (place l r i) (p off) in
      let (n', rest) = stream_line m r (suc i) (off + 1) g' (u64 (n + 1)) (omega arith) hr in
      let first : put_data (standing l r i g n) (p off) ≡ standing l r (suc i) g' (u64 (n + 1)) =
        one r i g n (p off) hr (omega arith) ∙ walk_mid l w r i g' (u64 (n + 1)) (omega arith) in
      (n', ap (λ x. stream x p (off + 1) (suc m)) first ∙ rest)

  whole_line :
      (r off : ℕ) (g : ℕ → ℕ) (n : ℕ)
      → r < height l
      → (n' : ℕ) × (stream (standing l r 0 g n) p off (width l)
          ≡ standing l (next_line l r) 0 (paint l p g r 0 (width l) off) n')
  whole_line r off g n hr =
      let m = width l - 1 in
      let e : suc m ≡ width l = omega (arith, w.wide) in
      let (n', done) = stream_line m r 0 off g n (omega (arith, w.wide)) hr in
      (
        n',
        subst
            (λ k.
              stream (standing l r 0 g n) p off k
              ≡ standing l (next_line l r) 0 (paint l p g r 0 k off) n')
            e done,
      )

  -- m whole rows, to the last one.
  stream_lines :
      (m r off : ℕ) (g : ℕ → ℕ) (n : ℕ)
      → suc (r + m) ≡ height l
      → (n' : ℕ) × (stream_rows (standing l r 0 g n) p off (width l) (suc m)
          ≡ standing l 0 0 (paint_lines l p g r (suc m) off) n')
  unfolding paint_lines stream_rows
  stream_lines zero r off g n hr =
      let (n', e) = whole_line r off g n (omega arith) in
      let last : (suc r == height l) ≡ true = ground arith in (n', e ∙ rw last refl)
  stream_lines (suc m) r off g n hr =
      let g' = paint l p g r 0 (width l) off in
      let (n1, e) = whole_line r off g n (omega arith) in
      let more : (suc r == height l) ≡ false = ground arith in
      let e' = e ∙ ap (λ (b : Bool). standing l (if b then 0 else suc r) 0 g' n1) more in
      let (n2, rest) = stream_lines m (suc r) (off + width l) g' n1 (omega arith) in
      (n2, ap (λ x. stream_rows x p (off + width l) (width l) (suc m)) e' ∙ rest)

module _ (l : Lcd) (w : IsWindow l) (p : ℕ → ℕ) where
  paint_miss :
      (m r i off : ℕ) (g : ℕ → ℕ) (j : ℕ)
      → ((k : ℕ) → i ≤ k → k < i + m → j ≢ place l r k)
      → paint l p g r i m off j ≡ g j
  unfolding paint
  paint_miss zero r i off g j h = refl
  paint_miss (suc m) r i off g j h =
      let here : (j == place l r i) ≡ false = elim (Bool-cases (j == place l r i)) [
        | inl same ↦ absurd (h i (omega arith) (omega arith) ((==_iff _ _).0 same))
        | inr other ↦ other
      ] in
      paint_miss m r (suc i) (off + 1) (put_word g (place l r i) (p off)) j
        (λ k a b. h k (omega arith) (omega arith))
      ∙ rw here refl

  paint_hit :
      (m r i off : ℕ) (g : ℕ → ℕ) (k : ℕ)
      → r < height l
      → i + m ≤ width l
      → i ≤ k
      → k < i + m
      → paint l p g r i m off (place l r k) ≡ p (off + (k - i))
  unfolding paint
  paint_hit zero r i off g k hr hm a b = absurd (omega arith)
  paint_hit (suc m) r i off g k hr hm a b = elim (Bool-cases (i == k)) [
    | inl same ↦
        let e : i ≡ k = (==_iff _ _).0 same in
        let self : (place l r k == place l r k) ≡ true = (==_iff _ _).1 refl in
        paint_miss m r (suc i) (off + 1) (put_word g (place l r i) (p off)) (place l r k)
          (λ k' c d eq.
            absurd (omega (arith, (place_inj l w r r k k' hr hr (omega arith) (omega arith) eq).1)))
        ∙ ap (λ x. if place l r k == place l r x then p off else g (place l r k)) e
        ∙ rw self (ap p (omega arith))
    | inr other ↦
        let differ : i ≢ k = λ e. absurd (true≢false (sym ((==_iff _ _).1 e) ∙ other)) in
        paint_hit m r (suc i) (off + 1) (put_word g (place l r i) (p off)) k hr (omega arith)
          (omega (arith, differ)) (omega arith)
        ∙ ap p (omega (arith, differ))
  ]

  lines_miss :
      (m r off : ℕ) (g : ℕ → ℕ) (j : ℕ)
      → ((r' k : ℕ) → r ≤ r' → r' < r + m → k < width l → j ≢ place l r' k)
      → paint_lines l p g r m off j ≡ g j
  unfolding paint_lines
  lines_miss zero r off g j h = refl
  lines_miss (suc m) r off g j h =
      lines_miss m (suc r) (off + width l) (paint l p g r 0 (width l) off) j
        (λ r' k a b c. h r' k (omega arith) (omega arith) c)
      ∙ paint_miss (width l) r 0 off g j (λ k a b. h r k (omega arith) (omega arith) (omega arith))

  lines_hit :
      (m r off : ℕ) (g : ℕ → ℕ) (q i : ℕ)
      → r + m ≤ height l
      → q < m
      → i < width l
      → paint_lines l p g r m off (place l (r + q) i) ≡ p (off + (q * width l + i))
  unfolding paint_lines
  lines_hit zero r off g q i hr hq hi = absurd (omega arith)
  lines_hit (suc m) r off g zero i hr hq hi =
      let e : place l (r + 0) i ≡ place l r i =
        ap (λ x. place l x i) {x = r + 0} {y = r} (omega arith) in
      ap (paint_lines l p (paint l p g r 0 (width l) off) (suc r) m (off + width l)) e
      ∙ lines_miss m (suc r) (off + width l) (paint l p g r 0 (width l) off) (place l r i)
          (λ r' k a b c eq.
            absurd (omega (arith, (place_inj l w r r' i k (omega arith) (omega arith) hi c eq).0)))
      ∙ paint_hit (width l) r 0 off g i (omega arith) (omega arith) (omega arith) (omega arith)
      ∙ ap p (omega arith)
  lines_hit (suc m) r off g (suc q) i hr hq hi =
      let e : place l (r + suc q) i ≡ place l (suc r + q) i =
        ap (λ x. place l x i) {x = r + suc q} {y = suc r + q} (omega arith) in
      ap (paint_lines l p (paint l p g r 0 (width l) off) (suc r) m (off + width l)) e
      ∙ lines_hit m (suc r) (off + width l) (paint l p g r 0 (width l) off) q i (omega arith)
          (omega arith) hi
      ∙ ap p (grind arith)

-- With a window that lies on the panel, and an entry mode that goes along the rows (AM = 0) in
-- either direction of each axis: a transfer of as many pixels as the window has, from a counter at
-- the corner where the entry mode starts, fills the window row by row with the pixels in their
-- order, and the counter is back at the corner.
pub fill_lem :
    (l : Lcd) (src : List ℕ) (r i : ℕ)
    → IsWindow l
    → l.idx ≡ 0x202
    → l.h ≡ column l 0
    → l.v ≡ line l 0
    → length src ≡ height l * width l * 2
    → r < height l
    → i < width l
    → ((dma l src).gram (place l r i) ≡ pixel_at src (r * width l + i))
      × ((dma l src).h ≡ column l 0)
      × ((dma l src).v ≡ line l 0)
      × ((dma l src).words ≡ l.words)
fill_lem l src r i w selected at_h at_v whole hr hi =
    let p = pixel_at src in
    let m = height l - 1 in
    let e : suc m ≡ height l = omega (arith, w.high) in
    let start : l ≡ standing l 0 0 l.gram l.gen = λ j. record l { h = at_h j; v = at_v j } in
    let (n, lines) = stream_lines l w selected p m 0 0 l.gram l.gen (omega (arith, w.high)) in
    let done : dma l src ≡ standing l 0 0 (paint_lines l p l.gram 0 (height l) 0) n =
      dma-stream (height l * width l) l src whole
      ∙ sym (stream_rows_lem p (width l) (height l) 0 l)
      ∙ ap (λ x. stream_rows x p 0 (width l) (height l)) start
      ∙ subst
          (λ k.
            stream_rows (standing l 0 0 l.gram l.gen) p 0 (width l) k
            ≡ standing l 0 0 (paint_lines l p l.gram 0 k 0) n)
          e lines in
    (
      ap (λ x. x.gram (place l r i)) done
          ∙ ap (paint_lines l p l.gram 0 (height l) 0)
              (ap (λ x. place l x i) {x = r} {y = 0 + r} (omega arith))
          ∙ lines_hit l w p (height l) 0 0 l.gram r i (omega arith) hr hi
          ∙ ap p (omega arith),
      ap (λ x. x.h) done,
      ap (λ x. x.v) done,
      ap (λ x. x.words) done,
    )
