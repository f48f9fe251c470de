-- ===== src/Lcd/Window.antt =====
-- The window: a stream of pixels keeps the address counter in the window, and changes no pixel
-- outside of it.
use casio_cg.Base.{
  ℕ, ◌+◌, ◌*◌, ◌≤◌, ◌<◌, bit_or, ◌≡◌, refl, ap, ◌∙◌, ◌≢◌, Bool, true, false, List, [], ◌∷◌, arith,
  if◌then◌else◌, bit_and_mask, u16, ◌<<<◌,
}
use casio_cg.Lcd.{
  panel_w, panel_h, hsa, hea, vsa, vea, vertical_first, store_pixel, step_h, step_v, walk_on, pixel,
  put_data, dma, Lcd,
}

-- The address counter stands in the window of the registers R210 to R213.
pub record InWindow (l : Lcd) : Type 0 where
  pub h_low : hsa l ≤ l.h
  pub h_high : l.h ≤ hea l
  pub v_low : vsa l ≤ l.v
  pub v_high : l.v ≤ vea l

-- GRAM has no such index, or it is that of a pixel outside of the window.
abbrev pub Outside : Lcd → ℕ → Type 0
Outside l j =
    (h v : ℕ)
    → hsa l ≤ h
    → h ≤ hea l
    → vsa l ≤ v
    → v ≤ vea l
    → h < panel_w
    → v < panel_h
    → j ≢ v * panel_w + h

h_end : (l : Lcd) → hea l ≤ 0x1FF
h_end l = omega (arith, bit_and_mask 9 (l.words 0x211))

v_end : (l : Lcd) → vea l ≤ 0x1FF
v_end l = omega (arith, bit_and_mask 9 (l.words 0x213))

step_h-InWindow : (l : Lcd) → InWindow l → InWindow (step_h l).0
unfolding step_h
step_h-InWindow l w = ground (arith, h_end l)

step_v-InWindow : (l : Lcd) → InWindow l → InWindow (step_v l).0
unfolding step_v
step_v-InWindow l w = ground (arith, v_end l)

-- The walk moves only the counter.
abbrev Moved : Lcd → Lcd → Type 0
Moved l l' = (l'.idx ≡ l.idx) × (l'.words ≡ l.words) × (l'.gram ≡ l.gram)

step_h-Moved : (l : Lcd) → Moved l (step_h l).0
unfolding step_h
step_h-Moved l = ground arith

step_v-Moved : (l : Lcd) → Moved l (step_v l).0
unfolding step_v
step_v-Moved l = ground arith

either-InWindow :
    (b : Bool) (l l' : Lcd) → InWindow l → InWindow l' → InWindow (if b then l else l')
either-InWindow true l l' w w' = w
either-InWindow false l l' w w' = w'

walk_on-InWindow : (l : Lcd) → InWindow l → InWindow (walk_on l)
unfolding walk_on
walk_on-InWindow l w =
    let a = step_h-InWindow l w in
    let b = step_v-InWindow l w in
    either-InWindow (vertical_first l) _ _
      (either-InWindow ((step_v l).1) _ _ (step_h-InWindow (step_v l).0 b) b)
      (either-InWindow ((step_h l).1) _ _ (step_v-InWindow (step_h l).0 a) a)

walk_on-Moved : (l : Lcd) → Moved l (walk_on l)
unfolding walk_on
walk_on-Moved l =
    ground
      (arith, step_h-Moved l, step_v-Moved l, step_h-Moved (step_v l).0, step_v-Moved (step_h l).0)

-- One pixel: the window and the index stay, and a pixel that changes lies in the window.
record Stays (l l' : Lcd) : Type 0 where
  same_idx : l'.idx ≡ l.idx
  same_words : l'.words ≡ l.words
  inside : InWindow l'
  outside : (j : ℕ) → Outside l j → l'.gram j ≡ l.gram j

store_pixel-Outside :
    (l : Lcd) (c j : ℕ) → InWindow l → Outside l j → (store_pixel l c).gram j ≡ l.gram j
unfolding store_pixel
store_pixel-Outside l c j w out = ground (arith, out l.h l.v w.h_low w.h_high w.v_low w.v_high)

store_pixel-Moved :
    (l : Lcd) (c : ℕ)
    → ((store_pixel l c).idx ≡ l.idx)
      × ((store_pixel l c).words ≡ l.words)
      × ((store_pixel l c).h ≡ l.h)
      × ((store_pixel l c).v ≡ l.v)
unfolding store_pixel
store_pixel-Moved l c = ground arith

pub put_data-pixel : (l : Lcd) (v : ℕ) → l.idx ≡ 0x202 → put_data l v ≡ walk_on (store_pixel l v)
unfolding put_data pixel
put_data-pixel l v e = rw e refl

-- The window depends on the registers only.
InWindow-same :
    {l l' : Lcd} → l'.words ≡ l.words → l'.h ≡ l.h → l'.v ≡ l.v → InWindow l → InWindow l'
InWindow-same {l} {l'} e a b w = record {
  h_low = rw (e, a) w.h_low;
  h_high = rw (e, a) w.h_high;
  v_low = rw (e, b) w.v_low;
  v_high = rw (e, b) w.v_high;
}

Outside-same : (l l' : Lcd) (j : ℕ) → l'.words ≡ l.words → Outside l j → Outside l' j
Outside-same l l' j e out =
    λ h v a b c d. out h v (rw (← e) a) (rw (← e) b) (rw (← e) c) (rw (← e) d)

put_data-Stays : (l : Lcd) (v : ℕ) → l.idx ≡ 0x202 → InWindow l → Stays l (put_data l v)
put_data-Stays l v e w =
    let s = store_pixel l v in
    let (i, ws, sh, sv) = store_pixel-Moved l v in
    let (i', ws', g) = walk_on-Moved s in
    rw (put_data-pixel l v e) (record {
      same_idx = i' ∙ i;
      same_words = ws' ∙ ws;
      inside = walk_on-InWindow s (InWindow-same ws sh sv w);
      outside = λ j out. ap (λ (a : ℕ → ℕ). a j) g ∙ store_pixel-Outside l v j w out;
    })

dma-Stays : (l : Lcd) (src : List ℕ) → l.idx ≡ 0x202 → InWindow l → Stays l (dma l src)
unfolding dma
dma-Stays l [] e w = record {
  same_idx = refl;
  same_words = refl;
  inside = w;
  outside = λ j out. refl;
}
dma-Stays l (x ∷ []) e w = record {
  same_idx = refl;
  same_words = refl;
  inside = w;
  outside = λ j out. refl;
}
dma-Stays l (x ∷ (y ∷ src)) e w =
    let l' = put_data l (bit_or (u16 (x <<< 8)) y) in
    let one = put_data-Stays l (bit_or (u16 (x <<< 8)) y) e w in
    let rest = dma-Stays l' src (one.same_idx ∙ e) one.inside in
    record {
      same_idx = rest.same_idx ∙ one.same_idx;
      same_words = rest.same_words ∙ one.same_words;
      inside = rest.inside;
      outside =
          λ j out. rest.outside j (Outside-same l l' j one.same_words out) ∙ one.outside j out;
    }

-- A stream of any bytes into GRAM, from a counter that stands in the window, leaves the counter in
-- the window and the registers as they are, and changes no word but the pixels of the window: none
-- at an index that is not one of the panel's 396 * 224.
pub dma-InWindow :
    (l : Lcd) (src : List ℕ) (j j' : ℕ)
    → l.idx ≡ 0x202
    → InWindow l
    → Outside l j
    → panel_w * panel_h ≤ j'
    → InWindow (dma l src)
      × ((dma l src).words ≡ l.words)
      × ((dma l src).gram j ≡ l.gram j)
      × ((dma l src).gram j' ≡ l.gram j')
dma-InWindow l src j j' e w out beyond =
    let all = dma-Stays l src e w in
    (
      all.inside,
      all.same_words,
      all.outside j out,
      all.outside j' (λ h v a b c d x y. λ eq. absurd (omega (arith, eq))),
    )
