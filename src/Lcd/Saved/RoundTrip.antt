-- ===== src/Lcd/Saved/RoundTrip.antt =====
-- What the display controller's `stateMap` saves is what `restoreState` brings back.
use casio_cg.Base.{
  ℕ, zero, suc, ◌+◌, ◌-◌, ◌≤◌, ◌<◌, bit_and, ◌≡◌, refl, sym, ap, ◌∙◌, fun_ext, ◌⊎◌, inl, inr, none,
  arith, ltb, ◌==◌, ◌!=◌, if◌then◌else◌, ==_iff, Bool-cases, bit_and_mask, RegMap, no_regs, reg,
  put, value,
}
use casio_cg.Lcd.{lcd_reg, Lcd}
use casio_cg.Lcd.Saved.{
  lcd_key_ver, lcd_key_idx, lcd_key_h, lcd_key_v, lcd_key_reg, put_words, state_map, load_words,
  restore_state, IsSavable,
}

put_words-other :
    (m : RegMap) (words : ℕ → ℕ) (i n k : ℕ)
    → (k < lcd_key_reg + i) ⊎ (lcd_key_reg + i + n ≤ k)
    → put_words m words i n k ≡ m k
unfolding put_words
put_words-other m words i zero k h = refl
put_words-other m words i (suc n) k h =
    put_words-other (if words i != 0 then put m (lcd_key_reg + i) (words i) else m) words (i + 1) n
      k (ground arith)
    ∙ ground arith

put_words-at :
    (m : RegMap) (words : ℕ → ℕ) (i n j : ℕ)
    → i ≤ j
    → j < i + n
    → m (lcd_key_reg + j) ≡ none
    → reg (put_words m words i n) (lcd_key_reg + j) ≡ words j
unfolding put_words
put_words-at m words i zero j lo hi blank = absurd (omega arith)
put_words-at m words i (suc n) j lo hi blank =
    let m' = if words i != 0 then put m (lcd_key_reg + i) (words i) else m in
    elim (Bool-cases (i == j)) [
      | inl same ↦
          let e : i ≡ j = (==_iff _ _).0 same in
          let kept : put_words m' words (i + 1) n (lcd_key_reg + j) ≡ m' (lcd_key_reg + j) =
            put_words-other m' words (i + 1) n (lcd_key_reg + j) (inl (omega (arith, e))) in
          ap value kept
          ∙ ap
              (λ t.
                value (
                  (if words t != 0 then put m (lcd_key_reg + t) (words t) else m)
                    (lcd_key_reg + j)))
              e
          ∙ ground arith
      | inr other ↦
          let blank' : m' (lcd_key_reg + j) ≡ none = ground arith in
          put_words-at m' words (i + 1) n j (ground arith) (omega arith) blank'
    ]

-- Below the registers' keys nothing is saved, and above them the marker, the index and the counter.
abbrev marks : Lcd → RegMap
marks l = put (put (put (put no_regs lcd_key_ver 2) lcd_key_idx l.idx) lcd_key_h l.h) lcd_key_v l.v

state_map-mark : (l : Lcd) (k : ℕ) → lcd_key_reg + lcd_reg ≤ k → state_map l k ≡ marks l k
unfolding state_map
state_map-mark l k h = put_words-other (marks l) l.words 0 lcd_reg k (inr (omega arith))

state_map-word : (l : Lcd) (j : ℕ) → j < lcd_reg → reg (state_map l) (lcd_key_reg + j) ≡ l.words j
unfolding state_map
state_map-word l j h =
    put_words-at (marks l) l.words 0 lcd_reg j (omega arith) (omega arith) (ground arith)

words_back : (l : Lcd) → IsSavable l → (i : ℕ) → load_words (state_map l) i ≡ l.words i
words_back l w i = elim (Bool-cases (ltb i lcd_reg)) [
  | inl inside ↦
      let at = state_map-word l i (ground arith) in
      let fits = w.word i in rw (inside, at) (omega arith)
  | inr outside ↦ rw outside (sym (w.beyond i (ground arith)))
]

-- Restoring the saved map of a controller into any other one gives its registers, its index and
-- its address counter; the GRAM, which is not saved, stays as it was.
pub restore-lcd_state :
    (l l' : Lcd)
    → IsSavable l
    → restore_state l' (state_map l) ≡ record l { gram = l'.gram; gen = l'.gen }
unfolding restore_state
restore-lcd_state l l' w =
    let ver : reg (state_map l) lcd_key_ver ≡ 2 =
      ap value (state_map-mark l lcd_key_ver (omega arith)) in
    let at_idx : reg (state_map l) lcd_key_idx ≡ l.idx =
      ap value (state_map-mark l lcd_key_idx (omega arith)) in
    let at_h : reg (state_map l) lcd_key_h ≡ l.h =
      ap value (state_map-mark l lcd_key_h (omega arith)) in
    let at_v : reg (state_map l) lcd_key_v ≡ l.v =
      ap value (state_map-mark l lcd_key_v (omega arith)) in
    let small : bit_and l.idx (lcd_reg - 1) ≡ l.idx =
      omega (arith, bit_and_mask 11 l.idx, w.index) in
    rw (ver, at_idx, small, at_h, at_v)
      (λ j. record l { gram = l'.gram; gen = l'.gen; words = fun_ext (words_back l w) j })
