-- ===== src/Lcd/Tests.antt =====
-- A controller as the OS sets it up, and small windows, for the properties of emu_go/lcd.go.
use casio_cg.Base.{
  ℕ, zero, suc, ◌+◌, ◌*◌, ◌<◌, ◌≡◌, refl, true, List, [], ◌∷◌, arith, get_or, no_regs,
}
use casio_cg.Flash.Delta.{slice}
use casio_cg.Lcd.{
  panel_w, put_word, new_lcd, lit, store_pixel, step_h, step_v, walk_on, pixel, put_data, dma,
  render_os, seed_from_vram, Lcd,
}
use casio_cg.Lcd.Window.{Outside, dma-InWindow, InWindow}
use casio_cg.Lcd.Walk.{column, line, place, width, IsWindow}
use casio_cg.Lcd.Stream.{pixel_at}
use casio_cg.Lcd.Fill.{fill_lem}
use casio_cg.Lcd.Picture.{render_os-seed_from_vram}
use casio_cg.Lcd.Saved.{state_map, restore_state, IsSavable}
use casio_cg.Lcd.Saved.RoundTrip.{restore-lcd_state}

-- The window of the OS's area, GRAM selected, and the counter at its corner.
abbrev os_words : ℕ → ℕ
os_words =
    put_word
      (put_word
        (put_word (put_word (put_word (put_word (λ i. 0) 3 0xA0) 7 0x100) 0x210 6) 0x211 389) 0x212
        0)
      0x213 215

abbrev os_push : Lcd
os_push = record { idx = 0x202; words = os_words; h = 389; v = 0; gram = λ j. 0x1234; gen = 7 }

-- A window of 2 * 3 pixels, filled to the right and upwards.
abbrev small_words : ℕ → ℕ
small_words =
    put_word (put_word (put_word (put_word (put_word (λ i. 0) 3 0x90) 0x210 10) 0x211 11) 0x212 20)
      0x213 22

abbrev small : Lcd
small = record { idx = 0x202; words = small_words; h = 10; v = 22; gram = λ j. 0; gen = 0 }

small-IsWindow : IsWindow small
small-IsWindow = record {
  wide = omega arith;
  in_width = omega arith;
  high = omega arith;
  in_height = omega arith;
  by_line = refl;
}

abbrev six_pixels : List ℕ
six_pixels = 1 ∷ (2 ∷ (3 ∷ (4 ∷ (5 ∷ (6 ∷ (7 ∷ (8 ∷ (9 ∷ (10 ∷ (11 ∷ (12 ∷ [])))))))))))

-- The fourth pixel goes to the right end of the second row from below.
runs_fill : (dma small six_pixels).gram (21 * panel_w + 11) ≡ 0x0708
unfolding dma put_data pixel store_pixel walk_on step_h step_v
runs_fill = refl

fill_lem_example :
    ((dma small six_pixels).gram (place small 1 1) ≡ pixel_at six_pixels (1 * width small + 1))
    × ((dma small six_pixels).h ≡ column small 0)
    × ((dma small six_pixels).v ≡ line small 0)
    × ((dma small six_pixels).words ≡ small.words)
fill_lem_example =
    fill_lem small six_pixels 1 1 small-IsWindow refl refl refl refl (omega arith) (omega arith)

small-InWindow : InWindow small
small-InWindow = record {
  h_low = omega arith;
  h_high = omega arith;
  v_low = omega arith;
  v_high = omega arith;
}

small-Outside : Outside small 7
small-Outside h v a b c d x y e = absurd (omega (arith, e))

dma-InWindow_example :
    InWindow (dma small six_pixels)
    × ((dma small six_pixels).words ≡ small.words)
    × ((dma small six_pixels).gram 7 ≡ small.gram 7)
    × ((dma small six_pixels).gram 100000 ≡ small.gram 100000)
dma-InWindow_example =
    dma-InWindow small six_pixels 7 100000 refl small-InWindow small-Outside (omega arith)

abbrev grey : ℕ → ℕ
grey i = 0x5A

grey_bytes : (off n i : ℕ) → get_or (slice grey off n) i 0 < 256
unfolding slice
grey_bytes off zero i = omega arith
grey_bytes off (suc n) zero = omega arith
grey_bytes off (suc n) (suc i) = grey_bytes (off + 1) n i

os_push-lit : lit no_regs os_push ≡ true
unfolding lit
os_push-lit = refl

render_os-seed_from_vram_example :
    render_os no_regs (seed_from_vram os_push grey 0xFFFF) (λ j. 0) 1000 ≡ 0x5A
render_os-seed_from_vram_example =
    render_os-seed_from_vram no_regs os_push grey 0xFFFF (λ j. 0) 1000 os_push-lit
      (λ i. omega arith) (omega arith)

os_push-IsSavable : IsSavable os_push
os_push-IsSavable = record {
  index = omega arith;
  word = λ i. ground arith;
  beyond = λ i h. ground arith;
}

restore-lcd_state_example :
    restore_state new_lcd (state_map os_push)
    ≡ record os_push { gram = new_lcd.gram; gen = new_lcd.gen }
restore-lcd_state_example = restore-lcd_state os_push new_lcd os_push-IsSavable
