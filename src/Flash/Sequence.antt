-- ===== src/Flash/Sequence.antt =====
-- Whole command sequences from the idle state: what they do, and that nothing else does.
use casio_cg.Base.{
  ℕ, ◌*◌, ◌/◌, ◌^◌, bit_and, ◌≡◌, refl, Bool, true, false, some, List, [], ◌∷◌, arith, ◌==◌,
  and_not_mask,
}
use casio_cg.Flash.{
  flash_program, sector_of, erase_sector, is_at, erase_cmd, flash_cmd, Fword, Flash, idle, unlock2,
  buf_data,
}

-- A sequence of writes to the flash.
abbrev pub run : Flash → List Fword → Flash
run f [] = f
run f (w ∷ ws) = run (flash_cmd f w.addr w.size w.val) ws

abbrev pub is_cmd : Fword → ℕ → ℕ → Bool
is_cmd w a c = is_at w.addr w.val a c

-- A flash that waits for k more words, with the words it has.
buffering : Flash → List Fword → ℕ → Flash
buffering f ws k = record f { fcmd = buf_data; buf_w = ws; buf_rem = some k }

-- The two unlocking writes, by their states.
unlocked :
    (f : Flash) (c1 c2 : Fword)
    → f.fcmd ≡ idle
    → is_cmd c1 0xAAA 0xAA ≡ true
    → is_cmd c2 0x554 0x55 ≡ true
    → run f (c1 ∷ c2 ∷ []) ≡ record f { fcmd = unlock2 }
unfolding flash_cmd
unlocked f c1 c2 h h1 h2 = rw (h, h1, h2) refl

-- The sequence for a single word, from idle, programs that word and ends idle.
program_sequence :
    (f : Flash) (c1 c2 c3 w : Fword)
    → f.fcmd ≡ idle
    → is_cmd c1 0xAAA 0xAA ≡ true
    → is_cmd c2 0x554 0x55 ≡ true
    → is_cmd c3 0xAAA 0xA0 ≡ true
    → run f (c1 ∷ c2 ∷ c3 ∷ w ∷ [])
      ≡ record f { array = flash_program w.addr w.size w.val f.array; fcmd = idle }
unfolding flash_cmd
program_sequence f c1 c2 c3 w h h1 h2 h3 = rw (h, h1, h2, h3) refl

-- The sector-erase sequence, from idle: six writes, the last anywhere in the sector, set the bytes
-- of that sector to 0xFF, and the next four reads of the sector answer the status.
erase_sequence :
    (f : Flash) (c1 c2 c3 c4 c5 c6 : Fword)
    → f.fcmd ≡ idle
    → is_cmd c1 0xAAA 0xAA ≡ true
    → is_cmd c2 0x554 0x55 ≡ true
    → is_cmd c3 0xAAA 0x80 ≡ true
    → is_cmd c4 0xAAA 0xAA ≡ true
    → is_cmd c5 0x554 0x55 ≡ true
    → (bit_and c6.val 0xFF == 0x30) ≡ true
    → run f (c1 ∷ c2 ∷ c3 ∷ c4 ∷ c5 ∷ c6 ∷ []) ≡ record f {
      array = erase_sector (c6.addr / 2 ^ 17 * 2 ^ 17) f.array;
      fcmd = idle;
      erase_busy = 4;
      erase_sect = c6.addr / 2 ^ 17 * 2 ^ 17;
    }
unfolding flash_cmd erase_cmd
erase_sequence f c1 c2 c3 c4 c5 c6 h h1 h2 h3 h4 h5 h6 =
    let other : is_cmd c3 0xAAA 0xA0 ≡ false = ground arith in
    let chip : (bit_and c6.val 0xFF == 0x10) ≡ false = ground arith in
    let at : sector_of c6.addr ≡ c6.addr / 2 ^ 17 * 2 ^ 17 = and_not_mask 17 c6.addr in
    rw (h, h1, h2, other, h3, h4, h5, chip, h6, at) refl
