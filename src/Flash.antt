-- ===== src/Flash.antt =====
-- emu_go/memory.go, the NOR flash: its command state machine `flashCmd`, programming and erasing,
-- and the status that is read while a sector erase goes on.
pub mod Nor
pub mod Program
pub mod Sequence
pub mod Status
pub mod Delta
mod Tests
use casio_cg.Base.{
  ℕ, zero, suc, ◌+◌, ◌-◌, ◌*◌, ◌/◌, ◌%◌, ◌^◌, ◌≤◌, ◌<◌, min, max, bit_and, bit_or, bit_xor, ◌≡◌,
  refl, sym, ap, ap₂, ◌∙◌, subst, fun_ext, ◌≢◌, ◌↔◌, ◌⊎◌, inl, inr, Bool, true, false, not, ◌&&◌,
  ◌||◌, Option, none, some, List, [], ◌∷◌, ◌++◌, arith, ltb, leb, ◌==◌, ◌!=◌, if◌then◌else◌, ltb→lt,
  lt→ltb, le→ltb, ==_iff, Bool-cases, length, get_or, set, replicate, length-set, get_or-set_self,
  get_or-set_ne, and_not, bit_and_step, bit_or_step, bit_xor_step, test_bit, test_bit-lt,
  test_bit-zero, test_bit-and, test_bit-or, test_bit-xor, test_bit-and_not, test_bit_ext,
  bit_or-zero, bit_and-zero, bit_and_mask, bit_and_three, bit_or-lt, bit_and-le, u8, u16, u32, u64,
  sub32, sub64, ◌>>>◌, ◌<<<◌, b2u, RegMap, no_regs, reg, put, get_elem?, and_not_step, and_not-le,
  bit_or_fields, value, and_not_parts, and_not_mask, page_address, word_page, same_page,
  bit_xor_self, bit_xor-lt, true≢false, and_and, eq_of_bit_xor, test_bit_lem, and_bit, and_not_and,
}
use casio_cg.Bytes.{be_loop, be_read, be_store, be_write, Buffer}

-- `FlashMutTop` and `flashSector`, in bytes, and the reads that a sector erase lasts.
abbrev pub flash_mut_top : ℕ
flash_mut_top = 0x02000000

abbrev pub flash_sector : ℕ
flash_sector = 0x20000

abbrev pub erase_status_reads : ℕ
erase_status_reads = 4

-- The states of the command state machine.
pub data Fcmd : Type 0 where
  idle : Fcmd
  unlock1 : Fcmd
  unlock2 : Fcmd
  program : Fcmd
  erase1 : Fcmd
  erase2 : Fcmd
  erase3 : Fcmd
  buf_count : Fcmd
  buf_data : Fcmd

-- `fword`
pub record Fword : Type 0 where
  pub addr : ℕ
  pub size : ℕ
  pub val : ℕ

-- The flash's part of `Memory`. The array is a function on its addresses; `buf_rem` is none for
-- the -1 that stands there until the count comes.
pub record Flash : Type 0 where
  pub array : ℕ → ℕ
  pub fcmd : Fcmd
  pub buf_rem : Option ℕ
  pub buf_w : List Fword
  pub erase_busy : ℕ
  pub erase_sect : ℕ
  pub erase_tog : ℕ

-- The byte of `val` at place i of `size` in big-endian order.
abbrev pub byte_at : ℕ → ℕ → ℕ → ℕ
byte_at size val i = u8 (val >>> (8 * (size - 1 - i)))

-- The loop of `flashProgram` over the bytes, from byte i on, with n of them left.
abbrev pub program_bytes : ℕ → ℕ → ℕ → ℕ → ℕ → (ℕ → ℕ) → ℕ → ℕ
program_bytes phys size val i zero array = array
program_bytes phys size val i (suc n) array =
    let here = u32 (phys + i) in
    let and_byte =
      λ (j : ℕ). if j == here then bit_and (array j) (byte_at size val i) else array j in
    program_bytes phys size val (i + 1) n and_byte

-- `flashProgram`, on the array.
unfoldable pub flash_program : ℕ → ℕ → ℕ → (ℕ → ℕ) → ℕ → ℕ
flash_program phys size val array =
    let programmed = program_bytes phys size val 0 size array in
    if ltb flash_mut_top (u32 (phys + size)) then array else programmed

abbrev pub program_all : List Fword → (ℕ → ℕ) → ℕ → ℕ
program_all [] array = array
program_all (w ∷ ws) array = program_all ws (flash_program w.addr w.size w.val array)

-- The first address of the sector that holds an address.
abbrev pub sector_of : ℕ → ℕ
sector_of phys = and_not phys (flash_sector - 1)

abbrev pub erase_sector : ℕ → (ℕ → ℕ) → ℕ → ℕ
erase_sector s array j =
    if leb s j && (ltb j (s + flash_sector) && ltb j flash_mut_top) then 0xFF else array j

abbrev pub erase_chip : (ℕ → ℕ) → ℕ → ℕ
erase_chip array j = if ltb j flash_mut_top then 0xFF else array j

abbrev pub is_at : ℕ → ℕ → ℕ → ℕ → Bool
is_at phys val a c = (bit_and phys 0xFFF == a) && (bit_and val 0xFF == c)

-- `flashCmd` in the state fErase3.
unfoldable pub erase_cmd : Flash → ℕ → ℕ → Flash
erase_cmd f phys val =
    let c = bit_and val 0xFF in
    let s = sector_of phys in
    if c == 0x10
    then record f { array = erase_chip f.array; fcmd = idle }
    else (if c == 0x30
        then record f {
          array = erase_sector s f.array;
          erase_busy = erase_status_reads;
          erase_sect = s;
          fcmd = idle;
        }
        else record f { fcmd = idle })

-- `flashCmd` in the state fBufData, by the words that remain to be collected.
abbrev pub buffer_cmd : Flash → Option ℕ → Fword → Flash
buffer_cmd f (some (suc n)) w = record f { buf_w = f.buf_w ++ (w ∷ []); buf_rem = some n }
buffer_cmd f (some zero) w = record f { array = program_all f.buf_w f.array; fcmd = idle }
buffer_cmd f none w = record f { array = program_all f.buf_w f.array; fcmd = idle }

-- `flashCmd` by the state.
abbrev pub step : Fcmd → Flash → ℕ → ℕ → ℕ → Flash
step idle f phys size val = if is_at phys val 0xAAA 0xAA then record f { fcmd = unlock1 } else f
step unlock1 f phys size val = record f {
  fcmd = if is_at phys val 0x554 0x55 then unlock2 else idle;
}
step unlock2 f phys size val =
    if is_at phys val 0xAAA 0xA0
    then record f { fcmd = program }
    else (if is_at phys val 0xAAA 0x80
        then record f { fcmd = erase1 }
        else (if bit_and val 0xFF == 0x25
            then record f { buf_w = []; buf_rem = none; fcmd = buf_count }
            else record f { fcmd = idle }))
step program f phys size val = record f { array = flash_program phys size val f.array; fcmd = idle }
step erase1 f phys size val = record f { fcmd = if is_at phys val 0xAAA 0xAA then erase2 else idle }
step erase2 f phys size val = record f { fcmd = if is_at phys val 0x554 0x55 then erase3 else idle }
step erase3 f phys size val = erase_cmd f phys val
step buf_count f phys size val = record f {
  buf_rem = some (bit_and val 0xFFFF + 1);
  fcmd = buf_data;
}
step buf_data f phys size val =
    buffer_cmd f f.buf_rem (record { addr = phys; size = size; val = val })

-- `flashCmd`
unfoldable pub flash_cmd : Flash → ℕ → ℕ → ℕ → Flash
unfolding flash_program erase_cmd
flash_cmd f phys size val = step f.fcmd f phys size val

-- `flashStatus`: the value and the flash after it.
unfoldable pub flash_status : Flash → ℕ → ℕ × Flash
flash_status f size =
    let tog = bit_xor f.erase_tog 0x44 in
    let st = bit_or 0x08 tog in
    (
      u32 (st * (0x01010101 >>> ((4 - size) * 8))),
      record f { erase_busy = f.erase_busy - 1; erase_tog = tog },
    )

-- `Memory.Read` where the flash answers, below `flash_mut_top`.
unfoldable pub flash_read : Flash → ℕ → ℕ → Option ℕ × Flash
unfolding flash_status be_read
flash_read f phys size =
    let status = flash_status f size in
    if ltb 0 f.erase_busy && (sector_of phys == f.erase_sect)
    then (some (status.0), status.1)
    else (be_read (record { size = flash_mut_top; at = f.array }) phys size, f)
