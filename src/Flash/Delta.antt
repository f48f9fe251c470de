-- ===== src/Flash/Delta.antt =====
-- The flash image as a file: `flsBaseline`, `flashDeltaBytes` and `applyFlashDelta`. The size of a
-- page and of the flash are arguments of the loops; `flash_delta_bytes` and `apply_flash_delta`
-- give them the source's.
pub mod Saved
pub mod Outcome
use casio_cg.Base.{
  ℕ, zero, suc, ◌+◌, ◌-◌, ◌*◌, ◌/◌, ◌%◌, ◌^◌, ◌≤◌, ◌<◌, min, max, bit_and, bit_or, bit_xor, ◌≡◌,
  refl, sym, ap, ap₂, ◌∙◌, subst, fun_ext, ◌≢◌, ◌↔◌, ◌⊎◌, inl, inr, Bool, true, false, not, ◌&&◌,
  ◌||◌, Option, none, some, List, [], ◌∷◌, ◌++◌, arith, ltb, leb, ◌==◌, ◌!=◌, if◌then◌else◌, ltb→lt,
  lt→ltb, le→ltb, ==_iff, Bool-cases, length, get_or, set, replicate, length-set, get_or-set_self,
  get_or-set_ne, and_not, bit_and_step, bit_or_step, bit_xor_step, test_bit, test_bit-lt,
  test_bit-zero, test_bit-and, test_bit-or, test_bit-xor, test_bit-and_not, test_bit_ext,
  bit_or-zero, bit_and-zero, bit_and_mask, bit_and_three, bit_or-lt, bit_and-le, u8, u16, u32, u64,
  sub32, sub64, ◌>>>◌, ◌<<<◌, b2u, RegMap, no_regs, reg, put, get_elem?, and_not_step, and_not-le,
  bit_or_fields, value, and_not_parts, and_not_mask, page_address, word_page, same_page,
  bit_xor_self, bit_xor-lt, true≢false, and_and, eq_of_bit_xor, test_bit_lem, and_bit, and_not_and,
}
use casio_cg.Bytes.{be_loop, be_read, be_store, be_write, Buffer}
use casio_cg.Flash.{
  flash_mut_top, flash_sector, erase_status_reads, byte_at, program_bytes, flash_program,
  program_all, sector_of, erase_sector, erase_chip, is_at, erase_cmd, buffer_cmd, step, flash_cmd,
  flash_status, flash_read, Fcmd, Fword, Flash, idle, unlock1, unlock2, program, erase1, erase2,
  erase3, buf_count, buf_data,
}

-- `flashPersistPage`
abbrev pub flash_persist_page : ℕ
flash_persist_page = 0x1000

-- `flsBaseline`, by the ROM image.
unfoldable pub fls_baseline : Buffer → ℕ → ℕ
fls_baseline rom off = if ltb off rom.size then rom.at off else 0xFF

-- The inner loop of `flashDeltaBytes`: whether one of n bytes differs.
unfoldable pub differs : Buffer → (ℕ → ℕ) → ℕ → ℕ → Bool
unfolding fls_baseline
differs rom array off zero = false
differs rom array off (suc n) = (array off != fls_baseline rom off) || differs rom array (off + 1) n

-- `array[off : off+n]`
unfoldable pub slice : (ℕ → ℕ) → ℕ → ℕ → List ℕ
slice array off zero = []
slice array off (suc n) = array off ∷ slice array (off + 1) n

-- `binary.BigEndian.PutUint32`, before the bytes that follow.
abbrev pub put_u32 : ℕ → List ℕ → List ℕ
put_u32 v rest = u8 (v >>> 24) ∷ u8 (v >>> 16) ∷ u8 (v >>> 8) ∷ u8 v ∷ rest

-- The loop of `flashDeltaBytes` over the pages, n of them, from an offset on.
unfoldable pub delta_from : ℕ → Buffer → (ℕ → ℕ) → ℕ → ℕ → List ℕ
unfolding differs slice
delta_from page rom array off zero = []
delta_from page rom array off (suc n) =
    let rest = delta_from page rom array (off + page) n in
    if differs rom array off page then put_u32 off (slice array off page ++ rest) else rest

abbrev pub magic : List ℕ → List ℕ
magic rest = 0x46 ∷ 0x4C ∷ 0x53 ∷ 0x31 ∷ rest

-- `flashDeltaBytes`
unfoldable pub flash_delta_bytes : Buffer → (ℕ → ℕ) → List ℕ
unfolding delta_from
flash_delta_bytes rom array =
    magic (delta_from flash_persist_page rom array 0 (flash_mut_top / flash_persist_page))

-- The errors of `applyFlashDelta`: with the byte of the record, and with the offset in it.
pub data DeltaError : Type 0 where
  bad_magic : DeltaError
  truncated : ℕ → DeltaError
  bad_offset : ℕ → DeltaError

-- What `applyFlashDelta` leaves and returns.
pub record Applied : Type 0 where
  pub array : ℕ → ℕ
  pub pages : ℕ
  pub error : Option DeltaError

unfoldable pub drop : ℕ → List ℕ → List ℕ
drop zero xs = xs
drop (suc n) [] = []
drop (suc n) (x ∷ xs) = drop n xs

-- `binary.BigEndian.Uint32` of the first four bytes.
unfoldable pub get_u32 : List ℕ → ℕ
get_u32 xs = get_or xs 0 0 * 2 ^ 24 + get_or xs 1 0 * 2 ^ 16 + get_or xs 2 0 * 2 ^ 8 + get_or xs 3 0

-- `copy(array[off:off+page], data)`
abbrev pub overlay : ℕ → ℕ → List ℕ → (ℕ → ℕ) → ℕ → ℕ
overlay page off body array j =
    if leb off j && ltb j (off + page) then get_or body (j - off) 0 else array j

-- The loop of `applyFlashDelta`, on fuel, at byte p with the pages applied so far.
unfoldable pub apply_records : ℕ → ℕ → ℕ → List ℕ → ℕ → ℕ → (ℕ → ℕ) → Option Applied
unfolding drop get_u32
apply_records fuel page limit [] p pages array =
    some (record { array = array; pages = pages; error = none })
apply_records zero page limit (x ∷ xs) p pages array = none
apply_records (suc fuel) page limit (x ∷ xs) p pages array =
    let off = get_u32 (x ∷ xs) in
    let body = drop 4 (x ∷ xs) in
    let next =
      apply_records fuel page limit (drop page body) (p + 4 + page) (pages + 1)
        (overlay page off body array) in
    if ltb (length (x ∷ xs)) (4 + page)
    then some (record { array = array; pages = pages; error = some (truncated p) })
    else (if ltb limit (off + page)
        then some (record { array = array; pages = pages; error = some (bad_offset off) })
        else next)

abbrev pub has_magic : List ℕ → Bool
has_magic (a ∷ b ∷ c ∷ d ∷ rest) = (a == 0x46) && ((b == 0x4C) && ((c == 0x53) && (d == 0x31)))
has_magic _ = false

-- `applyFlashDelta`
unfoldable pub apply_flash_delta : List ℕ → (ℕ → ℕ) → Option Applied
unfolding apply_records drop
apply_flash_delta bytes array =
    let records = drop 4 bytes in
    let applied =
      apply_records (length records) flash_persist_page flash_mut_top records 4 0 array in
    if has_magic bytes
    then applied
    else some (record { array = array; pages = 0; error = some bad_magic })
