-- ===== src/Bytes.antt =====
-- emu_go/memory.go, the big-endian accesses `beRead` and `beWrite` to a byte slice. A slice is a
-- size and a function on its offsets, and an index outside of it is Go's panic: none.
pub mod RoundTrip
use casio_cg.Base.{
  ℕ, zero, suc, ◌+◌, ◌-◌, ◌*◌, ◌/◌, ◌%◌, ◌^◌, ◌≤◌, ◌<◌, min, max, bit_and, bit_or, bit_xor, ◌≡◌,
  refl, sym, ap, ap₂, ◌∙◌, subst, fun_ext, ◌≢◌, ◌↔◌, ◌⊎◌, inl, inr, Bool, true, false, not, ◌&&◌,
  ◌||◌, Option, none, some, List, [], ◌∷◌, ◌++◌, arith, ltb, leb, ◌==◌, ◌!=◌, if◌then◌else◌, ltb→lt,
  lt→ltb, le→ltb, ==_iff, Bool-cases, length, get_or, set, replicate, length-set, get_or-set_self,
  get_or-set_ne, and_not, bit_and_step, bit_or_step, bit_xor_step, test_bit, test_bit-lt,
  test_bit-zero, test_bit-and, test_bit-or, test_bit-xor, test_bit-and_not, test_bit_ext,
  bit_or-zero, bit_and-zero, bit_and_mask, bit_and_three, bit_or-lt, bit_and-le, u8, u16, u32, u64,
  sub32, sub64, ◌>>>◌, ◌<<<◌, b2u, RegMap, no_regs, reg, put, get_elem?, and_not_step, and_not-le,
  bit_or_fields, value, and_not_parts, and_not_mask, page_address, word_page, same_page,
  bit_xor_self, bit_xor-lt, true≢false, and_and, eq_of_bit_xor, test_bit_lem, and_bit, and_not_and,
}

pub record Buffer : Type 0 where
  pub size : ℕ
  pub at : ℕ → ℕ

-- The loop of `beRead` from an offset on, with n bytes left.
abbrev pub be_loop : Buffer → ℕ → ℕ → ℕ → Option ℕ
be_loop b off zero v = some v
be_loop b off (suc n) v =
    let rest = be_loop b (off + 1) n (bit_or (u32 (v <<< 8)) (b.at off)) in
    if ltb off b.size then rest else none

-- `beRead`
unfoldable pub be_read : Buffer → ℕ → ℕ → Option ℕ
be_read b off size = be_loop b off size 0

-- The loop of `beWrite` from byte i on, with n bytes left: the last byte is written first.
abbrev pub be_store : Buffer → ℕ → ℕ → ℕ → ℕ → ℕ → Option Buffer
be_store b off size val i zero = some b
be_store b off size val i (suc n) =
    let here = off + size - 1 - i in
    let stored = record b { at = λ (j : ℕ). if j == here then u8 (val >>> (8 * i)) else b.at j } in
    let rest = be_store stored off size val (i + 1) n in if ltb here b.size then rest else none

-- `beWrite`
unfoldable pub be_write : Buffer → ℕ → ℕ → ℕ → Option Buffer
be_write b off size val = be_store b off size val 0 size
