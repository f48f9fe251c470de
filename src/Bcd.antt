-- ===== src/Bcd.antt =====
-- emu_go/mmio.go, the BCD unit `bcdALU`: decimal addition and subtraction of eight digits with a
-- latched carry.
pub mod Decimal
pub mod Chain
mod Tests
use casio_cg.Base.{
  ℕ, zero, suc, ◌+◌, ◌-◌, ◌*◌, ◌/◌, ◌%◌, ◌^◌, ◌≤◌, ◌<◌, min, max, bit_and, bit_or, bit_xor, ◌≡◌,
  refl, sym, ap, ap₂, ◌∙◌, subst, fun_ext, ◌≢◌, ◌↔◌, ◌⊎◌, inl, inr, Bool, true, false, not, ◌&&◌,
  ◌||◌, Option, none, some, List, [], ◌∷◌, ◌++◌, arith, ltb, leb, ◌==◌, ◌!=◌, if◌then◌else◌, ltb→lt,
  lt→ltb, le→ltb, ==_iff, Bool-cases, length, get_or, set, replicate, length-set, get_or-set_self,
  get_or-set_ne, and_not, bit_and_step, bit_or_step, bit_xor_step, test_bit, test_bit-lt,
  test_bit-zero, test_bit-and, test_bit-or, test_bit-xor, test_bit-and_not, test_bit_ext,
  bit_or-zero, bit_and-zero, bit_and_mask, bit_and_three, bit_or-lt, bit_and-le, u8, u16, u32, u64,
  sub32, sub64, ◌>>>◌, ◌<<<◌, b2u, RegMap, no_regs, reg, put, get_elem?, and_not_step, and_not-le,
  bit_or_fields, value, and_not_parts, and_not_mask, page_address, word_page, same_page,
  bit_xor_self, bit_xor-lt, true≢false, and_and, eq_of_bit_xor, test_bit_lem, and_bit, and_not_and,
  bit_or_comm,
}

-- `bcdALU`. The map `regs` holds what is written to its other registers.
pub record Bcd : Type 0 where
  pub regs : RegMap
  pub a : ℕ
  pub b : ℕ
  pub result : ℕ
  pub flag : ℕ

abbrev pub bcd_base : ℕ
bcd_base = 0xA4CB0000

abbrev pub digit : ℕ → ℕ → ℕ
digit x i = bit_and (x >>> (4 * i)) 0xF

-- The loops of `bcdAdd` and `bcdSub` from digit i on, with n digits left. A digit that is not
-- decimal may leave the difference below 0 even after 10 is added: it wraps.
abbrev pub add_loop : ℕ → ℕ → ℕ → ℕ → ℕ → ℕ → ℕ × ℕ
add_loop a b i zero res carry = (res, carry)
add_loop a b i (suc n) res carry =
    let s = digit a i + digit b i + carry in
    let over = leb 10 s in
    let s' = if over then s - 10 else s in
    add_loop a b (i + 1) n (bit_or res (u32 (s' <<< (4 * i)))) (b2u over)

abbrev pub sub_loop : ℕ → ℕ → ℕ → ℕ → ℕ → ℕ → ℕ × ℕ
sub_loop a b i zero res borrow = (res, borrow)
sub_loop a b i (suc n) res borrow =
    let under = ltb (digit a i) (digit b i + borrow) in
    let s = sub32 (if under then digit a i + 10 else digit a i) (digit b i + borrow) in
    sub_loop a b (i + 1) n (bit_or res (u32 (s <<< (4 * i)))) (b2u under)

-- `bcdAdd` and `bcdSub`
unfoldable pub bcd_add : ℕ → ℕ → ℕ → ℕ × ℕ
bcd_add a b carry = add_loop a b 0 8 0 carry

unfoldable pub bcd_sub : ℕ → ℕ → ℕ → ℕ × ℕ
bcd_sub a b borrow = sub_loop a b 0 8 0 borrow

-- `bcdALU.compute`
abbrev pub flag_in : Bcd → ℕ → ℕ
flag_in u cmd = if bit_and cmd 4 != 0 then 1 else (if bit_and cmd 2 != 0 then u.flag else 0)

unfoldable pub compute : Bcd → ℕ → Bcd
unfolding bcd_add bcd_sub
compute u cmd =
    let r =
      if bit_and cmd 1 != 0
      then bcd_add u.a u.b (flag_in u cmd)
      else bcd_sub u.a u.b (flag_in u cmd) in
    record u { result = r.0; flag = r.1 }

-- `bcdALU.write` and `bcdALU.read`
unfoldable pub bcd_write : Bcd → ℕ → ℕ → Bcd
unfolding compute
bcd_write u va val =
    let off = sub32 va bcd_base in
    let cell = bit_and off 0xF in
    if cell == 0x4
    then record u { a = val }
    else (if cell == 0x8
        then record u { b = val }
        else (if cell == 0x0
            then compute u (bit_and val 0x7)
            else record u { regs = put u.regs (bit_and off 0xFFFF) val }))

unfoldable pub bcd_read : Bcd → ℕ → ℕ
bcd_read u va =
    let off = sub32 va bcd_base in
    let cell = bit_and off 0xF in
    if cell == 0xC
    then u.result
    else (if cell == 0x0 then (if u.flag != 0 then 0x10040000 else 0x00010000) else reg u.regs off)
