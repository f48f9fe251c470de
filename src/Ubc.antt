-- ===== src/Ubc.antt =====
-- emu_go/ubc.go, the user break controller `ubcUnit`: its registers, the matches of instruction
-- fetches and operand accesses, and the execution count. The CPU that the unit hangs on is there;
-- the address space of the MMU, the power bit of the CPG and what `delayedAt` reads are arguments.
pub mod Decoded
pub mod Count
pub mod Break
pub mod Precise
mod Tests
use casio_cg.Base.{
  ℕ, zero, suc, ◌+◌, ◌-◌, ◌*◌, ◌/◌, ◌%◌, ◌^◌, ◌≤◌, ◌<◌, min, max, bit_and, bit_or, bit_xor, ◌≡◌,
  refl, sym, ap, ap₂, ◌∙◌, subst, fun_ext, ◌≢◌, ◌↔◌, ◌⊎◌, inl, inr, Bool, true, false, not, ◌&&◌,
  ◌||◌, Option, none, some, List, [], ◌∷◌, ◌++◌, arith, ltb, leb, ◌==◌, ◌!=◌, if◌then◌else◌, ltb→lt,
  lt→ltb, le→ltb, ==_iff, Bool-cases, length, get_or, set, replicate, length-set, get_or-set_self,
  get_or-set_ne, and_not, bit_and_step, bit_or_step, bit_xor_step, test_bit, test_bit-lt,
  test_bit-zero, test_bit-and, test_bit-or, test_bit-xor, test_bit-and_not, test_bit_ext,
  bit_or-zero, bit_and-zero, bit_and_mask, bit_and_three, bit_or-lt, bit_and-le, u8, u16, u32, u64,
  sub32, sub64, ◌>>>◌, ◌<<<◌, b2u, RegMap, no_regs, reg, put, get_elem?, and_not_step, and_not-le,
  bit_or_fields, value, and_not_parts, and_not_mask, page_address, word_page, same_page,
  bit_xor_self, bit_xor-lt, true≢false, and_and, eq_of_bit_xor, test_bit_lem, and_bit, and_not_and,
  bit_or_comm, test_bit-pow_self, test_bit-pow_ne,
}

abbrev pub ubc_base : ℕ
ubc_base = 0xFF200000

abbrev pub ubc_cdr1 : ℕ
ubc_cdr1 = 0x30

abbrev pub ubc_cdmr1 : ℕ
ubc_cdmr1 = 0x34

abbrev pub ubc_cetr1 : ℕ
ubc_cetr1 = 0x38

abbrev pub ubc_ccmfr : ℕ
ubc_ccmfr = 0x600

-- `ubcChan`
pub record UbcChan : Type 0 where
  pub cbr : ℕ
  pub crr : ℕ
  pub car : ℕ
  pub camr : ℕ

unfoldable pub addr : UbcChan → ℕ → Bool
addr k a = and_not (bit_xor a k.car) k.camr == 0

-- `ubcUnit`, with `CPU.ubcOn`, which it keeps.
pub record Ubc : Type 0 where
  pub regs : RegMap
  pub ch0 : UbcChan
  pub ch1 : UbcChan
  pub op_armed : Bool
  pub op_hit : Bool
  pub ubc_on : Bool

-- `update`: the channel registers, decoded.
abbrev pub chan_of : RegMap → ℕ → UbcChan
chan_of regs o = record {
  cbr = reg regs o;
  crr = reg regs (o + 4);
  car = reg regs (o + 8);
  camr = reg regs (o + 0xC);
}

abbrev pub enabled : UbcChan → Bool
enabled k = bit_and k.cbr 1 != 0

abbrev pub id_of : UbcChan → ℕ
id_of k = bit_and (k.cbr >>> 4) 3

abbrev pub on_fetch : UbcChan → Bool
on_fetch k = enabled k && (id_of k != 2)

abbrev pub on_operand : UbcChan → Bool
on_operand k = enabled k && (id_of k != 1)

unfoldable pub update : Ubc → Ubc
update u =
    let k0 = chan_of u.regs 0 in
    let k1 = chan_of u.regs 0x20 in
    let op = on_operand k0 || on_operand k1 in
    record u { ch0 = k0; ch1 = k1; op_armed = op; ubc_on = (on_fetch k0 || on_fetch k1) || op }

-- `newUBC`, `read`, `write` and `restore`
abbrev pub no_chan : UbcChan
no_chan = record { cbr = 0; crr = 0; car = 0; camr = 0 }

unfoldable pub new_ubc : Ubc
unfolding update
new_ubc = update (record {
  regs = put (put no_regs 0x00 0x20000000) 0x20 0x20000000;
  ch0 = no_chan;
  ch1 = no_chan;
  op_armed = false;
  op_hit = false;
  ubc_on = false;
})

unfoldable pub read : Ubc → ℕ → ℕ
read u va =
    let off = sub32 va ubc_base in
    let v = reg u.regs off in if (off == 0x04) || (off == 0x24) then bit_or v 0x2000 else v

unfoldable pub write : Ubc → ℕ → ℕ → Ubc
unfolding update
write u va val = update (record u { regs = put u.regs (sub32 va ubc_base) val })

unfoldable pub restore : Ubc → RegMap → Ubc
unfolding update
restore u m = update (record u { regs = m })

-- `powered`, by MSTPCR0 of the CPG.
abbrev pub powered : ℕ → Bool
powered mstpcr0 = bit_and mstpcr0 0x20000 == 0

-- `cond` of a channel, at the address space that PTEH names.
unfoldable pub cond : ℕ → Ubc → UbcChan → Bool
cond pteh u k =
    let other_space =
      (bit_and k.cbr (2 ^ 30) != 0) && (bit_and pteh 0xFF != bit_and (k.cbr >>> 16) 0xFF) in
    let flag = u32 (1 <<< bit_and (k.cbr >>> 24) 0x3F) in
    let unmatched = (bit_and k.cbr (2 ^ 31) != 0) && (bit_and (reg u.regs ubc_ccmfr) flag == 0) in
    not other_space && not unmatched

-- `hit` of channel 0 and of channel 1, which counts.
abbrev pub asks : UbcChan → Bool
asks k = bit_and k.crr 1 != 0

abbrev pub matched : Ubc → ℕ → Ubc
matched u flag = record u { regs = put u.regs ubc_ccmfr (bit_or (reg u.regs ubc_ccmfr) flag) }

unfoldable pub hit0 : Ubc → Ubc × Bool
hit0 u = (matched u 1, asks u.ch0)

unfoldable pub hit1 : Ubc → Ubc × Bool
hit1 u =
    let u' = matched u 2 in
    let cet = bit_and (reg u'.regs ubc_cetr1) 0xFFF in
    if (bit_and u.ch1.cbr 0x800 != 0) && ltb 1 cet
    then (record u' { regs = put u'.regs ubc_cetr1 (cet - 1) }, false)
    else (u', asks u.ch1)

-- `fetchMatch`: whether a channel takes part in the check of a fetch, and the two channels in turn.
unfoldable pub watches_fetch : UbcChan → (ℕ → Bool) → ℕ → Bool → Bool
unfolding addr
watches_fetch k delayed pc after =
    on_fetch k
    && ((bit_and (k.cbr >>> 1) 3 != 2)
        && ((if bit_and k.crr 2 != 0 then after else not after)
            && (addr k pc || (addr k (u32 (pc + 2)) && delayed pc))))

abbrev pub check : Bool → (Ubc → Ubc × Bool) → Ubc → Ubc × Bool
check t hit u = if t then hit u else (u, false)

unfoldable pub fetch_match : ℕ → Ubc → (ℕ → Bool) → ℕ → Bool → Ubc × Bool
unfolding watches_fetch cond hit0 hit1
fetch_match pteh u delayed pc after =
    let (u', b) = check (watches_fetch u.ch0 delayed pc after && cond pteh u u.ch0) hit0 u in
    let (u'', b') = check (watches_fetch u'.ch1 delayed pc after && cond pteh u' u'.ch1) hit1 u' in
    (u'', b || b')

-- `operand`
unfoldable pub watches_access : UbcChan → ℕ → ℕ → Bool → Bool
unfolding addr
watches_access k va size is_write =
    let rw_bits = bit_and (k.cbr >>> 1) 3 in
    let sz = bit_and (k.cbr >>> 12) 7 in
    let wrong_way = ((rw_bits == 1) && is_write) || ((rw_bits == 2) && not is_write) in
    let wrong_size = (sz != 0) && (ltb 3 sz || (size != 2 ^ (sz - 1))) in
    on_operand k && (not wrong_way && (not wrong_size && addr k va))

-- The data value of channel 1.
unfoldable pub same_value : Ubc → ℕ → ℕ → Bool
same_value u size val =
    let mask = 2 ^ (8 * size) - 1 in
    let apart = bit_and (and_not (bit_xor val (reg u.regs ubc_cdr1)) (reg u.regs ubc_cdmr1)) mask in
    (bit_and u.ch1.cbr 0x8000 == 0) || (apart == 0)

unfoldable pub operand : ℕ → Ubc → ℕ → ℕ → ℕ → Bool → Ubc
unfolding watches_access same_value cond hit0 hit1
operand pteh u va size val is_write =
    let (u', b) = check (watches_access u.ch0 va size is_write && cond pteh u u.ch0) hit0 u in
    let (u'', b') =
      check
        (watches_access u'.ch1 va size is_write && (same_value u' size val && cond pteh u' u'.ch1))
        hit1 u' in
    record u'' { op_hit = u''.op_hit || (b || b') }
