-- ===== src/Cpu/Arith.antt =====
-- The arithmetic instructions of `execute` and `exec4` that need no memory, as functions of the
-- CPU and the numbers n and m of the registers.
pub mod Carry
pub mod Multiply
pub mod Rotate
use casio_cg.Base.{
  ℕ, zero, suc, ◌+◌, ◌-◌, ◌*◌, ◌/◌, ◌%◌, ◌^◌, ◌≤◌, ◌<◌, min, max, bit_and, bit_or, bit_xor, ◌≡◌,
  refl, sym, ap, ap₂, ◌∙◌, subst, fun_ext, ◌≢◌, ◌↔◌, ◌⊎◌, inl, inr, Bool, true, false, not, ◌&&◌,
  ◌||◌, Option, none, some, List, [], ◌∷◌, ◌++◌, arith, ltb, leb, ◌==◌, ◌!=◌, if◌then◌else◌, ltb→lt,
  lt→ltb, le→ltb, ==_iff, Bool-cases, length, get_or, set, replicate, length-set, get_or-set_self,
  get_or-set_ne, and_not, bit_and_step, bit_or_step, bit_xor_step, test_bit, test_bit-lt,
  test_bit-zero, test_bit-and, test_bit-or, test_bit-xor, test_bit-and_not, test_bit_ext,
  bit_or-zero, bit_and-zero, bit_and_mask, bit_and_three, bit_or-lt, bit_and-le, u8, u16, u32, u64,
  sub32, sub64, ◌>>>◌, ◌<<<◌, b2u, RegMap, no_regs, reg, put, get_elem?, and_not_step, and_not-le,
  bit_or_fields, value,
}
use casio_cg.Cpu.Signed.{sext8, sext16, sext64, bias, bias64, slt, asr, neg32, not32}
use casio_cg.Cpu.State.{
  sr_t, sr_s, sr_q, sr_m, sr_bl, sr_rb, sr_md, sr_imask, reg_of, set_reg, has, bank1, take, drop,
  set_sr, set_bit, set_t, t_bit, Cpu,
}

unfoldable pub addc : Cpu → ℕ → ℕ → Cpu
addc c n m =
    let res = reg_of c n + reg_of c m + t_bit c in
    set_reg (set_t c (ltb (2 ^ 32 - 1) res)) n (u32 res)

unfoldable pub subc : Cpu → ℕ → ℕ → Cpu
subc c n m =
    let less = reg_of c m + t_bit c in
    set_reg (set_t c (ltb (reg_of c n) less)) n (u32 (reg_of c n + 2 ^ 33 - less))

unfoldable pub negc : Cpu → ℕ → ℕ → Cpu
negc c n m =
    let less = reg_of c m + t_bit c in set_reg (set_t c (ltb 0 less)) n (u32 (2 ^ 33 - less))

-- The signed sum leaves the range of int32.
unfoldable pub addv : Cpu → ℕ → ℕ → Cpu
addv c n m =
    let res = bias (reg_of c n) + bias (reg_of c m) in
    let over = ltb res (2 ^ 31) || leb (2 ^ 32 + 2 ^ 31) res in
    set_reg (set_t c over) n (u32 (reg_of c n + reg_of c m))

unfoldable pub subv : Cpu → ℕ → ℕ → Cpu
subv c n m =
    let a = bias (reg_of c n) in
    let b = bias (reg_of c m) in
    let over = ltb (a + 2 ^ 31) b || leb (b + 2 ^ 31) a in
    set_reg (set_t c over) n (sub32 (reg_of c n) (reg_of c m))

unfoldable pub div0s : Cpu → ℕ → ℕ → Cpu
div0s c n m =
    let c' = set_bit c sr_q (bit_and (reg_of c n) 0x80000000 != 0) in
    let c'' = set_bit c' sr_m (bit_and (reg_of c m) 0x80000000 != 0) in
    let q = bit_and (reg_of c n >>> 31) 1 in
    let mb = bit_and (reg_of c m >>> 31) 1 in set_t c'' (bit_xor q mb != 0)

-- One digit of a division, from the remainder register after the shift.
unfoldable pub div1_add : ℕ → ℕ → ℕ → ℕ × ℕ
div1_add rn rm q =
    let sum = u32 (rn + rm) in
    let carry = b2u (ltb sum rn) in (sum, if q == 0 then carry else bit_xor carry 1)

unfoldable pub div1_sub : ℕ → ℕ → ℕ → ℕ × ℕ
div1_sub rn rm q =
    let diff = sub32 rn rm in
    let borrow = b2u (ltb rn diff) in (diff, if q == 0 then borrow else bit_xor borrow 1)

-- `CPU.div1`. With M set, the new Q is the other one.
unfoldable pub div1 : Cpu → ℕ → ℕ → Cpu
div1 c n m =
    let rm = reg_of c m in
    let old_q = has c sr_q in
    let is_m = has c sr_m in
    let q = bit_and (reg_of c n >>> 31) 1 in
    let rn = u32 (bit_or (u32 (reg_of c n <<< 1)) (t_bit c)) in
    let (rn', q') =
      if old_q
      then (if is_m then div1_sub rn rm (bit_xor q 1) else div1_add rn rm q)
      else (if is_m then div1_add rn rm (bit_xor q 1) else div1_sub rn rm q) in
    set_t (set_bit (set_reg c n rn') sr_q (q' != 0)) (q' == b2u is_m)

unfoldable pub dmulu : Cpu → ℕ → ℕ → Cpu
dmulu c n m =
    let res = u64 (reg_of c n * reg_of c m) in record c { mach = res >>> 32; macl = u32 res }

unfoldable pub dmuls : Cpu → ℕ → ℕ → Cpu
dmuls c n m =
    let res = u64 (sext64 (reg_of c n) * sext64 (reg_of c m)) in
    record c { mach = res >>> 32; macl = u32 res }

-- MACH and MACL together.
abbrev pub mac : Cpu → ℕ
mac c = c.mach * 2 ^ 32 + c.macl

-- MAC.L on the two words read: the sum, cut to 48 signed bits if S is set.
unfoldable pub mac_l : Cpu → ℕ → ℕ → Cpu
mac_l c tn tm =
    let sum = u64 (mac c + sext64 tn * sext64 tm) in
    let res =
      if has c sr_s
      then (if ltb (2 ^ 63 + (2 ^ 47 - 1)) (bias64 sum)
          then 2 ^ 47 - 1
          else (if ltb (bias64 sum) (2 ^ 63 - 2 ^ 47) then 2 ^ 64 - 2 ^ 47 else sum))
      else sum in
    record c { mach = res >>> 32; macl = u32 res }

-- `CPU.macw` on the two halfwords read.
unfoldable pub mac_w : Cpu → ℕ → ℕ → Cpu
mac_w c tn tm =
    let p = sext64 (sext16 tn) * sext64 (sext16 tm) in
    let sum = u64 (mac c + p) in
    let v = bias64 (u64 (sext64 c.macl + p)) in
    if not (has c sr_s)
    then record c { mach = sum >>> 32; macl = u32 sum }
    else (if ltb (2 ^ 63 + 0x7FFFFFFF) v
        then record c { macl = 0x7FFFFFFF; mach = bit_or c.mach 1 }
        else (if ltb v (2 ^ 63 - 0x80000000)
            then record c { macl = 0x80000000; mach = bit_or c.mach 1 }
            else record c { macl = u32 (sext64 c.macl + p) }))

-- Shifts and rotations of one bit, which move a bit through T.
unfoldable pub shll : Cpu → ℕ → Cpu
shll c n = set_reg (set_t c (reg_of c n >>> 31 != 0)) n (u32 (reg_of c n <<< 1))

unfoldable pub shlr : Cpu → ℕ → Cpu
shlr c n = set_reg (set_t c (bit_and (reg_of c n) 1 != 0)) n (reg_of c n >>> 1)

unfoldable pub shar : Cpu → ℕ → Cpu
shar c n = set_reg (set_t c (bit_and (reg_of c n) 1 != 0)) n (asr (reg_of c n) 1)

unfoldable pub rotl : Cpu → ℕ → Cpu
rotl c n =
    let t = reg_of c n >>> 31 in set_t (set_reg c n (bit_or (u32 (reg_of c n <<< 1)) t)) (t != 0)

unfoldable pub rotr : Cpu → ℕ → Cpu
rotr c n =
    let t = bit_and (reg_of c n) 1 in
    set_t (set_reg c n (bit_or (reg_of c n >>> 1) (t <<< 31))) (t != 0)

unfoldable pub rotcl : Cpu → ℕ → Cpu
rotcl c n =
    let t = reg_of c n >>> 31 in
    set_t (set_reg c n (bit_or (u32 (reg_of c n <<< 1)) (t_bit c))) (t != 0)

unfoldable pub rotcr : Cpu → ℕ → Cpu
rotcr c n =
    let t = bit_and (reg_of c n) 1 in
    set_t (set_reg c n (bit_or (reg_of c n >>> 1) (t_bit c <<< 31))) (t != 0)

-- The dynamic shifts: the count is the signed word in Rm.
unfoldable pub shad : Cpu → ℕ → ℕ → Cpu
shad c n m =
    let sh = reg_of c m in
    let back = bit_and (neg32 sh) 0x1F in
    if ltb sh (2 ^ 31)
    then set_reg c n (u32 (reg_of c n <<< bit_and sh 0x1F))
    else set_reg c n (asr (reg_of c n) (if sh == 2 ^ 32 - 32 then 31 else back))

unfoldable pub shld : Cpu → ℕ → ℕ → Cpu
shld c n m =
    let sh = reg_of c m in
    if ltb sh (2 ^ 31)
    then set_reg c n (u32 (reg_of c n <<< bit_and sh 0x1F))
    else (if sh == 2 ^ 32 - 32
        then set_reg c n 0
        else set_reg c n (reg_of c n >>> bit_and (neg32 sh) 0x1F))

-- cmp/str: whether a byte of Rn is the same as Rm's at its place.
unfoldable pub cmp_str : ℕ → ℕ → Bool
cmp_str a b =
    (bit_and a 0xFF == bit_and b 0xFF)
    || ((bit_and (a >>> 8) 0xFF == bit_and (b >>> 8) 0xFF)
        || ((bit_and (a >>> 16) 0xFF == bit_and (b >>> 16) 0xFF)
            || (bit_and (a >>> 24) 0xFF == bit_and (b >>> 24) 0xFF)))
