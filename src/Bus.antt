-- ===== src/Bus.antt =====
-- emu_go/mmio.go, the table of `MMIOBus`: the windows of the devices and `findHit`, and the registers
-- that are stubs: the clock generator `cpg`, the delays of `etmu`, `freeCounter` and `intx`. The
-- counters for diagnosis and the traps for a debugger are left out.
pub mod Table
pub mod Lookup
mod Tests
use casio_cg.Base.{
  ℕ, zero, suc, ◌+◌, ◌-◌, ◌*◌, ◌/◌, ◌%◌, ◌^◌, ◌≤◌, ◌<◌, min, max, bit_and, bit_or, bit_xor, ◌≡◌,
  refl, sym, ap, ap₂, ◌∙◌, subst, fun_ext, ◌≢◌, ◌↔◌, ◌⊎◌, inl, inr, Bool, true, false, not, ◌&&◌,
  ◌||◌, Option, none, some, List, [], ◌∷◌, ◌++◌, arith, ltb, leb, ◌==◌, ◌!=◌, if◌then◌else◌, ltb→lt,
  lt→ltb, le→ltb, ==_iff, Bool-cases, length, get_or, set, replicate, length-set, get_or-set_self,
  get_or-set_ne, and_not, bit_and_step, bit_or_step, bit_xor_step, test_bit, test_bit-lt,
  test_bit-zero, test_bit-and, test_bit-or, test_bit-xor, test_bit-and_not, test_bit_ext,
  bit_or-zero, bit_and-zero, bit_and_mask, bit_and_three, bit_or-lt, bit_and-le, u8, u16, u32, u64,
  sub32, sub64, ◌>>>◌, ◌<<<◌, b2u, RegMap, no_regs, reg, put, get_elem?, and_not_step, and_not-le,
  bit_or_fields, value, and_not_parts, and_not_mask, page_address, word_page, same_page,
  bit_xor_self, bit_xor-lt, true≢false, and_and, eq_of_bit_xor, test_bit_lem, and_bit, and_not_and,
  bit_or_comm, test_bit-pow_self, test_bit-pow_ne, word_above, bit_or_null, pick_on, pick_off,
  ite_same,
}

-- The regions, in the order of `NewMMIOBus`.
pub data Device : Type 0 where
  cpuopm cpg pfc wdt intc tmu etmu etmu2 periph_irq rtc free_counter intx keysc bcd_alu bsc dmac ccn
        utlb lcd ubc :
      Device

abbrev pub regions : List Device
regions =
    cpuopm ∷ cpg ∷ pfc ∷ wdt ∷ intc ∷ tmu ∷ etmu ∷ etmu2 ∷ periph_irq ∷ rtc ∷ free_counter ∷ intx
    ∷ keysc ∷ bcd_alu ∷ bsc ∷ dmac ∷ ccn ∷ utlb ∷ lcd ∷ ubc ∷ []

-- The base and the size of a region.
unfoldable pub window : Device → ℕ × ℕ
window cpuopm = (0xFF2F0000, 0x4)
window cpg = (0xA4150000, 0x1000)
window pfc = (0xA4050000, 0x1000)
window wdt = (0xA4520000, 0x1000)
window intc = (0xA4080000, 0x1000)
window tmu = (0xA4490000, 0x1000)
window etmu = (0xA44A0000, 0x1000)
window etmu2 = (0xA44D0000, 0x1000)
window periph_irq = (0xA4610000, 0x1000)
window rtc = (0xA413FEC0, 0x40)
window free_counter = (0xA4130000, 0x10000)
window intx = (0xA4140000, 0x1000)
window keysc = (0xA44B0000, 0x1000)
window bcd_alu = (0xA4CB0000, 0x1000)
window bsc = (0xFEC10000, 0x1000)
window dmac = (0xFE008000, 0x1000)
window ccn = (0xFF000000, 0x1000)
window utlb = (0xF6000000, 0x2000000)
window lcd = (0xB4000000, 0x20000)
window ubc = (0xFF200000, 0x1000)

-- `base.contains`
unfoldable pub contains : Device → ℕ → Bool
contains d va = leb (window d).0 va && ltb va (u32 ((window d).0 + (window d).1))

-- The loop over the regions, and `findHit` with its three addresses. The address of a hit is the
-- one that the device sees.
unfoldable pub find : List Device → ℕ → Option Device
find [] va = none
find (d ∷ ds) va = let rest = find ds va in if contains d va then some d else rest

abbrev pub uncached : ℕ → ℕ
uncached va = bit_or (bit_and va 0x1FFFFFFF) 0xA0000000

unfoldable pub find_hit_in : List ℕ → Option (Device × ℕ)
find_hit_in [] = none
find_hit_in (c ∷ cs) = elim (find regions c) [ none ↦ find_hit_in cs | some d ↦ some (d, c) ]

unfoldable pub find_hit : ℕ → Option (Device × ℕ)
unfolding find_hit_in
find_hit va = find_hit_in (va ∷ uncached va ∷ bit_and va 0x1FFFFFFF ∷ [])

-- `MMIOBus.Read`, on what the devices answer: 0 where there is none.
unfoldable pub bus_read : (Device → ℕ → ℕ → ℕ) → ℕ → ℕ → ℕ
bus_read answer va size = elim (find_hit va) [ none ↦ 0 | some (d, hit) ↦ answer d hit size ]

-- `cpg`: FRQCR reads without its start bit.
abbrev pub frqcr_reset : ℕ
frqcr_reset = 0x0F011112

abbrev pub new_cpg : RegMap
new_cpg = put no_regs 0 frqcr_reset

unfoldable pub cpg_read : RegMap → ℕ → ℕ
cpg_read regs va =
    let off = sub32 va (window cpg).0 in
    if off == 0x60 then 0 else (if off == 0 then and_not (reg regs 0) 0x80000000 else reg regs off)

-- `etmu`
unfoldable pub delay_read : RegMap → ℕ → ℕ
delay_read regs va =
    let off = bit_and (sub32 va (window etmu).0) 0xFFFF in
    if off == 0x60 then 0x8000 else reg regs off

-- `freeCounter`: the count after the read, and what the read answers.
unfoldable pub count_read : ℕ → ℕ → ℕ × ℕ
count_read count size =
    let next = u32 (count + 1) in
    let mask = if size == 4 then 0xFFFFFFFF else sub32 (u32 (1 <<< size * 8)) 1 in
    (next, bit_and next mask)

-- `intx`
unfoldable pub intx_write : RegMap → ℕ → ℕ → ℕ → RegMap
intx_write regs va size val =
    let off = sub32 va (window intx).0 in
    if bit_and off 0xFFFF == 0x24 && size == 1
    then put regs off (bit_and (reg regs off) val)
    else put regs off val
