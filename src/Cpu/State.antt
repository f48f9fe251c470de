-- ===== src/Cpu/State.antt =====
-- The CPU's registers, the status register and the register banks.
pub mod Banks
pub mod Flags
pub mod Handler
use casio_cg.Base.{
  ℕ, zero, suc, ◌+◌, ◌-◌, ◌*◌, ◌/◌, ◌%◌, ◌^◌, ◌≤◌, ◌<◌, min, max, bit_and, bit_or, bit_xor, ◌≡◌,
  refl, sym, ap, ap₂, ◌∙◌, subst, fun_ext, ◌≢◌, ◌↔◌, ◌⊎◌, inl, inr, Bool, true, false, not, ◌&&◌,
  ◌||◌, Option, none, some, List, [], ◌∷◌, ◌++◌, arith, ltb, leb, ◌==◌, ◌!=◌, if◌then◌else◌, ltb→lt,
  lt→ltb, le→ltb, ==_iff, Bool-cases, length, get_or, set, replicate, length-set, get_or-set_self,
  get_or-set_ne, and_not, bit_and_step, bit_or_step, bit_xor_step, test_bit, test_bit-lt,
  test_bit-zero, test_bit-and, test_bit-or, test_bit-xor, test_bit-and_not, test_bit_ext,
  bit_or-zero, bit_and-zero, bit_and_mask, bit_and_three, bit_or-lt, bit_and-le, u8, u16, u32, u64,
  sub32, sub64, ◌>>>◌, ◌<<<◌, b2u, RegMap, no_regs, reg, put, get_elem?, and_not_step, and_not-le,
  bit_or_fields, value,
}
use casio_cg.Intc.{
  intc_sources, find_source, intc_base, is_ipr, is_imr, read, write, priority, is_masked, enabled,
  gate, seed_os_defaults, new_intc, put_cells, state_map, load_cells, has_cell, restore_state,
  has_request, append, raise_irq, raise, drops, waits, outranks, Best, better, gate_loop,
  gate_pending, Source, Intc, GateState, Pend,
}

abbrev pub sr_t : ℕ
sr_t = 0x00000001

abbrev pub sr_s : ℕ
sr_s = 0x00000002

abbrev pub sr_q : ℕ
sr_q = 0x00000100

abbrev pub sr_m : ℕ
sr_m = 0x00000200

abbrev pub sr_bl : ℕ
sr_bl = 0x10000000

abbrev pub sr_rb : ℕ
sr_rb = 0x20000000

abbrev pub sr_md : ℕ
sr_md = 0x40000000

abbrev pub sr_imask : ℕ
sr_imask = 0x000000F0

-- `CPU`, without the memory and the host's hooks. `r` has 16 cells and `rbank1` 8.
pub record Cpu : Type 0 where
  pub r : List ℕ
  pub rbank1 : List ℕ
  pub pc : ℕ
  pub pr : ℕ
  pub gbr : ℕ
  pub vbr : ℕ
  pub ssr : ℕ
  pub spc : ℕ
  pub sgr : ℕ
  pub dbr : ℕ
  pub mach : ℕ
  pub macl : ℕ
  pub fpul : ℕ
  pub fpscr : ℕ
  pub sr : ℕ
  pub cycles : ℕ
  pub pending : List Pend
  pub sleeping : Bool
  pub idle : ℕ
  pub irq_cnt : ℕ
  pub fpu_ops : ℕ
  pub in_slot : Bool
  pub slot_pc : ℕ
  pub exc_taken : Bool
  pub ldst : Bool
  pub illegal_ops : ℕ
  pub last_illegal : ℕ × ℕ
  pub faulted : Bool
  pub last_irq : ℕ
  pub exc_cnt : ℕ
  pub last_exc : ℕ

-- `r[n]`, and `r[n] = v`.
abbrev pub reg_of : Cpu → ℕ → ℕ
reg_of c n = get_or c.r n 0

abbrev pub set_reg : Cpu → ℕ → ℕ → Cpu
set_reg c n v = record c { r = set c.r n v }

-- Whether a status bit is set.
abbrev pub has : Cpu → ℕ → Bool
has c bit = bit_and c.sr bit != 0

-- `bank1`: whether R0-R7 name bank 1.
unfoldable pub bank1 : ℕ → Bool
bank1 sr = bit_and sr (sr_md + sr_rb) == (sr_md + sr_rb)

-- The first k elements, and the others.
abbrev pub take : ℕ → List ℕ → List ℕ
take zero xs = []
take (suc k) [] = []
take (suc k) (x ∷ xs) = x ∷ take k xs

abbrev pub drop : ℕ → List ℕ → List ℕ
drop zero xs = xs
drop (suc k) [] = []
drop (suc k) (x ∷ xs) = drop k xs

-- `CPU.setSR`: a change of bank swaps R0-R7 with the other bank.
unfoldable pub set_sr : Cpu → ℕ → Cpu
set_sr c val =
    let same = (bank1 c.sr && bank1 val) || (not (bank1 c.sr) && not (bank1 val)) in
    if same
    then record c { sr = val }
    else record c { r = c.rbank1 ++ drop 8 c.r; rbank1 = take 8 c.r; sr = val }

-- `CPU.setT`
abbrev pub set_bit : Cpu → ℕ → Bool → Cpu
set_bit c bit on = record c { sr = if on then bit_or c.sr bit else and_not c.sr bit }

unfoldable pub set_t : Cpu → Bool → Cpu
set_t c on = set_bit c sr_t on

-- The T bit as a number.
abbrev pub t_bit : Cpu → ℕ
t_bit c = bit_and c.sr sr_t
