-- ===== src/Ubc/Count.antt =====
-- The execution count of channel 1.
use casio_cg.Base.{
  ℕ, zero, suc, ◌-◌, ◌%◌, ◌^◌, bit_and, ◌≡◌, refl, ap, ◌∙◌, Bool, true, false, Option, none, some,
  arith, ltb, ◌!=◌, bit_and_mask, reg, put,
}
use casio_cg.Ubc.{ubc_cetr1, asks, matched, hit1, Ubc}

-- After how many matches of channel 1 a break is asked for, among so many.
abbrev first : Ubc × Bool → Option ℕ → Option ℕ
first (u, true) rest = some 0
first (u, false) none = none
first (u, false) (some n) = some (suc n)

pub first_break : ℕ → Ubc → Option ℕ
first_break zero u = none
first_break (suc n) u = let rest = first_break n (hit1 u).0 in first (hit1 u) rest

-- With a count of n + 1 in CETR1, counting and breaking enabled, exactly the match after the first
-- n asks for a break.
pub first_break_lem :
    (n : ℕ) (u : Ubc)
    → (bit_and u.ch1.cbr 0x800 != 0) ≡ true
    → asks u.ch1 ≡ true
    → bit_and (reg u.regs ubc_cetr1) 0xFFF ≡ suc n
    → first_break (suc n) u ≡ some n
unfolding first_break hit1
first_break_lem zero u counting breaking count = rw (counting, count, breaking) refl
first_break_lem (suc n) u counting breaking count =
    let u' = matched u 2 in
    let next = record u' { regs = put u'.regs ubc_cetr1 (suc (suc n) - 1) } in
    let low : bit_and (reg u.regs ubc_cetr1) 0xFFF ≡ reg u.regs ubc_cetr1 % 2 ^ 12 =
      bit_and_mask 12 (reg u.regs ubc_cetr1) in
    let left : bit_and (suc (suc n) - 1) 0xFFF ≡ suc n =
      bit_and_mask 12 (suc (suc n) - 1) ∙ omega arith in
    let more : ltb 1 (suc (suc n)) ≡ true = ground arith in
    let rest : first_break (suc n) next ≡ some n = first_break_lem n next counting breaking left in
    rw (counting, count, more) (ap (first (next, false)) rest)
