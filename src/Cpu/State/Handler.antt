-- ===== src/Cpu/State/Handler.antt =====
-- The status register on entry to a handler: `SR | MD | RB | BL`.
use casio_cg.Base.{
  ℕ, ◌+◌, bit_and, bit_or, ◌≡◌, ap, ◌∙◌, arith, and_not, test_bit, test_bit-lt, test_bit-zero,
  test_bit-and, test_bit-or, test_bit-and_not, test_bit_ext,
}
use casio_cg.Cpu.State.{sr_bl, sr_rb, sr_md, Cpu}

abbrev pub sr_handler : ℕ
sr_handler = sr_md + sr_rb + sr_bl

-- The CPU is at the start of a handler: at its address, privileged, on bank 1 and blocked.
abbrev pub InHandler : Cpu → ℕ → Type 0
InHandler d pc = (d.pc ≡ pc) × (bit_and d.sr sr_handler ≡ sr_handler)

-- A mask that is set stays set when other bits are cleared and set.
pub kept_mask : (s m k b : ℕ) → bit_and m k ≡ 0 → bit_and (bit_or (and_not (bit_or s m) k) b) m ≡ m
kept_mask s m k b apart = test_bit_ext (bit_and (bit_or (and_not (bit_or s m) k) b) m) m λ i.
    let off : test_bit (bit_and m k) i ≡ 0 = ap (λ x. test_bit x i) apart ∙ test_bit-zero i in
    omega (
      arith,
      off,
      test_bit-and m k i,
      test_bit-and (bit_or (and_not (bit_or s m) k) b) m i,
      test_bit-or (and_not (bit_or s m) k) b i,
      test_bit-and_not (bit_or s m) k i,
      test_bit-or s m i,
      test_bit-lt m i,
      test_bit-lt s i,
      test_bit-lt b i,
      test_bit-lt k i,
    )

pub set_mask : (s m : ℕ) → bit_and (bit_or s m) m ≡ m
set_mask s m = test_bit_ext (bit_and (bit_or s m) m) m λ i.
    omega
      (arith, test_bit-and (bit_or s m) m i, test_bit-or s m i, test_bit-lt m i, test_bit-lt s i)
