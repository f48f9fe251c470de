-- ===== src/Bcd/Tests.antt =====
-- Sums and differences of the BCD unit of emu_go/mmio.go.
use casio_cg.Base.{◌+◌, ◌*◌, ◌^◌, ◌<◌, ◌≡◌, refl, arith, no_regs}
use casio_cg.Bcd.{bcd_add, Bcd}
use casio_cg.Bcd.Decimal.{dec, IsBcd}
use casio_cg.Bcd.Chain.{operate, result_of, add_chain}

abbrev fresh : Bcd
fresh = record { regs = no_regs; a = 0; b = 0; result = 0; flag = 0 }

runs_add : bcd_add 0x99999999 0x00000001 0 ≡ (0, 1)
unfolding bcd_add
runs_add = refl

digits_a : IsBcd 8 0x98765432
unfolding IsBcd
digits_a = (
  omega arith,
  (
    omega arith,
    (omega arith, (omega arith, (omega arith, (omega arith, (omega arith, (omega arith, refl)))))),
  ),
)

digits_b : IsBcd 8 0x12345678
unfolding IsBcd
digits_b = (
  omega arith,
  (
    omega arith,
    (omega arith, (omega arith, (omega arith, (omega arith, (omega arith, (omega arith, refl)))))),
  ),
)

add_chain_example :
    let low = operate fresh 0x98765432 0x12345678 1 in
    let high = operate low 0x12345678 0x98765432 3 in
    IsBcd 8 (result_of low)
    × IsBcd 8 (result_of high)
    × (high.flag < 2)
    × (dec 8 (result_of low) + 10 ^ 8 * dec 8 (result_of high) + 10 ^ 16 * high.flag
        ≡ (dec 8 0x98765432 + 10 ^ 8 * dec 8 0x12345678)
          + (dec 8 0x12345678 + 10 ^ 8 * dec 8 0x98765432))
add_chain_example =
    add_chain fresh 0x98765432 0x12345678 0x12345678 0x98765432 digits_a digits_b digits_b digits_a
