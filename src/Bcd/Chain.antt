-- ===== src/Bcd/Chain.antt =====
-- Numbers longer than a word through the registers of the BCD unit: the latch carries from one
-- operation into the next.
use casio_cg.Base.{ℕ, ◌+◌, ◌*◌, ◌^◌, ◌<◌, ◌≡◌, refl, sym, subst, arith}
use casio_cg.Bcd.{bcd_base, bcd_add, bcd_sub, compute, bcd_write, bcd_read, Bcd}
use casio_cg.Bcd.Decimal.{dec, IsBcd, bcd_add_lem, bcd_sub_lem}

-- The operands and a command, as the OS writes them, and the result register.
pub operate : Bcd → ℕ → ℕ → ℕ → Bcd
operate u a b cmd =
    bcd_write (bcd_write (bcd_write u (bcd_base + 4) a) (bcd_base + 8) b) bcd_base cmd

pub result_of : Bcd → ℕ
result_of u = bcd_read u (bcd_base + 0xC)

adds :
    (u : Bcd) (a b : ℕ)
    → (result_of (operate u a b 1) ≡ (bcd_add a b 0).0)
      × ((operate u a b 1).flag ≡ (bcd_add a b 0).1)
unfolding operate result_of bcd_write bcd_read compute
adds u a b = (refl, refl)

adds_on :
    (u : Bcd) (a b : ℕ)
    → (result_of (operate u a b 3) ≡ (bcd_add a b u.flag).0)
      × ((operate u a b 3).flag ≡ (bcd_add a b u.flag).1)
unfolding operate result_of bcd_write bcd_read compute
adds_on u a b = (refl, refl)

subs :
    (u : Bcd) (a b : ℕ)
    → (result_of (operate u a b 0) ≡ (bcd_sub a b 0).0)
      × ((operate u a b 0).flag ≡ (bcd_sub a b 0).1)
unfolding operate result_of bcd_write bcd_read compute
subs u a b = (refl, refl)

subs_on :
    (u : Bcd) (a b : ℕ)
    → (result_of (operate u a b 2) ≡ (bcd_sub a b u.flag).0)
      × ((operate u a b 2).flag ≡ (bcd_sub a b u.flag).1)
unfolding operate result_of bcd_write bcd_read compute
subs_on u a b = (refl, refl)

-- A+B on the low words and A+B+flag on the high words, written to the unit's registers one after
-- the other, add numbers of sixteen decimal digits: both results are decimal digits, the latch is
-- 0 or 1, and the two results and the latch are the sum.
pub add_chain :
    (u : Bcd) (a0 b0 a1 b1 : ℕ)
    → IsBcd 8 a0
    → IsBcd 8 b0
    → IsBcd 8 a1
    → IsBcd 8 b1
    → let low = operate u a0 b0 1 in
      let high = operate low a1 b1 3 in
      IsBcd 8 (result_of low)
      × IsBcd 8 (result_of high)
      × (high.flag < 2)
      × (dec 8 (result_of low) + 10 ^ 8 * dec 8 (result_of high) + 10 ^ 16 * high.flag
          ≡ (dec 8 a0 + 10 ^ 8 * dec 8 a1) + (dec 8 b0 + 10 ^ 8 * dec 8 b1))
add_chain u a0 b0 a1 b1 h0 k0 h1 k1 =
    let low = operate u a0 b0 1 in
    let (r0, f0) = adds u a0 b0 in
    let (r1, f1) = adds_on low a1 b1 in
    let (digits0, bit, sum0) = bcd_add_lem a0 b0 0 h0 k0 (omega arith) in
    let latch : low.flag < 2 = subst (λ x. x < 2) (sym f0) bit in
    let (digits1, bit1, sum1) = bcd_add_lem a1 b1 low.flag h1 k1 latch in
    (
      subst (IsBcd 8) (sym r0) digits0,
      subst (IsBcd 8) (sym r1) digits1,
      subst (λ x. x < 2) (sym f1) bit1,
      rw (r0, r1, f1) (omega (arith, f0, sum0, sum1)),
    )

-- A-B on the low words and A-B-flag on the high words subtract likewise: the two results and the
-- subtrahend give the minuend, and the latch is set where it was the smaller one.
sub_chain :
    (u : Bcd) (a0 b0 a1 b1 : ℕ)
    → IsBcd 8 a0
    → IsBcd 8 b0
    → IsBcd 8 a1
    → IsBcd 8 b1
    → let low = operate u a0 b0 0 in
      let high = operate low a1 b1 2 in
      dec 8 (result_of low) + 10 ^ 8 * dec 8 (result_of high) + (dec 8 b0 + 10 ^ 8 * dec 8 b1)
      ≡ (dec 8 a0 + 10 ^ 8 * dec 8 a1) + 10 ^ 16 * high.flag
sub_chain u a0 b0 a1 b1 h0 k0 h1 k1 =
    let low = operate u a0 b0 0 in
    let (r0, f0) = subs u a0 b0 in
    let (r1, f1) = subs_on low a1 b1 in
    let (_, bit, sum0) = bcd_sub_lem a0 b0 0 h0 k0 (omega arith) in
    let latch : low.flag < 2 = subst (λ x. x < 2) (sym f0) bit in
    let (_, _, sum1) = bcd_sub_lem a1 b1 low.flag h1 k1 latch in
    rw (r0, r1, f1) (omega (arith, f0, sum0, sum1))
