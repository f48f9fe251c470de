-- ===== src/Base/Bits.antt =====
-- The native bit operations at variables: one equation for the lowest digit of each, the digit
-- `test_bit`, and extensionality. Go's `a &^ b` is `and_not a b`.
use Prim.Native.Nat.{
  ℕ, zero, suc, ◌+◌, ◌*◌, ◌/◌, ◌%◌, ◌^◌, ◌-◌, ◌≤◌, ◌<◌, min, max, digits, bitwise, differ, bit_and,
  bit_or, bit_xor, bit_and-bitwise, bit_or-bitwise, bit_xor-bitwise,
}
use mathlib.Core.Logic.{◌≢◌}
use mathlib.Core.Path.{◌≡◌, refl, ap, ◌∙◌}
use native.Mathlib.Nat.{
  le_refl, div-div-eq-div-mul, pow-suc, one-le-pow, mod-lt, div-add-mod', add-mul-mod_self_right,
  mod-eq_of_lt,
}
use native.Mathlib.Omega.{arith}

abbrev pub and_not : ℕ → ℕ → ℕ
and_not a b = bit_xor a (bit_and a b)

module _ (empty : ℕ → ℕ) (op : ℕ → ℕ → ℕ) where
  -- Any two fuels that cover the first number give the same digits.
  spare_fuel : (x y k j : ℕ) → x ≤ k → x ≤ j → digits empty op j x y ≡ digits empty op k x y
  spare_fuel zero y zero zero lo hi = refl
  spare_fuel zero y zero (suc j) lo hi = refl
  spare_fuel zero y (suc k) zero lo hi = refl
  spare_fuel zero y (suc k) (suc j) lo hi = refl
  spare_fuel (suc x) y zero j lo hi = absurd (omega arith)
  spare_fuel (suc x) y (suc k) zero lo hi = absurd (omega arith)
  spare_fuel (suc x) y (suc k) (suc j) lo hi =
      let half = suc x / 2 in
      let same = spare_fuel half (y / 2) k j (omega arith) (omega arith) in
      ap (λ d. d * 2 + op (suc x % 2) (y % 2)) same

  lowest :
      (x y : ℕ)
      → bitwise empty op (suc x) y
        ≡ op (suc x % 2) (y % 2) + 2 * bitwise empty op (suc x / 2) (y / 2)
  lowest x y =
      let half = suc x / 2 in
      let same = spare_fuel half (y / 2) half x (le_refl half) (omega arith) in omega (arith, same)

pub bit_or_step : (a b : ℕ) → bit_or a b ≡ bit_or (a / 2) (b / 2) * 2 + max (a % 2) (b % 2)
bit_or_step (suc x) y = let e = lowest (λ k. k) max x y in simp bit_or-bitwise (omega (arith, e))
bit_or_step zero y = simp bit_or-bitwise (omega arith)

differ-zero : (b : ℕ) → b < 2 → differ 0 b ≡ b
differ-zero zero h = refl
differ-zero (suc zero) h = refl
differ-zero (suc (suc b)) h = absurd (omega arith)

pub bit_xor_step : (a b : ℕ) → bit_xor a b ≡ bit_xor (a / 2) (b / 2) * 2 + differ (a % 2) (b % 2)
bit_xor_step (suc x) y =
    let e = lowest (λ k. k) differ x y in simp bit_xor-bitwise (omega (arith, e))
bit_xor_step zero y = simp bit_xor-bitwise (omega (arith, differ-zero (y % 2) (omega arith)))

pub bit_and_step : (a b : ℕ) → bit_and a b ≡ bit_and (a / 2) (b / 2) * 2 + min (a % 2) (b % 2)
bit_and_step (suc x) y = let e = lowest (λ k. 0) min x y in simp bit_and-bitwise (omega (arith, e))
bit_and_step zero y = simp bit_and-bitwise (omega arith)

-- Binary digit i of a number.
pub test_bit : ℕ → ℕ → ℕ
test_bit a zero = a % 2
test_bit a (suc i) = test_bit (a / 2) i

pub test_bit-lt : (a i : ℕ) → test_bit a i < 2
unfolding test_bit
test_bit-lt a zero = omega arith
test_bit-lt a (suc i) = test_bit-lt (a / 2) i

pub test_bit-zero : (i : ℕ) → test_bit 0 i ≡ 0
unfolding test_bit
test_bit-zero zero = refl
test_bit-zero (suc i) = test_bit-zero i

differ-lt : (x y : ℕ) → x < 2 → y < 2 → differ x y < 2
differ-lt zero y hx hy = hy
differ-lt (suc zero) zero hx hy = omega arith
differ-lt (suc zero) (suc zero) hx hy = omega arith
differ-lt (suc zero) (suc (suc y)) hx hy = absurd (omega arith)
differ-lt (suc (suc x)) y hx hy = absurd (omega arith)

pub test_bit-and : (a b i : ℕ) → test_bit (bit_and a b) i ≡ min (test_bit a i) (test_bit b i)
unfolding test_bit
test_bit-and a b zero = omega (arith, bit_and_step a b)
test_bit-and a b (suc i) =
    let half : bit_and a b / 2 ≡ bit_and (a / 2) (b / 2) = omega (arith, bit_and_step a b) in
    rw half (test_bit-and (a / 2) (b / 2) i)

pub test_bit-or : (a b i : ℕ) → test_bit (bit_or a b) i ≡ max (test_bit a i) (test_bit b i)
unfolding test_bit
test_bit-or a b zero = omega (arith, bit_or_step a b)
test_bit-or a b (suc i) =
    let half : bit_or a b / 2 ≡ bit_or (a / 2) (b / 2) = omega (arith, bit_or_step a b) in
    rw half (test_bit-or (a / 2) (b / 2) i)

pub test_bit-xor : (a b i : ℕ) → test_bit (bit_xor a b) i ≡ differ (test_bit a i) (test_bit b i)
unfolding test_bit
test_bit-xor a b zero =
    omega (arith, bit_xor_step a b, differ-lt (a % 2) (b % 2) (omega arith) (omega arith))
test_bit-xor a b (suc i) =
    let half : bit_xor a b / 2 ≡ bit_xor (a / 2) (b / 2) =
      omega (arith, bit_xor_step a b, differ-lt (a % 2) (b % 2) (omega arith) (omega arith)) in
    rw half (test_bit-xor (a / 2) (b / 2) i)

differ-min : (x y : ℕ) → x < 2 → y < 2 → differ x (min x y) ≡ min x (1 - y)
differ-min zero y hx hy = omega arith
differ-min (suc zero) zero hx hy = refl
differ-min (suc zero) (suc zero) hx hy = refl
differ-min (suc zero) (suc (suc y)) hx hy = absurd (omega arith)
differ-min (suc (suc x)) y hx hy = absurd (omega arith)

pub test_bit-and_not :
    (a b i : ℕ) → test_bit (and_not a b) i ≡ min (test_bit a i) (1 - test_bit b i)
test_bit-and_not a b i =
    rw (test_bit-xor a (bit_and a b) i, test_bit-and a b i)
      (differ-min (test_bit a i) (test_bit b i) (test_bit-lt a i) (test_bit-lt b i))

-- Numbers with the same digits are equal.
ext_fuel : (n a b : ℕ) → a ≤ n → b ≤ n → ((i : ℕ) → test_bit a i ≡ test_bit b i) → a ≡ b
unfolding test_bit
ext_fuel zero a b p q h = omega arith
ext_fuel (suc n) a b p q h =
    omega (arith, h 0, ext_fuel n (a / 2) (b / 2) (omega arith) (omega arith) (λ i. h (suc i)))

pub test_bit_ext : (a b : ℕ) → ((i : ℕ) → test_bit a i ≡ test_bit b i) → a ≡ b
test_bit_ext a b h = ext_fuel (max a b) a b (omega arith) (omega arith) h

pub bit_or-zero : (a : ℕ) → bit_or a 0 ≡ a
bit_or-zero a = test_bit_ext (bit_or a 0) a λ i. omega (arith, test_bit-or a 0 i, test_bit-zero i)

pub bit_and-zero : (a : ℕ) → bit_and a 0 ≡ 0
bit_and-zero a =
    test_bit_ext (bit_and a 0) 0 λ i. omega (arith, test_bit-and a 0 i, test_bit-zero i)

mod_double : (a m : ℕ) → 1 ≤ m → a % (m * 2) ≡ a / 2 % m * 2 + a % 2
mod_double a m h =
    let r = a / 2 % m * 2 + a % 2 in
    let small : r < m * 2 = omega (arith, mod-lt (a / 2) h) in
    let whole : a ≡ r + a / 2 / m * (m * 2) = omega (arith, div-add-mod' (a / 2) m) in
    ap (λ k. k % (m * 2)) whole ∙ add-mul-mod_self_right r (a / 2 / m) (m * 2) ∙ mod-eq_of_lt small

-- A mask of k low ones is the remainder by 2 ^ k.
pub bit_and_mask : (k a : ℕ) → bit_and a (2 ^ k - 1) ≡ a % 2 ^ k
bit_and_mask zero a = rw bit_and-zero (omega arith)
bit_and_mask (suc k) a =
    let pow : 2 ^ suc k ≡ 2 ^ k * 2 = pow-suc 2 k in
    let pos : 1 ≤ 2 ^ k = one-le-pow k 2 (omega arith) in
    let half : (2 ^ suc k - 1) / 2 ≡ 2 ^ k - 1 = omega arith in
    let rest : bit_and (a / 2) ((2 ^ suc k - 1) / 2) ≡ a / 2 % 2 ^ k =
      rw half (bit_and_mask k (a / 2)) in
    let split : a % 2 ^ suc k ≡ a / 2 % 2 ^ k * 2 + a % 2 = rw pow (mod_double a (2 ^ k) pos) in
    omega (arith, bit_and_step a (2 ^ suc k - 1))

pub bit_or-lt : (k a b : ℕ) → a < 2 ^ k → b < 2 ^ k → bit_or a b < 2 ^ k
bit_or-lt zero a b p q = let e : b ≡ 0 = omega arith in rw (e, bit_or-zero) p
bit_or-lt (suc k) a b p q = omega (
  arith,
  bit_or_step a b,
  pow-suc 2 k,
  bit_or-lt k (a / 2) (b / 2) (omega (arith, pow-suc 2 k)) (omega (arith, pow-suc 2 k)),
)

zero-bit_and : (b : ℕ) → bit_and 0 b ≡ 0
zero-bit_and b = bit_and-bitwise 0 b

bit_and-le_fuel : (n a b : ℕ) → a ≤ n → bit_and a b ≤ a
bit_and-le_fuel zero a b h = let e : a ≡ 0 = omega arith in rw e (omega (arith, zero-bit_and b))
bit_and-le_fuel (suc n) a b h =
    omega (arith, bit_and_step a b, bit_and-le_fuel n (a / 2) (b / 2) (omega arith))

pub bit_and-le : (a b : ℕ) → bit_and a b ≤ a
bit_and-le a b = bit_and-le_fuel a a b (omega arith)

pub bit_and_three : (a : ℕ) → bit_and a 3 ≡ a % 4
bit_and_three a = bit_and_mask 2 a

pub and_not_step : (a b : ℕ) → and_not a b ≡ and_not (a / 2) (b / 2) * 2 + min (a % 2) (1 - b % 2)
and_not_step a b =
    let half : bit_and a b / 2 ≡ bit_and (a / 2) (b / 2) = omega (arith, bit_and_step a b) in
    let low : bit_and a b % 2 ≡ min (a % 2) (b % 2) = omega (arith, bit_and_step a b) in
    let digit = differ-min (a % 2) (b % 2) (omega arith) (omega arith) in
    bit_xor_step a (bit_and a b) ∙ rw (half, low, digit)

and_not-le_fuel : (n a b : ℕ) → a ≤ n → and_not a b ≤ a
and_not-le_fuel zero a b h = let e : a ≡ 0 = omega arith in rw (e, zero-bit_and) (omega arith)
and_not-le_fuel (suc n) a b h =
    omega (arith, and_not_step a b, and_not-le_fuel n (a / 2) (b / 2) (omega arith))

pub and_not-le : (a b : ℕ) → and_not a b ≤ a
and_not-le a b = and_not-le_fuel a a b (omega arith)

-- `(q << k) | r` is a sum where r fits k bits.
pub bit_or_fields : (k q r : ℕ) → r < 2 ^ k → bit_or (q * 2 ^ k) r ≡ q * 2 ^ k + r
bit_or_fields zero q r h =
    let e : r ≡ 0 = omega arith in rw e (omega (arith, bit_or-zero (q * 2 ^ 0)))
bit_or_fields (suc k) q r h =
    let pow : q * 2 ^ suc k ≡ q * 2 ^ k * 2 = omega (arith, ap (λ (t : ℕ). q * t) (pow-suc 2 k)) in
    let half : q * 2 ^ suc k / 2 ≡ q * 2 ^ k = omega arith in
    let rest : bit_or (q * 2 ^ suc k / 2) (r / 2) ≡ q * 2 ^ k + r / 2 =
      rw half (bit_or_fields k q (r / 2) (omega (arith, pow-suc 2 k))) in
    omega (arith, bit_or_step (q * 2 ^ suc k) r)

pub xor_half : (a b : ℕ) → bit_xor a b / 2 ≡ bit_xor (a / 2) (b / 2)
xor_half a b =
    let low = differ-lt (a % 2) (b % 2) (omega arith) (omega arith) in
    omega (arith, bit_xor_step a b)

-- Digit i by division.
pub test_bit_lem : (i x : ℕ) → test_bit x i ≡ x / 2 ^ i % 2
unfolding test_bit
test_bit_lem zero x = omega arith
test_bit_lem (suc i) x =
    let e : x / 2 / 2 ^ i ≡ x / (2 * 2 ^ i) = div-div-eq-div-mul x 2 (2 ^ i) in
    let f : 2 * 2 ^ i ≡ 2 ^ suc i = omega (arith, pow-suc 2 i) in
    test_bit_lem i (x / 2) ∙ ap (λ y. y % 2) (e ∙ ap (λ y. x / y) f)

-- A mask of one bit.
pub and_bit : (k x : ℕ) → bit_and x (2 ^ k) ≡ test_bit x k * 2 ^ k
unfolding test_bit
and_bit zero x = let e = bit_and_mask 1 x in omega arith
and_bit (suc k) x =
    let half : 2 ^ suc k / 2 ≡ 2 ^ k = omega (arith, pow-suc 2 k) in
    let low : 2 ^ suc k % 2 ≡ 0 = omega (arith, pow-suc 2 k) in
    let e : bit_and x (2 ^ suc k) ≡ bit_and (x / 2) (2 ^ k) * 2 + min (x % 2) 0 =
      bit_and_step x (2 ^ suc k) ∙ rw (half, low) refl in
    let f : bit_and (x / 2) (2 ^ k) ≡ test_bit (x / 2) k * 2 ^ k = and_bit k (x / 2) in
    e ∙ rw (f, pow-suc 2 k) (omega arith)

even_pow : (n : ℕ) → 2 ^ suc n % 2 ≡ 0
even_pow n = omega (arith, pow-suc 2 n)

-- A power of two has one digit.
pub test_bit-pow_self : (n : ℕ) → test_bit (2 ^ n) n ≡ 1
unfolding test_bit
test_bit-pow_self zero = refl
test_bit-pow_self (suc n) =
    let half : 2 ^ suc n / 2 ≡ 2 ^ n = omega (arith, pow-suc 2 n) in rw half (test_bit-pow_self n)

pub test_bit-pow_ne : (n i : ℕ) → n ≢ i → test_bit (2 ^ n) i ≡ 0
unfolding test_bit
test_bit-pow_ne zero zero h = absurd (h refl)
test_bit-pow_ne zero (suc i) h = test_bit-zero i
test_bit-pow_ne (suc n) zero h = even_pow n
test_bit-pow_ne (suc n) (suc i) h =
    let half : 2 ^ suc n / 2 ≡ 2 ^ n = omega (arith, pow-suc 2 n) in
    rw half (test_bit-pow_ne n i (λ e. h (ap suc e)))
