-- ===== src/Base/Masks.antt =====
-- Masks of words read as arithmetic: a page of 2 ^ k bytes, its number and the offset in it.
use Prim.Native.Nat.{
  max, ℕ, zero, suc, ◌+◌, ◌-◌, ◌*◌, ◌/◌, ◌%◌, ◌^◌, ◌<◌, ◌≤◌, differ, bit_and, bit_or, bit_xor,
}
use mathlib.Core.Path.{◌≡◌, refl, sym, ap, ◌∙◌}
use native.Mathlib.Nat.{pow-suc, one-le-pow, div-add-mod', div-div-eq-div-mul, mod-lt, div-eq_of_lt}
use native.Mathlib.Omega.{arith}
use mathlib.Core.Logic.{◌≢◌}
use casio_cg.Base.Tests.{◌==◌}
use casio_cg.Base.Bits.{
  and_not, bit_and_step, test_bit, test_bit-lt, test_bit-zero, test_bit-and, test_bit-or,
  test_bit-xor, test_bit-and_not, test_bit_ext, bit_and_mask, bit_and-le, and_not_step, and_not-le,
  bit_or_fields, xor_half,
}

parts_fuel : (n a b : ℕ) → a ≤ n → and_not a b + bit_and a b ≡ a
parts_fuel zero a b h = omega (arith, and_not-le a b, bit_and-le a b)
parts_fuel (suc n) zero b h = omega (arith, and_not-le 0 b, bit_and-le 0 b)
parts_fuel (suc n) (suc a) b h = omega (
  arith,
  and_not_step (suc a) b,
  bit_and_step (suc a) b,
  parts_fuel n (suc a / 2) (b / 2) (omega arith),
)

-- A mask splits a number into two parts.
pub and_not_parts : (a b : ℕ) → and_not a b + bit_and a b ≡ a
and_not_parts a b = parts_fuel a a b (omega arith)

-- `a &^ (2^k - 1)` clears the offset.
pub and_not_mask : (k a : ℕ) → and_not a (2 ^ k - 1) ≡ a / 2 ^ k * 2 ^ k
and_not_mask k a =
    omega (arith, and_not_parts a (2 ^ k - 1), bit_and_mask k a, div-add-mod' a (2 ^ k))

-- The frame of a page and the offset in it.
pub page_address :
    (k p a : ℕ)
    → bit_or (and_not p (2 ^ k - 1)) (bit_and a (2 ^ k - 1)) ≡ p / 2 ^ k * 2 ^ k + a % 2 ^ k
page_address k p a =
    rw (and_not_mask k p, bit_and_mask k a)
      (bit_or_fields k (p / 2 ^ k) (a % 2 ^ k) (mod-lt a (one-le-pow k 2 (omega arith))))

-- The field of a word above its lower k bits.
pub word_above :
    (k a : ℕ) → a < 2 ^ 32 → bit_and a (and_not (2 ^ 32 - 1) (2 ^ k - 1)) ≡ a / 2 ^ k * 2 ^ k
word_above k a h =
    let swap : bit_and a (and_not (2 ^ 32 - 1) (2 ^ k - 1))
        ≡ and_not (bit_and a (2 ^ 32 - 1)) (2 ^ k - 1) =
      test_bit_ext _ _ λ i. omega (
        arith,
        test_bit-and a (and_not (2 ^ 32 - 1) (2 ^ k - 1)) i,
        test_bit-and_not (2 ^ 32 - 1) (2 ^ k - 1) i,
        test_bit-and_not (bit_and a (2 ^ 32 - 1)) (2 ^ k - 1) i,
        test_bit-and a (2 ^ 32 - 1) i,
      ) in
    let whole : bit_and a (2 ^ 32 - 1) ≡ a = omega (arith, bit_and_mask 32 a) in
    swap ∙ rw whole (and_not_mask k a)

-- The page number field of a word, above bit 10.
pub word_page : (a : ℕ) → a < 2 ^ 32 → bit_and a 0xFFFFFC00 ≡ a / 2 ^ 10 * 2 ^ 10
word_page = word_above 10

-- A disjunction is 0 only where both sides are.
pub bit_or_null : (a b : ℕ) → bit_or a b ≡ 0 → (a ≡ 0) × (b ≡ 0)
bit_or_null a b h =
    let at : (i : ℕ) → max (test_bit a i) (test_bit b i) ≡ 0 =
      λ i. sym (test_bit-or a b i) ∙ ap (λ x. test_bit x i) h ∙ test_bit-zero i in
    (
      test_bit_ext a 0 (λ i. omega (arith, at i, test_bit-zero i)),
      test_bit_ext b 0 (λ i. omega (arith, at i, test_bit-zero i)),
    )

differ_self : (x : ℕ) → x < 2 → differ x x ≡ 0
differ_self zero h = refl
differ_self (suc zero) h = refl
differ_self (suc (suc x)) h = absurd (omega arith)

differ_zero : (x y : ℕ) → x < 2 → y < 2 → differ x y ≡ 0 → x ≡ y
differ_zero zero zero h k e = refl
differ_zero zero (suc zero) h k e = absurd (omega arith)
differ_zero (suc zero) zero h k e = absurd (omega arith)
differ_zero (suc zero) (suc zero) h k e = refl
differ_zero (suc (suc x)) y h k e = absurd (omega arith)
differ_zero x (suc (suc y)) h k e = absurd (omega arith)

pub bit_xor_self : (a : ℕ) → bit_xor a a ≡ 0
bit_xor_self a = test_bit_ext (bit_xor a a) 0 λ i.
    omega (arith, test_bit-xor a a i, differ_self (test_bit a i) (test_bit-lt a i), test_bit-zero i)

pub eq_of_bit_xor : (a b : ℕ) → bit_xor a b ≡ 0 → a ≡ b
eq_of_bit_xor a b e = test_bit_ext a b λ i.
    differ_zero (test_bit a i) (test_bit b i) (test_bit-lt a i) (test_bit-lt b i)
      (sym (test_bit-xor a b i) ∙ ap (λ t. test_bit t i) e ∙ test_bit-zero i)

half_more : (k x : ℕ) → x / 2 ^ suc k ≡ x / 2 ^ k / 2
half_more k x = rw (pow-suc 2 k) (sym (div-div-eq-div-mul x (2 ^ k) 2))

xor_div : (k a b : ℕ) → bit_xor a b / 2 ^ k ≡ bit_xor (a / 2 ^ k) (b / 2 ^ k)
xor_div zero a b =
    let whole = λ (x : ℕ). let e : x / 2 ^ 0 ≡ x = omega arith in e in
    rw (whole (bit_xor a b), whole a, whole b)
xor_div (suc k) a b =
    rw (half_more k (bit_xor a b), half_more k a, half_more k b, xor_div k a b)
      (xor_half (a / 2 ^ k) (b / 2 ^ k))

pub bit_xor-lt : (k a b : ℕ) → a < 2 ^ k → b < 2 ^ k → bit_xor a b < 2 ^ k
bit_xor-lt k a b ha hb =
    let e : a / 2 ^ k ≡ 0 = div-eq_of_lt ha in
    let f : b / 2 ^ k ≡ 0 = div-eq_of_lt hb in
    let g : bit_xor a b / 2 ^ k ≡ 0 = xor_div k a b ∙ rw (e, f) (bit_xor_self 0) in
    let low = mod-lt (bit_xor a b) (one-le-pow k 2 (omega arith)) in
    rw (← div-add-mod' (bit_xor a b) (2 ^ k), g) (omega (arith, low))

xor_test : (x n p q : ℕ) → bit_xor p q ≡ x → 1 ≤ n → (x * n == 0) ≡ (p == q)
xor_test zero n p q e h =
    let none_left : 0 * n ≡ 0 = omega arith in
    let same : p ≡ q = eq_of_bit_xor p q e in ground arith
xor_test (suc x) n p q e h =
    let some_left : 0 < suc x * n = grind arith in
    let apart : p ≢ q =
      λ same. let z : suc x ≡ 0 = sym e ∙ rw same (bit_xor_self q) in absurd (omega arith) in
    ground arith

-- The comparison of two addresses outside the offset, under the mask of the page number field.
pub same_page :
    (k a b : ℕ)
    → ((q : ℕ) → q * 2 ^ k / 2 ^ 10 * 2 ^ 10 ≡ q * 2 ^ k)
    → a < 2 ^ 32
    → b < 2 ^ 32
    → (bit_and (and_not (bit_xor a b) (2 ^ k - 1)) 0xFFFFFC00 == 0) ≡ (a / 2 ^ k == b / 2 ^ k)
same_page k a b whole ha hb =
    let x = bit_xor a b in
    let small : x < 2 ^ 32 = bit_xor-lt 32 a b ha hb in
    let below : and_not x (2 ^ k - 1) < 2 ^ 32 = omega (arith, and_not-le x (2 ^ k - 1)) in
    let e : bit_and (and_not x (2 ^ k - 1)) 0xFFFFFC00 ≡ x / 2 ^ k * 2 ^ k =
      word_page (and_not x (2 ^ k - 1)) below ∙ rw (and_not_mask k x) (whole (x / 2 ^ k)) in
    let pos : 1 ≤ 2 ^ k = one-le-pow k 2 (omega arith) in
    rw (e, xor_div k a b)
      (xor_test (bit_xor (a / 2 ^ k) (b / 2 ^ k)) (2 ^ k) (a / 2 ^ k) (b / 2 ^ k) refl pos)

-- A mask that keeps the bits of a second one has no effect below it.
pub and_and : (p m n : ℕ) → bit_and m n ≡ n → bit_and (bit_and p m) n ≡ bit_and p n
and_and p m n e = test_bit_ext _ _ λ i. omega (
  arith,
  test_bit-and (bit_and p m) n i,
  test_bit-and p m i,
  test_bit-and p n i,
  test_bit-and m n i,
  ap (λ t. test_bit t i) e,
)

pub and_not_and : (a b : ℕ) → bit_and (and_not a b) b ≡ 0
and_not_and a b = test_bit_ext _ _ λ i. omega (
  arith,
  test_bit-and (and_not a b) b i,
  test_bit-and_not a b i,
  test_bit-zero i,
  test_bit-lt a i,
  test_bit-lt b i,
)

pub bit_or_comm : (a b : ℕ) → bit_or a b ≡ bit_or b a
bit_or_comm a b = test_bit_ext _ _ λ i. omega (arith, test_bit-or a b i, test_bit-or b a i)
