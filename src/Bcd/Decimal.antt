-- ===== src/Bcd/Decimal.antt =====
-- The loops of the BCD unit as decimal arithmetic.
use native.Mathlib.Nat.{pow-suc, pow-le-pow_right, div-div-eq-div-mul}
use casio_cg.Base.{
  ℕ, zero, suc, ◌+◌, ◌-◌, ◌*◌, ◌/◌, ◌%◌, ◌^◌, ◌≤◌, ◌<◌, bit_or, ◌≡◌, refl, sym, ap, ap₂, ◌∙◌, subst,
  arith, ltb, leb, if◌then◌else◌, bit_and_mask, u32, sub32, ◌>>>◌, ◌<<<◌, b2u, bit_or_fields,
  bit_or_comm,
}
use casio_cg.Bcd.{digit, add_loop, sub_loop, bcd_add, bcd_sub}

-- The number that n digits of a word stand for, and that each of them is decimal.
pub dec : ℕ → ℕ → ℕ
dec zero x = 0
dec (suc n) x = x % 16 + 10 * dec n (x / 16)

unfoldable pub IsBcd : ℕ → ℕ → Type 0
IsBcd zero x = x ≡ 0
IsBcd (suc n) x = (x % 16 < 10) × IsBcd n (x / 16)

digit_lem : (x i : ℕ) → digit x i ≡ x / 2 ^ (4 * i) % 16
digit_lem x i = bit_and_mask 4 (x >>> (4 * i))

next_pow : (i : ℕ) → 2 ^ (4 * (i + 1)) ≡ 2 ^ (4 * i) * 16
next_pow i =
    let e : 4 * (i + 1) ≡ suc (suc (suc (suc (4 * i)))) = omega arith in
    rw
      (
        e,
        pow-suc 2 (suc (suc (suc (4 * i)))),
        pow-suc 2 (suc (suc (4 * i))),
        pow-suc 2 (suc (4 * i)),
        pow-suc 2 (4 * i),
      )
      (omega arith)

next_digits : (x i : ℕ) → x / 2 ^ (4 * (i + 1)) ≡ x / 2 ^ (4 * i) / 16
next_digits x i = rw (next_pow i) (sym (div-div-eq-div-mul x (2 ^ (4 * i)) 16))

-- A digit is put above the ones that are there.
put_digit :
    (res s i n : ℕ)
    → res < 2 ^ (4 * i)
    → s < 10
    → i + suc n ≤ 8
    → bit_or res (u32 (s <<< (4 * i))) ≡ s * 2 ^ (4 * i) + res
put_digit res s i n small dig fits =
    let cap : 2 ^ (4 * i) ≤ 2 ^ 28 = pow-le-pow_right (omega arith) {j = 28} (omega arith) in
    let bound : s * 2 ^ (4 * i) ≤ 10 * 2 ^ (4 * i) = grind arith in
    let whole : u32 (s <<< (4 * i)) ≡ s * 2 ^ (4 * i) = omega arith in
    rw (whole, bit_or_comm res (s * 2 ^ (4 * i))) (bit_or_fields (4 * i) s res small)

-- What a loop over n digits from digit i on leaves: n decimal digits q above the old ones, with
-- an equation between q, the latch and the operands.
abbrev Leaves : ℕ → ℕ → ℕ → ℕ × ℕ → (ℕ → ℕ → Type 0) → Type 0
Leaves i n res r Holds =
    (q : ℕ) × (r.0 ≡ q * 2 ^ (4 * i) + res) × IsBcd n q × (r.1 < 2) × Holds (dec n q) (10 ^ n * r.1)

dec_put : (n q s : ℕ) → s < 10 → dec (suc n) (q * 16 + s) ≡ s + 10 * dec n q
unfolding dec
dec_put n q s h =
    let low : (q * 16 + s) % 16 ≡ s = omega arith in
    let high : (q * 16 + s) / 16 ≡ q = omega arith in rw (low, high) refl

IsBcd-put : (n q s : ℕ) → s < 10 → IsBcd n q → IsBcd (suc n) (q * 16 + s)
unfolding IsBcd
IsBcd-put n q s h k =
    let low : (q * 16 + s) % 16 ≡ s = omega arith in
    let high : (q * 16 + s) / 16 ≡ q = omega arith in (omega arith, rw high k)

shifted_sum : (q s p res R : ℕ) → R ≡ q * (p * 16) + (s * p + res) → R ≡ (q * 16 + s) * p + res
shifted_sum q s p res R e = grind arith

pow_ten : (n c : ℕ) → 10 ^ suc n * c ≡ 10 * (10 ^ n * c)
pow_ten n c = rw (pow-suc 10 n) (grind arith)

-- One digit s below the n digits that the rest of the loop leaves.
step_leaves :
    (i n res s : ℕ) (r : ℕ × ℕ) (H K : ℕ → ℕ → Type 0)
    → s < 10
    → Leaves (i + 1) n (s * 2 ^ (4 * i) + res) r H
    → ((d c : ℕ) → H d c → K (s + 10 * d) (10 * c))
    → Leaves i (suc n) res r K
step_leaves i n res s r H K dig (q, e, whole, latch, holds) up = (
  q * 16 + s,
  shifted_sum q s (2 ^ (4 * i)) res (r.0) (e ∙ rw (next_pow i) refl),
  IsBcd-put n q s dig whole,
  latch,
  rw (dec_put n q s dig, pow_ten n (r.1)) (up (dec n q) (10 ^ n * r.1) holds),
)

room : (i s res : ℕ) → res < 2 ^ (4 * i) → s < 10 → s * 2 ^ (4 * i) + res < 2 ^ (4 * (i + 1))
room i s res small dig =
    let bound : s * 2 ^ (4 * i) ≤ 10 * 2 ^ (4 * i) = grind arith in rw (next_pow i) (omega arith)

add_lem :
    (a b i n res carry : ℕ)
    → res < 2 ^ (4 * i)
    → i + n ≤ 8
    → IsBcd n (a / 2 ^ (4 * i))
    → IsBcd n (b / 2 ^ (4 * i))
    → carry < 2
    → Leaves i n res
        (add_loop a b i n res carry)
        (λ d c. d + c ≡ dec n (a / 2 ^ (4 * i)) + dec n (b / 2 ^ (4 * i)) + carry)
unfolding dec IsBcd
add_lem a b i zero res carry small fits ha hb hc = (0, omega arith, refl, hc, omega arith)
add_lem a b i (suc n) res carry small fits (la, ha) (lb, hb) hc =
    let s = digit a i + digit b i + carry in
    let over = leb 10 s in
    let s' = if over then s - 10 else s in
    let da = digit_lem a i in
    let db = digit_lem b i in
    let dig : s' < 10 = ground arith in
    let split : s' + 10 * b2u over ≡ s = ground arith in
    let bit : b2u over < 2 = ground arith in
    let next = λ (x : ℕ). sym (next_digits x i) in
    let rest =
      add_lem a b (i + 1) n (s' * 2 ^ (4 * i) + res) (b2u over) (room i s' res small dig)
        (omega arith) (subst (IsBcd n) (next a) ha) (subst (IsBcd n) (next b) hb) bit in
    let goal = λ (d c : ℕ).
      d + c ≡ dec n (a / 2 ^ (4 * (i + 1))) + dec n (b / 2 ^ (4 * (i + 1))) + b2u over in
    let run = λ (x : ℕ).
      Leaves (i + 1) n (s' * 2 ^ (4 * i) + res) (add_loop a b (i + 1) n x (b2u over)) goal in
    let left = subst run (sym (put_digit res s' i n small dig fits)) rest in
    let full =
      λ (d c : ℕ). d + c ≡ dec (suc n) (a / 2 ^ (4 * i)) + dec (suc n) (b / 2 ^ (4 * i)) + carry in
    let ea = ap (dec n) (next_digits a i) in
    let eb = ap (dec n) (next_digits b i) in
    let up : (d c : ℕ) → goal d c → full (s' + 10 * d) (10 * c) = λ d c h. omega arith in
    step_leaves i n res s' _ goal full dig left up

sub_lem :
    (a b i n res borrow : ℕ)
    → res < 2 ^ (4 * i)
    → i + n ≤ 8
    → IsBcd n (a / 2 ^ (4 * i))
    → IsBcd n (b / 2 ^ (4 * i))
    → borrow < 2
    → Leaves i n res
        (sub_loop a b i n res borrow)
        (λ d c. d + dec n (b / 2 ^ (4 * i)) + borrow ≡ dec n (a / 2 ^ (4 * i)) + c)
unfolding dec IsBcd
sub_lem a b i zero res borrow small fits ha hb hc = (0, omega arith, refl, hc, omega arith)
sub_lem a b i (suc n) res borrow small fits (la, ha) (lb, hb) hc =
    let under = ltb (digit a i) (digit b i + borrow) in
    let s = sub32 (if under then digit a i + 10 else digit a i) (digit b i + borrow) in
    let da = digit_lem a i in
    let db = digit_lem b i in
    let dig : s < 10 = ground arith in
    let split : s + digit b i + borrow ≡ digit a i + 10 * b2u under = ground arith in
    let bit : b2u under < 2 = ground arith in
    let next = λ (x : ℕ). sym (next_digits x i) in
    let rest =
      sub_lem a b (i + 1) n (s * 2 ^ (4 * i) + res) (b2u under) (room i s res small dig)
        (omega arith) (subst (IsBcd n) (next a) ha) (subst (IsBcd n) (next b) hb) bit in
    let goal = λ (d c : ℕ).
      d + dec n (b / 2 ^ (4 * (i + 1))) + b2u under ≡ dec n (a / 2 ^ (4 * (i + 1))) + c in
    let run = λ (x : ℕ).
      Leaves (i + 1) n (s * 2 ^ (4 * i) + res) (sub_loop a b (i + 1) n x (b2u under)) goal in
    let left = subst run (sym (put_digit res s i n small dig fits)) rest in
    let full =
      λ (d c : ℕ). d + dec (suc n) (b / 2 ^ (4 * i)) + borrow ≡ dec (suc n) (a / 2 ^ (4 * i)) + c in
    let ea = ap (dec n) (next_digits a i) in
    let eb = ap (dec n) (next_digits b i) in
    let up : (d c : ℕ) → goal d c → full (s + 10 * d) (10 * c) = λ d c h. omega arith in
    step_leaves i n res s _ goal full dig left up

whole_word : (x : ℕ) → x / 2 ^ (4 * 0) ≡ x
whole_word x = omega arith

-- `bcdAdd` of two words of eight decimal digits: the digits and the carry out are those of the sum
-- with the carry in.
pub bcd_add_lem :
    (a b carry : ℕ)
    → IsBcd 8 a
    → IsBcd 8 b
    → carry < 2
    → IsBcd 8 ((bcd_add a b carry).0)
      × ((bcd_add a b carry).1 < 2)
      × (dec 8 ((bcd_add a b carry).0) + 10 ^ 8 * (bcd_add a b carry).1 ≡ dec 8 a + dec 8 b + carry)
unfolding bcd_add
bcd_add_lem a b carry ha hb hc =
    let (q, e, whole, latch, holds) =
      add_lem a b 0 8 0 carry (omega arith) (omega arith) (subst (IsBcd 8) (sym (whole_word a)) ha)
        (subst (IsBcd 8) (sym (whole_word b)) hb) hc in
    let same : (bcd_add a b carry).0 ≡ q = e ∙ omega arith in
    (
      subst (IsBcd 8) (sym same) whole,
      latch,
      ap (λ x. dec 8 x + 10 ^ 8 * (bcd_add a b carry).1) same
          ∙ holds
          ∙ ap₂ (λ x y. dec 8 x + dec 8 y + carry) (whole_word a) (whole_word b),
    )

-- `bcdSub` likewise, with the borrow: the difference and the subtrahend give the minuend, up to
-- the borrow out.
pub bcd_sub_lem :
    (a b borrow : ℕ)
    → IsBcd 8 a
    → IsBcd 8 b
    → borrow < 2
    → IsBcd 8 ((bcd_sub a b borrow).0)
      × ((bcd_sub a b borrow).1 < 2)
      × (dec 8 ((bcd_sub a b borrow).0) + dec 8 b + borrow
          ≡ dec 8 a + 10 ^ 8 * (bcd_sub a b borrow).1)
unfolding bcd_sub
bcd_sub_lem a b borrow ha hb hc =
    let (q, e, whole, latch, holds) =
      sub_lem a b 0 8 0 borrow (omega arith) (omega arith) (subst (IsBcd 8) (sym (whole_word a)) ha)
        (subst (IsBcd 8) (sym (whole_word b)) hb) hc in
    let same : (bcd_sub a b borrow).0 ≡ q = e ∙ omega arith in
    (
      subst (IsBcd 8) (sym same) whole,
      latch,
      ap₂ (λ x y. dec 8 x + dec 8 y + borrow) same (sym (whole_word b))
          ∙ holds
          ∙ ap (λ x. dec 8 x + 10 ^ 8 * (bcd_sub a b borrow).1) (whole_word a),
    )
