-- ===== src/Cpu/Arith/Multiply.antt =====
-- The products: dmulu.l and dmuls.l give the exact 64-bit product.
use casio_cg.Base.{
  ℕ, ◌+◌, ◌-◌, ◌*◌, ◌%◌, ◌^◌, ◌≤◌, ◌<◌, ◌≡◌, sym, ap, ◌∙◌, ◌⊎◌, inl, inr, Bool, true, false, not,
  ◌&&◌, ◌||◌, arith, ltb, if◌then◌else◌, u64,
}
use native.Mathlib.Nat.{mul-le-mul, add-mul, mul_comm}
use casio_cg.Cpu.State.{reg_of, Cpu}
use casio_cg.Cpu.State.Flags.{HasWords}
use casio_cg.Cpu.Signed.{sext64}
use casio_cg.Cpu.Arith.{dmulu, dmuls, mac}

product_fits : (a b : ℕ) → a < 2 ^ 32 → b < 2 ^ 32 → a * b < 2 ^ 64
product_fits a b ha hb =
    let le : a * b ≤ (2 ^ 32 - 1) * (2 ^ 32 - 1) =
      mul-le-mul {n₁ = a} {m₁ = b} {n₂ = 2 ^ 32 - 1} {m₂ = 2 ^ 32 - 1} (omega arith)
        (omega arith) in
    omega (arith, le)

-- dmulu.l leaves in MACH and MACL the product of two registers as unsigned words, exactly.
dmulu_lem :
    (c : Cpu) (n m : ℕ) → HasWords c → n < 16 → m < 16 → mac (dmulu c n m) ≡ reg_of c n * reg_of c m
unfolding dmulu
dmulu_lem c n m (len, word) hn hm =
    let fits = product_fits (reg_of c n) (reg_of c m) (word n hn) (word m hm) in omega arith

-- The absolute value of a word read as signed, and whether it is negative.
abbrev pub size : ℕ → ℕ
size x = if ltb x (2 ^ 31) then x else 2 ^ 32 - x

abbrev pub negative : ℕ → Bool
negative x = not (ltb x (2 ^ 31))

signed_word :
    (x : ℕ)
    → x < 2 ^ 32
    → ((negative x ≡ false) × (sext64 x ≡ size x))
      ⊎ ((negative x ≡ true) × (sext64 x + size x ≡ 2 ^ 64))
unfolding sext64
signed_word x h = ground arith

size-lt : (x : ℕ) → x < 2 ^ 32 → size x < 2 ^ 32
size-lt x h = ground arith

mul_neg : (u s b : ℕ) → u + s ≡ 2 ^ 64 → s * b < 2 ^ 64 → u64 (u * b) ≡ u64 (2 ^ 64 - s * b)
mul_neg u s b e h =
    let all : u * b + s * b ≡ 2 ^ 64 * b = sym (add-mul u s b) ∙ ap (λ k. k * b) e in omega arith

mul_signed :
    (x y : ℕ)
    → x < 2 ^ 32
    → y < 2 ^ 32
    → u64 (sext64 x * sext64 y) ≡ (
        let p = size x * size y in
        let same = (negative x && negative y) || (not (negative x) && not (negative y)) in
        if same then p else (2 ^ 64 - p) % 2 ^ 64)
mul_signed x y hx hy =
    let fits = product_fits (size x) (size y) (size-lt x hx) (size-lt y hy) in
    let swap = mul_comm (size x) (size y) in
    elim (signed_word x hx) [
      | inl (px, ex) ↦ elim (signed_word y hy) [
        | inl (py, ey) ↦ rw (px, py, ex, ey) (omega arith)
        | inr (ny, ey) ↦
            rw (px, ny, ex, mul_comm (size x) (sext64 y), swap)
              (mul_neg (sext64 y) (size y) (size x) ey (omega arith))
      ]
      | inr (nx, ex) ↦ elim (signed_word y hy) [
        | inl (py, ey) ↦ rw (nx, py, ey) (mul_neg (sext64 x) (size x) (size y) ex fits)
        | inr (ny, ey) ↦
            let all : sext64 x * sext64 y + size x * sext64 y ≡ 2 ^ 64 * sext64 y =
              sym (add-mul (sext64 x) (size x) (sext64 y)) ∙ ap (λ k. k * sext64 y) ex in
            let part : sext64 y * size x + size y * size x ≡ 2 ^ 64 * size x =
              sym (add-mul (sext64 y) (size y) (size x)) ∙ ap (λ k. k * size x) ey in
            let turn = mul_comm (size x) (sext64 y) in rw (nx, ny) (omega arith)
      ]
    ]

-- dmuls.l leaves the product of two registers as signed words: of the absolute values where the
-- signs agree, and otherwise its two's complement.
dmuls_lem :
    (c : Cpu) (n m : ℕ)
    → HasWords c
    → n < 16
    → m < 16
    → mac (dmuls c n m) ≡ (
        let p = size (reg_of c n) * size (reg_of c m) in
        let same =
          (negative (reg_of c n) && negative (reg_of c m))
          || (not (negative (reg_of c n)) && not (negative (reg_of c m))) in
        if same then p else (2 ^ 64 - p) % 2 ^ 64)
unfolding dmuls
dmuls_lem c n m (len, word) hn hm =
    let e = mul_signed (reg_of c n) (reg_of c m) (word n hn) (word m hm) in omega (arith, e)
