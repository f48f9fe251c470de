-- ===== src/Cpu/Arith/Rotate.antt =====
-- Rotations: each is undone by the one the other way.
use casio_cg.Base.{
  ℕ, ◌+◌, ◌*◌, ◌/◌, ◌%◌, ◌^◌, ◌<◌, bit_and, bit_or, ◌≡◌, refl, ◌∙◌, Bool, arith, ◌!=◌,
  get_or-set_self, test_bit-or, test_bit_ext, bit_and_mask, bit_or-lt, u32, ◌>>>◌, ◌<<<◌, b2u,
  bit_or_fields,
}
use casio_cg.Cpu.State.{reg_of, set_reg, set_t, t_bit, Cpu}
use casio_cg.Cpu.State.Flags.{HasWords, t_bit-set_t, t_bit-lt, set_t-reg, set_words}
use casio_cg.Cpu.Arith.{rotcl, rotcr}

or_comm : (a b : ℕ) → bit_or a b ≡ bit_or b a
or_comm a b =
    test_bit_ext (bit_or a b) (bit_or b a)
      (λ i. omega (arith, test_bit-or a b i, test_bit-or b a i))

-- A word shifted to the left, with a digit put in, and to the right.
left_in : (x t : ℕ) → x < 2 ^ 32 → t < 2 → bit_or (u32 (x <<< 1)) t ≡ x % 2 ^ 31 * 2 + t
left_in x t hx ht =
    let e : u32 (x <<< 1) ≡ x % 2 ^ 31 * 2 ^ 1 = omega arith in
    rw e (bit_or_fields 1 (x % 2 ^ 31) t (omega arith) ∙ omega arith)

right_in : (x t : ℕ) → x < 2 ^ 32 → t < 2 → bit_or (x >>> 1) (t <<< 31) ≡ t * 2 ^ 31 + x / 2
right_in x t hx ht =
    or_comm (x >>> 1) (t <<< 31) ∙ (bit_or_fields 31 t (x / 2 ^ 1) (omega arith) ∙ omega arith)

digit : (t : ℕ) → t < 2 → b2u (t != 0) ≡ t
digit t h = ground arith

-- A register written under a flag, read back, with the flag.
put_read :
    (c : Cpu) (n v : ℕ) (on : Bool)
    → HasWords c
    → n < 16
    → (reg_of (set_t (set_reg c n v) on) n ≡ v) × (t_bit (set_t (set_reg c n v) on) ≡ b2u on)
put_read c n v on (len, word) h = (
  set_t-reg (set_reg c n v) on n ∙ get_or-set_self c.r n v 0 (omega arith),
  t_bit-set_t (set_reg c n v) on,
)

rotcl_fields :
    (c : Cpu) (n : ℕ)
    → HasWords c
    → n < 16
    → (reg_of (rotcl c n) n ≡ reg_of c n % 2 ^ 31 * 2 + t_bit c)
      × (t_bit (rotcl c n) ≡ reg_of c n / 2 ^ 31)
unfolding rotcl
rotcl_fields c n (len, word) h =
    let t = reg_of c n >>> 31 in
    let (r, f) = put_read c n (bit_or (u32 (reg_of c n <<< 1)) (t_bit c)) (t != 0) (len, word) h in
    let w = word n h in
    (r ∙ left_in (reg_of c n) (t_bit c) w (t_bit-lt c), f ∙ digit t (omega arith))

rotcr_fields :
    (c : Cpu) (n : ℕ)
    → HasWords c
    → n < 16
    → (reg_of (rotcr c n) n ≡ t_bit c * 2 ^ 31 + reg_of c n / 2)
      × (t_bit (rotcr c n) ≡ reg_of c n % 2)
unfolding rotcr
rotcr_fields c n (len, word) h =
    let t = bit_and (reg_of c n) 1 in
    let e : t ≡ reg_of c n % 2 = bit_and_mask 1 (reg_of c n) in
    let (r, f) = put_read c n (bit_or (reg_of c n >>> 1) (t_bit c <<< 31)) (t != 0) (len, word) h in
    (r ∙ right_in (reg_of c n) (t_bit c) (word n h) (t_bit-lt c), f ∙ digit t (omega arith) ∙ e)

rotcl-HasWords : (c : Cpu) (n : ℕ) → HasWords c → n < 16 → HasWords (rotcl c n)
unfolding rotcl set_t
rotcl-HasWords c n (len, word) h =
    let v = bit_or (u32 (reg_of c n <<< 1)) (t_bit c) in
    let low : t_bit c < 2 = t_bit-lt c in
    let fit : v < 2 ^ 32 =
      bit_or-lt 32 (u32 (reg_of c n <<< 1)) (t_bit c) (omega arith) (omega arith) in
    set_words c (rotcl c n) n v refl fit (len, word)

rotcr-HasWords : (c : Cpu) (n : ℕ) → HasWords c → n < 16 → HasWords (rotcr c n)
unfolding rotcr set_t
rotcr-HasWords c n (len, word) h =
    let v = bit_or (reg_of c n >>> 1) (t_bit c <<< 31) in
    let w = word n h in
    let e = right_in (reg_of c n) (t_bit c) w (t_bit-lt c) in
    let low = t_bit-lt c in
    let fit : v < 2 ^ 32 = omega arith in set_words c (rotcr c n) n v refl fit (len, word)

-- rotcl and rotcr turn the 33 bits of a register and T: each gives both back after the other.
rotcr-rotcl :
    (c : Cpu) (n : ℕ)
    → HasWords c
    → n < 16
    → (reg_of (rotcr (rotcl c n) n) n ≡ reg_of c n)
      × (t_bit (rotcr (rotcl c n) n) ≡ t_bit c)
      × (reg_of (rotcl (rotcr c n) n) n ≡ reg_of c n)
      × (t_bit (rotcl (rotcr c n) n) ≡ t_bit c)
rotcr-rotcl c n w h =
    let (r, t) = rotcl_fields c n w h in
    let (r', t') = rotcr_fields (rotcl c n) n (rotcl-HasWords c n w h) h in
    let (s, u) = rotcr_fields c n w h in
    let (s', u') = rotcl_fields (rotcr c n) n (rotcr-HasWords c n w h) h in
    let low = t_bit-lt c in
    let word = w.1 n h in (omega arith, omega arith, omega arith, omega arith)
