-- ===== src/Cpu/Arith/Carry.antt =====
-- addc, subc and negc: the carry through T, and 64-bit sums and differences of register pairs.
use casio_cg.Base.{
  ℕ, ◌+◌, ◌-◌, ◌*◌, ◌^◌, ◌<◌, ◌≡◌, refl, ◌≢◌, arith, ltb, set, get_or-set_self, get_or-set_ne, u32,
  b2u,
}
use casio_cg.Cpu.State.{reg_of, set_t, t_bit, Cpu}
use casio_cg.Cpu.State.Flags.{HasWords, t_bit-set_t, t_bit-lt, set_words}
use casio_cg.Cpu.Arith.{addc, subc}

addc_r : (c : Cpu) (n m : ℕ) → (addc c n m).r ≡ set c.r n (u32 (reg_of c n + reg_of c m + t_bit c))
unfolding addc set_t
addc_r c n m = refl

addc_t :
    (c : Cpu) (n m : ℕ)
    → t_bit (addc c n m) ≡ b2u (ltb (2 ^ 32 - 1) (reg_of c n + reg_of c m + t_bit c))
unfolding addc
addc_t c n m = t_bit-set_t c (ltb (2 ^ 32 - 1) (reg_of c n + reg_of c m + t_bit c))

subc_t : (c : Cpu) (n m : ℕ) → t_bit (subc c n m) ≡ b2u (ltb (reg_of c n) (reg_of c m + t_bit c))
unfolding subc
subc_t c n m = t_bit-set_t c (ltb (reg_of c n) (reg_of c m + t_bit c))

subc_r :
    (c : Cpu) (n m : ℕ)
    → (subc c n m).r ≡ set c.r n (u32 (reg_of c n + 2 ^ 33 - (reg_of c m + t_bit c)))
unfolding subc set_t
subc_r c n m = refl

-- A sum of words and a carry, cut to a word, with the carry out.
add_word :
    (a b t : ℕ)
    → a < 2 ^ 32
    → b < 2 ^ 32
    → t < 2
    → u32 (a + b + t) + b2u (ltb (2 ^ 32 - 1) (a + b + t)) * 2 ^ 32 ≡ a + b + t
add_word a b t ha hb ht = ground arith

sub_word :
    (a b t : ℕ)
    → a < 2 ^ 32
    → b < 2 ^ 32
    → t < 2
    → u32 (a + 2 ^ 33 - (b + t)) + (b + t) ≡ a + b2u (ltb a (b + t)) * 2 ^ 32
sub_word a b t ha hb ht = ground arith

-- addc on registers n and m: the new Rn, with the new T as the bit above it, is the sum of the old
-- Rn, Rm and T.
pub addc_lem :
    (c : Cpu) (n m : ℕ)
    → HasWords c
    → n < 16
    → m < 16
    → reg_of (addc c n m) n + t_bit (addc c n m) * 2 ^ 32 ≡ reg_of c n + reg_of c m + t_bit c
addc_lem c n m (len, word) hn hm =
    rw
      (
        addc_t c n m,
        addc_r c n m,
        get_or-set_self c.r n (u32 (reg_of c n + reg_of c m + t_bit c)) 0 (omega arith),
      )
      (add_word (reg_of c n) (reg_of c m) (t_bit c) (word n hn) (word m hm) (t_bit-lt c))

-- subc: the new Rn plus Rm and the old T is the old Rn plus the borrow.
pub subc_lem :
    (c : Cpu) (n m : ℕ)
    → HasWords c
    → n < 16
    → m < 16
    → reg_of (subc c n m) n + (reg_of c m + t_bit c) ≡ reg_of c n + t_bit (subc c n m) * 2 ^ 32
subc_lem c n m (len, word) hn hm =
    rw
      (
        subc_t c n m,
        subc_r c n m,
        get_or-set_self c.r n (u32 (reg_of c n + 2 ^ 33 - (reg_of c m + t_bit c))) 0 (omega arith),
      )
      (sub_word (reg_of c n) (reg_of c m) (t_bit c) (word n hn) (word m hm) (t_bit-lt c))

addc-keeps : (c : Cpu) (n m i : ℕ) → n ≢ i → reg_of (addc c n m) i ≡ reg_of c i
addc-keeps c n m i h =
    rw (addc_r c n m) (get_or-set_ne c.r n i (u32 (reg_of c n + reg_of c m + t_bit c)) 0 h)

subc-keeps : (c : Cpu) (n m i : ℕ) → n ≢ i → reg_of (subc c n m) i ≡ reg_of c i
subc-keeps c n m i h =
    rw (subc_r c n m)
      (get_or-set_ne c.r n i (u32 (reg_of c n + 2 ^ 33 - (reg_of c m + t_bit c))) 0 h)

addc-HasWords : (c : Cpu) (n m : ℕ) → HasWords c → HasWords (addc c n m)
addc-HasWords c n m h =
    set_words c (addc c n m) n (u32 (reg_of c n + reg_of c m + t_bit c)) (addc_r c n m)
      (omega arith) h

subc-HasWords : (c : Cpu) (n m : ℕ) → HasWords c → HasWords (subc c n m)
subc-HasWords c n m h =
    set_words c (subc c n m) n (u32 (reg_of c n + 2 ^ 33 - (reg_of c m + t_bit c))) (subc_r c n m)
      (omega arith) h

-- Two registers as a 64-bit number, `h` the upper one.
abbrev pub pair : Cpu → ℕ → ℕ → ℕ
pair c h l = reg_of c h * 2 ^ 32 + reg_of c l

-- addc on the lower registers, then on the upper ones, adds two 64-bit numbers and the carry in T
-- exactly, the carry out standing in T; the upper registers are not the one written first.
addc-pair :
    (c : Cpu) (h l k m : ℕ)
    → HasWords c
    → h < 16
    → l < 16
    → k < 16
    → m < 16
    → l ≢ h
    → l ≢ k
    → h ≢ l
    → pair (addc (addc c l m) h k) h l + t_bit (addc (addc c l m) h k) * 2 ^ 64
      ≡ pair c h l + pair c k m + t_bit c
addc-pair c h l k m w hh hl hk hm lh lk h≢l =
    let c' = addc c l m in
    omega (
      arith,
      addc_lem c l m w hl hm,
      addc_lem c' h k (addc-HasWords c l m w) hh hk,
      addc-keeps c l m h lh,
      addc-keeps c l m k lk,
      addc-keeps c' h k l h≢l,
    )

-- subc on the lower registers, then on the upper ones, subtracts a 64-bit number and the borrow in T
-- exactly, the borrow standing in T; the upper registers are not the one written first.
subc-pair :
    (c : Cpu) (h l k m : ℕ)
    → HasWords c
    → h < 16
    → l < 16
    → k < 16
    → m < 16
    → l ≢ h
    → l ≢ k
    → h ≢ l
    → pair (subc (subc c l m) h k) h l + (pair c k m + t_bit c)
      ≡ pair c h l + t_bit (subc (subc c l m) h k) * 2 ^ 64
subc-pair c h l k m w hh hl hk hm lh lk h≢l =
    let c' = subc c l m in
    omega (
      arith,
      subc_lem c l m w hl hm,
      subc_lem c' h k (subc-HasWords c l m w) hh hk,
      subc-keeps c l m h lh,
      subc-keeps c l m k lk,
      subc-keeps c' h k l h≢l,
    )
