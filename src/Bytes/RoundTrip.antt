-- ===== src/Bytes/RoundTrip.antt =====
-- What `beWrite` leaves in a slice, and that `beRead` reads it back.
use native.Mathlib.Nat.{div-div-eq-div-mul, pow-suc, pow-le-pow_right, div-le_self, div-eq_of_lt}
use casio_cg.Base.{
  ℕ, zero, suc, ◌+◌, ◌-◌, ◌*◌, ◌/◌, ◌^◌, ◌≤◌, ◌<◌, bit_or, ◌≡◌, refl, sym, ap, ◌∙◌, inl, inr, true,
  false, ◌&&◌, Option, some, arith, ltb, leb, ◌==◌, if◌then◌else◌, Bool-cases, u8, u32, ◌>>>◌,
  ◌<<<◌, bit_or_fields,
}
use casio_cg.Bytes.{be_loop, be_read, be_store, be_write, Buffer}

-- The slice after writing the last n bytes of a word but for the i lowest.
abbrev Written : Option Buffer → Buffer → ℕ → ℕ → ℕ → ℕ → ℕ → Type 0
Written o b off size val i n =
    (b' : Buffer) × (o ≡ some b')
    × (b'.size ≡ b.size)
    × ((j : ℕ)
        → b'.at j ≡ (
            if leb (off + size - i - n) j && ltb j (off + size - i)
            then u8 (val / 2 ^ (8 * (off + size - 1 - j)))
            else b.at j))

earlier :
    (b : Buffer) (off size val i n j : ℕ)
    → i + suc n ≤ size
    → (if leb (off + size - (i + 1) - n) j && ltb j (off + size - (i + 1))
        then u8 (val / 2 ^ (8 * (off + size - 1 - j)))
        else (if j == off + size - 1 - i then u8 (val >>> (8 * i)) else b.at j))
      ≡ (if leb (off + size - i - suc n) j && ltb j (off + size - i)
          then u8 (val / 2 ^ (8 * (off + size - 1 - j)))
          else b.at j)
earlier b off size val i n j h = elim (Bool-cases (j == off + size - 1 - i)) [
  | inl same ↦
      let k : off + size - 1 - j ≡ i = ground arith in
      let out : (leb (off + size - (i + 1) - n) j && ltb j (off + size - (i + 1))) ≡ false =
        ground arith in
      let inside : (leb (off + size - i - suc n) j && ltb j (off + size - i)) ≡ true =
        ground arith in
      rw (out, inside, same, k) refl
  | inr other ↦
      let tests : (leb (off + size - (i + 1) - n) j && ltb j (off + size - (i + 1)))
          ≡ (leb (off + size - i - suc n) j && ltb j (off + size - i)) =
        ground arith in
      rw (tests, other) refl
]

store_lem :
    (b : Buffer) (off size val i n : ℕ)
    → off + size ≤ b.size
    → i + n ≤ size
    → Written (be_store b off size val i n) b off size val i n
store_lem b off size val i zero fits h = (b, refl, refl, λ j. ground arith)
store_lem b off size val i (suc n) fits h =
    let here = off + size - 1 - i in
    let stored = record b { at = λ (j : ℕ). if j == here then u8 (val >>> (8 * i)) else b.at j } in
    let in_range : ltb here b.size ≡ true = ground arith in
    let (b', e, same, at) = store_lem stored off size val (i + 1) n fits (omega arith) in
    rw in_range (b', e, same, λ j. at j ∙ earlier b off size val i n j h)

byte_joins : (x v : ℕ) → x < 2 ^ 32 → v ≡ x / 2 ^ 8 → bit_or (u32 (v <<< 8)) (u8 x) ≡ x
byte_joins x v h e =
    let cut : u32 (v <<< 8) ≡ x / 2 ^ 8 * 2 ^ 8 = omega arith in
    rw cut (omega (arith, bit_or_fields 8 (x / 2 ^ 8) (u8 x) (omega arith)))

pow_add : (k n : ℕ) → 2 ^ (k + n) ≡ 2 ^ k * 2 ^ n
pow_add k zero = let e : k + 0 ≡ k = omega arith in rw e (omega arith)
pow_add k (suc n) =
    let e : k + suc n ≡ suc (k + n) = omega arith in
    rw (e, pow-suc 2 (k + n), pow-suc 2 n, pow_add k n) (grind arith)

one_less : (val n : ℕ) → val / 2 ^ (8 * suc n) ≡ val / 2 ^ (8 * n) / 2 ^ 8
one_less val n =
    let e : 8 * suc n ≡ 8 * n + 8 = omega arith in
    rw (e, pow_add (8 * n) 8) (sym (div-div-eq-div-mul val (2 ^ (8 * n)) (2 ^ 8)))

read_word :
    (b : Buffer) (off size val n v : ℕ)
    → ((j : ℕ) → off ≤ j → j < off + size → b.at j ≡ u8 (val / 2 ^ (8 * (off + size - 1 - j))))
    → n ≤ size
    → off + size ≤ b.size
    → val < 2 ^ 32
    → v ≡ val / 2 ^ (8 * n)
    → be_loop b (off + size - n) n v ≡ some val
read_word b off size val zero v at hn fits small e = ap some (e ∙ omega arith)
read_word b off size val (suc n) v at hn fits small e =
    let here = off + size - suc n in
    let in_range : ltb here b.size ≡ true = ground arith in
    let k : off + size - 1 - here ≡ n = omega arith in
    let byte : b.at here ≡ u8 (val / 2 ^ (8 * n)) =
      at here (omega arith) (omega arith) ∙ rw k refl in
    let next : here + 1 ≡ off + size - n = omega arith in
    let low : val / 2 ^ (8 * n) < 2 ^ 32 = omega (arith, div-le_self val (2 ^ (8 * n))) in
    let joined = byte_joins (val / 2 ^ (8 * n)) v low (e ∙ one_less val n) in
    rw (in_range, byte, next, joined)
      (read_word b off size val n _ at (omega arith) fits small refl)

inside_bytes :
    (b : Buffer) (off size val j : ℕ)
    → off ≤ j
    → j < off + size
    → (if leb (off + size - 0 - size) j && ltb j (off + size - 0)
        then u8 (val / 2 ^ (8 * (off + size - 1 - j)))
        else b.at j)
      ≡ u8 (val / 2 ^ (8 * (off + size - 1 - j)))
inside_bytes b off size val j lo hi =
    let yes_in : (leb (off + size - 0 - size) j && ltb j (off + size - 0)) ≡ true = ground arith in
    rw yes_in refl

written_bytes :
    (b : Buffer) (off size val j : ℕ)
    → (if leb (off + size - 0 - size) j && ltb j (off + size - 0)
        then u8 (val / 2 ^ (8 * (off + size - 1 - j)))
        else b.at j)
      ≡ (if leb off j && ltb j (off + size)
          then u8 (val / 2 ^ (8 * (off + size - 1 - j)))
          else b.at j)
written_bytes b off size val j =
    let start : off + size - 0 - size ≡ off = omega arith in
    let end : off + size - 0 ≡ off + size = omega arith in rw (start, end) refl

-- Writing a word of up to four bytes inside a slice and reading it gives the word back: its bytes
-- are the word's, the highest first, and the others are as they were.
pub read-write_bytes :
    (b : Buffer) (off size val : ℕ)
    → off + size ≤ b.size
    → size ≤ 4
    → val < 2 ^ (8 * size)
    → (b' : Buffer) × (be_write b off size val ≡ some b')
      × (be_read b' off size ≡ some val)
      × (b'.size ≡ b.size)
      × ((j : ℕ)
          → b'.at j ≡ (
              if leb off j && ltb j (off + size)
              then u8 (val / 2 ^ (8 * (off + size - 1 - j)))
              else b.at j))
unfolding be_write be_read
read-write_bytes b off size val fits four small =
    let (b', e, same, at) = store_lem b off size val 0 size fits (omega arith) in
    let start : off + size - size ≡ off = omega arith in
    let none_read : 0 ≡ val / 2 ^ (8 * size) = sym (div-eq_of_lt small) in
    let cap : 2 ^ (8 * size) ≤ 2 ^ 32 = pow-le-pow_right (omega arith) {j = 32} (omega arith) in
    let word : val < 2 ^ 32 = omega (arith, cap) in
    let bytes =
      λ (j : ℕ) (lo : off ≤ j) (hi : j < off + size). at j ∙ inside_bytes b off size val j lo hi in
    let got : be_loop b' off size 0 ≡ some val =
      ap (λ k. be_loop b' k size 0) (sym start)
      ∙ read_word b' off size val size 0 bytes (omega arith) (omega arith) word none_read in
    (b', e, got, same, λ j. at j ∙ written_bytes b off size val j)
