-- ===== src/Keysc/Matrix.antt =====
-- The key matrix: what `press` and `release` do to each key.
use casio_cg.Base.{
  ℕ, ◌+◌, ◌*◌, ◌/◌, ◌%◌, ◌^◌, ◌<◌, bit_and, bit_or, ◌≡◌, refl, sym, ap, ◌∙◌, ◌≢◌, inl, inr, false,
  ◌&&◌, arith, ◌==◌, if◌then◌else◌, lt→ltb, ==_iff, Bool-cases, length, get_or, set,
  get_or-set_self, get_or-set_ne, and_not, test_bit, test_bit-lt, test_bit-or, test_bit-and_not,
  bit_and_mask, true≢false, test_bit-pow_self, test_bit-pow_ne,
}
use casio_cg.Keysc.{key_bit, press, release, Keysc}

-- Whether the key at a row and a column is down, as a digit.
unfoldable pub key_down : Keysc → ℕ → ℕ → ℕ
key_down k row col = test_bit (get_or k.held (col / 2) 0) (row + 8 * (col % 2))

odd_lem : (col : ℕ) → bit_and col 1 ≡ col % 2
odd_lem col = bit_and_mask 1 col

pub bit_of : (row col : ℕ) → key_bit row col ≡ 2 ^ (row + 8 * (col % 2))
bit_of row col = rw (odd_lem col) refl

-- One bit of a word set or cleared, seen from another place.
pub set_bit : (x n i : ℕ) → test_bit (bit_or x (2 ^ n)) i ≡ (if i == n then 1 else test_bit x i)
set_bit x n i = elim (Bool-cases (i == n)) [
  | inl same ↦
      let e : i ≡ n = (==_iff i n).0 same in
      rw (e, test_bit-or x (2 ^ n) n, test_bit-pow_self n) (ground (arith, test_bit-lt x n))
  | inr other ↦
      let ne : n ≢ i = λ e. true≢false (sym ((==_iff i n).1 (sym e)) ∙ other) in
      rw (other, test_bit-or x (2 ^ n) i, test_bit-pow_ne n i ne) (omega arith)
]

pub clear_bit : (x n i : ℕ) → test_bit (and_not x (2 ^ n)) i ≡ (if i == n then 0 else test_bit x i)
clear_bit x n i = elim (Bool-cases (i == n)) [
  | inl same ↦
      let e : i ≡ n = (==_iff i n).0 same in
      rw (e, test_bit-and_not x (2 ^ n) n, test_bit-pow_self n) (ground arith)
  | inr other ↦
      let ne : n ≢ i = λ e. true≢false (sym ((==_iff i n).1 (sym e)) ∙ other) in
      rw (other, test_bit-and_not x (2 ^ n) i, test_bit-pow_ne n i ne)
        (omega (arith, test_bit-lt x i))
]

same_key :
    (row col r c : ℕ)
    → row < 8
    → r < 8
    → c / 2 ≡ col / 2
    → (r + 8 * (c % 2) == row + 8 * (col % 2)) ≡ ((r == row) && (c == col))
same_key row col r c hrow hr e = ground arith

other_word : (row col r c : ℕ) → col / 2 ≢ c / 2 → ((r == row) && (c == col)) ≡ false
other_word row col r c h = ground arith

-- A word of the matrix replaced, seen from a key.
module _ (k : Keysc) (row col r c : ℕ) (hrow : row < 8) (hcol : col < 12) (hr : r < 8)
    (six : length k.held ≡ 6) (v b : ℕ)
    (new : (i : ℕ)
      → test_bit v i
        ≡ (if i == row + 8 * (col % 2) then b else test_bit (get_or k.held (col / 2) 0) i)) where
  seen :
      test_bit (get_or (set k.held (col / 2) v) (c / 2) 0) (r + 8 * (c % 2))
      ≡ (if (r == row) && (c == col) then b else key_down k r c)
  unfolding key_down
  seen = elim (Bool-cases (col / 2 == c / 2)) [
    | inl here ↦
        let e : col / 2 ≡ c / 2 = (==_iff (col / 2) (c / 2)).0 here in
        let tests = same_key row col r c hrow hr (sym e) in
        let word : get_or (set k.held (col / 2) v) (c / 2) 0 ≡ v =
          ap (λ i. get_or (set k.held (col / 2) v) i 0) (sym e)
          ∙ get_or-set_self k.held (col / 2) v 0 (omega arith) in
        rw word (new (r + 8 * (c % 2)) ∙ rw (tests, e) refl)
    | inr away ↦
        let ne : col / 2 ≢ c / 2 = λ e. true≢false (sym ((==_iff (col / 2) (c / 2)).1 e) ∙ away) in
        rw (get_or-set_ne k.held (col / 2) (c / 2) v 0 ne, other_word row col r c ne) refl
  ]

-- Pressing a key of the matrix puts that key down and releasing it puts it up; every other key
-- stays as it is.
pub press-release_lem :
    (k : Keysc) (row col r c : ℕ)
    → row < 8
    → col < 12
    → r < 8
    → length k.held ≡ 6
    → (key_down (press k row col) r c ≡ (if (r == row) && (c == col) then 1 else key_down k r c))
      × (key_down (release k row col) r c
          ≡ (if (r == row) && (c == col) then 0 else key_down k r c))
unfolding press release key_down
press-release_lem k row col r c hrow hcol hr six =
    let x = get_or k.held (col / 2) 0 in
    let n = row + 8 * (col % 2) in
    let on = lt→ltb row 8 hrow in
    let on' = lt→ltb col 12 hcol in
    let bit : key_bit row col ≡ 2 ^ n = bit_of row col in
    rw (on, on', bit)
      (
        seen k row col r c hrow hcol hr six (bit_or x (2 ^ n)) 1 (set_bit x n),
        seen k row col r c hrow hcol hr six (and_not x (2 ^ n)) 0 (clear_bit x n),
      )
