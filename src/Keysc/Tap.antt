-- ===== src/Keysc/Tap.antt =====
-- A tap: the key goes down, stays down for its scans, and the matrix is as before when it is over.
use casio_cg.Base.{
  ℕ, zero, suc, ◌+◌, ◌*◌, ◌/◌, ◌%◌, ◌^◌, ◌≤◌, ◌<◌, bit_or, ◌≡◌, refl, sym, ap, ◌∙◌, inl, inr, true,
  false, ◌&&◌, List, [], ◌∷◌, arith, ltb, leb, ◌==◌, lt→ltb, le→ltb, ==_iff, Bool-cases, length,
  get_or, set, get_or-set_self, and_not, test_bit, test_bit_ext, u64,
}
use casio_cg.Keysc.{key_bit, press, release, drive, Keysc, KeyTapper}
use casio_cg.Keysc.Matrix.{key_down, bit_of, set_bit, clear_bit, press-release_lem}

set-set : (xs : List ℕ) (i v w : ℕ) → set (set xs i v) i w ≡ set xs i w
set-set [] i v w = refl
set-set (x ∷ xs) zero v w = refl
set-set (x ∷ xs) (suc i) v w = ap (λ ys. x ∷ ys) (set-set xs i v w)

set-get : (xs : List ℕ) (i : ℕ) → i < length xs → set xs i (get_or xs i 0) ≡ xs
set-get [] i h = refl
set-get (x ∷ xs) zero h = refl
set-get (x ∷ xs) (suc i) h = ap (λ ys. x ∷ ys) (set-get xs i (omega arith))

restored : (x n : ℕ) → test_bit x n ≡ 0 → and_not (bit_or x (2 ^ n)) (2 ^ n) ≡ x
restored x n h = test_bit_ext _ _ λ i.
    clear_bit (bit_or x (2 ^ n)) n i ∙ elim (Bool-cases (i == n)) [
      | inl same ↦ rw same (sym (ap (test_bit x) ((==_iff i n).0 same) ∙ h))
      | inr other ↦ rw other (set_bit x n i ∙ rw other refl)
    ]

release-press :
    (k : Keysc) (row col : ℕ)
    → row < 8
    → col < 12
    → length k.held ≡ 6
    → key_down k row col ≡ 0
    → (release (press k row col) row col).held ≡ k.held
unfolding press release key_down
release-press k row col hrow hcol six up =
    let x = get_or k.held (col / 2) 0 in
    let n = row + 8 * (col % 2) in
    let on = lt→ltb row 8 hrow in
    let on' = lt→ltb col 12 hcol in
    let bit : key_bit row col ≡ 2 ^ n = bit_of row col in
    let down = set k.held (col / 2) (bit_or x (2 ^ n)) in
    let word : get_or down (col / 2) 0 ≡ bit_or x (2 ^ n) =
      get_or-set_self k.held (col / 2) (bit_or x (2 ^ n)) 0 (omega arith) in
    rw (on, on', bit, word, restored x n up)
      (set-set k.held (col / 2) (bit_or x (2 ^ n)) x ∙ set-get k.held (col / 2) (omega arith))

-- The tapper while a key is down, and what it was before.
tapping : KeyTapper → ℕ → ℕ → List (ℕ × ℕ) → ℕ → KeyTapper
tapping t row col rest until = record t {
  queue = rest;
  key = (row, col);
  active = true;
  release_at = until;
}

pressed :
    (t : KeyTapper) (k : Keysc) (row col : ℕ) (rest : List (ℕ × ℕ)) (now : ℕ)
    → t.active ≡ false
    → t.queue ≡ (row, col) ∷ rest
    → ltb now t.next_at ≡ false
    → drive t k now ≡ (tapping t row col rest (u64 (now + 3 * k.scan_period)), press k row col)
unfolding drive tapping
pressed t k row col rest now idle waits due = rw (idle, waits, due) refl

waiting :
    (t : KeyTapper) (k : Keysc) (row col : ℕ) (rest : List (ℕ × ℕ)) (until now : ℕ)
    → leb until now ≡ false
    → drive (tapping t row col rest until) k now ≡ (tapping t row col rest until, k)
unfolding drive tapping
waiting t k row col rest until now early = rw early refl

lifted :
    (t : KeyTapper) (k : Keysc) (row col : ℕ) (rest : List (ℕ × ℕ)) (until now : ℕ)
    → leb until now ≡ true
    → drive (tapping t row col rest until) k now ≡ (
      record (tapping t row col rest until) {
        active = false;
        next_at = u64 (now + 3 * k.scan_period);
      },
      release k row col,
    )
unfolding drive tapping
lifted t k row col rest until now late = rw late refl

-- A tap of a key that is up: the first call at its time puts the key down and takes it off the
-- queue, a call before three scan periods are over changes nothing, and a later one gives back the
-- matrix as it was, with the rest of the queue left.
pub tap_lem :
    (t : KeyTapper) (k : Keysc) (row col : ℕ) (rest : List (ℕ × ℕ)) (now early late : ℕ)
    → t.active ≡ false
    → t.queue ≡ (row, col) ∷ rest
    → t.next_at ≤ now
    → row < 8
    → col < 12
    → length k.held ≡ 6
    → key_down k row col ≡ 0
    → early < u64 (now + 3 * k.scan_period)
    → u64 (now + 3 * k.scan_period) ≤ late
    → let (t1, k1) = drive t k now in
      let (t2, k2) = drive t1 k1 late in
      (key_down k1 row col ≡ 1)
      × (drive t1 k1 early ≡ (t1, k1))
      × (k2.held ≡ k.held)
      × (t2.queue ≡ rest)
      × (t2.active ≡ false)
unfolding tapping
tap_lem t k row col rest now early late idle waits due hrow hcol six up before after =
    let until = u64 (now + 3 * k.scan_period) in
    let t1 = tapping t row col rest until in
    let k1 = press k row col in
    let start = pressed t k row col rest now idle waits (le→ltb now t.next_at due) in
    let stays = waiting t k1 row col rest until early (ground arith) in
    let ends = lifted t k1 row col rest until late (ground arith) in
    let (down, _) = press-release_lem k row col row col hrow hcol hrow six in
    let here : ((row == row) && (col == col)) ≡ true = ground arith in
    rw start (
      down ∙ rw here refl,
      stays,
      ap (λ p. p.1.held) ends ∙ release-press k row col hrow hcol six up,
      ap (λ p. p.0.queue) ends,
      ap (λ p. p.0.active) ends,
    )
