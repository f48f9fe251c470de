-- ===== src/Intc/State.antt =====
-- The save-state of the controller: `stateMap` and `restoreState`.
use casio_cg.Base.{
  ℕ, zero, suc, ◌+◌, ◌-◌, ◌*◌, ◌/◌, ◌%◌, ◌≤◌, ◌<◌, bit_and, bit_or, ◌≡◌, refl, ap, ap₂, ◌∙◌, ◌≢◌,
  inl, inr, true, false, ◌&&◌, ◌||◌, none, some, List, [], ◌∷◌, arith, ltb, leb, ◌==◌,
  if◌then◌else◌, Bool-cases, length, get_or, set, length-set, and_not, bit_and_three, bit_or-lt, u8,
  u16, sub32, RegMap, put, and_not-le, value,
}
use casio_cg.Intc.{
  intc_base, is_ipr, is_imr, write, put_cells, state_map, load_cells, has_cell, restore_state, Intc,
}

-- Every cell is one that `cut` leaves alone.
abbrev pub AllFit : (ℕ → ℕ) → List ℕ → Type 0
AllFit cut [] = Unit
AllFit cut (v ∷ vs) = (cut v ≡ v) × AllFit cut vs

-- The arrays have Go's lengths and widths, and no register of the map hides one of theirs.
pub record IsWellFormed (k : Intc) : Type 0 where
  pub ipr_cells : length k.ipr ≡ 12
  pub imr_cells : length k.imr ≡ 13
  pub ipr_fit : AllFit u16 k.ipr
  pub imr_fit : AllFit u8 k.imr
  pub no_ipr : (off : ℕ) → is_ipr off ≡ true → k.regs off ≡ none
  pub no_imr : (off : ℕ) → is_imr off ≡ true → k.regs off ≡ none

put_cells_below : (vs : List ℕ) (m : RegMap) (key j : ℕ) → j < key → put_cells m key vs j ≡ m j
unfolding put_cells
put_cells_below [] m key j h = refl
put_cells_below (v ∷ vs) m key j h = ground (arith, put_cells_below vs (put m key v) (key + 4) j)

put_cells_above :
    (vs : List ℕ) (m : RegMap) (key j : ℕ) → key + length vs * 4 ≤ j → put_cells m key vs j ≡ m j
unfolding put_cells
put_cells_above [] m key j h = refl
put_cells_above (v ∷ vs) m key j h = ground (arith, put_cells_above vs (put m key v) (key + 4) j)

-- A key off the grid of the cells.
put_cells_off :
    (vs : List ℕ) (m : RegMap) (key j : ℕ) → key % 4 ≡ 0 → j % 4 ≢ 0 → put_cells m key vs j ≡ m j
unfolding put_cells
put_cells_off [] m key j h g = refl
put_cells_off (v ∷ vs) m key j h g =
    ground (arith, put_cells_off vs (put m key v) (key + 4) j (omega arith) g)

load_cells_ext :
    (cut : ℕ → ℕ) (n : ℕ) (m m' : RegMap) (key : ℕ)
    → ((j : ℕ) → key ≤ j → j < key + n * 4 → m j ≡ m' j)
    → load_cells cut m key n ≡ load_cells cut m' key n
unfolding load_cells
load_cells_ext cut zero m m' key h = refl
load_cells_ext cut (suc n) m m' key h =
    ap₂ ◌∷◌ (ap (λ o. cut (value o)) (h key (omega arith) (omega arith)))
      (load_cells_ext cut n m m' (key + 4) (λ j p q. h j (omega arith) (omega arith)))

load_cells-put_cells :
    (cut : ℕ → ℕ) (vs : List ℕ) (m : RegMap) (key n : ℕ)
    → length vs ≡ n
    → AllFit cut vs
    → load_cells cut (put_cells m key vs) key n ≡ vs
unfolding load_cells put_cells
load_cells-put_cells cut [] m key zero e f = refl
load_cells-put_cells cut [] m key (suc n) e f = absurd (omega arith)
load_cells-put_cells cut (v ∷ vs) m key zero e f = absurd (omega arith)
load_cells-put_cells cut (v ∷ vs) m key (suc n) e f =
    ap₂ ◌∷◌ (ground (arith, put_cells_below vs (put m key v) (key + 4) key, f.0))
      (load_cells-put_cells cut vs (put m key v) (key + 4) n (omega arith) f.1)

first_cell :
    (vs : List ℕ) (m : RegMap) (n : ℕ) → length vs ≡ suc n → (v : ℕ) × (put_cells m 0 vs 0 ≡ some v)
unfolding put_cells
first_cell [] m n e = absurd (omega arith)
first_cell (v ∷ vs) m n e = (v, ground (arith, put_cells_below vs (put m 0 v) 4 0))

has_cell_first : (m : RegMap) (n v : ℕ) → m 0 ≡ some v → has_cell m 0 (suc n) ≡ true
unfolding has_cell
has_cell_first m n v e = rw (e, has_cell)

module _ {k : Intc} (w : IsWellFormed k) where
  state_map-off : (off : ℕ) → is_ipr off ≡ false → is_imr off ≡ false → state_map k off ≡ k.regs off
  unfolding state_map is_ipr is_imr
  state_map-off off p q = ground (
    arith,
    w.ipr_cells,
    w.imr_cells,
    bit_and_three off,
    put_cells_below k.imr (put_cells k.regs 0 k.ipr) 0x80 off,
    put_cells_above k.imr (put_cells k.regs 0 k.ipr) 0x80 off,
    put_cells_off k.imr (put_cells k.regs 0 k.ipr) 0x80 off,
    put_cells_above k.ipr k.regs 0 off,
    put_cells_off k.ipr k.regs 0 off,
  )

  -- The registers other than the cells come back, and nothing shows at the cells' keys.
  rest_regs : (off : ℕ) → (if is_ipr off || is_imr off then none else state_map k off) ≡ k.regs off
  rest_regs off = ground (arith, w.no_ipr off, w.no_imr off, state_map-off off)

  load_ipr : load_cells u16 (state_map k) 0 12 ≡ k.ipr
  unfolding state_map
  load_ipr =
      load_cells_ext u16 12 (state_map k) (put_cells k.regs 0 k.ipr) 0
        (λ j p q. put_cells_below k.imr (put_cells k.regs 0 k.ipr) 0x80 j (omega arith))
      ∙ load_cells-put_cells u16 k.ipr k.regs 0 12 w.ipr_cells w.ipr_fit

  load_imr : load_cells u8 (state_map k) 0x80 13 ≡ k.imr
  unfolding state_map
  load_imr = load_cells-put_cells u8 k.imr (put_cells k.regs 0 k.ipr) 0x80 13 w.imr_cells w.imr_fit

  seen_ipr : has_cell (state_map k) 0 12 ≡ true
  unfolding state_map
  seen_ipr =
      let (v, at) = first_cell k.ipr k.regs 11 w.ipr_cells in
      has_cell_first (state_map k) 11 v
        (put_cells_below k.imr (put_cells k.regs 0 k.ipr) 0x80 0 (omega arith) ∙ at)

-- Restoring the saved state of a well-formed controller gives that controller back, and does not
-- fall back to the defaults for old snapshots.
pub restore_state-state_map : {k : Intc} → IsWellFormed k → restore_state (state_map k) ≡ k
unfolding restore_state
restore_state-state_map {k} w =
    rw (seen_ipr w)
      (λ i. record { ipr = load_ipr w i; imr = load_imr w i; regs = λ off. rest_regs w off i })

AllFit-set :
    (cut : ℕ → ℕ) (vs : List ℕ) (i v : ℕ) → AllFit cut vs → cut v ≡ v → AllFit cut (set vs i v)
AllFit-set cut [] i v f e = tt
AllFit-set cut (x ∷ xs) zero v f e = (e, f.1)
AllFit-set cut (x ∷ xs) (suc i) v f e = (f.0, AllFit-set cut xs i v f.1 e)

AllFit-get_or : (vs : List ℕ) (i : ℕ) → AllFit u8 vs → get_or vs i 0 < 256
AllFit-get_or [] i f = omega arith
AllFit-get_or (x ∷ xs) zero f = omega arith
AllFit-get_or (x ∷ xs) (suc i) f = AllFit-get_or xs i f.1

and_not-lt : (a b : ℕ) → a < 256 → and_not a b < 256
and_not-lt a b h = omega (arith, and_not-le a b)

mask-fit :
    (k : Intc) (i v : ℕ)
    → AllFit u8 k.imr
    → u8 (bit_or (get_or k.imr i 0) (u8 v)) ≡ bit_or (get_or k.imr i 0) (u8 v)
mask-fit k i v f =
    omega (arith, bit_or-lt 8 (get_or k.imr i 0) (u8 v) (AllFit-get_or k.imr i f) (omega arith))

unmask-fit :
    (k : Intc) (i v : ℕ)
    → AllFit u8 k.imr
    → u8 (and_not (get_or k.imr i 0) v) ≡ and_not (get_or k.imr i 0) v
unmask-fit k i v f = omega (arith, and_not-lt (get_or k.imr i 0) v (AllFit-get_or k.imr i f))

-- The three kinds of write that change a well-formed controller.
set_ipr-IsWellFormed :
    (k : Intc) (i v : ℕ) → IsWellFormed k → IsWellFormed (record k { ipr = set k.ipr i (u16 v) })
set_ipr-IsWellFormed k i v w = record {
  ipr_cells = length-set k.ipr i (u16 v) ∙ w.ipr_cells;
  imr_cells = w.imr_cells;
  ipr_fit = AllFit-set u16 k.ipr i (u16 v) w.ipr_fit (omega arith);
  imr_fit = w.imr_fit;
  no_ipr = w.no_ipr;
  no_imr = w.no_imr;
}

set_imr-IsWellFormed :
    (k : Intc) (i x : ℕ)
    → IsWellFormed k
    → u8 x ≡ x
    → IsWellFormed (record k { imr = set k.imr i x })
set_imr-IsWellFormed k i x w e = record {
  ipr_cells = w.ipr_cells;
  imr_cells = length-set k.imr i x ∙ w.imr_cells;
  ipr_fit = w.ipr_fit;
  imr_fit = AllFit-set u8 k.imr i x w.imr_fit e;
  no_ipr = w.no_ipr;
  no_imr = w.no_imr;
}

put-IsWellFormed :
    (k : Intc) (off v : ℕ)
    → IsWellFormed k
    → is_ipr off ≡ false
    → is_imr off ≡ false
    → IsWellFormed (record k { regs = put k.regs off v })
put-IsWellFormed k off v w p q = record {
  ipr_cells = w.ipr_cells;
  imr_cells = w.imr_cells;
  ipr_fit = w.ipr_fit;
  imr_fit = w.imr_fit;
  no_ipr = λ j h. ground (arith, w.no_ipr j h);
  no_imr = λ j h. ground (arith, w.no_imr j h);
}

-- Every register write keeps the controller well formed.
pub write-IsWellFormed : {k : Intc} (va v : ℕ) → IsWellFormed k → IsWellFormed (write k va v)
unfolding write
write-IsWellFormed {k} va v w = elim (Bool-cases (is_ipr off)) [
  | inl a ↦ rw a (set_ipr-IsWellFormed k (off / 4) v w)
  | inr a ↦ elim (Bool-cases (is_imr off)) [
    | inl b ↦ rw (a, b) (set_imr-IsWellFormed k ((off - 0x80) / 4) _ w (mask-fit k _ v w.imr_fit))
    | inr b ↦ elim (Bool-cases (leb 0xC0 off && ltb off 0xF4 && (bit_and off 3 == 0))) [
      | inl c ↦
          rw (a, b, c)
            (set_imr-IsWellFormed k ((off - 0xC0) / 4) _ w (unmask-fit k _ (u8 v) w.imr_fit))
      | inr c ↦ rw (a, b, c) (put-IsWellFormed k off v w a b)
    ]
  ]
]
  where
    off : ℕ
    off = sub32 va intc_base
