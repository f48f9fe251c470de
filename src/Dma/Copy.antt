-- ===== src/Dma/Copy.antt =====
-- A transfer between places of the DRAM, both ascending, copies the bytes.
use native.Mathlib.Nat.{div-add-mod'}
use casio_cg.Base.{
  ℕ, zero, suc, ◌+◌, ◌-◌, ◌*◌, ◌/◌, ◌%◌, ◌^◌, ◌≤◌, ◌<◌, bit_and, ◌≡◌, refl, sym, ap, ◌∙◌, ◌⊎◌, inl,
  inr, true, false, some, arith, ltb, ◌==◌, if◌then◌else◌, Bool-cases, u8, u32, ◌>>>◌,
}
use casio_cg.Flash.Delta.{slice}
use casio_cg.Memory.{dram_base, dram_size, Memory, Mmio}
use casio_cg.Dma.{capped, moved, read_unit, write_unit, transfer_units, mem_transfer}
use casio_cg.Dma.Byte.{dram_top, stored, read_byte, write_byte}

-- n bytes of f from s on, put into a at o, and n units of a moved from s to d one after the other.
pasted : (ℕ → ℕ) → ℕ → (ℕ → ℕ) → ℕ → ℕ → ℕ → ℕ
pasted a o f s zero = a
pasted a o f s (suc n) = pasted (λ (j : ℕ). if j == o then f s else a j) (o + 1) f (s + 1) n

copied : (ℕ → ℕ) → ℕ → ℕ → ℕ → ℕ → ℕ → ℕ
unfolding pasted
copied a s d unit zero = a
copied a s d unit (suc n) = copied (pasted a d a s unit) (s + unit) (d + unit) unit n

pasted-miss :
    (a : ℕ → ℕ) (o : ℕ) (f : ℕ → ℕ) (s n j : ℕ) → (j < o) ⊎ (o + n ≤ j) → pasted a o f s n j ≡ a j
unfolding pasted
pasted-miss a o f s zero j h = refl
pasted-miss a o f s (suc n) j h =
    pasted-miss (λ (i : ℕ). if i == o then f s else a i) (o + 1) f (s + 1) n j (ground arith)
    ∙ ground arith

pasted-hit :
    (a : ℕ → ℕ) (o : ℕ) (f : ℕ → ℕ) (s n k : ℕ) → k < n → pasted a o f s n (o + k) ≡ f (s + k)
unfolding pasted
pasted-hit a o f s zero k h = absurd (omega arith)
pasted-hit a o f s (suc n) zero h =
    let self : (o + 0 == o) ≡ true = ground arith in
    pasted-miss (λ (i : ℕ). if i == o then f s else a i) (o + 1) f (s + 1) n (o + 0)
      (inl (omega arith))
    ∙ rw self (ap f (omega arith))
pasted-hit a o f s (suc n) (suc k) h =
    let a' = λ (i : ℕ). if i == o then f s else a i in
    ap (pasted a' (o + 1) f (s + 1) n) {x = o + suc k} {y = o + 1 + k} (omega arith)
    ∙ pasted-hit a' (o + 1) f (s + 1) n k (omega arith)
    ∙ ap f (omega arith)

pasted-lt :
    (a : ℕ → ℕ) (o : ℕ) (f : ℕ → ℕ) (s n : ℕ)
    → ((i : ℕ) → a i < 256)
    → ((i : ℕ) → f i < 256)
    → (i : ℕ) → pasted a o f s n i < 256
unfolding pasted
pasted-lt a o f s zero h k i = h i
pasted-lt a o f s (suc n) h k i =
    pasted-lt (λ (j : ℕ). if j == o then f s else a j) (o + 1) f (s + 1) n
      (λ j. ground (arith, h j, k s)) k i

copied-miss :
    (a : ℕ → ℕ) (s d unit n j : ℕ) → (j < d) ⊎ (d + n * unit ≤ j) → copied a s d unit n j ≡ a j
unfolding copied
copied-miss a s d unit zero j h = refl
copied-miss a s d unit (suc n) j h =
    copied-miss (pasted a d a s unit) (s + unit) (d + unit) unit n j (rest h)
    ∙ pasted-miss a d a s unit j (first h)
  where
    rest : (j < d) ⊎ (d + suc n * unit ≤ j) → (j < d + unit) ⊎ (d + unit + n * unit ≤ j)
    rest (inl b) = inl (omega arith)
    rest (inr b) = inr (grind arith)

    first : (j < d) ⊎ (d + suc n * unit ≤ j) → (j < d) ⊎ (d + unit ≤ j)
    first (inl b) = inl b
    first (inr b) = inr (grind arith)

-- Where the two ranges do not meet, the bytes of the source come out.
copied-hit :
    (a : ℕ → ℕ) (s d unit n k : ℕ)
    → (s + n * unit ≤ d) ⊎ (d + n * unit ≤ s)
    → k < n * unit
    → copied a s d unit n (d + k) ≡ a (s + k)
unfolding copied
copied-hit a s d unit zero k apart h = absurd (omega arith)
copied-hit a s d unit (suc n) k apart h = elim (Bool-cases (ltb k unit)) [
  | inl now ↦
      copied-miss (pasted a d a s unit) (s + unit) (d + unit) unit n (d + k) (inl (ground arith))
      ∙ pasted-hit a d a s unit k (ground arith)
  | inr later ↦
      let k' = k - unit in
      let past : unit ≤ k = ground arith in
      let a' = pasted a d a s unit in
      ap (copied a' (s + unit) (d + unit) unit n) {x = d + k} {y = d + unit + k'} (omega arith)
      ∙ copied-hit a' (s + unit) (d + unit) unit n k' (still apart) (grind (arith, past))
      ∙ ap a' {x = s + unit + k'} {y = s + k} (omega arith)
      ∙ pasted-miss a d a s unit (s + k) (clear apart past)
]
  where
    still :
        (s + suc n * unit ≤ d) ⊎ (d + suc n * unit ≤ s)
        → (s + unit + n * unit ≤ d + unit) ⊎ (d + unit + n * unit ≤ s + unit)
    still (inl b) = inl (grind arith)
    still (inr b) = inr (grind arith)

    clear :
        (s + suc n * unit ≤ d) ⊎ (d + suc n * unit ≤ s)
        → unit ≤ k
        → (s + k < d) ⊎ (d + unit ≤ s + k)
    clear (inl b) past = inl (grind arith)
    clear (inr b) past = inr (grind arith)

-- The memory with other bytes in its DRAM.
abbrev pub with_dram : {D : Type 0} → Memory D → (ℕ → ℕ) → Memory D
with_dram m a = record m { dram = record { size = m.dram.size; at = a } }

module _ {D : Type 0} (bus : Mmio D) where
  read_unit_dram :
      (m : Memory D) (s j n : ℕ)
      → m.dram.size ≡ dram_size
      → ((i : ℕ) → m.dram.at i < 256)
      → dram_base ≤ s + j
      → s + j + n ≤ dram_top
      → read_unit bus m s j n ≡ some (slice m.dram.at (s + j - dram_base) n, m)
  unfolding read_unit slice
  read_unit_dram m s j zero full bytes lo hi = refl
  read_unit_dram m s j (suc n) full bytes lo hi =
      let here : u32 (s + j) ≡ s + j = omega arith in
      let byte = read_byte bus m full (s + j) lo (omega arith) in
      let rest = read_unit_dram m s (j + 1) n full bytes (omega arith) (omega arith) in
      let next : s + (j + 1) - dram_base ≡ s + j - dram_base + 1 = omega arith in
      let whole : u8 (m.dram.at (s + j - dram_base)) ≡ m.dram.at (s + j - dram_base) =
        omega (arith, bytes (s + j - dram_base)) in
      rw (here, byte, rest, next, whole) refl

  write_unit_dram :
      (m : Memory D) (d j n o : ℕ) (f : ℕ → ℕ) (s : ℕ)
      → m.dram.size ≡ dram_size
      → ((i : ℕ) → f i < 256)
      → dram_base ≤ d + j
      → d + j + n ≤ dram_top
      → o ≡ d + j - dram_base
      → write_unit bus m d j (slice f s n) ≡ some (with_dram m (pasted m.dram.at o f s n))
  unfolding write_unit slice pasted
  write_unit_dram m d j zero o f s full bytes lo hi at = refl
  write_unit_dram m d j (suc n) o f s full bytes lo hi at =
      let here : u32 (d + j) ≡ d + j = omega arith in
      let m' = record m { dram = stored m.dram (d + j - dram_base) (f s) } in
      let byte = write_byte bus m full (d + j) lo (omega arith) (f s) (bytes s) in
      let rest =
        write_unit_dram m' d (j + 1) n (o + 1) f (s + 1) full bytes (omega arith) (omega arith)
          (omega arith) in
      rw (here, byte)
        (rest
          ∙ ap
              (λ x. some (
                with_dram m
                  (pasted (λ (i : ℕ). if i == x then f s else m.dram.at i) (o + 1) f (s + 1) n)))
              (sym at))

  units_dram :
      (m : Memory D) (s d unit n s' d' : ℕ)
      → m.dram.size ≡ dram_size
      → ((i : ℕ) → m.dram.at i < 256)
      → dram_base ≤ s
      → s + n * unit ≤ dram_top
      → dram_base ≤ d
      → d + n * unit ≤ dram_top
      → s' ≡ s - dram_base
      → d' ≡ d - dram_base
      → transfer_units bus m s d unit 1 1 n ≡ some (with_dram m (copied m.dram.at s' d' unit n))
  unfolding transfer_units copied moved
  units_dram m s d unit zero s' d' full bytes slo shi dlo dhi es ed = refl
  units_dram m s d unit (suc n) s' d' full bytes slo shi dlo dhi es ed =
      let shi' : s + unit + n * unit ≤ dram_top = grind arith in
      let dhi' : d + unit + n * unit ≤ dram_top = grind arith in
      let got : read_unit bus m s 0 unit ≡ some (slice m.dram.at s' unit, m) =
        read_unit_dram m s 0 unit full bytes (omega arith) (omega arith)
        ∙ ap (λ x. some (slice m.dram.at x unit, m)) {x = s + 0 - dram_base} {y = s'}
            (omega arith) in
      let a' = pasted m.dram.at d' m.dram.at s' unit in
      let put_there : write_unit bus m d 0 (slice m.dram.at s' unit) ≡ some (with_dram m a') =
        write_unit_dram m d 0 unit d' m.dram.at s' full bytes (omega arith) (omega arith)
          (omega arith) in
      let e : u32 (s + unit) ≡ s + unit = omega arith in
      let e' : u32 (d + unit) ≡ d + unit = omega arith in
      let rest =
        units_dram (with_dram m a') (s + unit) (d + unit) unit n (s' + unit) (d' + unit) full
          (pasted-lt m.dram.at d' m.dram.at s' unit bytes bytes) (omega arith) shi' (omega arith)
          dhi' (omega arith) (omega arith) in
      rw (got, put_there, e, e') rest

capped_fits : (count unit : ℕ) → count * unit ≤ 2 ^ 22 → capped count unit ≡ count
unfolding capped
capped_fits count unit h =
    let e : u32 (count * unit) ≡ count * unit = omega (arith, h) in
    let test : ltb (2 ^ 22) (count * unit) ≡ false = ground (arith, h) in rw (e, test) refl

-- A memory transfer of at most 4 MB with both addresses ascending, between ranges of the DRAM that do
-- not meet, copies every byte of the source, and no other byte of the memory changes.
pub mem_transfer-copy :
    {D : Type 0} (bus : Mmio D) (m : Memory D) (s d count unit chcr k j : ℕ)
    → m.dram.size ≡ dram_size
    → ((i : ℕ) → m.dram.at i < 256)
    → bit_and (chcr >>> 12) 3 ≡ 1
    → bit_and (chcr >>> 14) 3 ≡ 1
    → count * unit ≤ 2 ^ 22
    → dram_base ≤ s
    → s + count * unit ≤ dram_top
    → dram_base ≤ d
    → d + count * unit ≤ dram_top
    → (s + count * unit ≤ d) ⊎ (d + count * unit ≤ s)
    → k < count * unit
    → (j < d - dram_base) ⊎ (d - dram_base + count * unit ≤ j)
    → (a : ℕ → ℕ) × (mem_transfer bus m s d count unit chcr ≡ some (with_dram m a))
      × (a (d - dram_base + k) ≡ m.dram.at (s - dram_base + k))
      × (a j ≡ m.dram.at j)
unfolding mem_transfer
mem_transfer-copy bus m s d count unit chcr k j full bytes sm dm small slo shi dlo dhi apart hk
      out =
    let s' = s - dram_base in
    let d' = d - dram_base in
    let ran = units_dram bus m s d unit count s' d' full bytes slo shi dlo dhi refl refl in
    (
      copied m.dram.at s' d' unit count,
      rw (sm, dm, capped_fits count unit small) ran,
      copied-hit m.dram.at s' d' unit count k (ground (arith, apart)) hk,
      copied-miss m.dram.at s' d' unit count j out,
    )

-- The cap of 4 MB holds where the number of bytes fits a word of 32 bits.
capped-bound :
    (count unit : ℕ) → 0 < unit → count * unit < 2 ^ 32 → capped count unit * unit ≤ 2 ^ 22
unfolding capped
capped-bound count unit h fits =
    let e : u32 (count * unit) ≡ count * unit = omega (arith, fits) in
    let most : 2 ^ 22 / unit * unit ≤ 2 ^ 22 = omega (arith, div-add-mod' (2 ^ 22) unit) in
    elim (Bool-cases (ltb (2 ^ 22) (count * unit))) [
      | inl over ↦ rw (e, over) most
      | inr under ↦ rw (e, under) (ground arith)
    ]

-- Where the number of bytes wraps to at most 4 MB, the cap does not hold: all units are moved.
capped-wrap : (count unit : ℕ) → (count * unit) % 2 ^ 32 ≤ 2 ^ 22 → capped count unit ≡ count
unfolding capped
capped-wrap count unit h =
    let test : ltb (2 ^ 22) (u32 (count * unit)) ≡ false = ground (arith, h) in rw test refl
