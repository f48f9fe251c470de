-- ===== src/Flash/Status.antt =====
-- Reads while a sector is erased: the status, its toggling bits, and that polling it ends.
use casio_cg.Base.{
  ℕ, zero, suc, ◌-◌, ◌*◌, ◌^◌, ◌≤◌, ◌<◌, bit_and, bit_or, bit_xor, ◌≡◌, refl, ap, ◌∙◌, ◌⊎◌, inl,
  inr, true, false, ◌&&◌, Option, none, some, arith, ltb, ◌==◌, if◌then◌else◌, test_bit, u32, ◌>>>◌,
  ◌<<<◌, bit_or_fields, test_bit_lem, and_bit,
}
use casio_cg.Bytes.{be_read}
use casio_cg.Flash.{flash_mut_top, sector_of, flash_status, flash_read, Flash}

-- The toggling bits DQ6 and DQ2 are both clear or both set.
abbrev pub IsToggled : ℕ → Type 0
IsToggled tog = (tog ≡ 0) ⊎ (tog ≡ 0x44)

-- Polling DQ7 at a byte, for so many reads: what the first read with DQ7 set answers.
abbrev answer : Option ℕ → Option ℕ → Option ℕ
answer none rest = none
answer (some v) rest = if bit_and v 0x80 == 0 then rest else some v

abbrev pub poll : ℕ → Flash → ℕ → Option ℕ
poll zero f phys = none
poll (suc n) f phys =
    let rest = poll n (flash_read f phys 1).1 phys in answer (flash_read f phys 1).0 rest

is_busy :
    (f : Flash) (phys : ℕ)
    → 0 < f.erase_busy
    → sector_of phys ≡ f.erase_sect
    → (ltb 0 f.erase_busy && (sector_of phys == f.erase_sect)) ≡ true
is_busy f phys h s = ground arith

top_set : (v : ℕ) → v < 0x100 → 0x80 ≤ v → (bit_and v 0x80 == 0) ≡ false
top_set v h k =
    let e : bit_and v 0x80 ≡ test_bit v 7 * 2 ^ 7 = and_bit 7 v in
    let t = test_bit_lem 7 v in let one : bit_and v 0x80 ≡ 0x80 = omega (arith, e, t) in rw one refl

value_low :
    (tog : ℕ) (rest : Option ℕ)
    → IsToggled tog
    → answer (some (u32 (bit_or 0x08 (bit_xor tog 0x44) * (0x01010101 >>> ((4 - 1) * 8))))) rest
      ≡ rest
value_low tog rest (inl e) = rw e refl
value_low tog rest (inr e) = rw e refl

flips : (tog : ℕ) → IsToggled tog → IsToggled (bit_xor tog 0x44)
flips tog (inl e) = inr (rw e refl)
flips tog (inr e) = inl (rw e refl)

module _ (f : Flash) (phys : ℕ) (toggled : IsToggled f.erase_tog)
    (at : sector_of phys ≡ f.erase_sect) where
  waiting : 0 < f.erase_busy → (rest : Option ℕ) → answer (flash_read f phys 1).0 rest ≡ rest
  unfolding flash_read flash_status
  waiting h rest = rw (is_busy f phys h at) (value_low f.erase_tog rest toggled)

  waited :
      0 < f.erase_busy
      → (flash_read f phys 1).1
        ≡ record f { erase_busy = f.erase_busy - 1; erase_tog = bit_xor f.erase_tog 0x44 }
  unfolding flash_read flash_status
  waited h = rw (is_busy f phys h at) refl

  over :
      f.erase_busy ≡ 0
      → phys < flash_mut_top
      → f.array phys < 0x100
      → 0x80 ≤ f.array phys
      → (rest : Option ℕ) → answer (flash_read f phys 1).0 rest ≡ some (f.array phys)
  unfolding flash_read be_read
  over h inside byte ready rest =
      let idle_now : ltb 0 f.erase_busy ≡ false = ground arith in
      let in_range : ltb phys flash_mut_top ≡ true = ground arith in
      let whole : bit_or (u32 (0 <<< 8)) (f.array phys) ≡ f.array phys =
        omega (arith, bit_or_fields 8 0 (f.array phys) byte) in
      let set : (bit_and (f.array phys) 0x80 == 0) ≡ false = top_set (f.array phys) byte ready in
      rw (idle_now, in_range, whole, set) refl

-- The polling of an erase ends. Where the flash still has n status reads to give in the sector of
-- an address, the first n reads there have DQ7 clear, and the next one answers the byte of the
-- array, if its top bit is set, as it is in an erased byte.
pub poll_lem :
    (n : ℕ) (f : Flash) (phys : ℕ)
    → f.erase_busy ≡ n
    → IsToggled f.erase_tog
    → sector_of phys ≡ f.erase_sect
    → phys < flash_mut_top
    → f.array phys < 0x100
    → 0x80 ≤ f.array phys
    → (poll n f phys ≡ none) × (poll (suc n) f phys ≡ some (f.array phys))
poll_lem zero f phys busy toggled at inside byte ready =
    (refl, over f phys toggled at busy inside byte ready none)
poll_lem (suc n) f phys busy toggled at inside byte ready =
    let g = record f { erase_busy = f.erase_busy - 1; erase_tog = bit_xor f.erase_tog 0x44 } in
    let some_left : 0 < f.erase_busy = omega arith in
    let next = poll_lem n g phys (omega arith) (flips f.erase_tog toggled) at inside byte ready in
    let after = waited f phys toggled at some_left in
    let early : poll (suc n) f phys ≡ none =
      waiting f phys toggled at some_left _ ∙ ap (λ h. poll n h phys) after ∙ next.0 in
    let ended : poll (suc (suc n)) f phys ≡ some (f.array phys) =
      waiting f phys toggled at some_left _ ∙ ap (λ h. poll (suc n) h phys) after ∙ next.1 in
    (early, ended)
