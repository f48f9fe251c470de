-- ===== src/Flash/Nor.antt =====
-- What NOR flash allows: a command clears bits, or sets all bits of a sector or of the chip.
use casio_cg.Base.{
  ℕ, zero, suc, ◌+◌, ◌*◌, ◌/◌, ◌^◌, ◌≤◌, bit_and, ◌≡◌, ap, inl, inr, Bool, true, false, ◌&&◌,
  Option, none, some, List, [], ◌∷◌, arith, ltb, leb, ◌==◌, if◌then◌else◌, ltb→lt, Bool-cases,
  test_bit, test_bit-and, test_bit_ext, u32, and_not_mask,
}
use casio_cg.Flash.{
  flash_mut_top, flash_sector, byte_at, program_bytes, flash_program, program_all, sector_of,
  erase_sector, erase_chip, is_at, erase_cmd, buffer_cmd, step, flash_cmd, Fcmd, Fword, Flash, idle,
  unlock1, unlock2, program, erase1, erase2, erase3, buf_count, buf_data,
}

-- Programming takes every byte to one whose bits it has already.
pub Programs : (ℕ → ℕ) → (ℕ → ℕ) → Type 0
Programs a b = (j : ℕ) → bit_and (a j) (b j) ≡ b j

pub Erases : ℕ → ℕ → (ℕ → ℕ) → (ℕ → ℕ) → Type 0
Erases from to a b = (j : ℕ) → b j ≡ (if leb from j && ltb j to then 0xFF else a j)

-- A step of the device, whatever the commands behind it.
pub data NorStep : (ℕ → ℕ) → (ℕ → ℕ) → Type 0 where
  programs : {a b : ℕ → ℕ} → Programs a b → NorStep a b
  erases_sector :
      {a b : ℕ → ℕ}
      → (q : ℕ) → Erases (q * flash_sector) (q * flash_sector + flash_sector) a b
      → NorStep a b
  erases_chip : {a b : ℕ → ℕ} → Erases 0 flash_mut_top a b → NorStep a b

clears : (x m : ℕ) → bit_and x (bit_and x m) ≡ bit_and x m
clears x m = test_bit_ext _ _ λ i. omega (arith, test_bit-and x (bit_and x m) i, test_bit-and x m i)

bit_and_self : (x : ℕ) → bit_and x x ≡ x
bit_and_self x = test_bit_ext _ _ λ i. omega (arith, test_bit-and x x i)

Programs-refl : (a : ℕ → ℕ) → Programs a a
unfolding Programs
Programs-refl a j = bit_and_self (a j)

Programs-trans : (a b c : ℕ → ℕ) → Programs a b → Programs b c → Programs a c
unfolding Programs
Programs-trans a b c p q j = test_bit_ext _ _ λ i. omega (
  arith,
  test_bit-and (a j) (c j) i,
  test_bit-and (a j) (b j) i,
  test_bit-and (b j) (c j) i,
  ap (λ x. test_bit x i) (p j),
  ap (λ x. test_bit x i) (q j),
)

one_byte : (a : ℕ → ℕ) (here m : ℕ) → Programs a (λ j. if j == here then bit_and (a j) m else a j)
unfolding Programs
one_byte a here m j = elim (Bool-cases (j == here)) [
  | inl same ↦ rw same (clears (a j) m)
  | inr other ↦ rw other (bit_and_self (a j))
]

bytes_program : (phys size val i n : ℕ) (a : ℕ → ℕ) → Programs a (program_bytes phys size val i n a)
bytes_program phys size val i zero a = Programs-refl a
bytes_program phys size val i (suc n) a =
    let here = u32 (phys + i) in
    let m = byte_at size val i in
    let b = λ (j : ℕ). if j == here then bit_and (a j) m else a j in
    Programs-trans a b (program_bytes phys size val (i + 1) n b) (one_byte a here m)
      (bytes_program phys size val (i + 1) n b)

flash_program-Programs :
    (phys size val : ℕ) (a : ℕ → ℕ) → Programs a (flash_program phys size val a)
unfolding flash_program
flash_program-Programs phys size val a = elim (Bool-cases (ltb flash_mut_top (u32 (phys + size)))) [
  | inl outside ↦ rw outside (Programs-refl a)
  | inr inside ↦ rw inside (bytes_program phys size val 0 size a)
]

program_all-Programs : (ws : List Fword) (a : ℕ → ℕ) → Programs a (program_all ws a)
program_all-Programs [] a = Programs-refl a
program_all-Programs (w ∷ ws) a =
    let b = flash_program w.addr w.size w.val a in
    Programs-trans a b (program_all ws b) (flash_program-Programs w.addr w.size w.val a)
      (program_all-Programs ws b)

sector_lem : (phys : ℕ) → sector_of phys ≡ phys / 2 ^ 17 * flash_sector
sector_lem phys = and_not_mask 17 phys

sector_erase :
    (q : ℕ) (a : ℕ → ℕ)
    → q * flash_sector + flash_sector ≤ flash_mut_top
    → Erases
        (q * flash_sector)
        (q * flash_sector + flash_sector)
        a
        (erase_sector (q * flash_sector) a)
unfolding Erases
sector_erase q a h j = ground arith

chip_erase : (a : ℕ → ℕ) → Erases 0 flash_mut_top a (erase_chip a)
unfolding Erases
chip_erase a j = ground arith

nothing_erased :
    (q : ℕ) (a : ℕ → ℕ)
    → flash_mut_top ≤ q * flash_sector
    → Programs a (erase_sector (q * flash_sector) a)
unfolding Programs
nothing_erased q a h j =
    let same : erase_sector (q * flash_sector) a j ≡ a j = ground arith in
    rw same (bit_and_self (a j))

sector_step : (q : ℕ) (a : ℕ → ℕ) → NorStep a (erase_sector (q * flash_sector) a)
sector_step q a = elim (Bool-cases (ltb q 256)) [
  | inl inside ↦ erases_sector q (sector_erase q a (omega (arith, ltb→lt q 256 inside)))
  | inr outside ↦ programs (nothing_erased q a (ground arith))
]

erase_step : (f : Flash) (phys val : ℕ) → NorStep f.array (erase_cmd f phys val).array
unfolding erase_cmd
erase_step f phys val = elim (Bool-cases (bit_and val 0xFF == 0x10)) [
  | inl whole ↦ rw whole (erases_chip (chip_erase f.array))
  | inr part ↦ rw part (elim (Bool-cases (bit_and val 0xFF == 0x30)) [
    | inl sector ↦ rw (sector, sector_lem phys) (sector_step (phys / 2 ^ 17) f.array)
    | inr none_at_all ↦ rw none_at_all (programs (Programs-refl f.array))
  ])
]

buffer_step : (f : Flash) (r : Option ℕ) (w : Fword) → NorStep f.array (buffer_cmd f r w).array
buffer_step f none w = programs (program_all-Programs f.buf_w f.array)
buffer_step f (some zero) w = programs (program_all-Programs f.buf_w f.array)
buffer_step f (some (suc n)) w = programs (Programs-refl f.array)

either :
    {a : ℕ → ℕ} (b : Bool) (g h : Flash)
    → NorStep a g.array
    → NorStep a h.array
    → NorStep a (if b then g else h).array
either true g h p q = p
either false g h p q = q

by_state :
    (s : Fcmd) (f : Flash) (phys size val : ℕ) → NorStep f.array (step s f phys size val).array
by_state idle f phys size val =
    let kept = programs (Programs-refl f.array) in
    either (is_at phys val 0xAAA 0xAA) (record f { fcmd = unlock1 }) f kept kept
by_state unlock1 f phys size val = programs (Programs-refl f.array)
by_state unlock2 f phys size val =
    let kept = programs (Programs-refl f.array) in
    either (is_at phys val 0xAAA 0xA0) (record f { fcmd = program }) _ kept
      (either (is_at phys val 0xAAA 0x80) (record f { fcmd = erase1 }) _ kept
        (either (bit_and val 0xFF == 0x25) _ (record f { fcmd = idle }) kept kept))
by_state program f phys size val = programs (flash_program-Programs phys size val f.array)
by_state erase1 f phys size val = programs (Programs-refl f.array)
by_state erase2 f phys size val = programs (Programs-refl f.array)
by_state erase3 f phys size val = erase_step f phys val
by_state buf_count f phys size val = programs (Programs-refl f.array)
by_state buf_data f phys size val =
    buffer_step f f.buf_rem (record { addr = phys; size = size; val = val })

-- Every command to the flash is a step that NOR flash can take: bytes of the array lose bits, or
-- one whole sector or the whole array becomes 0xFF and nothing else changes.
pub flash_cmd-NorStep :
    (f : Flash) (phys size val : ℕ) → NorStep f.array (flash_cmd f phys size val).array
unfolding flash_cmd
flash_cmd-NorStep f phys size val = by_state f.fcmd f phys size val
