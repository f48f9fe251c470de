-- ===== src/Flash/Program.antt =====
-- `flashProgram` byte by byte.
use casio_cg.Base.{
  ℕ, zero, suc, ◌+◌, ◌-◌, ◌*◌, ◌/◌, ◌%◌, ◌^◌, ◌≤◌, ◌<◌, bit_and, ◌≡◌, refl, sym, ◌∙◌, ◌≢◌, inl, inr,
  true, false, ◌&&◌, arith, ltb, leb, ◌==◌, if◌then◌else◌, ==_iff, Bool-cases, u32, true≢false,
}
use casio_cg.Flash.{flash_mut_top, byte_at, program_bytes, flash_program}

abbrev anded : ℕ → ℕ → ℕ → (ℕ → ℕ) → ℕ → ℕ
anded phys size val array j = bit_and (array j) (byte_at size val (j - phys))

bytes_lem :
    (phys size val i n : ℕ) (array : ℕ → ℕ) (j : ℕ)
    → phys + i + n < 2 ^ 32
    → program_bytes phys size val i n array j
      ≡ (if leb (phys + i) j && ltb j (phys + i + n) then anded phys size val array j else array j)
bytes_lem phys size val i zero array j h = ground arith
bytes_lem phys size val i (suc n) array j h =
    let here = u32 (phys + i) in
    let next = λ (k : ℕ). if k == here then bit_and (array k) (byte_at size val i) else array k in
    let rest = bytes_lem phys size val (i + 1) n next j (omega arith) in
    let at : here ≡ phys + i = omega arith in
    elim (Bool-cases (j == here)) [
      | inl same ↦
          let e : j ≡ phys + i = (==_iff j here).0 same ∙ at in
          let k : j - phys ≡ i = omega arith in
          let out : (leb (phys + (i + 1)) j && ltb j (phys + (i + 1) + n)) ≡ false = ground arith in
          let inside : (leb (phys + i) j && ltb j (phys + i + suc n)) ≡ true = ground arith in
          rest ∙ rw (out, inside, same, k) refl
      | inr other ↦
          let e : j ≢ phys + i = λ q. true≢false (sym ((==_iff j here).1 (q ∙ sym at)) ∙ other) in
          let tests : (leb (phys + (i + 1)) j && ltb j (phys + (i + 1) + n))
              ≡ (leb (phys + i) j && ltb j (phys + i + suc n)) =
            ground arith in
          rest ∙ rw (other, tests) refl
    ]

-- Programming a word inside the array ANDs each of its bytes with the byte of the word, the
-- highest first, and leaves every other byte.
flash_program_lem :
    (phys size val : ℕ) (array : ℕ → ℕ) (j : ℕ)
    → phys + size ≤ flash_mut_top
    → flash_program phys size val array j ≡ (
        if leb phys j && ltb j (phys + size)
        then bit_and (array j) (val / 2 ^ (8 * (size - 1 - (j - phys))) % 2 ^ 8)
        else array j)
unfolding flash_program
flash_program_lem phys size val array j h =
    let fits : ltb flash_mut_top (u32 (phys + size)) ≡ false = ground arith in
    let start : phys + 0 ≡ phys = omega arith in
    rw fits (bytes_lem phys size val 0 size array j (omega arith) ∙ rw start refl)
