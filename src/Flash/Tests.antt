-- ===== src/Flash/Tests.antt =====
-- Small flashes for the properties of the NOR flash of emu_go/memory.go.
use casio_cg.Base.{
  ℕ, ◌%◌, ◌≡◌, refl, inl, none, some, List, [], ◌∷◌, arith, ltb, ◌==◌, if◌then◌else◌,
}
use casio_cg.Bytes.{Buffer}
use casio_cg.Flash.{flash_mut_top, flash_program, flash_cmd, Fword, Flash, idle, program}
use casio_cg.Flash.Nor.{flash_cmd-NorStep, NorStep}
use casio_cg.Flash.Status.{poll, poll_lem}
use casio_cg.Flash.Delta.{fls_baseline, flash_delta_bytes, apply_flash_delta, Applied}
use casio_cg.Flash.Delta.Saved.{apply-flash_delta}

abbrev erased : ℕ → ℕ
erased j = 0xFF

abbrev blank : Flash
blank = record {
  array = erased;
  fcmd = idle;
  buf_rem = none;
  buf_w = [];
  erase_busy = 0;
  erase_sect = 0;
  erase_tog = 0;
}

abbrev after_erase : Flash
after_erase = record blank { erase_busy = 4; erase_sect = 0x00C80000 }

abbrev write : ℕ → ℕ → Fword
write a v = record { addr = a; size = 2; val = v }

-- Two words at 0x00C80000.
abbrev words : List Fword
words = write 0x00C80000 0x1234 ∷ write 0x00C80002 0x5678 ∷ []

runs_program : flash_program 0x00C80000 2 0x1234 erased 0x00C80001 ≡ 0x34
unfolding flash_program
runs_program = refl

flash_cmd-NorStep_example :
    NorStep after_erase.array
      (flash_cmd (record after_erase { fcmd = program }) 0x00C80000 2 0x1234).array
flash_cmd-NorStep_example =
    flash_cmd-NorStep (record after_erase { fcmd = program }) 0x00C80000 2 0x1234

poll_lem_example :
    (poll 4 after_erase 0x00C80010 ≡ none) × (poll 5 after_erase 0x00C80010 ≡ some 0xFF)
poll_lem_example =
    poll_lem 4 after_erase 0x00C80010 refl (inl refl) refl (omega arith) (omega arith) (omega arith)

abbrev rom : Buffer
rom = record { size = 0x00C80000; at = λ (j : ℕ). j % 251 }

abbrev saved : ℕ → ℕ
saved j = if j == 0x00C80000 then 0x12 else fls_baseline rom j

apply-flash_delta_example :
    (r : Applied) × (apply_flash_delta (flash_delta_bytes rom saved) (fls_baseline rom) ≡ some r)
    × (r.error ≡ none)
    × ((j : ℕ) → r.array j ≡ (if ltb j flash_mut_top then saved j else fls_baseline rom j))
apply-flash_delta_example = apply-flash_delta rom saved
