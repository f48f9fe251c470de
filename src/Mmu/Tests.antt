-- ===== src/Mmu/Tests.antt =====
-- Small MMU states for the properties of emu_go/mmu.go.
use casio_cg.Base.{
  zero, suc, ◌≡◌, refl, sym, true, false, none, [], ◌∷◌, arith, replicate, no_regs, put, true≢false,
}
use casio_cg.Mmu.{
  ccn_pteh, ccn_mmucr, pr, page_mask, no_entry, ldtlb, single_mode, matches, find_from, find,
  access, translate, TlbEntry, Ccn, physical,
}
use casio_cg.Mmu.Lookup.{IsSingle, translate-last}
use casio_cg.Mmu.Saved.RoundTrip.{restore-state_map, AllEntries-replicate, ldtlb-IsSavable}
use casio_cg.Mmu.Saved.{state_map, is_utlb_key, restore_state, IsSavable}
use casio_cg.Mmu.Arrays.{read, write, read-write}

-- The code page of an add-in: 4 KB at 0x00300000, valid and shared.
abbrev code_page : TlbEntry
code_page = record { vpn = 0x00300000; asid = 0; word = 0x0C161172; ptea = 0 }

abbrev fresh : Ccn
fresh = record { regs = no_regs; utlb = replicate 64 no_entry; translating = true; last = 0 }

abbrev two : Ccn
two = record { regs = no_regs; utlb = no_entry ∷ code_page ∷ []; translating = true; last = 0 }

-- A hit of the second entry, and a miss.
runs_translate : (translate two 0x00300124 false true).0 ≡ physical 0x0C161124
unfolding translate find access find_from matches single_mode pr page_mask
runs_translate = refl

runs_miss : find fresh 0x00300124 true ≡ none
unfolding find find_from matches single_mode page_mask
runs_miss = refl

two-IsSingle : IsSingle two 0x00300124 true
unfolding matches single_mode page_mask
two-IsSingle zero j hi hj a b = absurd (true≢false (sym a))
two-IsSingle (suc zero) zero hi hj a b = absurd (true≢false (sym b))
two-IsSingle (suc zero) (suc zero) hi hj a b = refl
two-IsSingle (suc zero) (suc (suc j)) hi hj a b = absurd (omega arith)
two-IsSingle (suc (suc i)) j hi hj a b = absurd (omega arith)

translate-last_example :
    (translate (record two { last = 1 }) 0x00300124 false true).0
    ≡ (translate two 0x00300124 false true).0
translate-last_example =
    translate-last two 1 0x00300124 false true (omega arith) (omega arith) two-IsSingle

read-write_utlb_example :
    (read (write fresh 0xF6000300 0x08100342) 0xF6000300 ≡ 0x08100342)
    × (read (write fresh 0xF6000300 0x08100342) 0xF7000400 ≡ read fresh 0xF7000400)
read-write_utlb_example =
    read-write fresh 0xF6000300 0xF7000400 0x08100342 (omega arith) refl refl (omega arith)
      (λ e. absurd (omega (arith, e)))

-- The MMU with AT set, and an entry loaded into it.
abbrev blank : Ccn
blank = record {
  regs = put (put no_regs ccn_mmucr 0x0C01) ccn_pteh 0x00300007;
  utlb = replicate 64 no_entry;
  translating = true;
  last = 5;
}

blank-IsSavable : IsSavable blank
unfolding is_utlb_key
blank-IsSavable = record {
  full = refl;
  entries =
      AllEntries-replicate 64 no_entry
        (record { fits = omega arith; whole = refl; space = omega arith });
  no_entry_key = λ k h. ground (arith, h);
  in_step = refl;
}

restore-state_map_example :
    restore_state (state_map (ldtlb blank)) ≡ record (ldtlb blank) { last = 0 }
restore-state_map_example = restore-state_map (ldtlb-IsSavable blank-IsSavable (omega arith))
