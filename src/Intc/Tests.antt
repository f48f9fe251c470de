-- ===== src/Intc/Tests.antt =====
-- The interrupt controller at concrete registers and requests.
use casio_cg.Base.{◌≡◌, refl, List, [], ◌∷◌, replicate, no_regs}
use casio_cg.Intc.{write, state_map, restore_state, gate_pending, Intc, Pend}
use casio_cg.Intc.State.{restore_state-state_map, write-IsWellFormed, IsWellFormed}
use casio_cg.Intc.Pending.{kept, IsPresented, gate_pending_lem}

abbrev fresh : Intc
fresh = record { ipr = replicate 12 0; imr = replicate 13 0; regs = no_regs }

fresh-IsWellFormed : IsWellFormed fresh
fresh-IsWellFormed = record {
  ipr_cells = refl;
  imr_cells = refl;
  ipr_fit = (
    refl,
    (refl, (refl, (refl, (refl, (refl, (refl, (refl, (refl, (refl, (refl, (refl, tt))))))))))),
  );
  imr_fit = (
    refl,
    (
      refl,
      (refl, (refl, (refl, (refl, (refl, (refl, (refl, (refl, (refl, (refl, (refl, tt))))))))))),
    ),
  );
  no_ipr = λ off h. refl;
  no_imr = λ off h. refl;
}

restore_state-state_map_example :
    restore_state (state_map (write fresh 0xA4080014 0xD000)) ≡ write fresh 0xA4080014 0xD000
restore_state-state_map_example =
    restore_state-state_map (write-IsWellFormed 0xA4080014 0xD000 fresh-IsWellFormed)

abbrev two : List Pend
two = record { level = 9; intevt = 0x123 } ∷ record { level = 9; intevt = 0x124 } ∷ []

gate_pending_lem_example :
    ((gate_pending fresh two).0 ≡ kept fresh two)
    × IsPresented fresh (kept fresh two) (gate_pending fresh two).1
gate_pending_lem_example = gate_pending_lem fresh two
