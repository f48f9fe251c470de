-- ===== src/Intc/Gate.antt =====
-- The two views of a source's state, `enabled` and `gate`, and what `raise` does with them.
use casio_cg.Base.{ℕ, ◌≡◌, ◌≢◌, ◌↔◌, true, false, arith, ◌⊎◌}
use casio_cg.Intc.{Intc, enabled, gate}

-- A source is let through exactly when it is unknown to the controller, or its priority field is
-- not 0 and its mask bit is clear; and both functions report the same priority.
enabled-iff-gate :
    (k : Intc) (intevt : ℕ)
    → let g = gate k intevt in
      (((enabled k intevt).0 ≡ true) ↔ ((g.known ≡ false) ⊎ ((g.prio ≢ 0) × (g.masked ≡ false))))
      × ((enabled k intevt).1 ≡ g.prio)
unfolding enabled gate
enabled-iff-gate k intevt = ground arith
