-- ===== src/Keysc/Tests.antt =====
-- Key presses and taps on a unit as the OS sets it up, emu_go/keysc.go.
use casio_cg.Base.{min, ◌≡◌, refl, true, false, [], ◌∷◌, arith, test_bit-zero}
use casio_cg.Intc.{new_intc}
use casio_cg.Keysc.{
  new_keysc, any_held, key_data, any_enabled, press, release_all, drive, Keysc, KeyTapper,
}
use casio_cg.Keysc.Matrix.{key_down}
use casio_cg.Keysc.Scan.{scan_tick, reports, release_all-reports, IsNormal}
use casio_cg.Keysc.Tap.{tap_lem}

abbrev ready : Keysc
ready = record new_keysc { ctrl = 0x8000; mode = 0x200; ie = 0x48 }

-- DOWN, at row 2 and column 7.
abbrev with_down : Keysc
with_down = record ready { held = 0 ∷ 0 ∷ 0 ∷ 0x400 ∷ 0 ∷ 0 ∷ [] }

abbrev one_tap : KeyTapper
one_tap = record {
  queue = (2, 7) ∷ (1, 8) ∷ [];
  active = false;
  key = (0, 0);
  release_at = 0;
  next_at = 0;
}

runs_press : press ready 2 7 ≡ record with_down { scan_next = 0 }
unfolding press any_held
runs_press = refl

with_down-IsNormal : IsNormal with_down
with_down-IsNormal = record { enabled = refl; running = refl; on_demand = refl; scanning = refl }

down_seen : any_enabled with_down ≡ true
unfolding any_enabled key_data
down_seen = refl

down_up : key_down ready 2 7 ≡ 0
unfolding key_down
down_up = test_bit-zero 10

release_all-reports_example :
    reports 5 new_intc (release_all (scan_tick new_intc with_down)) ≡ min 5 2
release_all-reports_example = release_all-reports new_intc with_down 5 with_down-IsNormal down_seen

tap_lem_example :
    let (t1, k1) = drive one_tap ready 10 in
    let (t2, k2) = drive t1 k1 2250010 in
    (key_down k1 2 7 ≡ 1)
    × (drive t1 k1 2250009 ≡ (t1, k1))
    × (k2.held ≡ ready.held)
    × (t2.queue ≡ (1, 8) ∷ [])
    × (t2.active ≡ false)
tap_lem_example =
    tap_lem one_tap ready 2 7 ((1, 8) ∷ []) 10 2250009 2250010 refl refl (omega arith) (omega arith)
      (omega arith) refl down_up (omega arith) (omega arith)
