-- ===== src/Emulator.antt =====
-- emu_go/emulator.go: the loop of `stepLocked` with the debugger off, `run` of emu_go/cpu.go, and the
-- host's keys. The memory is a parameter with the devices in it; a panic, which halts the machine, is
-- none. The log lines of the host are left out.
pub mod Asleep
pub mod Hold
mod Tests
use mathlib.Core.Option
use casio_cg.Base.{
  ℕ, zero, suc, ◌+◌, ◌-◌, ◌*◌, ◌/◌, ◌%◌, ◌^◌, ◌≤◌, ◌<◌, min, max, bit_and, bit_or, bit_xor, ◌≡◌,
  refl, sym, ap, ap₂, ◌∙◌, subst, fun_ext, ◌≢◌, ◌↔◌, ◌⊎◌, inl, inr, Bool, true, false, not, ◌&&◌,
  ◌||◌, Option, none, some, List, [], ◌∷◌, ◌++◌, arith, ltb, leb, ◌==◌, ◌!=◌, if◌then◌else◌, ltb→lt,
  lt→ltb, le→ltb, ==_iff, Bool-cases, length, get_or, set, replicate, length-set, get_or-set_self,
  get_or-set_ne, and_not, bit_and_step, bit_or_step, bit_xor_step, test_bit, test_bit-lt,
  test_bit-zero, test_bit-and, test_bit-or, test_bit-xor, test_bit-and_not, test_bit_ext,
  bit_or-zero, bit_and-zero, bit_and_mask, bit_and_three, bit_or-lt, bit_and-le, u8, u16, u32, u64,
  sub32, sub64, ◌>>>◌, ◌<<<◌, b2u, RegMap, no_regs, reg, put, get_elem?, and_not_step, and_not-le,
  bit_or_fields, value, and_not_parts, and_not_mask, page_address, word_page, same_page,
  bit_xor_self, bit_xor-lt, true≢false, and_and, eq_of_bit_xor, test_bit_lem, and_bit, and_not_and,
  bit_or_comm, test_bit-pow_self, test_bit-pow_ne, word_above, bit_or_null,
}
use casio_cg.Intc.{
  intc_sources, find_source, intc_base, is_ipr, is_imr, read, write, priority, is_masked, enabled,
  gate, seed_os_defaults, new_intc, put_cells, state_map, load_cells, has_cell, restore_state,
  has_request, append, raise_irq, raise, drops, waits, outranks, Best, better, gate_loop,
  gate_pending, Source, Intc, GateState, Pend,
}
use casio_cg.Keysc.{
  keysc_base, keysc_intevt, keysc_level, keysc_flag_scan, keysc_flag_detect,
  default_key_scan_period, new_keysc, any_word, any_held, cols_of, rows_of, key_data, any_enabled,
  key_bit, press, release, release_all, resume_defaults, scan, tick, tap_hold_scans, tap_gap_scans,
  next_tap, drive, Keysc, KeyTapper,
}
use casio_cg.Cpu.State.{
  sr_t, sr_s, sr_q, sr_m, sr_bl, sr_rb, sr_md, sr_imask, reg_of, set_reg, has, bank1, take, drop,
  set_sr, set_bit, set_t, t_bit, Cpu,
}
use casio_cg.Cpu.Bus.{
  switch, got, rd, wr, enter_exception, general_exception, illegal, trapa, MmuFault, Access, Bus,
  Run, ok, miss, stop, done, fault, crash,
}
use casio_cg.Cpu.Step.{
  remove, enter_interrupt, rollback, enter_fault, then_run, accept_best, accept_interrupt,
  step_plain, mmu_raise, recover, step_mmu, step_asleep, step_awake, step,
}
use casio_cg.Board.{
  legacy_tick, bus_tick, first_up, first_down, first_tap, adc_due, timers_due, next_due,
  flush_downs, flush_ups, flush_releases, Board, Release, Press, Keys,
}

-- How the devices and the bus's mark of a write stand in the memory.
pub record Devices (M : Type 0) : Type 0 where
  pub board : M → Board
  pub set_board : M → Board → M
  pub is_dirty : M → Bool
  pub clean : M → M

pub record Emulator (M : Type 0) : Type 0 where
  pub cpu : Cpu
  pub mem : M
  pub keys : Keys

-- `keyTapper.drive` and the flush, after the core's step.
unfoldable pub drive_keys : Keys → Board → ℕ → Keys × Board
drive_keys q b now =
    let (t, k) = drive q.tap b.keysc now in
    let q' = record q { tap = t } in
    let (q'', k') = flush_releases q' k now in
    if length q.ups == 0 && length q.downs == 0
    then (q', record b { keysc = k })
    else (q'', record b { keysc = k' })

-- Asleep with nothing pending, time goes to the next event at once.
unfoldable pub jump : {M : Type 0} → Emulator M → ℕ → Emulator M
jump e at = record e {
  cpu = record e.cpu { cycles = at; idle = u64 (e.cpu.idle + sub64 at e.cpu.cycles) };
}

-- `nextDue` of the machine.
abbrev pub due_of : {M : Type 0} → Devices M → Emulator M → ℕ
due_of dev e = next_due (dev.board e.mem) e.keys e.cpu.cycles e.cpu.idle e.cpu.sleeping

module _ {M : Type 0} (bus : Bus M) (dev : Devices M) (step_ubc : Cpu → M → Run M) where
  unfoldable pub after_step : Emulator M → Run M → Option (Emulator M)
  after_step e (done c mem) =
      let (q, b) = drive_keys e.keys (dev.board mem) c.cycles in
      some (record { cpu = c; mem = dev.set_board mem b; keys = q })
  after_step e (fault f c mem) = none
  after_step e crash = none

  -- The slow path: tick, one step of the core, the keys.
  unfoldable pub poll : Emulator M → Option (Emulator M)
  poll e =
      let (b, ps) = bus_tick (dev.board e.mem) e.cpu.cycles e.cpu.idle e.cpu.pending in
      let mem = dev.set_board (dev.clean e.mem) b in
      after_step e (step bus step_ubc (record e.cpu { pending = ps }) mem)

  -- The loop with `exactTick`: the slow path every time.
  unfoldable pub polls : ℕ → Emulator M → Option (Emulator M)
  polls zero e = some e
  polls (suc n) e = elim (poll e) [ none ↦ none | some e' ↦ polls n e' ]

abbrev pub same_key : ℕ × ℕ → ℕ × ℕ → Bool
same_key a b = a.0 == b.0 && a.1 == b.1

abbrev pub hold_time : Keysc → ℕ
hold_time k = u64 (tap_hold_scans * k.scan_period)

abbrev pub last_up : List Release → ℕ → ℕ
last_up [] at = at
last_up (p ∷ ps) at = last_up ps (max at p.at)

abbrev pub last_down : ℕ → List Press → ℕ → ℕ
last_down hold [] at = at
last_down hold (p ∷ ps) at = last_down hold ps (max at (u64 (p.at + hold)))

-- `KeyDown`
unfoldable pub key_down : Keys → Keysc → ℕ → ℕ × ℕ → Keys × Keysc
key_down q k now key =
    let at = last_down (hold_time k) q.downs (last_up q.ups now) in
    let p : Press = record {
      key = key;
      at = u64 (at + u64 (tap_gap_scans * k.scan_period));
      up = false;
    } in
    if length q.ups == 0 && length q.downs == 0
    then (
      record q { down_at = λ x. if same_key x key then some now else q.down_at x },
      press k (key.0) (key.1),
    )
    else (record q { downs = q.downs ++ (p ∷ []) }, k)

-- The first queued press of the key that is not yet let go.
unfoldable pub mark_up : List Press → ℕ × ℕ → Option (List Press)
mark_up [] key = none
mark_up (p ∷ ps) key =
    let rest = Option.map (λ qs. p ∷ qs) (mark_up ps key) in
    if same_key p.key key && not p.up then some (record p { up = true } ∷ ps) else rest

-- `KeyUp`
unfoldable pub let_go : Keys → Keysc → ℕ → ℕ × ℕ → Option ℕ → Keys × Keysc
let_go q k now key none = (q, release k (key.0) (key.1))
let_go q k now key (some at) =
    let p : Release = record { key = key; at = u64 (at + hold_time k) } in
    if ltb (sub64 now at) (hold_time k)
    then (record q { ups = q.ups ++ (p ∷ []) }, k)
    else (q, release k (key.0) (key.1))

unfoldable pub key_up : Keys → Keysc → ℕ → ℕ × ℕ → Keys × Keysc
key_up q k now key =
    let q' = record q { down_at = λ x. if same_key x key then none else q.down_at x } in
    elim (mark_up q.downs key) [
      | some downs ↦ (record q' { downs = downs }, k)
      | none ↦ let_go q' k now key (q.down_at key)
    ]

-- `InjectKey`, `ReleaseAllKeys`, `SetKeyScanPeriod`
unfoldable pub inject_key : Keys → ℕ × ℕ → Keys
inject_key q key = record q { tap = record q.tap { queue = q.tap.queue ++ (key ∷ []) } }

unfoldable pub release_all_keys : Keys → Keysc → Keys × Keysc
release_all_keys q k = (
  record {
    tap = record { queue = []; active = false; key = (0, 0); release_at = 0; next_at = 0 };
    ups = [];
    downs = [];
    down_at = λ x. none;
  },
  release_all k,
)

unfoldable pub set_key_scan_period : Keysc → ℕ → Keysc
set_key_scan_period k n = record k { scan_period = max n 1000 }
