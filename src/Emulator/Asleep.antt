-- ===== src/Emulator/Asleep.antt =====
-- Asleep, the loop that polls at every cycle and the jump to the next event end in the same state.
use casio_cg.Base.{
  ℕ, zero, suc, ◌+◌, ◌-◌, ◌^◌, ◌≤◌, ◌<◌, ◌≡◌, sym, ap, ap₂, ◌∙◌, subst, ◌⊎◌, inl, inr, true, ◌&&◌,
  none, some, [], arith, ◌==◌, if◌then◌else◌, length, u64, pick_on, ite_same,
}
use casio_cg.Keysc.{Keysc, KeyTapper}
use casio_cg.Cpu.State.{Cpu}
use casio_cg.Cpu.Bus.{Bus, Run, done}
use casio_cg.Cpu.Step.{step_asleep, step}
use casio_cg.Board.{next_due, flush_releases, Board, Keys}
use casio_cg.Board.Due.{drive-quiet, flush-quiet, next_due-quiet}
use casio_cg.Emulator.{drive_keys, jump, due_of, after_step, poll, polls, Devices, Emulator}

-- What the loop relies on in the memory: the devices are where they were put, and the mark of a
-- write is down.
pub record IsSteady {M : Type 0} (dev : Devices M) (m : M) : Type 0 where
  pub put_back : dev.set_board m (dev.board m) ≡ m
  pub clean_same : dev.clean m ≡ m

-- The machine after some cycles asleep.
abbrev later : {M : Type 0} → Emulator M → ℕ → Emulator M
later e k = record e { cpu = record e.cpu { cycles = e.cpu.cycles + k; idle = e.cpu.idle + k } }

-- The keys after the tapper.
abbrev choose : Keys → Board → ℕ → KeyTapper → Keysc → Keys × Board
choose q b now t k =
    let q' = record q { tap = t } in
    let r = flush_releases q' k now in
    if length q.ups == 0 && length q.downs == 0
    then (q', record b { keysc = k })
    else (r.0, record b { keysc = r.1 })

-- The keys when nothing is due at this cycle or at the next one.
drive_keys-quiet :
    (q : Keys) (b : Board) (cycles idle c : ℕ)
    → c < next_due b q cycles idle true
    → ((q.ups ≡ []) × (q.downs ≡ [])) ⊎ (c + 1 < next_due b q cycles idle true)
    → drive_keys q b (c + 1) ≡ (q, b)
unfolding drive_keys
drive_keys-quiet q b cycles idle c early (inl (no_ups, no_downs)) =
    let still = drive-quiet b q cycles idle true c early in
    let none_wait : (length q.ups == 0 && length q.downs == 0) ≡ true =
      ap₂ (λ x y. length x == 0 && length y == 0) no_ups no_downs in
    ap (λ r. choose q b (c + 1) r.0 r.1) still
    ∙ pick_on (length q.ups == 0 && length q.downs == 0) _ _ none_wait
drive_keys-quiet q b cycles idle c early (inr later_still) =
    let still = drive-quiet b q cycles idle true c early in
    let flushed = flush-quiet b q cycles idle true (c + 1) later_still in
    ap (λ r. choose q b (c + 1) r.0 r.1) still
    ∙ ap
        (λ r.
          if length q.ups == 0 && length q.downs == 0
          then (q, b)
          else (r.0, record b { keysc = r.1 }))
        flushed
    ∙ ite_same (length q.ups == 0 && length q.downs == 0) (q, b)

module _ {M : Type 0} (bus : Bus M) (dev : Devices M) (step_ubc : Cpu → M → Run M) where
  step-asleep :
      (c : Cpu) (mem : M)
      → c.sleeping ≡ true
      → c.pending ≡ []
      → step bus step_ubc c mem
        ≡ done (record c { cycles = u64 (c.cycles + 1); idle = u64 (c.idle + 1) }) mem
  unfolding step step_asleep
  step-asleep c mem asleep quiet =
      pick_on c.sleeping _ _ asleep
      ∙ pick_on (length c.pending == 0) _ _ (ap (λ ps. length ps == 0) quiet)

  poll-quiet :
      (e : Emulator M) (k : ℕ)
      → e.cpu.sleeping ≡ true
      → e.cpu.pending ≡ []
      → IsSteady dev e.mem
      → e.cpu.cycles + k < due_of dev e
      → ((e.keys.ups ≡ []) × (e.keys.downs ≡ [])) ⊎ (e.cpu.cycles + k + 1 < due_of dev e)
      → e.cpu.cycles + k + 1 < 2 ^ 64
      → e.cpu.idle + k + 1 < 2 ^ 64
      → poll bus dev step_ubc (later e k) ≡ some (later e (k + 1))
  unfolding poll after_step
  poll-quiet e k asleep quiet steady early keys fits idle_fits =
      let b = dev.board e.mem in
      let c = e.cpu.cycles + k in
      let now = later e k in
      let early' : c < next_due b e.keys e.cpu.cycles e.cpu.idle true =
        subst (λ s. c < next_due b e.keys e.cpu.cycles e.cpu.idle s) asleep early in
      let keys' : ((e.keys.ups ≡ []) × (e.keys.downs ≡ []))
          ⊎ (c + 1 < next_due b e.keys e.cpu.cycles e.cpu.idle true) =
        subst
          (λ s.
            ((e.keys.ups ≡ []) × (e.keys.downs ≡ []))
            ⊎ (c + 1 < next_due b e.keys e.cpu.cycles e.cpu.idle s))
          asleep keys in
      let ticked =
        (next_due-quiet b e.keys e.cpu.cycles e.cpu.idle c (e.cpu.idle + k) e.cpu.pending
          (omega arith) (omega arith) early').0 in
      let same_mem : dev.set_board (dev.clean e.mem) b ≡ e.mem =
        ap (λ m. dev.set_board m b) steady.clean_same ∙ steady.put_back in
      let end_cycle : u64 (c + 1) ≡ c + 1 = omega (arith, fits) in
      let end_idle : u64 (e.cpu.idle + k + 1) ≡ e.cpu.idle + (k + 1) = omega (arith, idle_fits) in
      let same_keys = drive_keys-quiet e.keys b e.cpu.cycles e.cpu.idle c early' keys' in
      ap
        (λ r. after_step bus dev step_ubc now (
          step bus step_ubc (record now.cpu { pending = r.1 })
            (dev.set_board (dev.clean e.mem) r.0)))
        ticked
      ∙ ap (λ m. after_step bus dev step_ubc now (step bus step_ubc now.cpu m)) same_mem
      ∙ ap (after_step bus dev step_ubc now) (step-asleep now.cpu e.mem asleep quiet)
      ∙ ap₂
          (λ x y.
            after_step bus dev step_ubc now (done (record e.cpu { cycles = x; idle = y }) e.mem))
          end_cycle end_idle
      ∙ ap
          (λ r. some (record {
            cpu = record e.cpu { cycles = c + 1; idle = e.cpu.idle + (k + 1) };
            mem = dev.set_board e.mem r.1;
            keys = r.0;
          }))
          same_keys
      ∙ ap₂
          (λ x m. some (record {
            cpu = record e.cpu { cycles = x; idle = e.cpu.idle + (k + 1) };
            mem = m;
            keys = e.keys;
          }))
          (omega arith) steady.put_back

  -- No event within the next cycles, and the last of them is no event of the host's keys.
  abbrev pub IsQuiet : Emulator M → ℕ → Type 0
  IsQuiet e at =
      (at ≤ due_of dev e) × (((e.keys.ups ≡ []) × (e.keys.downs ≡ [])) ⊎ (at < due_of dev e))

  polls-later :
      (e : Emulator M) (n k : ℕ)
      → e.cpu.sleeping ≡ true
      → e.cpu.pending ≡ []
      → IsSteady dev e.mem
      → IsQuiet e (e.cpu.cycles + k + n)
      → e.cpu.cycles + k + n < 2 ^ 64
      → e.cpu.idle + k + n < 2 ^ 64
      → polls bus dev step_ubc n (later e k) ≡ some (later e (k + n))
  unfolding polls
  polls-later e zero k asleep quiet steady still fits idle_fits =
      ap (λ n. some (later e n)) (omega arith)
  polls-later e (suc n) k asleep quiet steady (below, keys) fits idle_fits =
      let keys' : ((e.keys.ups ≡ []) × (e.keys.downs ≡ []))
          ⊎ (e.cpu.cycles + k + 1 < due_of dev e) =
        elim keys [ inl none_wait ↦ inl none_wait | inr strict ↦ inr (omega (arith, strict)) ] in
      let strictly : ((e.keys.ups ≡ []) × (e.keys.downs ≡ []))
          ⊎ (e.cpu.cycles + (k + 1) + n < due_of dev e) =
        elim keys [ inl none_wait ↦ inl none_wait | inr strict ↦ inr (omega (arith, strict)) ] in
      let one =
        poll-quiet e k asleep quiet steady (omega (arith, below)) keys' (omega (arith, fits))
          (omega (arith, idle_fits)) in
      let rest =
        polls-later e n (k + 1) asleep quiet steady (omega (arith, below), strictly)
          (omega (arith, fits)) (omega (arith, idle_fits)) in
      ap (λ r. elim r [ none ↦ none | some e' ↦ polls bus dev step_ubc n e' ]) one
      ∙ rest
      ∙ ap (λ m. some (later e m)) (omega arith)

  -- Asleep with nothing pending and no write to a device waiting to be seen: polling at every cycle
  -- up to one that is not later than `nextDue` ends in the state that the jump to that cycle gives,
  -- if no press or release of the host waits or the cycle comes before `nextDue`, and the counts do
  -- not wrap.
  pub polls-jump :
      (e : Emulator M) (at : ℕ)
      → e.cpu.sleeping ≡ true
      → e.cpu.pending ≡ []
      → IsSteady dev e.mem
      → e.cpu.cycles ≤ at
      → IsQuiet e at
      → at < 2 ^ 64
      → e.cpu.idle + (at - e.cpu.cycles) < 2 ^ 64
      → polls bus dev step_ubc (at - e.cpu.cycles) e ≡ some (jump e at)
  unfolding jump
  polls-jump e at asleep quiet steady after still fits idle_fits =
      let n = at - e.cpu.cycles in
      let there : e.cpu.cycles + 0 + n ≡ at = omega (arith, after) in
      let still' : IsQuiet e (e.cpu.cycles + 0 + n) = subst (IsQuiet e) (sym there) still in
      let cycles_now : e.cpu.cycles ≡ e.cpu.cycles + 0 = omega arith in
      let idle_now : e.cpu.idle ≡ e.cpu.idle + 0 = omega arith in
      let start =
        ap₂
          (λ x y.
            polls bus dev step_ubc n (record e { cpu = record e.cpu { cycles = x; idle = y } }))
          cycles_now idle_now in
      start
      ∙ polls-later e n 0 asleep quiet steady still' (omega (arith, fits, after))
          (omega (arith, idle_fits))
      ∙ ap₂ (λ x y. some (record e { cpu = record e.cpu { cycles = x; idle = y } }))
          (omega (arith, after)) (omega (arith, after, fits, idle_fits))
