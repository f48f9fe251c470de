-- ===== src/Cpu/Step/Loop.antt =====
-- emu_go/cpu.go, `CPU.run`: instructions until a cycle, a write to a device, or sleep, on fuel.
-- `is_dirty` reads the bus's mark of a write.
use casio_cg.Base.{
  ◌+◌, u64, ℕ, zero, suc, ◌≡◌, refl, sym, ap, ◌∙◌, fun_ext, inl, inr, Bool, true, false, not, ◌&&◌,
  ◌||◌, Option, none, some, arith, ltb, ◌==◌, ◌!=◌, if◌then◌else◌, Bool-cases, length, true≢false,
  pick_on, pick_off,
}
use casio_cg.Cpu.State.{sr_bl, has, Cpu}
use casio_cg.Cpu.Bus.{Bus, Run, done, fault, crash}
use casio_cg.Cpu.Step.{then_run, accept_interrupt, step_plain, step_mmu, step_awake, step}

under :
    {A : Type 0}
    → (t : Bool) (x y z : A) → (t ≡ true → x ≡ y)
    → (if t then x else z) ≡ (if t then y else z)
under true x y z h = h refl
under false x y z h = refl

awake_of : (a b s : Bool) → (a && (b && not s)) ≡ true → s ≡ false
awake_of true true false h = refl
awake_of true true true h = sym h
awake_of true false s h = elim (true≢false (sym h)) [ ]
awake_of false b s h = elim (true≢false (sym h)) [ ]

module _ {M : Type 0} (bus : Bus M) (is_dirty : M → Bool) (step_ubc : Cpu → M → Run M) where
  -- The test of the loop.
  abbrev pub goes_on : ℕ → Cpu → M → Bool
  goes_on end c mem = ltb c.cycles end && (not (is_dirty mem) && not c.sleeping)

  -- The loop's body, which has the code of `step` a second time: the end of it, after the
  -- interrupt is taken or not, and the whole.
  unfoldable pub run_awake : Cpu → M → Run M
  unfolding step_plain step_mmu
  run_awake c mem = elim (bus.hle c mem) [
    | some (c', mem') ↦ done c' mem'
    | none ↦
        let instruction =
          if bus.ubc_on mem
          then step_ubc c mem
          else (if bus.mmu_at mem then step_mmu bus c mem else step_plain bus c mem) in
        then_run instruction (λ c' mem'. done (record c' { cycles = u64 (c'.cycles + 1) }) mem')
  ]

  unfoldable pub run_one : Cpu → M → Run M
  unfolding run_awake
  run_one c mem =
      then_run (if length c.pending != 0 then accept_interrupt bus c mem else done c mem) run_awake

  -- What follows one round.
  abbrev pub and_then : (Cpu → M → Option (Run M)) → Run M → Option (Run M)
  and_then k (done c mem) = k c mem
  and_then k (fault f c mem) = some (fault f c mem)
  and_then k crash = some crash

  unfoldable pub run : ℕ → ℕ → Cpu → M → Option (Run M)
  unfolding run_one
  run zero end c mem = none
  run (suc fuel) end c mem =
      let next = and_then (run fuel end) (run_one c mem) in
      if goes_on end c mem then next else some (done c mem)

  -- The same loop with `step` for its body.
  unfoldable pub steps : ℕ → ℕ → Cpu → M → Option (Run M)
  steps zero end c mem = none
  steps (suc fuel) end c mem =
      let next = and_then (steps fuel end) (step bus step_ubc c mem) in
      if goes_on end c mem then next else some (done c mem)

  accept_interrupt-idle :
      (c : Cpu) (mem : M) → (length c.pending == 0) ≡ true → accept_interrupt bus c mem ≡ done c mem
  unfolding accept_interrupt
  accept_interrupt-idle c mem idle =
      pick_on ((length c.pending == 0) || has c sr_bl) _ _ (ground (arith, idle))

  run_awake-step_awake : (c : Cpu) (mem : M) → run_awake c mem ≡ step_awake bus step_ubc c mem
  unfolding run_awake step_awake
  run_awake-step_awake c mem = refl

  run_one-step : (c : Cpu) (mem : M) → c.sleeping ≡ false → run_one c mem ≡ step bus step_ubc c mem
  unfolding run_one step
  run_one-step c mem awake =
      let accepted : (if length c.pending != 0 then accept_interrupt bus c mem else done c mem)
          ≡ accept_interrupt bus c mem =
        elim (Bool-cases (length c.pending == 0)) [
          | inl idle ↦
              pick_off (length c.pending != 0) _ _ (ground (arith, idle))
              ∙ sym (accept_interrupt-idle c mem idle)
          | inr some_wait ↦ pick_on (length c.pending != 0) _ _ (ground (arith, some_wait))
        ] in
      ap (λ r. then_run r run_awake) accepted
      ∙ ap (then_run (accept_interrupt bus c mem))
          (fun_ext (λ c'. fun_ext (λ mem'. run_awake-step_awake c' mem')))
      ∙ sym (pick_off c.sleeping _ _ awake)

  -- `run` does the same work as `step` over and over, at every fuel: it ends as the loop that calls
  -- `step` does, with the same test before each call.
  pub run-steps : (fuel end : ℕ) (c : Cpu) (mem : M) → run fuel end c mem ≡ steps fuel end c mem
  unfolding run steps
  run-steps zero end c mem = refl
  run-steps (suc fuel) end c mem = under (goes_on end c mem) _ _ _ (λ on.
      ap (and_then (run fuel end)) (run_one-step c mem (awake_of _ _ _ on))
      ∙ ap (λ k. and_then k (step bus step_ubc c mem))
          (fun_ext (λ c'. fun_ext (λ mem'. run-steps fuel end c' mem'))))
