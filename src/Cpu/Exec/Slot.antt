-- ===== src/Cpu/Exec/Slot.antt =====
-- Delay slots: `isDelayedBranch` tells exactly the instructions that call `branchDelayed`.
use casio_cg.Base.{ℕ, ◌*◌, ◌/◌, ◌^◌, bit_and, ◌≡◌, refl, ap, ◌∙◌, false, none, arith, bit_and_step}
use casio_cg.Cpu.State.{Cpu}
use casio_cg.Cpu.Bus.{Bus}
use casio_cg.Cpu.Exec.Branch.{is_delayed_branch, slot_illegal, branch_of, exec_plain, execute}

-- One digit of a mask whose lowest digit is 0.
pub mask_step : (a b b' : ℕ) → b ≡ b' * 2 → bit_and a b ≡ bit_and (a / 2) b' * 2
mask_step a b b' e = let h : b / 2 ≡ b' = omega arith in bit_and_step a b ∙ rw h (omega arith)

-- The masks of `isDelayedBranch`, on an opcode whose upper digits are known.
mask_two : (op x : ℕ) → op / 2 ^ 8 ≡ x → bit_and op 0xFD00 ≡ bit_and x 0xFD * 2 ^ 8
mask_two op x h =
    let e : op / 2 / 2 / 2 / 2 / 2 / 2 / 2 / 2 ≡ x = omega arith in
    omega (
      arith,
      mask_step op 0xFD00 0x7E80 refl,
      mask_step (op / 2) 0x7E80 0x3F40 refl,
      mask_step (op / 2 / 2) 0x3F40 0x1FA0 refl,
      mask_step (op / 2 / 2 / 2) 0x1FA0 0xFD0 refl,
      mask_step (op / 2 / 2 / 2 / 2) 0xFD0 0x7E8 refl,
      mask_step (op / 2 / 2 / 2 / 2 / 2) 0x7E8 0x3F4 refl,
      mask_step (op / 2 / 2 / 2 / 2 / 2 / 2) 0x3F4 0x1FA refl,
      mask_step (op / 2 / 2 / 2 / 2 / 2 / 2 / 2) 0x1FA 0xFD refl,
      ap (λ t. bit_and t 0xFD) e,
    )

mask_bra : (op x : ℕ) → op / 2 ^ 12 ≡ x → bit_and op 0xE000 ≡ bit_and x 0xE * 2 ^ 12
mask_bra op x h =
    let e : op / 2 ^ 8 / 2 / 2 / 2 / 2 ≡ x = omega arith in
    let e8 : op / 2 / 2 / 2 / 2 / 2 / 2 / 2 / 2 ≡ op / 2 ^ 8 = omega arith in
    omega (
      arith,
      mask_step op 0xE000 0x7000 refl,
      mask_step (op / 2) 0x7000 0x3800 refl,
      mask_step (op / 2 / 2) 0x3800 0x1C00 refl,
      mask_step (op / 2 / 2 / 2) 0x1C00 0xE00 refl,
      mask_step (op / 2 / 2 / 2 / 2) 0xE00 0x700 refl,
      mask_step (op / 2 / 2 / 2 / 2 / 2) 0x700 0x380 refl,
      mask_step (op / 2 / 2 / 2 / 2 / 2 / 2) 0x380 0x1C0 refl,
      mask_step (op / 2 / 2 / 2 / 2 / 2 / 2 / 2) 0x1C0 0xE0 refl,
      ap (λ t. bit_and t 0xE0) e8,
      mask_step (op / 2 ^ 8) 0xE0 0x70 refl,
      mask_step (op / 2 ^ 8 / 2) 0x70 0x38 refl,
      mask_step (op / 2 ^ 8 / 2 / 2) 0x38 0x1C refl,
      mask_step (op / 2 ^ 8 / 2 / 2 / 2) 0x1C 0xE refl,
      ap (λ t. bit_and t 0xE) e,
    )

-- An opcode that `isDelayedBranch` denies calls `branchDelayed` in no state of the CPU.
pub branch_of-none : (c : Cpu) (op : ℕ) → is_delayed_branch op ≡ false → branch_of c op ≡ none
unfolding is_delayed_branch branch_of
branch_of-none c op h =
    ground (arith, mask_two op 0x8D, mask_two op 0x8F, mask_bra op 0xA, mask_bra op 0xB)

-- An instruction that `slotIllegal` lets into a delay slot runs there without a delayed branch:
-- executing it is what the slot does with it. So `branchDelayed` and `execute` nest once at most.
execute-slot :
    {M : Type 0} (bus : Bus M) (c : Cpu) (mem : M) (op : ℕ)
    → slot_illegal op ≡ false
    → execute bus c mem op ≡ exec_plain bus c mem op
unfolding slot_illegal execute
execute-slot bus c mem op h =
    let e : is_delayed_branch op ≡ false = ground arith in rw (branch_of-none c op e) refl
