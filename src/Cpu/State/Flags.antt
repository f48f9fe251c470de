-- ===== src/Cpu/State/Flags.antt =====
-- The T bit of the status register, set and read back; the CPU's registers are words.
use casio_cg.Base.{
  ℕ, zero, suc, ◌^◌, ◌<◌, ◌≡◌, refl, ap, ◌∙◌, Bool, true, false, List, [], ◌∷◌, arith, length,
  get_or, set, length-set, bit_or_step, bit_and_mask, b2u, and_not_step,
}
use casio_cg.Cpu.State.{reg_of, set_t, t_bit, Cpu}

-- The CPU has its 16 registers, and each is a word.
abbrev pub HasWords : Cpu → Type 0
HasWords c = (length c.r ≡ 16) × ((i : ℕ) → i < 16 → reg_of c i < 2 ^ 32)

pub t_bit-set_t : (c : Cpu) (on : Bool) → t_bit (set_t c on) ≡ b2u on
unfolding set_t
t_bit-set_t c true = rw (bit_and_mask 1) (ground (arith, bit_or_step c.sr 1))
t_bit-set_t c false = rw (bit_and_mask 1) (ground (arith, and_not_step c.sr 1))

pub t_bit-lt : (c : Cpu) → t_bit c < 2
t_bit-lt c = rw (bit_and_mask 1) (omega arith)

pub set_t-r : (c : Cpu) (on : Bool) → (set_t c on).r ≡ c.r
unfolding set_t
set_t-r c on = refl

pub set_t-reg : (c : Cpu) (on : Bool) (n : ℕ) → reg_of (set_t c on) n ≡ reg_of c n
set_t-reg c on n = ap (λ xs. get_or xs n 0) (set_t-r c on)

-- A list of words stays one when a word is put in.
set_cell :
    (xs : List ℕ) (n v i : ℕ)
    → v < 2 ^ 32
    → get_or xs i 0 < 2 ^ 32
    → get_or (set xs n v) i 0 < 2 ^ 32
set_cell [] n v i hv h = h
set_cell (x ∷ xs) zero v zero hv h = hv
set_cell (x ∷ xs) zero v (suc i) hv h = h
set_cell (x ∷ xs) (suc n) v zero hv h = h
set_cell (x ∷ xs) (suc n) v (suc i) hv h = set_cell xs n v i hv h

pub set_words : (c c' : Cpu) (n v : ℕ) → c'.r ≡ set c.r n v → v < 2 ^ 32 → HasWords c → HasWords c'
set_words c c' n v e hv (len, word) =
    rw e (length-set c.r n v ∙ len, λ i hi. set_cell c.r n v i hv (word i hi))
