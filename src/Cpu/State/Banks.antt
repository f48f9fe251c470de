-- ===== src/Cpu/State/Banks.antt =====
-- The register banks: `setSR` only changes which bank R0-R7 name.
use casio_cg.Base.{
  ℕ, zero, suc, ◌+◌, ◌-◌, ◌≤◌, ◌<◌, ◌≡◌, refl, sym, ap, ◌∙◌, Bool, true, false, List, [], ◌∷◌, ◌++◌,
  arith, if◌then◌else◌, length, get_or,
}
use casio_cg.Cpu.State.{reg_of, bank1, take, drop, set_sr, Cpu}

-- The arrays have Go's sizes.
abbrev pub IsBanked : Cpu → Type 0
IsBanked c = (length c.r ≡ 16) × (length c.rbank1 ≡ 8)

get_or-take : (k : ℕ) (xs : List ℕ) (i : ℕ) → i < k → get_or (take k xs) i 0 ≡ get_or xs i 0
get_or-take zero xs i h = absurd (omega arith)
get_or-take (suc k) [] i h = refl
get_or-take (suc k) (x ∷ xs) zero h = refl
get_or-take (suc k) (x ∷ xs) (suc i) h = get_or-take k xs i (omega arith)

get_or-drop : (k : ℕ) (xs : List ℕ) (i : ℕ) → get_or (drop k xs) i 0 ≡ get_or xs (k + i) 0
get_or-drop zero xs i = let e : i ≡ 0 + i = omega arith in ap (λ j. get_or xs j 0) e
get_or-drop (suc k) [] i = refl
get_or-drop (suc k) (x ∷ xs) i =
    let e : suc (k + i) ≡ suc k + i = omega arith in
    get_or-drop k xs i ∙ ap (λ j. get_or (x ∷ xs) j 0) e

get_or-left : (xs ys : List ℕ) (i : ℕ) → i < length xs → get_or (xs ++ ys) i 0 ≡ get_or xs i 0
get_or-left [] ys i h = absurd (omega arith)
get_or-left (x ∷ xs) ys zero h = refl
get_or-left (x ∷ xs) ys (suc i) h = get_or-left xs ys i (omega arith)

get_or-right : (xs ys : List ℕ) (i : ℕ) → get_or (xs ++ ys) (length xs + i) 0 ≡ get_or ys i 0
get_or-right [] ys i = let e : 0 + i ≡ i = omega arith in ap (λ j. get_or ys j 0) e
get_or-right (x ∷ xs) ys i =
    let e : suc (length xs) + i ≡ suc (length xs + i) = omega arith in
    ap (λ j. get_or (x ∷ (xs ++ ys)) j 0) e ∙ get_or-right xs ys i

pub take-append : (k : ℕ) (xs ys : List ℕ) → length xs ≡ k → take k (xs ++ ys) ≡ xs
take-append zero [] ys h = refl
take-append zero (x ∷ xs) ys h = absurd (omega arith)
take-append (suc k) [] ys h = absurd (omega arith)
take-append (suc k) (x ∷ xs) ys h = ap (λ r. x ∷ r) (take-append k xs ys (omega arith))

pub drop-append : (k : ℕ) (xs ys : List ℕ) → length xs ≡ k → drop k (xs ++ ys) ≡ ys
drop-append zero [] ys h = refl
drop-append zero (x ∷ xs) ys h = absurd (omega arith)
drop-append (suc k) [] ys h = absurd (omega arith)
drop-append (suc k) (x ∷ xs) ys h = drop-append k xs ys (omega arith)

pub append-take-drop : (k : ℕ) (xs : List ℕ) → take k xs ++ drop k xs ≡ xs
append-take-drop zero xs = refl
append-take-drop (suc k) [] = refl
append-take-drop (suc k) (x ∷ xs) = ap (λ r. x ∷ r) (append-take-drop k xs)

-- The registers R0-R7 of bank 1 (`true`) or bank 0, wherever the CPU keeps them.
pub bank_reg : Cpu → Bool → ℕ → ℕ
bank_reg c true i = if bank1 c.sr then get_or c.r i 0 else get_or c.rbank1 i 0
bank_reg c false i = if bank1 c.sr then get_or c.rbank1 i 0 else get_or c.r i 0

swap_low :
    (c : Cpu) (i : ℕ)
    → IsBanked c
    → i < 8
    → get_or (c.rbank1 ++ drop 8 c.r) i 0 ≡ get_or c.rbank1 i 0
swap_low c i (len, len1) h = get_or-left c.rbank1 (drop 8 c.r) i (omega arith)

swap_high :
    (c : Cpu) (i : ℕ) → IsBanked c → 8 ≤ i → get_or (c.rbank1 ++ drop 8 c.r) i 0 ≡ get_or c.r i 0
swap_high c i (len, len1) h =
    let e : length c.rbank1 + (i - 8) ≡ i = omega arith in
    let e' : 8 + (i - 8) ≡ i = omega arith in
    ap (λ j. get_or (c.rbank1 ++ drop 8 c.r) j 0) (sym e)
    ∙ get_or-right c.rbank1 (drop 8 c.r) (i - 8)
    ∙ get_or-drop 8 c.r (i - 8)
    ∙ ap (λ j. get_or c.r j 0) e'

-- Writing any SR leaves the registers of both banks as they are, R8-R15 too: only the names
-- R0-R7 move between the banks.
set_sr-banks :
    (c : Cpu) (v : ℕ) (b : Bool) (i j : ℕ)
    → IsBanked c
    → i < 8
    → 8 ≤ j
    → (bank_reg (set_sr c v) b i ≡ bank_reg c b i) × (reg_of (set_sr c v) j ≡ reg_of c j)
unfolding set_sr bank_reg
set_sr-banks c v true i j w h g =
    ground (arith, swap_low c i w h, swap_high c j w g, get_or-take 8 c.r i h)
set_sr-banks c v false i j w h g =
    ground (arith, swap_low c i w h, swap_high c j w g, get_or-take 8 c.r i h)

-- The registers that `stepMMU` saves: both banks, SR and the others.
abbrev pub Arch : Type 0
Arch = List ℕ × (List ℕ × List ℕ)

abbrev pub arch : Cpu → Arch
arch c = (c.r, (c.rbank1, c.sr ∷ c.pr ∷ c.gbr ∷ c.mach ∷ c.macl ∷ c.fpul ∷ c.fpscr ∷ []))

-- Writing any SR and then the old one gives the CPU's registers back.
set_sr-back : (c : Cpu) (v : ℕ) → IsBanked c → arch (set_sr (set_sr c v) c.sr) ≡ arch c
unfolding set_sr
set_sr-back c v (len, len1) =
    let e = append-take-drop 8 c.r in
    let d = drop-append 8 c.rbank1 (drop 8 c.r) len1 in
    let t = take-append 8 c.rbank1 (drop 8 c.r) len1 in ground (arith, e, d, t)
