-- ===== src/Intc.antt =====
-- emu_go/intc.go and the interrupt requests of emu_go/cpu.go (raiseIRQ, intcGate, gatePending).
-- Registers are words as numbers; the Go arrays ipr and imr are lists of 12 and 13 cells.
pub mod Gate
pub mod Mask
pub mod State
pub mod Pending
mod Tests
use casio_cg.Base.{
  ℕ, zero, suc, ◌+◌, ◌*◌, ◌-◌, ◌/◌, bit_and, bit_or, Bool, true, false, not, ◌&&◌, ◌||◌, Option,
  none, some, List, [], ◌∷◌, ltb, leb, ◌==◌, ◌!=◌, if◌then◌else◌, get_or, set, replicate, and_not,
  u8, u16, sub32, ◌>>>◌, RegMap, no_regs, reg, put,
}

-- `intcSrc`: a priority field (register and shift) and a mask bit.
pub record Source : Type 0 where
  pub ipr : ℕ
  pub shift : ℕ
  pub imr : ℕ
  pub bit : ℕ

abbrev src : ℕ → ℕ → ℕ → ℕ → Source
src i s m b = record { ipr = i; shift = s; imr = m; bit = b }

-- `intcSources`, in the order of the source.
unfoldable pub intc_sources : List (ℕ × Source)
intc_sources =
    (0x400, src 0 12 4 0x10)
    ∷ (0x420, src 0 8 4 0x20)
    ∷ (0x440, src 0 4 4 0x40)
    ∷ (0x9e0, src 9 12 6 0x08)
    ∷ (0xc20, src 6 8 5 0x02)
    ∷ (0xc40, src 6 4 5 0x04)
    ∷ (0x900, src 4 4 2 0x01)
    ∷ (0xd00, src 8 12 6 0x10)
    ∷ (0xfa0, src 11 12 8 0x02)
    ∷ (0x800, src 4 12 1 0x01)
    ∷ (0x820, src 4 12 1 0x02)
    ∷ (0x840, src 4 12 1 0x04)
    ∷ (0x860, src 4 12 1 0x08)
    ∷ (0xb80, src 5 8 5 0x10)
    ∷ (0xba0, src 5 8 5 0x20)
    ∷ (0xaa0, src 10 12 10 0x02)
    ∷ (0xbe0, src 5 12 5 0x80)
    ∷ (0x560, src 1 12 4 0x08)
    ∷ []

unfoldable pub find_source : List (ℕ × Source) → ℕ → Option Source
find_source [] intevt = none
find_source ((e, s) ∷ rest) intevt = if e == intevt then some s else find_source rest intevt

-- `intcUnit`
pub record Intc : Type 0 where
  pub ipr : List ℕ
  pub imr : List ℕ
  pub regs : RegMap

abbrev pub intc_base : ℕ
intc_base = 0xA4080000

unfoldable pub is_ipr : ℕ → Bool
is_ipr off = ltb off 0x30 && (bit_and off 3 == 0)

unfoldable pub is_imr : ℕ → Bool
is_imr off = leb 0x80 off && ltb off 0xB4 && (bit_and off 3 == 0)

-- `intcUnit.read`
unfoldable pub read : Intc → ℕ → ℕ
read k va =
    let off = sub32 va intc_base in
    if is_ipr off
    then get_or k.ipr (off / 4) 0
    else (if is_imr off
        then get_or k.imr ((off - 0x80) / 4) 0
        else (if leb 0xC0 off && ltb off 0xF4 then 0 else reg k.regs off))

-- `intcUnit.write`
unfoldable pub write : Intc → ℕ → ℕ → Intc
write k va val =
    let off = sub32 va intc_base in
    if is_ipr off
    then record k { ipr = set k.ipr (off / 4) (u16 val) }
    else (if is_imr off
        then (let i = (off - 0x80) / 4 in
            record k { imr = set k.imr i (bit_or (get_or k.imr i 0) (u8 val)) })
        else (if leb 0xC0 off && ltb off 0xF4 && (bit_and off 3 == 0)
            then (let i = (off - 0xC0) / 4 in
                record k { imr = set k.imr i (and_not (get_or k.imr i 0) (u8 val)) })
            else record k { regs = put k.regs off val }))

-- A source's priority field and whether its mask bit is set.
unfoldable pub priority : Intc → Source → ℕ
priority k s = bit_and (get_or k.ipr s.ipr 0 >>> s.shift) 0xF

unfoldable pub is_masked : Intc → Source → Bool
is_masked k s = bit_and (get_or k.imr s.imr 0) s.bit != 0

-- `intcUnit.enabled`: whether the source is let through, and its priority field.
unfoldable pub enabled : Intc → ℕ → Bool × ℕ
unfolding priority is_masked
enabled k intevt = elim (find_source intc_sources intevt) [
  | none ↦ (true, 0)
  | some s ↦
      let prio = priority k s in
      if (prio == 0) || is_masked k s then (false, prio) else (true, prio)
]

-- `intcUnit.gate`
pub record GateState : Type 0 where
  pub prio : ℕ
  pub masked : Bool
  pub known : Bool

unfoldable pub gate : Intc → ℕ → GateState
unfolding priority is_masked
gate k intevt = elim (find_source intc_sources intevt) [
  | none ↦ record { prio = 0; masked = false; known = false }
  | some s ↦ record { prio = priority k s; masked = is_masked k s; known = true }
]

-- `intcUnit.seedOSDefaults`
unfoldable pub seed_os_defaults : Intc → Intc
seed_os_defaults k = record k {
  ipr =
      set
        (set (set k.ipr 1 (bit_or (get_or k.ipr 1 0) 0xC000)) 5 (bit_or (get_or k.ipr 5 0) 0xD000))
        10 (bit_or (get_or k.ipr 10 0) 0x8000);
  imr =
      set (set (set k.imr 4 (and_not (get_or k.imr 4 0) 0x08)) 5 (and_not (get_or k.imr 5 0) 0x80))
        10 (and_not (get_or k.imr 10 0) 0x02);
}

-- `newINTC`
unfoldable pub new_intc : Intc
unfolding seed_os_defaults
new_intc = seed_os_defaults (record { ipr = replicate 12 0; imr = replicate 13 0; regs = no_regs })

-- The loops of `stateMap` over the two arrays: cell i at key `start + 4 * i`.
unfoldable pub put_cells : RegMap → ℕ → List ℕ → RegMap
put_cells m key [] = m
put_cells m key (v ∷ vs) = put_cells (put m key v) (key + 4) vs

-- `intcUnit.stateMap`
unfoldable pub state_map : Intc → RegMap
unfolding put_cells
state_map k = put_cells (put_cells k.regs 0 k.ipr) 0x80 k.imr

-- The cells at keys `key`, `key + 4`, … of a saved map; an absent one is 0.
unfoldable pub load_cells : (ℕ → ℕ) → RegMap → ℕ → ℕ → List ℕ
load_cells cut m key zero = []
load_cells cut m key (suc n) = cut (reg m key) ∷ load_cells cut m (key + 4) n

-- `seen` of `restoreState`: whether any priority register is in the map.
unfoldable pub has_cell : RegMap → ℕ → ℕ → Bool
has_cell m key zero = false
has_cell m key (suc n) = elim (m key) [ none ↦ has_cell m (key + 4) n | some v ↦ true ]

-- `intcUnit.restoreState`. Each key of the map sets a place of its own, so the order in which Go
-- visits the keys does not matter, and the result is written place by place.
unfoldable pub restore_state : RegMap → Intc
unfolding load_cells has_cell is_ipr is_imr seed_os_defaults
restore_state m =
    let k : Intc = record {
      ipr = load_cells u16 m 0 12;
      imr = load_cells u8 m 0x80 13;
      regs = λ off. if is_ipr off || is_imr off then none else m off;
    } in
    if has_cell m 0 12 then k else seed_os_defaults k

-- `pend` of cpu.go: a pending request.
pub record Pend : Type 0 where
  pub level : ℕ
  pub intevt : ℕ

unfoldable pub has_request : ℕ → List Pend → Bool
has_request intevt [] = false
has_request intevt (p ∷ ps) = (p.intevt == intevt) || has_request intevt ps

unfoldable pub append : List Pend → Pend → List Pend
append [] p = p ∷ []
append (q ∷ qs) p = q ∷ append qs p

-- `CPU.raiseIRQ` on the list of pending requests.
unfoldable pub raise_irq : List Pend → ℕ → ℕ → List Pend
unfolding has_request append
raise_irq ps intevt level =
    if has_request intevt ps then ps else append ps (record { level = level; intevt = intevt })

-- `MMIOBus.raise`
unfoldable pub raise : Intc → List Pend → ℕ → ℕ → List Pend
raise k ps intevt level =
    let (ok, prio) = enabled k intevt in
    if not ok
    then ps
    else (let l = if level == 0 then prio else level in
        raise_irq ps intevt (if l == 0 then 8 else l))

-- `CPU.intcGate`: a request of a source with priority 0 is dropped, a masked one waits.
unfoldable pub drops : Intc → Pend → Bool
unfolding gate
drops k p = (gate k p.intevt).known && ((gate k p.intevt).prio == 0)

unfoldable pub waits : Intc → Pend → Bool
unfolding gate
waits k p = (gate k p.intevt).known && (gate k p.intevt).masked

unfoldable pub outranks : Pend → Pend → Bool
outranks p q = ltb q.level p.level || ((p.level == q.level) && ltb q.intevt p.intevt)

-- The best request so far: its index among the kept ones, and the request itself.
abbrev pub Best : Type 0
Best = Option (ℕ × Pend)

unfoldable pub better : ℕ → Pend → Best → Best
unfolding outranks
better i p none = some (i, p)
better i p (some (j, q)) = if outranks p q then some (i, p) else some (j, q)

-- The loop of `gatePending`, with n requests kept so far.
unfoldable pub gate_loop : Intc → List Pend → ℕ → Best → List Pend × Best
gate_loop k [] n best = ([], best)
gate_loop k (p ∷ ps) n best = elim (drops k p) [
  | true ↦ gate_loop k ps n best
  | false ↦
      let (kept, b) = gate_loop k ps (n + 1) (if waits k p then best else better n p best) in
      (p ∷ kept, b)
]

-- `CPU.gatePending`: the requests that stay, and the one that the controller would present.
unfoldable pub gate_pending : Intc → List Pend → List Pend × Best
unfolding gate_loop
gate_pending k ps = gate_loop k ps 0 none
