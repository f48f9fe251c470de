-- ===== src/Mmu.antt =====
-- emu_go/mmu.go, the MMU: the control block `ccn` with its registers and the 64 entries of the
-- UTLB, address translation, `ldtlb`, the memory-mapped arrays `utlbArrays` (Arrays),
-- the save state (Saved) and the view of the debugger (Peek).
pub mod Page
pub mod Lookup
pub mod Paging
pub mod Arrays
pub mod Flush
pub mod Saved
pub mod Peek
mod Tests
use casio_cg.Base.{
  ℕ, zero, suc, ◌+◌, ◌-◌, ◌*◌, ◌/◌, ◌%◌, ◌^◌, ◌≤◌, ◌<◌, min, max, bit_and, bit_or, bit_xor, ◌≡◌,
  refl, sym, ap, ap₂, ◌∙◌, subst, fun_ext, ◌≢◌, ◌↔◌, ◌⊎◌, inl, inr, Bool, true, false, not, ◌&&◌,
  ◌||◌, Option, none, some, List, [], ◌∷◌, ◌++◌, arith, ltb, leb, ◌==◌, ◌!=◌, if◌then◌else◌, ltb→lt,
  lt→ltb, le→ltb, ==_iff, Bool-cases, length, get_or, set, replicate, length-set, get_or-set_self,
  get_or-set_ne, and_not, bit_and_step, bit_or_step, bit_xor_step, test_bit, test_bit-lt,
  test_bit-zero, test_bit-and, test_bit-or, test_bit-xor, test_bit-and_not, test_bit_ext,
  bit_or-zero, bit_and-zero, bit_and_mask, bit_and_three, bit_or-lt, bit_and-le, u8, u16, u32, u64,
  sub32, sub64, ◌>>>◌, ◌<<<◌, b2u, RegMap, no_regs, reg, put, get_elem?, and_not_step, and_not-le,
  bit_or_fields, value, and_not_parts, and_not_mask, page_address, word_page, same_page,
  bit_xor_self, bit_xor-lt, true≢false, and_and, eq_of_bit_xor, test_bit_lem, and_bit, and_not_and,
}
use casio_cg.Cpu.Bus.{
  switch, got, rd, wr, enter_exception, general_exception, illegal, trapa, MmuFault, Access, Bus,
  Run, ok, miss, stop, done, fault, crash,
}

abbrev pub ccn_pteh : ℕ
ccn_pteh = 0x00

abbrev pub ccn_ptel : ℕ
ccn_ptel = 0x04

abbrev pub ccn_tea : ℕ
ccn_tea = 0x0C

abbrev pub ccn_mmucr : ℕ
ccn_mmucr = 0x10

abbrev pub ccn_expevt : ℕ
ccn_expevt = 0x24

abbrev pub ccn_ptea : ℕ
ccn_ptea = 0x34

abbrev pub ccn_base : ℕ
ccn_base = 0xFF000000

-- `tlbEntry`. The field `data` of the source is `word` here.
pub record TlbEntry : Type 0 where
  pub vpn : ℕ
  pub asid : ℕ
  pub word : ℕ
  pub ptea : ℕ

abbrev pub is_valid : TlbEntry → Bool
is_valid e = bit_and e.word 0x100 != 0

abbrev pub is_dirty : TlbEntry → Bool
is_dirty e = bit_and e.word 0x4 != 0

abbrev pub is_shared : TlbEntry → Bool
is_shared e = bit_and e.word 0x2 != 0

-- `tlbEntry.pr`, `mask` with `pageMask`, `ppn` and `addrWord`.
unfoldable pub pr : TlbEntry → ℕ
pr e = bit_and (e.word >>> 5) 3

abbrev pub page_masks : List ℕ
page_masks = 0x3FF ∷ 0xFFF ∷ 0xFFFF ∷ 0xFFFFF ∷ []

unfoldable pub page_mask : TlbEntry → ℕ
page_mask e = get_or page_masks (bit_or (bit_and (e.word >>> 6) 2) (bit_and (e.word >>> 4) 1)) 0

abbrev pub ppn : TlbEntry → ℕ
ppn e = bit_and e.word 0x1FFFFC00

unfoldable pub addr_word : TlbEntry → ℕ
addr_word e =
    bit_or (bit_or (bit_or e.vpn (u32 (bit_and e.word 0x4 <<< 7))) (bit_and e.word 0x100)) e.asid

abbrev pub no_entry : TlbEntry
no_entry = record { vpn = 0; asid = 0; word = 0; ptea = 0 }

-- `ccn`. `at` is `translating` here; the memory's copy of it is this field.
pub record Ccn : Type 0 where
  pub regs : RegMap
  pub utlb : List TlbEntry
  pub translating : Bool
  pub last : ℕ

abbrev pub entry_at : Ccn → ℕ → TlbEntry
entry_at c i = get_or c.utlb i no_entry

-- `ccn.read` and `ccn.write`, at the offset of the address in the block.
unfoldable pub ccn_read : Ccn → ℕ → ℕ
ccn_read c va =
    let off = sub32 va ccn_base in
    if off % 2 ^ 16 == ccn_expevt
    then (elim (c.regs ccn_expevt) [ some v ↦ v | none ↦ 0x0A02 ])
    else reg c.regs off

abbrev pub map_entries : (TlbEntry → TlbEntry) → List TlbEntry → List TlbEntry
map_entries f [] = []
map_entries f (e ∷ es) = f e ∷ map_entries f es

abbrev pub invalidate : TlbEntry → TlbEntry
invalidate e = record e { word = and_not e.word 0x100 }

unfoldable pub ccn_write : Ccn → ℕ → ℕ → Ccn
ccn_write c va val =
    let off = sub32 va ccn_base in
    let ti = bit_and val 4 != 0 in
    let flushed = if ti then map_entries invalidate c.utlb else c.utlb in
    let val' = if ti then and_not val 4 else val in
    if off == ccn_mmucr
    then record c { utlb = flushed; translating = bit_and val' 1 != 0; regs = put c.regs off val' }
    else record c { regs = put c.regs off val }

-- `ccn.ldtlb`
abbrev pub urc : Ccn → ℕ
urc c = bit_and (reg c.regs ccn_mmucr >>> 10) 0x3F

unfoldable pub new_entry : Ccn → TlbEntry
new_entry c = record {
  vpn = bit_and (reg c.regs ccn_pteh) 0xFFFFFC00;
  asid = bit_and (reg c.regs ccn_pteh) 0xFF;
  word = bit_and (reg c.regs ccn_ptel) 0x1FFFFDFF;
  ptea = reg c.regs ccn_ptea;
}

unfoldable pub ldtlb : Ccn → Ccn
unfolding new_entry
ldtlb c = record c { utlb = set c.utlb (urc c) (new_entry c) }

-- `ccn.matches`
unfoldable pub single_mode : Ccn → Bool
single_mode c = bit_and (reg c.regs ccn_mmucr) 0x100 != 0

unfoldable pub matches : Ccn → TlbEntry → ℕ → Bool → Bool
unfolding page_mask single_mode
matches c e va md =
    is_valid e
    && ((bit_and (and_not (bit_xor va e.vpn) (page_mask e)) 0xFFFFFC00 == 0)
        && (is_shared e
            || ((md && single_mode c) || (e.asid == bit_and (reg c.regs ccn_pteh) 0xFF))))

-- The loop of `translate` over the entries, from index i on.
unfoldable pub find_from : Ccn → List TlbEntry → ℕ → ℕ → Bool → Option ℕ
unfolding matches
find_from c [] i va md = none
find_from c (e ∷ es) i va md =
    let rest = find_from c es (i + 1) va md in if matches c e va md then some i else rest

-- The index that `translate` finds: that of the last hit, or else the first that matches.
unfoldable pub find : Ccn → ℕ → Bool → Option ℕ
unfolding find_from matches
find c va md =
    if matches c (entry_at c c.last) va md then some c.last else find_from c c.utlb 0 va md

-- What `translate` ends in: an address, or the panic.
pub data Translation : Type 0 where
  physical : ℕ → Translation
  refused : MmuFault → Translation

-- `translate` on the entry found: protection, the first write, and the address.
unfoldable pub access : TlbEntry → ℕ → Bool → Bool → Translation
unfolding pr page_mask
access e va write md =
    let denied =
      (md && (write && (pr e == 0))) || (not md && (ltb (pr e) 2 || (write && (pr e == 2)))) in
    let code = if write then 0x0C0 else 0x0A0 in
    let m = page_mask e in
    if denied
    then refused (record { va = va; expevt = code; vector = 0x100 })
    else (if write && not (is_dirty e)
        then refused (record { va = va; expevt = 0x080; vector = 0x100 })
        else physical (bit_or (and_not (ppn e) m) (bit_and va m)))

abbrev pub miss_of : ℕ → Bool → MmuFault
miss_of va write = record { va = va; expevt = if write then 0x060 else 0x040; vector = 0x400 }

-- `ccn.translate`
abbrev pub translate_found : Ccn → Option ℕ → ℕ → Bool → Bool → Translation × Ccn
translate_found c none va write md = (refused (miss_of va write), c)
translate_found c (some i) va write md = (access (entry_at c i) va write md, record c { last = i })

unfoldable pub translate : Ccn → ℕ → Bool → Bool → Translation × Ccn
unfolding find access
translate c va write md = translate_found c (find c va md) va write md

-- The registers that `ccn.raise` writes.
unfoldable pub note_fault : Ccn → MmuFault → Ccn
note_fault c f =
    let tea = put c.regs ccn_tea f.va in
    let page = bit_or (bit_and f.va 0xFFFFFC00) (bit_and (reg tea ccn_pteh) 0xFF) in
    record c { regs = put (put tea ccn_pteh page) ccn_expevt f.expevt }
