-- ===== src/Mmu/Saved.antt =====
-- The save state of the MMU, `ccn.stateMap` and `ccn.restoreState`: its registers, with the entries
-- of the UTLB under keys of their own.
pub mod RoundTrip
use casio_cg.Base.{
  ℕ, zero, suc, ◌+◌, ◌-◌, ◌*◌, ◌/◌, ◌%◌, ◌^◌, ◌≤◌, ◌<◌, min, max, bit_and, bit_or, bit_xor, ◌≡◌,
  refl, sym, ap, ap₂, ◌∙◌, subst, fun_ext, ◌≢◌, ◌↔◌, ◌⊎◌, inl, inr, Bool, true, false, not, ◌&&◌,
  ◌||◌, Option, none, some, List, [], ◌∷◌, ◌++◌, arith, ltb, leb, ◌==◌, ◌!=◌, if◌then◌else◌, ltb→lt,
  lt→ltb, le→ltb, ==_iff, Bool-cases, length, get_or, set, replicate, length-set, get_or-set_self,
  get_or-set_ne, and_not, bit_and_step, bit_or_step, bit_xor_step, test_bit, test_bit-lt,
  test_bit-zero, test_bit-and, test_bit-or, test_bit-xor, test_bit-and_not, test_bit_ext,
  bit_or-zero, bit_and-zero, bit_and_mask, bit_and_three, bit_or-lt, bit_and-le, u8, u16, u32, u64,
  sub32, sub64, ◌>>>◌, ◌<<<◌, b2u, RegMap, no_regs, reg, put, get_elem?, and_not_step, and_not-le,
  bit_or_fields, value, and_not_parts, and_not_mask, page_address, word_page, same_page,
  bit_xor_self, bit_xor-lt, true≢false, and_and, eq_of_bit_xor, test_bit_lem, and_bit, and_not_and,
  bit_or_comm, test_bit-pow_self, test_bit-pow_ne, word_above, bit_or_null,
}
use casio_cg.Mmu.{
  ccn_pteh, ccn_ptel, ccn_tea, ccn_mmucr, ccn_expevt, ccn_ptea, ccn_base, is_valid, is_dirty,
  is_shared, pr, page_masks, page_mask, ppn, addr_word, no_entry, entry_at, ccn_read, map_entries,
  invalidate, ccn_write, urc, new_entry, ldtlb, single_mode, matches, find_from, find, access,
  miss_of, translate_found, translate, note_fault, TlbEntry, Ccn, Translation, physical, refused,
}

abbrev pub utlb_key : ℕ
utlb_key = 0x00100000

-- `utlbKey | uint32(i)<<4`
unfoldable pub slot_key : ℕ → ℕ
slot_key i = bit_or utlb_key (u32 (i <<< 4))

-- The body of the loop of `stateMap`: an entry that is not all zero is put under three keys.
unfoldable pub put_entry : RegMap → ℕ → TlbEntry → RegMap
unfolding slot_key addr_word
put_entry m i e =
    let k = slot_key i in
    if bit_or (bit_or (bit_or e.vpn e.asid) e.word) e.ptea != 0
    then put (put (put m k (addr_word e)) (k + 4) e.word) (k + 8) e.ptea
    else m

unfoldable pub put_entries : RegMap → ℕ → List TlbEntry → RegMap
unfolding put_entry
put_entries m i [] = m
put_entries m i (e ∷ es) = put_entries (put_entry m i e) (i + 1) es

-- `ccn.stateMap`
unfoldable pub state_map : Ccn → RegMap
unfolding put_entries
state_map c = put_entries c.regs 0 c.utlb

-- `k&0xFFF00000 == utlbKey`
unfoldable pub is_utlb_key : ℕ → Bool
is_utlb_key k = bit_and k 0xFFF00000 == utlb_key

unfoldable pub load_entry : RegMap → ℕ → TlbEntry
load_entry m k = record {
  vpn = bit_and (reg m k) 0xFFFFFC00;
  asid = bit_and (reg m k) 0xFF;
  word = reg m (k + 4);
  ptea = reg m (k + 8);
}

unfoldable pub load_entries : RegMap → ℕ → ℕ → List TlbEntry
unfolding load_entry slot_key
load_entries m i zero = []
load_entries m i (suc n) = load_entry m (slot_key i) ∷ load_entries m (i + 1) n

-- `ccn.restoreState`. Each key that `stateMap` writes sets a place of its own, so the order in which
-- Go visits the keys of such a map does not matter, and the result is written place by place.
unfoldable pub restore_state : RegMap → Ccn
unfolding load_entries is_utlb_key
restore_state m =
    let regs : RegMap = λ k. if is_utlb_key k then none else m k in
    record {
      regs = regs;
      utlb = load_entries m 0 64;
      translating = bit_and (reg regs ccn_mmucr) 1 != 0;
      last = 0;
    }

-- An entry as `ldtlb` and the arrays leave it: a page number and an address space number.
pub record IsEntry (e : TlbEntry) : Type 0 where
  pub fits : e.vpn < 2 ^ 32
  pub whole : e.vpn / 2 ^ 10 * 2 ^ 10 ≡ e.vpn
  pub space : e.asid < 2 ^ 8

abbrev pub AllEntries : List TlbEntry → Type 0
AllEntries [] = Unit
AllEntries (e ∷ es) = IsEntry e × AllEntries es

-- The MMU between instructions: 64 entries, no register at a key of the entries, and the AT flag
-- as in MMUCR.
pub record IsSavable (c : Ccn) : Type 0 where
  pub full : length c.utlb ≡ 64
  pub entries : AllEntries c.utlb
  pub no_entry_key : (k : ℕ) → is_utlb_key k ≡ true → c.regs k ≡ none
  pub in_step : (bit_and (reg c.regs ccn_mmucr) 1 != 0) ≡ c.translating
