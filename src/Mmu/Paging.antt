-- ===== src/Mmu/Paging.antt =====
-- Demand paging: the exception of a miss, the handler's PTEL and `ldtlb`, and the access again.
use casio_cg.Base.{
  ℕ, ◌+◌, ◌*◌, ◌/◌, ◌%◌, ◌^◌, ◌<◌, bit_and, bit_or, ◌≡◌, refl, sym, ap, ◌∙◌, subst, ◌≢◌, inl, inr,
  Bool, true, false, ◌&&◌, ◌||◌, none, some, arith, ◌==◌, ◌!=◌, ==_iff, Bool-cases, length, set,
  length-set, get_or-set_self, get_or-set_ne, bit_and_mask, reg, bit_or_fields, word_page,
  true≢false, and_and,
}
use casio_cg.Cpu.Bus.{MmuFault}
use casio_cg.Mmu.{
  ccn_pteh, ccn_ptel, ccn_mmucr, ccn_base, is_valid, is_shared, no_entry, entry_at, ccn_write, urc,
  new_entry, ldtlb, single_mode, matches, find_from, find, access, miss_of, translate, note_fault,
  TlbEntry, Ccn, refused,
}
use casio_cg.Mmu.Page.{page_bits, page_floor, matches_lem}
use casio_cg.Mmu.Lookup.{IsSingle, loop-Finds, same_index, find_lem, all_miss}

-- What a handler does that maps the page of the fault: it leaves PTEH as the exception set it,
-- writes PTEL, and runs `ldtlb`.
unfoldable pub refill : Ccn → MmuFault → ℕ → Ccn
unfolding note_fault ccn_write ldtlb
refill c f ptel = ldtlb (ccn_write (note_fault c f) (ccn_base + ccn_ptel) ptel)

-- The entry that the handler loads.
unfoldable pub refilled : Ccn → MmuFault → ℕ → TlbEntry
unfolding note_fault ccn_write new_entry
refilled c f ptel = new_entry (ccn_write (note_fault c f) (ccn_base + ccn_ptel) ptel)

pteh_page :
    (va old : ℕ)
    → va < 2 ^ 32
    → bit_or (bit_and va 0xFFFFFC00) (bit_and old 0xFF) ≡ va / 2 ^ 10 * 2 ^ 10 + old % 2 ^ 8
pteh_page va old h =
    let low : bit_and old 0xFF ≡ old % 2 ^ 8 = bit_and_mask 8 old in
    rw (word_page va h, low) (bit_or_fields 10 (va / 2 ^ 10) (old % 2 ^ 8) (omega arith))

refilled_vpn :
    (c : Ccn) (f : MmuFault) (ptel : ℕ)
    → f.va < 2 ^ 32
    → (refilled c f ptel).vpn ≡ f.va / 2 ^ 10 * 2 ^ 10
unfolding refilled ccn_write note_fault new_entry
refilled_vpn c f ptel h =
    let old = reg c.regs ccn_pteh in
    rw (pteh_page f.va old h)
      (word_page (f.va / 2 ^ 10 * 2 ^ 10 + old % 2 ^ 8) (omega arith) ∙ omega arith)

pteh_asid :
    (c : Ccn) (f : MmuFault) (ptel : ℕ)
    → f.va < 2 ^ 32
    → bit_and (reg (refill c f ptel).regs ccn_pteh) 0xFF ≡ bit_and (reg c.regs ccn_pteh) 0xFF
unfolding refill ccn_write note_fault ldtlb
pteh_asid c f ptel h =
    let old = reg c.regs ccn_pteh in
    let new = f.va / 2 ^ 10 * 2 ^ 10 + old % 2 ^ 8 in
    let low : bit_and old 0xFF ≡ old % 2 ^ 8 = bit_and_mask 8 old in
    let low' : bit_and new 0xFF ≡ new % 2 ^ 8 = bit_and_mask 8 new in
    rw (pteh_page f.va old h, low, low') (omega arith)

old_matches :
    (c : Ccn) (f : MmuFault) (ptel : ℕ) (e : TlbEntry) (va : ℕ) (md : Bool)
    → f.va < 2 ^ 32
    → matches (refill c f ptel) e va md ≡ matches c e va md
unfolding refill ccn_write note_fault ldtlb matches single_mode
old_matches c f ptel e va md h = let same = pteh_asid c f ptel h in rw same refl

loads_valid :
    (c : Ccn) (f : MmuFault) (ptel : ℕ)
    → (bit_and ptel 0x100 != 0) ≡ true
    → is_valid (refilled c f ptel) ≡ true
unfolding refilled ccn_write note_fault new_entry
loads_valid c f ptel h = rw (and_and ptel 0x1FFFFDFF 0x100 refl) h

loads_asid :
    (c : Ccn) (f : MmuFault) (ptel : ℕ)
    → (refilled c f ptel).asid ≡ bit_and (reg (refill c f ptel).regs ccn_pteh) 0xFF
unfolding refilled refill ccn_write note_fault new_entry ldtlb
loads_asid c f ptel = refl

equal_test : (a b : ℕ) → a ≡ b → (a == b) ≡ true
equal_test a b h = ground arith

shared_or : (s t : Bool) → (s || (t || true)) ≡ true
shared_or true t = refl
shared_or false true = refl
shared_or false false = refl

-- The loaded entry takes part in the access that missed.
new_matches :
    (c : Ccn) (f : MmuFault) (ptel : ℕ) (md : Bool)
    → f.va < 2 ^ 32
    → (bit_and ptel 0x100 != 0) ≡ true
    → matches (refill c f ptel) (refilled c f ptel) f.va md ≡ true
new_matches c f ptel md h hv =
    let c' = refill c f ptel in
    let e = refilled c f ptel in
    let vpn = refilled_vpn c f ptel h in
    let small : e.vpn < 2 ^ 32 = omega (arith, vpn) in
    let page : (f.va / 2 ^ page_bits e == e.vpn / 2 ^ page_bits e) ≡ true =
      equal_test _ _ (sym (ap (λ x. x / 2 ^ page_bits e) vpn ∙ page_floor e f.va)) in
    let low : bit_and (reg c'.regs ccn_pteh) 0xFF ≡ reg c'.regs ccn_pteh % 2 ^ 8 =
      bit_and_mask 8 (reg c'.regs ccn_pteh) in
    let asid : (e.asid == reg c'.regs ccn_pteh % 2 ^ 8) ≡ true =
      equal_test _ _ (loads_asid c f ptel ∙ low) in
    matches_lem c' e f.va md h small
    ∙ rw (loads_valid c f ptel hv, page, asid) (shared_or (is_shared e) (md && single_mode c'))

refill_utlb :
    (c : Ccn) (f : MmuFault) (ptel : ℕ)
    → (refill c f ptel).utlb ≡ set c.utlb (urc c) (refilled c f ptel)
unfolding refill refilled ccn_write note_fault new_entry ldtlb
refill_utlb c f ptel = refl

module _ (c : Ccn) (f : MmuFault) (ptel : ℕ) (md : Bool) (fits : f.va < 2 ^ 32)
    (valid : (bit_and ptel 0x100 != 0) ≡ true) (full : length c.utlb ≡ 64)
    (missed : find c f.va md ≡ none) where
  after : Ccn
  after = refill c f ptel

  urc-lt : urc c < length c.utlb
  urc-lt = let e : urc c ≡ reg c.regs ccn_mmucr / 2 ^ 10 % 2 ^ 6 = bit_and_mask 6 _ in omega arith

  new_at : entry_at after (urc c) ≡ refilled c f ptel
  unfolding after
  new_at =
      rw (refill_utlb c f ptel) (get_or-set_self c.utlb (urc c) (refilled c f ptel) no_entry urc-lt)

  old_at : (j : ℕ) → urc c ≢ j → entry_at after j ≡ entry_at c j
  unfolding after
  old_at j h =
      rw (refill_utlb c f ptel) (get_or-set_ne c.utlb (urc c) j (refilled c f ptel) no_entry h)

  after_length : length after.utlb ≡ length c.utlb
  unfolding after
  after_length = rw (refill_utlb c f ptel) (length-set c.utlb (urc c) (refilled c f ptel))

  old_misses :
      (j : ℕ) → j < length c.utlb → urc c ≢ j → matches after (entry_at after j) f.va md ≡ false
  unfolding after
  old_misses j hj h =
      rw (old_at j h)
        (old_matches c f ptel (entry_at c j) f.va md fits ∙ all_miss c f.va md missed j hj)

  hit_is_new :
      (j : ℕ) → j < length c.utlb → matches after (entry_at after j) f.va md ≡ true → j ≡ urc c
  hit_is_new j hj hit = elim (Bool-cases (j == urc c)) [
    | inl same ↦ (==_iff j (urc c)).0 same
    | inr other ↦
        let apart : urc c ≢ j = λ e. true≢false (sym ((==_iff j (urc c)).1 (sym e)) ∙ other) in
        absurd (true≢false (sym hit ∙ old_misses j hj apart))
  ]

  after-IsSingle : IsSingle after f.va md
  after-IsSingle i j hi hj mi mj =
      hit_is_new i (subst (λ n. i < n) after_length hi) mi
      ∙ sym (hit_is_new j (subst (λ n. j < n) after_length hj) mj)

  urc_hits : matches after (entry_at after (urc c)) f.va md ≡ true
  unfolding after
  urc_hits = rw new_at (new_matches c f ptel md fits valid)

  after_last : after.last ≡ c.last
  unfolding after refill
  after_last = refl

  found : c.last < 64 → find after f.va md ≡ some (urc c)
  unfolding after
  found hl =
      let in_range : urc c < length after.utlb = subst (λ n. urc c < n) (sym after_length) urc-lt in
      find_lem after f.va md (omega (arith, after_length, after_last, full)) after-IsSingle
      ∙ same_index after f.va md (urc c) (find_from after after.utlb 0 f.va md) after-IsSingle
          in_range urc_hits (loop-Finds after f.va md)

-- Demand paging. On a miss at an address, an exception, a PTEL with its valid bit set and `ldtlb`
-- map the page: the access that missed, made again, finds the loaded entry in the slot that
-- MMUCR.URC names, so that only its protection and its dirty bit are left to decide.
pub refill_lem :
    (c : Ccn) (f : MmuFault) (ptel : ℕ) (write md : Bool)
    → f.va < 2 ^ 32
    → (bit_and ptel 0x100 != 0) ≡ true
    → length c.utlb ≡ 64
    → c.last < 64
    → find c f.va md ≡ none
    → translate (refill c f ptel) f.va write md
      ≡ (access (refilled c f ptel) f.va write md, record (refill c f ptel) { last = urc c })
unfolding translate after
refill_lem c f ptel write md fits valid full hl missed =
    let at : find (refill c f ptel) f.va md ≡ some (urc c) =
      found c f ptel md fits valid full missed hl in
    let new : entry_at (refill c f ptel) (urc c) ≡ refilled c f ptel =
      new_at c f ptel md fits valid full missed in
    rw (at, new) refl

-- A miss answers the fault and changes nothing.
pub translate-miss :
    (c : Ccn) (va : ℕ) (write md : Bool)
    → find c va md ≡ none
    → translate c va write md ≡ (refused (miss_of va write), c)
unfolding translate
translate-miss c va write md h = rw h refl
