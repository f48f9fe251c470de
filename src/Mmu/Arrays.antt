-- ===== src/Mmu/Arrays.antt =====
-- The memory-mapped arrays of the UTLB, `utlbArrays`: its address array and its data arrays.
use casio_cg.Base.{
  ℕ, ◌+◌, ◌*◌, ◌/◌, ◌%◌, ◌^◌, ◌<◌, bit_and, bit_or, bit_xor, ◌≡◌, refl, sym, ◌∙◌, ◌≢◌, Bool, true,
  false, ◌&&◌, ◌||◌, arith, ltb, leb, ◌==◌, if◌then◌else◌, lt→ltb, length, set, get_or-set_self,
  get_or-set_ne, and_not, test_bit-lt, test_bit-and, test_bit-or, test_bit-and_not, bit_and_mask,
  u32, ◌>>>◌, ◌<<<◌, bit_or_fields, word_page, test_bit_lem, and_bit,
}
use casio_cg.Mmu.{
  is_shared, page_mask, addr_word, no_entry, entry_at, map_entries, single_mode, TlbEntry, Ccn,
}

abbrev pub slot_of : ℕ → ℕ
slot_of va = bit_and (va >>> 8) 0x3F

-- `utlbArrays.read`
unfoldable pub read : Ccn → ℕ → ℕ
unfolding addr_word
read c va = let e = entry_at c (slot_of va) in if ltb va 0xF7000000 then addr_word e else e.word

-- `setVD`
unfoldable pub set_vd : TlbEntry → ℕ → TlbEntry
set_vd e val = record e {
  word = bit_or (bit_or (and_not e.word 0x104) (bit_and val 0x100)) (bit_and (val >>> 7) 0x4);
}

-- The test of an associative write. An entry that is not valid takes part in it too.
unfoldable pub names : Ccn → ℕ → TlbEntry → Bool
unfolding page_mask single_mode
names c val e =
    (bit_and (and_not (bit_xor val e.vpn) (page_mask e)) 0xFFFFFC00 == 0)
    && (is_shared e || (single_mode c || (e.asid == bit_and val 0xFF)))

-- `utlbArrays.write`
unfoldable pub write : Ccn → ℕ → ℕ → Ccn
unfolding set_vd names
write c va val =
    let i = slot_of va in
    let e = entry_at c i in
    let named = record e { vpn = bit_and val 0xFFFFFC00; asid = bit_and val 0xFF } in
    let update = λ (x : TlbEntry). if names c val x then set_vd x val else x in
    if leb 0xF7000000 va
    then (if ltb va 0xF7800000
        then record c { utlb = set c.utlb i (record e { word = bit_and val 0x1FFFFDFF }) }
        else record c { utlb = set c.utlb i (record e { ptea = val }) })
    else (if bit_and va 0x80 == 0
        then record c { utlb = set c.utlb i (set_vd named val) }
        else record c { utlb = map_entries update c.utlb })

-- The bits V and D that `setVD` leaves.
valid_bit : (e : TlbEntry) (val : ℕ) → bit_and (set_vd e val).word 0x100 ≡ val / 2 ^ 8 % 2 * 2 ^ 8
unfolding set_vd
valid_bit e val =
    let w = (set_vd e val).word in
    and_bit 8 w
    ∙ omega (
      arith,
      test_bit-or (bit_or (and_not e.word 0x104) (bit_and val 0x100)) (bit_and (val >>> 7) 0x4) 8,
      test_bit-or (and_not e.word 0x104) (bit_and val 0x100) 8,
      test_bit-and_not e.word 0x104 8,
      test_bit-and val 0x100 8,
      test_bit-and (val >>> 7) 0x4 8,
      test_bit_lem 8 0x104,
      test_bit_lem 8 0x100,
      test_bit_lem 8 0x4,
      test_bit_lem 8 val,
      test_bit-lt e.word 8,
    )

dirty_bit : (e : TlbEntry) (val : ℕ) → bit_and (set_vd e val).word 0x4 ≡ val / 2 ^ 9 % 2 * 2 ^ 2
unfolding set_vd
dirty_bit e val =
    let w = (set_vd e val).word in
    and_bit 2 w
    ∙ omega (
      arith,
      test_bit-or (bit_or (and_not e.word 0x104) (bit_and val 0x100)) (bit_and (val >>> 7) 0x4) 2,
      test_bit-or (and_not e.word 0x104) (bit_and val 0x100) 2,
      test_bit-and_not e.word 0x104 2,
      test_bit-and val 0x100 2,
      test_bit-and (val >>> 7) 0x4 2,
      test_bit_lem 2 0x104,
      test_bit_lem 2 0x100,
      test_bit_lem 2 0x4,
      test_bit_lem 2 (val >>> 7),
      test_bit-lt e.word 2,
    )

-- The address word of an entry by its fields.
pub word_of_fields :
    (e : TlbEntry) (v d : ℕ)
    → e.vpn < 2 ^ 32
    → e.vpn / 2 ^ 10 * 2 ^ 10 ≡ e.vpn
    → e.asid < 2 ^ 8
    → v < 2
    → d < 2
    → bit_and e.word 0x100 ≡ v * 2 ^ 8
    → bit_and e.word 0x4 ≡ d * 2 ^ 2
    → addr_word e ≡ e.vpn + d * 2 ^ 9 + v * 2 ^ 8 + e.asid
unfolding addr_word
word_of_fields e v d fits whole asid hv hd ev ed =
    let q = e.vpn / 2 ^ 10 in
    let a : bit_or e.vpn (d * 2 ^ 9) ≡ (q * 2 + d) * 2 ^ 9 =
      rw (sym whole) (bit_or_fields 10 q (d * 2 ^ 9) (omega arith) ∙ omega arith) in
    let b : bit_or ((q * 2 + d) * 2 ^ 9) (v * 2 ^ 8) ≡ (q * 4 + d * 2 + v) * 2 ^ 8 =
      bit_or_fields 9 (q * 2 + d) (v * 2 ^ 8) (omega arith) ∙ omega arith in
    let shifted : u32 (d * 2 ^ 2 <<< 7) ≡ d * 2 ^ 9 = omega arith in
    rw (ed, ev, shifted, a, b) (bit_or_fields 8 (q * 4 + d * 2 + v) e.asid asid ∙ omega arith)

slot_fits : (va : ℕ) → slot_of va < 64
slot_fits va = let e : slot_of va ≡ va / 2 ^ 8 % 2 ^ 6 = bit_and_mask 6 (va >>> 8) in omega arith

named_word :
    (e : TlbEntry) (val : ℕ)
    → val < 2 ^ 32
    → addr_word (set_vd (record e { vpn = bit_and val 0xFFFFFC00; asid = bit_and val 0xFF }) val)
      ≡ val
unfolding set_vd
named_word e val h =
    let named = record e { vpn = bit_and val 0xFFFFFC00; asid = bit_and val 0xFF } in
    let page : bit_and val 0xFFFFFC00 ≡ val / 2 ^ 10 * 2 ^ 10 = word_page val h in
    let low : bit_and val 0xFF ≡ val % 2 ^ 8 = bit_and_mask 8 val in
    let fields =
      word_of_fields (set_vd named val) (val / 2 ^ 8 % 2) (val / 2 ^ 9 % 2) (omega arith)
        (omega arith) (omega arith) (omega arith) (omega arith) (valid_bit named val)
        (dirty_bit named val) in
    fields ∙ rw (page, low) (omega arith)

-- A word written to an entry of the address array, not associatively, reads back as it is, and
-- the entries of the other slots do not change in either array.
pub read-write :
    (c : Ccn) (va va' val : ℕ)
    → va < 0xF7000000
    → (bit_and va 0x80 == 0) ≡ true
    → length c.utlb ≡ 64
    → val < 2 ^ 32
    → slot_of va ≢ slot_of va'
    → (read (write c va val) va ≡ val) × (read (write c va val) va' ≡ read c va')
unfolding read write
read-write c va va' val hva plain full fits apart =
    let i = slot_of va in
    let e = entry_at c i in
    let new = set_vd (record e { vpn = bit_and val 0xFFFFFC00; asid = bit_and val 0xFF }) val in
    let below : leb 0xF7000000 va ≡ false = ground arith in
    let below' : ltb va 0xF7000000 ≡ true = lt→ltb va 0xF7000000 hva in
    let in_range : i < length c.utlb = omega (arith, slot_fits va, full) in
    rw (below, plain)
      (
        rw (below', get_or-set_self c.utlb i new no_entry in_range) (named_word e val fits),
        rw (get_or-set_ne c.utlb i (slot_of va') new no_entry apart) refl,
      )
