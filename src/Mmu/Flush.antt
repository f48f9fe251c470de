-- ===== src/Mmu/Flush.antt =====
-- A write of MMUCR with its bit TI: no entry is left valid.
use casio_cg.Base.{
  ℕ, zero, suc, ◌+◌, bit_and, ◌≡◌, refl, ap, ◌∙◌, Bool, true, false, none, List, [], ◌∷◌, ◌!=◌,
  get_or, and_not, and_not_and,
}
use casio_cg.Mmu.{
  ccn_mmucr, ccn_base, is_valid, no_entry, entry_at, ccn_read, map_entries, invalidate, ccn_write,
  matches, find_from, find, miss_of, translate, TlbEntry, Ccn, refused,
}

flushed_bit : (e : TlbEntry) → is_valid (invalidate e) ≡ false
flushed_bit e = rw (and_not_and e.word 0x100) refl

get_flushed :
    (es : List TlbEntry) (i : ℕ) → is_valid (get_or (map_entries invalidate es) i no_entry) ≡ false
get_flushed [] i = refl
get_flushed (e ∷ es) zero = flushed_bit e
get_flushed (e ∷ es) (suc i) = get_flushed es i

unhit :
    (c : Ccn) (e : TlbEntry) (va : ℕ) (md : Bool) → is_valid e ≡ false → matches c e va md ≡ false
unfolding matches
unhit c e va md h = rw h refl

loop_misses :
    (c : Ccn) (es : List TlbEntry) (i va : ℕ) (md : Bool)
    → find_from c (map_entries invalidate es) i va md ≡ none
unfolding find_from
loop_misses c [] i va md = refl
loop_misses c (e ∷ es) i va md =
    rw (unhit c (invalidate e) va md (flushed_bit e), loop_misses c es (i + 1) va md) refl

flushed_misses :
    (c : Ccn) (es : List TlbEntry) (va : ℕ) (md : Bool)
    → c.utlb ≡ map_entries invalidate es
    → find c va md ≡ none
unfolding find
flushed_misses c es va md e =
    let old : is_valid (entry_at c c.last) ≡ false =
      ap (λ us. is_valid (get_or us c.last no_entry)) e ∙ get_flushed es c.last in
    let rest : find_from c c.utlb 0 va md ≡ none =
      ap (λ us. find_from c us 0 va md) e ∙ loop_misses c es 0 va md in
    rw (unhit c (entry_at c c.last) va md old, rest) refl

flush_utlb :
    (c : Ccn) (val : ℕ)
    → (bit_and val 4 != 0) ≡ true
    → ((ccn_write c (ccn_base + ccn_mmucr) val).utlb ≡ map_entries invalidate c.utlb)
      × (ccn_read (ccn_write c (ccn_base + ccn_mmucr) val) (ccn_base + ccn_mmucr) ≡ and_not val 4)
unfolding ccn_write ccn_read
flush_utlb c val h = rw h (refl, refl)

-- After a write of MMUCR with TI set, every access through the MMU misses, and MMUCR reads the
-- word written but for TI.
flush_lem :
    (c : Ccn) (val va : ℕ) (write md : Bool)
    → (bit_and val 4 != 0) ≡ true
    → ((translate (ccn_write c (ccn_base + ccn_mmucr) val) va write md).0
        ≡ refused (miss_of va write))
      × (ccn_read (ccn_write c (ccn_base + ccn_mmucr) val) (ccn_base + ccn_mmucr) ≡ and_not val 4)
unfolding translate
flush_lem c val va write md h =
    let c' = ccn_write c (ccn_base + ccn_mmucr) val in
    let e = flush_utlb c val h in (rw (flushed_misses c' c.utlb va md (e.0)) refl, e.1)
