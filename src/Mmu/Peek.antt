-- ===== src/Mmu/Peek.antt =====
-- `ccn.peek`, the look-up of an address for the host debugger.
use casio_cg.Base.{
  ℕ, ◌+◌, bit_and, bit_or, ◌≡◌, ap, Bool, Option, none, some, arith, and_not, u32, sub32,
}
use casio_cg.Mmu.{
  page_mask, ppn, entry_at, find, access, translate_found, translate, TlbEntry, Ccn, physical,
}

-- `ccn.peek`: the address, and the bytes left in the page.
abbrev pub peek_found : Ccn → Option ℕ → ℕ → Option (ℕ × ℕ)
peek_found c none va = none
peek_found c (some i) va =
    let e = entry_at c i in
    let m = page_mask e in
    some (bit_or (and_not (ppn e) m) (bit_and va m), u32 (sub32 m (bit_and va m) + 1))

unfoldable pub peek : Ccn → ℕ → Bool → Option (ℕ × ℕ)
unfolding find
peek c va md = peek_found c (find c va md) va

access-address :
    (e : TlbEntry) (va : ℕ) (write md : Bool) (pa : ℕ)
    → access e va write md ≡ physical pa
    → bit_or (and_not (ppn e) (page_mask e)) (bit_and va (page_mask e)) ≡ pa
unfolding access
access-address e va write md pa h = ground (arith, h)

by_found :
    (c : Ccn) (r : Option ℕ) (va : ℕ) (write md : Bool) (pa : ℕ)
    → (translate_found c r va write md).0 ≡ physical pa
    → (n : ℕ) × (peek_found c r va ≡ some (pa, n))
by_found c none va write md pa h = absurd (cc)
by_found c (some i) va write md pa h =
    let e = entry_at c i in
    let n = u32 (sub32 (page_mask e) (bit_and va (page_mask e)) + 1) in
    (n, ap (λ x. some (x, n)) (access-address e va write md pa h))

-- Where a translation answers an address, the debugger is shown the same one.
pub peek-translate :
    (c : Ccn) (va : ℕ) (write md : Bool) (pa : ℕ)
    → (translate c va write md).0 ≡ physical pa
    → (n : ℕ) × (peek c va md ≡ some (pa, n))
unfolding translate peek
peek-translate c va write md pa h = by_found c (find c va md) va write md pa h
