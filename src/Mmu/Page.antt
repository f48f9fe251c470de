-- ===== src/Mmu/Page.antt =====
-- Pages: what `matches` and the address of `translate` come to in terms of page numbers.
use casio_cg.Base.{
  ℕ, zero, suc, ◌+◌, ◌-◌, ◌*◌, ◌/◌, ◌%◌, ◌^◌, ◌≤◌, ◌<◌, bit_and, bit_or, ◌≡◌, refl, Bool, ◌&&◌,
  ◌||◌, [], ◌∷◌, arith, ◌==◌, get_or, and_not, bit_and_step, bit_and-zero, bit_and_mask, bit_or-lt,
  ◌>>>◌, reg, page_address, same_page,
}
use casio_cg.Mmu.{
  ccn_pteh, is_valid, is_shared, page_masks, page_mask, ppn, single_mode, matches, TlbEntry, Ccn,
}

size_index : TlbEntry → ℕ
size_index e = bit_or (bit_and (e.word >>> 6) 2) (bit_and (e.word >>> 4) 1)

bits_of : ℕ → ℕ
bits_of i = get_or (10 ∷ 12 ∷ 16 ∷ 20 ∷ []) i 0

-- The bits of an offset in the entry's page: 10, 12, 16 or 20.
pub page_bits : TlbEntry → ℕ
unfolding size_index bits_of
page_bits e = bits_of (size_index e)

and_two : (x : ℕ) → bit_and x 2 ≤ 2
and_two x = omega (arith, bit_and_step x 2, bit_and_step (x / 2) 1, bit_and-zero (x / 2 / 2))

size_index-lt : (e : TlbEntry) → size_index e < 4
unfolding size_index
size_index-lt e =
    bit_or-lt 2 (bit_and (e.word >>> 6) 2) (bit_and (e.word >>> 4) 1)
      (omega (arith, and_two (e.word >>> 6))) (omega (arith, bit_and_mask 1 (e.word >>> 4)))

size_mask : (i : ℕ) → i < 4 → get_or page_masks i 0 ≡ 2 ^ bits_of i - 1
unfolding bits_of
size_mask zero h = refl
size_mask (suc zero) h = refl
size_mask (suc (suc zero)) h = refl
size_mask (suc (suc (suc zero))) h = refl
size_mask (suc (suc (suc (suc i)))) h = absurd (omega arith)

size_whole : (i : ℕ) → i < 4 → (q : ℕ) → q * 2 ^ bits_of i / 2 ^ 10 * 2 ^ 10 ≡ q * 2 ^ bits_of i
unfolding bits_of
size_whole zero h q = omega arith
size_whole (suc zero) h q = omega arith
size_whole (suc (suc zero)) h q = omega arith
size_whole (suc (suc (suc zero))) h q = omega arith
size_whole (suc (suc (suc (suc i)))) h q = absurd (omega arith)

size_floor : (i : ℕ) → i < 4 → (a : ℕ) → a / 2 ^ 10 * 2 ^ 10 / 2 ^ bits_of i ≡ a / 2 ^ bits_of i
unfolding bits_of
size_floor zero h a = omega arith
size_floor (suc zero) h a = omega arith
size_floor (suc (suc zero)) h a = omega arith
size_floor (suc (suc (suc zero))) h a = omega arith
size_floor (suc (suc (suc (suc i)))) h a = absurd (omega arith)

-- A page is a whole number of the 1 KB steps of the page number field.
pub page_floor :
    (e : TlbEntry) (a : ℕ) → a / 2 ^ 10 * 2 ^ 10 / 2 ^ page_bits e ≡ a / 2 ^ page_bits e
unfolding page_bits
page_floor e a = size_floor (size_index e) (size_index-lt e) a

pub page_mask-bits : (e : TlbEntry) → page_mask e ≡ 2 ^ page_bits e - 1
unfolding page_mask page_bits
page_mask-bits e = size_mask (size_index e) (size_index-lt e)

-- An entry takes part in a translation exactly if it is valid, the address lies in its page, and
-- its address space is the current one, unless the page is shared or the access is privileged in
-- single virtual mode.
pub matches_lem :
    (c : Ccn) (e : TlbEntry) (va : ℕ) (md : Bool)
    → va < 2 ^ 32
    → e.vpn < 2 ^ 32
    → matches c e va md ≡ (
        is_valid e
        && ((va / 2 ^ page_bits e == e.vpn / 2 ^ page_bits e)
            && (is_shared e || ((md && single_mode c) || (e.asid == reg c.regs ccn_pteh % 2 ^ 8)))))
unfolding matches page_bits
matches_lem c e va md hva hvpn =
    let i = size_index e in
    let mask : page_mask e ≡ 2 ^ bits_of i - 1 = page_mask-bits e in
    let asid : bit_and (reg c.regs ccn_pteh) 0xFF ≡ reg c.regs ccn_pteh % 2 ^ 8 =
      bit_and_mask 8 (reg c.regs ccn_pteh) in
    rw (mask, same_page (bits_of i) va e.vpn (size_whole i (size_index-lt e)) hva hvpn, asid) refl

-- The address of an access that is granted: the frame of the page, and the offset in the page.
frame_address :
    (e : TlbEntry) (va : ℕ)
    → bit_or (and_not (ppn e) (page_mask e)) (bit_and va (page_mask e))
      ≡ ppn e / 2 ^ page_bits e * 2 ^ page_bits e + va % 2 ^ page_bits e
frame_address e va = rw (page_mask-bits e) (page_address (page_bits e) (ppn e) va)
