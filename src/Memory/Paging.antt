-- ===== src/Memory/Paging.antt =====
-- A load through the MMU: the page that a handler maps after a miss is the memory that the load
-- reads when it is made again.
use casio_cg.Base.{
  ℕ, ◌^◌, ◌<◌, bit_and, bit_or, ◌≡◌, refl, ap, ◌∙◌, true, false, none, ◌!=◌, length,
}
use casio_cg.Cpu.State.{Cpu}
use casio_cg.Cpu.Bus.{MmuFault, miss}
use casio_cg.Mmu.{ccn_write, urc, ldtlb, find, access, miss_of, translate, note_fault, physical}
use casio_cg.Mmu.Paging.{refill, refilled, refill_lem, translate-miss}
use casio_cg.Memory.{translated, priv, read_at, through, load, Memory, Mmio}

module _ {D : Type 0} (bus : Mmio D) (c : Cpu) (m : Memory D) where
  load_translated :
      (va size : ℕ)
      → translated m va ≡ true
      → load bus c m va size
        ≡ through bus (translate m.mmu va false (priv c)) m (λ m' pa. read_at bus m' pa size)
  unfolding load
  load_translated va size h = rw h refl

  missed_load :
      (va size : ℕ)
      → translated m va ≡ true
      → find m.mmu va (priv c) ≡ none
      → load bus c m va size ≡ miss (miss_of va false) m
  missed_load va size h none_hit =
      load_translated va size h
      ∙ ap (λ t. through bus t m (λ m' pa. read_at bus m' pa size))
          (translate-miss m.mmu va false (priv c) none_hit)

kept_on :
    {D : Type 0} (m : Memory D) (f : MmuFault) (ptel va : ℕ)
    → translated (record m { mmu = refill m.mmu f ptel }) va ≡ translated m va
unfolding translated refill ccn_write ldtlb note_fault
kept_on m f ptel va = refl

-- A load at an address that none of the 64 entries maps ends in the miss and changes nothing. After the
-- exception, a PTEL with its valid bit set and `ldtlb`, the same load reads the memory at the
-- address that the new entry gives, if its protection grants the access.
pub load-refill :
    {D : Type 0} (bus : Mmio D) (c : Cpu) (m : Memory D) (va size ptel pa : ℕ)
    → va < 2 ^ 32
    → translated m va ≡ true
    → find m.mmu va (priv c) ≡ none
    → (bit_and ptel 0x100 != 0) ≡ true
    → length m.mmu.utlb ≡ 64
    → m.mmu.last < 64
    → access (refilled m.mmu (miss_of va false) ptel) va false (priv c) ≡ physical pa
    → (load bus c m va size ≡ miss (miss_of va false) m)
      × (load bus c (record m { mmu = refill m.mmu (miss_of va false) ptel }) va size
          ≡ read_at bus
              (record m {
                mmu = record (refill m.mmu (miss_of va false) ptel) { last = urc m.mmu };
              })
              (bit_or 0xA0000000 pa)
              size)
load-refill bus c m va size ptel pa fits on none_hit valid full hl granted =
    let f = miss_of va false in
    let m' = record m { mmu = refill m.mmu f ptel } in
    let k = λ (x : Memory _) (a : ℕ). read_at bus x a size in
    (
      missed_load bus c m va size on none_hit,
      load_translated bus c m' va size (kept_on m f ptel va ∙ on)
          ∙ ap (λ t. through bus t m' k)
              (refill_lem m.mmu f ptel false (priv c) fits valid full hl none_hit)
          ∙ ap (λ t. through bus (t, record (refill m.mmu f ptel) { last = urc m.mmu }) m' k)
              granted,
    )
