-- ===== src/Mmu/Saved/RoundTrip.antt =====
-- What `ccn.stateMap` saves is what `ccn.restoreState` brings back.
use casio_cg.Base.{
  ℕ, zero, suc, ◌+◌, ◌-◌, ◌*◌, ◌^◌, ◌≤◌, ◌<◌, bit_and, bit_or, ◌≡◌, refl, sym, ap, ap₂, ◌∙◌, subst,
  fun_ext, ◌⊎◌, inl, inr, true, false, ◌&&◌, none, some, List, [], ◌∷◌, arith, ltb, leb, ◌!=◌,
  if◌then◌else◌, Bool-cases, length, set, replicate, length-set, test_bit, test_bit-lt,
  bit_and_mask, u32, ◌<<<◌, RegMap, no_regs, reg, bit_or_fields, value, word_page, true≢false,
  and_bit, word_above, bit_or_null,
}
use casio_cg.Mmu.{ccn_pteh, ccn_mmucr, addr_word, no_entry, urc, new_entry, ldtlb, TlbEntry, Ccn}
use casio_cg.Mmu.Arrays.{word_of_fields}
use casio_cg.Mmu.Saved.{
  utlb_key, slot_key, put_entry, put_entries, state_map, is_utlb_key, load_entry, load_entries,
  restore_state, AllEntries, IsEntry, IsSavable,
}

slot_key_lem : (i : ℕ) → i < 64 → slot_key i ≡ utlb_key + i * 16
unfolding slot_key
slot_key_lem i h =
    let shifted : u32 (i <<< 4) ≡ i * 16 = omega arith in
    rw shifted (bit_or_fields 20 1 (i * 16) (omega arith))

-- A key of the entries, by its number.
is_utlb_key-of : (d : ℕ) → d < 1024 → is_utlb_key (utlb_key + d) ≡ true
unfolding is_utlb_key
is_utlb_key-of d h =
    let class : bit_and (utlb_key + d) 0xFFF00000 ≡ utlb_key =
      word_above 20 (utlb_key + d) (omega arith) ∙ omega arith in
    rw class refl

inside : (k : ℕ) → utlb_key ≤ k → k < utlb_key + 1024 → is_utlb_key k ≡ true
inside k a b =
    let d = k - utlb_key in
    let e : utlb_key + d ≡ k = omega arith in
    subst (λ x. is_utlb_key x ≡ true) e (is_utlb_key-of d (omega arith))

outside : (k : ℕ) → is_utlb_key k ≡ false → (k < utlb_key) ⊎ (utlb_key + 1024 ≤ k)
outside k h = elim (Bool-cases (leb utlb_key k && ltb k (utlb_key + 1024))) [
  | inl both ↦ absurd (true≢false (sym (inside k (ground arith) (ground arith)) ∙ h))
  | inr not_both ↦ ground arith
]

-- The address word of an entry gives its fields back.
word-fields :
    (e : TlbEntry)
    → IsEntry e
    → (bit_and (addr_word e) 0xFFFFFC00 ≡ e.vpn) × (bit_and (addr_word e) 0xFF ≡ e.asid)
word-fields e w =
    let v = test_bit e.word 8 in
    let d = test_bit e.word 2 in
    let hv = test_bit-lt e.word 8 in
    let hd = test_bit-lt e.word 2 in
    let word : addr_word e ≡ e.vpn + d * 2 ^ 9 + v * 2 ^ 8 + e.asid =
      word_of_fields e v d w.fits w.whole w.space hv hd (and_bit 8 e.word) (and_bit 2 e.word) in
    let f = w.fits in
    let p = w.whole in
    let s = w.space in
    (
      word_page (addr_word e) (omega arith) ∙ omega arith,
      bit_and_mask 8 (addr_word e) ∙ omega arith,
    )

-- An entry put under its keys, and nothing else of the map.
put_entry-other :
    (m : RegMap) (i : ℕ) (e : TlbEntry) (j : ℕ)
    → i < 64
    → (j < utlb_key + i * 16) ⊎ (utlb_key + i * 16 + 9 ≤ j)
    → put_entry m i e j ≡ m j
unfolding put_entry
put_entry-other m i e j h apart = rw (slot_key_lem i h) (ground arith)

no_word : (e : TlbEntry) → bit_or (bit_or (bit_or e.vpn e.asid) e.word) e.ptea ≡ 0 → no_entry ≡ e
no_word e h =
    let (a, p) = bit_or_null (bit_or (bit_or e.vpn e.asid) e.word) e.ptea h in
    let (b, w) = bit_or_null (bit_or e.vpn e.asid) e.word a in
    let (v, s) = bit_or_null e.vpn e.asid b in
    λ i. record { vpn = sym v i; asid = sym s i; word = sym w i; ptea = sym p i }

-- What is loaded from a slot depends on its three keys only.
load_entry_ext :
    (m m' : RegMap) (k : ℕ)
    → m k ≡ m' k
    → m (k + 4) ≡ m' (k + 4)
    → m (k + 8) ≡ m' (k + 8)
    → load_entry m k ≡ load_entry m' k
unfolding load_entry
load_entry_ext m m' k a b c = λ i. record {
  vpn = bit_and (value (a i)) 0xFFFFFC00;
  asid = bit_and (value (a i)) 0xFF;
  word = value (b i);
  ptea = value (c i);
}

load_entry-none :
    (m : RegMap) (k : ℕ)
    → m k ≡ none
    → m (k + 4) ≡ none
    → m (k + 8) ≡ none
    → load_entry m k ≡ no_entry
unfolding load_entry
load_entry-none m k a b c = load_entry_ext m no_regs k a b c

load_entry-some :
    (m : RegMap) (k : ℕ) (e : TlbEntry)
    → IsEntry e
    → m k ≡ some (addr_word e)
    → m (k + 4) ≡ some e.word
    → m (k + 8) ≡ some e.ptea
    → load_entry m k ≡ e
unfolding load_entry
load_entry-some m k e w a b c =
    let (v, s) = word-fields e w in
    λ i. record {
      vpn = (ap (λ x. bit_and (value x) 0xFFFFFC00) a ∙ v) i;
      asid = (ap (λ x. bit_and (value x) 0xFF) a ∙ s) i;
      word = value (b i);
      ptea = value (c i);
    }

-- An entry put into a map that has nothing at its keys is loaded again.
load-put_entry :
    (m : RegMap) (i : ℕ) (e : TlbEntry)
    → IsEntry e
    → m (slot_key i) ≡ none
    → m (slot_key i + 4) ≡ none
    → m (slot_key i + 8) ≡ none
    → load_entry (put_entry m i e) (slot_key i) ≡ e
unfolding put_entry
load-put_entry m i e w a b c =
    let k = slot_key i in
    let all = bit_or (bit_or (bit_or e.vpn e.asid) e.word) e.ptea in
    elim (Bool-cases (all != 0)) [
      | inl used ↦ rw used (load_entry-some _ k e w (ground arith) (ground arith) (ground arith))
      | inr empty ↦ rw empty (load_entry-none m k a b c ∙ no_word e (ground arith))
    ]

put_entries-other :
    (es : List TlbEntry) (m : RegMap) (i j : ℕ)
    → i + length es ≤ 64
    → (j < utlb_key + i * 16) ⊎ (utlb_key + 1024 ≤ j)
    → put_entries m i es j ≡ m j
unfolding put_entries
put_entries-other [] m i j h apart = refl
put_entries-other (e ∷ es) m i j h apart =
    put_entries-other es (put_entry m i e) (i + 1) j (omega arith) (ground arith)
    ∙ put_entry-other m i e j (omega arith) (ground arith)

-- The entries put from slot i on, into a map that has nothing at their keys, are loaded again.
load-put_entries :
    (es : List TlbEntry) (m : RegMap) (i n : ℕ)
    → length es ≡ n
    → i + n ≤ 64
    → AllEntries es
    → ((j : ℕ) → utlb_key + i * 16 ≤ j → j < utlb_key + 1024 → m j ≡ none)
    → load_entries (put_entries m i es) i n ≡ es
unfolding load_entries put_entries
load-put_entries [] m i zero e h w blank = refl
load-put_entries [] m i (suc n) e h w blank = absurd (omega arith)
load-put_entries (x ∷ es) m i zero e h w blank = absurd (omega arith)
load-put_entries (x ∷ es) m i (suc n) e h w blank =
    let m' = put_entry m i x in
    let key = slot_key_lem i (omega arith) in
    let kept : (j : ℕ) → j < utlb_key + (i + 1) * 16 → put_entries m' (i + 1) es j ≡ m' j =
      λ j b. put_entries-other es m' (i + 1) j (omega arith) (inl b) in
    let blank' : (j : ℕ) → utlb_key + (i + 1) * 16 ≤ j → j < utlb_key + 1024 → m' j ≡ none =
      λ j a b.
        put_entry-other m i x j (omega arith) (inr (omega arith)) ∙ blank j (omega arith) b in
    let first : load_entry (put_entries m' (i + 1) es) (slot_key i) ≡ x =
      load_entry_ext (put_entries m' (i + 1) es) m' (slot_key i) (kept _ (omega arith))
        (kept _ (omega arith)) (kept _ (omega arith))
      ∙ load-put_entry m i x w.0 (blank _ (omega arith) (omega arith))
          (blank _ (omega arith) (omega arith)) (blank _ (omega arith) (omega arith)) in
    ap₂ ◌∷◌ first (load-put_entries es m' (i + 1) n (omega arith) (omega arith) w.1 blank')

module _ {c : Ccn} (w : IsSavable c) where
  state_map-regs : (k : ℕ) → (if is_utlb_key k then none else state_map c k) ≡ c.regs k
  unfolding state_map
  state_map-regs k = elim (Bool-cases (is_utlb_key k)) [
    | inl key ↦ rw key (sym (w.no_entry_key k key))
    | inr reg_key ↦
        let apart : (k < utlb_key) ⊎ (utlb_key + 1024 ≤ k) = outside k reg_key in
        rw reg_key
          (put_entries-other c.utlb c.regs 0 k (omega (arith, w.full)) (ground (arith, apart)))
  ]

  state_map-utlb : load_entries (state_map c) 0 64 ≡ c.utlb
  unfolding state_map
  state_map-utlb =
      load-put_entries c.utlb c.regs 0 64 w.full (omega arith) w.entries
        λ j a b. w.no_entry_key j (inside j (omega arith) b)

-- Restoring the saved register map of an MMU that can be saved gives back its registers, its entries
-- and the AT flag; only the index of the last hit starts again at 0.
pub restore-state_map :
    {c : Ccn} → IsSavable c → restore_state (state_map c) ≡ record c { last = 0 }
unfolding restore_state
restore-state_map {c} w =
    let regs : Path RegMap (λ k. if is_utlb_key k then none else state_map c k) c.regs =
      fun_ext (state_map-regs w) in
    λ i. record {
      regs = regs i;
      utlb = state_map-utlb w i;
      translating = (ap (λ r. bit_and (reg r ccn_mmucr) 1 != 0) regs ∙ w.in_step) i;
      last = 0;
    }

AllEntries-set :
    (es : List TlbEntry) (i : ℕ) (e : TlbEntry)
    → AllEntries es
    → IsEntry e
    → AllEntries (set es i e)
AllEntries-set [] i e w h = tt
AllEntries-set (x ∷ es) zero e w h = (h, w.1)
AllEntries-set (x ∷ es) (suc i) e w h = (w.0, AllEntries-set es i e w.1 h)

pub AllEntries-replicate : (n : ℕ) (e : TlbEntry) → IsEntry e → AllEntries (replicate n e)
AllEntries-replicate zero e h = tt
AllEntries-replicate (suc n) e h = (h, AllEntries-replicate n e h)

new_entry-IsEntry : (c : Ccn) → reg c.regs ccn_pteh < 2 ^ 32 → IsEntry (new_entry c)
unfolding new_entry
new_entry-IsEntry c h =
    let page = word_page (reg c.regs ccn_pteh) h in
    let space = bit_and_mask 8 (reg c.regs ccn_pteh) in
    record { fits = omega arith; whole = omega arith; space = omega arith }

-- `ldtlb` keeps the MMU one that can be saved.
pub ldtlb-IsSavable : {c : Ccn} → IsSavable c → reg c.regs ccn_pteh < 2 ^ 32 → IsSavable (ldtlb c)
unfolding ldtlb
ldtlb-IsSavable {c} w h = record {
  full = length-set c.utlb (urc c) (new_entry c) ∙ w.full;
  entries = AllEntries-set c.utlb (urc c) (new_entry c) w.entries (new_entry-IsEntry c h);
  no_entry_key = w.no_entry_key;
  in_step = w.in_step;
}
