-- ===== src/Mmu/Lookup.antt =====
-- `find`: the entry of the last hit is tried first, which no translation can tell.
use casio_cg.Base.{
  ℕ, zero, suc, ◌+◌, ◌<◌, ◌≡◌, refl, sym, ap, ◌∙◌, subst, inl, inr, Bool, true, false, Option, none,
  some, List, [], ◌∷◌, arith, Bool-cases, length, get_or, true≢false,
}
use casio_cg.Mmu.{
  no_entry, entry_at, single_mode, matches, find_from, find, translate_found, translate, TlbEntry,
  Ccn,
}

-- At most one entry takes part in a translation. (On two the hardware resets.)
abbrev pub IsSingle : Ccn → ℕ → Bool → Type 0
IsSingle c va md =
    (i j : ℕ)
    → i < length c.utlb
    → j < length c.utlb
    → matches c (entry_at c i) va md ≡ true
    → matches c (entry_at c j) va md ≡ true
    → i ≡ j

-- What the loop finds: the first entry that matches, or that none does.
pub Finds : Ccn → List TlbEntry → ℕ → Bool → Option ℕ → ℕ → Type 0
Finds c es va md none i = (j : ℕ) → j < length es → matches c (get_or es j no_entry) va md ≡ false
Finds c es va md (some k) i =
    (j : ℕ) × (k ≡ i + j) × (j < length es) × (matches c (get_or es j no_entry) va md ≡ true)

Finds-cons :
    (c : Ccn) (e : TlbEntry) (es : List TlbEntry) (va : ℕ) (md : Bool) (i : ℕ) (r : Option ℕ)
    → matches c e va md ≡ false
    → Finds c es va md r (i + 1)
    → Finds c (e ∷ es) va md r i
unfolding Finds
Finds-cons c e es va md i none no_hit h = elim [
  | zero ↦ (λ hj. no_hit)
  | suc j ↦ (λ hj. h j (omega arith))
]
Finds-cons c e es va md i (some k) no_hit (j, hk, hj, hit) = (suc j, omega arith, omega arith, hit)

find_from-Finds :
    (c : Ccn) (es : List TlbEntry) (i va : ℕ) (md : Bool)
    → Finds c es va md (find_from c es i va md) i
unfolding find_from Finds
find_from-Finds c [] i va md = λ j h. absurd (omega arith)
find_from-Finds c (e ∷ es) i va md = elim (Bool-cases (matches c e va md)) [
  | inl yes_hit ↦ rw yes_hit (0, omega arith, omega arith, yes_hit)
  | inr no_hit ↦ rw no_hit (
      Finds-cons c e es va md i (find_from c es (i + 1) va md) no_hit
        (find_from-Finds c es (i + 1) va md))
]

-- What the loop finds from the start: the entry itself.
pub loop-Finds :
    (c : Ccn) (va : ℕ) (md : Bool) → Finds c c.utlb va md (find_from c c.utlb 0 va md) 0
loop-Finds c va md = find_from-Finds c c.utlb 0 va md

pub same_index :
    (c : Ccn) (va : ℕ) (md : Bool) (i : ℕ) (r : Option ℕ)
    → IsSingle c va md
    → i < length c.utlb
    → matches c (entry_at c i) va md ≡ true
    → Finds c c.utlb va md r 0
    → r ≡ some i
unfolding Finds
same_index c va md i none single hi hit h = absurd (true≢false (sym hit ∙ h i hi))
same_index c va md i (some k) single hi hit (j, hk, hj, hit') =
    let same = single j i hj hi hit' hit in ap some (omega arith)

-- Where at most one entry takes part, the search that starts at the last hit finds what the
-- search from the first entry on finds.
pub find_lem :
    (c : Ccn) (va : ℕ) (md : Bool)
    → c.last < length c.utlb
    → IsSingle c va md
    → find c va md ≡ find_from c c.utlb 0 va md
unfolding find
find_lem c va md hl single = elim (Bool-cases (matches c (entry_at c c.last) va md)) [
  | inl yes_hit ↦ rw yes_hit (
      sym (
        same_index c va md c.last (find_from c c.utlb 0 va md) single hl yes_hit
          (loop-Finds c va md)))
  | inr no_hit ↦ rw no_hit refl
]

find_from_last :
    (c : Ccn) (l : ℕ) (es : List TlbEntry) (i va : ℕ) (md : Bool)
    → find_from (record c { last = l }) es i va md ≡ find_from c es i va md
unfolding find_from matches single_mode
find_from_last c l [] i va md = refl
find_from_last c l (e ∷ es) i va md = rw (find_from_last c l es (i + 1) va md) refl

IsSingle-last :
    (c : Ccn) (l va : ℕ) (md : Bool) → IsSingle c va md → IsSingle (record c { last = l }) va md
unfolding matches single_mode
IsSingle-last c l va md single = single

find_last :
    (c : Ccn) (l va : ℕ) (md : Bool)
    → l < length c.utlb
    → c.last < length c.utlb
    → IsSingle c va md
    → find (record c { last = l }) va md ≡ find c va md
find_last c l va md hl hc single =
    find_lem (record c { last = l }) va md hl (IsSingle-last c l va md single)
    ∙ (find_from_last c l c.utlb 0 va md ∙ sym (find_lem c va md hc single))

outcome_found :
    (c : Ccn) (l : ℕ) (r : Option ℕ) (va : ℕ) (write md : Bool)
    → (translate_found (record c { last = l }) r va write md).0
      ≡ (translate_found c r va write md).0
outcome_found c l none va write md = refl
outcome_found c l (some i) va write md = refl

-- Where at most one entry takes part in a translation, no history of earlier hits can be told
-- from its outcome: neither the address nor the fault depends on the index of the last hit.
pub translate-last :
    (c : Ccn) (l va : ℕ) (write md : Bool)
    → l < length c.utlb
    → c.last < length c.utlb
    → IsSingle c va md
    → (translate (record c { last = l }) va write md).0 ≡ (translate c va write md).0
unfolding translate
translate-last c l va write md hl hc single =
    rw (find_last c l va md hl hc single) (outcome_found c l (find c va md) va write md)

-- On a miss no entry takes part.
pub all_miss :
    (c : Ccn) (va : ℕ) (md : Bool)
    → find c va md ≡ none
    → (j : ℕ) → j < length c.utlb
    → matches c (entry_at c j) va md ≡ false
unfolding find Finds
all_miss c va md h = elim (Bool-cases (matches c (entry_at c c.last) va md)) [
  | inl yes_hit ↦ let e : some c.last ≡ none = sym (rw yes_hit refl) ∙ h in absurd (cc)
  | inr no_hit ↦
      let e : find_from c c.utlb 0 va md ≡ none = sym (rw no_hit refl) ∙ h in
      subst (λ r. Finds c c.utlb va md r 0) e (loop-Finds c va md)
]
