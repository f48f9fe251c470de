-- ===== src/Bus/Lookup.antt =====
-- The lookup of a device: below P4 each segment shows the devices of the uncached one.
use mathlib.Core.Option
use casio_cg.Base.{
  ℕ, ◌+◌, ◌%◌, ◌^◌, ◌≤◌, ◌<◌, bit_and, bit_or, ◌≡◌, refl, sym, ap, ◌∙◌, ◌⊎◌, inl, inr, Bool, true,
  false, ◌&&◌, ◌||◌, Option, none, some, List, [], ◌∷◌, arith, ltb, leb, ltb→lt, Bool-cases,
  bit_and_mask, bit_or_fields, bit_or_comm, pick_off,
}
use casio_cg.Bus.{rtc, Device, regions, window, contains, find, uncached, find_hit_in, find_hit}
use casio_cg.Bus.Table.{is_rtc, within, and_both, find_lem}

-- No window meets the addresses from `lo` to `hi`.
none_in : List Device → ℕ → ℕ → Bool
none_in [] lo hi = true
none_in (d ∷ ds) lo hi =
    let rest = none_in ds lo hi in
    (leb ((window d).0 + (window d).1) lo || leb hi (window d).0) && rest

find-none :
    (ds : List Device) (lo hi va : ℕ)
    → none_in ds lo hi ≡ true
    → lo ≤ va
    → va < hi
    → find ds va ≡ none
unfolding find none_in
find-none [] lo hi va clear above below = refl
find-none (d ∷ ds) lo hi va clear above below =
    let both =
      and_both (leb ((window d).0 + (window d).1) lo || leb hi (window d).0) (none_in ds lo hi)
        clear in
    let misses : contains d va ≡ false = elim (Bool-cases (contains d va)) [
      | inr outside ↦ outside
      | inl inside ↦ let u = within d va inside in ground (arith, u, both.0)
    ] in
    pick_off (contains d va) (some d) (find ds va) misses ∙ find-none ds lo hi va both.1 above below

low_none : (va : ℕ) → va < 0xA0000000 → find regions va ≡ none
unfolding none_in window
low_none va h = find-none regions 0 0xA0000000 va refl (omega arith) h

high_none : (va : ℕ) → 0xC0000000 ≤ va → va < 0xE0000000 → find regions va ≡ none
unfolding none_in window
high_none va lo hi = find-none regions 0xC0000000 0xE0000000 va refl lo hi

low_bits : (va : ℕ) → bit_and va 0x1FFFFFFF ≡ va % 2 ^ 29
low_bits va = bit_and_mask 29 va

uncached_lem : (va : ℕ) → uncached va ≡ va % 2 ^ 29 + 0xA0000000
uncached_lem va =
    let sum : bit_or 0xA0000000 (va % 2 ^ 29) ≡ 0xA0000000 + va % 2 ^ 29 =
      bit_or_fields 29 5 (va % 2 ^ 29) (omega arith) in
    ap (λ x. bit_or x 0xA0000000) (low_bits va)
    ∙ bit_or_comm (va % 2 ^ 29) 0xA0000000
    ∙ sum
    ∙ omega arith

Option-cases : {A : Type 0} → (o : Option A) → (o ≡ none) ⊎ ((a : A) × (o ≡ some a))
Option-cases none = inl refl
Option-cases (some a) = inr (a, refl)

hit-miss : (c : ℕ) (cs : List ℕ) → find regions c ≡ none → find_hit_in (c ∷ cs) ≡ find_hit_in cs
unfolding find_hit_in
hit-miss c cs h = ap (λ o. elim o [ none ↦ find_hit_in cs | some d ↦ some (d, c) ]) h

hit-found :
    (c : ℕ) (cs : List ℕ) (d : Device)
    → find regions c ≡ some d
    → find_hit_in (c ∷ cs) ≡ some (d, c)
unfolding find_hit_in
hit-found c cs d h = ap (λ o. elim o [ none ↦ find_hit_in cs | some x ↦ some (x, c) ]) h

-- The uncached address and the physical one, when the address itself is in no window.
after_miss :
    (va : ℕ)
    → find_hit_in (uncached va ∷ bit_and va 0x1FFFFFFF ∷ [])
      ≡ Option.map (λ d. (d, uncached va)) (find regions (uncached va))
unfolding find_hit_in
after_miss va =
    let physical : find regions (bit_and va 0x1FFFFFFF) ≡ none =
      low_none (bit_and va 0x1FFFFFFF) (omega (arith, low_bits va)) in
    elim (Option-cases (find regions (uncached va))) [
      | inl nothing ↦
          hit-miss (uncached va) (bit_and va 0x1FFFFFFF ∷ []) nothing
          ∙ hit-miss (bit_and va 0x1FFFFFFF) [] physical
          ∙ sym (ap (Option.map (λ d. (d, uncached va))) nothing)
      | inr (d, hit) ↦
          hit-found (uncached va) (bit_and va 0x1FFFFFFF ∷ []) d hit
          ∙ sym (ap (Option.map (λ d. (d, uncached va))) hit)
    ]

-- Below P4 the devices are those of the uncached segment, by the low 29 bits of the address, and
-- the device sees the address in that segment.
find_hit_lem :
    (va : ℕ)
    → va < 0xE0000000
    → find_hit va ≡ Option.map (λ d. (d, uncached va)) (find regions (uncached va))
unfolding find_hit
find_hit_lem va low = elim (Bool-cases (leb 0xA0000000 va && ltb va 0xC0000000)) [
  | inr cached ↦
      let miss_direct : find regions va ≡ none = elim (Bool-cases (ltb va 0xA0000000)) [
        | inl below ↦ low_none va (ltb→lt va 0xA0000000 below)
        | inr above ↦ high_none va (ground (arith, cached, above)) low
      ] in
      hit-miss va (uncached va ∷ bit_and va 0x1FFFFFFF ∷ []) miss_direct ∙ after_miss va
  | inl itself ↦
      let w = and_both (leb 0xA0000000 va) (ltb va 0xC0000000) itself in
      let lo : 0xA0000000 ≤ va = ground (arith, w) in
      let hi = ltb→lt va 0xC0000000 w.1 in
      let same : uncached va ≡ va = uncached_lem va ∙ omega (arith, lo, hi) in
      elim (Option-cases (find regions va)) [
        | inl nothing ↦
            hit-miss va (uncached va ∷ bit_and va 0x1FFFFFFF ∷ []) nothing ∙ after_miss va
        | inr (d, hit) ↦
            hit-found va (uncached va ∷ bit_and va 0x1FFFFFFF ∷ []) d hit
            ∙ sym (
                ap (λ x. Option.map (λ d. (d, x)) (find regions x)) same
                ∙ ap (Option.map (λ d. (d, va))) hit)
      ]
]

-- A device answers at every address of its window, whatever stands before it in the table; and a
-- device of the uncached segment answers, with the address in that segment, at every address below
-- P4 of the same low 29 bits. Only the free counter gives way to the clock, whose window lies in
-- its own.
pub find_hit-contains :
    (d : Device) (va a : ℕ)
    → contains d va ≡ true
    → (is_rtc d ≡ true) ⊎ (contains rtc va ≡ false)
    → (a ≡ va)
      ⊎ ((a < 0xE0000000) × (0xA0000000 ≤ va) × (va < 0xC0000000) × (a % 2 ^ 29 ≡ va % 2 ^ 29))
    → find_hit a ≡ some (d, va)
unfolding find_hit
find_hit-contains d va a here w (inl same) =
    ap find_hit same
    ∙ hit-found va (uncached va ∷ bit_and va 0x1FFFFFFF ∷ []) d (find_lem d va here w)
find_hit-contains d va a here w (inr (low, lo, hi, same)) =
    let alias : uncached a ≡ va = uncached_lem a ∙ omega (arith, lo, hi, same) in
    find_hit_lem a low
    ∙ ap (λ x. Option.map (λ d. (d, x)) (find regions x)) alias
    ∙ ap (Option.map (λ d. (d, va))) (find_lem d va here w)
