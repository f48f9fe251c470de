-- ===== src/Bus/Table.antt =====
-- The table of the regions: it finds every device at each address of its window, whatever the order.
use casio_cg.Base.{
  ℕ, zero, suc, ◌+◌, ◌≤◌, ◌<◌, ◌≡◌, refl, sym, ap, ◌∙◌, subst, ◌⊎◌, inl, inr, Bool, true, false,
  not, ◌&&◌, ◌||◌, none, some, List, [], ◌∷◌, arith, leb, Bool-cases, get_elem?, true≢false,
  pick_on, pick_off,
}
use casio_cg.Bus.{
  cpuopm, cpg, pfc, wdt, intc, tmu, etmu, etmu2, periph_irq, rtc, free_counter, intx, keysc,
  bcd_alu, bsc, dmac, ccn, utlb, lcd, ubc, Device, regions, window, contains, find,
}

abbrev pub is_rtc : Device → Bool
is_rtc rtc = true
is_rtc _ = false

pub within :
    (d : Device) (va : ℕ)
    → contains d va ≡ true
    → ((window d).0 ≤ va) × (va < (window d).0 + (window d).1)
unfolding contains
within d va h = ground (arith, h)

abbrev apart : Device → Device → Bool
apart a b =
    leb ((window a).0 + (window a).1) (window b).0 || leb ((window b).0 + (window b).1) (window a).0

apart-contains :
    (a b : Device) (va : ℕ) → apart a b ≡ true → contains b va ≡ true → contains a va ≡ false
apart-contains a b va h here = elim (Bool-cases (contains a va)) [
  | inr outside ↦ outside
  | inl inside ↦ let u = within a va inside in let v = within b va here in ground (arith, h, u, v)
]

pub and_both : (a b : Bool) → (a && b) ≡ true → (a ≡ true) × (b ≡ true)
and_both true b h = (refl, h)
and_both false b h = elim (true≢false (sym h)) [ ]

and_first : (a b : Bool) → (a && b) ≡ true → a ≡ true
and_first a b h = (and_both a b h).0

and_false : (a : Bool) → (a && false) ≡ false
and_false true = refl
and_false false = refl

-- What stands before a region in the table has another window, or is the clock.
clear_to : List Device → ℕ → Device → Bool
clear_to [] i d = false
clear_to (a ∷ ds) zero d = true
clear_to (a ∷ ds) (suc i) d =
    let rest = clear_to ds i d in (apart a d || (is_rtc a && not (is_rtc d))) && rest

-- The place of a region in the table.
place : Device → ℕ
place cpuopm = 0
place cpg = 1
place pfc = 2
place wdt = 3
place intc = 4
place tmu = 5
place etmu = 6
place etmu2 = 7
place periph_irq = 8
place rtc = 9
place free_counter = 10
place intx = 11
place keysc = 12
place bcd_alu = 13
place bsc = 14
place dmac = 15
place ccn = 16
place utlb = 17
place lcd = 18
place ubc = 19

in_place : (d : Device) → get_elem? regions (place d) ≡ some d
unfolding place
in_place cpuopm = refl
in_place cpg = refl
in_place pfc = refl
in_place wdt = refl
in_place intc = refl
in_place tmu = refl
in_place etmu = refl
in_place etmu2 = refl
in_place periph_irq = refl
in_place rtc = refl
in_place free_counter = refl
in_place intx = refl
in_place keysc = refl
in_place bcd_alu = refl
in_place bsc = refl
in_place dmac = refl
in_place ccn = refl
in_place utlb = refl
in_place lcd = refl
in_place ubc = refl

is_clear : (d : Device) → clear_to regions (place d) d ≡ true
unfolding place clear_to window
is_clear cpuopm = refl
is_clear cpg = refl
is_clear pfc = refl
is_clear wdt = refl
is_clear intc = refl
is_clear tmu = refl
is_clear etmu = refl
is_clear etmu2 = refl
is_clear periph_irq = refl
is_clear rtc = refl
is_clear free_counter = refl
is_clear intx = refl
is_clear keysc = refl
is_clear bcd_alu = refl
is_clear bsc = refl
is_clear dmac = refl
is_clear ccn = refl
is_clear utlb = refl
is_clear lcd = refl
is_clear ubc = refl

-- The clock alone may hide a region.
clock_misses :
    (a : Device) (va : ℕ) → is_rtc a ≡ true → contains rtc va ≡ false → contains a va ≡ false
clock_misses cpuopm va h w = elim (true≢false (sym h)) [ ]
clock_misses cpg va h w = elim (true≢false (sym h)) [ ]
clock_misses pfc va h w = elim (true≢false (sym h)) [ ]
clock_misses wdt va h w = elim (true≢false (sym h)) [ ]
clock_misses intc va h w = elim (true≢false (sym h)) [ ]
clock_misses tmu va h w = elim (true≢false (sym h)) [ ]
clock_misses etmu va h w = elim (true≢false (sym h)) [ ]
clock_misses etmu2 va h w = elim (true≢false (sym h)) [ ]
clock_misses periph_irq va h w = elim (true≢false (sym h)) [ ]
clock_misses rtc va h w = w
clock_misses free_counter va h w = elim (true≢false (sym h)) [ ]
clock_misses intx va h w = elim (true≢false (sym h)) [ ]
clock_misses keysc va h w = elim (true≢false (sym h)) [ ]
clock_misses bcd_alu va h w = elim (true≢false (sym h)) [ ]
clock_misses bsc va h w = elim (true≢false (sym h)) [ ]
clock_misses dmac va h w = elim (true≢false (sym h)) [ ]
clock_misses ccn va h w = elim (true≢false (sym h)) [ ]
clock_misses utlb va h w = elim (true≢false (sym h)) [ ]
clock_misses lcd va h w = elim (true≢false (sym h)) [ ]
clock_misses ubc va h w = elim (true≢false (sym h)) [ ]

misses :
    (a d : Device) (va : ℕ)
    → (apart a d || (is_rtc a && not (is_rtc d))) ≡ true
    → contains d va ≡ true
    → (is_rtc d ≡ true) ⊎ (contains rtc va ≡ false)
    → contains a va ≡ false
misses a d va h here w = elim (Bool-cases (apart a d)) [
  | inl far ↦ apart-contains a d va far here
  | inr near ↦
      let clock : (is_rtc a && not (is_rtc d)) ≡ true =
        subst (λ t. (t || (is_rtc a && not (is_rtc d))) ≡ true) near h in
      elim w [
        | inl same ↦
            elim (true≢false
              (sym clock ∙ ap (λ t. is_rtc a && not t) same ∙ and_false (is_rtc a))) [ ]
        | inr away ↦ clock_misses a va (and_first (is_rtc a) (not (is_rtc d)) clock) away
      ]
]

find-place :
    (ds : List Device) (i : ℕ) (d : Device) (va : ℕ)
    → get_elem? ds i ≡ some d
    → clear_to ds i d ≡ true
    → contains d va ≡ true
    → (is_rtc d ≡ true) ⊎ (contains rtc va ≡ false)
    → find ds va ≡ some d
unfolding find clear_to
find-place [] i d va at clear here w = elim (true≢false (sym clear)) [ ]
find-place (a ∷ ds) zero d va at clear here w =
    let same : a ≡ d = ap (λ o. elim o [ none ↦ a | some x ↦ x ]) at in
    pick_on (contains a va) (some a) (find ds va)
      (subst (λ x. contains x va ≡ true) (sym same) here)
    ∙ at
find-place (a ∷ ds) (suc i) d va at clear here w =
    let both = and_both (apart a d || (is_rtc a && not (is_rtc d))) (clear_to ds i d) clear in
    pick_off (contains a va) (some a) (find ds va) (misses a d va both.0 here w)
    ∙ find-place ds i d va at both.1 here w

-- Every device answers at each address of its window, whatever stands before it in the table; only
-- the free counter gives way to the clock, whose window lies in its own.
pub find_lem :
    (d : Device) (va : ℕ)
    → contains d va ≡ true
    → (is_rtc d ≡ true) ⊎ (contains rtc va ≡ false)
    → find regions va ≡ some d
find_lem d va here w = find-place regions (place d) d va (in_place d) (is_clear d) here w
