-- ===== src/Rtc/Calendar.antt =====
-- The date loops of `rtc.read` against the definition of a date, and what a program that decodes
-- the BCD registers sees.
use casio_cg.Base.{
  ℕ, zero, suc, ◌+◌, ◌-◌, ◌*◌, ◌/◌, ◌%◌, ◌^◌, ◌≤◌, ◌<◌, ◌≡◌, ap, ◌∙◌, inl, inr, true, false, List,
  [], ◌∷◌, arith, ltb, leb, ltb→lt, lt→ltb, Bool-cases, get_or, u64, bit_or_fields,
}
use casio_cg.Rtc.{bcd, year_length, year_loop, month_lengths, month_loop, date_of, Date}

-- The days of the n years from year y on.
unfoldable pub days_of_years : ℕ → ℕ → ℕ
days_of_years y zero = 0
days_of_years y (suc n) = year_length y + days_of_years (y + 1) n

-- The sum of n entries of a list from index m on.
unfoldable pub span : List ℕ → ℕ → ℕ → ℕ
span ls m zero = 0
span ls m (suc n) = get_or ls m 0 + span ls (m + 1) n

-- The days from 2010-01-01 to a date: those of whole years and of whole months, and the rest.
unfoldable pub day_number : Date → ℕ
day_number d =
    days_of_years 2010 (d.year - 2010) + span (month_lengths d.year) 0 (d.month - 1) + (d.day - 1)

-- A date of the calendar, from 2010 on.
pub record IsDate (d : Date) : Type 0 where
  pub in_era : 2010 ≤ d.year
  pub month_pos : 1 ≤ d.month
  pub month_le : d.month ≤ 12
  pub day_pos : 1 ≤ d.day
  pub day_le : d.day ≤ get_or (month_lengths d.year) (d.month - 1) 0

year_length_bounds : (y : ℕ) → (365 ≤ year_length y) × (year_length y ≤ 366)
unfolding year_length
year_length_bounds y = ground arith

span-month_lengths : (y : ℕ) → span (month_lengths y) 0 12 ≡ year_length y
unfolding span month_lengths year_length
span-month_lengths y = ground arith

-- What the loop over the years finds.
year_loop_sound :
    (fuel days y : ℕ)
    → days < fuel
    → (n : ℕ) × ((year_loop fuel days y).year ≡ y + n)
      × (days ≡ days_of_years y n + (year_loop fuel days y).day)
      × ((year_loop fuel days y).day < year_length (y + n))
unfolding year_loop days_of_years
year_loop_sound zero days y h = absurd (omega arith)
year_loop_sound (suc fuel) days y h = elim (Bool-cases (ltb days (year_length y))) [
  | inl here ↦
      let stays : y + 0 ≡ y = omega arith in
      rw here (0, omega arith, omega arith, rw stays (ltb→lt days (year_length y) here))
  | inr on ↦
      let bounds = year_length_bounds y in
      let past : year_length y ≤ days = ground arith in
      let (n, e, f, g) = year_loop_sound fuel (days - year_length y) (y + 1) (omega arith) in
      let shift : y + 1 + n ≡ y + suc n = omega arith in
      rw on (suc n, e ∙ shift, omega arith, rw shift at g)
]

month_loop_sound :
    (ls : List ℕ) (n days m : ℕ)
    → days < span ls m (suc n)
    → (k : ℕ) × (k ≤ n)
      × ((month_loop ls n days m).month ≡ m + k)
      × (days ≡ span ls m k + (month_loop ls n days m).day)
      × ((month_loop ls n days m).day < get_or ls (m + k) 0)
unfolding month_loop span
month_loop_sound ls zero days m h =
    let stays : m + 0 ≡ m = omega arith in
    (0, omega arith, omega arith, omega arith, rw stays (omega arith))
month_loop_sound ls (suc n) days m h = elim (Bool-cases (leb (get_or ls m 0) days)) [
  | inr here ↦
      let stays : m + 0 ≡ m = omega arith in
      rw here (0, omega arith, omega arith, omega arith, rw stays (ground arith))
  | inl on ↦
      let past : get_or ls m 0 ≤ days = ground arith in
      let (k, lt, e, f, g) = month_loop_sound ls n (days - get_or ls m 0) (m + 1) (omega arith) in
      let shift : m + 1 + k ≡ m + suc k = omega arith in
      rw on (suc k, omega arith, e ∙ shift, omega arith, rw shift at g)
]

-- The date that the clock shows for a day is a date of the calendar, and it is that day: counting
-- the days up to it gives the day back.
pub date_of_lem : (days : ℕ) → IsDate (date_of days) × (day_number (date_of days) ≡ days)
unfolding date_of day_number
date_of_lem days =
    let yd = year_loop (suc days) days 2010 in
    let ls = month_lengths yd.year in
    let (n, e, f, g) = year_loop_sound (suc days) days 2010 (omega arith) in
    let in_year : yd.day < span ls 0 12 = rw (span-month_lengths yd.year, e) g in
    let (k, le, e', f', g') = month_loop_sound ls 11 yd.day 0 in_year in
    let years : yd.year - 2010 ≡ n = omega arith in
    let months : (month_loop ls 11 yd.day 0).month + 1 - 1 ≡ 0 + k = omega arith in
    let months' : (month_loop ls 11 yd.day 0).month + 1 - 1 ≡ k = omega arith in
    (
      record {
        in_era = omega arith;
        month_pos = omega arith;
        month_le = omega arith;
        day_pos = omega arith;
        day_le = rw months (omega arith);
      },
      omega (arith, ap (days_of_years 2010) years, ap (span ls 0) months'),
    )

-- The number that a byte of BCD digits stands for.
pub from_bcd : ℕ → ℕ
from_bcd b = b / 16 * 10 + b % 16

-- Two decimal digits.
pub bcd_lem : (v : ℕ) → v < 100 → (from_bcd (bcd v) ≡ v) × (bcd v < 0xA0) × (bcd v % 16 < 10)
unfolding from_bcd bcd
bcd_lem v h =
    let small : u64 ((v / 10) * 2 ^ 4) ≡ (v / 10) * 2 ^ 4 = omega arith in
    let sum = bit_or_fields 4 (v / 10) (v % 10) (omega arith) in rw (small, sum) (omega arith)

year_loop_at :
    (n y d fuel : ℕ)
    → d < year_length (y + n)
    → days_of_years y n + d < fuel
    → year_loop fuel (days_of_years y n + d) y ≡ record { year = y + n; day = d }
unfolding year_loop days_of_years
year_loop_at n y d zero h enough = absurd (omega arith)
year_loop_at zero y d (suc fuel) h enough =
    let stays : y + 0 ≡ y = omega arith in
    let flat : 0 + d ≡ d = omega arith in
    let here : ltb d (year_length y) ≡ true = lt→ltb d (year_length y) (rw stays at h) in
    rw (flat, stays, here)
year_loop_at (suc n) y d (suc fuel) h enough =
    let bounds = year_length_bounds y in
    let rest : ℕ = days_of_years (y + 1) n + d in
    let total : year_length y + days_of_years (y + 1) n + d ≡ year_length y + rest = omega arith in
    let on : ltb (year_length y + rest) (year_length y) ≡ false = ground arith in
    let left : year_length y + rest - year_length y ≡ rest = omega arith in
    let shift : y + 1 + n ≡ y + suc n = omega arith in
    rw (total, on, left)
      (year_loop_at n (y + 1) d fuel (rw shift h) (omega arith)
        ∙ ap (λ k. record { year = k; day = d }) shift)

month_loop_at :
    (ls : List ℕ) (n k m d : ℕ)
    → k ≤ n
    → d < get_or ls (m + k) 0
    → month_loop ls n (span ls m k + d) m ≡ record { month = m + k; day = d }
unfolding month_loop span
month_loop_at ls zero zero m d le h = ground arith
month_loop_at ls zero (suc k) m d le h = absurd (omega arith)
month_loop_at ls (suc n) zero m d le h =
    let stays : m + 0 ≡ m = omega arith in
    let flat : 0 + d ≡ d = omega arith in
    let h' : d < get_or ls m 0 = rw stays at h in
    let here : leb (get_or ls m 0) d ≡ false = ground arith in rw (flat, stays, here)
month_loop_at ls (suc n) (suc k) m d le h =
    let rest : ℕ = span ls (m + 1) k + d in
    let total : get_or ls m 0 + span ls (m + 1) k + d ≡ get_or ls m 0 + rest = omega arith in
    let on : leb (get_or ls m 0) (get_or ls m 0 + rest) ≡ true = ground arith in
    let left : get_or ls m 0 + rest - get_or ls m 0 ≡ rest = omega arith in
    let shift : m + 1 + k ≡ m + suc k = omega arith in
    rw (total, on, left)
      (month_loop_at ls n k (m + 1) d (omega arith) (rw shift h)
        ∙ ap (λ j. record { month = j; day = d }) shift)

span_lt :
    (ls : List ℕ) (n k m d : ℕ)
    → k ≤ n
    → d < get_or ls (m + k) 0
    → span ls m k + d < span ls m (suc n)
unfolding span
span_lt ls n zero m d le h =
    let stays : m + 0 ≡ m = omega arith in let h' : d < get_or ls m 0 = rw stays at h in omega arith
span_lt ls zero (suc k) m d le h = absurd (omega arith)
span_lt ls (suc n) (suc k) m d le h =
    let shift : m + 1 + k ≡ m + suc k = omega arith in
    omega (arith, span_lt ls n k (m + 1) d (omega arith) (rw shift h))

-- The other way round: the clock shows every date of the calendar on the day that it is.
date_of-day_number : (d : Date) → IsDate d → date_of (day_number d) ≡ d
unfolding date_of day_number
date_of-day_number d w =
    let ls : List ℕ = month_lengths d.year in
    let n : ℕ = d.year - 2010 in
    let k : ℕ = d.month - 1 in
    let rest : ℕ = span ls 0 k + (d.day - 1) in
    let era : 2010 + n ≡ d.year = omega arith in
    let flat : 0 + k ≡ k = omega arith in
    let in_month : d.day - 1 < get_or ls (0 + k) 0 = rw flat (omega arith) in
    let in_year : rest < year_length (2010 + n) =
      rw (era, ← span-month_lengths d.year)
        (span_lt ls 11 k 0 (d.day - 1) (omega arith) in_month) in
    let total : days_of_years 2010 n + span ls 0 k + (d.day - 1) ≡ days_of_years 2010 n + rest =
      omega arith in
    let years =
      year_loop_at n 2010 rest (suc (days_of_years 2010 n + rest)) in_year (omega arith) in
    let months = month_loop_at ls 11 k 0 (d.day - 1) (omega arith) in_month in
    rw (total, years, era, months) (ground arith)

AllAtMost : ℕ → List ℕ → Type 0
AllAtMost b [] = Unit
AllAtMost b (x ∷ xs) = (x ≤ b) × AllAtMost b xs

get_or-le : (b : ℕ) (xs : List ℕ) (i : ℕ) → AllAtMost b xs → get_or xs i 0 ≤ b
unfolding AllAtMost
get_or-le b [] i h = omega arith
get_or-le b (x ∷ xs) zero h = h.0
get_or-le b (x ∷ xs) (suc i) h = get_or-le b xs i h.1

pub month_length_le : (y i : ℕ) → get_or (month_lengths y) i 0 ≤ 31
month_length_le y i =
    get_or-le 31 (month_lengths y) i (unfold AllAtMost month_lengths in ground arith)
