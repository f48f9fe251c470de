-- ===== src/Flash/Delta/Saved.antt =====
-- Saving and loading the flash: the delta that is written brings the array back.
use casio_cg.Base.{
  ℕ, zero, suc, ◌+◌, ◌-◌, ◌*◌, ◌/◌, ◌^◌, ◌≤◌, ◌<◌, ◌≡◌, refl, sym, ap, ◌∙◌, subst, inl, inr, Bool,
  true, false, ◌&&◌, ◌||◌, Option, none, some, List, [], ◌∷◌, ◌++◌, arith, ltb, leb, ◌==◌, ◌!=◌,
  if◌then◌else◌, ==_iff, Bool-cases, length, get_or, true≢false,
}
use casio_cg.Bytes.{Buffer}
use casio_cg.Flash.{flash_mut_top}
use casio_cg.Flash.Delta.{
  flash_persist_page, fls_baseline, differs, slice, put_u32, delta_from, flash_delta_bytes, drop,
  get_u32, overlay, apply_records, apply_flash_delta, Applied,
}

pub length-slice : (a : ℕ → ℕ) (off n : ℕ) → length (slice a off n) ≡ n
unfolding slice
length-slice a off zero = refl
length-slice a off (suc n) = ap suc (length-slice a (off + 1) n)

length-append : (xs ys : List ℕ) → length (xs ++ ys) ≡ length xs + length ys
length-append [] ys = omega arith
length-append (x ∷ xs) ys = omega (arith, length-append xs ys)

get_slice :
    (a : ℕ → ℕ) (off n i : ℕ) (ys : List ℕ) → i < n → get_or (slice a off n ++ ys) i 0 ≡ a (off + i)
unfolding slice
get_slice a off zero i ys h = absurd (omega arith)
get_slice a off (suc n) zero ys h = ap a (omega arith)
get_slice a off (suc n) (suc i) ys h =
    get_slice a (off + 1) n i ys (omega arith) ∙ ap a (omega arith)

drop-slice : (a : ℕ → ℕ) (off n : ℕ) (ys : List ℕ) → drop n (slice a off n ++ ys) ≡ ys
unfolding slice drop
drop-slice a off zero ys = refl
drop-slice a off (suc n) ys = drop-slice a (off + 1) n ys

get_put : (v : ℕ) (rest : List ℕ) → v < 2 ^ 32 → get_u32 (put_u32 v rest) ≡ v
unfolding get_u32
get_put v rest h = omega arith

or_false : (a b : Bool) → (a || b) ≡ false → (a ≡ false) × (b ≡ false)
or_false true b h = absurd (true≢false h)
or_false false b h = (refl, h)

equal_of_test : (x y : ℕ) → (x != y) ≡ false → x ≡ y
equal_of_test x y h = ground arith

-- A page that does not differ holds the baseline.
same_bytes :
    (rom : Buffer) (a : ℕ → ℕ) (off n j : ℕ)
    → differs rom a off n ≡ false
    → off ≤ j
    → j < off + n
    → a j ≡ fls_baseline rom j
unfolding differs
same_bytes rom a off zero j h lo hi = absurd (omega arith)
same_bytes rom a off (suc n) j h lo hi =
    let parts = or_false (a off != fls_baseline rom off) (differs rom a (off + 1) n) h in
    elim (Bool-cases (j == off)) [
      | inl first ↦
          let e : j ≡ off = (==_iff j off).0 first in
          subst (λ k. a k ≡ fls_baseline rom k) (sym e)
            (equal_of_test (a off) (fls_baseline rom off) (parts.0))
      | inr later ↦ same_bytes rom a (off + 1) n j (parts.1) (ground arith) (omega arith)
    ]

-- One record: the page it holds is laid over the array.
one_record :
    (fuel page limit off p k : ℕ) (rest : List ℕ) (a base : ℕ → ℕ)
    → off < 2 ^ 32
    → off + page ≤ limit
    → apply_records (suc fuel) page limit (put_u32 off (slice a off page ++ rest)) p k base
      ≡ apply_records fuel page limit rest
          (p + 4 + page)
          (k + 1)
          (overlay page off (slice a off page ++ rest) base)
unfolding apply_records drop
one_record fuel page limit off p k rest a base small inside =
    let body = slice a off page ++ rest in
    let size : length body ≡ page + length rest =
      omega (arith, length-append (slice a off page) rest, length-slice a off page) in
    let whole : ltb (length (put_u32 off body)) (4 + page) ≡ false = ground arith in
    let at : get_u32 (put_u32 off body) ≡ off = get_put off body small in
    let fits : ltb limit (off + page) ≡ false = ground arith in
    rw (whole, at, fits, drop-slice a off page rest) refl

-- The array r after loading a stretch: the saved bytes in it, the old ones elsewhere.
abbrev pub Loads : Option Applied → ℕ → ℕ → (ℕ → ℕ) → (ℕ → ℕ) → Type 0
Loads o off len a base =
    (r : Applied) × (o ≡ some r)
    × (r.error ≡ none)
    × ((j : ℕ) → r.array j ≡ (if leb off j && ltb j (off + len) then a j else base j))

laid :
    (page off : ℕ) (rest : List ℕ) (a base : ℕ → ℕ) (j : ℕ)
    → overlay page off (slice a off page ++ rest) base j
      ≡ (if leb off j && ltb j (off + page) then a j else base j)
laid page off rest a base j = elim (Bool-cases (leb off j && ltb j (off + page))) [
  | inl inside ↦
      let near : j - off < page = ground arith in
      let back : off + (j - off) ≡ j = ground arith in
      rw inside (get_slice a off page (j - off) rest near ∙ ap a back)
  | inr outside ↦ rw outside refl
]

-- A page before the stretch that was loaded.
joined :
    (off page len j : ℕ) (a base mid : ℕ → ℕ)
    → mid j ≡ (if leb off j && ltb j (off + page) then a j else base j)
    → (if leb (off + page) j && ltb j (off + page + len) then a j else mid j)
      ≡ (if leb off j && ltb j (off + (page + len)) then a j else base j)
joined off page len j a base mid h = ground arith

base_is :
    (rom : Buffer) (a base : ℕ → ℕ) (page off j : ℕ)
    → ((i : ℕ) → off ≤ i → base i ≡ fls_baseline rom i)
    → differs rom a off page ≡ false
    → base j ≡ (if leb off j && ltb j (off + page) then a j else base j)
base_is rom a base page off j fresh same = elim (Bool-cases (leb off j && ltb j (off + page))) [
  | inl inside ↦
      let lo : off ≤ j = ground arith in
      let hi : j < off + page = ground arith in
      rw inside (fresh j lo ∙ sym (same_bytes rom a off page j same lo hi))
  | inr outside ↦ rw outside refl
]

above :
    (page off : ℕ) (rest : List ℕ) (rom : Buffer) (a base : ℕ → ℕ)
    → ((i : ℕ) → off ≤ i → base i ≡ fls_baseline rom i)
    → (i : ℕ) → off + page ≤ i
    → overlay page off (slice a off page ++ rest) base i ≡ fls_baseline rom i
above page off rest rom a base fresh i h =
    let outside : (leb off i && ltb i (off + page)) ≡ false = ground arith in
    rw outside (fresh i (omega arith))

widen :
    (o : Option Applied) (off page len : ℕ) (a base mid : ℕ → ℕ)
    → Loads o (off + page) len a mid
    → ((j : ℕ) → mid j ≡ (if leb off j && ltb j (off + page) then a j else base j))
    → Loads o off (page + len) a base
widen o off page len a base mid (r, e, fine, at) h =
    (r, e, fine, λ j. at j ∙ joined off page len j a base mid (h j))

module _ (page limit : ℕ) (rom : Buffer) (a : ℕ → ℕ) (small : limit < 2 ^ 32)
    (some_page : 1 ≤ page) where
  abbrev delta : ℕ → ℕ → List ℕ
  delta off n = delta_from page rom a off n

  -- The delta by whether the first page differs.
  changed_page :
      (off n : ℕ)
      → differs rom a off page ≡ true
      → delta off (suc n) ≡ put_u32 off (slice a off page ++ delta (off + page) n)
  unfolding delta_from
  changed_page off n h = rw h refl

  same_page_left :
      (off n : ℕ) → differs rom a off page ≡ false → delta off (suc n) ≡ delta (off + page) n
  unfolding delta_from
  same_page_left off n h = rw h refl

  more : (n : ℕ) → suc n * page ≡ page + n * page
  more n = grind arith

  pages_load :
      (n fuel off p k : ℕ) (base : ℕ → ℕ)
      → off + n * page ≤ limit
      → ((i : ℕ) → off ≤ i → base i ≡ fls_baseline rom i)
      → length (delta off n) ≤ fuel
      → Loads (apply_records fuel page limit (delta off n) p k base) off (n * page) a base
  unfolding delta_from apply_records
  pages_load zero fuel off p k base inside fresh fuelled =
      (record { array = base; pages = k; error = none }, refl, refl, λ j. ground arith)
  pages_load (suc n) fuel off p k base inside fresh fuelled =
      elim (Bool-cases (differs rom a off page)) [
        | inl changed ↦
            let e = changed_page off n changed in
            let after = delta (off + page) n in
            let body = slice a off page ++ after in
            let left : length (put_u32 off body) ≤ fuel = subst (λ l. length l ≤ fuel) e fuelled in
            let one : fuel ≡ suc (fuel - 1) = omega arith in
            let fewer : length after ≤ fuel - 1 =
              omega (arith, length-append (slice a off page) after) in
            let fits : off + page ≤ limit = omega (arith, more n) in
            let rest =
              pages_load n (fuel - 1) (off + page) (p + 4 + page) (k + 1)
                (overlay page off body base) (omega (arith, more n))
                (above page off after rom a base fresh) fewer in
            rw
              (
                e,
                more n,
                one,
                one_record (fuel - 1) page limit off p k after a base (omega arith) fits,
              )
              (widen _ off page (n * page) a base (overlay page off body base) rest
                (laid page off after a base))
        | inr same ↦
            let e = same_page_left off n same in
            let left : length (delta (off + page) n) ≤ fuel =
              subst (λ l. length l ≤ fuel) e fuelled in
            let rest =
              pages_load n fuel (off + page) p k base (omega (arith, more n))
                (λ i h. fresh i (omega arith)) left in
            rw (e, more n)
              (widen _ off page (n * page) a base base rest
                (λ j. base_is rom a base page off j fresh same))
      ]

whole_flash :
    (a base : ℕ → ℕ) (j : ℕ)
    → (if leb 0 j && ltb j (0 + flash_mut_top / flash_persist_page * flash_persist_page)
        then a j
        else base j)
      ≡ (if ltb j flash_mut_top then a j else base j)
whole_flash a base j = ground arith

-- The delta of a flash array, loaded into a flash as it comes up, a ROM image before erased bytes,
-- is accepted, and brings every byte of the array back.
pub apply-flash_delta :
    (rom : Buffer) (a : ℕ → ℕ)
    → (r : Applied) × (apply_flash_delta (flash_delta_bytes rom a) (fls_baseline rom) ≡ some r)
      × (r.error ≡ none)
      × ((j : ℕ) → r.array j ≡ (if ltb j flash_mut_top then a j else fls_baseline rom j))
unfolding apply_flash_delta flash_delta_bytes drop
apply-flash_delta rom a =
    let records = delta_from flash_persist_page rom a 0 (flash_mut_top / flash_persist_page) in
    let (r, e, fine, at) =
      pages_load flash_persist_page flash_mut_top rom a (omega arith) (omega arith)
        (flash_mut_top / flash_persist_page) (length records) 0 4 0 (fls_baseline rom) (omega arith)
        (λ i h. refl) (omega arith) in
    (r, e, fine, λ j. at j ∙ whole_flash a (fls_baseline rom) j)
