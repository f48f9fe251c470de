-- ===== src/Emulator/Hold.antt =====
-- The host's keys: a fast tap stays down for its minimum hold, and a press that has to wait comes
-- after what waits before it.
use casio_cg.Base.{
  ℕ, ◌+◌, ◌-◌, ◌*◌, ◌^◌, ◌≤◌, ◌<◌, max, ◌≡◌, refl, ap, ap₂, ◌∙◌, inl, inr, true, false, ◌&&◌, none,
  some, List, [], ◌∷◌, ◌++◌, arith, ltb, leb, ◌==◌, if◌then◌else◌, lt→ltb, Bool-cases, length, u64,
  sub64, pick_on, pick_off,
}
use casio_cg.Keysc.{press, release, tap_hold_scans, tap_gap_scans, Keysc}
use casio_cg.Board.{flush_downs, flush_ups, flush_releases, Release, Press, Keys}
use casio_cg.Emulator.{same_key, hold_time, last_up, last_down, key_down, mark_up, let_go, key_up}

scan_period-press : (k : Keysc) (r c : ℕ) → (press k r c).scan_period ≡ k.scan_period
unfolding press
scan_period-press k r c = elim (Bool-cases (ltb r 8 && ltb c 12)) [
  | inl inside ↦ rw inside refl
  | inr outside ↦ rw outside refl
]

hold_time-press : (k : Keysc) (r c : ℕ) → hold_time (press k r c) ≡ hold_time k
hold_time-press k r c = ap (λ n. u64 (tap_hold_scans * n)) (scan_period-press k r c)

same_key_self : (a : ℕ × ℕ) → same_key a a ≡ true
same_key_self a = ground arith

-- The flush with one release waiting.
flush-one :
    (q : Keys) (k : Keysc) (p : Release) (t : ℕ)
    → (flush_releases (record q { ups = p ∷ []; downs = [] }) k t).1
      ≡ (if leb p.at t then release k (p.key.0) (p.key.1) else k)
unfolding flush_releases flush_downs flush_ups
flush-one q k p t = elim (Bool-cases (leb p.at t)) [
  | inl due ↦ rw due refl
  | inr early ↦ rw early refl
]

-- The keys after a press with nothing waiting.
abbrev pressed : Keys → ℕ → ℕ × ℕ → Keys
pressed q now key = record q {
  ups = [];
  downs = [];
  down_at = λ x. if same_key x key then some now else q.down_at x;
}

key_down-free :
    (q : Keys) (k : Keysc) (now : ℕ) (key : ℕ × ℕ)
    → q.ups ≡ []
    → q.downs ≡ []
    → key_down q k now key ≡ (pressed q now key, press k (key.0) (key.1))
unfolding key_down
key_down-free q k now key no_ups no_downs =
    let none_wait : (length q.ups == 0 && length q.downs == 0) ≡ true =
      ap₂ (λ x y. length x == 0 && length y == 0) no_ups no_downs in
    pick_on (length q.ups == 0 && length q.downs == 0) _ _ none_wait
    ∙ ap₂
        (λ x y. (
          record q {
            ups = x;
            downs = y;
            down_at = λ a. if same_key a key then some now else q.down_at a;
          },
          press k (key.0) (key.1),
        ))
        no_ups no_downs

-- The release waits.
key_up-early :
    (q : Keys) (k : Keysc) (c now : ℕ) (key : ℕ × ℕ)
    → sub64 now c < hold_time k
    → key_up (pressed q c key) k now key ≡ (
      record q {
        ups = record { key = key; at = u64 (c + hold_time k) } ∷ [];
        downs = [];
        down_at = λ x. if same_key x key then none else (pressed q c key).down_at x;
      },
      k,
    )
unfolding key_up let_go mark_up
key_up-early q k c now key fast =
    let found : (if same_key key key then some c else q.down_at key) ≡ some c =
      pick_on (same_key key key) _ _ (same_key_self key) in
    let q' : Keys = record (pressed q c key) {
      down_at = λ x. if same_key x key then none else (pressed q c key).down_at x;
    } in
    ap (let_go q' k now key) found ∙ pick_on (ltb (sub64 now c) (hold_time k)) _ _ (lt→ltb _ _ fast)

-- A key pressed while nothing waits and let go again before its minimum hold of three scan periods
-- stays down: letting it go does not change the matrix, and a flush at any later cycle lets it go
-- exactly if the hold is over.
pub hold_lem :
    (q : Keys) (k : Keysc) (key : ℕ × ℕ) (down up t : ℕ)
    → q.ups ≡ []
    → q.downs ≡ []
    → down ≤ up
    → up < down + 3 * k.scan_period
    → down + 3 * k.scan_period < 2 ^ 64
    → let d = key_down q k down key in
      let u = key_up d.0 d.1 up key in
      let k' = press k (key.0) (key.1) in
      (d.1 ≡ k')
      × (u.1 ≡ k')
      × ((flush_releases u.0 u.1 t).1
          ≡ (if leb (down + 3 * k.scan_period) t then release k' (key.0) (key.1) else k'))
hold_lem q k key down up t no_ups no_downs after fast fits =
    let k' = press k (key.0) (key.1) in
    let hold : hold_time k' ≡ 3 * k.scan_period =
      hold_time-press k (key.0) (key.1) ∙ omega (arith, fits) in
    let wait : u64 (down + hold_time k') ≡ down + 3 * k.scan_period = omega (arith, hold, fits) in
    let quick : sub64 up down < hold_time k' = omega (arith, hold, fits, after, fast) in
    let d = key_down-free q k down key no_ups no_downs in
    let u = ap (λ r. key_up r.0 r.1 up key) d ∙ key_up-early q k' down up key quick in
    let p : Release = record { key = key; at = u64 (down + hold_time k') } in
    let q' : Keys = record q {
      down_at = λ x. if same_key x key then none else (pressed q down key).down_at x;
    } in
    (
      ap (λ r. r.1) d,
      ap (λ r. r.1) u,
      ap (λ r. (flush_releases r.0 r.1 t).1) u
          ∙ flush-one q' k' p t
          ∙ ap (λ n. if leb n t then release k' (key.0) (key.1) else k') wait,
    )

-- Deferred releases and queued presses up to a cycle, and those a time before a cycle.
abbrev pub UpsBy : ℕ → List Release → Type 0
UpsBy at [] = Unit
UpsBy at (p ∷ ps) = (p.at ≤ at) × UpsBy at ps

abbrev pub DownsBy : ℕ → List Press → Type 0
DownsBy at [] = Unit
DownsBy at (p ∷ ps) = (p.at ≤ at) × DownsBy at ps

last_up-le : (ps : List Release) (at : ℕ) → at ≤ last_up ps at
last_up-le [] at = omega arith
last_up-le (p ∷ ps) at = omega (arith, last_up-le ps (max at p.at))

last_down-le : (hold : ℕ) (ps : List Press) (at : ℕ) → at ≤ last_down hold ps at
last_down-le hold [] at = omega arith
last_down-le hold (p ∷ ps) at = omega (arith, last_down-le hold ps (max at (u64 (p.at + hold))))

last_up-UpsBy : (ps : List Release) (at : ℕ) → UpsBy (last_up ps at) ps
last_up-UpsBy [] at = tt
last_up-UpsBy (p ∷ ps) at =
    (omega (arith, last_up-le ps (max at p.at)), last_up-UpsBy ps (max at p.at))

UpsBy-le : (ps : List Release) (a b : ℕ) → a ≤ b → UpsBy a ps → UpsBy b ps
UpsBy-le [] a b h w = tt
UpsBy-le (p ∷ ps) a b h (w, ws) = (omega (arith, w, h), UpsBy-le ps a b h ws)

DownsBy-le : (ps : List Press) (a b : ℕ) → a ≤ b → DownsBy a ps → DownsBy b ps
DownsBy-le [] a b h w = tt
DownsBy-le (p ∷ ps) a b h (w, ws) = (omega (arith, w, h), DownsBy-le ps a b h ws)

last_down-DownsBy :
    (hold top : ℕ) (ps : List Press) (at : ℕ)
    → DownsBy top ps
    → top + hold < 2 ^ 64
    → DownsBy (last_down hold ps at - hold) ps
last_down-DownsBy hold top [] at w fits = tt
last_down-DownsBy hold top (p ∷ ps) at (w, ws) fits =
    let exact : u64 (p.at + hold) ≡ p.at + hold = omega (arith, w, fits) in
    let later = last_down-le hold ps (max at (u64 (p.at + hold))) in
    (
      omega (arith, exact, later),
      last_down-DownsBy hold top ps (max at (u64 (p.at + hold))) ws fits,
    )

last_up-top : (ps : List Release) (at top : ℕ) → at ≤ top → UpsBy top ps → last_up ps at ≤ top
last_up-top [] at top h w = h
last_up-top (p ∷ ps) at top h (w, ws) = last_up-top ps (max at p.at) top (omega (arith, h, w)) ws

last_down-top :
    (hold : ℕ) (ps : List Press) (at top : ℕ)
    → at ≤ top + hold
    → DownsBy top ps
    → top + hold < 2 ^ 64
    → last_down hold ps at ≤ top + hold
last_down-top hold [] at top h w fits = h
last_down-top hold (p ∷ ps) at top h (w, ws) fits =
    last_down-top hold ps (max at (u64 (p.at + hold))) top (omega (arith, h, w, fits)) ws fits

-- A key pressed while a release is deferred or a press is queued leaves the matrix alone: it is
-- queued last, for a cycle that is three scan periods after now and after every deferred release,
-- and six after every queued press, where no cycle wraps.
pub key_down-waits :
    (q : Keys) (k : Keysc) (now top : ℕ) (key : ℕ × ℕ)
    → (length q.ups == 0 && length q.downs == 0) ≡ false
    → now ≤ top
    → UpsBy top q.ups
    → DownsBy top q.downs
    → top + 6 * k.scan_period < 2 ^ 64
    → (at : ℕ) × (key_down q k now key
        ≡ (record q { downs = q.downs ++ (record { key = key; at = at; up = false } ∷ []) }, k))
      × (now + 3 * k.scan_period ≤ at)
      × UpsBy (at - 3 * k.scan_period) q.ups
      × DownsBy (at - 6 * k.scan_period) q.downs
unfolding key_down
key_down-waits q k now top key waits early ups downs fits =
    let gap = 3 * k.scan_period in
    let hold : hold_time k ≡ gap = omega (arith, fits) in
    let at = last_down (hold_time k) q.downs (last_up q.ups now) in
    let up_le = last_up-le q.ups now in
    let down_le = last_down-le (hold_time k) q.downs (last_up q.ups now) in
    let up_top = last_up-top q.ups now top early ups in
    let top_le =
      last_down-top (hold_time k) q.downs (last_up q.ups now) top (omega (arith, up_top)) downs
        (omega (arith, hold, fits)) in
    let exact : u64 (at + u64 (tap_gap_scans * k.scan_period)) ≡ at + gap =
      omega (arith, top_le, hold, fits) in
    (
      at + gap,
      pick_off (length q.ups == 0 && length q.downs == 0) _ _ waits
          ∙ ap
              (λ n. (
                record q { downs = q.downs ++ (record { key = key; at = n; up = false } ∷ []) },
                k,
              ))
              exact,
      omega (arith, up_le, down_le),
      UpsBy-le q.ups (last_up q.ups now) (at + gap - gap) (omega (arith, down_le))
          (last_up-UpsBy q.ups now),
      DownsBy-le q.downs (at - hold_time k) (at + gap - 6 * k.scan_period) (omega (arith, hold)) (
          last_down-DownsBy (hold_time k) top q.downs (last_up q.ups now) downs
            (omega (arith, hold, fits))),
    )
