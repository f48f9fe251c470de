-- ===== src/Board/Due.antt =====
-- `nextDue` against the tick, the tapper and the queues of the host: nothing happens before it.
use casio_cg.Base.{
  ℕ, ◌+◌, ◌-◌, ◌*◌, ◌≤◌, ◌<◌, min, bit_and, ◌≡◌, refl, subst, ◌⊎◌, inl, inr, Bool, true, false,
  ◌&&◌, List, [], ◌∷◌, arith, leb, ◌==◌, ◌!=◌, if◌then◌else◌, Bool-cases, u64, pick_on,
}
use casio_cg.Intc.{Pend}
use casio_cg.Keysc.{release, tap_gap_scans, next_tap, drive, Keysc, KeyTapper}
use casio_cg.GTimer.Etmu.{next_of}
use casio_cg.Adc.{Adc}
use casio_cg.Board.{
  bus_tick, first_up, first_down, first_tap, adc_due, timers_due, next_due, flush_downs, flush_ups,
  flush_releases, Board, Release, Press, Keys,
}
use casio_cg.Board.Quiet.{keysc_quiet, rtc_quiet, etmu_quiet, tmu_quiet, IsAwake, converter_quiet}

-- The queues only bring the next event forward.
first_up-le : (ps : List Release) (d : ℕ) → first_up ps d ≤ d
first_up-le [] d = omega arith
first_up-le (p ∷ ps) d = omega (arith, first_up-le ps (min d p.at))

first_down-le : (ps : List Press) (d : ℕ) → first_down ps d ≤ d
first_down-le [] d = omega arith
first_down-le (p ∷ ps) d = omega arith

first_tap-le : (t : KeyTapper) (keys : List (ℕ × ℕ)) (d : ℕ) → first_tap t keys d ≤ d
first_tap-le t [] d = ground arith
first_tap-le t (k ∷ ks) d = ground arith

-- The devices' part of `nextDue`.
abbrev pub devices_due : Board → ℕ → ℕ → Bool → ℕ
devices_due b cycles idle sleeping =
    if b.timer_period == 0
    then b.keysc.scan_next
    else timers_due b cycles idle sleeping b.keysc.scan_next

next_due-le :
    (b : Board) (q : Keys) (cycles idle : ℕ) (sleeping : Bool)
    → next_due b q cycles idle sleeping ≤ devices_due b cycles idle sleeping
unfolding next_due
next_due-le b q cycles idle sleeping =
    let d = devices_due b cycles idle sleeping in
    omega (
      arith,
      first_up-le q.ups d,
      first_down-le q.downs (first_up q.ups d),
      first_tap-le q.tap q.tap.queue (first_down q.downs (first_up q.ups d)),
    )

adc_due-le : (p : Adc) (cycles idle d : ℕ) (sleeping : Bool) → adc_due p cycles idle sleeping d ≤ d
unfolding adc_due
adc_due-le p cycles idle d sleeping = ground arith

adc_due-soft :
    (p : Adc) (cycles idle d : ℕ) (sleeping : Bool) (c : ℕ)
    → c < adc_due p cycles idle sleeping d
    → (p.sw_armed ≡ false) ⊎ (c < p.sw_done_at)
unfolding adc_due
adc_due-soft p cycles idle d sleeping c h = elim (Bool-cases p.sw_armed) [
  | inl on ↦ inr (ground (arith, h, on))
  | inr off ↦ inl off
]

-- What stands below the devices' part.
record Early (b : Board) (c : ℕ) : Type 0 where
  scan_later : c < b.keysc.scan_next
  rtc_later : (bit_and b.rtc.rcr2 0x70 ≡ 0) ⊎ (c < b.rtc.next_periodic)
  etmu_later : c < next_of b.etmu.ch
  tmu_later : c < next_of b.tmu.ch
  adc_later :
      ((b.adc.adc_mode ≡ true) × ((b.adc.sw_armed ≡ false) ⊎ (c < b.adc.sw_done_at)))
      ⊎ ((b.adc.adc_mode ≡ false) × (c < b.timer_next))

timers_due-Early :
    (b : Board) (cycles idle c : ℕ) (sleeping : Bool)
    → c < timers_due b cycles idle sleeping b.keysc.scan_next
    → Early b c
unfolding timers_due
timers_due-Early b cycles idle c sleeping h = elim (Bool-cases b.adc.adc_mode) [
  | inl on ↦
      let h' = rw on at h in
      let d = adc_due b.adc cycles idle sleeping b.keysc.scan_next in
      let below = adc_due-le b.adc cycles idle b.keysc.scan_next sleeping in
      let under : c < d = ground (arith, h') in
      record {
        scan_later = omega arith;
        rtc_later = elim (Bool-cases (bit_and b.rtc.rcr2 0x70 != 0)) [
          | inl runs ↦ inr (let h'' = rw runs at h' in omega (arith, h''))
          | inr stopped ↦ inl (ground arith)
        ];
        etmu_later = ground (arith, h');
        tmu_later = ground (arith, h');
        adc_later = inl (on, adc_due-soft b.adc cycles idle b.keysc.scan_next sleeping c under);
      }
  | inr off ↦
      let h' = rw off at h in
      record {
        scan_later = ground (arith, h');
        rtc_later = elim (Bool-cases (bit_and b.rtc.rcr2 0x70 != 0)) [
          | inl runs ↦ inr (let h'' = rw runs at h' in omega (arith, h''))
          | inr stopped ↦ inl (ground arith)
        ];
        etmu_later = ground (arith, h');
        tmu_later = ground (arith, h');
        adc_later = inr (off, ground (arith, h'));
      }
]

bus_tick-quiet :
    (b : Board) (cycles idle : ℕ) (sleeping : Bool) (c idle' : ℕ) (ps : List Pend)
    → c < devices_due b cycles idle sleeping
    → ((b.timer_period == 0) ≡ false → IsAwake b.adc idle')
    → bus_tick b c idle' ps ≡ (b, ps)
unfolding bus_tick
bus_tick-quiet b cycles idle sleeping c idle' ps h awake = elim (Bool-cases (b.timer_period == 0)) [
  | inl none_set ↦
      let h' = rw none_set at h in rw (keysc_quiet b.intc c b.keysc ps h', none_set) refl
  | inr set_up ↦
      let w = timers_due-Early b cycles idle c sleeping (rw set_up at h) in
      let e1 = keysc_quiet b.intc c b.keysc ps w.scan_later in
      let e2 = rtc_quiet b.rtc b.intc c b.instr_per_sec ps w.rtc_later in
      let e3 = etmu_quiet b.etmu b.intc c ps w.etmu_later in
      let e4 = tmu_quiet b.tmu b.intc c ps w.tmu_later in
      rw (e1, e2, e3, e4, set_up) (converter_quiet b c idle' ps (awake set_up) w.adc_later)
]

-- Nor does the tapper after the instruction of such a cycle.
pub drive-quiet :
    (b : Board) (q : Keys) (cycles idle : ℕ) (sleeping : Bool) (c : ℕ)
    → c < next_due b q cycles idle sleeping
    → drive q.tap b.keysc (c + 1) ≡ (q.tap, b.keysc)
unfolding next_due drive
drive-quiet b q cycles idle sleeping c h = by_queue q.tap q.tap.queue _ h
  where
    by_queue :
        (t : KeyTapper) (keys : List (ℕ × ℕ)) (d : ℕ)
        → c < first_tap t keys d
        → (if t.active
            then (if leb t.release_at (c + 1)
                then (
                  record t {
                    active = false;
                    next_at = u64 (c + 1 + tap_gap_scans * b.keysc.scan_period);
                  },
                  release b.keysc (t.key.0) (t.key.1),
                )
                else (t, b.keysc))
            else next_tap t keys b.keysc (c + 1))
          ≡ (t, b.keysc)
    by_queue t [] d under = ground (arith, under)
    by_queue t (k ∷ ks) d under = ground (arith, under)

-- No release is due before the event.
flush_ups-quiet :
    (ps : List Release) (d c : ℕ) (k : Keysc) → c < first_up ps d → flush_ups c ps k ≡ (ps, k)
unfolding flush_ups
flush_ups-quiet [] d c k h = refl
flush_ups-quiet (p ∷ ps) d c k h =
    let below = first_up-le ps (min d p.at) in
    let wait : leb p.at c ≡ false = ground (arith, h, below) in
    let rest = flush_ups-quiet ps (min d p.at) c k h in rw (wait, rest) refl

flush_downs-quiet :
    (ps : List Press) (d c : ℕ) (q : Keys) (k : Keysc)
    → c < first_down ps d
    → flush_downs c ps q k ≡ (record q { downs = ps }, k)
unfolding flush_downs
flush_downs-quiet [] d c q k h = refl
flush_downs-quiet (p ∷ ps) d c q k h =
    let wait : leb p.at c ≡ false = ground (arith, h) in rw wait refl

pub flush-quiet :
    (b : Board) (q : Keys) (cycles idle : ℕ) (sleeping : Bool) (c : ℕ)
    → c < next_due b q cycles idle sleeping
    → flush_releases q b.keysc c ≡ (q, b.keysc)
unfolding next_due flush_releases
flush-quiet b q cycles idle sleeping c h =
    let d = devices_due b cycles idle sleeping in
    let d1 = first_up q.ups d in
    let d2 = first_down q.downs d1 in
    let below = first_tap-le q.tap q.tap.queue d2 in
    let below_down = first_down-le q.downs d1 in
    let downs = flush_downs-quiet q.downs d1 c q b.keysc (omega (arith, h, below)) in
    let ups = flush_ups-quiet q.ups d c b.keysc (omega (arith, h, below, below_down)) in
    rw downs (rw ups refl)

u64-le : (n : ℕ) → u64 n ≤ n
u64-le n = omega arith

adc_due-idle :
    (p : Adc) (cycles idle d c : ℕ)
    → p.armed ≡ true
    → c < adc_due p cycles idle true d
    → c < cycles + (p.done_at - min p.done_at idle)
unfolding adc_due
adc_due-idle p cycles idle d c on h =
    let below = u64-le (cycles + (p.done_at - min p.done_at idle)) in
    let x = if p.sw_armed then min d p.sw_done_at else d in
    let y = min x (u64 (cycles + (p.done_at - min p.done_at idle))) in
    let test : (p.armed && true) ≡ true = rw on refl in
    let h' : c < y = subst (λ t. c < t) (pick_on (p.armed && true) y x test) h in
    omega (arith, h', below)

timers_due-adc :
    (b : Board) (cycles idle d c : ℕ)
    → b.adc.adc_mode ≡ true
    → c < timers_due b cycles idle true b.keysc.scan_next
    → c < adc_due b.adc cycles idle true b.keysc.scan_next
unfolding timers_due
timers_due-adc b cycles idle d c on h =
    let x = adc_due b.adc cycles idle true b.keysc.scan_next in
    let e = pick_on b.adc.adc_mode x (min b.keysc.scan_next b.timer_next) on in ground (arith, h, e)

-- Asleep, the idle count rises with the cycles, so a conversion of the idle routine is not done
-- before the event.
asleep-IsAwake :
    (b : Board) (cycles idle c idle' : ℕ)
    → (b.timer_period == 0) ≡ false
    → c < devices_due b cycles idle true
    → cycles ≤ c
    → idle' + cycles ≡ idle + c
    → IsAwake b.adc idle'
asleep-IsAwake b cycles idle c idle' set_up h after same = elim (Bool-cases b.adc.adc_mode) [
  | inr off ↦ inl off
  | inl on ↦ inr (elim (Bool-cases b.adc.armed) [
    | inr off ↦ inl off
    | inl armed ↦
        let h' = timers_due-adc b cycles idle 0 c on (rw set_up at h) in
        let early = adc_due-idle b.adc cycles idle b.keysc.scan_next c armed h' in
        inr (omega (arith, early, after, same))
  ])
]

-- Asleep, at a cycle that is not yet that of `nextDue`, with the idle count risen by as many cycles
-- as have passed since: a tick of the bus changes no device and raises no request, the flush of the
-- host's keys changes nothing, and so does the tapper one cycle later.
pub next_due-quiet :
    (b : Board) (q : Keys) (cycles idle c idle' : ℕ) (ps : List Pend)
    → cycles ≤ c
    → idle' + cycles ≡ idle + c
    → c < next_due b q cycles idle true
    → (bus_tick b c idle' ps ≡ (b, ps))
      × (flush_releases q b.keysc c ≡ (q, b.keysc))
      × (drive q.tap b.keysc (c + 1) ≡ (q.tap, b.keysc))
next_due-quiet b q cycles idle c idle' ps after same h =
    let early : c < devices_due b cycles idle true =
      omega (arith, h, next_due-le b q cycles idle true) in
    (
      bus_tick-quiet b cycles idle true c idle' ps early
          (λ set_up. asleep-IsAwake b cycles idle c idle' set_up early after same),
      flush-quiet b q cycles idle true c h,
      drive-quiet b q cycles idle true c h,
    )
