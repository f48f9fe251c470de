-- ===== src/Ubc/Decoded.antt =====
-- The decoded channels against the registers, and that a unit with no channel enabled does nothing.
use casio_cg.Base.{
  ℕ, bit_and, ◌≡◌, refl, sym, ◌∙◌, inl, inr, Bool, true, false, ◌&&◌, ◌||◌, ltb, ◌!=◌, Bool-cases,
  sub32, RegMap, reg, put, true≢false,
}
use casio_cg.Ubc.{
  ubc_base, ubc_cetr1, chan_of, on_fetch, on_operand, update, write, restore, cond, matched, hit0,
  hit1, watches_fetch, check, fetch_match, watches_access, same_value, operand, UbcChan, Ubc,
}

-- The decoded copy is that of the registers, and so is what the CPU is told.
pub record IsDecoded (u : Ubc) : Type 0 where
  pub first : u.ch0 ≡ chan_of u.regs 0
  pub second : u.ch1 ≡ chan_of u.regs 0x20
  pub armed : u.op_armed ≡ (on_operand u.ch0 || on_operand u.ch1)
  pub told :
      u.ubc_on ≡ ((on_fetch u.ch0 || on_fetch u.ch1) || (on_operand u.ch0 || on_operand u.ch1))

update-IsDecoded : (u : Ubc) → IsDecoded (update u)
unfolding update
update-IsDecoded u = record { first = refl; second = refl; armed = refl; told = refl }

hit0-IsDecoded : (u : Ubc) → IsDecoded u → IsDecoded ((hit0 u).0)
unfolding hit0
hit0-IsDecoded u w = record { first = w.first; second = w.second; armed = w.armed; told = w.told }

hit1-IsDecoded : (u : Ubc) → IsDecoded u → IsDecoded ((hit1 u).0)
unfolding hit1
hit1-IsDecoded u w =
    let cet = bit_and (reg (matched u 2).regs ubc_cetr1) 0xFFF in
    elim (Bool-cases ((bit_and u.ch1.cbr 0x800 != 0) && ltb 1 cet)) [
      | inl counts ↦
          rw counts (record { first = w.first; second = w.second; armed = w.armed; told = w.told })
      | inr breaks ↦
          rw breaks (record { first = w.first; second = w.second; armed = w.armed; told = w.told })
    ]

check-IsDecoded :
    (t : Bool) (hit : Ubc → Ubc × Bool) (u : Ubc)
    → IsDecoded u
    → IsDecoded ((hit u).0)
    → IsDecoded ((check t hit u).0)
check-IsDecoded true hit u w h = h
check-IsDecoded false hit u w h = w

-- Register writes, restoring a state, and the checks of fetches and of operand accesses keep the
-- decoded channels and the CPU's flag in step with the registers.
pub ubc-IsDecoded :
    (u : Ubc) (va val pteh pc size : ℕ) (m : RegMap) (delayed : ℕ → Bool) (after is_write : Bool)
    → IsDecoded u
    → IsDecoded (write u va val)
      × IsDecoded (restore u m)
      × IsDecoded ((fetch_match pteh u delayed pc after).0)
      × IsDecoded (operand pteh u va size val is_write)
unfolding write restore fetch_match operand
ubc-IsDecoded u va val pteh pc size m delayed after is_write w =
    let t0 = watches_fetch u.ch0 delayed pc after && cond pteh u u.ch0 in
    let u0 = (check t0 hit0 u).0 in
    let w0 = check-IsDecoded t0 hit0 u w (hit0-IsDecoded u w) in
    let t1 = watches_fetch u0.ch1 delayed pc after && cond pteh u0 u0.ch1 in
    let s0 = watches_access u.ch0 va size is_write && cond pteh u u.ch0 in
    let v0 = (check s0 hit0 u).0 in
    let x0 = check-IsDecoded s0 hit0 u w (hit0-IsDecoded u w) in
    let s1 =
      watches_access v0.ch1 va size is_write && (same_value v0 size val && cond pteh v0 v0.ch1) in
    let x1 = check-IsDecoded s1 hit1 v0 x0 (hit1-IsDecoded v0 x0) in
    (
      update-IsDecoded (record u { regs = put u.regs (sub32 va ubc_base) val }),
      update-IsDecoded (record u { regs = m }),
      check-IsDecoded t1 hit1 u0 w0 (hit1-IsDecoded u0 w0),
      record { first = x1.first; second = x1.second; armed = x1.armed; told = x1.told },
    )

none_of : (a b : Bool) → (a || b) ≡ false → (a ≡ false) × (b ≡ false)
none_of true b h = absurd (true≢false h)
none_of false b h = (refl, h)

or_none : (b : Bool) → (b || false) ≡ b
or_none true = refl
or_none false = refl

no_fetch :
    (k : UbcChan) (delayed : ℕ → Bool) (pc : ℕ) (after : Bool)
    → on_fetch k ≡ false
    → watches_fetch k delayed pc after ≡ false
unfolding watches_fetch
no_fetch k delayed pc after h = rw h refl

no_access :
    (k : UbcChan) (va size : ℕ) (is_write : Bool)
    → on_operand k ≡ false
    → watches_access k va size is_write ≡ false
unfolding watches_access
no_access k va size is_write h = rw h refl

-- While the CPU is told that no channel is enabled, no fetch and no access matches, and neither
-- changes the unit: the plain step of the CPU loses nothing.
ubc_off :
    (u : Ubc) (va val pteh pc size : ℕ) (delayed : ℕ → Bool) (after is_write : Bool)
    → IsDecoded u
    → u.ubc_on ≡ false
    → (fetch_match pteh u delayed pc after ≡ (u, false)) × (operand pteh u va size val is_write ≡ u)
unfolding fetch_match operand
ubc_off u va val pteh pc size delayed after is_write w off =
    let (fetches, accesses) =
      none_of (on_fetch u.ch0 || on_fetch u.ch1) (on_operand u.ch0 || on_operand u.ch1)
        (sym w.told ∙ off) in
    let (f0, f1) = none_of (on_fetch u.ch0) (on_fetch u.ch1) fetches in
    let (a0, a1) = none_of (on_operand u.ch0) (on_operand u.ch1) accesses in
    (
      rw (no_fetch u.ch0 delayed pc after f0, no_fetch u.ch1 delayed pc after f1) refl,
      rw
          (
            no_access u.ch0 va size is_write a0,
            no_access u.ch1 va size is_write a1,
            or_none u.op_hit,
          )
          refl,
    )
