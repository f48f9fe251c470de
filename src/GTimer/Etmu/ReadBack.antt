-- ===== src/GTimer/Etmu/ReadBack.antt =====
-- Register writes of the ETMU read back: what gint's driver spins on at start-up.
use native.Mathlib.Decide.{ℕ_discrete}
use casio_cg.Base.{
  ℕ, ◌+◌, ◌-◌, ◌*◌, ◌/◌, ◌%◌, ◌^◌, ◌<◌, bit_and, bit_or, ◌≡◌, ap, ◌∙◌, subst, ◌⊎◌, inl, inr, Bool,
  true, false, not, ◌&&◌, ◌||◌, some, arith, ltb, leb, ◌==◌, ◌!=◌, if◌then◌else◌, Bool-cases,
  length, set, get_or-set_self, and_not, bit_and_mask, sub32, put,
}
use casio_cg.GTimer.{cur, restart, set_running, write_tcr, write_tcnt, write_tcor, TimerChan}
use casio_cg.GTimer.Count.{cur_at_start, cur_stopped}
use casio_cg.GTimer.Etmu.{
  etmu_base, blank, chan, etmu_div, etmu_off, read_chan, etmu_read, write_chan, etmu_write, Etmu,
}

-- The address of a register of channel i.
abbrev pub etmu_addr : ℕ → ℕ → ℕ
etmu_addr i field = etmu_base + 0x30 + 0x20 * i + field

etmu_off_lem :
    (i field : ℕ) → i < 6 → field < 0x20 → etmu_off (etmu_addr i field) ≡ 0x30 + 0x20 * i + field
unfolding etmu_off
etmu_off_lem i field hi hf = bit_and_mask 16 (sub32 (etmu_addr i field) etmu_base) ∙ omega arith

-- A write to a register of channel i replaces that channel.
pub etmu_write_lem :
    (e : Etmu) (cyc i field v : ℕ)
    → i < 6
    → field < 0x20
    → etmu_write e cyc (etmu_addr i field) v ≡ record e {
      regs = put e.regs (0x30 + 0x20 * i + field) v;
      ch = set e.ch i (write_chan (chan e.ch i) cyc (etmu_div e) field v);
    }
unfolding etmu_write
etmu_write_lem e cyc i field v hi hf =
    let unit : (0x30 + 0x20 * i + field - 0x30) / 0x20 ≡ i = omega arith in
    let place : (0x30 + 0x20 * i + field - 0x30) % 0x20 ≡ field = omega arith in
    let inside : (ltb (0x30 + 0x20 * i + field) 0x30 || leb 0xF0 (0x30 + 0x20 * i + field))
        ≡ false =
      ground arith in
    rw (etmu_off_lem i field hi hf, inside, unit, place)

-- The aliases of ETMU5's counter are out of the way: none is at another channel's register.
no_alias :
    (e : Etmu) (i field : ℕ)
    → i < 6
    → field < 0x10
    → (chan e.ch i).owned ≡ true
    → let off = 0x30 + 0x20 * i + field in
      ((((off == 0xD8) || (off == 0xC8)) && not (chan e.ch 5).owned) ≡ false)
      × ((off == 0xC8) ≡ false)
      × ((leb 0x30 off && ltb off 0xF0) ≡ true)
no_alias e i field hi hf own = elim (ℕ_discrete i 5) [
  | yes p ↦
      let own' : (chan e.ch 5).owned ≡ true = subst (λ j. (chan e.ch j).owned ≡ true) p own in
      ground (arith, own')
  | no q ↦ ground arith
]

-- A read of a register of an owned channel is the channel's.
etmu_read_lem :
    (e : Etmu) (cyc i field x : ℕ)
    → i < 6
    → field < 0x10
    → (chan e.ch i).owned ≡ true
    → read_chan (chan e.ch i) cyc (etmu_div e) field ≡ some x
    → etmu_read e cyc (etmu_addr i field) ≡ x
unfolding etmu_read
etmu_read_lem e cyc i field x hi hf own r =
    let unit : (0x30 + 0x20 * i + field - 0x30) / 0x20 ≡ i = omega arith in
    let place : (0x30 + 0x20 * i + field - 0x30) % 0x20 ≡ field = omega arith in
    let (a, b, c) = no_alias e i field hi hf own in
    rw (etmu_off_lem i field hi (omega arith), a, b, c, unit, place, r)

write_chan-owned :
    (c : TimerChan) (cyc div field v : ℕ)
    → (field ≡ 0) ⊎ ((field ≡ 4) ⊎ ((field ≡ 8) ⊎ (field ≡ 0xC)))
    → (write_chan c cyc div field v).owned ≡ true
unfolding write_chan set_running write_tcor restart write_tcnt write_tcr
write_chan-owned c cyc div field v h = ground arith

-- Writing a register of a channel and reading the same register at the same cycle.
write_then_read :
    (e : Etmu) (cyc i field v x : ℕ)
    → length e.ch ≡ 6
    → i < 6
    → (field ≡ 0) ⊎ ((field ≡ 4) ⊎ ((field ≡ 8) ⊎ (field ≡ 0xC)))
    → read_chan (write_chan (chan e.ch i) cyc (etmu_div e) field v) cyc (etmu_div e) field ≡ some x
    → etmu_read (etmu_write e cyc (etmu_addr i field) v) cyc (etmu_addr i field) ≡ x
write_then_read e cyc i field v x len hi hf r =
    let c : TimerChan = write_chan (chan e.ch i) cyc (etmu_div e) field v in
    let e' : Etmu = record e { regs = put e.regs (0x30 + 0x20 * i + field) v; ch = set e.ch i c } in
    let here : chan e'.ch i ≡ c = get_or-set_self e.ch i c blank (omega arith) in
    let own : (chan e'.ch i).owned ≡ true =
      ap (λ d. d.owned) here ∙ write_chan-owned (chan e.ch i) cyc (etmu_div e) field v hf in
    let same : read_chan (chan e'.ch i) cyc (etmu_div e') field ≡ some x =
      unfold etmu_div in ap (λ d. read_chan d cyc (etmu_div e) field) here ∙ r in
    rw (etmu_write_lem e cyc i field v hi (omega arith))
      (etmu_read_lem e' cyc i field x hi (omega arith) own same)

-- The value that a channel register holds after a write: the start bit, the whole word, or the
-- control bits, in which the underflow flag survives only if it was set and is written as 1.
abbrev pub read_back : TimerChan → ℕ → ℕ → ℕ
read_back c field v =
    if field == 0
    then v % 2
    else (if field == 0xC
        then bit_or (and_not (bit_and v 0xFF) 2) (bit_and (bit_and c.tcr (bit_and v 0xFF)) 2)
        else v)

cur-write_tcnt :
    (c : TimerChan) (cyc div v : ℕ) → v < 2 ^ 32 → cur (write_tcnt c cyc div v) cyc div ≡ v
unfolding write_tcnt
cur-write_tcnt c cyc div v h = elim (Bool-cases c.running) [
  | inl on ↦
      cur_at_start (write_tcnt c cyc div v) cyc div v h (ground arith) (ground arith) (ground arith)
  | inr off ↦ cur_stopped (write_tcnt c cyc div v) cyc div (ground arith) ∙ ground arith
]

running-set_running :
    (c : TimerChan) (on : Bool) (cyc div : ℕ) → (set_running c on cyc div).running ≡ on
unfolding set_running
running-set_running c on cyc div = ground arith

tcor-write_tcor : (c : TimerChan) (cyc div v : ℕ) → (write_tcor c cyc div v).tcor ≡ v
unfolding write_tcor restart
tcor-write_tcor c cyc div v = ground arith

chan_reads_back :
    (c : TimerChan) (cyc div field v : ℕ)
    → (field ≡ 0) ⊎ ((field ≡ 4) ⊎ ((field ≡ 8) ⊎ (field ≡ 0xC)))
    → v < 2 ^ 32
    → read_chan (write_chan c cyc div field v) cyc div field ≡ some (read_back c field v)
unfolding read_chan write_chan write_tcr
chan_reads_back c cyc div field v hf hv =
    let c' : TimerChan = record c { owned = true } in
    ground (
      arith,
      bit_and_mask 1 v,
      running-set_running c' (bit_and v 1 != 0) cyc div,
      tcor-write_tcor c' cyc div v,
      cur-write_tcnt c' cyc div v hv,
    )

-- Each write of a channel's start bit, TCOR, TCNT or TCR reads back at once: what gint's start-up
-- code waits for.
etmu_write_reads_back :
    (e : Etmu) (cyc i field v : ℕ)
    → length e.ch ≡ 6
    → i < 6
    → (field ≡ 0) ⊎ ((field ≡ 4) ⊎ ((field ≡ 8) ⊎ (field ≡ 0xC)))
    → v < 2 ^ 32
    → etmu_read (etmu_write e cyc (etmu_addr i field) v) cyc (etmu_addr i field)
      ≡ read_back (chan e.ch i) field v
etmu_write_reads_back e cyc i field v len hi hf hv =
    write_then_read e cyc i field v _ len hi hf
      (chan_reads_back (chan e.ch i) cyc (etmu_div e) field v hf hv)
