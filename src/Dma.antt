-- ===== src/Dma.antt =====
-- emu_go/mmio.go, the DMA controller `dmac`: its registers, when a write starts a transfer, and the
-- transfers to the display and between memories, with `Memory.span` of emu_go/memory.go. The
-- transfers read and write physical addresses, which are never translated. A panic is none. The
-- host's `onLCDPush` is left out.
pub mod Push
mod Byte
pub mod Copy
mod Tests
use mathlib.Core.Option
use casio_cg.Base.{
  ℕ, zero, suc, ◌+◌, ◌-◌, ◌*◌, ◌/◌, ◌%◌, ◌^◌, ◌≤◌, ◌<◌, min, max, bit_and, bit_or, bit_xor, ◌≡◌,
  refl, sym, ap, ap₂, ◌∙◌, subst, fun_ext, ◌≢◌, ◌↔◌, ◌⊎◌, inl, inr, Bool, true, false, not, ◌&&◌,
  ◌||◌, Option, none, some, List, [], ◌∷◌, ◌++◌, arith, ltb, leb, ◌==◌, ◌!=◌, if◌then◌else◌, ltb→lt,
  lt→ltb, le→ltb, ==_iff, Bool-cases, length, get_or, set, replicate, length-set, get_or-set_self,
  get_or-set_ne, and_not, bit_and_step, bit_or_step, bit_xor_step, test_bit, test_bit-lt,
  test_bit-zero, test_bit-and, test_bit-or, test_bit-xor, test_bit-and_not, test_bit_ext,
  bit_or-zero, bit_and-zero, bit_and_mask, bit_and_three, bit_or-lt, bit_and-le, u8, u16, u32, u64,
  sub32, sub64, ◌>>>◌, ◌<<<◌, b2u, RegMap, no_regs, reg, put, get_elem?, and_not_step, and_not-le,
  bit_or_fields, value, and_not_parts, and_not_mask, page_address, word_page, same_page,
  bit_xor_self, bit_xor-lt, true≢false, and_and, eq_of_bit_xor, test_bit_lem, and_bit, and_not_and,
  bit_or_comm, test_bit-pow_self, test_bit-pow_ne, word_above, bit_or_null,
}
use casio_cg.Cpu.Bus.{
  switch, got, rd, wr, enter_exception, general_exception, illegal, trapa, MmuFault, Access, Bus,
  Run, ok, miss, stop, done, fault, crash,
}
use casio_cg.Bytes.{be_loop, be_read, be_store, be_write, Buffer}
use casio_cg.Flash.Delta.{
  flash_persist_page, fls_baseline, differs, slice, put_u32, delta_from, magic, flash_delta_bytes,
  drop, get_u32, overlay, apply_records, has_magic, apply_flash_delta, DeltaError, Applied,
  bad_magic, truncated, bad_offset,
}
use casio_cg.Memory.{
  flash_size, dram_base, dram_size, ilram_base, ilram_size, ilram_mask, ocram_base, ocram_size,
  xyram_base, xyram_size, translated, priv, cut, phys_of, in_dram, in_ilram, in_xyram, in_ocram,
  in_mmio, from_read, from_write, flash_slice, two_bytes, mmio_read, read_high, read_at, write_high,
  write_at, through, load, store, fetch_fast, fetch16, memory_bus, Memory, Mmio,
}
use casio_cg.Lcd.{
  panel_w, panel_h, lcd_reg, os_origin_h, fb_width, fb_height, put_word, boot_defaults, new_lcd, rs,
  backlight, lit, frame_gen, hsa, hea, vsa, vea, org, h_up, v_up, vertical_first, set_address,
  store_pixel, step_h, step_v, walk_on, pixel, put_data, lcd_read, lcd_write, dma, render_row,
  render_rows, clear, render_os, render_panel, seed_row, seed_rows, seed_from_vram, Lcd,
}

abbrev pub dmac_base : ℕ
dmac_base = 0xFE008000

abbrev pub dmac_intevt : List ℕ
dmac_intevt = 0x800 ∷ 0x820 ∷ 0x840 ∷ 0x860 ∷ 0xb80 ∷ 0xba0 ∷ []

-- `dmaUnit`
unfoldable pub dma_unit : ℕ → ℕ
dma_unit chcr =
    let ts = bit_or (bit_and (chcr >>> 3) 3) (u32 (bit_and (chcr >>> 20) 3 <<< 2)) in
    if ts == 0
    then 1
    else (if ts == 1 then 2 else (if ts == 2 then 4 else (if ts == 3 then 16 else 32)))

-- `dmac.read`
unfoldable pub dmac_read : RegMap → ℕ → ℕ
dmac_read regs va =
    let off = sub32 va dmac_base in
    if bit_and off 0xF == 0xC then (elim (regs off) [ some v ↦ v | none ↦ 0x2 ]) else reg regs off

-- The channel of a register in `dmac.write`.
unfoldable pub channel : ℕ → Option ℕ
channel off =
    let c = and_not off 0xF in
    if leb 0x20 c && ltb c 0x60
    then some ((c - 0x20) >>> 4)
    else (if c == 0x70 then some 4 else (if c == 0x80 then some 5 else none))

-- The tests of `dmac.write`: DE written with TE clear, and an address off the grid of the units.
abbrev pub starts : ℕ → ℕ → Bool
starts off val = bit_and off 0xF == 0xC && (bit_and val 1 != 0 && bit_and val 2 == 0)

abbrev pub misaligned : RegMap → ℕ → ℕ → Bool
misaligned regs off val =
    reg regs (off - 0xC) % dma_unit val != 0 || reg regs (off - 0xC + 4) % dma_unit val != 0

abbrev pub to_lcd : RegMap → ℕ → Bool
to_lcd regs off = bit_and (reg regs (off - 0xC + 4)) 0x1FFFFFFF == 0x14000000

-- `dmaAddr`
unfoldable pub dma_addr : ℕ → ℕ
dma_addr a =
    if ltb (sub32 a xyram_base) xyram_size then a else bit_or 0xA0000000 (bit_and a 0x1FFFFFFF)

-- The bytes of a push to the display: TCR has 24 bits, 0 stands for 2 ^ 24, and at most 2 ^ 20 bytes
-- are sent.
unfoldable pub push_size : ℕ → ℕ → ℕ
push_size tcr unit =
    let masked = bit_and tcr 0xFFFFFF in
    let count = if masked == 0 then 2 ^ 24 else masked in min (u32 (count * unit)) (2 ^ 20)

-- The units of `memTransfer` after its cap, and an address after one unit.
unfoldable pub capped : ℕ → ℕ → ℕ
capped count unit = if ltb (2 ^ 22) (u32 (count * unit)) then 2 ^ 22 / unit else count

unfoldable pub moved : ℕ → ℕ → ℕ → ℕ
moved mode a unit = if mode == 1 then u32 (a + unit) else (if mode == 2 then sub32 a unit else a)

-- An access as a step that may panic.
abbrev pub as_step : {M : Type 0} → Access M → Option (ℕ × M)
as_step (ok v m) = some (v, m)
as_step (miss f m) = none
as_step stop = none

infixl 5 ◌>>=◌
abbrev pub ◌>>=◌ : {A B : Type 0} → Option A → (A → Option B) → Option B
none >>= f = none
some a >>= f = f a

-- How the devices keep the controller's registers and the display, and note a request.
pub record DmaPort (D : Type 0) : Type 0 where
  pub regs : D → RegMap
  pub put_regs : D → RegMap → D
  pub lcd : D → Lcd
  pub put_lcd : D → Lcd → D
  pub raise : D → ℕ → D

module _ {D : Type 0} (bus : Mmio D) where
  abbrev pub byte_at_dma : Memory D → ℕ → Option (ℕ × Memory D)
  byte_at_dma m a = as_step (read_at bus m (dma_addr a) 1)

  -- The inner loops of `memTransfer`, from byte j on with n left.
  unfoldable pub read_unit : Memory D → ℕ → ℕ → ℕ → Option (List ℕ × Memory D)
  read_unit m sar j zero = some ([], m)
  read_unit m sar j (suc n) = do
    byte ← byte_at_dma m (u32 (sar + j))
    rest ← read_unit byte.1 sar (j + 1) n
    some (u8 byte.0 ∷ rest.0, rest.1)

  unfoldable pub write_unit : Memory D → ℕ → ℕ → List ℕ → Option (Memory D)
  write_unit m dar j [] = some m
  write_unit m dar j (v ∷ vs) = do
    wrote ← as_step (write_at bus m (dma_addr (u32 (dar + j))) 1 (cut 1 v))
    write_unit wrote.1 dar (j + 1) vs

  -- `memTransfer`: the loop over n units, and the whole.
  unfoldable pub transfer_units : Memory D → ℕ → ℕ → ℕ → ℕ → ℕ → ℕ → Option (Memory D)
  transfer_units m sar dar unit sm dm zero = some m
  transfer_units m sar dar unit sm dm (suc n) = do
    got ← read_unit m sar 0 unit
    m' ← write_unit got.1 dar 0 got.0
    transfer_units m' (moved sm sar unit) (moved dm dar unit) unit sm dm n

  unfoldable pub mem_transfer : Memory D → ℕ → ℕ → ℕ → ℕ → ℕ → Option (Memory D)
  mem_transfer m sar dar count unit chcr =
      transfer_units m sar dar unit (bit_and (chcr >>> 12) 3) (bit_and (chcr >>> 14) 3)
        (capped count unit)

  -- `Memory.span`: a view of DRAM or of the X/Y memory, or a copy read byte by byte.
  unfoldable pub read_span : Memory D → ℕ → ℕ → ℕ → Option (List ℕ × Memory D)
  read_span m va i zero = some ([], m)
  read_span m va i (suc n) = do
    byte ← as_step (read_at bus m (bit_or 0xA0000000 (bit_and (u32 (va + i)) 0x1FFFFFFF)) 1)
    rest ← read_span byte.1 va (i + 1) n
    some (u8 byte.0 ∷ rest.0, rest.1)

  unfoldable pub span : Memory D → ℕ → ℕ → Option (List ℕ × Memory D)
  span m va n =
      let p = phys_of va in
      let x = sub32 va xyram_base in
      if leb dram_base p && leb (u32 (p + n)) (dram_base + dram_size)
      then some (slice m.dram.at (p - dram_base) n, m)
      else (if ltb x xyram_size && leb (u32 (x + n)) xyram_size
          then some (slice m.xyram.at x n, m)
          else read_span m va 0 n)

  module _ (port : DmaPort D) where
    abbrev pub show : Memory D → List ℕ → Memory D
    show m src = record m { devices = port.put_lcd m.devices (dma (port.lcd m.devices) src) }

    -- A fill: the same unit, for every unit of n bytes that is begun.
    unfoldable pub fill_lcd : Memory D → List ℕ → ℕ → Memory D
    fill_lcd m unit zero = m
    fill_lcd m unit (suc n) = fill_lcd (show m unit) unit n

    unfoldable pub push_lcd : Memory D → RegMap → ℕ → ℕ → Option (Memory D)
    push_lcd m regs off val =
        let sar = reg regs (off - 0xC) in
        let unit = dma_unit val in
        let n = push_size (reg regs (off - 0xC + 8)) unit in
        if bit_and (val >>> 12) 3 == 0
        then (elim (span m sar unit) [
          | none ↦ none
          | some (vs, m') ↦ some (fill_lcd m' vs ((n + unit - 1) / unit))
        ])
        else (elim (span m sar n) [ none ↦ none | some (vs, m') ↦ some (show m' vs) ])

    abbrev pub put_reg : Memory D → RegMap → Memory D
    put_reg m regs = record m { devices = port.put_regs m.devices regs }

    -- CHCR.IE asks for the request of the channel at the end.
    abbrev pub finish : ℕ → ℕ → Memory D → Memory D
    finish ch val m =
        if bit_and val 4 != 0
        then record m { devices = port.raise m.devices (get_or dmac_intevt ch 0) }
        else m

    -- `dmac.write`, where a channel's CHCR starts a transfer, and the whole.
    unfoldable pub run_channel : Memory D → RegMap → ℕ → ℕ → ℕ → Option (Memory D)
    run_channel m regs off val ch =
        let regs' = put regs off (bit_or val 2) in
        let m' = put_reg m regs' in
        let src = reg regs' (off - 0xC) in
        let dst = reg regs' (off - 0xC + 4) in
        let count = reg regs' (off - 0xC + 8) in
        if misaligned regs off val
        then some (put_reg m (put regs 0x60 (bit_or (reg regs 0x60) 4)))
        else Option.map (finish ch val) (
            if to_lcd regs' off
            then push_lcd m' regs' off val
            else mem_transfer m' src dst count (dma_unit val) val)

    unfoldable pub write_reg : Memory D → ℕ → ℕ → Option (Memory D)
    write_reg m off val =
        let regs = put (port.regs m.devices) off val in
        if starts off val
        then (elim (channel off) [
          | none ↦ some (put_reg m regs)
          | some ch ↦ run_channel m regs off val ch
        ])
        else some (put_reg m regs)

    unfoldable pub dmac_write : Memory D → ℕ → ℕ → Option (Memory D)
    dmac_write m va val = write_reg m (sub32 va dmac_base) val
