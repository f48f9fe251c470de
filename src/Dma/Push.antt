-- ===== src/Dma/Push.antt =====
-- A push of the frame: a transfer from DRAM to the display, as the OS starts it.
use casio_cg.Base.{
  ℕ, zero, suc, ◌+◌, ◌-◌, ◌*◌, ◌≤◌, ◌<◌, bit_and, bit_or, ◌≡◌, refl, ap, ◌∙◌, ◌≢◌, inl, inr, true,
  false, ◌&&◌, some, List, arith, leb, ◌==◌, ◌!=◌, ==_iff, Bool-cases, get_or, bit_and-le, u32,
  sub32, ◌>>>◌, RegMap, reg, put,
}
use casio_cg.Flash.Delta.{slice}
use casio_cg.Flash.Delta.Saved.{length-slice}
use casio_cg.Memory.{dram_base, dram_size, phys_of, Memory, Mmio}
use casio_cg.Lcd.{fb_width, fb_height, lit, dma, render_os, Lcd}
use casio_cg.Lcd.Picture.{render_os-dma, IsOsPush}
use casio_cg.Dma.{
  dmac_base, dmac_intevt, dma_unit, dmac_read, channel, starts, misaligned, to_lcd, push_size, span,
  show, push_lcd, put_reg, finish, run_channel, write_reg, dmac_write, DmaPort,
}

-- The devices keep what is put into them, and the parts apart.
pub record IsLawful {D : Type 0} (port : DmaPort D) : Type 0 where
  pub regs-put_regs : (d : D) (r : RegMap) → port.regs (port.put_regs d r) ≡ r
  pub regs-put_lcd : (d : D) (l : Lcd) → port.regs (port.put_lcd d l) ≡ port.regs d
  pub regs-raise : (d : D) (intevt : ℕ) → port.regs (port.raise d intevt) ≡ port.regs d
  pub lcd-put_regs : (d : D) (r : RegMap) → port.lcd (port.put_regs d r) ≡ port.lcd d
  pub lcd-put_lcd : (d : D) (l : Lcd) → port.lcd (port.put_lcd d l) ≡ l
  pub lcd-raise : (d : D) (intevt : ℕ) → port.lcd (port.raise d intevt) ≡ port.lcd d

get_or-slice : (a : ℕ → ℕ) (off n i : ℕ) → i < n → get_or (slice a off n) i 0 ≡ a (off + i)
unfolding slice
get_or-slice a off zero i h = absurd (omega arith)
get_or-slice a off (suc n) zero h = ap a (omega arith)
get_or-slice a off (suc n) (suc i) h =
    get_or-slice a (off + 1) n i (omega arith) ∙ ap a (omega arith)

slice-lt : (a : ℕ → ℕ) (off n i : ℕ) → ((j : ℕ) → a j < 256) → get_or (slice a off n) i 0 < 256
unfolding slice
slice-lt a off zero i h = omega arith
slice-lt a off (suc n) zero h = h off
slice-lt a off (suc n) (suc i) h = slice-lt a (off + 1) n i h

-- The registers of a push of n bytes from an address p of DRAM, where `val` is written to the CHCR
-- at `off`: DE without TE, the addresses on the grid of the units, and the source incremented.
pub record IsPush (regs : RegMap) (off val n p : ℕ) : Type 0 where
  pub ch : ℕ
  pub started : starts off val ≡ true
  pub of_channel : channel off ≡ some ch
  pub aligned : misaligned regs off val ≡ false
  pub target : to_lcd regs off ≡ true
  pub forward : (bit_and (val >>> 12) 3 == 0) ≡ false
  pub whole : push_size (reg regs (off - 0xC + 8)) (dma_unit val) ≡ n
  pub source : phys_of (reg regs (off - 0xC)) ≡ p
  pub above : dram_base ≤ p
  pub below : p + n ≤ dram_base + dram_size

-- The other registers of a channel stand below its CHCR.
past_twelve : (off val : ℕ) → starts off val ≡ true → 12 ≤ off
past_twelve off val h =
    let at : bit_and off 0xF ≡ 0xC = ground arith in omega (arith, at, bit_and-le off 0xF)

reg-put_ne : (regs : RegMap) (off v k : ℕ) → k ≢ off → reg (put regs off v) k ≡ reg regs k
reg-put_ne regs off v k h = ground (arith, h)

-- The channel's registers as they are when the transfer runs.
running : RegMap → ℕ → ℕ → RegMap
running regs off val = put (put regs off val) off (bit_or val 2)

module _ {D : Type 0} (bus : Mmio D) (port : DmaPort D) (laws : IsLawful port) where
  span_dram :
      (m : Memory D) (va n p : ℕ)
      → phys_of va ≡ p
      → dram_base ≤ p
      → p + n ≤ dram_base + dram_size
      → span bus m va n ≡ some (slice m.dram.at (p - dram_base) n, m)
  unfolding span
  span_dram m va n p e low high =
      let inside : (leb dram_base p && leb (u32 (p + n)) (dram_base + dram_size)) ≡ true =
        ground arith in
      rw (e, inside) refl

  lcd-show :
      (m : Memory D) (src : List ℕ)
      → port.lcd (show bus port m src).devices ≡ dma (port.lcd m.devices) src
  lcd-show m src = laws.lcd-put_lcd m.devices (dma (port.lcd m.devices) src)

  finish-lcd :
      (ch val : ℕ) (m' : Memory D)
      → port.lcd (finish bus port ch val m').devices ≡ port.lcd m'.devices
  finish-lcd ch val m' = elim (Bool-cases (bit_and val 4 != 0)) [
    | inl asks ↦ rw asks (laws.lcd-raise m'.devices (get_or dmac_intevt ch 0))
    | inr quiet ↦ rw quiet refl
  ]

  finish-dram : (ch val : ℕ) (m' : Memory D) → (finish bus port ch val m').dram ≡ m'.dram
  finish-dram ch val m' = ground arith

  -- What `push_lcd` does with a push from DRAM.
  push_lcd_dram :
      (m : Memory D) (regs : RegMap) (off val n p : ℕ)
      → (bit_and (val >>> 12) 3 == 0) ≡ false
      → push_size (reg regs (off - 0xC + 8)) (dma_unit val) ≡ n
      → phys_of (reg regs (off - 0xC)) ≡ p
      → dram_base ≤ p
      → p + n ≤ dram_base + dram_size
      → push_lcd bus port m regs off val
        ≡ some (show bus port m (slice m.dram.at (p - dram_base) n))
  unfolding push_lcd
  push_lcd_dram m regs off val n p forward whole source low high =
      rw (forward, whole, span_dram m (reg regs (off - 0xC)) n p source low high) refl

  run_push :
      (m : Memory D) (regs : RegMap) (off val n p : ℕ) (w : IsPush regs off val n p)
      → run_channel bus port m (put regs off val) off val w.ch
        ≡ some (
            finish bus port w.ch val (
              show bus port
                (put_reg bus port m (running regs off val))
                (slice m.dram.at (p - dram_base) n)))
  unfolding run_channel running
  run_push m regs off val n p w =
      let twelve = past_twelve off val w.started in
      let e0 : (off - 0xC == off) ≡ false = ground (arith, twelve) in
      let e4 : (off - 0xC + 4 == off) ≡ false = ground (arith, twelve) in
      let e8 : (off - 0xC + 8 == off) ≡ false = ground (arith, twelve) in
      let regs' = running regs off val in
      let m' = put_reg bus port m regs' in
      let src : phys_of (reg regs' (off - 0xC)) ≡ p = rw e0 w.source in
      let tcr : push_size (reg regs' (off - 0xC + 8)) (dma_unit val) ≡ n = rw e8 w.whole in
      let pushed = push_lcd_dram m' regs' off val n p w.forward tcr src w.above w.below in
      rw (e0, e4, w.aligned, w.target, pushed) refl

  started_write :
      (m : Memory D) (va off val ch : ℕ)
      → sub32 va dmac_base ≡ off
      → starts off val ≡ true
      → channel off ≡ some ch
      → dmac_write bus port m va val
        ≡ run_channel bus port m (put (port.regs m.devices) off val) off val ch
  unfolding dmac_write write_reg
  started_write m va off val ch here started of_channel =
      ap (λ o. write_reg bus port m o val) here ∙ rw (started, of_channel) refl

  finish-regs :
      (ch val : ℕ) (m' : Memory D)
      → port.regs (finish bus port ch val m').devices ≡ port.regs m'.devices
  finish-regs ch val m' = elim (Bool-cases (bit_and val 4 != 0)) [
    | inl asks ↦ rw asks (laws.regs-raise m'.devices (get_or dmac_intevt ch 0))
    | inr quiet ↦ rw quiet refl
  ]

  -- The registers after a push, with TE set in the channel's CHCR.
  regs-push :
      (m : Memory D) (regs : RegMap) (ch val : ℕ) (src : List ℕ)
      → port.regs (finish bus port ch val (show bus port (put_reg bus port m regs) src)).devices
        ≡ regs
  regs-push m regs ch val src =
      finish-regs ch val (show bus port (put_reg bus port m regs) src)
      ∙ laws.regs-put_lcd (port.put_regs m.devices regs) _
      ∙ laws.regs-put_regs m.devices regs

running_chcr : (regs : RegMap) (off val : ℕ) → running regs off val off ≡ some (bit_or val 2)
unfolding running
running_chcr regs off val = let self : (off == off) ≡ true = (==_iff off off).1 refl in rw self refl

chcr_at : (off val : ℕ) → starts off val ≡ true → (bit_and off 0xF == 0xC) ≡ true
chcr_at off val h = ground arith

dmac_read-some :
    (regs : RegMap) (va off v : ℕ)
    → sub32 va dmac_base ≡ off
    → (bit_and off 0xF == 0xC) ≡ true
    → regs off ≡ some v
    → dmac_read regs va ≡ v
unfolding dmac_read
dmac_read-some regs va off v here at held = rw (here, at, held) refl

-- A push of the OS's frame: with the display set up for it and lit, a write to a channel's CHCR
-- that starts the transfer of 384 * 216 pixels from DRAM makes the host draw those pixels, byte for
-- byte. The DRAM stays as it was, and the channel reads as complete.
pub dmac_write-render_os :
    {D : Type 0} (bus : Mmio D) (port : DmaPort D) (m : Memory D) (off val p : ℕ) (pfc : RegMap)
    (dst : ℕ → ℕ) (j : ℕ)
    → IsLawful port
    → off < 0x1000
    → IsPush (port.regs m.devices) off val (fb_width * fb_height * 2) p
    → IsOsPush (port.lcd m.devices)
    → lit pfc (port.lcd m.devices) ≡ true
    → ((i : ℕ) → m.dram.at i < 256)
    → j < fb_width * fb_height * 2
    → (m' : Memory D) × (dmac_write bus port m (dmac_base + off) val ≡ some m')
      × (render_os pfc (port.lcd m'.devices) dst j ≡ m.dram.at (p - dram_base + j))
      × (m'.dram ≡ m.dram)
      × (dmac_read (port.regs m'.devices) (dmac_base + off) ≡ bit_or val 2)
dmac_write-render_os bus port m off val p pfc dst j laws small w o on bytes hj =
    let regs = port.regs m.devices in
    let n : ℕ = fb_width * fb_height * 2 in
    let m1 = put_reg bus port m (running regs off val) in
    let m2 = show bus port m1 (slice m.dram.at (p - dram_base) n) in
    let m3 = finish bus port w.ch val m2 in
    let here : sub32 (dmac_base + off) dmac_base ≡ off = omega (arith, small) in
    let panel : port.lcd m3.devices ≡ dma (port.lcd m.devices) (slice m.dram.at (p - dram_base) n) =
      finish-lcd bus port laws w.ch val m2
      ∙ lcd-show bus port laws m1 (slice m.dram.at (p - dram_base) n)
      ∙ ap (λ l. dma l (slice m.dram.at (p - dram_base) n)) (laws.lcd-put_regs m.devices _) in
    (
      m3,
      started_write bus port laws m (dmac_base + off) off val w.ch here w.started w.of_channel
          ∙ run_push bus port laws m regs off val n p w,
      ap (λ l. render_os pfc l dst j) panel
          ∙ render_os-dma pfc (port.lcd m.devices) (slice m.dram.at (p - dram_base) n) dst j o on
              (length-slice m.dram.at (p - dram_base) n)
              (λ i. slice-lt m.dram.at (p - dram_base) n i bytes) hj
          ∙ get_or-slice m.dram.at (p - dram_base) n j hj,
      finish-dram bus port laws w.ch val m2,
      dmac_read-some _ (dmac_base + off) off (bit_or val 2) here (chcr_at off val w.started) (
          ap (λ (r : RegMap). r off)
            (regs-push bus port laws m (running regs off val) w.ch val
              (slice m.dram.at (p - dram_base) n))
          ∙ running_chcr regs off val),
    )
