-- ===== src/Dma/Tests.antt =====
-- A machine with a DMA controller and a display, for the properties of the transfers of
-- emu_go/mmio.go.
use casio_cg.Base.{
  ℕ, ◌+◌, ◌-◌, ◌*◌, ◌%◌, bit_or, ◌≡◌, refl, inl, inr, true, false, none, some, List, [], ◌∷◌, arith,
  replicate, RegMap, no_regs, put,
}
use casio_cg.Cpu.Bus.{ok}
use casio_cg.Intc.{new_intc}
use casio_cg.Mmu.{no_entry}
use casio_cg.Flash.{idle}
use casio_cg.Memory.{dram_base, dram_size, ilram_size, ocram_size, xyram_size, Memory, Mmio}
use casio_cg.Lcd.{fb_width, fb_height, put_word, lit, render_os, Lcd}
use casio_cg.Lcd.Picture.{IsOsPush}
use casio_cg.Dma.{
  dmac_base, dma_unit, dmac_read, channel, push_size, mem_transfer, dmac_write, DmaPort,
}
use casio_cg.Dma.Push.{dmac_write-render_os, IsLawful, IsPush}
use casio_cg.Dma.Copy.{with_dram, mem_transfer-copy}

record Panel : Type 0 where
  regs : RegMap
  lcd : Lcd
  asked : List ℕ

abbrev panel_port : DmaPort Panel
panel_port = record {
  regs = λ d. d.regs;
  put_regs = λ d r. record d { regs = r };
  lcd = λ d. d.lcd;
  put_lcd = λ d l. record d { lcd = l };
  raise = λ d intevt. record d { asked = intevt ∷ d.asked };
}

panel_port-IsLawful : IsLawful panel_port
panel_port-IsLawful = record {
  regs-put_regs = λ d r. refl;
  regs-put_lcd = λ d l. refl;
  regs-raise = λ d i. refl;
  lcd-put_regs = λ d r. refl;
  lcd-put_lcd = λ d l. refl;
  lcd-raise = λ d i. refl;
}

abbrev silent : Mmio Panel
silent = record {
  read = λ m va size. (0, m);
  write = λ m va size val. ok 0 m;
  intc_of = λ d. new_intc;
  cpuopm = λ d. false;
  hle_of = λ c m. none;
  ubc_watches = λ d. false;
}

-- The display as the OS sets it up for its frame, and channel 0 at VRAM with 0x1440 units.
abbrev os_words : ℕ → ℕ
os_words =
    put_word
      (put_word
        (put_word (put_word (put_word (put_word (λ i. 0) 3 0xA0) 7 0x100) 0x210 6) 0x211 389) 0x212
        0)
      0x213 215

abbrev os_push : Lcd
os_push = record { idx = 0x202; words = os_words; h = 389; v = 0; gram = λ j. 0x1234; gen = 7 }

abbrev ready : RegMap
ready = put (put (put no_regs 0x20 0x0C000100) 0x24 0x14000000) 0x28 0x1440

abbrev machine : Memory Panel
machine = record {
  flash = record {
    array = λ (j : ℕ). 0xFF;
    fcmd = idle;
    buf_rem = none;
    buf_w = [];
    erase_busy = 0;
    erase_sect = 0;
    erase_tog = 0;
  };
  dram = record { size = dram_size; at = λ (j : ℕ). j % 251 };
  xyram = record { size = xyram_size; at = λ (j : ℕ). 0 };
  ilram = record { size = ilram_size; at = λ (j : ℕ). 0 };
  ocram = record { size = ocram_size; at = λ (j : ℕ). 0 };
  mmu = record { regs = no_regs; utlb = replicate 64 no_entry; translating = false; last = 0 };
  devices = record { regs = ready; lcd = os_push; asked = [] };
}

ready-IsPush : IsPush ready 0x2C 0x00101001 (fb_width * fb_height * 2) 0x0C000100
unfolding channel dma_unit push_size
ready-IsPush = record {
  ch = 0;
  started = refl;
  of_channel = refl;
  aligned = refl;
  target = refl;
  forward = refl;
  whole = refl;
  source = refl;
  above = omega arith;
  below = omega arith;
}

os_push-IsOsPush : IsOsPush os_push
os_push-IsOsPush = record {
  selected = refl;
  left = refl;
  right = refl;
  top = refl;
  bottom = refl;
  mirrored = refl;
  downward = refl;
  lines = refl;
  at_h = refl;
  at_v = refl;
}

os_push-lit : lit no_regs os_push ≡ true
unfolding lit
os_push-lit = refl

dmac_write-render_os_example :
    (m' : Memory Panel) × (dmac_write silent panel_port machine (dmac_base + 0x2C) 0x00101001
      ≡ some m')
    × (render_os no_regs m'.devices.lcd (λ j. 0) 1000
        ≡ machine.dram.at (0x0C000100 - dram_base + 1000))
    × (m'.dram ≡ machine.dram)
    × (dmac_read m'.devices.regs (dmac_base + 0x2C) ≡ bit_or 0x00101001 2)
dmac_write-render_os_example =
    dmac_write-render_os silent panel_port machine 0x2C 0x00101001 0x0C000100 no_regs (λ j. 0) 1000
      panel_port-IsLawful (omega arith) ready-IsPush os_push-IsOsPush os_push-lit (λ i. omega arith)
      (omega arith)

mem_transfer-copy_example :
    (a : ℕ → ℕ) × (mem_transfer silent machine 0x0C001000 0x0C002000 4 32 0x00105001
      ≡ some (with_dram machine a))
    × (a (0x0C002000 - dram_base + 100) ≡ machine.dram.at (0x0C001000 - dram_base + 100))
    × (a 0x3000 ≡ machine.dram.at 0x3000)
mem_transfer-copy_example =
    mem_transfer-copy silent machine 0x0C001000 0x0C002000 4 32 0x00105001 100 0x3000 refl
      (λ i. omega arith) refl refl (omega arith) (omega arith) (omega arith) (omega arith)
      (omega arith) (inl (omega arith)) (omega arith) (inr (omega arith))
