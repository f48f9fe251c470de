-- ===== src/Adc/Tests.antt =====
-- A conversion started by software, at ten million instructions a second.
use casio_cg.Base.{true, false, no_regs}
use casio_cg.Adc.{Adc}

abbrev idle_adc : Adc
idle_adc = record {
  regs = no_regs;
  adc_mode = true;
  armed = false;
  done_at = 0;
  sw_armed = false;
  sw_done_at = 0;
}
