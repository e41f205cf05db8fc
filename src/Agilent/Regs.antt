-- ===== src/Agilent/Regs.antt =====
-- agilent_82357_tms9914.h: the registers of the TMS9914A and of the adapter's firmware, and the values
-- written to them. `TMS_X` is `tms_x`, `AGILENT_X` is `x`.
use darwin_gpib.Prelude.{ℕ}

abbrev pub tms_imr0 : ℕ
tms_imr0 = 0

abbrev pub tms_imr1 : ℕ
tms_imr1 = 1

abbrev pub tms_auxcr : ℕ
tms_auxcr = 3

abbrev pub tms_adr : ℕ
tms_adr = 4

abbrev pub tms_spmr : ℕ
tms_spmr = 5

abbrev pub tms_ppr : ℕ
tms_ppr = 6

abbrev pub tms_bsr : ℕ
tms_bsr = 3

abbrev pub aux_cs : ℕ
aux_cs = 0x80

abbrev pub aux_chip_reset : ℕ
aux_chip_reset = 0

abbrev pub aux_inval : ℕ
aux_inval = 1

abbrev pub aux_hlde : ℕ
aux_hlde = 4

abbrev pub aux_nbaf : ℕ
aux_nbaf = 5

abbrev pub aux_lon : ℕ
aux_lon = 9

abbrev pub aux_ton : ℕ
aux_ton = 0xa

abbrev pub aux_rpp : ℕ
aux_rpp = 0xe

abbrev pub aux_sic : ℕ
aux_sic = 0xf

abbrev pub aux_sre : ℕ
aux_sre = 0x10

abbrev pub aux_rqc : ℕ
aux_rqc = 0x11

abbrev pub aux_stdl : ℕ
aux_stdl = 0x15

abbrev pub aux_vstdl : ℕ
aux_vstdl = 0x17

abbrev pub aux_rsv2 : ℕ
aux_rsv2 = 0x18

abbrev pub fw_hw_control : ℕ
fw_hw_control = 0xa

abbrev pub fw_led_control : ℕ
fw_led_control = 0xb

abbrev pub fw_reset_to_powerup : ℕ
fw_reset_to_powerup = 0xc

abbrev pub fw_protocol_control : ℕ
fw_protocol_control = 0xd

abbrev pub fw_fast_talker_t1 : ℕ
fw_fast_talker_t1 = 0xe

abbrev pub hwc_not_ti_reset : ℕ
hwc_not_ti_reset = 1

abbrev pub hwc_system_controller : ℕ
hwc_system_controller = 2

abbrev pub hwc_not_parallel_poll : ℕ
hwc_not_parallel_poll = 4
