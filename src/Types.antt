-- ===== src/Types.antt =====
-- include/opae/types_enum.h: the return codes and the enumerations that the C API shares.
use opae_libs.Prelude.{ℕ, Bool, true, false}

pub data FpgaResult : Type 0 where
  fpga_ok fpga_invalid_param fpga_busy fpga_exception fpga_not_found fpga_no_memory : FpgaResult
  fpga_not_supported fpga_no_driver fpga_no_daemon fpga_no_access fpga_reconf_error : FpgaResult

-- The comparison with FPGA_OK.
abbrev pub is_ok : FpgaResult → Bool
is_ok fpga_ok = true
is_ok res = false

-- A `fpga_objtype` is a C enumeration, so a variable of the type holds any number.
abbrev pub fpga_device : ℕ
fpga_device = 0

abbrev pub fpga_accelerator : ℕ
fpga_accelerator = 1
