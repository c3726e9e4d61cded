-- ===== src/Handle.antt =====
-- plugins/xfpga/types_int.h and common.c: the handle of an open accelerator, which the operations of
-- the plugin check and lock first.
use opae_libs.Prelude.{
  ℕ, Bool, true, false, Option, none, some, ◌==◌, if◌then◌else◌, ==_iff, ◌≡◌, refl,
}
use opae_libs.Types.{FpgaResult, fpga_ok, fpga_invalid_param, fpga_exception}
use opae_libs.WsidList.{WsidTracker}

-- Of `struct _fpga_handle`, what the regions, buffers and messages use. A negative `fddev` is none,
-- and a NULL `umsg_virt` or `umsg_iova` is 0.
pub record Handle : Type 0 where
  pub magic : ℕ
  pub fddev : Option ℕ
  pub wsid_root : WsidTracker
  pub mmio_root : WsidTracker
  pub umsg_virt : ℕ
  pub umsg_size : ℕ
  pub umsg_iova : ℕ
  pub flags : ℕ

abbrev pub fpga_handle_magic : ℕ
fpga_handle_magic = 0x46504741484e444c

-- NULL is none. The result is FPGA_OK exactly where the handle is given back.
abbrev pub handle_check_and_lock : Bool → Option Handle → FpgaResult × Option Handle
handle_check_and_lock lock none = (fpga_invalid_param, none)
handle_check_and_lock false (some h) = (fpga_exception, none)
handle_check_and_lock true (some h) =
    if h.magic == fpga_handle_magic then (fpga_ok, some h) else (fpga_invalid_param, none)

-- A handle with the magic number, whose lock can be taken, is accepted.
pub handle_check_and_lock_valid :
    (h : Handle)
    → h.magic ≡ fpga_handle_magic
    → handle_check_and_lock true (some h) ≡ (fpga_ok, some h)
handle_check_and_lock_valid h m =
    let same : (h.magic == fpga_handle_magic) ≡ true = (==_iff _ _).1 m in rw same refl
