-- ===== src/Mmio/Tests.antt =====
-- A handle whose region is mapped, accessed and unmapped, and the theorems at it.
use opae_libs.Prelude.{true, none, some, [], ◌∷◌, ◌≡◌, refl, arith, replicate}
use opae_libs.Types.{fpga_ok, fpga_invalid_param, fpga_not_supported}
use opae_libs.WsidList.{WsidMap, wsid_add, wsid_find_by_index, wsid_tracker_init}
use opae_libs.WsidList.View.{IsValid, wsid_tracker_init-IsValid}
use opae_libs.Handle.{Handle, fpga_handle_magic}
use opae_libs.Mmio.{Answers, mmio_access, always}
use opae_libs.Mmio.{xfpga_fpga_write_mmio32, xfpga_fpga_read_mmio64, xfpga_fpga_write_mmio512}
use opae_libs.Mmio.Access.{Accessed, mmio_access-Accessed}
use opae_libs.Mmio.Access.{xfpga_fpga_write_mmio32-behind}
use opae_libs.Mmio.Unmap.{Granted}

abbrev handle : Handle
handle = record {
  magic = fpga_handle_magic;
  fddev = some 3;
  wsid_root = record { n_hash_buckets = 4; table = replicate 4 [] };
  mmio_root = record { n_hash_buckets = 4; table = replicate 4 [] };
  umsg_virt = 0;
  umsg_size = 0;
  umsg_iova = 0;
  flags = 0;
}

abbrev answers : Answers
answers = record {
  lock = true;
  relock = true;
  region_ok = true;
  region_info = record { flags = 7; size = 256; offset = 0 };
  mmap = some 65536;
  wsid = 6;
  has_node = true;
  munmap = true;
}

abbrev region : WsidMap
region = record {
  wsid = 6;
  addr = 65536;
  phys = 0;
  len = 256;
  offset = 65536;
  index = 0;
  flags = 0;
}

abbrev mapped : Handle
mapped = record handle {
  mmio_root = record { n_hash_buckets = 4; table = [] ∷ [] ∷ (region ∷ []) ∷ [] ∷ [] };
}

handle-IsValid : IsValid handle.mmio_root
handle-IsValid = (wsid_tracker_init-IsValid true true 4 made).0
  where
    made : wsid_tracker_init true true 4 ≡ some handle.mmio_root
    made = unfold wsid_tracker_init in refl

region_found : wsid_find_by_index mapped.mmio_root 0 ≡ some region
unfolding wsid_find_by_index
region_found = refl

none_found : wsid_find_by_index handle.mmio_root 0 ≡ none
unfolding wsid_find_by_index
none_found = refl

write_maps :
    xfpga_fpga_write_mmio32 answers (some handle) 0 8 5
    ≡ (fpga_ok, some (record { address = 65544; width = 4; value = 5 }), some mapped)
unfolding xfpga_fpga_write_mmio32 wsid_find_by_index wsid_add
write_maps = refl

misaligned : (xfpga_fpga_read_mmio64 (λ x. x) answers (some handle) 0 12).0 ≡ fpga_invalid_param
unfolding xfpga_fpga_read_mmio64
misaligned = refl

no_512 : (xfpga_fpga_write_mmio512 answers (some handle) 0 64 0).0 ≡ fpga_not_supported
unfolding xfpga_fpga_write_mmio512
no_512 = refl

mmio_access-Accessed_example : Accessed 8 0 16 (mmio_access 8 always answers (some handle) 0 16)
mmio_access-Accessed_example = mmio_access-Accessed 8 always answers handle 0 16 handle-IsValid

xfpga_fpga_write_mmio32-behind_example :
    xfpga_fpga_write_mmio32 answers (some mapped) 0 256 5
    ≡ (fpga_ok, some (record { address = 65792; width = 4; value = 5 }), some mapped)
xfpga_fpga_write_mmio32-behind_example =
    xfpga_fpga_write_mmio32-behind answers mapped 0 5 region refl refl region_found refl
      (omega arith)

answers-Granted : Granted answers 65536
answers-Granted = record {
  lock = refl;
  relock = refl;
  region_ok = refl;
  permission = refl;
  mmap = refl;
  has_node = refl;
}
