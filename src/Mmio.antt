-- ===== src/Mmio.antt =====
-- plugins/xfpga/mmio.c: the MMIO regions of an accelerator, mapped at their first use and kept in
-- the tracker `mmio_root`, and the accesses to them. What the kernel and the C library answer
-- during a call is a record, `Answers`; the handle's lock is held for the whole of a call.
pub mod Regions
pub mod Access
pub mod Unmap
mod Tests
use opae_libs.Prelude.{
  ℕ, ◌+◌, ◌%◌, ◌^◌, Bool, true, false, not, ◌||◌, Option, none, some, u64, ltb, ◌==◌,
}
use opae_libs.Prelude.{if◌then◌else◌}
use opae_libs.Types.{FpgaResult, fpga_ok, fpga_invalid_param, fpga_exception, fpga_no_memory}
use opae_libs.Types.{fpga_no_access, fpga_not_supported}
use opae_libs.Handle.{Handle, handle_check_and_lock}
use opae_libs.WsidList.{WsidMap, WsidTracker, wsid_add, wsid_del, wsid_find_by_index}

-- READ, WRITE and MMAP.
abbrev pub afu_permission : ℕ
afu_permission = 7

pub record RegionInfo : Type 0 where
  pub flags : ℕ
  pub size : ℕ
  pub offset : ℕ

-- `lock` and `relock`: the two `pthread_mutex_lock` calls; `region_ok` and `region_info`:
-- `opae_get_port_region_info`; `mmap` is none for MAP_FAILED; `wsid`: `wsid_gen`; `has_node`: the
-- `malloc` of `wsid_add`; `munmap`: it returned 0.
pub record Answers : Type 0 where
  pub lock : Bool
  pub relock : Bool
  pub region_ok : Bool
  pub region_info : RegionInfo
  pub mmap : Option ℕ
  pub wsid : ℕ
  pub has_node : Bool
  pub munmap : Bool

mmap_result : Option ℕ → FpgaResult × Option ℕ
mmap_result none = (fpga_invalid_param, none)
mmap_result (some addr) = (fpga_ok, some addr)

mmap_locked : Answers → FpgaResult × Option Handle → FpgaResult × Option ℕ
unfolding mmap_result
mmap_locked a (res, none) = (res, none)
mmap_locked a (res, some h) = mmap_result a.mmap

-- The address at which the region is mapped.
port_mmap_region : Answers → Handle → FpgaResult × Option ℕ
unfolding mmap_locked
port_mmap_region a h = mmap_locked a (handle_check_and_lock a.relock (some h))

region_map : Answers → ℕ → ℕ → WsidMap
region_map a mmio_num addr = record {
  wsid = a.wsid;
  addr = addr;
  phys = 0;
  len = a.region_info.size;
  offset = addr;
  index = mmio_num;
  flags = 0;
}

-- The tracker takes the region, or it is unmapped again.
add_region : Answers → Handle → ℕ → ℕ → FpgaResult × Handle
unfolding region_map
add_region a h mmio_num addr =
    let (added, root) = wsid_add a.has_node h.mmio_root (region_map a mmio_num addr) in
    if added
    then (fpga_ok, record h { mmio_root = root })
    else if a.munmap
    then (fpga_no_memory, h)
    else (fpga_invalid_param, h)

map_result : Answers → Handle → ℕ → FpgaResult × Option ℕ → FpgaResult × Handle
unfolding add_region
map_result a h mmio_num (res, none) = (res, h)
map_result a h mmio_num (res, some addr) = add_region a h mmio_num addr

map_mmio_region : Answers → Handle → ℕ → FpgaResult × Handle
unfolding port_mmap_region map_result
map_mmio_region a h mmio_num =
    if not a.region_ok || not (a.region_info.flags == afu_permission)
    then (fpga_no_access, h)
    else map_result a h mmio_num (port_mmap_region a h)

-- The second search, after the region was mapped.
search_again : Handle → Option WsidMap → FpgaResult × Option WsidMap × Handle
search_again h none = (fpga_no_memory, none, h)
search_again h (some wm) = (fpga_ok, some wm, h)

find_again : FpgaResult × Handle → ℕ → FpgaResult × Option WsidMap × Handle
unfolding search_again
find_again (fpga_ok, h) mmio_num = search_again h (wsid_find_by_index h.mmio_root mmio_num)
find_again (res, h) mmio_num = (res, none, h)

map_unless_found : Answers → Handle → ℕ → Option WsidMap → FpgaResult × Option WsidMap × Handle
unfolding map_mmio_region find_again
map_unless_found a h mmio_num none = find_again (map_mmio_region a h mmio_num) mmio_num
map_unless_found a h mmio_num (some wm) = (fpga_ok, some wm, h)

pub find_or_map_wm : Answers → Handle → ℕ → FpgaResult × Option WsidMap × Handle
unfolding map_unless_found
find_or_map_wm a h mmio_num =
    map_unless_found a h mmio_num (wsid_find_by_index h.mmio_root mmio_num)

-- `if (offset > wm->len)`, and the address of the access.
bounded : FpgaResult × Option WsidMap × Handle → ℕ → FpgaResult × Option ℕ × Option Handle
bounded (res, none, h) offset = (res, none, some h)
bounded (res, some wm, h) offset =
    if ltb wm.len offset
    then (fpga_invalid_param, none, some h)
    else (fpga_ok, some (u64 (wm.offset + offset)), some h)

access_locked :
    (Handle → Bool)
    → Answers
    → Option Handle
    → ℕ
    → ℕ
    → FpgaResult × Option Handle
    → FpgaResult × Option ℕ × Option Handle
unfolding bounded find_or_map_wm
access_locked supported a handle mmio_num offset (res, none) = (res, none, handle)
access_locked supported a handle mmio_num offset (res, some h) =
    if supported h
    then bounded (find_or_map_wm a h mmio_num) offset
    else (fpga_not_supported, none, some h)

-- What the five accesses share: the alignment, the handle, whether the handle supports the access,
-- the region, and its bound. The result, the address that is accessed, and the handle.
unfoldable pub mmio_access :
    ℕ → (Handle → Bool) → Answers → Option Handle → ℕ → ℕ → FpgaResult × Option ℕ × Option Handle
unfolding access_locked
mmio_access align supported a handle mmio_num offset =
    if offset % align == 0
    then access_locked supported a handle mmio_num offset (handle_check_and_lock a.lock handle)
    else (fpga_invalid_param, none, handle)

abbrev pub always : Handle → Bool
always h = true

-- OPAE_FLAG_HAS_MMX512 is bit 0 of the flags.
abbrev pub has_mmx512 : Handle → Bool
has_mmx512 h = h.flags % 2 == 1

-- A write of some bytes to an address.
pub record Written : Type 0 where
  pub address : ℕ
  pub width : ℕ
  pub value : ℕ

abbrev pub written :
    ℕ → ℕ → FpgaResult × Option ℕ × Option Handle → FpgaResult × Option Written × Option Handle
written width value (res, none, h) = (res, none, h)
written width value (res, some address, h) =
    (res, some (record { address = address; width = width; value = value }), h)

-- What the device gives at the address that is read.
abbrev pub loaded :
    (ℕ → ℕ) → FpgaResult × Option ℕ × Option Handle → FpgaResult × Option ℕ × Option Handle
loaded load (res, none, h) = (res, none, h)
loaded load (res, some address, h) = (res, some (load address), h)

unfoldable pub xfpga_fpga_write_mmio32 :
    Answers → Option Handle → ℕ → ℕ → ℕ → FpgaResult × Option Written × Option Handle
unfolding mmio_access
xfpga_fpga_write_mmio32 a handle mmio_num offset value =
    written 4 value (mmio_access 4 always a handle mmio_num offset)

unfoldable pub xfpga_fpga_read_mmio32 :
    (ℕ → ℕ) → Answers → Option Handle → ℕ → ℕ → FpgaResult × Option ℕ × Option Handle
unfolding mmio_access
xfpga_fpga_read_mmio32 load a handle mmio_num offset =
    loaded load (mmio_access 4 always a handle mmio_num offset)

unfoldable pub xfpga_fpga_write_mmio64 :
    Answers → Option Handle → ℕ → ℕ → ℕ → FpgaResult × Option Written × Option Handle
unfolding mmio_access
xfpga_fpga_write_mmio64 a handle mmio_num offset value =
    written 8 value (mmio_access 8 always a handle mmio_num offset)

unfoldable pub xfpga_fpga_read_mmio64 :
    (ℕ → ℕ) → Answers → Option Handle → ℕ → ℕ → FpgaResult × Option ℕ × Option Handle
unfolding mmio_access
xfpga_fpga_read_mmio64 load a handle mmio_num offset =
    loaded load (mmio_access 8 always a handle mmio_num offset)

-- The 64 bytes at the pointer are one value.
unfoldable pub xfpga_fpga_write_mmio512 :
    Answers → Option Handle → ℕ → ℕ → ℕ → FpgaResult × Option Written × Option Handle
unfolding mmio_access
xfpga_fpga_write_mmio512 a handle mmio_num offset value =
    written 64 value (mmio_access 64 has_mmx512 a handle mmio_num offset)

mapped_address : Bool → FpgaResult × Option WsidMap × Handle → FpgaResult × Option ℕ × Option Handle
mapped_address has_out (res, none, h) = (res, none, some h)
mapped_address has_out (res, some wm, h) =
    (fpga_ok, (if has_out then some wm.addr else none), some h)

map_locked :
    Answers
    → Option Handle
    → ℕ
    → Bool
    → FpgaResult × Option Handle
    → FpgaResult × Option ℕ × Option Handle
unfolding mapped_address find_or_map_wm
map_locked a handle mmio_num has_out (res, none) = (res, none, handle)
map_locked a handle mmio_num has_out (res, some h) =
    mapped_address has_out (find_or_map_wm a h mmio_num)

-- What is written to `*mmio_ptr`, where that is given.
unfoldable pub xfpga_fpga_map_mmio :
    Answers → Option Handle → ℕ → Bool → FpgaResult × Option ℕ × Option Handle
unfolding map_locked
xfpga_fpga_map_mmio a handle mmio_num has_out =
    map_locked a handle mmio_num has_out (handle_check_and_lock a.lock handle)

-- `munmap` of the region, and its removal from the tracker.
unmap_region : Answers → Handle → Option WsidMap → FpgaResult × Option Handle
unmap_region a h none = (fpga_invalid_param, some h)
unmap_region a h (some wm) =
    if a.munmap
    then (fpga_ok, some (record h { mmio_root = (wsid_del h.mmio_root wm.wsid).1 }))
    else (fpga_invalid_param, some h)

unmap_locked : Answers → Option Handle → ℕ → FpgaResult × Option Handle → FpgaResult × Option Handle
unfolding unmap_region
unmap_locked a handle mmio_num (res, none) = (res, handle)
unmap_locked a handle mmio_num (res, some h) =
    unmap_region a h (wsid_find_by_index h.mmio_root mmio_num)

unfoldable pub xfpga_fpga_unmap_mmio : Answers → Option Handle → ℕ → FpgaResult × Option Handle
unfolding unmap_locked
xfpga_fpga_unmap_mmio a handle mmio_num =
    unmap_locked a handle mmio_num (handle_check_and_lock a.lock handle)
