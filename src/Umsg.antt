-- ===== src/Umsg.antt =====
-- plugins/xfpga/umsg.c: the buffer through which messages reach an accelerator. What the driver and
-- the C library answer during a call is a record; the calls that change the port or the memory are
-- recorded in their order. The handle's lock is recursive and is held for the whole of a call.
pub mod Laws
mod Tests
use opae_libs.Prelude.{
  ℕ, ◌*◌, Bool, true, false, not, Option, none, some, List, [], ◌∷◌, ◌++◌, u64, ◌==◌, if◌then◌else◌,
}
use opae_libs.Types.{FpgaResult, fpga_ok, fpga_invalid_param, fpga_no_memory, is_ok}
use opae_libs.Handle.{Handle, handle_check_and_lock}

-- The calls: `alloc_buffer` with its length and address, `free_buffer`, the DMA mapping at an I/O
-- address and its end, the base address of the messages, and the two switches.
pub data UmsgCall : Type 0 where
  alloc_buffer : ℕ → ℕ → UmsgCall
  free_buffer : ℕ → ℕ → UmsgCall
  port_map : ℕ → ℕ → ℕ → UmsgCall
  port_unmap : ℕ → UmsgCall
  set_base_addr : ℕ → UmsgCall
  enable disable : UmsgCall

-- `port_info`: `opae_get_port_info` with the number of messages, or its error; `page_size`:
-- `sysconf`; `buffer`: `alloc_buffer`, none for NULL; `mapped`: the result of `opae_port_map` and
-- the address that it gives; the others are the results of the driver's calls. `relock` is the
-- lock that a nested call takes.
pub record Answers : Type 0 where
  pub lock : Bool
  pub relock : Bool
  pub port_info : FpgaResult × ℕ
  pub page_size : ℕ
  pub buffer : Option ℕ
  pub mapped : FpgaResult × ℕ
  pub based : FpgaResult
  pub enabled : FpgaResult
  pub unmapped : FpgaResult
  pub configured : FpgaResult

-- The result, what is written through the pointer, the handle, and the calls.
abbrev pub Outcome : Type 0
Outcome = FpgaResult × Option ℕ × Option Handle × List UmsgCall

get_num_locked : Answers → FpgaResult × Option Handle → FpgaResult × Option ℕ
get_num_locked a (res, none) = (res, none)
get_num_locked a (res, some h) = elim h.fddev [
  | none ↦ (fpga_invalid_param, none)
  | some fd ↦ (a.port_info.0, if is_ok a.port_info.0 then some a.port_info.1 else none)
]

-- The Boolean is whether `value` is not NULL.
unfoldable pub xfpga_fpga_get_num_umsg : Answers → Option Handle → Bool → FpgaResult × Option ℕ
unfolding get_num_locked
xfpga_fpga_get_num_umsg a handle has_value =
    if has_value
    then get_num_locked a (handle_check_and_lock a.lock handle)
    else (fpga_invalid_param, none)

set_attributes_locked : Answers → FpgaResult × Option Handle → FpgaResult
set_attributes_locked a (res, none) = res
set_attributes_locked a (res, some h) = elim h.fddev [
  | none ↦ fpga_invalid_param
  | some fd ↦ a.configured
]

unfoldable pub xfpga_fpga_set_umsg_attributes : Answers → Option Handle → FpgaResult
unfolding set_attributes_locked
xfpga_fpga_set_umsg_attributes a handle =
    set_attributes_locked a (handle_check_and_lock a.lock handle)

-- From the label `umsg_map_exit`: the result is that of `opae_port_unmap`.
map_exit : Answers → Handle → ℕ → ℕ → Outcome
map_exit a h virt size =
    (a.unmapped, none, some h, port_unmap a.mapped.1 ∷ free_buffer virt size ∷ [])

-- From `opae_port_umsg_enable` on.
enable_stage : Answers → Handle → ℕ → ℕ → Outcome
unfolding map_exit
enable_stage a h virt size =
    if is_ok a.enabled
    then (
      fpga_ok,
      some virt,
      some (record h { umsg_iova = a.mapped.1; umsg_virt = virt; umsg_size = size }),
      enable ∷ [],
    )
    else map_exit a h virt size

-- From `opae_port_umsg_set_base_addr` on.
base_stage : Answers → Handle → ℕ → ℕ → Outcome
unfolding enable_stage map_exit
base_stage a h virt size =
    if is_ok a.based
    then (let (res, out, h', calls) = enable_stage a h virt size in
        (res, out, h', set_base_addr a.mapped.1 ∷ calls))
    else map_exit a h virt size

-- From `opae_port_map` on.
map_stage : Answers → Handle → ℕ → ℕ → Outcome
unfolding base_stage
map_stage a h virt size =
    if is_ok a.mapped.0
    then (let (res, out, h', calls) = base_stage a h virt size in
        (res, out, h', port_map virt size a.mapped.1 ∷ calls))
    else (a.mapped.0, none, some h, free_buffer virt size ∷ [])

buffer_stage : Answers → Handle → ℕ → Option ℕ → Outcome
unfolding map_stage
buffer_stage a h size none = (fpga_no_memory, none, some h, [])
buffer_stage a h size (some virt) =
    let (res, out, h', calls) = map_stage a h virt size in
    (res, out, h', alloc_buffer size virt ∷ calls)

-- The descriptor is open: the buffer that is there, or a new one.
get_ptr_open : Answers → Handle → Outcome
unfolding buffer_stage
get_ptr_open a h =
    if h.umsg_iova == 0
    then (if is_ok a.port_info.0
        then buffer_stage a h (u64 (a.port_info.1 * a.page_size)) a.buffer
        else (a.port_info.0, none, some h, []))
    else (fpga_ok, some h.umsg_virt, some h, [])

get_ptr_locked : Answers → Option Handle → FpgaResult × Option Handle → Outcome
unfolding get_ptr_open
get_ptr_locked a handle (res, none) = (res, none, handle, [])
get_ptr_locked a handle (res, some h) = elim h.fddev [
  | none ↦ (fpga_invalid_param, none, some h, [])
  | some fd ↦ get_ptr_open a h
]

-- The Boolean is whether `umsg_ptr` is not NULL.
unfoldable pub xfpga_fpga_get_umsg_ptr : Answers → Option Handle → Bool → Outcome
unfolding get_ptr_locked
xfpga_fpga_get_umsg_ptr a handle has_ptr =
    if has_ptr
    then get_ptr_locked a handle (handle_check_and_lock a.lock handle)
    else (fpga_invalid_param, none, handle, [])

free_locked :
    Option Handle → FpgaResult × Option Handle → FpgaResult × Option Handle × List UmsgCall
free_locked handle (res, none) = (res, handle, [])
free_locked handle (res, some h) = if h.umsg_virt == 0 then (fpga_ok, some h, []) else (
  fpga_ok,
  some (record h { umsg_virt = 0; umsg_size = 0; umsg_iova = 0 }),
  disable ∷ set_base_addr 0 ∷ port_unmap h.umsg_iova ∷ free_buffer h.umsg_virt h.umsg_size ∷ [],
)

-- The results of the driver's calls are only logged.
unfoldable pub free_umsg_buffer :
    Answers → Option Handle → FpgaResult × Option Handle × List UmsgCall
unfolding free_locked
free_umsg_buffer a handle = free_locked handle (handle_check_and_lock a.lock handle)

-- Where a message is written: the address, none for no write, or a write through a NULL pointer.
pub data Write : Type 0 where
  no_write null_write : Write
  write : ℕ → ℕ → Write

-- `umsg_ptr` is NULL before the nested call.
trigger_result : ℕ → Outcome → FpgaResult × Write × Option Handle × List UmsgCall
trigger_result value (fpga_ok, none, h, calls) = (fpga_ok, null_write, h, calls)
trigger_result value (fpga_ok, some ptr, h, calls) = (fpga_ok, write ptr value, h, calls)
trigger_result value (res, out, h, calls) = (res, no_write, h, calls)

trigger_locked :
    Answers
    → Option Handle
    → ℕ
    → FpgaResult × Option Handle
    → FpgaResult × Write × Option Handle × List UmsgCall
unfolding trigger_result get_ptr_locked
trigger_locked a handle value (res, none) = (res, no_write, handle, [])
trigger_locked a handle value (res, some h) = elim h.fddev [
  | none ↦ (fpga_invalid_param, no_write, some h, [])
  | some fd ↦
      trigger_result value (get_ptr_locked a (some h) (handle_check_and_lock a.relock (some h)))
]

unfoldable pub xfpga_fpga_trigger_umsg :
    Answers → Option Handle → ℕ → FpgaResult × Write × Option Handle × List UmsgCall
unfolding trigger_locked
xfpga_fpga_trigger_umsg a handle value =
    trigger_locked a handle value (handle_check_and_lock a.lock handle)
