-- ===== src/Buffer.antt =====
-- plugins/xfpga/buffer.c: the DMA buffers of an accelerator, which the tracker `wsid_root` keeps by
-- their workspace ids. What the kernel and the C library answer during a call is a record; the
-- calls that change mappings are recorded in their order. The handle's lock is held for the whole
-- of a call.
pub mod Prepare
pub mod Trip
pub mod Lost
mod Tests
use opae_libs.Prelude.{
  ℕ, ◌+◌, ◌-◌, ◌*◌, ◌/◌, ◌%◌, Bool, true, false, not, ◌||◌, ◌&&◌, Option, none, some,
}
use opae_libs.Prelude.{List, [], ◌∷◌, ◌++◌, u64, ltb, leb, ◌==◌, if◌then◌else◌}
use opae_libs.Types.{FpgaResult, fpga_ok, fpga_invalid_param, fpga_no_memory, fpga_not_found}
use opae_libs.Pages.{Pages, pages_for}
use opae_libs.Handle.{Handle, handle_check_and_lock}
use opae_libs.WsidList.{WsidMap, WsidTracker, wsid_add, wsid_del, wsid_find}

-- The calls that change mappings: an `mmap` of a length that the kernel granted, with its address; a
-- `munmap` of an address and a length; a DMA mapping of an address and a length that was granted, with
-- its I/O address; and the end of one. A `munmap` and an `opae_port_unmap` are recorded where they are
-- made, also where they fail.
pub data BufferCall : Type 0 where
  mmap : Pages → ℕ → ℕ → BufferCall
  munmap : ℕ → ℕ → BufferCall
  port_map : ℕ → ℕ → Bool → ℕ → BufferCall
  port_unmap : ℕ → BufferCall

-- `page_size`: `sysconf`; `buffer`: `mmap`, none for MAP_FAILED, with `errno` being ENOMEM or not in
-- `no_memory`; `io_addr`: `opae_port_map`, none where it fails; `wsid`: `wsid_gen`; `has_node`: the
-- `malloc` of `wsid_add`; `unmapped`: `opae_port_unmap` succeeds; `released`: `munmap` succeeds.
pub record Answers : Type 0 where
  pub lock : Bool
  pub page_size : ℕ
  pub buffer : Option ℕ
  pub no_memory : Bool
  pub io_addr : Option ℕ
  pub wsid : ℕ
  pub has_node : Bool
  pub unmapped : Bool
  pub released : Bool

-- The bits of the flags.
abbrev pub is_preallocated : ℕ → Bool
is_preallocated flags = flags % 2 == 1

abbrev pub is_read_only : ℕ → Bool
is_read_only flags = flags / 4 % 2 == 1

-- What the checks and the allocation end with: a result, or the address and length of a buffer.
pub data Source : Type 0 where
  done : FpgaResult → Source
  ready : ℕ → ℕ → List BufferCall → Source

buffer_allocate : Answers → ℕ → Source
buffer_allocate a len = elim a.buffer [
  | none ↦ done (if a.no_memory then fpga_no_memory else fpga_invalid_param)
  | some addr ↦ ready addr len (mmap (pages_for len) len addr ∷ [])
]

-- The length that `munmap` is called with.
abbrev pub release_len : ℕ → ℕ
release_len len =
    if ltb (2 * 1024 * 1024) len
    then u64 (len + (1024 * 1024 * 1024 - 1)) / (1024 * 1024 * 1024) * (1024 * 1024 * 1024)
    else if ltb 4096 len
    then 2 * 1024 * 1024
    else len

buffer_release : Answers → ℕ → ℕ → FpgaResult × List BufferCall
buffer_release a addr len =
    (if a.released then fpga_ok else fpga_invalid_param, munmap addr (release_len len) ∷ [])

-- `*buf_addr`, or none for a NULL pointer.
preallocated_source : ℕ → ℕ → Option ℕ → Source
preallocated_source page_size len none = done (if len == 0 then fpga_ok else fpga_invalid_param)
preallocated_source page_size len (some addr) =
    if addr == 0
    then done fpga_invalid_param
    else if len == 0 || not (len % page_size == 0)
    then done fpga_invalid_param
    else ready addr len []

-- `if (len & (pg_size - 1)) len = pg_size + (len & ~(pg_size - 1))`, for a page size that is a power
-- of two.
abbrev pub whole_pages : ℕ → ℕ → ℕ
whole_pages page_size len =
    if len % page_size == 0 then len else u64 (page_size + len / page_size * page_size)

fresh_source : Answers → ℕ → Option ℕ → Source
unfolding buffer_allocate
fresh_source a len none = done fpga_invalid_param
fresh_source a len (some addr) =
    if len == 0 then done fpga_invalid_param else buffer_allocate a (whole_pages a.page_size len)

-- The result, what is written to `*buf_addr` and `*wsid`, the tracker, and the calls.
abbrev pub Outcome : Type 0
Outcome = FpgaResult × Option ℕ × Option ℕ × WsidTracker × List BufferCall

-- The arguments of `wsid_add`.
abbrev pub buffer_entry : ℕ → ℕ → ℕ → ℕ → ℕ → WsidMap
buffer_entry wsid addr io_addr len flags = record {
  wsid = wsid;
  addr = addr;
  phys = io_addr;
  len = len;
  offset = 0;
  index = 0;
  flags = flags;
}

-- `if (!preallocated) buffer_release(addr, len)`, whose result is not looked at.
release_unless : Bool → Answers → ℕ → ℕ → List BufferCall
unfolding buffer_release
release_unless preallocated a addr len = if preallocated then [] else (buffer_release a addr len).1

added_outcome : Answers → WsidTracker → ℕ → ℕ → ℕ → Bool × WsidTracker → Outcome
unfolding release_unless
added_outcome a root addr len flags (true, root') = (fpga_ok, some addr, some a.wsid, root', [])
added_outcome a root addr len flags (false, root') =
    (fpga_no_memory, none, some a.wsid, root', release_unless (is_preallocated flags) a addr len)

map_outcome : Answers → WsidTracker → ℕ → ℕ → ℕ → Option ℕ → Outcome
unfolding added_outcome
map_outcome a root addr len flags none =
    (fpga_invalid_param, none, none, root, release_unless (is_preallocated flags) a addr len)
map_outcome a root addr len flags (some io_addr) =
    let (res, out, id, root', calls) =
      added_outcome a root addr len flags
        (wsid_add a.has_node root (buffer_entry a.wsid addr io_addr len flags)) in
    (res, out, id, root', port_map addr len (is_read_only flags) io_addr ∷ calls)

source_outcome : Answers → WsidTracker → ℕ → Source → Outcome
unfolding map_outcome
source_outcome a root flags (done res) = (res, none, none, root, [])
source_outcome a root flags (ready addr len before) =
    let (res, out, id, root', calls) = map_outcome a root addr len flags a.io_addr in
    (res, out, id, root', before ++ calls)

prepare_locked : Answers → WsidTracker → ℕ → Option ℕ → Bool → ℕ → Outcome
unfolding source_outcome preallocated_source fresh_source
prepare_locked a root len buf_addr has_wsid flags =
    if not has_wsid
    then (fpga_invalid_param, none, none, root, [])
    else if leb 8 flags
    then (fpga_invalid_param, none, none, root, [])
    else source_outcome a root flags (
        if is_preallocated flags
        then preallocated_source a.page_size len buf_addr
        else fresh_source a len buf_addr)

prepare_checked :
    Answers
    → Option Handle
    → ℕ
    → Option ℕ
    → Bool
    → ℕ
    → FpgaResult × Option Handle
    → FpgaResult × Option ℕ × Option ℕ × Option Handle × List BufferCall
unfolding prepare_locked
prepare_checked a handle len buf_addr has_wsid flags (res, none) = (res, none, none, handle, [])
prepare_checked a handle len buf_addr has_wsid flags (res, some h) =
    let (res', out, id, root, calls) = prepare_locked a h.wsid_root len buf_addr has_wsid flags in
    (res', out, id, some (record h { wsid_root = root }), calls)

-- The flags are an unsigned number here; none is a NULL `buf_addr`, and `has_wsid` is whether `wsid`
-- is not NULL.
unfoldable pub xfpga_fpga_prepare_buffer :
    Answers
    → Option Handle
    → ℕ
    → Option ℕ
    → Bool
    → ℕ
    → FpgaResult × Option ℕ × Option ℕ × Option Handle × List BufferCall
unfolding prepare_checked
xfpga_fpga_prepare_buffer a handle len buf_addr has_wsid flags =
    prepare_checked a handle len buf_addr has_wsid flags (handle_check_and_lock a.lock handle)

-- From the `opae_port_unmap` on; the entry is deleted also where a call fails.
release_result : Answers → WsidMap → FpgaResult × List BufferCall
unfolding buffer_release
release_result a wm =
    if a.unmapped
    then (if is_preallocated wm.flags
        then (fpga_ok, port_unmap wm.phys ∷ [])
        else (let (res, calls) = buffer_release a wm.addr wm.len in
            (res, port_unmap wm.phys ∷ calls)))
    else (fpga_invalid_param, port_unmap wm.phys ∷ [])

release_found : Answers → Handle → ℕ → Option WsidMap → FpgaResult × Option Handle × List BufferCall
unfolding release_result
release_found a h wsid none = (fpga_invalid_param, some h, [])
release_found a h wsid (some wm) =
    let (res, calls) = release_result a wm in
    (res, some (record h { wsid_root = (wsid_del h.wsid_root wsid).1 }), calls)

release_checked :
    Answers
    → Option Handle
    → ℕ
    → FpgaResult × Option Handle
    → FpgaResult × Option Handle × List BufferCall
unfolding release_found
release_checked a handle wsid (res, none) = (res, handle, [])
release_checked a handle wsid (res, some h) = release_found a h wsid (wsid_find h.wsid_root wsid)

unfoldable pub xfpga_fpga_release_buffer :
    Answers → Option Handle → ℕ → FpgaResult × Option Handle × List BufferCall
unfolding release_checked
xfpga_fpga_release_buffer a handle wsid =
    release_checked a handle wsid (handle_check_and_lock a.lock handle)

found_address : Option WsidMap → FpgaResult × Option ℕ
found_address none = (fpga_not_found, none)
found_address (some wm) = (fpga_ok, some wm.phys)

address_checked : ℕ → FpgaResult × Option Handle → FpgaResult × Option ℕ
unfolding found_address
address_checked wsid (res, none) = (res, none)
address_checked wsid (res, some h) = found_address (wsid_find h.wsid_root wsid)

-- The result, and what is written to `*ioaddr`.
unfoldable pub xfpga_fpga_get_io_address : Answers → Option Handle → ℕ → FpgaResult × Option ℕ
unfolding address_checked
xfpga_fpga_get_io_address a handle wsid = address_checked wsid (handle_check_and_lock a.lock handle)
