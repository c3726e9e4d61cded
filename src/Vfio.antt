-- ===== src/Vfio.antt =====
-- libopaevfio/opaevfio.c and include/opae/vfio.h: the DMA buffers of a VFIO device, whose I/O
-- addresses come from the allocator of MemAlloc, and the ranges that it starts with. What the
-- kernel and the C library answer is an argument; the calls that change mappings are recorded in
-- their order. The device's lock is held for the whole of an operation.
pub mod Count
pub mod Alloc
pub mod Free
pub mod Lost
pub mod Discover
pub mod Run
mod Tests
use opae_libs.Prelude.{ℕ, ◌+◌, ◌^◌, ◌-◌, ◌*◌, ◌/◌, Bool, true, false, Option, none, some, List}
use opae_libs.Prelude.{[], ◌∷◌, ◌++◌, u64, ltb, ◌==◌, if◌then◌else◌}
use opae_libs.Pages.{Pages, pages_for}
use opae_libs.MemAlloc.{MemAlloc, mem_alloc_destroy, mem_alloc_get}
use opae_libs.MemAlloc.{mem_alloc_put, mem_alloc_add_free}

pub record VfioBuffer : Type 0 where
  pub buffer_ptr : ℕ
  pub buffer_size : ℕ
  pub buffer_iova : ℕ

pub record IovaRange : Type 0 where
  pub start : ℕ
  pub end : ℕ

-- Of `struct opae_vfio`, what the buffers use.
pub record Vfio : Type 0 where
  pub cont_ranges : List IovaRange
  pub iova_alloc : MemAlloc
  pub cont_buffers : List VfioBuffer

-- The calls that change mappings: an `mmap` of a size that the kernel granted, with the address that it
-- gave; a `munmap` of an address and size; a `VFIO_IOMMU_MAP_DMA` of an address, size and I/O address
-- that was granted; and a `VFIO_IOMMU_UNMAP_DMA` of an I/O address and size. The calls that unmap are
-- recorded where they are made, granted or not: the code only logs their results.
pub data SysCall : Type 0 where
  mmap : Pages → ℕ → ℕ → SysCall
  munmap : ℕ → ℕ → SysCall
  map_dma : ℕ → ℕ → ℕ → SysCall
  unmap_dma : ℕ → ℕ → SysCall

-- `lock`: `pthread_mutex_lock`; `page_size`: `sysconf(_SC_PAGE_SIZE)`; `get_node`: the `malloc` of
-- `mem_alloc_get`; `vaddr`: `mmap`, none for MAP_FAILED; `dma`: VFIO_IOMMU_MAP_DMA; `node`: the
-- `malloc` of `opae_vfio_create_buffer`.
pub record Answers : Type 0 where
  pub lock : Bool
  pub page_size : ℕ
  pub get_node : Bool
  pub vaddr : Option ℕ
  pub dma : Bool
  pub node : Bool

-- What an allocation returns, what stands in `*size`, and what it writes to `*buf` and `*iova`.
pub record Allocation : Type 0 where
  pub ret : ℕ
  pub size : Option ℕ
  pub buf : Option ℕ
  pub iova : Option ℕ

abbrev pub refused : ℕ → Option ℕ → Allocation
refused ret size = record { ret = ret; size = size; buf = none; iova = none }

-- `page_size + ((*size - 1) & ~(page_size - 1))`, for a page size that is a power of two.
abbrev pub round_up : ℕ → ℕ → ℕ
round_up page_size size = u64 (page_size + (size - 1) / page_size * page_size)

-- The new `*size`, and what `mem_alloc_get` returns.
opae_vfio_iova_reserve : Answers → Vfio → ℕ → ℕ × ℕ × Option ℕ × MemAlloc
opae_vfio_iova_reserve a v size =
    let rounded = round_up a.page_size size in
    let (ret, out, m) = mem_alloc_get a.get_node v.iova_alloc rounded in (rounded, ret, out, m)

-- From `opae_vfio_create_buffer` on.
node_stage : Bool → Vfio → ℕ → ℕ → ℕ → Allocation × Vfio × List SysCall
node_stage true v size ioaddr vaddr = (
  record { ret = 0; size = some size; buf = some vaddr; iova = some ioaddr },
  record v {
    cont_buffers =
        record { buffer_ptr = vaddr; buffer_size = size; buffer_iova = ioaddr } ∷ v.cont_buffers;
  },
  [],
)
node_stage false v size ioaddr vaddr =
    (refused 6 (some size), v, unmap_dma ioaddr size ∷ munmap vaddr size ∷ [])

-- From the `ioctl` on, which the first Boolean answers.
dma_stage : Bool → Bool → Vfio → ℕ → ℕ → ℕ → Allocation × Vfio × List SysCall
unfolding node_stage
dma_stage true node v size ioaddr vaddr =
    let (r, v', calls) = node_stage node v size ioaddr vaddr in
    (r, v', map_dma vaddr size ioaddr ∷ calls)
dma_stage false node v size ioaddr vaddr = (refused 5 (some size), v, munmap vaddr size ∷ [])

-- From the `mmap` on.
map_stage : Answers → Vfio → ℕ → ℕ → Option ℕ → Allocation × Vfio × List SysCall
unfolding dma_stage
map_stage a v size ioaddr none = (refused 5 (some size), v, [])
map_stage a v size ioaddr (some vaddr) =
    let (r, v', calls) = dma_stage a.dma a.node v size ioaddr vaddr in
    (r, v', mmap (pages_for size) size vaddr ∷ calls)

-- `ioaddr` is 0 before `mem_alloc_get` writes it.
abbrev pub written_to : Option ℕ → ℕ
written_to none = 0
written_to (some x) = x

-- After the reservation, which gives `*size` and what `mem_alloc_get` gives.
reserved_stage : Answers → Vfio → ℕ × ℕ × Option ℕ × MemAlloc → Allocation × Vfio × List SysCall
unfolding map_stage
reserved_stage a v (size, ret, out, m) =
    let v' = record v { iova_alloc = m } in
    if ret == 0
    then map_stage a v' size (written_to out) a.vaddr
    else (refused 4 (some size), v', [])

-- NULL is none, for the device and for `size`.
unfoldable pub opae_vfio_buffer_allocate :
    Answers → Option Vfio → Option ℕ → Allocation × Option Vfio × List SysCall
unfolding reserved_stage opae_vfio_iova_reserve
opae_vfio_buffer_allocate a none size = (refused 1 size, none, [])
opae_vfio_buffer_allocate a (some v) none = (refused 1 none, some v, [])
opae_vfio_buffer_allocate a (some v) (some size) =
    if size == 0
    then (refused 2 (some size), some v, [])
    else if a.lock
    then (let (r, v', calls) = reserved_stage a v (opae_vfio_iova_reserve a v size) in
        (r, some v', calls))
    else (refused 3 (some size), some v, [])

-- One round of the loop of `opae_vfio_destroy_buffer`; the Boolean is whether the `malloc` of
-- `mem_alloc_put` succeeds. The results of the three calls are only logged.
destroy_one : Bool → MemAlloc → VfioBuffer → MemAlloc × List SysCall
destroy_one has_node m b = (
  (mem_alloc_put has_node m b.buffer_iova).1,
  unmap_dma b.buffer_iova b.buffer_size ∷ munmap b.buffer_ptr b.buffer_size ∷ [],
)

-- `has_node` gives for each I/O address whether `malloc` succeeds when it is given back.
opae_vfio_destroy_buffer : (ℕ → Bool) → MemAlloc → List VfioBuffer → MemAlloc × List SysCall
unfolding destroy_one
opae_vfio_destroy_buffer has_node m [] = (m, [])
opae_vfio_destroy_buffer has_node m (b ∷ bs) =
    let (m', calls) = destroy_one (has_node b.buffer_iova) m b in
    let (m'', calls') = opae_vfio_destroy_buffer has_node m' bs in (m'', calls ++ calls')

-- The loop of `opae_vfio_buffer_free`: the first buffer at the address, and the others.
keep_buffer :
    VfioBuffer → Option (VfioBuffer × List VfioBuffer) → Option (VfioBuffer × List VfioBuffer)
keep_buffer p none = none
keep_buffer p (some (b, bs)) = some (b, p ∷ bs)

unlink_buffer : ℕ → List VfioBuffer → Option (VfioBuffer × List VfioBuffer)
unfolding keep_buffer
unlink_buffer buf [] = none
unlink_buffer buf (b ∷ bs) =
    if b.buffer_ptr == buf then some (b, bs) else keep_buffer b (unlink_buffer buf bs)

free_found :
    (ℕ → Bool) → Vfio → Option (VfioBuffer × List VfioBuffer) → ℕ × Option Vfio × List SysCall
unfolding opae_vfio_destroy_buffer
free_found has_node v none = (3, some v, [])
free_found has_node v (some (b, bs)) =
    let (m, calls) = opae_vfio_destroy_buffer has_node v.iova_alloc (b ∷ []) in
    (0, some (record v { iova_alloc = m; cont_buffers = bs }), calls)

unfoldable pub opae_vfio_buffer_free :
    Bool → (ℕ → Bool) → Option Vfio → ℕ → ℕ × Option Vfio × List SysCall
unfolding free_found unlink_buffer
opae_vfio_buffer_free lock has_node none buf = (1, none, [])
opae_vfio_buffer_free lock has_node (some v) buf =
    if lock then free_found has_node v (unlink_buffer buf v.cont_buffers) else (2, some v, [])

-- Of `opae_vfio_destroy` and `opae_vfio_close`, what concerns the buffers and the I/O addresses.
unfoldable pub opae_vfio_destroy : (ℕ → Bool) → Vfio → Vfio × List SysCall
unfolding opae_vfio_destroy_buffer
opae_vfio_destroy has_node v =
    let (m, calls) = opae_vfio_destroy_buffer has_node v.iova_alloc v.cont_buffers in
    (record { cont_ranges = []; iova_alloc = mem_alloc_destroy m; cont_buffers = [] }, calls)

-- One range of a capability: `range_node` is whether the `malloc` of `opae_vfio_create_iova_range`
-- succeeds, and `block_node` that of `mem_alloc_add_free`, whose result is only logged.
pub record RangeAnswers : Type 0 where
  pub range : IovaRange
  pub range_node : Bool
  pub block_node : Bool

discover_one : MemAlloc → RangeAnswers → MemAlloc × List IovaRange
discover_one m r =
    if r.range_node
    then (
      (mem_alloc_add_free r.block_node m r.range.start
          (u64 (u64 (r.range.end + 1) + 2 ^ 64 - r.range.start))).1,
      r.range ∷ [],
    )
    else (m, [])

discover_ranges : MemAlloc → List RangeAnswers → MemAlloc × List IovaRange
unfolding discover_one
discover_ranges m [] = (m, [])
discover_ranges m (r ∷ rs) =
    let (m', l) = discover_one m r in let (m'', ls) = discover_ranges m' rs in (m'', l ++ ls)

-- A capability of the IOMMU: its id, and its ranges if it is a list of I/O address ranges.
pub record Capability : Type 0 where
  pub id : ℕ
  pub iova_ranges : List RangeAnswers

abbrev pub iommu_cap_iova_range : ℕ
iommu_cap_iova_range = 1

-- The ranges that the walk over the capabilities meets.
abbrev pub ranges_of : List Capability → List RangeAnswers
ranges_of [] = []
ranges_of (c ∷ cs) = (if c.id == iommu_cap_iova_range then c.iova_ranges else []) ++ ranges_of cs

-- What the kernel answers: none where one of the two calls of VFIO_IOMMU_GET_INFO or `calloc`
-- fails, otherwise the chain of capabilities.
unfoldable pub opae_vfio_iova_discover : Option (List Capability) → Vfio → Vfio
unfolding discover_ranges
opae_vfio_iova_discover none v = record v { cont_ranges = [] }
opae_vfio_iova_discover (some cs) v =
    let (m, ls) = discover_ranges v.iova_alloc (ranges_of cs) in
    record v { iova_alloc = m; cont_ranges = ls }
