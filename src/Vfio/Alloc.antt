-- ===== src/Vfio/Alloc.antt =====
-- The invariant of the buffers, and `opae_vfio_buffer_allocate`.
use opae_libs.Prelude.{ℕ, ◌+◌, ◌≤◌, ◌<◌, List, [], ◌∷◌, ◌++◌, ◌≡◌, ◌≢◌, refl, sym, ap, arith}
use opae_libs.Prelude.{
  Bool, true, false, Option, none, some, ◌==◌, if◌then◌else◌, Bool-cases, inl, inr, ◌⊎◌,
}
use mathlib.Core.Path.{subst}
use opae_libs.MemAlloc.{MemLink, MemAlloc, mem_alloc_get}
use opae_libs.MemAlloc.Cover.{within, cover}
use opae_libs.MemAlloc.Owned as Owned
use opae_libs.MemAlloc.Owned.{Got, mem_alloc_get_lem, mem_alloc_get-IsValid}
use opae_libs.Pages.{pages_for}
use opae_libs.Vfio.{
  VfioBuffer, Vfio, SysCall, mmap, munmap, map_dma, unmap_dma, Answers, Allocation, refused,
}
use opae_libs.Vfio.{
  round_up, opae_vfio_iova_reserve, node_stage, dma_stage, map_stage, reserved_stage,
}
use opae_libs.Vfio.{opae_vfio_buffer_allocate}
use opae_libs.Vfio.Count.{times, times-append, cover_mono, is_link}

-- The block of I/O addresses of a buffer.
abbrev pub block : VfioBuffer → MemLink
block b = record { address = b.buffer_iova; size = b.buffer_size }

abbrev pub blocks : List VfioBuffer → List MemLink
blocks [] = []
blocks (b ∷ bs) = block b ∷ blocks bs

-- The allocator is valid, and every buffer has a block of its own among the allocated ones.
pub record IsValid (v : Vfio) : Type 0 where
  pub alloc : Owned.IsValid v.iova_alloc
  pub backed : (k : MemLink) → times k (blocks v.cont_buffers) ≤ times k v.iova_alloc.allocated

-- No I/O address belongs to two buffers of a valid device, or to a buffer and to the free space.
pub IsValid-exclusive :
    (v : Vfio)
    → IsValid v
    → (x : ℕ) → cover x (blocks v.cont_buffers) + cover x v.iova_alloc.free ≤ 1
IsValid-exclusive v h x = omega (
  arith,
  cover_mono (blocks v.cont_buffers) v.iova_alloc.allocated h.backed x,
  h.alloc.exclusive x,
)

-- How often the kernel was asked to map, and to unmap, a block of I/O addresses, and memory.
abbrev pub dma_mapped : MemLink → List SysCall → ℕ
dma_mapped k [] = 0
dma_mapped k (map_dma vaddr size iova ∷ cs) =
    (if is_link k (record { address = iova; size = size }) then 1 else 0) + dma_mapped k cs
dma_mapped k (c ∷ cs) = dma_mapped k cs

abbrev pub dma_unmapped : MemLink → List SysCall → ℕ
dma_unmapped k [] = 0
dma_unmapped k (unmap_dma iova size ∷ cs) =
    (if is_link k (record { address = iova; size = size }) then 1 else 0) + dma_unmapped k cs
dma_unmapped k (c ∷ cs) = dma_unmapped k cs

-- The same of the memory, of which the address and the size are a `MemLink` here.
abbrev pub mapped : MemLink → List SysCall → ℕ
mapped k [] = 0
mapped k (mmap p size vaddr ∷ cs) =
    (if is_link k (record { address = vaddr; size = size }) then 1 else 0) + mapped k cs
mapped k (c ∷ cs) = mapped k cs

abbrev pub unmapped : MemLink → List SysCall → ℕ
unmapped k [] = 0
unmapped k (munmap vaddr size ∷ cs) =
    (if is_link k (record { address = vaddr; size = size }) then 1 else 0) + unmapped k cs
unmapped k (c ∷ cs) = unmapped k cs

-- The memory of a buffer.
abbrev pub memory : List VfioBuffer → List MemLink
memory [] = []
memory (b ∷ bs) = record { address = b.buffer_ptr; size = b.buffer_size } ∷ memory bs

-- The calls make of the mappings for the buffers `bs` those for the buffers `bs'`.
pub record Accounts (bs : List VfioBuffer) (calls : List SysCall) (bs' : List VfioBuffer)
    : Type 0 where
  pub dma :
      (k : MemLink)
      → times k (blocks bs) + dma_mapped k calls ≡ times k (blocks bs') + dma_unmapped k calls
  pub mem :
      (k : MemLink) → times k (memory bs) + mapped k calls ≡ times k (memory bs') + unmapped k calls

-- What an allocation of `size` bytes leaves: an error, with the buffers as they were, or one more
-- buffer, of the rounded size, at I/O addresses that were free.
abbrev pub Allocated : ℕ → ℕ → Vfio → Allocation × Vfio × List SysCall → Type 0
Allocated page_size size v (r, v', calls) =
    IsValid v'
    × Accounts v.cont_buffers calls v'.cont_buffers
    × (v'.cont_ranges ≡ v.cont_ranges)
    × (((r.ret ≢ 0) × (v'.cont_buffers ≡ v.cont_buffers) × (r.buf ≡ none) × (r.iova ≡ none))
        ⊎ ((b : VfioBuffer) × (r.ret ≡ 0)
            × (v'.cont_buffers ≡ b ∷ v.cont_buffers)
            × (b.buffer_size ≡ round_up page_size size)
            × (r ≡ record {
              ret = 0;
              size = some b.buffer_size;
              buf = some b.buffer_ptr;
              iova = some b.buffer_iova;
            })
            × (v'.iova_alloc.allocated ≡ v.iova_alloc.allocated ++ block b ∷ [])
            × ((x : ℕ)
                → cover x v.iova_alloc.free
                  ≡ within b.buffer_iova b.buffer_size x + cover x v'.iova_alloc.free)))

-- The device after the reservation of a block: the buffers have one block less than the allocator.
record Reserved (v : Vfio) (io size : ℕ) (m : MemAlloc) : Type 0 where
  kept : IsValid (record v { iova_alloc = m })
  appended : m.allocated ≡ v.iova_alloc.allocated ++ record { address = io; size = size } ∷ []
  more :
      (k : MemLink)
      → times k m.allocated
        ≡ times k v.iova_alloc.allocated
          + (if is_link k (record { address = io; size = size }) then 1 else 0)
  taken : (x : ℕ) → cover x v.iova_alloc.free ≡ within io size x + cover x m.free

module _ (v : Vfio) (page_size size io : ℕ) (m : MemAlloc) (valid : IsValid v)
    (reserved : Reserved v io (round_up page_size size) m) where
  rounded : ℕ
  rounded = round_up page_size size

  left : Vfio
  left = record v { iova_alloc = m }

  dma_stage-Allocated :
      (dma node : Bool) (vaddr : ℕ)
      → let (r, v', calls) = dma_stage dma node left rounded io vaddr in
        Allocated page_size size v (r, v', mmap (pages_for rounded) rounded vaddr ∷ calls)
  unfolding dma_stage node_stage left rounded
  dma_stage-Allocated false node vaddr = (
    reserved.kept,
    record { dma = λ k. omega arith; mem = λ k. omega arith },
    refl,
    inl ((λ x. omega arith), refl, refl, refl),
  )
  dma_stage-Allocated true false vaddr = (
    reserved.kept,
    record { dma = λ k. omega arith; mem = λ k. omega arith },
    refl,
    inl ((λ x. omega arith), refl, refl, refl),
  )
  dma_stage-Allocated true true vaddr = (
    record {
      alloc = reserved.kept.alloc;
      backed = λ k. omega (arith, reserved.more k, valid.backed k);
    },
    record { dma = λ k. omega arith; mem = λ k. omega arith },
    refl,
    inr (
      record { buffer_ptr = vaddr; buffer_size = rounded; buffer_iova = io },
      refl,
      refl,
      refl,
      refl,
      reserved.appended,
      reserved.taken,
    ),
  )

  map_stage-Allocated :
      (a : Answers) (o : Option ℕ) → Allocated page_size size v (map_stage a left rounded io o)
  unfolding map_stage left
  map_stage-Allocated a none = (
    reserved.kept,
    record { dma = λ k. refl; mem = λ k. refl },
    refl,
    inl ((λ x. omega arith), refl, refl, refl),
  )
  map_stage-Allocated a (some vaddr) = dma_stage-Allocated a.dma a.node vaddr

unchanged-Allocated :
    (page_size size ret : ℕ) (v : Vfio) (s : Option ℕ)
    → ret ≢ 0
    → IsValid v
    → Allocated page_size size v (refused ret s, v, [])
unchanged-Allocated page_size size ret v s ne h =
    (h, record { dma = λ k. refl; mem = λ k. refl }, refl, inl (ne, refl, refl, refl))

reserved_stage-Allocated :
    (a : Answers) (v : Vfio) (size : ℕ) (g : ℕ × Option ℕ × MemAlloc)
    → IsValid v
    → 0 < round_up a.page_size size
    → Got (round_up a.page_size size) v.iova_alloc g
    → Owned.IsValid g.2
    → Allocated a.page_size size v (reserved_stage a v (round_up a.page_size size, g.0, g.1, g.2))
unfolding reserved_stage rounded left
reserved_stage-Allocated a v size g h pos (inl (e, o, same)) ok =
    let path : g ≡ (1, none, v.iova_alloc) = λ i. (e i, o i, same i) in
    subst
      (λ (t : ℕ × Option ℕ × MemAlloc).
        Allocated a.page_size size v
          (reserved_stage a v (round_up a.page_size size, t.0, t.1, t.2)))
      (sym path) (unchanged-Allocated a.page_size size 4 v _ (λ x. omega arith) h)
reserved_stage-Allocated a v size g h pos (inr (io, e, o, c, al, w, free)) ok =
    let path : g ≡ (0, some io, g.2) = λ i. (e i, o i, g.2) in
    let more : (k : MemLink)
        → times k g.2.allocated
          ≡ times k v.iova_alloc.allocated
            + (if is_link k (record { address = io; size = round_up a.page_size size })
                then 1
                else 0) =
      λ k. omega (
        arith,
        ap (times k) al,
        times-append k v.iova_alloc.allocated
            (record { address = io; size = round_up a.page_size size } ∷ []),
      ) in
    let reserved : Reserved v io (round_up a.page_size size) g.2 = record {
      kept = record { alloc = ok; backed = λ k. omega (arith, more k, h.backed k) };
      appended = al;
      more = more;
      taken = free;
    } in
    subst
      (λ (t : ℕ × Option ℕ × MemAlloc).
        Allocated a.page_size size v
          (reserved_stage a v (round_up a.page_size size, t.0, t.1, t.2)))
      (sym path) (map_stage-Allocated v a.page_size size io g.2 h reserved a a.vaddr)

-- What `opae_vfio_buffer_allocate` gives for a device that is not NULL.
abbrev pub AllocatedSome : ℕ → ℕ → Vfio → Allocation × Option Vfio × List SysCall → Type 0
AllocatedSome page_size size v (r, none, calls) = ⊥
AllocatedSome page_size size v (r, some v', calls) = Allocated page_size size v (r, v', calls)

-- In a valid device, with any answers of the kernel, and a size that is not 0 after it is rounded
-- up to whole pages, an allocation keeps the device valid. It fails, with no buffer more, or it adds
-- a buffer of the rounded size at I/O addresses that were free; and the mappings that the kernel
-- was asked for, less those that it was asked to undo, change exactly as the buffers do.
pub opae_vfio_buffer_allocate_lem :
    (a : Answers) (v : Vfio) (size : ℕ)
    → IsValid v
    → 0 < round_up a.page_size size
    → AllocatedSome a.page_size size v (opae_vfio_buffer_allocate a (some v) (some size))
unfolding opae_vfio_buffer_allocate opae_vfio_iova_reserve
opae_vfio_buffer_allocate_lem a v size h pos = elim (Bool-cases (size == 0)) [
  | inl z ↦ rw z (unchanged-Allocated a.page_size size 2 v _ (λ x. omega arith) h)
  | inr n ↦ rw n (locked a.lock)
]
  where
    g : ℕ × Option ℕ × MemAlloc
    g = mem_alloc_get a.get_node v.iova_alloc (round_up a.page_size size)

    locked :
        (lock : Bool)
        → AllocatedSome a.page_size size v (
            if lock
            then (let (r, v', calls) =
                  reserved_stage a v (round_up a.page_size size, g.0, g.1, g.2) in
                (r, some v', calls))
            else (refused 3 (some size), some v, []))
    locked false = unchanged-Allocated a.page_size size 3 v _ (λ x. omega arith) h
    locked true =
        reserved_stage-Allocated a v size g h pos
          (mem_alloc_get_lem a.get_node v.iova_alloc _ h.alloc.sorted pos)
          (mem_alloc_get-IsValid a.get_node v.iova_alloc _ pos h.alloc).0
