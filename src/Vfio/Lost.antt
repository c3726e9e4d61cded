-- ===== src/Vfio/Lost.antt =====
-- `opae_vfio_buffer_allocate` where a call after the reservation fails.
use opae_libs.Prelude.{ℕ, ◌≡◌, ◌≢◌, refl, arith}
use opae_libs.Prelude.{Bool, true, false, Option, none, some, ◌==◌, inl, inr, ◌⊎◌}
use opae_libs.MemAlloc.{MemAlloc, mem_alloc_get}
use opae_libs.Vfio.{Vfio, Answers}
use opae_libs.Vfio.{
  round_up, opae_vfio_iova_reserve, node_stage, dma_stage, map_stage, reserved_stage,
}
use opae_libs.Vfio.{opae_vfio_buffer_allocate}

dma_stage-lost :
    (dma node : Bool) (v : Vfio) (size io vaddr : ℕ)
    → (dma ≡ false) ⊎ (node ≡ false)
    → let (r, v', _) = dma_stage dma node v size io vaddr in
      (r.ret ≢ 0) × (◌≡◌ {A = Option Vfio} (some v') (some v))
unfolding dma_stage node_stage
dma_stage-lost false node v size io vaddr f = ((λ x. omega arith), refl)
dma_stage-lost true false v size io vaddr f = ((λ x. omega arith), refl)
dma_stage-lost true true v size io vaddr (inl f) = cc
dma_stage-lost true true v size io vaddr (inr f) = cc

map_stage-lost :
    (a : Answers) (v : Vfio) (size io : ℕ) (o : Option ℕ)
    → (o ≡ none) ⊎ ((a.dma ≡ false) ⊎ (a.node ≡ false))
    → let (r, v', _) = map_stage a v size io o in
      (r.ret ≢ 0) × (◌≡◌ {A = Option Vfio} (some v') (some v))
unfolding map_stage
map_stage-lost a v size io none f = ((λ x. omega arith), refl)
map_stage-lost a v size io (some vaddr) (inl f) = cc
map_stage-lost a v size io (some vaddr) (inr f) = dma_stage-lost a.dma a.node v size io vaddr f

-- When the reservation of I/O addresses succeeds and `mmap`, VFIO_IOMMU_MAP_DMA or the last `malloc`
-- fails, the allocation fails with no buffer more, and the device keeps the reservation: the
-- allocator is the one after `mem_alloc_get`, with the block among the allocated ones.
pub opae_vfio_buffer_allocate-lost :
    (a : Answers) (v : Vfio) (size io : ℕ) (m : MemAlloc)
    → size ≢ 0
    → a.lock ≡ true
    → mem_alloc_get a.get_node v.iova_alloc (round_up a.page_size size) ≡ (0, some io, m)
    → (a.vaddr ≡ none) ⊎ ((a.dma ≡ false) ⊎ (a.node ≡ false))
    → let (r, o, _) = opae_vfio_buffer_allocate a (some v) (some size) in
      (r.ret ≢ 0) × (o ≡ some (record v { iova_alloc = m }))
unfolding opae_vfio_buffer_allocate opae_vfio_iova_reserve reserved_stage
opae_vfio_buffer_allocate-lost a v size io m ne l e f =
    let given : (size == 0) ≡ false = ground arith in
    rw (given, l, e) (map_stage-lost a (record v { iova_alloc = m }) _ io a.vaddr f)
