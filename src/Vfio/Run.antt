-- ===== src/Vfio/Run.antt =====
-- Sequences of allocations and releases, and an allocation with its release.
use opae_libs.Prelude.{ℕ, ◌+◌, ◌<◌, List, [], ◌∷◌, ◌++◌, ◌≡◌, refl, sym, ap, ◌∙◌, arith}
use opae_libs.Prelude.{Bool, true, some, All, ◌==◌, inl, inr, ==_iff}
use mathlib.Core.Path.{subst}
use opae_libs.MemAlloc.{MemLink, MemAlloc, mem_alloc_put}
use opae_libs.MemAlloc.Shape.{IsBlock}
use opae_libs.MemAlloc.Release.{All-middle}
use opae_libs.MemAlloc.Client.{put_back}
use opae_libs.Vfio.{
  VfioBuffer, Vfio, SysCall, mmap, munmap, map_dma, unmap_dma, Answers, Allocation, round_up,
}
use opae_libs.Vfio.{opae_vfio_buffer_allocate, opae_vfio_buffer_free}
use opae_libs.Vfio.{opae_vfio_destroy_buffer}
use opae_libs.Vfio.Alloc.{
  IsValid, block, Accounts, dma_mapped, dma_unmapped, mapped, unmapped, Allocated, AllocatedSome,
  opae_vfio_buffer_allocate_lem,
}
use opae_libs.Vfio.Free.{Freed, Freed-Accounts, opae_vfio_buffer_free_lem}

-- A call of a program: an allocation or a release, with any answers; the calls so far are kept.
pub data Step : Vfio × List SysCall → Vfio × List SysCall → Type 0 where
  allocate :
      (a : Answers) (size : ℕ) (v v' : Vfio) (before calls : List SysCall) (r : Allocation)
      → 0 < round_up a.page_size size
      → opae_vfio_buffer_allocate a (some v) (some size) ≡ (r, some v', calls)
      → Step (v, before) (v', before ++ calls)
  free :
      (has_node : ℕ → Bool) (buf : ℕ) (v v' : Vfio) (before calls : List SysCall) (ret : ℕ)
      → opae_vfio_buffer_free true has_node (some v) buf ≡ (ret, some v', calls)
      → Step (v, before) (v', before ++ calls)

pub data Reach (s : Vfio × List SysCall) : Vfio × List SysCall → Type 0 where
  here : Reach s s
  next : {t u : Vfio × List SysCall} → Reach s t → Step t u → Reach s u

-- The device is valid, and the kernel's mappings are those of its buffers, each as often.
pub record Exact (v : Vfio) (calls : List SysCall) : Type 0 where
  pub valid : IsValid v
  pub mappings : Accounts [] calls v.cont_buffers

module _ (k : MemLink) where
  dma_mapped-append :
      (cs ds : List SysCall) → dma_mapped k (cs ++ ds) ≡ dma_mapped k cs + dma_mapped k ds
  dma_mapped-append [] ds = omega arith
  dma_mapped-append (mmap p s a ∷ cs) ds = dma_mapped-append cs ds
  dma_mapped-append (munmap a s ∷ cs) ds = dma_mapped-append cs ds
  dma_mapped-append (map_dma a s i ∷ cs) ds = omega (arith, dma_mapped-append cs ds)
  dma_mapped-append (unmap_dma i s ∷ cs) ds = dma_mapped-append cs ds

  dma_unmapped-append :
      (cs ds : List SysCall) → dma_unmapped k (cs ++ ds) ≡ dma_unmapped k cs + dma_unmapped k ds
  dma_unmapped-append [] ds = omega arith
  dma_unmapped-append (mmap p s a ∷ cs) ds = dma_unmapped-append cs ds
  dma_unmapped-append (munmap a s ∷ cs) ds = dma_unmapped-append cs ds
  dma_unmapped-append (map_dma a s i ∷ cs) ds = dma_unmapped-append cs ds
  dma_unmapped-append (unmap_dma i s ∷ cs) ds = omega (arith, dma_unmapped-append cs ds)

  mapped-append : (cs ds : List SysCall) → mapped k (cs ++ ds) ≡ mapped k cs + mapped k ds
  mapped-append [] ds = omega arith
  mapped-append (mmap p s a ∷ cs) ds = omega (arith, mapped-append cs ds)
  mapped-append (munmap a s ∷ cs) ds = mapped-append cs ds
  mapped-append (map_dma a s i ∷ cs) ds = mapped-append cs ds
  mapped-append (unmap_dma i s ∷ cs) ds = mapped-append cs ds

  unmapped-append : (cs ds : List SysCall) → unmapped k (cs ++ ds) ≡ unmapped k cs + unmapped k ds
  unmapped-append [] ds = omega arith
  unmapped-append (mmap p s a ∷ cs) ds = unmapped-append cs ds
  unmapped-append (munmap a s ∷ cs) ds = omega (arith, unmapped-append cs ds)
  unmapped-append (map_dma a s i ∷ cs) ds = unmapped-append cs ds
  unmapped-append (unmap_dma i s ∷ cs) ds = unmapped-append cs ds

Accounts-append :
    (xs bs cs : List VfioBuffer) (calls calls' : List SysCall)
    → Accounts xs calls bs
    → Accounts bs calls' cs
    → Accounts xs (calls ++ calls') cs
Accounts-append xs bs cs calls calls' p q = record {
  dma = λ k. omega (
    arith,
    p.dma k,
    q.dma k,
    dma_mapped-append k calls calls',
    dma_unmapped-append k calls calls',
  );
  mem = λ k.
      omega (arith, p.mem k, q.mem k, mapped-append k calls calls', unmapped-append k calls calls');
}

Step-Exact : {s t : Vfio × List SysCall} → Step s t → Exact s.0 s.1 → Exact t.0 t.1
Step-Exact (allocate a size v v' before calls r pos e) x =
    let made : AllocatedSome a.page_size size v (r, some v', calls) =
      subst (AllocatedSome a.page_size size v) e
        (opae_vfio_buffer_allocate_lem a v size x.valid pos) in
    record {
      valid = made.0;
      mappings = Accounts-append [] v.cont_buffers _ before calls x.mappings made.1;
    }
Step-Exact (free has_node buf v v' before calls ret e) x =
    let made : Freed buf v (ret, some v', calls) =
      subst (Freed buf v) e (opae_vfio_buffer_free_lem has_node v buf x.valid) in
    record {
      valid = made.0;
      mappings =
          Accounts-append [] v.cont_buffers _ before calls x.mappings
            (Freed-Accounts buf v v' ret calls made);
    }

-- Whatever a program allocates and releases, with sizes that are not 0 when rounded up, and whatever
-- the kernel and `malloc` answer, the device stays valid, so that no I/O address belongs to two
-- buffers or to a buffer and the free space; and the I/O and memory mappings that the kernel was
-- asked for and not to undo are exactly those of the buffers on the list.
pub Reach-Exact : {s t : Vfio × List SysCall} → Exact s.0 s.1 → Reach s t → Exact t.0 t.1
Reach-Exact x here = x
Reach-Exact x (next r st) = Step-Exact st (Reach-Exact x r)

free_head :
    (v : Vfio) (b : VfioBuffer) (m : MemAlloc)
    → mem_alloc_put true m b.buffer_iova ≡ (0, v.iova_alloc)
    → opae_vfio_buffer_free true
        (λ _. true)
        (some (record {
          cont_ranges = v.cont_ranges;
          iova_alloc = m;
          cont_buffers = b ∷ v.cont_buffers;
        }))
        b.buffer_ptr
      ≡ (0, some v, unmap_dma b.buffer_iova b.buffer_size ∷ munmap b.buffer_ptr b.buffer_size ∷ [])
unfolding opae_vfio_buffer_free opae_vfio_destroy_buffer
free_head v b m e =
    let here : (b.buffer_ptr == b.buffer_ptr) ≡ true = (==_iff _ _).1 refl in
    rw here (λ i. (
      0,
      some (record v { iova_alloc = (e i).1 }),
      unmap_dma b.buffer_iova b.buffer_size ∷ munmap b.buffer_ptr b.buffer_size ∷ [],
    ))

-- In a valid device, releasing a buffer right after its allocation, of a size that is not 0 when it
-- is rounded up, gives the device back as it was, buffers, I/O addresses and ranges, if `malloc` gives
-- the node of the free block. The release returns 0 and makes two calls: it asks for the end of the
-- DMA mapping of the buffer's I/O address, with the rounded size, and then for a `munmap` of the
-- buffer's address with the same size. Whether the kernel grants the two calls is not stated.
pub allocate-free :
    (a : Answers) (v v' : Vfio) (size ptr : ℕ) (r : Allocation) (calls : List SysCall)
    → IsValid v
    → 0 < round_up a.page_size size
    → opae_vfio_buffer_allocate a (some v) (some size) ≡ (r, some v', calls)
    → r.buf ≡ some ptr
    → (io : ℕ) × (n : ℕ) × (r.iova ≡ some io)
      × (r.size ≡ some n)
      × (n ≡ round_up a.page_size size)
      × (opae_vfio_buffer_free true (λ _. true) (some v') ptr
          ≡ (0, some v, unmap_dma io n ∷ munmap ptr n ∷ []))
allocate-free a v v' size ptr r calls h pos e at =
    undone
      (subst (AllocatedSome a.page_size size v) e (opae_vfio_buffer_allocate_lem a v size h pos))
  where
    undone :
        Allocated a.page_size size v (r, v', calls)
        → (io : ℕ) × (n : ℕ) × (r.iova ≡ some io)
          × (r.size ≡ some n)
          × (n ≡ round_up a.page_size size)
          × (opae_vfio_buffer_free true (λ _. true) (some v') ptr
              ≡ (0, some v, unmap_dma io n ∷ munmap ptr n ∷ []))
    undone (_, _, _, inl (_, _, no_buf, _)) = cc
    undone (ok, _, ranges, inr (b, _, buffers, rounded, out, appended, taken)) =
        let buf : some b.buffer_ptr ≡ some ptr = ap (λ x. x.buf) (sym out) ∙ at in
        let same : b.buffer_ptr ≡ ptr = cc in
        let (one, _) =
          All-middle v.iova_alloc.allocated [] (block b)
            (subst (All IsBlock) appended ok.alloc.blocks) in
        let back : mem_alloc_put true v'.iova_alloc b.buffer_iova ≡ (0, v.iova_alloc) =
          put_back v.iova_alloc v'.iova_alloc b.buffer_size b.buffer_iova h.alloc one.0 one.1
            ok.alloc.sorted appended taken in
        let whole : v' ≡ record {
          cont_ranges = v.cont_ranges;
          iova_alloc = v'.iova_alloc;
          cont_buffers = b ∷ v.cont_buffers;
        } =
          λ i. record {
            cont_ranges = ranges i;
            iova_alloc = v'.iova_alloc;
            cont_buffers = buffers i;
          } in
        let freed =
          subst
            (λ p.
              opae_vfio_buffer_free true (λ _. true) (some v') p
              ≡ (0, some v, unmap_dma b.buffer_iova b.buffer_size ∷ munmap p b.buffer_size ∷ []))
            same
            (ap (λ w. opae_vfio_buffer_free true (λ _. true) (some w) b.buffer_ptr) whole
              ∙ free_head v b v'.iova_alloc back) in
        (b.buffer_iova, b.buffer_size, ap (λ x. x.iova) out, ap (λ x. x.size) out, rounded, freed)
