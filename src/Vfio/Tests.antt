-- ===== src/Vfio/Tests.antt =====
-- A device that starts with two ranges of I/O addresses, allocates a buffer and gives it back.
use opae_libs.Prelude.{ℕ, List, [], ◌∷◌, ◌≡◌, ◌≢◌, refl, arith, inl, true, none, some}
use opae_libs.MemAlloc.{MemLink, mem_alloc_get, mem_alloc_init, mem_alloc_add_free}
use opae_libs.Pages.{pages_2m}
use opae_libs.Vfio.{Vfio, Answers, Allocation, SysCall, mmap, munmap, map_dma, unmap_dma}
use opae_libs.Vfio.{
  RangeAnswers, Capability, opae_vfio_iova_discover, opae_vfio_buffer_allocate,
  opae_vfio_buffer_free, round_up, iommu_cap_iova_range,
}
use opae_libs.Vfio.Alloc.{IsValid, AllocatedSome, opae_vfio_buffer_allocate_lem}
use opae_libs.Vfio.Lost.{opae_vfio_buffer_allocate-lost}
use opae_libs.Vfio.Run.{allocate, here, next, Exact, Reach-Exact, allocate-free}

abbrev range : ℕ → ℕ → RangeAnswers
range s e = record { range = record { start = s; end = e }; range_node = true; block_node = true }

abbrev caps : List Capability
caps =
    record { id = 7; iova_ranges = [] }
    ∷ record {
      id = iommu_cap_iova_range;
      iova_ranges = range 0 0xfedfffff ∷ range 0xfef00000 0x7fffffffff ∷ [];
    }
    ∷ []

abbrev fresh : Vfio
fresh = record { cont_ranges = []; iova_alloc = mem_alloc_init; cont_buffers = [] }

abbrev free_list : List MemLink
free_list =
    record { address = 0; size = 0xfee00000 }
    ∷ record { address = 0xfef00000; size = 0x7f01100000 }
    ∷ []

abbrev started : Vfio
started = record {
  cont_ranges =
      record { start = 0; end = 0xfedfffff }
      ∷ record { start = 0xfef00000; end = 0x7fffffffff }
      ∷ [];
  iova_alloc = record { free = free_list; allocated = [] };
  cont_buffers = [];
}

started_lem : opae_vfio_iova_discover (some caps) fresh ≡ started
unfolding opae_vfio_iova_discover mem_alloc_init mem_alloc_add_free
started_lem = refl

started-IsValid : IsValid started
started-IsValid = record {
  alloc = record { sorted = omega arith; blocks = tt; exclusive = λ x. ground arith };
  backed = λ k. omega arith;
}

abbrev granted : Answers
granted = record {
  lock = true;
  page_size = 4096;
  get_node = true;
  vaddr = some 0x7f0000000000;
  dma = true;
  node = true;
}

-- 5000 bytes take two pages.
abbrev one_buffer : Vfio
one_buffer = record {
  cont_ranges = started.cont_ranges;
  iova_alloc = record {
    free =
        record { address = 8192; size = 0xfedfe000 }
        ∷ record { address = 0xfef00000; size = 0x7f01100000 }
        ∷ [];
    allocated = record { address = 0; size = 8192 } ∷ [];
  };
  cont_buffers = record { buffer_ptr = 0x7f0000000000; buffer_size = 8192; buffer_iova = 0 } ∷ [];
}

abbrev made : Allocation
made = record { ret = 0; size = some 8192; buf = some 0x7f0000000000; iova = some 0 }

abbrev made_calls : List SysCall
made_calls = mmap pages_2m 8192 0x7f0000000000 ∷ map_dma 0x7f0000000000 8192 0 ∷ []

allocate_started :
    opae_vfio_buffer_allocate granted (some started) (some 5000)
    ≡ (made, some one_buffer, made_calls)
unfolding opae_vfio_buffer_allocate mem_alloc_get
allocate_started = refl

opae_vfio_buffer_allocate_lem_example :
    AllocatedSome 4096 5000 started (opae_vfio_buffer_allocate granted (some started) (some 5000))
opae_vfio_buffer_allocate_lem_example =
    opae_vfio_buffer_allocate_lem granted started 5000 started-IsValid (omega arith)

one_buffer-IsValid : IsValid one_buffer
one_buffer-IsValid = record {
  alloc = record { sorted = omega arith; blocks = omega arith; exclusive = λ x. ground arith };
  backed = λ k. omega arith;
}

allocate-free_example :
    (io : ℕ) × (n : ℕ) × (made.iova ≡ some io)
    × (made.size ≡ some n)
    × (n ≡ round_up 4096 5000)
    × (opae_vfio_buffer_free true (λ _. true) (some one_buffer) 0x7f0000000000
        ≡ (0, some started, unmap_dma io n ∷ munmap 0x7f0000000000 n ∷ []))
allocate-free_example =
    allocate-free granted started one_buffer 5000 0x7f0000000000 made made_calls started-IsValid
      (omega arith) allocate_started refl

-- `mmap` fails.
abbrev no_memory : Answers
no_memory = record granted { vaddr = none }

get_started : mem_alloc_get true started.iova_alloc 8192 ≡ (0, some 0, one_buffer.iova_alloc)
unfolding mem_alloc_get
get_started = refl

opae_vfio_buffer_allocate-lost_example :
    let (r, o, _) = opae_vfio_buffer_allocate no_memory (some started) (some 5000) in
    (r.ret ≢ 0) × (o ≡ some (record started { iova_alloc = one_buffer.iova_alloc }))
opae_vfio_buffer_allocate-lost_example =
    opae_vfio_buffer_allocate-lost no_memory started 5000 0 one_buffer.iova_alloc (omega arith) refl
      get_started (inl refl)

started-Exact : Exact started []
started-Exact = record {
  valid = started-IsValid;
  mappings = record { dma = λ k. refl; mem = λ k. refl };
}

Reach-Exact_example : Exact one_buffer made_calls
Reach-Exact_example = Reach-Exact started-Exact (
    next here
      (allocate granted 5000 started one_buffer [] made_calls made (omega arith) allocate_started))
