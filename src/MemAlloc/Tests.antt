-- ===== src/MemAlloc/Tests.antt =====
-- Runs of the allocator at concrete regions, and the theorems at concrete allocators.
use opae_libs.Prelude.{ℕ, ◌+◌, List, [], ◌∷◌, ◌≡◌, refl, arith, ◌↔◌}
use opae_libs.Prelude.{true, false, some}
use opae_libs.MemAlloc.{MemLink, MemAlloc, mem_alloc_add_free}
use opae_libs.MemAlloc.{mem_alloc_get, mem_alloc_put}
use opae_libs.MemAlloc.Shape.{Chain}
use opae_libs.MemAlloc.Cover.{within, cover}
use opae_libs.MemAlloc.Free.{mem_alloc_add_free_lem, mem_alloc_add_free-double_iff}
use opae_libs.MemAlloc.Owned.{IsValid, pool, Got, mem_alloc_get_lem}
use opae_libs.MemAlloc.Release.{Put, mem_alloc_put_lem, mem_alloc_put-no_node}
use opae_libs.MemAlloc.Client.{get-put, Call, get, put, calls, calls-IsValid}

abbrev block : ℕ → ℕ → MemLink
block a s = record { address = a; size = s }

-- Two regions of 4096 bytes with a page between them.
abbrev two_regions : MemAlloc
two_regions = record { free = block 4096 4096 ∷ block 12288 4096 ∷ []; allocated = [] }

-- A block of 1024 bytes is in use.
abbrev one_used : MemAlloc
one_used = record {
  free = block 5120 3072 ∷ block 12288 4096 ∷ [];
  allocated = block 4096 1024 ∷ [];
}

get_two_regions : mem_alloc_get true two_regions 1024 ≡ (0, some 4096, one_used)
unfolding mem_alloc_get
get_two_regions = refl

put_one_used : mem_alloc_put true one_used 4096 ≡ (0, two_regions)
unfolding mem_alloc_put
put_one_used = refl

-- The page between the regions joins them.
join_regions :
    mem_alloc_add_free true two_regions 8192 4096
    ≡ (0, record { free = block 4096 12288 ∷ []; allocated = [] })
unfolding mem_alloc_add_free
join_regions = refl

-- Adding the second region again is not refused, and its addresses are in the list twice.
second_twice : mem_alloc_add_free true two_regions 12288 4096 ≡ (
  0,
  record { free = block 4096 4096 ∷ block 12288 4096 ∷ block 12288 4096 ∷ []; allocated = [] },
)
unfolding mem_alloc_add_free
second_twice = refl

two_regions-IsValid : IsValid two_regions
two_regions-IsValid = record { sorted = omega arith; blocks = tt; exclusive = λ x. ground arith }

one_used-IsValid : IsValid one_used
one_used-IsValid = record {
  sorted = omega arith;
  blocks = omega arith;
  exclusive = λ x. ground arith;
}

mem_alloc_add_free_lem_example :
    let (ret, m') = mem_alloc_add_free true two_regions 8192 4096 in
    (ret ≡ 0)
    × Chain 0 m'.free
    × (m'.allocated ≡ [])
    × ((x : ℕ) → cover x m'.free ≡ within 8192 4096 x + cover x two_regions.free)
mem_alloc_add_free_lem_example =
    mem_alloc_add_free_lem two_regions 8192 4096 (omega arith) (omega arith) (omega arith)
      (omega arith)

mem_alloc_add_free-double_iff_example :
    ((mem_alloc_add_free true two_regions 12288 4096).0 ≡ 2) ↔ ((block 12288 4096).address ≡ 4096)
mem_alloc_add_free-double_iff_example =
    mem_alloc_add_free-double_iff two_regions 12288 4096 (block 4096 4096) (block 12288 4096 ∷ [])
      refl

mem_alloc_get_lem_example : Got 1024 two_regions (mem_alloc_get true two_regions 1024)
mem_alloc_get_lem_example = mem_alloc_get_lem true two_regions 1024 (omega arith) (omega arith)

mem_alloc_put_lem_example : Put 4096 one_used (mem_alloc_put true one_used 4096)
mem_alloc_put_lem_example = mem_alloc_put_lem one_used 4096 one_used-IsValid

mem_alloc_put-no_node_example :
    mem_alloc_put false one_used 4096 ≡ (1, record one_used { allocated = [] })
mem_alloc_put-no_node_example = mem_alloc_put-no_node one_used [] [] (block 4096 1024) refl tt

get-put_example : mem_alloc_put true one_used 4096 ≡ (0, two_regions)
get-put_example =
    get-put true two_regions one_used 1024 4096 two_regions-IsValid (omega arith) get_two_regions

abbrev session : List Call
session = get true 1024 ∷ get true 4096 ∷ put 4096 ∷ put 7 ∷ get false 4096 ∷ []

calls-IsValid_example :
    IsValid (calls two_regions session)
    × ((x : ℕ) → pool x (calls two_regions session) ≡ pool x two_regions)
calls-IsValid_example = calls-IsValid session two_regions (omega arith) two_regions-IsValid
