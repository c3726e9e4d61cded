-- ===== src/Vfio/Discover.antt =====
-- `opae_vfio_iova_discover`: the I/O addresses that the device starts with.
use opae_libs.Prelude.{ℕ, ◌+◌, ◌-◌, ◌^◌, ◌≤◌, ◌<◌, List, [], ◌∷◌, ◌≡◌, refl, ap, ◌∙◌, arith}
use opae_libs.Prelude.{true, some, All, u64}
use opae_libs.MemAlloc.{MemLink, MemAlloc, mem_alloc_add_free, mem_alloc_init}
use opae_libs.MemAlloc.Shape.{Chain}
use opae_libs.MemAlloc.Cover.{cover, within_self, Apart-of_cover, Chain-IsBlock}
use opae_libs.MemAlloc.Free.{mem_alloc_add_free_lem}
use opae_libs.Vfio.{
  IovaRange, RangeAnswers, Capability, Vfio, discover_one, discover_ranges, ranges_of,
  opae_vfio_iova_discover,
}
use opae_libs.Vfio.Alloc.{IsValid}

-- The addresses of a range, its end included.
abbrev pub range_block : IovaRange → MemLink
range_block r = record { address = r.start; size = r.end + 1 - r.start }

abbrev pub range_blocks : List RangeAnswers → List MemLink
range_blocks [] = []
range_blocks (r ∷ rs) = range_block r.range ∷ range_blocks rs

abbrev pub ranges : List RangeAnswers → List IovaRange
ranges [] = []
ranges (r ∷ rs) = r.range ∷ ranges rs

-- A range that is not empty and ends below the last address, and `malloc` succeeds for it.
abbrev pub IsProper : RangeAnswers → Type 0
IsProper r =
    (r.range.start ≤ r.range.end)
    × (r.range.end + 1 < 2 ^ 64)
    × (r.range_node ≡ true)
    × (r.block_node ≡ true)

-- What the walk leaves in the allocator.
record Discovered (m : MemAlloc) (rs : List RangeAnswers) (r : MemAlloc × List IovaRange)
    : Type 0 where
  sorted : Chain 0 r.0.free
  allocated : r.0.allocated ≡ m.allocated
  holds : (x : ℕ) → cover x r.0.free ≡ cover x (range_blocks rs) + cover x m.free
  listed : r.1 ≡ ranges rs

discover_one_lem :
    (m : MemAlloc) (r : RangeAnswers)
    → IsProper r
    → discover_one m r
      ≡ ((mem_alloc_add_free true m r.range.start (range_block r.range).size).1, r.range ∷ [])
unfolding discover_one
discover_one_lem m r (le, w, n, b) =
    let size : u64 (u64 (r.range.end + 1) + 2 ^ 64 - r.range.start)
        ≡ r.range.end + 1 - r.range.start =
      ground arith in
    rw n (λ i. ((mem_alloc_add_free (b i) m r.range.start (size i)).1, r.range ∷ []))

discover_ranges-Discovered :
    (m : MemAlloc) (rs : List RangeAnswers)
    → Chain 0 m.free
    → All IsProper rs
    → ((x : ℕ) → cover x (range_blocks rs) + cover x m.free ≤ 1)
    → Discovered m rs (discover_ranges m rs)
unfolding discover_ranges
discover_ranges-Discovered m [] c ok h = record {
  sorted = c;
  allocated = refl;
  holds = λ x. omega arith;
  listed = refl;
}
discover_ranges-Discovered m (r ∷ rs) c ok h =
    let l : MemLink = range_block r.range in
    let proper = ok.0 in
    let pos : 0 < l.size = omega (arith, proper.0) in
    let apart =
      Apart-of_cover l.address l.size m.free pos (Chain-IsBlock 0 m.free c)
        (λ x p q. omega (arith, within_self l.address l.size x p q, h x)) in
    let added =
      mem_alloc_add_free_lem m l.address l.size c pos (omega (arith, proper.0, proper.1)) apart in
    let rest =
      discover_ranges-Discovered (mem_alloc_add_free true m l.address l.size).1 rs added.1 ok.1
        (λ x. omega (arith, added.3 x, h x)) in
    rw (discover_one_lem m r proper) (record {
      sorted = rest.sorted;
      allocated = rest.allocated ∙ added.2;
      holds = λ x. omega (arith, rest.holds x, added.3 x);
      listed = ap (λ t. r.range ∷ t) rest.listed;
    })

-- If the ranges that the kernel lists are not empty, end below the last address and do not meet,
-- and `malloc` succeeds, a device with no buffers starts valid, lists the ranges in their order,
-- and its free I/O addresses are exactly theirs, the ends included.
pub opae_vfio_iova_discover_lem :
    (cs : List Capability)
    → All IsProper (ranges_of cs)
    → ((x : ℕ) → cover x (range_blocks (ranges_of cs)) ≤ 1)
    → let fresh : Vfio = record {
      cont_ranges = [];
      iova_alloc = mem_alloc_init;
      cont_buffers = [];
    } in
      let v = opae_vfio_iova_discover (some cs) fresh in
      IsValid v
      × (v.cont_buffers ≡ [])
      × (v.cont_ranges ≡ ranges (ranges_of cs))
      × ((x : ℕ) → cover x v.iova_alloc.free ≡ cover x (range_blocks (ranges_of cs)))
unfolding opae_vfio_iova_discover mem_alloc_init
opae_vfio_iova_discover_lem cs ok h =
    let d =
      discover_ranges-Discovered (record { free = []; allocated = [] }) (ranges_of cs) tt ok
        (λ x. omega (arith, h x)) in
    (
      record {
        alloc = record {
          sorted = d.sorted;
          blocks = rw (d.allocated) tt;
          exclusive = λ x. rw (d.allocated) (omega (arith, d.holds x, h x));
        };
        backed = λ k. omega arith;
      },
      refl,
      d.listed,
      λ x. omega (arith, d.holds x),
    )
