-- ===== src/Vfio/Free.antt =====
-- `opae_vfio_buffer_free` and `opae_vfio_destroy`: what a buffer gives back.
use opae_libs.Prelude.{
  ℕ, ◌+◌, ◌≤◌, ◌<◌, List, [], ◌∷◌, ◌++◌, ◌≡◌, ◌≢◌, refl, sym, ap, ap₂, ◌∙◌, arith,
}
use opae_libs.Prelude.{
  Bool, true, false, Option, none, some, All, ◌==◌, if◌then◌else◌, Bool-cases, ==_iff, inl, inr,
  ◌⊎◌,
}
use mathlib.Core.Path.{subst}
use opae_libs.MemAlloc.{MemLink, MemAlloc, mem_alloc_put, mem_alloc_destroy, mem_alloc_init}
use opae_libs.MemAlloc.Shape.{IsBlock}
use opae_libs.MemAlloc.Cover.{cover, within_self}
use opae_libs.MemAlloc.Owned as Owned
use opae_libs.MemAlloc.Removed.{Removed, mem_alloc_put-Removed}
use opae_libs.MemAlloc.Release.{All-middle, cover-middle}
use opae_libs.Vfio.{VfioBuffer, Vfio, SysCall, munmap, unmap_dma}
use opae_libs.Vfio.{
  destroy_one, opae_vfio_destroy_buffer, keep_buffer, unlink_buffer, free_found,
  opae_vfio_buffer_free, opae_vfio_destroy,
}
use opae_libs.Vfio.Count.{times, times-middle, take_out, is_link, is_link_self}
use opae_libs.Vfio.Alloc.{block, blocks, memory, IsValid, Accounts}

no_block :
    (k : MemLink) (ls : List MemLink) → 0 < times k ls → All (λ l. k.address ≢ l.address) ls → ⊥
no_block k ls h all =
    let (before, after, e) = take_out k ls h in absent before after (subst (All _) e all)
  where
    absent :
        (before after : List MemLink) → All (λ l. k.address ≢ l.address) (before ++ k ∷ after) → ⊥
    absent [] after all = all.0 refl
    absent (p ∷ before) after all = absent before after all.1

-- Of two blocks in a valid allocator that start at one address there is only one.
same_block :
    (m : MemAlloc) (k : MemLink) (size : ℕ) (before after : List MemLink)
    → Owned.IsValid m
    → 0 < times k m.allocated
    → m.allocated ≡ before ++ record { address = k.address; size = size } ∷ after
    → size ≡ k.size
same_block m k size before after v h e = elim (Bool-cases (size == k.size)) [
  | inl same ↦ (==_iff _ _).0 same
  | inr ne ↦
      let l : MemLink = record { address = k.address; size = size } in
      let other : is_link k l ≡ false = ground arith in
      let count : times k m.allocated ≡ (if is_link k l then 1 else 0) + times k (before ++ after) =
        ap (times k) e ∙ times-middle k l before after in
      let rest : 0 < times k (before ++ after) = omega (arith, h, (rw other at count)) in
      let (before', after', e') = take_out k (before ++ after) rest in
      let (one, others) = All-middle before after l (subst (All IsBlock) e v.blocks) in
      let (two, _) = All-middle before' after' k (subst (All IsBlock) e' others) in
      absurd (
        omega (
          arith,
          v.exclusive k.address,
          ap (cover k.address) e,
          cover-middle k.address before after l,
          ap (cover k.address) e',
          cover-middle k.address before' after' k,
          within_self k.address size k.address,
          within_self k.address k.size k.address,
          one.0,
          two.0,
        ))
]

-- Giving a buffer's addresses back takes its block, and no other, off the allocated list.
pub put_block :
    (has_node : Bool) (m : MemAlloc) (b : VfioBuffer)
    → Owned.IsValid m
    → 0 < times (block b) m.allocated
    → let m' = (mem_alloc_put has_node m b.buffer_iova).1 in
      Owned.IsValid m'
      × ((k : MemLink)
          → times k m.allocated ≡ (if is_link k (block b) then 1 else 0) + times k m'.allocated)
put_block has_node m b v h = taken (mem_alloc_put-Removed has_node m b.buffer_iova v)
  where
    m' : MemAlloc
    m' = (mem_alloc_put has_node m b.buffer_iova).1

    taken :
        Removed b.buffer_iova m m'
        → Owned.IsValid m'
          × ((k : MemLink)
              → times k m.allocated ≡ (if is_link k (block b) then 1 else 0) + times k m'.allocated)
    taken (inl (same, all)) = absurd (no_block (block b) m.allocated h all)
    taken (inr (size, before, after, e, f, ok)) =
        let s : size ≡ b.buffer_size = same_block m (block b) size before after v h e in
        (
          ok,
          λ k.
              ap (times k) e
              ∙ times-middle k _ before after
              ∙ ap₂
                  (λ (n t : ℕ).
                    (if is_link k (record { address = b.buffer_iova; size = n }) then 1 else 0) + t)
                  s (sym (ap (times k) f)),
        )

-- What destroying some of the buffers leaves in the allocator: the blocks of the others.
destroy_buffer_lem :
    (has_node : ℕ → Bool) (bs rest : List VfioBuffer) (m : MemAlloc)
    → Owned.IsValid m
    → ((k : MemLink) → times k (blocks bs) + times k (blocks rest) ≤ times k m.allocated)
    → let (m', calls) = opae_vfio_destroy_buffer has_node m bs in
      Owned.IsValid m'
      × ((k : MemLink) → times k m.allocated ≡ times k (blocks bs) + times k m'.allocated)
      × Accounts bs calls []
unfolding opae_vfio_destroy_buffer destroy_one
destroy_buffer_lem has_node [] rest m v h =
    (v, (λ k. omega arith), record { dma = λ k. refl; mem = λ k. refl })
destroy_buffer_lem has_node (b ∷ bs) rest m v h =
    let me : times (block b) (blocks (b ∷ bs)) ≡ 1 + times (block b) (blocks bs) =
      rw (is_link_self (block b)) refl in
    let (v', taken) = put_block (has_node b.buffer_iova) m b v (omega (arith, h (block b), me)) in
    let (v'', left, acc) =
      destroy_buffer_lem has_node bs rest _ v' (λ k. omega (arith, h k, taken k)) in
    (
      v'',
      λ k. omega (arith, left k, taken k),
      record { dma = λ k. omega (arith, acc.dma k); mem = λ k. omega (arith, acc.mem k) },
    )

-- The first buffer at an address, and the others in their order.
abbrev pub Unlinked : ℕ → List VfioBuffer → Option (VfioBuffer × List VfioBuffer) → Type 0
Unlinked buf bs none = All (λ b. b.buffer_ptr ≢ buf) bs
Unlinked buf bs (some (b, rest)) =
    (b.buffer_ptr ≡ buf)
    × (before : List VfioBuffer) × (after : List VfioBuffer) × (bs ≡ before ++ b ∷ after)
    × (rest ≡ before ++ after)
    × All (λ b. b.buffer_ptr ≢ buf) before

keep_buffer-Unlinked :
    (buf : ℕ) (p : VfioBuffer) (bs : List VfioBuffer) (o : Option (VfioBuffer × List VfioBuffer))
    → p.buffer_ptr ≢ buf
    → Unlinked buf bs o
    → Unlinked buf (p ∷ bs) (keep_buffer p o)
unfolding keep_buffer
keep_buffer-Unlinked buf p bs none ne u = (ne, u)
keep_buffer-Unlinked buf p bs (some (b, rest)) ne (here, before, after, e, f, all) =
    (here, p ∷ before, after, ap (λ t. p ∷ t) e, ap (λ t. p ∷ t) f, (ne, all))

unlink_buffer-Unlinked : (buf : ℕ) (bs : List VfioBuffer) → Unlinked buf bs (unlink_buffer buf bs)
unfolding unlink_buffer
unlink_buffer-Unlinked buf [] = tt
unlink_buffer-Unlinked buf (b ∷ bs) = elim (Bool-cases (b.buffer_ptr == buf)) [
  | inl e ↦ rw e ((==_iff _ _).0 e, [], bs, refl, refl, tt)
  | inr e ↦ rw e (
      keep_buffer-Unlinked buf b bs (unlink_buffer buf bs) (ground arith)
        (unlink_buffer-Unlinked buf bs))
]

blocks-middle :
    (k : MemLink) (before after : List VfioBuffer) (b : VfioBuffer)
    → times k (blocks (before ++ b ∷ after))
      ≡ (if is_link k (block b) then 1 else 0) + times k (blocks (before ++ after))
blocks-middle k [] after b = refl
blocks-middle k (p ∷ before) after b = omega (arith, blocks-middle k before after b)

memory-middle :
    (k : MemLink) (before after : List VfioBuffer) (b : VfioBuffer)
    → times k (memory (before ++ b ∷ after))
      ≡ (if is_link k (record { address = b.buffer_ptr; size = b.buffer_size }) then 1 else 0)
        + times k (memory (before ++ after))
memory-middle k [] after b = refl
memory-middle k (p ∷ before) after b = omega (arith, memory-middle k before after b)

-- What a release leaves: 3 and no change where no buffer is at the address; otherwise 0, the first
-- buffer there gone, the two calls that end its mappings, granted or not, and no other call.
abbrev pub Freed : ℕ → Vfio → ℕ × Option Vfio × List SysCall → Type 0
Freed buf v (ret, none, calls) = ⊥
Freed buf v (ret, some v', calls) =
    IsValid v'
    × (v'.cont_ranges ≡ v.cont_ranges)
    × (((ret ≡ 3) × (v' ≡ v) × (calls ≡ []) × All (λ b. b.buffer_ptr ≢ buf) v.cont_buffers)
        ⊎ ((b : VfioBuffer) × (before : List VfioBuffer) × (after : List VfioBuffer) × (ret ≡ 0)
            × (b.buffer_ptr ≡ buf)
            × All (λ b. b.buffer_ptr ≢ buf) before
            × (v.cont_buffers ≡ before ++ b ∷ after)
            × (v'.cont_buffers ≡ before ++ after)
            × (calls
                ≡ unmap_dma b.buffer_iova b.buffer_size ∷ munmap b.buffer_ptr b.buffer_size ∷ [])
            × ((k : MemLink)
                → times k v.iova_alloc.allocated
                  ≡ (if is_link k (block b) then 1 else 0) + times k v'.iova_alloc.allocated)))

free_found-Freed :
    (has_node : ℕ → Bool) (v : Vfio) (buf : ℕ) (o : Option (VfioBuffer × List VfioBuffer))
    → IsValid v
    → Unlinked buf v.cont_buffers o
    → Freed buf v (free_found has_node v o)
unfolding free_found opae_vfio_destroy_buffer destroy_one
free_found-Freed has_node v buf none h u = (h, refl, inl (refl, refl, refl, u))
free_found-Freed has_node v buf (some (b, rest)) h (here, before, after, e, f, all) =
    let split : (k : MemLink)
        → times k (blocks v.cont_buffers)
          ≡ (if is_link k (block b) then 1 else 0) + times k (blocks rest) =
      λ k.
        ap (λ l. times k (blocks l)) e
        ∙ blocks-middle k before after b
        ∙ ap (λ l. (if is_link k (block b) then 1 else 0) + times k (blocks l)) (sym f) in
    let me : times (block b) (block b ∷ []) ≡ 1 = rw (is_link_self (block b)) refl in
    let (v', taken) =
      put_block (has_node b.buffer_iova) v.iova_alloc b h.alloc
        (omega (arith, me, split (block b), h.backed (block b))) in
    (
      record { alloc = v'; backed = λ k. omega (arith, taken k, split k, h.backed k) },
      refl,
      inr (b, before, after, refl, here, all, e, f, refl, taken),
    )

-- In a valid device, with the lock held, and whether or not `malloc` succeeds, a release keeps the
-- device valid. If no buffer is at the address, it returns 3 and changes nothing; otherwise it
-- returns 0, takes the first buffer there off the list, unmaps its I/O addresses and then its
-- memory, and takes its block, and no other, off the allocated ones.
pub opae_vfio_buffer_free_lem :
    (has_node : ℕ → Bool) (v : Vfio) (buf : ℕ)
    → IsValid v
    → Freed buf v (opae_vfio_buffer_free true has_node (some v) buf)
unfolding opae_vfio_buffer_free
opae_vfio_buffer_free_lem has_node v buf h =
    free_found-Freed has_node v buf (unlink_buffer buf v.cont_buffers) h
      (unlink_buffer-Unlinked buf v.cont_buffers)

-- A release makes the mappings those of the buffers that are left.
pub Freed-Accounts :
    (buf : ℕ) (v v' : Vfio) (ret : ℕ) (calls : List SysCall)
    → Freed buf v (ret, some v', calls)
    → Accounts v.cont_buffers calls v'.cont_buffers
Freed-Accounts buf v v' ret calls (ok, _, inl (_, same, e, _)) =
    rw (same, e) (record { dma = λ k. refl; mem = λ k. refl })
Freed-Accounts buf v v' ret calls (ok, _, inr (b, before, after, _, _, _, e, f, c, _)) =
    rw (e, f, c)
      (record {
        dma = λ k. omega (arith, blocks-middle k before after b);
        mem = λ k. omega (arith, memory-middle k before after b);
      })

-- Destroying a valid device, with any answers, unmaps the I/O addresses and the memory of every
-- buffer exactly as often as it has buffers with them, and leaves no buffer and no block.
pub opae_vfio_destroy_lem :
    (has_node : ℕ → Bool) (v : Vfio)
    → IsValid v
    → let (v', calls) = opae_vfio_destroy has_node v in
      Accounts v.cont_buffers calls []
      × IsValid v'
      × (v' ≡ record { cont_ranges = []; iova_alloc = mem_alloc_init; cont_buffers = [] })
unfolding opae_vfio_destroy mem_alloc_destroy
opae_vfio_destroy_lem has_node v h =
    let (_, _, acc) =
      destroy_buffer_lem has_node v.cont_buffers [] v.iova_alloc h.alloc
        (λ k. omega (arith, h.backed k)) in
    (acc, record { alloc = Owned.mem_alloc_init-IsValid; backed = λ k. omega arith }, refl)
