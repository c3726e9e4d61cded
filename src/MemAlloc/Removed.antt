-- ===== src/MemAlloc/Removed.antt =====
-- `mem_alloc_put`, whether or not `malloc` gives the node of the free block.
use opae_libs.Prelude.{ℕ, ◌⊎◌, inl, inr, List, ◌∷◌, ◌++◌, ◌≡◌, ◌≢◌, refl, sym, ap, ◌∙◌, arith}
use opae_libs.Prelude.{Bool, true, false, Option, none, some, All}
use mathlib.Core.Path.{subst}
use opae_libs.MemAlloc.{
  MemLink, MemAlloc, mem_alloc_put, mem_alloc_free_node, mem_alloc_add_free, unlink_at,
}
use opae_libs.MemAlloc.Shape.{IsBlock}
use opae_libs.MemAlloc.Cover.{cover}
use opae_libs.MemAlloc.Owned.{IsValid}
use opae_libs.MemAlloc.Release.{
  Unlinked, unlink_at-Unlinked, All-middle, cover-middle, Put, mem_alloc_put_lem,
}

-- Nothing starts at the address, and nothing changes; or a block there leaves the allocated list.
abbrev pub Removed : ℕ → MemAlloc → MemAlloc → Type 0
Removed a m m' =
    ((m' ≡ m) × All (λ l. a ≢ l.address) m.allocated)
    ⊎ ((size : ℕ) × (before : List MemLink) × (after : List MemLink) × (m.allocated
          ≡ before ++ record { address = a; size = size } ∷ after)
        × (m'.allocated ≡ before ++ after)
        × IsValid m')

lost-Removed :
    (a : ℕ) (m : MemAlloc) (o : Option (MemLink × List MemLink))
    → IsValid m
    → Unlinked a m.allocated o
    → Removed a m (mem_alloc_free_node false m o).1
unfolding mem_alloc_free_node mem_alloc_add_free
lost-Removed a m none v u = inl (refl, u)
lost-Removed a m (some (l, r)) v (here, before, after, e, f) =
    let (b, others) = All-middle before after l (subst (All IsBlock) e v.blocks) in
    inr (
      l.size,
      before,
      after,
      e ∙ ap (λ (b : ℕ). before ++ record { address = b; size = l.size } ∷ after) here,
      f,
      record {
        sorted = v.sorted;
        blocks = subst (All IsBlock) (sym f) others;
        exclusive = λ x.
            omega
              (arith, ap (cover x) e, ap (cover x) f, cover-middle x before after l, v.exclusive x);
      },
    )

Put→Removed : (a : ℕ) (m : MemAlloc) (r : ℕ × MemAlloc) → Put a m r → Removed a m r.1
Put→Removed a m r (inl (_, e, all)) = inl (e, all)
Put→Removed a m r (inr (size, before, after, _, e, f, v, _)) = inr (size, before, after, e, f, v)

-- In a valid allocator, a release keeps the invariant, and takes at most one block, which starts at
-- the address, off the allocated list, whether or not `malloc` gives a node.
pub mem_alloc_put-Removed :
    (has_node : Bool) (m : MemAlloc) (a : ℕ)
    → IsValid m
    → Removed a m (mem_alloc_put has_node m a).1
mem_alloc_put-Removed true m a v =
    Put→Removed a m (mem_alloc_put true m a) (mem_alloc_put_lem m a v)
mem_alloc_put-Removed false m a v =
    unfold mem_alloc_put in
    lost-Removed a m (unlink_at a m.allocated) v (unlink_at-Unlinked a m.allocated)
