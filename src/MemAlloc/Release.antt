-- ===== src/MemAlloc/Release.antt =====
-- `mem_alloc_put`: what it gives back to the free list.
use opae_libs.Prelude.{ℕ, ◌+◌, ◌⊎◌, inl, inr, List, [], ◌∷◌, ◌++◌, ◌≡◌, ◌≢◌, refl}
use opae_libs.Prelude.{arith, true, false, Option, none, some, All, ◌==◌}
use opae_libs.Prelude.{ap, sym, ◌∙◌, Bool-cases, ==_iff}
use mathlib.Core.Path.{subst}
use opae_libs.MemAlloc.{MemLink, MemAlloc}
use opae_libs.MemAlloc.{keep_link, unlink_at}
use opae_libs.MemAlloc.{mem_alloc_free_node, mem_alloc_put, mem_alloc_add_free}
use opae_libs.MemAlloc.Shape.{IsBlock, Apart}
use opae_libs.MemAlloc.Cover.{within, cover, within_self, Apart-of_cover, Chain-IsBlock}
use opae_libs.MemAlloc.Free.{mem_alloc_add_free_lem}
use opae_libs.MemAlloc.Owned.{IsValid}

-- What unlinking the first node at an address leaves.
abbrev pub Unlinked : ℕ → List MemLink → Option (MemLink × List MemLink) → Type 0
Unlinked a ls none = All (λ l. a ≢ l.address) ls
Unlinked a ls (some (l, r)) =
    (l.address ≡ a)
    × (before : List MemLink) × (after : List MemLink) × (ls ≡ before ++ l ∷ after)
    × (r ≡ before ++ after)

keep_link-Unlinked :
    (a : ℕ) (p : MemLink) (ls : List MemLink) (o : Option (MemLink × List MemLink))
    → a ≢ p.address
    → Unlinked a ls o
    → Unlinked a (p ∷ ls) (keep_link p o)
unfolding keep_link
keep_link-Unlinked a p ls none ne u = (ne, u)
keep_link-Unlinked a p ls (some (l, r)) ne (here, before, after, e, f) =
    (here, p ∷ before, after, ap (λ t. p ∷ t) e, ap (λ t. p ∷ t) f)

pub unlink_at-Unlinked : (a : ℕ) (ls : List MemLink) → Unlinked a ls (unlink_at a ls)
unfolding unlink_at
unlink_at-Unlinked a [] = tt
unlink_at-Unlinked a (p ∷ ls) = elim (Bool-cases (a == p.address)) [
  | inl e ↦ rw e (omega (arith, (==_iff a p.address).0 e), [], ls, refl, refl)
  | inr e ↦
      rw e (keep_link-Unlinked a p ls (unlink_at a ls) (ground arith) (unlink_at-Unlinked a ls))
]

pub cover-middle :
    (x : ℕ) (before after : List MemLink) (l : MemLink)
    → cover x (before ++ l ∷ after) ≡ within l.address l.size x + cover x (before ++ after)
cover-middle x [] after l = refl
cover-middle x (p ∷ before) after l = omega (arith, cover-middle x before after l)

pub All-middle :
    (before after : List MemLink) (l : MemLink)
    → All IsBlock (before ++ l ∷ after)
    → IsBlock l × All IsBlock (before ++ after)
All-middle [] after l h = h
All-middle (p ∷ before) after l h = let (k, r) = All-middle before after l h.1 in (k, (h.0, r))

-- What a release returns and leaves: it finds no allocated block that starts at the address, or it
-- takes one off the allocated list, and the free list holds its addresses beside those it held.
abbrev pub Put : ℕ → MemAlloc → ℕ × MemAlloc → Type 0
Put a m (ret, m') =
    ((ret ≡ 1) × (m' ≡ m) × All (λ l. a ≢ l.address) m.allocated)
    ⊎ ((size : ℕ) × (before : List MemLink) × (after : List MemLink) × (ret ≡ 0)
        × (m.allocated ≡ before ++ record { address = a; size = size } ∷ after)
        × (m'.allocated ≡ before ++ after)
        × IsValid m'
        × ((x : ℕ) → cover x m'.free ≡ within a size x + cover x m.free))

free_at-Put :
    (m : MemAlloc) (l : MemLink) (before after : List MemLink)
    → IsValid m
    → m.allocated ≡ before ++ l ∷ after
    → Put l.address m
        (mem_alloc_add_free true (record m { allocated = before ++ after }) l.address l.size)
free_at-Put m l before after v e =
    let (b, others) = All-middle before after l (subst (All IsBlock) e v.blocks) in
    let split : (x : ℕ)
        → cover x m.allocated ≡ within l.address l.size x + cover x (before ++ after) =
      λ x. ap (cover x) e ∙ cover-middle x before after l in
    let apart : Apart l.address l.size m.free =
      Apart-of_cover l.address l.size m.free b.0 (Chain-IsBlock 0 m.free v.sorted)
        (λ x p q. omega (arith, within_self l.address l.size x p q, split x, v.exclusive x)) in
    let added =
      mem_alloc_add_free_lem (record m { allocated = before ++ after }) l.address l.size v.sorted
        b.0 b.1 apart in
    inr (
      l.size,
      before,
      after,
      added.0,
      e,
      added.2,
      record {
        sorted = added.1;
        blocks = rw (added.2) others;
        exclusive = λ x. rw (added.2) (omega (arith, added.3 x, split x, v.exclusive x));
      },
      added.3,
    )

free_node-Put :
    (a : ℕ) (m : MemAlloc) (o : Option (MemLink × List MemLink))
    → IsValid m
    → Unlinked a m.allocated o
    → Put a m (mem_alloc_free_node true m o)
unfolding mem_alloc_free_node
free_node-Put a m none v u = inl (refl, refl, u)
free_node-Put a m (some (l, r)) v (here, before, after, e, f) =
    subst
      (λ (k : ℕ). Put k m (mem_alloc_add_free true (record m { allocated = r }) l.address l.size))
      here
      (subst
        (λ t.
          Put l.address m (mem_alloc_add_free true (record m { allocated = t }) l.address l.size))
        (sym f) (free_at-Put m l before after v e))

-- A release in a valid allocator, when `malloc` gives the node: if no allocated block starts at the
-- address, it returns 1 and changes nothing; otherwise it returns 0, takes a block that starts there
-- off the allocated list, adds exactly its addresses to the free list, and keeps the invariant.
pub mem_alloc_put_lem : (m : MemAlloc) (a : ℕ) → IsValid m → Put a m (mem_alloc_put true m a)
unfolding mem_alloc_put
mem_alloc_put_lem m a v =
    free_node-Put a m (unlink_at a m.allocated) v (unlink_at-Unlinked a m.allocated)

pub unlink_at-first :
    (a : ℕ) (before : List MemLink) (l : MemLink) (after : List MemLink)
    → All (λ k. a ≢ k.address) before
    → a ≡ l.address
    → unlink_at a (before ++ l ∷ after) ≡ some (l, before ++ after)
unfolding unlink_at
unlink_at-first a [] l after h e = rw ((==_iff a l.address).1 e)
unlink_at-first a (k ∷ before) l after h e =
    rw (unlink_at-first a before l after h.1 e) (ground arith)

-- When `malloc` gives no node, the release of the first block that is allocated at an address returns
-- 1 and takes the block off the allocated list without adding it to the free one.
pub mem_alloc_put-no_node :
    (m : MemAlloc) (before after : List MemLink) (l : MemLink)
    → m.allocated ≡ before ++ l ∷ after
    → All (λ k. l.address ≢ k.address) before
    → mem_alloc_put false m l.address ≡ (1, record m { allocated = before ++ after })
unfolding mem_alloc_put mem_alloc_free_node mem_alloc_add_free
mem_alloc_put-no_node m before after l e h =
    rw (e, unlink_at-first l.address before l after h refl) refl
