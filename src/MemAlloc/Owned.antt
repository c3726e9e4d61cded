-- ===== src/MemAlloc/Owned.antt =====
-- The invariant of the allocator, and `mem_alloc_get`: what it takes from the free list.
use opae_libs.Prelude.{ℕ, ◌+◌, ◌-◌, ◌≤◌, ◌<◌, ◌^◌, ◌⊎◌, inl, inr, List, [], ◌∷◌, ◌++◌, ◌≡◌, refl}
use opae_libs.Prelude.{arith, Bool, true, false, Option, none, some, All, leb, ◌==◌, ◌↔◌}
use opae_libs.Prelude.{ap, u64, Bool-cases, All-append, if◌then◌else◌}
use opae_libs.MemAlloc.{MemLink, MemAlloc, Fit, no_fit, no_node, fit, mem_alloc_allocate_node}
use opae_libs.MemAlloc.{behind, first_fit, get_outcome, mem_alloc_get}
use opae_libs.MemAlloc.{mem_alloc_init}
use opae_libs.MemAlloc.Shape.{IsBlock, Chain, Chain-weaken}
use opae_libs.MemAlloc.Cover.{within, cover, cover-append}

-- What a found block is: of the size asked for, cut out of the list, which keeps its shape.
abbrev Cut : ℕ → ℕ → List MemLink → Fit → Type 0
Cut lo size ls no_fit = Unit {0}
Cut lo size ls no_node = Unit {0}
Cut lo size ls (fit l r) =
    (l.size ≡ size)
    × IsBlock l
    × Chain lo r
    × ((x : ℕ) → cover x ls ≡ within l.address l.size x + cover x r)

allocate_node-Cut :
    (has_node : Bool) (lo size : ℕ) (p : MemLink) (ls : List MemLink)
    → 0 < size
    → size ≤ p.size
    → Chain lo (p ∷ ls)
    → Cut lo size (p ∷ ls) (mem_alloc_allocate_node has_node p ls size)
unfolding mem_alloc_allocate_node
allocate_node-Cut has_node lo size p ls pos le c = elim (Bool-cases (p.size == size)) [
  | inl e ↦ rw e (ground arith, c.1, Chain-weaken _ lo ls (omega arith) c.2, λ x. refl)
  | inr e ↦ rw e (cut has_node (ground arith))
]
  where
    cut :
        (b : Bool)
        → size < p.size
        → Cut lo size (p ∷ ls) (
            if b
            then fit
                (record { address = p.address; size = size })
                (record { address = u64 (p.address + size); size = p.size - size } ∷ ls)
            else no_node)
    cut true lt = (
      refl,
      omega arith,
      (omega arith, omega arith, Chain-weaken _ _ ls (omega arith) c.2),
      λ x. ground arith,
    )
    cut false lt = tt

behind-Cut :
    (lo size : ℕ) (p : MemLink) (ls : List MemLink) (f : Fit)
    → Chain lo (p ∷ ls)
    → Cut (p.address + p.size + 1) size ls f
    → Cut lo size (p ∷ ls) (behind p f)
unfolding behind
behind-Cut lo size p ls no_fit c k = tt
behind-Cut lo size p ls no_node c k = tt
behind-Cut lo size p ls (fit l r) c k = (k.0, k.1, (c.0, c.1, k.2), λ x. omega (arith, k.3 x))

first_fit-Cut :
    (has_node : Bool) (lo size : ℕ) (ls : List MemLink)
    → 0 < size
    → Chain lo ls
    → Cut lo size ls (first_fit has_node size ls)
unfolding first_fit
first_fit-Cut has_node lo size [] pos c = tt
first_fit-Cut has_node lo size (p ∷ ls) pos c = elim (Bool-cases (leb size p.size)) [
  | inl e ↦ rw e (allocate_node-Cut has_node lo size p ls pos (ground arith) c)
  | inr e ↦ rw e (
      behind-Cut lo size p ls (first_fit has_node size ls) c
        (first_fit-Cut has_node (p.address + p.size + 1) size ls pos c.2))
]

-- The invariant: the free list is sorted and coalesced, every allocated block is a block, and no
-- address is held twice, by free or allocated blocks.
pub record IsValid (m : MemAlloc) : Type 0 where
  pub sorted : Chain 0 m.free
  pub blocks : All IsBlock m.allocated
  pub exclusive : (x : ℕ) → cover x m.free + cover x m.allocated ≤ 1

-- How often an address is in the pool, free or allocated.
abbrev pub pool : ℕ → MemAlloc → ℕ
pool x m = cover x m.free + cover x m.allocated

pub mem_alloc_init-IsValid : IsValid mem_alloc_init
unfolding mem_alloc_init
mem_alloc_init-IsValid = record { sorted = tt; blocks = tt; exclusive = λ x. omega arith }

abbrev pub Got : ℕ → MemAlloc → ℕ × Option ℕ × MemAlloc → Type 0
Got size m (ret, out, m') =
    ((ret ≡ 1) × (out ≡ none) × (m' ≡ m))
    ⊎ ((a : ℕ) × (ret ≡ 0)
        × (out ≡ some a)
        × Chain 0 m'.free
        × (m'.allocated ≡ m.allocated ++ record { address = a; size = size } ∷ [])
        × (a + size < 2 ^ 64)
        × ((x : ℕ) → cover x m.free ≡ within a size x + cover x m'.free))

Got-of_Cut :
    (size : ℕ) (m : MemAlloc) (f : Fit) → Cut 0 size m.free f → Got size m (get_outcome m f)
unfolding get_outcome
Got-of_Cut size m no_fit k = inl (refl, refl, refl)
Got-of_Cut size m no_node k = inl (refl, refl, refl)
Got-of_Cut size m (fit l r) k = inr (
  l.address,
  refl,
  refl,
  k.2,
  ap (λ (s : ℕ). m.allocated ++ record { address = l.address; size = s } ∷ []) k.0,
  omega arith,
  λ x. ground (arith, k.3 x),
)

-- With a sorted and coalesced free list and a size of at least one byte, either the call fails and
-- changes nothing, or it takes the block that it returns out of the free list, which stays sorted
-- and coalesced, and appends it to the allocated list.
pub mem_alloc_get_lem :
    (has_node : Bool) (m : MemAlloc) (size : ℕ)
    → Chain 0 m.free
    → 0 < size
    → Got size m (mem_alloc_get has_node m size)
unfolding mem_alloc_get
mem_alloc_get_lem has_node m size c pos =
    Got-of_Cut size m (first_fit has_node size m.free) (first_fit-Cut has_node 0 size m.free pos c)

Got-IsValid :
    (size : ℕ) (m : MemAlloc) (r : ℕ × Option ℕ × MemAlloc)
    → 0 < size
    → IsValid m
    → Got size m r
    → IsValid r.2 × ((x : ℕ) → pool x r.2 ≡ pool x m)
Got-IsValid size m r pos v (inl (_, _, e)) = rw e (v, λ x. refl)
Got-IsValid size m r pos v (inr (a, _, _, c, e, fits, h)) = (
  record {
    sorted = c;
    blocks = rw e (All-append IsBlock m.allocated _ v.blocks ((pos, fits), tt));
    exclusive = λ x. omega (arith, same x, v.exclusive x);
  },
  same,
)
  where
    same : (x : ℕ) → pool x r.2 ≡ pool x m
    same x =
        rw e (
          omega (arith, h x, cover-append x m.allocated (record { address = a; size = size } ∷ [])))

-- An allocation of at least one byte keeps the invariant, and no address enters or leaves the pool.
pub mem_alloc_get-IsValid :
    (has_node : Bool) (m : MemAlloc) (size : ℕ)
    → 0 < size
    → IsValid m
    → let m' = (mem_alloc_get has_node m size).2 in IsValid m' × ((x : ℕ) → pool x m' ≡ pool x m)
mem_alloc_get-IsValid has_node m size pos v =
    Got-IsValid size m (mem_alloc_get has_node m size) pos v
      (mem_alloc_get_lem has_node m size v.sorted pos)

-- The return value of an allocation is that of the search in the rest of the list.
behind-fails :
    (m : MemAlloc) (p : MemLink) (f : Fit) → (get_outcome m (behind p f)).0 ≡ (get_outcome m f).0
unfolding get_outcome behind
behind-fails m p no_fit = refl
behind-fails m p no_node = refl
behind-fails m p (fit l r) = refl

allocate_node-succeeds :
    (m : MemAlloc) (p : MemLink) (ls : List MemLink) (size : ℕ)
    → (get_outcome m (mem_alloc_allocate_node true p ls size)).0 ≡ 0
unfolding get_outcome mem_alloc_allocate_node
allocate_node-succeeds m p ls size = elim (Bool-cases (p.size == size)) [
  | inl e ↦ rw e refl
  | inr e ↦ rw e refl
]

first_fit-fails_iff :
    (m : MemAlloc) (size : ℕ) (ls : List MemLink)
    → ((get_outcome m (first_fit true size ls)).0 ≡ 1) ↔ All (λ l. l.size < size) ls
unfolding first_fit
first_fit-fails_iff m size [] = (λ _. tt, λ _. unfold get_outcome in refl)
first_fit-fails_iff m size (p ∷ ls) = elim (Bool-cases (leb size p.size)) [
  | inl e ↦
      rw e (
        λ h. absurd (omega (arith, allocate_node-succeeds m p ls size)),
        λ h. absurd (ground arith),
      )
  | inr e ↦
      rw (e, behind-fails)
        (
          λ h. (ground arith, (first_fit-fails_iff m size ls).0 h),
          λ h. (first_fit-fails_iff m size ls).1 h.1,
        )
]

-- When `malloc` succeeds, an allocation fails exactly if every free block is too small for it.
pub mem_alloc_get-fails_iff :
    (m : MemAlloc) (size : ℕ)
    → ((mem_alloc_get true m size).0 ≡ 1) ↔ All (λ l. l.size < size) m.free
unfolding mem_alloc_get
mem_alloc_get-fails_iff m size = first_fit-fails_iff m size m.free
