-- ===== src/MemAlloc/Client.antt =====
-- What a client of the allocator sees: sequences of calls, and an allocation with its release.
use opae_libs.Prelude.{ℕ, ◌+◌, ◌≤◌, ◌<◌, inl, inr, ◌^◌, List, [], ◌∷◌, ◌++◌, ◌≡◌, refl}
use opae_libs.Prelude.{sym, ap₂, ◌∙◌}
use opae_libs.Prelude.{arith, Bool, true, some, All, ltb, ◌≢◌}
use opae_libs.Prelude.{Bool-cases, ltb→lt, ltb→le}
use mathlib.Core.List.{append-nil}
use opae_libs.MemAlloc.{MemLink, MemAlloc, mem_alloc_get, mem_alloc_put, mem_alloc_add_free}
use opae_libs.MemAlloc.{mem_alloc_free_node}
use opae_libs.MemAlloc.Shape.{IsBlock, Chain, Apart, Chain-weaken}
use opae_libs.MemAlloc.Cover.{
  within, cover, within_self, cover-below, cover-le_head, Apart-of_cover,
}
use opae_libs.MemAlloc.Cover.{Chain-IsBlock}
use opae_libs.MemAlloc.Free.{mem_alloc_add_free_lem}
use opae_libs.MemAlloc.Owned.{IsValid, pool, Got, mem_alloc_get_lem, mem_alloc_get-IsValid}
use opae_libs.MemAlloc.Release.{Put, cover-middle, unlink_at-first, mem_alloc_put_lem}

module _ (lo : ℕ) (k l : MemLink) (ks ls : List MemLink) where
  head-address-le :
      Chain lo (k ∷ ks)
      → Chain lo (l ∷ ls)
      → cover k.address (k ∷ ks) ≡ cover k.address (l ∷ ls)
      → l.address ≤ k.address
  head-address-le c d h = elim (Bool-cases (ltb k.address l.address)) [
    | inr e ↦ ltb→le _ _ e
    | inl e ↦ absurd (
        omega (
          arith,
          h,
          within_self k.address k.size k.address,
          cover-below k.address l.address (l ∷ ls) (ltb→lt _ _ e) (omega arith, d.1, d.2),
        ))
  ]

  head-size-le :
      Chain lo (k ∷ ks)
      → Chain lo (l ∷ ls)
      → k.address ≡ l.address
      → cover (k.address + k.size) (k ∷ ks) ≡ cover (k.address + k.size) (l ∷ ls)
      → l.size ≤ k.size
  head-size-le c d e h = elim (Bool-cases (ltb k.size l.size)) [
    | inr f ↦ ltb→le _ _ f
    | inl f ↦ absurd (
        omega (
          arith,
          h,
          ltb→lt _ _ f,
          cover-le_head lo k ks c,
          within_self l.address l.size (k.address + k.size),
        ))
  ]

-- A sorted and coalesced list is determined by the addresses that it holds.
pub Chain-ext :
    (lo : ℕ) (ks ls : List MemLink)
    → Chain lo ks
    → Chain lo ls
    → ((x : ℕ) → cover x ks ≡ cover x ls)
    → ks ≡ ls
Chain-ext lo [] [] c d h = refl
Chain-ext lo [] (l ∷ ls) c d h =
    absurd (omega (arith, h l.address, within_self l.address l.size l.address))
Chain-ext lo (k ∷ ks) [] c d h =
    absurd (omega (arith, h k.address, within_self k.address k.size k.address))
Chain-ext lo (k ∷ ks) (l ∷ ls) c d h =
    let a : k.address ≡ l.address = omega (
      arith,
      head-address-le lo k l ks ls c d (h k.address),
      head-address-le lo l k ls ks d c (sym (h l.address)),
    ) in
    let s : k.size ≡ l.size = omega (
      arith,
      head-size-le lo k l ks ls c d a (h (k.address + k.size)),
      head-size-le lo l k ls ks d c (sym a) (sym (h (l.address + l.size))),
    ) in
    let same : k ≡ l = λ i. record { address = a i; size = s i } in
    ap₂ ◌∷◌ same (
      Chain-ext (l.address + l.size + 1) ks ls (Chain-weaken _ _ ks (omega arith) c.2) d.2
        (λ x. omega (arith, h x, ap₂ (λ (b t : ℕ). within b t x) a s)))

none_at :
    (a : ℕ) (ls : List MemLink) → All IsBlock ls → cover a ls ≡ 0 → All (λ l. a ≢ l.address) ls
none_at a [] b h = tt
none_at a (l ∷ ls) b h =
    (λ e. omega (arith, within_self l.address l.size a), none_at a ls b.1 (omega arith))

pub put_back :
    (m m' : MemAlloc) (size a : ℕ)
    → IsValid m
    → 0 < size
    → a + size < 2 ^ 64
    → Chain 0 m'.free
    → m'.allocated ≡ m.allocated ++ record { address = a; size = size } ∷ []
    → ((x : ℕ) → cover x m.free ≡ within a size x + cover x m'.free)
    → mem_alloc_put true m' a ≡ (0, m)
unfolding mem_alloc_put mem_alloc_free_node
put_back m m' size a v pos fits c al h =
    let block : MemLink = record { address = a; size = size } in
    let left : MemAlloc = record m' { allocated = m.allocated } in
    let new : All (λ l. a ≢ l.address) m.allocated =
      none_at a m.allocated v.blocks (omega (arith, h a, within_self a size a, v.exclusive a)) in
    let apart : Apart a size m'.free =
      Apart-of_cover a size m'.free pos (Chain-IsBlock 0 m'.free c)
        (λ x p q. omega (arith, h x, within_self a size x p q, v.exclusive x)) in
    let added = mem_alloc_add_free_lem left a size c pos fits apart in
    let back : (mem_alloc_add_free true left a size).1.free ≡ m.free =
      Chain-ext 0 _ m.free added.1 v.sorted (λ x. omega (arith, added.3 x, h x)) in
    rw (al, unlink_at-first a m.allocated block [] new refl, append-nil)
      (λ i. (added.0 i, record { free = back i; allocated = added.2 i }))

-- In a valid allocator, releasing a block right after its allocation, of at least one byte, gives
-- back the allocator as it was, the free list block for block and the allocated list in its order,
-- whenever `malloc` gives the node of the release.
pub get-put :
    (has_node : Bool) (m m' : MemAlloc) (size a : ℕ)
    → IsValid m
    → 0 < size
    → mem_alloc_get has_node m size ≡ (0, some a, m')
    → mem_alloc_put true m' a ≡ (0, m)
get-put has_node m m' size a v pos e =
    back (rw e at (mem_alloc_get_lem has_node m size v.sorted pos))
  where
    back : Got size m (0, some a, m') → mem_alloc_put true m' a ≡ (0, m)
    back (inl (z, _, _)) = absurd (omega arith)
    back (inr (b, _, ea, c, al, fits, h)) =
        let same : a ≡ b = cc in rw same (put_back m m' size b v pos fits c al h)

-- A call of a client, with whether its `malloc` succeeds.
pub data Call : Type 0 where
  get : Bool → ℕ → Call
  put : ℕ → Call

abbrev pub IsProper : Call → Type 0
IsProper (get has_node size) = 0 < size
IsProper (put a) = Unit {0}

pub call : MemAlloc → Call → MemAlloc
call m (get has_node size) = (mem_alloc_get has_node m size).2
call m (put a) = (mem_alloc_put true m a).1

pub calls : MemAlloc → List Call → MemAlloc
calls m [] = m
calls m (c ∷ cs) = calls (call m c) cs

Put-IsValid :
    (a : ℕ) (m : MemAlloc) (r : ℕ × MemAlloc)
    → IsValid m
    → Put a m r
    → IsValid r.1 × ((x : ℕ) → pool x r.1 ≡ pool x m)
Put-IsValid a m r v (inl (_, e, _)) = rw e (v, λ x. refl)
Put-IsValid a m r v (inr (size, before, after, _, e, f, v', g)) = (
  v',
  λ x.
      rw (e, f)
        (omega (arith, g x, cover-middle x before after (record { address = a; size = size }))),
)

call-IsValid :
    (m : MemAlloc) (c : Call)
    → IsProper c
    → IsValid m
    → IsValid (call m c) × ((x : ℕ) → pool x (call m c) ≡ pool x m)
unfolding call
call-IsValid m (get has_node size) p v = mem_alloc_get-IsValid has_node m size p v
call-IsValid m (put a) p v = Put-IsValid a m (mem_alloc_put true m a) v (mem_alloc_put_lem m a v)

-- No sequence of allocations of at least one byte and of releases, with any addresses, breaks the
-- invariant (no address is handed out twice or is free while in use), and none loses an address or
-- gains one, if `malloc` gives a node to each release.
pub calls-IsValid :
    (cs : List Call) (m : MemAlloc)
    → All IsProper cs
    → IsValid m
    → IsValid (calls m cs) × ((x : ℕ) → pool x (calls m cs) ≡ pool x m)
unfolding calls
calls-IsValid [] m p v = (v, λ x. refl)
calls-IsValid (c ∷ cs) m p v =
    let (v', same) = call-IsValid m c p.0 v in
    let (v'', same') = calls-IsValid cs (call m c) p.1 v' in (v'', λ x. same' x ∙ same x)
