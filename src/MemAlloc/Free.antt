-- ===== src/MemAlloc/Free.antt =====
-- `mem_alloc_add_free`: where the new block goes, and what the free list holds then.
use opae_libs.Prelude.{ℕ, ◌+◌, ◌≤◌, ◌<◌, ◌^◌, inl, inr, List, [], ◌∷◌, ◌≡◌, refl}
use opae_libs.Prelude.{arith, ltb, ◌==◌, true, false, some}
use opae_libs.Prelude.{Bool-cases, ltb→lt, ltb→le, ==_iff}
use opae_libs.MemAlloc.{MemLink, MemAlloc, ends, merge_prev, merge_next, mem_alloc_coalesce}
use opae_libs.MemAlloc.{insert_from, insert_free, add_outcome, mem_alloc_add_free}
use opae_libs.MemAlloc.Shape.{IsBlock, Chain, Backwards, Apart, Chain-weaken, Backwards-weaken}
use opae_libs.Prelude.{◌↔◌}
use opae_libs.MemAlloc.Shape.{reverse_onto-Chain}
use opae_libs.MemAlloc.Cover.{within, cover, cover-reverse_onto, within-join}

-- What merging with the node before leaves.
record MergedPrev (bs : List MemLink) (l : MemLink) (r : List MemLink × MemLink) : Type 0 where
  before : Backwards r.1.address r.0
  block : IsBlock r.1
  ends_same : r.1.address + r.1.size ≡ l.address + l.size
  same_cover :
      (x : ℕ) → cover x r.0 + within r.1.address r.1.size x ≡ cover x bs + within l.address l.size x

merge_prev_lem :
    (bs : List MemLink) (l : MemLink)
    → Backwards (l.address + 1) bs
    → IsBlock l
    → MergedPrev bs l (merge_prev bs l)
unfolding merge_prev
merge_prev_lem [] l b k = record {
  before = tt;
  block = k;
  ends_same = refl;
  same_cover = λ x. refl;
}
merge_prev_lem (p ∷ bs) l b k = elim (Bool-cases (ends p == l.address)) [
  | inl e ↦
      let same : p.address + p.size ≡ l.address = omega (arith, (==_iff _ _).0 e) in
      rw e (record {
        before = b.2;
        block = omega arith;
        ends_same = omega arith;
        same_cover = λ x. ground (arith, within-join x p.address p.size l.address l.size same);
      })
  | inr e ↦ rw e (record {
    before = (ground arith, b.1, b.2);
    block = k;
    ends_same = refl;
    same_cover = λ x. refl;
  })
]

merge_next-Chain :
    (l : MemLink) (ls : List MemLink)
    → IsBlock l
    → Chain (l.address + l.size) ls
    → Chain l.address (merge_next l ls)
unfolding merge_next
merge_next-Chain l [] k c = (omega arith, k, tt)
merge_next-Chain l (n ∷ ls) k c = elim (Bool-cases (ends l == n.address)) [
  | inl e ↦
      rw e (omega arith, omega arith, Chain-weaken (n.address + n.size + 1) _ ls (ground arith) c.2)
  | inr e ↦ rw e (omega arith, k, (ground arith, c.1, c.2))
]

cover-merge_next :
    (x : ℕ) (l : MemLink) (ls : List MemLink)
    → IsBlock l
    → Chain (l.address + l.size) ls
    → cover x (merge_next l ls) ≡ within l.address l.size x + cover x ls
unfolding merge_next
cover-merge_next x l [] k c = refl
cover-merge_next x l (n ∷ ls) k c = elim (Bool-cases (ends l == n.address)) [
  | inl e ↦ rw e (ground (arith, within-join x l.address l.size n.address n.size))
  | inr e ↦ rw e refl
]

-- Coalescing a block that lies between its neighbours keeps the shape of the list.
coalesce-Chain :
    (bs : List MemLink) (l : MemLink) (ls : List MemLink)
    → Backwards (l.address + 1) bs
    → IsBlock l
    → Chain (l.address + l.size) ls
    → Chain 0 (mem_alloc_coalesce bs l ls)
unfolding mem_alloc_coalesce
coalesce-Chain [] l [] b k c = (omega arith, k, tt)
coalesce-Chain bs l ls b k c =
    let m = merge_prev_lem bs l b k in
    let l' = (merge_prev bs l).1 in
    reverse_onto-Chain l'.address (merge_prev bs l).0 (merge_next l' ls) m.before
      (merge_next-Chain l' ls m.block (Chain-weaken (l.address + l.size) _ ls (omega arith) c))

cover-coalesce :
    (x : ℕ) (bs : List MemLink) (l : MemLink) (ls : List MemLink)
    → Backwards (l.address + 1) bs
    → IsBlock l
    → Chain (l.address + l.size) ls
    → cover x (mem_alloc_coalesce bs l ls) ≡ cover x bs + within l.address l.size x + cover x ls
unfolding mem_alloc_coalesce
cover-coalesce x [] l [] b k c = omega arith
cover-coalesce x bs l ls b k c =
    let m = merge_prev_lem bs l b k in
    let l' = (merge_prev bs l).1 in
    omega (
      arith,
      cover-reverse_onto x (merge_prev bs l).0 (merge_next l' ls),
      cover-merge_next x l' ls m.block (Chain-weaken (l.address + l.size) _ ls (omega arith) c),
      m.same_cover x,
    )

-- The new block stands in the list, and the list holds it beside what it held.
record Inserted (bs : List MemLink) (node : MemLink) (ls r : List MemLink) : Type 0 where
  chain : Chain 0 r
  holds : (x : ℕ) → cover x r ≡ cover x bs + within node.address node.size x + cover x ls

coalesce-Inserted :
    (hi : ℕ) (bs : List MemLink) (node : MemLink) (ls : List MemLink)
    → Backwards hi bs
    → hi ≤ node.address + 1
    → IsBlock node
    → Chain (node.address + node.size) ls
    → Inserted bs node ls (mem_alloc_coalesce bs node ls)
coalesce-Inserted hi bs node ls b h k c =
    let b' = Backwards-weaken hi (node.address + 1) bs h b in
    record {
      chain = coalesce-Chain bs node ls b' k c;
      holds = λ x. cover-coalesce x bs node ls b' k c;
    }

Inserted-past :
    (p node : MemLink) (bs ls r : List MemLink)
    → Inserted (p ∷ bs) node ls r
    → Inserted bs node (p ∷ ls) r
Inserted-past p node bs ls r i = record { chain = i.chain; holds = λ x. omega (arith, i.holds x) }

insert_from-Inserted :
    (hi : ℕ) (node : MemLink) (bs ls : List MemLink)
    → Backwards hi bs
    → Chain hi ls
    → hi ≤ node.address + 1
    → IsBlock node
    → Apart node.address node.size ls
    → Inserted bs node ls (insert_from node bs ls)
unfolding insert_from
insert_from-Inserted hi node bs [] b c h k d = coalesce-Inserted hi bs node [] b h k tt
insert_from-Inserted hi node bs (p ∷ ls) b c h k d =
    elim (Bool-cases (ltb p.address node.address)) [
      | inl e ↦ rw e (
          Inserted-past p node bs ls _ (
            insert_from-Inserted (p.address + p.size + 1) node (p ∷ bs) ls
              (omega arith, c.1, Backwards-weaken hi p.address bs c.0 b) c.2
              (ground (arith, ltb→lt _ _ e)) k d.1))
      | inr e ↦
          rw e
            (coalesce-Inserted hi bs node (p ∷ ls) b h k (ground (arith, ltb→le _ _ e), c.1, c.2))
    ]

insert_free-Inserted :
    (node : MemLink) (ls : List MemLink)
    → Chain 0 ls
    → IsBlock node
    → Apart node.address node.size ls
    → (r : List MemLink) × (insert_free node ls ≡ some r) × Inserted [] node ls r
unfolding insert_free
insert_free-Inserted node [] c k d =
    (_, refl, insert_from-Inserted 0 node [] [] tt c (omega arith) k d)
insert_free-Inserted node (p ∷ ls) c k d = elim (Bool-cases (ltb node.address p.address)) [
  | inl e ↦ rw e (
    _,
    refl,
    coalesce-Inserted 0 [] node (p ∷ ls) tt (omega arith) k
        (ground (arith, ltb→lt _ _ e), c.1, c.2),
  )
  | inr e ↦
      rw (e, differs) (_, refl, insert_from-Inserted 0 node [] (p ∷ ls) tt c (omega arith) k d)
]
  where
    differs : (node.address == p.address) ≡ false
    differs = ground arith

-- A region of free space that wraps nowhere and meets no free block is added: the call returns 0,
-- the free list stays sorted and coalesced, the allocated list is untouched, and the free list
-- holds exactly the addresses of the region beside those that it held.
pub mem_alloc_add_free_lem :
    (m : MemAlloc) (address size : ℕ)
    → Chain 0 m.free
    → 0 < size
    → address + size < 2 ^ 64
    → Apart address size m.free
    → let (ret, m') = mem_alloc_add_free true m address size in
      (ret ≡ 0)
      × Chain 0 m'.free
      × (m'.allocated ≡ m.allocated)
      × ((x : ℕ) → cover x m'.free ≡ within address size x + cover x m.free)
unfolding mem_alloc_add_free add_outcome
mem_alloc_add_free_lem m address size c pos fits d =
    let node : MemLink = record { address = address; size = size } in
    let (r, e, i) = insert_free-Inserted node m.free c (pos, fits) d in
    rw e (refl, i.chain, refl, λ x. omega (arith, i.holds x))

-- With a free list that is not empty, and a node from `malloc`, a region is refused as a double
-- free exactly if it starts where the first free block starts: the later blocks are not looked at
-- for it.
pub mem_alloc_add_free-double_iff :
    (m : MemAlloc) (address size : ℕ) (p : MemLink) (rest : List MemLink)
    → m.free ≡ p ∷ rest
    → ((mem_alloc_add_free true m address size).0 ≡ 2) ↔ (address ≡ p.address)
unfolding mem_alloc_add_free insert_free add_outcome
mem_alloc_add_free-double_iff m address size p rest e = rw e (ground arith)
