-- ===== src/MemAlloc.antt =====
-- libopaemem/mem_alloc.c and include/opae/mem_alloc.h: the first-fit allocator of a logical
-- address space. A circular list of `mem_link` is the list of its nodes in the order of `next`,
-- from the one behind the head on; the head itself is not an element. A walk that inserts keeps
-- the nodes already passed, last one first, so that `prev` and `next` of the new node are at hand.
pub mod Shape
pub mod Cover
pub mod Free
pub mod Owned
pub mod Release
pub mod Client
pub mod Removed
mod Tests
use opae_libs.Prelude.{ℕ, ◌+◌, ◌-◌, Bool, true, false, not, Option, none, some, List, [], ◌∷◌, ◌++◌}
use opae_libs.Prelude.{u64, ltb, leb, ◌==◌, if◌then◌else◌, reverse_onto}

pub record MemLink : Type 0 where
  pub address : ℕ
  pub size : ℕ

pub record MemAlloc : Type 0 where
  pub free : List MemLink
  pub allocated : List MemLink

unfoldable pub mem_alloc_init : MemAlloc
mem_alloc_init = record { free = []; allocated = [] }

-- Both loops of `mem_alloc_destroy` free every node, and the heads are made empty again.
unfoldable pub mem_alloc_destroy : MemAlloc → MemAlloc
unfolding mem_alloc_init
mem_alloc_destroy m = mem_alloc_init

abbrev pub ends : MemLink → ℕ
ends l = u64 (l.address + l.size)

-- `if (prev != head) { ... }` of `mem_alloc_coalesce`: the nodes before, and the node `l`.
merge_prev : List MemLink → MemLink → List MemLink × MemLink
merge_prev [] l = ([], l)
merge_prev (p ∷ before) l =
    if ends p == l.address
    then (before, record { address = p.address; size = u64 (l.size + p.size) })
    else (p ∷ before, l)

-- `if (next != head) { ... }`: what stands from `l` on; a merge keeps the node `next`.
merge_next : MemLink → List MemLink → List MemLink
merge_next l [] = l ∷ []
merge_next l (n ∷ after) =
    if ends l == n.address
    then record { address = l.address; size = u64 (n.size + l.size) } ∷ after
    else l ∷ n ∷ after

mem_alloc_coalesce : List MemLink → MemLink → List MemLink → List MemLink
mem_alloc_coalesce [] l [] = l ∷ []
mem_alloc_coalesce before l after =
    let (before', l') = merge_prev before l in reverse_onto before' (merge_next l' after)

-- `while ((address > p->address) && (p != &m->free)) p = p->next;`
-- then `link_before(node, p)` and the coalescing.
insert_from : MemLink → List MemLink → List MemLink → List MemLink
insert_from node before [] = mem_alloc_coalesce before node []
insert_from node before (p ∷ after) =
    if ltb p.address node.address
    then insert_from node (p ∷ before) after
    else mem_alloc_coalesce before node (p ∷ after)

-- The walk of `mem_alloc_add_free` over the free list; `none` is the double free that the first
-- loop detects, at the first node only.
insert_free : MemLink → List MemLink → Option (List MemLink)
insert_free node [] = some (insert_from node [] [])
insert_free node (p ∷ rest) =
    if ltb node.address p.address
    then some (mem_alloc_coalesce [] node (p ∷ rest))
    else if node.address == p.address
    then none
    else some (insert_from node [] (p ∷ rest))

add_outcome : MemAlloc → Option (List MemLink) → ℕ × MemAlloc
add_outcome m none = (2, m)
add_outcome m (some free') = (0, record m { free = free' })

-- The Boolean is whether `malloc` gives a node; the number is the function's return value.
unfoldable pub mem_alloc_add_free : Bool → MemAlloc → ℕ → ℕ → ℕ × MemAlloc
unfolding add_outcome insert_free insert_from mem_alloc_coalesce merge_prev merge_next
mem_alloc_add_free false m address size = (1, m)
mem_alloc_add_free true m address size =
    add_outcome m (insert_free (record { address = address; size = size }) m.free)

-- What the walk of `mem_alloc_get` ends with: no block is large enough, `malloc` gave no node, or
-- the block taken and the free list that is left.
pub data Fit : Type 0 where
  no_fit no_node : Fit
  fit : MemLink → List MemLink → Fit

-- The block goes to the end of the allocated list (`mem_alloc_get`); here it leaves the free one.
mem_alloc_allocate_node : Bool → MemLink → List MemLink → ℕ → Fit
mem_alloc_allocate_node has_node node rest size =
    if node.size == size
    then fit node rest
    else if has_node
    then fit (record { address = node.address; size = size })
        (record { address = u64 (node.address + size); size = node.size - size } ∷ rest)
    else no_node

behind : MemLink → Fit → Fit
behind p no_fit = no_fit
behind p no_node = no_node
behind p (fit l free) = fit l (p ∷ free)

first_fit : Bool → ℕ → List MemLink → Fit
first_fit has_node size [] = no_fit
first_fit has_node size (p ∷ rest) =
    if leb size p.size
    then mem_alloc_allocate_node has_node p rest size
    else behind p (first_fit has_node size rest)

get_outcome : MemAlloc → Fit → ℕ × Option ℕ × MemAlloc
get_outcome m no_fit = (1, none, m)
get_outcome m no_node = (1, none, m)
get_outcome m (fit l free') =
    (0, some l.address, record { free = free'; allocated = m.allocated ++ l ∷ [] })

-- The return value, what is written to `*address`, and the allocator.
unfoldable pub mem_alloc_get : Bool → MemAlloc → ℕ → ℕ × Option ℕ × MemAlloc
unfolding get_outcome first_fit behind mem_alloc_allocate_node
mem_alloc_get has_node m size = get_outcome m (first_fit has_node size m.free)

-- `link_unlink` of the first allocated node at the address.
keep_link : MemLink → Option (MemLink × List MemLink) → Option (MemLink × List MemLink)
keep_link p none = none
keep_link p (some (l, ls)) = some (l, p ∷ ls)

pub unlink_at : ℕ → List MemLink → Option (MemLink × List MemLink)
unfolding keep_link
unlink_at address [] = none
unlink_at address (p ∷ rest) =
    if address == p.address then some (p, rest) else keep_link p (unlink_at address rest)

-- The node is unlinked and freed before `mem_alloc_add_free` asks for a new one.
mem_alloc_free_node : Bool → MemAlloc → Option (MemLink × List MemLink) → ℕ × MemAlloc
unfolding mem_alloc_add_free
mem_alloc_free_node has_node m none = (1, m)
mem_alloc_free_node has_node m (some (l, ls)) =
    mem_alloc_add_free has_node (record m { allocated = ls }) l.address l.size

unfoldable pub mem_alloc_put : Bool → MemAlloc → ℕ → ℕ × MemAlloc
unfolding mem_alloc_free_node unlink_at
mem_alloc_put has_node m address = mem_alloc_free_node has_node m (unlink_at address m.allocated)
