-- ===== src/MemAlloc/Shape.antt =====
-- What the free list looks like: blocks in the order of their addresses, none empty, none
-- touching the next, all below 2 ^ 64.
use opae_libs.Prelude.{ℕ, ◌+◌, ◌^◌, ◌≤◌, ◌<◌, ◌⊎◌, List, [], ◌∷◌, arith, reverse_onto}
use opae_libs.MemAlloc.{MemLink}

-- A block that is not empty and does not wrap.
abbrev pub IsBlock : MemLink → Type 0
IsBlock l = (0 < l.size) × (l.address + l.size < 2 ^ 64)

-- The blocks lie at `lo` or above, in order, with a gap between neighbours.
abbrev pub Chain : ℕ → List MemLink → Type 0
Chain lo [] = Unit
Chain lo (l ∷ ls) = (lo ≤ l.address) × IsBlock l × Chain (l.address + l.size + 1) ls

-- The same of a list with the last block first: the blocks end below `hi`.
abbrev pub Backwards : ℕ → List MemLink → Type 0
Backwards hi [] = Unit
Backwards hi (l ∷ ls) = (l.address + l.size < hi) × IsBlock l × Backwards l.address ls

-- No block of the list meets `[address, address + size)`.
abbrev pub Apart : ℕ → ℕ → List MemLink → Type 0
Apart address size [] = Unit
Apart address size (l ∷ ls) =
    ((l.address + l.size ≤ address) ⊎ (address + size ≤ l.address)) × Apart address size ls

pub Chain-weaken : (lo lo' : ℕ) (ls : List MemLink) → lo' ≤ lo → Chain lo ls → Chain lo' ls
Chain-weaken lo lo' [] h c = tt
Chain-weaken lo lo' (l ∷ ls) h c = (omega arith, c.1, c.2)

pub Backwards-weaken :
    (hi hi' : ℕ) (ls : List MemLink) → hi ≤ hi' → Backwards hi ls → Backwards hi' ls
Backwards-weaken hi hi' [] h b = tt
Backwards-weaken hi hi' (l ∷ ls) h b = (omega arith, b.1, b.2)

-- Putting the blocks passed back in front keeps the order.
pub reverse_onto-Chain :
    (hi : ℕ) (bs ls : List MemLink) → Backwards hi bs → Chain hi ls → Chain 0 (reverse_onto bs ls)
reverse_onto-Chain hi [] ls b c = Chain-weaken hi 0 ls (omega arith) c
reverse_onto-Chain hi (p ∷ bs) ls b c =
    reverse_onto-Chain p.address bs (p ∷ ls) b.2
      (omega arith, b.1, Chain-weaken hi (p.address + p.size + 1) ls (omega arith) c)
