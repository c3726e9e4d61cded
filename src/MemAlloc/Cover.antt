-- ===== src/MemAlloc/Cover.antt =====
-- The abstract view of a list of blocks: how many of them hold each address.
use opae_libs.Prelude.{ℕ, ◌+◌, ◌^◌, ◌≤◌, ◌<◌, ◌⊎◌, inl, inr, List, [], ◌∷◌, ◌++◌, ◌≡◌, refl, arith}
use opae_libs.Prelude.{u64, ltb, leb, if◌then◌else◌, ◌&&◌, reverse_onto, All}
use opae_libs.Prelude.{Bool-cases, ltb→le}
use opae_libs.MemAlloc.{MemLink}
use opae_libs.MemAlloc.Shape.{IsBlock, Chain, Apart}

-- 1 for an address in `[address, address + size)`, 0 for any other.
abbrev pub within : ℕ → ℕ → ℕ → ℕ
within address size x = if leb address x && ltb x (address + size) then 1 else 0

abbrev pub cover : ℕ → List MemLink → ℕ
cover x [] = 0
cover x (l ∷ ls) = within l.address l.size x + cover x ls

pub cover-append : (x : ℕ) (ks ls : List MemLink) → cover x (ks ++ ls) ≡ cover x ks + cover x ls
cover-append x [] ls = omega arith
cover-append x (k ∷ ks) ls = omega (arith, cover-append x ks ls)

pub cover-reverse_onto :
    (x : ℕ) (bs ls : List MemLink) → cover x (reverse_onto bs ls) ≡ cover x bs + cover x ls
cover-reverse_onto x [] ls = omega arith
cover-reverse_onto x (b ∷ bs) ls = omega (arith, cover-reverse_onto x bs (b ∷ ls))

-- Two neighbouring blocks hold what the joined one holds, its size computed as the code does.
pub within-join :
    (x address size next more : ℕ)
    → address + size ≡ next
    → next + more < 2 ^ 64
    → within address (u64 (more + size)) x ≡ within address size x + within next more x
within-join x address size next more e h = ground arith

pub within_self :
    (address size x : ℕ) → address ≤ x → x < address + size → within address size x ≡ 1
within_self address size x h k = ground arith

pub within-outside :
    (address size x : ℕ) → (x < address) ⊎ (address + size ≤ x) → within address size x ≡ 0
within-outside address size x (inl h) = ground arith
within-outside address size x (inr h) = ground arith

-- Nothing of a chain lies below its bound.
pub cover-below : (x lo : ℕ) (ls : List MemLink) → x < lo → Chain lo ls → cover x ls ≡ 0
cover-below x lo [] h c = refl
cover-below x lo (l ∷ ls) h c = omega (
  arith,
  within-outside l.address l.size x (inl (omega arith)),
  cover-below x (l.address + l.size + 1) ls (omega arith) c.2,
)

-- A region no address of which is held meets no block.
pub Apart-of_cover :
    (address size : ℕ) (ls : List MemLink)
    → 0 < size
    → All IsBlock ls
    → ((x : ℕ) → address ≤ x → x < address + size → cover x ls ≡ 0)
    → Apart address size ls
Apart-of_cover address size [] pos bs h = tt
Apart-of_cover address size (l ∷ ls) pos bs h =
    (beside, Apart-of_cover address size ls pos bs.1 (λ x p q. omega (arith, h x p q)))
  where
    beside : (l.address + l.size ≤ address) ⊎ (address + size ≤ l.address)
    beside = elim (Bool-cases (ltb address (l.address + l.size))) [
      | inr e ↦ inl (ltb→le _ _ e)
      | inl e ↦ elim (Bool-cases (ltb l.address (address + size))) [
        | inr e' ↦ inr (ltb→le _ _ e')
        | inl e' ↦ absurd (ground (arith, h address, h l.address))
      ]
    ]

pub Chain-IsBlock : (lo : ℕ) (ls : List MemLink) → Chain lo ls → All IsBlock ls
Chain-IsBlock lo [] c = tt
Chain-IsBlock lo (l ∷ ls) c = (c.1, Chain-IsBlock (l.address + l.size + 1) ls c.2)

pub cover-le_head :
    (lo : ℕ) (l : MemLink) (ls : List MemLink)
    → Chain lo (l ∷ ls)
    → cover (l.address + l.size) (l ∷ ls) ≡ 0
cover-le_head lo l ls c = omega (
  arith,
  within-outside l.address l.size (l.address + l.size) (inr (omega arith)),
  cover-below (l.address + l.size) (l.address + l.size + 1) ls (omega arith) c.2,
)
