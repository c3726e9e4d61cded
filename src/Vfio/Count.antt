-- ===== src/Vfio/Count.antt =====
-- How often a block stands in a list, and what the count says of the addresses that are held.
use opae_libs.Prelude.{ℕ, ◌+◌, ◌≤◌, ◌<◌, List, [], ◌∷◌, ◌++◌, ◌≡◌, refl, sym, ap, arith}
use opae_libs.Prelude.{Bool, true, ◌==◌, ◌&&◌, if◌then◌else◌, Bool-cases, inl, inr}
use opae_libs.MemAlloc.{MemLink}
use opae_libs.MemAlloc.Cover.{cover}
use opae_libs.MemAlloc.Release.{cover-middle}

abbrev pub is_link : MemLink → MemLink → Bool
is_link k l = k.address == l.address && k.size == l.size

abbrev pub times : MemLink → List MemLink → ℕ
times k [] = 0
times k (l ∷ ls) = (if is_link k l then 1 else 0) + times k ls

pub times-append :
    (k : MemLink) (ls ms : List MemLink) → times k (ls ++ ms) ≡ times k ls + times k ms
times-append k [] ms = omega arith
times-append k (l ∷ ls) ms = omega (arith, times-append k ls ms)

pub times-middle :
    (k l : MemLink) (before after : List MemLink)
    → times k (before ++ l ∷ after) ≡ (if is_link k l then 1 else 0) + times k (before ++ after)
times-middle k l [] after = refl
times-middle k l (p ∷ before) after = omega (arith, times-middle k l before after)

is_link→eq : (k l : MemLink) → is_link k l ≡ true → k ≡ l
is_link→eq k l h =
    let a : k.address ≡ l.address = ground arith in
    let s : k.size ≡ l.size = ground arith in λ i. record { address = a i; size = s i }

pub is_link_self : (k : MemLink) → is_link k k ≡ true
is_link_self k = ground arith

-- A block that is counted can be taken out.
pub take_out :
    (k : MemLink) (ls : List MemLink)
    → 0 < times k ls
    → (before : List MemLink) × (after : List MemLink) × (ls ≡ before ++ k ∷ after)
take_out k [] h = absurd (omega arith)
take_out k (l ∷ ls) h = elim (Bool-cases (is_link k l)) [
  | inl e ↦ ([], ls, ap (λ m. m ∷ ls) (sym (is_link→eq k l e)))
  | inr e ↦
      let (before, after, eq) = take_out k ls (omega (arith, (rw e at h))) in
      (l ∷ before, after, ap (λ t. l ∷ t) eq)
]

-- Blocks that are counted less often hold no address more often.
pub cover_mono :
    (ks ls : List MemLink)
    → ((k : MemLink) → times k ks ≤ times k ls)
    → (x : ℕ) → cover x ks ≤ cover x ls
cover_mono [] ls h x = omega arith
cover_mono (k ∷ ks) ls h x =
    let me : times k (k ∷ ks) ≡ 1 + times k ks = rw (is_link_self k) refl in
    let some_in : 0 < times k ls = omega (arith, h k, me) in
    let (before, after, eq) = take_out k ls some_in in
    let rest : (j : MemLink) → times j ks ≤ times j (before ++ after) =
      λ j. omega (arith, h j, ap (times j) eq, times-middle j k before after) in
    omega (
      arith,
      cover_mono ks (before ++ after) rest x,
      ap (cover x) eq,
      cover-middle x before after k,
    )
