-- ===== src/Vector/Cells.antt =====
-- The cells of the array after the loops of vector.c.
use opae_libs.Prelude.{ℕ, zero, suc, ◌+◌, ◌<◌, ◌≤◌, some}
use opae_libs.Prelude.{
  List, [], ◌∷◌, length, get_or, set, ltb, ◌==◌, if◌then◌else◌, ◌≡◌, refl, sym, ap, ◌∙◌,
}
use opae_libs.Prelude.{
  drop, take, lt→ltb, arith, inl, inr, Bool-cases, ==_iff, length-set, get_or-set_self,
  get_or-set_ne,
}
use mathlib.Core.Path.{subst}
use opae_libs.Vector.{move_down, shift_from, free_from}

pub get_or-set :
    (xs : List ℕ) (i k v : ℕ)
    → i < length xs
    → get_or (set xs i v) k 0 ≡ (if k == i then v else get_or xs k 0)
get_or-set xs i k v h = elim (Bool-cases (k == i)) [
  | inl e ↦ rw e (
      subst (λ j. get_or (set xs i v) j 0 ≡ v) (sym ((==_iff k i).0 e))
        (get_or-set_self xs i v 0 h))
  | inr n ↦ rw n (get_or-set_ne xs i k v 0 (ground arith))
]

swap_tests :
    (i k a b : ℕ)
    → (if k == i + 1 then 0 else if k == i then a else b)
      ≡ (if k == i then a else if k == i + 1 then 0 else b)
swap_tests i k a b = ground arith

move_down-get_or :
    (i k : ℕ) (xs : List ℕ)
    → i + 1 < length xs
    → get_or (move_down i xs) k 0
      ≡ (if k == i then get_or xs (i + 1) 0 else if k == i + 1 then 0 else get_or xs k 0)
unfolding move_down
move_down-get_or i k xs h =
    let outer =
      get_or-set (set xs i (get_or xs (i + 1) 0)) (i + 1) k 0
        (rw (length-set xs i (get_or xs (i + 1) 0)) h) in
    let inner = get_or-set xs i k (get_or xs (i + 1) 0) (omega arith) in
    outer
    ∙ ap (λ c. if k == i + 1 then 0 else c) inner
    ∙ swap_tests i k (get_or xs (i + 1) 0) (get_or xs k 0)

length-move_down : (i : ℕ) (xs : List ℕ) → length (move_down i xs) ≡ length xs
unfolding move_down
length-move_down i xs = length-set (set xs i (get_or xs (i + 1) 0)) (i + 1) 0 ∙ length-set xs i _

pub length-shift_from : (left i : ℕ) (xs : List ℕ) → length (shift_from left i xs) ≡ length xs
unfolding shift_from
length-shift_from zero i xs = refl
length-shift_from (suc left) i xs =
    length-shift_from left (suc i) (move_down i xs) ∙ length-move_down i xs

abbrev pub shifted : ℕ → ℕ → List ℕ → ℕ → ℕ
shifted left i xs k =
    if ltb k i
    then get_or xs k 0
    else if ltb k (i + left)
    then get_or xs (k + 1) 0
    else if k == i + left
    then 0
    else get_or xs k 0

shifted_step :
    (left i k w x y a b : ℕ)
    → (k ≡ i → w ≡ y)
    → a ≡ (if k == i then w else if k == i + 1 then 0 else x)
    → b ≡ (if k + 1 == i then w else if k + 1 == i + 1 then 0 else y)
    → (if ltb k (suc i)
        then a
        else if ltb k (suc i + left)
        then b
        else if k == suc i + left
        then 0
        else a)
      ≡ (if ltb k i
          then x
          else if ltb k (i + suc left)
          then y
          else if k == i + suc left
          then 0
          else x)
shifted_step left i k w x y a b same here next = elim (Bool-cases (k == i)) [
  | inl e ↦ let wy : w ≡ y = same ((==_iff k i).0 e) in ground arith
  | inr n ↦ ground arith
]

-- A cleared cell goes up, and the cells that it passes come down.
pub shift_from-get_or :
    (left i k : ℕ) (xs : List ℕ)
    → i + left < length xs
    → get_or xs i 0 ≡ 0
    → get_or (shift_from left i xs) k 0 ≡ shifted left i xs k
unfolding shift_from
shift_from-get_or zero i k xs h z = elim (Bool-cases (k == i)) [
  | inl e ↦ let same : k ≡ i = ground arith in rw same (ground (arith, z))
  | inr n ↦ ground arith
]
shift_from-get_or (suc left) i k xs h z =
    let cleared = move_down-get_or i (suc i) xs (omega arith) in
    let here = move_down-get_or i k xs (omega arith) in
    let next = move_down-get_or i (k + 1) xs (omega arith) in
    let rest =
      shift_from-get_or left (suc i) k (move_down i xs) (rw (length-move_down i xs) (omega arith))
        (cleared ∙ ground arith) in
    let swapped : (k ≡ i) → get_or xs (i + 1) 0 ≡ get_or xs (k + 1) 0 =
      λ e. ap (λ j. get_or xs (j + 1) 0) (sym e) in
    rest ∙ shifted_step left i k _ _ _ _ _ swapped here next

-- The pointers of a list that are not NULL.
abbrev pub not_null : List ℕ → List ℕ
not_null [] = []
not_null (p ∷ ps) = if p == 0 then not_null ps else p ∷ not_null ps

drop-step : (xs : List ℕ) (i : ℕ) → i < length xs → drop i xs ≡ get_or xs i 0 ∷ drop (suc i) xs
drop-step [] i h = absurd (omega arith)
drop-step (x ∷ xs) zero h = refl
drop-step (x ∷ xs) (suc i) h = drop-step xs i (omega arith)

pub free_from_lem :
    (xs : List ℕ) (left i : ℕ)
    → i + left ≤ length xs
    → free_from xs left i ≡ some (not_null (take left (drop i xs)))
unfolding free_from
free_from_lem xs zero i h = refl
free_from_lem xs (suc left) i h =
    rw (lt→ltb i (length xs) (omega arith))
      (rw (free_from_lem xs left (suc i) (omega arith)) (rw (drop-step xs i (omega arith)) refl))
