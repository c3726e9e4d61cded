-- ===== src/Vector/Delete.antt =====
-- `fpga_vector_delete`: the loop that moves the items down, and the smaller array after it.
use opae_libs.Prelude.{ℕ, ◌+◌, ◌-◌, ◌/◌, ◌^◌, ◌<◌, ◌≤◌, true, false, Option, none, some}
use opae_libs.Prelude.{List, length, get_or, set, ltb, leb, ◌==◌, if◌then◌else◌}
use opae_libs.Prelude.{◌≡◌, refl, sym, ap, ◌∙◌, ◌&&◌, ap₂, get_or-set_self}
use opae_libs.Prelude.{arith, inl, inr, Bool-cases, length-set, lt→ltb}
use mathlib.Core.Path.{subst}
use opae_libs.Types.{FpgaResult, fpga_ok, fpga_no_memory}
use opae_libs.Vector.{MetricVector}
use opae_libs.Vector.{fpga_vector_delete, fpga_vector_get, Realloc, Deletion}
use opae_libs.Vector.{shift_from, shrink, delete_cells}
use opae_libs.Vector.Cells.{get_or-set, length-shift_from, shift_from-get_or}
use opae_libs.Vector.Laws.{
  Holds, IsValid, Reallocates, fpga_vector_get_lem, Resized, resize-Resized,
}

-- What a deletion does: the item is freed where it is not NULL, and those behind it move down.
abbrev pub Deleted : MetricVector → ℕ → Option Deletion → Type 0
Deleted v index (some (fpga_ok, freed, some v')) =
    IsValid v'
    × (v'.total + 1 ≡ v.total)
    × ((item : ℕ)
        → fpga_vector_get (some v) index ≡ some item
        → freed ≡ (if item == 0 then none else some item))
    × ((k : ℕ)
        → fpga_vector_get (some v') k
          ≡ (if ltb k index then fpga_vector_get (some v) k else fpga_vector_get (some v) (k + 1)))
Deleted v index r = ⊥

-- Shrinking keeps a valid vector valid and its items, whether or not there is memory.
Shrunk : MetricVector → Option MetricVector → Type 0
Shrunk v none = ⊥
Shrunk v (some v') =
    IsValid v'
    × (v'.total ≡ v.total)
    × ((k : ℕ) → fpga_vector_get (some v') k ≡ fpga_vector_get (some v) k)

Resized→Shrunk :
    (v : MetricVector) (c : ℕ) (r : FpgaResult × Option MetricVector)
    → IsValid v
    → Resized v c r
    → Shrunk v r.1
unfolding Shrunk
Resized→Shrunk v c (fpga_no_memory, o) h e = subst (Shrunk v) (sym e) (h, refl, λ k. refl)
Resized→Shrunk v c (fpga_ok, some v') h (ok, c', t, g) = (ok, t, g)
Resized→Shrunk v c (res, o) h r = absurd r

quarter : (t c : ℕ) → (ltb 0 t && t == c / 4) ≡ true → (t ≤ c / 2) × (0 < c / 2)
quarter t c e = (ground arith, ground arith)

shrink-Shrunk :
    (realloc : Realloc) (v : MetricVector)
    → Reallocates realloc
    → IsValid v
    → v.capacity < 2 ^ 60
    → Shrunk v (shrink realloc v)
unfolding shrink Shrunk
shrink-Shrunk realloc v law (xs, h) w =
    elim (Bool-cases (ltb 0 v.total && v.total == v.capacity / 4)) [
      | inr n ↦ rw n ((xs, h), refl, λ k. refl)
      | inl y ↦ rw y (
          let (a, b) = quarter _ _ y in
          Resized→Shrunk v (v.capacity / 2) _ (xs, h)
            (resize-Resized realloc v xs (v.capacity / 2) law h a b (omega (arith, w))))
    ]

deleted_tests :
    (t i k x y a b : ℕ)
    → i < t
    → a ≡ (if k == i then 0 else x)
    → b ≡ (if k + 1 == i then 0 else y)
    → some (
        if ltb k (t - 1)
        then (if ltb k i
            then a
            else if ltb k (i + (t - 1 - i))
            then b
            else if k == i + (t - 1 - i)
            then 0
            else a)
        else 0)
      ≡ (if ltb k i then some (if ltb k t then x else 0) else some (if ltb (k + 1) t then y else 0))
deleted_tests t i k x y a b lt here next = ground arith

-- The vector after the loop, before it shrinks.
abbrev closed : MetricVector → ℕ → List ℕ → MetricVector
closed v index xs = record v {
  fpga_metric_item = some (shift_from (v.total - 1 - index) index (set xs index 0));
  total = v.total - 1;
}

closed-Holds :
    (v : MetricVector) (index : ℕ) (xs : List ℕ)
    → Holds xs v
    → Holds (shift_from (v.total - 1 - index) index (set xs index 0)) (closed v index xs)
closed-Holds v index xs h = (
  refl,
  length-shift_from _ index (set xs index 0) ∙ length-set xs index 0 ∙ h.1,
  omega (arith, h.2),
  h.3,
)

closed-get :
    (v : MetricVector) (index k : ℕ) (xs : List ℕ)
    → Holds xs v
    → index < v.total
    → fpga_vector_get (some (closed v index xs)) k
      ≡ (if ltb k index then fpga_vector_get (some v) k else fpga_vector_get (some v) (k + 1))
closed-get v index k xs h lt =
    let inside : index < length xs = omega (arith, h.1, h.2) in
    let moved =
      shift_from-get_or (v.total - 1 - index) index k (set xs index 0)
        (rw (length-set xs index 0) (omega (arith, h.1, h.2)))
        (get_or-set_self xs index 0 0 inside) in
    fpga_vector_get_lem _ _ k (closed-Holds v index xs h)
    ∙ ap (λ a. some (if ltb k (v.total - 1) then a else 0)) moved
    ∙ deleted_tests v.total index k _ _ _ _ lt (get_or-set xs index k 0 inside)
        (get_or-set xs index (k + 1) 0 inside)
    ∙ ap₂ (λ a b. if ltb k index then a else b) (sym (fpga_vector_get_lem v xs k h))
        (sym (fpga_vector_get_lem v xs (k + 1) h))

freed_item :
    (v : MetricVector) (xs : List ℕ) (index item : ℕ)
    → Holds xs v
    → index < v.total
    → fpga_vector_get (some v) index ≡ some item
    → (if get_or xs index 0 == 0 then none else some (get_or xs index 0))
      ≡ (if item == 0 then none else some item)
freed_item v xs index item h lt e =
    let inside : ltb index v.total ≡ true = lt→ltb _ _ lt in
    let got : some (if ltb index v.total then get_or xs index 0 else 0) ≡ some item =
      sym (fpga_vector_get_lem v xs index h) ∙ e in
    let here : some (get_or xs index 0) ≡ some item =
      subst (λ b. some (if b then get_or xs index 0 else 0) ≡ some item) inside got in
    let same : get_or xs index 0 ≡ item = cc in ap (λ n. if n == 0 then none else some n) same

delete_of-Deleted :
    (v : MetricVector) (index : ℕ) (xs : List ℕ) (o : Option MetricVector)
    → Holds xs v
    → index < v.total
    → Shrunk (closed v index xs) o
    → Deleted v index
        (some (fpga_ok, (if get_or xs index 0 == 0 then none else some (get_or xs index 0)), o))
unfolding Shrunk
delete_of-Deleted v index xs none h lt s = absurd s
delete_of-Deleted v index xs (some v') h lt (ok, t, g) = (
  ok,
  omega (arith, t),
  λ item e. freed_item v xs index item h lt e,
  λ k. g k ∙ closed-get v index k xs h lt,
)

-- A deletion of an index below the number of items, in a valid vector of less than 2 ^ 60 cells, with
-- a `realloc` that keeps the cells, has defined behaviour and succeeds: the item is freed if it is not
-- NULL, those behind it move down by one, no other changes, and the vector stays valid.
pub fpga_vector_delete_lem :
    (realloc : Realloc) (v : MetricVector) (index : ℕ)
    → Reallocates realloc
    → IsValid v
    → v.capacity < 2 ^ 60
    → index < v.total
    → Deleted v index (fpga_vector_delete realloc (some v) index)
unfolding fpga_vector_delete delete_cells
fpga_vector_delete_lem realloc v index law (xs, h) w lt =
    let below : leb v.total index ≡ false = ground arith in
    let fits : leb v.total (length xs) ≡ true = ground (arith, h.1, h.2) in
    rw below (
      subst (λ o. Deleted v index (delete_cells realloc v index o)) (sym h.0)
        (rw fits (
          delete_of-Deleted v index xs _ h lt
            (shrink-Shrunk realloc (closed v index xs) law (_, closed-Holds v index xs h) w))))
