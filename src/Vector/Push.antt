-- ===== src/Vector/Push.antt =====
-- `fpga_vector_push`: the item is appended, in a larger array where the old one is full.
use opae_libs.Prelude.{ℕ, ◌+◌, ◌*◌, ◌^◌, ◌<◌, ◌≤◌, true, false, Option, some}
use opae_libs.Prelude.{List, length, get_or, set, ltb, ◌==◌, if◌then◌else◌, u64}
use opae_libs.Prelude.{◌≡◌, ◌≢◌, refl, sym, ap, ◌∙◌}
use opae_libs.Prelude.{arith, inl, inr, Bool-cases, ==_iff, length-set, lt→ltb}
use mathlib.Core.Path.{subst}
use opae_libs.Types.{FpgaResult, fpga_ok, fpga_no_memory}
use opae_libs.Vector.{MetricVector, fpga_vector_push}
use opae_libs.Vector.{fpga_vector_get, Realloc}
use opae_libs.Vector.{append_item, push_resized}
use opae_libs.Vector.Cells.{get_or-set}
use opae_libs.Vector.Laws.{
  Holds, IsValid, Reallocates, fpga_vector_get_lem, Resized, resize-Resized,
}

-- What a push does: out of memory, when the array is full, nothing changes.
abbrev pub Pushed : MetricVector → ℕ → Option (FpgaResult × Option MetricVector) → Type 0
Pushed v item (some (fpga_ok, some v')) =
    IsValid v'
    × (v'.total ≡ v.total + 1)
    × ((k : ℕ)
        → fpga_vector_get (some v') k
          ≡ (if k == v.total then some item else fpga_vector_get (some v) k))
Pushed v item (some (fpga_no_memory, o)) = (o ≡ some v) × (v.capacity ≡ v.total)
Pushed v item r = ⊥

append_tests :
    (t k item a : ℕ)
    → some (if ltb k (t + 1) then (if k == t then item else a) else 0)
      ≡ (if k == t then some item else some (if ltb k t then a else 0))
append_tests t k item a = ground arith

append_item-Pushed :
    (v : MetricVector) (item : ℕ) (xs : List ℕ)
    → Holds xs v
    → v.total < v.capacity
    → v.capacity < 2 ^ 61
    → (v' : MetricVector) × (append_item v item (some xs) ≡ some (fpga_ok, some v'))
      × Pushed v item (some (fpga_ok, some v'))
unfolding append_item
append_item-Pushed v item xs h lt w =
    let inside : ltb v.total (length xs) ≡ true = lt→ltb _ _ (omega (arith, h.1)) in
    let same : u64 (v.total + 1) ≡ v.total + 1 = ground arith in
    let holds : Holds (set xs v.total item)
        (record v { fpga_metric_item = some (set xs v.total item); total = u64 (v.total + 1) }) =
      (refl, length-set xs v.total item ∙ h.1, omega (arith, same), h.3) in
    rw inside (
      _,
      refl,
      (
        (set xs v.total item, holds),
        same,
        λ k.
            fpga_vector_get_lem _ (set xs v.total item) k holds
            ∙ ap (λ a. some (if ltb k a then get_or (set xs v.total item) k 0 else 0)) same
            ∙ ap (λ a. some (if ltb k (v.total + 1) then a else 0))
                (get_or-set xs v.total k item (omega (arith, h.1)))
            ∙ append_tests v.total k item (get_or xs k 0)
            ∙ ap (λ o. if k == v.total then some item else o) (sym (fpga_vector_get_lem v xs k h)),
      ),
    )

push_resized-Pushed :
    (v : MetricVector) (item : ℕ) (r : FpgaResult × Option MetricVector)
    → v.capacity ≡ v.total
    → 0 < v.capacity
    → v.capacity < 2 ^ 60
    → Resized v (v.capacity * 2) r
    → Pushed v item (push_resized item r)
unfolding push_resized
push_resized-Pushed v item (fpga_no_memory, o) e p w h = (h, e)
push_resized-Pushed v item (fpga_ok, some v') e p w ((xs, h), c, t, g) =
    let (v'', made, (ok, more, gets)) =
      append_item-Pushed v' item xs h (omega (arith, t, e, c)) (omega (arith, w, c)) in
    subst (Pushed v item) (sym (ap (append_item v' item) h.0 ∙ made)) (
      ok,
      omega (arith, more, t),
      λ k.
          gets k
          ∙ ap (λ n. if k == n then some item else fpga_vector_get (some v') k) t
          ∙ ap (λ o. if k == v.total then some item else o) (g k),
    )
push_resized-Pushed v item (res, o) e p w h = absurd h

room : {c t : ℕ} → t ≤ c → (c == t) ≡ false → t < c
room h e = ground arith

-- A push of an item that is not NULL, on a valid vector of less than 2 ^ 60 cells, with a `realloc`
-- that keeps the cells, has defined behaviour: it adds the item behind the others, changes no other,
-- and keeps the vector valid, or it returns FPGA_NO_MEMORY, with the vector full and unchanged.
pub fpga_vector_push_lem :
    (realloc : Realloc) (v : MetricVector) (item : ℕ)
    → Reallocates realloc
    → IsValid v
    → v.capacity < 2 ^ 60
    → item ≢ 0
    → Pushed v item (fpga_vector_push realloc (some v) item)
unfolding fpga_vector_push
fpga_vector_push_lem realloc v item law (xs, h) w n =
    let given : (item == 0) ≡ false = ground arith in
    let twice : u64 (v.capacity * 2) ≡ v.capacity * 2 = ground arith in
    rw given (elim (Bool-cases (v.capacity == v.total)) [
      | inl e ↦ rw e (
          rw twice (
            push_resized-Pushed v item _ ((==_iff _ _).0 e) h.3 w (
              resize-Resized realloc v xs (v.capacity * 2) law h (omega (arith, h.2))
                (omega (arith, h.3)) (omega (arith, w)))))
      | inr e ↦ rw e (
          let (v', made, good) = append_item-Pushed v item xs h (room h.2 e) (omega (arith, w)) in
          subst (Pushed v item) (sym (ap (append_item v item) h.0 ∙ made)) good)
    ])
