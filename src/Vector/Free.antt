-- ===== src/Vector/Free.antt =====
-- `fpga_vector_free`: which items the loop frees.
use opae_libs.Prelude.{ℕ, zero, suc, ◌≤◌, none, some}
use opae_libs.Prelude.{List, length, take}
use opae_libs.Prelude.{◌≡◌, refl, ap, ◌∙◌}
use opae_libs.Prelude.{arith}
use opae_libs.Types.{fpga_ok}
use opae_libs.Vector.{MetricVector, fpga_vector_free}
use opae_libs.Vector.{freed_of, free_items}
use opae_libs.Vector.Cells.{not_null, free_from_lem}
use opae_libs.Vector.Laws.{Holds}

free_items_lem :
    (n : ℕ) (xs : List ℕ) → n ≤ length xs → free_items n (some xs) ≡ some (not_null (take n xs))
unfolding free_items
free_items_lem zero xs h = refl
free_items_lem (suc n) xs h = free_from_lem xs (suc n) 0 (omega (arith, h))

-- Freeing a valid vector has defined behaviour: it frees the items that are not NULL, each once and
-- in their order, and leaves the vector without an array.
pub fpga_vector_free_lem :
    (v : MetricVector) (xs : List ℕ)
    → Holds xs v
    → fpga_vector_free (some v)
      ≡ some (fpga_ok, not_null (take v.total xs), some (record v { fpga_metric_item = none }))
unfolding fpga_vector_free
fpga_vector_free_lem v xs h =
    ap (λ o. freed_of v (free_items v.total o)) h.0
    ∙ ap (freed_of v) (free_items_lem v.total xs (omega (arith, h.1, h.2)))
    ∙ (unfold freed_of in refl)
