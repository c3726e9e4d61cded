-- ===== src/Vector/Tests.antt =====
-- A vector of four cells, in which a push makes the array larger and a deletion makes it smaller,
-- and the theorems at it.
use opae_libs.Prelude.{ℕ, zero, suc, ◌/◌, ◌<◌, none, some, List, [], ◌∷◌, length, get_or}
use opae_libs.Prelude.{◌≡◌, refl, ap, arith}
use mathlib.Core.Path.{subst}
use opae_libs.Types.{fpga_ok}
use opae_libs.Vector.{MetricVector, Realloc, fpga_vector_push, fpga_vector_delete}
use opae_libs.Vector.Laws.{IsValid, Holds, Reallocates}
use opae_libs.Vector.Delete.{Deleted, fpga_vector_delete_lem}

-- As many cells as asked for, the old ones first; a new cell holds 170.
abbrev cells : ℕ → List ℕ → List ℕ
cells zero xs = []
cells (suc n) [] = 170 ∷ cells n []
cells (suc n) (x ∷ xs) = x ∷ cells n xs

length-cells : (n : ℕ) (xs : List ℕ) → length (cells n xs) ≡ n
length-cells zero xs = refl
length-cells (suc n) [] = ap suc (length-cells n [])
length-cells (suc n) (x ∷ xs) = ap suc (length-cells n xs)

cells-get_or :
    (n k : ℕ) (xs : List ℕ)
    → k < length xs
    → k < length (cells n xs)
    → get_or (cells n xs) k 0 ≡ get_or xs k 0
cells-get_or zero k xs h l = absurd (omega arith)
cells-get_or (suc n) k [] h l = absurd (omega arith)
cells-get_or (suc n) zero (x ∷ xs) h l = refl
cells-get_or (suc n) (suc k) (x ∷ xs) h l = cells-get_or n k xs (omega arith) (omega arith)

abbrev realloc : Realloc
realloc none size = some (cells (size / 8) [])
realloc (some xs) size = some (cells (size / 8) xs)

realloc-Reallocates : Reallocates realloc
realloc-Reallocates xs ys size e =
    let same : cells (size / 8) xs ≡ ys = cc in
    subst
      (λ zs.
        (length zs ≡ size / 8)
        × ((k : ℕ) → k < length xs → k < length zs → get_or zs k 0 ≡ get_or xs k 0))
      same (length-cells (size / 8) xs, λ k. cells-get_or (size / 8) k xs)

abbrev full : MetricVector
full = record { fpga_metric_item = some (16 ∷ 32 ∷ 48 ∷ 64 ∷ []); capacity = 4; total = 4 }

-- One more item than a quarter of the cells.
abbrev loose : MetricVector
loose = record {
  fpga_metric_item = some (16 ∷ 32 ∷ 48 ∷ 0 ∷ 0 ∷ 0 ∷ 0 ∷ 0 ∷ []);
  capacity = 8;
  total = 3;
}

full-Holds : Holds (16 ∷ 32 ∷ 48 ∷ 64 ∷ []) full
full-Holds = (refl, refl, omega arith, omega arith)

loose-IsValid : IsValid loose
loose-IsValid = (_, (refl, refl, omega arith, omega arith))

push_full :
    fpga_vector_push realloc (some full) 80
    ≡ some (
      fpga_ok,
      some (record {
        fpga_metric_item = some (16 ∷ 32 ∷ 48 ∷ 64 ∷ 80 ∷ 170 ∷ 170 ∷ 170 ∷ []);
        capacity = 8;
        total = 5;
      }),
    )
unfolding fpga_vector_push
push_full = refl

delete_loose :
    fpga_vector_delete realloc (some loose) 1
    ≡ some (
      fpga_ok,
      some 32,
      some (record { fpga_metric_item = some (16 ∷ 48 ∷ 0 ∷ 0 ∷ []); capacity = 4; total = 2 }),
    )
unfolding fpga_vector_delete
delete_loose = refl

fpga_vector_delete_lem_example : Deleted loose 1 (fpga_vector_delete realloc (some loose) 1)
fpga_vector_delete_lem_example =
    fpga_vector_delete_lem realloc loose 1 realloc-Reallocates loose-IsValid (omega arith)
      (omega arith)
