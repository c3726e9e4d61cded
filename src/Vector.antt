-- ===== src/Vector.antt =====
-- plugins/xfpga/metrics/vector.c and vector.h: the growing array of pointers in which the plugin
-- keeps its metrics. An operation gives none where the C program has undefined behaviour: an array
-- that is NULL or too short for the index. A pointer is a number, NULL is 0; `malloc` and
-- `realloc` are parameters, which take a size in bytes and give the cells of the block, or none.
mod Cells
pub mod Laws
pub mod Push
pub mod Delete
pub mod Free
mod Tests
use opae_libs.Prelude.{ℕ, zero, suc, ◌+◌, ◌-◌, ◌*◌, ◌/◌, Bool, ◌&&◌, Option, none, some, List, []}
use opae_libs.Prelude.{◌∷◌, ◌++◌, length, get_or, set, ltb, leb, ◌==◌, if◌then◌else◌, u64}
use opae_libs.Types.{FpgaResult, fpga_ok, fpga_invalid_param, fpga_exception, fpga_no_memory}

pub record MetricVector : Type 0 where
  pub fpga_metric_item : Option (List ℕ)
  pub capacity : ℕ
  pub total : ℕ

-- `sizeof(void *)`, on a 64-bit machine.
abbrev pub sizeof_pointer : ℕ
sizeof_pointer = 8

abbrev pub fpga_vector_capacity : ℕ
fpga_vector_capacity = 20

init_of : Option (List ℕ) → FpgaResult × Option MetricVector
init_of none = (
  fpga_no_memory,
  some (record { fpga_metric_item = none; capacity = fpga_vector_capacity; total = 0 }),
)
init_of (some xs) = (
  fpga_ok,
  some (record { fpga_metric_item = some xs; capacity = fpga_vector_capacity; total = 0 }),
)

unfoldable pub fpga_vector_init :
    (ℕ → Option (List ℕ)) → Option MetricVector → FpgaResult × Option MetricVector
unfolding init_of
fpga_vector_init malloc none = (fpga_invalid_param, none)
fpga_vector_init malloc (some v) = init_of (malloc (sizeof_pointer * fpga_vector_capacity))

-- The pointers of the first `left` cells from `i` on that are not NULL: what the loop frees.
pub free_from : List ℕ → ℕ → ℕ → Option (List ℕ)
free_from xs zero i = some []
free_from xs (suc left) i =
    let rest = free_from xs left (suc i) in
    if ltb i (length xs)
    then elim rest [
      | none ↦ none
      | some ps ↦ some (if get_or xs i 0 == 0 then ps else get_or xs i 0 ∷ ps)
    ]
    else none

free_items : ℕ → Option (List ℕ) → Option (List ℕ)
unfolding free_from
free_items zero none = some []
free_items (suc n) none = none
free_items n (some xs) = free_from xs n 0

freed_of : MetricVector → Option (List ℕ) → Option (FpgaResult × List ℕ × Option MetricVector)
freed_of v none = none
freed_of v (some ps) = some (fpga_ok, ps, some (record v { fpga_metric_item = none }))

-- The result, the items that are freed, in their order, and the vector; the array is freed as well.
unfoldable pub fpga_vector_free :
    Option MetricVector → Option (FpgaResult × List ℕ × Option MetricVector)
unfolding freed_of free_items
fpga_vector_free none = some (fpga_invalid_param, [], none)
fpga_vector_free (some v) = freed_of v (free_items v.total v.fpga_metric_item)

-- The Boolean is whether the pointer `total` is not NULL.
unfoldable pub fpga_vector_total : Option MetricVector → Bool → FpgaResult × Option ℕ
fpga_vector_total none has_total = (fpga_exception, none)
fpga_vector_total (some v) has_total =
    if has_total then (fpga_ok, some v.total) else (fpga_exception, none)

abbrev pub Realloc : Type 0
Realloc = Option (List ℕ) → ℕ → Option (List ℕ)

resize_of : MetricVector → ℕ → Option (List ℕ) → FpgaResult × Option MetricVector
resize_of v capacity none = (fpga_no_memory, some v)
resize_of v capacity (some xs) =
    (fpga_ok, some (record v { fpga_metric_item = some xs; capacity = capacity }))

unfoldable pub fpga_vector_resize :
    Realloc → Option MetricVector → ℕ → FpgaResult × Option MetricVector
unfolding resize_of
fpga_vector_resize realloc none capacity = (fpga_invalid_param, none)
fpga_vector_resize realloc (some v) capacity =
    resize_of v capacity (realloc v.fpga_metric_item (u64 (sizeof_pointer * capacity)))

-- `vector->fpga_metric_item[vector->total++] = fpga_metric_item`
append_item : MetricVector → ℕ → Option (List ℕ) → Option (FpgaResult × Option MetricVector)
append_item v item none = none
append_item v item (some xs) =
    if ltb v.total (length xs)
    then some (
      fpga_ok,
      some (record v { fpga_metric_item = some (set xs v.total item); total = u64 (v.total + 1) }),
    )
    else none

push_resized : ℕ → FpgaResult × Option MetricVector → Option (FpgaResult × Option MetricVector)
unfolding append_item
push_resized item (fpga_ok, some v) = append_item v item v.fpga_metric_item
push_resized item (res, o) = some (res, o)

unfoldable pub fpga_vector_push :
    Realloc → Option MetricVector → ℕ → Option (FpgaResult × Option MetricVector)
unfolding push_resized fpga_vector_resize
fpga_vector_push realloc none item = some (fpga_invalid_param, none)
fpga_vector_push realloc (some v) item =
    if item == 0
    then some (fpga_invalid_param, some v)
    else push_resized item (
        if v.capacity == v.total
        then fpga_vector_resize realloc (some v) (u64 (v.capacity * 2))
        else (fpga_ok, some v))

-- One round of the loop of `fpga_vector_delete` moves a cell down and clears where it was.
pub move_down : ℕ → List ℕ → List ℕ
move_down i xs = set (set xs i (get_or xs (i + 1) 0)) (i + 1) 0

-- The rounds left, and `i`; the cells are read and written up to `i + left`.
pub shift_from : ℕ → ℕ → List ℕ → List ℕ
unfolding move_down
shift_from zero i xs = xs
shift_from (suc left) i xs = shift_from left (suc i) (move_down i xs)

-- `if (vector->total > 0 && vector->total == vector->capacity / 4)`; the result is not looked at.
shrink : Realloc → MetricVector → Option MetricVector
unfolding fpga_vector_resize
shrink realloc v =
    if ltb 0 v.total && v.total == v.capacity / 4
    then (fpga_vector_resize realloc (some v) (v.capacity / 2)).1
    else some v

-- The result, the item that is freed, and the vector.
abbrev pub Deletion : Type 0
Deletion = FpgaResult × Option ℕ × Option MetricVector

-- The cells up to the last index, `total - 1`, are in the array, or the behaviour is undefined.
delete_cells : Realloc → MetricVector → ℕ → Option (List ℕ) → Option Deletion
unfolding shift_from shrink
delete_cells realloc v index none = none
delete_cells realloc v index (some xs) =
    if leb v.total (length xs)
    then some (
      fpga_ok,
      (if get_or xs index 0 == 0 then none else some (get_or xs index 0)),
      shrink realloc (record v {
        fpga_metric_item = some (shift_from (v.total - 1 - index) index (set xs index 0));
        total = v.total - 1;
      }),
    )
    else none

unfoldable pub fpga_vector_delete : Realloc → Option MetricVector → ℕ → Option Deletion
unfolding delete_cells
fpga_vector_delete realloc none index = some (fpga_invalid_param, none, none)
fpga_vector_delete realloc (some v) index =
    if leb v.total index
    then some (fpga_invalid_param, none, some v)
    else delete_cells realloc v index v.fpga_metric_item

load_cell : ℕ → Option (List ℕ) → Option ℕ
load_cell index none = none
load_cell index (some xs) = if ltb index (length xs) then some (get_or xs index 0) else none

-- NULL is 0.
unfoldable pub fpga_vector_get : Option MetricVector → ℕ → Option ℕ
unfolding load_cell
fpga_vector_get none index = some 0
fpga_vector_get (some v) index =
    if ltb index v.total then load_cell index v.fpga_metric_item else some 0
