-- ===== src/Vector/Laws.antt =====
-- The cells that a valid vector has, and `fpga_vector_resize`.
use opae_libs.Prelude.{ℕ, ◌*◌, ◌/◌, ◌^◌, ◌<◌, ◌≤◌, true, Option, none, some}
use opae_libs.Prelude.{List, length, get_or, ltb, if◌then◌else◌, u64}
use opae_libs.Prelude.{◌≡◌, refl, sym, ap, ◌∙◌}
use opae_libs.Prelude.{arith, inl, inr, Bool-cases, ltb→lt}
use opae_libs.Types.{FpgaResult, fpga_ok, fpga_no_memory}
use opae_libs.Vector.{MetricVector, fpga_vector_resize}
use opae_libs.Vector.{fpga_vector_get, Realloc}
use opae_libs.Vector.{resize_of, load_cell}

-- The array has as many cells as the capacity says, at least one, and the items are in it.
abbrev pub Holds : List ℕ → MetricVector → Type 0
Holds xs v =
    (v.fpga_metric_item ≡ some xs)
    × (length xs ≡ v.capacity)
    × (v.total ≤ v.capacity)
    × (0 < v.capacity)

abbrev pub IsValid : MetricVector → Type 0
IsValid v = (xs : List ℕ) × Holds xs v

-- The block is as long as asked for, in whole pointers, and keeps the old cells that fit.
abbrev pub Reallocates : Realloc → Type 0
Reallocates realloc =
    (xs ys : List ℕ) (size : ℕ)
    → realloc (some xs) size ≡ some ys
    → (length ys ≡ size / 8)
      × ((k : ℕ) → k < length xs → k < length ys → get_or ys k 0 ≡ get_or xs k 0)

-- What the vector gives for an index, from its cells.
pub fpga_vector_get_lem :
    (v : MetricVector) (xs : List ℕ) (k : ℕ)
    → Holds xs v
    → fpga_vector_get (some v) k ≡ some (if ltb k v.total then get_or xs k 0 else 0)
unfolding fpga_vector_get
fpga_vector_get_lem v xs k (e, l, t, p) = elim (Bool-cases (ltb k v.total)) [
  | inr n ↦ rw n refl
  | inl y ↦ rw y (
      ap (load_cell k) e ∙ (let inside : ltb k (length xs) ≡ true = ground arith in rw inside refl))
]

below_total :
    (t k a b : ℕ) → (k < t → a ≡ b) → (if ltb k t then a else 0) ≡ (if ltb k t then b else 0)
below_total t k a b same = elim (Bool-cases (ltb k t)) [
  | inl y ↦ let eq : a ≡ b = same (ltb→lt k t y) in rw eq refl
  | inr n ↦ rw n refl
]

abbrev pub Resized : MetricVector → ℕ → FpgaResult × Option MetricVector → Type 0
Resized v c (fpga_ok, some v') =
    IsValid v'
    × (v'.capacity ≡ c)
    × (v'.total ≡ v.total)
    × ((k : ℕ) → fpga_vector_get (some v') k ≡ fpga_vector_get (some v) k)
Resized v c (fpga_no_memory, o) = o ≡ some v
Resized v c r = ⊥

resize_of-Resized :
    (v : MetricVector) (xs : List ℕ) (c : ℕ) (o : Option (List ℕ))
    → Holds xs v
    → v.total ≤ c
    → 0 < c
    → ((ys : List ℕ)
        → o ≡ some ys
        → (length ys ≡ c)
          × ((k : ℕ) → k < length xs → k < length ys → get_or ys k 0 ≡ get_or xs k 0))
    → Resized v c (resize_of v c o)
unfolding resize_of
resize_of-Resized v xs c none h t p r = refl
resize_of-Resized v xs c (some ys) h t p r =
    let holds : Holds ys (record v { fpga_metric_item = some ys; capacity = c }) =
      (refl, (r ys refl).0, t, p) in
    (
      (ys, holds),
      refl,
      refl,
      λ k.
          fpga_vector_get_lem _ ys k holds
          ∙ ap some (
              below_total v.total k (get_or ys k 0) (get_or xs k 0)
                (λ lt. (r ys refl).1 k (omega (arith, h.1, h.2)) (omega (arith, (r ys refl).0))))
          ∙ sym (fpga_vector_get_lem v xs k h),
    )

pub resize-Resized :
    (realloc : Realloc) (v : MetricVector) (xs : List ℕ) (c : ℕ)
    → Reallocates realloc
    → Holds xs v
    → v.total ≤ c
    → 0 < c
    → c < 2 ^ 61
    → Resized v c (fpga_vector_resize realloc (some v) c)
unfolding fpga_vector_resize
resize-Resized realloc v xs c law h t p w = resize_of-Resized v xs c _ h t p (λ ys e.
    let ok = law xs ys (u64 (8 * c)) (ap (λ o. realloc o (u64 (8 * c))) (sym h.0) ∙ e) in
    (ok.0 ∙ ground arith, ok.1))
