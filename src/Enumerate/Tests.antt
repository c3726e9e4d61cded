-- ===== src/Enumerate/Tests.antt =====
-- Two plugins, of which the second has two matches, and a filter with a parent.
use opae_libs.Prelude.{
  ℕ, ◌+◌, ◌^◌, ◌<◌, ◌≡◌, refl, arith, true, false, Option, none, some, List, [], ◌∷◌, length, u32,
  ltb, ◌==◌, if◌then◌else◌,
}
use mathlib.Core.Path.{subst}
use opae_libs.Types.{fpga_ok, fpga_exception, is_ok}
use opae_libs.Token.{Tokens, WrappedToken, AdapterTable, opae_wrapped_token_magic}
use opae_libs.Token.Count.{IsValid}
use opae_libs.Props.{Properties, cleared, set_field_valid}
use opae_libs.Props.Parent.{fpga_property_parent}
use opae_libs.Enumerate.{
  Heap, Answer, EnumAdapter, EnumAnswers, fpga_enumerate, filters_of, unwrap_filters,
}
use opae_libs.Enumerate.Filters.{fpga_enumerate-heap}
use opae_libs.Enumerate.Wrap.{IsMalloc}
use opae_libs.Enumerate.Progress.{IsBounded}
use opae_libs.Enumerate.Returned.{Returned, fpga_enumerate_lem}
use opae_libs.Enumerate.Counting.{all_matches, all_failures, fpga_enumerate-counting}

abbrev table : AdapterTable
table = record {
  fpga_open = none;
  fpga_close = none;
  fpga_clone_token = none;
  fpga_destroy_token = none;
}

abbrev parent : WrappedToken
parent = record {
  magic = opae_wrapped_token_magic;
  opae_token = 77;
  ref_count = 1;
  adapter_table = table;
}

abbrev tokens : Tokens
tokens = record { cell = λ q. if 8 == q then some parent else none; in_use = 8 ∷ [] }

tokens-IsValid : IsValid tokens
tokens-IsValid q = ground arith

abbrev filter : Properties
filter = record (set_field_valid cleared fpga_property_parent) { parent = 8 }

abbrev heap : Heap
heap q = if 100 == q then some filter else none

-- The second one sees its own token in the filter.
abbrev Asked : Type 0
Asked = Heap → List ℕ → Option (ℕ → ℕ) → ℕ → Answer

abbrev two_matches : Asked
two_matches seen fs array space = record {
  res = fpga_ok;
  tokens = λ i. elim (seen 100) [ none ↦ 0 | some p ↦ p.parent + i ];
  num_matches = 2;
}

abbrev adapters : List EnumAdapter
adapters =
    record { table = table; fpga_enumerate = none }
    ∷ record { table = table; fpga_enumerate = some two_matches }
    ∷ []

no_function-IsBounded : IsBounded (record { table = table; fpga_enumerate = none })
no_function-IsBounded enumerate e seen fs array space = absurd cc

two_matches-IsBounded : IsBounded (record { table = table; fpga_enumerate = some two_matches })
two_matches-IsBounded enumerate e seen fs array space =
    let same : two_matches ≡ enumerate = cc in
    subst (λ (f : Asked). (f seen fs array space).num_matches < 2 ^ 31) same (omega arith)

-- The pointers that `malloc` gives.
abbrev free_cell : ℕ → Option WrappedToken → Option ℕ
free_cell q none = some q
free_cell q (some w) = none

abbrev answers : EnumAnswers
answers = record {
  calloc = true;
  has_fixup = λ n. true;
  malloc = λ ts. let q = length ts.in_use + 8 in free_cell q (ts.cell q);
}

free_cell_free :
    (q p : ℕ) (cell : ℕ → Option WrappedToken) (o : Option WrappedToken)
    → cell q ≡ o
    → free_cell q o ≡ some p
    → cell p ≡ none
free_cell_free q p cell none e f = let same : q ≡ p = cc in subst (λ r. cell r ≡ none) same e
free_cell_free q p cell (some w) e f = absurd cc

answers-IsMalloc : IsMalloc answers.malloc
answers-IsMalloc ts p e =
    let q = length ts.in_use + 8 in free_cell_free q p ts.cell (ts.cell q) refl e

all_found :
    let r = fpga_enumerate answers adapters tokens heap 1 (some (λ i. 100)) true 4 true in
    (r.res ≡ fpga_ok) × (r.num_matches ≡ some 2) × (r.tokens ≡ 9 ∷ 10 ∷ [])
unfolding fpga_enumerate opae_libs.Token.opae_allocate_wrapped_token
all_found = (refl, refl, refl)

fpga_enumerate-heap_example :
    (fpga_enumerate answers adapters tokens heap 1 (some (λ i. 100)) true 4 true).heap ≡ heap
fpga_enumerate-heap_example =
    fpga_enumerate-heap answers adapters tokens heap 1 (some (λ i. 100)) true 4 true

fpga_enumerate_lem_example :
    Returned tokens 4 (fpga_enumerate answers adapters tokens heap 1 (some (λ i. 100)) true 4 true)
fpga_enumerate_lem_example =
    fpga_enumerate_lem answers adapters tokens heap 1 (some (λ i. 100)) 4 answers-IsMalloc
      tokens-IsValid (omega arith) (omega arith)
      (no_function-IsBounded, (two_matches-IsBounded, tt))

accepted : is_ok (unwrap_filters answers.has_fixup tokens (100 ∷ []) heap []).0 ≡ true
accepted = unfold unwrap_filters in refl

fpga_enumerate-counting_example :
    let out = fpga_enumerate answers adapters tokens heap 1 (some (λ i. 100)) false 0 true in
    let seen = (unwrap_filters answers.has_fixup tokens (100 ∷ []) heap []).1 in
    (out.num_matches ≡ some (u32 (all_matches seen (100 ∷ []) adapters)))
    × (out.res
        ≡ (if ltb 0 (u32 (all_failures seen (100 ∷ []) adapters)) then fpga_exception else fpga_ok))
    × (out.tokens ≡ [])
    × (out.store ≡ tokens)
fpga_enumerate-counting_example =
    fpga_enumerate-counting answers adapters tokens heap 1 (some (λ i. 100)) (100 ∷ []) given
      accepted
  where
    given : filters_of 1 (some (λ i. 100)) ≡ some (100 ∷ [])
    given = unfold filters_of in refl
