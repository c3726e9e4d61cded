-- ===== src/Enumerate/Counting.antt =====
-- Enumerations without an array of tokens, which only count.
use opae_libs.Prelude.{ℕ, ◌+◌, Bool, true, false, Option, none, some, List, [], ◌∷◌}
use opae_libs.Prelude.{u32, ltb, if◌then◌else◌, ◌≡◌, refl, ap, ◌∙◌, arith, inl, inr, Bool-cases}
use opae_libs.Types.{FpgaResult, fpga_ok, fpga_exception, is_ok}
use opae_libs.Token.{Tokens, AdapterTable}
use opae_libs.Enumerate.{
  Heap, Answer, EnumAdapter, State, Fixup, EnumAnswers, matched, answered, ask_adapter,
  opae_enumerate, opae_plugin_mgr_for_each_adapter, unwrap_filters, queried, unwrapped,
  enumerate_filters, filters_of, fpga_enumerate,
}

-- What a plugin answers to a call without an array.
abbrev Asked : Type 0
Asked = Option (Heap → List ℕ → Option (ℕ → ℕ) → ℕ → Answer)

-- The matches that it reports, none where it fails or has no such function.
abbrev matches_of : Heap → List ℕ → Asked → ℕ
matches_of heap filters none = 0
matches_of heap filters (some enumerate) =
    let a = enumerate heap filters none 0 in if is_ok a.res then a.num_matches else 0

abbrev failures_of : Heap → List ℕ → Asked → ℕ
failures_of heap filters none = 0
failures_of heap filters (some enumerate) =
    if is_ok (enumerate heap filters none 0).res then 0 else 1

-- Over all the plugins.
abbrev pub all_matches : Heap → List ℕ → List EnumAdapter → ℕ
all_matches heap filters [] = 0
all_matches heap filters (a ∷ rest) =
    matches_of heap filters a.fpga_enumerate + all_matches heap filters rest

abbrev pub all_failures : Heap → List ℕ → List EnumAdapter → ℕ
all_failures heap filters [] = 0
all_failures heap filters (a ∷ rest) =
    failures_of heap filters a.fpga_enumerate + all_failures heap filters rest

abbrev counting : ℕ → ℕ → Tokens → State
counting num_matches errors ts = record {
  context = record {
    wrapped_tokens = none;
    max_wrapped_tokens = 0;
    num_matches = num_matches;
    adapter_tokens = none;
    num_wrapped_tokens = 0;
    errors = errors;
  };
  store = ts;
}

ask_adapter-counting :
    (malloc : Tokens → Option ℕ) (heap : Heap) (filters : List ℕ) (adapter : AdapterTable)
    (num_matches errors : ℕ) (ts : Tokens) (o : Asked)
    → ask_adapter malloc heap filters adapter 0 (counting (u32 num_matches) (u32 errors) ts) o ≡ (
      false,
      counting
          (u32 (num_matches + matches_of heap filters o))
          (u32 (errors + failures_of heap filters o))
          ts,
    )
unfolding ask_adapter answered matched
ask_adapter-counting malloc heap filters adapter num_matches errors ts none =
    let m : num_matches + 0 ≡ num_matches = omega arith in
    let f : errors + 0 ≡ errors = omega arith in rw (m, f) refl
ask_adapter-counting malloc heap filters adapter num_matches errors ts (some enumerate) =
    let a = enumerate heap filters none 0 in
    let same : num_matches + 0 ≡ num_matches = omega arith in
    let no_more : errors + 0 ≡ errors = omega arith in
    let m : u32 (u32 num_matches + a.num_matches) ≡ u32 (num_matches + a.num_matches) =
      omega arith in
    let f : u32 (u32 errors + 1) ≡ u32 (errors + 1) = omega arith in
    elim (Bool-cases (is_ok a.res)) [
      | inl y ↦ rw (y, m, no_more) refl
      | inr y ↦ rw (y, f, same) refl
    ]

for_each_next :
    {A : Type 0} (callback : A → State → Bool × State) (a : A) (rest : List A) (s s' : State)
    → callback a s ≡ (false, s')
    → opae_plugin_mgr_for_each_adapter callback (a ∷ rest) s
      ≡ opae_plugin_mgr_for_each_adapter callback rest s'
unfolding opae_plugin_mgr_for_each_adapter
for_each_next callback a rest s s' e =
    let goes : (callback a s).0 ≡ false = ap (λ r. r.0) e in
    rw (opae_plugin_mgr_for_each_adapter, goes)
      (ap (λ r. opae_plugin_mgr_for_each_adapter callback rest r.1) e)

for_each-counting :
    (malloc : Tokens → Option ℕ) (heap : Heap) (filters : List ℕ) (adapters : List EnumAdapter)
    (num_matches errors : ℕ) (ts : Tokens)
    → opae_plugin_mgr_for_each_adapter
        (opae_enumerate malloc heap filters)
        adapters
        (counting (u32 num_matches) (u32 errors) ts)
      ≡ (
        false,
        counting
            (u32 (num_matches + all_matches heap filters adapters))
            (u32 (errors + all_failures heap filters adapters))
            ts,
      )
unfolding opae_plugin_mgr_for_each_adapter opae_enumerate
for_each-counting malloc heap filters [] num_matches errors ts =
    let m : num_matches + 0 ≡ num_matches = omega arith in
    let f : errors + 0 ≡ errors = omega arith in rw (m, f) refl
for_each-counting malloc heap filters (adapter ∷ adapters) num_matches errors ts =
    let one =
      ask_adapter-counting malloc heap filters adapter.table num_matches errors ts
        adapter.fpga_enumerate in
    let n = matches_of heap filters adapter.fpga_enumerate in
    let k = failures_of heap filters adapter.fpga_enumerate in
    let rest = for_each-counting malloc heap filters adapters (num_matches + n) (errors + k) ts in
    let m : num_matches + n + all_matches heap filters adapters
        ≡ num_matches + (n + all_matches heap filters adapters) =
      omega arith in
    let f : errors + k + all_failures heap filters adapters
        ≡ errors + (k + all_failures heap filters adapters) =
      omega arith in
    for_each_next (opae_enumerate malloc heap filters) adapter adapters
      (counting (u32 num_matches) (u32 errors) ts)
      (counting (u32 (num_matches + n)) (u32 (errors + k)) ts) one
    ∙ (rest ∙ rw (m, f) refl)

unwrapped-counting :
    (e : EnumAnswers) (adapters : List EnumAdapter) (ts : Tokens) (filters : List ℕ)
    (r : FpgaResult × Heap × List Fixup)
    → is_ok r.0 ≡ true
    → let out = unwrapped e adapters ts filters false 0 r in
      (out.num_matches ≡ some (u32 (all_matches r.1 filters adapters)))
      × (out.res
          ≡ (if ltb 0 (u32 (all_failures r.1 filters adapters)) then fpga_exception else fpga_ok))
      × (out.tokens ≡ [])
      × (out.store ≡ ts)
unfolding unwrapped queried
unwrapped-counting e adapters ts filters (res, heap, fixups) y =
    let counted = for_each-counting e.malloc heap filters adapters 0 0 ts in
    let m : 0 + all_matches heap filters adapters ≡ all_matches heap filters adapters =
      omega arith in
    let f : 0 + all_failures heap filters adapters ≡ all_failures heap filters adapters =
      omega arith in
    rw (unwrapped, y, counted, m, f) (refl, refl, refl, refl)

-- Without an array of tokens, once the filters are accepted, an enumeration asks every plugin, also
-- after one that fails: it reports the sum of the matches of those that do not fail, as a 32-bit
-- number, and FPGA_EXCEPTION exactly where the number of those that fail, as a 32-bit number, is not
-- 0. It writes no token and leaves the tokens in use as they are.
pub fpga_enumerate-counting :
    (e : EnumAnswers) (adapters : List EnumAdapter) (ts : Tokens) (heap : Heap) (num_filters : ℕ)
    (filters : Option (ℕ → ℕ)) (fs : List ℕ)
    → filters_of num_filters filters ≡ some fs
    → is_ok (unwrap_filters e.has_fixup ts fs heap []).0 ≡ true
    → let out = fpga_enumerate e adapters ts heap num_filters filters false 0 true in
      let seen = (unwrap_filters e.has_fixup ts fs heap []).1 in
      (out.num_matches ≡ some (u32 (all_matches seen fs adapters)))
      × (out.res
          ≡ (if ltb 0 (u32 (all_failures seen fs adapters)) then fpga_exception else fpga_ok))
      × (out.tokens ≡ [])
      × (out.store ≡ ts)
unfolding fpga_enumerate enumerate_filters
fpga_enumerate-counting e adapters ts heap num_filters filters fs given accepted =
    rw given
      (unwrapped-counting e adapters ts fs (unwrap_filters e.has_fixup ts fs heap []) accepted)
