-- ===== src/Enumerate/Returned.antt =====
-- What an enumeration that is given an array of tokens returns.
use opae_libs.Prelude.{
  ℕ, ◌^◌, ◌≤◌, ◌<◌, min, true, false, not, ◌&&◌, ◌||◌, Option, none, some, List, [],
}
use opae_libs.Prelude.{
  length, ltb, if◌then◌else◌, ◌≡◌, refl, sym, ap, ◌∙◌, arith, inl, inr, Bool-cases, All,
}
use mathlib.Core.Path.{subst}
use opae_libs.Types.{FpgaResult, fpga_ok, fpga_exception, fpga_no_memory, fpga_invalid_param, is_ok}
use opae_libs.Token.{Tokens}
use opae_libs.Token.Count.{IsValid}
use opae_libs.Enumerate.{
  Heap, EnumAdapter, Context, State, Fixup, EnumAnswers, Enumerated, unwrap_filters, queried,
  unwrapped, enumerate_filters, filters_of, enum_refused, fpga_enumerate, started, rewrap_filters,
}
use opae_libs.Enumerate.Wrap.{Wrapped, Wrapped_none, IsMalloc}
use opae_libs.Enumerate.Progress.{Progress, IsBounded, state, idle-Progress, for_each-Progress}

-- The tokens that a call returns, and what it says of their number.
pub record Returned (ts : Tokens) (max_tokens : ℕ) (r : Enumerated) : Type 0 where
  pub wrapped : Wrapped ts r.tokens r.store
  pub fits : length r.tokens ≤ max_tokens
  pub agrees :
      r.res ≡ fpga_ok → (n : ℕ) × (r.num_matches ≡ some n) × (length r.tokens ≡ min max_tokens n)

refused-Returned :
    (ts : Tokens) (max_tokens : ℕ) (res : FpgaResult) (n : Option ℕ) (heap : Heap)
    → IsValid ts
    → is_ok res ≡ false
    → Returned ts max_tokens
        (record { res = res; num_matches = n; tokens = []; store = ts; heap = heap })
refused-Returned ts max_tokens res n heap v e = record {
  wrapped = Wrapped_none ts v;
  fits = omega arith;
  agrees = λ o. absurd (let y : is_ok res ≡ true = ap is_ok o in cc);
}

queried_literal :
    (ts ts' : Tokens) (max_tokens num_matches errors : ℕ) (ws : List ℕ) (array : ℕ → ℕ)
    (heap : Heap) (fixups : List Fixup)
    → Wrapped ts ws ts'
    → length ws ≤ max_tokens
    → (errors ≡ 0 → length ws ≡ min max_tokens num_matches)
    → Returned ts max_tokens
        (queried (state ws max_tokens num_matches array errors ts') heap fixups)
unfolding queried
queried_literal ts ts' max_tokens num_matches errors ws array heap fixups w fits agrees = record {
  wrapped = w;
  fits = fits;
  agrees = λ o. elim (Bool-cases (ltb 0 errors)) [
    | inl y ↦
        let failed : (if ltb 0 errors then fpga_exception else fpga_ok) ≡ fpga_exception =
          rw y refl in
        absurd (let no : is_ok fpga_exception ≡ is_ok fpga_ok = ap is_ok (sym failed ∙ o) in cc)
    | inr y ↦ (num_matches, refl, agrees (ground arith))
  ];
}

queried-Returned :
    (ts : Tokens) (max_tokens : ℕ) (s : State) (heap : Heap) (fixups : List Fixup)
    → Progress ts max_tokens 0 s
    → Returned ts max_tokens (queried s heap fixups)
queried-Returned ts max_tokens s heap fixups p =
    subst
      (λ (c : Context).
        Returned ts max_tokens (queried (record { context = c; store = s.store }) heap fixups))
      (sym p.context_is)
      (queried_literal ts s.store max_tokens p.num_matches p.errors p.ws p.array heap fixups
        p.wrapped p.fits p.agrees)

unwrapped-Returned :
    (e : EnumAnswers) (adapters : List EnumAdapter) (ts : Tokens) (filters : List ℕ)
    (max_tokens : ℕ) (r : FpgaResult × Heap × List Fixup)
    → IsMalloc e.malloc
    → IsValid ts
    → max_tokens ≤ 2 ^ 31
    → length adapters < 2 ^ 32
    → All IsBounded adapters
    → Returned ts max_tokens (unwrapped e adapters ts filters true max_tokens r)
unfolding unwrapped
unwrapped-Returned e adapters ts filters max_tokens (res, heap, fixups) m v small few bounded =
    let start =
      idle-Progress ts ts max_tokens (length adapters) 0 0 [] (λ i. 0) (Wrapped_none ts v)
        (omega arith) (omega (arith, few)) (λ z. ground arith) in
    elim (Bool-cases (is_ok res)) [
      | inl y ↦
          rw (unwrapped, y)
            (queried-Returned ts max_tokens _ heap fixups (
              for_each-Progress e.malloc heap filters adapters ts max_tokens
                (started true max_tokens ts) m small bounded start))
      | inr y ↦
          rw (unwrapped, y)
            (refused-Returned ts max_tokens res (some 0) (rewrap_filters fixups heap) v y)
    ]

enumerate_filters-Returned :
    (e : EnumAnswers) (adapters : List EnumAdapter) (ts : Tokens) (heap : Heap) (max_tokens : ℕ)
    (o : Option (List ℕ))
    → IsMalloc e.malloc
    → IsValid ts
    → max_tokens ≤ 2 ^ 31
    → length adapters < 2 ^ 32
    → All IsBounded adapters
    → Returned ts max_tokens (enumerate_filters e adapters ts heap true max_tokens o)
unfolding enumerate_filters enum_refused
enumerate_filters-Returned e adapters ts heap max_tokens none m v small few bounded =
    refused-Returned ts max_tokens fpga_invalid_param none heap v refl
enumerate_filters-Returned e adapters ts heap max_tokens (some fs) m v small few bounded =
    elim (Bool-cases (true && not e.calloc)) [
      | inl y ↦ rw y (refused-Returned ts max_tokens fpga_no_memory (some 0) heap v refl)
      | inr y ↦ rw y (
          unwrapped-Returned e adapters ts fs max_tokens (unwrap_filters e.has_fixup ts fs heap [])
            m v small few bounded)
    ]

-- With an array of at most 2 ^ 31 tokens, fewer than 2 ^ 32 plugins, each reporting fewer than
-- 2 ^ 31 matches, and a valid store, an enumeration writes at most `max_tokens` tokens, each of them
-- new and with one reference; it changes no other reference count and keeps the store valid, also
-- where a plugin or `malloc` fails half-way. If it returns FPGA_OK, it writes as many tokens as the
-- number of matches that it reports, or `max_tokens` where that is smaller.
pub fpga_enumerate_lem :
    (e : EnumAnswers) (adapters : List EnumAdapter) (ts : Tokens) (heap : Heap) (num_filters : ℕ)
    (filters : Option (ℕ → ℕ)) (max_tokens : ℕ)
    → IsMalloc e.malloc
    → IsValid ts
    → max_tokens ≤ 2 ^ 31
    → length adapters < 2 ^ 32
    → All IsBounded adapters
    → Returned ts max_tokens
        (fpga_enumerate e adapters ts heap num_filters filters true max_tokens true)
unfolding fpga_enumerate enum_refused
fpga_enumerate_lem e adapters ts heap num_filters filters max_tokens m v small few bounded =
    elim (Bool-cases (not true || (ltb 0 max_tokens && not true))) [
      | inl y ↦ rw y (refused-Returned ts max_tokens fpga_invalid_param none heap v refl)
      | inr y ↦ rw y (
          enumerate_filters-Returned e adapters ts heap max_tokens (filters_of num_filters filters)
            m v small few bounded)
    ]
