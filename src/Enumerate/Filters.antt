-- ===== src/Enumerate/Filters.antt =====
-- The filters of `fpgaEnumerate`: their parents are unwrapped for the plugins and wrapped again.
use opae_libs.Prelude.{ℕ, Bool, true, false, Option, none, some, List, [], ◌∷◌, length, ◌==◌}
use opae_libs.Prelude.{
  ◌≡◌, refl, sym, ap, ◌∙◌, arith, inl, inr, Bool-cases, ==_iff, not, ◌&&◌, ◌||◌, ltb,
}
use mathlib.Core.Path.{subst, fun_ext}
use opae_libs.Types.{FpgaResult, is_ok}
use opae_libs.Token.{Tokens, WrappedToken, opae_wrapped_token_magic, opae_validate_wrapped_token}
use opae_libs.Props.{
  Properties, field_valid, opae_validate_and_lock_properties, fpga_property_magic,
}
use opae_libs.Props.Parent.{fpga_property_parent}
use opae_libs.Enumerate.{
  Heap, object_at, put_object, Fixup, opae_token_of, unwrap_found, unwrap_one, unwrap_filters,
}
use opae_libs.Enumerate.{
  rewrap_one, rewrap_filters, EnumAdapter, EnumAnswers, unwrapped, enumerate_filters,
  fpga_enumerate, queried, filters_of, enum_refused,
}

abbrev Accepted : Heap → ℕ → Properties → Type 0
Accepted heap f p =
    ((f == 0) ≡ false) × (heap f ≡ some p) × ((p.magic == fpga_property_magic) ≡ true)

of_object :
    (heap : Heap) (f : ℕ) (p : Properties) (o : Option Properties)
    → heap f ≡ o
    → (f == 0) ≡ false
    → opae_validate_and_lock_properties o ≡ some p
    → Accepted heap f p
of_object heap f p none e z v = absurd (ground arith)
of_object heap f p (some q) e z v = elim (Bool-cases (q.magic == fpga_property_magic)) [
  | inl m ↦
      let same : q ≡ p =
        (let h : opae_validate_and_lock_properties (some q) ≡ some q = rw m refl in cc) in
      (
        z,
        e ∙ ap some same,
        subst (λ (r : Properties). (r.magic == fpga_property_magic) ≡ true) same m,
      )
  | inr m ↦ let h : opae_validate_and_lock_properties (some q) ≡ none = rw m refl in absurd cc
]

accepted :
    (heap : Heap) (f : ℕ) (p : Properties)
    → opae_validate_and_lock_properties (object_at heap f) ≡ some p
    → Accepted heap f p
accepted heap f p v = elim (Bool-cases (f == 0)) [
  | inl z ↦
      let h : opae_validate_and_lock_properties (object_at heap f) ≡ none = rw z refl in absurd cc
  | inr z ↦
      let h : object_at heap f ≡ heap f = rw z refl in
      of_object heap f p (heap f) refl z (ap opae_validate_and_lock_properties (sym h) ∙ v)
]

validate_same : (ts : Tokens) (t wt : ℕ) → opae_validate_wrapped_token ts t ≡ some wt → wt ≡ t
validate_same ts t wt e = elim (Bool-cases (t == 0)) [
  | inl z ↦ absurd (let h : opae_validate_wrapped_token ts t ≡ none = rw z refl in cc)
  | inr z ↦ of_cell z (ts.cell t) refl
]
  where
    of_cell : (t == 0) ≡ false → (o : Option WrappedToken) → ts.cell t ≡ o → wt ≡ t
    of_cell z none c =
        absurd (let h : opae_validate_wrapped_token ts t ≡ none = rw (z, c) refl in cc)
    of_cell z (some w) c = elim (Bool-cases (w.magic == opae_wrapped_token_magic)) [
      | inl m ↦ let h : opae_validate_wrapped_token ts t ≡ some t = rw (z, c, m) refl in cc
      | inr m ↦ absurd (let h : opae_validate_wrapped_token ts t ≡ none = rw (z, c, m) refl in cc)
    ]

-- Wrapping the parent of the filter again, right after it was unwrapped.
rewrap_one-put_object :
    (heap : Heap) (f t : ℕ) (p : Properties)
    → Accepted heap f p
    → let heap' = put_object heap f (record p { parent = t }) in
      rewrap_one
        (record { prop = f; wrapped_token = p.parent })
        heap'
        (opae_validate_and_lock_properties (object_at heap' f))
      ≡ heap
unfolding rewrap_one
rewrap_one-put_object heap f t p (nz, at, m) =
    let self : (f == f) ≡ true = (==_iff f f).1 refl in
    rw (nz, self, m)
      (fun_ext (λ q. elim (Bool-cases (f == q)) [
        | inl e ↦ let same : f ≡ q = (==_iff f q).0 e in rw e (sym at ∙ ap heap same)
        | inr e ↦ rw e refl
      ]))

unwrap_found-rewrap_filters :
    (has_fixup : Bool) (ts : Tokens) (f : ℕ) (p : Properties) (heap : Heap) (fixups : List Fixup)
    (o : Option ℕ)
    → Accepted heap f p
    → opae_validate_wrapped_token ts p.parent ≡ o
    → let (res, heap', fixups') = unwrap_found has_fixup ts f p heap fixups o in
      rewrap_filters fixups' heap' ≡ rewrap_filters fixups heap
unfolding unwrap_found rewrap_filters
unwrap_found-rewrap_filters has_fixup ts f p heap fixups none ok e = refl
unwrap_found-rewrap_filters false ts f p heap fixups (some wt) ok e = refl
unwrap_found-rewrap_filters true ts f p heap fixups (some wt) ok e =
    let same : wt ≡ p.parent = validate_same ts p.parent wt e in
    rw same
      (ap (rewrap_filters fixups) (rewrap_one-put_object heap f (opae_token_of ts p.parent) p ok))

unwrap_one-rewrap_filters :
    (has_fixup : Bool) (ts : Tokens) (f : ℕ) (heap : Heap) (fixups : List Fixup)
    (o : Option Properties)
    → opae_validate_and_lock_properties (object_at heap f) ≡ o
    → let (res, heap', fixups') = unwrap_one has_fixup ts f o heap fixups in
      rewrap_filters fixups' heap' ≡ rewrap_filters fixups heap
unfolding unwrap_one
unwrap_one-rewrap_filters has_fixup ts f heap fixups none e = refl
unwrap_one-rewrap_filters has_fixup ts f heap fixups (some p) e =
    elim (Bool-cases (field_valid p fpga_property_parent)) [
      | inl v ↦ rw v (
          unwrap_found-rewrap_filters has_fixup ts f p heap fixups
            (opae_validate_wrapped_token ts p.parent) (accepted heap f p e) refl)
      | inr v ↦ rw v refl
    ]

-- However far the loop comes, wrapping the parents again gives the filters that there were.
unwrap_filters-rewrap_filters :
    (has_fixup : ℕ → Bool) (ts : Tokens) (fs : List ℕ) (heap : Heap) (fixups : List Fixup)
    → let (res, heap', fixups') = unwrap_filters has_fixup ts fs heap fixups in
      rewrap_filters fixups' heap' ≡ rewrap_filters fixups heap
unfolding unwrap_filters
unwrap_filters-rewrap_filters has_fixup ts [] heap fixups = refl
unwrap_filters-rewrap_filters has_fixup ts (f ∷ fs) heap fixups =
    let o = opae_validate_and_lock_properties (object_at heap f) in
    let once = unwrap_one-rewrap_filters (has_fixup (length fixups)) ts f heap fixups o refl in
    let (res, heap', fixups') = unwrap_one (has_fixup (length fixups)) ts f o heap fixups in
    elim (Bool-cases (is_ok res)) [
      | inl y ↦
          rw (unwrap_filters, y)
            (unwrap_filters-rewrap_filters has_fixup ts fs heap' fixups' ∙ once)
      | inr y ↦ rw (unwrap_filters, y) once
    ]

unwrapped-heap :
    (e : EnumAnswers) (adapters : List EnumAdapter) (ts : Tokens) (filters : List ℕ)
    (has_tokens : Bool) (max_tokens : ℕ) (r : FpgaResult × Heap × List Fixup)
    → (unwrapped e adapters ts filters has_tokens max_tokens r).heap ≡ rewrap_filters r.2 r.1
unfolding unwrapped queried
unwrapped-heap e adapters ts filters has_tokens max_tokens (res, heap, fixups) =
    elim (Bool-cases (is_ok res)) [
      | inl y ↦ rw (unwrapped, y) refl
      | inr y ↦ rw (unwrapped, y) refl
    ]

enumerate_filters-heap :
    (e : EnumAnswers) (adapters : List EnumAdapter) (ts : Tokens) (heap : Heap) (has_tokens : Bool)
    (max_tokens : ℕ) (o : Option (List ℕ))
    → (enumerate_filters e adapters ts heap has_tokens max_tokens o).heap ≡ heap
unfolding enumerate_filters enum_refused
enumerate_filters-heap e adapters ts heap has_tokens max_tokens none = refl
enumerate_filters-heap e adapters ts heap has_tokens max_tokens (some fs) =
    let kept : rewrap_filters [] heap ≡ heap = unfold rewrap_filters in refl in
    elim (Bool-cases (has_tokens && not e.calloc)) [
      | inl y ↦ rw y refl
      | inr y ↦ rw y (
          unwrapped-heap e adapters ts fs has_tokens max_tokens
            (unwrap_filters e.has_fixup ts fs heap [])
          ∙ (unwrap_filters-rewrap_filters e.has_fixup ts fs heap [] ∙ kept))
    ]

-- Whatever the arguments are, the plugins do and `malloc` answers, also where a filter is invalid or
-- stands twice in the array and where memory runs out half-way, an enumeration leaves every property
-- object with the contents that it had, the wrapped parents of the filters included.
pub fpga_enumerate-heap :
    (e : EnumAnswers) (adapters : List EnumAdapter) (ts : Tokens) (heap : Heap) (num_filters : ℕ)
    (filters : Option (ℕ → ℕ)) (has_tokens : Bool) (max_tokens : ℕ) (has_matches : Bool)
    → (fpga_enumerate e adapters ts heap num_filters filters has_tokens max_tokens has_matches).heap
      ≡ heap
unfolding fpga_enumerate enum_refused
fpga_enumerate-heap e adapters ts heap num_filters filters has_tokens max_tokens has_matches =
    elim (Bool-cases (not has_matches || (ltb 0 max_tokens && not has_tokens))) [
      | inl y ↦ rw y refl
      | inr y ↦ rw y (
          enumerate_filters-heap e adapters ts heap has_tokens max_tokens
            (filters_of num_filters filters))
    ]
