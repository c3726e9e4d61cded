-- ===== src/Enumerate.antt =====
-- `fpgaEnumerate` of libopae-c/api-shell.c, with the loop over the adapters of pluginmgr.c. A plugin's
-- `fpgaEnumerate` is an argument, and so is what the C library answers. The locks are held for the
-- whole of a call, so that it is one step.
pub mod Filters
pub mod Wrap
pub mod Progress
pub mod Returned
pub mod Counting
mod Tests
use opae_libs.Prelude.{
  ℕ, zero, suc, ◌+◌, ◌-◌, ◌^◌, Bool, true, false, not, ◌&&◌, ◌||◌, Option, none, some,
}
use opae_libs.Prelude.{List, [], ◌∷◌, ◌++◌, length, u32, ltb, ◌==◌, if◌then◌else◌}
use opae_libs.Types.{FpgaResult, fpga_ok, fpga_invalid_param, fpga_no_memory, fpga_exception, is_ok}
use opae_libs.Token.{Tokens, AdapterTable, opae_validate_wrapped_token}
use opae_libs.Token.{opae_allocate_wrapped_token, opae_downref_wrapped_token}
use opae_libs.Props.{Properties, field_valid, opae_validate_and_lock_properties}
use opae_libs.Props.Parent.{fpga_property_parent}

-- The property objects that are allocated, by their pointers.
abbrev pub Heap : Type 0
Heap = ℕ → Option Properties

abbrev pub object_at : Heap → ℕ → Option Properties
object_at heap f = if f == 0 then none else heap f

abbrev pub put_object : Heap → ℕ → Properties → Heap
put_object heap f p q = if f == q then some p else heap q

-- What a plugin returns, leaves in the array of tokens, and writes to its `num_matches`.
pub record Answer : Type 0 where
  pub res : FpgaResult
  pub tokens : ℕ → ℕ
  pub num_matches : ℕ

-- A plugin reads the filters, and is given the array, or none for NULL, with the room in it.
pub record EnumAdapter : Type 0 where
  pub table : AdapterTable
  pub fpga_enumerate : Option (Heap → List ℕ → Option (ℕ → ℕ) → ℕ → Answer)

-- `wrapped_tokens` is none for NULL, and otherwise the entries that were written.
pub record Context : Type 0 where
  pub wrapped_tokens : Option (List ℕ)
  pub max_wrapped_tokens : ℕ
  pub num_matches : ℕ
  pub adapter_tokens : Option (ℕ → ℕ)
  pub num_wrapped_tokens : ℕ
  pub errors : ℕ

pub record State : Type 0 where
  pub context : Context
  pub store : Tokens

-- The token is kept in the array, or given back where there is none.
keep_token : ℕ → Context → Tokens → Option (List ℕ) → State
keep_token wt ctx ts none = record { context = ctx; store = (opae_downref_wrapped_token ts wt).1 }
keep_token wt ctx ts (some written) = record {
  context = record ctx {
    wrapped_tokens = some (written ++ wt ∷ []);
    num_wrapped_tokens = u32 (ctx.num_wrapped_tokens + 1);
  };
  store = ts;
}

abbrev pub one_error : Context → Context
one_error ctx = record ctx { errors = u32 (ctx.errors + 1) }

-- One round, after the allocation; `next` is the rounds that follow. The Boolean is whether
-- `opae_enumerate` returns OPAE_ENUM_STOP.
pub wrap_round : (State → Bool × State) → State → Option ℕ × Tokens → Bool × State
unfolding keep_token
wrap_round next s (none, ts) = (true, record { context = one_error s.context; store = ts })
wrap_round next s (some p, ts) = next (keep_token p s.context ts s.context.wrapped_tokens)

-- The loop over the tokens of an adapter, from `i` on. `malloc` gives a pointer, or none.
pub wrap_from : (Tokens → Option ℕ) → AdapterTable → (ℕ → ℕ) → ℕ → ℕ → State → Bool × State
unfolding wrap_round
wrap_from malloc adapter tokens i zero s = (false, s)
wrap_from malloc adapter tokens i (suc left) s =
    wrap_round (wrap_from malloc adapter tokens (suc i) left) s
      (opae_allocate_wrapped_token (malloc s.store) s.store (tokens i) adapter)

-- The end of `opae_enumerate`.
finished : Bool × State → Bool × State
finished (true, s) = (true, s)
finished (false, s) = (s.context.num_wrapped_tokens == s.context.max_wrapped_tokens, s)

-- From the test of `ctx->adapter_tokens` on.
matched : (Tokens → Option ℕ) → AdapterTable → ℕ → Answer → State → Option (ℕ → ℕ) → Bool × State
unfolding wrap_from finished
matched malloc adapter space a s none = (false, s)
matched malloc adapter space a s (some tokens) =
    finished (
      wrap_from malloc adapter tokens 0 (if ltb a.num_matches space then a.num_matches else space)
        s)

-- The array after the plugin's call.
abbrev pub array_after : Option (ℕ → ℕ) → Answer → Option (ℕ → ℕ)
array_after none a = none
array_after (some tokens) a = some a.tokens

abbrev pub count_matches : Context → Answer → Context
count_matches ctx a = record ctx { num_matches = u32 (ctx.num_matches + a.num_matches) }

-- From the test of the plugin's result on; `array` is what the plugin left.
answered : (Tokens → Option ℕ) → AdapterTable → ℕ → State → Answer → Option (ℕ → ℕ) → Bool × State
unfolding matched
answered malloc adapter space s a array =
    let ctx = record s.context { adapter_tokens = array } in
    if is_ok a.res
    then matched malloc adapter space a (record { context = count_matches ctx a; store = s.store })
        array
    else (false, record { context = one_error ctx; store = s.store })

abbrev pub has_room : Option (List ℕ) → ℕ → Bool
has_room none space = true
has_room (some written) space = not (space == 0)

abbrev pub space_remaining : Context → ℕ
space_remaining ctx = u32 (ctx.max_wrapped_tokens + 2 ^ 32 - ctx.num_wrapped_tokens)

-- The call of the plugin, if it has one.
ask_adapter :
    (Tokens → Option ℕ)
    → Heap
    → List ℕ
    → AdapterTable
    → ℕ
    → State
    → Option (Heap → List ℕ → Option (ℕ → ℕ) → ℕ → Answer)
    → Bool × State
unfolding answered
ask_adapter malloc heap filters adapter space s none = (false, s)
ask_adapter malloc heap filters adapter space s (some enumerate) =
    let a = enumerate heap filters s.context.adapter_tokens space in
    answered malloc adapter space s a (array_after s.context.adapter_tokens a)

-- The Boolean is whether it returns OPAE_ENUM_STOP.
unfoldable pub opae_enumerate :
    (Tokens → Option ℕ) → Heap → List ℕ → EnumAdapter → State → Bool × State
unfolding ask_adapter
opae_enumerate malloc heap filters adapter s =
    let space = space_remaining s.context in
    if has_room s.context.wrapped_tokens space
    then ask_adapter malloc heap filters adapter.table space s adapter.fpga_enumerate
    else (true, s)

-- The callback on each adapter, until it returns something other than 0.
unfoldable pub opae_plugin_mgr_for_each_adapter {ℓ ℓ'} :
    {A : Type ℓ} {S : Type ℓ'} → (A → S → Bool × S) → List A → S → Bool × S
opae_plugin_mgr_for_each_adapter callback [] s = (false, s)
opae_plugin_mgr_for_each_adapter callback (a ∷ as') s = elim (callback a s).0 [
  | true ↦ callback a s
  | false ↦ opae_plugin_mgr_for_each_adapter callback as' (callback a s).1
]

-- A filter whose parent was unwrapped, and the wrapped token.
pub record Fixup : Type 0 where
  pub prop : ℕ
  pub wrapped_token : ℕ

abbrev pub opae_token_of : Tokens → ℕ → ℕ
opae_token_of ts wt = elim (ts.cell wt) [ none ↦ 0 | some w ↦ w.opae_token ]

-- The parent of a valid filter, as it was validated; the Boolean is whether `malloc` gives the fixup.
unwrap_found :
    Bool → Tokens → ℕ → Properties → Heap → List Fixup → Option ℕ → FpgaResult × Heap × List Fixup
unwrap_found has_fixup ts f p heap fixups none = (fpga_invalid_param, heap, fixups)
unwrap_found false ts f p heap fixups (some wt) = (fpga_no_memory, heap, fixups)
unwrap_found true ts f p heap fixups (some wt) = (
  fpga_ok,
  put_object heap f (record p { parent = opae_token_of ts wt }),
  record { prop = f; wrapped_token = wt } ∷ fixups,
)

unwrap_one :
    Bool → Tokens → ℕ → Option Properties → Heap → List Fixup → FpgaResult × Heap × List Fixup
unfolding unwrap_found
unwrap_one has_fixup ts f none heap fixups = (fpga_invalid_param, heap, fixups)
unwrap_one has_fixup ts f (some p) heap fixups =
    if field_valid p fpga_property_parent
    then unwrap_found has_fixup ts f p heap fixups (opae_validate_wrapped_token ts p.parent)
    else (fpga_ok, heap, fixups)

-- The first loop over the filters; whether `malloc` gives a fixup depends on how many there are.
pub unwrap_filters :
    (ℕ → Bool) → Tokens → List ℕ → Heap → List Fixup → FpgaResult × Heap × List Fixup
unfolding unwrap_one
unwrap_filters has_fixup ts [] heap fixups = (fpga_ok, heap, fixups)
unwrap_filters has_fixup ts (f ∷ fs) heap fixups =
    let (res, heap', fixups') =
      unwrap_one (has_fixup (length fixups)) ts f
        (opae_validate_and_lock_properties (object_at heap f)) heap fixups in
    elim (is_ok res) [
      | true ↦ unwrap_filters has_fixup ts fs heap' fixups'
      | false ↦ (res, heap', fixups')
    ]

rewrap_one : Fixup → Heap → Option Properties → Heap
rewrap_one x heap none = heap
rewrap_one x heap (some p) = put_object heap x.prop (record p { parent = x.wrapped_token })

-- The loop at the end, over `ptf_list`.
rewrap_filters : List Fixup → Heap → Heap
unfolding rewrap_one
rewrap_filters [] heap = heap
rewrap_filters (x ∷ xs) heap =
    rewrap_filters xs
      (rewrap_one x heap (opae_validate_and_lock_properties (object_at heap x.prop)))

-- The array of the filters: its first entries, or none where the arguments are refused.
entries : (ℕ → ℕ) → ℕ → ℕ → List ℕ
entries array i zero = []
entries array i (suc left) = array i ∷ entries array (suc i) left

pub filters_of : ℕ → Option (ℕ → ℕ) → Option (List ℕ)
unfolding entries
filters_of zero none = some []
filters_of (suc n) none = none
filters_of zero (some array) = none
filters_of (suc n) (some array) = some (entries array 0 (suc n))

-- What the C library answers.
pub record EnumAnswers : Type 0 where
  pub calloc : Bool
  pub has_fixup : ℕ → Bool
  pub malloc : Tokens → Option ℕ

-- The result, what is written to `*num_matches` and to the array `tokens`, and what is left.
pub record Enumerated : Type 0 where
  pub res : FpgaResult
  pub num_matches : Option ℕ
  pub tokens : List ℕ
  pub store : Tokens
  pub heap : Heap

abbrev pub started : Bool → ℕ → Tokens → State
started has_tokens max_tokens ts = record {
  context = record {
    wrapped_tokens = if has_tokens then some [] else none;
    max_wrapped_tokens = max_tokens;
    num_matches = 0;
    adapter_tokens = if has_tokens then some (λ i. 0) else none;
    num_wrapped_tokens = 0;
    errors = 0;
  };
  store = ts;
}

abbrev pub written_of : Option (List ℕ) → List ℕ
written_of none = []
written_of (some written) = written

-- From `out_free_tokens` on, after the adapters.
queried : State → Heap → List Fixup → Enumerated
unfolding rewrap_filters
queried s heap fixups = record {
  res = if ltb 0 s.context.errors then fpga_exception else fpga_ok;
  num_matches = some s.context.num_matches;
  tokens = written_of s.context.wrapped_tokens;
  store = s.store;
  heap = rewrap_filters fixups heap;
}

unwrapped :
    EnumAnswers
    → List EnumAdapter
    → Tokens
    → List ℕ
    → Bool
    → ℕ
    → FpgaResult × Heap × List Fixup
    → Enumerated
unfolding queried opae_enumerate opae_plugin_mgr_for_each_adapter
unwrapped e adapters ts filters has_tokens max_tokens (res, heap, fixups) = elim (is_ok res) [
  | true ↦
      queried
        (opae_plugin_mgr_for_each_adapter (opae_enumerate e.malloc heap filters) adapters
          (started has_tokens max_tokens ts)).1
        heap fixups
  | false ↦ record {
    res = res;
    num_matches = some 0;
    tokens = [];
    store = ts;
    heap = rewrap_filters fixups heap;
  }
]

enum_refused : FpgaResult → Option ℕ → Tokens → Heap → Enumerated
enum_refused res num_matches ts heap = record {
  res = res;
  num_matches = num_matches;
  tokens = [];
  store = ts;
  heap = heap;
}

-- The filters are not refused.
enumerate_filters :
    EnumAnswers → List EnumAdapter → Tokens → Heap → Bool → ℕ → Option (List ℕ) → Enumerated
unfolding unwrapped unwrap_filters enum_refused
enumerate_filters e adapters ts heap has_tokens max_tokens none =
    enum_refused fpga_invalid_param none ts heap
enumerate_filters e adapters ts heap has_tokens max_tokens (some filters) =
    if has_tokens && not e.calloc
    then enum_refused fpga_no_memory (some 0) ts heap
    else unwrapped e adapters ts filters has_tokens max_tokens
        (unwrap_filters e.has_fixup ts filters heap [])

-- `has_tokens` and `has_matches` are whether the pointers are not NULL; `filters` is none for NULL.
unfoldable pub fpga_enumerate :
    EnumAnswers
    → List EnumAdapter
    → Tokens
    → Heap
    → ℕ
    → Option (ℕ → ℕ)
    → Bool
    → ℕ
    → Bool
    → Enumerated
unfolding enumerate_filters filters_of enum_refused
fpga_enumerate e adapters ts heap num_filters filters has_tokens max_tokens has_matches =
    if not has_matches || (ltb 0 max_tokens && not has_tokens)
    then enum_refused fpga_invalid_param none ts heap
    else enumerate_filters e adapters ts heap has_tokens max_tokens (filters_of num_filters filters)
