-- ===== src/Token.antt =====
-- The wrapped tokens of libopae-c/api-shell.c and opae_int.h: reference counts and the list of
-- the tokens in use. A pointer is a number, NULL is 0, and the store maps the pointers to the
-- tokens that are allocated. `token_list_lock` makes each operation one step.
pub mod Count
mod Tests
use opae_libs.Prelude.{ℕ, ◌+◌, ◌-◌, ◌^◌, Bool, true, false, Option, none, some, List, [], ◌∷◌}
use opae_libs.Prelude.{u32, ◌==◌, if◌then◌else◌}
use opae_libs.Types.{FpgaResult, fpga_ok, fpga_not_supported}

-- Of a plugin's adapter table, what tokens and handles need; `none` is a NULL function pointer. A
-- function that writes through a pointer gives the value that is there afterwards.
pub record AdapterTable : Type 0 where
  pub fpga_open : Option (ℕ → ℕ → FpgaResult × ℕ)
  pub fpga_close : Option (ℕ → FpgaResult)
  pub fpga_clone_token : Option (ℕ → FpgaResult × ℕ)
  pub fpga_destroy_token : Option (ℕ → FpgaResult)

pub record WrappedToken : Type 0 where
  pub magic : ℕ
  pub opae_token : ℕ
  pub ref_count : ℕ
  pub adapter_table : AdapterTable

-- The heap of wrapped tokens, and the list behind `token_list_head`, from `next` on.
pub record Tokens : Type 0 where
  pub cell : ℕ → Option WrappedToken
  pub in_use : List ℕ

abbrev pub opae_wrapped_token_magic : ℕ
opae_wrapped_token_magic = 0x6b6f7477

abbrev pub store : Tokens → ℕ → Option WrappedToken → ℕ → Option WrappedToken
store ts wt o q = if wt == q then o else ts.cell q

-- A pointer to nothing that is allocated is refused like one without the magic number.
abbrev pub opae_validate_wrapped_token : Tokens → ℕ → Option ℕ
opae_validate_wrapped_token ts t = if t == 0 then none else elim (ts.cell t) [
  | none ↦ none
  | some wt ↦ if wt.magic == opae_wrapped_token_magic then some t else none
]

-- The count is a `uint32_t`; the token goes to the front of the list when its count becomes 1.
abbrev pub upref_of : Tokens → ℕ → Option WrappedToken → Tokens
upref_of ts wt none = ts
upref_of ts wt (some w) =
    let count = u32 (w.ref_count + 1) in
    record {
      cell = store ts wt (some (record w { ref_count = count }));
      in_use = if count == 1 then wt ∷ ts.in_use else ts.in_use;
    }

unfoldable pub opae_upref_wrapped_token : Tokens → ℕ → Tokens
opae_upref_wrapped_token ts wt = upref_of ts wt (ts.cell wt)

abbrev pub unlink : ℕ → List ℕ → List ℕ
unlink wt [] = []
unlink wt (q ∷ qs) = if q == wt then qs else q ∷ unlink wt qs

-- The plugin's result, or that it has no such function.
abbrev pub destroy_result : WrappedToken → FpgaResult
destroy_result w = elim w.adapter_table.fpga_destroy_token [
  | none ↦ fpga_not_supported
  | some destroy ↦ destroy w.opae_token
]

-- A token whose count falls to 0 leaves the list, goes back to its plugin and is freed.
abbrev pub downref_of : Tokens → ℕ → Option WrappedToken → FpgaResult × Tokens
downref_of ts wt none = (fpga_ok, ts)
downref_of ts wt (some w) =
    let count = u32 (w.ref_count + 2 ^ 32 - 1) in
    if count == 0
    then (destroy_result w, record { cell = store ts wt none; in_use = unlink wt ts.in_use })
    else (fpga_ok, record ts { cell = store ts wt (some (record w { ref_count = count })) })

unfoldable pub opae_downref_wrapped_token : Tokens → ℕ → FpgaResult × Tokens
opae_downref_wrapped_token ts wt = downref_of ts wt (ts.cell wt)

-- `malloc` gives the pointer, or none.
unfoldable pub opae_allocate_wrapped_token :
    Option ℕ → Tokens → ℕ → AdapterTable → Option ℕ × Tokens
unfolding opae_upref_wrapped_token
opae_allocate_wrapped_token none ts token adapter = (none, ts)
opae_allocate_wrapped_token (some wtok) ts token adapter =
    let fresh : WrappedToken = record {
      magic = opae_wrapped_token_magic;
      opae_token = token;
      ref_count = 0;
      adapter_table = adapter;
    } in
    (some wtok, opae_upref_wrapped_token (record ts { cell = store ts wtok (some fresh) }) wtok)

-- `count` over the list, and 32 bits of it.
abbrev pub count_from : ℕ → List ℕ → ℕ
count_from count [] = count
count_from count (q ∷ qs) = count_from (u32 (count + 1)) qs

unfoldable pub opae_wrapped_tokens_in_use : Tokens → ℕ
opae_wrapped_tokens_in_use ts = count_from 0 ts.in_use
