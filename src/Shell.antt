-- ===== src/Shell.antt =====
-- The wrapped handles of libopae-c/api-shell.c and opae_int.h: `fpgaOpen`, `fpgaClose`,
-- `fpgaCloneToken` and `fpgaDestroyToken`, which check the wrapper, call the plugin and count the
-- token. The calls of the plugin are recorded in their order.
pub mod Open
pub mod Clone
mod Tests
use opae_libs.Prelude.{ℕ, Bool, true, false, Option, none, some, List, [], ◌∷◌, ◌==◌, if◌then◌else◌}
use opae_libs.Types.{
  FpgaResult, fpga_ok, fpga_invalid_param, fpga_no_memory, fpga_not_supported, is_ok,
}
use opae_libs.Token.{Tokens, WrappedToken, AdapterTable, opae_validate_wrapped_token}
use opae_libs.Token.{
  opae_upref_wrapped_token, opae_downref_wrapped_token, opae_allocate_wrapped_token,
}

pub record WrappedHandle : Type 0 where
  pub magic : ℕ
  pub wrapped_token : ℕ
  pub opae_handle : ℕ
  pub adapter_table : AdapterTable

abbrev pub opae_wrapped_handle_magic : ℕ
opae_wrapped_handle_magic = 0x6e616877

-- The wrapped handles that are allocated, by their pointers, and the wrapped tokens.
pub record Shell : Type 0 where
  pub handles : ℕ → Option WrappedHandle
  pub tokens : Tokens

abbrev pub put_handle :
    (ℕ → Option WrappedHandle) → ℕ → Option WrappedHandle → ℕ → Option WrappedHandle
put_handle handles p o q = if p == q then o else handles q

-- A call of the plugin: the opening of a token with flags, the closing of a handle, the copy of a
-- token, and the destruction of a copy that could not be wrapped.
pub data PluginCall : Type 0 where
  open_call : ℕ → ℕ → PluginCall
  close_call clone_call destroy_call : ℕ → PluginCall

-- The result, what is written through the output pointer, with 0 for NULL, the state, and the calls.
abbrev pub Opened : Type 0
Opened = FpgaResult × Option ℕ × Shell × List PluginCall

abbrev pub open_refused : FpgaResult → Shell → Opened
open_refused res s = (res, none, s, [])

abbrev pub handle_of : ℕ → WrappedToken → ℕ → WrappedHandle
handle_of wt w opae_handle = record {
  magic = opae_wrapped_handle_magic;
  wrapped_token = wt;
  opae_handle = opae_handle;
  adapter_table = w.adapter_table;
}

-- `malloc` gives the pointer, or none.
opae_allocate_wrapped_handle : Option ℕ → Shell → ℕ → WrappedToken → ℕ → Option ℕ × Shell
opae_allocate_wrapped_handle none s wt w opae_handle = (none, s)
opae_allocate_wrapped_handle (some p) s wt w opae_handle = (
  some p,
  record {
    handles = put_handle s.handles p (some (handle_of wt w opae_handle));
    tokens = opae_upref_wrapped_token s.tokens wt;
  },
)

-- From the test of `wrapped_handle` on; the result of closing is not returned, since that of the
-- allocation is not FPGA_OK.
open_wrapped : ℕ → Option ℕ × Shell → Opened
open_wrapped opae_handle (none, s) = (fpga_no_memory, some 0, s, close_call opae_handle ∷ [])
open_wrapped opae_handle (some p, s) = (fpga_ok, some p, s, [])

-- From the plugin's answer on.
open_answered : Option ℕ → Shell → ℕ → WrappedToken → ℕ → FpgaResult × ℕ → Opened
unfolding open_wrapped opae_allocate_wrapped_handle
open_answered malloc s wt w flags (res, opae_handle) =
    if is_ok res
    then (let (res', out, s', calls) =
          open_wrapped opae_handle (opae_allocate_wrapped_handle malloc s wt w opae_handle) in
        (res', out, s', open_call w.opae_token flags ∷ calls))
    else (res, none, s, open_call w.opae_token flags ∷ [])

-- The tests of the two functions of the adapter.
open_with :
    Option ℕ
    → Shell
    → ℕ
    → WrappedToken
    → ℕ
    → Option (ℕ → ℕ → FpgaResult × ℕ)
    → Option (ℕ → FpgaResult)
    → Opened
unfolding open_answered
open_with malloc s wt w flags none close = open_refused fpga_not_supported s
open_with malloc s wt w flags (some opens) none = open_refused fpga_not_supported s
open_with malloc s wt w flags (some opens) (some close) =
    open_answered malloc s wt w flags (opens w.opae_token flags)

-- The wrapped token that a pointer was validated as.
abbrev pub token_at : Tokens → ℕ → Option WrappedToken
token_at ts t = elim (opae_validate_wrapped_token ts t) [ none ↦ none | some wt ↦ ts.cell wt ]

open_token : Option ℕ → Shell → ℕ → Bool → ℕ → Option WrappedToken → Opened
unfolding open_with
open_token malloc s wt has_handle flags none = open_refused fpga_invalid_param s
open_token malloc s wt false flags (some w) = open_refused fpga_invalid_param s
open_token malloc s wt true flags (some w) =
    open_with malloc s wt w flags w.adapter_table.fpga_open w.adapter_table.fpga_close

-- The Boolean is whether `handle` is not NULL.
unfoldable pub fpga_open : Option ℕ → Shell → ℕ → Bool → ℕ → Opened
unfolding open_token
fpga_open malloc s token has_handle flags =
    open_token malloc s token has_handle flags (token_at s.tokens token)

-- A pointer to nothing that is allocated is refused like one without the magic number.
abbrev pub opae_validate_wrapped_handle : Shell → ℕ → Option WrappedHandle
opae_validate_wrapped_handle s h = if h == 0 then none else elim (s.handles h) [
  | none ↦ none
  | some wh ↦ if wh.magic == opae_wrapped_handle_magic then some wh else none
]

-- The result of giving the token back is not looked at.
opae_destroy_wrapped_handle : Shell → ℕ → WrappedHandle → Shell
opae_destroy_wrapped_handle s h wh = record {
  handles = put_handle s.handles h none;
  tokens = (opae_downref_wrapped_token s.tokens wh.wrapped_token).1;
}

close_with :
    Shell → ℕ → WrappedHandle → Option (ℕ → FpgaResult) → FpgaResult × Shell × List PluginCall
unfolding opae_destroy_wrapped_handle
close_with s h wh none = (fpga_not_supported, s, [])
close_with s h wh (some close) =
    (close wh.opae_handle, opae_destroy_wrapped_handle s h wh, close_call wh.opae_handle ∷ [])

close_handle : Shell → ℕ → Option WrappedHandle → FpgaResult × Shell × List PluginCall
unfolding close_with
close_handle s h none = (fpga_invalid_param, s, [])
close_handle s h (some wh) = close_with s h wh wh.adapter_table.fpga_close

unfoldable pub fpga_close : Shell → ℕ → FpgaResult × Shell × List PluginCall
unfolding close_handle
fpga_close s handle = close_handle s handle (opae_validate_wrapped_handle s handle)

-- From the test of `wrapped_dst_token` on.
clone_wrapped : ℕ → Option ℕ × Tokens → FpgaResult × Option ℕ × Tokens × List PluginCall
clone_wrapped cloned (none, ts) = (fpga_no_memory, some 0, ts, destroy_call cloned ∷ [])
clone_wrapped cloned (some wt, ts) = (fpga_ok, some wt, ts, [])

clone_answered :
    Option ℕ
    → Tokens
    → WrappedToken
    → FpgaResult × ℕ
    → FpgaResult × Option ℕ × Tokens × List PluginCall
unfolding clone_wrapped
clone_answered malloc ts w (res, cloned) =
    if is_ok res
    then (let (res', out, ts', calls) =
          clone_wrapped cloned (opae_allocate_wrapped_token malloc ts cloned w.adapter_table) in
        (res', out, ts', clone_call w.opae_token ∷ calls))
    else (res, none, ts, clone_call w.opae_token ∷ [])

clone_with :
    Option ℕ
    → Tokens
    → WrappedToken
    → Option (ℕ → FpgaResult × ℕ)
    → Option (ℕ → FpgaResult)
    → FpgaResult × Option ℕ × Tokens × List PluginCall
unfolding clone_answered
clone_with malloc ts w none destroy = (fpga_not_supported, none, ts, [])
clone_with malloc ts w (some clone) none = (fpga_not_supported, none, ts, [])
clone_with malloc ts w (some clone) (some destroy) = clone_answered malloc ts w (clone w.opae_token)

clone_token :
    Option ℕ
    → Tokens
    → Bool
    → Option WrappedToken
    → FpgaResult × Option ℕ × Tokens × List PluginCall
unfolding clone_with
clone_token malloc ts has_dst none = (fpga_invalid_param, none, ts, [])
clone_token malloc ts false (some w) = (fpga_invalid_param, none, ts, [])
clone_token malloc ts true (some w) =
    clone_with malloc ts w w.adapter_table.fpga_clone_token w.adapter_table.fpga_destroy_token

-- The Boolean is whether `dst` is not NULL.
unfoldable pub fpga_clone_token :
    Option ℕ → Tokens → ℕ → Bool → FpgaResult × Option ℕ × Tokens × List PluginCall
unfolding clone_token
fpga_clone_token malloc ts src has_dst = clone_token malloc ts has_dst (token_at ts src)

destroy_valid : Tokens → Option ℕ → FpgaResult × Tokens
destroy_valid ts none = (fpga_invalid_param, ts)
destroy_valid ts (some wt) = opae_downref_wrapped_token ts wt

-- The argument is what `token` points at, or none for NULL.
unfoldable pub fpga_destroy_token : Tokens → Option ℕ → FpgaResult × Tokens
unfolding destroy_valid
fpga_destroy_token ts none = (fpga_invalid_param, ts)
fpga_destroy_token ts (some t) = destroy_valid ts (opae_validate_wrapped_token ts t)
