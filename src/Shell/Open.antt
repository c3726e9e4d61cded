-- ===== src/Shell/Open.antt =====
-- Opening and closing a token.
use opae_libs.Prelude.{ℕ, ◌+◌, ◌^◌, ◌<◌, true, false, Option, none, some, [], ◌∷◌, ◌==◌}
use opae_libs.Prelude.{◌≡◌, ◌≢◌, refl, sym, ap, ◌∙◌, arith, inl, inr, Bool-cases, ==_iff}
use mathlib.Core.Path.{fun_ext}
use opae_libs.Types.{FpgaResult, fpga_ok, fpga_no_memory}
use opae_libs.Token.{
  Tokens, WrappedToken, opae_wrapped_token_magic, opae_validate_wrapped_token,
  opae_upref_wrapped_token, opae_downref_wrapped_token,
}
use opae_libs.Token.Count.{
  IsValid, refs, count_of, Upreffed, Downreffed, opae_upref_wrapped_token_lem,
  opae_downref_wrapped_token_lem,
}
use opae_libs.Shell.{
  Shell, WrappedHandle, handle_of, put_handle, open_call, close_call, token_at, fpga_open,
  open_token, open_with, open_answered, open_wrapped, opae_allocate_wrapped_handle, fpga_close,
  close_handle, close_with, opae_destroy_wrapped_handle,
}

-- A token that can be opened: its plugin has both functions and opens it as the handle.
pub record CanOpen (s : Shell) (token flags : ℕ) (w : WrappedToken) (opae_handle : ℕ)
    (closes : ℕ → FpgaResult) : Type 0 where
  pub valid : IsValid s.tokens
  pub not_null : token ≢ 0
  pub there : s.tokens.cell token ≡ some w
  pub magic : w.magic ≡ opae_wrapped_token_magic
  pub few : w.ref_count + 1 < 2 ^ 32
  pub opens : ℕ → ℕ → FpgaResult × ℕ
  pub has_open : w.adapter_table.fpga_open ≡ some opens
  pub has_close : w.adapter_table.fpga_close ≡ some closes
  pub answer : opens w.opae_token flags ≡ (fpga_ok, opae_handle)

pub token_at_live :
    (ts : Tokens) (t : ℕ) (w : WrappedToken)
    → t ≢ 0
    → ts.cell t ≡ some w
    → w.magic ≡ opae_wrapped_token_magic
    → token_at ts t ≡ some w
token_at_live ts t w nz e m =
    let z : (t == 0) ≡ false = ground arith in
    let same : (w.magic == opae_wrapped_token_magic) ≡ true = (==_iff _ _).1 m in
    let accepted : opae_validate_wrapped_token ts t ≡ some t = rw (z, e, same) refl in
    rw (token_at, accepted) e

-- The state after a success.
abbrev opened : Shell → ℕ → ℕ → WrappedToken → ℕ → Shell
opened s token p w opae_handle = record {
  handles = put_handle s.handles p (some (handle_of token w opae_handle));
  tokens = opae_upref_wrapped_token s.tokens token;
}

fpga_open_granted :
    (s : Shell) (token flags p : ℕ) (w : WrappedToken) (opae_handle : ℕ) (closes : ℕ → FpgaResult)
    → CanOpen s token flags w opae_handle closes
    → fpga_open (some p) s token true flags
      ≡ (fpga_ok, some p, opened s token p w opae_handle, open_call w.opae_token flags ∷ [])
unfolding fpga_open open_token open_with open_answered open_wrapped opae_allocate_wrapped_handle
fpga_open_granted s token flags p w opae_handle closes c =
    rw
      (token_at_live s.tokens token w c.not_null c.there c.magic, c.has_open, c.has_close, c.answer)
      refl

fpga_close_opened :
    (s : Shell) (token p : ℕ) (w : WrappedToken) (opae_handle : ℕ) (closes : ℕ → FpgaResult)
    (ts : Tokens)
    → p ≢ 0
    → w.adapter_table.fpga_close ≡ some closes
    → fpga_close (record { handles = (opened s token p w opae_handle).handles; tokens = ts }) p ≡ (
      closes opae_handle,
      record {
        handles = put_handle (opened s token p w opae_handle).handles p none;
        tokens = (opae_downref_wrapped_token ts token).1;
      },
      close_call opae_handle ∷ [],
    )
unfolding fpga_close close_handle close_with opae_destroy_wrapped_handle
fpga_close_opened s token p w opae_handle closes ts nz has =
    let z : (p == 0) ≡ false = ground arith in
    let self : (p == p) ≡ true = (==_iff p p).1 refl in rw (z, self, has) refl

live_count :
    {s : Shell} {token flags opae_handle : ℕ} {w : WrappedToken} {closes : ℕ → FpgaResult}
    → CanOpen s token flags w opae_handle closes
    → (refs s.tokens token ≡ w.ref_count) × (0 < w.ref_count)
live_count {s = s} {token = token} {w = w} c =
    (ap count_of c.there, at (s.tokens.cell token) c.there (c.valid token))
  where
    at :
        (o : Option WrappedToken)
        → o ≡ some w
        → opae_libs.Token.Count.CellOk token o (opae_libs.Token.Count.times token s.tokens.in_use)
        → 0 < w.ref_count
    at none e k = absurd cc
    at (some v) e k =
        let same : v ≡ w = cc in omega (arith, k.1, ap (λ (x : WrappedToken). x.ref_count) same)

handles_back :
    (handles : ℕ → Option WrappedHandle) (p : ℕ) (o : Option WrappedHandle)
    → handles p ≡ none
    → put_handle (put_handle handles p o) p none ≡ handles
handles_back handles p o free = fun_ext (λ q. elim (Bool-cases (p == q)) [
  | inl e ↦ let same : p ≡ q = (==_iff p q).0 e in rw e (sym free ∙ ap handles same)
  | inr e ↦ rw e refl
])

-- The references after one more and one less.
counts_back :
    (ts : Tokens) (token : ℕ)
    → IsValid ts
    → 0 < refs ts token
    → refs ts token + 1 < 2 ^ 32
    → let ts' = (opae_downref_wrapped_token (opae_upref_wrapped_token ts token) token).1 in
      IsValid ts' × ((q : ℕ) → refs ts' q ≡ refs ts q)
counts_back ts token v live few =
    let up = opae_upref_wrapped_token_lem ts token v live few in
    let ts' = opae_upref_wrapped_token ts token in
    let self : (token == token) ≡ true = (==_iff token token).1 refl in
    let one_more : refs ts' token ≡ refs ts token + 1 = up.1 token ∙ rw self refl in
    let down = opae_downref_wrapped_token_lem ts' token up.0 (omega (arith, one_more)) in
    (
      down.0,
      λ q. elim (Bool-cases (token == q)) [
        | inl e ↦
            let same : token ≡ q = (==_iff token q).0 e in
            down.1 q ∙ rw e (omega (arith, one_more, ap (refs ts) same))
        | inr e ↦ let kept : refs ts' q ≡ refs ts q = up.1 q ∙ rw e refl in down.1 q ∙ rw e kept
      ],
    )

-- Opening a live token of a valid store that its plugin opens, where `malloc` gives a free pointer,
-- returns FPGA_OK with that pointer; closing it then closes the plugin's handle, once, and returns
-- what the plugin returns, whatever that is. It leaves the wrapped handles as they were before the
-- opening, every reference count as it was, and the store valid.
pub open-close :
    (s : Shell) (token flags p : ℕ) (w : WrappedToken) (opae_handle : ℕ) (closes : ℕ → FpgaResult)
    → CanOpen s token flags w opae_handle closes
    → p ≢ 0
    → s.handles p ≡ none
    → (s' : Shell) × (s'' : Shell) × (fpga_open (some p) s token true flags
        ≡ (fpga_ok, some p, s', open_call w.opae_token flags ∷ []))
      × (fpga_close s' p ≡ (closes opae_handle, s'', close_call opae_handle ∷ []))
      × (s''.handles ≡ s.handles)
      × ((q : ℕ) → refs s''.tokens q ≡ refs s.tokens q)
      × IsValid s''.tokens
open-close s token flags p w opae_handle closes c nz free =
    let s' = opened s token p w opae_handle in
    let (n, live) = live_count c in
    let (valid, counts) =
      counts_back s.tokens token c.valid (omega (arith, n, live)) (omega (arith, n, c.few)) in
    (
      s',
      record {
        handles = put_handle s'.handles p none;
        tokens = (opae_downref_wrapped_token s'.tokens token).1;
      },
      fpga_open_granted s token flags p w opae_handle closes c,
      fpga_close_opened s token p w opae_handle closes s'.tokens nz c.has_close,
      handles_back s.handles p (some (handle_of token w opae_handle)) free,
      counts,
      valid,
    )

-- Where the plugin opens the token and `malloc` then fails, the opening returns FPGA_NO_MEMORY with a
-- NULL handle, the plugin's handle is closed, and nothing else changes.
pub fpga_open-no_memory :
    (s : Shell) (token flags : ℕ) (w : WrappedToken) (opae_handle : ℕ) (closes : ℕ → FpgaResult)
    → CanOpen s token flags w opae_handle closes
    → fpga_open none s token true flags
      ≡ (fpga_no_memory, some 0, s, open_call w.opae_token flags ∷ close_call opae_handle ∷ [])
unfolding fpga_open open_token open_with open_answered open_wrapped opae_allocate_wrapped_handle
fpga_open-no_memory s token flags w opae_handle closes c =
    rw
      (token_at_live s.tokens token w c.not_null c.there c.magic, c.has_open, c.has_close, c.answer)
      refl
