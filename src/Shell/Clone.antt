-- ===== src/Shell/Clone.antt =====
-- Copying a token and destroying the copy.
use opae_libs.Prelude.{ℕ, ◌<◌, true, none, some, [], ◌∷◌, ◌==◌, if◌then◌else◌}
use opae_libs.Prelude.{◌≡◌, ◌≢◌, refl, ap, ◌∙◌, arith, inl, inr, Bool-cases, ==_iff}
use opae_libs.Types.{FpgaResult, fpga_ok}
use opae_libs.Token.{
  Tokens, WrappedToken, opae_wrapped_token_magic, opae_validate_wrapped_token,
  opae_allocate_wrapped_token, opae_downref_wrapped_token,
}
use opae_libs.Token.Count.{
  IsValid, refs, count_of, opae_allocate_wrapped_token_lem, opae_downref_wrapped_token_lem,
  opae_validate_wrapped_token_iff,
}
use opae_libs.Shell.{
  clone_call, fpga_clone_token, clone_token, clone_with, clone_answered, clone_wrapped,
  fpga_destroy_token, destroy_valid,
}
use opae_libs.Shell.Open.{token_at_live}

-- A token that can be copied: its plugin has both functions and copies it.
pub record CanClone (ts : Tokens) (src : ℕ) (w : WrappedToken) (cloned : ℕ) : Type 0 where
  pub valid : IsValid ts
  pub not_null : src ≢ 0
  pub there : ts.cell src ≡ some w
  pub magic : w.magic ≡ opae_wrapped_token_magic
  pub clones : ℕ → FpgaResult × ℕ
  pub destroys : ℕ → FpgaResult
  pub has_clone : w.adapter_table.fpga_clone_token ≡ some clones
  pub has_destroy : w.adapter_table.fpga_destroy_token ≡ some destroys
  pub answer : clones w.opae_token ≡ (fpga_ok, cloned)

allocated : ℕ → Tokens → ℕ → WrappedToken → Tokens
allocated p ts cloned w = (opae_allocate_wrapped_token (some p) ts cloned w.adapter_table).1

fpga_clone_token_granted :
    (ts : Tokens) (src p : ℕ) (w : WrappedToken) (cloned : ℕ)
    → CanClone ts src w cloned
    → fpga_clone_token (some p) ts src true
      ≡ (fpga_ok, some p, allocated p ts cloned w, clone_call w.opae_token ∷ [])
unfolding fpga_clone_token clone_token clone_with clone_answered clone_wrapped
    opae_allocate_wrapped_token allocated
fpga_clone_token_granted ts src p w cloned c =
    rw (token_at_live ts src w c.not_null c.there c.magic, c.has_clone, c.has_destroy, c.answer)
      refl

destroy_accepted :
    (ts : Tokens) (t : ℕ)
    → IsValid ts
    → t ≢ 0
    → 0 < refs ts t
    → fpga_destroy_token ts (some t) ≡ opae_downref_wrapped_token ts t
unfolding fpga_destroy_token destroy_valid
destroy_accepted ts t v nz live =
    let accepted : opae_validate_wrapped_token ts t ≡ some t =
      (opae_validate_wrapped_token_iff ts t v).1 (nz, live) in
    rw accepted refl

-- Copying a live token of a valid store that its plugin copies, where `malloc` gives a free pointer,
-- returns FPGA_OK with that pointer, which then has one reference, and changes no other count.
-- Destroying the copy leaves every reference count as it was, and the store valid.
pub clone-destroy_token :
    (ts : Tokens) (src p : ℕ) (w : WrappedToken) (cloned : ℕ)
    → CanClone ts src w cloned
    → p ≢ 0
    → ts.cell p ≡ none
    → (ts' : Tokens) × (fpga_clone_token (some p) ts src true
        ≡ (fpga_ok, some p, ts', clone_call w.opae_token ∷ []))
      × ((q : ℕ) → refs ts' q ≡ (if p == q then 1 else refs ts q))
      × ((q : ℕ) → refs (fpga_destroy_token ts' (some p)).1 q ≡ refs ts q)
      × IsValid (fpga_destroy_token ts' (some p)).1
unfolding allocated
clone-destroy_token ts src p w cloned c nz free =
    let (_, valid, counts, _) =
      opae_allocate_wrapped_token_lem ts p cloned w.adapter_table c.valid free in
    let ts' = allocated p ts cloned w in
    let self : (p == p) ≡ true = (==_iff p p).1 refl in
    let one : refs ts' p ≡ 1 = counts p ∙ rw self refl in
    let nothing : refs ts p ≡ 0 = ap count_of free in
    let down = opae_downref_wrapped_token_lem ts' p valid (omega (arith, one)) in
    let back : (q : ℕ) → refs (opae_downref_wrapped_token ts' p).1 q ≡ refs ts q = λ q.
      elim (Bool-cases (p == q)) [
        | inl e ↦
            let same : p ≡ q = (==_iff p q).0 e in
            down.1 q ∙ rw e (omega (arith, one, nothing, ap (refs ts) same))
        | inr e ↦ let kept : refs ts' q ≡ refs ts q = counts q ∙ rw e refl in down.1 q ∙ rw e kept
      ] in
    (
      ts',
      fpga_clone_token_granted ts src p w cloned c,
      counts,
      rw (destroy_accepted ts' p valid nz (omega (arith, one))) back,
      rw (destroy_accepted ts' p valid nz (omega (arith, one))) down.0,
    )
