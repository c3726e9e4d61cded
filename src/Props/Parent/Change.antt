-- ===== src/Props/Parent/Change.antt =====
-- `fpgaPropertiesSetParent` and `fpgaClearProperties`: what they do to the parent that is there.
use opae_libs.Prelude.{ℕ, ◌+◌, ◌-◌, ◌^◌, ◌<◌, true, false, Option, none, some, ◌≡◌, ◌≢◌, refl}
use opae_libs.Prelude.{arith, ap, ◌∙◌, ◌==◌, if◌then◌else◌, ==_iff}
use opae_libs.Prelude.Bits.{bit-zero}
use opae_libs.Types.{FpgaResult, fpga_ok, fpga_not_found, fpga_invalid_param}
use opae_libs.Token.{Tokens, opae_upref_wrapped_token}
use opae_libs.Token.{opae_downref_wrapped_token}
use opae_libs.Token.Count.{IsValid, refs, opae_validate_wrapped_token_iff}
use opae_libs.Token.Count.{opae_upref_wrapped_token_lem, opae_downref_wrapped_token_lem}
use opae_libs.Token.Count.{opae_validate_wrapped_token-dead}
use opae_libs.Props.{Properties, fpga_property_magic, set_field_valid}
use opae_libs.Props.Bodies.{validated, get_with-valid, field_valid-set_self}
use opae_libs.Props.Fields
use opae_libs.Props.Fields.{Field}
use opae_libs.Props.Parent.{fpga_property_parent, upref_valid, drop_parent, clear_parent}
use opae_libs.Props.Parent.{fpga_clear_properties, fpga_properties_get_parent}
use opae_libs.Props.Parent.{fpga_properties_set_parent}
use opae_libs.Props.Parent.Holds.{IsLive, HasParent, upref_valid-live, drop_parent-live}

abbrev with_parent : Properties → ℕ → Properties
with_parent p t = record (set_field_valid p fpga_property_parent) { parent = t }

set_parent-eq :
    (ts : Tokens) (p : Properties) (t : ℕ)
    → t ≢ 0
    → p.magic ≡ fpga_property_magic
    → fpga_properties_set_parent ts (some p) t
      ≡ (fpga_ok, some (with_parent p t), upref_valid (drop_parent ts p) t)
unfolding fpga_properties_set_parent
set_parent-eq ts p t nz h =
    let given : (t == 0) ≡ false = ground arith in
    rw given (
      ap {B = FpgaResult × Option Properties × Tokens}
        (λ o. elim o [
          | none ↦ (fpga_invalid_param, some p, ts)
          | some q ↦ (fpga_ok, some (with_parent q t), upref_valid (drop_parent ts q) t)
        ])
        (validated p h))

get_parent-with_parent :
    (p : Properties) (t : ℕ)
    → p.magic ≡ fpga_property_magic
    → fpga_properties_get_parent true (some (with_parent p t)) ≡ (fpga_ok, some t)
unfolding fpga_properties_get_parent
get_parent-with_parent p t h =
    get_with-valid (with_parent p t) _ h ∙ rw (field_valid-set_self p fpga_property_parent) refl

upref_valid-dead : (ts : Tokens) (t : ℕ) → IsValid ts → refs ts t ≡ 0 → upref_valid ts t ≡ ts
unfolding upref_valid
upref_valid-dead ts t v dead =
    ap (λ o. elim o [ none ↦ ts | some wt ↦ opae_upref_wrapped_token ts wt ])
      (opae_validate_wrapped_token-dead ts t v dead)

clear-eq :
    (ts : Tokens) (p : Properties)
    → IsValid ts
    → HasParent ts p
    → fpga_clear_properties ts (some p) ≡ (
      fpga_ok,
      some (record p { parent = 0; valid_fields = 0 }),
      (opae_downref_wrapped_token ts p.parent).1,
    )
unfolding fpga_clear_properties
clear-eq ts p v (h, f, live) =
    ap {B = FpgaResult × Option Properties × Tokens}
      (λ o. elim o [
        | none ↦ (fpga_invalid_param, some p, ts)
        | some q ↦ (
          fpga_ok,
          some (record (clear_parent ts q).0 { valid_fields = 0 }),
          (clear_parent ts q).1,
        )
      ])
      (validated p h)
    ∙ ap (λ c. (fpga_ok, some (record c.0 { valid_fields = 0 }), c.1)) cleared
  where
    cleared :
        clear_parent ts p ≡ (record p { parent = 0 }, (opae_downref_wrapped_token ts p.parent).1)
    cleared = rw f (
        ap {B = Properties × Tokens}
          (λ o. elim o [
            | none ↦ (p, ts)
            | some wt ↦ (record p { parent = 0 }, (opae_downref_wrapped_token ts wt).1)
          ])
          ((opae_validate_wrapped_token_iff ts p.parent v).1 live))

-- In a valid store, replacing the live parent of an object by another live token, below 2 ^ 32 - 1
-- references, succeeds: one reference moves from the old parent to the new one, no other count
-- changes, the store stays valid, and the getter gives the new parent.
pub fpga_properties_set_parent_lem :
    (ts : Tokens) (p : Properties) (t : ℕ)
    → IsValid ts
    → HasParent ts p
    → IsLive ts t
    → p.parent ≢ t
    → refs ts t + 1 < 2 ^ 32
    → let (res, prop, ts') = fpga_properties_set_parent ts (some p) t in
      (res ≡ fpga_ok)
      × (fpga_properties_get_parent true prop ≡ (fpga_ok, some t))
      × IsValid ts'
      × ((q : ℕ)
          → refs ts' q ≡ (
              if t == q
              then refs ts t + 1
              else if p.parent == q
              then refs ts p.parent - 1
              else refs ts q))
fpga_properties_set_parent_lem ts p t v h live ne few =
    let (v1, less) = opae_downref_wrapped_token_lem ts p.parent v h.2.1 in
    let ts1 = (opae_downref_wrapped_token ts p.parent).1 in
    let other : (p.parent == t) ≡ false = ground arith in
    let kept : refs ts1 t ≡ refs ts t = less t ∙ rw other refl in
    let (v2, more, _) = opae_upref_wrapped_token_lem ts1 t v1 (omega arith) (omega arith) in
    rw
      (
        set_parent-eq ts p t live.0 h.0,
        drop_parent-live ts p v h,
        upref_valid-live ts1 t v1 (live.0, omega arith),
      )
      (refl, get_parent-with_parent p t h.0, v2, λ q. ground (arith, more q, less q))

-- In a valid store, setting the parent that is already there, when its count is 1, returns FPGA_OK,
-- the getter gives the pointer, and the count of the token is 0.
pub fpga_properties_set_parent-same :
    (ts : Tokens) (p : Properties)
    → IsValid ts
    → HasParent ts p
    → refs ts p.parent ≡ 1
    → let (res, prop, ts') = fpga_properties_set_parent ts (some p) p.parent in
      (res ≡ fpga_ok)
      × (fpga_properties_get_parent true prop ≡ (fpga_ok, some p.parent))
      × (refs ts' p.parent ≡ 0)
fpga_properties_set_parent-same ts p v h last =
    let (v1, less) = opae_downref_wrapped_token_lem ts p.parent v h.2.1 in
    let ts1 = (opae_downref_wrapped_token ts p.parent).1 in
    let own : (p.parent == p.parent) ≡ true = (==_iff _ _).1 refl in
    let gone : refs ts1 p.parent ≡ 0 = less p.parent ∙ rw own (omega arith) in
    rw
      (
        set_parent-eq ts p p.parent h.2.0 h.0,
        drop_parent-live ts p v h,
        upref_valid-dead ts1 p.parent v1 gone,
      )
      (refl, get_parent-with_parent p p.parent h.0, gone)

-- In a valid store, clearing an object that holds a live parent gives one reference of it back,
-- resets the pointer, leaves no common property valid, changes no other count, and keeps the store
-- valid.
pub fpga_clear_properties_lem :
    (ts : Tokens) (p : Properties)
    → IsValid ts
    → HasParent ts p
    → let (res, prop, ts') = fpga_clear_properties ts (some p) in
      (res ≡ fpga_ok)
      × (prop ≡ some (record p { parent = 0; valid_fields = 0 }))
      × ((f : Field) → Fields.get f true prop ≡ (fpga_not_found, none))
      × IsValid ts'
      × ((q : ℕ) → refs ts' q ≡ (if p.parent == q then refs ts p.parent - 1 else refs ts q))
fpga_clear_properties_lem ts p v h =
    let (v1, less) = opae_downref_wrapped_token_lem ts p.parent v h.2.1 in
    let empty : Properties = record p { parent = 0; valid_fields = 0 } in
    rw (clear-eq ts p v h)
      (refl, refl, λ f. Fields.get-eq f empty h.0 ∙ rw (bit-zero (Fields.number f)) refl, v1, less)
