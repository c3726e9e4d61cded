-- ===== src/Props/Parent.antt =====
-- The operations of props.c on the whole object and on its parent token, which is counted while the
-- object holds it.
pub mod Holds
pub mod Change
use opae_libs.Prelude.{ℕ, Bool, true, false, Option, none, some, ◌==◌, if◌then◌else◌}
use opae_libs.Types.{FpgaResult, fpga_ok, fpga_invalid_param, fpga_exception}
use opae_libs.Token.{Tokens, opae_validate_wrapped_token, opae_upref_wrapped_token}
use opae_libs.Token.{opae_downref_wrapped_token}
use opae_libs.Props.{Properties, Created, field_valid, set_field_valid, get_with, if_valid}
use opae_libs.Props.{opae_validate_and_lock_properties, opae_properties_create}

abbrev pub fpga_property_parent : ℕ
fpga_property_parent = 0

-- `opae_validate_wrapped_token` and, if it accepts, one more or one less reference.
pub upref_valid : Tokens → ℕ → Tokens
upref_valid ts t = elim (opae_validate_wrapped_token ts t) [
  | none ↦ ts
  | some wt ↦ opae_upref_wrapped_token ts wt
]

downref_valid : Tokens → ℕ → Tokens
downref_valid ts t = elim (opae_validate_wrapped_token ts t) [
  | none ↦ ts
  | some wt ↦ (opae_downref_wrapped_token ts wt).1
]

-- The object gives up its parent, if it has one.
pub drop_parent : Tokens → Properties → Tokens
unfolding downref_valid
drop_parent ts p = if field_valid p fpga_property_parent then downref_valid ts p.parent else ts

-- The argument is what `prop` points at, none for a NULL `prop`; so is the second result.
unfoldable pub fpga_destroy_properties :
    Tokens → Option (Option Properties) → FpgaResult × Option (Option Properties) × Tokens
unfolding drop_parent
fpga_destroy_properties ts none = (fpga_invalid_param, none, ts)
fpga_destroy_properties ts (some prop) = elim (opae_validate_and_lock_properties prop) [
  | none ↦ (fpga_invalid_param, some prop, ts)
  | some p ↦ (fpga_ok, some none, drop_parent ts p)
]

-- The lock of the new object is its own; all else is copied. The Boolean is whether `dst` is given,
-- the second result what is written to it.
unfoldable pub fpga_clone_properties :
    Created → Tokens → Option Properties → Bool → FpgaResult × Option Properties × Tokens
unfolding upref_valid opae_properties_create
fpga_clone_properties c ts src false = (fpga_invalid_param, none, ts)
fpga_clone_properties c ts src true = elim (opae_validate_and_lock_properties src) [
  | none ↦ (fpga_invalid_param, none, ts)
  | some p ↦ elim (opae_properties_create c) [
    | none ↦ (fpga_exception, none, ts)
    | some clone ↦ (
      fpga_ok,
      some p,
      if field_valid p fpga_property_parent then upref_valid ts p.parent else ts,
    )
  ]
]

-- The pointer to the parent is reset only where it was a wrapped token.
clear_parent : Tokens → Properties → Properties × Tokens
clear_parent ts p =
    if field_valid p fpga_property_parent
    then elim (opae_validate_wrapped_token ts p.parent) [
      | none ↦ (p, ts)
      | some wt ↦ (record p { parent = 0 }, (opae_downref_wrapped_token ts wt).1)
    ]
    else (p, ts)

unfoldable pub fpga_clear_properties :
    Tokens → Option Properties → FpgaResult × Option Properties × Tokens
unfolding clear_parent
fpga_clear_properties ts props = elim (opae_validate_and_lock_properties props) [
  | none ↦ (fpga_invalid_param, props, ts)
  | some p ↦
      let (p', ts') = clear_parent ts p in (fpga_ok, some (record p' { valid_fields = 0 }), ts')
]

unfoldable pub fpga_properties_get_parent : Bool → Option Properties → FpgaResult × Option ℕ
fpga_properties_get_parent has_out prop =
    get_with has_out prop (λ p. if_valid p fpga_property_parent p.parent)

-- The old parent is given up before the new one is counted.
unfoldable pub fpga_properties_set_parent :
    Tokens → Option Properties → ℕ → FpgaResult × Option Properties × Tokens
unfolding drop_parent upref_valid
fpga_properties_set_parent ts prop parent =
    if parent == 0
    then (fpga_invalid_param, prop, ts)
    else elim (opae_validate_and_lock_properties prop) [
      | none ↦ (fpga_invalid_param, prop, ts)
      | some p ↦ (
        fpga_ok,
        some (record (set_field_valid p fpga_property_parent) { parent = parent }),
        upref_valid (drop_parent ts p) parent,
      )
    ]
