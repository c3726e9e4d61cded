-- ===== src/Props/Bodies.antt =====
-- The bodies that the getters and setters of props.c share, and the bits of `valid_fields`.
use opae_libs.Prelude.{ℕ, ◌^◌, Bool, true, false, Option, none, some, ◌≡◌, ◌≢◌, refl, arith}
use opae_libs.Prelude.{◌==◌, ==_iff, ap}
use opae_libs.Prelude.Bits.{bit-bit_or, bit-pow_self, bit-pow_ne, bit-le}
use opae_libs.Types.{FpgaResult, fpga_invalid_param}
use opae_libs.Props.{
  Properties, fpga_property_magic, field_valid, set_field_valid, get_with, set_with,
}
use opae_libs.Props.{opae_validate_and_lock_properties}

pub validated :
    (p : Properties)
    → p.magic ≡ fpga_property_magic
    → opae_validate_and_lock_properties (some p) ≡ some p
validated p h = rw ((==_iff _ _).1 h) refl

pub get_with-valid {ℓ} :
    {A : Type ℓ} (p : Properties) (read : Properties → FpgaResult × Option A)
    → p.magic ≡ fpga_property_magic
    → get_with true (some p) read ≡ read p
get_with-valid {A} p read h =
    ap {B = FpgaResult × Option A}
      (λ o. elim o [ none ↦ (fpga_invalid_param, none) | some q ↦ read q ]) (validated p h)

pub set_with-valid :
    (p : Properties) (write : Properties → FpgaResult × Properties)
    → p.magic ≡ fpga_property_magic
    → set_with (some p) write ≡ ((write p).0, some (write p).1)
set_with-valid p write h =
    ap
      (λ o. elim o [
        | none ↦ (fpga_invalid_param, some p)
        | some q ↦ ((write q).0, some (write q).1)
      ])
      (validated p h)

pub get_with-invalid {ℓ} :
    {A : Type ℓ} (has_out : Bool) (prop : Option Properties)
    (read : Properties → FpgaResult × Option A)
    → opae_validate_and_lock_properties prop ≡ none
    → get_with has_out prop read ≡ (fpga_invalid_param, none)
get_with-invalid false prop read h = refl
get_with-invalid {A} true prop read h =
    ap {B = FpgaResult × Option A}
      (λ o. elim o [ none ↦ (fpga_invalid_param, none) | some q ↦ read q ]) h

pub set_with-invalid :
    (prop : Option Properties) (write : Properties → FpgaResult × Properties)
    → opae_validate_and_lock_properties prop ≡ none
    → set_with prop write ≡ (fpga_invalid_param, prop)
set_with-invalid prop write h =
    ap
      (λ o. elim o [ none ↦ (fpga_invalid_param, prop) | some q ↦ ((write q).0, some (write q).1) ])
      h

-- After its bit is set, a field is valid.
pub field_valid-set_self : (p : Properties) (f : ℕ) → field_valid (set_field_valid p f) f ≡ true
field_valid-set_self p f =
    (==_iff _ _).1
      (omega (arith, bit-bit_or f p.valid_fields (2 ^ f), bit-pow_self f, bit-le f p.valid_fields))

-- No other bit changes.
pub field_valid-set_ne :
    (p : Properties) (f g : ℕ) → f ≢ g → field_valid (set_field_valid p f) g ≡ field_valid p g
field_valid-set_ne p f g h =
    ap (λ (b : ℕ). b == 1) (omega (arith, bit-bit_or g p.valid_fields (2 ^ f), bit-pow_ne f g h))
