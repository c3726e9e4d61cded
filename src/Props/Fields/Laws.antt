-- ===== src/Props/Fields/Laws.antt =====
-- What each common getter says after each common setter, on valid objects and on others.
use opae_libs.Prelude.{ℕ, Bool, true, false, Option, none, some, ◌≡◌, ◌≢◌, refl, ltb, ◌==◌}
use opae_libs.Prelude.{Bool-cases, inl, inr, ◌⊎◌, ◌∙◌, ap, sym}
use opae_libs.Prelude.Bits.{bit}
use opae_libs.Types.{fpga_ok, fpga_invalid_param}
use opae_libs.Props.{Properties, fpga_property_magic, field_valid}
use opae_libs.Props.{opae_validate_and_lock_properties}
use opae_libs.Props.Bodies.{get_with-invalid, set_with-invalid, field_valid-set_self}
use opae_libs.Props.Bodies.{field_valid-set_ne}
use opae_libs.Props.Fields.{Field, Value, number, get, set, accepts, put, get-eq, set-eq}
use opae_libs.Props.Fields.{valid_fields-put, magic-put, value-put_self, value-put_ne}
use opae_libs.Props.Common.{
  fpga_properties_get_object_type, fpga_properties_get_segment, fpga_properties_get_bus,
}
use opae_libs.Props.Common.{
  fpga_properties_get_device, fpga_properties_get_function, fpga_properties_get_socket_id,
}
use opae_libs.Props.Common.{
  fpga_properties_get_vendor_id, fpga_properties_get_device_id, fpga_properties_get_guid,
}
use opae_libs.Props.Common.{
  fpga_properties_get_object_id, fpga_properties_get_num_errors, fpga_properties_set_object_type,
}
use opae_libs.Props.Common.{
  fpga_properties_set_segment, fpga_properties_set_bus, fpga_properties_set_device,
}
use opae_libs.Props.Common.{
  fpga_properties_set_function, fpga_properties_set_socket_id, fpga_properties_set_vendor_id,
}
use opae_libs.Props.Common.{
  fpga_properties_set_device_id, fpga_properties_set_guid, fpga_properties_set_object_id,
}
use opae_libs.Props.Common.{fpga_properties_set_num_errors}

field_valid-put_self :
    (f : Field) (p : Properties) (v : Value f) → field_valid (put f p v) (number f) ≡ true
field_valid-put_self f p v =
    ap (λ (x : ℕ). bit x (number f) == 1) (valid_fields-put f p v)
    ∙ field_valid-set_self p (number f)

field_valid-put_ne :
    (f g : Field) (p : Properties) (v : Value f)
    → number f ≢ number g
    → field_valid (put f p v) (number g) ≡ field_valid p (number g)
field_valid-put_ne f g p v h =
    ap (λ (x : ℕ). bit x (number g) == 1) (valid_fields-put f p v)
    ∙ field_valid-set_ne p (number f) (number g) h

-- On a valid object, an accepted value is stored, and reading the field gives it back.
pub get-set :
    (f : Field) (p : Properties) (v : Value f)
    → p.magic ≡ fpga_property_magic
    → accepts f v ≡ true
    → let (res, prop) = set f (some p) v in (res ≡ fpga_ok) × (get f true prop ≡ (fpga_ok, some v))
get-set f p v h a = rw (set-eq f p v h a) (
  refl,
  get-eq f (put f p v) (magic-put f p v ∙ h)
      ∙ rw (field_valid-put_self f p v) (ap (λ x. (fpga_ok, some x)) (value-put_self f p v)),
)

-- Storing an accepted value in one field of a valid object changes no other field, nor whether it
-- is valid.
pub get-set_ne :
    (f g : Field) (p : Properties) (v : Value f)
    → p.magic ≡ fpga_property_magic
    → accepts f v ≡ true
    → number f ≢ number g
    → get g true (set f (some p) v).1 ≡ get g true (some p)
get-set_ne f g p v h a ne = rw (set-eq f p v h a) (
    get-eq g (put f p v) (magic-put f p v ∙ h)
    ∙ rw (field_valid-put_ne f g p v ne, value-put_ne f g p v ne) (sym (get-eq g p h)))

-- A NULL pointer or an object without the magic number is refused by every getter and setter, with
-- nothing written.
pub field_refused :
    (f : Field) (has_out : Bool) (prop : Option Properties) (v : Value f)
    → opae_validate_and_lock_properties prop ≡ none
    → (get f has_out prop ≡ (fpga_invalid_param, none))
      × (set f prop v ≡ (fpga_invalid_param, prop))
unfolding fpga_properties_get_object_type fpga_properties_get_segment fpga_properties_get_bus
    fpga_properties_get_device fpga_properties_get_function fpga_properties_get_socket_id
    fpga_properties_get_vendor_id fpga_properties_get_device_id fpga_properties_get_guid
    fpga_properties_get_object_id fpga_properties_get_num_errors fpga_properties_set_object_type
    fpga_properties_set_segment fpga_properties_set_bus fpga_properties_set_device
    fpga_properties_set_function fpga_properties_set_socket_id fpga_properties_set_vendor_id
    fpga_properties_set_device_id fpga_properties_set_guid fpga_properties_set_object_id
    fpga_properties_set_num_errors
field_refused Field.objtype b prop v h = (get_with-invalid b prop _ h, set_with-invalid prop _ h)
field_refused Field.segment b prop v h = (get_with-invalid b prop _ h, set_with-invalid prop _ h)
field_refused Field.bus b prop v h = (get_with-invalid b prop _ h, set_with-invalid prop _ h)
field_refused Field.device b prop v h = (get_with-invalid b prop _ h, set_with-invalid prop _ h)
field_refused Field.function b prop v h =
    (get_with-invalid b prop _ h, checked (Bool-cases (ltb 7 v)))
  where
    checked :
        (ltb 7 v ≡ true) ⊎ (ltb 7 v ≡ false)
        → fpga_properties_set_function prop v ≡ (fpga_invalid_param, prop)
    checked (inl e) = rw (e, fpga_properties_set_function) refl
    checked (inr e) = rw (e, fpga_properties_set_function) (set_with-invalid prop _ h)
field_refused Field.socket_id b prop v h = (get_with-invalid b prop _ h, set_with-invalid prop _ h)
field_refused Field.vendor_id b prop v h = (get_with-invalid b prop _ h, set_with-invalid prop _ h)
field_refused Field.device_id b prop v h = (get_with-invalid b prop _ h, set_with-invalid prop _ h)
field_refused Field.guid b prop v h = (get_with-invalid b prop _ h, set_with-invalid prop _ h)
field_refused Field.object_id b prop v h = (get_with-invalid b prop _ h, set_with-invalid prop _ h)
field_refused Field.num_errors b prop v h = (get_with-invalid b prop _ h, set_with-invalid prop _ h)
