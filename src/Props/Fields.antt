-- ===== src/Props/Fields.antt =====
-- The common fields together: the getters, the setters, and their meaning on the object.
pub mod Laws
use opae_libs.Prelude.{ℕ, ◌≤◌, Bool, true, false, Option, none, some, List, ◌≡◌, ◌≢◌, refl, arith}
use opae_libs.Prelude.{
  ltb, ◌==◌, if◌then◌else◌, max, ◌^◌, ==_iff, Bool-cases, inl, inr, ◌⊎◌, ◌∙◌, ap, sym,
}
use opae_libs.Prelude.Bits.{bit, bit-bit_or, bit-pow_self, bit-pow_ne, bit-le}
use Prim.Native.Nat.{bit_or}
use opae_libs.Types.{FpgaResult, fpga_ok, fpga_invalid_param, fpga_not_found}
use opae_libs.Props.{Properties, fpga_property_magic, field_valid, set_field_valid, if_valid}
use opae_libs.Props.{opae_validate_and_lock_properties}
use opae_libs.Props.Bodies.{get_with-valid, set_with-valid, get_with-invalid, set_with-invalid}
use opae_libs.Props.Bodies.{field_valid-set_self, field_valid-set_ne}
use opae_libs.Props.Common.{fpga_property_objtype, fpga_property_segment, fpga_property_bus}
use opae_libs.Props.Common.{fpga_property_device, fpga_property_function, fpga_property_socket_id}
use opae_libs.Props.Common.{fpga_property_vendor_id, fpga_property_device_id, fpga_property_guid}
use opae_libs.Props.Common.{
  fpga_property_object_id, fpga_property_num_errors, fpga_properties_get_object_type,
}
use opae_libs.Props.Common.{
  fpga_properties_get_segment, fpga_properties_get_bus, fpga_properties_get_device,
}
use opae_libs.Props.Common.{
  fpga_properties_get_function, fpga_properties_get_socket_id, fpga_properties_get_vendor_id,
}
use opae_libs.Props.Common.{
  fpga_properties_get_device_id, fpga_properties_get_guid, fpga_properties_get_object_id,
}
use opae_libs.Props.Common.{
  fpga_properties_get_num_errors, fpga_properties_set_object_type, fpga_properties_set_segment,
}
use opae_libs.Props.Common.{
  fpga_properties_set_bus, fpga_properties_set_device, fpga_properties_set_function,
}
use opae_libs.Props.Common.{
  fpga_properties_set_socket_id, fpga_properties_set_vendor_id, fpga_properties_set_device_id,
}
use opae_libs.Props.Common.{
  fpga_properties_set_guid, fpga_properties_set_object_id, fpga_properties_set_num_errors,
}

pub data Field : Type 0 where
  objtype segment bus device function socket_id : Field
  vendor_id device_id guid object_id num_errors : Field

abbrev pub Value : Field → Type 0
Value guid = List ℕ
Value _ = ℕ

abbrev pub number : Field → ℕ
number objtype = fpga_property_objtype
number segment = fpga_property_segment
number bus = fpga_property_bus
number device = fpga_property_device
number function = fpga_property_function
number socket_id = fpga_property_socket_id
number vendor_id = fpga_property_vendor_id
number device_id = fpga_property_device_id
number guid = fpga_property_guid
number object_id = fpga_property_object_id
number num_errors = fpga_property_num_errors

-- The API's getter and setter of a field.
abbrev pub get : (f : Field) → Bool → Option Properties → FpgaResult × Option (Value f)
get objtype = fpga_properties_get_object_type
get segment = fpga_properties_get_segment
get bus = fpga_properties_get_bus
get device = fpga_properties_get_device
get function = fpga_properties_get_function
get socket_id = fpga_properties_get_socket_id
get vendor_id = fpga_properties_get_vendor_id
get device_id = fpga_properties_get_device_id
get guid = fpga_properties_get_guid
get object_id = fpga_properties_get_object_id
get num_errors = fpga_properties_get_num_errors

abbrev pub set : (f : Field) → Option Properties → Value f → FpgaResult × Option Properties
set objtype = fpga_properties_set_object_type
set segment = fpga_properties_set_segment
set bus = fpga_properties_set_bus
set device = fpga_properties_set_device
set function = fpga_properties_set_function
set socket_id = fpga_properties_set_socket_id
set vendor_id = fpga_properties_set_vendor_id
set device_id = fpga_properties_set_device_id
set guid = fpga_properties_set_guid
set object_id = fpga_properties_set_object_id
set num_errors = fpga_properties_set_num_errors

-- Only the function number is checked.
abbrev pub accepts : (f : Field) → Value f → Bool
accepts function v = if ltb 7 v then false else true
accepts _ v = true

unfoldable pub value : (f : Field) → Properties → Value f
value objtype p = p.objtype
value segment p = p.segment
value bus p = p.bus
value device p = p.device
value function p = p.function
value socket_id p = p.socket_id
value vendor_id p = p.vendor_id
value device_id p = p.device_id
value guid p = p.guid
value object_id p = p.object_id
value num_errors p = p.num_errors

unfoldable pub put : (f : Field) → Properties → Value f → Properties
put objtype p v = record (set_field_valid p fpga_property_objtype) { objtype = v }
put segment p v = record (set_field_valid p fpga_property_segment) { segment = v }
put bus p v = record (set_field_valid p fpga_property_bus) { bus = v }
put device p v = record (set_field_valid p fpga_property_device) { device = v }
put function p v = record (set_field_valid p fpga_property_function) { function = v }
put socket_id p v = record (set_field_valid p fpga_property_socket_id) { socket_id = v }
put vendor_id p v = record (set_field_valid p fpga_property_vendor_id) { vendor_id = v }
put device_id p v = record (set_field_valid p fpga_property_device_id) { device_id = v }
put guid p v = record (set_field_valid p fpga_property_guid) { guid = v }
put object_id p v = record (set_field_valid p fpga_property_object_id) { object_id = v }
put num_errors p v = record (set_field_valid p fpga_property_num_errors) { num_errors = v }

pub get-eq :
    (f : Field) (p : Properties)
    → p.magic ≡ fpga_property_magic
    → get f true (some p) ≡ if_valid p (number f) (value f p)
unfolding value fpga_properties_get_object_type fpga_properties_get_segment fpga_properties_get_bus
    fpga_properties_get_device fpga_properties_get_function fpga_properties_get_socket_id
    fpga_properties_get_vendor_id fpga_properties_get_device_id fpga_properties_get_guid
    fpga_properties_get_object_id fpga_properties_get_num_errors
get-eq objtype p h = get_with-valid p _ h
get-eq segment p h = get_with-valid p _ h
get-eq bus p h = get_with-valid p _ h
get-eq device p h = get_with-valid p _ h
get-eq function p h = get_with-valid p _ h
get-eq socket_id p h = get_with-valid p _ h
get-eq vendor_id p h = get_with-valid p _ h
get-eq device_id p h = get_with-valid p _ h
get-eq guid p h = get_with-valid p _ h
get-eq object_id p h = get_with-valid p _ h
get-eq num_errors p h = get_with-valid p _ h

pub set-eq :
    (f : Field) (p : Properties) (v : Value f)
    → p.magic ≡ fpga_property_magic
    → accepts f v ≡ true
    → set f (some p) v ≡ (fpga_ok, some (put f p v))
unfolding put fpga_properties_set_object_type fpga_properties_set_segment fpga_properties_set_bus
    fpga_properties_set_device fpga_properties_set_function fpga_properties_set_socket_id
    fpga_properties_set_vendor_id fpga_properties_set_device_id fpga_properties_set_guid
    fpga_properties_set_object_id fpga_properties_set_num_errors
set-eq objtype p v h a = set_with-valid p _ h
set-eq segment p v h a = set_with-valid p _ h
set-eq bus p v h a = set_with-valid p _ h
set-eq device p v h a = set_with-valid p _ h
set-eq function p v h a =
    let small : ltb 7 v ≡ false = ground arith in
    rw (small, fpga_properties_set_function) (set_with-valid p _ h)
set-eq socket_id p v h a = set_with-valid p _ h
set-eq vendor_id p v h a = set_with-valid p _ h
set-eq device_id p v h a = set_with-valid p _ h
set-eq guid p v h a = set_with-valid p _ h
set-eq object_id p v h a = set_with-valid p _ h
set-eq num_errors p v h a = set_with-valid p _ h

valid_fields-put :
    (f : Field) (p : Properties) (v : Value f)
    → (put f p v).valid_fields ≡ bit_or p.valid_fields (2 ^ number f)
unfolding put
valid_fields-put objtype p v = refl
valid_fields-put segment p v = refl
valid_fields-put bus p v = refl
valid_fields-put device p v = refl
valid_fields-put function p v = refl
valid_fields-put socket_id p v = refl
valid_fields-put vendor_id p v = refl
valid_fields-put device_id p v = refl
valid_fields-put guid p v = refl
valid_fields-put object_id p v = refl
valid_fields-put num_errors p v = refl

magic-put : (f : Field) (p : Properties) (v : Value f) → (put f p v).magic ≡ p.magic
unfolding put
magic-put objtype p v = refl
magic-put segment p v = refl
magic-put bus p v = refl
magic-put device p v = refl
magic-put function p v = refl
magic-put socket_id p v = refl
magic-put vendor_id p v = refl
magic-put device_id p v = refl
magic-put guid p v = refl
magic-put object_id p v = refl
magic-put num_errors p v = refl

value-put_self : (f : Field) (p : Properties) (v : Value f) → value f (put f p v) ≡ v
unfolding put value
value-put_self objtype p v = refl
value-put_self segment p v = refl
value-put_self bus p v = refl
value-put_self device p v = refl
value-put_self function p v = refl
value-put_self socket_id p v = refl
value-put_self vendor_id p v = refl
value-put_self device_id p v = refl
value-put_self guid p v = refl
value-put_self object_id p v = refl
value-put_self num_errors p v = refl

value-put_ne :
    (f g : Field) (p : Properties) (v : Value f)
    → number f ≢ number g
    → value g (put f p v) ≡ value g p
unfolding put value
value-put_ne objtype objtype p v h = absurd (h refl)
value-put_ne segment segment p v h = absurd (h refl)
value-put_ne bus bus p v h = absurd (h refl)
value-put_ne device device p v h = absurd (h refl)
value-put_ne function function p v h = absurd (h refl)
value-put_ne socket_id socket_id p v h = absurd (h refl)
value-put_ne vendor_id vendor_id p v h = absurd (h refl)
value-put_ne device_id device_id p v h = absurd (h refl)
value-put_ne guid guid p v h = absurd (h refl)
value-put_ne object_id object_id p v h = absurd (h refl)
value-put_ne num_errors num_errors p v h = absurd (h refl)
value-put_ne _ _ p v h = refl
