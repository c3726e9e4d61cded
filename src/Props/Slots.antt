-- ===== src/Props/Slots.antt =====
-- The fields of the union together: the getters, the setters, and their meaning on the object.
pub mod Laws
use opae_libs.Prelude.{
  ℕ, ◌+◌, ◌*◌, ◌/◌, ◌%◌, ◌^◌, Bool, true, false, Option, none, some, ◌≡◌, ◌≢◌, refl,
}
use opae_libs.Prelude.{arith, ◌==◌, if◌then◌else◌, ap, sym, ◌∙◌, ==_iff}
use opae_libs.Prelude.Bits.{bit}
use Prim.Native.Nat.{bit_or}
use opae_libs.Types.{FpgaResult, fpga_ok, fpga_invalid_param, fpga_device, fpga_accelerator}
use opae_libs.Props.{Properties, fpga_property_magic, field_valid, set_field_valid, if_valid}
use opae_libs.Props.Bodies.{
  get_with-valid, set_with-valid, field_valid-set_self, field_valid-set_ne,
}
use opae_libs.Props.Common.{fpga_property_objtype}
use opae_libs.Props.Fields.{Field, number as field_number, get as get_field, get-eq as get_field-eq}
use opae_libs.Props.Fields.{value as field_value}
use opae_libs.Props.Union.{is_object}
use opae_libs.Props.Union.{fpga_property_num_slots, fpga_property_bbs_id, fpga_property_bbs_version}
use opae_libs.Props.Union.{
  fpga_property_accelerator_state, fpga_property_num_mmio, fpga_property_num_interrupts,
}
use opae_libs.Props.Union.{
  fpga_properties_get_num_slots, fpga_properties_get_bbs_id, fpga_properties_get_bbs_version,
}
use opae_libs.Props.Union.{
  fpga_properties_get_accelerator_state, fpga_properties_get_num_mmio,
  fpga_properties_get_num_interrupts,
}
use opae_libs.Props.Union.{
  fpga_properties_set_num_slots, fpga_properties_set_bbs_id, fpga_properties_set_bbs_version,
}
use opae_libs.Props.Union.{
  fpga_properties_set_accelerator_state, fpga_properties_set_num_mmio,
  fpga_properties_set_num_interrupts,
}

pub data Slot : Type 0 where
  num_slots bbs_id bbs_version accelerator_state num_mmio num_interrupts : Slot

abbrev pub number : Slot → ℕ
number num_slots = fpga_property_num_slots
number bbs_id = fpga_property_bbs_id
number bbs_version = fpga_property_bbs_version
number accelerator_state = fpga_property_accelerator_state
number num_mmio = fpga_property_num_mmio
number num_interrupts = fpga_property_num_interrupts

-- The object type that has the field.
abbrev pub kind : Slot → ℕ
kind num_slots = fpga_device
kind bbs_id = fpga_device
kind bbs_version = fpga_device
kind accelerator_state = fpga_accelerator
kind num_mmio = fpga_accelerator
kind num_interrupts = fpga_accelerator

-- The API's getter and setter of a field.
abbrev pub get : Slot → Bool → Option Properties → FpgaResult × Option ℕ
get num_slots = fpga_properties_get_num_slots
get bbs_id = fpga_properties_get_bbs_id
get bbs_version = fpga_properties_get_bbs_version
get accelerator_state = fpga_properties_get_accelerator_state
get num_mmio = fpga_properties_get_num_mmio
get num_interrupts = fpga_properties_get_num_interrupts

abbrev pub set : Slot → Option Properties → ℕ → FpgaResult × Option Properties
set num_slots = fpga_properties_set_num_slots
set bbs_id = fpga_properties_set_bbs_id
set bbs_version = fpga_properties_set_bbs_version
set accelerator_state = fpga_properties_set_accelerator_state
set num_mmio = fpga_properties_set_num_mmio
set num_interrupts = fpga_properties_set_num_interrupts

unfoldable pub value : Slot → Properties → ℕ
value num_slots p = p.word0
value bbs_id p = p.word2 + 2 ^ 32 * p.word3
value bbs_version p = p.word4
value accelerator_state p = p.word0
value num_mmio p = p.word1
value num_interrupts p = p.word2

unfoldable pub put : Slot → Properties → ℕ → Properties
put num_slots p v = record (set_field_valid p fpga_property_num_slots) { word0 = v }
put bbs_id p v = record (set_field_valid p fpga_property_bbs_id) {
  word2 = v % 2 ^ 32;
  word3 = v / 2 ^ 32;
}
put bbs_version p v = record (set_field_valid p fpga_property_bbs_version) { word4 = v }
put accelerator_state p v = record (set_field_valid p fpga_property_accelerator_state) { word0 = v }
put num_mmio p v = record (set_field_valid p fpga_property_num_mmio) { word1 = v }
put num_interrupts p v = record (set_field_valid p fpga_property_num_interrupts) { word2 = v }

pub get-eq :
    (s : Slot) (p : Properties)
    → p.magic ≡ fpga_property_magic
    → get s true (some p) ≡ (
        if is_object p (kind s)
        then if_valid p (number s) (value s p)
        else (fpga_invalid_param, none))
unfolding value fpga_properties_get_num_slots fpga_properties_get_bbs_id
    fpga_properties_get_bbs_version fpga_properties_get_accelerator_state
    fpga_properties_get_num_mmio fpga_properties_get_num_interrupts
get-eq num_slots p h = get_with-valid p _ h
get-eq bbs_id p h = get_with-valid p _ h
get-eq bbs_version p h = get_with-valid p _ h
get-eq accelerator_state p h = get_with-valid p _ h
get-eq num_mmio p h = get_with-valid p _ h
get-eq num_interrupts p h = get_with-valid p _ h

pub set-eq :
    (s : Slot) (p : Properties) (v : ℕ)
    → p.magic ≡ fpga_property_magic
    → is_object p (kind s) ≡ true
    → set s (some p) v ≡ (fpga_ok, some (put s p v))
unfolding put fpga_properties_set_num_slots fpga_properties_set_bbs_id
    fpga_properties_set_bbs_version fpga_properties_set_accelerator_state
    fpga_properties_set_num_mmio fpga_properties_set_num_interrupts
set-eq num_slots p v h k = set_with-valid p _ h ∙ rw k refl
set-eq bbs_id p v h k = set_with-valid p _ h ∙ rw k refl
set-eq bbs_version p v h k = set_with-valid p _ h ∙ rw k refl
set-eq accelerator_state p v h k = set_with-valid p _ h ∙ rw k refl
set-eq num_mmio p v h k = set_with-valid p _ h ∙ rw k refl
set-eq num_interrupts p v h k = set_with-valid p _ h ∙ rw k refl

set-refused :
    (s : Slot) (p : Properties) (v : ℕ)
    → p.magic ≡ fpga_property_magic
    → is_object p (kind s) ≡ false
    → set s (some p) v ≡ (fpga_invalid_param, some p)
unfolding fpga_properties_set_num_slots fpga_properties_set_bbs_id fpga_properties_set_bbs_version
    fpga_properties_set_accelerator_state fpga_properties_set_num_mmio
    fpga_properties_set_num_interrupts
set-refused num_slots p v h k = set_with-valid p _ h ∙ rw k refl
set-refused bbs_id p v h k = set_with-valid p _ h ∙ rw k refl
set-refused bbs_version p v h k = set_with-valid p _ h ∙ rw k refl
set-refused accelerator_state p v h k = set_with-valid p _ h ∙ rw k refl
set-refused num_mmio p v h k = set_with-valid p _ h ∙ rw k refl
set-refused num_interrupts p v h k = set_with-valid p _ h ∙ rw k refl

valid_fields-put :
    (s : Slot) (p : Properties) (v : ℕ)
    → (put s p v).valid_fields ≡ bit_or p.valid_fields (2 ^ number s)
unfolding put
valid_fields-put num_slots p v = refl
valid_fields-put bbs_id p v = refl
valid_fields-put bbs_version p v = refl
valid_fields-put accelerator_state p v = refl
valid_fields-put num_mmio p v = refl
valid_fields-put num_interrupts p v = refl

magic-put : (s : Slot) (p : Properties) (v : ℕ) → (put s p v).magic ≡ p.magic
unfolding put
magic-put num_slots p v = refl
magic-put bbs_id p v = refl
magic-put bbs_version p v = refl
magic-put accelerator_state p v = refl
magic-put num_mmio p v = refl
magic-put num_interrupts p v = refl

objtype-put : (s : Slot) (p : Properties) (v : ℕ) → (put s p v).objtype ≡ p.objtype
unfolding put
objtype-put num_slots p v = refl
objtype-put bbs_id p v = refl
objtype-put bbs_version p v = refl
objtype-put accelerator_state p v = refl
objtype-put num_mmio p v = refl
objtype-put num_interrupts p v = refl

value-put_self : (s : Slot) (p : Properties) (v : ℕ) → value s (put s p v) ≡ v
unfolding put value
value-put_self num_slots p v = refl
value-put_self bbs_id p v = omega arith
value-put_self bbs_version p v = refl
value-put_self accelerator_state p v = refl
value-put_self num_mmio p v = refl
value-put_self num_interrupts p v = refl

-- Two fields of one object type do not overlap in the union.
value-put_ne :
    (s t : Slot) (p : Properties) (v : ℕ)
    → kind s ≡ kind t
    → number s ≢ number t
    → value t (put s p v) ≡ value t p
unfolding put value
value-put_ne num_slots num_slots p v k h = absurd (h refl)
value-put_ne num_slots bbs_id p v k h = refl
value-put_ne num_slots bbs_version p v k h = refl
value-put_ne num_slots accelerator_state p v k h = absurd (omega arith)
value-put_ne num_slots num_mmio p v k h = absurd (omega arith)
value-put_ne num_slots num_interrupts p v k h = absurd (omega arith)
value-put_ne bbs_id num_slots p v k h = refl
value-put_ne bbs_id bbs_id p v k h = absurd (h refl)
value-put_ne bbs_id bbs_version p v k h = refl
value-put_ne bbs_id accelerator_state p v k h = absurd (omega arith)
value-put_ne bbs_id num_mmio p v k h = absurd (omega arith)
value-put_ne bbs_id num_interrupts p v k h = absurd (omega arith)
value-put_ne bbs_version num_slots p v k h = refl
value-put_ne bbs_version bbs_id p v k h = refl
value-put_ne bbs_version bbs_version p v k h = absurd (h refl)
value-put_ne bbs_version accelerator_state p v k h = absurd (omega arith)
value-put_ne bbs_version num_mmio p v k h = absurd (omega arith)
value-put_ne bbs_version num_interrupts p v k h = absurd (omega arith)
value-put_ne accelerator_state num_slots p v k h = absurd (omega arith)
value-put_ne accelerator_state bbs_id p v k h = absurd (omega arith)
value-put_ne accelerator_state bbs_version p v k h = absurd (omega arith)
value-put_ne accelerator_state accelerator_state p v k h = absurd (h refl)
value-put_ne accelerator_state num_mmio p v k h = refl
value-put_ne accelerator_state num_interrupts p v k h = refl
value-put_ne num_mmio num_slots p v k h = absurd (omega arith)
value-put_ne num_mmio bbs_id p v k h = absurd (omega arith)
value-put_ne num_mmio bbs_version p v k h = absurd (omega arith)
value-put_ne num_mmio accelerator_state p v k h = refl
value-put_ne num_mmio num_mmio p v k h = absurd (h refl)
value-put_ne num_mmio num_interrupts p v k h = refl
value-put_ne num_interrupts num_slots p v k h = absurd (omega arith)
value-put_ne num_interrupts bbs_id p v k h = absurd (omega arith)
value-put_ne num_interrupts bbs_version p v k h = absurd (omega arith)
value-put_ne num_interrupts accelerator_state p v k h = refl
value-put_ne num_interrupts num_mmio p v k h = refl
value-put_ne num_interrupts num_interrupts p v k h = absurd (h refl)

-- The bit of a field of the union is none of the common ones.
number-ne-common : (s : Slot) (f : Field) → number s ≢ field_number f
number-ne-common num_slots Field.objtype h = omega arith
number-ne-common num_slots _ h = omega arith
number-ne-common bbs_id Field.objtype h = omega arith
number-ne-common bbs_id _ h = omega arith
number-ne-common bbs_version Field.objtype h = omega arith
number-ne-common bbs_version _ h = omega arith
number-ne-common accelerator_state Field.objtype h = omega arith
number-ne-common accelerator_state _ h = omega arith
number-ne-common num_mmio Field.objtype h = omega arith
number-ne-common num_mmio _ h = omega arith
number-ne-common num_interrupts Field.objtype h = omega arith
number-ne-common num_interrupts _ h = omega arith

common-put :
    (s : Slot) (f : Field) (p : Properties) (v : ℕ) → field_value f (put s p v) ≡ field_value f p
unfolding put field_value
common-put num_slots Field.objtype p v = refl
common-put num_slots _ p v = refl
common-put bbs_id Field.objtype p v = refl
common-put bbs_id _ p v = refl
common-put bbs_version Field.objtype p v = refl
common-put bbs_version _ p v = refl
common-put accelerator_state Field.objtype p v = refl
common-put accelerator_state _ p v = refl
common-put num_mmio Field.objtype p v = refl
common-put num_mmio _ p v = refl
common-put num_interrupts Field.objtype p v = refl
common-put num_interrupts _ p v = refl
