-- ===== src/Props/Alias.antt =====
-- The fields of devices and of accelerators share their bits in `valid_fields` and their memory.
use opae_libs.Prelude.{ℕ, true, some, ◌≡◌, refl, arith, ◌∙◌}
use opae_libs.Types.{fpga_ok, fpga_device, fpga_accelerator}
use opae_libs.Props.{Properties, fpga_property_magic}
use opae_libs.Props.Bodies.{field_valid-set_self, field_valid-set_ne}
use opae_libs.Props.Common.{fpga_property_objtype, fpga_properties_set_object_type}
use opae_libs.Props.Fields
use opae_libs.Props.Fields.{Field}
use opae_libs.Props.Union.{is_object, fpga_property_num_slots, fpga_properties_set_num_slots}
use opae_libs.Props.Union.{fpga_properties_get_accelerator_state}
use opae_libs.Props.Slots
use opae_libs.Props.Slots.{Slot}

-- After the number of slots of a valid object that is a device is set and the object is made an
-- accelerator, its accelerator state reads as valid, and is the number of slots.
pub num_slots-read-state :
    (p : Properties) (n : ℕ)
    → p.magic ≡ fpga_property_magic
    → is_object p fpga_device ≡ true
    → fpga_properties_get_accelerator_state true
        (fpga_properties_set_object_type
          (fpga_properties_set_num_slots (some p) n).1
          fpga_accelerator).1
      ≡ (fpga_ok, some n)
unfolding Fields.put Slots.put Slots.value
num_slots-read-state p n h k =
    let q : Properties = Slots.put Slot.num_slots p n in
    let r : Properties = Fields.put Field.objtype q fpga_accelerator in
    rw (Slots.set-eq Slot.num_slots p n h k, Fields.set-eq Field.objtype q fpga_accelerator h refl)
      (Slots.get-eq Slot.accelerator_state r h
        ∙ rw
            (
              field_valid-set_self q fpga_property_objtype,
              field_valid-set_ne q fpga_property_objtype fpga_property_num_slots (omega arith),
              field_valid-set_self p fpga_property_num_slots,
            )
            refl)
