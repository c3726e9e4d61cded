-- ===== src/VfioPlugin/Update.antt =====
-- What plugins/vfio/opae_vfio.c writes into a property object.
pub mod Getters
use opae_libs.Prelude.{
  ℕ, zero, suc, ◌+◌, ◌-◌, ◌*◌, ◌/◌, ◌%◌, ◌^◌, ◌<◌, Bool, true, false, ◌&&◌, ◌||◌, Option, none,
  some, List, [], ◌∷◌, ◌++◌, ◌==◌, ==_iff, if◌then◌else◌,
}
use opae_libs.Prelude.{◌≡◌, ◌≢◌, refl, sym, ap, ◌∙◌, arith, inl, inr, Bool-cases}
use opae_libs.Types.{
  FpgaResult, fpga_ok, fpga_invalid_param, fpga_exception, fpga_device, fpga_accelerator,
}
use opae_libs.Props.{
  Properties, fpga_property_magic, field_valid, set_field_valid, get_with, if_valid,
}
use opae_libs.Props.Common.{
  fpga_property_objtype, fpga_property_segment, fpga_property_bus, fpga_property_device,
  fpga_property_function, fpga_property_socket_id, fpga_property_vendor_id, fpga_property_device_id,
  fpga_property_guid, fpga_property_object_id,
}
use opae_libs.Props.Common.{
  fpga_properties_get_object_type, fpga_properties_get_guid, fpga_properties_get_object_id,
}
use opae_libs.Props.Union.{
  is_object, fpga_property_num_slots, fpga_property_bbs_id, fpga_property_bbs_version,
  fpga_property_num_mmio,
}
use opae_libs.Props.Union.{
  fpga_properties_get_num_slots, fpga_properties_get_bbs_id, fpga_properties_get_bbs_version,
  fpga_properties_get_num_mmio,
}
use opae_libs.Props.Bodies.{get_with-valid, field_valid-set_self, field_valid-set_ne}
use opae_libs.Props.Parent.{fpga_property_parent}
use opae_libs.Prelude.Bits.{bit}
use opae_libs.VfioPlugin.{VfioToken}

-- Of the device of a token, what is written.
pub record PciInfo : Type 0 where
  pub vendor : ℕ
  pub pci_device : ℕ
  pub segment : ℕ
  pub bus : ℕ
  pub device : ℕ
  pub function : ℕ
  pub numa_node : ℕ

-- The union `bdf_t` as its 32-bit word.
abbrev pub bdf : PciInfo → ℕ
bdf i = i.segment + 2 ^ 16 * i.bus + 2 ^ 24 * i.device + 2 ^ 29 * i.function

-- The bytes of so many bytes of a word, the lowest first.
abbrev pub bytes : ℕ → ℕ → List ℕ
bytes zero w = []
bytes (suc n) w = w % 2 ^ 8 ∷ bytes n (w / 2 ^ 8)

abbrev pub guid_bytes : ℕ × ℕ → List ℕ
guid_bytes (a, b) = bytes 8 a ++ bytes 8 b

-- FPGA_BBS_VER_MAJOR, FPGA_BBS_VER_MINOR and FPGA_BBS_VER_PATCH.
abbrev pub bbs_ver_major : ℕ → ℕ
bbs_ver_major i = i / 2 ^ 56 % 2 ^ 4

abbrev pub bbs_ver_minor : ℕ → ℕ
bbs_ver_minor i = i / 2 ^ 52 % 2 ^ 4

abbrev pub bbs_ver_patch : ℕ → ℕ
bbs_ver_patch i = i / 2 ^ 48 % 2 ^ 4

-- Writes to the members `major` and `minor` of a `fpga_version` in its word.
abbrev pub with_major : ℕ → ℕ → ℕ
with_major v w = w / 2 ^ 8 * 2 ^ 8 + v

abbrev pub with_minor : ℕ → ℕ → ℕ
with_minor v w = w / 2 ^ 16 * 2 ^ 16 + v * 2 ^ 8 + w % 2 ^ 8

-- SET_FIELD_VALID of several fields, and CLEAR_FIELD_VALID of the first one.
abbrev pub set_fields_valid : List ℕ → Properties → Properties
set_fields_valid [] p = p
set_fields_valid (f ∷ fs) p = set_fields_valid fs (set_field_valid p f)

abbrev pub clear_parent_valid : Properties → Properties
clear_parent_valid p = record p { valid_fields = p.valid_fields / 2 * 2 }

abbrev pub common_fields : List ℕ
common_fields =
    fpga_property_vendor_id ∷ fpga_property_device_id ∷ fpga_property_segment ∷ fpga_property_bus
    ∷ fpga_property_device ∷ fpga_property_function ∷ fpga_property_socket_id
    ∷ fpga_property_object_id ∷ fpga_property_objtype ∷ []

abbrev pub update_common : PciInfo → VfioToken → Properties → Properties
update_common i t p = record (set_fields_valid common_fields p) {
  vendor_id = i.vendor % 2 ^ 16;
  device_id = i.pci_device % 2 ^ 16;
  segment = i.segment;
  bus = i.bus;
  device = i.device;
  function = i.function;
  socket_id = i.numa_node % 2 ^ 8;
  object_id = bdf i * 2 ^ 32 + t.region;
  objtype = t.objtype;
}

-- The Boolean is whether the token is an accelerator. The major version is written twice.
abbrev pub update_kind : VfioToken → Bool → Properties → Properties
update_kind t true p =
    record (set_fields_valid (fpga_property_guid ∷ fpga_property_num_mmio ∷ [])
      (clear_parent_valid p)) { parent = 0; guid = guid_bytes t.guid; word1 = t.user_mmio_count }
update_kind t false p =
    record (set_fields_valid
      (fpga_property_guid ∷ fpga_property_bbs_id ∷ fpga_property_bbs_version
        ∷ fpga_property_num_slots ∷ [])
      p) {
        guid = guid_bytes t.compat_id;
        word0 = t.num_ports;
        word2 = t.bitstream_id % 2 ^ 32;
        word3 = t.bitstream_id / 2 ^ 32;
        word4 = with_major (bbs_ver_patch t.bitstream_id) (
            with_minor (bbs_ver_minor t.bitstream_id)
              (with_major (bbs_ver_major t.bitstream_id) p.word4));
      }

-- A token that is NULL or has not the magic number is none.
unfoldable pub vfio_fpga_update_properties :
    PciInfo → Option VfioToken → Option Properties → FpgaResult × Option Properties
vfio_fpga_update_properties i none prop = (fpga_invalid_param, prop)
vfio_fpga_update_properties i (some t) none = (fpga_exception, none)
vfio_fpga_update_properties i (some t) (some p) =
    if p.magic == fpga_property_magic
    then (fpga_ok, some (update_kind t (t.objtype == fpga_accelerator) (update_common i t p)))
    else (fpga_invalid_param, some p)
