-- ===== src/Props/Union.antt =====
-- The getters and setters of props.c for the properties in the union, which are for devices or for
-- accelerators only, and those that are not supported.
use opae_libs.Prelude.{ℕ, ◌+◌, ◌*◌, ◌/◌, ◌%◌, ◌^◌, Bool, ◌&&◌, Option, none, ◌==◌, if◌then◌else◌}
use opae_libs.Types.{FpgaResult, fpga_ok, fpga_invalid_param, fpga_not_supported, fpga_device}
use opae_libs.Types.{fpga_accelerator}
use opae_libs.Props.{Properties, field_valid, set_field_valid, get_with, if_valid, set_with}
use opae_libs.Props.Common.{fpga_property_objtype}

-- The bits of the fields of devices, and of accelerators: the same bits.
abbrev pub fpga_property_num_slots : ℕ
fpga_property_num_slots = 32

abbrev pub fpga_property_bbs_id : ℕ
fpga_property_bbs_id = 33

abbrev pub fpga_property_bbs_version : ℕ
fpga_property_bbs_version = 34

abbrev pub fpga_property_accelerator_state : ℕ
fpga_property_accelerator_state = 32

abbrev pub fpga_property_num_mmio : ℕ
fpga_property_num_mmio = 33

abbrev pub fpga_property_num_interrupts : ℕ
fpga_property_num_interrupts = 34

-- The object type is valid and is the one asked for.
abbrev pub is_object : Properties → ℕ → Bool
is_object p kind = field_valid p fpga_property_objtype && (kind == p.objtype)

unfoldable pub fpga_properties_get_num_slots : Bool → Option Properties → FpgaResult × Option ℕ
fpga_properties_get_num_slots has_out prop = get_with has_out prop (λ p.
    if is_object p fpga_device
    then if_valid p fpga_property_num_slots p.word0
    else (fpga_invalid_param, none))

unfoldable pub fpga_properties_set_num_slots :
    Option Properties → ℕ → FpgaResult × Option Properties
fpga_properties_set_num_slots prop num_slots = set_with prop (λ p.
    if is_object p fpga_device
    then (fpga_ok, record (set_field_valid p fpga_property_num_slots) { word0 = num_slots })
    else (fpga_invalid_param, p))

unfoldable pub fpga_properties_get_bbs_id : Bool → Option Properties → FpgaResult × Option ℕ
fpga_properties_get_bbs_id has_out prop = get_with has_out prop (λ p.
    if is_object p fpga_device
    then if_valid p fpga_property_bbs_id (p.word2 + 2 ^ 32 * p.word3)
    else (fpga_invalid_param, none))

unfoldable pub fpga_properties_set_bbs_id : Option Properties → ℕ → FpgaResult × Option Properties
fpga_properties_set_bbs_id prop bbs_id = set_with prop (λ p.
    if is_object p fpga_device
    then (
      fpga_ok,
      record (set_field_valid p fpga_property_bbs_id) {
        word2 = bbs_id % 2 ^ 32;
        word3 = bbs_id / 2 ^ 32;
      },
    )
    else (fpga_invalid_param, p))

unfoldable pub fpga_properties_get_bbs_version : Bool → Option Properties → FpgaResult × Option ℕ
fpga_properties_get_bbs_version has_out prop = get_with has_out prop (λ p.
    if is_object p fpga_device
    then if_valid p fpga_property_bbs_version p.word4
    else (fpga_invalid_param, none))

unfoldable pub fpga_properties_set_bbs_version :
    Option Properties → ℕ → FpgaResult × Option Properties
fpga_properties_set_bbs_version prop bbs_version = set_with prop (λ p.
    if is_object p fpga_device
    then (fpga_ok, record (set_field_valid p fpga_property_bbs_version) { word4 = bbs_version })
    else (fpga_invalid_param, p))

unfoldable pub fpga_properties_get_accelerator_state :
    Bool → Option Properties → FpgaResult × Option ℕ
fpga_properties_get_accelerator_state has_out prop = get_with has_out prop (λ p.
    if is_object p fpga_accelerator
    then if_valid p fpga_property_accelerator_state p.word0
    else (fpga_invalid_param, none))

unfoldable pub fpga_properties_set_accelerator_state :
    Option Properties → ℕ → FpgaResult × Option Properties
fpga_properties_set_accelerator_state prop accelerator_state = set_with prop (λ p.
    if is_object p fpga_accelerator
    then (
      fpga_ok,
      record (set_field_valid p fpga_property_accelerator_state) { word0 = accelerator_state },
    )
    else (fpga_invalid_param, p))

unfoldable pub fpga_properties_get_num_mmio : Bool → Option Properties → FpgaResult × Option ℕ
fpga_properties_get_num_mmio has_out prop = get_with has_out prop (λ p.
    if is_object p fpga_accelerator
    then if_valid p fpga_property_num_mmio p.word1
    else (fpga_invalid_param, none))

unfoldable pub fpga_properties_set_num_mmio : Option Properties → ℕ → FpgaResult × Option Properties
fpga_properties_set_num_mmio prop num_mmio = set_with prop (λ p.
    if is_object p fpga_accelerator
    then (fpga_ok, record (set_field_valid p fpga_property_num_mmio) { word1 = num_mmio })
    else (fpga_invalid_param, p))

unfoldable pub fpga_properties_get_num_interrupts : Bool → Option Properties → FpgaResult × Option ℕ
fpga_properties_get_num_interrupts has_out prop = get_with has_out prop (λ p.
    if is_object p fpga_accelerator
    then if_valid p fpga_property_num_interrupts p.word2
    else (fpga_invalid_param, none))

unfoldable pub fpga_properties_set_num_interrupts :
    Option Properties → ℕ → FpgaResult × Option Properties
fpga_properties_set_num_interrupts prop num_interrupts = set_with prop (λ p.
    if is_object p fpga_accelerator
    then (
      fpga_ok,
      record (set_field_valid p fpga_property_num_interrupts) { word2 = num_interrupts },
    )
    else (fpga_invalid_param, p))

-- The model, the size of the local memory and the capabilities: nothing is looked at.
unfoldable pub fpga_properties_unsupported : Option Properties → FpgaResult × Option Properties
fpga_properties_unsupported prop = (fpga_not_supported, prop)
