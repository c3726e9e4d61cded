-- ===== src/Props/Common.antt =====
-- The getters and setters of props.c for the properties that every object has.
use opae_libs.Prelude.{ℕ, Bool, Option, List, ltb, if◌then◌else◌}
use opae_libs.Types.{FpgaResult, fpga_ok, fpga_invalid_param}
use opae_libs.Props.{Properties, set_field_valid, get_with, if_valid, set_with}

-- The bits of the common fields.
abbrev pub fpga_property_objtype : ℕ
fpga_property_objtype = 1

abbrev pub fpga_property_segment : ℕ
fpga_property_segment = 2

abbrev pub fpga_property_bus : ℕ
fpga_property_bus = 3

abbrev pub fpga_property_device : ℕ
fpga_property_device = 4

abbrev pub fpga_property_function : ℕ
fpga_property_function = 5

abbrev pub fpga_property_socket_id : ℕ
fpga_property_socket_id = 6

abbrev pub fpga_property_vendor_id : ℕ
fpga_property_vendor_id = 7

abbrev pub fpga_property_device_id : ℕ
fpga_property_device_id = 8

abbrev pub fpga_property_guid : ℕ
fpga_property_guid = 9

abbrev pub fpga_property_object_id : ℕ
fpga_property_object_id = 10

abbrev pub fpga_property_num_errors : ℕ
fpga_property_num_errors = 11

unfoldable pub fpga_properties_get_object_type : Bool → Option Properties → FpgaResult × Option ℕ
fpga_properties_get_object_type has_out prop =
    get_with has_out prop (λ p. if_valid p fpga_property_objtype p.objtype)

unfoldable pub fpga_properties_set_object_type :
    Option Properties → ℕ → FpgaResult × Option Properties
fpga_properties_set_object_type prop objtype =
    set_with prop
      (λ p. (fpga_ok, record (set_field_valid p fpga_property_objtype) { objtype = objtype }))

unfoldable pub fpga_properties_get_segment : Bool → Option Properties → FpgaResult × Option ℕ
fpga_properties_get_segment has_out prop =
    get_with has_out prop (λ p. if_valid p fpga_property_segment p.segment)

unfoldable pub fpga_properties_set_segment : Option Properties → ℕ → FpgaResult × Option Properties
fpga_properties_set_segment prop segment =
    set_with prop
      (λ p. (fpga_ok, record (set_field_valid p fpga_property_segment) { segment = segment }))

unfoldable pub fpga_properties_get_bus : Bool → Option Properties → FpgaResult × Option ℕ
fpga_properties_get_bus has_out prop =
    get_with has_out prop (λ p. if_valid p fpga_property_bus p.bus)

unfoldable pub fpga_properties_set_bus : Option Properties → ℕ → FpgaResult × Option Properties
fpga_properties_set_bus prop bus =
    set_with prop (λ p. (fpga_ok, record (set_field_valid p fpga_property_bus) { bus = bus }))

unfoldable pub fpga_properties_get_device : Bool → Option Properties → FpgaResult × Option ℕ
fpga_properties_get_device has_out prop =
    get_with has_out prop (λ p. if_valid p fpga_property_device p.device)

unfoldable pub fpga_properties_set_device : Option Properties → ℕ → FpgaResult × Option Properties
fpga_properties_set_device prop device =
    set_with prop
      (λ p. (fpga_ok, record (set_field_valid p fpga_property_device) { device = device }))

unfoldable pub fpga_properties_get_function : Bool → Option Properties → FpgaResult × Option ℕ
fpga_properties_get_function has_out prop =
    get_with has_out prop (λ p. if_valid p fpga_property_function p.function)

-- PCIe supports 8 functions per device.
unfoldable pub fpga_properties_set_function : Option Properties → ℕ → FpgaResult × Option Properties
fpga_properties_set_function prop function =
    if ltb 7 function
    then (fpga_invalid_param, prop)
    else set_with prop
        (λ p. (fpga_ok, record (set_field_valid p fpga_property_function) { function = function }))

unfoldable pub fpga_properties_get_socket_id : Bool → Option Properties → FpgaResult × Option ℕ
fpga_properties_get_socket_id has_out prop =
    get_with has_out prop (λ p. if_valid p fpga_property_socket_id p.socket_id)

unfoldable pub fpga_properties_set_socket_id :
    Option Properties → ℕ → FpgaResult × Option Properties
fpga_properties_set_socket_id prop socket_id =
    set_with prop
      (λ p. (fpga_ok, record (set_field_valid p fpga_property_socket_id) { socket_id = socket_id }))

unfoldable pub fpga_properties_get_vendor_id : Bool → Option Properties → FpgaResult × Option ℕ
fpga_properties_get_vendor_id has_out prop =
    get_with has_out prop (λ p. if_valid p fpga_property_vendor_id p.vendor_id)

unfoldable pub fpga_properties_set_vendor_id :
    Option Properties → ℕ → FpgaResult × Option Properties
fpga_properties_set_vendor_id prop vendor_id =
    set_with prop
      (λ p. (fpga_ok, record (set_field_valid p fpga_property_vendor_id) { vendor_id = vendor_id }))

unfoldable pub fpga_properties_get_device_id : Bool → Option Properties → FpgaResult × Option ℕ
fpga_properties_get_device_id has_out prop =
    get_with has_out prop (λ p. if_valid p fpga_property_device_id p.device_id)

unfoldable pub fpga_properties_set_device_id :
    Option Properties → ℕ → FpgaResult × Option Properties
fpga_properties_set_device_id prop device_id =
    set_with prop
      (λ p. (fpga_ok, record (set_field_valid p fpga_property_device_id) { device_id = device_id }))

unfoldable pub fpga_properties_get_guid : Bool → Option Properties → FpgaResult × Option (List ℕ)
fpga_properties_get_guid has_out prop =
    get_with has_out prop (λ p. if_valid p fpga_property_guid p.guid)

-- `memcpy` of all 16 bytes.
unfoldable pub fpga_properties_set_guid :
    Option Properties → List ℕ → FpgaResult × Option Properties
fpga_properties_set_guid prop guid =
    set_with prop (λ p. (fpga_ok, record (set_field_valid p fpga_property_guid) { guid = guid }))

unfoldable pub fpga_properties_get_object_id : Bool → Option Properties → FpgaResult × Option ℕ
fpga_properties_get_object_id has_out prop =
    get_with has_out prop (λ p. if_valid p fpga_property_object_id p.object_id)

unfoldable pub fpga_properties_set_object_id :
    Option Properties → ℕ → FpgaResult × Option Properties
fpga_properties_set_object_id prop object_id =
    set_with prop
      (λ p. (fpga_ok, record (set_field_valid p fpga_property_object_id) { object_id = object_id }))

unfoldable pub fpga_properties_get_num_errors : Bool → Option Properties → FpgaResult × Option ℕ
fpga_properties_get_num_errors has_out prop =
    get_with has_out prop (λ p. if_valid p fpga_property_num_errors p.num_errors)

unfoldable pub fpga_properties_set_num_errors :
    Option Properties → ℕ → FpgaResult × Option Properties
fpga_properties_set_num_errors prop num_errors = set_with prop (λ p.
    (fpga_ok, record (set_field_valid p fpga_property_num_errors) { num_errors = num_errors }))
