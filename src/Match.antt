-- ===== src/Match.antt =====
-- plugins/xfpga/enum.c: whether a device that was found matches the filters of an enumeration. The
-- filters are the objects of Props. What sysfs says of the device is an argument.
pub mod Fits
pub mod Getters
pub mod Values
mod Tests
use opae_libs.Prelude.{
  ℕ, ◌+◌, ◌*◌, ◌/◌, ◌%◌, ◌^◌, Bool, true, false, ◌&&◌, Option, none, some, List, [], ◌∷◌, ◌==◌,
  if◌then◌else◌,
}
use opae_libs.Types.{fpga_device, fpga_accelerator}
use opae_libs.Props.{Properties, field_valid}
use opae_libs.Props.Common.{
  fpga_property_objtype, fpga_property_segment, fpga_property_bus, fpga_property_device,
  fpga_property_function, fpga_property_socket_id, fpga_property_vendor_id, fpga_property_device_id,
  fpga_property_guid, fpga_property_object_id, fpga_property_num_errors,
}
use opae_libs.Props.Union.{
  fpga_property_num_slots, fpga_property_bbs_id, fpga_property_bbs_version,
  fpga_property_accelerator_state, fpga_property_num_mmio, fpga_property_num_interrupts,
}
use opae_libs.Props.Parent.{fpga_property_parent}

-- Of `struct dev_list`, what is compared; the version as its 32-bit word. The path of a device stands
-- for its answers: `fme_path` of `sysfs_get_fme_path`, `object_id` of `sysfs_objectid_from_path`, and
-- `num_errors` of `count_error_files`.
pub record DevList : Type 0 where
  pub objtype : ℕ
  pub guid : List ℕ
  pub segment : ℕ
  pub bus : ℕ
  pub device : ℕ
  pub function : ℕ
  pub socket_id : ℕ
  pub vendor_id : ℕ
  pub device_id : ℕ
  pub fpga_num_slots : ℕ
  pub fpga_bitstream_id : ℕ
  pub fpga_bbs_version : ℕ
  pub accelerator_state : ℕ
  pub accelerator_num_mmios : ℕ
  pub accelerator_num_irqs : ℕ
  pub fme_path : Option (List ℕ)
  pub object_id : Option ℕ
  pub num_errors : ℕ

-- `memcmp` and `strcmp` give 0.
abbrev pub same_bytes : List ℕ → List ℕ → Bool
same_bytes [] [] = true
same_bytes [] (d ∷ t) = false
same_bytes (c ∷ s) [] = false
same_bytes (c ∷ s) (d ∷ t) = (c == d) && same_bytes s t

-- A test that is made where the field is valid, and what follows it.
abbrev pub passes : Bool → Bool → Bool → Bool
passes false ok rest = rest
passes true false rest = false
passes true true rest = rest

-- The real path of a token's path, none where there is none.
abbrev pub same_path : Option (List ℕ) → Option (List ℕ) → Bool
same_path none real = false
same_path (some path) none = false
same_path (some path) (some real) = same_bytes path real

-- A parent of 0 is NULL.
abbrev pub parent_matches : (ℕ → Option (List ℕ)) → DevList → ℕ → Bool
parent_matches realpath attr parent =
    if attr.objtype == fpga_accelerator
    then if parent == 0 then false else same_path attr.fme_path (realpath parent)
    else false

abbrev pub object_id_matches : ℕ → Option ℕ → Bool
object_id_matches object_id none = false
object_id_matches object_id (some id) = object_id == id

-- The members `major`, `minor` and `patch`.
abbrev pub same_version : ℕ → ℕ → Bool
same_version v w =
    (v % 2 ^ 8 == w % 2 ^ 8)
    && ((v / 2 ^ 8 % 2 ^ 8 == w / 2 ^ 8 % 2 ^ 8) && (v / 2 ^ 16 == w / 2 ^ 16))

device_matches : DevList → Properties → Bool
device_matches attr p =
    let is_device = attr.objtype == fpga_device in
    passes (field_valid p fpga_property_num_slots) (is_device && (p.word0 == attr.fpga_num_slots)) (
      passes (field_valid p fpga_property_bbs_id)
        (is_device && (p.word2 + 2 ^ 32 * p.word3 == attr.fpga_bitstream_id))
        (passes (field_valid p fpga_property_bbs_version)
          (is_device && same_version p.word4 attr.fpga_bbs_version) true))

accelerator_matches : DevList → Properties → Bool
accelerator_matches attr p =
    let is_accelerator = attr.objtype == fpga_accelerator in
    passes (field_valid p fpga_property_accelerator_state)
      (is_accelerator && (p.word0 == attr.accelerator_state))
      (passes (field_valid p fpga_property_num_mmio)
        (is_accelerator && (p.word1 == attr.accelerator_num_mmios))
        (passes (field_valid p fpga_property_num_interrupts)
          (is_accelerator && (p.word2 == attr.accelerator_num_irqs)) true))

-- The two tests of the filter's type are the Booleans.
union_matches : Bool → Bool → DevList → Properties → Bool
unfolding device_matches accelerator_matches
union_matches true accelerator attr p = device_matches attr p
union_matches false true attr p = accelerator_matches attr p
union_matches false false attr p = true

-- The comparison of a filter that is locked.
pub locked_matches : (ℕ → Option (List ℕ)) → DevList → Properties → Bool
unfolding union_matches
locked_matches realpath attr p =
    passes (field_valid p fpga_property_parent) (parent_matches realpath attr p.parent) (
      passes (field_valid p fpga_property_objtype) (p.objtype == attr.objtype) (
        passes (field_valid p fpga_property_segment) (p.segment == attr.segment) (
          passes (field_valid p fpga_property_bus) (p.bus == attr.bus) (
            passes (field_valid p fpga_property_device) (p.device == attr.device) (
              passes (field_valid p fpga_property_function) (p.function == attr.function) (
                passes (field_valid p fpga_property_socket_id) (p.socket_id == attr.socket_id) (
                  passes (field_valid p fpga_property_guid) (same_bytes attr.guid p.guid) (
                    passes (field_valid p fpga_property_object_id)
                      (object_id_matches p.object_id attr.object_id)
                      (passes (field_valid p fpga_property_vendor_id)
                        (p.vendor_id == attr.vendor_id)
                        (passes (field_valid p fpga_property_device_id)
                          (p.device_id == attr.device_id)
                          (passes (field_valid p fpga_property_num_errors)
                            (p.num_errors == attr.num_errors)
                            (union_matches
                              (field_valid p fpga_property_objtype && (fpga_device == p.objtype))
                              (field_valid p fpga_property_objtype
                                && (fpga_accelerator == p.objtype))
                              attr p))))))))))))

-- The Boolean is whether the filter's lock can be taken.
pub matches_filter : (ℕ → Option (List ℕ)) → Bool → DevList → Properties → Bool
unfolding locked_matches
matches_filter realpath false attr p = false
matches_filter realpath true attr p = locked_matches realpath attr p

-- The loop, and the function, for filters whose lock can be taken.
matches_from : (ℕ → Option (List ℕ)) → DevList → List Properties → Bool
unfolding matches_filter
matches_from realpath attr [] = false
matches_from realpath attr (p ∷ ps) =
    if matches_filter realpath true attr p then true else matches_from realpath attr ps

pub matches_filters : (ℕ → Option (List ℕ)) → DevList → List Properties → Bool
unfolding matches_from
matches_filters realpath attr [] = true
matches_filters realpath attr (p ∷ ps) = matches_from realpath attr (p ∷ ps)
