-- ===== src/Match/Getters.antt =====
-- A comparison through the getters of libopae-c/props.c.
use opae_libs.Prelude.{ℕ, ◌+◌, ◌*◌, ◌^◌, Bool, true, false, ◌&&◌, Option, some, List, ◌==◌, ==_iff}
use opae_libs.Prelude.{◌≡◌, refl, sym, ◌∙◌, arith, inl, inr, ◌⊎◌, Bool-cases}
use opae_libs.Types.{fpga_device, fpga_accelerator}
use opae_libs.Props.{Properties, fpga_property_magic, field_valid}
use opae_libs.Props.Common.{
  fpga_property_objtype, fpga_property_segment, fpga_property_bus, fpga_property_device,
  fpga_property_function, fpga_property_socket_id, fpga_property_vendor_id, fpga_property_device_id,
  fpga_property_guid, fpga_property_object_id, fpga_property_num_errors,
}
use opae_libs.Props.Common.{
  fpga_properties_get_object_type, fpga_properties_get_segment, fpga_properties_get_bus,
  fpga_properties_get_device, fpga_properties_get_function, fpga_properties_get_socket_id,
  fpga_properties_get_vendor_id, fpga_properties_get_device_id, fpga_properties_get_guid,
  fpga_properties_get_object_id, fpga_properties_get_num_errors,
}
use opae_libs.Props.Union.{
  is_object, fpga_property_num_slots, fpga_property_bbs_id, fpga_property_bbs_version,
  fpga_property_accelerator_state, fpga_property_num_mmio, fpga_property_num_interrupts,
}
use opae_libs.Props.Union.{
  fpga_properties_get_num_slots, fpga_properties_get_bbs_id, fpga_properties_get_bbs_version,
  fpga_properties_get_accelerator_state, fpga_properties_get_num_mmio,
  fpga_properties_get_num_interrupts,
}
use opae_libs.Props.Parent.{fpga_property_parent, fpga_properties_get_parent}
use opae_libs.Match.{
  DevList, same_bytes, parent_matches, object_id_matches, same_version, device_matches,
  accelerator_matches, union_matches, locked_matches, matches_filter,
}
use opae_libs.Match.Fits.{fits, passes_value, passes_objtype, passes_kind, fits_kind}

-- The values of a device and of an accelerator.
abbrev pub device_fits : DevList → Properties → Bool
device_fits attr p =
    fits (λ v. v == attr.fpga_num_slots) (fpga_properties_get_num_slots true (some p))
    && (fits (λ v. v == attr.fpga_bitstream_id) (fpga_properties_get_bbs_id true (some p))
        && (fits (λ v. same_version v attr.fpga_bbs_version)
              (fpga_properties_get_bbs_version true (some p))
            && true))

abbrev pub accelerator_fits : DevList → Properties → Bool
accelerator_fits attr p =
    fits (λ v. v == attr.accelerator_state) (fpga_properties_get_accelerator_state true (some p))
    && (fits (λ v. v == attr.accelerator_num_mmios) (fpga_properties_get_num_mmio true (some p))
        && (fits (λ v. v == attr.accelerator_num_irqs)
              (fpga_properties_get_num_interrupts true (some p))
            && true))

device_lem :
    (attr : DevList) (p : Properties)
    → p.magic ≡ fpga_property_magic
    → is_object p fpga_device ≡ true
    → (attr.objtype == fpga_device) ≡ true
    → device_matches attr p ≡ device_fits attr p
unfolding device_matches fpga_properties_get_num_slots fpga_properties_get_bbs_id
    fpga_properties_get_bbs_version
device_lem attr p m o k =
    passes_kind p fpga_device attr.objtype fpga_property_num_slots (λ q. q.word0)
      (λ v. v == attr.fpga_num_slots) _ _ m o k
      (passes_kind p fpga_device attr.objtype fpga_property_bbs_id (λ q. q.word2 + 2 ^ 32 * q.word3)
        (λ v. v == attr.fpga_bitstream_id) _ _ m o k
        (passes_kind p fpga_device attr.objtype fpga_property_bbs_version (λ q. q.word4)
          (λ v. same_version v attr.fpga_bbs_version) true true m o k refl))

device_none :
    (attr : DevList) (p : Properties)
    → p.magic ≡ fpga_property_magic
    → is_object p fpga_device ≡ false
    → device_fits attr p ≡ true
unfolding fpga_properties_get_num_slots fpga_properties_get_bbs_id fpga_properties_get_bbs_version
device_none attr p m o =
    fits_kind p fpga_device fpga_property_num_slots (λ q. q.word0) (λ v. v == attr.fpga_num_slots) _
      m o
    ∙ fits_kind p fpga_device fpga_property_bbs_id (λ q. q.word2 + 2 ^ 32 * q.word3)
        (λ v. v == attr.fpga_bitstream_id) _ m o
    ∙ fits_kind p fpga_device fpga_property_bbs_version (λ q. q.word4)
        (λ v. same_version v attr.fpga_bbs_version) true m o

accelerator_lem :
    (attr : DevList) (p : Properties)
    → p.magic ≡ fpga_property_magic
    → is_object p fpga_accelerator ≡ true
    → (attr.objtype == fpga_accelerator) ≡ true
    → accelerator_matches attr p ≡ accelerator_fits attr p
unfolding accelerator_matches fpga_properties_get_accelerator_state fpga_properties_get_num_mmio
    fpga_properties_get_num_interrupts
accelerator_lem attr p m o k =
    passes_kind p fpga_accelerator attr.objtype fpga_property_accelerator_state (λ q. q.word0)
      (λ v. v == attr.accelerator_state) _ _ m o k
      (passes_kind p fpga_accelerator attr.objtype fpga_property_num_mmio (λ q. q.word1)
        (λ v. v == attr.accelerator_num_mmios) _ _ m o k
        (passes_kind p fpga_accelerator attr.objtype fpga_property_num_interrupts (λ q. q.word2)
          (λ v. v == attr.accelerator_num_irqs) true true m o k refl))

accelerator_none :
    (attr : DevList) (p : Properties)
    → p.magic ≡ fpga_property_magic
    → is_object p fpga_accelerator ≡ false
    → accelerator_fits attr p ≡ true
unfolding fpga_properties_get_accelerator_state fpga_properties_get_num_mmio
    fpga_properties_get_num_interrupts
accelerator_none attr p m o =
    fits_kind p fpga_accelerator fpga_property_accelerator_state (λ q. q.word0)
      (λ v. v == attr.accelerator_state) _ m o
    ∙ fits_kind p fpga_accelerator fpga_property_num_mmio (λ q. q.word1)
        (λ v. v == attr.accelerator_num_mmios) _ m o
    ∙ fits_kind p fpga_accelerator fpga_property_num_interrupts (λ q. q.word2)
        (λ v. v == attr.accelerator_num_irqs) true m o

and_true : (a b : Bool) → (a && b) ≡ true → (a ≡ true) × (b ≡ true)
and_true true b e = (refl, e)
and_true false b e = cc

-- A filter of a kind fits a device of that kind only.
kind_same :
    (p : Properties) (kind objtype : ℕ)
    → (field_valid p fpga_property_objtype ≡ false) ⊎ (p.objtype ≡ objtype)
    → is_object p kind ≡ true
    → (objtype == kind) ≡ true
kind_same p kind objtype (inl v) o =
    let a = (and_true (field_valid p fpga_property_objtype) (kind == p.objtype) o).0 in cc
kind_same p kind objtype (inr t) o =
    let k =
      (==_iff kind p.objtype).0
        (and_true (field_valid p fpga_property_objtype) (kind == p.objtype) o).1 in
    (==_iff objtype kind).1 (sym (k ∙ t))

not_both :
    (p : Properties)
    → is_object p fpga_device ≡ true
    → is_object p fpga_accelerator ≡ true
    → fpga_device ≡ fpga_accelerator
not_both p o o' =
    (==_iff fpga_device p.objtype).0
      (and_true (field_valid p fpga_property_objtype) (fpga_device == p.objtype) o).1
    ∙ sym (
        (==_iff fpga_accelerator p.objtype).0
          (and_true (field_valid p fpga_property_objtype) (fpga_accelerator == p.objtype) o').1)

union_lem :
    (attr : DevList) (p : Properties)
    → p.magic ≡ fpga_property_magic
    → (field_valid p fpga_property_objtype ≡ false) ⊎ (p.objtype ≡ attr.objtype)
    → union_matches (is_object p fpga_device) (is_object p fpga_accelerator) attr p
      ≡ (device_fits attr p && accelerator_fits attr p)
unfolding union_matches
union_lem attr p m t = elim (Bool-cases (is_object p fpga_device)) [
  | inl o ↦ elim (Bool-cases (is_object p fpga_accelerator)) [
    | inl o' ↦ absurd (omega (arith, not_both p o o'))
    | inr o' ↦
        let d = device_lem attr p m o (kind_same p fpga_device attr.objtype t o) in
        first (is_object p fpga_device) (is_object p fpga_accelerator) o
        ∙ d
        ∙ and_end (device_fits attr p) (accelerator_fits attr p) (accelerator_none attr p m o')
  ]
  | inr o ↦ elim (Bool-cases (is_object p fpga_accelerator)) [
    | inl o' ↦
        second (is_object p fpga_device) (is_object p fpga_accelerator) o o'
        ∙ accelerator_lem attr p m o' (kind_same p fpga_accelerator attr.objtype t o')
        ∙ and_start (device_fits attr p) (accelerator_fits attr p) (device_none attr p m o)
    | inr o' ↦
        third (is_object p fpga_device) (is_object p fpga_accelerator) o o'
        ∙ sym (accelerator_none attr p m o')
        ∙ and_start (device_fits attr p) (accelerator_fits attr p) (device_none attr p m o)
  ]
]
  where
    first : (a b : Bool) → a ≡ true → union_matches a b attr p ≡ device_matches attr p
    first a b e = rw e refl

    second :
        (a b : Bool) → a ≡ false → b ≡ true → union_matches a b attr p ≡ accelerator_matches attr p
    second a b e f = rw (e, f) refl

    third : (a b : Bool) → a ≡ false → b ≡ false → union_matches a b attr p ≡ true
    third a b e f = rw (e, f) refl

    and_end : (a b : Bool) → b ≡ true → a ≡ (a && b)
    and_end true b e = sym e
    and_end false b e = refl

    and_start : (a b : Bool) → a ≡ true → b ≡ (a && b)
    and_start a b e = rw e refl

-- A filter through its getters, value by value.
abbrev pub filter_fits : (ℕ → Option (List ℕ)) → DevList → Properties → Bool
filter_fits realpath attr p =
    let prop = some p in
    fits (parent_matches realpath attr) (fpga_properties_get_parent true prop)
    && (fits (λ v. v == attr.objtype) (fpga_properties_get_object_type true prop)
        && (fits (λ v. v == attr.segment) (fpga_properties_get_segment true prop)
            && (fits (λ v. v == attr.bus) (fpga_properties_get_bus true prop)
                && (fits (λ v. v == attr.device) (fpga_properties_get_device true prop)
                    && (fits (λ v. v == attr.function) (fpga_properties_get_function true prop)
                        && (fits (λ v. v == attr.socket_id)
                              (fpga_properties_get_socket_id true prop)
                            && (fits (λ v. same_bytes attr.guid v)
                                  (fpga_properties_get_guid true prop)
                                && (fits (λ v. object_id_matches v attr.object_id)
                                      (fpga_properties_get_object_id true prop)
                                    && (fits (λ v. v == attr.vendor_id)
                                          (fpga_properties_get_vendor_id true prop)
                                        && (fits (λ v. v == attr.device_id)
                                              (fpga_properties_get_device_id true prop)
                                            && (fits (λ v. v == attr.num_errors)
                                                  (fpga_properties_get_num_errors true prop)
                                                && (device_fits attr p
                                                    && accelerator_fits attr p))))))))))))

-- A valid filter whose lock can be taken.
pub matches_filter_lem :
    (realpath : ℕ → Option (List ℕ)) (attr : DevList) (p : Properties)
    → p.magic ≡ fpga_property_magic
    → matches_filter realpath true attr p ≡ filter_fits realpath attr p
unfolding matches_filter locked_matches fpga_properties_get_parent fpga_properties_get_object_type
    fpga_properties_get_segment fpga_properties_get_bus fpga_properties_get_device
    fpga_properties_get_function fpga_properties_get_socket_id fpga_properties_get_guid
    fpga_properties_get_object_id fpga_properties_get_vendor_id fpga_properties_get_device_id
    fpga_properties_get_num_errors
matches_filter_lem realpath attr p m =
    passes_value p fpga_property_parent (λ q. q.parent) (parent_matches realpath attr) _ _ m
      (passes_objtype p attr.objtype _ _ m (λ t.
        passes_value p fpga_property_segment (λ q. q.segment) (λ v. v == attr.segment) _ _ m
          (passes_value p fpga_property_bus (λ q. q.bus) (λ v. v == attr.bus) _ _ m
            (passes_value p fpga_property_device (λ q. q.device) (λ v. v == attr.device) _ _ m
              (passes_value p fpga_property_function (λ q. q.function) (λ v. v == attr.function) _ _
                m
                (passes_value p fpga_property_socket_id (λ q. q.socket_id)
                  (λ v. v == attr.socket_id) _ _ m
                  (passes_value p fpga_property_guid (λ q. q.guid) (λ v. same_bytes attr.guid v) _ _
                    m
                    (passes_value p fpga_property_object_id (λ q. q.object_id)
                      (λ v. object_id_matches v attr.object_id) _ _ m
                      (passes_value p fpga_property_vendor_id (λ q. q.vendor_id)
                        (λ v. v == attr.vendor_id) _ _ m
                        (passes_value p fpga_property_device_id (λ q. q.device_id)
                          (λ v. v == attr.device_id) _ _ m
                          (passes_value p fpga_property_num_errors (λ q. q.num_errors)
                            (λ v. v == attr.num_errors) _ _ m (union_lem attr p m t))))))))))))
