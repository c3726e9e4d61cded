-- ===== src/Match/Values.antt =====
-- A comparison as a statement on the values that the getters of libopae-c/props.c give.
use opae_libs.Prelude.{
  ℕ, ◌/◌, ◌%◌, ◌^◌, Bool, true, false, ◌&&◌, Option, none, some, List, [], ◌∷◌, ◌==◌, ==_iff,
}
use opae_libs.Prelude.{◌≡◌, ◌≢◌, ◌↔◌, refl, sym, ap, ap₂, ◌∙◌, arith, inl, inr, Bool-cases}
use opae_libs.Types.{FpgaResult, fpga_accelerator}
use opae_libs.Props.{Properties, fpga_property_magic}
use opae_libs.Props.Common.{
  fpga_properties_get_object_type, fpga_properties_get_segment, fpga_properties_get_bus,
  fpga_properties_get_device, fpga_properties_get_function, fpga_properties_get_socket_id,
  fpga_properties_get_vendor_id, fpga_properties_get_device_id, fpga_properties_get_guid,
  fpga_properties_get_object_id, fpga_properties_get_num_errors,
}
use opae_libs.Props.Union.{
  fpga_properties_get_num_slots, fpga_properties_get_bbs_id, fpga_properties_get_bbs_version,
  fpga_properties_get_accelerator_state, fpga_properties_get_num_mmio,
  fpga_properties_get_num_interrupts,
}
use opae_libs.Props.Parent.{fpga_properties_get_parent}
use opae_libs.Match.{
  DevList, same_bytes, same_path, parent_matches, object_id_matches, same_version, matches_filter,
}
use opae_libs.Match.Fits.{fits}
use opae_libs.Match.Getters.{filter_fits, matches_filter_lem}

-- A statement on the value that a getter gives, where it gives one.
abbrev pub Given {ℓ} : {A : Type ℓ} → (A → Type 0) → FpgaResult × Option A → Type 0
Given P (res, none) = Unit {0}
Given P (res, some v) = P v

-- A parent, where the device found is an accelerator: a token that is not NULL, whose path has as its
-- real path the path of the FME of the device.
abbrev pub ParentFits : (ℕ → Option (List ℕ)) → DevList → ℕ → Type 0
ParentFits realpath attr parent =
    (attr.objtype ≡ fpga_accelerator)
    × (parent ≢ 0)
    × (path : List ℕ) × (attr.fme_path ≡ some path)
    × (realpath parent ≡ some path)

-- The values of a filter for devices, and of one for accelerators.
abbrev pub DeviceFits : DevList → Properties → Type 0
DeviceFits attr p =
    let prop = some p in
    Given (λ v. v ≡ attr.fpga_num_slots) (fpga_properties_get_num_slots true prop)
    × (Given (λ v. v ≡ attr.fpga_bitstream_id) (fpga_properties_get_bbs_id true prop)
        × (Given (λ v. v ≡ attr.fpga_bbs_version) (fpga_properties_get_bbs_version true prop)))

abbrev pub AcceleratorFits : DevList → Properties → Type 0
AcceleratorFits attr p =
    let prop = some p in
    Given (λ v. v ≡ attr.accelerator_state) (fpga_properties_get_accelerator_state true prop)
    × (Given (λ v. v ≡ attr.accelerator_num_mmios) (fpga_properties_get_num_mmio true prop)
        × (Given (λ v. v ≡ attr.accelerator_num_irqs)
            (fpga_properties_get_num_interrupts true prop)))

-- Each value that the filter has is that of the device.
abbrev pub FilterFits : (ℕ → Option (List ℕ)) → DevList → Properties → Type 0
FilterFits realpath attr p =
    let prop = some p in
    Given (ParentFits realpath attr) (fpga_properties_get_parent true prop)
    × (Given (λ v. v ≡ attr.objtype) (fpga_properties_get_object_type true prop)
        × (Given (λ v. v ≡ attr.segment) (fpga_properties_get_segment true prop)
            × (Given (λ v. v ≡ attr.bus) (fpga_properties_get_bus true prop)
                × (Given (λ v. v ≡ attr.device) (fpga_properties_get_device true prop)
                    × (Given (λ v. v ≡ attr.function) (fpga_properties_get_function true prop)
                        × (Given (λ v. v ≡ attr.socket_id) (fpga_properties_get_socket_id true prop)
                            × (Given (λ v. v ≡ attr.guid) (fpga_properties_get_guid true prop)
                                × (Given (λ v. some v ≡ attr.object_id)
                                      (fpga_properties_get_object_id true prop)
                                    × (Given (λ v. v ≡ attr.vendor_id)
                                          (fpga_properties_get_vendor_id true prop)
                                        × (Given (λ v. v ≡ attr.device_id)
                                              (fpga_properties_get_device_id true prop)
                                            × (Given (λ v. v ≡ attr.num_errors)
                                                  (fpga_properties_get_num_errors true prop)
                                                × (DeviceFits attr p
                                                    × (AcceleratorFits attr p)))))))))))))

fits-Given {ℓ} :
    {A : Type ℓ} {test : A → Bool} {P : A → Type 0}
    → ((v : A) → (test v ≡ true) ↔ P v)
    → (r : FpgaResult × Option A) → (fits test r ≡ true) ↔ Given P r
fits-Given e (res, none) = (λ y. tt, λ y. refl)
fits-Given e (res, some v) = e v

-- Both tests hold where both statements do.
both {ℓ ℓ'} :
    {A : Type ℓ} {B : Type ℓ'} (a b : Bool)
    → (a ≡ true) ↔ A
    → (b ≡ true) ↔ B
    → ((a && b) ≡ true) ↔ (A × B)
both true b f g = (λ y. (f.0 refl, g.0 y), λ (x, y). g.1 y)
both false b f g = (λ y. cc, λ (x, y). f.1 x)

end_of {ℓ} : {A : Type ℓ} (a : Bool) → (a ≡ true) ↔ A → ((a && true) ≡ true) ↔ A
end_of true f = f
end_of false f = f

same_bytes_iff : (s t : List ℕ) → (same_bytes s t ≡ true) ↔ (t ≡ s)
same_bytes_iff [] [] = (λ y. refl, λ y. refl)
same_bytes_iff [] (d ∷ t) = (λ y. cc, λ y. cc)
same_bytes_iff (c ∷ s) [] = (λ y. cc, λ y. cc)
same_bytes_iff (c ∷ s) (d ∷ t) =
    let e = both (c == d) (same_bytes s t) (==_iff c d) (same_bytes_iff s t) in
    (
      λ y. let (x, z) = e.0 y in ap₂ (λ n u. n ∷ u) (sym x) z,
      λ y. let x : c ≡ d = cc in let z : t ≡ s = cc in e.1 (x, z),
    )

object_id_iff : (o : Option ℕ) (v : ℕ) → (object_id_matches v o ≡ true) ↔ (some v ≡ o)
object_id_iff none v = (λ y. cc, λ y. cc)
object_id_iff (some id) v =
    (λ y. ap (λ n. some n) ((==_iff v id).0 y), λ y. let x : v ≡ id = cc in (==_iff v id).1 x)

same_version_iff : (w v : ℕ) → (same_version v w ≡ true) ↔ (v ≡ w)
same_version_iff w v =
    let e =
      both (v % 2 ^ 8 == w % 2 ^ 8)
        ((v / 2 ^ 8 % 2 ^ 8 == w / 2 ^ 8 % 2 ^ 8) && (v / 2 ^ 16 == w / 2 ^ 16))
        (==_iff (v % 2 ^ 8) (w % 2 ^ 8))
        (both (v / 2 ^ 8 % 2 ^ 8 == w / 2 ^ 8 % 2 ^ 8) (v / 2 ^ 16 == w / 2 ^ 16)
          (==_iff (v / 2 ^ 8 % 2 ^ 8) (w / 2 ^ 8 % 2 ^ 8)) (==_iff (v / 2 ^ 16) (w / 2 ^ 16))) in
    (
      λ y. let (low, (middle, high)) = e.0 y in omega (arith, low, middle, high),
      λ y. e.1 (ap (λ n. n % 2 ^ 8) y, (ap (λ n. n / 2 ^ 8 % 2 ^ 8) y, ap (λ n. n / 2 ^ 16) y)),
    )

same_path_iff :
    (o real : Option (List ℕ))
    → (same_path o real ≡ true) ↔ ((path : List ℕ) × (o ≡ some path) × (real ≡ some path))
same_path_iff none real = (λ y. cc, λ (path, x, y). cc)
same_path_iff (some s) none = (λ y. cc, λ (path, x, y). cc)
same_path_iff (some s) (some t) =
    let e = same_bytes_iff s t in
    (λ y. (s, refl, ap (λ u. some u) (e.0 y)), λ (path, x, y). let z : t ≡ s = cc in e.1 z)

parent_matches_iff :
    (realpath : ℕ → Option (List ℕ)) (attr : DevList) (v : ℕ)
    → (parent_matches realpath attr v ≡ true) ↔ ParentFits realpath attr v
parent_matches_iff realpath attr v =
    let e = same_path_iff attr.fme_path (realpath v) in
    elim (Bool-cases (attr.objtype == fpga_accelerator)) [
      | inl y ↦ elim (Bool-cases (v == 0)) [
        | inl z ↦ rw (y, z) (λ x. cc, λ (a, ne, path, mine, given). absurd (ne ((==_iff v 0).0 z)))
        | inr z ↦
            rw (y, z)
              (
                λ x.
                    let (path, mine, given) = e.0 x in
                    (
                      (==_iff attr.objtype fpga_accelerator).0 y,
                      (λ same. let t = (==_iff v 0).1 same in cc),
                      path,
                      mine,
                      given,
                    ),
                λ (a, ne, path, mine, given). e.1 (path, mine, given),
              )
      ]
      | inr n ↦ rw n (
        λ x. cc,
        λ (a, ne, path, mine, given). let t = (==_iff attr.objtype fpga_accelerator).1 a in cc,
      )
    ]

-- A device matches a valid filter, whose lock can be taken, exactly where each value that the getters
-- of libopae-c give for the filter is that of the device; a property for which they give none, also
-- one of the other kind of object, excludes no device. The values of a filter are compared as they
-- are, but its parent, which only an accelerator can have, by the real path of the token.
pub matches_filter_iff :
    (realpath : ℕ → Option (List ℕ)) (attr : DevList) (p : Properties)
    → p.magic ≡ fpga_property_magic
    → (matches_filter realpath true attr p ≡ true) ↔ FilterFits realpath attr p
matches_filter_iff realpath attr p m = (λ e. values.0 (sym same ∙ e), λ f. same ∙ values.1 f)
  where
    same : matches_filter realpath true attr p ≡ filter_fits realpath attr p
    same = matches_filter_lem realpath attr p m

    number :
        (n : ℕ) (r : FpgaResult × Option ℕ) → (fits (λ v. v == n) r ≡ true) ↔ Given (λ v. v ≡ n) r
    number n r = fits-Given (λ v. ==_iff v n) r

    values : (filter_fits realpath attr p ≡ true) ↔ FilterFits realpath attr p
    values =
        both _ _
          (fits-Given (parent_matches_iff realpath attr) (fpga_properties_get_parent true (some p)))
          (both _ _ (number attr.objtype (fpga_properties_get_object_type true (some p))) (
            both _ _ (number attr.segment (fpga_properties_get_segment true (some p))) (
              both _ _ (number attr.bus (fpga_properties_get_bus true (some p))) (
                both _ _ (number attr.device (fpga_properties_get_device true (some p))) (
                  both _ _ (number attr.function (fpga_properties_get_function true (some p))) (
                    both _ _ (number attr.socket_id (fpga_properties_get_socket_id true (some p))) (
                      both _ _
                        (fits-Given (same_bytes_iff attr.guid)
                          (fpga_properties_get_guid true (some p)))
                        (both _ _
                          (fits-Given (object_id_iff attr.object_id)
                            (fpga_properties_get_object_id true (some p)))
                          (both _ _
                            (number attr.vendor_id (fpga_properties_get_vendor_id true (some p)))
                            (both _ _
                              (number attr.device_id (fpga_properties_get_device_id true (some p)))
                              (both _ _
                                (number attr.num_errors
                                  (fpga_properties_get_num_errors true (some p)))
                                (both _ _
                                  (both _ _
                                    (number attr.fpga_num_slots
                                      (fpga_properties_get_num_slots true (some p)))
                                    (both _ _
                                      (number attr.fpga_bitstream_id
                                        (fpga_properties_get_bbs_id true (some p)))
                                      (end_of _ (
                                        fits-Given (same_version_iff attr.fpga_bbs_version)
                                          (fpga_properties_get_bbs_version true (some p))))))
                                  (both _ _
                                    (number attr.accelerator_state
                                      (fpga_properties_get_accelerator_state true (some p)))
                                    (both _ _
                                      (number attr.accelerator_num_mmios
                                        (fpga_properties_get_num_mmio true (some p)))
                                      (end_of _ (
                                        number attr.accelerator_num_irqs (
                                          fpga_properties_get_num_interrupts true
                                            (some p))))))))))))))))))
