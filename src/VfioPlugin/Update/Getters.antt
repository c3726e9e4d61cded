-- ===== src/VfioPlugin/Update/Getters.antt =====
-- What the getters of libopae-c/props.c give on an object that the plugin has filled.
use opae_libs.Prelude.{
  ℕ, ◌+◌, ◌*◌, ◌/◌, ◌%◌, ◌^◌, ◌<◌, Bool, true, false, ◌||◌, Option, none, some, List, [], ◌∷◌, ◌==◌,
  ==_iff, if◌then◌else◌,
}
use opae_libs.Prelude.{◌≡◌, refl, sym, ap, ◌∙◌, arith, inl, inr, Bool-cases}
use opae_libs.Types.{fpga_ok, fpga_invalid_param, fpga_device, fpga_accelerator}
use opae_libs.Props.{
  Properties, fpga_property_magic, field_valid, set_field_valid, get_with, if_valid,
}
use opae_libs.Props.Common.{fpga_property_objtype, fpga_property_guid}
use opae_libs.Props.Common.{fpga_properties_get_object_type, fpga_properties_get_guid}
use opae_libs.Props.Union.{
  is_object, fpga_property_num_slots, fpga_property_bbs_id, fpga_property_bbs_version,
  fpga_property_num_mmio,
}
use opae_libs.Props.Union.{
  fpga_properties_get_num_slots, fpga_properties_get_bbs_id, fpga_properties_get_bbs_version,
  fpga_properties_get_num_mmio,
}
use opae_libs.Props.Bodies.{get_with-valid, field_valid-set_self, field_valid-set_ne}
use opae_libs.Props.Parent.{fpga_property_parent}
use opae_libs.Prelude.Bits.{bit}
use opae_libs.VfioPlugin.{VfioToken}
use opae_libs.VfioPlugin.Update.{
  PciInfo, guid_bytes, bbs_ver_major, bbs_ver_minor, bbs_ver_patch, with_major, with_minor,
  set_fields_valid, clear_parent_valid, common_fields, update_common, update_kind,
  vfio_fpga_update_properties,
}

abbrev member : ℕ → List ℕ → Bool
member f [] = false
member f (g ∷ fs) = (g == f) || member f fs

stays_valid :
    (p : Properties) (f g : ℕ) → field_valid p f ≡ true → field_valid (set_field_valid p g) f ≡ true
stays_valid p f g v = elim (Bool-cases (g == f)) [
  | inl y ↦ rw ((==_iff g f).0 y) (field_valid-set_self p f)
  | inr y ↦ field_valid-set_ne p g f (λ e. absurd (ground arith)) ∙ v
]

stay_valid :
    (fs : List ℕ) (p : Properties) (f : ℕ)
    → field_valid p f ≡ true
    → field_valid (set_fields_valid fs p) f ≡ true
stay_valid [] p f v = v
stay_valid (g ∷ fs) p f v = stay_valid fs (set_field_valid p g) f (stays_valid p f g v)

fields_valid :
    (fs : List ℕ) (p : Properties) (f : ℕ)
    → member f fs ≡ true
    → field_valid (set_fields_valid fs p) f ≡ true
fields_valid [] p f e = cc
fields_valid (g ∷ fs) p f e = elim (Bool-cases (g == f)) [
  | inl y ↦
      let v : field_valid (set_field_valid p g) f ≡ true =
        rw ((==_iff g f).0 y) (field_valid-set_self p f) in
      stay_valid fs (set_field_valid p g) f v
  | inr y ↦
      let h : member f (g ∷ fs) ≡ true → member f fs ≡ true = rw y (λ x. x) in
      fields_valid fs (set_field_valid p g) f (h e)
]

-- What the getters give, where the object is valid with the bit, and of the kind.
kind_value :
    (p : Properties) (kind f : ℕ) (read : Properties → ℕ)
    → p.magic ≡ fpga_property_magic
    → p.objtype ≡ kind
    → field_valid p fpga_property_objtype ≡ true
    → field_valid p f ≡ true
    → get_with true
        (some p)
        (λ q. if is_object q kind then if_valid q f (read q) else (fpga_invalid_param, none))
      ≡ (fpga_ok, some (read p))
kind_value p kind f read m t o b =
    get_with-valid p
      (λ q. if is_object q kind then if_valid q f (read q) else (fpga_invalid_param, none)) m
    ∙ value
  where
    value :
        (if is_object p kind then if_valid p f (read p) else (fpga_invalid_param, none))
        ≡ (fpga_ok, some (read p))
    value =
        let k : (kind == p.objtype) ≡ true = (==_iff kind p.objtype).1 (sym t) in rw (o, k, b) refl

common_value {ℓ} :
    {A : Type ℓ} (p : Properties) (f : ℕ) (read : Properties → A)
    → p.magic ≡ fpga_property_magic
    → field_valid p f ≡ true
    → get_with true (some p) (λ q. if_valid q f (read q)) ≡ (fpga_ok, some (read p))
common_value p f read m b = get_with-valid p (λ q. if_valid q f (read q)) m ∙ rw b refl

-- The word that three writes to a version leave, the third one to the major version again.
version_lem :
    (a b c w : ℕ)
    → c < 2 ^ 4
    → b < 2 ^ 4
    → a < 2 ^ 4
    → with_major a (with_minor b (with_major c w)) ≡ w / 2 ^ 16 * 2 ^ 16 + b * 2 ^ 8 + a
version_lem a b c w h k l = omega (arith, h, k, l)

updated_lem :
    (i : PciInfo) (t : VfioToken) (p : Properties) (accelerator : Bool)
    → p.magic ≡ fpga_property_magic
    → (t.objtype == fpga_accelerator) ≡ accelerator
    → vfio_fpga_update_properties i (some t) (some p)
      ≡ (fpga_ok, some (update_kind t accelerator (update_common i t p)))
unfolding vfio_fpga_update_properties
updated_lem i t p accelerator m k =
    let good : (p.magic == fpga_property_magic) ≡ true = (==_iff p.magic fpga_property_magic).1 m in
    rw (good, k) refl

-- The getters on a valid object that was filled for the token of a device: its type, the compat id as the guid, and the
-- number of ports and the bitstream id of the token. The version, though, has the patch number of the
-- bitstream as its major number, and the patch number that the object had before.
pub vfio_fpga_update_properties-device :
    (i : PciInfo) (t : VfioToken) (p : Properties)
    → p.magic ≡ fpga_property_magic
    → t.objtype ≡ fpga_device
    → let r = vfio_fpga_update_properties i (some t) (some p) in
      (r.0 ≡ fpga_ok)
      × (fpga_properties_get_object_type true r.1 ≡ (fpga_ok, some fpga_device))
      × (fpga_properties_get_guid true r.1 ≡ (fpga_ok, some (guid_bytes t.compat_id)))
      × (fpga_properties_get_num_slots true r.1 ≡ (fpga_ok, some t.num_ports))
      × (fpga_properties_get_bbs_id true r.1 ≡ (fpga_ok, some t.bitstream_id))
      × (fpga_properties_get_bbs_version true r.1 ≡ (
        fpga_ok,
        some (
            p.word4 / 2 ^ 16 * 2 ^ 16
            + bbs_ver_minor t.bitstream_id * 2 ^ 8
            + bbs_ver_patch t.bitstream_id),
      ))
unfolding fpga_properties_get_object_type fpga_properties_get_guid fpga_properties_get_num_slots
    fpga_properties_get_bbs_id fpga_properties_get_bbs_version
vfio_fpga_update_properties-device i t p m k =
    let q = update_common i t p in
    let p' = update_kind t false q in
    let other : (t.objtype == fpga_accelerator) ≡ false = ground arith in
    let fs =
      fpga_property_guid ∷ fpga_property_bbs_id ∷ fpga_property_bbs_version
      ∷ fpga_property_num_slots ∷ [] in
    let o : field_valid p' fpga_property_objtype ≡ true =
      stay_valid fs q fpga_property_objtype
        (fields_valid common_fields p fpga_property_objtype refl) in
    let valid : (f : ℕ) → member f fs ≡ true → field_valid p' f ≡ true = fields_valid fs q in
    rw (updated_lem i t p false m other) (
      refl,
      common_value p' fpga_property_objtype (λ p. p.objtype) m o ∙ ap (λ n. (fpga_ok, some n)) k,
      common_value p' fpga_property_guid (λ p. p.guid) m (valid fpga_property_guid refl),
      kind_value p' fpga_device fpga_property_num_slots (λ p. p.word0) m k o
          (valid fpga_property_num_slots refl),
      kind_value p' fpga_device fpga_property_bbs_id (λ p. p.word2 + 2 ^ 32 * p.word3) m k o
            (valid fpga_property_bbs_id refl)
          ∙ ap (λ n. (fpga_ok, some n)) (omega arith),
      kind_value p' fpga_device fpga_property_bbs_version (λ p. p.word4) m k o
            (valid fpga_property_bbs_version refl)
          ∙ ap (λ n. (fpga_ok, some n))
              (version_lem (bbs_ver_patch t.bitstream_id) (bbs_ver_minor t.bitstream_id)
                (bbs_ver_major t.bitstream_id) p.word4 (omega arith) (omega arith) (omega arith)),
    )

-- Whether an object has a valid parent.
abbrev pub has_parent : Option Properties → Bool
has_parent none = false
has_parent (some p) = field_valid p fpga_property_parent

cleared_keeps :
    (p : Properties)
    → field_valid (clear_parent_valid p) fpga_property_objtype ≡ field_valid p fpga_property_objtype
cleared_keeps p =
    let n = p.valid_fields in
    let half : n / 2 * 2 / 2 ≡ n / 2 = omega arith in ap (λ (x : ℕ). bit x 0 == 1) half

cleared_parent : (p : Properties) → field_valid (clear_parent_valid p) fpga_property_parent ≡ false
cleared_parent p =
    let n = p.valid_fields in
    let even : n / 2 * 2 % 2 ≡ 0 = omega arith in ap (λ (x : ℕ). x == 1) even

-- The getters on a valid object that was filled for the token of an accelerator: its type, its guid, and the number of its
-- regions of registers; and a parent that the object had is not valid any more.
pub vfio_fpga_update_properties-accelerator :
    (i : PciInfo) (t : VfioToken) (p : Properties)
    → p.magic ≡ fpga_property_magic
    → t.objtype ≡ fpga_accelerator
    → let r = vfio_fpga_update_properties i (some t) (some p) in
      (r.0 ≡ fpga_ok)
      × (fpga_properties_get_object_type true r.1 ≡ (fpga_ok, some fpga_accelerator))
      × (fpga_properties_get_guid true r.1 ≡ (fpga_ok, some (guid_bytes t.guid)))
      × (fpga_properties_get_num_mmio true r.1 ≡ (fpga_ok, some t.user_mmio_count))
      × (has_parent r.1 ≡ false)
unfolding fpga_properties_get_object_type fpga_properties_get_guid fpga_properties_get_num_mmio
vfio_fpga_update_properties-accelerator i t p m k =
    let q = update_common i t p in
    let p' = update_kind t true q in
    let same : (t.objtype == fpga_accelerator) ≡ true = (==_iff t.objtype fpga_accelerator).1 k in
    let c = clear_parent_valid q in
    let fs = fpga_property_guid ∷ fpga_property_num_mmio ∷ [] in
    let o : field_valid p' fpga_property_objtype ≡ true =
      stay_valid fs c fpga_property_objtype
        (cleared_keeps q ∙ fields_valid common_fields p fpga_property_objtype refl) in
    let valid : (f : ℕ) → member f fs ≡ true → field_valid p' f ≡ true = fields_valid fs c in
    let gone : field_valid p' fpga_property_parent ≡ false =
      field_valid-set_ne (set_field_valid c fpga_property_guid) fpga_property_num_mmio
        fpga_property_parent (λ e. absurd (omega (arith, e)))
      ∙ field_valid-set_ne c fpga_property_guid fpga_property_parent
          (λ e. absurd (omega (arith, e)))
      ∙ cleared_parent q in
    rw (updated_lem i t p true m same) (
      refl,
      common_value p' fpga_property_objtype (λ p. p.objtype) m o ∙ ap (λ n. (fpga_ok, some n)) k,
      common_value p' fpga_property_guid (λ p. p.guid) m (valid fpga_property_guid refl),
      kind_value p' fpga_accelerator fpga_property_num_mmio (λ p. p.word1) m k o
          (valid fpga_property_num_mmio refl),
      gone,
    )
