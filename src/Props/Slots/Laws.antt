-- ===== src/Props/Slots/Laws.antt =====
-- What each getter of the union says after each setter, and that the fields of the union and the
-- common ones do not disturb one another.
use opae_libs.Prelude.{ℕ, Bool, true, false, none, some, ◌≡◌, ◌≢◌, refl, ◌==◌, ◌&&◌}
use opae_libs.Prelude.{if◌then◌else◌, ap, ap₂, sym, ◌∙◌}
use opae_libs.Prelude.Bits.{bit}
use opae_libs.Types.{fpga_ok, fpga_invalid_param, fpga_not_found}
use opae_libs.Props.{Properties, fpga_property_magic, field_valid, if_valid}
use opae_libs.Props.Bodies.{field_valid-set_self, field_valid-set_ne}
use opae_libs.Props.Common.{fpga_property_objtype}
use opae_libs.Props.Fields
use opae_libs.Props.Fields.{Field}
use opae_libs.Props.Union.{is_object}
use opae_libs.Props.Slots.{Slot, number, kind, get, set, value, put, get-eq, set-eq, set-refused}
use opae_libs.Props.Slots.{valid_fields-put, magic-put, objtype-put, value-put_self, value-put_ne}
use opae_libs.Props.Slots.{common-put, number-ne-common}

field_valid-put_self :
    (s : Slot) (p : Properties) (v : ℕ) → field_valid (put s p v) (number s) ≡ true
field_valid-put_self s p v =
    ap (λ (x : ℕ). bit x (number s) == 1) (valid_fields-put s p v)
    ∙ field_valid-set_self p (number s)

field_valid-put_ne :
    (s : Slot) (p : Properties) (v f : ℕ)
    → number s ≢ f
    → field_valid (put s p v) f ≡ field_valid p f
field_valid-put_ne s p v f h =
    ap (λ (x : ℕ). bit x f == 1) (valid_fields-put s p v) ∙ field_valid-set_ne p (number s) f h

is_object-put : (s : Slot) (p : Properties) (v k : ℕ) → is_object (put s p v) k ≡ is_object p k
is_object-put s p v k =
    ap₂ (λ (b : Bool) (t : ℕ). b && (k == t))
      (field_valid-put_ne s p v fpga_property_objtype (number-ne-common s Field.objtype))
      (objtype-put s p v)

-- On a valid object of its type, a value is stored, and reading the field gives it back.
pub slot-get-set :
    (s : Slot) (p : Properties) (v : ℕ)
    → p.magic ≡ fpga_property_magic
    → is_object p (kind s) ≡ true
    → let (res, prop) = set s (some p) v in (res ≡ fpga_ok) × (get s true prop ≡ (fpga_ok, some v))
slot-get-set s p v h k = rw (set-eq s p v h k) (
  refl,
  get-eq s (put s p v) (magic-put s p v ∙ h)
      ∙ (ap
            (λ (b : Bool).
              if b
              then if_valid (put s p v) (number s) (value s (put s p v))
              else (fpga_invalid_param, none))
            (is_object-put s p v (kind s) ∙ k)
          ∙ (ap
                (λ (b : Bool).
                  if b then (fpga_ok, some (value s (put s p v))) else (fpga_not_found, none))
                (field_valid-put_self s p v)
              ∙ ap (λ (x : ℕ). (fpga_ok, some x)) (value-put_self s p v))),
)

-- On a valid object of the type, storing a value in one field of the type changes no other field of
-- the type, nor whether it is valid.
pub slot-get-set_ne :
    (s t : Slot) (p : Properties) (v : ℕ)
    → p.magic ≡ fpga_property_magic
    → is_object p (kind s) ≡ true
    → kind s ≡ kind t
    → number s ≢ number t
    → get t true (set s (some p) v).1 ≡ get t true (some p)
slot-get-set_ne s t p v h k same ne = rw (set-eq s p v h k) (
    get-eq t (put s p v) (magic-put s p v ∙ h)
    ∙ rw
        (
          is_object-put s p v (kind t),
          field_valid-put_ne s p v (number t) ne,
          value-put_ne s t p v same ne,
        )
        (sym (get-eq t p h)))

-- Storing a value in a field of the union changes no common field, nor whether it is valid.
pub slot-get_field :
    (s : Slot) (f : Field) (p : Properties) (v : ℕ)
    → p.magic ≡ fpga_property_magic
    → is_object p (kind s) ≡ true
    → Fields.get f true (set s (some p) v).1 ≡ Fields.get f true (some p)
slot-get_field s f p v h k = rw (set-eq s p v h k) (
    Fields.get-eq f (put s p v) (magic-put s p v ∙ h)
    ∙ rw (field_valid-put_ne s p v (Fields.number f) (number-ne-common s f), common-put s f p v)
        (sym (Fields.get-eq f p h)))

-- On a valid object whose type is not set or is not that of the field, the getter and the setter
-- return FPGA_INVALID_PARAM, and nothing is read or written.
pub slot_refused :
    (s : Slot) (p : Properties) (v : ℕ)
    → p.magic ≡ fpga_property_magic
    → is_object p (kind s) ≡ false
    → (get s true (some p) ≡ (fpga_invalid_param, none))
      × (set s (some p) v ≡ (fpga_invalid_param, some p))
slot_refused s p v h k = (
  get-eq s p h
      ∙ ap
          (λ (b : Bool).
            if b then if_valid p (number s) (value s p) else (fpga_invalid_param, none))
          k,
  set-refused s p v h k,
)
