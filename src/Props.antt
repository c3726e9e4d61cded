-- ===== src/Props.antt =====
-- libopae-c/props.h and props.c: the property objects that filter an enumeration. A property has a
-- bit in `valid_fields` that says whether it was set. The lock is taken on entry and given back on
-- every exit, so a call is one step on the object; here its contents before and after.
pub mod Common
pub mod Union
pub mod Parent
pub mod Bodies
pub mod Fields
pub mod Slots
pub mod Alias
mod Tests
use opae_libs.Prelude.{
  ℕ, ◌+◌, ◌^◌, Bool, true, false, ◌&&◌, Option, none, some, List, [], ◌∷◌, ◌==◌,
}
use opae_libs.Prelude.{if◌then◌else◌, replicate}
use opae_libs.Prelude.Bits.{bit}
use Prim.Native.Nat.{bit_or}
use opae_libs.Types.{FpgaResult, fpga_ok, fpga_invalid_param, fpga_not_found}

-- The union `u` as its five 32-bit words on a little-endian machine with the usual alignment:
-- `fpga` is num_slots (word 0), bbs_id (words 2 and 3), bbs_version (word 4); `accelerator` is
-- state (word 0), num_mmio (word 1), num_interrupts (word 2). A parent of 0 is NULL.
pub record Properties : Type 0 where
  pub magic : ℕ
  pub valid_fields : ℕ
  pub guid : List ℕ
  pub parent : ℕ
  pub objtype : ℕ
  pub segment : ℕ
  pub bus : ℕ
  pub device : ℕ
  pub function : ℕ
  pub socket_id : ℕ
  pub object_id : ℕ
  pub vendor_id : ℕ
  pub device_id : ℕ
  pub num_errors : ℕ
  pub word0 : ℕ
  pub word1 : ℕ
  pub word2 : ℕ
  pub word3 : ℕ
  pub word4 : ℕ

abbrev pub fpga_property_magic : ℕ
fpga_property_magic = 0x4650474150524f50

-- FIELD_VALID and SET_FIELD_VALID.
abbrev pub field_valid : Properties → ℕ → Bool
field_valid p f = bit p.valid_fields f == 1

abbrev pub set_field_valid : Properties → ℕ → Properties
set_field_valid p f = record p { valid_fields = bit_or p.valid_fields (2 ^ f) }

-- `none` is NULL, as an argument and as a result.
abbrev pub opae_validate_and_lock_properties : Option Properties → Option Properties
opae_validate_and_lock_properties none = none
opae_validate_and_lock_properties (some p) = if p.magic == fpga_property_magic then some p else none

-- Whether the library functions that `opae_properties_create` calls succeed.
pub record Created : Type 0 where
  pub calloc : Bool
  pub mutexattr_init : Bool
  pub mutexattr_settype : Bool
  pub mutex_init : Bool

abbrev pub cleared : Properties
cleared = record {
  magic = fpga_property_magic;
  valid_fields = 0;
  guid = replicate 16 0;
  parent = 0;
  objtype = 0;
  segment = 0;
  bus = 0;
  device = 0;
  function = 0;
  socket_id = 0;
  object_id = 0;
  vendor_id = 0;
  device_id = 0;
  num_errors = 0;
  word0 = 0;
  word1 = 0;
  word2 = 0;
  word3 = 0;
  word4 = 0;
}

unfoldable pub opae_properties_create : Created → Option Properties
opae_properties_create c =
    if c.calloc && (c.mutexattr_init && (c.mutexattr_settype && c.mutex_init))
    then some cleared
    else none

-- The body that the getters share: the checks of the two pointers, then `read`, which gives the
-- result and what is written through the output pointer.
abbrev pub get_with {ℓ} :
    {A : Type ℓ}
    → Bool
    → Option Properties
    → (Properties → FpgaResult × Option A)
    → FpgaResult × Option A
get_with false prop read = (fpga_invalid_param, none)
get_with true prop read = elim (opae_validate_and_lock_properties prop) [
  | none ↦ (fpga_invalid_param, none)
  | some p ↦ read p
]

-- The value of a field, if it is valid.
abbrev pub if_valid {ℓ} : {A : Type ℓ} → Properties → ℕ → A → FpgaResult × Option A
if_valid p f value = if field_valid p f then (fpga_ok, some value) else (fpga_not_found, none)

-- The body that the setters share: the check of the object, then `write`.
abbrev pub set_with :
    Option Properties → (Properties → FpgaResult × Properties) → FpgaResult × Option Properties
set_with prop write = elim (opae_validate_and_lock_properties prop) [
  | none ↦ (fpga_invalid_param, prop)
  | some p ↦ let (res, p') = write p in (res, some p')
]
