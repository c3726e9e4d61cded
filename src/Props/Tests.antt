-- ===== src/Props/Tests.antt =====
-- A device object that holds a parent token, and the theorems at it.
use opae_libs.Prelude.{none, some, true, false, [], ◌∷◌, ◌≡◌, refl}
use opae_libs.Prelude.{arith, ◌==◌, if◌then◌else◌}
use opae_libs.Types.{fpga_ok}
use opae_libs.Types.{fpga_accelerator}
use opae_libs.Token.{WrappedToken, Tokens, opae_wrapped_token_magic}
use opae_libs.Token.Count.{IsValid, refs}
use opae_libs.Props.{Properties, Created, cleared, opae_properties_create}
use opae_libs.Props.Common.{fpga_properties_get_object_id, fpga_properties_set_object_type}
use opae_libs.Props.Fields
use opae_libs.Props.Fields.{Field}
use opae_libs.Props.Fields.Laws.{get-set}
use opae_libs.Props.Union.{fpga_properties_set_num_slots, fpga_properties_get_accelerator_state}
use opae_libs.Props.Alias.{num_slots-read-state}
use opae_libs.Props.Parent.{fpga_properties_get_parent, fpga_properties_set_parent}
use opae_libs.Props.Parent.Holds.{HasParent}
use opae_libs.Props.Parent.Change.{fpga_properties_set_parent-same}

-- Bits 0 (parent), 1 (object type) and 10 (object id) are set.
abbrev filter : Properties
filter = record cleared { valid_fields = 1027; parent = 8; object_id = 5 }

abbrev wrapped : WrappedToken
wrapped = record {
  magic = opae_wrapped_token_magic;
  opae_token = 77;
  ref_count = 1;
  adapter_table = record {
    fpga_open = none;
    fpga_close = none;
    fpga_clone_token = none;
    fpga_destroy_token = none;
  };
}

abbrev two_tokens : Tokens
two_tokens = record {
  cell = λ q. if 8 == q then some wrapped else if 9 == q then some wrapped else none;
  in_use = 9 ∷ 8 ∷ [];
}

abbrev all_made : Created
all_made = record {
  calloc = true;
  mutexattr_init = true;
  mutexattr_settype = true;
  mutex_init = true;
}

create_all : opae_properties_create all_made ≡ some cleared
unfolding opae_properties_create
create_all = refl

create_no_mutex : opae_properties_create (record all_made { mutex_init = false }) ≡ none
unfolding opae_properties_create
create_no_mutex = refl

object_id_5 : fpga_properties_get_object_id true (some filter) ≡ (fpga_ok, some 5)
unfolding fpga_properties_get_object_id
object_id_5 = refl

two_tokens-IsValid : IsValid two_tokens
two_tokens-IsValid q = ground arith

filter-HasParent : HasParent two_tokens filter
filter-HasParent = (refl, refl, (omega arith, omega arith))

get-set_example :
    let (res, prop) = Fields.set Field.function (some filter) 7 in
    (res ≡ fpga_ok) × (Fields.get Field.function true prop ≡ (fpga_ok, some 7))
get-set_example = get-set Field.function filter 7 refl refl

num_slots-read-state_example :
    fpga_properties_get_accelerator_state true
      (fpga_properties_set_object_type
        (fpga_properties_set_num_slots (some filter) 3).1
        fpga_accelerator).1
    ≡ (fpga_ok, some 3)
num_slots-read-state_example = num_slots-read-state filter 3 refl refl

fpga_properties_set_parent-same_example :
    let (res, prop, ts') = fpga_properties_set_parent two_tokens (some filter) 8 in
    (res ≡ fpga_ok) × (fpga_properties_get_parent true prop ≡ (fpga_ok, some 8)) × (refs ts' 8 ≡ 0)
fpga_properties_set_parent-same_example =
    fpga_properties_set_parent-same two_tokens filter two_tokens-IsValid filter-HasParent refl
