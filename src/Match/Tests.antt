-- ===== src/Match/Tests.antt =====
-- An accelerator, and filters by bus, by the number of regions of registers and by parent.
use opae_libs.Prelude.{
  ℕ, true, false, Option, none, some, List, [], ◌∷◌, ◌≡◌, ◌↔◌, refl, replicate, ◌==◌, if◌then◌else◌,
}
use opae_libs.Types.{fpga_accelerator}
use opae_libs.Props.{Properties, cleared, set_field_valid}
use opae_libs.Props.Common.{fpga_property_objtype, fpga_property_bus}
use opae_libs.Props.Union.{fpga_property_num_mmio}
use opae_libs.Props.Parent.{fpga_property_parent}
use opae_libs.Match.{DevList, matches_filter, matches_filters}
use opae_libs.Match.Values.{FilterFits, matches_filter_iff}

abbrev found : DevList
found = record {
  objtype = fpga_accelerator;
  guid = replicate 16 7;
  segment = 0;
  bus = 5;
  device = 0;
  function = 0;
  socket_id = 1;
  vendor_id = 0x8086;
  device_id = 0x09c4;
  fpga_num_slots = 0;
  fpga_bitstream_id = 0;
  fpga_bbs_version = 0;
  accelerator_state = 0;
  accelerator_num_mmios = 2;
  accelerator_num_irqs = 4;
  fme_path = some (47 ∷ 102 ∷ []);
  object_id = some 9;
  num_errors = 0;
}

abbrev path_of : ℕ → Option (List ℕ)
path_of token = if token == 3 then some (47 ∷ 102 ∷ []) else none

abbrev on_bus : ℕ → Properties
on_bus b = record (set_field_valid cleared fpga_property_bus) { bus = b }

abbrev with_mmios : ℕ → Properties
with_mmios n =
    record (set_field_valid (set_field_valid cleared fpga_property_objtype)
      fpga_property_num_mmio) { objtype = fpga_accelerator; word1 = n }

same_bus : matches_filter path_of true found (on_bus 5) ≡ true
unfolding matches_filter
same_bus = refl

other_bus : matches_filter path_of true found (on_bus 6) ≡ false
unfolding matches_filter
other_bus = refl

either : matches_filters path_of found (on_bus 6 ∷ with_mmios 2 ∷ []) ≡ true
unfolding matches_filters
either = refl

abbrev under : ℕ → Properties
under token = record (set_field_valid (on_bus 5) fpga_property_parent) { parent = token }

same_parent : matches_filter path_of true found (under 3) ≡ true
unfolding matches_filter
same_parent = refl

other_parent : matches_filter path_of true found (under 4) ≡ false
unfolding matches_filter
other_parent = refl

matches_filter_iff_example :
    (matches_filter path_of true found (under 3) ≡ true) ↔ FilterFits path_of found (under 3)
matches_filter_iff_example = matches_filter_iff path_of found (under 3) refl
