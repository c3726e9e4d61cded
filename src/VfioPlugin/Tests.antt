-- ===== src/VfioPlugin/Tests.antt =====
-- A management engine with a port in its own region, and a port without a signal tap.
use opae_libs.Prelude.{
  ℕ, ◌+◌, ◌*◌, ◌/◌, ◌^◌, true, false, none, some, [], ◌∷◌, ◌==◌, ◌≡◌, ◌≤◌, sym, ◌∙◌, refl, arith,
  if◌then◌else◌,
}
use opae_libs.Types.{fpga_ok, fpga_exception, fpga_device, fpga_accelerator}
use opae_libs.VfioPlugin.{
  Window, System, VfioToken, new_token, port_token, legacy_port_reset, walk_port, vfio_walk,
  next_dfh, shifted, port_timeout,
}
use opae_libs.Props.{cleared}
use opae_libs.Props.Common.{fpga_properties_get_object_type, fpga_properties_get_guid}
use opae_libs.Props.Union.{
  fpga_properties_get_num_slots, fpga_properties_get_bbs_id, fpga_properties_get_bbs_version,
  fpga_properties_get_num_mmio,
}
use opae_libs.VfioPlugin.Update.{
  PciInfo, guid_bytes, bbs_ver_minor, bbs_ver_patch, vfio_fpga_update_properties,
}
use opae_libs.VfioPlugin.Update.Getters.{
  has_parent, vfio_fpga_update_properties-device, vfio_fpga_update_properties-accelerator,
}
use opae_libs.VfioPlugin.Headers.{acked, legacy_port_reset_lem}
use opae_libs.VfioPlugin.Headers.{Header, at_start, follow, Inside}
use mathlib.Core.Path.{subst}
use opae_libs.VfioPlugin.Tokens.{DeviceInside, Sound, vfio_walk-Sound}
use opae_libs.VfioPlugin.Shared.{Shared, walk_port-Shared}
use opae_libs.VfioPlugin.Past.{Past, walk_port-Past}

-- The last header is at 0; the first port is implemented, in region 0 from 64 on.
abbrev words : ℕ → ℕ
words a =
    if a == 0 then 2 ^ 40 else if a == 0x38 then 2 ^ 60 + 64 else if a == 64 then 2 ^ 40 else 0

abbrev bar0 : Window
bar0 = record { word = words; size = 4096 }

abbrev system : System
system = record {
  bswap = λ n. n;
  malloc = λ ts. true;
  ack = λ region n. n == 2;
  region_get = λ i. if i == 0 then some bar0 else none;
}

abbrev fme : VfioToken
fme = new_token 0 fpga_device

legacy_port_reset_lem_example :
    legacy_port_reset (system.ack 0)
    ≡ some (
        if acked (system.ack 0) 0 (port_timeout + 1)
        then (fpga_ok, false)
        else (fpga_exception, true))
legacy_port_reset_lem_example = legacy_port_reset_lem (system.ack 0)

-- A list whose first header is the last one.
one_header-Inside : (m : Window) → next_dfh m 0 ≡ none → 8 ≤ m.size → Inside m
one_header-Inside m e big h c = rw (first h c) big
  where
    first : (h : ℕ) → Header m h → h ≡ 0
    first h at_start = refl
    first h' (follow {h} c i n) =
        let g : next_dfh m 0 ≡ some h' = subst (λ k. next_dfh m k ≡ some h') (first h c) n in
        let k : none ≡ some h' = sym e ∙ g in cc

system-DeviceInside : DeviceInside system (λ guid. true) (system.region_get 0)
unfolding next_dfh
system-DeviceInside = (
  one_header-Inside bar0 refl (omega arith),
  (one_header-Inside (shifted bar0 64) refl (omega arith), (tt, (tt, (tt, tt)))),
)

vfio_walk-Sound_example :
    Sound system (vfio_walk system (λ guid. true) true (record { tokens = []; resets = [] }))
vfio_walk-Sound_example =
    vfio_walk-Sound system (λ guid. true) true (record { tokens = []; resets = [] })
      system-DeviceInside (λ r. omega arith)

walk_port-Shared_example :
    Shared
      (record { tokens = fme ∷ []; resets = [] })
      fme
      0
      (walk_port system (record { tokens = fme ∷ []; resets = [] }) 0 0 bar0)
walk_port-Shared_example =
    walk_port-Shared system (record { tokens = fme ∷ []; resets = [] }) fme 0 bar0 refl

-- The port stands at 64 of the BAR.
walk_port-Past_example :
    Past system bar0 64 2 false
      (walk_port system (record { tokens = fme ∷ []; resets = [] }) 0 2 (shifted bar0 64))
walk_port-Past_example =
    walk_port-Past system (record { tokens = fme ∷ []; resets = [] }) 0 2 64 bar0 false refl refl

abbrev pci : PciInfo
pci = record {
  vendor = 0x8086;
  pci_device = 0x0b30;
  segment = 0;
  bus = 5;
  device = 0;
  function = 0;
  numa_node = 0;
}

-- Version 1.2.3.
abbrev engine : VfioToken
engine = record fme { bitstream_id = 2 ^ 56 + 2 * 2 ^ 52 + 3 * 2 ^ 48 }

patch_as_major :
    fpga_properties_get_bbs_version true
      (vfio_fpga_update_properties pci (some engine) (some cleared)).1
    ≡ (fpga_ok, some (2 * 2 ^ 8 + 3))
unfolding fpga_properties_get_bbs_version vfio_fpga_update_properties
patch_as_major = refl

vfio_fpga_update_properties-device_example :
    let r = vfio_fpga_update_properties pci (some engine) (some cleared) in
    (r.0 ≡ fpga_ok)
    × (fpga_properties_get_object_type true r.1 ≡ (fpga_ok, some fpga_device))
    × (fpga_properties_get_guid true r.1 ≡ (fpga_ok, some (guid_bytes engine.compat_id)))
    × (fpga_properties_get_num_slots true r.1 ≡ (fpga_ok, some engine.num_ports))
    × (fpga_properties_get_bbs_id true r.1 ≡ (fpga_ok, some engine.bitstream_id))
    × (fpga_properties_get_bbs_version true r.1 ≡ (
      fpga_ok,
      some (
          0 / 2 ^ 16 * 2 ^ 16
          + bbs_ver_minor engine.bitstream_id * 2 ^ 8
          + bbs_ver_patch engine.bitstream_id),
    ))
vfio_fpga_update_properties-device_example =
    vfio_fpga_update_properties-device pci engine cleared refl refl

abbrev port : VfioToken
port = port_token system bar0 0 (new_token 2 fpga_accelerator)

vfio_fpga_update_properties-accelerator_example :
    let r = vfio_fpga_update_properties pci (some port) (some cleared) in
    (r.0 ≡ fpga_ok)
    × (fpga_properties_get_object_type true r.1 ≡ (fpga_ok, some fpga_accelerator))
    × (fpga_properties_get_guid true r.1 ≡ (fpga_ok, some (guid_bytes port.guid)))
    × (fpga_properties_get_num_mmio true r.1 ≡ (fpga_ok, some port.user_mmio_count))
    × (has_parent r.1 ≡ false)
vfio_fpga_update_properties-accelerator_example =
    vfio_fpga_update_properties-accelerator pci port cleared refl refl
