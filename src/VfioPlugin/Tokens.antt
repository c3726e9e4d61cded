-- ===== src/VfioPlugin/Tokens.antt =====
-- The tokens of a device, one for a region.
use opae_libs.Prelude.{
  ℕ, ◌%◌, ◌/◌, ◌^◌, Bool, true, false, ◌||◌, Option, none, some, List, [], ◌∷◌, ◌++◌, ◌==◌,
}
use opae_libs.Prelude.{refl, All}
use opae_libs.Types.{fpga_device, fpga_accelerator}
use opae_libs.VfioPlugin.{
  Window, Walk, done, null, outside, no_fuel, then_walk, for_each_dfh, VfioToken, PciDevice, System,
  new_token, find_token, get_found, get_token, write_token, stp_body, with_stp, port_token,
  port_walked, walk_port, fme_ports, port_at, one_port, ports_from, fme_token, pr_body, with_compat,
  fme_walked, walk_fme, region_walked, other_bar, bar_at, bars_from, other_bars, walk_bars,
  walk_opened, vfio_walk, get_guid, shifted, whole_region,
}
use opae_libs.VfioPlugin.Headers.{Inside, for_each_dfh-Ended}
use opae_libs.VfioPlugin.Kept.{
  AtMostOne, NoMemory, Kept, then-Kept, found-Kept, any-Kept, write-AtMostOne, get_token-Kept,
  with_stp-region, with_compat-region,
}

walk_port-Kept :
    (system : System) (d : PciDevice) (parent region : ℕ) (m : Window)
    → Inside m
    → AtMostOne d.tokens
    → Kept system (walk_port system d parent region m)
unfolding walk_port port_walked
walk_port-Kept system d parent region m i a =
    then-Kept system (get_token system d.tokens region fpga_accelerator)
      (port_walked system d parent region m)
      (get_token-Kept system d.tokens region fpga_accelerator a)
      (λ ts k.
        any-Kept system m (for_each_dfh m (stp_body m) none)
          (λ found. done (record {
            tokens = write_token ts region (λ t. with_stp found (port_token system m parent t));
            resets =
                d.resets
                ++ (region, opae_libs.VfioPlugin.legacy_port_reset (system.ack region)) ∷ [];
          }))
          i (for_each_dfh-Ended m (stp_body m) none)
          (λ found.
            write-AtMostOne region (λ t. with_stp found (port_token system m parent t)) ts
              (λ t. with_stp-region found (port_token system m parent t)) k))

-- The feature list of a port that is implemented, whose region can be had, stays in the region.
abbrev pub PortAt : ℕ → Option Window → Type 0
PortAt offset_r none = Unit
PortAt offset_r (some m) = Inside (shifted m (offset_r % 2 ^ 24))

abbrev pub PortInside : System → ℕ → Bool → Type 0
PortInside system offset_r false = Unit
PortInside system offset_r true = PortAt offset_r (system.region_get (offset_r / 2 ^ 32 % 2 ^ 3))

port_at-Kept :
    (system : System) (d : PciDevice) (fme offset_r : ℕ) (o : Option Window)
    → PortAt offset_r o
    → AtMostOne d.tokens
    → Kept system (port_at system d fme offset_r o)
unfolding port_at
port_at-Kept system d fme offset_r none i a = a
port_at-Kept system d fme offset_r (some m) i a =
    walk_port-Kept system d fme (offset_r / 2 ^ 32 % 2 ^ 3) (shifted m (offset_r % 2 ^ 24)) i a

one_port-Kept :
    (system : System) (d : PciDevice) (fme offset_r : ℕ) (implemented : Bool)
    → PortInside system offset_r implemented
    → AtMostOne d.tokens
    → Kept system (one_port system d fme offset_r implemented)
unfolding one_port
one_port-Kept system d fme offset_r false i a = a
one_port-Kept system d fme offset_r true i a =
    port_at-Kept system d fme offset_r (system.region_get (offset_r / 2 ^ 32 % 2 ^ 3)) i a

abbrev pub PortsInside : System → Window → List ℕ → Type 0
PortsInside system m ps = All (λ p. PortInside system (m.word p) (m.word p / 2 ^ 60 % 2 == 1)) ps

ports_from-Kept :
    (system : System) (m : Window) (fme : ℕ) (ps : List ℕ) (d : PciDevice)
    → PortsInside system m ps
    → AtMostOne d.tokens
    → Kept system (ports_from system m fme ps d)
unfolding ports_from
ports_from-Kept system m fme [] d i a = a
ports_from-Kept system m fme (p ∷ ps) d i a =
    found-Kept system (one_port system d fme (m.word p) (m.word p / 2 ^ 60 % 2 == 1))
      (ports_from system m fme ps)
      (one_port-Kept system d fme (m.word p) (m.word p / 2 ^ 60 % 2 == 1) i.0 a)
      (λ d'. ports_from-Kept system m fme ps d' i.1)

walk_fme-Kept :
    (system : System) (d : PciDevice) (m : Window) (region : ℕ)
    → Inside m
    → PortsInside system m fme_ports
    → AtMostOne d.tokens
    → Kept system (walk_fme system d m region)
unfolding walk_fme fme_walked
walk_fme-Kept system d m region i is a =
    then-Kept system (get_token system d.tokens region fpga_device) (fme_walked system d region m)
      (get_token-Kept system d.tokens region fpga_device a)
      (λ ts k.
        any-Kept system m (for_each_dfh m (pr_body system m) none)
          (λ c. ports_from system m region fme_ports (record d {
            tokens = write_token ts region (λ t. with_compat c (fme_token system m t));
          }))
          i (for_each_dfh-Ended m (pr_body system m) none)
          (λ c.
            ports_from-Kept system m region fme_ports
              (record d {
                tokens = write_token ts region (λ t. with_compat c (fme_token system m t));
              })
              is
              (write-AtMostOne region (λ t. with_compat c (fme_token system m t)) ts
                (λ t. with_compat-region c (fme_token system m t)) k)))

region_walked-Kept :
    (system : System) (d : PciDevice) (region : ℕ) (m : Window) (own_reset : Bool)
    → AtMostOne d.tokens
    → Kept system (region_walked system d region m own_reset)
unfolding region_walked
region_walked-Kept system d region m own_reset a =
    then-Kept system (get_token system d.tokens region fpga_accelerator)
      (λ ts. done (record d { tokens = write_token ts region (whole_region system m own_reset) }))
      (get_token-Kept system d.tokens region fpga_accelerator a)
      (λ ts. write-AtMostOne region (whole_region system m own_reset) ts (λ t. refl))

other_bar-Kept :
    (system : System) (d : PciDevice) (i : ℕ) (m : Window) (empty : Bool)
    → AtMostOne d.tokens
    → Kept system (other_bar system d i m empty)
unfolding other_bar
other_bar-Kept system d i m true a = a
other_bar-Kept system d i m false a = region_walked-Kept system d i m false a

bars_from-Kept :
    (system : System) (bars : List ℕ) (d : PciDevice)
    → AtMostOne d.tokens
    → Kept system (bars_from system bars d)
unfolding bars_from bar_at
bars_from-Kept system [] d a = a
bars_from-Kept system (i ∷ bars) d a =
    found-Kept system (bar_at system d i (system.region_get i)) (bars_from system bars)
      (elim (system.region_get i) as (λ o. Kept system (bar_at system d i o)) [
        | none ↦ a
        | some m ↦ other_bar-Kept system d i m ((m.word 0 == 0) || (m.word 8 == 0)) a
      ])
      (bars_from-Kept system bars)

-- The same of the walk of a device, whose result has a code.
abbrev pub Sound : System → Walk (ℕ × PciDevice) → Type 0
Sound system (done (code, d)) = AtMostOne d.tokens
Sound system null = NoMemory system
Sound system (outside h) = ⊥
Sound system no_fuel = ⊥

code-Sound :
    (system : System) (w : Walk PciDevice)
    → Kept system w
    → Sound system (then_walk w (λ d. done (0, d)))
code-Sound system (done d) k = k
code-Sound system null k = k
code-Sound system (outside h) k = k
code-Sound system no_fuel k = k

bars-Sound :
    (system : System) (w : Walk PciDevice) (f : PciDevice → Walk PciDevice)
    → Kept system w
    → ((d : PciDevice) → AtMostOne d.tokens → Kept system (f d))
    → Sound system (then_walk w (λ d. then_walk (f d) (λ d'. done (0, d'))))
bars-Sound system (done d) f k g = code-Sound system (f d) (g d k)
bars-Sound system null f k g = k
bars-Sound system (outside h) f k g = k
bars-Sound system no_fuel f k g = k

-- Where region 0 is that of a management engine, its feature list and those of its ports stay in their
-- regions; nothing is asked of other devices, whose headers are not walked.
abbrev pub BarsInside : System → Window → Bool → Type 0
BarsInside system m false = Unit
BarsInside system m true = Inside m × PortsInside system m fme_ports

abbrev pub DeviceInside : System → (ℕ × ℕ → Bool) → Option Window → Type 0
DeviceInside system is_fme none = Unit
DeviceInside system is_fme (some m) = BarsInside system m (is_fme (get_guid system m 8))

walk_bars-Sound :
    (system : System) (d : PciDevice) (m : Window) (is_fme : Bool)
    → BarsInside system m is_fme
    → AtMostOne d.tokens
    → Sound system (walk_bars system d m is_fme)
unfolding walk_bars
walk_bars-Sound system d m true i a =
    code-Sound system (walk_fme system d m 0) (walk_fme-Kept system d m 0 i.0 i.1 a)
walk_bars-Sound system d m false i a =
    bars-Sound system (region_walked system d 0 m true) (bars_from system other_bars)
      (region_walked-Kept system d 0 m true a) (bars_from-Kept system other_bars)

walk_opened-Sound :
    (system : System) (is_fme : ℕ × ℕ → Bool) (d : PciDevice) (o : Option Window)
    → DeviceInside system is_fme o
    → AtMostOne d.tokens
    → Sound system (walk_opened system is_fme d o)
unfolding walk_opened
walk_opened-Sound system is_fme d none i a = a
walk_opened-Sound system is_fme d (some m) i a =
    walk_bars-Sound system d m (is_fme (get_guid system m 8)) i a

-- The walk of a device whose feature lists stay in their regions, and that has at most one token for
-- each region, ends, though nothing else is asked of the headers and registers: no list can be a
-- circle, and no header outside a region is read. It has a result, after which the device still has
-- at most one token for each region, or `malloc` gave no memory for a token, which the code then uses.
pub vfio_walk-Sound :
    (system : System) (is_fme : ℕ × ℕ → Bool) (opened : Bool) (d : PciDevice)
    → DeviceInside system is_fme (system.region_get 0)
    → AtMostOne d.tokens
    → Sound system (vfio_walk system is_fme opened d)
unfolding vfio_walk
vfio_walk-Sound system is_fme false d i a = a
vfio_walk-Sound system is_fme true d i a =
    walk_opened-Sound system is_fme d (system.region_get 0) i a
