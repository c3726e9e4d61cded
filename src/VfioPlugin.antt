-- ===== src/VfioPlugin.antt =====
-- plugins/vfio/dfl.c and the tokens and accesses of plugins/vfio/opae_vfio.c: what the plugin finds on a
-- device. A region is read as its 64-bit words, at the offset in bytes; reading one does not change it.
-- A walk that leaves the region is kept apart; the registers at fixed offsets are not compared with
-- the size.
pub mod Headers
pub mod Kept
pub mod Tokens
pub mod Access
pub mod Shared
pub mod Past
pub mod Update
mod Tests
use opae_libs.Prelude.{
  ℕ, zero, suc, ◌+◌, ◌-◌, ◌*◌, ◌/◌, ◌%◌, ◌^◌, Bool, true, false, ◌&&◌, ◌||◌, Option, none, some,
}
use opae_libs.Prelude.{List, [], ◌∷◌, ◌++◌, set, get_or, replicate, u32, ltb, ◌==◌, if◌then◌else◌}
use opae_libs.Types.{FpgaResult, fpga_ok, fpga_exception, fpga_device, fpga_accelerator}

-- The memory that a pointer into a region reaches.
pub record Window : Type 0 where
  pub word : ℕ → ℕ
  pub size : ℕ

-- `mmio + offset`.
abbrev pub shifted : Window → ℕ → Window
shifted m offset = record { word = λ a. m.word (a + offset); size = m.size - offset }

-- How a walk ends: with a result, with a NULL that is used, or with a read outside the region, whose
-- behaviour is not defined; the last one is that the rounds given do not suffice.
pub data Walk {ℓ} (A : Type ℓ) : Type ℓ where
  done : A → Walk A
  null : Walk A
  outside : ℕ → Walk A
  no_fuel : Walk A

abbrev pub then_walk {ℓ κ} : {A : Type ℓ} {B : Type κ} → Walk A → (A → Walk B) → Walk B
then_walk (done a) f = f a
then_walk null f = null
then_walk (outside offset) f = outside offset
then_walk no_fuel f = no_fuel

-- The bit fields of a header.
abbrev pub dfh_id : ℕ → ℕ
dfh_id h = h % 2 ^ 12

abbrev pub dfh_next : ℕ → ℕ
dfh_next h = h / 2 ^ 16 % 2 ^ 24

abbrev pub dfh_eol : ℕ → ℕ
dfh_eol h = h / 2 ^ 40 % 2

unfoldable pub next_dfh : Window → ℕ → Option ℕ
next_dfh m h =
    if (dfh_next (m.word h) == 0) || (dfh_eol (m.word h) == 1)
    then none
    else some (h + dfh_next (m.word h))

-- The body gives whether it breaks, and its state; `fuel` is the rounds given. The macro does not compare
-- a header with the size of the region: `outside` is where it reads behind the region, and nothing is
-- said of what it does from there on.
unfoldable pub for_each_from {ℓ} : {A : Type ℓ} → ℕ → Window → (A → ℕ → Bool × A) → A → ℕ → Walk A
unfolding next_dfh
for_each_from zero m body a h = no_fuel
for_each_from {A = A} (suc fuel) m body a h =
    let (stop, a') = body a h in
    let rest : Walk A = elim (next_dfh m h) [
      | none ↦ done a'
      | some h' ↦ for_each_from fuel m body a' h'
    ] in
    if ltb m.size (h + 8) then outside h else if stop then done a' else rest

-- From the start of the region on, with one round for each byte and one more.
unfoldable pub for_each_dfh {ℓ} : {A : Type ℓ} → Window → (A → ℕ → Bool × A) → A → Walk A
unfolding for_each_from
for_each_dfh m body a = for_each_from (suc m.size) m body a 0

abbrev pub port_timeout : ℕ
port_timeout = 1000

-- The loop: `ack` is what the poll with a number gives. The Boolean is the bit `port_reset` at the end;
-- none is that the rounds given do not suffice.
unfoldable pub reset_from : ℕ → (ℕ → Bool) → ℕ → Option (FpgaResult × Bool)
reset_from zero ack cycles = none
reset_from (suc fuel) ack cycles =
    let rest = reset_from fuel ack (cycles + 1) in
    if ack cycles
    then some (fpga_ok, false)
    else if ltb port_timeout (cycles + 1)
    then some (fpga_exception, true)
    else rest

unfoldable pub legacy_port_reset : (ℕ → Bool) → Option (FpgaResult × Bool)
unfolding reset_from
legacy_port_reset ack = reset_from (port_timeout + 1) ack 0

-- A guid is the two words that it is stored in. The pointers to the token's device and to the next
-- token are not kept, and a parent is the region of its token: a device has one token for a region.
pub record VfioToken : Type 0 where
  pub region : ℕ
  pub objtype : ℕ
  pub guid : ℕ × ℕ
  pub compat_id : ℕ × ℕ
  pub mmio_size : ℕ
  pub user_mmio_count : ℕ
  pub user_mmio : List ℕ
  pub bitstream_id : ℕ
  pub bitstream_mdata : ℕ
  pub num_ports : ℕ
  pub parent : Option ℕ
  pub legacy_reset : Bool

-- The tokens of a device, and the resets made, with the region and how each ended.
pub record PciDevice : Type 0 where
  pub tokens : List VfioToken
  pub resets : List (ℕ × Option (FpgaResult × Bool))

-- `bswap_64`; whether there is memory for a token; the polls of a reset in a region; and the region
-- with an index.
pub record System : Type 0 where
  pub bswap : ℕ → ℕ
  pub malloc : List VfioToken → Bool
  pub ack : ℕ → ℕ → Bool
  pub region_get : ℕ → Option Window

-- Two words from an offset on.
abbrev pub get_guid : System → Window → ℕ → ℕ × ℕ
get_guid env m h = (env.bswap (m.word (h + 8)), env.bswap (m.word h))

abbrev pub user_mmio_max : ℕ
user_mmio_max = 8

abbrev pub new_token : ℕ → ℕ → VfioToken
new_token region objtype = record {
  region = region;
  objtype = objtype;
  guid = (0, 0);
  compat_id = (0, 0);
  mmio_size = 0;
  user_mmio_count = 0;
  user_mmio = replicate user_mmio_max 0;
  bitstream_id = 0;
  bitstream_mdata = 0;
  num_ports = 0;
  parent = none;
  legacy_reset = false;
}

abbrev pub find_token : List VfioToken → ℕ → Option VfioToken
find_token [] region = none
find_token (t ∷ ts) region = if t.region == region then some t else find_token ts region

-- The list with the token of the region on it; a token that is there is given as it is.
get_found : System → List VfioToken → ℕ → ℕ → Option VfioToken → Walk (List VfioToken)
get_found env ts region objtype (some t) = done ts
get_found env ts region objtype none =
    if env.malloc ts then done (new_token region objtype ∷ ts) else null

unfoldable pub get_token : System → List VfioToken → ℕ → ℕ → Walk (List VfioToken)
unfolding get_found
get_token env ts region objtype = get_found env ts region objtype (find_token ts region)

-- A write through the pointer to the token of a region.
abbrev pub write_token : List VfioToken → ℕ → (VfioToken → VfioToken) → List VfioToken
write_token [] region f = []
write_token (t ∷ ts) region f = if t.region == region then f t ∷ ts else t ∷ write_token ts region f

abbrev pub port_stp_id : ℕ
port_stp_id = 0x13

abbrev pub pr_feature_id : ℕ
pr_feature_id = 0x5

-- The first header of the signal tap, and none before it is met.
abbrev pub stp_body : Window → Option ℕ → ℕ → Bool × Option ℕ
stp_body m found h = if dfh_id (m.word h) == port_stp_id then (true, some h) else (false, found)

abbrev pub with_stp : Option ℕ → VfioToken → VfioToken
with_stp none t = t
with_stp (some h) t = record t {
  user_mmio_count = t.user_mmio_count + 1;
  user_mmio = set t.user_mmio 1 (u32 h);
}

abbrev pub port_afu_dfh_offset : Window → ℕ
port_afu_dfh_offset m = m.word 0x18 % 2 ^ 24

abbrev pub port_token : System → Window → ℕ → VfioToken → VfioToken
port_token system m parent t = record t {
  parent = some parent;
  mmio_size = m.word 0x30 / 2 ^ 8 % 2 ^ 16;
  user_mmio_count = 1;
  user_mmio = set t.user_mmio 0 (port_afu_dfh_offset m);
  legacy_reset = true;
  guid = get_guid system m (port_afu_dfh_offset m + 8);
}

-- From the token on; the failure of the reset is only logged.
port_walked : System → PciDevice → ℕ → ℕ → Window → List VfioToken → Walk PciDevice
port_walked system d parent region m ts = then_walk (for_each_dfh m (stp_body m) none) (λ found.
    done (record {
      tokens = write_token ts region (λ t. with_stp found (port_token system m parent t));
      resets = d.resets ++ (region, legacy_port_reset (system.ack region)) ∷ [];
    }))

-- The parent is given by its region.
pub walk_port : System → PciDevice → ℕ → ℕ → Window → Walk PciDevice
unfolding port_walked
walk_port system d parent region m =
    then_walk (get_token system d.tokens region fpga_accelerator)
      (port_walked system d parent region m)

abbrev pub fme_ports : List ℕ
fme_ports = 0x38 ∷ 0x40 ∷ 0x48 ∷ 0x50 ∷ []

-- A region that cannot be had is only logged; `offset_r` is the register of the port.
port_at : System → PciDevice → ℕ → ℕ → Option Window → Walk PciDevice
unfolding walk_port
port_at system d fme offset_r none = done d
port_at system d fme offset_r (some m) =
    walk_port system d fme (offset_r / 2 ^ 32 % 2 ^ 3) (shifted m (offset_r % 2 ^ 24))

-- One round of the loop over the ports, with the bit `implemented`.
one_port : System → PciDevice → ℕ → ℕ → Bool → Walk PciDevice
unfolding port_at
one_port system d fme offset_r false = done d
one_port system d fme offset_r true =
    port_at system d fme offset_r (system.region_get (offset_r / 2 ^ 32 % 2 ^ 3))

ports_from : System → Window → ℕ → List ℕ → PciDevice → Walk PciDevice
unfolding one_port
ports_from system m fme [] d = done d
ports_from system m fme (p ∷ ps) d =
    then_walk (one_port system d fme (m.word p) (m.word p / 2 ^ 60 % 2 == 1))
      (ports_from system m fme ps)

abbrev pub fme_token : System → Window → VfioToken → VfioToken
fme_token system m t = record t {
  guid = get_guid system m 8;
  bitstream_id = m.word 0x60;
  bitstream_mdata = m.word 0x68;
  num_ports = m.word 0x30 / 2 ^ 17 % 2 ^ 3;
}

-- The last header of partial reconfiguration counts.
abbrev pub pr_body : System → Window → Option (ℕ × ℕ) → ℕ → Bool × Option (ℕ × ℕ)
pr_body system m compat_id h =
    if dfh_id (m.word h) == pr_feature_id
    then (false, some (get_guid system m (h + 0xa8)))
    else (false, compat_id)

-- Where no header sets it, the token keeps what it has.
abbrev pub with_compat : Option (ℕ × ℕ) → VfioToken → VfioToken
with_compat none t = t
with_compat (some guid) t = record t { compat_id = guid }

-- From the token on.
fme_walked : System → PciDevice → ℕ → Window → List VfioToken → Walk PciDevice
unfolding ports_from
fme_walked system d region m ts = then_walk (for_each_dfh m (pr_body system m) none) (λ c.
    ports_from system m region fme_ports
      (record d { tokens = write_token ts region (λ t. with_compat c (fme_token system m t)) }))

pub walk_fme : System → PciDevice → Window → ℕ → Walk PciDevice
unfolding fme_walked
walk_fme system d m region =
    then_walk (get_token system d.tokens region fpga_device) (fme_walked system d region m)

-- A region as an accelerator. The Boolean is whether its reset is set to `vfio_reset`, which does
-- nothing and is not kept.
abbrev pub whole_region : System → Window → Bool → VfioToken → VfioToken
whole_region system m own_reset t = record t {
  guid = get_guid system m 8;
  mmio_size = m.size % 2 ^ 32;
  user_mmio_count = 1;
  user_mmio = set t.user_mmio 0 0;
  legacy_reset = if own_reset then false else t.legacy_reset;
}

region_walked : System → PciDevice → ℕ → Window → Bool → Walk PciDevice
region_walked system d region m own_reset =
    then_walk (get_token system d.tokens region fpga_accelerator)
      (λ ts. done (record d { tokens = write_token ts region (whole_region system m own_reset) }))

-- One of the other regions; the Boolean is whether one of its first two words is 0.
other_bar : System → PciDevice → ℕ → Window → Bool → Walk PciDevice
unfolding region_walked
other_bar system d i m true = done d
other_bar system d i m false = region_walked system d i m false

bar_at : System → PciDevice → ℕ → Option Window → Walk PciDevice
unfolding other_bar
bar_at system d i none = done d
bar_at system d i (some m) = other_bar system d i m ((m.word 0 == 0) || (m.word 8 == 0))

bars_from : System → List ℕ → PciDevice → Walk PciDevice
unfolding bar_at
bars_from system [] d = done d
bars_from system (i ∷ is) d =
    then_walk (bar_at system d i (system.region_get i)) (bars_from system is)

-- The indices from 1 to BAR_MAX.
abbrev pub other_bars : List ℕ
other_bars = 1 ∷ 2 ∷ 3 ∷ 4 ∷ 5 ∷ []

-- The Boolean is whether the guid of region 0 is one of `fme_drivers`.
walk_bars : System → PciDevice → Window → Bool → Walk (ℕ × PciDevice)
unfolding walk_fme region_walked bars_from
walk_bars system d m true = then_walk (walk_fme system d m 0) (λ d'. done (0, d'))
walk_bars system d m false =
    then_walk (region_walked system d 0 m true)
      (λ d'. then_walk (bars_from system other_bars d') (λ d''. done (0, d'')))

walk_opened : System → (ℕ × ℕ → Bool) → PciDevice → Option Window → Walk (ℕ × PciDevice)
unfolding walk_bars
walk_opened system is_fme d none = done (2, d)
walk_opened system is_fme d (some m) = walk_bars system d m (is_fme (get_guid system m 8))

-- The Boolean is whether the device can be opened.
pub vfio_walk : System → (ℕ × ℕ → Bool) → Bool → PciDevice → Walk (ℕ × PciDevice)
unfolding walk_opened
vfio_walk system is_fme false d = done (1, d)
vfio_walk system is_fme true d = walk_opened system is_fme d (system.region_get 0)
