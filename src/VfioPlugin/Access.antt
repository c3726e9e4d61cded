-- ===== src/VfioPlugin/Access.antt =====
-- The accesses of plugins/vfio/opae_vfio.c to the registers of an accelerator.
use opae_libs.Prelude.{
  ℕ, ◌+◌, ◌%◌, ◌^◌, ◌≤◌, Bool, true, false, Option, none, some, get_or, ltb, u32, ◌==◌, ==_iff,
  if◌then◌else◌,
}
use opae_libs.Prelude.{◌≡◌, refl, arith, le→ltb}
use opae_libs.Types.{
  FpgaResult, fpga_invalid_param, fpga_exception, fpga_not_supported, fpga_device, fpga_accelerator,
}
use opae_libs.VfioPlugin.{VfioToken}

-- The pair of devices is not kept; `mmio_base` is the start of the region.
pub record VfioHandle : Type 0 where
  pub magic : ℕ
  pub token : VfioToken
  pub has_avx512 : Bool

abbrev pub vfio_handle_magic : ℕ
vfio_handle_magic = 0x10efef01

-- A result without an access, or FPGA_OK with a read or a write of so many bytes at an address of the
-- region, or with the address.
pub data Reach : Type 0 where
  refused : FpgaResult → Reach
  reads : ℕ → ℕ → Reach
  writes : ℕ → ℕ → ℕ → Reach
  points : Option ℕ → Reach

abbrev pub handle_check : Option VfioHandle → Option VfioHandle
handle_check none = none
handle_check (some h) = if h.magic == vfio_handle_magic then some h else none

abbrev pub get_user_offset : VfioHandle → ℕ → ℕ → ℕ
get_user_offset h mmio_num offset = get_or h.token.user_mmio mmio_num 0 + u32 offset

-- What the accesses test, with the Boolean whether the lock can be taken.
locked_at : Bool → (ℕ → Reach) → ℕ → Reach
locked_at false f address = refused fpga_exception
locked_at true f address = f address

access_valid : Bool → (ℕ → Reach) → VfioHandle → ℕ → ℕ → Reach
unfolding locked_at
access_valid lock f h mmio_num offset =
    if h.token.objtype == fpga_device
    then refused fpga_not_supported
    else if ltb h.token.user_mmio_count mmio_num
    then refused fpga_invalid_param
    else locked_at lock f (get_user_offset h mmio_num offset)

access : Bool → (ℕ → Reach) → Option VfioHandle → ℕ → ℕ → Reach
unfolding access_valid
access lock f none mmio_num offset = refused fpga_invalid_param
access lock f (some h) mmio_num offset = access_valid lock f h mmio_num offset

pub vfio_fpga_write_mmio64 : Bool → Option VfioHandle → ℕ → ℕ → ℕ → Reach
unfolding access
vfio_fpga_write_mmio64 lock handle mmio_num offset value =
    access lock (λ a. writes 8 a value) (handle_check handle) mmio_num offset

pub vfio_fpga_read_mmio64 : Bool → Option VfioHandle → ℕ → ℕ → Reach
unfolding access
vfio_fpga_read_mmio64 lock handle mmio_num offset =
    access lock (reads 8) (handle_check handle) mmio_num offset

pub vfio_fpga_write_mmio32 : Bool → Option VfioHandle → ℕ → ℕ → ℕ → Reach
unfolding access
vfio_fpga_write_mmio32 lock handle mmio_num offset value =
    access lock (λ a. writes 4 a value) (handle_check handle) mmio_num offset

pub vfio_fpga_read_mmio32 : Bool → Option VfioHandle → ℕ → ℕ → Reach
unfolding access
vfio_fpga_read_mmio32 lock handle mmio_num offset =
    access lock (reads 4) (handle_check handle) mmio_num offset

-- From the alignment on.
write_aligned : Bool → VfioHandle → ℕ → ℕ → ℕ → Reach
unfolding access_valid
write_aligned lock h mmio_num offset value =
    if h.has_avx512
    then access_valid lock (λ a. writes 64 a value) h mmio_num offset
    else refused fpga_not_supported

-- The value is that of the 64 bytes.
write512 : Bool → Option VfioHandle → ℕ → ℕ → ℕ → Reach
unfolding write_aligned
write512 lock none mmio_num offset value = refused fpga_invalid_param
write512 lock (some h) mmio_num offset value =
    if offset % 64 == 0
    then write_aligned lock h mmio_num offset value
    else refused fpga_invalid_param

pub vfio_fpga_write_mmio512 : Bool → Option VfioHandle → ℕ → ℕ → ℕ → Reach
unfolding write512
vfio_fpga_write_mmio512 lock handle mmio_num offset value =
    write512 lock (handle_check handle) mmio_num offset value

-- The first Boolean is whether there is a place for the pointer.
map_valid : Bool → Option VfioHandle → ℕ → Reach
map_valid wanted none mmio_num = refused fpga_invalid_param
map_valid wanted (some h) mmio_num =
    if ltb h.token.user_mmio_count mmio_num
    then refused fpga_invalid_param
    else points (if wanted then some (get_user_offset h mmio_num 0) else none)

pub vfio_fpga_map_mmio : Bool → Option VfioHandle → ℕ → Reach
unfolding map_valid
vfio_fpga_map_mmio wanted handle mmio_num = map_valid wanted (handle_check handle) mmio_num

access_past :
    (f : ℕ → Reach) (h : VfioHandle) (n offset : ℕ)
    → h.magic ≡ vfio_handle_magic
    → h.token.objtype ≡ fpga_accelerator
    → n ≤ h.token.user_mmio_count
    → access true f (handle_check (some h)) n offset ≡ f (get_user_offset h n offset)
unfolding access access_valid locked_at
access_past f h n offset m t c =
    let good : (h.magic == vfio_handle_magic) ≡ true = (==_iff _ _).1 m in
    let kind : (h.token.objtype == fpga_device) ≡ false = ground arith in
    let room = le→ltb h.token.user_mmio_count n c in rw (good, kind, room) refl

-- The accesses of 32 and 64 bits to a region of registers are made, from an address of the BAR on.
abbrev pub Made : VfioToken → Bool → ℕ → ℕ → Type 0
Made t avx mmio_num start =
    let h : Option VfioHandle =
      some (record { magic = vfio_handle_magic; token = t; has_avx512 = avx }) in
    (offset value : ℕ)
    → (vfio_fpga_write_mmio64 true h mmio_num offset value
        ≡ writes 8 (start + offset % 2 ^ 32) value)
      × (vfio_fpga_read_mmio64 true h mmio_num offset ≡ reads 8 (start + offset % 2 ^ 32))
      × (vfio_fpga_write_mmio32 true h mmio_num offset value
          ≡ writes 4 (start + offset % 2 ^ 32) value)
      × (vfio_fpga_read_mmio32 true h mmio_num offset ≡ reads 4 (start + offset % 2 ^ 32))

pub access-Made :
    (t : VfioToken) (avx : Bool) (mmio_num : ℕ)
    → t.objtype ≡ fpga_accelerator
    → mmio_num ≤ t.user_mmio_count
    → Made t avx mmio_num (get_or t.user_mmio mmio_num 0)
unfolding vfio_fpga_write_mmio64 vfio_fpga_read_mmio64 vfio_fpga_write_mmio32 vfio_fpga_read_mmio32
access-Made t avx mmio_num k c offset value =
    let h : VfioHandle = record { magic = vfio_handle_magic; token = t; has_avx512 = avx } in
    (
      access_past (λ a. writes 8 a value) h mmio_num offset refl k c,
      access_past (reads 8) h mmio_num offset refl k c,
      access_past (λ a. writes 4 a value) h mmio_num offset refl k c,
      access_past (reads 4) h mmio_num offset refl k c,
    )
