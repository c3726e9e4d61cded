-- ===== src/VfioPlugin/Past.antt =====
-- The accesses to a port that a walk found.
use opae_libs.Prelude.{ℕ, Bool, true, Option, none, some, [], ◌∷◌, ◌++◌, ◌+◌, ◌-◌, ◌<◌, ==_iff}
use opae_libs.Prelude.{◌≡◌, refl, arith}
use opae_libs.Types.{fpga_accelerator}
use opae_libs.VfioPlugin.{
  get_guid, Window, Walk, done, null, outside, no_fuel, then_walk, for_each_dfh, VfioToken,
  PciDevice, System, new_token, find_token, get_found, get_token, write_token, stp_body, with_stp,
  port_token, port_afu_dfh_offset, port_walked, walk_port, shifted, legacy_port_reset,
}
use opae_libs.VfioPlugin.Headers.{Header, Ended, for_each_dfh-Ended}
use opae_libs.VfioPlugin.Shared.{find_first, find_token-write}
use opae_libs.VfioPlugin.Access.{Made, access-Made}

-- The token of a port at an offset of a BAR, where its guid was read in the BAR, and where its accesses
-- go in the BAR: those to region 0, and those to the region whose number is that of the regions.
abbrev pub Past : System → Window → ℕ → ℕ → Bool → Walk PciDevice → Type 0
Past system bar offset region avx (done d) =
    let afu = port_afu_dfh_offset (shifted bar offset) in
    (t : VfioToken) × (find_token d.tokens region ≡ some t)
    × (t.objtype ≡ fpga_accelerator)
    × (t.guid ≡ get_guid system (shifted bar offset) (afu + 8))
    × Made t avx 0 afu
    × Made t avx t.user_mmio_count 0
Past system bar offset region avx null = ⊥
Past system bar offset region avx (outside h) =
    Header (shifted bar offset) h × (bar.size - offset < h + 8)
Past system bar offset region avx no_fuel = ⊥

module _ (system : System) (d : PciDevice) (parent region : ℕ) (bar : Window) (offset : ℕ)
    (avx : Bool) where
  made : (Option ℕ) → VfioToken
  made found =
      with_stp found
        (port_token system (shifted bar offset) parent (new_token region fpga_accelerator))

  found-token :
      (found : Option ℕ)
      → ((u : VfioToken)
          → (with_stp found (port_token system (shifted bar offset) parent u)).region ≡ u.region)
      → find_token
          (write_token
            (new_token region fpga_accelerator ∷ d.tokens)
            region
            (λ t. with_stp found (port_token system (shifted bar offset) parent t)))
          region
        ≡ some (made found)
  unfolding made
  found-token found k =
      find_token-write (new_token region fpga_accelerator ∷ d.tokens) region
        (new_token region fpga_accelerator)
        (λ u. with_stp found (port_token system (shifted bar offset) parent u)) k
        (find_first (new_token region fpga_accelerator) d.tokens region ((==_iff _ _).1 refl))

  walked-Past :
      (w : Walk (Option ℕ))
      → Ended (shifted bar offset) w
      → Past system bar offset region avx (
          then_walk w (λ found. done (record {
            tokens =
                write_token
                  (new_token region fpga_accelerator ∷ d.tokens)
                  region
                  (λ t. with_stp found (port_token system (shifted bar offset) parent t));
            resets = d.resets ++ (region, legacy_port_reset (system.ack region)) ∷ [];
          })))
  unfolding made
  walked-Past (done none) e = (
    made none,
    found-token none (λ u. refl),
    refl,
    refl,
    access-Made (made none) avx 0 refl (omega arith),
    access-Made (made none) avx 1 refl (omega arith),
  )
  walked-Past (done (some h)) e = (
    made (some h),
    found-token (some h) (λ u. refl),
    refl,
    refl,
    access-Made (made (some h)) avx 0 refl (omega arith),
    access-Made (made (some h)) avx 2 refl (omega arith),
  )
  walked-Past null e = e
  walked-Past (outside h) e = e
  walked-Past no_fuel e = e

-- A port at an offset of a BAR that has no token yet, where there is memory for one, gets a token for an
-- accelerator, or its walk comes to a header outside the BAR. The guid in the token is read at the
-- user logic, whose distance from the port counts from the offset. Through a handle of the token, which
-- counts from the start of the BAR, an access of 32 or 64 bits to region 0 goes to that distance without
-- the offset; and one to the region whose number is that of the regions, and which does not exist, is
-- made all the same, at the start of the BAR. The offset of an access counts modulo 2 ^ 32.
pub walk_port-Past :
    (system : System) (d : PciDevice) (parent region offset : ℕ) (bar : Window) (avx : Bool)
    → find_token d.tokens region ≡ none
    → system.malloc d.tokens ≡ true
    → Past system bar offset region avx (walk_port system d parent region (shifted bar offset))
unfolding walk_port port_walked get_token get_found
walk_port-Past system d parent region offset bar avx e y =
    rw (e, y)
      (walked-Past system d parent region bar offset avx
        (for_each_dfh (shifted bar offset) (stp_body (shifted bar offset)) none)
        (for_each_dfh-Ended (shifted bar offset) (stp_body (shifted bar offset)) none))
