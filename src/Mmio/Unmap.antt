-- ===== src/Mmio/Unmap.antt =====
-- `xfpga_fpgaMapMMIO` and `xfpga_fpgaUnmapMMIO`.
use opae_libs.Prelude.{ℕ, ◌^◌, ◌<◌, Bool, true, none, some, ◌≡◌, refl, arith, ap}
use opae_libs.Prelude.{◌∙◌, ==_iff, u32}
use mathlib.Core.Path.{subst}
use opae_libs.Types.{fpga_ok}
use opae_libs.WsidList.{WsidMap, wsid_add, wsid_del, wsid_find, wsid_find_by_index, stored}
use opae_libs.WsidList.View.{IsValid}
use opae_libs.WsidList.Ops.{wsid_add-del-find}
use opae_libs.WsidList.Added.{wsid_add-find_by_index_new}
use opae_libs.Handle.{Handle, fpga_handle_magic, handle_check_and_lock}
use opae_libs.Mmio.{Answers, afu_permission}
use opae_libs.Mmio.{
  mmap_result, mmap_locked, port_mmap_region, region_map, add_region, map_result, map_mmio_region,
}
use opae_libs.Mmio.{find_again, search_again, map_unless_found, find_or_map_wm, mapped_address}
use opae_libs.Mmio.{map_locked, xfpga_fpga_map_mmio, unmap_region, unmap_locked}
use opae_libs.Mmio.{xfpga_fpga_unmap_mmio}
use opae_libs.Mmio.Access.{handle_check_and_lock-ok}

-- The kernel grants the region at an address, and there is memory to note it.
pub record Granted (a : Answers) (addr : ℕ) : Type 0 where
  pub lock : a.lock ≡ true
  pub relock : a.relock ≡ true
  pub region_ok : a.region_ok ≡ true
  pub permission : a.region_info.flags ≡ afu_permission
  pub mmap : a.mmap ≡ some addr
  pub has_node : a.has_node ≡ true

module _ (a : Answers) (h : Handle) (mmio_num addr : ℕ) (g : Granted a addr)
    (magic : h.magic ≡ fpga_handle_magic) where
  abbrev region : WsidMap
  region = region_map a mmio_num addr

  abbrev with_region : Handle
  with_region = record h { mmio_root = (wsid_add true h.mmio_root region).1 }

  port_mmap_region-granted : port_mmap_region a h ≡ (fpga_ok, some addr)
  unfolding port_mmap_region mmap_locked mmap_result
  port_mmap_region-granted =
      ap (λ (b : Bool). mmap_locked a (handle_check_and_lock b (some h))) g.relock
      ∙ (ap (mmap_locked a) (handle_check_and_lock-ok h magic) ∙ ap mmap_result g.mmap)

  add_region-granted : add_region a h mmio_num addr ≡ (fpga_ok, with_region)
  unfolding add_region wsid_add
  add_region-granted = rw g.has_node refl

  map_mmio_region-granted : map_mmio_region a h mmio_num ≡ (fpga_ok, with_region)
  unfolding map_mmio_region map_result
  map_mmio_region-granted =
      rw (g.region_ok, (==_iff _ _).1 g.permission, port_mmap_region-granted) add_region-granted

  -- The tracker has no region with the number, and takes this one.
  module _ (v : IsValid h.mmio_root) (small : mmio_num < 2 ^ 32)
      (unmapped : wsid_find_by_index h.mmio_root mmio_num ≡ none) where
    region-found : wsid_find_by_index with_region.mmio_root mmio_num ≡ some (stored region)
    unfolding region_map
    region-found =
        let same : u32 mmio_num ≡ mmio_num = omega arith in
        subst (λ i. wsid_find_by_index with_region.mmio_root i ≡ some (stored region)) same
          (wsid_add-find_by_index_new h.mmio_root region v (rw same unmapped))

    find_or_map_wm-granted :
        find_or_map_wm a h mmio_num ≡ (fpga_ok, some (stored region), with_region)
    unfolding find_or_map_wm map_unless_found find_again search_again
    find_or_map_wm-granted = rw (unmapped, map_mmio_region-granted, region-found) refl

    map_mmio-granted :
        xfpga_fpga_map_mmio a (some h) mmio_num true ≡ (fpga_ok, some addr, some with_region)
    unfolding xfpga_fpga_map_mmio map_locked mapped_address region_map
    map_mmio-granted =
        ap (λ (b : Bool). map_locked a (some h) mmio_num true (handle_check_and_lock b (some h)))
          g.lock
        ∙ (ap (map_locked a (some h) mmio_num true) (handle_check_and_lock-ok h magic)
            ∙ ap (mapped_address true) find_or_map_wm-granted)

    unmap_mmio-granted :
        (b : Answers)
        → b.lock ≡ true
        → b.munmap ≡ true
        → xfpga_fpga_unmap_mmio b (some with_region) mmio_num
          ≡ (fpga_ok, some (record h { mmio_root = (wsid_del with_region.mmio_root a.wsid).1 }))
    unfolding xfpga_fpga_unmap_mmio unmap_locked unmap_region region_map
    unmap_mmio-granted b l u =
        ap
          (λ (c : Bool).
            unmap_locked b (some with_region) mmio_num (handle_check_and_lock c (some with_region)))
          l
        ∙ (ap (unmap_locked b (some with_region) mmio_num)
              (handle_check_and_lock-ok with_region magic)
            ∙ (ap (unmap_region b with_region) region-found ∙ rw u refl))

-- On a valid handle with a valid tracker, mapping a region, of a 32-bit number that the tracker
-- does not have, which the kernel grants, gives the address of the mapping; unmapping it again
-- succeeds, and the tracker finds for every id what it found before.
pub map-unmap :
    (a b : Answers) (h : Handle) (mmio_num addr : ℕ)
    → Granted a addr
    → b.lock ≡ true
    → b.munmap ≡ true
    → h.magic ≡ fpga_handle_magic
    → IsValid h.mmio_root
    → mmio_num < 2 ^ 32
    → wsid_find_by_index h.mmio_root mmio_num ≡ none
    → let (res, out, handle) = xfpga_fpga_map_mmio a (some h) mmio_num true in
      let (res', handle') = xfpga_fpga_unmap_mmio b handle mmio_num in
      (res ≡ fpga_ok)
      × (out ≡ some addr)
      × (res' ≡ fpga_ok)
      × (h' : Handle) × (handle' ≡ some h')
      × ((x : ℕ) → wsid_find h'.mmio_root x ≡ wsid_find h.mmio_root x)
map-unmap a b h mmio_num addr g l u magic v small unmapped =
    rw
      (
        map_mmio-granted a h mmio_num addr g magic v small unmapped,
        unmap_mmio-granted a h mmio_num addr g magic v small unmapped b l u,
      )
      (refl, refl, refl, _, refl, found_before)
  where
    found_before :
        (x : ℕ)
        → wsid_find (wsid_del (wsid_add true h.mmio_root (region_map a mmio_num addr)).1 a.wsid).1 x
          ≡ wsid_find h.mmio_root x
    found_before =
        unfold region_map in (wsid_add-del-find h.mmio_root (region_map a mmio_num addr) v).2
