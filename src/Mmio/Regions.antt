-- ===== src/Mmio/Regions.antt =====
-- `find_or_map_wm`, which maps a region at its first use, and what it makes of the tracker.
use opae_libs.Prelude.{ℕ, Bool, true, false, not, ◌||◌, Option, none, some, ◌≡◌, ◌≢◌, refl}
use opae_libs.Prelude.{◌==◌, Bool-cases, inl, inr}
use mathlib.Core.Path.{subst}
use opae_libs.Types.{FpgaResult, fpga_ok}
use opae_libs.WsidList.{WsidMap, WsidTracker, wsid_add, wsid_find_by_index}
use opae_libs.WsidList.View.{IsValid}
use opae_libs.WsidList.Ops.{wsid_add_lem}
use opae_libs.WsidList.Index.{FirstWith, entries, wsid_find_by_index_lem}
use opae_libs.Handle.{Handle}
use opae_libs.Mmio.{Answers, port_mmap_region, region_map, add_region, map_mmio_region}
use opae_libs.Mmio.{
  map_result, search_again, map_unless_found, find_again, find_or_map_wm, afu_permission,
}

-- A call keeps the tracker valid, and fails or gives the region that the tracker now has for the
-- number.
abbrev pub Found : ℕ → FpgaResult × Option WsidMap × Handle → Type 0
Found mmio_num (res, none, h) = IsValid h.mmio_root × (res ≢ fpga_ok)
Found mmio_num (res, some wm, h) =
    IsValid h.mmio_root
    × (res ≡ fpga_ok)
    × (wsid_find_by_index h.mmio_root mmio_num ≡ some wm)
    × (wm.index ≡ mmio_num)

wsid_add-IsValid :
    (has_node : Bool) (root : WsidTracker) (tmp : WsidMap)
    → IsValid root
    → IsValid (wsid_add has_node root tmp).1
unfolding wsid_add
wsid_add-IsValid false root tmp v = v
wsid_add-IsValid true root tmp v = (wsid_add_lem root tmp v).1

add_region-IsValid :
    (a : Answers) (h : Handle) (mmio_num addr : ℕ)
    → IsValid h.mmio_root
    → IsValid (add_region a h mmio_num addr).1.mmio_root
unfolding add_region
add_region-IsValid a h mmio_num addr v =
    elim (Bool-cases (wsid_add a.has_node h.mmio_root (region_map a mmio_num addr)).0) [
      | inl e ↦ rw e (wsid_add-IsValid a.has_node h.mmio_root (region_map a mmio_num addr) v)
      | inr e ↦ elim (Bool-cases a.munmap) [ inl u ↦ rw (e, u) v | inr u ↦ rw (e, u) v ]
    ]

map_result-IsValid :
    (a : Answers) (h : Handle) (mmio_num : ℕ) (r : FpgaResult × Option ℕ)
    → IsValid h.mmio_root
    → IsValid (map_result a h mmio_num r).1.mmio_root
unfolding map_result
map_result-IsValid a h mmio_num (res, none) v = v
map_result-IsValid a h mmio_num (res, some addr) v = add_region-IsValid a h mmio_num addr v

map_mmio_region-IsValid :
    (a : Answers) (h : Handle) (mmio_num : ℕ)
    → IsValid h.mmio_root
    → IsValid (map_mmio_region a h mmio_num).1.mmio_root
unfolding map_mmio_region
map_mmio_region-IsValid a h mmio_num v =
    elim (Bool-cases (not a.region_ok || not (a.region_info.flags == afu_permission))) [
      | inl e ↦ rw e v
      | inr e ↦ rw e (map_result-IsValid a h mmio_num (port_mmap_region a h) v)
    ]

index-found :
    (root : WsidTracker) (mmio_num : ℕ) (wm : WsidMap)
    → IsValid root
    → wsid_find_by_index root mmio_num ≡ some wm
    → wm.index ≡ mmio_num
index-found root mmio_num wm v e =
    (subst (FirstWith mmio_num (entries root)) e (wsid_find_by_index_lem root mmio_num v)).0

search_again-Found :
    (h : Handle) (mmio_num : ℕ) (o : Option WsidMap)
    → IsValid h.mmio_root
    → wsid_find_by_index h.mmio_root mmio_num ≡ o
    → Found mmio_num (search_again h o)
unfolding search_again
search_again-Found h mmio_num none v e = (v, λ x. cc)
search_again-Found h mmio_num (some wm) v e = (v, refl, e, index-found h.mmio_root mmio_num wm v e)

find_again-Found :
    (r : FpgaResult × Handle) (mmio_num : ℕ)
    → IsValid r.1.mmio_root
    → Found mmio_num (find_again r mmio_num)
unfolding find_again
find_again-Found (fpga_ok, h) mmio_num v =
    search_again-Found h mmio_num (wsid_find_by_index h.mmio_root mmio_num) v refl
find_again-Found (res, h) mmio_num v = (v, λ x. cc)

map_unless_found-Found :
    (a : Answers) (h : Handle) (mmio_num : ℕ) (o : Option WsidMap)
    → IsValid h.mmio_root
    → wsid_find_by_index h.mmio_root mmio_num ≡ o
    → Found mmio_num (map_unless_found a h mmio_num o)
unfolding map_unless_found
map_unless_found-Found a h mmio_num none v e =
    find_again-Found (map_mmio_region a h mmio_num) mmio_num
      (map_mmio_region-IsValid a h mmio_num v)
map_unless_found-Found a h mmio_num (some wm) v e =
    (v, refl, e, index-found h.mmio_root mmio_num wm v e)

-- Whatever the kernel answers, looking a region up keeps a valid tracker valid; it succeeds exactly
-- if it gives a region, and then the region has the number that was asked for and is the one that
-- the tracker has for it from then on.
pub find_or_map_wm-Found :
    (a : Answers) (h : Handle) (mmio_num : ℕ)
    → IsValid h.mmio_root
    → Found mmio_num (find_or_map_wm a h mmio_num)
unfolding find_or_map_wm
find_or_map_wm-Found a h mmio_num v =
    map_unless_found-Found a h mmio_num (wsid_find_by_index h.mmio_root mmio_num) v refl

-- A region that the tracker has is found whatever the kernel would answer, and nothing changes.
pub find_or_map_wm-mapped :
    (a : Answers) (h : Handle) (mmio_num : ℕ) (wm : WsidMap)
    → wsid_find_by_index h.mmio_root mmio_num ≡ some wm
    → find_or_map_wm a h mmio_num ≡ (fpga_ok, some wm, h)
unfolding find_or_map_wm map_unless_found
find_or_map_wm-mapped a h mmio_num wm e = rw e refl
