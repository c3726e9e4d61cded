-- ===== src/Mmio/Access.antt =====
-- The accesses: which addresses they touch.
use opae_libs.Prelude.{ℕ, ◌+◌, ◌%◌, ◌^◌, ◌≤◌, ◌<◌, Bool, true, false, Option, none, some, ◌≡◌}
use opae_libs.Prelude.{◌≢◌, refl, arith, u64, ltb, ◌==◌, Bool-cases, ==_iff}
use opae_libs.Prelude.{inl, inr, ltb→le, le→ltb}
use mathlib.Core.Path.{subst}
use opae_libs.Types.{FpgaResult, fpga_ok}
use opae_libs.WsidList.{WsidMap, wsid_find_by_index}
use opae_libs.WsidList.View.{IsValid}
use opae_libs.Handle.{Handle, fpga_handle_magic, handle_check_and_lock}
use opae_libs.Mmio.{Answers, find_or_map_wm}
use opae_libs.Mmio.{bounded, access_locked, mmio_access, always, xfpga_fpga_write_mmio32}
use opae_libs.Mmio.Regions.{Found, find_or_map_wm-Found, find_or_map_wm-mapped}

-- An access fails and touches no address, or it succeeds and its offset is aligned and at most the
-- length of the region that the tracker now has for the number.
abbrev pub Accessed : ℕ → ℕ → ℕ → FpgaResult × Option ℕ × Option Handle → Type 0
Accessed align mmio_num offset (res, none, handle) = res ≢ fpga_ok
Accessed align mmio_num offset (res, some address, handle) =
    (res ≡ fpga_ok)
    × (offset % align ≡ 0)
    × (h : Handle) × (wm : WsidMap) × (handle ≡ some h)
    × IsValid h.mmio_root
    × (wsid_find_by_index h.mmio_root mmio_num ≡ some wm)
    × (wm.index ≡ mmio_num)
    × (offset ≤ wm.len)
    × (address ≡ u64 (wm.offset + offset))

bounded-Accessed :
    (align mmio_num offset : ℕ) (r : FpgaResult × Option WsidMap × Handle)
    → offset % align ≡ 0
    → Found mmio_num r
    → Accessed align mmio_num offset (bounded r offset)
unfolding bounded
bounded-Accessed align mmio_num offset (res, none, h) e f = f.1
bounded-Accessed align mmio_num offset (res, some wm, h) e f =
    elim (Bool-cases (ltb wm.len offset)) [
      | inl k ↦ rw k (λ x. cc)
      | inr k ↦ rw k (refl, e, h, wm, refl, f.0, f.2, f.3, ltb→le _ _ k, refl)
    ]

-- Locking fails, or gives the handle.
abbrev pub Locked : Handle → FpgaResult × Option Handle → Type 0
Locked h (res, none) = res ≢ fpga_ok
Locked h (res, some h') = (res ≡ fpga_ok) × (h ≡ h')

pub handle_check_and_lock-Locked :
    (lock : Bool) (h : Handle) → Locked h (handle_check_and_lock lock (some h))
handle_check_and_lock-Locked false h = λ x. cc
handle_check_and_lock-Locked true h = elim (Bool-cases (h.magic == fpga_handle_magic)) [
  | inl e ↦ rw e (refl, refl)
  | inr e ↦ rw e (λ x. cc)
]

access_locked-Accessed :
    (align : ℕ) (supported : Handle → Bool) (a : Answers) (h : Handle) (mmio_num offset : ℕ)
    (r : FpgaResult × Option Handle)
    → offset % align ≡ 0
    → IsValid h.mmio_root
    → Locked h r
    → Accessed align mmio_num offset (access_locked supported a (some h) mmio_num offset r)
unfolding access_locked
access_locked-Accessed align supported a h mmio_num offset (res, none) e v l = l
access_locked-Accessed align supported a h mmio_num offset (res, some h') e v (_, same) =
    elim (Bool-cases (supported h')) [
      | inr n ↦ rw n (λ x. cc)
      | inl y ↦ rw y (
          bounded-Accessed align mmio_num offset (find_or_map_wm a h' mmio_num) e
            (find_or_map_wm-Found a h' mmio_num (subst (λ k. IsValid k.mmio_root) same v)))
    ]

-- An access to a valid handle, with any answers of the kernel, fails and touches no address, or it
-- succeeds, and then its offset is aligned and at most the length of the region that the tracker,
-- which stays valid, now has for the number, and the address is the region's plus the offset.
pub mmio_access-Accessed :
    (align : ℕ) (supported : Handle → Bool) (a : Answers) (h : Handle) (mmio_num offset : ℕ)
    → IsValid h.mmio_root
    → Accessed align mmio_num offset (mmio_access align supported a (some h) mmio_num offset)
unfolding mmio_access
mmio_access-Accessed align supported a h mmio_num offset v =
    elim (Bool-cases (offset % align == 0)) [
      | inr e ↦ rw e (λ x. cc)
      | inl e ↦ rw e (
          access_locked-Accessed align supported a h mmio_num offset
            (handle_check_and_lock a.lock (some h)) ((==_iff _ _).0 e) v
            (handle_check_and_lock-Locked a.lock h))
    ]

-- A successful lock of a handle with the magic number.
pub handle_check_and_lock-ok :
    (h : Handle)
    → h.magic ≡ fpga_handle_magic
    → handle_check_and_lock true (some h) ≡ (fpga_ok, some h)
handle_check_and_lock-ok h m = rw ((==_iff _ _).1 m) refl

-- An aligned access to a region that is mapped, on a locked and valid handle that supports it,
-- succeeds for every offset up to the length, and the handle does not change.
pub mmio_access-mapped :
    (align : ℕ) (supported : Handle → Bool) (a : Answers) (h : Handle) (mmio_num offset : ℕ)
    (wm : WsidMap)
    → a.lock ≡ true
    → h.magic ≡ fpga_handle_magic
    → supported h ≡ true
    → wsid_find_by_index h.mmio_root mmio_num ≡ some wm
    → offset % align ≡ 0
    → offset ≤ wm.len
    → mmio_access align supported a (some h) mmio_num offset
      ≡ (fpga_ok, some (u64 (wm.offset + offset)), some h)
unfolding mmio_access access_locked bounded
mmio_access-mapped align supported a h mmio_num offset wm l m s f al le =
    rw
      (
        (==_iff _ _).1 al,
        l,
        handle_check_and_lock-ok h m,
        s,
        find_or_map_wm-mapped a h mmio_num wm f,
        le→ltb wm.len offset le,
      )
      refl

-- A 32-bit write at the offset that is the length of a mapped region, a multiple of 4, on a valid
-- handle, succeeds and goes to the four bytes behind the region, which ends below 2 ^ 64.
pub xfpga_fpga_write_mmio32-behind :
    (a : Answers) (h : Handle) (mmio_num value : ℕ) (wm : WsidMap)
    → a.lock ≡ true
    → h.magic ≡ fpga_handle_magic
    → wsid_find_by_index h.mmio_root mmio_num ≡ some wm
    → wm.len % 4 ≡ 0
    → wm.offset + wm.len < 2 ^ 64
    → xfpga_fpga_write_mmio32 a (some h) mmio_num wm.len value
      ≡ (fpga_ok, some (record { address = wm.offset + wm.len; width = 4; value = value }), some h)
unfolding xfpga_fpga_write_mmio32
xfpga_fpga_write_mmio32-behind a h mmio_num value wm l m f al fits =
    let small : u64 (wm.offset + wm.len) ≡ wm.offset + wm.len = omega arith in
    rw (mmio_access-mapped 4 always a h mmio_num wm.len wm l m refl f al (omega arith), small) refl
