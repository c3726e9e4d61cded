-- ===== src/Buffer/Trip.antt =====
-- A buffer from its preparation to its release.
use opae_libs.Prelude.{ℕ, Bool, true, Option, some, List, [], ◌∷◌, ◌≡◌, refl, ap, ◌∙◌}
use opae_libs.Prelude.{if◌then◌else◌, Bool-cases, inl, inr}
use mathlib.Core.Path.{subst}
use opae_libs.Types.{fpga_ok}
use opae_libs.Handle.{Handle, fpga_handle_magic, handle_check_and_lock_valid}
use opae_libs.WsidList.{WsidMap, wsid_del, wsid_find}
use opae_libs.WsidList.View.{IsValid}
use opae_libs.WsidList.Ops.{wsid_add-del-find}
use opae_libs.Buffer.{BufferCall, munmap, port_unmap, Answers, is_preallocated, release_len}
use opae_libs.Buffer.{
  buffer_release, buffer_entry, xfpga_fpga_prepare_buffer, release_result, release_found,
  release_checked, xfpga_fpga_release_buffer,
}
use opae_libs.Buffer.{address_checked, found_address, xfpga_fpga_get_io_address}
use opae_libs.Buffer.Prepare.{granted_calls, PreparedHandle, xfpga_fpga_prepare_buffer_lem}

-- The calls that undo `granted_calls`.
abbrev pub undone_calls : ℕ → ℕ → ℕ → ℕ → List BufferCall
undone_calls addr len flags io_addr =
    port_unmap io_addr ∷ (if is_preallocated flags then [] else munmap addr (release_len len) ∷ [])

release_result_lem :
    (a : Answers) (wm : WsidMap)
    → a.unmapped ≡ true
    → a.released ≡ true
    → release_result a wm ≡ (fpga_ok, undone_calls wm.addr wm.len wm.flags wm.phys)
unfolding release_result buffer_release
release_result_lem a wm u r =
    rw (u, r)
      (elim (Bool-cases (is_preallocated wm.flags)) [ inl p ↦ rw p refl | inr n ↦ rw n refl ])

module _ (b : Answers) (h : Handle) (id addr len io flags : ℕ) (lock : b.lock ≡ true)
    (magic : h.magic ≡ fpga_handle_magic)
    (found : wsid_find h.wsid_root id ≡ some (buffer_entry id addr io len flags)) where
  get_found : xfpga_fpga_get_io_address b (some h) id ≡ (fpga_ok, some io)
  unfolding xfpga_fpga_get_io_address address_checked found_address
  get_found = rw (lock, handle_check_and_lock_valid h magic, found) refl

  release_found_lem :
      b.unmapped ≡ true
      → b.released ≡ true
      → xfpga_fpga_release_buffer b (some h) id ≡ (
        fpga_ok,
        some (record h { wsid_root = (wsid_del h.wsid_root id).1 }),
        undone_calls addr len flags io,
      )
  unfolding xfpga_fpga_release_buffer release_checked release_found
  release_found_lem u r =
      let undone = release_result_lem b (buffer_entry id addr io len flags) u r in
      rw (lock, handle_check_and_lock_valid h magic, found)
        (λ i.
          ((undone i).0, some (record h { wsid_root = (wsid_del h.wsid_root id).1 }), (undone i).1))

-- On a handle with a valid tracker, a buffer that a preparation gives has the I/O address at which it
-- was mapped, and releasing it, when the kernel grants it, succeeds, ends the DMA mapping and, unless
-- the buffer is preallocated, the memory mapping, and leaves every search of the tracker as before.
pub prepare-release :
    (a b : Answers) (h h' : Handle) (len flags addr id : ℕ) (buf : Option ℕ) (has_wsid : Bool)
    (calls : List BufferCall)
    → IsValid h.wsid_root
    → h.magic ≡ fpga_handle_magic
    → b.lock ≡ true
    → b.unmapped ≡ true
    → b.released ≡ true
    → xfpga_fpga_prepare_buffer a (some h) len buf has_wsid flags
      ≡ (fpga_ok, some addr, some id, some h', calls)
    → (n : ℕ) × (io : ℕ) × (h'' : Handle) × (calls ≡ granted_calls addr n flags io)
      × (xfpga_fpga_get_io_address b (some h') id ≡ (fpga_ok, some io))
      × (xfpga_fpga_release_buffer b (some h') id
          ≡ (fpga_ok, some h'', undone_calls addr n flags io))
      × (h'' ≡ record h { wsid_root = h''.wsid_root })
      × ((x : ℕ) → wsid_find h''.wsid_root x ≡ wsid_find h.wsid_root x)
prepare-release a b h h' len flags addr id buf has_wsid calls v m lock u r e =
    let made : PreparedHandle h flags (fpga_ok, some addr, some id, some h', calls) =
      subst (PreparedHandle h flags) e (xfpga_fpga_prepare_buffer_lem a h len flags buf has_wsid) in
    let ((n, io, root, granted), same) = made in
    let (top, _, restored) = wsid_add-del-find h.wsid_root (buffer_entry id addr io n flags) v in
    let found : wsid_find h'.wsid_root id ≡ some (buffer_entry id addr io n flags) =
      ap (λ t. wsid_find t id) root ∙ top in
    let magic : h'.magic ≡ fpga_handle_magic = ap (λ t. t.magic) same ∙ m in
    (
      n,
      io,
      record h' { wsid_root = (wsid_del h'.wsid_root id).1 },
      granted,
      get_found b h' id addr n io flags lock magic found,
      release_found_lem b h' id addr n io flags lock magic found u r,
      (λ i. record (same i) { wsid_root = (wsid_del h'.wsid_root id).1 }),
      λ x. ap (λ t. wsid_find (wsid_del t id).1 x) root ∙ restored x,
    )
