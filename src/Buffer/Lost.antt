-- ===== src/Buffer/Lost.antt =====
-- The DMA mapping of a preparation that fails after it was made.
use opae_libs.Prelude.{
  ℕ, ◌+◌, ◌%◌, ◌<◌, Bool, true, false, not, ◌||◌, Option, none, some, List, [], ◌∷◌, ◌++◌, leb,
  ◌==◌, if◌then◌else◌,
}
use opae_libs.Prelude.{◌≡◌, ◌≢◌, ◌⊎◌, refl, sym, ap, ◌∙◌, arith, Bool-cases, inl, inr}
use mathlib.Core.Path.{subst}
use opae_libs.Pages.{pages_for}
use opae_libs.Types.{FpgaResult, fpga_ok, fpga_invalid_param, fpga_no_memory}
use opae_libs.Handle.{Handle, fpga_handle_magic, handle_check_and_lock, handle_check_and_lock_valid}
use opae_libs.WsidList.{WsidTracker, wsid_add, wsid_find}
use opae_libs.Buffer.{
  BufferCall, mmap, port_map, port_unmap, Answers, is_preallocated, is_read_only, Source, done,
  ready, Outcome, buffer_entry, whole_pages,
}
use opae_libs.Buffer.{
  buffer_allocate, buffer_release, preallocated_source, fresh_source, release_unless, added_outcome,
  map_outcome, source_outcome, prepare_locked, prepare_checked, xfpga_fpga_prepare_buffer,
  release_found, release_checked, xfpga_fpga_release_buffer,
}
use opae_libs.Buffer.Prepare.{PreparedHandle, xfpga_fpga_prepare_buffer_lem}

-- How many DMA mappings were made, and how many were to end.
abbrev pub port_maps : List BufferCall → ℕ
port_maps [] = 0
port_maps (port_map addr len read_only io_addr ∷ cs) = 1 + port_maps cs
port_maps (c ∷ cs) = port_maps cs

abbrev pub port_unmaps : List BufferCall → ℕ
port_unmaps [] = 0
port_unmaps (port_unmap io_addr ∷ cs) = 1 + port_unmaps cs
port_unmaps (c ∷ cs) = port_unmaps cs

-- An outcome that is no success and has made a DMA mapping is that of a node that `malloc` refused.
Lost : Bool → WsidTracker → Outcome → Type 0
Lost has_node root (res, out, id, root', calls) =
    (res ≡ fpga_ok)
    ⊎ ((port_maps calls ≡ 0)
        ⊎ ((has_node ≡ false)
            × (res ≡ fpga_no_memory)
            × (root' ≡ root)
            × (port_maps calls ≡ 1)
            × (port_unmaps calls ≡ 0)))

-- Calls that concern no DMA mapping.
NoDma : List BufferCall → Type 0
NoDma before =
    (calls : List BufferCall)
    → (port_maps (before ++ calls) ≡ port_maps calls)
      × (port_unmaps (before ++ calls) ≡ port_unmaps calls)

release_unless_lem :
    (p : Bool) (a : Answers) (addr len : ℕ)
    → (port_maps (release_unless p a addr len) ≡ 0)
      × (port_unmaps (release_unless p a addr len) ≡ 0)
unfolding release_unless buffer_release
release_unless_lem true a addr len = (refl, refl)
release_unless_lem false a addr len = (refl, refl)

added_outcome-Lost :
    (a : Answers) (root : WsidTracker) (addr len flags io : ℕ) (has_node : Bool)
    → Lost has_node root (
        let (res, out, id, root', calls) =
          added_outcome a root addr len flags
            (wsid_add has_node root (buffer_entry a.wsid addr io len flags)) in
        (res, out, id, root', port_map addr len (is_read_only flags) io ∷ calls))
unfolding added_outcome wsid_add Lost
added_outcome-Lost a root addr len flags io true = inl refl
added_outcome-Lost a root addr len flags io false =
    let (maps, unmaps) = release_unless_lem (is_preallocated flags) a addr len in
    inr (inr (refl, refl, refl, ap (λ n. 1 + n) maps, unmaps))

map_outcome-Lost :
    (a : Answers) (root : WsidTracker) (addr len flags : ℕ) (o : Option ℕ)
    → Lost a.has_node root (map_outcome a root addr len flags o)
unfolding map_outcome Lost
map_outcome-Lost a root addr len flags none =
    inr (inl (release_unless_lem (is_preallocated flags) a addr len).0)
map_outcome-Lost a root addr len flags (some io) =
    added_outcome-Lost a root addr len flags io a.has_node

prefix-Lost :
    (has_node : Bool) (root : WsidTracker) (before : List BufferCall) (res : FpgaResult)
    (out id : Option ℕ) (root' : WsidTracker) (calls : List BufferCall)
    → NoDma before
    → Lost has_node root (res, out, id, root', calls)
    → Lost has_node root (res, out, id, root', before ++ calls)
unfolding Lost NoDma
prefix-Lost has_node root before res out id root' calls free (inl ok) = inl ok
prefix-Lost has_node root before res out id root' calls free (inr (inl e)) =
    inr (inl ((free calls).0 ∙ e))
prefix-Lost has_node root before res out id root' calls free (inr (inr (n, r, t, maps, unmaps))) =
    inr (inr (n, r, t, (free calls).0 ∙ maps, (free calls).1 ∙ unmaps))

-- A source that has made no DMA mapping.
Source-NoDma : Source → Type 0
Source-NoDma (done res) = Unit {0}
Source-NoDma (ready addr len before) = NoDma before

source_outcome-Lost :
    (a : Answers) (root : WsidTracker) (flags : ℕ) (s : Source)
    → Source-NoDma s
    → Lost a.has_node root (source_outcome a root flags s)
unfolding source_outcome Source-NoDma Lost
source_outcome-Lost a root flags (done res) free = inr (inl refl)
source_outcome-Lost a root flags (ready addr len before) free =
    let (res, out, id, root', calls) = map_outcome a root addr len flags a.io_addr in
    prefix-Lost a.has_node root before res out id root' calls free
      (map_outcome-Lost a root addr len flags a.io_addr)

preallocated_source-NoDma :
    (page_size len : ℕ) (o : Option ℕ) → Source-NoDma (preallocated_source page_size len o)
unfolding preallocated_source Source-NoDma NoDma
preallocated_source-NoDma page_size len none = tt
preallocated_source-NoDma page_size len (some addr) = elim (Bool-cases (addr == 0)) [
  | inl z ↦ rw z tt
  | inr n ↦ rw n (elim (Bool-cases (len == 0 || not (len % page_size == 0))) [
    | inl z ↦ rw z tt
    | inr n' ↦ rw n' (λ calls. (refl, refl))
  ])
]

allocate-NoDma : (a : Answers) (len : ℕ) → Source-NoDma (buffer_allocate a len)
unfolding buffer_allocate Source-NoDma NoDma
allocate-NoDma a len =
    elim a.buffer
      as (λ o. Source-NoDma (elim o [
        | none ↦ done (if a.no_memory then fpga_no_memory else fpga_invalid_param)
        | some addr ↦ ready addr len (mmap (pages_for len) len addr ∷ [])
      ])) [ none ↦ tt | some addr ↦ λ calls. (refl, refl) ]

fresh_source-NoDma : (a : Answers) (len : ℕ) (o : Option ℕ) → Source-NoDma (fresh_source a len o)
unfolding fresh_source Source-NoDma
fresh_source-NoDma a len none = tt
fresh_source-NoDma a len (some addr) = elim (Bool-cases (len == 0)) [
  | inl z ↦ rw z tt
  | inr n ↦ rw n (allocate-NoDma a (whole_pages a.page_size len))
]

prepare_locked-Lost :
    (a : Answers) (root : WsidTracker) (len flags : ℕ) (buf : Option ℕ) (has_wsid : Bool)
    → Lost a.has_node root (prepare_locked a root len buf has_wsid flags)
unfolding prepare_locked Lost
prepare_locked-Lost a root len flags buf false = inr (inl refl)
prepare_locked-Lost a root len flags buf true = elim (Bool-cases (leb 8 flags)) [
  | inl big ↦ rw big (inr (inl refl))
  | inr small ↦ rw small (elim (Bool-cases (is_preallocated flags)) [
    | inl p ↦
        rw p (source_outcome-Lost a root flags _ (preallocated_source-NoDma a.page_size len buf))
    | inr n ↦ rw n (source_outcome-Lost a root flags _ (fresh_source-NoDma a len buf))
  ])
]

-- The same of a call.
LostHandle :
    Bool → Handle → FpgaResult × Option ℕ × Option ℕ × Option Handle × List BufferCall → Type 0
unfolding Lost
LostHandle has_node h (res, out, id, none, calls) = ⊥
LostHandle has_node h (res, out, id, some h', calls) =
    Lost has_node h.wsid_root (res, out, id, h'.wsid_root, calls)

xfpga_fpga_prepare_buffer-Lost :
    (a : Answers) (h : Handle) (len flags : ℕ) (buf : Option ℕ) (has_wsid : Bool)
    → LostHandle a.has_node h (xfpga_fpga_prepare_buffer a (some h) len buf has_wsid flags)
unfolding xfpga_fpga_prepare_buffer prepare_checked LostHandle
xfpga_fpga_prepare_buffer-Lost a h len flags buf has_wsid = checked a.lock
  where
    checked :
        (lock : Bool)
        → LostHandle a.has_node h (
            prepare_checked a (some h) len buf has_wsid flags (handle_check_and_lock lock (some h)))
    checked false = inr (inl refl)
    checked true = elim (Bool-cases (h.magic == fpga_handle_magic)) [
      | inl y ↦ rw y (prepare_locked-Lost a h.wsid_root len flags buf has_wsid)
      | inr n ↦ rw n (inr (inl refl))
    ]

-- An id that is not in the tracker.
release_unknown :
    (b : Answers) (h : Handle) (id : ℕ)
    → b.lock ≡ true
    → h.magic ≡ fpga_handle_magic
    → wsid_find h.wsid_root id ≡ none
    → xfpga_fpga_release_buffer b (some h) id ≡ (fpga_invalid_param, some h, [])
unfolding xfpga_fpga_release_buffer release_checked release_found
release_unknown b h id lock magic e = rw (lock, handle_check_and_lock_valid h magic, e) refl

-- A preparation that does not succeed although it made a DMA mapping, with any arguments and answers,
-- is one whose entry `malloc` refused: it returns FPGA_NO_MEMORY, made one DMA mapping, did not call
-- for the end of any, and leaves the handle as it was. So an id that was not in the tracker before,
-- also the one it wrote, is refused by a release after it with FPGA_INVALID_PARAM, without any call.
pub prepare-lost :
    (a b : Answers) (h h' : Handle) (len flags : ℕ) (buf out id : Option ℕ) (has_wsid : Bool)
    (res : FpgaResult) (calls : List BufferCall)
    → h.magic ≡ fpga_handle_magic
    → b.lock ≡ true
    → xfpga_fpga_prepare_buffer a (some h) len buf has_wsid flags ≡ (res, out, id, some h', calls)
    → res ≢ fpga_ok
    → 0 < port_maps calls
    → (a.has_node ≡ false)
      × (res ≡ fpga_no_memory)
      × (port_maps calls ≡ 1)
      × (port_unmaps calls ≡ 0)
      × (h' ≡ h)
      × ((x : ℕ)
          → wsid_find h.wsid_root x ≡ none
          → xfpga_fpga_release_buffer b (some h') x ≡ (fpga_invalid_param, some h', []))
unfolding Lost LostHandle
prepare-lost a b h h' len flags buf out id has_wsid res calls magic lock e failed mapped =
    elim (subst (LostHandle a.has_node h) e
      (xfpga_fpga_prepare_buffer-Lost a h len flags buf has_wsid)) [
        | inl ok ↦ absurd (failed ok)
        | inr (inl unmapped) ↦ absurd (omega (arith, unmapped, mapped))
        | inr (inr (node, no_memory, root, maps, unmaps)) ↦
            let same : h' ≡ h = kept.1 ∙ ap (λ t. record h { wsid_root = t }) root in
            (
              node,
              no_memory,
              maps,
              unmaps,
              same,
              λ x unknown.
                  subst
                    (λ k. xfpga_fpga_release_buffer b (some k) x ≡ (fpga_invalid_param, some k, []))
                    (sym same) (release_unknown b h x lock magic unknown),
            )
      ]
  where
    kept : PreparedHandle h flags (res, out, id, some h', calls)
    kept =
        subst (PreparedHandle h flags) e (xfpga_fpga_prepare_buffer_lem a h len flags buf has_wsid)
