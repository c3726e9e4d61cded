-- ===== src/Buffer/Prepare.antt =====
-- `xfpga_fpgaPrepareBuffer` on every branch.
use opae_libs.Prelude.{
  ℕ, ◌+◌, ◌%◌, Bool, true, false, not, ◌||◌, Option, none, some, List, [], ◌∷◌, ◌++◌, ◌≡◌, refl,
}
use opae_libs.Prelude.{leb, ◌==◌, if◌then◌else◌, Bool-cases, inl, inr}
use opae_libs.Types.{FpgaResult, fpga_ok, fpga_invalid_param, fpga_no_memory}
use opae_libs.Pages.{pages_for}
use opae_libs.Handle.{Handle, fpga_handle_magic, handle_check_and_lock}
use opae_libs.WsidList.{WsidTracker, wsid_add}
use opae_libs.Buffer.{
  BufferCall, mmap, munmap, port_map, Answers, is_preallocated, is_read_only, Source, done, ready,
}
use opae_libs.Buffer.{
  buffer_allocate, buffer_release, preallocated_source, fresh_source, Outcome, buffer_entry,
  release_unless,
}
use opae_libs.Buffer.{
  added_outcome, map_outcome, source_outcome, prepare_locked, prepare_checked,
  xfpga_fpga_prepare_buffer, whole_pages,
}

-- How often `mmap` gave an address, and how often it was given to `munmap`.
abbrev pub mmaps : ℕ → List BufferCall → ℕ
mmaps k [] = 0
mmaps k (mmap p len addr ∷ cs) = (if k == addr then 1 else 0) + mmaps k cs
mmaps k (c ∷ cs) = mmaps k cs

abbrev pub munmaps : ℕ → List BufferCall → ℕ
munmaps k [] = 0
munmaps k (munmap addr len ∷ cs) = (if k == addr then 1 else 0) + munmaps k cs
munmaps k (c ∷ cs) = munmaps k cs

-- The calls of a successful preparation.
abbrev pub granted_calls : ℕ → ℕ → ℕ → ℕ → List BufferCall
granted_calls addr len flags io_addr =
    (if is_preallocated flags then [] else mmap (pages_for len) len addr ∷ [])
    ++ port_map addr len (is_read_only flags) io_addr ∷ []

-- What a preparation leaves. On success the entry of the buffer is added to the tracker, or, for
-- the question whether buffers may be preallocated, nothing happened; on failure the tracker is as
-- it was and every `mmap` has its `munmap`.
abbrev pub Prepared : WsidTracker → ℕ → Outcome → Type 0
Prepared root flags (fpga_ok, some addr, some id, root', calls) =
    (len : ℕ) × (io_addr : ℕ) × (root'
      ≡ (wsid_add true root (buffer_entry id addr io_addr len flags)).1)
    × (calls ≡ granted_calls addr len flags io_addr)
Prepared root flags (fpga_ok, out, id, root', calls) =
    (out ≡ none) × (id ≡ none) × (root' ≡ root) × (calls ≡ []) × (is_preallocated flags ≡ true)
Prepared root flags (res, out, id, root', calls) =
    (out ≡ none) × (root' ≡ root) × ((k : ℕ) → mmaps k calls ≡ munmaps k calls)

-- The calls before the mapping: the `mmap` of a buffer that is not preallocated.
abbrev before_map : Bool → ℕ → ℕ → List BufferCall
before_map preallocated len addr = if preallocated then [] else mmap (pages_for len) len addr ∷ []

unless_balanced :
    (p : Bool) (a : Answers) (addr len io k : ℕ) (ro : Bool)
    → (mmaps k (before_map p len addr ++ release_unless p a addr len)
        ≡ munmaps k (before_map p len addr ++ release_unless p a addr len))
      × (mmaps k (before_map p len addr ++ port_map addr len ro io ∷ release_unless p a addr len)
          ≡ munmaps k
              (before_map p len addr ++ port_map addr len ro io ∷ release_unless p a addr len))
unfolding release_unless buffer_release
unless_balanced true a addr len io k ro = (refl, refl)
unless_balanced false a addr len io k ro = (refl, refl)

added-Prepared :
    (a : Answers) (root : WsidTracker) (addr len flags io : ℕ) (has_node : Bool)
    → Prepared root flags (
        let (res, out, id, root', calls) =
          added_outcome a root addr len flags
            (wsid_add has_node root (buffer_entry a.wsid addr io len flags)) in
        (
          res,
          out,
          id,
          root',
          before_map (is_preallocated flags) len addr
              ++ port_map addr len (is_read_only flags) io ∷ calls,
        ))
unfolding added_outcome wsid_add
added-Prepared a root addr len flags io true = (len, io, refl, refl)
added-Prepared a root addr len flags io false = (
  refl,
  refl,
  λ k. (unless_balanced (is_preallocated flags) a addr len io k (is_read_only flags)).1,
)

map_outcome-Prepared :
    (a : Answers) (root : WsidTracker) (addr len flags : ℕ) (o : Option ℕ)
    → Prepared root flags (
        let (res, out, id, root', calls) = map_outcome a root addr len flags o in
        (res, out, id, root', before_map (is_preallocated flags) len addr ++ calls))
unfolding map_outcome
map_outcome-Prepared a root addr len flags none =
    (refl, refl, λ k. (unless_balanced (is_preallocated flags) a addr len 0 k true).0)
map_outcome-Prepared a root addr len flags (some io) =
    added-Prepared a root addr len flags io a.has_node

-- A source whose calls are those before the mapping.
FromSource : ℕ → Source → Type 0
FromSource flags (done fpga_ok) = is_preallocated flags ≡ true
FromSource flags (done res) = Unit {0}
FromSource flags (ready addr len calls) = calls ≡ before_map (is_preallocated flags) len addr

source_outcome-Prepared :
    (a : Answers) (root : WsidTracker) (flags : ℕ) (s : Source)
    → FromSource flags s
    → Prepared root flags (source_outcome a root flags s)
unfolding source_outcome FromSource
source_outcome-Prepared a root flags (done fpga_ok) f = (refl, refl, refl, refl, f)
source_outcome-Prepared a root flags (done res) f = (refl, refl, λ k. refl)
source_outcome-Prepared a root flags (ready addr len calls) f =
    rw f (map_outcome-Prepared a root addr len flags a.io_addr)

preallocated_source-FromSource :
    (page_size len flags : ℕ) (o : Option ℕ)
    → is_preallocated flags ≡ true
    → FromSource flags (preallocated_source page_size len o)
unfolding preallocated_source FromSource
preallocated_source-FromSource page_size len flags none e = elim (Bool-cases (len == 0)) [
  | inl z ↦ rw z e
  | inr n ↦ rw n tt
]
preallocated_source-FromSource page_size len flags (some addr) e = elim (Bool-cases (addr == 0)) [
  | inl z ↦ rw z tt
  | inr n ↦ rw n (elim (Bool-cases (len == 0 || not (len % page_size == 0))) [
    | inl z ↦ rw z tt
    | inr n' ↦ rw n' (rw e refl)
  ])
]

allocate-FromSource :
    (a : Answers) (len flags : ℕ)
    → is_preallocated flags ≡ false
    → FromSource flags (buffer_allocate a len)
unfolding buffer_allocate FromSource
allocate-FromSource a len flags e =
    elim a.buffer
      as (λ o. FromSource flags (elim o [
        | none ↦ done (if a.no_memory then fpga_no_memory else fpga_invalid_param)
        | some addr ↦ ready addr len (mmap (pages_for len) len addr ∷ [])
      ])) [
        | none ↦ elim (Bool-cases a.no_memory) [ inl y ↦ rw y tt | inr n ↦ rw n tt ]
        | some addr ↦ rw e refl
      ]

fresh_source-FromSource :
    (a : Answers) (len flags : ℕ) (o : Option ℕ)
    → is_preallocated flags ≡ false
    → FromSource flags (fresh_source a len o)
unfolding fresh_source FromSource
fresh_source-FromSource a len flags none e = tt
fresh_source-FromSource a len flags (some addr) e = elim (Bool-cases (len == 0)) [
  | inl z ↦ rw z tt
  | inr n ↦ rw n (allocate-FromSource a (whole_pages a.page_size len) flags e)
]

prepare_locked-Prepared :
    (a : Answers) (root : WsidTracker) (len flags : ℕ) (buf : Option ℕ) (has_wsid : Bool)
    → Prepared root flags (prepare_locked a root len buf has_wsid flags)
unfolding prepare_locked
prepare_locked-Prepared a root len flags buf false = (refl, refl, λ k. refl)
prepare_locked-Prepared a root len flags buf true = elim (Bool-cases (leb 8 flags)) [
  | inl big ↦ rw big (refl, refl, λ k. refl)
  | inr small ↦ rw small (elim (Bool-cases (is_preallocated flags)) [
    | inl p ↦ rw p (
        source_outcome-Prepared a root flags _
          (preallocated_source-FromSource a.page_size len flags buf p))
    | inr n ↦
        rw n (source_outcome-Prepared a root flags _ (fresh_source-FromSource a len flags buf n))
  ])
]

-- The same of a call, which gives the handle back.
abbrev pub PreparedHandle :
    Handle → ℕ → FpgaResult × Option ℕ × Option ℕ × Option Handle × List BufferCall → Type 0
PreparedHandle h flags (res, out, id, none, calls) = ⊥
PreparedHandle h flags (res, out, id, some h', calls) =
    Prepared h.wsid_root flags (res, out, id, h'.wsid_root, calls)
    × (h' ≡ record h { wsid_root = h'.wsid_root })

-- A preparation, with any arguments and any answers of the kernel, changes nothing of the handle but
-- its tracker. If it succeeds with a buffer, it adds exactly the entry of the buffer, with its I/O
-- address, under the id that it gives, and its calls are one `mmap`, unless the buffer is
-- preallocated, and one DMA mapping; it succeeds with none only where preallocation is asked for. If
-- it fails, the tracker is as it was, and every `mmap` has its `munmap`, granted or not.
pub xfpga_fpga_prepare_buffer_lem :
    (a : Answers) (h : Handle) (len flags : ℕ) (buf_addr : Option ℕ) (has_wsid : Bool)
    → PreparedHandle h flags (xfpga_fpga_prepare_buffer a (some h) len buf_addr has_wsid flags)
unfolding xfpga_fpga_prepare_buffer prepare_checked
xfpga_fpga_prepare_buffer_lem a h len flags buf_addr has_wsid = checked a.lock
  where
    checked :
        (lock : Bool)
        → PreparedHandle h flags (
            prepare_checked a
              (some h)
              len
              buf_addr
              has_wsid
              flags
              (handle_check_and_lock lock (some h)))
    checked false = ((refl, refl, λ k. refl), refl)
    checked true = elim (Bool-cases (h.magic == fpga_handle_magic)) [
      | inl y ↦ rw y (prepare_locked-Prepared a h.wsid_root len flags buf_addr has_wsid, refl)
      | inr n ↦ rw n ((refl, refl, λ k. refl), refl)
    ]
