-- ===== src/Umsg/Laws.antt =====
-- The buffer for messages, from its allocation to its release.
use opae_libs.Prelude.{
  ℕ, ◌*◌, ◌+◌, Bool, true, false, Option, none, some, List, [], ◌∷◌, u64, ◌==◌, if◌then◌else◌,
}
use opae_libs.Prelude.{◌≡◌, ◌≢◌, refl, sym, ap, ◌∙◌, arith, inl, inr, ◌⊎◌, Bool-cases, ==_iff}
use mathlib.Core.Path.{subst}
use opae_libs.Types.{FpgaResult, fpga_ok, fpga_invalid_param, is_ok}
use opae_libs.Handle.{Handle, handle_check_and_lock, fpga_handle_magic, handle_check_and_lock_valid}
use opae_libs.Umsg.{
  UmsgCall, alloc_buffer, free_buffer, port_map, port_unmap, set_base_addr, enable, disable,
}
use opae_libs.Umsg.{
  Answers, Outcome, map_exit, enable_stage, base_stage, map_stage, buffer_stage, get_ptr_open,
  get_ptr_locked,
}
use opae_libs.Umsg.{
  xfpga_fpga_get_umsg_ptr, free_locked, free_umsg_buffer, Write, no_write, null_write, write,
  trigger_result, trigger_locked, xfpga_fpga_trigger_umsg,
}

-- The calls that set the messages up, and those that undo it.
abbrev pub setup_calls : ℕ → ℕ → ℕ → List UmsgCall
setup_calls virt size iova =
    alloc_buffer size virt ∷ port_map virt size iova ∷ set_base_addr iova ∷ enable ∷ []

abbrev pub teardown_calls : ℕ → ℕ → ℕ → List UmsgCall
teardown_calls virt size iova =
    disable ∷ set_base_addr 0 ∷ port_unmap iova ∷ free_buffer virt size ∷ []

-- How often an address was allocated, and freed.
abbrev pub allocs : ℕ → List UmsgCall → ℕ
allocs k [] = 0
allocs k (alloc_buffer size virt ∷ cs) = (if k == virt then 1 else 0) + allocs k cs
allocs k (c ∷ cs) = allocs k cs

abbrev pub frees : ℕ → List UmsgCall → ℕ
frees k [] = 0
frees k (free_buffer virt size ∷ cs) = (if k == virt then 1 else 0) + frees k cs
frees k (c ∷ cs) = frees k cs

-- What a call for a handle with no buffer leaves: no pointer, the handle as it was and no memory,
-- whatever the result; or a pointer, with everything set up.
abbrev pub Got : Answers → Handle → Outcome → Type 0
Got a h (res, none, o, calls) = (o ≡ some h) × ((k : ℕ) → allocs k calls ≡ frees k calls)
Got a h (res, some ptr, o, calls) =
    (res ≡ fpga_ok)
    × (let size = u64 (a.port_info.1 * a.page_size) in
        (o ≡ some (record h { umsg_iova = a.mapped.1; umsg_virt = ptr; umsg_size = size }))
        × (calls ≡ setup_calls ptr size a.mapped.1))

map_stage-Got :
    (a : Answers) (h : Handle) (virt : ℕ)
    → Got a h (buffer_stage a h (u64 (a.port_info.1 * a.page_size)) (some virt))
unfolding buffer_stage map_stage base_stage enable_stage map_exit
map_stage-Got a h virt = elim (Bool-cases (is_ok a.mapped.0)) [
  | inr n ↦ rw n (refl, λ k. refl)
  | inl y ↦ rw y (elim (Bool-cases (is_ok a.based)) [
    | inr n ↦ rw n (refl, λ k. refl)
    | inl y' ↦ rw y' (elim (Bool-cases (is_ok a.enabled)) [
      | inr n ↦ rw n (refl, λ k. refl)
      | inl y'' ↦ rw y'' (refl, (refl, refl))
    ])
  ])
]

buffer_stage-Got :
    (a : Answers) (h : Handle) (o : Option ℕ)
    → Got a h (buffer_stage a h (u64 (a.port_info.1 * a.page_size)) o)
buffer_stage-Got a h none = unfold buffer_stage in (refl, λ k. refl)
buffer_stage-Got a h (some virt) = map_stage-Got a h virt

get_ptr_open-Got : (a : Answers) (h : Handle) → h.umsg_iova ≡ 0 → Got a h (get_ptr_open a h)
unfolding get_ptr_open
get_ptr_open-Got a h z =
    let given : (h.umsg_iova == 0) ≡ true = ground arith in
    rw given (elim (Bool-cases (is_ok a.port_info.0)) [
      | inr n ↦ rw n (refl, λ k. refl)
      | inl y ↦ rw y (buffer_stage-Got a h a.buffer)
    ])

checked-Got :
    (a : Answers) (h : Handle) (lock : Bool)
    → h.umsg_iova ≡ 0
    → Got a h (get_ptr_locked a (some h) (handle_check_and_lock lock (some h)))
unfolding get_ptr_locked
checked-Got a h false z = (refl, λ k. refl)
checked-Got a h true z = elim (Bool-cases (h.magic == fpga_handle_magic)) [
  | inr n ↦ rw n (refl, λ k. refl)
  | inl y ↦
      rw y
        (elim h.fddev
          as (λ o. Got a h (elim o [
            | none ↦ (fpga_invalid_param, none, some h, [])
            | some fd ↦ get_ptr_open a h
          ])) [ none ↦ (refl, λ k. refl) | some fd ↦ get_ptr_open-Got a h z ])
]

-- For a handle with no buffer for messages, and any answers of the driver: a call that gives no
-- pointer leaves the handle as it was and frees what it allocated; one that gives a pointer returns
-- FPGA_OK, keeps the buffer in the handle, and its calls are the allocation, the DMA mapping, the
-- base address at the mapping and the switch, in this order.
pub xfpga_fpga_get_umsg_ptr_lem :
    (a : Answers) (h : Handle) → h.umsg_iova ≡ 0 → Got a h (xfpga_fpga_get_umsg_ptr a (some h) true)
unfolding xfpga_fpga_get_umsg_ptr
xfpga_fpga_get_umsg_ptr_lem a h z = checked-Got a h a.lock z

module _ (b : Answers) (h : Handle) (ptr size iova : ℕ) (lock : b.lock ≡ true)
    (relock : b.relock ≡ true) (magic : h.magic ≡ fpga_handle_magic) where
  kept : Handle
  kept = record h { umsg_iova = iova; umsg_virt = ptr; umsg_size = size }

  same_magic : (h.magic == fpga_handle_magic) ≡ true
  same_magic = (==_iff _ _).1 magic

  get_again :
      {fd : ℕ}
      → h.fddev ≡ some fd
      → iova ≢ 0
      → xfpga_fpga_get_umsg_ptr b (some kept) true ≡ (fpga_ok, some ptr, some kept, [])
  unfolding xfpga_fpga_get_umsg_ptr get_ptr_locked get_ptr_open kept
  get_again open_fd ne =
      let there : (iova == 0) ≡ false = ground arith in rw (lock, same_magic, open_fd, there) refl

  trigger_again :
      {fd : ℕ} (value : ℕ)
      → h.fddev ≡ some fd
      → iova ≢ 0
      → xfpga_fpga_trigger_umsg b (some kept) value ≡ (fpga_ok, write ptr value, some kept, [])
  unfolding xfpga_fpga_trigger_umsg trigger_locked trigger_result get_ptr_locked get_ptr_open kept
  trigger_again value open_fd ne =
      let there : (iova == 0) ≡ false = ground arith in
      rw (lock, relock, same_magic, open_fd) (rw (same_magic, there) refl)

  free_kept :
      ptr ≢ 0
      → free_umsg_buffer b (some kept) ≡ (
        fpga_ok,
        some (record h { umsg_virt = 0; umsg_size = 0; umsg_iova = 0 }),
        teardown_calls ptr size iova,
      )
  unfolding free_umsg_buffer free_locked kept
  free_kept ne = let there : (ptr == 0) ≡ false = ground arith in rw (lock, same_magic, there) refl

-- On an open handle with no buffer for messages, after a call that gives a pointer, where the
-- pointer and the I/O address are not 0: a second call gives the same pointer and calls nothing, a
-- message is written to it, and freeing it gives the handle back as it was and makes the calls that
-- undo every step.
pub get-free :
    (a b : Answers) (h h' : Handle) (fd ptr value : ℕ) (calls : List UmsgCall)
    → h.umsg_iova ≡ 0
    → h.umsg_virt ≡ 0
    → h.umsg_size ≡ 0
    → h.magic ≡ fpga_handle_magic
    → h.fddev ≡ some fd
    → b.lock ≡ true
    → b.relock ≡ true
    → ptr ≢ 0
    → a.mapped.1 ≢ 0
    → xfpga_fpga_get_umsg_ptr a (some h) true ≡ (fpga_ok, some ptr, some h', calls)
    → (size : ℕ) × (calls ≡ setup_calls ptr size a.mapped.1)
      × (xfpga_fpga_get_umsg_ptr b (some h') true ≡ (fpga_ok, some ptr, some h', []))
      × (xfpga_fpga_trigger_umsg b (some h') value ≡ (fpga_ok, write ptr value, some h', []))
      × (free_umsg_buffer b (some h') ≡ (fpga_ok, some h, teardown_calls ptr size a.mapped.1))
get-free a b h h' fd ptr value calls zi zv zs magic open_fd lock relock np ni e =
    let size = u64 (a.port_info.1 * a.page_size) in
    let (_, (same, made)) = subst (Got a h) e (xfpga_fpga_get_umsg_ptr_lem a h zi) in
    let set_up : some h' ≡ some (kept b h ptr size a.mapped.1 lock relock magic) =
      unfold kept in same in
    let idle : record h { umsg_virt = 0; umsg_size = 0; umsg_iova = 0 } ≡ h =
      λ i. record h { umsg_virt = sym zv i; umsg_size = sym zs i; umsg_iova = sym zi i } in
    let p : h' ≡ kept b h ptr size a.mapped.1 lock relock magic = cc in
    (
      size,
      made,
      subst (λ t. xfpga_fpga_get_umsg_ptr b (some t) true ≡ (fpga_ok, some ptr, some t, [])) (sym p)
          (get_again b h ptr size a.mapped.1 lock relock magic open_fd ni),
      subst (λ t. xfpga_fpga_trigger_umsg b (some t) value ≡ (fpga_ok, write ptr value, some t, []))
          (sym p) (trigger_again b h ptr size a.mapped.1 lock relock magic value open_fd ni),
      ap (λ t. free_umsg_buffer b (some t)) p
          ∙ free_kept b h ptr size a.mapped.1 lock relock magic np
          ∙ ap (λ t. (fpga_ok, some t, teardown_calls ptr size a.mapped.1)) idle,
    )

module _ (n page_size virt io : ℕ) (based enabled configured : FpgaResult) where
  -- The driver's answers: all succeed but those that are arguments.
  abbrev pub refusing : Answers
  refusing = record {
    lock = true;
    relock = true;
    port_info = (fpga_ok, n);
    page_size = page_size;
    buffer = some virt;
    mapped = (fpga_ok, io);
    based = based;
    enabled = enabled;
    unmapped = fpga_ok;
    configured = configured;
  }

  early : List UmsgCall
  early =
      alloc_buffer (u64 (n * page_size)) virt
      ∷ port_map virt (u64 (n * page_size)) io
      ∷ port_unmap io
      ∷ free_buffer virt (u64 (n * page_size))
      ∷ []

  late : List UmsgCall
  late =
      alloc_buffer (u64 (n * page_size)) virt
      ∷ port_map virt (u64 (n * page_size)) io
      ∷ set_base_addr io
      ∷ port_unmap io
      ∷ free_buffer virt (u64 (n * page_size))
      ∷ []

  hidden_open :
      (h : Handle)
      → h.umsg_iova ≡ 0
      → (is_ok based ≡ false) ⊎ (is_ok enabled ≡ false)
      → (cs : List UmsgCall) × (get_ptr_open refusing h ≡ (fpga_ok, none, some h, cs))
  unfolding get_ptr_open buffer_stage map_stage base_stage enable_stage map_exit early late
  hidden_open h z (inl f) =
      let there : (h.umsg_iova == 0) ≡ true = ground arith in (early, rw (there, f) refl)
  hidden_open h z (inr f) =
      let there : (h.umsg_iova == 0) ≡ true = ground arith in
      elim (Bool-cases (is_ok based)) [
        | inl y ↦ (late, rw (there, y, f) refl)
        | inr n ↦ (early, rw (there, n) refl)
      ]

open_ptr :
    (a : Answers) (h : Handle) (fd : ℕ)
    → h.magic ≡ fpga_handle_magic
    → h.fddev ≡ some fd
    → get_ptr_locked a (some h) (handle_check_and_lock true (some h)) ≡ get_ptr_open a h
unfolding get_ptr_locked
open_ptr a h fd magic open_fd =
    ap (get_ptr_locked a (some h)) (handle_check_and_lock_valid h magic)
    ∙ ap
        (λ o. elim o as (λ _. Outcome) [
          | none ↦ (fpga_invalid_param, none, some h, [])
          | some fd ↦ get_ptr_open a h
        ])
        open_fd

-- On an open handle with no buffer for messages, where setting the base address or switching the
-- messages on fails and ending the DMA mapping then succeeds, asking for the pointer returns FPGA_OK
-- and gives none, and triggering a message returns FPGA_OK and writes through a NULL pointer; the
-- handle stays as it was.
pub get-hidden_error :
    (h : Handle) (fd n page_size virt io value : ℕ) (based enabled configured : FpgaResult)
    → h.umsg_iova ≡ 0
    → h.magic ≡ fpga_handle_magic
    → h.fddev ≡ some fd
    → (is_ok based ≡ false) ⊎ (is_ok enabled ≡ false)
    → let a = refusing n page_size virt io based enabled configured in
      (cs : List UmsgCall) × (xfpga_fpga_get_umsg_ptr a (some h) true ≡ (fpga_ok, none, some h, cs))
      × (xfpga_fpga_trigger_umsg a (some h) value ≡ (fpga_ok, null_write, some h, cs))
unfolding xfpga_fpga_get_umsg_ptr xfpga_fpga_trigger_umsg trigger_locked trigger_result
get-hidden_error h fd n page_size virt io value based enabled configured z magic open_fd f =
    let a = refusing n page_size virt io based enabled configured in
    let (cs, e) = hidden_open n page_size virt io based enabled configured h z f in
    let got = open_ptr a h fd magic open_fd ∙ e in
    (
      cs,
      got,
      ap (trigger_locked a (some h) value) (handle_check_and_lock_valid h magic)
          ∙ ap
              (λ o. elim o as (λ _. FpgaResult × Write × Option Handle × List UmsgCall) [
                | none ↦ (fpga_invalid_param, no_write, some h, [])
                | some fd ↦
                    trigger_result value
                      (get_ptr_locked a (some h) (handle_check_and_lock true (some h)))
              ])
              open_fd
          ∙ ap (trigger_result value) got,
    )
