-- ===== src/Buffer/Tests.antt =====
-- A buffer of one byte more than a page, prepared and released.
use opae_libs.Prelude.{ℕ, ◌≡◌, refl, arith, true, false, none, some, List, [], ◌∷◌}
use opae_libs.Types.{fpga_ok, fpga_invalid_param, fpga_no_memory}
use opae_libs.Pages.{pages_for, pages_2m}
use opae_libs.Handle.{Handle, fpga_handle_magic}
use opae_libs.WsidList.{wsid_tracker_init, wsid_add, wsid_find}
use opae_libs.WsidList.View.{IsValid, wsid_tracker_init-IsValid}
use opae_libs.Buffer.{BufferCall, mmap, munmap, port_map, Answers, buffer_entry, release_len}
use opae_libs.Buffer.{
  xfpga_fpga_prepare_buffer, xfpga_fpga_release_buffer, xfpga_fpga_get_io_address,
}
use opae_libs.Buffer.Prepare.{granted_calls}
use opae_libs.Buffer.Trip.{undone_calls, prepare-release}
use opae_libs.Buffer.Lost.{port_maps, port_unmaps, prepare-lost}

abbrev handle : Handle
handle = record {
  magic = fpga_handle_magic;
  fddev = some 3;
  wsid_root = record { n_hash_buckets = 2; table = [] ∷ [] ∷ [] };
  mmio_root = record { n_hash_buckets = 2; table = [] ∷ [] ∷ [] };
  umsg_virt = 0;
  umsg_size = 0;
  umsg_iova = 0;
  flags = 0;
}

abbrev answers : Answers
answers = record {
  lock = true;
  page_size = 4096;
  buffer = some 0x7f0000000000;
  no_memory = false;
  io_addr = some 0x20000;
  wsid = 5;
  has_node = true;
  unmapped = true;
  released = true;
}

abbrev prepared : Handle
prepared = record handle {
  wsid_root = record {
    n_hash_buckets = 2;
    table = [] ∷ (buffer_entry 5 0x7f0000000000 0x20000 8192 0 ∷ []) ∷ [];
  };
}

abbrev calls : List BufferCall
calls = mmap pages_2m 8192 0x7f0000000000 ∷ port_map 0x7f0000000000 8192 false 0x20000 ∷ []

prepare_handle :
    xfpga_fpga_prepare_buffer answers (some handle) 4097 (some 0) true 0
    ≡ (fpga_ok, some 0x7f0000000000, some 5, some prepared, calls)
unfolding xfpga_fpga_prepare_buffer opae_libs.WsidList.wsid_add
prepare_handle = refl

-- Preallocated buffers are supported.
ask_preallocated :
    xfpga_fpga_prepare_buffer answers (some handle) 0 none true 1
    ≡ (fpga_ok, none, none, some handle, [])
unfolding xfpga_fpga_prepare_buffer
ask_preallocated = refl

handle-IsValid : IsValid handle.wsid_root
handle-IsValid = (wsid_tracker_init-IsValid true true 2 made).0
  where
    made : wsid_tracker_init true true 2 ≡ some handle.wsid_root
    made = unfold wsid_tracker_init in refl

prepare-release_example :
    (n : ℕ) × (io : ℕ) × (h'' : Handle) × (calls ≡ granted_calls 0x7f0000000000 n 0 io)
    × (xfpga_fpga_get_io_address answers (some prepared) 5 ≡ (fpga_ok, some io))
    × (xfpga_fpga_release_buffer answers (some prepared) 5
        ≡ (fpga_ok, some h'', undone_calls 0x7f0000000000 n 0 io))
    × (h'' ≡ record handle { wsid_root = h''.wsid_root })
    × ((x : ℕ) → wsid_find h''.wsid_root x ≡ wsid_find handle.wsid_root x)
prepare-release_example =
    prepare-release answers answers handle prepared 4097 0 0x7f0000000000 5 (some 0) true calls
      handle-IsValid refl refl refl refl prepare_handle

abbrev no_node : Answers
no_node = record answers { has_node = false }

abbrev lost_calls : List BufferCall
lost_calls =
    mmap (pages_for 8192) 8192 0x7f0000000000
    ∷ port_map 0x7f0000000000 8192 false 0x20000
    ∷ munmap 0x7f0000000000 (release_len 8192)
    ∷ []

prepare_no_node :
    xfpga_fpga_prepare_buffer no_node (some handle) 4097 (some 0) true 0
    ≡ (fpga_no_memory, none, some 5, some handle, lost_calls)
unfolding xfpga_fpga_prepare_buffer wsid_add
prepare_no_node = refl

prepare-lost_example :
    (no_node.has_node ≡ false)
    × (fpga_no_memory ≡ fpga_no_memory)
    × (port_maps lost_calls ≡ 1)
    × (port_unmaps lost_calls ≡ 0)
    × (handle ≡ handle)
    × ((x : ℕ)
        → wsid_find handle.wsid_root x ≡ none
        → xfpga_fpga_release_buffer answers (some handle) x ≡ (fpga_invalid_param, some handle, []))
prepare-lost_example =
    prepare-lost no_node answers handle handle 4097 0 (some 0) none (some 5) true fpga_no_memory
      lost_calls refl refl prepare_no_node (λ e. cc) (omega arith)
