-- ===== src/Umsg/Tests.antt =====
-- An open handle whose messages are set up and taken down.
use opae_libs.Prelude.{ℕ, ◌≡◌, refl, arith, true, none, some, List, [], replicate, inr}
use opae_libs.Types.{fpga_ok, fpga_invalid_param}
use opae_libs.Handle.{Handle, fpga_handle_magic}
use opae_libs.Umsg.{
  UmsgCall, Answers, write, null_write, xfpga_fpga_get_umsg_ptr, xfpga_fpga_trigger_umsg,
  free_umsg_buffer,
}
use opae_libs.Umsg.Laws.{setup_calls, teardown_calls, refusing, get-free, get-hidden_error}

abbrev idle : Handle
idle = record {
  magic = fpga_handle_magic;
  fddev = some 3;
  wsid_root = record { n_hash_buckets = 2; table = replicate 2 [] };
  mmio_root = record { n_hash_buckets = 2; table = replicate 2 [] };
  umsg_virt = 0;
  umsg_size = 0;
  umsg_iova = 0;
  flags = 0;
}

abbrev granted : Answers
granted = refusing 8 4096 0x7f0000000000 0x10000 fpga_ok fpga_ok fpga_ok

abbrev ready : Handle
ready = record idle { umsg_virt = 0x7f0000000000; umsg_size = 32768; umsg_iova = 0x10000 }

abbrev ready_calls : List UmsgCall
ready_calls = setup_calls 0x7f0000000000 32768 0x10000

get_idle :
    xfpga_fpga_get_umsg_ptr granted (some idle) true
    ≡ (fpga_ok, some 0x7f0000000000, some ready, ready_calls)
unfolding xfpga_fpga_get_umsg_ptr
get_idle = refl

get-free_example :
    (size : ℕ) × (ready_calls ≡ setup_calls 0x7f0000000000 size 0x10000)
    × (xfpga_fpga_get_umsg_ptr granted (some ready) true
        ≡ (fpga_ok, some 0x7f0000000000, some ready, []))
    × (xfpga_fpga_trigger_umsg granted (some ready) 7
        ≡ (fpga_ok, write 0x7f0000000000 7, some ready, []))
    × (free_umsg_buffer granted (some ready)
        ≡ (fpga_ok, some idle, teardown_calls 0x7f0000000000 size 0x10000))
get-free_example =
    get-free granted granted idle ready 3 0x7f0000000000 7 ready_calls refl refl refl refl refl refl
      refl (omega arith) (omega arith) get_idle

-- The driver refuses to switch the messages on.
abbrev refused : Answers
refused = refusing 8 4096 0x7f0000000000 0x10000 fpga_ok fpga_invalid_param fpga_ok

get-hidden_error_example :
    (cs : List UmsgCall) × (xfpga_fpga_get_umsg_ptr refused (some idle) true
      ≡ (fpga_ok, none, some idle, cs))
    × (xfpga_fpga_trigger_umsg refused (some idle) 7 ≡ (fpga_ok, null_write, some idle, cs))
get-hidden_error_example =
    get-hidden_error idle 3 8 4096 0x7f0000000000 0x10000 7 fpga_ok fpga_invalid_param fpga_ok refl
      refl refl (inr refl)
