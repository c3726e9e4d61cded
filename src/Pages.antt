-- ===== src/Pages.antt =====
-- The page sizes that the DMA buffers of libopaevfio/opaevfio.c and of plugins/xfpga/buffer.c ask for.
use opae_libs.Prelude.{ℕ, ◌*◌, ltb, if◌then◌else◌}

-- What the flags of `mmap` ask for.
pub data Pages : Type 0 where
  pages_4k pages_2m pages_1g : Pages

abbrev pub pages_for : ℕ → Pages
pages_for size =
    if ltb (2 * 1024 * 1024) size then pages_1g else if ltb 4096 size then pages_2m else pages_4k
