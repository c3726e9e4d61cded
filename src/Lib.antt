-- ===== src/Lib.antt =====
-- opae-libs gives an application access to FPGA accelerators. The C API (libopae-c) wraps the
-- handles and tokens of plugins and dispatches each call to the plugin that made them; the plugin
-- xfpga talks to the kernel drivers; libopaevfio and libopaeuio reach a device from user space,
-- and libopaemem hands out the I/O addresses that libopaevfio maps.
--
-- Parts of the code and their files:
--
-- MemAlloc is libopaemem/mem_alloc.c. `MemAlloc` is `struct mem_alloc`: each circular list of
-- `struct mem_link` is a list of its nodes in the order of `next`, without the head.
-- `mem_alloc_init`, `mem_alloc_destroy`, `mem_alloc_add_free`, `mem_alloc_get` and
-- `mem_alloc_put` have the names of the C functions, and so have `mem_alloc_coalesce`,
-- `mem_alloc_allocate_node` and `mem_alloc_free_node`. Whether `malloc` gives a node is a Boolean
-- argument. Addresses are 64-bit and wrap. Shape is the order of the free list, Cover the
-- abstract view (how many blocks hold an address), Free, Owned and Release the three operations,
-- Client the sequences of calls.
--
-- WsidList is plugins/xfpga/wsid_list.c, the whole file: `WsidTracker` is `struct wsid_tracker`,
-- its table a list of buckets, `WsidMap` is `struct wsid_map`, and the functions have the names
-- of the C functions. View is the abstract view, a stack of entries for each id, which Ops
-- compares with the operations; Index is the walks over the whole table, and Added the search
-- after an addition.
--
-- Mmio is plugins/xfpga/mmio.c: the accesses, `xfpga_fpga_map_mmio` and `xfpga_fpga_unmap_mmio`
-- are its functions, over the tracker of WsidList. The answers of the kernel and the C library to
-- the calls of one operation are a record, `Answers`, which every theorem takes as an argument.
-- An access gives the address that it touches, and a write also the width and the value; the
-- memory of the device is not modelled. Regions is the search that maps a region at its first
-- use, Access the accesses, Unmap the two explicit calls.
--
-- Vfio is the DMA buffers of libopaevfio/opaevfio.c: `Vfio` is what they use of `struct
-- opae_vfio`, with the allocator of MemAlloc as `iova_alloc`, and `opae_vfio_buffer_allocate`,
-- `opae_vfio_buffer_free`, `opae_vfio_iova_discover` and the part of `opae_vfio_destroy` on the
-- buffers have the names of the C functions. What `mmap`, the ioctl calls and `malloc` answer is
-- an argument, and the calls that map and unmap are recorded in their order. Count is the number
-- of a buffer's mappings on such a record, Alloc, Free and Discover the operations, Lost an
-- allocation that fails, and Run the sequences of operations as a step relation.
--
-- Irq is `opae_vfio_irq_enable`, `opae_vfio_irq_unmask`, `opae_vfio_irq_mask` and
-- `opae_vfio_irq_disable` of libopaevfio/opaevfio.c, over the list of the interrupts of the
-- device; Bounds is what they ask the kernel.
--
-- VfioPlugin is the other user of a device, the plugin of plugins/vfio: dfl.c, and of opae_vfio.c
-- `vfio_walk` with the tokens, the accesses to registers, and `vfio_fpgaUpdateProperties`. A
-- region is a function from offsets to words; `for_each_dfh` is the macro, with its body as an
-- argument. Headers is the loops, Kept, Tokens and Shared the tokens that a walk makes, Access
-- the accesses, Past those to a port that was found, and Update what is written into an object of
-- Props, with what its getters then give (Getters).
--
-- Buffer is plugins/xfpga/buffer.c, over the tracker `wsid_root` of WsidList, and Umsg is
-- plugins/xfpga/umsg.c, each with the functions of its file (`xfpga_fpgaPrepareBuffer` is
-- `xfpga_fpga_prepare_buffer`), the answers of the kernel as a record, and the calls recorded.
-- Prepare is the preparation of a buffer, Trip a preparation with its release, Lost one that
-- fails; Laws is the messages. Handle is `struct _fpga_handle` of plugins/xfpga/types_int.h with
-- `handle_check_and_lock` of common.c, which Mmio, Buffer and Umsg share; Pages is the page sizes
-- that Vfio and Buffer ask for.
--
-- Token is the wrapped tokens of libopae-c/api-shell.c and libopae-c/opae_int.h: `Tokens` maps
-- the pointers that are allocated to `struct _opae_wrapped_token` and has the list of the tokens
-- in use. The plugin's `fpgaDestroyToken` is a function in the adapter table. Count is the
-- reference counts.
--
-- Enumerate is `fpgaEnumerate` of libopae-c/api-shell.c with its callback `opae_enumerate`, over
-- the loop `opae_plugin_mgr_for_each_adapter` of pluginmgr.c: the tokens are those of Token, the
-- filters pointers into a heap of the objects of Props, and what a plugin's `fpgaEnumerate`
-- answers is a function in the list of adapters. Filters is the parents that are unwrapped for
-- the plugins and wrapped again, Wrap the tokens that one plugin gives, Progress the loop over
-- the plugins, Returned what a call with an array of tokens gives, and Counting a call without
-- one.
--
-- Shell is `fpgaOpen`, `fpgaClose`, `fpgaCloneToken` and `fpgaDestroyToken` of api-shell.c with
-- the wrapped handles of opae_int.h, over the tokens of Token; what the plugins answer is in the
-- adapter table, and the calls of the plugins are recorded. Open and Clone are their theorems.
--
-- PluginMgr is libopae-c/pluginmgr.c without its loop over the plugins, which is in Enumerate:
-- the record `PluginMgr` is its static variables, and the functions have the names of the C
-- functions. What the dynamic loader, `calloc`, the plugins, the JSON library and the directory
-- of the devices answer is an argument; the calls of the loader and the plugins are recorded.
-- Config is the configuration file, with what reading it keeps (Kept) and the buffer (Read), Life
-- the start and the end of the manager, Handles and Balance the handles of the loader, Once and
-- Native the plugins of the devices found.
--
-- Props is libopae-c/props.c and libopae-c/props.h: `Properties` is `struct _fpga_properties`,
-- with the union as its five 32-bit words, and `fpgaPropertiesGetObjectType` is
-- `fpga_properties_get_object_type` and so on for each function. Common, Union and Parent are the
-- functions, Bodies the shared bodies of the getters and setters; Fields and Slots collect them,
-- so that one theorem is about all of them; Alias is about the bits that devices and accelerators
-- share. The parent is a token of Token.
--
-- Match is `matches_filter` and `matches_filters` of plugins/xfpga/enum.c, over the objects of
-- Props: `DevList` is what they compare of `struct dev_list`. Fits and Getters compare them with
-- the getters, and Values says so as a statement on the values.
--
-- Vector is plugins/xfpga/metrics/vector.c and vector.h: `MetricVector` is `fpga_metric_vector`,
-- and the functions have the names of the C functions. `malloc` and `realloc` are parameters;
-- none stands for undefined behaviour, an array that is NULL or too short. Cells is the loops
-- over the array, Laws the valid vectors and `fpga_vector_resize`, and Push, Delete and Free the
-- operations.
--
-- Types is the codes of include/opae/types_enum.h; Prelude holds the shared tests on numbers, the
-- lists, the 32-bit and 64-bit widths (`u32`, `u64`) and the bits of `valid_fields` (Bits).
--
-- Integers are natural numbers with the wrap-around written out. Two loops have fuel:
-- `for_each_dfh` has one round for each byte of the region and one more, which is enough since
-- each header is behind the one before; a read behind the region, which the macro does not
-- prevent, ends the walk of the model as `outside`, after which nothing is said. The poll of
-- `legacy_port_reset` has the 1001 rounds after which the code gives up. Every other loop walks a
-- list or counts down a number of rounds that is known before it starts. A mutex makes each
-- operation one step; where the code reports that it could not be locked, that is an argument.
--
-- Not modelled: the objects and events of api-shell.c and the calls that it only passes on;
-- `find_cfg` of pluginmgr.c; the bitstream reader; the other metrics, user clock, events and
-- errors of xfpga, and its search of sysfs; of libopaevfio the opening of the device, its group
-- and regions; of the VFIO plugin the scan of the bus, the handles, buffers and events; and what
-- is mostly file, ioctl or mmap calls (sysfs, the drivers, libopaeuio), the bindings, tests and
-- samples. The prev and next pointers of the lists of mem_alloc.c are not modelled as a heap, nor
-- the memory of the buffers.

pub mod Prelude
pub mod MemAlloc
pub mod WsidList
pub mod Types
pub mod Handle
pub mod Token
pub mod Props
pub mod Enumerate
pub mod Shell
pub mod Mmio
pub mod Vector
pub mod Pages
pub mod Buffer
pub mod Umsg
pub mod Vfio
pub mod Irq
pub mod PluginMgr
pub mod VfioPlugin
pub mod Match
