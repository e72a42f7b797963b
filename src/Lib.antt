-- ===== src/Lib.antt =====
-- A verification library for the XDK, the exokernel driver development kit. Paths are from the
-- root of the repository.
--
-- Parts, and where they are modelled:
-- - lib/libexo/private/__avl_tree.h, the AVL tree under the allocators of address ranges: Avl.antt
--   has `rotate_once`, `rotate_twice`, `rebalance`, `insert`, `remove`, `validate` and the public
--   `insert_node` and `remove_node` under the names of the source. A subtree is a value, and a
--   function that gets a reference to the root of one returns the new root. A panic or a read
--   through NULL is a result of its own. Balance factors are integers: the theorems keep them
--   between -1 and 1, where `short` and the integers agree. The virtual `higher` compares a key
--   that is a number. Avl/Runs.antt has the calls of a client, one after the other.
-- - drivers/nvme-ssd/nvme_batch_manager.h: Nvme/RingBuffer.antt has the ring buffer between one
--   producer and one consumer, Nvme/RingBuffer/Threads.antt its two operations cut into single
--   accesses of the shared fields, and Nvme/Batch.antt the batches of commands in flight that are
--   kept in such a ring. The assertions are `none`.
-- - drivers/nvme-ssd/nvme_queue.h and nvme_queue.cc: Nvme/Queue.antt has the indices of the
--   submission and the completion queue, the phase and the command ids, with the wrap-around of
--   `uint16_t` written out, and Nvme/Queue/Complete.antt the completion queue as steps of the driver
--   and of the device. Nvme/Issue.antt has the issue of reads, writes and flushes (nvme_queue.cc,
--   nvme_command_io.h), with the waiting loops `NVME_LOOP`, and Nvme/Issue/Batched.antt that of a
--   batch. The batches and the queues meet there, and in the completion thread (cq_thread.cc), which
--   takes a completion from the queue and passes its command id to the batch manager. Completions
--   come in while the issuing thread waits: a wait has the list of them that are to come, and ends
--   as `waits` where they do not suffice.
-- - kernel/modules/parasite, the kernel module that grants PCI devices and DMA memory to programs:
--   Parasite.antt has the state and the grants (pk_main.c), Parasite/Attach.antt the list of devices
--   (pk_main.c), Parasite/Dma.antt the handlers of DMA areas (pk_class.c), the lookup of an owned
--   area (common.c) and `fops_mmap` (pk_fops.c). Each handler is one atomic call with its input as
--   `sscanf` reads it; what it calls of the kernel or the compiler is a record `Linux` of
--   parameters. Parasite/Config.antt has the PCI configuration space (pk_pci_config.c), the DMA mask
--   and the interrupt mode (pk_class.c), and Parasite/Access.antt the sequences of calls. `irq_mode_show`,
--   which sets the mode too, the MSI vectors and the waiting for interrupts are not modelled.
-- - kernel/modules/shadow_bd/shadow_block.c, the block device behind which a program in user space
--   stands: ShadowBd.antt has the commands that `shadow_perform_request` posts, and
--   ShadowBd/Handshake.antt its waiting for the program as steps. Sector numbers are taken not to
--   overflow, and a wait is not interrupted by a signal.
-- - lib/libexo/private/__sym_nbb.h, the non-blocking buffer between two threads: Nbb.antt has the two
--   counters and the two calls, and Nbb/Steps.antt the calls cut into single accesses.
-- - lib/libexo/channel/spmc_circbuffer.h, the ring between one producer and many consumers: Spmc.antt
--   has the calls on their own and Spmc/Steps.antt the calls cut into single accesses. `none` is the
--   dummy address that marks an empty slot; the item that is NULL is left out.
-- - lib/libexo/exo/bitmap.h, the tracker of free slots: Bitmap.antt, where a word is the list of its
--   32 bits. A compare-and-swap succeeds: the retries are not modelled.
-- - lib/libexo/private/__span.h and __base_slab_allocator.h, the slab allocator: Slab.antt has a span of
--   blocks with its bitmap, Slab/Objects.antt the spans that `Base_object_allocator` searches. Calls
--   come one after the other, the alignment is the default of 8 bytes, and the addresses that
--   `malloc` returns are parameters. The loop of `init` has fuel for as many rounds as the span has
--   bytes.
-- - fs/ext2fs/block_cache.h, the cache of the ext2 file system: BlockCache.antt has the silos of 4 MB,
--   the allocator of their pages and the contents of those pages by address, so that two silos that
--   share pages would show. Calls come one after the other. `env()->alloc_pages`, the device and the
--   clock are parameters.
-- - fs/ext2fs/ext2_addr_block.h and ext2fs_file.cc: Ext2.antt has the tree from positions in a file to
--   lists of block addresses, and `File::read`, which goes through the block cache of
--   BlockCache.antt. The search in `Range_tree`, which is not in the repository, is a parameter. The
--   loop of `read` has fuel for one round more than there are bytes. Ext2/Directory.antt has the searches
--   through the entries of a directory (ext2fs.cc, ext2_dir.h), which are a list, with what lies
--   behind the last one not readable.
-- - lib/libcommon/common/list.h: LinkedList.antt has the list as links in a store, where an element
--   that is in one list and is put into another shows, and the collective of block lists of
--   fs/ext2fs/ext2_addr_block.h on it. Its loops have fuel for one round more than there are elements.
--
-- Arrays are functions on indices, with the bounds on the indices in the invariants. Numbers are
-- natural numbers. The loop of `_process_update_batch_info` and that of `_update_single_iteration`
-- run over `tail - idx` entries, which is the count that their definitions are given.
--
-- The memory order of the atomic fields is taken as sequentially consistent. The NVMe device is not
-- part of the repository: its side of the completion queue follows the NVMe specification. The
-- doorbells are the values last written to them. The driver's memory mapping, interrupts, printing,
-- the destruction of notification objects and the other parts of the repository are not modelled.
pub mod Prelude
pub mod Avl
pub mod Bitmap
pub mod BlockCache
pub mod Ext2
pub mod LinkedList
pub mod Nbb
pub mod Nvme
pub mod Parasite
pub mod ShadowBd
pub mod Slab
pub mod Spmc
