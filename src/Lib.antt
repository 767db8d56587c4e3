-- ===== src/Lib.antt =====
-- Verification of the kernel of FuriOS and of the allocator of its user programs.
--
-- The parts and how they interact.
-- * Pipe (kernel/pipe.c, include/pipe.h): the table of pipes that the file descriptors of two
--   processes share. `Pipe` is `pipe_t`, a table is the list of its slots, and each function has
--   the name of the C function; `Pipe.Queue` is the bounded queue that a pipe promises.
-- * Pmm (kernel/pmm.c): the physical pages that page tables, stacks and buffers are made of. `Pmm`
--   holds the module's variables and physical memory; arrays are functions of the index.
-- * BlockCache (kernel/block_cache.c): sectors cached between the file systems and the disk drivers.
--   `Cache` holds the module's variables and the state of the device behind them. The drivers
--   (kernel/virtio_blk.c, kernel/ahci.c, kernel/nvme.c) are the parameter `Drivers`, and what the
--   cache relies on of them is `BlockCache.Laws`: a transfer that succeeds moves the sector, one
--   that fails touches no other sector of the device, a flush moves no data. What a failed read
--   leaves in the buffer is not restricted.
-- * Net (kernel/net.c): interfaces and routes (`Net`), the ARP table (`Net.Arp`), checksums
--   (`Net.Checksum`), addresses as text (`Net.Address`) and the queues between drivers, sockets and
--   readers (`Net.Queues`). `Net.Tcp` is the state machine of one TCP socket: a function per C
--   function, process_tcp_established as the phases of its body in their order, and tcp_tick on one
--   socket. What a socket sends is a list of segments, and whether each is sent is the parameter
--   `send`, the IP layer, whose answer comes without another run of the stack: a transmission that
--   waits for ARP pumps the stack again, which is not modelled. Listeners and the socket calls are
--   not modelled.
-- * Vma (kernel/task.c): the areas of a task's address space and its heap. `Task` has the fields that
--   these functions use; unmapped pages are listed, the page tables are not modelled.
-- * UserCopy (kernel/user_copy.c) and Strings (kernel/string.c): the byte loops under the others.
-- * Malloc (user/lib/alloc.c, user/lib/syscall.c): the allocator of user programs. `Heap` holds the
--   chain of block headers, the tail pointer and the bytes of memory; sbrk is a parameter whose
--   laws (`Malloc.Alloc.SbrkLaws`) `Malloc.Sbrk` shows of sys_sbrk over `Vma.task_brk`.
-- * PageCache (kernel/pagecache.c): the write-back of cached file pages, and in `PageCache.Drop`
--   truncation and invalidation. `Cache` holds the module's variables; what stores a page and
--   what takes it from its writers are the parameters `store` (pagecache_store_page) and
--   `protect` (task_pagecache_writeprotect_shared), the inodes' sizes are part of the state
--   behind them, and what the cache relies on of them is `PageCache.Store.Laws`.
--   `PageCache.Storage` is pagecache_store_page itself, with the branches of block devices and
--   ext4 as parameters, and shows the laws of it for files in memory. A flush has as many rounds
--   as its budget, and `PageCache.Flush` shows that 256, the number of slots, are enough.
-- `Prelude` has the shared notation, the lemmas on lists and on copying loops, and the laws of masks.
--
-- Bounds and fuel. Sums of `uint64_t` and `uint32_t` wrap. A loop over an array is a recursion on
-- its list or on the number of rounds left, so it needs no fuel; the marking loop of pmm.c runs on
-- `bytes / PAGE_SIZE + 1` rounds, one more than the whole pages in the range, and
-- `Pmm.Mark.mark_loop-Marked` shows that it ends by its test. The loops of net.c and task.c that have no
-- counter run on fuel: 33 rounds for a 32-bit mask, 3 for folding a 32-bit sum, 16 for printing a
-- number as in the code, and the length of an address range for the walk over its areas.
-- `Net.Lookup`, `Net.Checksum`, `Net.Address` and `Vma.Range` show that this is enough.
--
-- Not modelled: device registers and DMA, page tables, TCP listeners and the socket calls,
-- scheduling and signals, the file systems above the cache, user programs other than the allocator,
-- and console output.
mod Prelude
pub mod Pipe
pub mod Pmm
pub mod BlockCache
pub mod Net
pub mod Vma
pub mod UserCopy
pub mod Strings
pub mod Malloc
pub mod PageCache
