-- ===== src/Lib.antt =====
-- A verification development for the ECE334 operating-system labs: a model of the programs' own code
-- with theorems about it.
--
-- The program's parts. fs/ is a small file system in a file: bitmap.c keeps arrays of bits, block.c
-- reads and writes whole blocks of the device file, super.c keeps the super block and the two freemaps
-- and allocates inode numbers and blocks, inode.c keeps inodes, read_write.c maps logical blocks of an
-- inode to physical ones and moves data, dir.c and file.c are the commands, mktestfs.c makes a new file
-- system and testfs.c is the shell. threads/ is a thread library, webserver/ a threaded server with a
-- cache, warmup/ small exercises.
--
-- Files. Prelude and its children hold shared names, Boolean tests, arrays as functions of the index,
-- the laws of the bits of a byte (Prelude.Bits, by tables over all bytes) and C's int results
-- (Prelude.Cint). Each part of the file system is a module under Fs, the
-- exercises are under Warmup:
--   Fs.Bitmap: fs/bitmap.c. A map is its size and its bytes; its children hold the proofs.
--   Fs.Device: fs/block.c. The device file is its size and its bytes.
--   Fs.Super: fs/super.c, over Fs.Bitmap and Fs.Device. Fs.Super.Inv is the invariant of a mounted file
--     system: both freemaps are valid, the counters count them, and the device holds the super block
--     and the freemaps as they are in memory. Fs.Super.Blocks and Fs.Super.Inodes are the operations,
--     Fs.Super.Mount is the mounting.
--   Fs.Mkfs: the sequence of calls of fs/mktestfs.c.
--   Fs.Inode: the inode of fs/inode.h, and the allocation and freeing of its blocks in fs/inode.c.
--   Fs.Itable: the rest of fs/inode.c, the hash table of inodes in memory with their reference counts,
--     and the inode blocks of the device. A pointer to an inode is its number.
--   Fs.BlockMap, Fs.ReadData, Fs.WriteData, Fs.FreeBlocks: the functions of fs/read_write.c. The block
--     map is seen as a tree of slots (Fs.BlockMap.Slots) with the invariant IsMapped: the slots hold 0
--     or distinct allocated blocks. Fs.BlockMap.Allocate has the theorems on reading and allocating.
--   Fs.Dir, Fs.DirEdit: fs/dir.c, the entries of a directory, their loops, creation and removal.
--   Fs.Commands: the commands of fs/dir.c that change something, and those of fs/file.c. Fs.Listing: the
--     commands that print, which is a result here; Fs.Listing.Refs and Fs.Listing.Paths
--     are about the inodes that they hold.
--   Warmup.SortedPoints: warmup/sorted_points.c and the comparison of warmup/point.c, over a record of
--     what they use of the arithmetic of doubles; Insertion and Removal have the theorems.
--   Threads: threads/thread.c. The state is TotalList, the ready list, the wait queues on the heap, the
--     locks and the interrupt flag. Threads.Queue has thread_sleep and thread_wakeup, Threads.Yield the
--     calls that create, switch and end threads, Threads.Sync thread_wait, locks and condition variables.
--     Threads.Inv is the invariant, and Wakeup, Sleep, Create, Rotate, Exit and Locks its proofs for each
--     call; Threads.Steps makes the calls the steps of a system, Threads.Turns, Outcomes, Endings and
--     Stuck say what single calls do.
--   Warmup.WordCount: warmup/wc.c. Words has the words of a text apart from its loops, Counts the theorems.
--   Webserver.Requests: the queue of webserver/server_thread.c. The state is the ring with its counters and
--     the place of each worker and of each caller of server_request; Rounds makes their rounds a system of
--     steps with the list that the ring stands for (Ring, Order), Shutdown is about server_exit.
--   Webserver.Cache: its cache, a hash table with chains and a list of recent use. Lists has the lemmas on
--     these lists, Inv, Insert and Evict the invariant and its proofs, Sections the parts of
--     do_server_request between its locks, Requested the states that any requests lead to.
--   Webserver.Rio: the reading of lines in webserver/common.c and request_read_headers in
--     webserver/request.c. What read() returns is an argument; Lines has the theorems.
--   Tests: runs of the model and instances of the theorems.
--
-- How the code is modelled. A function of the source has the name that it has there; one that updates an
-- object returns the new object. A result of type int is `ok n` or, for a negative error number, `err e`.
-- A failed assertion, an exit of the program and an access outside an array are `none`. An s32 is kept as
-- its bit pattern below 2^32. Wrapping arithmetic is written out. The first three copies of fs/ in the
-- repository are the same files; fs/ is the one that is modelled. A function too long for one definition
-- is cut at its branches, in the order of the code.
--
-- Loops are recursions on the number of rounds where the code counts them. The loops over full blocks of
-- testfs_read_data and testfs_write_data run on fuel, one round more than there are bytes to go, where
-- each round moves a block. A loop over the entries of a directory runs on fuel, one round more than the
-- directory has bytes; Fs.Dir.Scan proves that this is enough.
-- pwd, ls and lsr take the number of directories on a path as fuel, and have no result on a longer one.
--
-- thread_yield and thread_exit call one another. Their fuel counts these calls; where no killed thread is
-- ready one call is enough, and Threads.Rotate and Threads.Exit show that more fuel changes nothing. A
-- killed thread that is first in the ready list makes them recurse for ever.
--
-- A switch of threads is a change of the current thread; a context is the place in the library where its
-- thread goes on, and the `resume` of Threads.Sync is what the thread does there before its call ends.
-- What a thread does between its calls, and when a timer interrupts it, is left open: any call can be the
-- next step, and the handler of the timer calls thread_yield(THREAD_ANY). A linked list is the list of its
-- threads; a pointer to an object on the heap is a name for it.
--
-- request_read_headers runs on fuel, one for each line that it reads. The loop of wc_init in warmup/wc.c runs on fuel, the length of the text, of which each round takes a byte.
--
-- In webserver/server_thread.c what a thread does between taking the mutex and giving it up is one step, and
-- the steps of the threads come in any order; pthread_cond_wait may return without a broadcast, as its
-- documentation says. Sizes of files are natural numbers, whose sums do not overflow an int.
--
-- hash_int of fs/list.h, a copy of the kernel's, is a parameter: a field of the state FsState.
--
-- Not modelled: the rest of webserver/request.c and webserver/common.c, the clients and file sets of webserver/,
-- pthread_join; the signals and timers of threads/interrupt.c, the machine contexts; in thread_yield the round
-- of the loop over stacks that reads past TotalList; input and output of the commands, option parsing, and failures of the device file other
-- than a read past its end. The standard library's allocation succeeds or not by an argument in
-- fs/bitmap.c and fs/super.c; in fs/inode.c and fs/dir.c it succeeds.
pub mod Prelude
pub mod Fs
pub mod Threads
pub mod Warmup
pub mod Webserver
pub mod Tests
