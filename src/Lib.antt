-- ===== src/Lib.antt =====
-- A verification library for fdpp, a DOS kernel (FreeDOS) compiled for a host.
--
-- The kernel keeps its state in global variables and in memory that programs share. Its parts call
-- each other directly: the interrupt handlers of kernel/inthndlr.c call the memory manager and the
-- file functions; these reach the FAT through a cache of sectors.
--
-- Which file models which part:
-- Base: names of the libraries that all files share, Boolean tests, list functions.
-- MemMgr: kernel/memmgr.c and hdr/mcb.h. MemMgr holds the MCBs and joinMCBs (join_mcbs),
--   MemMgr/Alloc DosMemAlloc in the parts that its labels and loops give it, MemMgr/Ops
--   DosMemLargest, DosMemFree, DosMemChange, DosMemCheck, FreeProcessMem and DosUmbLink. The
--   operations take memory, a function from segments to MCBs, and return it. Chain says what an
--   intact chain is and what an operation may change in it (Evolves); Join, Local, Placed, Seen,
--   Consider, Search and Picks are about the steps, Arenas and Allocates about DosMemAlloc,
--   Releases, Resizes and Checks about the other operations.
-- FatTab: kernel/fattab.c and the macros of hdr/fat.h. The functions take a Drive, the parameters
--   of `struct dpb` with the sectors' bytes, and return it. Entry is about the entries that the
--   bytes of a FAT stand for, Link and Fat12 about link_fat on a FAT12 drive.
-- Share: kernel/share.c. Share holds the file table, a function from entry numbers, and the lock
--   table, a list, with closing, locking and the access checks; Share/Open the open of a file. Locks,
--   Locking, Unlocking and Closing are about the locks, Opening about the sharing rules.
-- Clock: kernel/systime.c, kernel/sysclk.c and kernel/initclk.c, with READPCCLOCK of
--   kernel/drivers/rdpcclk.asm: the calendar, the date and time calls, which take what the driver's
--   requests do as parameters, and the kernel's driver. Calendar
--   and Days are about its loops, Dates and Next about dates and their numbers, Driver about the calls
--   over the kernel's driver.
-- FatFs: the clusters of a file in kernel/fatfs.c, over the drives of FatTab. Table is the interface
--   between the two, and Fat12 says that a FAT12 drive has it; Chain is about chains of clusters, Free
--   about find_fat_free, Wipe about wipe_out_clusters, Extend about extend, Seek about map_cluster,
--   Count about dos_free. Shrink is shrink_file, and Cut about it; Bpb is bpb_to_dpb, and Covers and Places
--   about the FAT and the clusters of the drive that it sets up.
-- Cache: the buffers of kernel/blockio.c. Dskxfer is dskxfer, over the devices of the drives, with
--   block_error of kernel/error.c, so that its loop takes one round (tries). Lists and Blocks are about the list of buffers, Flush about flush1, Getblk and Reads about getblk against the disk with
--   what the cache holds back, Stores about flush_buffers, Works about getblk where no transfer fails,
--   and Disks about all of these over dskxfer. FatTab sees a cache through getblk only, as the
--   readable sectors and their bytes.
-- Fcb: kernel/fcbfns.c: parsing a file name into an FCB, and record numbers. Fields is about the fields, Parses
--   about names that are parsed, Sizes about the sizes of the fields, Records about record numbers.
-- Strings: kernel/strings.c: comparing strings; Compares is about that.
-- Hma: kernel/hmamgr.c. Hma holds the headers of the blocks and the operations, Handler the calls of int
--   2f/4A in kernel/inthndlr.c with ClaimHMA of kernel/inithma.c. Chain says what list of blocks memory holds,
--   and has the view in which free neighbours are one block; Views, Joins, Scans, Places and Divides are about that
--   view and the steps, Allocates, Frees, Returns, Changes, Resizes and Checks about the operations, Calls about the handler.
-- Truename: the loop of truename in kernel/newstuff.c. Names and Parses are about the loop over a component, Paths and
--   Appends about what is written whatever the source is, Items, Walks and Resolves about sources made of
--   names and dots.
-- FatDir: kernel/fatdir.c: reading entries, dos_findnext and the conversions of names. Finds is about
--   the search, Attributes and Hits about what it accepts, Searches about what it finds on the disk,
--   Names and Conversions about the conversions, Swaps about the marks of deleted entries.
-- The Tests file of a part runs its functions at small inputs.
--
-- Bounds. Segments and sizes are 16-bit numbers, clusters 32-bit ones, with the wrap-around written
-- out where the source can wrap. A loop over the MCB chain has 0x10001 units of fuel (fuel): an
-- intact chain goes upward in 16-bit segments, so it has fewer blocks. DosMemAlloc searches at
-- most twice, since it clears the bit in the mode that lets it search again. The loop over
-- the years has 180 rounds, since a year has 365 days or more and a count of days 16 bits.
-- The search for a free cluster visits none twice, so that as many rounds as the last cluster's number
-- are enough; freeing a chain takes one round more than it has clusters. Loops over other chains
-- end by their counts. Headers of the high memory area are 16 bytes apart or more, so that 0x1001 rounds
-- (rounds) are enough for each loop over them. The loop of truename consumes a character in each
-- round. dir_read reads no entry from 65535 on, so that 0x10000 rounds are enough for dos_findnext.
--
-- Not modelled: device and console I/O, the register glue and other assembler parts, start-up, and the
-- C++ layer of fdpp/ that lets the host call the kernel; they hold no state of their own that the
-- parts here rely on, or only pass calls on. Hints to a memory checker and messages on the
-- console are left out. The sectors behind getblock are a parameter, the readable sectors and bytes.
pub mod Base
pub mod MemMgr
pub mod FatTab
pub mod Share
pub mod Clock
pub mod FatFs
pub mod Cache
pub mod Fcb
pub mod Strings
pub mod Hma
pub mod Truename
pub mod FatDir
