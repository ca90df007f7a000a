-- ===== src/Lib.antt =====
-- Verification library of the Peachos kernel (C, 32-bit x86).
--
-- Parts and files. A path is from the repository's root.
--   src/memory/memory.c         Memory, Memory/Laws, Memory/Fill (memset by address)
--   src/memory/heap/heap.c      Heap and its children: Runs and FirstFit (the search), Mark (the
--                               entries), Address (sizes and addresses), Laws (outcomes of an
--                               allocation), Layout and Refine (the abstract view), Create
--                               (heap_create)
--   src/memory/heap/kheap.c     Kheap, Kheap/Laws (kzalloc)
--   src/memory/paging/paging.c  Paging: Address, Directory (one page), Range (ranges)
--   src/stringos/stringos.c     Stringos: Laws (lengths), Compare, Copy
--   src/fs/pparser.c            PathParser: Split and Join (parts of a path), Parse
--   src/disk                    Disk: Sector (disk.c), Stream (streamer.c), Drive (a test drive)
--   src/fs/fat16/fat16.c        Fat16: Layout and Decode (structures on the disk), Mount
--                               (fat16_resolve), Directory with Items, Find, Entry and
--                               Subdirectory (directories and paths), Names, Cluster (the chain),
--                               Rounds, File and Crossing (reads), Seek (positions), Volume
--                               (the registered functions), Through (fopen and fread of a file),
--                               Boot (the start of the disk), Sample and SampleFile (an image)
--   src/fs/file.c               File: Table (the descriptors), Open (fopen and fclose), Systems (the
--                               table of file systems, disk_search_and_init)
--   src/task/task.c             Task: Steps (the store), List, Append (task_new), Unlink and
--                               Remove (task_list_remove), Dangling (task_free), Places,
--                               Switch and Fair (the turn)
--   src/loader/formats          Elf: Header (the checks), Extreme, Scan and Bounds (the segments),
--                               Layout (structures in the bytes), Agree (the checks on the bytes),
--                               Load, Steps and Loading (elf_load), Stored (elf_load on FAT16),
--                               Sample (an executable)
--   src/kernel.c                Terminal: Print, Clear (terminal_initialize)
--   src/gdt/gdt.c               Gdt: Decode (the processor's reading)
--   src/idt/idt.c               Idt: Gates (idt_init), Handler (the way back to the task)
--   src/task/process.c          Process: Terminate (the table, exceptions), Load, Stages and
--                               Loaded (process_load)
-- Base holds the shared names and lemmas, with its children for tests, lists and ints, Status the
-- error codes of src/status.h, and Run the outcome of code that may fault or panic.
--
-- State. A buffer is the list of its bytes from the pointer to the end of its object, and `none`
-- is an access outside it. A heap is its entry table and its first address. Paging works on a
-- memory of 32-bit words by address. The tasks are objects on a store, by address. The descriptor
-- table is a list of slots. A function that changes an object returns the new one. Numbers are
-- natural numbers, with the 32-bit wrap written out where the code can wrap. An int that may
-- become negative there is its 32-bit pattern (Base/Ints): the positions of streams, the offsets
-- and counts of reads, and the positions in directories. The count of blocks that
-- heap_mark_blocks_taken takes is an int too, and what it does from 2 ^ 31 on is written out
-- there.
--
-- How they meet. heap_create clears its table with memset. The path parser calls strlen, strnlen,
-- memcmp and the digit tests. diskstreamer_read calls disk_read_block and disk_read_sector. The
-- reads of the FAT16 file system go through two streams. fopen calls the path parser and strncmp,
-- and the functions of Fat16.Volume are an instance of the file system that it calls. The ELF
-- checks call memcmp, and elf_load calls fopen, fstat, fread and fclose. kzalloc calls heap_malloc
-- and memset, print calls strlen. disk_search_and_init asks the file systems that fs_init has
-- registered, of which there is one, that of Fat16.Boot. The ATA drive is a parameter with the
-- record IsAta for what the code relies on; the functions that a file system registers are the
-- record Filesystem; the answers of kmalloc, kzalloc and paging_new_4gb to task_new, fopen,
-- elf_load and process_load are arguments, and so are the interrupt callbacks and commands that
-- the handlers of interrupts call.
--
-- Fuel. The loop over path parts has a round for each byte of the path and one more; the
-- recursions of diskstreamer_read and fat16_read_internal_from_stream have one for each byte asked
-- for and one more. The count of the items of a directory has 2 ^ 26 + 2, more than there are
-- entries below the position 2 ^ 31. The theorems about them show that it is enough. Every other
-- loop recurs on its rounds left or on its list.
--
-- Not modelled: assembly and port input, panic and the rest of kernel_main (hardware set-up in
-- order), paging_switch (it loads a register), and failures of kzalloc in the path parser, the
-- stream and the FAT16 directories.
pub mod Base
pub mod Status
pub mod Memory
pub mod Heap
pub mod Stringos
pub mod PathParser
pub mod Disk
pub mod Fat16
pub mod Paging
pub mod Run
pub mod Elf
pub mod Gdt
pub mod File
pub mod Task
pub mod Terminal
pub mod Idt
pub mod Kheap
pub mod Process
