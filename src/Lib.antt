-- ===== src/Lib.antt =====
-- A model of DemoOS, a teaching kernel for the x86 with an exokernel's system calls.
--
-- The kernel keeps physical pages with reference counts and two-level page tables (kern/pmap.c),
-- environments, which are its processes (kern/env.c), a round-robin scheduler (kern/sched.c), a
-- console (kern/console.c), printing (kern/printf.c), system calls that work on all of them
-- (kern/syscall.c), and traps, by which they and page faults come in (kern/trap.c).
--
-- One record, `Kernel` in Kern/State, is the kernel's state: memory as 32-bit words by page and
-- index, the `pages` and `envs` arrays as functions of the index, the free lists as lists of
-- indices, and the other globals. A C function is a function on this state that is done with a
-- value, leaves for a user environment (env_run does not return), or panics; this is `Run` in
-- Base/Control. A negative return value is `err`. A pointer to a page, to an environment or to a page
-- table entry is an index, and a null pointer is `none`; using one as a page directory or as
-- `curenv` panics, as the fault in the kernel does.
--
--   Base          tests, lists, control, texts, and the bit operations on words
--   Kern/Mmu      inc/mmu.h: PDX, PTX, PPN, PTE flags, boundaries of the address space
--   Kern/State    the structs of inc/env.h and inc/trap.h, and the globals
--   Kern/Pmap     kern/pmap.c: page_alloc to tlb_invalidate. Space is the abstract view, the entry that
--                 each address has, with the well-formedness of an address space
--   Kern/Pmap/Boot  page_init of kern/pmap.c: the pages that are free at the start
--   Kern/Pmap/Mapping  i386_detect_memory to i386_vm_init of kern/pmap.c. Memory is the boot-time allocator,
--                 Tables, Fresh and Walk are boot_pgdir_walk, Segment and Loop boot_map_segment, Arrays
--                 the kernel's arrays, and Directory, Layout and Start the whole address space
--   Kern/Env      kern/env.c: envid2env, env_init, env_alloc, load_icode, env_create, env_free
--   Kern/Sched    kern/sched.c and env_run and env_destroy of kern/env.c
--   Kern/Console  kern/console.c: the input ring, cons_intr, cons_getc, kbd_proc_data, cga_putc
--   Kern/Printf   kern/printf.c: ksprintn and kprintf. Digits is about numbers, Formats about directives
--   Kern/Syscall  kern/syscall.c: every call, and syscall
--   Kern/Syscall/Message  messages with a page
--   Kern/Trap     kern/trap.c: trap and page_fault_handler. Push is about the frame of a user's handler
--   Kern/Tests    the results at concrete states
--
-- The file server (fs/fs.c) is a user environment with a state of its own, `Server` in Fs/State: the
-- disk, the blocks in memory with their PTE_P and PTE_D, and the pointers `super` and `bitmap`. It asks
-- the kernel for pages by sys_mem_alloc; whether the kernel grants the n-th request is a function in
-- the state, so that every course of answers is covered.
--
--   Fs/Blocks     fs/fs.c from diskaddr to read_bitmap
--   Fs/File       fs/fs.c: the blocks of a file, file_block_walk to file_get_block, file_dirty,
--                 file_truncate, file_set_size, file_flush, file_close
--   Fs/Dir        fs/fs.c: dir_lookup, dir_alloc_file, walk_path, file_open, file_create, file_remove
--   Fs/Sync       fs/fs.c: fs_sync, and what it does to the disk
--   Fs/Bitmap     the bitmap as a set of free blocks
--   Fs/Cache      the block cache as a view of the disk
--   Fs/Mapping    alloc_block and the blocks of a file
--   Fs/Path       the elements of path names; Lookup is about walk_path
--   Fs/Name       names in file nodes
--   Fs/Truncate   files with missing blocks
--   Fs/Serve      fs/serv.c: the table of open files, every request, and a round of serve. Its state holds
--                 that of fs/fs.c, and how many environments map the page of each slot
--   Fs/Tests      the results at a concrete disk
--
-- In the user library, a pipe (user/pipe.c) is a page that two environments share. piperead and pipewrite
-- are processes of small steps that may be interleaved in any way, each loop test and each move of a
-- byte being one.
--
--   User/Pipe     the pipe, and the steps of piperead and pipewrite. Queue is the view as a queue, System
--                 the interleavings, Runs the calls that are left alone until they return
--   User/Fd       user/fd.c: the table of descriptors over any devices
--   User/Str      user/string.c: strings in memory that end in a NUL
--   User/Shell    user/sh.c: the lexer, and the programs and redirections of a line
--   User/Fork     user/fork.c: two address spaces over one memory, duppage, the loop of fork and pgfault.
--                 Private is the invariant, Isolation the steps of both environments in any order
--   User/File     user/file.c: file_read, file_write and ftruncate. Grow is about the pages of a file
--                 that becomes larger, Writes about what is written and read back
--   User/Fsipc    user/fsipc.c: the client's side of every request, composed with Fs/Serve
--   User/Printf   user/printf.c: vsnprintf, and the messages of warn and _panic. Sent is the reference without
--                 a buffer, Content and Truncated the buffer's content, Messages the calls in sequence,
--                 Decimal the numbers
--   User/Spawn    user/spawn.c: init_stack. Words are words in memory, Stack the copying of the arguments,
--                 Frame the child's stack page
--   User/Spawn/Load  user/spawn.c: spawn as its calls in order, the child when they succeed (Segments) and
--                 when they fail (Failure)
--   User/Tests    the results at concrete pipes, descriptors and lines
--
-- A register or counter of w bits wraps by `% 2 ^ w`. Loops are structural recursion: over the 1024
-- environments, the 955 page directory entries below UTOP, the pages of an image, the blocks of the
-- disk or of a file. The loop of walk_path has as many turns as the path has characters.
-- kprintf and vsnprintf take fuel for the nesting of %r and %e; ksprintn has as many steps as its buffer has room for
-- digits, 64. The runs of piperead and pipewrite take a number of steps, and the theorems say how
-- many are enough. readn takes n reads at most. The loops of user/string.c and user/sh.c that wait for a
-- NUL take the number of bytes that they may look at, and have no result beyond it; the theorems ask
-- for the length of the string.
--
-- Not modelled: the boot loader, the self-check and the register loads that end i386_vm_init, assembly
-- (kern/locore.S), device ports, the descriptor tables that idt_init fills, what the shell does with a line once it is
-- read, the calls of the kernel around the loop of fork, and the rest of the user library (the descriptor's
-- side of opening and closing files, and the console) and programs.
pub mod Base
pub mod Kern
pub mod Fs
pub mod User
