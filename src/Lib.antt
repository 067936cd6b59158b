-- ===== src/Lib.antt =====
-- Nupkux, a small Unix-like kernel for the PC, written in C: a model of its core and the theorems
-- that make it correct.
--
-- The parts. The kernel keeps one table of 64 tasks (src/kernel/task.c); the timer interrupt and
-- the calls that block let `schedule` (src/kernel/sched.c) choose the next one. A task starts
-- others by `sys_fork`, signals them by `sys_kill`, ends by `sys_exit` and is reaped by
-- `sys_waitpid` (src/kernel/exit.c); a fork copies the page tables (src/mm/paging.c), and all
-- objects of the kernel are blocks of one heap (src/mm/mm.c). Each task has a table of 32
-- descriptors, which refer to FILE objects that tasks share (src/fs/open.c, src/fs/fcntl.c) and
-- which refer to vnodes, that the super block counts (src/fs/vfs/vnode.c) and that a path names
-- (src/fs/namei.c) over the file systems: the devices (src/fs/devfs), the boot
-- image (src/fs/initrdfs) that tools/mkinitrd writes, and disks (src/fs/ext2), whose blocks the
-- drivers give (src/drivers). src/fs/vfs/vfs.c registers file systems, and src/fs/mount.c mounts
-- them. The consoles (src/drivers/tty) take keys from the
-- keyboard's interrupt and bytes with escape sequences, and keep a memory of lines that scrolls
-- round. Everything uses the string routines of src/lib/string.c.
--
-- The files. Base holds what the others share: tests and lists on machine numbers, C integers,
-- and accesses that can fault.
--   CString   src/lib/string.c, every routine; CString/Compare, Copy and Tokens prove them.
--   Tty       src/drivers/tty/tty.c and its header: Tty/State has `struct _tty` and the memory,
--             Tty/Escape `tty_interpret_escape`, Tty/Write `do_tty_write`. The proofs: Tty/Bounds
--             on the accesses to the memory, Tty/Scroll and Tty/Print on the screen, Tty/Colours
--             on the colours.
--   Keyboard  src/drivers/tty/kbd.c and `tty_read`: Keyboard/Ring on the keys that wait,
--             Keyboard/Keys on the modifier keys.
--   Process   src/kernel/task.c, sched.c and exit.c: Process/Table has `struct _task` and the
--             table, Process/Schedule `schedule` and `switch_task`, Process/Calls the system
--             calls. The proofs: Process/Schedule/Woken, Choice, Invariant and Fairness on
--             the scheduler, Process/Fork, Process/Kill and Process/Exit on the calls, and
--             Process/Steps on all runs of them.
--   Paging    src/mm/paging.c: the map of frames and the tables, and in Paging/Directory the
--             page directories; Paging/Frames, Clone and Lookup prove them.
--   Heap      src/mm/mm.c: headers, footers and the index of holes, and in Heap/Alloc `malloc`,
--             `free` and `realloc`; Heap/Index and Heap/Aligned have the proofs.
--   Files     src/fs/open.c, src/fs/fcntl.c and src/fs/read_write.c, and the loops of `sys_fork`
--             and `sys_exit` over descriptors. Files/Count has the invariant of the counts,
--             Files/Close and Files/Share the proofs; Files/Transfer has `sys_read`,
--             `sys_write` and `sys_ioctl`.
--   Vnodes    src/fs/vfs/vnode.c: `iget` and `iput`; Vnodes/Refs has the specification.
--   Paths     src/fs/namei.c: `namei_match` and `namei_nmatch` with Paths/Match, and in
--             Paths/Walk `getdentry` and `namei`, with Paths/Balance on the counts and Paths/Top on
--             mount points; Paths/Dirs has `sys_chdir` and `sys_chroot` of src/fs/open.c.
--   Vfs       src/fs/vfs/vfs.c and src/fs/mount.c: the registered file systems, the calls of their
--             operations, `sys_mount` and `sys_umount`; Vfs/Registry, Mounting and Root have the
--             proofs.
--   Devfs     src/fs/devfs: handles, directories and devices; Devfs/Handles has the lemmas on the
--             cache, Devfs/Devices and Devfs/Remount the proofs.
--   Drivers   src/drivers/drivers.c, src/drivers/ramdisk.c and src/fs/vfs/buffer.c: Drivers/Lock
--             has the tasks that use a device as steps, Drivers/Ramdisk the RAM disk.
--   Ext2      src/fs/ext2/inode.c: `ext2_read` with Ext2/Read, and Ext2/Copied on its copies, and in
--             Ext2/Directory `ext2_readdir` and `ext2_lookup` with Ext2/Entries.
--   Initrd    src/fs/initrdfs, and in Initrd/Make tools/mkinitrd/main.c, which writes the image.
--             The proofs: Initrd/Layout says where the image has what, Initrd/Writes and Saved are on
--             the tool, Initrd/Reading and Lookup on the kernel and Initrd/Mounted on both.
--   Programs  src/kernel/elf.c with Programs/Load, and the stack of a new program of src/fs/exec.c
--             in Programs/Stack with its proofs in Programs/Stack/Words and Vector.
--   Clock     src/kernel/time.c: `DateBCD`, the day of the year of `getrtctime`, and `mktime`.
-- The Tests file of each part runs the definitions on concrete input and applies the theorems
-- there.
--
-- How C is modelled. A string is the list of its bytes in front of the NUL; a null pointer is
-- `none`. An unsigned integer is a natural number with its wrap written out (`% 2 ^ 8`, `% 2 ^
-- 16`, `% 2 ^ 32`), a signed one is converted where the code compares it, and a status that can
-- be negative is an integer ℤ with the negated error number. An operation is a function from the
-- state to the state behind it. An access that leaves its object, follows a null pointer or uses
-- a freed object has the result `none` in an Option. A loop is recursion on the list or the
-- number that it counts, or has fuel: in `strtok_save` and in the loop of `tty_interpret_escape`
-- over the colours one more than the length of what they read, since each round but the last
-- takes at least one byte of it; in the loops of the heap over pages one more than the size has
-- pages; in `namei` one more than the length of the path, and for the mounts and the covered
-- vnodes a depth that they are to have. `heap_malloc` has fuel for its call of itself, which the
-- code repeats without end where the heap cannot grow.
--
-- Process: a task is chosen by its index in the table, and the bytes behind the table, which
-- `schedule` and `sys_kill` reach, are one more task. Interrupts are steps of their own: a run is a
-- sequence of timer ticks and calls of the current task in any order. `sys_waitpid` spins where
-- the task has not ended yet; it is tried again in a later step. `access_ok` is always true in
-- this kernel (src/mm/paging.c), so that the error branch behind it is left out. In a valid table
-- the current task has a pid; the model writes 0 for a parent that is NO_TASK. Files: the tables
-- of all tasks stand beside one list of FILE objects by address. `malloc` gives an address that
-- no object had before. `namei` is an argument, the vnode and its size or a status, and the
-- vnodes that `close_fs` and `iput` get are kept as a list. The operations of a file system are
-- arguments that give the number of bytes or a negated error.
--
-- Tty: `do_tty_write` is what it does to a console; that it returns the size, or -EINVAL without a
-- handle, is left out. Keyboard: the keymap is an argument. Paging: a table is a number among the
-- tables, whose physical address is an argument; a page that `clone_page` copies is recorded with
-- both frames. Heap: the memory is a function from addresses to bytes, and the calls of
-- `make_page` and `free_page` are recorded. Devfs: a handle is found by its address in the cache,
-- where every allocated one is; names are the arrays of the entries. Drivers: the memory of the
-- RAM disk is a list of bytes. Programs: the memory is that of Heap; the loop over the pages of a
-- segment has two turns more than its size has pages, and the addresses of `memcpy` do not wrap at
-- 2^32. Ext2: the device is an argument that gives the bytes of its sectors or an error;
-- `ext2_lookup` has fuel for two turns more than the directory has bytes, and its count of bytes,
-- an int, is a number, which is the same below 2^31.
-- Vfs: what `namei` and `read_super` give is an argument of `sys_mount`; a mount and a vnode are
-- their addresses, and a type outside the list has no `next`.
-- Initrd: the image is its header, the inodes as an array, and its bytes by their distance from its
-- start; the inodes have their place in front of the files, as Initrd/Mounted shows. The files of
-- the host are a tree, and a name of an entry is read up to the end of its array.
-- Vnodes: the vnodes of one super block are a list, where an inode number stands for the pointer.
-- Clock: the hour of `mktime` is not negative, as it may be behind the correction for a time zone.
-- Paths: `namei_nmatch` has the memory behind the name as a list, too; in the walk the lookup of
-- a file system is an argument, and a vnode's fields do not change but for its count; the root and
-- the working directory of the task are set, so that `root_vnode` never stands in for them.
--
-- Not modelled: registers, stacks, descriptor tables, control registers and port input and
-- output, which are the hardware's; the copy to the video memory; the super block and
-- the inodes of ext2, and the drivers of floppy, ATA and serial devices;
-- src/lib/vsprintf.c, which is a copy of another project's code; and the user programs, whose
-- libc copies src/lib.
pub mod Base
pub mod Clock
pub mod CString
pub mod Tty
pub mod Files
pub mod Keyboard
pub mod Paging
pub mod Devfs
pub mod Heap
pub mod Drivers
pub mod Ext2
pub mod Programs
pub mod Vfs
pub mod Initrd
pub mod Paths
pub mod Process
pub mod Vnodes
