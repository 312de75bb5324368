-- ===== src/Lib.antt =====
-- Verification of SENG21213-OS, a 32-bit teaching kernel for one processor.
--
-- The kernel boots from boot/boot.asm, learns the free memory from the E820 map, and runs
-- processes and kernel threads, which take turns by a round-robin scheduler that the timer
-- interrupt drives. Threads synchronise by mutexes and counting semaphores, whose functions call
-- the scheduler to block, to wake and to yield. A file system lives on a RAM disk. The models:
--
-- Base      tests, pointers into tables, lists and C integers; the first-match search that the
--           kernel's table scans share.
-- Bitmap    the bitmap helpers of kernel/pmm.c and kernel/fs.c.
-- Pmm       kernel/pmm.c: pmm_init, pmm_alloc_frame, pmm_free_frame and the counters.
-- Task      the control blocks of kernel/process.h and kernel/thread.h, and Kernel, the state that
--           process.c, thread.c and scheduler.c share. A pointer into a table is its index, NULL
--           is `none`, and a dereference of NULL is a `none` result. Task/Ring has the loops over
--           the circular run queues.
-- Scheduler kernel/scheduler.c: scheduler_add_process and scheduler_add_thread, block and unblock,
--           and scheduler_irq in its three parts: save_context, pick_next, dispatch.
--           Scheduler/Hardware has the tables and port writes of scheduler_init, and
--           Scheduler/Wait has sequences of timer interrupts, with any code between them.
-- Process   kernel/process.c: proc_init, proc_create, proc_find, proc_exit, proc_kill. The addresses
--           of the stacks are a parameter, Layout.
-- Threads   kernel/thread.c: thread_init, thread_create, thread_exit.
-- Sync      kernel/mutex.c and kernel/semaphore.c. Sync/Wait is the queue of waiting threads that
--           both keep through wait_next. Sync/Mutex/Spec and Sync/Semaphore/Count give what a lock
--           and a semaphore promise: an owner or a count, and the threads that wait, in order.
-- Strings   kernel/string.c. A string is the list of its bytes; memory is a function of the offset.
-- Fs        kernel/fs.c and kernel/fs.h: allocation, names and descriptors; Fs/File has fs_read,
--           fs_write, fs_unlink and fs_list_dir. The disk is read by its parts (superblock,
--           directory, bitmaps, inodes, blocks), which the layout of kernel/fs.h keeps apart.
--           Fs/Disk, Fs/Tree and Fs/Run have the invariant of the disk and the runs of calls.
-- Vga       kernel/vga.c and kernel/vga.h: the screen is a function from the 16-bit cells behind
--           VGA_ADDR, the cursor, the attribute and a log of the port writes.
--           Vga/Print has print_uint, vga_printf and vga_draw_box; Vga/Output has sequences of the
--           calls that print, as which the commands that print are modelled.
-- Keyboard  kernel/keyboard.c: the bytes that the controller delivers are a list, of which kb_getchar
--           takes what it reads; `none` is waiting for a byte that does not come.
-- Shell     kernel/kernel.c: the parsing of a line, the choice of its command (Shell/Command), the
--           numbers in its arguments (Shell/Number, Shell/Args), the
--           commands kill (Shell/Kill), touch, cat, write and rm (Shell/Files), the self-test of
--           meminfo (Shell/Memory) and the interleavings of mutexdemo (Shell/Counting), race
--           (Shell/Race) and semdemo (Shell/Buffer); Shell/Screens has the commands that only print
--           and print_splash, Shell/Demos what the demonstrations print,
--           Shell/Replies what kill, meminfo and the commands on files print.
-- Boot      kernel_main of kernel/kernel.c: the setup of all parts and the first processes.
-- Demo and the modules named Tests are runs on concrete states.
--
-- Bounds and fuel. The loops over a circular queue run on as many rounds as the table has slots, 16
-- for processes and 32 for threads, which is enough since a queue holds no slot twice; without
-- enough fuel they return `none`. The loops of fs_read and fs_write have 10 rounds: each round but
-- the last completes one of the 8 blocks of a file. The digits of a number are made in 33 rounds, one
-- more than it has bits, and the loop of kb_readline runs on one round more than there are bytes, each
-- round reading one at least. The loop of cmd_cat has one round more than a file can have bytes. 32-bit
-- counters wrap.
--
-- What C leaves undefined is no result: an overflow of the int of k_atoi or of the count of a
-- semaphore is `none`, as a dereference of NULL is.
--
-- Elsewhere than in the three demonstrations an interrupt comes between two functions, not inside
-- one: scheduler_irq is a function of the saved stack pointer, and a function that blocks is
-- followed up to its yield. The functions of mutex.c and semaphore.c run with interrupts enabled, so
-- this is an assumption, which the kernel does not enforce. Not modelled: the polling of the keyboard's status port, the
-- acknowledgement that scheduler_irq writes to the interrupt controller, the loop of shell_run
-- around the choice of a command, the bodies of the test processes and threads, strcat and
-- strncat, which nothing calls, and the assembly of boot/ and kernel/kernel_entry.asm. The
-- demonstrations of the mutex and of the semaphores are followed under the same assumption: a call
-- of a mutex or a semaphore, up to its yield, and an increment of the counter of ended threads are
-- one step each, and the relation of these runs is named AtomicRuns.
pub mod Base
pub mod Boot
pub mod Bitmap
pub mod Pmm
pub mod Task
pub mod Scheduler
pub mod Process
pub mod Threads
pub mod Sync
mod Demo
pub mod Strings
pub mod Fs
pub mod Vga
pub mod Keyboard
pub mod Shell
