-- ===== src/Boot.antt =====
-- `kernel_main` of kernel/kernel.c: the setup of every part and the first three processes. The
-- addresses of the code that it starts are parameters.
mod Tests
use seng21213_os_se.Base.{
  ℕ, zero, suc, ◌+◌, ◌*◌, ◌/◌, ◌<◌, ◌≤◌, ◌≡◌, ◌≢◌, refl, ap, ◌∙◌, Option, none, some, ◌>>=◌, List,
  [], ◌∷◌, arith,
}
use seng21213_os_se.Task.{ProcState, ThreadState, Kernel, Layout, max_processes, max_threads}
use seng21213_os_se.Scheduler.{scheduler_init}
use seng21213_os_se.Scheduler.Queue.{IsSched}
use seng21213_os_se.Scheduler.Hardware.{Hardware, hardware_init}
use seng21213_os_se.Process.{proc_init, proc_create, clear_procs}
use seng21213_os_se.Process.Table.{
  upto, IsProcTable, IsStarted, proc_create_lem, proc_init-IsProcTable,
}
use seng21213_os_se.Threads.{thread_init, clear_threads}
use seng21213_os_se.Pmm.{Pmm, E820Entry, pmm_init}
use seng21213_os_se.Pmm.Init.{IsValid, pmm_init-IsValid}
use seng21213_os_se.Fs.{Fs, fs_init, total_blocks, block_size, data_blocks, max_inodes}
use seng21213_os_se.Vga.Output.{Call, puts, puts_color, printf, run, run-Kept}
use seng21213_os_se.Vga.Print.{word}
use seng21213_os_se.Vga.Color.{vga_black, vga_light_green}
use seng21213_os_se.Fs.Tree.{IsTree, fs_init-IsTree}
use seng21213_os_se.Fs.Empty.{IsEmpty, fs_init-IsEmpty}
use seng21213_os_se.Keyboard.{kb_init}
use seng21213_os_se.Vga.{Screen, vga_init, vga_clear, update_hw_cursor}
use seng21213_os_se.Vga.Text.{bytes}
use seng21213_os_se.Vga.Cursor.{IsOnScreen}
use seng21213_os_se.Shell.Screens.Splash.{print_splash, print_splash_lem}

-- The variables of all parts, and the bytes that the keyboard will deliver.
pub record Machine : Type 0 where
  pub kernel : Kernel
  pub hardware : Hardware
  pub pmm : Pmm
  pub fs : Fs
  pub screen : Screen
  pub keys : List ℕ

-- What the linker, the boot loader and the keyboard controller fix.
pub record Platform : Type 0 where
  pub layout : Layout
  pub shell_run : ℕ
  pub test_process_a : ℕ
  pub test_process_b : ℕ
  pub irq0_stub : ℕ
  pub idt : ℕ
  pub e820 : List E820Entry
  pub pending : ℕ

-- The calls that set up the tables.
unfoldable pub init_tables : Kernel → Kernel
init_tables k = scheduler_init (thread_init (proc_init k))

unfoldable pub start_processes : Platform → Kernel → Option Kernel
start_processes p k = do
  (a, k1) ← proc_create p.layout (bytes "shell") p.shell_run k
  (b, k2) ← proc_create p.layout (bytes "process-A") p.test_process_a k1
  (c, k3) ← proc_create p.layout (bytes "process-B") p.test_process_b k2
  some k3

-- The variables of all parts behind their setup.
abbrev booted : Platform → Machine → Screen → Kernel → Machine
booted p m screen kernel = record {
  kernel = kernel;
  hardware = hardware_init p.irq0_stub p.idt m.hardware;
  pmm = pmm_init p.e820;
  fs = fs_init m.fs;
  screen = screen;
  keys = kb_init p.pending m.keys;
}

-- What `thread_init` and `fs_init` print.
abbrev init_messages : List Call
init_messages =
    puts (bytes "[ OK ] Thread subsystem initialized\n")
    ∷ puts_color (bytes "  [FS] RAM disk file system initialized\n") vga_light_green vga_black
    ∷ printf (bytes "       %u KB total, %u data blocks, %u inodes max\n")
        (word (total_blocks * block_size / 1024) ∷ word data_blocks ∷ word max_inodes ∷ [])
    ∷ []

-- Up to `scheduler_start`, which enables interrupts.
unfoldable pub kernel_main : Platform → Machine → Option Machine
unfolding init_tables start_processes
kernel_main p m = do
  messages ← run init_messages (vga_init m.screen)
  screen ← print_splash messages
  kernel ← start_processes p (init_tables m.kernel)
  some (booted p m screen kernel)

-- No context is RUNNING before the kernel starts: the tables are zero.
pub record IsCold (k : Kernel) : Type 0 where
  pub procs : (i : ℕ) → (k.pcb_table i).state ≢ ProcState.running
  pub threads : (i : ℕ) → (k.thread_table i).state ≢ ThreadState.running

clear_procs-IsCold : (n i : ℕ) (k : Kernel) → IsCold k → IsCold (clear_procs n i k)
unfolding clear_procs
clear_procs-IsCold zero i k v = v
clear_procs-IsCold (suc n) i k v =
    clear_procs-IsCold n (i + 1) _
      (record { procs = λ j e. ground (arith, v.procs j, e); threads = v.threads })

clear_threads-IsCold : (n i : ℕ) (k : Kernel) → IsCold k → IsCold (clear_threads n i k)
unfolding clear_threads
clear_threads-IsCold zero i k v = v
clear_threads-IsCold (suc n) i k v =
    clear_threads-IsCold n (i + 1) _
      (record { procs = v.procs; threads = λ j e. ground (arith, v.threads j, e) })

clear_threads-procs :
    (n i : ℕ) (k : Kernel)
    → ((clear_threads n i k).pcb_table ≡ k.pcb_table)
      × ((clear_threads n i k).next_pid ≡ k.next_pid)
unfolding clear_threads
clear_threads-procs zero i k = (refl, refl)
clear_threads-procs (suc n) i k = clear_threads-procs n (i + 1) _

init_tables-IsSched : (k : Kernel) → IsCold k → IsSched [] [] (init_tables k)
unfolding init_tables scheduler_init thread_init proc_init
init_tables-IsSched k v =
    let first = clear_procs-IsCold max_processes 0 k v in
    let cold =
      clear_threads-IsCold max_threads 0 (proc_init k)
        (record { procs = first.procs; threads = first.threads }) in
    record {
      procs = refl;
      threads = refl;
      procs_le = omega arith;
      threads_le = omega arith;
      current_in = tt;
      current_thread_in = tt;
      proc_alone = λ i e. absurd (cold.procs i e);
      thread_alone = λ i e. absurd (cold.threads i e);
    }

init_tables-IsProcTable : (k : Kernel) → IsProcTable 0 (init_tables k)
unfolding init_tables scheduler_init thread_init
init_tables-IsProcTable k =
    let v = proc_init-IsProcTable k in
    let same = clear_threads-procs max_threads 0 (proc_init k) in
    record {
      n_le = omega arith;
      pids = λ i lt. absurd (omega arith);
      free = λ i le lt. ap (λ t. (t i).pid) same.0 ∙ v.free i le lt;
      next = same.1 ∙ v.next;
    }

vga_init-IsOnScreen : (s : Screen) → IsOnScreen (vga_init s)
unfolding vga_init vga_clear update_hw_cursor
vga_init-IsOnScreen s = record { row = omega arith; col = omega arith }

start_processes_lem :
    (p : Platform) (k : Kernel)
    → IsProcTable 0 k
    → IsSched [] [] k
    → (k' : Kernel) × (start_processes p k ≡ some k') × IsProcTable 3 k' × IsSched (upto 3) [] k'
unfolding start_processes
start_processes_lem p k v s =
    let (k1, e1, v1, s1, i1) =
      proc_create_lem {n = 0} p.layout (bytes "shell") p.shell_run v s (omega arith) in
    let (k2, e2, v2, s2, i2) =
      proc_create_lem {n = 1} p.layout (bytes "process-A") p.test_process_a v1 s1 (omega arith) in
    let (k3, e3, v3, s3, i3) =
      proc_create_lem {n = 2} p.layout (bytes "process-B") p.test_process_b v2 s2 (omega arith) in
    (k3, rw (e1, e2, e3, ◌>>=◌) refl, v3, s3)

-- From zeroed tables, `kernel_main` reaches the point where it enables interrupts, and establishes
-- what the parts need: the first three processes, with PIDs 1 to 3, are queued in order on
-- well-formed run queues with no thread, the frame allocator is well formed for every memory map,
-- the disk is a well-formed file system without a file, with every data block and every inode but
-- the reserved one free and no descriptor open, and the cursor is on the screen.
pub kernel_main_lem :
    (p : Platform) (m : Machine)
    → IsCold m.kernel
    → (m' : Machine) × (kernel_main p m ≡ some m')
      × IsProcTable 3 m'.kernel
      × IsSched (upto 3) [] m'.kernel
      × IsValid m'.pmm
      × IsTree m'.fs
      × IsEmpty m'.fs
      × IsOnScreen m'.screen
unfolding kernel_main
kernel_main_lem p m v =
    let (messages, em, kept) =
      run-Kept init_messages (vga_init m.screen) (vga_init-IsOnScreen m.screen) refl in
    let (screen, es, on, attr, behind) = print_splash_lem messages in
    let (k, ek, table, sched) =
      start_processes_lem p (init_tables m.kernel) (init_tables-IsProcTable m.kernel)
        (init_tables-IsSched m.kernel v) in
    (
      booted p m screen k,
      rw (em, es, ek, ◌>>=◌) refl,
      table,
      sched,
      (pmm_init-IsValid p.e820).0,
      fs_init-IsTree m.fs,
      fs_init-IsEmpty m.fs,
      on,
    )
