-- ===== src/Boot/Tests.antt =====
-- The start of the kernel on zeroed tables and on a disk of noise.
use seng21213_os_se.Base.{◌≡◌, true, some, [], ◌∷◌}
use seng21213_os_se.Task.{Kernel}
use seng21213_os_se.Demo.{demo_kernel, demo_thread, demo_layout}
use seng21213_os_se.Scheduler.Queue.{IsSched}
use seng21213_os_se.Process.Table.{upto, IsProcTable}
use seng21213_os_se.Pmm.Init.{IsValid}
use seng21213_os_se.Fs.Tree.{IsTree}
use seng21213_os_se.Fs.Empty.{IsEmpty}
use seng21213_os_se.Vga.Cursor.{IsOnScreen}
use seng21213_os_se.Boot.{Machine, Platform, kernel_main, IsCold, kernel_main_lem}

abbrev cold_kernel : Kernel
cold_kernel = record demo_kernel { thread_table = λ i. demo_thread 1 }

cold_kernel-IsCold : IsCold cold_kernel
cold_kernel-IsCold = record { procs = λ i e. cc; threads = λ i e. cc }

abbrev machine : Machine
machine = record {
  kernel = cold_kernel;
  hardware = record {
    idt = λ i. record { offset_low = i; selector = i; zero_byte = i; flags = i; offset_high = i };
    limit = 1;
    base = 2;
    ports = [];
  };
  pmm = record { bitmap = λ i. i; total_frames_count = 3; used_frames_count = 4 };
  fs = record {
    superblock = record {
      magic = 1;
      total = 2;
      inode_count = 3;
      data_count = 4;
      free_blocks = 5;
      free_inodes = 6;
    };
    directory = λ i. record { name = []; inode = i };
    block_bitmap = λ i. 7;
    inode_bitmap = λ i. 255;
    inodes = λ i. record { size = 9; blocks = λ j. j };
    block = λ b i. b;
    open_files = λ i. record { inode = i; offset = i; valid = true };
  };
  screen = record { cursor_row = 90; cursor_col = 90; cur_attr = 9; cells = λ i. i; ports = [] };
  keys = 30 ∷ 158 ∷ 28 ∷ [];
}

abbrev platform : Platform
platform = record {
  layout = demo_layout;
  shell_run = 0x1000;
  test_process_a = 0x2000;
  test_process_b = 0x3000;
  irq0_stub = 0x4000;
  idt = 0x5000;
  e820 = record { base = 0x100000; len = 0x400000; kind = 1 } ∷ [];
  pending = 1;
}

kernel_main_lem_example :
    (m' : Machine) × (kernel_main platform machine ≡ some m')
    × IsProcTable 3 m'.kernel
    × IsSched (upto 3) [] m'.kernel
    × IsValid m'.pmm
    × IsTree m'.fs
    × IsEmpty m'.fs
    × IsOnScreen m'.screen
kernel_main_lem_example = kernel_main_lem platform machine cold_kernel-IsCold
