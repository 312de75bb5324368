-- ===== src/Shell/Tests.antt =====
-- Command lines, a number printed and read, and the memory self-test, on concrete inputs.
use seng21213_os_se.Base.{
  ◌≤◌, ◌⊎◌, zero, suc, ◌%◌, ℕ, ◌+◌, ◌≡◌, refl, true, false, List, [], ◌∷◌, ◌++◌, some, replicate,
  arith, find_first, take, ◌<◌, if◌then◌else◌, ltb,
}
use seng21213_os_se.Bitmap.{bitmap_test}
use seng21213_os_se.Vga.{Screen, put_string}
use seng21213_os_se.Vga.Print.{print_uint}
use seng21213_os_se.Process.{make_zombie}
use seng21213_os_se.Process.Table.{IsProcTable}
use seng21213_os_se.Pmm.{Pmm, pmm_init, pmm_total_frames}
use seng21213_os_se.Pmm.Init.{IsValid, pmm_init-IsValid}
use seng21213_os_se.Shell.{codes, starts_number, k_atoi, k_strlen, k_ltrim}
use seng21213_os_se.Shell.Command.{dispatch, render, write, dispatch-render}
use seng21213_os_se.Shell.Number.{k_atoi-print_uint}
use seng21213_os_se.Shell.Kill.{cmd_kill, killed, cmd_kill-no_number}
use seng21213_os_se.Shell.Memory.{cmd_meminfo, cmd_meminfo-pass}
use seng21213_os_se.Strings.{strcmp}
use seng21213_os_se.Fs.{Fs, fs_init, fs_find_inode}
use seng21213_os_se.Fs.Tree.{fs_init-IsTree}
use seng21213_os_se.Shell.Files.{cmd_write, before_space, after_space}
use seng21213_os_se.Shell.Files.WriteCat.{Kept, cmd_write-Kept}
use seng21213_os_se.Sync.Mutex.Spec.{free, acquire, release}
use seng21213_os_se.Shell.Counting.{
  race_iterations, Pc, at_top, finished, System, Turn, of_first, of_second, call_lock, return_lock,
  load, store, unlock, finish, started, AtomicRuns, begin, further,
}
use seng21213_os_se.Shell.Counting.Inv.{AtomicRuns-myglobal}
use seng21213_os_se.Shell.Counting.Ends.{left, AtomicRuns-ends}
use mathlib.Core.Path.{subst}
use seng21213_os_se.Demo.{demo_kernel}

dispatch-render_example :
    dispatch (replicate 2 32 ++ render (write (codes "a.txt hello"))) ≡ write (codes "a.txt hello")
dispatch-render_example = dispatch-render 2 (write (codes "a.txt hello")) refl

k_atoi-print_uint_example :
    (ds : List ℕ) × ((s : Screen) → print_uint 1234 10 s ≡ some (put_string ds s))
    × ((rest : List ℕ) → starts_number rest ≡ false → k_atoi (ds ++ rest) ≡ some 1234)
k_atoi-print_uint_example = k_atoi-print_uint 1234 (omega arith)

two_processes : IsProcTable 2 demo_kernel
two_processes = record {
  n_le = omega arith;
  pids = λ i lt. ground arith;
  free = λ i le lt. ground arith;
  next = refl;
}

cmd_kill-no_number_example :
    cmd_kill 0xbeef (codes "abc") demo_kernel ≡ some (killed 0, make_zombie 2 demo_kernel)
cmd_kill-no_number_example =
    cmd_kill-no_number 0xbeef 97 (codes "bc") two_processes (omega arith) (λ e. cc) refl refl refl

abbrev one_region : Pmm
one_region = pmm_init (record { base = 0x100000; len = 0x3800; kind = 1 } ∷ [])

cmd_meminfo-pass_example :
    let (info, t) = cmd_meminfo one_region in
    (info.pass ≡ true)
    × (info.allocated ≡ (if ltb 100 info.free then 100 else info.free))
    × (info.used_after_alloc ≡ info.used + info.allocated)
    × (info.used_after_free ≡ info.used)
    × ((g : ℕ) → bitmap_test t.bitmap g ≡ bitmap_test one_region.bitmap g)
    × (pmm_total_frames t ≡ pmm_total_frames one_region)
    × IsValid t
cmd_meminfo-pass_example =
    cmd_meminfo-pass (pmm_init-IsValid (record { base = 0x100000; len = 0x3800; kind = 1 } ∷ [])).0

abbrev disk : Fs
disk = fs_init (record {
  superblock = record {
    magic = 0;
    total = 0;
    inode_count = 0;
    data_count = 0;
    free_blocks = 0;
    free_inodes = 0;
  };
  directory = λ _. record { name = []; inode = 3 };
  block_bitmap = λ _. 255;
  inode_bitmap = λ _. 255;
  inodes = λ _. record { size = 7; blocks = λ _. 40 };
  block = λ b i. 1;
  open_files = λ i. record { inode = 1; offset = 2; valid = true };
})

-- "a.c  x = 1", with a space too many.
abbrev line : List ℕ
line = codes "a.c  x = 1"

line_lem :
    (k_strlen line ≡ 10)
    × (after_space line ≡ some (codes " x = 1"))
    × (before_space line ≡ codes "a.c")
unfolding k_strlen after_space before_space
line_lem = (refl, refl, refl)

text_short : k_strlen (k_ltrim (codes " x = 1")) < 4294967296
unfolding k_strlen k_ltrim
text_short = omega arith

absent : fs_find_inode (take 63 (before_space line)) disk ≡ 0
unfolding fs_find_inode fs_init find_first strcmp before_space
absent = refl

cmd_write-Kept_example :
    Kept (take 63 (before_space line)) (k_ltrim (codes " x = 1")) (λ _. 170) (cmd_write line disk)
cmd_write-Kept_example =
    cmd_write-Kept line (codes " x = 1") (λ _. 170) (fs_init-IsTree _) (omega (arith, line_lem.0))
      line_lem.1 absent text_short

-- Thread 4 has made `i` increments and thread 5 `j`, and no one holds the lock.
abbrev after : ℕ → ℕ → ℕ → Pc → Pc → System
after i j d p q = record {
  shared = record { lock = free; myglobal = i + j; mutex_done = d };
  first = p;
  second = q;
}

first_rounds : (n : ℕ) → n ≤ race_iterations → AtomicRuns 4 5 (after n 0 0 (at_top n) (at_top 0))
unfolding acquire release
first_rounds zero le = begin
first_rounds (suc n) le =
    let r1 = further (first_rounds n (omega arith)) (of_first (call_lock (omega arith))) in
    let r2 = further r1 (of_first (return_lock refl)) in
    let r5 = further (further (further r2 (of_first load)) (of_first store)) (of_first unlock) in
    let e : (n + 0 + 1) % 4294967296 ≡ suc n + 0 = omega arith in
    let e' : n + 1 ≡ suc n = omega arith in
    subst {A = ℕ × ℕ}
      (λ x. AtomicRuns 4 5 (record {
        shared = record { lock = free; myglobal = x.0; mutex_done = 0 };
        first = at_top x.1;
        second = at_top 0;
      }))
      (λ k. (e k, e' k)) r5

second_rounds : (n : ℕ) → n ≤ race_iterations → AtomicRuns 4 5 (after 1000 n 1 finished (at_top n))
unfolding acquire release
second_rounds zero le =
    further (first_rounds race_iterations (omega arith)) (of_first (finish (omega arith)))
second_rounds (suc n) le =
    let r1 = further (second_rounds n (omega arith)) (of_second (call_lock (omega arith))) in
    let r2 = further r1 (of_second (return_lock refl)) in
    let r5 = further (further (further r2 (of_second load)) (of_second store)) (of_second unlock) in
    let e : (1000 + n + 1) % 4294967296 ≡ 1000 + suc n = omega arith in
    let e' : n + 1 ≡ suc n = omega arith in
    subst {A = ℕ × ℕ}
      (λ x. AtomicRuns 4 5 (record {
        shared = record { lock = free; myglobal = x.0; mutex_done = 1 };
        first = finished;
        second = at_top x.1;
      }))
      (λ k. (e k, e' k)) r5

-- The second thread runs after the first.
abbrev ended : System
ended = after 1000 1000 2 finished finished

one_after_other : AtomicRuns 4 5 ended
one_after_other =
    further (second_rounds race_iterations (omega arith)) (of_second (finish (omega arith)))

AtomicRuns-myglobal_example : ended.shared.myglobal ≡ 2000
AtomicRuns-myglobal_example = AtomicRuns-myglobal (omega arith) one_after_other refl

AtomicRuns-ends_example :
    ((started.shared.mutex_done ≡ 2) ⊎ ((t : System) × Turn 4 5 started t))
    × ((t : System)
        → Turn 4 5 started t
        → left t.first + left t.second < left started.first + left started.second)
AtomicRuns-ends_example = AtomicRuns-ends (omega arith) begin
