-- ===== src/Shell/Demos.antt =====
-- What the demonstrations of kernel/kernel.c print, as the calls that they make: before the threads
-- are created, if they cannot be, and when they have ended.
use seng21213_os_se.Base.{
  ℕ, List, [], ◌∷◌, ◌*◌, ◌==◌, if◌then◌else◌, Ptr, Option, some, none, ◌>>=◌,
}
use seng21213_os_se.Task.{Kernel, Layout}
use seng21213_os_se.Threads.{thread_create}
use seng21213_os_se.Vga.Color.{vga_black, vga_light_red, vga_light_green, vga_yellow}
use seng21213_os_se.Vga.Text.{bytes}
use seng21213_os_se.Vga.Print.{word}
use seng21213_os_se.Vga.Output.{Call, puts, puts_color, printf}
use seng21213_os_se.Shell.Counting.{race_iterations}
use seng21213_os_se.Shell.Buffer.{buffer_size}

unfoldable pub race_intro : List Call
race_intro =
    puts (bytes "\n")
    ∷ puts (bytes "========================================\n")
    ∷ puts (bytes " Stage 2 - Race Condition Demo\n")
    ∷ puts (bytes " WITHOUT MUTEX\n")
    ∷ puts (bytes "========================================\n")
    ∷ printf (bytes "Two threads increment myglobal %d times each.\n") (word race_iterations ∷ [])
    ∷ printf (bytes "Expected final value: %d\n") (word (race_iterations * 2) ∷ [])
    ∷ puts (bytes "Starting race...\n\n")
    ∷ []

unfoldable pub race_failed : List Call
race_failed =
    puts_color (bytes "ERROR: Could not create race threads.\n") vga_light_red vga_black ∷ []

abbrev pub race_verdict : ℕ → Call
race_verdict n =
    if n == race_iterations * 2
    then puts_color (bytes "RESULT: No lost update observed in this run.\n") vga_yellow vga_black
    else puts_color (bytes "RESULT: RACE CONDITION DETECTED - lost updates occurred.\n")
        vga_light_red vga_black

-- For the final `myglobal`.
unfoldable pub race_result : ℕ → List Call
race_result n =
    puts (bytes "\nRace completed.\n")
    ∷ printf (bytes "Expected: %d\n") (word (race_iterations * 2) ∷ [])
    ∷ printf (bytes "Actual:   %d\n") (word n ∷ [])
    ∷ race_verdict n
    ∷ puts (bytes "\n")
    ∷ []

unfoldable pub mutex_intro : List Call
mutex_intro =
    puts (bytes "\n")
    ∷ puts (bytes "========================================\n")
    ∷ puts (bytes " Stage 2 - Mutex Demo\n")
    ∷ puts (bytes " WITH MUTEX\n")
    ∷ puts (bytes "========================================\n")
    ∷ printf (bytes "Two threads increment myglobal %d times each.\n") (word race_iterations ∷ [])
    ∷ printf (bytes "Expected final value: %d\n") (word (race_iterations * 2) ∷ [])
    ∷ puts (bytes "Starting protected test...\n\n")
    ∷ []

unfoldable pub mutex_failed : List Call
mutex_failed =
    puts_color (bytes "ERROR: Could not create mutex test threads.\n") vga_light_red vga_black ∷ []

abbrev pub mutex_verdict : ℕ → Call
mutex_verdict n =
    if n == race_iterations * 2
    then puts_color (bytes "RESULT: PASS - mutex prevented lost updates.\n") vga_light_green
        vga_black
    else puts_color (bytes "RESULT: FAIL - data corruption detected.\n") vga_light_red vga_black

unfoldable pub mutex_result : ℕ → List Call
mutex_result n =
    puts (bytes "\nMutex test completed.\n")
    ∷ printf (bytes "Expected: %d\n") (word (race_iterations * 2) ∷ [])
    ∷ printf (bytes "Actual:   %d\n") (word n ∷ [])
    ∷ mutex_verdict n
    ∷ puts (bytes "\n")
    ∷ []

unfoldable pub sem_intro : List Call
sem_intro =
    puts (bytes "\n")
    ∷ puts (bytes "========================================\n")
    ∷ puts (bytes " Stage 2 - Semaphore Demo\n")
    ∷ puts (bytes " Producer/Consumer with bounded buffer\n")
    ∷ puts (bytes "========================================\n")
    ∷ printf (bytes "Buffer size: %d\n") (word buffer_size ∷ [])
    ∷ puts (bytes "2 producers (5 items each), 1 consumer\n\n")
    ∷ []

unfoldable pub sem_failed : List Call
sem_failed =
    puts_color (bytes "ERROR: Could not create semaphore demo threads.\n") vga_light_red vga_black
    ∷ []

abbrev pub sem_verdict : ℕ → Call
sem_verdict n =
    if n == 0
    then puts_color (bytes "RESULT: PASS - semaphore coordination correct.\n") vga_light_green
        vga_black
    else puts_color (bytes "RESULT: FAIL - buffer count mismatch.\n") vga_light_red vga_black

-- For the final `buffer_count`.
unfoldable pub sem_result : ℕ → List Call
sem_result n =
    puts (bytes "\nSemaphore demo completed.\n")
    ∷ printf (bytes "Final buffer count: %d (expected 0)\n") (word n ∷ [])
    ∷ sem_verdict n
    ∷ puts (bytes "\n")
    ∷ []

-- What `cmd_threads` prints for the slots of its two threads, NULL being `none`.
unfoldable pub threads_result : Ptr → Ptr → Kernel → List Call
threads_result (some i) (some j) k =
    printf (bytes "Thread %d created.\n") (word (k.thread_table i).tid ∷ [])
    ∷ printf (bytes "Thread %d created.\n") (word (k.thread_table j).tid ∷ [])
    ∷ []
threads_result t none k =
    puts_color (bytes "Failed to create threads.\n") vga_light_red vga_black ∷ []
threads_result none t k =
    puts_color (bytes "Failed to create threads.\n") vga_light_red vga_black ∷ []

-- `a` and `b` are the addresses of `test_thread_a` and `test_thread_b`.
unfoldable pub cmd_threads : Layout → ℕ → ℕ → Kernel → Option (List Call × Kernel)
unfolding threads_result
cmd_threads lay a b k = do
  (t1, k1) ← thread_create lay (some a) 0 k
  (t2, k2) ← thread_create lay (some b) 0 k1
  some (puts (bytes "\nCreating two Stage 2 kernel threads...\n") ∷ threads_result t1 t2 k2, k2)
