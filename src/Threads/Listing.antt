-- ===== src/Threads/Listing.antt =====
-- `thread_list` of kernel/thread.c, as the calls that it makes.
use seng21213_os_se.Base.{
  ℕ, zero, suc, ◌+◌, ◌^◌, ◌<◌, ◌≡◌, refl, true, Ptr, none, List, [], ◌∷◌, some, arith, ◌==◌,
  if◌then◌else◌, Bool-cases, inl, inr,
}
use seng21213_os_se.Task.{ThreadState, Kernel, max_threads}
use seng21213_os_se.Vga.{Screen}
use seng21213_os_se.Vga.Text.{bytes}
use seng21213_os_se.Vga.Print.{text, word}
use seng21213_os_se.Vga.Output.{Call, puts, printf, run, all_fit, Ends, run-Kept}
use seng21213_os_se.Vga.Cursor.{IsOnScreen}

abbrev pub thread_state_name : ThreadState → List ℕ
thread_state_name ThreadState.unused = bytes "UNUSED"
thread_state_name ThreadState.ready = bytes "READY"
thread_state_name ThreadState.running = bytes "RUNNING"
thread_state_name ThreadState.blocked = bytes "BLOCKED"
thread_state_name ThreadState.terminated = bytes "TERMINATED"

abbrev pub owner_call : Ptr → Kernel → Call
owner_call none k = puts (bytes "     KERNEL\n")
owner_call (some p) k = printf (bytes "     PID %d\n") (word (k.pcb_table p).pid ∷ [])

-- `n` rounds of the loop, from slot `i` on.
unfoldable pub thread_rows : ℕ → ℕ → Kernel → List Call
thread_rows zero i k = []
thread_rows (suc n) i k =
    let t = k.thread_table i in
    let rest = thread_rows n (i + 1) k in
    if t.tid == 0
    then rest
    else printf (bytes "%d     %s") (word t.tid ∷ text (some (thread_state_name t.state)) ∷ [])
      ∷ owner_call t.owner k
      ∷ rest

unfoldable pub thread_list : Kernel → List Call
thread_list k =
    puts (bytes "\nTID   STATE        OWNER\n")
    ∷ puts (bytes "---------------------------\n")
    ∷ thread_rows max_threads 0 k

all_fit-owner_call :
    (o : Ptr) (k : Kernel) (cs : List Call)
    → ((j : ℕ) → (k.pcb_table j).pid < 2 ^ 32)
    → all_fit (owner_call o k ∷ cs) ≡ all_fit cs
all_fit-owner_call none k cs pids = refl
all_fit-owner_call (some p) k cs pids = ground (arith, pids p)

all_fit-thread_rows :
    (n i : ℕ) (k : Kernel)
    → ((j : ℕ) → (k.thread_table j).tid < 2 ^ 32)
    → ((j : ℕ) → (k.pcb_table j).pid < 2 ^ 32)
    → all_fit (thread_rows n i k) ≡ true
unfolding thread_rows
all_fit-thread_rows zero i k tids pids = refl
all_fit-thread_rows (suc n) i k tids pids =
    let rest = all_fit-thread_rows n (i + 1) k tids pids in
    elim (Bool-cases ((k.thread_table i).tid == 0)) [
      | inl free ↦ rw free rest
      | inr used ↦ rw used (
          ground (
            arith,
            rest,
            tids i,
            all_fit-owner_call (k.thread_table i).owner k (thread_rows n (i + 1) k) pids,
          ))
    ]

-- Where the TIDs and PIDs are 32-bit words, `thread_list` prints the table without a fault and
-- keeps the screen.
pub thread_list-Kept :
    (k : Kernel) (s : Screen)
    → ((j : ℕ) → (k.thread_table j).tid < 2 ^ 32)
    → ((j : ℕ) → (k.pcb_table j).pid < 2 ^ 32)
    → IsOnScreen s
    → Ends s (run (thread_list k) s)
unfolding thread_list
thread_list-Kept k s tids pids on =
    run-Kept (thread_list k) s on (all_fit-thread_rows max_threads 0 k tids pids)
