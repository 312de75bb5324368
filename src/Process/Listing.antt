-- ===== src/Process/Listing.antt =====
-- `proc_list` of kernel/process.c, as the calls that it makes.
use seng21213_os_se.Base.{
  ℕ, zero, suc, ◌+◌, ◌^◌, ◌<◌, ◌≡◌, refl, true, List, [], ◌∷◌, some, arith, ◌==◌, if◌then◌else◌,
  Bool-cases, inl, inr,
}
use seng21213_os_se.Task.{ProcState, Kernel, max_processes}
use seng21213_os_se.Vga.{Screen}
use seng21213_os_se.Vga.Text.{bytes}
use seng21213_os_se.Vga.Print.{text, word}
use seng21213_os_se.Vga.Output.{Call, puts, printf, run, all_fit, Ends, run-Kept}
use seng21213_os_se.Vga.Cursor.{IsOnScreen}

abbrev pub state_name : ProcState → List ℕ
state_name ProcState.ready = bytes "READY"
state_name ProcState.running = bytes "RUNNING"
state_name ProcState.blocked = bytes "BLOCKED"
state_name ProcState.zombie = bytes "ZOMBIE"

-- The row of slot `i`.
abbrev pub proc_row : ℕ → Kernel → Call
proc_row i k =
    let p = k.pcb_table i in
    printf (bytes "%d     %s     %s     %d\n")
      (word p.pid ∷ text (some (state_name p.state)) ∷ text (some p.name) ∷ word p.total_ticks ∷ [])

-- `n` rounds of the loop, from slot `i` on.
unfoldable pub proc_rows : ℕ → ℕ → Kernel → List Call
proc_rows zero i k = []
proc_rows (suc n) i k =
    let rest = proc_rows n (i + 1) k in
    if (k.pcb_table i).pid == 0 then rest else proc_row i k ∷ rest

unfoldable pub proc_list : Kernel → List Call
proc_list k =
    puts (bytes "\nPID   STATE      NAME          TICKS\n")
    ∷ puts (bytes "--------------------------------------\n")
    ∷ proc_rows max_processes 0 k

all_fit-proc_rows :
    (n i : ℕ) (k : Kernel)
    → ((j : ℕ) → ((k.pcb_table j).pid < 2 ^ 32) × ((k.pcb_table j).total_ticks < 2 ^ 32))
    → all_fit (proc_rows n i k) ≡ true
unfolding proc_rows
all_fit-proc_rows zero i k words = refl
all_fit-proc_rows (suc n) i k words =
    let rest = all_fit-proc_rows n (i + 1) k words in
    elim (Bool-cases ((k.pcb_table i).pid == 0)) [
      | inl free ↦ rw free rest
      | inr used ↦ rw used (ground (arith, rest, words i))
    ]

-- Where the PIDs and the ticks are 32-bit words, `proc_list` prints the table without a fault and
-- keeps the screen.
pub proc_list-Kept :
    (k : Kernel) (s : Screen)
    → ((j : ℕ) → ((k.pcb_table j).pid < 2 ^ 32) × ((k.pcb_table j).total_ticks < 2 ^ 32))
    → IsOnScreen s
    → Ends s (run (proc_list k) s)
unfolding proc_list
proc_list-Kept k s words on =
    run-Kept (proc_list k) s on (all_fit-proc_rows max_processes 0 k words)
