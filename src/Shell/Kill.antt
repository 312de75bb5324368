-- ===== src/Shell/Kill.antt =====
-- `cmd_kill` in kernel/kernel.c over `proc_kill` in kernel/process.c.
use seng21213_os_se.Base.{
  ℕ, zero, suc, ◌<◌, ◌≡◌, ◌≢◌, false, List, ◌∷◌, Option, some, ◌>>=◌, arith, ◌==◌, if◌then◌else◌, ℤ,
  pos, negsuc,
}
use seng21213_os_se.Task.{Kernel, max_processes}
use seng21213_os_se.Process.{proc_kill, make_zombie}
use seng21213_os_se.Process.Table.{IsProcTable}
use seng21213_os_se.Process.Kill.{proc_kill_zero}
use seng21213_os_se.Shell.{k_ltrim, k_strlen, k_atoi, atoi_loop, starts_number}

-- The message that `cmd_kill` prints.
pub data Reply : Type 0 where
  usage : Reply
  killed : ℕ → Reply
  protected : Reply
  no_process : Reply

abbrev pub reply_of : ℕ → ℤ → Reply
reply_of pid (pos zero) = no_process
reply_of pid (pos (suc zero)) = killed pid
reply_of pid (pos (suc (suc n))) = no_process
reply_of pid (negsuc zero) = protected
reply_of pid (negsuc (suc n)) = no_process

unfoldable pub cmd_kill : ℕ → List ℕ → Kernel → Option (Reply × Kernel)
cmd_kill esp args k =
    let pid_text = k_ltrim args in
    if k_strlen pid_text == 0 then some (usage, k) else do
      pid ← k_atoi pid_text
      (result, k') ← proc_kill esp pid k
      some (reply_of pid result, k')

-- With a free slot in the table and another process running, `kill` followed by a text that does
-- not begin with a digit reports that process 0 has been killed, and marks the free slot ZOMBIE.
pub cmd_kill-no_number :
    {n : ℕ} {k : Kernel} (esp c : ℕ) (text : List ℕ)
    → IsProcTable n k
    → n < max_processes
    → k.current_proc ≢ some n
    → starts_number (c ∷ text) ≡ false
    → (c == 0) ≡ false
    → (c == 32) ≡ false
    → cmd_kill esp (c ∷ text) k ≡ some (killed 0, make_zombie n k)
unfolding cmd_kill k_ltrim k_strlen k_atoi atoi_loop
cmd_kill-no_number {n} {k} esp c text v room other letter c0 space =
    let length : k_strlen (c ∷ text) ≡ suc (k_strlen text) = ground arith in
    rw (space, letter, proc_kill_zero esp v room other) (ground (arith, c0))
