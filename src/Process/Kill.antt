-- ===== src/Process/Kill.antt =====
-- `proc_find`, `proc_kill` and `proc_exit` on a well-formed table.
use seng21213_os_se.Base.{
  ℕ, ◌+◌, ◌-◌, ◌≤◌, ◌<◌, ◌≡◌, ◌≢◌, refl, none, some, List, arith, ◌==◌, find_first-First, First,
  first, nowhere, pos, minus_one, ap, ==_iff, leb, ltb, true, ◌&&◌, if◌then◌else◌, Bool-cases, inl,
  inr,
}
use native.Mathlib.Decide.{dec_lt}
use seng21213_os_se.Task.{Kernel, max_processes, proc_next}
use seng21213_os_se.Task.Ring.Laws.{IsRing-ext}
use seng21213_os_se.Scheduler.Queue.{IsSched}
use seng21213_os_se.Process.{proc_find, proc_kill, make_zombie}
use seng21213_os_se.Process.Table.{IsProcTable}

module _ {n : ℕ} {k : Kernel} (pid : ℕ) (v : IsProcTable n k) where
  abbrev search : First 0 max_processes (λ i. (k.pcb_table i).pid == pid) (proc_find pid k)
  unfolding proc_find
  search = find_first-First max_processes 0 max_processes (λ i. (k.pcb_table i).pid == pid) refl

  slot_of :
      (i : ℕ) → 0 < pid → i < max_processes → (k.pcb_table i).pid ≡ pid → (i < n) × (i + 1 ≡ pid)
  slot_of i gt lt hit = elim (dec_lt i n) [
    | yes below ↦ (below, omega (arith, v.pids i below))
    | no above ↦ absurd (omega (arith, v.free i (omega arith) lt))
  ]

  -- `proc_find` finds every PID that has been given out, in slot `pid - 1`.
  pub proc_find_live : 0 < pid → pid ≤ n → proc_find pid k ≡ some (pid - 1)
  proc_find_live gt le = elim search [
    | first i lo lt hit least o ↦
        rw o (ap some (omega (arith, slot_of i gt lt ((==_iff _ _).0 hit))))
    | nowhere miss o ↦
        let there =
          (==_iff (k.pcb_table (pid - 1)).pid pid).1
            (omega (arith, v.pids (pid - 1) (omega arith))) in
        cc (miss (pid - 1) (omega arith) (omega (arith, v.n_le)), there)
  ]

  -- It finds no PID above those.
  pub proc_find-none : n < pid → proc_find pid k ≡ none
  proc_find-none above = elim search [
    | first i lo lt hit least o ↦
        absurd (omega (arith, slot_of i (omega arith) lt ((==_iff _ _).0 hit)))
    | nowhere miss o ↦ o
  ]

-- A process that is not the current one loses the CPU for good: it is a zombie, which no search
-- of the run queue picks. The queues stay well formed.
pub make_zombie-IsSched :
    {ps ts : List ℕ} {k : Kernel} (p : ℕ) → IsSched ps ts k → IsSched ps ts (make_zombie p k)
make_zombie-IsSched {ps} {k} p s = record {
  procs =
      IsRing-ext (proc_next k) (proc_next (make_zombie p k)) k.ready_head k.ready_head ps
        (λ i. ground arith) refl s.procs;
  threads = s.threads;
  procs_le = s.procs_le;
  threads_le = s.threads_le;
  current_in = s.current_in;
  current_thread_in = s.current_thread_in;
  proc_alone = λ i e. ground (arith, s.proc_alone i);
  thread_alone = s.thread_alone;
}

module _ {n : ℕ} {k : Kernel} (esp : ℕ) (v : IsProcTable n k) where
  -- PID 1 is the shell: `proc_kill` returns -1 and changes nothing.
  pub proc_kill_shell : 0 < n → proc_kill esp 1 k ≡ some (minus_one, k)
  unfolding proc_kill
  proc_kill_shell some_proc =
      let found : proc_find 1 k ≡ some 0 = proc_find_live 1 v (omega arith) (omega arith) in
      rw (found, proc_kill) (ground (arith, v.pids 0))

  -- In a table whose first `n` slots are in use, the others being free, `proc_kill` of a PID above
  -- `n`, which was never given out, ends, returns 0 and changes nothing.
  pub proc_kill_unknown : (pid : ℕ) → n < pid → proc_kill esp pid k ≡ some (pos 0, k)
  unfolding proc_kill
  proc_kill_unknown pid above = rw (proc_find-none pid v above, proc_kill)

  -- In such a table `proc_kill` of a PID in use, other than the shell's and that of the current
  -- process, ends, makes that process a zombie and returns 1.
  pub proc_kill_other :
      (pid : ℕ)
      → 1 < pid
      → pid ≤ n
      → k.current_proc ≢ some (pid - 1)
      → proc_kill esp pid k ≡ some (pos 1, make_zombie (pid - 1) k)
  unfolding proc_kill
  proc_kill_other pid gt le other =
      rw (proc_find_live pid v (omega arith) le, proc_kill) (ground (arith, v.pids (pid - 1)))

  -- A free slot has PID 0: while there is one, `proc_kill` of PID 0 marks the first of them ZOMBIE
  -- and returns 1, as for a process that was killed.
  pub proc_kill_zero :
      n < max_processes
      → k.current_proc ≢ some n
      → proc_kill esp 0 k ≡ some (pos 1, make_zombie n k)
  unfolding proc_kill
  proc_kill_zero room other = elim (search 0 v) [
    | first i lo lt hit least o ↦
        let e : i ≡ n = ground (arith, v.pids i, least n, v.free n) in
        rw (o, proc_kill, e) (ground (arith, v.free n))
    | nowhere miss o ↦ absurd (ground (arith, miss n, v.free n))
  ]

  -- In a table whose first `n` slots are in use, the others being free, and on well-formed queues,
  -- `proc_kill` of a PID above 0, which is not that of the current process unless it is the
  -- shell's, ends. It refuses the shell with -1 and a PID that was never given out with 0, changing
  -- nothing; any other process becomes a zombie, which is all that changes, and it returns 1. The
  -- queues stay well formed.
  pub proc_kill_lem :
      {ps ts : List ℕ} (pid : ℕ)
      → IsSched ps ts k
      → 0 < n
      → 0 < pid
      → (1 < pid → k.current_proc ≢ some (pid - 1))
      → (k' : Kernel) × (proc_kill esp pid k
          ≡ some ((if pid == 1 then minus_one else if leb pid n then pos 1 else pos 0), k'))
        × (k' ≡ (if ltb 1 pid && leb pid n then make_zombie (pid - 1) k else k))
        × IsSched ps ts k'
  proc_kill_lem pid s live gt other = elim (Bool-cases (pid == 1)) [
    | inl shell ↦ let e : pid ≡ 1 = ground (arith, shell) in rw e (k, proc_kill_shell live, refl, s)
    | inr rest ↦
        let above : 1 < pid = ground (arith, rest) in
        let above' : ltb 1 pid ≡ true = ground (arith, above) in
        elim (Bool-cases (leb pid n)) [
          | inl within ↦
              rw (rest, above', within)
                (
                  make_zombie (pid - 1) k,
                  proc_kill_other pid above (ground (arith, within)) (other above),
                  refl,
                  make_zombie-IsSched (pid - 1) s,
                )
          | inr beyond ↦
              rw (rest, above', beyond) (k, proc_kill_unknown pid (ground (arith, beyond)), refl, s)
        ]
  ]
