-- ===== src/Scheduler/Tests.antt =====
-- The scheduler on the demonstration kernel: two ticks, and its theorems there.
use seng21213_os_se.Base.{ℕ, ◌<◌, ◌*◌, length, ◌≡◌, ◌≢◌, [], refl, some, arith, Option, ◌>>=◌}
use seng21213_os_se.Task.{Kernel}
use seng21213_os_se.Task.Ring.{search_from, find_next}
use seng21213_os_se.Scheduler.{
  scheduler_irq, scheduler_yield, find_next_process, find_next_thread, save_context, pick_next,
  dispatch, run_process,
}
use seng21213_os_se.Scheduler.Queue.{IsSched}
use seng21213_os_se.Scheduler.Irq.{
  Outcome, scheduler_irq-Outcome, chosen, toggled, chosen-Done, scheduler_irq-dispatch,
}
use seng21213_os_se.Scheduler.Wait.Threads.{
  ThreadUnserved, passed_over, none_yet, ThreadUnserved-lt,
}
use seng21213_os_se.Scheduler.Wait.Procs
use seng21213_os_se.Scheduler.Wait.Procs.{ProcUnserved, ProcWaits, ProcUnserved-lt}
use seng21213_os_se.Scheduler.Hardware.{
  Hardware, hardware_init, handler_of, no_gate, hardware_init_lem,
}
use seng21213_os_se.Scheduler.Keeps.{Keeps, scheduler_yield-Keeps}
use seng21213_os_se.Demo.{demo_kernel, demo-IsSched, two}

-- The stack pointers that two ticks hand out: process 1, whose turn it is, then thread 1.
two_ticks : Kernel → Option (ℕ × ℕ)
two_ticks k = do (a, k1) ← scheduler_irq 0xbeef k; (b, k2) ← scheduler_irq a k1; some (a, b)

two_ticks_lem : two_ticks demo_kernel ≡ some (0x9001, 0xb001)
unfolding two_ticks scheduler_irq save_context pick_next find_next_process find_next_thread
    find_next search_from dispatch
two_ticks_lem = refl

scheduler_irq-Outcome_example :
    (esp' : ℕ) × (k' : Kernel) × (scheduler_irq 0xbeef demo_kernel ≡ some (esp', k'))
    × IsSched two two k'
    × Outcome 0xbeef two two demo_kernel esp' k'
scheduler_irq-Outcome_example = scheduler_irq-Outcome 0xbeef demo-IsSched

scheduler_yield-Keeps_example :
    (k' : Kernel) × (scheduler_yield 0xbeef demo_kernel ≡ some k')
    × IsSched two two k'
    × Keeps demo_kernel k'
scheduler_yield-Keeps_example = scheduler_yield-Keeps 0xbeef demo-IsSched

-- After the first tick, which runs process 1.
abbrev first_tick : ℕ × Kernel
first_tick = dispatch 0xbeef (chosen 0xbeef demo-IsSched) (toggled 0xbeef demo_kernel)

first_tick-IsSched : IsSched two two first_tick.1
first_tick-IsSched = (chosen-Done 0xbeef demo-IsSched).0

ThreadUnserved-one : ThreadUnserved two two 1 1 demo_kernel
unfolding save_context dispatch run_process
ThreadUnserved-one =
    passed_over 0xbeef first_tick.0 (scheduler_irq-dispatch 0xbeef demo-IsSched) (λ e. cc)
      (record { sched = first_tick-IsSched; ready = refl; place = refl; preferred = refl }) none_yet

ThreadUnserved-lt_example : 1 < 2 * length two
ThreadUnserved-lt_example = ThreadUnserved-lt 1 1 demo-IsSched refl refl ThreadUnserved-one

ProcUnserved-one : ProcUnserved two two 0 1 demo_kernel
unfolding save_context dispatch run_process
ProcUnserved-one =
    Procs.passed_over 0xbeef first_tick.0 (scheduler_irq-dispatch 0xbeef demo-IsSched) (λ e. cc)
      (record { sched = first_tick-IsSched; ready = refl; place = refl; preferred = refl })
      Procs.none_yet

ProcUnserved-lt_example : 1 < 2 * length two
ProcUnserved-lt_example = ProcUnserved-lt 1 0 demo-IsSched refl refl ProcUnserved-one

-- A table of noise, and a stub in the upper half of memory.
abbrev cold_hardware : Hardware
cold_hardware = record {
  idt = λ i. record { offset_low = i; selector = i; zero_byte = i; flags = i; offset_high = i };
  limit = 1;
  base = 2;
  ports = [];
}

hardware_init_lem_example :
    let h' = hardware_init 0xc0101234 0x5000 cold_hardware in
    (handler_of (h'.idt 32) ≡ 0xc0101234)
    × ((h'.idt 32).selector ≡ 0x08)
    × ((h'.idt 32).flags ≡ 0x8E)
    × ((i : ℕ) → i < 256 → i ≢ 32 → h'.idt i ≡ no_gate)
hardware_init_lem_example = hardware_init_lem 0xc0101234 0x5000 cold_hardware (omega arith)
