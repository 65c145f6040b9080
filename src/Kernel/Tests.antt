-- ===== src/Kernel/Tests.antt =====
-- The kernel's theorems at a small system: the idle task, and two tasks of priorities 3 and 5.
use tinyos_rtos.Prelude.{
  ◌<◌, ℕ, ◌+◌, ◌%◌, ◌≤◌, ◌<◌, ◌≡◌, ◌≢◌, ◌∙◌, refl, false, some, List, [], ◌∷◌, ◌++◌, arith, update,
  has, ◌>>=◌,
}
use tinyos_rtos.Prelude.Word.{u8, u32}
use tinyos_rtos.Prelude.Bits.{bit-zero}
use tinyos_rtos.Links.Unlink.{erase}
use tinyos_rtos.Kernel.{Kernel, ok, ready, suspended, terminated, idle_task}
use tinyos_rtos.Kernel.Queue.{
  scheduler_add_ready_task, scheduler_get_next_task, scheduler_remove_task,
}
use tinyos_rtos.Kernel.Queue.Valid.{Queues, Holds}
use tinyos_rtos.Kernel.Queue.Add.{Files, scheduler_add_ready_task_lem}
use tinyos_rtos.Kernel.Queue.Take.{Takes, Outcome, scheduler_get_next_task_lem}
use tinyos_rtos.Kernel.Queue.Remove.{scheduler_remove_task_lem}
use tinyos_rtos.Kernel.Sched.{os_scheduler, os_task_yield, os_task_delay, ticks_of_ms}
use tinyos_rtos.Kernel.Sched.Sound.{Sound}
use tinyos_rtos.Kernel.Sched.Step.{Chosen, requeued}
use tinyos_rtos.Kernel.Sched.Tick.{Settles, Ticks, os_scheduler_lem, os_task_yield_lem}
use tinyos_rtos.Kernel.Sched.Lost.{Lost, yield_twice-Lost}
use tinyos_rtos.Kernel.Sched.Delay.{Advances, Waited, os_task_delay_lem, ticks_of_ms_lem}
use tinyos_rtos.Kernel.Tasks.{os_task_create, os_task_delete, os_task_suspend, os_task_resume}
use tinyos_rtos.Kernel.Tasks.Create.{new_block, Created, os_task_create_lem}
use tinyos_rtos.Kernel.Tasks.Stop.{Withdrawn, without, os_task_delete_lem, os_task_suspend_lem}
use tinyos_rtos.Kernel.Tasks.Resume.{suspend_resume}
use tinyos_rtos.Kernel.Sample.{
  blank, no_switch, idle_queue, booted, booted_lem, booted-Stocked, two_tasks, live, make_second,
  loaded, loaded-Populated, system, waiting, system_lem, on, not_running,
}

abbrev names : List ℕ
names = 65 ∷ 66 ∷ []

os_task_create_lem_example :
    (k' : Kernel) × (os_task_create 9 booted 20 (some names) 100 7 3 ≡ some (ok, k'))
    × Created (idle_task ∷ []) booted k' idle_queue 20 (new_block (some names) 100 7 3)
os_task_create_lem_example =
    os_task_create_lem 9 (idle_task ∷ []) booted idle_queue 20 (some names) 100 7 3 booted-Stocked
      refl (λ e. ground arith) (λ e. ground arith) (omega arith) (omega (arith, booted_lem.1))
      (omega arith)

scheduler_get_next_task_lem_example : Outcome loaded two_tasks (scheduler_get_next_task loaded)
scheduler_get_next_task_lem_example =
    scheduler_get_next_task_lem loaded two_tasks loaded-Populated.holds

-- The empty queues take task 20, whose priority is 0.
blank-Holds : Holds blank (λ p. [])
blank-Holds = record {
  linked = λ p lt. refl;
  distinct = λ p lt. tt;
  filed = λ p t lt i. absurd (ground arith);
  marked = λ p lt. bit-zero (p % 32);
  words = λ w. omega arith;
}

scheduler_add_ready_task_lem_example :
    (k' : Kernel) × (scheduler_add_ready_task 1 blank 20 ≡ some k') × Files blank k' (λ p. []) 0 20
scheduler_add_ready_task_lem_example =
    scheduler_add_ready_task_lem 1 blank (λ p. []) 20 0 blank-Holds (omega arith) refl
      (λ e. ground arith) refl (omega arith)

scheduler_remove_task_lem_example :
    (k' : Kernel) × (scheduler_remove_task 9 loaded 21 ≡ some k')
    × Takes loaded k' two_tasks 5 (erase 21 (two_tasks 5))
    × (has 21 (two_tasks 5) ≡ false → k' ≡ loaded)
scheduler_remove_task_lem_example =
    scheduler_remove_task_lem 9 loaded two_tasks 21 5 loaded-Populated.holds (omega arith)
      make_second.2 (omega arith)

os_scheduler_lem_example :
    (k' : Kernel) × (q' : Queues) × (os_scheduler 9 no_switch system ≡ some k')
    × Ticks live system k' waiting q'
os_scheduler_lem_example =
    os_scheduler_lem 9 no_switch live system waiting system_lem.0 (omega arith) on

os_task_yield_lem_example :
    (k' : Kernel) × (q' : Queues) × (os_task_yield 9 no_switch system ≡ some k')
    × Sound live k' q'
    × Chosen (requeued system waiting) k'.current_task q'
    × Settles system k'
os_task_yield_lem_example =
    os_task_yield_lem 9 no_switch live system waiting system_lem.0 (omega arith) on

os_task_suspend_lem_example :
    (k' : Kernel) × (os_task_suspend 9 no_switch system 20 ≡ some (ok, k'))
    × Withdrawn live system k' waiting 20 suspended
os_task_suspend_lem_example =
    os_task_suspend_lem 9 no_switch live system waiting 20 system_lem.0 on refl (omega arith)
      (λ e. ground arith)

os_task_delete_lem_example :
    (k' : Kernel) × (os_task_delete 9 no_switch system 21 ≡ some (ok, k'))
    × (w : Withdrawn live system k' waiting 21 terminated) × Sound (erase 21 live) k' w.queues
    × (21 ≢ system.current_task → k'.task_count ≡ u8 (system.task_count + 255))
os_task_delete_lem_example =
    os_task_delete_lem 9 no_switch live system waiting 21 system_lem.0 on refl (omega arith)
      (λ e. ground arith) (λ e. ground arith)

suspend_resume_example :
    (k1 k2 : Kernel) × (os_task_suspend 9 no_switch system 21 ≡ some (ok, k1))
    × (os_task_resume 9 k1 21 ≡ some (ok, k2))
    × Sound live k2 (
        update
          (without system waiting 21)
          (system.tcb 21).priority
          (erase 21 (waiting (system.tcb 21).priority) ++ 21 ∷ []))
    × ((k2.tcb 21).state ≡ ready)
    × (k2.current_task ≡ system.current_task)
suspend_resume_example =
    suspend_resume 9 no_switch live system waiting 21 system_lem.0 on refl (omega arith)
      (λ e. ground arith) not_running

ticks_of_ms_lem_example :
    (5000000 ≤ 4294966 → ticks_of_ms 5000000 ≡ 5000000)
    × (4294967 ≤ 5000000 → ticks_of_ms 5000000 < 5000000)
ticks_of_ms_lem_example = ticks_of_ms_lem 5000000

-- One tick passes at each look.
abbrev one_tick : Kernel → Kernel
one_tick k = record k { tick_count = u32 (k.tick_count + 1) }

one_tick-Advances : Advances 1 one_tick
one_tick-Advances k = (1, omega arith, omega arith, refl)

os_task_delay_lem_example :
    Waited 1 3 blank (os_task_delay (one_tick ∷ one_tick ∷ one_tick ∷ []) 3 blank)
os_task_delay_lem_example =
    os_task_delay_lem 1 3 (one_tick ∷ one_tick ∷ one_tick ∷ []) blank (omega arith) (omega arith)
      (omega arith) (one_tick-Advances, (one_tick-Advances, (one_tick-Advances, tt))) (omega arith)

none_above : (j : ℕ) → j ≤ (system.tcb system.current_task).priority → waiting j ≡ []
none_above j le = let le' : j ≤ 3 = rw (system_lem.2, system_lem.5) at le in ground arith

yield_twice-Lost_example :
    (k' : Kernel) × (q' : Queues) × ((os_task_yield 9 no_switch system
        >>= os_task_yield 9 no_switch)
      ≡ some k')
    × Lost live k' q' system.current_task
yield_twice-Lost_example =
    yield_twice-Lost 9 no_switch live (omega arith) system waiting system_lem.0 on
      (rw system_lem.2 system_lem.3) none_above (λ e. ground (arith, system_lem.2))

Lost-after : (k : Kernel) × (q : Queues) × Lost live k q 20
Lost-after =
    let (k', q', run, lost) =
      yield_twice-Lost 9 no_switch live (omega arith) system waiting system_lem.0 on
        (rw system_lem.2 system_lem.3) none_above (λ e. ground (arith, system_lem.2)) in
    (k', q', rw system_lem.2 at lost)

suspended_task :
    (k : Kernel) × Sound live k (without system waiting 21)
    × ((j : ℕ) → j < 256 → has 21 (without system waiting 21 j) ≡ false)
    × ((k.tcb 21).state ≡ suspended)
    × (21 ≢ k.current_task)
suspended_task =
    let (k1, run, w) =
      os_task_suspend_lem 9 no_switch live system waiting 21 system_lem.0 on refl (omega arith)
        (λ e. ground arith) in
    let (cur, queues, prio) = w.stays not_running in
    (k1, rw queues at w.sound, rw queues at w.nowhere, w.state, λ e. not_running (e ∙ cur))
