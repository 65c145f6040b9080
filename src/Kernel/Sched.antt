-- ===== src/Kernel/Sched.antt =====
-- kernel.c: `os_scheduler`, `os_task_yield`, `os_start`, `os_init`'s first step and the time
-- calls. `context_switch` is assembly of the target: an argument, which works on the stacks alone.
pub mod Sound
pub mod Step
pub mod Tick
pub mod Lost
pub mod Delay
use mathlib.Core.Bool.{not}
use tinyos_rtos.Prelude.{
  ℕ, ◌+◌, ◌-◌, ◌*◌, ◌/◌, Bool, true, Option, none, some, List, [], ◌∷◌, ltb, ◌==◌, if◌then◌else◌,
  ◌>>=◌,
}
use tinyos_rtos.Prelude.Word.{u32, sub_u32, int32_pos}
use tinyos_rtos.Links.{null}
use tinyos_rtos.Kernel.{
  Kernel, TaskPtr, Tcb, Stacks, running, is_running, time_slice_ms, tick_rate_hz, set_tcb,
  set_state, set_time_slice,
}
use tinyos_rtos.Kernel.Queue.{scheduler_add_ready_task, scheduler_get_next_task}

-- `current->run_time++; if (current->time_slice > 0) current->time_slice--;`
-- The subtraction is made only above 0.
pub charge : Kernel → TaskPtr → Kernel
charge k t =
    let c = k.tcb t in
    set_tcb k t (record c {
      time_slice = if ltb 0 c.time_slice then c.time_slice - 1 else c.time_slice;
      run_time = u32 (c.run_time + 1);
    })

module _ (context_switch : TaskPtr → TaskPtr → Stacks → Stacks) where
  -- The change to another task.
  unfoldable switch_to : Kernel → TaskPtr → Kernel
  switch_to k next =
      let c = k.tcb next in
      record (set_tcb k next (record c {
        state = running;
        time_slice = time_slice_ms;
        context_switches = u32 (c.context_switches + 1);
      })) {
        context_switch_count = u32 (k.context_switch_count + 1);
        current_task = next;
        stacks = context_switch k.current_task next k.stacks;
      }

  -- The end of the slice, with the next task `r.0` taken.
  pub dispatch : TaskPtr × Kernel → Kernel
  unfolding switch_to
  dispatch (next, k) =
      if next == k.current_task then set_time_slice k next time_slice_ms else switch_to k next

module _ (fuel : ℕ) (context_switch : TaskPtr → TaskPtr → Stacks → Stacks) where
  -- The block under `if (kernel.current_task->time_slice == 0)`.
  pub reschedule : Kernel → Option Kernel
  reschedule k =
      (if is_running (k.tcb k.current_task).state
        then scheduler_add_ready_task fuel k k.current_task
        else some k)
      >>= λ k'. some (dispatch context_switch (scheduler_get_next_task k'))

  pub os_scheduler : Kernel → Option Kernel
  os_scheduler k =
      if not k.scheduler_running
      then some k
      else (let k1 = record k { tick_count = u32 (k.tick_count + 1) } in
          if k.current_task == null
          then some k1
          else (let k2 = charge k1 k.current_task in
              if (k2.tcb k.current_task).time_slice == 0 then reschedule k2 else some k2))

  pub os_task_yield : Kernel → Option Kernel
  os_task_yield k =
      if k.current_task == null then some k else os_scheduler (set_time_slice k k.current_task 0)

-- `os_start`, up to the jump into the first task.
unfoldable pub os_start : Kernel → Kernel
os_start k =
    let (t, k') = scheduler_get_next_task (record k { scheduler_running = true }) in
    set_state (record k' { current_task = t }) t running

-- `os_task_delay`. Each entry of `world` is what one `os_task_yield` does until this task runs
-- again: the switch, the other tasks and the ticks. `none` says that the task still waits when
-- `world` ends.
pub delay_loop : List (Kernel → Kernel) → ℕ → Kernel → Option Kernel
delay_loop [] target k = if int32_pos (sub_u32 target k.tick_count) then none else some k
delay_loop (yield_to ∷ world) target k =
    let rest = delay_loop world target (yield_to k) in
    if int32_pos (sub_u32 target k.tick_count) then rest else some k

pub os_task_delay : List (Kernel → Kernel) → ℕ → Kernel → Option Kernel
unfolding delay_loop
os_task_delay world ticks k = delay_loop world (u32 (k.tick_count + ticks)) k

-- The ticks that `os_task_delay_ms` asks for.
pub ticks_of_ms : ℕ → ℕ
ticks_of_ms ms = u32 (ms * tick_rate_hz + 999) / 1000

unfoldable os_task_delay_ms : List (Kernel → Kernel) → ℕ → Kernel → Option Kernel
unfolding os_task_delay ticks_of_ms
os_task_delay_ms world ms k = os_task_delay world (ticks_of_ms ms) k

-- 64-bit product, cut to uint32_t.
unfoldable os_get_uptime_ms : Kernel → ℕ
os_get_uptime_ms k = u32 (k.tick_count * 1000 / tick_rate_hz)
