-- ===== src/Kernel/Priority.antt =====
-- kernel.c: the priority of a task, set for good, raised for a while, and reset.
pub mod Order
pub mod Calls
use tinyos_rtos.Prelude.{
  ℕ, Bool, not, ◌&&◌, Option, none, some, ltb, leb, ◌==◌, if◌then◌else◌, ◌>>=◌,
}
use tinyos_rtos.Links.{null}
use tinyos_rtos.Kernel.{
  Kernel, TaskPtr, Stacks, OsError, ok, invalid_param, is_ready, priority_idle, set_tcb,
  set_priority,
}
use tinyos_rtos.Kernel.Queue.{scheduler_add_ready_task, scheduler_remove_task}
use tinyos_rtos.Kernel.Tasks.{yield_ok}

unfoldable os_task_get_priority : Kernel → TaskPtr → ℕ
os_task_get_priority k task = if task == null then priority_idle else (k.tcb task).priority

module _ (fuel : ℕ) where
  -- The change of the priority between `scheduler_remove_task` and `scheduler_add_ready_task`, both
  -- only for a READY task.
  pub requeue_with : (Kernel → Kernel) → Kernel → TaskPtr → Option Kernel
  requeue_with change k task =
      (if is_ready (k.tcb task).state then scheduler_remove_task fuel k task else some k) >>= λ k1.
      let k2 = change k1 in
      if is_ready (k2.tcb task).state then scheduler_add_ready_task fuel k2 task else some k2

  module _ (context_switch : TaskPtr → TaskPtr → Stacks → Stacks) where
    -- `if (current != NULL && new_priority < current->priority)`: yield.
    pub yield_if_outranked : ℕ → Kernel → Option (OsError × Kernel)
    yield_if_outranked new_priority k =
        if not (k.current_task == null) && ltb new_priority (k.tcb k.current_task).priority
        then yield_ok fuel context_switch k
        else some (ok, k)

    pub os_task_set_priority : Kernel → TaskPtr → ℕ → Option (OsError × Kernel)
    unfolding yield_if_outranked
    os_task_set_priority k task new_priority =
        if task == null
        then some (invalid_param, k)
        else (let old_priority = (k.tcb task).priority in
            if new_priority == old_priority
            then some (ok, k)
            else (requeue_with
                  (λ k1. set_tcb k1 task (record (k1.tcb task) {
                    priority = new_priority;
                    base_priority = new_priority;
                  }))
                  k task
                >>= λ k2.
                    if task == k2.current_task && ltb old_priority new_priority
                    then yield_ok fuel context_switch k2
                    else yield_if_outranked new_priority k2))

    pub os_task_raise_priority : Kernel → TaskPtr → ℕ → Option (OsError × Kernel)
    unfolding yield_if_outranked
    os_task_raise_priority k task new_priority =
        if task == null
        then some (invalid_param, k)
        else (if leb (k.tcb task).priority new_priority
            then some (ok, k)
            else (requeue_with (λ k1. set_priority k1 task new_priority) k task
                >>= yield_if_outranked new_priority))

    pub os_task_reset_priority : Kernel → TaskPtr → Option (OsError × Kernel)
    os_task_reset_priority k task =
        if task == null
        then some (invalid_param, k)
        else (let old_priority = (k.tcb task).priority in
            requeue_with (λ k1. set_priority k1 task (k1.tcb task).base_priority) k task >>= λ k2.
            if task == k2.current_task && ltb old_priority (k2.tcb task).priority
            then yield_ok fuel context_switch k2
            else some (ok, k2))
