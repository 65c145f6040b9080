-- ===== src/Kernel/Tasks.antt =====
-- kernel.c: `os_task_create`, `os_task_delete`, `os_task_suspend`, `os_task_resume`, `os_init`.
-- A critical section has no effect of its own in the model: each call is one step. A call
-- returns its error code and the new kernel; `none` says that a walk ran out of fuel.
pub mod Create
pub mod Stop
pub mod Resume
use tinyos_rtos.Prelude.{
  ℕ, zero, suc, ◌+◌, ◌%◌, Bool, false, ◌&&◌, ◌||◌, Option, none, some, List, [], ◌∷◌, leb, ◌==◌,
  if◌then◌else◌, ◌>>=◌, update,
}
use tinyos_rtos.Prelude.Word.{u8, u32}
use tinyos_rtos.Links.{null}
use tinyos_rtos.Kernel.{
  Kernel, TaskPtr, Tcb, Stacks, OsError, ok, no_memory, invalid_param, ready, suspended, terminated,
  is_suspended, max_tasks, time_slice_ms, priority_idle, idle_task, set_tcb, set_state,
}
use tinyos_rtos.Kernel.Queue.{scheduler_add_ready_task, scheduler_remove_task}
use tinyos_rtos.Kernel.Sched.{os_task_yield}

-- `strncpy(task->name, name ? name : "", 15)` into a field of zeros: the text is cut at 15 bytes.
-- `none` is a NULL name.
unfoldable pub take : ℕ → List ℕ → List ℕ
take zero xs = []
take (suc n) [] = []
take (suc n) (x ∷ xs) = x ∷ take n xs

pub copy_name : Option (List ℕ) → List ℕ
unfolding take
copy_name none = []
copy_name (some name) = take 15 name

-- The frame that the first switch to the task will load: xPSR, PC, LR, R12, R3, R2, R1, R0 from
-- word 254 down; the other words are 0.
pub initial_stack : ℕ → ℕ → ℕ → ℕ
initial_stack entry param i =
    if i == 254
    then 0x01000000
    else (if i == 253 then u32 entry else (if i == 247 then u32 param else 0))

unfoldable pub fresh_tcb : Option (List ℕ) → ℕ → ℕ → ℕ → Tcb
unfolding copy_name
fresh_tcb name entry param priority = record {
  state = ready;
  priority = priority;
  base_priority = priority;
  time_slice = time_slice_ms;
  name = copy_name name;
  entry_point = entry;
  param = param;
  run_time = 0;
  context_switches = 0;
  stack_high_water_mark = 0;
  next = null;
}

-- The task control block and the stack, set up.
pub set_up : Kernel → TaskPtr → Option (List ℕ) → ℕ → ℕ → ℕ → Kernel
unfolding fresh_tcb initial_stack
set_up k task name entry param priority =
    record (set_tcb k task (fresh_tcb name entry param priority)) {
      stacks = record {
        stack_ptr = update k.stacks.stack_ptr task 247;
        stack = λ t. if t == task then initial_stack entry param else k.stacks.stack t;
      };
    }

module _ (fuel : ℕ) where
  pub os_task_create : Kernel → TaskPtr → Option (List ℕ) → ℕ → ℕ → ℕ → Option (OsError × Kernel)
  os_task_create k task name entry param priority =
      if task == null || entry == null
      then some (invalid_param, k)
      else (if leb max_tasks k.task_count
          then some (no_memory, k)
          else (scheduler_add_ready_task fuel (set_up k task name entry param priority) task
              >>= λ k1. some (ok, record k1 { task_count = u8 (k1.task_count + 1) })))

-- `memset(&kernel, 0, sizeof(kernel))`: the kernel's own data, with the blocks of the pool. The
-- other tasks' blocks lie elsewhere and stay.
zero_tcb : Tcb
zero_tcb = record {
  state = ready;
  priority = 0;
  base_priority = 0;
  time_slice = 0;
  name = [];
  entry_point = null;
  param = null;
  run_time = 0;
  context_switches = 0;
  stack_high_water_mark = 0;
  next = null;
}

in_pool : TaskPtr → Bool
in_pool t = leb 1 t && leb t max_tasks

unfoldable pub zeroed : Kernel → Kernel
unfolding zero_tcb in_pool
zeroed k = record {
  current_task = null;
  ready_queue = λ p. null;
  ready_bitmap = λ w. 0;
  task_count = 0;
  tick_count = 0;
  context_switch_count = 0;
  scheduler_running = false;
  tcb = λ t. if in_pool t then zero_tcb else k.tcb t;
  stacks = record {
    stack_ptr = λ t. if in_pool t then 0 else k.stacks.stack_ptr t;
    stack = λ t. if in_pool t then (λ i. 0) else k.stacks.stack t;
  };
}

-- `os_init`, with the address of the static function `idle_task`. The result of the creation is
-- dropped.
unfoldable pub os_init : ℕ → ℕ → Kernel → Option Kernel
os_init fuel idle_entry k =
    os_task_create fuel (zeroed k) idle_task (some (b'i' ∷ b'd' ∷ b'l' ∷ b'e' ∷ [])) idle_entry null
      priority_idle
    >>= λ r. some r.1

module _ (fuel : ℕ) (context_switch : TaskPtr → TaskPtr → Stacks → Stacks) where
  -- `os_task_yield(); return OS_OK;`
  unfoldable pub yield_ok : Kernel → Option (OsError × Kernel)
  yield_ok k = os_task_yield fuel context_switch k >>= λ k'. some (ok, k')

  pub os_task_delete : Kernel → TaskPtr → Option (OsError × Kernel)
  unfolding yield_ok
  os_task_delete k task =
      if task == null || task == idle_task
      then some (invalid_param, k)
      else (scheduler_remove_task fuel k task >>= λ k1.
          let k2 = record (set_state k1 task terminated) {
            task_count = u8 (k1.task_count + 255);
          } in
          if task == k2.current_task then yield_ok k2 else some (ok, k2))

  pub os_task_suspend : Kernel → TaskPtr → Option (OsError × Kernel)
  unfolding yield_ok
  os_task_suspend k task =
      if task == null
      then some (invalid_param, k)
      else (scheduler_remove_task fuel k task >>= λ k1.
          let k2 = set_state k1 task suspended in
          if task == k2.current_task then yield_ok k2 else some (ok, k2))

pub os_task_resume : ℕ → Kernel → TaskPtr → Option (OsError × Kernel)
os_task_resume fuel k task =
    if task == null
    then some (invalid_param, k)
    else (if is_suspended (k.tcb task).state
        then (scheduler_add_ready_task fuel k task >>= λ k'. some (ok, k'))
        else some (ok, k))
