-- ===== src/Kernel/Stats.antt =====
-- kernel.c: statistics. `free` is what `os_get_free_memory` returns; the two percentages in floating
-- point, the fields `cpu_usage`, are left out.
pub mod Usage
use tinyos_rtos.Prelude.{
  ℕ, zero, suc, ◌+◌, ◌-◌, ◌*◌, ◌/◌, Bool, true, false, not, ◌&&◌, ◌||◌, Option, none, some, List,
  ltb, leb, ◌==◌, if◌then◌else◌,
}
use tinyos_rtos.Prelude.Word.{u8, u32}
use tinyos_rtos.Links.{null}
use tinyos_rtos.Kernel.{
  Kernel, TaskPtr, Tcb, TaskState, running, blocked, OsError, ok, invalid_param, is_ready,
  is_running, stack_size, max_tasks, tick_rate_hz, pool_task, idle_task, set_tcb,
}

abbrev is_blocked : TaskState → Bool
is_blocked blocked = true
is_blocked _ = false

-- A loop over the pool that counts the tasks in a state, from slot `i` on.
unfoldable count_states : ℕ → ℕ → (TaskState → Bool) → Kernel → ℕ
count_states zero i test k = 0
count_states (suc n) i test k =
    let rest = count_states n (i + 1) test k in
    if test (k.tcb (pool_task i)).state then suc rest else rest

-- `os_stats_t`
pub record OsStats : Type 0 where
  pub total_tasks : ℕ
  pub running_tasks : ℕ
  pub blocked_tasks : ℕ
  pub context_switches : ℕ
  pub uptime_ticks : ℕ
  pub free_memory : ℕ
  pub used_memory : ℕ

-- For a `stats` that is not NULL.
unfoldable os_get_stats : ℕ → Kernel → OsStats
unfolding count_states
os_get_stats free k = record {
  total_tasks = k.task_count;
  running_tasks = count_states max_tasks 0 is_running k;
  blocked_tasks = count_states max_tasks 0 is_blocked k;
  context_switches = k.context_switch_count;
  uptime_ticks = k.tick_count;
  free_memory = free;
  used_memory = 0;
}

-- A 64-bit product; the quotient is cut to uint32_t before the comparison.
unfoldable os_task_get_cpu_usage : TaskPtr → Kernel → ℕ
os_task_get_cpu_usage task k =
    if task == null || k.tick_count == 0
    then 0
    else (let usage = u32 ((k.tcb task).run_time * 100 / k.tick_count) in
        u8 (if ltb 100 usage then 100 else usage))

-- `while (current < stack_top && *current == 0) current++;`, with the number of rounds left.
pub skip_zeros : ℕ → ℕ → (ℕ → ℕ) → ℕ
skip_zeros zero i words = i
skip_zeros (suc n) i words =
    let rest = skip_zeros n (i + 1) words in if words i == 0 then rest else i

-- The words from the first that is not 0, or else the last word, up to the top; four bytes each.
pub calculate_stack_usage : TaskPtr → Kernel → ℕ
calculate_stack_usage task k =
    if task == null
    then 0
    else (stack_size - 1 - skip_zeros (stack_size - 1) 0 (k.stacks.stack task) + 1) * 4

-- `task_stats_t`
pub record TaskStats : Type 0 where
  pub name : List ℕ
  pub state : TaskState
  pub priority : ℕ
  pub run_time : ℕ
  pub context_switches : ℕ
  pub total_stack : ℕ
  pub stack_used : ℕ
  pub stack_free : ℕ

abbrev pub task_stats : TaskPtr → Kernel → TaskStats
task_stats task k =
    let c = k.tcb task in
    let used = calculate_stack_usage task k in
    record {
      name = c.name;
      state = c.state;
      priority = c.priority;
      run_time = c.run_time;
      context_switches = c.context_switches;
      total_stack = stack_size * 4;
      stack_used = used;
      stack_free = if leb used (stack_size * 4) then stack_size * 4 - used else 0;
    }

-- `if (stats->stack_used > task->stack_high_water_mark) ...`
pub raise_mark : TaskPtr → ℕ → Kernel → Kernel
raise_mark task used k =
    let c = k.tcb task in
    if ltb c.stack_high_water_mark used
    then set_tcb k task (record c { stack_high_water_mark = used })
    else k

-- `none` beside an error: the statistics are not written. The high water mark is raised.
pub os_task_get_stats : TaskPtr → Kernel → OsError × Option TaskStats × Kernel
os_task_get_stats task k =
    if task == null
    then (invalid_param, none, k)
    else (let stats = task_stats task k in (ok, some stats, raise_mark task stats.stack_used k))

-- `system_stats_t`
pub record SystemStats : Type 0 where
  pub total_tasks : ℕ
  pub running_tasks : ℕ
  pub total_context_switches : ℕ
  pub uptime_ticks : ℕ
  pub uptime_seconds : ℕ
  pub idle_time : ℕ
  pub free_heap : ℕ

unfoldable os_get_system_stats : ℕ → Kernel → SystemStats
unfolding count_states
os_get_system_stats free k = record {
  total_tasks = k.task_count;
  running_tasks = count_states max_tasks 0 (λ s. is_ready s || is_running s) k;
  total_context_switches = k.context_switch_count;
  uptime_ticks = k.tick_count;
  uptime_seconds = k.tick_count / tick_rate_hz;
  idle_time = if ltb 0 k.task_count then (k.tcb idle_task).run_time else 0;
  free_heap = free;
}

unfoldable os_task_reset_stats : TaskPtr → Kernel → OsError × Kernel
os_task_reset_stats task k = if task == null then (invalid_param, k) else (
  ok,
  set_tcb k task
      (record (k.tcb task) { run_time = 0; context_switches = 0; stack_high_water_mark = 0 }),
)
