-- ===== src/Kernel.antt =====
-- kernel.c and the part of tinyos.h that it works on: error codes, the task control block and
-- the state of the kernel. The children model the ready queues, the scheduler, the task calls,
-- the priority calls and the statistics.
pub mod Queue
pub mod Sched
pub mod Tasks
pub mod Priority
pub mod Boot
pub mod Stats
pub mod Sample
mod Tests
use Prim.Native.Nat.{ℕ, ◌+◌}
use mathlib.Core.Bool.{Bool, true, false}
use mathlib.Core.List.{List}
use tinyos_rtos.Prelude.{update}
use tinyos_rtos.Links.{null}

-- `os_error_t`
pub data OsError : Type 0 where
  ok error no_memory invalid_param timeout permission_denied : OsError
  not_implemented no_resource not_initialized : OsError

-- `task_state_t`
pub data TaskState : Type 0 where
  ready running blocked suspended terminated : TaskState

abbrev pub is_ready : TaskState → Bool
is_ready ready = true
is_ready _ = false

abbrev pub is_running : TaskState → Bool
is_running running = true
is_running _ = false

abbrev pub is_suspended : TaskState → Bool
is_suspended suspended = true
is_suspended _ = false

-- `tcb_t *`
abbrev pub TaskPtr : Type 0
TaskPtr = ℕ

-- `tcb_t`, but for its stack and saved stack pointer, which are kept in `Stacks`.
pub record Tcb : Type 0 where
  pub state : TaskState
  pub priority : ℕ  -- uint8_t
  pub base_priority : ℕ  -- uint8_t
  pub time_slice : ℕ  -- uint32_t
  pub name : List ℕ  -- char[16], up to its first NUL
  pub entry_point : ℕ
  pub param : ℕ
  pub run_time : ℕ  -- uint32_t
  pub context_switches : ℕ  -- uint32_t
  pub stack_high_water_mark : ℕ  -- uint32_t
  pub next : TaskPtr

-- The fields `stack_ptr`, as an index into the task's own stack, and `stack`.
pub record Stacks : Type 0 where
  pub stack_ptr : TaskPtr → ℕ
  pub stack : TaskPtr → ℕ → ℕ

-- The static `kernel`, with the task control blocks and the stacks of memory beside it.
pub record Kernel : Type 0 where
  pub current_task : TaskPtr
  pub ready_queue : ℕ → TaskPtr  -- 256 entries
  pub ready_bitmap : ℕ → ℕ  -- 8 words of 32 bits
  pub task_count : ℕ  -- uint8_t
  pub tick_count : ℕ  -- uint32_t
  pub context_switch_count : ℕ  -- uint32_t
  pub scheduler_running : Bool
  pub tcb : TaskPtr → Tcb
  pub stacks : Stacks

abbrev pub max_tasks : ℕ
max_tasks = 8

abbrev pub time_slice_ms : ℕ
time_slice_ms = 10

abbrev pub stack_size : ℕ
stack_size = 256

abbrev pub tick_rate_hz : ℕ
tick_rate_hz = 1000

abbrev pub priority_idle : ℕ
priority_idle = 255

-- `&kernel.task_pool[i]`: the pool lies behind NULL; user tasks live at other addresses.
abbrev pub pool_task : ℕ → TaskPtr
pool_task i = i + 1

abbrev pub idle_task : TaskPtr
idle_task = pool_task 0

-- A write to `*t`, and to the fields that the kernel's functions assign one at a time.
abbrev pub set_tcb : Kernel → TaskPtr → Tcb → Kernel
set_tcb k t c = record k { tcb = update k.tcb t c }

abbrev pub set_state : Kernel → TaskPtr → TaskState → Kernel
set_state k t s = set_tcb k t (record (k.tcb t) { state = s })

abbrev pub set_next : Kernel → TaskPtr → TaskPtr → Kernel
set_next k t n = set_tcb k t (record (k.tcb t) { next = n })

abbrev pub set_time_slice : Kernel → TaskPtr → ℕ → Kernel
set_time_slice k t n = set_tcb k t (record (k.tcb t) { time_slice = n })

abbrev pub set_priority : Kernel → TaskPtr → ℕ → Kernel
set_priority k t p = set_tcb k t (record (k.tcb t) { priority = p })

-- The links that the ready queues go through.
abbrev pub next_of : Kernel → TaskPtr → TaskPtr
next_of k t = (k.tcb t).next
