-- ===== src/Sync.antt =====
-- sync.c: mutexes with priority inheritance, and semaphores, on the kernel. A loop that waits takes
-- `world`: each entry is what one `os_task_yield` does until this task runs again, the other tasks and
-- the ticks included. `none` says that the task still waits when `world` ends, or that a walk along a
-- queue ran out of fuel.
pub mod Inherit
pub mod Wait
pub mod MsgQueue
pub mod Events
pub mod Cond
mod Tests
mod WaitTests
use tinyos_rtos.Prelude.{
  ℕ, ◌+◌, ◌-◌, ◌^◌, Bool, true, false, not, ◌&&◌, Option, none, some, List, [], ◌∷◌, ltb, leb, ◌==◌,
  if◌then◌else◌, ◌>>=◌, update,
}
use tinyos_rtos.Prelude.Word.{u32, sub_u32, int32_pos}
use tinyos_rtos.Links.{null}
use tinyos_rtos.Kernel.{
  Kernel, TaskPtr, Stacks, OsError, ok, timeout, invalid_param, permission_denied, priority_idle,
}
use tinyos_rtos.Kernel.Sched.{os_task_yield}
use tinyos_rtos.Kernel.Priority.{os_task_raise_priority, os_task_reset_priority}

-- `mutex_t`
pub record Mutex : Type 0 where
  pub locked : Bool
  pub owner : TaskPtr
  pub ceiling_priority : ℕ

-- `semaphore_t`; the count is an int32_t, kept as its 32-bit word.
pub record Semaphore : Type 0 where
  pub count : ℕ
  pub wait_queue : TaskPtr

-- The kernel, and the mutexes and semaphores of memory.
pub record System : Type 0 where
  pub kernel : Kernel
  pub mutex : ℕ → Mutex
  pub semaphore : ℕ → Semaphore

abbrev set_mutex : System → ℕ → Mutex → System
set_mutex s m c = record s { mutex = update s.mutex m c }

abbrev pub set_semaphore : System → ℕ → Semaphore → System
set_semaphore s m c = record s { semaphore = update s.semaphore m c }

abbrev pub with_kernel : System → Kernel → System
with_kernel s k = record s { kernel = k }

unfoldable os_mutex_init : ℕ → System → System
os_mutex_init m s =
    if m == null
    then s
    else set_mutex s m (record { locked = false; owner = null; ceiling_priority = priority_idle })

-- The lock is taken, and the ceiling noted.
abbrev pub acquired : System → ℕ → TaskPtr → System
acquired s m task =
    let c = s.mutex m in
    let p = (s.kernel.tcb task).priority in
    set_mutex s m (record {
      locked = true;
      owner = task;
      ceiling_priority = if ltb c.ceiling_priority p then p else c.ceiling_priority;
    })

-- `timeout != 0 && (os_get_tick_count() - start_tick) >= timeout`
abbrev pub out_of_time : ℕ → ℕ → System → Bool
out_of_time limit start s = not (limit == 0) && leb limit (sub_u32 s.kernel.tick_count start)

module _ (fuel : ℕ) (context_switch : TaskPtr → TaskPtr → Stacks → Stacks) where
  -- A waiter of higher priority lends its priority to the owner.
  pub boost : ℕ → TaskPtr → System → Option System
  boost m task s =
      let o = (s.mutex m).owner in
      if not (o == null) && ltb (s.kernel.tcb task).priority (s.kernel.tcb o).priority
      then (os_task_raise_priority fuel context_switch s.kernel o (s.kernel.tcb task).priority
          >>= λ r. some (with_kernel s r.1))
      else some s

  pub lock_loop : List (System → System) → ℕ → TaskPtr → ℕ → ℕ → System → Option (OsError × System)
  lock_loop [] m task start limit s =
      if not (s.mutex m).locked
      then some (ok, acquired s m task)
      else (boost m task s >>= λ s1.
          if out_of_time limit start s1 then some (timeout, s1) else none)
  lock_loop (yield_to ∷ world) m task start limit s =
      if not (s.mutex m).locked
      then some (ok, acquired s m task)
      else (boost m task s >>= λ s1.
          let rest = lock_loop world m task start limit (yield_to s1) in
          if out_of_time limit start s1 then some (timeout, s1) else rest)

  pub os_mutex_lock : List (System → System) → ℕ → ℕ → System → Option (OsError × System)
  unfolding lock_loop
  os_mutex_lock world m limit s =
      if m == null
      then some (invalid_param, s)
      else lock_loop world m s.kernel.current_task s.kernel.tick_count limit s

  -- The lock is given back behind the reset of the priority.
  abbrev released : System → ℕ → System
  released s m = set_mutex s m (record (s.mutex m) { locked = false; owner = null })

  unfoldable os_mutex_unlock : ℕ → System → Option (OsError × System)
  os_mutex_unlock m s =
      if m == null
      then some (invalid_param, s)
      else (let task = s.kernel.current_task in
          if not ((s.mutex m).owner == task)
          then some (permission_denied, s)
          else (os_task_reset_priority fuel context_switch s.kernel task >>= λ r.
              let s1 = released (with_kernel s r.1) m in
              os_task_yield fuel context_switch s1.kernel >>= λ k. some (ok, with_kernel s1 k)))

  unfoldable os_semaphore_post : ℕ → System → Option (OsError × System)
  os_semaphore_post m s =
      if m == null
      then some (invalid_param, s)
      else (let c = s.semaphore m in
          os_task_yield fuel context_switch s.kernel >>= λ k.
          some (ok, with_kernel (set_semaphore s m (record c { count = u32 (c.count + 1) })) k))

unfoldable os_semaphore_init : ℕ → ℕ → System → System
os_semaphore_init m initial_count s =
    if m == null then s else set_semaphore s m (record { count = initial_count; wait_queue = null })

abbrev pub count_down : System → ℕ → System
count_down s m =
    set_semaphore s m
      (record (s.semaphore m) { count = u32 ((s.semaphore m).count + (2 ^ 32 - 1)) })

pub wait_loop : List (System → System) → ℕ → ℕ → ℕ → System → Option (OsError × System)
wait_loop [] m start limit s =
    if int32_pos (s.semaphore m).count
    then some (ok, count_down s m)
    else (if out_of_time limit start s then some (timeout, s) else none)
wait_loop (yield_to ∷ world) m start limit s =
    let rest = wait_loop world m start limit (yield_to s) in
    if int32_pos (s.semaphore m).count
    then some (ok, count_down s m)
    else (if out_of_time limit start s then some (timeout, s) else rest)

pub os_semaphore_wait : List (System → System) → ℕ → ℕ → System → Option (OsError × System)
unfolding wait_loop
os_semaphore_wait world m limit s =
    if m == null then some (invalid_param, s) else wait_loop world m s.kernel.tick_count limit s

unfoldable os_semaphore_get_count : ℕ → System → ℕ
os_semaphore_get_count m s = if m == null then 0 else (s.semaphore m).count
