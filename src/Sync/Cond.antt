-- ===== src/Sync/Cond.antt =====
-- sync.c: condition variables. The waiting tasks are linked through the `next` fields of their control
-- blocks, which the ready queues of the kernel use too. Pointers are taken not to be NULL.
pub mod Shared
use tinyos_rtos.Prelude.{
  ℕ, zero, suc, ◌+◌, ◌-◌, ◌^◌, Bool, true, false, not, Option, none, some, List, [], ◌∷◌, ◌==◌,
  if◌then◌else◌, ◌>>=◌,
}
use tinyos_rtos.Prelude.Word.{u32}
use tinyos_rtos.Links.{null, last_node, Found, absent, behind, find_node}
use tinyos_rtos.Kernel.{Kernel, TaskPtr, Stacks, OsError, ok, timeout, set_next, next_of}
use tinyos_rtos.Kernel.Sched.{os_task_yield}
use tinyos_rtos.Sync.{System, with_kernel, out_of_time, os_mutex_lock, os_mutex_unlock}

-- `cond_var_t`
pub record CondVar : Type 0 where
  pub wait_queue : TaskPtr
  pub waiting_count : ℕ

-- The system, and the condition variable.
pub record CondSystem : Type 0 where
  pub cond : CondVar
  pub system : System

unfoldable pub os_cond_init : CondVar
os_cond_init = record { wait_queue = null; waiting_count = 0 }

abbrev pub link : CondSystem → TaskPtr → TaskPtr → CondSystem
link c task to = record c { system = with_kernel c.system (set_next c.system.kernel task to) }

abbrev pub links : CondSystem → TaskPtr → TaskPtr
links c = next_of c.system.kernel

abbrev pub head_to : CondSystem → TaskPtr → CondSystem
head_to c task = record c { cond = record c.cond { wait_queue = task } }

abbrev pub count_by : ℕ → CondSystem → CondSystem
count_by n c = record c { cond = record c.cond { waiting_count = u32 (c.cond.waiting_count + n) } }

-- To the end of the wait queue
unfoldable pub enqueue : ℕ → TaskPtr → CondSystem → Option CondSystem
enqueue fuel task c =
    if c.cond.wait_queue == null
    then some (count_by 1 (link (head_to c task) task null))
    else (last_node fuel (links c) c.cond.wait_queue >>= λ tail.
        some (count_by 1 (link (link c tail task) task null)))

-- `while (prev != NULL && prev->next != task) prev = prev->next;`
unfoldable pub find_previous : ℕ → (TaskPtr → TaskPtr) → TaskPtr → TaskPtr → Option TaskPtr
find_previous zero next prev task = none
find_previous (suc fuel) next prev task = elim (prev == null) [
  | true ↦ some null
  | false ↦ elim (next prev == task) [
    | true ↦ some prev
    | false ↦ find_previous fuel next (next prev) task
  ]
]

-- `waiting_count--; task->next = NULL;`
abbrev pub leave : TaskPtr → CondSystem → CondSystem
leave task c = link (count_by (2 ^ 32 - 1) c) task null

unfoldable pub cond_remove_task : ℕ → TaskPtr → CondSystem → Option CondSystem
unfolding find_previous
cond_remove_task fuel task c =
    if c.cond.wait_queue == task
    then some (leave task (head_to c (links c task)))
    else (find_previous fuel (links c) c.cond.wait_queue task >>= λ prev.
        some (leave task (if prev == null then c else link c prev (links c task))))

abbrev pub met : Found → Bool
met absent = false
met (behind prev) = true

-- Whether the walk along the wait queue meets the task.
unfoldable pub is_queued : ℕ → TaskPtr → CondSystem → Option Bool
is_queued fuel task c =
    find_node fuel (links c) null c.cond.wait_queue task >>= λ found. some (met found)

module _ (fuel : ℕ) (context_switch : TaskPtr → TaskPtr → Stacks → Stacks) where
  -- `os_mutex_lock(mutex, 0); return e;`
  unfoldable pub relock :
      List (System → System) → ℕ → OsError → CondSystem → Option (OsError × CondSystem)
  relock world m e c = os_mutex_lock fuel context_switch world m 0 c.system >>= λ (_, s).
      some (e, record c { system = s })

  -- The loop; `world` is what each yield does until this task runs again, `locking` the same for the
  -- yields of the lock at the end.
  unfoldable pub signal_loop :
      List (CondSystem → CondSystem)
      → List (System → System)
      → ℕ
      → TaskPtr
      → ℕ
      → ℕ
      → CondSystem
      → Option (OsError × CondSystem)
  unfolding is_queued cond_remove_task relock
  signal_loop [] locking m task start limit c = is_queued fuel task c >>= λ queued.
      if not queued
      then relock locking m ok c
      else (if out_of_time limit start c.system
          then (cond_remove_task fuel task c >>= λ c'. relock locking m timeout c')
          else none)
  signal_loop (yield_to ∷ world) locking m task start limit c =
      let rest = signal_loop world locking m task start limit (yield_to c) in
      is_queued fuel task c >>= λ queued.
      if not queued
      then relock locking m ok c
      else (if out_of_time limit start c.system
          then (cond_remove_task fuel task c >>= λ c'. relock locking m timeout c')
          else rest)

  -- What follows the unlocking, by its result.
  unfoldable pub after_unlock :
      List (CondSystem → CondSystem)
      → List (System → System)
      → ℕ
      → TaskPtr
      → ℕ
      → ℕ
      → OsError
      → CondSystem
      → Option (OsError × CondSystem)
  unfolding signal_loop
  after_unlock world locking m task start limit ok c =
      signal_loop world locking m task start limit c
  after_unlock world locking m task start limit e c =
      cond_remove_task fuel task c >>= λ c'. some (e, c')

  unfoldable pub os_cond_wait :
      List (CondSystem → CondSystem)
      → List (System → System)
      → ℕ
      → ℕ
      → CondSystem
      → Option (OsError × CondSystem)
  unfolding enqueue after_unlock os_mutex_unlock
  os_cond_wait world locking m limit c =
      let task = c.system.kernel.current_task in
      enqueue fuel task c >>= λ c1. os_mutex_unlock fuel context_switch m c1.system >>= λ (e, s).
      after_unlock world locking m task c.system.kernel.tick_count limit e
        (record c1 { system = s })

  -- The first task is taken out.
  abbrev pub wake_first : CondSystem → CondSystem
  wake_first c = leave c.cond.wait_queue (head_to c (links c c.cond.wait_queue))

  abbrev pub then_yield : CondSystem → Option CondSystem
  then_yield c = os_task_yield fuel context_switch c.system.kernel >>= λ k.
      some (record c { system = with_kernel c.system k })

  unfoldable pub os_cond_signal : CondSystem → Option CondSystem
  os_cond_signal c = then_yield (if c.cond.wait_queue == null then c else wake_first c)

  unfoldable pub wake_all : ℕ → CondSystem → Option CondSystem
  wake_all zero c = none
  wake_all (suc rounds) c =
      let rest = wake_all rounds (wake_first c) in
      if c.cond.wait_queue == null then some c else rest

  unfoldable pub os_cond_broadcast : CondSystem → Option CondSystem
  unfolding wake_all
  os_cond_broadcast c = wake_all fuel c >>= λ c'. then_yield c'
