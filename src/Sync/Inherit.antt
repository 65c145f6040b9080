-- ===== src/Sync/Inherit.antt =====
-- Priority inheritance: who waits for a mutex lends the owner its priority.
use tinyos_rtos.Prelude.{ℕ, ◌≡◌, ◌≢◌, true, List, max}
use tinyos_rtos.Kernel.{TaskPtr}
use tinyos_rtos.Kernel.Queue.Valid.{Queues}
use tinyos_rtos.Kernel.Sched.Sound.{Sound}
use tinyos_rtos.Kernel.Priority.Order.{moved_if_ready}
use tinyos_rtos.Sync.{System}

-- The owner `o` runs with the priority of the running task; nothing else of the system changes but the
-- queues, and the running task keeps the processor.
pub record Lent (live : List TaskPtr) (q : Queues) (o : TaskPtr) (s s1 : System) : Type 0 where
  pub sound :
      Sound live s1.kernel
        (moved_if_ready s.kernel q o (s.kernel.tcb s.kernel.current_task).priority)
  pub lent : (s1.kernel.tcb o).priority ≡ (s.kernel.tcb s.kernel.current_task).priority
  pub base : (s1.kernel.tcb o).base_priority ≡ (s.kernel.tcb o).base_priority
  pub current : s1.kernel.current_task ≡ s.kernel.current_task
  pub mutexes : s1.mutex ≡ s.mutex
  pub semaphores : s1.semaphore ≡ s.semaphore

-- `task` has got the mutex: it is locked, owned by the task, and its ceiling is at least the task's
-- priority; nothing else of the system changes.
pub record Acquired (m : ℕ) (task : TaskPtr) (s s1 : System) : Type 0 where
  pub locked : (s1.mutex m).locked ≡ true
  pub owner : (s1.mutex m).owner ≡ task
  pub ceiling :
      (s1.mutex m).ceiling_priority ≡ max (s.mutex m).ceiling_priority (s.kernel.tcb task).priority
  pub others : (i : ℕ) → i ≢ m → s1.mutex i ≡ s.mutex i
  pub kernel : s1.kernel ≡ s.kernel
  pub semaphores : s1.semaphore ≡ s.semaphore
