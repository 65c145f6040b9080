-- ===== src/Sync/Tests.antt =====
-- The theorems on mutexes and semaphores at a small system.
use tinyos_rtos.Prelude.{refl, true, none, some, [], ◌∷◌, arith}
use tinyos_rtos.Links.{null}
use tinyos_rtos.Kernel.{Kernel, set_next}
use tinyos_rtos.Kernel.Queue.{scheduler_add_ready_task}
use tinyos_rtos.Sync.Cond.{CondSystem}
use tinyos_rtos.Kernel.Sample.{blank, system}
use tinyos_rtos.Sync.{System, set_semaphore, os_semaphore_wait}
use tinyos_rtos.Sync.Wait.{Taken, os_semaphore_wait_lem}

-- Task 20 runs; task 21, of lower priority, owns mutex 40; semaphore 50 is 0.
abbrev held : System
held = record {
  kernel = system;
  mutex = λ m. record { locked = true; owner = 21; ceiling_priority = 255 };
  semaphore = λ m. record { count = 0; wait_queue = null };
}

abbrev nothing : System → System
nothing s = s

-- While the task waits, another posts.
abbrev posted : System → System
posted s = set_semaphore s 50 (record { count = 1; wait_queue = null })

os_semaphore_wait_lem_example :
    Taken (nothing ∷ posted ∷ []) 50 held (os_semaphore_wait (nothing ∷ posted ∷ []) 50 0 held)
os_semaphore_wait_lem_example =
    os_semaphore_wait_lem (nothing ∷ posted ∷ []) 50 held (λ e. ground arith) refl

-- Tasks 30 and 31 wait on a condition variable, and task 30 is put in its ready queue.
abbrev queued : Kernel
queued = set_next blank 30 31

abbrev put_back : Kernel
put_back = elim (scheduler_add_ready_task 9 queued 30) [ none ↦ queued | some k ↦ k ]

abbrev two_waiting : CondSystem
two_waiting = record {
  cond = record { wait_queue = 30; waiting_count = 2 };
  system = record held { kernel = queued };
}
