-- ===== src/Sync/Cond/Shared.antt =====
-- The wait queue and the ready queues share the links of the tasks.
use tinyos_rtos.Kernel.{Kernel}
use tinyos_rtos.Sync.{with_kernel}
use tinyos_rtos.Sync.Cond.{CondSystem}

-- The state with the kernel `k`
abbrev pub with_queues : Kernel → CondSystem → CondSystem
with_queues k c = record c { system = with_kernel c.system k }
