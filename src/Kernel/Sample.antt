-- ===== src/Kernel/Sample.antt =====
-- A small system for the tests: the idle task, and two tasks of priorities 3 and 5, started.
use tinyos_rtos.Prelude.{
  ◌≡◌, ◌≢◌, ◌∙◌, refl, true, false, none, List, [], ◌∷◌, ◌++◌, arith, update, ap,
}
use tinyos_rtos.Links.{null}
use tinyos_rtos.Kernel.{Kernel, TaskPtr, Tcb, Stacks, ready, running, idle_task, priority_idle}
use tinyos_rtos.Kernel.Queue.Valid.{Queues}
use tinyos_rtos.Kernel.Sched.{os_start}
use tinyos_rtos.Kernel.Sched.Sound.{Stocked, Populated, Stocked-Populated, Sound}
use tinyos_rtos.Kernel.Sched.Step.{Chosen, first, idle}
use tinyos_rtos.Kernel.Tasks.{fresh_tcb}
use tinyos_rtos.Kernel.Tasks.Create.{new_block, Created, os_task_create_lem}
use tinyos_rtos.Kernel.Boot.{os_init_lem, os_start_lem, os_start-priorities}

abbrev no_tcb : Tcb
no_tcb = record {
  state = ready;
  priority = 0;
  base_priority = 0;
  time_slice = 0;
  name = [];
  entry_point = 0;
  param = 0;
  run_time = 0;
  context_switches = 0;
  stack_high_water_mark = 0;
  next = null;
}

abbrev pub blank : Kernel
blank = record {
  current_task = null;
  ready_queue = λ p. null;
  ready_bitmap = λ w. 0;
  task_count = 0;
  tick_count = 0;
  context_switch_count = 0;
  scheduler_running = false;
  tcb = λ t. no_tcb;
  stacks = record { stack_ptr = λ t. 0; stack = λ t i. 0 };
}

-- A switch that saves nothing.
abbrev pub no_switch : TaskPtr → TaskPtr → Stacks → Stacks
no_switch from to s = s

abbrev pub idle_queue : Queues
idle_queue = update (λ p. []) priority_idle (idle_task ∷ [])

pub hundred : 100 ≢ null
hundred e = ground arith

abbrev pub booted : Kernel
booted = (os_init_lem 9 100 blank hundred).0

pub booted_lem : Populated (idle_task ∷ []) booted idle_queue × (booted.task_count ≡ 1)
booted_lem = let (k', run, p, n, c) = os_init_lem 9 100 blank hundred in (p, n)

pub booted-Stocked : Stocked (idle_task ∷ []) booted idle_queue
booted-Stocked = record {
  holds = booted_lem.0.holds;
  queued_live = booted_lem.0.queued_live;
  small = booted_lem.0.small;
}

-- Task 20 with priority 3, task 21 with priority 5.
abbrev one_task : Queues
one_task = update idle_queue 3 (idle_queue 3 ++ 20 ∷ [])

abbrev pub two_tasks : Queues
two_tasks = update one_task 5 (one_task 5 ++ 21 ∷ [])

pub make_first :
    (k' : Kernel) × Created (idle_task ∷ []) booted k' idle_queue 20 (new_block none 100 7 3)
make_first =
    let (k', run, c) =
      os_task_create_lem 9 (idle_task ∷ []) booted idle_queue 20 none 100 7 3 booted-Stocked refl
        (λ e. ground arith) hundred (omega arith) (omega (arith, booted_lem.1)) (omega arith) in
    (k', c)

abbrev pub live : List TaskPtr
live = 21 ∷ 20 ∷ idle_task ∷ []

pub make_second :
    (k' : Kernel) × Populated live k' two_tasks
    × ((k'.tcb 21).priority ≡ 5)
    × ((k'.tcb 20).priority ≡ 3)
    × ((k'.tcb 20).base_priority ≡ 3)
    × ((k'.tcb 21).base_priority ≡ 5)
unfolding fresh_tcb
make_second =
    let (k1, c1) = make_first in
    let (k2, run, c2) =
      os_task_create_lem 9 (20 ∷ idle_task ∷ []) k1 one_task 21 none 100 7 5 c1.stocked refl
        (λ e. ground arith) hundred (omega arith) (omega (arith, c1.counted, booted_lem.1))
        (omega arith) in
    (
      k2,
      Stocked-Populated live k2 two_tasks c2.stocked refl,
      ap (λ (c : Tcb). c.priority) c2.block,
      ap (λ (c : Tcb). c.priority) (c2.others 20 (λ e. ground arith) ∙ c1.block),
      ap (λ (c : Tcb). c.base_priority) (c2.others 20 (λ e. ground arith) ∙ c1.block),
      ap (λ (c : Tcb). c.base_priority) c2.block,
    )

abbrev pub loaded : Kernel
loaded = make_second.0

pub loaded-Populated : Populated live loaded two_tasks
loaded-Populated = make_second.1

abbrev pub system : Kernel
system = os_start loaded

-- Task 20 is chosen: task 21 waits.
abbrev pub waiting : Queues
waiting = update two_tasks 3 []

pub Chosen-first : (c : TaskPtr) (q' : Queues) → Chosen two_tasks c q' → (c ≡ 20) × (q' ≡ waiting)
Chosen-first c q' (first p ts lt e least same) =
    let at : p ≡ 3 = ground (arith, e, least 3) in
    let e' : 20 ∷ [] ≡ c ∷ ts = rw at at e in
    let same' : q' ≡ update two_tasks 3 ts = rw at at same in (ground arith, cc)
Chosen-first c q' (idle empty e same) = absurd (ground (arith, empty 3))

pub system_lem :
    Sound live system waiting
    × (system.scheduler_running ≡ true)
    × (system.current_task ≡ 20)
    × ((system.tcb 20).state ≡ running)
    × ((system.tcb 21).priority ≡ 5)
    × ((system.tcb 20).priority ≡ 3)
    × ((system.tcb 20).base_priority ≡ 3)
    × ((system.tcb 21).base_priority ≡ 5)
system_lem =
    let (k2, p, p21, p20, b20, b21) = make_second in
    let (q', sound, chosen, runs, on) = os_start_lem live loaded two_tasks loaded-Populated in
    let (cur, same) = Chosen-first (os_start loaded).current_task q' chosen in
    let at20 = os_start-priorities live loaded two_tasks 20 loaded-Populated in
    let at21 = os_start-priorities live loaded two_tasks 21 loaded-Populated in
    (
      rw same at sound,
      on,
      cur,
      rw cur at runs,
      at21.0 ∙ p21,
      at20.0 ∙ p20,
      at20.1 ∙ b20,
      at21.1 ∙ b21,
    )

pub on : system.scheduler_running ≡ true
on = system_lem.1

pub not_running : 21 ≢ system.current_task
not_running e = ground (arith, system_lem.2)
