-- ===== src/Kernel/Sched/Tick.antt =====
-- `os_scheduler` and `os_task_yield` as a whole.
use tinyos_rtos.Prelude.{
  ℕ, ◌+◌, ◌-◌, ◌≤◌, ◌<◌, ◌≡◌, ◌≢◌, ne→==, refl, true, List, arith, ◌==◌, length, if◌then◌else◌,
  Bool-cases, inl, inr, some, ◌∙◌,
}
use tinyos_rtos.Prelude.Word.{u32}
use tinyos_rtos.Kernel.{running, Kernel, TaskPtr, Stacks, set_time_slice}
use tinyos_rtos.Kernel.Queue.Valid.{Queues, Holds-keep}
use tinyos_rtos.Kernel.Sched.{charge, reschedule, os_scheduler, os_task_yield}
use tinyos_rtos.Kernel.Sched.Sound.{Sound}
use tinyos_rtos.Kernel.Sched.Step.{requeued, Chosen, Switched, settled, reschedule_lem}

-- A change of counters keeps the kernel sound and does not touch what a switch looks at.
Sound-keep :
    (live : List TaskPtr) (k k' : Kernel) (q : Queues)
    → Sound live k q
    → k'.current_task ≡ k.current_task
    → ((p : ℕ) → k'.ready_queue p ≡ k.ready_queue p)
    → ((w : ℕ) → k'.ready_bitmap w ≡ k.ready_bitmap w)
    → ((y : TaskPtr) → (k'.tcb y).next ≡ (k.tcb y).next)
    → ((y : TaskPtr) → (k'.tcb y).priority ≡ (k.tcb y).priority)
    → ((y : TaskPtr) → (k'.tcb y).state ≡ (k.tcb y).state)
    → Sound live k' q
Sound-keep live k k' q s cur heads bits links prios states = record {
  populated = record {
    holds = Holds-keep k k' q heads bits links prios (λ p y lt i. states y) s.populated.holds;
    queued_live = s.populated.queued_live;
    idle_live = s.populated.idle_live;
    small = λ y i. rw (prios y) (s.populated.small y i);
  };
  current_live = rw cur s.current_live;
  current_real = rw cur s.current_real;
  current_out = λ p lt. rw cur (s.current_out p lt);
}

requeued-keep :
    (k k' : Kernel) (q : Queues)
    → k'.current_task ≡ k.current_task
    → ((y : TaskPtr) → (k'.tcb y).priority ≡ (k.tcb y).priority)
    → ((y : TaskPtr) → (k'.tcb y).state ≡ (k.tcb y).state)
    → requeued k' q ≡ requeued k q
unfolding requeued
requeued-keep k k' q cur prios states = rw (cur, prios k.current_task, states k.current_task)

-- The kernel after the counters of a tick.
ticked : Kernel → Kernel
ticked k = charge (record k { tick_count = u32 (k.tick_count + 1) }) k.current_task

ticked-Sound :
    (live : List TaskPtr) (k : Kernel) (q : Queues)
    → Sound live k q
    → Sound live (ticked k) q × (requeued (ticked k) q ≡ requeued k q)
unfolding ticked charge
ticked-Sound live k q s = (
  Sound-keep live k _ q s refl (λ p. refl) (λ w. refl) (λ y. ground arith) (λ y. ground arith)
      (λ y. ground arith),
  requeued-keep k _ q refl (λ y. ground arith) (λ y. ground arith),
)

ticked_rest :
    (k : Kernel)
    → ((ticked k).current_task ≡ k.current_task)
      × ((ticked k).tick_count ≡ u32 (k.tick_count + 1))
      × ((ticked k).scheduler_running ≡ k.scheduler_running)
      × ((y : TaskPtr) → ((ticked k).tcb y).state ≡ (k.tcb y).state)
unfolding ticked charge
ticked_rest k = (refl, refl, refl, λ y. ground arith)

-- What a switch leaves of the states: the running task is READY behind it, unless it was no more
-- RUNNING before, and the new task is RUNNING, unless it is the old one.
pub record Settles (k k' : Kernel) : Type 0 where
  pub on : k'.scheduler_running ≡ k.scheduler_running
  pub others : (y : TaskPtr) → y ≢ k'.current_task → (k'.tcb y).state ≡ settled k y
  pub kept :
      k'.current_task ≡ k.current_task → (k'.tcb k.current_task).state ≡ settled k k.current_task
  pub entered : k'.current_task ≢ k.current_task → (k'.tcb k'.current_task).state ≡ running

ticked-Switched : (k k' : Kernel) → Switched (ticked k) k' → Settles k k'
unfolding ticked charge
ticked-Switched k k' s = record {
  on = s.on;
  others = λ y n. ground (arith, s.others y n);
  kept = λ e. ground (arith, s.kept e);
  entered = s.entered;
}

-- What one call of the scheduler does.
pub record Ticks (live : List TaskPtr) (k k' : Kernel) (q q' : Queues) : Type 0 where
  pub sound : Sound live k' q'
  pub tick : k'.tick_count ≡ u32 (k.tick_count + 1)
  pub goes_on :
      1 < (k.tcb k.current_task).time_slice
      → (k'.current_task ≡ k.current_task)
        × (q' ≡ q)
        × (k'.scheduler_running ≡ k.scheduler_running)
        × ((y : TaskPtr) → (k'.tcb y).state ≡ (k.tcb y).state)
  pub states : (k.tcb k.current_task).time_slice ≤ 1 → Settles k k'
  pub switches : (k.tcb k.current_task).time_slice ≤ 1 → Chosen (requeued k q) k'.current_task q'

module _ (fuel : ℕ) (context_switch : TaskPtr → TaskPtr → Stacks → Stacks) (live : List TaskPtr)
    (k : Kernel) (q : Queues) (s : Sound live k q) (enough : length live ≤ fuel)
    (on : k.scheduler_running ≡ true) where
  -- The tests of the call on a sound kernel.
  os_scheduler_goes : os_scheduler fuel context_switch k ≡ (
      if ((ticked k).tcb k.current_task).time_slice == 0
      then reschedule fuel context_switch (ticked k)
      else some (ticked k))
  unfolding os_scheduler ticked
  os_scheduler_goes = rw on (ground (arith, s.current_real))

  slice-ticked : ((ticked k).tcb k.current_task).time_slice ≡ (k.tcb k.current_task).time_slice - 1
  unfolding ticked charge
  slice-ticked = ground arith

  -- A tick of a running system: the running task goes on while it has more than a tick of its slice
  -- left; otherwise it goes to the end of its queue, and the first task of the highest priority runs.
  pub os_scheduler_lem :
      (k' : Kernel) × (q' : Queues) × (os_scheduler fuel context_switch k ≡ some k')
      × Ticks live k k' q q'
  os_scheduler_lem = elim (Bool-cases (((ticked k).tcb k.current_task).time_slice == 0)) [
    | inl over ↦
        let (sound, same) = ticked-Sound live k q s in
        let (k', q', run, sound', chosen, switched) =
          reschedule_lem fuel context_switch live (ticked k) q sound enough in
        (
          k',
          q',
          os_scheduler_goes ∙ rw over run,
          record {
            sound = sound';
            tick = switched.tick ∙ (ticked_rest k).1;
            goes_on = λ more. absurd (ground (arith, slice-ticked));
            switches = λ less. rw same at chosen;
            states = λ less. ticked-Switched k k' switched;
          },
        )
    | inr more ↦
        let (sound, same) = ticked-Sound live k q s in
        (
          ticked k,
          q,
          os_scheduler_goes ∙ rw more,
          record {
            sound = sound;
            tick = (ticked_rest k).1;
            goes_on = λ m. ((ticked_rest k).0, refl, (ticked_rest k).2, (ticked_rest k).3);
            switches = λ less. absurd (ground (arith, slice-ticked));
            states = λ less. absurd (ground (arith, slice-ticked));
          },
        )
  ]

abbrev spent : Kernel → Kernel
spent k = set_time_slice k k.current_task 0

spent_lem :
    (live : List TaskPtr) (k : Kernel) (q : Queues)
    → Sound live k q
    → Sound live (spent k) q
      × (requeued (spent k) q ≡ requeued k q)
      × (((spent k).tcb k.current_task).time_slice ≤ 1)
spent_lem live k q s = (
  Sound-keep live k (spent k) q s refl (λ p. refl) (λ w. refl) (λ y. ground arith)
      (λ y. ground arith) (λ y. ground arith),
  requeued-keep k (spent k) q refl (λ y. ground arith) (λ y. ground arith),
  ground arith,
)

spent-Settles : (k k' : Kernel) → Settles (spent k) k' → Settles k k'
spent-Settles k k' s = record {
  on = s.on;
  others = λ y n. ground (arith, s.others y n);
  kept = λ e. ground (arith, s.kept e);
  entered = s.entered;
}

-- A yield of a running system is a switch, whatever is left of the slice.
pub os_task_yield_lem :
    (fuel : ℕ) (context_switch : TaskPtr → TaskPtr → Stacks → Stacks) (live : List TaskPtr)
    (k : Kernel) (q : Queues)
    → Sound live k q
    → length live ≤ fuel
    → k.scheduler_running ≡ true
    → (k' : Kernel) × (q' : Queues) × (os_task_yield fuel context_switch k ≡ some k')
      × Sound live k' q'
      × Chosen (requeued k q) k'.current_task q'
      × Settles k k'
unfolding os_task_yield
os_task_yield_lem fuel context_switch live k q s enough on =
    let k0 = set_time_slice k k.current_task 0 in
    let (s0, same, zero_left) = spent_lem live k q s in
    let (k', q', run, ticks) = os_scheduler_lem fuel context_switch live k0 q s0 enough on in
    (
      k',
      q',
      rw (ne→== _ _ s.current_real) run,
      ticks.sound,
      rw same at (ticks.switches zero_left),
      spent-Settles k k' (ticks.states zero_left),
    )
