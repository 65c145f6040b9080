-- ===== src/Kernel/Priority/Calls.antt =====
-- The three calls that change a priority, and when the processor passes on.
use tinyos_rtos.Prelude.{
  sym, ℕ, ◌≤◌, ◌<◌, ◌≡◌, ◌≢◌, ◌∙◌, refl, true, false, Bool, some, List, arith, ◌==◌, length, has,
  inl, inr, Bool-cases, ne→==, ==→eq, if◌then◌else◌, ◌&&◌, ltb,
}
use tinyos_rtos.Links.{null}
use tinyos_rtos.Kernel.{set_priority, OsError, Kernel, TaskPtr, Stacks, ok, ready}
use tinyos_rtos.Kernel.Queue.Valid.{Queues}
use tinyos_rtos.Kernel.Sched.Sound.{Sound}
use tinyos_rtos.Kernel.Sched.Tick.{os_task_yield_lem}
use tinyos_rtos.Kernel.Tasks.{yield_ok}
use tinyos_rtos.Kernel.Priority.Order.{Reprices, requeue_with_lem, repriced, moved_if_ready}
use tinyos_rtos.Kernel.Priority.{
  leb, os_task_reset_priority, os_task_raise_priority, not, Option, yield_if_outranked,
  os_task_set_priority,
}

-- How a call ends: with a yield if `test` holds, else at once; in either case on a sound kernel.
pub record Ends (fuel : ℕ) (context_switch : TaskPtr → TaskPtr → Stacks → Stacks)
    (live : List TaskPtr) (test : Bool) (k2 : Kernel) (out : Option (OsError × Kernel))
    : Type 0 where
  pub ends : out ≡ (if test then yield_ok fuel context_switch k2 else some (ok, k2))
  pub last : Kernel
  pub queues : Queues
  pub returns : out ≡ some (ok, last)
  pub sound : Sound live last queues

module _ (fuel : ℕ) (context_switch : TaskPtr → TaskPtr → Stacks → Stacks) (live : List TaskPtr)
    (enough : length live ≤ fuel) where
  ended :
      (test : Bool) (k2 : Kernel) (q2 : Queues)
      → Sound live k2 q2
      → k2.scheduler_running ≡ true
      → Ends fuel context_switch live test k2
          (if test then yield_ok fuel context_switch k2 else some (ok, k2))
  unfolding yield_ok
  ended false k2 q2 s on = record { ends = refl; last = k2; queues = q2; returns = refl; sound = s }
  ended true k2 q2 s on =
      let (k', q', run, sound, _, _) =
        os_task_yield_lem fuel context_switch live k2 q2 s enough on in
      record { ends = refl; last = k'; queues = q'; returns = rw run; sound = sound }

  set_goes :
      (k k2 : Kernel) (q : Queues) (t : TaskPtr) (new base : ℕ)
      → Reprices live k k2 q t new base
      → k.current_task ≢ null
      → (if t == k2.current_task && ltb (k.tcb t).priority new
          then yield_ok fuel context_switch k2
          else yield_if_outranked fuel context_switch new k2)
        ≡ (if if t == k.current_task
              then ltb (k.tcb t).priority new
              else ltb new (k.tcb k.current_task).priority
            then yield_ok fuel context_switch k2
            else some (ok, k2))
  unfolding yield_if_outranked
  set_goes k k2 q t new base r real = elim (Bool-cases (t == k.current_task)) [
    | inl own ↦
        let e : t ≡ k.current_task = ==→eq _ _ own in
        rw (r.current, own) (ground (arith, r.priority))
    | inr other ↦ rw (r.current, other) (ground (arith, r.others k.current_task))
  ]

  -- A new priority for a live task: it moves to the end of the queue of that priority if it is READY,
  -- the base priority follows, and the processor passes on exactly if the running task lowers itself,
  -- or the new priority outranks the running task's.
  pub os_task_set_priority_lem :
      (k : Kernel) (q : Queues) (t : TaskPtr) (new : ℕ)
      → Sound live k q
      → k.scheduler_running ≡ true
      → has t live ≡ true
      → t ≢ null
      → new < 256
      → new ≢ (k.tcb t).priority
      → ((k.tcb t).state ≡ ready → t ≢ k.current_task)
      → (k2 : Kernel) × Reprices live k k2 q t new new
        × Ends fuel context_switch live
            (if t == k.current_task
              then ltb (k.tcb t).priority new
              else ltb new (k.tcb k.current_task).priority)
            k2
            (os_task_set_priority fuel context_switch k t new)
  unfolding os_task_set_priority yield_if_outranked
  os_task_set_priority_lem k q t new s on is real small ne apart =
      let (k2, run, r) =
        requeue_with_lem fuel live k q t new new s is enough real small
          (λ k1. repriced k1 t new new) (λ k1 e. refl) apart in
      let test =
        if t == k.current_task
        then ltb (k.tcb t).priority new
        else ltb new (k.tcb k.current_task).priority in
      let goes : os_task_set_priority fuel context_switch k t new
          ≡ (if test then yield_ok fuel context_switch k2 else some (ok, k2)) =
        rw (ne→== t null real, ne→== new _ ne, run) (set_goes k k2 q t new new r s.current_real) in
      (k2, r, rw goes (ended test k2 (moved_if_ready k q t new) r.sound (r.on ∙ on)))

  raise_goes :
      (k k2 : Kernel) (q : Queues) (t : TaskPtr) (new base : ℕ)
      → Reprices live k k2 q t new base
      → k.current_task ≢ null
      → yield_if_outranked fuel context_switch new k2 ≡ (
          if not (t == k.current_task) && ltb new (k.tcb k.current_task).priority
          then yield_ok fuel context_switch k2
          else some (ok, k2))
  unfolding yield_if_outranked
  raise_goes k k2 q t new base r real = elim (Bool-cases (t == k.current_task)) [
    | inl own ↦
        let e : t ≡ k.current_task = ==→eq _ _ own in
        rw (r.current, own) (ground (arith, r.priority))
    | inr other ↦ rw (r.current, other) (ground (arith, r.others k.current_task))
  ]

  -- A priority that is not higher leaves the task alone. A higher one moves the task, keeps its base
  -- priority, and passes the processor on exactly if the task is not the running one and now outranks
  -- it.
  pub os_task_raise_priority_lem :
      (k : Kernel) (q : Queues) (t : TaskPtr) (new : ℕ)
      → Sound live k q
      → k.scheduler_running ≡ true
      → has t live ≡ true
      → t ≢ null
      → ((k.tcb t).state ≡ ready → t ≢ k.current_task)
      → ((k.tcb t).priority ≤ new
          → os_task_raise_priority fuel context_switch k t new ≡ some (ok, k))
        × (new < (k.tcb t).priority
            → (k2 : Kernel) × Reprices live k k2 q t new (k.tcb t).base_priority
              × Ends fuel context_switch live
                  (not (t == k.current_task) && ltb new (k.tcb k.current_task).priority)
                  k2
                  (os_task_raise_priority fuel context_switch k t new))
  unfolding os_task_raise_priority
  os_task_raise_priority_lem k q t new s on is real apart = (
    λ above. ground arith,
    λ below.
        let lt : new < 256 = omega (arith, s.populated.small t is) in
        let (k2, run, r) =
          requeue_with_lem fuel live k q t new (k.tcb t).base_priority s is enough real lt
            (λ k1. set_priority k1 t new) (λ k1 e. rw (sym e)) apart in
        let test = not (t == k.current_task) && ltb new (k.tcb k.current_task).priority in
        let higher : leb (k.tcb t).priority new ≡ false = ground arith in
        let goes : os_task_raise_priority fuel context_switch k t new
            ≡ (if test then yield_ok fuel context_switch k2 else some (ok, k2)) =
          rw (ne→== t null real, higher, run)
            (raise_goes k k2 q t new (k.tcb t).base_priority r s.current_real) in
        (k2, r, rw goes (ended test k2 (moved_if_ready k q t new) r.sound (r.on ∙ on))),
  )

  -- The base priority comes back; the processor passes on exactly if the running task lowers itself.
  pub os_task_reset_priority_lem :
      (k : Kernel) (q : Queues) (t : TaskPtr)
      → Sound live k q
      → k.scheduler_running ≡ true
      → has t live ≡ true
      → t ≢ null
      → (k.tcb t).base_priority < 256
      → ((k.tcb t).state ≡ ready → t ≢ k.current_task)
      → (k2 : Kernel) × Reprices live k k2 q t (k.tcb t).base_priority (k.tcb t).base_priority
        × Ends fuel context_switch live
            (t == k.current_task && ltb (k.tcb t).priority (k.tcb t).base_priority)
            k2
            (os_task_reset_priority fuel context_switch k t)
  unfolding os_task_reset_priority
  os_task_reset_priority_lem k q t s on is real small apart =
      let base = (k.tcb t).base_priority in
      let (k2, run, r) =
        requeue_with_lem fuel live k q t base base s is enough real small
          (λ k1. set_priority k1 t (k1.tcb t).base_priority) (λ k1 e. rw (sym e)) apart in
      let test = t == k.current_task && ltb (k.tcb t).priority base in
      let goes : os_task_reset_priority fuel context_switch k t
          ≡ (if test then yield_ok fuel context_switch k2 else some (ok, k2)) =
        rw (ne→== t null real, run, r.current, r.priority) refl in
      (k2, r, rw goes (ended test k2 (moved_if_ready k q t base) r.sound (r.on ∙ on)))

  -- A task other than the running one, raised to a priority that does not outrank the running task,
  -- and reset: both calls succeed without a switch, and the task has its old priorities again if the
  -- old priority was its base priority.
  pub raise_reset :
      (k : Kernel) (q : Queues) (t : TaskPtr) (new : ℕ)
      → Sound live k q
      → k.scheduler_running ≡ true
      → has t live ≡ true
      → t ≢ null
      → t ≢ k.current_task
      → new < (k.tcb t).priority
      → (k.tcb k.current_task).priority ≤ new
      → (k.tcb t).base_priority ≡ (k.tcb t).priority
      → (k1 k2 : Kernel) × (os_task_raise_priority fuel context_switch k t new ≡ some (ok, k1))
        × ((k1.tcb t).priority ≡ new)
        × (os_task_reset_priority fuel context_switch k1 t ≡ some (ok, k2))
        × ((k2.tcb t).priority ≡ (k.tcb t).priority)
        × ((k2.tcb t).base_priority ≡ (k.tcb t).base_priority)
        × Sound live k2 (moved_if_ready k1 (moved_if_ready k q t new) t (k.tcb t).priority)
  raise_reset k q t new s on is real other below calm based =
      let (k1, r1, e1) = (os_task_raise_priority_lem k q t new s on is real (λ _. other)).1 below in
      let apart1 : t ≢ k1.current_task = λ e. other (e ∙ r1.current) in
      let based1 : (k1.tcb t).base_priority ≡ (k.tcb t).priority = r1.base_priority ∙ based in
      let lt : (k1.tcb t).base_priority < 256 = rw based1 (s.populated.small t is) in
      let (k2, r2, e2) =
        os_task_reset_priority_lem k1 (moved_if_ready k q t new) t r1.sound (r1.on ∙ on) is real lt
          (λ _. apart1) in
      (
        k1,
        k2,
        ground (arith, e1.ends),
        r1.priority,
        ground (arith, e2.ends),
        r2.priority ∙ based1,
        r2.base_priority ∙ r1.base_priority,
        rw based1 at r2.sound,
      )
