-- ===== src/Kernel/Priority/Order.antt =====
-- The priority calls: the task moves to the end of the queue of its new priority, and the processor
-- goes to the task that outranks the others.
use tinyos_rtos.Prelude.{
  ℕ, ◌≤◌, ◌<◌, ◌≡◌, ◌≢◌, ◌∙◌, refl, true, false, some, List, [], ◌∷◌, ◌++◌, arith, update, length,
  has, inl, inr, Bool-cases, ap, if◌then◌else◌,
}
use tinyos_rtos.Links.{null}
use tinyos_rtos.Links.Unlink.{erase, length-erase}
use tinyos_rtos.Kernel.{Kernel, TaskPtr, Tcb, ready, is_ready, set_tcb}
use tinyos_rtos.Kernel.Queue.Valid.{Queues, Holds-frame, Frame-priority}
use tinyos_rtos.Kernel.Queue.Add.{Files, scheduler_add_ready_task_lem}
use tinyos_rtos.Kernel.Queue.Take.{Takes}
use tinyos_rtos.Kernel.Queue.Remove.{scheduler_remove_task_lem}
use tinyos_rtos.Kernel.Sched.Sound.{Sound, length-queue}
use tinyos_rtos.Kernel.Tasks.Stop.{without, without_self, without-mem}
use tinyos_rtos.Kernel.Tasks.Resume.{entered_Sound}
use tinyos_rtos.Kernel.Priority.{requeue_with}

-- The queues with a task moved to the end of the queue of priority `new`.
abbrev pub moved : Kernel → Queues → TaskPtr → ℕ → Queues
moved k q t new = update (without k q t) new (without k q t new ++ t ∷ [])

-- Only a READY task stands in a queue.
abbrev pub moved_if_ready : Kernel → Queues → TaskPtr → ℕ → Queues
moved_if_ready k q t new = if is_ready (k.tcb t).state then moved k q t new else q

-- The task with its new priorities.
abbrev pub repriced : Kernel → TaskPtr → ℕ → ℕ → Kernel
repriced k t new base = set_tcb k t (record (k.tcb t) { priority = new; base_priority = base })

-- What a change of priority does before the processor may pass on.
pub record Reprices (live : List TaskPtr) (k k' : Kernel) (q : Queues) (t : TaskPtr) (new base : ℕ)
    : Type 0 where
  pub sound : Sound live k' (moved_if_ready k q t new)
  pub priority : (k'.tcb t).priority ≡ new
  pub base_priority : (k'.tcb t).base_priority ≡ base
  pub others : (y : TaskPtr) → y ≢ t → (k'.tcb y).priority ≡ (k.tcb y).priority
  pub states : (y : TaskPtr) → (k'.tcb y).state ≡ (k.tcb y).state
  pub current : k'.current_task ≡ k.current_task
  pub on : k'.scheduler_running ≡ k.scheduler_running

module _ (fuel : ℕ) (live : List TaskPtr) (k : Kernel) (q : Queues) (t : TaskPtr) (new base : ℕ)
    (s : Sound live k q) (is : has t live ≡ true) (enough : length live ≤ fuel) (real : t ≢ null)
    (small : new < 256) where
  -- A task that is not READY stands in no queue.
  requeue_waiting :
      is_ready (k.tcb t).state ≡ false → Reprices live k (repriced k t new base) q t new base
  requeue_waiting waits =
      let out =
        λ (j y : ℕ) (lt : j < 256) (i : has y (q j) ≡ true). s.populated.holds.filed j y lt i in
      record {
        sound = rw waits (record {
          populated = record {
            holds =
                Holds-frame k _ q (λ j. refl) (λ w. refl) (λ j y lt i. ground (arith, out j y lt i))
                  s.populated.holds;
            queued_live = s.populated.queued_live;
            idle_live = s.populated.idle_live;
            small = λ y i. ground (arith, s.populated.small y i);
          };
          current_live = s.current_live;
          current_real = s.current_real;
          current_out = s.current_out;
        });
        priority = ground arith;
        base_priority = ground arith;
        others = λ y n. ground arith;
        states = λ y. ground arith;
        current = refl;
        on = refl;
      }

  -- Between the two queue operations.
  requeue_out :
      (k1 : Kernel)
      → Takes k k1 q (k.tcb t).priority (erase t (q (k.tcb t).priority))
      → Sound live (repriced k1 t new base) (without k q t)
  requeue_out k1 takes =
      let lt = s.populated.small t is in
      let same = takes.frame.current_task in
      record {
        populated = record {
          holds =
              Holds-frame k1 _ (without k q t) (λ j. refl) (λ w. refl)
                (λ j y lj i. ground (arith, without_self k q t j s.populated.holds lt lj))
                takes.holds;
          queued_live = λ j y lj i. s.populated.queued_live j y lj (without-mem k q t j y i);
          idle_live = s.populated.idle_live;
          small = λ y i. ground (arith, Frame-priority takes.frame y, s.populated.small y i);
        };
        current_live = rw same s.current_live;
        current_real = rw same s.current_real;
        current_out = λ j lj.
            rw same (ground (arith, s.current_out j lj, without-mem k q t j k.current_task));
      }

  requeue_length : length (without k q t new) ≤ fuel
  requeue_length = ground (
    arith,
    length-erase t (q (k.tcb t).priority),
    length-queue live k q (k.tcb t).priority s (s.populated.small t is),
    length-queue live k q new s small,
  )

  -- Behind them.
  requeue_back :
      (k1 k3 : Kernel)
      → (k.tcb t).state ≡ ready
      → t ≢ k.current_task
      → Takes k k1 q (k.tcb t).priority (erase t (q (k.tcb t).priority))
      → Files (repriced k1 t new base) k3 (without k q t) new t
      → Reprices live k k3 q t new base
  requeue_back k1 k3 waits other takes files = record {
    sound = rw waits (
        entered_Sound live (repriced k1 t new base) k3 (without k q t) t new (requeue_out k1 takes)
          is (λ e. other (e ∙ takes.frame.current_task)) files);
    priority = ground (arith, files.frame.tasks t);
    base_priority = ground (arith, files.frame.tasks t);
    others = λ y n. ground (arith, files.frame.tasks y, Frame-priority takes.frame y);
    states = λ y. ground (arith, files.entered, files.others y, takes.states y);
    current = files.frame.current_task ∙ takes.frame.current_task;
    on = files.frame.scheduler_running ∙ takes.frame.scheduler_running;
  }

  -- A change that gives the task its new priorities, the base priority perhaps the old one.
  abbrev Changes : (Kernel → Kernel) → Type 0
  Changes change =
      (k1 : Kernel)
      → (k1.tcb t).base_priority ≡ (k.tcb t).base_priority
      → change k1 ≡ repriced k1 t new base

  requeue_ready :
      (change : Kernel → Kernel)
      → Changes change
      → (k.tcb t).state ≡ ready
      → t ≢ k.current_task
      → (k' : Kernel) × (requeue_with fuel change k t ≡ some k') × Reprices live k k' q t new base
  unfolding requeue_with
  requeue_ready change is_change waits other =
      let p = (k.tcb t).priority in
      let lt = s.populated.small t is in
      let v = s.populated.holds in
      let (k1, run, takes, _) =
        scheduler_remove_task_lem fuel k q t p v lt refl
          (omega (arith, length-queue live k q p s lt)) in
      let k2 = repriced k1 t new base in
      let same : change k1 ≡ k2 =
        is_change k1 (ap (λ (c : Tcb). c.base_priority) (takes.frame.tasks t)) in
      let state2 : is_ready (k2.tcb t).state ≡ true = ground (arith, takes.states t) in
      let (k3, run3, files) =
        scheduler_add_ready_task_lem fuel k2 (without k q t) t new
          (requeue_out k1 takes).populated.holds small (ground arith) real
          (without_self k q t new v lt small) requeue_length in
      (k3, rw (waits, run, same, state2) run3, requeue_back k1 k3 waits other takes files)

  pub requeue_with_lem :
      (change : Kernel → Kernel)
      → Changes change
      → ((k.tcb t).state ≡ ready → t ≢ k.current_task)
      → (k' : Kernel) × (requeue_with fuel change k t ≡ some k') × Reprices live k k' q t new base
  unfolding requeue_with
  requeue_with_lem change is_change apart = elim (Bool-cases (is_ready (k.tcb t).state)) [
    | inl waits ↦
        let e : (k.tcb t).state ≡ ready = ground arith in requeue_ready change is_change e (apart e)
    | inr waits ↦
        let same = is_change k refl in
        let state2 : is_ready ((repriced k t new base).tcb t).state ≡ false = ground arith in
        (repriced k t new base, rw (waits, same, state2), requeue_waiting waits)
  ]
