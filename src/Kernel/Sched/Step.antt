-- ===== src/Kernel/Sched/Step.antt =====
-- What a switch does to the queues and to the running task.
use mathlib.Core.Path.{subst}
use tinyos_rtos.Prelude.{
  sym, ◌∙◌, ℕ, ◌≤◌, ◌<◌, ◌≡◌, ◌≢◌, refl, true, false, List, [], ◌∷◌, ◌++◌, arith, ◌==◌, length, has,
  if◌then◌else◌, update, Bool-cases, inl, inr, some,
}
use tinyos_rtos.Links.{Chain, null}
use tinyos_rtos.Kernel.{
  TaskState, ready, running, next_of, Kernel, TaskPtr, Stacks, idle_task, is_running,
}
use tinyos_rtos.Kernel.Queue.{scheduler_add_ready_task, scheduler_get_next_task}
use tinyos_rtos.Kernel.Queue.Valid.{Queues, Holds, Frame, Holds-keep, Frame-priority}
use tinyos_rtos.Kernel.Queue.Add.{has-append_one, scheduler_add_ready_task_lem}
use tinyos_rtos.Kernel.Queue.Take.{Picks, Outcome, picked, idles, scheduler_get_next_task_lem}
use tinyos_rtos.Kernel.Sched.{dispatch, reschedule}
use tinyos_rtos.Kernel.Sched.Sound.{Populated, Sound, length-queue, taken_out}

-- The queues with the running task, if its state says so, at the end of its own.
unfoldable pub requeued : Kernel → Queues → Queues
requeued k q =
    let t = k.current_task in
    let p = (k.tcb t).priority in
    if is_running (k.tcb t).state then update q p (q p ++ t ∷ []) else q

-- `t` is chosen from `q` and leaves `q'`: it is the first task of the highest priority that has
-- one, or the idle task if there is none.
pub data Chosen (q : Queues) (t : TaskPtr) (q' : Queues) : Type 0 where
  first :
      (p : ℕ) (ts : List TaskPtr)
      → p < 256
      → q p ≡ t ∷ ts
      → ((j : ℕ) → j < p → q j ≡ [])
      → q' ≡ update q p ts
      → Chosen q t q'
  idle : ((p : ℕ) → p < 256 → q p ≡ []) → t ≡ idle_task → q' ≡ q → Chosen q t q'

-- The state of a task once the running task is back in its queue.
abbrev pub settled : Kernel → TaskPtr → TaskState
settled k y =
    if y == k.current_task
    then (if is_running (k.tcb y).state then ready else (k.tcb y).state)
    else (k.tcb y).state

-- The first half: the running task goes back to its queue.
record Requeues (live : List TaskPtr) (k k1 : Kernel) (q : Queues) : Type 0 where
  populated : Populated live k1 (requeued k q)
  frame : Frame k k1
  states : (y : TaskPtr) → (k1.tcb y).state ≡ settled k y

module _ (fuel : ℕ) (live : List TaskPtr) (k : Kernel) (q : Queues) (s : Sound live k q)
    (enough : length live ≤ fuel) where
  requeued_live :
      (p j y : ℕ)
      → j < 256
      → has y (update q p (q p ++ k.current_task ∷ []) j) ≡ true
      → has y live ≡ true
  requeued_live p j y lt i = elim (Bool-cases (j == p)) [
    | inr e ↦ let i' : has y (q j) ≡ true = rw e at i in s.populated.queued_live j y lt i'
    | inl e ↦
        let i' : has y (q p ++ k.current_task ∷ []) ≡ true = rw e at i in
        elim (has-append_one y k.current_task (q p) i') [
          | inl same ↦ rw same s.current_live
          | inr old ↦ s.populated.queued_live p y (ground arith) old
        ]
  ]

  requeue :
      (k1 : Kernel) × ((if is_running (k.tcb k.current_task).state
          then scheduler_add_ready_task fuel k k.current_task
          else some k)
        ≡ some k1)
      × Requeues live k k1 q
  unfolding requeued
  requeue = elim (Bool-cases (is_running (k.tcb k.current_task).state)) [
    | inr still ↦ (
      k,
      rw still,
      record { populated = rw still s.populated; frame = ground arith; states = λ y. ground arith },
    )
    | inl runs ↦
        let t = k.current_task in
        let lt = s.populated.small t s.current_live in
        let (k1, run, files) =
          scheduler_add_ready_task_lem fuel k q t (k.tcb t).priority s.populated.holds lt refl
            s.current_real (s.current_out (k.tcb t).priority lt)
            (omega (arith, length-queue live k q (k.tcb t).priority s lt)) in
        (
          k1,
          rw runs run,
          record {
            populated = rw runs (record {
              holds = files.holds;
              queued_live = requeued_live (k.tcb t).priority;
              idle_live = s.populated.idle_live;
              small = λ y i. rw (Frame-priority files.frame y) (s.populated.small y i);
            });
            frame = files.frame;
            states = λ y. ground (arith, files.others y, files.entered);
          },
        )
  ]

-- The second half: the next task is taken and made the running one.
module _ (context_switch : TaskPtr → TaskPtr → Stacks → Stacks) where
  dispatch-current : (r : TaskPtr × Kernel) → (dispatch context_switch r).current_task ≡ r.0
  unfolding dispatch
  dispatch-current (t, k) = ground arith

  -- Only the new running task's state changes, and no link and no priority.
  dispatch-Holds :
      (t : TaskPtr) (k : Kernel) (q : Queues)
      → Holds k q
      → ((p : ℕ) → p < 256 → has t (q p) ≡ false)
      → Holds (dispatch context_switch (t, k)) q
  unfolding dispatch
  dispatch-Holds t k q v out =
      Holds-keep k _ q (λ p. ground arith) (λ w. ground arith) (λ y. ground arith)
        (λ y. ground arith) (λ p y lt i. ground (arith, out p lt)) v

  -- The other tasks keep their state; so does the new task if it was running already.
  dispatch-rest :
      (t : TaskPtr) (k : Kernel)
      → let k' = dispatch context_switch (t, k) in
        (k'.tick_count ≡ k.tick_count)
        × (k'.scheduler_running ≡ k.scheduler_running)
        × ((y : TaskPtr) → y ≢ t → (k'.tcb y).state ≡ (k.tcb y).state)
        × (t ≡ k.current_task → (k'.tcb t).state ≡ (k.tcb t).state)
        × (t ≢ k.current_task → (k'.tcb t).state ≡ running)
  unfolding dispatch
  dispatch-rest t k =
      (ground arith, ground arith, λ y n. ground arith, λ e. ground arith, λ n. ground arith)

  dispatch-priority :
      (t y : TaskPtr) (k : Kernel)
      → ((dispatch context_switch (t, k)).tcb y).priority ≡ (k.tcb y).priority
  unfolding dispatch
  dispatch-priority t y k = ground arith

  dispatch-Sound :
      (live : List TaskPtr) (t : TaskPtr) (k : Kernel) (q : Queues)
      → Populated live k q
      → has t live ≡ true
      → t ≢ null
      → ((p : ℕ) → p < 256 → has t (q p) ≡ false)
      → Sound live (dispatch context_switch (t, k)) q
  dispatch-Sound live t k q s is real out = record {
    populated = record {
      holds = dispatch-Holds t k q s.holds out;
      queued_live = s.queued_live;
      idle_live = s.idle_live;
      small = λ y i. rw (dispatch-priority t y k) (s.small y i);
    };
    current_live = rw (dispatch-current (t, k)) is;
    current_real = rw (dispatch-current (t, k)) real;
    current_out = λ p lt. rw (dispatch-current (t, k)) (out p lt);
  }

  picked-Sound :
      (live : List TaskPtr) (k k' : Kernel) (q : Queues) (t : TaskPtr)
      → Populated live k q
      → (c : Picks k q (t, k'))
      → Sound live (dispatch context_switch (t, k')) (update q c.priority c.rest)
  picked-Sound live k k' q t s c =
      let chain : Chain (next_of k) (k.ready_queue c.priority) (t ∷ c.rest) =
        rw c.queue at (s.holds.linked c.priority c.small) in
      let head : has t (q c.priority) ≡ true = rw c.queue (ground arith) in
      dispatch-Sound live t k' (update q c.priority c.rest)
        (record {
          holds = c.takes.holds;
          queued_live = λ j y lt i. elim (Bool-cases (j == c.priority)) [
            | inl e ↦
                let i' : has y c.rest ≡ true = rw e at i in
                s.queued_live c.priority y c.small (rw c.queue (ground arith))
            | inr e ↦ let i' : has y (q j) ≡ true = rw e at i in s.queued_live j y lt i'
          ];
          idle_live = s.idle_live;
          small = λ y i. rw (Frame-priority c.takes.frame y) (s.small y i);
        })
        (s.queued_live c.priority t c.small head) chain.1
        (λ p lt. taken_out k q c.priority p t c.rest s.holds c.small lt c.queue)

  idles-Sound :
      (live : List TaskPtr) (k : Kernel) (q : Queues)
      → Populated live k q
      → ((p : ℕ) → p < 256 → q p ≡ [])
      → Sound live (dispatch context_switch (idle_task, k)) q
  idles-Sound live k q s none_left =
      dispatch-Sound live idle_task k q s s.idle_live (omega arith)
        (λ p lt. rw (none_left p lt) refl)

  -- Together, on queues from which the next task is taken.
  dispatch_lem :
      (live : List TaskPtr) (k : Kernel) (q : Queues) (r : TaskPtr × Kernel)
      → Populated live k q
      → Outcome k q r
      → (q' : Queues) × Sound live (dispatch context_switch r) q'
        × Chosen q (dispatch context_switch r).current_task q'
  dispatch_lem live k q (t, k') s (picked c) = (
    update q c.priority c.rest,
    picked-Sound live k k' q t s c,
    first c.priority c.rest c.small (rw (dispatch-current (t, k')) c.queue) c.least refl,
  )
  dispatch_lem live k q r s (idles none_left e) =
      rw e
        (q, idles-Sound live k q s none_left, idle none_left (dispatch-current (idle_task, k)) refl)

-- Taking the next task changes links alone.
Outcome-rest :
    (k : Kernel) (q : Queues) (r : TaskPtr × Kernel)
    → Outcome k q r
    → Frame k r.1 × ((y : TaskPtr) → (r.1.tcb y).state ≡ (k.tcb y).state)
Outcome-rest k q r (picked c) = (c.takes.frame, c.takes.states)
Outcome-rest k q r (idles none_left e) = rw e (ground arith, λ y. refl)

-- What a switch does besides the queues.
pub record Switched (k k' : Kernel) : Type 0 where
  pub tick : k'.tick_count ≡ k.tick_count
  pub on : k'.scheduler_running ≡ k.scheduler_running
  pub others : (y : TaskPtr) → y ≢ k'.current_task → (k'.tcb y).state ≡ settled k y
  pub kept :
      k'.current_task ≡ k.current_task → (k'.tcb k.current_task).state ≡ settled k k.current_task
  pub entered : k'.current_task ≢ k.current_task → (k'.tcb k'.current_task).state ≡ running

Switched-of :
    (context_switch : TaskPtr → TaskPtr → Stacks → Stacks) (live : List TaskPtr) (k k1 : Kernel)
    (q : Queues) (r : TaskPtr × Kernel)
    → Requeues live k k1 q
    → Frame k1 r.1
    → ((y : TaskPtr) → (r.1.tcb y).state ≡ (k1.tcb y).state)
    → Switched k (dispatch context_switch r)
Switched-of context_switch live k k1 q (t, k2) re frame states =
    let (tick, on, others, kept, entered) = dispatch-rest context_switch t k2 in
    let cur = dispatch-current context_switch (t, k2) in
    let before : k2.current_task ≡ k.current_task = frame.current_task ∙ re.frame.current_task in
    record {
      tick = tick ∙ frame.tick_count ∙ re.frame.tick_count;
      on = on ∙ frame.scheduler_running ∙ re.frame.scheduler_running;
      others = λ y n. others y (λ e. n (e ∙ sym cur)) ∙ states y ∙ re.states y;
      kept = λ e.
          let same : t ≡ k.current_task = sym cur ∙ e in
          subst (λ z. ((dispatch context_switch (t, k2)).tcb z).state ≡ settled k z) same
            (kept (same ∙ sym before) ∙ states t ∙ re.states t);
      entered = λ n. rw cur (entered (λ e. n (cur ∙ e ∙ before)));
    }

-- At the end of a slice the running task goes, if its state is RUNNING, to the end of the queue of
-- its priority, and the first task of the highest priority that has one becomes the running task
-- (the idle task if there is none). The call returns if the fuel covers the live tasks.
pub reschedule_lem :
    (fuel : ℕ) (context_switch : TaskPtr → TaskPtr → Stacks → Stacks) (live : List TaskPtr)
    (k : Kernel) (q : Queues)
    → Sound live k q
    → length live ≤ fuel
    → (k' : Kernel) × (q' : Queues) × (reschedule fuel context_switch k ≡ some k')
      × Sound live k' q'
      × Chosen (requeued k q) k'.current_task q'
      × Switched k k'
unfolding reschedule
reschedule_lem fuel context_switch live k q s enough =
    let (k1, run, re) = requeue fuel live k q s enough in
    let outcome = scheduler_get_next_task_lem k1 (requeued k q) re.populated.holds in
    let (q', sound, chosen) =
      dispatch_lem context_switch live k1 (requeued k q) (scheduler_get_next_task k1) re.populated
        outcome in
    let (frame, states) = Outcome-rest k1 (requeued k q) (scheduler_get_next_task k1) outcome in
    (
      dispatch context_switch (scheduler_get_next_task k1),
      q',
      rw run,
      sound,
      chosen,
      Switched-of context_switch live k k1 q (scheduler_get_next_task k1) re frame states,
    )
