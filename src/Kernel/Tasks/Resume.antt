-- ===== src/Kernel/Tasks/Resume.antt =====
-- `os_task_resume`, and a task suspended and resumed.
use mathlib.Core.Path.{subst}
use tinyos_rtos.Prelude.{
  ℕ, ◌≤◌, ◌<◌, ◌≡◌, ◌≢◌, ◌∙◌, refl, true, false, some, List, [], ◌∷◌, ◌++◌, arith, ◌==◌, update,
  length, has, inl, inr, Bool-cases, ne→==, ==→eq, ◌⊎◌,
}
use tinyos_rtos.Links.{null}
use tinyos_rtos.Links.Unlink.{erase}
use tinyos_rtos.Kernel.{Kernel, TaskPtr, Stacks, ok, ready, suspended}
use tinyos_rtos.Kernel.Queue.Valid.{Queues, Frame-priority}
use tinyos_rtos.Kernel.Queue.Add.{Files, scheduler_add_ready_task_lem, has-append_one}
use tinyos_rtos.Kernel.Sched.Sound.{Sound, length-queue}
use tinyos_rtos.Kernel.Tasks.Stop.{without, os_task_suspend_lem}
use tinyos_rtos.Kernel.Tasks.{os_task_suspend, os_task_resume}

entered_queue :
    (q : Queues) (p t y j : ℕ)
    → has y (update q p (q p ++ t ∷ []) j) ≡ true
    → (y ≡ t) ⊎ (has y (q j) ≡ true)
entered_queue q p t y j i = elim (Bool-cases (j == p)) [
  | inr e ↦ inr (rw e at i)
  | inl e ↦
      let i' : has y (q p ++ t ∷ []) ≡ true = rw e at i in
      rw (==→eq _ _ e) (has-append_one y t (q p) i')
]

-- The state that the scheduler keeps, with one more task in its queue.
pub entered_Sound :
    (live : List TaskPtr) (k k' : Kernel) (q : Queues) (t : TaskPtr) (p : ℕ)
    → Sound live k q
    → has t live ≡ true
    → t ≢ k.current_task
    → Files k k' q p t
    → Sound live k' (update q p (q p ++ t ∷ []))
entered_Sound live k k' q t p s is other files =
    let entered =
      λ (j y : ℕ) (i : has y (update q p (q p ++ t ∷ []) j) ≡ true). entered_queue q p t y j i in
    record {
      populated = record {
        holds = files.holds;
        queued_live = λ j y lt i. elim (entered j y i) [
          | inl same ↦ rw same is
          | inr old ↦ s.populated.queued_live j y lt old
        ];
        idle_live = s.populated.idle_live;
        small = λ y i. rw (Frame-priority files.frame y) (s.populated.small y i);
      };
      current_live = rw files.frame.current_task s.current_live;
      current_real = rw files.frame.current_task s.current_real;
      current_out = λ j lt.
          rw files.frame.current_task
            (ground (arith, entered j k.current_task, s.current_out j lt));
    }

-- A suspended task that waits in no queue, resumed: it is READY at the end of the queue of its
-- priority, and the running task keeps the processor.
pub os_task_resume_lem :
    (fuel : ℕ) (live : List TaskPtr) (k : Kernel) (q : Queues) (t : TaskPtr)
    → Sound live k q
    → has t live ≡ true
    → length live ≤ fuel
    → t ≢ null
    → t ≢ k.current_task
    → ((j : ℕ) → j < 256 → has t (q j) ≡ false)
    → (k.tcb t).state ≡ suspended
    → (k' : Kernel) × (os_task_resume fuel k t ≡ some (ok, k'))
      × Files k k' q (k.tcb t).priority t
      × Sound live k' (update q (k.tcb t).priority (q (k.tcb t).priority ++ t ∷ []))
unfolding os_task_resume
os_task_resume_lem fuel live k q t s is enough real other out waits =
    let p = (k.tcb t).priority in
    let small = s.populated.small t is in
    let (k', run, files) =
      scheduler_add_ready_task_lem fuel k q t p s.populated.holds small refl real (out p small)
        (omega (arith, length-queue live k q p s small)) in
    (
      k',
      rw (ne→== t null real, waits, run) refl,
      files,
      entered_Sound live k k' q t p s is other files,
    )

-- A task other than the running one, suspended and resumed: it is READY again, at the end of the
-- queue of its priority; the other queues and the order of the others in that queue stay, and the
-- running task keeps the processor.
pub suspend_resume :
    (fuel : ℕ) (context_switch : TaskPtr → TaskPtr → Stacks → Stacks) (live : List TaskPtr)
    (k : Kernel) (q : Queues) (t : TaskPtr)
    → Sound live k q
    → k.scheduler_running ≡ true
    → has t live ≡ true
    → length live ≤ fuel
    → t ≢ null
    → t ≢ k.current_task
    → (k1 k2 : Kernel) × (os_task_suspend fuel context_switch k t ≡ some (ok, k1))
      × (os_task_resume fuel k1 t ≡ some (ok, k2))
      × Sound live k2
          (update (without k q t) (k.tcb t).priority (erase t (q (k.tcb t).priority) ++ t ∷ []))
      × ((k2.tcb t).state ≡ ready)
      × (k2.current_task ≡ k.current_task)
suspend_resume fuel context_switch live k q t s on is enough real other =
    let p = (k.tcb t).priority in
    let (k1, run1, w) = os_task_suspend_lem fuel context_switch live k q t s on is enough real in
    let (cur, queues, prio) = w.stays other in
    let sound1 : Sound live k1 (without k q t) = rw queues at w.sound in
    let out1 : (j : ℕ) → j < 256 → has t (without k q t j) ≡ false = rw queues at w.nowhere in
    let (k2, run2, files, sound2) =
      os_task_resume_lem fuel live k1 (without k q t) t sound1 is enough real (λ e. other (e ∙ cur))
        out1 w.state in
    let own : without k q t p ≡ erase t (q p) = ground arith in
    let back = λ (x : ℕ). update (without k q t) x (without k q t x ++ t ∷ []) in
    (
      k1,
      k2,
      run1,
      run2,
      subst (λ (z : List ℕ). Sound live k2 (update (without k q t) p (z ++ t ∷ []))) own
          (subst (λ (x : ℕ). Sound live k2 (back x)) prio sound2),
      files.entered,
      files.frame.current_task ∙ cur,
    )
