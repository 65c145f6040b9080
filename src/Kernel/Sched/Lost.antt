-- ===== src/Kernel/Sched/Lost.antt =====
-- A task that keeps the processor across a switch is left READY and in no queue, and the next
-- switch loses it.
use tinyos_rtos.Prelude.{
  ℕ, ◌≤◌, ◌<◌, ◌≡◌, ◌≢◌, ◌∙◌, refl, true, false, Option, some, ◌>>=◌, suc, zero, List, [], ◌∷◌,
  arith, ◌==◌, length, has, Bool-cases, inl, inr,
}
use tinyos_rtos.Kernel.{Kernel, TaskPtr, Stacks, idle_task, ready, running, is_running}
use native.Mathlib.Decide.{dec_lt}
use tinyos_rtos.Kernel.Queue.Add.{has-append_one}
use tinyos_rtos.Kernel.Queue.Valid.{Queues}
use tinyos_rtos.Kernel.Sched.{os_scheduler, os_task_yield}
use tinyos_rtos.Kernel.Sched.Sound.{Sound}
use tinyos_rtos.Kernel.Sched.Step.{requeued, Chosen, first, idle}
use tinyos_rtos.Kernel.Sched.Tick.{Settles, os_scheduler_lem, os_task_yield_lem}

-- With no other task of its priority or a higher one, a running task is chosen again.
module _ (k : Kernel) (q : Queues) (runs : (k.tcb k.current_task).state ≡ running)
    (small : (k.tcb k.current_task).priority < 256)
    (none_above : (j : ℕ) → j ≤ (k.tcb k.current_task).priority → q j ≡ []) where
  requeued_own : requeued k q (k.tcb k.current_task).priority ≡ k.current_task ∷ []
  unfolding requeued
  requeued_own = rw runs (ground (arith, none_above (k.tcb k.current_task).priority))

  requeued_other : (j : ℕ) → j ≢ (k.tcb k.current_task).priority → requeued k q j ≡ q j
  unfolding requeued
  requeued_other j ne = rw runs (ground arith)

  alone_again : (q' : Queues) (t : TaskPtr) → Chosen (requeued k q) t q' → t ≡ k.current_task
  alone_again q' t (first p ts lt e least same) =
      ground
        (arith, requeued_own, requeued_other p, none_above p, least (k.tcb k.current_task).priority)
  alone_again q' t (idle none_left e same) =
      ground (arith, requeued_own, none_left (k.tcb k.current_task).priority)

-- A task that is READY, is not the running one, and waits in no queue.
pub record Lost (live : List TaskPtr) (k : Kernel) (q : Queues) (t : TaskPtr) : Type 0 where
  pub sound : Sound live k q
  pub on : k.scheduler_running ≡ true
  pub waits : (k.tcb t).state ≡ ready
  pub not_current : t ≢ k.current_task
  pub not_idle : t ≢ idle_task
  pub nowhere : (p : ℕ) → p < 256 → has t (q p) ≡ false

requeued_nowhere :
    (k : Kernel) (q : Queues) (t : TaskPtr)
    → t ≢ k.current_task
    → ((p : ℕ) → p < 256 → has t (q p) ≡ false)
    → (p : ℕ) → p < 256
    → has t (requeued k q p) ≡ false
unfolding requeued
requeued_nowhere k q t ne out p lt = elim (Bool-cases (is_running (k.tcb k.current_task).state)) [
  | inr still ↦ rw still (out p lt)
  | inl runs ↦ rw runs (elim (Bool-cases (p == (k.tcb k.current_task).priority)) [
    | inr e ↦ rw e (out p lt)
    | inl e ↦
        let own = (k.tcb k.current_task).priority in
        let o = out own (ground arith) in
        rw e (ground (arith, has-append_one t k.current_task (q own)))
  ])
]

Chosen-nowhere :
    (q q' : Queues) (t u : TaskPtr)
    → ((p : ℕ) → p < 256 → has t (q p) ≡ false)
    → t ≢ idle_task
    → Chosen q u q'
    → (t ≢ u) × ((p : ℕ) → p < 256 → has t (q' p) ≡ false)
Chosen-nowhere q q' t u out ne (first p ts lt e least same) =
    let o : has t (u ∷ ts) ≡ false = rw e at (out p lt) in
    (ground arith, λ j l. rw same (ground (arith, out j l)))
Chosen-nowhere q q' t u out ne (idle none_left e same) =
    ((λ h. ne (h ∙ e)), λ j l. rw same (out j l))

Lost-again :
    {live : List TaskPtr} (k k' : Kernel) (q q' : Queues) (t : TaskPtr)
    → Lost live k q t
    → Sound live k' q'
    → Settles k k'
    → Chosen (requeued k q) k'.current_task q'
    → Lost live k' q' t
Lost-again k k' q q' t l sound settles chosen =
    let (other, nowhere) =
      Chosen-nowhere (requeued k q) q' t k'.current_task
        (requeued_nowhere k q t l.not_current l.nowhere) l.not_idle chosen in
    record {
      sound = sound;
      on = settles.on ∙ l.on;
      waits = settles.others t other ∙ ground (arith, l.waits, l.not_current);
      not_current = other;
      not_idle = l.not_idle;
      nowhere = nowhere;
    }

-- A switch away from a running task whose state is READY loses it.
Lost-now :
    {live : List TaskPtr} (k k' : Kernel) (q q' : Queues) (t : TaskPtr)
    → Sound live k q
    → Sound live k' q'
    → k.current_task ≡ t
    → (k.tcb t).state ≡ ready
    → t ≢ idle_task
    → k'.scheduler_running ≡ true
    → Settles k k'
    → Chosen (requeued k q) k'.current_task q'
    → Lost live k' q' t
unfolding requeued
Lost-now k k' q q' t s s' is waits not_idle on settles chosen =
    let still : is_running (k.tcb k.current_task).state ≡ false = ground arith in
    let chosen' : Chosen q k'.current_task q' = rw still at chosen in
    let (other, nowhere) =
      Chosen-nowhere q q' t k'.current_task (λ p lt. rw (← is) (s.current_out p lt)) not_idle
        chosen' in
    record {
      sound = s';
      on = on;
      waits = settles.others t other ∙ ground arith;
      not_current = other;
      not_idle = not_idle;
      nowhere = nowhere;
    }

-- `n` ticks in a row.
pub ticks_from : ℕ → (TaskPtr → TaskPtr → Stacks → Stacks) → ℕ → Kernel → Option Kernel
ticks_from fuel context_switch zero k = some k
ticks_from fuel context_switch (suc n) k =
    os_scheduler fuel context_switch k >>= ticks_from fuel context_switch n

-- The scheduler never gets such a task back: it stays so across a tick.
module _ (fuel : ℕ) (context_switch : TaskPtr → TaskPtr → Stacks → Stacks) (live : List TaskPtr)
    (enough : length live ≤ fuel) where
  Lost-tick :
      (k : Kernel) (q : Queues) (t : TaskPtr)
      → Lost live k q t
      → (k' : Kernel) × (q' : Queues) × (os_scheduler fuel context_switch k ≡ some k')
        × Lost live k' q' t
  Lost-tick k q t l =
      let (k', q', run, ticks) =
        os_scheduler_lem fuel context_switch live k q l.sound enough l.on in
      (
        k',
        q',
        run,
        elim (dec_lt 1 (k.tcb k.current_task).time_slice) [
          | yes more ↦
              let (same, queues, on, states) = ticks.goes_on more in
              record {
                sound = ticks.sound;
                on = on ∙ l.on;
                waits = states t ∙ l.waits;
                not_current = λ e. l.not_current (e ∙ same);
                not_idle = l.not_idle;
                nowhere = rw queues l.nowhere;
              }
          | no less ↦
              let few : (k.tcb k.current_task).time_slice ≤ 1 = omega arith in
              Lost-again k k' q q' t l ticks.sound (ticks.states few) (ticks.switches few)
        ],
      )

  -- A lost task: however many ticks follow, it is not the running task, though it is READY.
  pub Lost-for_good :
      (n : ℕ) (k : Kernel) (q : Queues) (t : TaskPtr)
      → Lost live k q t
      → (k' : Kernel) × (ticks_from fuel context_switch n k ≡ some k')
        × (t ≢ k'.current_task)
        × ((k'.tcb t).state ≡ ready)
  unfolding ticks_from
  Lost-for_good zero k q t l = (k, refl, l.not_current, l.waits)
  Lost-for_good (suc n) k q t l =
      let (k1, q1, run, l1) = Lost-tick k q t l in
      let (k', more, out, waits) = Lost-for_good n k1 q1 t l1 in (k', rw run more, out, waits)

  -- A running task that yields twice while no other task of its priority or a higher one is ready
  -- is lost.
  pub yield_twice-Lost :
      (k : Kernel) (q : Queues)
      → Sound live k q
      → k.scheduler_running ≡ true
      → (k.tcb k.current_task).state ≡ running
      → ((j : ℕ) → j ≤ (k.tcb k.current_task).priority → q j ≡ [])
      → k.current_task ≢ idle_task
      → (k' : Kernel) × (q' : Queues) × ((os_task_yield fuel context_switch k
            >>= os_task_yield fuel context_switch)
          ≡ some k')
        × Lost live k' q' k.current_task
  yield_twice-Lost k q s on runs none_above not_idle =
      let (k1, q1, run1, s1, chosen1, settles1) =
        os_task_yield_lem fuel context_switch live k q s enough on in
      let small = s.populated.small k.current_task s.current_live in
      let again = alone_again k q runs small none_above q1 k1.current_task chosen1 in
      let (k2, q2, run2, s2, chosen2, settles2) =
        os_task_yield_lem fuel context_switch live k1 q1 s1 enough (settles1.on ∙ on) in
      (
        k2,
        q2,
        rw run1 run2,
        Lost-now k1 k2 q1 q2 k.current_task s1 s2 again (settles1.kept again ∙ ground (arith, runs))
            not_idle (settles2.on ∙ settles1.on ∙ on) settles2 chosen2,
      )
