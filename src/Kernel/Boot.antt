-- ===== src/Kernel/Boot.antt =====
-- kernel.c: from `os_init` to the first task that runs.
use mathlib.Core.Path.{subst, sym}
use tinyos_rtos.Prelude.{
  ℕ, ◌%◌, ◌<◌, ◌≡◌, ◌≢◌, refl, true, false, some, List, [], ◌∷◌, arith, ◌==◌, update, has, inl, inr,
  Bool-cases, ap,
}
use tinyos_rtos.Prelude.Bits.{bit-zero}
use tinyos_rtos.Links.{null, Chain}
use tinyos_rtos.Kernel.{Tcb, Kernel, TaskPtr, running, idle_task, priority_idle, set_state}
use tinyos_rtos.Kernel.Queue.{scheduler_get_next_task}
use tinyos_rtos.Kernel.Queue.Valid.{Queues, Holds-frame, Frame-priority}
use tinyos_rtos.Kernel.Queue.Take.{Picks, Outcome, picked, idles, scheduler_get_next_task_lem}
use tinyos_rtos.Kernel.Sched.{os_start}
use tinyos_rtos.Kernel.Sched.Sound.{Stocked, Populated, Stocked-Populated, Sound, taken_out}
use tinyos_rtos.Kernel.Sched.Step.{Chosen, first, idle}
use tinyos_rtos.Kernel.Tasks.{zeroed, os_init, fresh_tcb}
use tinyos_rtos.Kernel.Tasks.Create.{os_task_create_lem}

abbrev no_queues : Queues
no_queues p = []

zeroed-Stocked : (k : Kernel) → Stocked [] (zeroed k) no_queues
unfolding zeroed
zeroed-Stocked k = record {
  holds = record {
    linked = λ p lt. refl;
    distinct = λ p lt. tt;
    filed = λ p t lt i. absurd (ground arith);
    marked = λ p lt. bit-zero (p % 32);
    words = λ w. omega arith;
  };
  queued_live = λ p t lt i. i;
  small = λ t i. absurd (ground arith);
}

-- Whatever was in memory before, the kernel starts with one task: the idle task waits in the queue of
-- the lowest priority, the scheduler is off and the counters are 0.
pub os_init_lem :
    (fuel idle_entry : ℕ) (k : Kernel)
    → idle_entry ≢ null
    → (k' : Kernel) × (os_init fuel idle_entry k ≡ some k')
      × Populated (idle_task ∷ []) k' (update no_queues priority_idle (idle_task ∷ []))
      × (k'.task_count ≡ 1)
      × (k'.current_task ≡ null)
unfolding os_init fresh_tcb zeroed
os_init_lem fuel idle_entry k real =
    let (k', run, made) =
      os_task_create_lem fuel [] (zeroed k) no_queues idle_task
        (some (b'i' ∷ b'd' ∷ b'l' ∷ b'e' ∷ [])) idle_entry null priority_idle (zeroed-Stocked k)
        refl (λ e. ground arith) real (omega arith) (omega arith) (omega arith) in
    (
      k',
      rw run,
      Stocked-Populated (idle_task ∷ []) k' _ made.stocked refl,
      made.counted,
      made.current,
    )

module _ (live : List TaskPtr) (k k' : Kernel) (q : Queues) (t : TaskPtr) where
  -- The change behind the choice: `t` becomes the running task of a running system.
  abbrev goes : Kernel
  goes = set_state (record k' { current_task = t }) t running

  goes-Sound :
      (q' : Queues)
      → Populated live k' q'
      → has t live ≡ true
      → t ≢ null
      → ((p : ℕ) → p < 256 → has t (q' p) ≡ false)
      → Sound live goes q'
  goes-Sound q' s is real out = record {
    populated = record {
      holds =
          Holds-frame k' goes q' (λ p. refl) (λ w. refl) (λ p y lt i. ground (arith, out p lt))
            s.holds;
      queued_live = s.queued_live;
      idle_live = s.idle_live;
      small = λ y i. ground (arith, s.small y i);
    };
    current_live = is;
    current_real = real;
    current_out = out;
  }

  picked_rest :
      Populated live k q
      → (c : Picks k q (t, k'))
      → Populated live k' (update q c.priority c.rest)
        × (has t live ≡ true)
        × (t ≢ null)
        × ((p : ℕ) → p < 256 → has t (update q c.priority c.rest p) ≡ false)
  picked_rest s c =
      let head : has t (q c.priority) ≡ true = rw c.queue (ground arith) in
      let chain : Chain (λ y. (k.tcb y).next) (k.ready_queue c.priority) (t ∷ c.rest) =
        rw c.queue at (s.holds.linked c.priority c.small) in
      (
        record {
          holds = c.takes.holds;
          queued_live = λ j y lt i. elim (Bool-cases (j == c.priority)) [
            | inl e ↦
                let i' : has y c.rest ≡ true = rw e at i in
                s.queued_live c.priority y c.small (rw c.queue (ground arith))
            | inr e ↦ let i' : has y (q j) ≡ true = rw e at i in s.queued_live j y lt i'
          ];
          idle_live = s.idle_live;
          small = λ y i. rw (Frame-priority c.takes.frame y) (s.small y i);
        },
        s.queued_live c.priority t c.small head,
        ground (arith, chain),
        λ p lt. taken_out k q c.priority p t c.rest s.holds c.small lt c.queue,
      )

-- The state of the kernel once the first task runs.
record Starts (live : List TaskPtr) (k : Kernel) (q : Queues) (t : TaskPtr) : Type 0 where
  queues : Queues
  sound : Sound live k queues
  chosen : Chosen q t queues

-- The choice, on a kernel whose scheduler is on.
started :
    (live : List TaskPtr) (k : Kernel) (q : Queues) (r : TaskPtr × Kernel)
    → Populated live k q
    → Outcome k q r
    → Starts live (goes live r.1 r.1 q r.0) q r.0
started live k q (t, k') s (picked c) =
    let (s', is, real, out) = picked_rest live k k' q t s c in
    record {
      queues = update q c.priority c.rest;
      sound = goes-Sound live k k' q t (update q c.priority c.rest) s' is real out;
      chosen = first c.priority c.rest c.small c.queue c.least refl;
    }
started live k q r s (idles empty e) =
    subst (λ (z : TaskPtr × Kernel). Starts live (goes live z.1 z.1 q z.0) q z.0) (sym e)
      (record {
        queues = q;
        sound =
            goes-Sound live k k q idle_task q s s.idle_live (λ z. ground arith)
              (λ p lt. rw (empty p lt) refl);
        chosen = idle empty refl refl;
      })

on-Populated :
    (live : List TaskPtr) (k : Kernel) (q : Queues)
    → Populated live k q
    → Populated live (record k { scheduler_running = true }) q
on-Populated live k q s = record {
  holds = Holds-frame k _ q (λ p. refl) (λ w. refl) (λ p y lt i. refl) s.holds;
  queued_live = s.queued_live;
  idle_live = s.idle_live;
  small = s.small;
}

Outcome-on :
    (k : Kernel) (q : Queues) (r : TaskPtr × Kernel)
    → Outcome k q r
    → r.1.scheduler_running ≡ k.scheduler_running
Outcome-on k q (t, k') (picked c) = c.takes.frame.scheduler_running
Outcome-on k q r (idles empty e) = ap (λ (z : TaskPtr × Kernel). z.1.scheduler_running) e

-- The first task of the highest priority runs, and the scheduler is on.
pub os_start_lem :
    (live : List TaskPtr) (k : Kernel) (q : Queues)
    → Populated live k q
    → (q' : Queues) × Sound live (os_start k) q'
      × Chosen q (os_start k).current_task q'
      × (((os_start k).tcb (os_start k).current_task).state ≡ running)
      × ((os_start k).scheduler_running ≡ true)
unfolding os_start
os_start_lem live k q s =
    let k1 = record k { scheduler_running = true } in
    let s1 = on-Populated live k q s in
    let outcome = scheduler_get_next_task_lem k1 q s1.holds in
    let go = started live k1 q (scheduler_get_next_task k1) s1 outcome in
    (
      go.queues,
      go.sound,
      go.chosen,
      ground arith,
      Outcome-on k1 q (scheduler_get_next_task k1) outcome,
    )

Outcome-priorities :
    (k : Kernel) (q : Queues) (r : TaskPtr × Kernel) (y : TaskPtr)
    → Outcome k q r
    → ((r.1.tcb y).priority ≡ (k.tcb y).priority)
      × ((r.1.tcb y).base_priority ≡ (k.tcb y).base_priority)
Outcome-priorities k q (t, k') y (picked c) =
    (Frame-priority c.takes.frame y, ap (λ (b : Tcb). b.base_priority) (c.takes.frame.tasks y))
Outcome-priorities k q r y (idles empty e) = (
  ap (λ (z : TaskPtr × Kernel). (z.1.tcb y).priority) e,
  ap (λ (z : TaskPtr × Kernel). (z.1.tcb y).base_priority) e,
)

pub os_start-priorities :
    (live : List TaskPtr) (k : Kernel) (q : Queues) (y : TaskPtr)
    → Populated live k q
    → (((os_start k).tcb y).priority ≡ (k.tcb y).priority)
      × (((os_start k).tcb y).base_priority ≡ (k.tcb y).base_priority)
unfolding os_start
os_start-priorities live k q y s =
    let k1 = record k { scheduler_running = true } in
    let same =
      Outcome-priorities k1 q (scheduler_get_next_task k1) y
        (scheduler_get_next_task_lem k1 q (on-Populated live k q s).holds) in
    ground (arith, same)
