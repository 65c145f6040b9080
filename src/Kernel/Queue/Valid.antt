-- ===== src/Kernel/Queue/Valid.antt =====
-- What the ready queues stand for.
use tinyos_rtos.Prelude.{
  arith, ap, ℕ, ◌/◌, ◌%◌, ◌^◌, ◌<◌, ◌≡◌, ◌∙◌, true, List, ◌==◌, if◌then◌else◌, has, Distinct,
}
use tinyos_rtos.Prelude.Bits.{bit}
use tinyos_rtos.Links.{null, Chain, Chain-frame}
use tinyos_rtos.Kernel.{Kernel, TaskPtr, Tcb, ready, next_of}

-- A queue of tasks for each priority, as lists.
abbrev pub Queues : Type 0
Queues = ℕ → List TaskPtr

-- The kernel's linked queues and bitmap hold `q`: every task in `q p` is ready and has priority
-- `p`, and the bit of `p` is set exactly if `q p` is not empty.
pub record Holds (k : Kernel) (q : Queues) : Type 0 where
  pub linked : (p : ℕ) → p < 256 → Chain (next_of k) (k.ready_queue p) (q p)
  pub distinct : (p : ℕ) → p < 256 → Distinct (q p)
  pub filed :
      (p t : ℕ)
      → p < 256
      → has t (q p) ≡ true
      → ((k.tcb t).priority ≡ p) × ((k.tcb t).state ≡ ready)
  pub marked :
      (p : ℕ)
      → p < 256
      → bit (k.ready_bitmap (p / 32)) (p % 32) ≡ (if k.ready_queue p == null then 0 else 1)
  pub words : (w : ℕ) → k.ready_bitmap w < 2 ^ 32

-- All that the queue operations leave alone: everything but the queues, the links, and the states.
pub record Frame (k k' : Kernel) : Type 0 where
  pub current_task : k'.current_task ≡ k.current_task
  pub task_count : k'.task_count ≡ k.task_count
  pub tick_count : k'.tick_count ≡ k.tick_count
  pub context_switch_count : k'.context_switch_count ≡ k.context_switch_count
  pub scheduler_running : k'.scheduler_running ≡ k.scheduler_running
  pub stacks : k'.stacks ≡ k.stacks
  pub tasks :
      (y : TaskPtr)
      → record (k'.tcb y) { next = null; state = ready }
        ≡ record (k.tcb y) { next = null; state = ready }

pub Frame-trans : {k l m : Kernel} → Frame k l → Frame l m → Frame k m
Frame-trans f g = record {
  current_task = g.current_task ∙ f.current_task;
  task_count = g.task_count ∙ f.task_count;
  tick_count = g.tick_count ∙ f.tick_count;
  context_switch_count = g.context_switch_count ∙ f.context_switch_count;
  scheduler_running = g.scheduler_running ∙ f.scheduler_running;
  stacks = g.stacks ∙ f.stacks;
  tasks = λ y. g.tasks y ∙ f.tasks y;
}

-- A change outside the queues keeps what they hold.
pub Holds-frame :
    (k k' : Kernel) (q : Queues)
    → ((p : ℕ) → k'.ready_queue p ≡ k.ready_queue p)
    → ((w : ℕ) → k'.ready_bitmap w ≡ k.ready_bitmap w)
    → ((p y : ℕ) → p < 256 → has y (q p) ≡ true → k'.tcb y ≡ k.tcb y)
    → Holds k q
    → Holds k' q
Holds-frame k k' q heads bits same v = record {
  linked = λ p lt. rw (heads p) (
      Chain-frame (next_of k) (next_of k') (k.ready_queue p) (q p) (v.linked p lt)
        (λ y i. ap (λ (c : Tcb). c.next) (same p y lt i)));
  distinct = v.distinct;
  filed = λ p y lt i. rw (same p y lt i) (v.filed p y lt i);
  marked = λ p lt. rw (bits (p / 32), heads p) (v.marked p lt);
  words = λ w. rw (bits w) (v.words w);
}

-- So does a change of other fields than the links, the priorities and the states.
pub Holds-keep :
    (k k' : Kernel) (q : Queues)
    → ((p : ℕ) → k'.ready_queue p ≡ k.ready_queue p)
    → ((w : ℕ) → k'.ready_bitmap w ≡ k.ready_bitmap w)
    → ((y : TaskPtr) → next_of k' y ≡ next_of k y)
    → ((y : TaskPtr) → (k'.tcb y).priority ≡ (k.tcb y).priority)
    → ((p y : ℕ) → p < 256 → has y (q p) ≡ true → (k'.tcb y).state ≡ (k.tcb y).state)
    → Holds k q
    → Holds k' q
Holds-keep k k' q heads bits links prios states v = record {
  linked = λ p lt. rw (heads p) (
      Chain-frame (next_of k) (next_of k') (k.ready_queue p) (q p) (v.linked p lt)
        (λ y i. links y));
  distinct = v.distinct;
  filed = λ p y lt i. ground (arith, prios y, states p y lt i, v.filed p y lt i);
  marked = λ p lt. rw (bits (p / 32), heads p) (v.marked p lt);
  words = λ w. rw (bits w) (v.words w);
}

pub Frame-priority :
    {k k' : Kernel} → Frame k k' → (y : TaskPtr) → (k'.tcb y).priority ≡ (k.tcb y).priority
Frame-priority f y = ap (λ (c : Tcb). c.priority) (f.tasks y)
