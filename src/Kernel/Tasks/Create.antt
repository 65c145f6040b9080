-- ===== src/Kernel/Tasks/Create.antt =====
-- `os_task_create`: its refusals, and what a new task starts with.
use tinyos_rtos.Prelude.{
  ne→==, ne→==, ℕ, ◌+◌, ◌≤◌, ◌<◌, ◌≡◌, ◌≢◌, ◌⊎◌, ◌∙◌, ap, refl, true, false, Option, none, some,
  zero, suc, take, List, [], ◌∷◌, ◌++◌, arith, ◌==◌, update, length, has, inl, inr, Bool-cases,
}
use tinyos_rtos.Prelude.Word.{u8}
use tinyos_rtos.Links.{null}
use tinyos_rtos.Kernel.{Kernel, TaskPtr, Tcb, ready, ok, no_memory, invalid_param, max_tasks}
use tinyos_rtos.Kernel.Queue.Valid.{Frame-priority, Frame-priority, Queues, Holds, Holds-frame}
use tinyos_rtos.Kernel.Queue.Add.{
  has-append_one, has-append_one, Files, scheduler_add_ready_task_lem,
}
use tinyos_rtos.Kernel.Sched.Sound.{length-queue_le, Stocked}
use mathlib.Core.Path.{subst}
use tinyos_rtos.Kernel.Tasks
use tinyos_rtos.Kernel.Tasks.{copy_name, initial_stack, u32, fresh_tcb, set_up, os_task_create}

-- Refusals change nothing: NULL arguments first, then a full task table.
pub os_task_create_refused :
    (fuel : ℕ) (k : Kernel) (task : TaskPtr) (name : Option (List ℕ)) (entry param priority : ℕ)
    → ((task ≡ null) ⊎ (entry ≡ null)
        → os_task_create fuel k task name entry param priority ≡ some (invalid_param, k))
      × (task ≢ null
          → entry ≢ null
          → max_tasks ≤ k.task_count
          → os_task_create fuel k task name entry param priority ≡ some (no_memory, k))
unfolding os_task_create
os_task_create_refused fuel k task name entry param priority =
    (λ h. ground arith, λ a b c. ground arith)

not_queued :
    (live : List TaskPtr) (k : Kernel) (q : Queues) (t p : ℕ)
    → Stocked live k q
    → has t live ≡ false
    → p < 256
    → has t (q p) ≡ false
not_queued live k q t p s out lt = ground (arith, s.queued_live p t)

module _ (live : List TaskPtr) (k : Kernel) (q : Queues) (t : TaskPtr) (name : Option (List ℕ))
    (entry param p : ℕ) (s : Stocked live k q) (out : has t live ≡ false) where
  set_up-Holds : Holds (set_up k t name entry param p) q
  unfolding set_up
  set_up-Holds =
      Holds-frame k _ q (λ j. refl) (λ w. refl)
        (λ j y lt i. ground (arith, not_queued live k q t j s out lt)) s.holds

  set_up-priority :
      (y : TaskPtr)
      → p < 256
      → has y (t ∷ live) ≡ true
      → ((set_up k t name entry param p).tcb y).priority < 256
  unfolding set_up
  set_up-priority y lt i = ground (arith, s.small y)

-- What a successful creation of `t` with priority `p` gives.
pub record Created (live : List TaskPtr) (k k' : Kernel) (q : Queues) (t : TaskPtr) (c : Tcb)
    : Type 0 where
  pub stocked : Stocked (t ∷ live) k' (update q c.priority (q c.priority ++ t ∷ []))
  pub counted : k'.task_count ≡ k.task_count + 1
  pub block : record (k'.tcb t) { next = null } ≡ c
  pub others :
      (y : TaskPtr) → y ≢ t → record (k'.tcb y) { next = null } ≡ record (k.tcb y) { next = null }
  pub current : k'.current_task ≡ k.current_task
  -- The frame that the first switch to the task loads.
  pub pointer : k'.stacks.stack_ptr t ≡ 247
  pub entry : k'.stacks.stack t 253 ≡ u32 c.entry_point
  pub argument : k'.stacks.stack t 247 ≡ u32 c.param

set_up_rest :
    (k : Kernel) (t y : TaskPtr) (name : Option (List ℕ)) (entry param p : ℕ)
    → let k1 = set_up k t name entry param p in
      (k1.tcb t ≡ fresh_tcb name entry param p)
      × (y ≢ t → k1.tcb y ≡ k.tcb y)
      × (k1.stacks.stack_ptr t ≡ 247)
      × (k1.stacks.stack t 253 ≡ u32 entry)
      × (k1.stacks.stack t 247 ≡ u32 param)
      × (k1.task_count ≡ k.task_count)
      × (k1.current_task ≡ k.current_task)
unfolding set_up initial_stack
set_up_rest k t y name entry param p =
    (ground arith, λ n. ground arith, ground arith, ground arith, ground arith, refl, refl)

appended_live :
    (live : List TaskPtr) (k : Kernel) (q : Queues) (p j t y : ℕ)
    → Stocked live k q
    → p < 256
    → j < 256
    → has y (update q p (q p ++ t ∷ []) j) ≡ true
    → has y (t ∷ live) ≡ true
appended_live live k q p j t y s lp lj i = elim (Bool-cases (j == p)) [
  | inr e ↦ let i' : has y (q j) ≡ true = rw e at i in ground (arith, s.queued_live j y lj i')
  | inl e ↦
      let i' : has y (q p ++ t ∷ []) ≡ true = rw e at i in
      elim (has-append_one y t (q p) i') [
        | inl same ↦ ground arith
        | inr old ↦ ground (arith, s.queued_live p y lp old)
      ]
]

created :
    (live : List TaskPtr) (k k1 : Kernel) (q : Queues) (t : TaskPtr) (name : Option (List ℕ))
    (entry param p : ℕ)
    → Stocked live k q
    → has t live ≡ false
    → p < 256
    → k.task_count < max_tasks
    → Files (set_up k t name entry param p) k1 q p t
    → Created live k
        (record k1 { task_count = u8 (k1.task_count + 1) })
        q
        t
        (fresh_tcb name entry param p)
unfolding fresh_tcb
created live k k1 q t name entry param p s out small room files =
    let (own, _, pointer, start, argument, count, current) = set_up_rest k t t name entry param p in
    record {
      stocked = record {
        holds = Holds-frame k1 _ _ (λ j. refl) (λ w. refl) (λ j y lt i. refl) files.holds;
        queued_live = λ j y lt i. appended_live live k q p j t y s small lt i;
        small = λ y i.
            rw (Frame-priority files.frame y)
              (set_up-priority live k q t name entry param p s out y small i);
      };
      counted = ground (arith, files.frame.task_count, count);
      block = ground (arith, files.frame.tasks t, own, files.entered);
      others = λ y n. ground (
        arith,
        files.frame.tasks y,
        files.others y n,
        (set_up_rest k t y name entry param p).1 n,
      );
      current = files.frame.current_task ∙ current;
      pointer = rw files.frame.stacks pointer;
      entry = rw files.frame.stacks start;
      argument = rw files.frame.stacks argument;
    }

os_task_create-fresh :
    (fuel : ℕ) (live : List TaskPtr) (k : Kernel) (q : Queues) (t : TaskPtr)
    (name : Option (List ℕ)) (entry param p : ℕ)
    → Stocked live k q
    → has t live ≡ false
    → t ≢ null
    → entry ≢ null
    → p < 256
    → k.task_count < max_tasks
    → length live ≤ fuel
    → (k' : Kernel) × (os_task_create fuel k t name entry param p ≡ some (ok, k'))
      × Created live k k' q t (fresh_tcb name entry param p)
unfolding os_task_create fresh_tcb
os_task_create-fresh fuel live k q t name entry param p s out real real' small room enough =
    let k0 = set_up k t name entry param p in
    let (k1, run, files) =
      scheduler_add_ready_task_lem fuel k0 q t p (set_up-Holds live k q t name entry param p s out)
        small (ap (λ (c : Tcb). c.priority) (set_up_rest k t t name entry param p).0) real
        (not_queued live k q t p s out small) (omega (arith, length-queue_le live k q p s small)) in
    (
      record k1 { task_count = u8 (k1.task_count + 1) },
      rw (ne→== t null real, ne→== entry null real') (ground (arith, run)),
      created live k k1 q t name entry param p s out small room files,
    )

-- The first 15 characters of a name; NULL gives none.
abbrev pub short_name : Option (List ℕ) → List ℕ
short_name none = []
short_name (some name) = take 15 name

-- The block of a new task: READY, with its priority as base priority, a full slice of 10 ms, and its
-- counters at 0.
abbrev pub new_block : Option (List ℕ) → ℕ → ℕ → ℕ → Tcb
new_block name entry param p = record {
  state = ready;
  priority = p;
  base_priority = p;
  time_slice = 10;
  name = short_name name;
  entry_point = entry;
  param = param;
  run_time = 0;
  context_switches = 0;
  stack_high_water_mark = 0;
  next = null;
}

cut_lem : (n : ℕ) (xs : List ℕ) → Tasks.take n xs ≡ take n xs
unfolding Tasks.take
cut_lem zero xs = refl
cut_lem (suc n) [] = refl
cut_lem (suc n) (x ∷ xs) = rw (cut_lem n xs)

copy_name_lem : (name : Option (List ℕ)) → copy_name name ≡ short_name name
unfolding copy_name
copy_name_lem none = refl
copy_name_lem (some name) = cut_lem 15 name

fresh_tcb_lem :
    (name : Option (List ℕ)) (entry param p : ℕ)
    → fresh_tcb name entry param p ≡ new_block name entry param p
unfolding fresh_tcb
fresh_tcb_lem name entry param p =
    ap (λ (n : List ℕ). record (new_block name entry param p) { name = n }) (copy_name_lem name)

-- A task whose block is new, created while the table has room: its block holds the first 15 characters
-- of the name, the entry and the argument, the priority as base priority too, a full slice of 10 ms
-- and counters at 0. It stands READY at the end of the queue of its priority; its stack is set up to
-- enter `entry` with `param`; the count of tasks grows by one; the other tasks keep all but their
-- links.
pub os_task_create_lem :
    (fuel : ℕ) (live : List TaskPtr) (k : Kernel) (q : Queues) (t : TaskPtr)
    (name : Option (List ℕ)) (entry param p : ℕ)
    → Stocked live k q
    → has t live ≡ false
    → t ≢ null
    → entry ≢ null
    → p < 256
    → k.task_count < max_tasks
    → length live ≤ fuel
    → (k' : Kernel) × (os_task_create fuel k t name entry param p ≡ some (ok, k'))
      × Created live k k' q t (new_block name entry param p)
os_task_create_lem fuel live k q t name entry param p s out real real' small room enough =
    let (k', run, c) =
      os_task_create-fresh fuel live k q t name entry param p s out real real' small room enough in
    (k', run, subst (λ (b : Tcb). Created live k k' q t b) (fresh_tcb_lem name entry param p) c)
