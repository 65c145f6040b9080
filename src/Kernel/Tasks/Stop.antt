-- ===== src/Kernel/Tasks/Stop.antt =====
-- `os_task_delete`, `os_task_suspend` and `os_task_resume`: a task taken out of its queue, and back.
use tinyos_rtos.Prelude.{
  ℕ, ◌+◌, ◌≤◌, ◌<◌, ◌≡◌, ◌≢◌, ◌∙◌, refl, sym, true, false, some, List, ◌∷◌, arith, ◌==◌, update,
  length, has, inl, inr, Bool-cases, ne→==, ==→eq, if◌then◌else◌,
}
use tinyos_rtos.Prelude.Word.{u8}
use tinyos_rtos.Links.{null}
use tinyos_rtos.Links.Unlink.{erase, erase-mem, erase-ne, erase-not-mem}
use tinyos_rtos.Kernel.{
  Kernel, TaskPtr, TaskState, Stacks, ok, running, suspended, terminated, idle_task, set_state,
}
use tinyos_rtos.Kernel.Queue.{scheduler_remove_task}
use tinyos_rtos.Kernel.Queue.Valid.{Queues, Holds, Holds-keep, Frame-priority}
use tinyos_rtos.Kernel.Queue.Remove.{scheduler_remove_task_lem}
use tinyos_rtos.Kernel.Sched.Sound.{Sound, length-queue}
use tinyos_rtos.Kernel.Sched.Step.{requeued, Chosen, first, idle}
use tinyos_rtos.Kernel.Sched.Tick.{Settles, os_task_yield_lem}
use tinyos_rtos.Kernel.Tasks.{yield_ok, os_task_delete, os_task_suspend}

-- The queues without a task.
abbrev pub without : Kernel → Queues → TaskPtr → Queues
without k q t = update q (k.tcb t).priority (erase t (q (k.tcb t).priority))

pub without-mem :
    (k : Kernel) (q : Queues) (t j y : ℕ) → has y (without k q t j) ≡ true → has y (q j) ≡ true
without-mem k q t j y h = elim (Bool-cases (j == (k.tcb t).priority)) [
  | inl e ↦
      let h' : has y (erase t (q (k.tcb t).priority)) ≡ true = rw e at h in
      rw (==→eq _ _ e) (erase-mem t y (q (k.tcb t).priority) h')
  | inr e ↦ rw e at h
]

pub without_self :
    (k : Kernel) (q : Queues) (t j : ℕ)
    → Holds k q
    → (k.tcb t).priority < 256
    → j < 256
    → has t (without k q t j) ≡ false
without_self k q t j v small lt = elim (Bool-cases (j == (k.tcb t).priority)) [
  | inl e ↦ rw e (erase-not-mem t (q (k.tcb t).priority) (v.distinct (k.tcb t).priority small))
  | inr e ↦ rw e (ground (arith, v.filed j t lt))
]

-- A task that is in no queue, with its new state.
pub record Stopped (live : List TaskPtr) (k k' : Kernel) (q : Queues) (t : TaskPtr) (s : TaskState)
    : Type 0 where
  pub sound : Sound live k' (without k q t)
  pub nowhere : (j : ℕ) → j < 256 → has t (without k q t j) ≡ false
  pub state : (k'.tcb t).state ≡ s
  pub others : (y : TaskPtr) → y ≢ t → (k'.tcb y).state ≡ (k.tcb y).state
  pub priorities : (y : TaskPtr) → (k'.tcb y).priority ≡ (k.tcb y).priority
  pub current : k'.current_task ≡ k.current_task
  pub on : k'.scheduler_running ≡ k.scheduler_running

abbrev stop : Kernel → TaskPtr → TaskState → ℕ → Kernel
stop k t s n = record (set_state k t s) { task_count = n }

stop_lem :
    (fuel : ℕ) (live : List TaskPtr) (k : Kernel) (q : Queues) (t : TaskPtr) (s : TaskState)
    → Sound live k q
    → has t live ≡ true
    → length live ≤ fuel
    → (k1 : Kernel) × (scheduler_remove_task fuel k t ≡ some k1)
      × (k1.task_count ≡ k.task_count)
      × ((n : ℕ) → Stopped live k (stop k1 t s n) q t s)
stop_lem fuel live k q t s sound is enough =
    let p = (k.tcb t).priority in
    let small = sound.populated.small t is in
    let (k1, run, takes, _) =
      scheduler_remove_task_lem fuel k q t p sound.populated.holds small refl
        (omega (arith, length-queue live k q p sound small)) in
    let out = λ (j : ℕ) (lt : j < 256). without_self k q t j sound.populated.holds small lt in
    (
      k1,
      run,
      takes.frame.task_count,
      λ n. record {
        sound = record {
          populated = record {
            holds =
                Holds-keep k1 _ (without k q t) (λ j. refl) (λ w. refl) (λ y. ground arith)
                  (λ y. ground arith) (λ j y lt i. ground (arith, out j lt)) takes.holds;
            queued_live = λ j y lt i. sound.populated.queued_live j y lt (without-mem k q t j y i);
            idle_live = sound.populated.idle_live;
            small = λ y i. ground (arith, Frame-priority takes.frame y, sound.populated.small y i);
          };
          current_live = rw takes.frame.current_task sound.current_live;
          current_real = rw takes.frame.current_task sound.current_real;
          current_out = λ j lt.
              rw takes.frame.current_task
                (ground (arith, sound.current_out j lt, without-mem k q t j k.current_task));
        };
        nowhere = out;
        state = ground arith;
        others = λ y ne. ground (arith, takes.states y);
        priorities = λ y. ground (arith, Frame-priority takes.frame y);
        current = takes.frame.current_task;
        on = takes.frame.scheduler_running;
      },
    )

-- What the whole call gives: the task is in no queue and has its new state. If it was the running
-- one, the first task of the highest priority runs instead.
pub record Withdrawn (live : List TaskPtr) (k k' : Kernel) (q : Queues) (t : TaskPtr)
    (s : TaskState) : Type 0 where
  pub queues : Queues
  pub sound : Sound live k' queues
  pub nowhere : (j : ℕ) → j < 256 → has t (queues j) ≡ false
  pub state : (k'.tcb t).state ≡ s
  pub stays :
      t ≢ k.current_task
      → (k'.current_task ≡ k.current_task)
        × (queues ≡ without k q t)
        × ((k'.tcb t).priority ≡ (k.tcb t).priority)
  pub gives_way : t ≡ k.current_task → Chosen (without k q t) k'.current_task queues

Chosen-out :
    (q q' : Queues) (t c : TaskPtr)
    → Chosen q c q'
    → ((j : ℕ) → j < 256 → has t (q j) ≡ false)
    → (j : ℕ) → j < 256
    → has t (q' j) ≡ false
Chosen-out q q' t c (first p ts lt e least same) out j small = elim (Bool-cases (j == p)) [
  | inl here ↦ let o : has t (c ∷ ts) ≡ false = rw e at (out p lt) in rw (same, here) (ground arith)
  | inr there ↦ rw (same, there) (out j small)
]
Chosen-out q q' t c (idle none_left e same) out j small = rw same (out j small)

-- The task that stopped is chosen again only if it is the idle task; its state stays either way.
stays_stopped :
    (k k' : Kernel) (q q' : Queues) (t : TaskPtr) (s : TaskState)
    → (k.tcb t).state ≡ s
    → s ≢ running
    → t ≡ k.current_task
    → Chosen q k'.current_task q'
    → ((j : ℕ) → j < 256 → has t (q j) ≡ false)
    → Settles k k'
    → (k'.tcb t).state ≡ s
stays_stopped k k' q q' t s is still cur chosen out settles =
    elim (Bool-cases (t == k'.current_task)) [
      | inl e ↦ ground (arith, settles.kept (sym (==→eq _ _ e) ∙ cur))
      | inr e ↦ ground (arith, settles.others t (ground arith))
    ]

requeued-stopped :
    (k : Kernel) (q : Queues) → (k.tcb k.current_task).state ≢ running → requeued k q ≡ q
unfolding requeued
requeued-stopped k q ne = ground arith

-- A task that is in no queue, not running and not the idle task can be left out.
fewer_live :
    (live : List TaskPtr) (k : Kernel) (q : Queues) (t : TaskPtr)
    → Sound live k q
    → ((j : ℕ) → j < 256 → has t (q j) ≡ false)
    → t ≢ idle_task
    → t ≢ k.current_task
    → Sound (erase t live) k q
fewer_live live k q t s out not_idle ne = record {
  populated = record {
    holds = s.populated.holds;
    queued_live =
        λ j y lt i. erase-ne t y live (ground (arith, out j lt)) (s.populated.queued_live j y lt i);
    idle_live = erase-ne t idle_task live (ground arith) s.populated.idle_live;
    small = λ y i. s.populated.small y (erase-mem t y live i);
  };
  current_live = erase-ne t k.current_task live (ground arith) s.current_live;
  current_real = s.current_real;
  current_out = s.current_out;
}

Chosen-ne :
    (q q' : Queues) (t c : TaskPtr)
    → Chosen q c q'
    → ((j : ℕ) → j < 256 → has t (q j) ≡ false)
    → t ≢ idle_task
    → t ≢ c
Chosen-ne q q' t c (first p ts lt e least same) out ne =
    let o : has t (c ∷ ts) ≡ false = rw e at (out p lt) in ground arith
Chosen-ne q q' t c (idle none_left e same) out ne = ground arith

gone :
    (live : List TaskPtr) (k k' : Kernel) (q : Queues) (t : TaskPtr) (s : TaskState)
    → Withdrawn live k k' q t s
    → ((j : ℕ) → j < 256 → has t (without k q t j) ≡ false)
    → t ≢ idle_task
    → t ≢ k'.current_task
gone live k k' q t s w out ne = elim (Bool-cases (t == k.current_task)) [
  | inl e ↦ Chosen-ne (without k q t) w.queues t k'.current_task (w.gives_way (==→eq _ _ e)) out ne
  | inr e ↦ ground (arith, w.stays)
]

module _ (fuel : ℕ) (context_switch : TaskPtr → TaskPtr → Stacks → Stacks) (live : List TaskPtr)
    (k : Kernel) (q : Queues) (t : TaskPtr) (sound : Sound live k q)
    (on : k.scheduler_running ≡ true) (is : has t live ≡ true) (enough : length live ≤ fuel) where
  withdraw :
      (s : TaskState) (k2 : Kernel)
      → s ≢ running
      → Stopped live k k2 q t s
      → (k' : Kernel) × ((if t == k2.current_task
            then yield_ok fuel context_switch k2
            else some (ok, k2))
          ≡ some (ok, k'))
        × Withdrawn live k k' q t s
        × (t ≢ k.current_task → k' ≡ k2)
  unfolding yield_ok
  withdraw s k2 still w = elim (Bool-cases (t == k2.current_task)) [
    | inr other ↦ (
      k2,
      rw other,
      record {
        queues = without k q t;
        sound = w.sound;
        nowhere = w.nowhere;
        state = w.state;
        stays = λ _. (w.current, refl, w.priorities t);
        gives_way = λ e. absurd (ground (arith, w.current));
      },
      λ _. refl,
    )
    | inl own ↦
        let cur : t ≡ k2.current_task = ==→eq _ _ own in
        let (k', q', run, sound', chosen, settles) =
          os_task_yield_lem fuel context_switch live k2 (without k q t) w.sound enough
            (w.on ∙ on) in
        let stopped : (k2.tcb k2.current_task).state ≡ s = rw cur at w.state in
        let same = requeued-stopped k2 (without k q t) (λ e. still (sym stopped ∙ e)) in
        let chosen' : Chosen (without k q t) k'.current_task q' = rw same at chosen in
        (
          k',
          rw own (ground (arith, run)),
          record {
            queues = q';
            sound = sound';
            nowhere = Chosen-out (without k q t) q' t k'.current_task chosen' w.nowhere;
            state =
                stays_stopped k2 k' (without k q t) q' t s w.state still cur chosen' w.nowhere
                  settles;
            stays = λ ne. absurd (ground (arith, w.current));
            gives_way = λ _. chosen';
          },
          λ ne. absurd (ground (arith, w.current)),
        )
  ]

  -- A live task of a running system, suspended: it is SUSPENDED and in no queue, and it loses the
  -- processor if it had it.
  pub os_task_suspend_lem :
      t ≢ null
      → (k' : Kernel) × (os_task_suspend fuel context_switch k t ≡ some (ok, k'))
        × Withdrawn live k k' q t suspended
  unfolding os_task_suspend
  os_task_suspend_lem real =
      let (k1, run, _, stopped) = stop_lem fuel live k q t suspended sound is enough in
      let (k', run', w, _) =
        withdraw suspended (stop k1 t suspended k1.task_count) (λ e. ground arith)
          (stopped k1.task_count) in
      (k', rw (ne→== t null real, run) run', w)

  -- A live task other than the idle task, deleted: it is TERMINATED and in no queue, it loses the
  -- processor if it had it, and the system goes on without it.
  pub os_task_delete_lem :
      t ≢ null
      → t ≢ idle_task
      → (k' : Kernel) × (os_task_delete fuel context_switch k t ≡ some (ok, k'))
        × (w : Withdrawn live k k' q t terminated) × Sound (erase t live) k' w.queues
        × (t ≢ k.current_task → k'.task_count ≡ u8 (k.task_count + 255))
  unfolding os_task_delete
  os_task_delete_lem real not_idle =
      let (k1, run, count, stopped) = stop_lem fuel live k q t terminated sound is enough in
      let n = u8 (k1.task_count + 255) in
      let k2 = stop k1 t terminated n in
      let (k', run', w, unless) = withdraw terminated k2 (λ e. ground arith) (stopped n) in
      (
        k',
        rw (ne→== t null real, ne→== t idle_task not_idle, run) run',
        w,
        fewer_live live k' w.queues t w.sound w.nowhere not_idle
            (gone live k k' q t terminated w (stopped n).nowhere not_idle),
        λ ne. ground (arith, unless ne, count),
      )
