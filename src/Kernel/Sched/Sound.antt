-- ===== src/Kernel/Sched/Sound.antt =====
-- The state that the scheduler keeps: the queues hold live tasks, and the running task is in none.
use tinyos_rtos.Prelude.{
  ℕ, suc, ◌≤◌, ◌<◌, ◌≡◌, ◌≢◌, true, false, List, [], ◌∷◌, arith, ◌==◌, length, has, Distinct,
  update, Bool-cases, inl, inr, ==→eq,
}
use tinyos_rtos.Links.{null}
use tinyos_rtos.Links.Unlink.{erase, erase-ne, length-erase_mem}
use tinyos_rtos.Kernel.{Kernel, TaskPtr, idle_task}
use tinyos_rtos.Kernel.Queue.Valid.{Queues, Holds}

-- The queues hold tasks of `live`, the list of the tasks that there are.
pub record Stocked (live : List TaskPtr) (k : Kernel) (q : Queues) : Type 0 where
  pub holds : Holds k q
  pub queued_live : (p t : ℕ) → p < 256 → has t (q p) ≡ true → has t live ≡ true
  pub small : (t : ℕ) → has t live ≡ true → (k.tcb t).priority < 256

-- The same with the idle task among them.
pub record Populated (live : List TaskPtr) (k : Kernel) (q : Queues) : Type 0 where
  pub holds : Holds k q
  pub queued_live : (p t : ℕ) → p < 256 → has t (q p) ≡ true → has t live ≡ true
  pub idle_live : has idle_task live ≡ true
  pub small : (t : ℕ) → has t live ≡ true → (k.tcb t).priority < 256

pub Stocked-Populated :
    (live : List TaskPtr) (k : Kernel) (q : Queues)
    → Stocked live k q
    → has idle_task live ≡ true
    → Populated live k q
Stocked-Populated live k q s i = record {
  holds = s.holds;
  queued_live = s.queued_live;
  idle_live = i;
  small = s.small;
}

-- Besides, the running task is live and in no queue.
pub record Sound (live : List TaskPtr) (k : Kernel) (q : Queues) : Type 0 where
  pub populated : Populated live k q
  pub current_live : has k.current_task live ≡ true
  pub current_real : k.current_task ≢ null
  pub current_out : (p : ℕ) → p < 256 → has k.current_task (q p) ≡ false

-- A list without repetition is no longer than a list that has all its elements.
length-le-of_subset :
    (xs live : List ℕ)
    → Distinct xs
    → ((t : ℕ) → has t xs ≡ true → has t live ≡ true)
    → length xs ≤ length live
length-le-of_subset [] live d h = omega arith
length-le-of_subset (x ∷ xs) live d h =
    let shorter : suc (length (erase x live)) ≡ length live =
      length-erase_mem x live (h x (ground arith)) in
    let rest =
      length-le-of_subset xs (erase x live) d.1
        (λ t i. erase-ne x t live (ground arith) (h t (ground arith))) in
    omega arith

-- So a queue is no longer than the list of live tasks, and shorter if the running task counts.
pub length-queue :
    (live : List TaskPtr) (k : Kernel) (q : Queues) (p : ℕ)
    → Sound live k q
    → p < 256
    → length (q p) < length live
length-queue live k q p s lt =
    length-le-of_subset (k.current_task ∷ q p) live
      (s.current_out p lt, s.populated.holds.distinct p lt)
      (λ t i. elim (Bool-cases (t == k.current_task)) [
        | inl e ↦ rw (==→eq _ _ e) s.current_live
        | inr e ↦ s.populated.queued_live p t lt (ground arith)
      ])

-- A task of one queue is in no other.
one_queue :
    (k : Kernel) (q : Queues) (p j t : ℕ)
    → Holds k q
    → p < 256
    → j < 256
    → has t (q p) ≡ true
    → j ≢ p
    → has t (q j) ≡ false
one_queue k q p j t v lp lj i ne = ground (arith, v.filed p t lp i, v.filed j t lj)

-- The taken task is in no queue any more.
pub taken_out :
    (k : Kernel) (q : Queues) (p j t : ℕ) (ts : List TaskPtr)
    → Holds k q
    → p < 256
    → j < 256
    → q p ≡ t ∷ ts
    → has t (update q p ts j) ≡ false
taken_out k q p j t ts v lp lj e = elim (Bool-cases (j == p)) [
  | inl here ↦ let d : Distinct (t ∷ ts) = rw e at (v.distinct p lp) in rw here d.0
  | inr there ↦
      let i : has t (q p) ≡ true = rw e (ground arith) in
      rw there (one_queue k q p j t v lp lj i (ground arith))
]

pub length-queue_le :
    (live : List TaskPtr) (k : Kernel) (q : Queues) (p : ℕ)
    → Stocked live k q
    → p < 256
    → length (q p) ≤ length live
length-queue_le live k q p s lt =
    length-le-of_subset (q p) live (s.holds.distinct p lt) (λ t i. s.queued_live p t lt i)
