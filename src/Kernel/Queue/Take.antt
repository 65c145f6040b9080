-- ===== src/Kernel/Queue/Take.antt =====
-- `scheduler_get_next_task` takes the first task of the highest priority that has one.
use tinyos_rtos.Prelude.{
  ℕ, ◌+◌, ◌*◌, ◌/◌, ◌%◌, ◌≤◌, ◌<◌, ◌≡◌, ◌≢◌, inl, inr, refl, false, none, List, [], ◌∷◌, arith,
  ◌==◌, Bool-cases, Option-cases, List-cases, update, has, Distinct, ==→eq,
}
use tinyos_rtos.Prelude.Bits.{bit, bit-zero}
use tinyos_rtos.Links.{null, Chain, head-null_iff}
use tinyos_rtos.Links.Unlink.{Chain-unlink_head}
use tinyos_rtos.Kernel.{Kernel, TaskPtr, idle_task, next_of}
use tinyos_rtos.Kernel.Queue.{
  cut, unmark_if_empty, unmark, take_first, first_word, ctz, scheduler_get_next_task,
}
use tinyos_rtos.Kernel.Queue.Valid.{Queues, Holds, Frame}
use tinyos_rtos.Kernel.Queue.Bitmap.{ctz_lem, first_word-none, first_word-some}
use tinyos_rtos.Kernel.Queue.Shrink.{Shrunk, Shrunk-Holds}

cut-Shrunk :
    (k : Kernel) (q : Queues) (p : ℕ) (t : TaskPtr) (ts : List TaskPtr)
    → Holds k q
    → p < 256
    → q p ≡ t ∷ ts
    → Shrunk k (cut k p t) q p (next_of k t) ts
unfolding cut
cut-Shrunk k q p t ts v lt e =
    let c : Chain (next_of k) (k.ready_queue p) (t ∷ ts) = rw e at (v.linked p lt) in
    let d : Distinct (t ∷ ts) = rw e at (v.distinct p lt) in
    record {
      queue = λ j. refl;
      chain = Chain-unlink_head (next_of k) _ t ts (refl, c.1, c.2) d (λ y i n. ground arith);
      distinct = d.1;
      fewer = λ y i. rw e (ground arith);
      links = λ y o. let o' : has y (t ∷ ts) ≡ false = rw e at o in ground arith;
      priorities = λ y. ground arith;
      states = λ y. ground arith;
      bitmap = refl;
      had = ground arith;
    }

-- The queues with the first task of priority `p` taken, and what else that changes.
pub record Takes (k k' : Kernel) (q : Queues) (p : ℕ) (ts : List TaskPtr) : Type 0 where
  pub holds : Holds k' (update q p ts)
  pub frame : Frame k k'
  pub states : (y : TaskPtr) → (k'.tcb y).state ≡ (k.tcb y).state

cut_rest :
    (k : Kernel) (p : ℕ) (t : TaskPtr)
    → Frame k (unmark_if_empty (cut k p t) p)
      × ((y : TaskPtr) → ((unmark_if_empty (cut k p t) p).tcb y).state ≡ (k.tcb y).state)
unfolding cut unmark_if_empty unmark
cut_rest k p t = (ground arith, λ y. ground arith)

take_first_lem :
    (k : Kernel) (q : Queues) (p : ℕ) (t : TaskPtr) (ts : List TaskPtr)
    → Holds k q
    → p < 256
    → q p ≡ t ∷ ts
    → ((take_first k p).0 ≡ t) × Takes k (take_first k p).1 q p ts
unfolding take_first
take_first_lem k q p t ts v lt e =
    let c : Chain (next_of k) (k.ready_queue p) (t ∷ ts) = rw e at (v.linked p lt) in
    rw c.0 (
      refl,
      record {
        holds = Shrunk-Holds (cut-Shrunk k q p t ts v lt e) v lt;
        frame = (cut_rest k p t).0;
        states = (cut_rest k p t).1;
      },
    )

-- A queue is empty exactly if its bit is 0.
unmarked_empty :
    (k : Kernel) (q : Queues) (p : ℕ)
    → Holds k q
    → p < 256
    → bit (k.ready_bitmap (p / 32)) (p % 32) ≡ 0
    → q p ≡ []
unmarked_empty k q p v lt off =
    head-null_iff (next_of k) (k.ready_queue p) (q p) (v.linked p lt)
      (ground (arith, v.marked p lt))

marked_nonempty :
    (k : Kernel) (q : Queues) (p : ℕ)
    → Holds k q
    → p < 256
    → bit (k.ready_bitmap (p / 32)) (p % 32) ≡ 1
    → q p ≢ []
marked_nonempty k q p v lt on nil =
    let empty : k.ready_queue p ≡ null = rw nil at (v.linked p lt) in
    absurd (ground (arith, v.marked p lt))

-- What the search finds: the least priority with a task.
search_none :
    (k : Kernel) (q : Queues)
    → Holds k q
    → first_word 8 0 k.ready_bitmap ≡ none
    → (p : ℕ) → p < 256
    → q p ≡ []
search_none k q v e p lt =
    let clear : k.ready_bitmap (p / 32) ≡ 0 =
      first_word-none 8 0 k.ready_bitmap e (p / 32) (omega arith) (omega arith) in
    unmarked_empty k q p v lt (rw clear (bit-zero (p % 32)))

module _ (k : Kernel) (q : Queues) (w c p : ℕ) (v : Holds k q) (at : p ≡ w * 32 + c) (lt : w < 8)
    (bits : c < 32) (on : bit (k.ready_bitmap w) c ≡ 1) where
  search_hit : q p ≢ []
  search_hit =
      let word : p / 32 ≡ w = omega arith in
      let place : p % 32 ≡ c = omega arith in
      marked_nonempty k q p v (omega arith) (rw (word, place) on)

  search_least :
      ((u : ℕ) → 0 ≤ u → u < w → k.ready_bitmap u ≡ 0)
      → ((i : ℕ) → i < c → bit (k.ready_bitmap w) i ≡ 0)
      → (j : ℕ) → j < p
      → q j ≡ []
  search_least below clear j less = elim (Bool-cases (j / 32 == w)) [
    | inl here ↦
        let word : j / 32 ≡ w = ==→eq _ _ here in
        unmarked_empty k q j v (omega arith) (rw word (clear (j % 32) (omega arith)))
    | inr before ↦
        let word : j / 32 < w = ground arith in
        unmarked_empty k q j v (omega arith)
          (rw (below (j / 32) (omega arith) word) (bit-zero (j % 32)))
  ]

-- A task `r.0` taken, with `r.1` behind it: the first of its queue, and no queue of a higher
-- priority has a task.
pub record Picks (k : Kernel) (q : Queues) (r : TaskPtr × Kernel) : Type 0 where
  pub priority : ℕ
  pub rest : List TaskPtr
  pub small : priority < 256
  pub queue : q priority ≡ r.0 ∷ rest
  pub least : (j : ℕ) → j < priority → q j ≡ []
  pub takes : Takes k r.1 q priority rest

take_first-Picks :
    (k : Kernel) (q : Queues) (p : ℕ)
    → Holds k q
    → p < 256
    → q p ≢ []
    → ((j : ℕ) → j < p → q j ≡ [])
    → Picks k q (take_first k p)
take_first-Picks k q p v lt some_task least = elim (List-cases (q p)) [
  | inl nil ↦ absurd (some_task nil)
  | inr (t, ts, e) ↦
      let (is, takes) = take_first_lem k q p t ts v lt e in
      record { priority = p; rest = ts; small = lt; queue = rw is e; least = least; takes = takes }
]

-- Either a task of the highest priority is taken, or all queues are empty.
pub data Outcome (k : Kernel) (q : Queues) (r : TaskPtr × Kernel) : Type 0 where
  picked : Picks k q r → Outcome k q r
  idles : ((p : ℕ) → p < 256 → q p ≡ []) → r ≡ (idle_task, k) → Outcome k q r

-- The call returns the first task of the highest priority that has one, and takes it out of its
-- queue; with all queues empty it returns the idle task and changes nothing.
pub scheduler_get_next_task_lem :
    (k : Kernel) (q : Queues) → Holds k q → Outcome k q (scheduler_get_next_task k)
unfolding scheduler_get_next_task
scheduler_get_next_task_lem k q v = elim (Option-cases (first_word 8 0 k.ready_bitmap)) [
  | inl e ↦ rw (e, scheduler_get_next_task) (idles (search_none k q v e) refl)
  | inr (w, e) ↦
      let (ge, lt, ne, below) = first_word-some 8 0 k.ready_bitmap w e in
      let (bits, on, clear) = ctz_lem 32 (k.ready_bitmap w) (v.words w) ne in
      let c = ctz 32 (k.ready_bitmap w) in
      rw (e, scheduler_get_next_task)
        (picked (
          take_first-Picks k q (w * 32 + c) v (omega arith)
            (search_hit k q w c (w * 32 + c) v refl lt bits on)
            (search_least k q w c (w * 32 + c) v refl lt bits on below clear)))
]
