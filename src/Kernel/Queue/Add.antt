-- ===== src/Kernel/Queue/Add.antt =====
-- `scheduler_add_ready_task` against the lists that the queues stand for.
use tinyos_rtos.Prelude.{
  ℕ, ◌≤◌, ◌<◌, ◌≡◌, ◌≢◌, sym, ap, ◌∙◌, ◌⊎◌, inl, inr, refl, true, false, some, List, [], ◌∷◌, ◌++◌,
  arith, ◌==◌, if◌then◌else◌, Bool-cases, update, ==→eq, length, has, Distinct, List-cases,
}
use tinyos_rtos.Links.{null, Chain, Chain-frame, head-null_iff}
use tinyos_rtos.Links.Append.{last_of, last_of-mem, last_node-last_of, Chain-append}
use tinyos_rtos.Kernel.{Kernel, TaskPtr, ready, is_ready, set_next, next_of}
use tinyos_rtos.Kernel.Queue.{
  mark, set_queue, add_end, made_ready, insert_end, scheduler_add_ready_task,
}
use tinyos_rtos.Kernel.Queue.Valid.{Queues, Holds, Frame, Frame-trans}
use tinyos_rtos.Kernel.Queue.Bitmap.{mark-bit, mark-lt}

pub has-append_one :
    (y t : ℕ) (xs : List ℕ) → has y (xs ++ t ∷ []) ≡ true → (y ≡ t) ⊎ (has y xs ≡ true)
has-append_one y t [] h = ground arith
has-append_one y t (x ∷ xs) h = ground (arith, has-append_one y t xs)

pub Distinct-append_one :
    (t : ℕ) (xs : List ℕ) → Distinct xs → has t xs ≡ false → Distinct (xs ++ t ∷ [])
Distinct-append_one t [] d h = (refl, tt)
Distinct-append_one t (x ∷ xs) d h =
    (ground (arith, has-append_one x t xs), Distinct-append_one t xs d.1 (ground arith))

-- What a task's entry into the queue of priority `p` changes.
record Appended (k k' : Kernel) (q : Queues) (p : ℕ) (t h : TaskPtr) : Type 0 where
  queue : (j : ℕ) → k'.ready_queue j ≡ (if j == p then h else k.ready_queue j)
  chain : Chain (next_of k') h (q p ++ t ∷ [])
  head : h ≢ null
  links : (y : ℕ) → y ≢ t → has y (q p) ≡ false → next_of k' y ≡ next_of k y
  priorities : (y : ℕ) → (k'.tcb y).priority ≡ (k.tcb y).priority
  states : (y : ℕ) → y ≢ t → (k'.tcb y).state ≡ (k.tcb y).state
  entered : (k'.tcb t).state ≡ ready
  bitmap : k'.ready_bitmap ≡ (mark k p).ready_bitmap

module _ {k k' : Kernel} {q : Queues} {p : ℕ} {t h : TaskPtr} (a : Appended k k' q p t h)
    (v : Holds k q) (small : p < 256) (own : (k.tcb t).priority ≡ p)
    (out : has t (q p) ≡ false) where
  -- the queues after it
  abbrev after : Queues
  after = update q p (q p ++ t ∷ [])

  apart : (j y : ℕ) → j < 256 → j ≢ p → has y (q j) ≡ true → (y ≢ t) × (has y (q p) ≡ false)
  apart j y lt ne i = (
    λ e. ne (sym (v.filed j y lt i).0 ∙ ap (λ z. (k.tcb z).priority) e ∙ own),
    ground (arith, v.filed j y lt i, v.filed p y small),
  )

  Appended-linked : (j : ℕ) → j < 256 → Chain (next_of k') (k'.ready_queue j) (after j)
  Appended-linked j lt = elim (Bool-cases (j == p)) [
    | inl e ↦ rw (a.queue j) (rw e a.chain)
    | inr e ↦ rw (a.queue j) (
        rw e (
          Chain-frame (next_of k) (next_of k') (k.ready_queue j) (q j) (v.linked j lt)
            (λ y i. let (ne, o) = apart j y lt (ground arith) i in a.links y ne o)))
  ]

  Appended-filed :
      (j y : ℕ)
      → j < 256
      → has y (after j) ≡ true
      → ((k'.tcb y).priority ≡ j) × ((k'.tcb y).state ≡ ready)
  Appended-filed j y lt i = elim (Bool-cases (j == p)) [
    | inl e ↦ elim (has-append_one y t (q p) (rw e at i)) [
      | inl new ↦ rw new (ground (arith, a.priorities t, a.entered))
      | inr old ↦ elim (Bool-cases (y == t)) [
        | inl new ↦ rw (==→eq y t new) (ground (arith, a.priorities t, a.entered))
        | inr other ↦ ground (arith, a.priorities y, a.states y, v.filed p y small old)
      ]
    ]
    | inr e ↦
        let i' : has y (q j) ≡ true = rw e at i in
        let (ne, o) = apart j y lt (ground arith) i' in
        ground (arith, a.priorities y, a.states y ne, v.filed j y lt i')
  ]

  Appended-Distinct : (j : ℕ) → j < 256 → Distinct (after j)
  Appended-Distinct j lt = elim (Bool-cases (j == p)) [
    | inl e ↦ rw e (Distinct-append_one t (q p) (v.distinct p small) out)
    | inr e ↦ rw e (v.distinct j lt)
  ]

  Appended-Holds : Holds k' after
  Appended-Holds = record {
    linked = Appended-linked;
    distinct = Appended-Distinct;
    filed = Appended-filed;
    marked = λ j lt. rw a.bitmap (ground (arith, mark-bit k p j, v.marked j, a.queue j, a.head));
    words = λ w. rw a.bitmap (mark-lt k p w v.words);
  }

-- On a ready task that is in no queue.
add_end-empty :
    (k : Kernel) (q : Queues) (t : TaskPtr) {p : ℕ}
    → Holds k q
    → p < 256
    → (k.tcb t).priority ≡ p
    → (k.tcb t).state ≡ ready
    → t ≢ null
    → k.ready_queue p ≡ null
    → Appended k (add_end t (set_queue k p t)) q p t t
unfolding add_end set_queue mark
add_end-empty k q t {p} v lt own is ne empty =
    let nil : q p ≡ [] = head-null_iff (next_of k) (k.ready_queue p) (q p) (v.linked p lt) empty in
    record {
      queue = λ j. refl;
      chain = rw nil (refl, ne, ground arith);
      head = ne;
      links = λ y n o. ground arith;
      priorities = λ y. ground arith;
      states = λ y n. ground arith;
      entered = ground arith;
      bitmap = rw own;
    }

add_end-behind :
    (k : Kernel) (q : Queues) (t x : TaskPtr) (xs : List TaskPtr) {p : ℕ}
    → Holds k q
    → p < 256
    → (k.tcb t).priority ≡ p
    → (k.tcb t).state ≡ ready
    → t ≢ null
    → q p ≡ x ∷ xs
    → has t (x ∷ xs) ≡ false
    → Appended k (add_end t (set_next k (last_of x xs) t)) q p t x
unfolding add_end mark
add_end-behind k q t x xs {p} v lt own is ne e out =
    let c : Chain (next_of k) (k.ready_queue p) (x ∷ xs) = rw e at (v.linked p lt) in
    let d : Distinct (x ∷ xs) = rw e at (v.distinct p lt) in
    let c' : Chain (next_of k) x (x ∷ xs) = (refl, c.1, c.2) in
    let other : last_of x xs ≢ t = ground (arith, last_of-mem x xs) in
    let same : ((set_next k (last_of x xs) t).tcb t).priority ≡ p = ground arith in
    record {
      queue = λ j. ground arith;
      chain = rw e (
          Chain-append (next_of k) _ x t xs c' d ne (ground arith) (ground arith)
            (λ y i n. ground arith));
      head = c.1;
      links =
          λ y n o. let o' : has y (x ∷ xs) ≡ false = rw e at o in ground (arith, last_of-mem x xs);
      priorities = λ y. ground arith;
      states = λ y n. ground arith;
      entered = ground arith;
      bitmap = ap (λ (z : ℕ). (mark k z).ready_bitmap) same;
    }

-- The state is made READY first; that changes nothing for the queues.
made_ready-Holds : (k : Kernel) (q : Queues) (t : TaskPtr) → Holds k q → Holds (made_ready k t) q
unfolding made_ready
made_ready-Holds k q t v = elim (Bool-cases (is_ready (k.tcb t).state)) [
  | inl e ↦ rw e v
  | inr e ↦ rw e (record {
    linked = λ p lt.
        Chain-frame (next_of k) _ (k.ready_queue p) (q p) (v.linked p lt) (λ y i. ground arith);
    distinct = v.distinct;
    filed = λ p y lt i. ground (arith, v.filed p y lt i);
    marked = v.marked;
    words = v.words;
  })
]

made_ready-state : (k : Kernel) (t : TaskPtr) → ((made_ready k t).tcb t).state ≡ ready
unfolding made_ready
made_ready-state k t = ground arith

made_ready-Frame : (k : Kernel) (t : TaskPtr) → Frame k (made_ready k t)
unfolding made_ready
made_ready-Frame k t = ground arith

made_ready-priority :
    (k : Kernel) (t : TaskPtr) → ((made_ready k t).tcb t).priority ≡ (k.tcb t).priority
unfolding made_ready
made_ready-priority k t = ground arith

made_ready-others :
    (k : Kernel) (t y : TaskPtr) → y ≢ t → ((made_ready k t).tcb y).state ≡ (k.tcb y).state
unfolding made_ready
made_ready-others k t y ne = ground arith

-- The two insertions leave the rest alone.
add_end-Frame :
    (k : Kernel) (t u : TaskPtr) (j : ℕ)
    → Frame k (add_end t (set_queue k j u)) × Frame k (add_end t (set_next k u t))
unfolding add_end set_queue mark
add_end-Frame k t u j = (ground arith, ground arith)

-- The queue of priority `p` with `t` behind the rest, and what else a filing of `t` changes.
pub record Files (k k' : Kernel) (q : Queues) (p : ℕ) (t : TaskPtr) : Type 0 where
  pub holds : Holds k' (update q p (q p ++ t ∷ []))
  pub frame : Frame k k'
  pub entered : (k'.tcb t).state ≡ ready
  pub others : (y : TaskPtr) → y ≢ t → (k'.tcb y).state ≡ (k.tcb y).state

add_end-states : (k : Kernel) (t y : TaskPtr) → ((add_end t k).tcb y).state ≡ (k.tcb y).state
unfolding add_end mark
add_end-states k t y = ground arith

set_next-states : (k : Kernel) (u t y : TaskPtr) → ((set_next k u t).tcb y).state ≡ (k.tcb y).state
set_next-states k u t y = ground arith

insert_end_lem :
    (fuel : ℕ) (k : Kernel) (q : Queues) (t : TaskPtr) (p : ℕ)
    → Holds k q
    → p < 256
    → (k.tcb t).priority ≡ p
    → (k.tcb t).state ≡ ready
    → t ≢ null
    → has t (q p) ≡ false
    → length (q p) ≤ fuel
    → (k' : Kernel) × (insert_end fuel k t ≡ some k')
      × Holds k' (update q p (q p ++ t ∷ []))
      × Frame k k'
      × ((y : TaskPtr) → (k'.tcb y).state ≡ (k.tcb y).state)
unfolding insert_end set_queue
insert_end_lem fuel k q t p v lt own is ne out short = elim (List-cases (q p)) [
  | inl nil ↦
      let empty : k.ready_queue p ≡ null = rw nil at (v.linked p lt) in
      (
        add_end t (set_queue k p t),
        ground arith,
        Appended-Holds (add_end-empty k q t v lt own is ne empty) v lt own out,
        (add_end-Frame k t t p).0,
        add_end-states (set_queue k p t) t,
      )
  | inr (x, xs, e) ↦
      let c : Chain (next_of k) (k.ready_queue p) (x ∷ xs) = rw e at (v.linked p lt) in
      let c' : Chain (next_of k) x (x ∷ xs) = (refl, c.1, c.2) in
      let few : length xs < fuel = ground arith in
      (
        add_end t (set_next k (last_of x xs) t),
        ground (arith, last_node-last_of fuel (next_of k) x xs c' few),
        Appended-Holds (add_end-behind k q t x xs v lt own is ne e (rw e at out)) v lt own out,
        (add_end-Frame k t (last_of x xs) p).1,
        λ y.
            add_end-states (set_next k (last_of x xs) t) t y ∙ set_next-states k (last_of x xs) t y,
      )
]

-- A call on a task that is in no queue returns, and puts it, ready, at the end of the queue of its
-- priority: the fuel need only cover that queue.
pub scheduler_add_ready_task_lem :
    (fuel : ℕ) (k : Kernel) (q : Queues) (t : TaskPtr) (p : ℕ)
    → Holds k q
    → p < 256
    → (k.tcb t).priority ≡ p
    → t ≢ null
    → has t (q p) ≡ false
    → length (q p) ≤ fuel
    → (k' : Kernel) × (scheduler_add_ready_task fuel k t ≡ some k') × Files k k' q p t
unfolding scheduler_add_ready_task
scheduler_add_ready_task_lem fuel k q t p v lt own ne out short =
    let own' : ((made_ready k t).tcb t).priority ≡ p = made_ready-priority k t ∙ own in
    let (k', run, holds, frame, states) =
      insert_end_lem fuel (made_ready k t) q t p (made_ready-Holds k q t v) lt own'
        (made_ready-state k t) ne out short in
    (
      k',
      run,
      record {
        holds = holds;
        frame = Frame-trans (made_ready-Frame k t) frame;
        entered = states t ∙ made_ready-state k t;
        others = λ y n. states y ∙ made_ready-others k t y n;
      },
    )

-- Whatever the queues hold, the task has no next task then.
pub next-scheduler_add_ready_task :
    (fuel : ℕ) (k k' : Kernel) (task : TaskPtr)
    → scheduler_add_ready_task fuel k task ≡ some k'
    → next_of k' task ≡ null
unfolding scheduler_add_ready_task
next-scheduler_add_ready_task fuel k k' task e = ground arith
