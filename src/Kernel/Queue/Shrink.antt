-- ===== src/Kernel/Queue/Shrink.antt =====
-- What both ways of taking a task out of its queue have in common.
use tinyos_rtos.Prelude.{
  ℕ, ◌≡◌, ◌≢◌, ◌<◌, inl, inr, true, false, List, arith, ◌==◌, if◌then◌else◌, Bool-cases, update,
  has, Distinct,
}
use tinyos_rtos.Links.{null, Chain, Chain-frame}
use tinyos_rtos.Kernel.{Kernel, TaskPtr, ready, next_of}
use tinyos_rtos.Kernel.Queue.{unmark, unmark_if_empty}
use tinyos_rtos.Kernel.Queue.Valid.{Queues, Holds}
use tinyos_rtos.Kernel.Queue.Bitmap.{unmark-bit, unmark-lt}

-- The queue of priority `p` now starts at `h` and holds `zs`, some of what it held.
pub record Shrunk (k k' : Kernel) (q : Queues) (p : ℕ) (h : TaskPtr) (zs : List TaskPtr)
    : Type 0 where
  pub queue : (j : ℕ) → k'.ready_queue j ≡ (if j == p then h else k.ready_queue j)
  pub chain : Chain (next_of k') h zs
  pub distinct : Distinct zs
  pub fewer : (y : ℕ) → has y zs ≡ true → has y (q p) ≡ true
  pub links : (y : ℕ) → has y (q p) ≡ false → next_of k' y ≡ next_of k y
  pub priorities : (y : ℕ) → (k'.tcb y).priority ≡ (k.tcb y).priority
  pub states : (y : ℕ) → (k'.tcb y).state ≡ (k.tcb y).state
  pub bitmap : k'.ready_bitmap ≡ k.ready_bitmap
  pub had : k.ready_queue p ≢ null

module _ {k k' : Kernel} {q : Queues} {p : ℕ} {h : TaskPtr} {zs : List TaskPtr}
    (s : Shrunk k k' q p h zs) (v : Holds k q) (small : p < 256) where
  Shrunk-linked : (j : ℕ) → j < 256 → Chain (next_of k') (k'.ready_queue j) (update q p zs j)
  Shrunk-linked j lt = elim (Bool-cases (j == p)) [
    | inl e ↦ rw (s.queue j) (rw e s.chain)
    | inr e ↦ rw (s.queue j) (
        rw e (
          Chain-frame (next_of k) (next_of k') (k.ready_queue j) (q j) (v.linked j lt)
            (λ y i. s.links y (ground (arith, v.filed j y lt i, v.filed p y small)))))
  ]

  Shrunk-Distinct : (j : ℕ) → j < 256 → Distinct (update q p zs j)
  Shrunk-Distinct j lt = elim (Bool-cases (j == p)) [
    | inl e ↦ rw e s.distinct
    | inr e ↦ rw e (v.distinct j lt)
  ]

  Shrunk-filed :
      (j y : ℕ)
      → j < 256
      → has y (update q p zs j) ≡ true
      → ((k'.tcb y).priority ≡ j) × ((k'.tcb y).state ≡ ready)
  Shrunk-filed j y lt i = elim (Bool-cases (j == p)) [
    | inl e ↦
        let i' : has y zs ≡ true = rw e at i in
        ground (arith, s.priorities y, s.states y, v.filed p y small (s.fewer y i'))
    | inr e ↦
        let i' : has y (q j) ≡ true = rw e at i in
        ground (arith, s.priorities y, s.states y, v.filed j y lt i')
  ]

  -- The bit is cleared if the queue is left empty.
  pub Shrunk-Holds : Holds (unmark_if_empty k' p) (update q p zs)
  unfolding unmark_if_empty unmark
  Shrunk-Holds = elim (Bool-cases (k'.ready_queue p == null)) [
    | inl e ↦ rw e (record {
      linked = Shrunk-linked;
      distinct = Shrunk-Distinct;
      filed = Shrunk-filed;
      marked =
          λ j lt. ground (arith, unmark-bit k' p j, v.marked j lt, s.queue j, s.queue p, s.bitmap);
      words = λ w. unmark-lt k' p w (λ u. rw s.bitmap (v.words u));
    })
    | inr e ↦ rw e (record {
      linked = Shrunk-linked;
      distinct = Shrunk-Distinct;
      filed = Shrunk-filed;
      marked = λ j lt. rw s.bitmap (ground (arith, v.marked j lt, s.queue j, s.queue p, s.had));
      words = λ w. rw s.bitmap (v.words w);
    })
  ]
