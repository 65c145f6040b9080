-- ===== src/Kernel/Queue/Remove.antt =====
-- `scheduler_remove_task` takes a task out of the queue of its priority, wherever it stands.
use mathlib.Core.Path.{fun_ext}
use tinyos_rtos.Prelude.{
  ℕ, ◌<◌, ◌≡◌, ◌≢◌, inl, inr, refl, true, false, some, List, [], ◌∷◌, arith, ◌==◌, Bool-cases,
  update, has, Distinct, length, ==→eq, ap, ◌∙◌,
}
use tinyos_rtos.Links.{null, Chain, behind, null-not-mem}
use tinyos_rtos.Links.Unlink.{
  pred_of, pred_of-mem, pred_of-ne, pred_of-head, pred_of-later, erase, erase-later,
  find_node-pred_of, pred_of-absent, pred_of-behind, erase-absent, erase-head, erase-mem,
  Distinct-erase, Chain-unlink, Chain-unlink_head,
}
use tinyos_rtos.Kernel.{Kernel, TaskPtr, set_next, next_of}
use tinyos_rtos.Kernel.Queue.{
  set_queue, unmark_if_empty, unmark, bypass, unlink, scheduler_remove_task,
}
use tinyos_rtos.Kernel.Queue.Valid.{Queues, Holds, Frame}
use tinyos_rtos.Kernel.Queue.Shrink.{Shrunk, Shrunk-Holds}
use tinyos_rtos.Kernel.Queue.Take.{Takes}

-- The first task of its queue.
bypass-head :
    (k : Kernel) (q : Queues) (t : TaskPtr) (ts : List TaskPtr) (p : ℕ)
    → Holds k q
    → p < 256
    → (k.tcb t).priority ≡ p
    → q p ≡ t ∷ ts
    → Shrunk k (bypass k t null) q p (next_of k t) ts
unfolding bypass set_queue
bypass-head k q t ts p v lt own e =
    let c : Chain (next_of k) (k.ready_queue p) (t ∷ ts) = rw e at (v.linked p lt) in
    let d : Distinct (t ∷ ts) = rw e at (v.distinct p lt) in
    record {
      queue = λ j. rw own;
      chain = Chain-unlink_head (next_of k) _ t ts (refl, c.1, c.2) d (λ y i n. ground arith);
      distinct = d.1;
      fewer = λ y i. rw e (ground arith);
      links = λ y o. let o' : has y (t ∷ ts) ≡ false = rw e at o in ground arith;
      priorities = λ y. ground arith;
      states = λ y. ground arith;
      bitmap = refl;
      had = ground arith;
    }

-- A task further on, behind `r`.
abbrev skip : Kernel → TaskPtr → TaskPtr → Kernel
skip k t r = set_next (set_next k r (next_of k t)) t null

bypass-skip : (k : Kernel) (t r : TaskPtr) → r ≢ null → bypass k t r ≡ skip k t r
unfolding bypass
bypass-skip k t r ne = ground arith

skip-Shrunk :
    (k : Kernel) (q : Queues) (t x r : TaskPtr) (xs : List TaskPtr) (p : ℕ)
    → Holds k q
    → p < 256
    → q p ≡ x ∷ xs
    → x ≢ t
    → has t xs ≡ true
    → pred_of t x xs ≡ behind r
    → Shrunk k (skip k t r) q p x (x ∷ erase t xs)
skip-Shrunk k q t x r xs p v lt e ne at found =
    let c : Chain (next_of k) (k.ready_queue p) (x ∷ xs) = rw e at (v.linked p lt) in
    let d : Distinct (x ∷ xs) = rw e at (v.distinct p lt) in
    let in_list : has r (x ∷ xs) ≡ true = pred_of-mem t x r xs found in
    let apart : r ≢ t = pred_of-ne t x r xs ne found in
    record {
      queue = λ j. ground (arith, ==→eq j p);
      chain =
          Chain-unlink (next_of k) _ x t r xs (refl, c.1, c.2) d ne found (ground arith)
            (λ y h n m. ground arith);
      distinct = (ground (arith, erase-mem t x xs), Distinct-erase t xs d.1);
      fewer = λ y h. rw e (ground (arith, erase-mem t y xs));
      links = λ y o. let o' : has y (x ∷ xs) ≡ false = rw e at o in ground arith;
      priorities = λ y. ground arith;
      states = λ y. ground arith;
      bitmap = refl;
      had = ground arith;
    }

bypass_rest :
    (k : Kernel) (t r : TaskPtr) (p : ℕ)
    → Frame k (unmark_if_empty (bypass k t r) p)
      × ((y : TaskPtr) → ((unmark_if_empty (bypass k t r) p).tcb y).state ≡ (k.tcb y).state)
unfolding bypass unmark_if_empty unmark set_queue
bypass_rest k t r p = (ground arith, λ y. ground arith)

removed_head :
    (k : Kernel) (q : Queues) (t : TaskPtr) (ts : List TaskPtr) (p : ℕ)
    → Holds k q
    → p < 256
    → (k.tcb t).priority ≡ p
    → q p ≡ t ∷ ts
    → Takes k (unlink k t (behind null)) q p (erase t (q p))
unfolding unlink
removed_head k q t ts p v lt own e =
    rw (e, erase-head, own)
      (record {
        holds = Shrunk-Holds (bypass-head k q t ts p v lt own e) v lt;
        frame = (bypass_rest k t null p).0;
        states = (bypass_rest k t null p).1;
      })

removed_behind :
    (k : Kernel) (q : Queues) (t x r : TaskPtr) (xs : List TaskPtr) (p : ℕ)
    → Holds k q
    → p < 256
    → (k.tcb t).priority ≡ p
    → q p ≡ x ∷ xs
    → x ≢ t
    → has t xs ≡ true
    → pred_of t x xs ≡ behind r
    → Takes k (unlink k t (behind r)) q p (erase t (q p))
unfolding unlink
removed_behind k q t x r xs p v lt own e ne at found =
    let c : Chain (next_of k) (k.ready_queue p) (x ∷ xs) = rw e at (v.linked p lt) in
    let c' : Chain (next_of k) x (x ∷ xs) = (refl, c.1, c.2) in
    let real : r ≢ null =
      ground (arith, null-not-mem (next_of k) x (x ∷ xs) c', pred_of-mem t x r xs found) in
    rw (e, erase-later t x xs ne, own)
      (record {
        holds =
            rw (bypass-skip k t r real)
              (Shrunk-Holds (skip-Shrunk k q t x r xs p v lt e ne at found) v lt);
        frame = (bypass_rest k t r p).0;
        states = (bypass_rest k t r p).1;
      })

update_self : (q : Queues) (p : ℕ) → update q p (q p) ≡ q
update_self q p = fun_ext (λ j. ground (arith, ==→eq j p))

removed_absent :
    (k : Kernel) (q : Queues) (t : TaskPtr) (p : ℕ)
    → Holds k q
    → has t (q p) ≡ false
    → Takes k k q p (erase t (q p))
removed_absent k q t p v out =
    rw (erase-absent t (q p) out)
      (record { holds = rw (update_self q p) v; frame = ground arith; states = λ y. refl })

removed :
    (k : Kernel) (q : Queues) (t : TaskPtr) (p : ℕ)
    → Holds k q
    → p < 256
    → (k.tcb t).priority ≡ p
    → Takes k (unlink k t (pred_of t null (q p))) q p (erase t (q p))
      × (has t (q p) ≡ false → unlink k t (pred_of t null (q p)) ≡ k)
unfolding unlink
removed k q t p v lt own = elim (Bool-cases (has t (q p))) [
  | inr out ↦ rw (pred_of-absent t null (q p) out) (removed_absent k q t p v out, λ _. refl)
  | inl at ↦ (present (q p) refl at, λ out. absurd (ground arith))
]
  where
    present :
        (ys : List TaskPtr)
        → q p ≡ ys
        → has t (q p) ≡ true
        → Takes k (unlink k t (pred_of t null (q p))) q p (erase t (q p))
    present [] e at = let at' : has t [] ≡ true = rw e at at in cc
    present (x ∷ xs) e at = elim (Bool-cases (x == t)) [
      | inl hit ↦
          let e' : q p ≡ t ∷ xs = e ∙ ap (λ (z : ℕ). z ∷ xs) (==→eq _ _ hit) in
          let found : pred_of t null (q p) ≡ behind null = rw e' (pred_of-head t null xs) in
          rw found (removed_head k q t xs p v lt own e')
      | inr miss ↦
          let ne : x ≢ t = ground arith in
          let at' : has t (x ∷ xs) ≡ true = rw e at at in
          let further : has t xs ≡ true = ground arith in
          let (r, found, _) = pred_of-behind t x xs further in
          let found' : pred_of t null (q p) ≡ behind r =
            ap (pred_of t null) e ∙ pred_of-later t null x xs ne ∙ found in
          rw found' (removed_behind k q t x r xs p v lt own e ne further found)
    ]

-- The call returns; a task that is in the queue of its priority is taken out of it, the others keep
-- their order, and a task that is not there changes nothing.
pub scheduler_remove_task_lem :
    (fuel : ℕ) (k : Kernel) (q : Queues) (t : TaskPtr) (p : ℕ)
    → Holds k q
    → p < 256
    → (k.tcb t).priority ≡ p
    → length (q p) < fuel
    → (k' : Kernel) × (scheduler_remove_task fuel k t ≡ some k')
      × Takes k k' q p (erase t (q p))
      × (has t (q p) ≡ false → k' ≡ k)
unfolding scheduler_remove_task
scheduler_remove_task_lem fuel k q t p v lt own short =
    let (takes, absent_same) = removed k q t p v lt own in
    (
      unlink k t (pred_of t null (q p)),
      rw (
        own,
        find_node-pred_of fuel (next_of k) null (k.ready_queue p) t (q p) (v.linked p lt) short,
      ),
      takes,
      absent_same,
    )
