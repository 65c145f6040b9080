-- ===== src/Kernel/Queue.antt =====
-- kernel.c: `scheduler_add_ready_task`, `scheduler_get_next_task`, `scheduler_remove_task`.
-- A queue is a linked list through `tcb_t.next`, and the bitmap marks the queues that are not
-- empty. The walks along a queue take `fuel`.
pub mod Valid
pub mod Bitmap
pub mod Add
pub mod Shrink
pub mod Take
pub mod Remove
use Prim.Native.Nat.{bit_and, bit_or}
use tinyos_rtos.Prelude.{
  ℕ, zero, suc, ◌+◌, ◌*◌, ◌/◌, ◌%◌, ◌^◌, Bool, true, false, Option, none, some, ◌==◌, if◌then◌else◌,
  update, ◌>>=◌,
}
use tinyos_rtos.Prelude.Bits.{not_u32}
use tinyos_rtos.Links.{null, last_node, find_node, Found, absent, behind}
use tinyos_rtos.Kernel.{
  Kernel, TaskPtr, Tcb, TaskState, ready, is_ready, idle_task, set_state, set_next, next_of,
}

-- `kernel.ready_bitmap[p / 32] |= 1u << (p % 32)`
pub mark : Kernel → ℕ → Kernel
mark k p = record k {
  ready_bitmap = update k.ready_bitmap (p / 32) (bit_or (k.ready_bitmap (p / 32)) (2 ^ (p % 32)));
}

-- `kernel.ready_bitmap[p / 32] &= ~(1u << (p % 32))`
pub unmark : Kernel → ℕ → Kernel
unmark k p = record k {
  ready_bitmap =
      update k.ready_bitmap (p / 32) (bit_and (k.ready_bitmap (p / 32)) (not_u32 (2 ^ (p % 32))));
}

-- The clearing of a bit that both removals end in.
pub unmark_if_empty : Kernel → ℕ → Kernel
unmark_if_empty k p = if k.ready_queue p == null then unmark k p else k

pub set_queue : Kernel → ℕ → TaskPtr → Kernel
set_queue k p t = record k { ready_queue = update k.ready_queue p t }

-- What `scheduler_add_ready_task` does behind the insertion: `task->next = NULL`, and the bit.
add_end : TaskPtr → Kernel → Kernel
unfolding mark
add_end task k = mark (set_next k task null) (k.tcb task).priority

-- `if (task->state != TASK_STATE_READY) task->state = TASK_STATE_READY;`
made_ready : Kernel → TaskPtr → Kernel
made_ready k task = if is_ready (k.tcb task).state then k else set_state k task ready

-- The insertion at the end of the queue of the task's priority, and what follows it.
insert_end : ℕ → Kernel → TaskPtr → Option Kernel
insert_end fuel k task =
    let p = (k.tcb task).priority in
    if k.ready_queue p == null
    then some (add_end task (set_queue k p task))
    else (last_node fuel (next_of k) (k.ready_queue p) >>= λ tail.
        some (add_end task (set_next k tail task)))

unfoldable pub scheduler_add_ready_task : ℕ → Kernel → TaskPtr → Option Kernel
unfolding made_ready insert_end add_end set_queue
scheduler_add_ready_task fuel k task = insert_end fuel (made_ready k task) task

-- The `for` over the words of the bitmap: the first that is not 0, from word `w` on.
pub first_word : ℕ → ℕ → (ℕ → ℕ) → Option ℕ
first_word zero w bitmap = none
first_word (suc n) w bitmap =
    let rest = first_word n (w + 1) bitmap in if bitmap w == 0 then rest else some w

-- `__builtin_ctz` of a word of that many bits.
pub ctz : ℕ → ℕ → ℕ
ctz zero w = 0
ctz (suc n) w = let rest = ctz n (w / 2) in if w % 2 == 1 then 0 else suc rest

-- `ready_queue[i] = task->next; task->next = NULL;`
pub cut : Kernel → ℕ → TaskPtr → Kernel
unfolding set_queue
cut k i task = set_next (set_queue k i (next_of k task)) task null

-- The body of that `for`, at priority `i`.
pub take_first : Kernel → ℕ → TaskPtr × Kernel
take_first k i = let task = k.ready_queue i in (task, unmark_if_empty (cut k i task) i)

pub scheduler_get_next_task : Kernel → TaskPtr × Kernel
scheduler_get_next_task k = elim (first_word 8 0 k.ready_bitmap) [
  | none ↦ (idle_task, k)
  | some w ↦ take_first k (w * 32 + ctz 32 (k.ready_bitmap w))
]

-- The links around a task that the walk has found behind `prev`.
bypass : Kernel → TaskPtr → TaskPtr → Kernel
unfolding set_queue
bypass k task prev =
    let p = (k.tcb task).priority in
    let k1 =
      if prev == null then set_queue k p (next_of k task) else set_next k prev (next_of k task) in
    set_next k1 task null

-- What follows the walk: nothing if the task is not in its queue.
unlink : Kernel → TaskPtr → Found → Kernel
unlink k task absent = k
unlink k task (behind prev) = unmark_if_empty (bypass k task prev) (k.tcb task).priority

pub scheduler_remove_task : ℕ → Kernel → TaskPtr → Option Kernel
scheduler_remove_task fuel k task =
    find_node fuel (next_of k) null (k.ready_queue (k.tcb task).priority) task >>= λ found.
    some (unlink k task found)
