-- ===== src/Sync/MsgQueue.antt =====
-- sync.c: message queues, a ring of items of `item_size` bytes in the caller's buffer. The lock is a
-- mutex: each entry of `rounds` says for one round of a loop what the other tasks did to the queue
-- before it, whether `os_mutex_lock` gave the lock (within its 10 ticks), and the tick count at the
-- check of the timeout. While the lock is held the others leave the queue alone. `none` says that the
-- task still waits when `rounds` ends. Sizes are products that fit in size_t, as the buffer exists.
pub mod Rounds
pub mod Ring
pub mod Waits
use tinyos_rtos.Prelude.{
  ℕ, zero, suc, ◌+◌, ◌-◌, ◌*◌, ◌%◌, ◌≡◌, Bool, true, false, not, ◌&&◌, ◌||◌, Option, none, some,
  List, [], ◌∷◌, ltb, leb, ◌==◌, if◌then◌else◌,
}
use tinyos_rtos.Prelude.Word.{sub_u32}
use tinyos_rtos.Prelude.Memory.{copy_in, copy_out}
use tinyos_rtos.Kernel.{OsError, ok, timeout, invalid_param}

-- `msg_queue_t` without its lock. `buffer` is the memory from the address `buffer` on.
pub record MsgQueue : Type 0 where
  pub buffer : ℕ → ℕ
  pub item_size : ℕ
  pub max_items : ℕ
  pub head : ℕ
  pub tail : ℕ
  pub count : ℕ

-- `has_buffer` tells that neither pointer is NULL.
unfoldable pub os_queue_init : Bool → (ℕ → ℕ) → ℕ → ℕ → MsgQueue → OsError × MsgQueue
os_queue_init has_buffer buffer item_size max_items q =
    if not has_buffer || item_size == 0 || max_items == 0 then (invalid_param, q) else (
      ok,
      record {
        buffer = buffer;
        item_size = item_size;
        max_items = max_items;
        head = 0;
        tail = 0;
        count = 0;
      },
    )

-- What the loops do with the lock.
unfoldable pub put : List ℕ → MsgQueue → MsgQueue
put item q = record q {
  buffer = copy_in (q.tail * q.item_size) item q.buffer;
  tail = (q.tail + 1) % q.max_items;
  count = q.count + 1;
}

unfoldable pub front : MsgQueue → List ℕ
front q = copy_out q.item_size (q.head * q.item_size) q.buffer

unfoldable pub remove_front : MsgQueue → MsgQueue
remove_front q = record q { head = (q.head + 1) % q.max_items; count = q.count - 1 }

pub record Round : Type 0 where
  pub others : MsgQueue → MsgQueue
  pub locks : Bool
  pub tick : ℕ

-- `timeout != 0 && (os_get_tick_count() - start_tick) >= timeout`
abbrev pub expired : ℕ → ℕ → ℕ → Bool
expired limit start tick = not (limit == 0) && leb limit (sub_u32 tick start)

unfoldable pub send_loop : List Round → ℕ → ℕ → List ℕ → MsgQueue → Option (OsError × MsgQueue)
send_loop [] start limit item q = none
send_loop (r ∷ rounds) start limit item q =
    let q1 = r.others q in
    let rest = send_loop rounds start limit item q1 in
    if r.locks && ltb q1.count q1.max_items
    then some (ok, put item q1)
    else (if expired limit start r.tick then some (timeout, q1) else rest)

-- `start` is the tick count at the call; `none` as an item is NULL.
unfoldable pub os_queue_send :
    List Round → ℕ → Option (List ℕ) → ℕ → MsgQueue → Option (OsError × MsgQueue)
os_queue_send rounds start none limit q = some (invalid_param, q)
os_queue_send rounds start (some item) limit q = send_loop rounds start limit item q

-- The item that was copied, if any.
unfoldable pub receive_loop :
    List Round → ℕ → ℕ → MsgQueue → Option (OsError × Option (List ℕ) × MsgQueue)
receive_loop [] start limit q = none
receive_loop (r ∷ rounds) start limit q =
    let q1 = r.others q in
    let rest = receive_loop rounds start limit q1 in
    if r.locks && ltb 0 q1.count
    then some (ok, some (front q1), remove_front q1)
    else (if expired limit start r.tick then some (timeout, none, q1) else rest)

unfoldable pub os_queue_receive :
    List Round → ℕ → Bool → ℕ → MsgQueue → Option (OsError × Option (List ℕ) × MsgQueue)
os_queue_receive rounds start has_item limit q =
    if not has_item then some (invalid_param, none, q) else receive_loop rounds start limit q

unfoldable pub peek_loop :
    List Round → ℕ → ℕ → MsgQueue → Option (OsError × Option (List ℕ) × MsgQueue)
peek_loop [] start limit q = none
peek_loop (r ∷ rounds) start limit q =
    let q1 = r.others q in
    let rest = peek_loop rounds start limit q1 in
    if r.locks && ltb 0 q1.count
    then some (ok, some (front q1), q1)
    else (if expired limit start r.tick then some (timeout, none, q1) else rest)

unfoldable pub os_queue_peek :
    List Round → ℕ → Bool → ℕ → MsgQueue → Option (OsError × Option (List ℕ) × MsgQueue)
os_queue_peek rounds start has_item limit q =
    if not has_item then some (invalid_param, none, q) else peek_loop rounds start limit q

abbrev pub os_queue_get_count : MsgQueue → ℕ
os_queue_get_count q = q.count
