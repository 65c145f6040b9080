-- ===== src/Sync/MsgQueue/Waits.antt =====
-- The calls that wait, as operations on the list that the queue stands for.
use tinyos_rtos.Prelude.{
  Bool-cases, ℕ, ◌≡◌, refl, sym, inl, inr, true, ◌&&◌, Option, none, some, List, [], ◌∷◌, ◌++◌, ltb,
  length, All,
}
use tinyos_rtos.Kernel.{OsError, ok, timeout}
use tinyos_rtos.Sync.MsgQueue.{
  MsgQueue, Round, put, front, remove_front, expired, send_loop, os_queue_send, receive_loop,
  os_queue_receive, peek_loop, os_queue_peek,
}
use tinyos_rtos.Sync.MsgQueue.Ring.{
  IsRing, items, put-IsRing, items-put, remove_front-IsRing, items-remove_front,
}
use tinyos_rtos.Sync.MsgQueue.Rounds.{
  IsTame, Open, Chance, HasRoom, HasItem, Passed, SameSizes, put-SameSizes, remove_front-SameSizes,
  expired-Passed, expired-not_Passed, taken-lt, shut, not_now,
}

-- A send that returned, round by round. It found room, with the lock, and put the item last in the ring
-- that the others left; or it could not and its timeout had passed, and it left the queue as the others
-- did; or neither, and a later round ended it.
pub data Sent (x : List ℕ) (start limit : ℕ) (out : Option (OsError × MsgQueue))
    : List Round → MsgQueue → Type 0 where
  sent :
      (r : Round) (rounds : List Round) (q q1 : MsgQueue)
      → Open HasRoom r q
      → out ≡ some (ok, q1)
      → IsRing q1
      → SameSizes (r.others q) q1
      → items q1 ≡ items (r.others q) ++ (x ∷ [])
      → Sent x start limit out (r ∷ rounds) q
  late :
      (r : Round) (rounds : List Round) (q : MsgQueue)
      → ¬ Open HasRoom r q
      → Passed limit start r.tick
      → out ≡ some (timeout, r.others q)
      → Sent x start limit out (r ∷ rounds) q
  later :
      (r : Round) (rounds : List Round) (q : MsgQueue)
      → ¬ Open HasRoom r q
      → ¬ Passed limit start r.tick
      → Sent x start limit out rounds (r.others q)
      → Sent x start limit out (r ∷ rounds) q

send_loop-Sent :
    (rounds : List Round) (start limit : ℕ) (x : List ℕ) (q : MsgQueue)
    → All (IsTame (length x)) rounds
    → IsRing q
    → q.item_size ≡ length x
    → Chance HasRoom rounds q
    → Sent x start limit (send_loop rounds start limit x q) rounds q
unfolding send_loop
send_loop-Sent [] start limit x q tame ring size chance = absurd chance
send_loop-Sent (r ∷ rounds) start limit x q (tame, tames) ring size chance =
    let (ring1, size1) = tame q ring size in
    let q1 = r.others q in
    elim (Bool-cases (r.locks && ltb q1.count q1.max_items)) [
      | inl go ↦
          let open_now = taken-lt r.locks q1.count q1.max_items go in
          let lt = open_now.1 in
          sent r rounds q (put x q1) open_now (rw go) (put-IsRing x q1 ring1 lt)
            (put-SameSizes x q1) (items-put x q1 ring1 (sym size1) lt)
      | inr no_go ↦
          let closed = shut r.locks q1.count q1.max_items no_go in
          elim (Bool-cases (expired limit start r.tick)) [
            | inl out ↦
                late r rounds q closed (expired-Passed limit start r.tick out) (rw (no_go, out))
            | inr more ↦
                rw (no_go, more)
                  (later r rounds q closed (expired-not_Passed limit start r.tick more) (
                    send_loop-Sent rounds start limit x q1 tames ring1 size1
                      (not_now chance closed)))
          ]
    ]

-- A send of an item of the queue's size, in rounds in which the others keep the ring: if in some round
-- the lock is had and the queue has room, the send returns. It returns in the first round in which the
-- lock is had and the queue has room, or its timeout, which is not 0, has passed: with room it put the
-- item behind those that the others left, else it reports the timeout and leaves the queue as it was.
pub os_queue_send_lem :
    (rounds : List Round) (start limit : ℕ) (x : List ℕ) (q : MsgQueue)
    → All (IsTame (length x)) rounds
    → IsRing q
    → q.item_size ≡ length x
    → Chance HasRoom rounds q
    → Sent x start limit (os_queue_send rounds start (some x) limit q) rounds q
unfolding os_queue_send
os_queue_send_lem rounds start limit x q tame ring size chance =
    send_loop-Sent rounds start limit x q tame ring size chance

-- A receive or a peek that returned, round by round: it got the first item of the ring that the others
-- left, and left what `left` says; or it ran out of time; or a later round ended it.
pub data Got (left : List (List ℕ) → MsgQueue → MsgQueue → Type 0) (start limit : ℕ)
    (out : Option (OsError × Option (List ℕ) × MsgQueue)) : List Round → MsgQueue → Type 0 where
  got :
      (r : Round) (rounds : List Round) (q q1 : MsgQueue) (x : List ℕ) (xs : List (List ℕ))
      → Open HasItem r q
      → items (r.others q) ≡ x ∷ xs
      → out ≡ some (ok, some x, q1)
      → IsRing q1
      → SameSizes (r.others q) q1
      → left xs (r.others q) q1
      → Got left start limit out (r ∷ rounds) q
  late :
      (r : Round) (rounds : List Round) (q : MsgQueue)
      → ¬ Open HasItem r q
      → Passed limit start r.tick
      → out ≡ some (timeout, none, r.others q)
      → Got left start limit out (r ∷ rounds) q
  later :
      (r : Round) (rounds : List Round) (q : MsgQueue)
      → ¬ Open HasItem r q
      → ¬ Passed limit start r.tick
      → Got left start limit out rounds (r.others q)
      → Got left start limit out (r ∷ rounds) q

-- The first item is gone, or all stay.
abbrev pub Shorter : List (List ℕ) → MsgQueue → MsgQueue → Type 0
Shorter xs seen q = items q ≡ xs

abbrev pub Same : List (List ℕ) → MsgQueue → MsgQueue → Type 0
Same xs seen q = q ≡ seen

receive_loop-Got :
    (rounds : List Round) (start limit size : ℕ) (q : MsgQueue)
    → All (IsTame size) rounds
    → IsRing q
    → q.item_size ≡ size
    → Chance HasItem rounds q
    → Got Shorter start limit (receive_loop rounds start limit q) rounds q
unfolding receive_loop
receive_loop-Got [] start limit size q tame ring e chance = absurd chance
receive_loop-Got (r ∷ rounds) start limit size q (tame, tames) ring e chance =
    let (ring1, e1) = tame q ring e in
    let q1 = r.others q in
    elim (Bool-cases (r.locks && ltb 0 q1.count)) [
      | inl go ↦
          let open_now = taken-lt r.locks 0 q1.count go in
          let lt = open_now.1 in
          let first = items-remove_front q1 ring1 lt in
          got r rounds q (remove_front q1) (front q1) (items (remove_front q1)) open_now first
            (rw go) (remove_front-IsRing q1 ring1 lt) (remove_front-SameSizes q1) refl
      | inr no_go ↦
          let closed = shut r.locks 0 q1.count no_go in
          elim (Bool-cases (expired limit start r.tick)) [
            | inl out ↦
                late r rounds q closed (expired-Passed limit start r.tick out) (rw (no_go, out))
            | inr more ↦
                rw (no_go, more)
                  (later r rounds q closed (expired-not_Passed limit start r.tick more) (
                    receive_loop-Got rounds start limit size q1 tames ring1 e1
                      (not_now chance closed)))
          ]
    ]

peek_loop-Got :
    (rounds : List Round) (start limit size : ℕ) (q : MsgQueue)
    → All (IsTame size) rounds
    → IsRing q
    → q.item_size ≡ size
    → Chance HasItem rounds q
    → Got Same start limit (peek_loop rounds start limit q) rounds q
unfolding peek_loop
peek_loop-Got [] start limit size q tame ring e chance = absurd chance
peek_loop-Got (r ∷ rounds) start limit size q (tame, tames) ring e chance =
    let (ring1, e1) = tame q ring e in
    let q1 = r.others q in
    elim (Bool-cases (r.locks && ltb 0 q1.count)) [
      | inl go ↦
          let open_now = taken-lt r.locks 0 q1.count go in
          let lt = open_now.1 in
          got r rounds q q1 (front q1) (items (remove_front q1)) open_now
            (items-remove_front q1 ring1 lt) (rw go) ring1 (refl, refl) refl
      | inr no_go ↦
          let closed = shut r.locks 0 q1.count no_go in
          elim (Bool-cases (expired limit start r.tick)) [
            | inl out ↦
                late r rounds q closed (expired-Passed limit start r.tick out) (rw (no_go, out))
            | inr more ↦
                rw (no_go, more)
                  (later r rounds q closed (expired-not_Passed limit start r.tick more) (
                    peek_loop-Got rounds start limit size q1 tames ring1 e1
                      (not_now chance closed)))
          ]
    ]

-- A receive and a peek, in rounds in which the others keep the ring: if in some round the lock is had
-- and the queue has an item, each returns. It returns in the first round in which the lock is had and
-- the queue has an item, or its timeout, which is not 0, has passed: with an item it got the first of
-- the list that the others left, which the receive takes out and the peek leaves, else it reports the
-- timeout and leaves the queue as it was.
pub os_queue_receive_lem :
    (rounds : List Round) (start limit size : ℕ) (q : MsgQueue)
    → All (IsTame size) rounds
    → IsRing q
    → q.item_size ≡ size
    → Chance HasItem rounds q
    → Got Shorter start limit (os_queue_receive rounds start true limit q) rounds q
      × Got Same start limit (os_queue_peek rounds start true limit q) rounds q
unfolding os_queue_receive os_queue_peek
os_queue_receive_lem rounds start limit size q tame ring e chance = (
  receive_loop-Got rounds start limit size q tame ring e chance,
  peek_loop-Got rounds start limit size q tame ring e chance,
)
