-- ===== src/Sync/WaitTests.antt =====
-- The theorems on message queues and event groups at small inputs.
use tinyos_rtos.Prelude.{refl, true, false, some, List, [], ◌∷◌, arith, inl, inr}
use tinyos_rtos.Prelude.Bits.{bit}
use tinyos_rtos.Sync.MsgQueue.{MsgQueue, Round, os_queue_send, os_queue_receive, os_queue_peek}
use tinyos_rtos.Sync.MsgQueue.Ring.{IsRing}
use tinyos_rtos.Sync.MsgQueue.Waits.{
  Sent, Got, Shorter, Same, os_queue_send_lem, os_queue_receive_lem,
}
use tinyos_rtos.Sync.Events.{EventGroup, EventRound, os_event_group_wait_bits}
use tinyos_rtos.Sync.Events.Wake.{Woken, os_event_group_wait_bits_lem}

-- Two items of two bytes, the first in the second place; full.
abbrev full : MsgQueue
full = record { buffer = λ a. a; item_size = 2; max_items = 2; head = 1; tail = 1; count = 2 }

full-IsRing : IsRing full
full-IsRing = ground arith

-- At first the lock is not had, then the queue is full, then another task has taken an item.
abbrev quiet : MsgQueue → MsgQueue
quiet q = q

abbrev take_one : MsgQueue → MsgQueue
take_one q = record q { head = 0; tail = 1; count = 1; max_items = 2 }

abbrev rounds : List Round
rounds =
    record { others = quiet; locks = false; tick = 1 }
    ∷ record { others = quiet; locks = true; tick = 2 }
    ∷ record { others = take_one; locks = true; tick = 3 }
    ∷ []

abbrev still : List Round
still = record { others = quiet; locks = true; tick = 3 } ∷ []

os_queue_send_lem_example :
    Sent (7 ∷ 8 ∷ []) 0 0 (os_queue_send rounds 0 (some (7 ∷ 8 ∷ [])) 0 full) rounds full
os_queue_send_lem_example =
    os_queue_send_lem rounds 0 0 (7 ∷ 8 ∷ []) full
      ((λ q r e. (r, e)), ((λ q r e. (r, e)), ((λ q r e. (ground arith, e)), tt))) full-IsRing refl
      (inr (inr (inl (refl, omega arith))))

os_queue_receive_lem_example :
    Got Shorter 0 5 (os_queue_receive still 0 true 5 full) still full
    × Got Same 0 5 (os_queue_peek still 0 true 5 full) still full
os_queue_receive_lem_example =
    os_queue_receive_lem still 0 5 2 full ((λ q r e. (r, e)), tt) full-IsRing refl
      (inl (refl, omega arith))

abbrev set_both : EventGroup → EventGroup
set_both g = record { events = 7 }

abbrev set_round : List EventRound
set_round = record { others = set_both; tick = 1 } ∷ []

os_event_group_wait_bits_lem_example :
    Woken 3 4 0 0
      (os_event_group_wait_bits set_round 0 3 4 0 (record { events = 1 }))
      set_round
      (record { events = 1 })
unfolding bit
os_event_group_wait_bits_lem_example =
    os_event_group_wait_bits_lem set_round 0 3 4 0 (record { events = 1 })
      ((λ g h. omega arith), tt) (omega arith) (omega arith) (omega arith) (inl (0, refl, refl))
