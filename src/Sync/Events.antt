-- ===== src/Sync/Events.antt =====
-- sync.c: event groups. The calls that set bits end with a yield, and those that wait yield in each
-- round: an entry of `rounds` says what the other tasks did to the group before the round, and the tick
-- count at the check of the timeout. `none` says that the task still waits when `rounds` ends.
pub mod Wake
use Prim.Native.Nat.{bit_and, bit_or}
use tinyos_rtos.Prelude.{
  ℕ, ◌+◌, Bool, true, false, not, ◌&&◌, ◌||◌, Option, none, some, List, [], ◌∷◌, ◌==◌,
  if◌then◌else◌,
}
use tinyos_rtos.Prelude.Bits.{not_u32}
use tinyos_rtos.Kernel.{OsError, ok, timeout, invalid_param}
use tinyos_rtos.Sync.MsgQueue.{expired}

-- `event_group_t`; nothing reads its `wait_queue`.
pub record EventGroup : Type 0 where
  pub events : ℕ  -- uint32_t

unfoldable pub os_event_group_init : EventGroup
os_event_group_init = record { events = 0 }

unfoldable pub os_event_group_set_bits : ℕ → EventGroup → EventGroup
os_event_group_set_bits bits g = record g { events = bit_or g.events bits }

unfoldable pub os_event_group_clear_bits : ℕ → EventGroup → EventGroup
os_event_group_clear_bits bits g = record g { events = bit_and g.events (not_u32 bits) }

pub record EventRound : Type 0 where
  pub others : EventGroup → EventGroup
  pub tick : ℕ

-- EVENT_WAIT_ALL and EVENT_CLEAR_ON_EXIT
abbrev pub wait_all : ℕ → Bool
wait_all options = not (bit_and options 1 == 0)

abbrev pub clear_on_exit : ℕ → Bool
clear_on_exit options = not (bit_and options 4 == 0)

unfoldable pub condition_met : Bool → ℕ → ℕ → Bool
condition_met true events bits = bit_and events bits == bits
condition_met false events bits = not (bit_and events bits == 0)

abbrev pub cleared_if : Bool → ℕ → EventGroup → EventGroup
cleared_if true bits g = record g { events = bit_and g.events (not_u32 bits) }
cleared_if false bits g = g

-- The bits that are received, and the group.
unfoldable pub event_loop :
    List EventRound → ℕ → ℕ → ℕ → ℕ → EventGroup → Option (OsError × Option ℕ × EventGroup)
unfolding condition_met
event_loop [] start bits options limit g = none
event_loop (r ∷ rounds) start bits options limit g =
    let g1 = r.others g in
    let rest = event_loop rounds start bits options limit g1 in
    if condition_met (wait_all options) g1.events bits
    then some (ok, some (bit_and g1.events bits), cleared_if (clear_on_exit options) bits g1)
    else (if expired limit start r.tick then some (timeout, none, g1) else rest)

unfoldable pub os_event_group_wait_bits :
    List EventRound → ℕ → ℕ → ℕ → ℕ → EventGroup → Option (OsError × Option ℕ × EventGroup)
os_event_group_wait_bits rounds start bits options limit g =
    if bits == 0
    then some (invalid_param, none, g)
    else event_loop rounds start bits options limit g

abbrev pub os_event_group_get_bits : EventGroup → ℕ
os_event_group_get_bits g = g.events
