-- ===== src/Timer.antt =====
-- timer.c: software timers in a list sorted by their expiry. `now` is what `os_get_tick_count`
-- returns. The walks take fuel, and `none` says that it ran out.
pub mod Insert
pub mod Stop
pub mod Process
mod Tests
use tinyos_rtos.Prelude.{
  ℕ, zero, suc, ◌+◌, ◌-◌, ◌^◌, Bool, true, false, not, ◌&&◌, ◌||◌, Option, none, some, List, [],
  ◌∷◌, ltb, leb, ◌==◌, if◌then◌else◌, ◌>>=◌, update,
}
use tinyos_rtos.Prelude.Word.{u32, sub_u32, int32_pos, int32_nonneg}
use tinyos_rtos.Links.{null}
use tinyos_rtos.Kernel.{OsError, ok, invalid_param}
use tinyos_rtos.Kernel.Tasks.{copy_name}

-- `timer_type_t`
pub data TimerType : Type 0 where
  one_shot auto_reload : TimerType

-- `timer_t`; `callback` is an address, 0 for NULL.
pub record SoftTimer : Type 0 where
  pub name : List ℕ
  pub type : TimerType
  pub period : ℕ  -- uint32_t
  pub expire_time : ℕ  -- uint32_t
  pub active : Bool
  pub callback : ℕ
  pub callback_param : ℕ
  pub next : ℕ

-- `timer_manager`, with the timers of memory beside it.
pub record Manager : Type 0 where
  pub active_timers : ℕ
  pub timer_count : ℕ  -- uint32_t
  pub timer : ℕ → SoftTimer

abbrev set_timer : Manager → ℕ → SoftTimer → Manager
set_timer m t c = record m { timer = update m.timer t c }

abbrev pub set_link : Manager → ℕ → ℕ → Manager
set_link m t n = set_timer m t (record (m.timer t) { next = n })

abbrev pub next_of : Manager → ℕ → ℕ
next_of m t = (m.timer t).next

abbrev pub expiry : Manager → ℕ → ℕ
expiry m t = (m.timer t).expire_time

unfoldable os_timer_init : Manager → Manager
os_timer_init m = record m { active_timers = null; timer_count = 0 }

abbrev pub zero_timer : SoftTimer
zero_timer = record {
  name = [];
  type = one_shot;
  period = 0;
  expire_time = 0;
  active = false;
  callback = null;
  callback_param = null;
  next = null;
}

unfoldable os_timer_create :
    ℕ → Option (List ℕ) → TimerType → ℕ → ℕ → ℕ → Manager → OsError × Manager
os_timer_create timer name type period_ms callback callback_param m =
    if timer == null || callback == null || period_ms == 0 then (invalid_param, m) else (
      ok,
      set_timer m timer (record zero_timer {
        name = copy_name name;
        type = type;
        period = period_ms;
        callback = callback;
        callback_param = callback_param;
      }),
    )

-- `while (current->next != NULL && current->next->expire_time <= expire) current = current->next;`
pub walk : ℕ → (ℕ → ℕ) → (ℕ → ℕ) → ℕ → ℕ → Option ℕ
walk zero next key expire current = none
walk (suc fuel) next key expire current =
    let rest = walk fuel next key expire (next current) in
    if not (next current == null) && leb (key (next current)) expire then rest else some current

abbrev pub count_up : Manager → Manager
count_up m = record m { timer_count = u32 (m.timer_count + 1) }

pub timer_insert_sorted : ℕ → Manager → ℕ → Option Manager
timer_insert_sorted fuel m timer =
    if m.active_timers == null || ltb (expiry m timer) (expiry m m.active_timers)
    then some (count_up (record (set_link m timer m.active_timers) { active_timers = timer }))
    else (walk fuel (next_of m) (expiry m) (expiry m timer) m.active_timers >>= λ current.
        some (count_up (set_link (set_link m timer (next_of m current)) current timer)))

-- `while (current != NULL && current->next != timer) current = current->next;`
pub find_prev : ℕ → (ℕ → ℕ) → ℕ → ℕ → Option ℕ
find_prev zero next timer current = none
find_prev (suc fuel) next timer current =
    let rest = find_prev fuel next timer (next current) in
    if not (current == null) && not (next current == timer) then rest else some current

-- What `os_timer_stop` does behind the removal.
abbrev pub deactivate : Manager → ℕ → Manager
deactivate m timer =
    record (set_timer m timer (record (m.timer timer) { active = false; next = null })) {
      timer_count = u32 (m.timer_count + (2 ^ 32 - 1));
    }

-- The removal from the list.
pub take_out : ℕ → Manager → ℕ → Option Manager
take_out fuel m timer =
    if m.active_timers == timer
    then some (record m { active_timers = next_of m timer })
    else (find_prev fuel (next_of m) timer m.active_timers >>= λ current.
        some (if not (current == null) then set_link m current (next_of m timer) else m))

pub os_timer_stop : ℕ → ℕ → Manager → Option (OsError × Manager)
os_timer_stop fuel timer m =
    if timer == null
    then some (invalid_param, m)
    else (if not (m.timer timer).active
        then some (ok, m)
        else (take_out fuel m timer >>= λ m1. some (ok, deactivate m1 timer)))

-- `timer->expire_time = os_get_tick_count() + timer->period; timer->active = true;`
abbrev pub armed : ℕ → ℕ → Manager → Manager
armed now timer m =
    set_timer m timer
      (record (m.timer timer) { expire_time = u32 (now + (m.timer timer).period); active = true })

pub os_timer_start : ℕ → ℕ → ℕ → Manager → Option (OsError × Manager)
os_timer_start fuel now timer m =
    if timer == null
    then some (invalid_param, m)
    else ((if (m.timer timer).active then os_timer_stop fuel timer m else some (ok, m)) >>= λ r.
        timer_insert_sorted fuel (armed now timer r.1) timer >>= λ m2. some (ok, m2))

unfoldable os_timer_reset : ℕ → ℕ → ℕ → Manager → Option (OsError × Manager)
os_timer_reset fuel now timer m =
    if timer == null
    then some (invalid_param, m)
    else (os_timer_stop fuel timer m >>= λ r. os_timer_start fuel now timer r.1)

unfoldable os_timer_delete : ℕ → ℕ → Manager → Option (OsError × Manager)
os_timer_delete fuel timer m =
    if timer == null
    then some (invalid_param, m)
    else ((if (m.timer timer).active then os_timer_stop fuel timer m else some (ok, m)) >>= λ r.
        some (ok, set_timer r.1 timer zero_timer))

unfoldable os_timer_change_period : ℕ → ℕ → ℕ → ℕ → Manager → Option (OsError × Manager)
os_timer_change_period fuel now timer new_period_ms m =
    if timer == null || new_period_ms == 0
    then some (invalid_param, m)
    else (let was_active = (m.timer timer).active in
        (if was_active then os_timer_stop fuel timer m else some (ok, m)) >>= λ r.
        let m1 = set_timer r.1 timer (record (r.1.timer timer) { period = new_period_ms }) in
        if was_active
        then (os_timer_start fuel now timer m1 >>= λ r2. some (ok, r2.1))
        else some (ok, m1))

unfoldable os_timer_get_remaining_ms : ℕ → ℕ → Manager → ℕ
os_timer_get_remaining_ms now timer m =
    if timer == null || not (m.timer timer).active
    then 0
    else (let remaining = sub_u32 (expiry m timer) now in
        if int32_pos remaining then remaining else 0)

abbrev pub is_auto_reload : TimerType → Bool
is_auto_reload auto_reload = true
is_auto_reload one_shot = false

-- `(int32_t)(current_time - timer->expire_time) >= 0`
abbrev pub is_due : ℕ → Manager → ℕ → Bool
is_due now m timer = int32_nonneg (sub_u32 now (expiry m timer))

-- `if (prev == NULL) active_timers = timer; else prev->next = timer;`, with the fields after it.
abbrev pub drop : Manager → ℕ → ℕ → Manager
drop m prev timer =
    let m1 =
      if prev == null
      then record m { active_timers = next_of m timer }
      else set_link m prev (next_of m timer) in
    record (set_timer m1 timer (record (m1.timer timer) { active = false })) {
      timer_count = u32 (m1.timer_count + (2 ^ 32 - 1));
    }

-- The call of the callback of `timer`, noted in front of what follows it.
abbrev note : Manager → ℕ → Option (Manager × List ℕ) → Option (Manager × List ℕ)
note m timer rest =
    rest >>= λ r. some (if (m.timer timer).callback == null then r else (r.0, timer ∷ r.1))

-- The loop of `os_timer_process` at `timer`, behind `prev`: the timers whose callbacks were called, in
-- order, and the state. The callbacks are code of the application, taken not to touch the timers.
pub process_from : ℕ → ℕ → ℕ → ℕ → Manager → Option (Manager × List ℕ)
process_from zero now prev timer m = none
process_from (suc fuel) now prev timer m =
    let m1 = drop m prev timer in
    let rest = process_from fuel now prev (next_of m timer) m1 in
    let reloaded = timer_insert_sorted fuel (armed now timer m1) timer >>= λ m2.
    process_from fuel now null m2.active_timers m2 in
    if timer == null
    then some (m, [])
    else (if is_due now m timer
        then note m timer (if is_auto_reload (m.timer timer).type then reloaded else rest)
        else some (m, []))

pub os_timer_process : ℕ → ℕ → Manager → Option (Manager × List ℕ)
os_timer_process fuel now m = process_from fuel now null m.active_timers m

unfoldable os_timer_is_active : ℕ → Manager → Bool
os_timer_is_active timer m = if timer == null then false else (m.timer timer).active

unfoldable os_timer_get_count : Manager → ℕ
os_timer_get_count m = m.timer_count
