-- ===== src/Timer/Tests.antt =====
-- The timers' theorems at small lists.
use tinyos_rtos.Prelude.{
  ℕ, ◌≡◌, refl, Bool, true, false, some, [], ◌∷◌, arith, ◌==◌, if◌then◌else◌, has,
}
use tinyos_rtos.Links.{null}
use tinyos_rtos.Kernel.{ok}
use tinyos_rtos.Timer.{
  Manager, SoftTimer, zero_timer, timer_insert_sorted, os_timer_stop, os_timer_process,
}
use tinyos_rtos.Timer.Insert.{Lists, Inserted, timer_insert_sorted_lem}
use tinyos_rtos.Timer.Stop.{Stopped, os_timer_stop_lem}
use tinyos_rtos.Timer.Process.{OneShot, due, not_due, os_timer_process_lem}

abbrev a_timer : Bool → ℕ → ℕ → SoftTimer
a_timer active expire next = record zero_timer {
  active = active;
  expire_time = expire;
  period = 50;
  callback = 9;
  next = next;
}

-- Timers 10 and 11 wait for the times 100 and 200; timer 12 does not wait.
abbrev timers : ℕ → SoftTimer
timers t =
    if t == 10
    then a_timer true 100 11
    else (if t == 11 then a_timer true 200 null else a_timer false 150 null)

abbrev two : Manager
two = record { active_timers = 10; timer_count = 2; timer = timers }

two-Lists : Lists two (10 ∷ 11 ∷ [])
two-Lists = record {
  chain = (refl, (λ e. ground arith), (refl, (λ e. ground arith), refl));
  distinct = (refl, (refl, tt));
  counted = refl;
}

timer_insert_sorted_lem_example :
    (m' : Manager) × (timer_insert_sorted 2 two 12 ≡ some m') × Inserted two m' (10 ∷ 11 ∷ []) 12
timer_insert_sorted_lem_example =
    timer_insert_sorted_lem 2 two (10 ∷ 11 ∷ []) 12 two-Lists (λ e. ground arith) refl (omega arith)

os_timer_stop_lem_example :
    (m' : Manager) × (os_timer_stop 2 11 two ≡ some (ok, m')) × Stopped two m' (10 ∷ 11 ∷ []) 11
os_timer_stop_lem_example =
    os_timer_stop_lem 2 two (10 ∷ 11 ∷ []) 11 two-Lists refl (λ e. ground arith) refl (omega arith)

two-OneShot : OneShot two (10 ∷ 11 ∷ [])
two-OneShot y i = (ground arith, λ e. ground arith)

os_timer_process_lem_example :
    (m' : Manager) × (os_timer_process 3 120 two ≡ some (m', due 120 two (10 ∷ 11 ∷ [])))
    × Lists m' (not_due 120 two (10 ∷ 11 ∷ []))
    × ((y : ℕ) → has y (due 120 two (10 ∷ 11 ∷ [])) ≡ true → (m'.timer y).active ≡ false)
os_timer_process_lem_example =
    os_timer_process_lem 3 120 two (10 ∷ 11 ∷ []) two-Lists two-OneShot (omega arith)
