-- ===== src/Watchdog/Control/Life.antt =====
-- The life of the watchdog: when it starts, with what state, and how much time it leaves.
use tinyos_rtos.Prelude.{
  ℕ, ◌+◌, ◌-◌, ◌^◌, ◌≤◌, ◌<◌, ◌≡◌, refl, Bool, true, false, Option, none, some, arith,
  if◌then◌else◌,
}
use tinyos_rtos.Prelude.Word.{u32, sub_u32}
use tinyos_rtos.Watchdog.{
  wdt_ok, invalid_param, already_initialized, timeout_too_short, timeout_too_long, WdtConfig, World,
  zero_stats,
}
use tinyos_rtos.Watchdog.Control.{begin, wdt_init, wdt_get_time_remaining, wdt_get_status}

-- The refusals of the initialisation, in the order of the checks; none changes anything.
pub wdt_init_refused :
    (was_reset : Bool) (now : ℕ) (config : Option WdtConfig) (c : WdtConfig) (w : World)
    → (w.g.initialized ≡ true → wdt_init was_reset now config w ≡ (already_initialized, w))
      × (w.g.initialized ≡ false → wdt_init was_reset now none w ≡ (invalid_param, w))
      × (w.g.initialized ≡ false
          → c.timeout_ms < 100
          → wdt_init was_reset now (some c) w ≡ (timeout_too_short, w))
      × (w.g.initialized ≡ false
          → 60000 < c.timeout_ms
          → wdt_init was_reset now (some c) w ≡ (timeout_too_long, w))
unfolding wdt_init
wdt_init_refused was_reset now none c w =
    (λ e. ground arith, λ e. ground arith, λ e short. ground arith, λ e long. ground arith)
wdt_init_refused was_reset now (some config) c w =
    (λ e. ground arith, λ e. ground arith, λ e short. ground arith, λ e long. ground arith)

begin_lem :
    (was_reset : Bool) (now : ℕ) (config : WdtConfig) (w : World)
    → let w' = begin was_reset now config w in
      (w'.g.initialized ≡ true)
      × (w'.g.enabled ≡ config.auto_start)
      × (w'.g.config ≡ config)
      × (w'.g.num_registered_tasks ≡ 0)
      × (w'.g.last_feed_time ≡ now)
      × (w'.g.stats ≡ record zero_stats { hw_resets = if was_reset then 1 else 0 })
unfolding begin
begin_lem was_reset now config w =
    (ground arith, ground arith, ground arith, ground arith, ground arith, ground arith)

-- A timeout of 100 to 60000 ms starts the life of the watchdog: it is initialised, enabled exactly if
-- the configuration asks for it, watches no task, has the time, and counts a reset by the watchdog
-- before.
pub wdt_init_lem :
    (was_reset : Bool) (now : ℕ) (config : WdtConfig) (w : World)
    → w.g.initialized ≡ false
    → 100 ≤ config.timeout_ms
    → config.timeout_ms ≤ 60000
    → let r = wdt_init was_reset now (some config) w in
      (r.0 ≡ wdt_ok)
      × (r.1.g.initialized ≡ true)
      × (r.1.g.enabled ≡ config.auto_start)
      × (r.1.g.config ≡ config)
      × (r.1.g.num_registered_tasks ≡ 0)
      × (r.1.g.last_feed_time ≡ now)
      × (r.1.g.stats ≡ record zero_stats { hw_resets = if was_reset then 1 else 0 })
unfolding wdt_init
wdt_init_lem was_reset now config w fresh long short =
    let goes : wdt_init was_reset now (some config) w ≡ (wdt_ok, begin was_reset now config w) =
      ground arith in
    let (init, enabled, same, none_yet, time, stats) = begin_lem was_reset now config w in
    rw goes (refl, init, enabled, same, none_yet, time, stats)

-- Of a timeout of `t` ms, `d` ms after the last feed `t - d` ms are left, and none once they have
-- passed, also across a wrap of the clock; the status says the same.
pub wdt_get_time_remaining_lem :
    (d : ℕ) (w : World)
    → w.g.initialized ≡ true
    → w.g.last_feed_time < 2 ^ 32
    → d < 2 ^ 32
    → let now = u32 (w.g.last_feed_time + d) in
      (wdt_get_time_remaining now w ≡ w.g.config.timeout_ms - d)
      × ((wdt_get_status now w).time_remaining_ms ≡ wdt_get_time_remaining now w)
unfolding wdt_get_time_remaining wdt_get_status
wdt_get_time_remaining_lem d w init small small' =
    let e : sub_u32 (u32 (w.g.last_feed_time + d)) w.g.last_feed_time ≡ d = omega arith in
    (ground (arith, e), ground (arith, e))
