-- ===== src/Watchdog/Control.antt =====
-- watchdog.c: initialisation, start, stop, the timeout and the status.
pub mod Life
use tinyos_rtos.Prelude.{
  ℕ, ◌+◌, ◌-◌, Bool, true, false, not, Option, none, some, List, [], ◌∷◌, ltb, if◌then◌else◌,
}
use tinyos_rtos.Prelude.Word.{u32, sub_u32}
use tinyos_rtos.Watchdog.{
  WdtError, wdt_ok, invalid_param, not_initialized, already_initialized, timeout_too_short,
  timeout_too_long, WdtConfig, WdtState, WdtStats, WdtType, World, ResetReason, reset_hardware,
  hal_wdt_init, hal_wdt_enable, hal_wdt_disable, hal_wdt_clear_reset_flag, min_timeout_ms,
  max_timeout_ms, has_hardware, called, when, with_g, zero_state,
}

unfoldable wdt_start : ℕ → World → WdtError × World
wdt_start now w = if not w.g.initialized then (not_initialized, w) else (
  wdt_ok,
  when (has_hardware w.g.config.type) hal_wdt_enable
      (with_g w (record w.g { enabled = true; last_feed_time = now })),
)

unfoldable wdt_stop : World → WdtError × World
wdt_stop w = if not w.g.initialized then (not_initialized, w) else (
  wdt_ok,
  when (has_hardware w.g.config.type) hal_wdt_disable (with_g w (record w.g { enabled = false })),
)

unfoldable wdt_enable : ℕ → World → WdtError × World
wdt_enable now w = wdt_start now w

unfoldable wdt_disable : World → WdtError × World
wdt_disable w = wdt_stop w

-- The state behind the checks of `wdt_init`, up to the test of the reset flag.
abbrev fresh_state : WdtConfig → ℕ → WdtState
fresh_state config now = record zero_state {
  config = config;
  initialized = true;
  last_feed_time = now;
}

-- `if (hal_wdt_was_reset_by_watchdog()) ...`
abbrev note_reset : Bool → World → World
note_reset was_reset w =
    if was_reset
    then called hal_wdt_clear_reset_flag (
        with_g w (record w.g {
          reset_reason = reset_hardware;
          stats = record w.g.stats { hw_resets = u32 (w.g.stats.hw_resets + 1) };
        }))
    else w

-- What `wdt_init` does behind its checks.
pub begin : Bool → ℕ → WdtConfig → World → World
unfolding wdt_start
begin was_reset now config w =
    let w1 = note_reset was_reset (with_g w (fresh_state config now)) in
    let w2 = when (has_hardware config.type) (hal_wdt_init config.timeout_ms) w1 in
    if config.auto_start then (wdt_start now w2).1 else w2

-- `none` is a NULL configuration; `was_reset` is what `hal_wdt_was_reset_by_watchdog` returns.
pub wdt_init : Bool → ℕ → Option WdtConfig → World → WdtError × World
wdt_init was_reset now none w =
    if w.g.initialized then (already_initialized, w) else (invalid_param, w)
wdt_init was_reset now (some config) w =
    if w.g.initialized
    then (already_initialized, w)
    else (if ltb config.timeout_ms min_timeout_ms
        then (timeout_too_short, w)
        else (if ltb max_timeout_ms config.timeout_ms
            then (timeout_too_long, w)
            else (wdt_ok, begin was_reset now config w)))

unfoldable wdt_deinit : World → WdtError × World
wdt_deinit w =
    if not w.g.initialized then (not_initialized, w) else (wdt_ok, with_g (wdt_stop w).1 zero_state)

unfoldable wdt_set_timeout : ℕ → World → WdtError × World
wdt_set_timeout timeout_ms w =
    if not w.g.initialized
    then (not_initialized, w)
    else (if ltb timeout_ms min_timeout_ms
        then (timeout_too_short, w)
        else (if ltb max_timeout_ms timeout_ms then (timeout_too_long, w) else (
          wdt_ok,
          when (has_hardware w.g.config.type) (hal_wdt_init timeout_ms)
              (with_g w (record w.g { config = record w.g.config { timeout_ms = timeout_ms } })),
        )))

pub wdt_get_time_remaining : ℕ → World → ℕ
wdt_get_time_remaining now w =
    if not w.g.initialized
    then 0
    else (let elapsed = sub_u32 now w.g.last_feed_time in
        if ltb elapsed w.g.config.timeout_ms then w.g.config.timeout_ms - elapsed else 0)

-- `wdt_status_t`
pub record WdtStatus : Type 0 where
  pub initialized : Bool
  pub enabled : Bool
  pub type : WdtType
  pub timeout_ms : ℕ
  pub time_remaining_ms : ℕ
  pub last_feed_time : ℕ
  pub registered_tasks : ℕ

-- `wdt_get_status`, for a `status` that is not NULL; it does not ask whether there was an
-- initialisation.
pub wdt_get_status : ℕ → World → WdtStatus
wdt_get_status now w = record {
  initialized = w.g.initialized;
  enabled = w.g.enabled;
  type = w.g.config.type;
  timeout_ms = w.g.config.timeout_ms;
  last_feed_time = w.g.last_feed_time;
  registered_tasks = w.g.num_registered_tasks;
  time_remaining_ms =
      let elapsed = sub_u32 now w.g.last_feed_time in
      if ltb elapsed w.g.config.timeout_ms then w.g.config.timeout_ms - elapsed else 0;
}
