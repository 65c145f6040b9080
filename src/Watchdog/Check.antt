-- ===== src/Watchdog/Check.antt =====
-- watchdog.c: the check of the tasks, the feeding of the watchdog, resets and statistics.
pub mod Expired
use tinyos_rtos.Prelude.{
  ℕ, zero, suc, ◌+◌, ◌-◌, Bool, true, false, not, ◌&&◌, Option, none, some, List, [], ◌∷◌, ltb, leb,
  ◌==◌, if◌then◌else◌, update,
}
use tinyos_rtos.Prelude.Word.{u32, sub_u32}
use tinyos_rtos.Links.{null}
use tinyos_rtos.Kernel.{TaskPtr}
use tinyos_rtos.Watchdog.{
  WdtError, wdt_ok, not_initialized, not_enabled, Entry, WdtState, WdtStats, World, reset_software,
  reset_task_timeout, hal_wdt_feed, hal_wdt_trigger_reset, callback, has_hardware, has_software,
  called, when, with_g, zero_stats,
}

-- Whether a call returns, or ends in `hal_wdt_trigger_reset`.
pub data Run (A : Type 0) : Type 0 where
  returns : A → World → Run A
  resets : World → Run A

abbrev pub then_run : {A : Type 0} {B : Type 0} → Run A → (A → World → Run B) → Run B
then_run (returns a w) f = f a w
then_run (resets w) f = resets w

-- `entry->enabled` and `elapsed >= entry->timeout_ms`.
pub expired : ℕ → Entry → Bool
expired now e = e.enabled && leb e.timeout_ms (sub_u32 now e.last_feed_time)

-- The counters of a timeout of entry `i`.
pub count_timeout : WdtState → ℕ → WdtState
count_timeout g i =
    let e = g.task_entries i in
    record g {
      task_entries =
          update g.task_entries i (record e { timeout_count = u32 (e.timeout_count + 1) });
      stats = record g.stats {
        task_timeouts = u32 (g.stats.task_timeouts + 1);
        total_timeouts = u32 (g.stats.total_timeouts + 1);
        last_timeout_task = e.task;
        last_reset_reason = reset_task_timeout;
      };
    }

-- `if (config.callback) config.callback(WDT_RESET_TASK_TIMEOUT, entry->task);`
pub notify : World → TaskPtr → World
notify w task =
    when (not (w.g.config.callback == null)) (callback w.g.config.callback reset_task_timeout task)
      w

-- `reset_reason = WDT_RESET_TASK_TIMEOUT; stats.sw_resets++; hal_wdt_trigger_reset();`
pub reset_now : World → World
reset_now w = called hal_wdt_trigger_reset (
    with_g w (record w.g {
      reset_reason = reset_task_timeout;
      stats = record w.g.stats { sw_resets = u32 (w.g.stats.sw_resets + 1) };
    }))

-- What happens on a timeout of entry `i`, up to the reset.
pub timed_out : World → ℕ → World
unfolding count_timeout notify
timed_out w i = notify (with_g w (count_timeout w.g i)) (w.g.task_entries i).task

-- The loop, over `n` entries from `i` on.
pub check_from : ℕ → ℕ → ℕ → World → Run Unit
unfolding expired timed_out reset_now
check_from zero i now w = returns tt w
check_from (suc n) i now w =
    let w1 = timed_out w i in
    let rest = check_from n (i + 1) now w1 in
    let rest_same = check_from n (i + 1) now w in
    if expired now (w.g.task_entries i)
    then (if w.g.config.enable_reset then resets (reset_now w1) else rest)
    else rest_same

pub wdt_check_tasks : ℕ → World → Run Unit
unfolding check_from
wdt_check_tasks now w =
    if not w.g.initialized
    then returns tt w
    else (if not w.g.enabled then returns tt w else check_from w.g.num_registered_tasks 0 now w)

-- The feed itself: the time, the counter and the hardware.
pub fed : ℕ → World → World
fed now w = when (has_hardware w.g.config.type) hal_wdt_feed (
    with_g w (record w.g {
      last_feed_time = now;
      stats = record w.g.stats { total_feeds = u32 (w.g.stats.total_feeds + 1) };
    }))

pub wdt_feed : ℕ → World → Run WdtError
wdt_feed now w =
    if not w.g.initialized
    then returns not_initialized w
    else (if not w.g.enabled
        then returns not_enabled w
        else (let w1 = fed now w in
            if has_software w1.g.config.type
            then then_run (wdt_check_tasks now w1) (λ u w2. returns wdt_ok w2)
            else returns wdt_ok w1))

-- `for (...) task_entries[i].timeout_count = 0;`
unfoldable clear_counts : ℕ → ℕ → (ℕ → Entry) → ℕ → Entry
clear_counts zero i es = es
clear_counts (suc n) i es =
    clear_counts n (i + 1) (update es i (record (es i) { timeout_count = 0 }))

unfoldable wdt_reset_stats : World → World
unfolding clear_counts
wdt_reset_stats w = with_g w (record w.g {
  stats = zero_stats;
  task_entries = clear_counts w.g.num_registered_tasks 0 w.g.task_entries;
})

unfoldable wdt_trigger_reset : World → Run Unit
wdt_trigger_reset w =
    let w1 =
      when (not (w.g.config.callback == null)) (callback w.g.config.callback reset_software null)
        w in
    resets (
      called hal_wdt_trigger_reset (
        with_g w1 (record w1.g {
          reset_reason = reset_software;
          stats = record w1.g.stats {
            sw_resets = u32 (w1.g.stats.sw_resets + 1);
            last_reset_reason = reset_software;
          };
        })))
