-- ===== src/Watchdog.antt =====
-- watchdog.c: the watchdog's state and its calls. The HAL functions and the callback are code of the
-- platform and of the application: each call of one is recorded, the newest first, and
-- `hal_wdt_trigger_reset` does not return. `now` is what `os_get_tick_count` returns.
pub mod Registry
pub mod Check
pub mod Control
mod Tests
use tinyos_rtos.Prelude.{
  ℕ, zero, suc, ◌+◌, ◌-◌, Bool, true, false, not, ◌&&◌, ◌||◌, Option, none, some, List, [], ◌∷◌,
  ltb, leb, ◌==◌, if◌then◌else◌, update,
}
use tinyos_rtos.Prelude.Word.{u32, sub_u32}
use tinyos_rtos.Links.{null}
use tinyos_rtos.Kernel.{TaskPtr}

-- `wdt_error_t`
pub data WdtError : Type 0 where
  wdt_ok invalid_param not_initialized already_initialized timeout_too_short : WdtError
  timeout_too_long not_enabled task_not_registered max_tasks_reached : WdtError

-- `wdt_type_t`
pub data WdtType : Type 0 where
  hardware software both : WdtType

-- `wdt_reset_reason_t`
pub data ResetReason : Type 0 where
  reset_none reset_hardware reset_software reset_task_timeout : ResetReason

-- `wdt_config_t`; `callback` is an address, 0 for NULL.
pub record WdtConfig : Type 0 where
  pub type : WdtType
  pub timeout_ms : ℕ
  pub auto_start : Bool
  pub enable_reset : Bool
  pub callback : ℕ

-- `wdt_task_entry_t`
pub record Entry : Type 0 where
  pub task : TaskPtr
  pub timeout_ms : ℕ
  pub last_feed_time : ℕ
  pub enabled : Bool
  pub timeout_count : ℕ

-- `wdt_stats_t`
pub record WdtStats : Type 0 where
  pub total_feeds : ℕ
  pub total_timeouts : ℕ
  pub hw_resets : ℕ
  pub sw_resets : ℕ
  pub task_timeouts : ℕ
  pub last_reset_reason : ResetReason
  pub last_timeout_task : TaskPtr

-- `wdt_state_t`; the entries from `num_registered_tasks` on are not in use.
pub record WdtState : Type 0 where
  pub initialized : Bool
  pub enabled : Bool
  pub config : WdtConfig
  pub last_feed_time : ℕ
  pub stats : WdtStats
  pub task_entries : ℕ → Entry
  pub num_registered_tasks : ℕ
  pub reset_reason : ResetReason

-- A call of code outside the watchdog.
pub data Call : Type 0 where
  hal_wdt_init : ℕ → Call
  hal_wdt_feed hal_wdt_enable hal_wdt_disable hal_wdt_clear_reset_flag hal_wdt_trigger_reset : Call
  callback : ℕ → ResetReason → TaskPtr → Call

pub record World : Type 0 where
  pub g : WdtState
  pub calls : List Call

abbrev pub max_monitored_tasks : ℕ
max_monitored_tasks = 8

abbrev pub min_timeout_ms : ℕ
min_timeout_ms = 100

abbrev pub max_timeout_ms : ℕ
max_timeout_ms = 60000

-- `type == WDT_TYPE_HARDWARE || type == WDT_TYPE_BOTH`, and the same for the software watchdog.
abbrev pub has_hardware : WdtType → Bool
has_hardware software = false
has_hardware _ = true

abbrev pub has_software : WdtType → Bool
has_software hardware = false
has_software _ = true

abbrev pub called : Call → World → World
called c w = record w { calls = c ∷ w.calls }

abbrev pub when : Bool → Call → World → World
when b c w = if b then called c w else w

abbrev pub with_g : World → WdtState → World
with_g w g = record w { g = g }

-- `find_task_entry`: the index of the first entry of the task, from `i` on.
pub find_from : ℕ → ℕ → (ℕ → Entry) → TaskPtr → Option ℕ
find_from zero i es task = none
find_from (suc n) i es task =
    let rest = find_from n (i + 1) es task in if (es i).task == task then some i else rest

abbrev pub find_task_entry : WdtState → TaskPtr → Option ℕ
find_task_entry g task = find_from g.num_registered_tasks 0 g.task_entries task

-- `memset(&g_wdt_state, 0, sizeof(g_wdt_state))`
abbrev zero_entry : Entry
zero_entry = record {
  task = null;
  timeout_ms = 0;
  last_feed_time = 0;
  enabled = false;
  timeout_count = 0;
}

abbrev pub zero_stats : WdtStats
zero_stats = record {
  total_feeds = 0;
  total_timeouts = 0;
  hw_resets = 0;
  sw_resets = 0;
  task_timeouts = 0;
  last_reset_reason = reset_none;
  last_timeout_task = null;
}

abbrev zero_config : WdtConfig
zero_config = record {
  type = hardware;
  timeout_ms = 0;
  auto_start = false;
  enable_reset = false;
  callback = null;
}

abbrev pub zero_state : WdtState
zero_state = record {
  initialized = false;
  enabled = false;
  config = zero_config;
  last_feed_time = 0;
  stats = zero_stats;
  task_entries = λ i. zero_entry;
  num_registered_tasks = 0;
  reset_reason = reset_none;
}
