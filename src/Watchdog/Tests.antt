-- ===== src/Watchdog/Tests.antt =====
-- The watchdog's theorems at small tables.
use tinyos_rtos.Prelude.{
  ℕ, ◌<◌, ◌≡◌, refl, Bool, true, false, [], ◌∷◌, arith, has, if◌then◌else◌, ◌==◌,
}
use tinyos_rtos.Links.Unlink.{erase}
use tinyos_rtos.Watchdog.{WdtConfig, Entry, World, both, wdt_ok, task_not_registered, zero_state}
use tinyos_rtos.Watchdog.Registry.{new_entry, wdt_unregister_task}
use tinyos_rtos.Watchdog.Registry.Listed.{registered, tasks_from}
use tinyos_rtos.Watchdog.Registry.Calls.{WellFormed, wdt_unregister_task_lem}
use tinyos_rtos.Watchdog.Check.{returns, resets, expired, wdt_feed}
use tinyos_rtos.Watchdog.Check.Expired.{expired_count, Resets, wdt_feed-Resets}

abbrev config : WdtConfig
config = record {
  type = both;
  timeout_ms = 2000;
  auto_start = true;
  enable_reset = true;
  callback = 77;
}

abbrev off : World
off = record { g = zero_state; calls = [] }

-- Tasks 20 and 21, with the timeouts 500 and 900.
abbrev table : ℕ → Entry
table i = if i == 0 then new_entry 20 500 1000 else new_entry 21 900 1000

abbrev watching : Bool → World
watching reset = record {
  g = record zero_state {
    initialized = true;
    enabled = true;
    config = record config { enable_reset = reset };
    last_feed_time = 1000;
    task_entries = table;
    num_registered_tasks = 2;
  };
  calls = [];
}

wdt_unregister_task_lem_example :
    (has 20 (registered (watching true).g) ≡ false
      → wdt_unregister_task 20 (watching true) ≡ (task_not_registered, watching true))
    × (has 20 (registered (watching true).g) ≡ true
        → let r = wdt_unregister_task 20 (watching true) in
          (r.0 ≡ wdt_ok)
          × (registered r.1.g ≡ erase 20 (registered (watching true).g))
          × (WellFormed (watching true).g → WellFormed r.1.g))
wdt_unregister_task_lem_example =
    wdt_unregister_task_lem 20 (watching true) refl (λ e. ground arith)

listed : registered (watching true).g ≡ 20 ∷ 21 ∷ []
unfolding tasks_from
listed = refl

wdt_feed-Resets_example :
    let w = watching true in
    let late = expired_count 2 0 1600 w.g.task_entries in
    (late ≡ 0
      → (w' : World) × (wdt_feed 1600 w ≡ returns wdt_ok w')
        × (w'.g.last_feed_time ≡ 1600)
        × (w'.g.task_entries ≡ w.g.task_entries))
    × (0 < late
        → (j : ℕ) × (w' : World) × (j < 2)
          × (expired 1600 (w.g.task_entries j) ≡ true)
          × ((m : ℕ) → m < j → expired 1600 (w.g.task_entries m) ≡ false)
          × (wdt_feed 1600 w ≡ resets w')
          × Resets j w w')
wdt_feed-Resets_example = wdt_feed-Resets 1600 (watching true) refl refl refl refl
