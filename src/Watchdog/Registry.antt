-- ===== src/Watchdog/Registry.antt =====
-- watchdog.c: the tasks that the watchdog monitors.
pub mod Listed
pub mod Calls
use tinyos_rtos.Prelude.{
  ℕ, zero, suc, ◌+◌, ◌-◌, Bool, true, false, not, Option, none, some, List, [], ◌∷◌, ltb, leb, ◌==◌,
  if◌then◌else◌, update,
}
use tinyos_rtos.Links.{null}
use tinyos_rtos.Kernel.{TaskPtr}
use tinyos_rtos.Watchdog.{
  WdtError, wdt_ok, invalid_param, not_initialized, timeout_too_short, task_not_registered,
  max_tasks_reached, Entry, WdtState, World, min_timeout_ms, max_monitored_tasks, with_g,
  find_task_entry,
}

abbrev pub new_entry : TaskPtr → ℕ → ℕ → Entry
new_entry task timeout now = record {
  task = task;
  timeout_ms = timeout;
  last_feed_time = now;
  enabled = true;
  timeout_count = 0;
}

-- The new entry, behind the others.
abbrev pub with_entry : WdtState → Entry → WdtState
with_entry g e = record g {
  task_entries = update g.task_entries g.num_registered_tasks e;
  num_registered_tasks = g.num_registered_tasks + 1;
}

-- `if (find_task_entry(task)) return ...`, as a test.
abbrev pub found : Option ℕ → Bool
found none = false
found (some i) = true

pub wdt_register_task : ℕ → TaskPtr → ℕ → World → WdtError × World
wdt_register_task now task timeout w =
    if not w.g.initialized
    then (not_initialized, w)
    else (if task == null
        then (invalid_param, w)
        else (if ltb timeout min_timeout_ms
            then (timeout_too_short, w)
            else (if found (find_task_entry w.g task)
                then (invalid_param, w)
                else (if leb max_monitored_tasks w.g.num_registered_tasks
                    then (max_tasks_reached, w)
                    else (wdt_ok, with_g w (with_entry w.g (new_entry task timeout now)))))))

-- `for (j = i; j < num - 1; j++) entries[j] = entries[j + 1];`, with the number of rounds.
pub shift_from : ℕ → ℕ → (ℕ → Entry) → ℕ → Entry
shift_from zero j es = es
shift_from (suc n) j es = shift_from n (j + 1) (update es j (es (j + 1)))

abbrev pub without_entry : WdtState → ℕ → WdtState
without_entry g i = record g {
  task_entries = shift_from (g.num_registered_tasks - 1 - i) i g.task_entries;
  num_registered_tasks = g.num_registered_tasks - 1;
}

-- What the calls on an entry do behind their checks: the error if there is none.
abbrev at_entry : Option ℕ → (ℕ → WdtState) → World → WdtError × World
at_entry none change w = (task_not_registered, w)
at_entry (some i) change w = (wdt_ok, with_g w (change i))

-- The checks that they share.
abbrev on_entry : TaskPtr → (ℕ → WdtState) → World → WdtError × World
on_entry task change w =
    if not w.g.initialized
    then (not_initialized, w)
    else (if task == null then (invalid_param, w) else at_entry (find_task_entry w.g task) change w)

pub wdt_unregister_task : TaskPtr → World → WdtError × World
wdt_unregister_task task w = on_entry task (without_entry w.g) w

abbrev pub set_entry : WdtState → ℕ → Entry → WdtState
set_entry g i e = record g { task_entries = update g.task_entries i e }

pub wdt_feed_task : ℕ → TaskPtr → World → WdtError × World
wdt_feed_task now task w =
    on_entry task (λ i. set_entry w.g i (record (w.g.task_entries i) { last_feed_time = now })) w

unfoldable wdt_enable_task : ℕ → TaskPtr → World → WdtError × World
wdt_enable_task now task w =
    on_entry task
      (λ i. set_entry w.g i (record (w.g.task_entries i) { enabled = true; last_feed_time = now }))
      w

unfoldable wdt_disable_task : TaskPtr → World → WdtError × World
wdt_disable_task task w =
    on_entry task (λ i. set_entry w.g i (record (w.g.task_entries i) { enabled = false })) w

unfoldable wdt_is_task_registered : TaskPtr → World → Bool
wdt_is_task_registered task w = found (find_task_entry w.g task)
