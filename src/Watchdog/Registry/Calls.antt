-- ===== src/Watchdog/Registry/Calls.antt =====
-- What the calls do to the list of the monitored tasks.
use tinyos_rtos.Prelude.{
  ℕ, zero, suc, ◌+◌, ◌-◌, ◌≤◌, ◌<◌, ◌≡◌, ◌≢◌, ◌∙◌, inl, inr, refl, true, false, some, [], ◌∷◌, ◌++◌,
  arith, leb, ltb, update, has, Distinct, Option-cases, ne→==, ap,
}
use tinyos_rtos.Links.{null}
use tinyos_rtos.Links.Unlink.{erase, erase-mem, Distinct-erase}
use tinyos_rtos.Kernel.{TaskPtr}
use tinyos_rtos.Kernel.Queue.Add.{has-append_one, Distinct-append_one}
use tinyos_rtos.Watchdog.{
  Entry, WdtState, World, wdt_ok, invalid_param, task_not_registered, max_tasks_reached, find_from,
  find_task_entry, with_g,
}
use tinyos_rtos.Watchdog.Registry.{
  found, shift_from, with_entry, without_entry, new_entry, set_entry, wdt_register_task,
  wdt_unregister_task, wdt_feed_task,
}
use tinyos_rtos.Watchdog.Registry.Listed.{
  registered, tasks_from, find_from-has, find_from-some, tasks_from-same, tasks_from-append,
  tasks_from-erase, shift_from-at,
}

-- The table holds at most 8 tasks, none twice and none NULL, with timeouts of at least 100 ms.
pub record WellFormed (g : WdtState) : Type 0 where
  pub bounded : g.num_registered_tasks ≤ 8
  pub distinct : Distinct (registered g)
  pub no_null : has null (registered g) ≡ false
  pub timeouts : (i : ℕ) → i < g.num_registered_tasks → 100 ≤ (g.task_entries i).timeout_ms

with_entry-registered :
    (g : WdtState) (e : Entry) → registered (with_entry g e) ≡ registered g ++ e.task ∷ []
with_entry-registered g e =
    let n = g.num_registered_tasks in
    let es = update g.task_entries n e in
    let more : n + 1 ≡ suc n = omega arith in
    rw
      (
        more,
        tasks_from-append n 0 es,
        tasks_from-same n 0 g.task_entries es (λ m ge lt. ground arith),
      )
      (ground arith)

with_entry-WellFormed :
    (g : WdtState) (e : Entry)
    → WellFormed g
    → has e.task (registered g) ≡ false
    → e.task ≢ null
    → 100 ≤ e.timeout_ms
    → g.num_registered_tasks < 8
    → WellFormed (with_entry g e)
with_entry-WellFormed g e v out real long room = record {
  bounded = omega arith;
  distinct =
      rw (with_entry-registered g e) (Distinct-append_one e.task (registered g) v.distinct out);
  no_null =
      rw (with_entry-registered g e)
        (ground (arith, has-append_one null e.task (registered g), v.no_null));
  timeouts = λ i lt. ground (arith, v.timeouts i);
}

without_entry-registered :
    (g : WdtState) (t : TaskPtr) (j : ℕ)
    → find_task_entry g t ≡ some j
    → registered (without_entry g j) ≡ erase t (registered g)
unfolding find_from
without_entry-registered g t j e = elim-count g.num_registered_tasks e
  where
    elim-count :
        (n : ℕ)
        → find_from n 0 g.task_entries t ≡ some j
        → tasks_from (n - 1) 0 (shift_from (n - 1 - j) j g.task_entries)
          ≡ erase t (tasks_from n 0 g.task_entries)
    elim-count zero e' = absurd cc
    elim-count (suc n) e' =
        let less : suc n - 1 ≡ n = omega arith in
        let in_range = find_from-some (suc n) 0 g.task_entries t j e' in
        rw less (
          tasks_from-erase n 0 g.task_entries (shift_from (n - j) j g.task_entries) t j e'
            (λ m ge lt. ground (arith, shift_from-at (n - j) j m g.task_entries, in_range)))

without_entry-WellFormed :
    (g : WdtState) (t : TaskPtr) (j : ℕ)
    → WellFormed g
    → find_task_entry g t ≡ some j
    → WellFormed (without_entry g j)
without_entry-WellFormed g t j v e =
    let n = g.num_registered_tasks in
    let same = without_entry-registered g t j e in
    record {
      bounded = omega (arith, v.bounded);
      distinct = rw same (Distinct-erase t (registered g) v.distinct);
      no_null = rw same (ground (arith, erase-mem t null (registered g), v.no_null));
      timeouts = λ i lt.
          ground
            (arith, shift_from-at (n - 1 - j) j i g.task_entries, v.timeouts i, v.timeouts (i + 1));
    }

-- A call on an initialised watchdog, with a task and a timeout of at least 100 ms: a task that is
-- monitored is refused, a full table is refused, and otherwise the task comes last in the table, which
-- stays well formed.
pub wdt_register_task_lem :
    (now : ℕ) (t : TaskPtr) (timeout : ℕ) (w : World)
    → w.g.initialized ≡ true
    → t ≢ null
    → 100 ≤ timeout
    → (has t (registered w.g) ≡ true → wdt_register_task now t timeout w ≡ (invalid_param, w))
      × (has t (registered w.g) ≡ false
          → 8 ≤ w.g.num_registered_tasks
          → wdt_register_task now t timeout w ≡ (max_tasks_reached, w))
      × (has t (registered w.g) ≡ false
          → w.g.num_registered_tasks < 8
          → let r = wdt_register_task now t timeout w in
            (r.0 ≡ wdt_ok)
            × (registered r.1.g ≡ registered w.g ++ t ∷ [])
            × (WellFormed w.g → WellFormed r.1.g))
unfolding wdt_register_task
wdt_register_task_lem now t timeout w init real long =
    let n = w.g.num_registered_tasks in
    let search = find_from-has n 0 w.g.task_entries t in
    let long' : ltb timeout 100 ≡ false = ground arith in
    (
      λ at. rw (init, ne→== t null real, long', search ∙ at),
      λ out full.
          let full' : leb 8 n ≡ true = ground arith in
          rw (init, ne→== t null real, long', search ∙ out, full'),
      λ out room.
          let goes : wdt_register_task now t timeout w
              ≡ (wdt_ok, with_g w (with_entry w.g (new_entry t timeout now))) =
            ground (arith, search, init) in
          rw goes (
            refl,
            with_entry-registered w.g (new_entry t timeout now),
            λ v. with_entry-WellFormed w.g (new_entry t timeout now) v out real long room,
          ),
    )

-- A call on an initialised watchdog, with a task: a task that is not monitored is refused; otherwise it
-- is taken out of the table, the others keep their order, and the table stays well formed.
pub wdt_unregister_task_lem :
    (t : TaskPtr) (w : World)
    → w.g.initialized ≡ true
    → t ≢ null
    → (has t (registered w.g) ≡ false → wdt_unregister_task t w ≡ (task_not_registered, w))
      × (has t (registered w.g) ≡ true
          → let r = wdt_unregister_task t w in
            (r.0 ≡ wdt_ok)
            × (registered r.1.g ≡ erase t (registered w.g))
            × (WellFormed w.g → WellFormed r.1.g))
unfolding wdt_unregister_task
wdt_unregister_task_lem t w init real =
    let search = find_from-has w.g.num_registered_tasks 0 w.g.task_entries t in
    elim (Option-cases (find_task_entry w.g t)) [
      | inl e ↦ (
        λ out. rw (init, ne→== t null real, e),
        λ at. absurd (ground (arith, search, ap found e)),
      )
      | inr (j, e) ↦ (
        λ out. absurd (ground (arith, search, ap found e)),
        λ at.
            let goes : wdt_unregister_task t w ≡ (wdt_ok, with_g w (without_entry w.g j)) =
              ground (arith, e, init) in
            rw goes
              (refl, without_entry-registered w.g t j e, λ v. without_entry-WellFormed w.g t j v e),
      )
    ]

-- A heartbeat of a monitored task, on an initialised watchdog: the task's entry has the time, and
-- nothing else changes.
pub wdt_feed_task_lem :
    (now : ℕ) (t : TaskPtr) (w : World)
    → w.g.initialized ≡ true
    → t ≢ null
    → has t (registered w.g) ≡ true
    → (i : ℕ) × (i < w.g.num_registered_tasks)
      × ((w.g.task_entries i).task ≡ t)
      × (wdt_feed_task now t w ≡ (
        wdt_ok,
        with_g w (set_entry w.g i (record (w.g.task_entries i) { last_feed_time = now })),
      ))
unfolding wdt_feed_task
wdt_feed_task_lem now t w init real at =
    let n = w.g.num_registered_tasks in
    let search = find_from-has n 0 w.g.task_entries t in
    elim (Option-cases (find_task_entry w.g t)) [
      | inl e ↦ absurd (ground (arith, search, ap found e))
      | inr (j, e) ↦
          let (_, lt, is) = find_from-some n 0 w.g.task_entries t j e in
          (j, omega (arith, lt), is, ground (arith, e, init))
    ]
