-- ===== src/Watchdog/Check/Expired.antt =====
-- Which tasks the check finds, and what follows.
use tinyos_rtos.Prelude.{
  ℕ, zero, suc, ◌+◌, ◌^◌, ◌≤◌, ◌<◌, ◌≡◌, ◌∙◌, inl, inr, refl, true, false, List, ◌∷◌, arith, leb,
  ltb, ◌==◌, ◌&&◌, if◌then◌else◌, Bool-cases, ==→eq, ap,
}
use tinyos_rtos.Prelude.Word.{u32}
use tinyos_rtos.Watchdog.{
  WdtConfig, wdt_ok, Entry, World, Call, hal_wdt_trigger_reset, reset_task_timeout, has_software,
}
use tinyos_rtos.Watchdog.Check.{
  Run, returns, resets, then_run, expired, count_timeout, timed_out, notify, reset_now, check_from,
  wdt_check_tasks, fed, wdt_feed,
}

-- How many of the `n` entries from `i` on have expired.
pub expired_count : ℕ → ℕ → ℕ → (ℕ → Entry) → ℕ
expired_count zero i now es = 0
expired_count (suc n) i now es =
    let rest = expired_count n (i + 1) now es in if expired now (es i) then suc rest else rest

expired_count-same :
    (n i now : ℕ) (es es' : ℕ → Entry)
    → ((m : ℕ) → i ≤ m → es' m ≡ es m)
    → expired_count n i now es' ≡ expired_count n i now es
unfolding expired_count
expired_count-same zero i now es es' same = refl
expired_count-same (suc n) i now es es' same =
    rw
      (same i (omega arith), expired_count-same n (i + 1) now es es' (λ m ge. same m (omega arith)))

abbrev counted : Entry → Entry
counted e = record e { timeout_count = u32 (e.timeout_count + 1) }

timed_out_lem :
    (w : World) (i : ℕ)
    → let w' = timed_out w i in
      ((m : ℕ)
        → w'.g.task_entries m
          ≡ (if m == i then counted (w.g.task_entries i) else w.g.task_entries m))
      × (w'.g.stats.task_timeouts ≡ u32 (w.g.stats.task_timeouts + 1))
      × (w'.g.stats.total_timeouts ≡ u32 (w.g.stats.total_timeouts + 1))
      × (w'.g.config ≡ w.g.config)
      × (w'.g.num_registered_tasks ≡ w.g.num_registered_tasks)
      × (w'.g.stats.last_timeout_task ≡ (w.g.task_entries i).task)
unfolding timed_out count_timeout notify
timed_out_lem w i =
    (λ m. ground arith, ground arith, ground arith, ground arith, ground arith, ground arith)

-- What a check without resets does to the entries from `i` on and to the counters.
pub record Checked (n i now : ℕ) (w w' : World) : Type 0 where
  pub entries :
      (m : ℕ)
      → w'.g.task_entries m ≡ (
          if (leb i m && ltb m (i + n)) && expired now (w.g.task_entries m)
          then counted (w.g.task_entries m)
          else w.g.task_entries m)
  pub task_timeouts :
      w'.g.stats.task_timeouts
      ≡ u32 (w.g.stats.task_timeouts + expired_count n i now w.g.task_entries)
  pub total_timeouts :
      w'.g.stats.total_timeouts
      ≡ u32 (w.g.stats.total_timeouts + expired_count n i now w.g.task_entries)
  pub table : w'.g.num_registered_tasks ≡ w.g.num_registered_tasks

check_from-counts :
    (n i now : ℕ) (w : World)
    → w.g.config.enable_reset ≡ false
    → w.g.stats.task_timeouts < 2 ^ 32
    → w.g.stats.total_timeouts < 2 ^ 32
    → (w' : World) × (check_from n i now w ≡ returns tt w') × Checked n i now w w'
unfolding check_from expired_count
check_from-counts zero i now w off small small' = (
  w,
  refl,
  record {
    entries = λ m. ground arith;
    task_timeouts = omega arith;
    total_timeouts = omega arith;
    table = refl;
  },
)
check_from-counts (suc n) i now w off small small' =
    elim (Bool-cases (expired now (w.g.task_entries i))) [
      | inr fresh ↦
          let (w', run, c) = check_from-counts n (i + 1) now w off small small' in
          (
            w',
            ground (arith, run, fresh),
            record {
              entries = λ m. ground (arith, c.entries m, fresh);
              task_timeouts = ground (arith, c.task_timeouts, fresh);
              total_timeouts = ground (arith, c.total_timeouts, fresh);
              table = c.table;
            },
          )
      | inl late ↦
          let w1 = timed_out w i in
          let (at, tasks, total, config, table, _) = timed_out_lem w i in
          let off1 : w1.g.config.enable_reset ≡ false = ground (arith, config) in
          let (w', run, c) =
            check_from-counts n (i + 1) now w1 off1 (omega (arith, tasks)) (omega (arith, total)) in
          let same =
            expired_count-same n (i + 1) now w.g.task_entries w1.g.task_entries
              (λ m ge. ground (arith, at m)) in
          (
            w',
            ground (arith, run, late, off),
            record {
              entries = λ m. ground (arith, c.entries m, at m, late);
              task_timeouts = ground (arith, c.task_timeouts, tasks, same, late);
              total_timeouts = ground (arith, c.total_timeouts, total, same, late);
              table = c.table ∙ table;
            },
          )
    ]

-- What a check with resets does when entry `j` is the first that has expired.
pub record Resets (j : ℕ) (w w' : World) : Type 0 where
  pub reason : w'.g.reset_reason ≡ reset_task_timeout
  pub culprit : w'.g.stats.last_timeout_task ≡ (w.g.task_entries j).task
  pub triggered : (older : List Call) × (w'.calls ≡ hal_wdt_trigger_reset ∷ older)

first_Resets : (w : World) (i : ℕ) → Resets i w (reset_now (timed_out w i))
unfolding reset_now
first_Resets w i = record {
  reason = refl;
  culprit = (timed_out_lem w i).5;
  triggered = ((timed_out w i).calls, refl);
}

check_from-Resets :
    (n i now : ℕ) (w : World)
    → w.g.config.enable_reset ≡ true
    → (expired_count n i now w.g.task_entries ≡ 0 → check_from n i now w ≡ returns tt w)
      × (0 < expired_count n i now w.g.task_entries
          → (j : ℕ) × (w' : World) × (i ≤ j)
            × (j < i + n)
            × (expired now (w.g.task_entries j) ≡ true)
            × ((m : ℕ) → i ≤ m → m < j → expired now (w.g.task_entries m) ≡ false)
            × (check_from n i now w ≡ resets w')
            × Resets j w w')
unfolding check_from expired_count
check_from-Resets zero i now w on = (λ z. refl, λ pos. absurd (omega arith))
check_from-Resets (suc n) i now w on = elim (Bool-cases (expired now (w.g.task_entries i))) [
  | inr fresh ↦
      let (none_late, some_late) = check_from-Resets n (i + 1) now w on in
      (
        λ z. ground (arith, none_late, fresh),
        λ pos.
            let (j, w', ge, lt, late, before, run, r) = some_late (ground (arith, fresh)) in
            (
              j,
              w',
              omega (arith, ge),
              omega (arith, lt),
              late,
              λ m gm lm. elim (Bool-cases (m == i)) [
                | inl at ↦ rw (==→eq _ _ at) fresh
                | inr later ↦ before m (ground arith) lm
              ],
              ground (arith, run, fresh),
              r,
            ),
      )
  | inl late ↦ (
    λ z. absurd (ground (arith, late)),
    λ pos. (
      i,
      reset_now (timed_out w i),
      omega arith,
      omega arith,
      late,
      λ m gm lm. absurd (omega arith),
      ground (arith, late, on),
      first_Resets w i,
    ),
  )
]

-- A check of a running watchdog with resets disabled returns: each enabled task whose timeout has
-- passed is counted once, in its entry and in both counters, and the others are left alone.
pub wdt_check_tasks-counts :
    (now : ℕ) (w : World)
    → w.g.initialized ≡ true
    → w.g.enabled ≡ true
    → w.g.config.enable_reset ≡ false
    → w.g.stats.task_timeouts < 2 ^ 32
    → w.g.stats.total_timeouts < 2 ^ 32
    → (w' : World) × (wdt_check_tasks now w ≡ returns tt w')
      × Checked w.g.num_registered_tasks 0 now w w'
unfolding wdt_check_tasks
wdt_check_tasks-counts now w init on off small small' =
    let (w', run, c) = check_from-counts w.g.num_registered_tasks 0 now w off small small' in
    (w', ground (arith, run, init, on), c)

fed_lem :
    (now : ℕ) (w : World)
    → let w' = fed now w in
      (w'.g.task_entries ≡ w.g.task_entries)
      × (w'.g.num_registered_tasks ≡ w.g.num_registered_tasks)
      × (w'.g.config ≡ w.g.config)
      × (w'.g.initialized ≡ w.g.initialized)
      × (w'.g.enabled ≡ w.g.enabled)
      × (w'.g.last_feed_time ≡ now)
unfolding fed
fed_lem now w = (ground arith, ground arith, ground arith, ground arith, ground arith, ground arith)

wdt_feed_goes :
    (now : ℕ) (w : World)
    → w.g.initialized ≡ true
    → w.g.enabled ≡ true
    → has_software w.g.config.type ≡ true
    → wdt_feed now w
      ≡ then_run (check_from w.g.num_registered_tasks 0 now (fed now w)) (λ u w2. returns wdt_ok w2)
unfolding wdt_feed wdt_check_tasks
wdt_feed_goes now w init on soft =
    let (_, num, config, init', on', _) = fed_lem now w in
    let soft' : has_software (fed now w).g.config.type ≡ true =
      ap (λ (c : WdtConfig). has_software c.type) config ∙ soft in
    ground (arith, soft', init' ∙ init, on' ∙ on, num)

-- A feed of a running watchdog that watches tasks, with resets enabled: if no enabled task's timeout
-- has passed it succeeds, notes the time and touches no task; otherwise it does not return but resets
-- the system on account of the first such task of the table.
pub wdt_feed-Resets :
    (now : ℕ) (w : World)
    → w.g.initialized ≡ true
    → w.g.enabled ≡ true
    → has_software w.g.config.type ≡ true
    → w.g.config.enable_reset ≡ true
    → let late = expired_count w.g.num_registered_tasks 0 now w.g.task_entries in
      (late ≡ 0
        → (w' : World) × (wdt_feed now w ≡ returns wdt_ok w')
          × (w'.g.last_feed_time ≡ now)
          × (w'.g.task_entries ≡ w.g.task_entries))
      × (0 < late
          → (j : ℕ) × (w' : World) × (j < w.g.num_registered_tasks)
            × (expired now (w.g.task_entries j) ≡ true)
            × ((m : ℕ) → m < j → expired now (w.g.task_entries m) ≡ false)
            × (wdt_feed now w ≡ resets w')
            × Resets j w w')
wdt_feed-Resets now w init on soft reset =
    let n = w.g.num_registered_tasks in
    let (es, num, config, _, _, time) = fed_lem now w in
    let goes = wdt_feed_goes now w init on soft in
    let (none_late, some_late) =
      check_from-Resets n 0 now (fed now w)
        (ap (λ (c : WdtConfig). c.enable_reset) config ∙ reset) in
    (
      λ z.
          let run = none_late (rw es z) in
          (
            fed now w,
            goes ∙ ap (λ (r : Run Unit). then_run r (λ u w2. returns wdt_ok w2)) run,
            time,
            es,
          ),
      λ pos.
          let (j, w', _, lt, late, before, run, r) = some_late (rw es pos) in
          (
            j,
            w',
            omega (arith, lt),
            rw es at late,
            λ m less. let b = before m (omega arith) less in rw es at b,
            goes ∙ ap (λ (r : Run Unit). then_run r (λ u w2. returns wdt_ok w2)) run,
            record {
              reason = r.reason;
              culprit = r.culprit ∙ ap (λ (f : ℕ → Entry). (f j).task) es;
              triggered = r.triggered;
            },
          ),
    )
