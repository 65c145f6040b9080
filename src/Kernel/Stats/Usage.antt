-- ===== src/Kernel/Stats/Usage.antt =====
-- How much of a stack counts as used.
use tinyos_rtos.Prelude.{ℕ, zero, suc, ◌+◌, ◌-◌, ◌*◌, ◌≤◌, ◌<◌, ◌≡◌, ◌≢◌, some, arith, ne→==, max}
use tinyos_rtos.Links.{null}
use tinyos_rtos.Kernel.{Kernel, TaskPtr, ok}
use tinyos_rtos.Kernel.Stats.{
  skip_zeros, calculate_stack_usage, task_stats, raise_mark, os_task_get_stats,
}

skip_zeros-stop :
    (n i : ℕ) (words : ℕ → ℕ)
    → let j = skip_zeros n i words in
      (i ≤ j) × (j ≤ i + n) × ((m : ℕ) → i ≤ m → m < j → words m ≡ 0) × (j < i + n → words j ≢ 0)
unfolding skip_zeros
skip_zeros-stop zero i words =
    (omega arith, omega arith, λ m ge lt. absurd (omega arith), λ lt. absurd (omega arith))
skip_zeros-stop (suc n) i words =
    let (ge, le, zeros, stops) = skip_zeros-stop n (i + 1) words in
    (
      ground (arith, ge),
      ground (arith, le),
      λ m gm lm. ground (arith, zeros m),
      λ lt. ground (arith, stops),
    )

usage-skip_zeros :
    (t : TaskPtr) (k : Kernel)
    → t ≢ null
    → calculate_stack_usage t k ≡ (255 - skip_zeros 255 0 (k.stacks.stack t) + 1) * 4
unfolding calculate_stack_usage
usage-skip_zeros t k real = rw (ne→== t null real)

raise_mark-max :
    (t : TaskPtr) (used : ℕ) (k : Kernel)
    → ((raise_mark t used k).tcb t).stack_high_water_mark ≡ max (k.tcb t).stack_high_water_mark used
unfolding raise_mark
raise_mark-max t used k = ground arith

-- What the statistics of a task tell of its stack: used and free bytes make up its 1024 bytes, at
-- least one word counts as used, all words below the used ones are 0, the lowest used word is not 0
-- unless it is the top word, and the high water mark is raised to the used bytes.
pub os_task_get_stats_lem :
    (t : TaskPtr) (k : Kernel)
    → t ≢ null
    → let used = (task_stats t k).stack_used in
      (used + (task_stats t k).stack_free ≡ 1024)
      × (4 ≤ used)
      × ((m : ℕ) → m * 4 + used < 1024 → k.stacks.stack t m ≡ 0)
      × (used ≢ 4 → (m : ℕ) → m * 4 + used ≡ 1024 → k.stacks.stack t m ≢ 0)
      × ((k' : Kernel) × (os_task_get_stats t k ≡ (ok, some (task_stats t k), k'))
          × ((k'.tcb t).stack_high_water_mark ≡ max (k.tcb t).stack_high_water_mark used))
unfolding os_task_get_stats
os_task_get_stats_lem t k real =
    let used = calculate_stack_usage t k in
    let j = skip_zeros 255 0 (k.stacks.stack t) in
    let (_, le, zeros, stops) = skip_zeros-stop 255 0 (k.stacks.stack t) in
    let e : used ≡ (255 - j + 1) * 4 = usage-skip_zeros t k real in
    (
      ground (arith, e, le),
      omega (arith, e, le),
      λ m lt. zeros m (omega arith) (omega (arith, e, le)),
      λ more m at.
          let same : m ≡ j = omega (arith, e, le, at) in
          rw same (stops (omega (arith, e, le, at, more))),
      (raise_mark t used k, rw (ne→== t null real), raise_mark-max t used k),
    )
