-- ===== src/Kernel/Sched/Delay.antt =====
-- `os_task_delay`: it waits as long as asked, across a wrap of the tick counter.
use tinyos_rtos.Prelude.{
  ℕ, zero, suc, ◌+◌, ◌-◌, ◌^◌, ◌≤◌, ◌<◌, ◌≡◌, true, Option, some, List, [], ◌∷◌, arith, ltb, ltb→lt,
  length, All, Bool-cases, inl, inr,
}
use tinyos_rtos.Prelude.Word.{u32, sub_u32, int32_pos}
use tinyos_rtos.Kernel.{Kernel}
use tinyos_rtos.Kernel.Sched.{delay_loop, os_task_delay, ticks_of_ms}

-- Between two looks of the waiting task the counter advances, by at most `m` ticks.
abbrev pub Advances : ℕ → (Kernel → Kernel) → Type 0
Advances m f =
    (k : Kernel) → (a : ℕ) × (0 < a) × (a ≤ m) × ((f k).tick_count ≡ u32 (k.tick_count + a))

-- Past the target the loop ends at once.
delay_over :
    (world : List (Kernel → Kernel)) (target over : ℕ) (k : Kernel)
    → target < 2 ^ 32
    → over < 2 ^ 31
    → k.tick_count ≡ u32 (target + over)
    → delay_loop world target k ≡ some k
unfolding delay_loop
delay_over [] target over k small few e = ground arith
delay_over (f ∷ world) target over k small few e = ground arith

-- What a wait of `r` more ticks gives.
pub record Waited (m r : ℕ) (k : Kernel) (out : Option Kernel) : Type 0 where
  pub last : Kernel
  pub elapsed : ℕ
  pub returns : out ≡ some last
  pub counted : last.tick_count ≡ u32 (k.tick_count + elapsed)
  pub not_early : r ≤ elapsed
  pub not_late : elapsed < r + m

later :
    {m : ℕ} (k k1 : Kernel) (a r : ℕ) (out : Option Kernel)
    → a < suc r
    → k1.tick_count ≡ u32 (k.tick_count + a)
    → Waited m (suc r - a) k1 out
    → Waited m (suc r) k out
later k k1 a r out lt moved w = record {
  last = w.last;
  elapsed = a + w.elapsed;
  returns = w.returns;
  counted = omega (arith, w.counted);
  not_early = omega (arith, w.not_early);
  not_late = omega (arith, w.not_late);
}

delay_pending :
    (m : ℕ) (world : List (Kernel → Kernel)) (r : ℕ) (k : Kernel)
    → 0 < m
    → r + m ≤ 2 ^ 31
    → k.tick_count < 2 ^ 32
    → All (Advances m) world
    → r ≤ length world
    → Waited m r k (delay_loop world (u32 (k.tick_count + r)) k)
unfolding delay_loop
delay_pending m world zero k pos small fits steps enough = record {
  last = k;
  elapsed = 0;
  returns = delay_over world (u32 (k.tick_count + 0)) 0 k (omega arith) (omega arith) (omega arith);
  counted = omega arith;
  not_early = omega arith;
  not_late = omega arith;
}
delay_pending m [] (suc r) k pos small fits steps enough = absurd (omega arith)
delay_pending m (f ∷ world) (suc r) k pos small fits steps enough =
    let (a, some_ticks, few, moved) = steps.0 k in
    let still : int32_pos (sub_u32 (u32 (k.tick_count + suc r)) k.tick_count) ≡ true =
      ground arith in
    rw still (elim (Bool-cases (ltb a (suc r))) [
      | inl less ↦
          let lt : a < suc r = ltb→lt a (suc r) less in
          let same : u32 (k.tick_count + suc r) ≡ u32 ((f k).tick_count + (suc r - a)) =
            omega arith in
          rw same (
            later k (f k) a r (delay_loop world (u32 ((f k).tick_count + (suc r - a))) (f k)) lt
              moved
              (delay_pending m world (suc r - a) (f k) pos (omega arith) (omega arith) steps.1
                (omega arith)))
      | inr reached ↦
          let ge : suc r ≤ a = ground arith in
          record {
            last = f k;
            elapsed = a;
            returns =
                delay_over world (u32 (k.tick_count + suc r)) (a - suc r) (f k) (omega arith)
                  (omega arith) (omega arith);
            counted = moved;
            not_early = ge;
            not_late = omega arith;
          }
    ])

-- The call returns once `ticks` ticks have passed, and not later than the first look after that, if
-- the counter moves on between two looks; a wrap of the counter makes no difference.
pub os_task_delay_lem :
    (m ticks : ℕ) (world : List (Kernel → Kernel)) (k : Kernel)
    → 0 < m
    → ticks + m ≤ 2 ^ 31
    → k.tick_count < 2 ^ 32
    → All (Advances m) world
    → ticks ≤ length world
    → Waited m ticks k (os_task_delay world ticks k)
unfolding os_task_delay
os_task_delay_lem m ticks world k pos small fits steps enough =
    delay_pending m world ticks k pos small fits steps enough

-- `os_task_delay_ms` asks for as many ticks as milliseconds up to 4294966 ms; beyond, the product
-- wraps, and it always asks for fewer.
pub ticks_of_ms_lem :
    (ms : ℕ) → (ms ≤ 4294966 → ticks_of_ms ms ≡ ms) × (4294967 ≤ ms → ticks_of_ms ms < ms)
unfolding ticks_of_ms
ticks_of_ms_lem ms = (λ h. omega arith, λ h. omega arith)
