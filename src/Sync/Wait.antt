-- ===== src/Sync/Wait.antt =====
-- The semaphores: a wait takes one of a count that is positive.
use tinyos_rtos.Prelude.{
  ℕ, zero, suc, ◌+◌, ◌-◌, ◌^◌, ◌<◌, ◌≤◌, ◌≡◌, ◌≢◌, refl, true, false, Option, some, List, [], ◌∷◌,
  length, take, Bool-cases, inl, inr, ne→==, arith,
}
use tinyos_rtos.Prelude.Word.{int32_pos, u32}
use tinyos_rtos.Links.{null}
use tinyos_rtos.Kernel.{OsError, ok}
use tinyos_rtos.Sync.{System, count_down, wait_loop, os_semaphore_wait}

-- The state once all of `world` has happened.
abbrev pub after : List (System → System) → System → System
after [] s = s
after (f ∷ world) s = after world (f s)

-- A wait that got hold of the semaphore: after the first `k` steps of `world`, and no earlier, it found
-- a positive count and took one of it, and changed nothing else.
pub record Taken (world : List (System → System)) (m : ℕ) (s : System)
    (out : Option (OsError × System)) : Type 0 where
  pub k : ℕ
  pub within : k ≤ length world
  pub not_before : (j : ℕ) → j < k → int32_pos ((after (take j world) s).semaphore m).count ≡ false
  pub positive : int32_pos ((after (take k world) s).semaphore m).count ≡ true
  pub left : System
  pub returns : out ≡ some (ok, left)
  pub one_less : (left.semaphore m).count + 1 ≡ ((after (take k world) s).semaphore m).count
  pub queue : (left.semaphore m).wait_queue ≡ ((after (take k world) s).semaphore m).wait_queue
  pub others : (i : ℕ) → i ≢ m → left.semaphore i ≡ (after (take k world) s).semaphore i
  pub mutexes : left.mutex ≡ (after (take k world) s).mutex
  pub kernel : left.kernel ≡ (after (take k world) s).kernel

-- A positive count loses one, without a wrap.
count_down_lem : (n : ℕ) → int32_pos n ≡ true → u32 (n + (2 ^ 32 - 1)) + 1 ≡ n
count_down_lem n pos = grind (arith, pos)

take_now :
    (world : List (System → System)) (m : ℕ) (s : System) (out : Option (OsError × System))
    → int32_pos (s.semaphore m).count ≡ true
    → out ≡ some (ok, count_down s m)
    → Taken world m s out
take_now world m s out pos e = record {
  k = 0;
  within = omega arith;
  not_before = λ j lt. absurd (omega (arith, lt));
  positive = pos;
  left = count_down s m;
  returns = e;
  one_less = ground (arith, count_down_lem (s.semaphore m).count pos);
  queue = ground arith;
  others = λ i ne. ground (arith, ne);
  mutexes = refl;
  kernel = refl;
}

not_before_later :
    (f : System → System) (world : List (System → System)) (m : ℕ) (s : System) (k : ℕ)
    → int32_pos (s.semaphore m).count ≡ false
    → ((j : ℕ) → j < k → int32_pos ((after (take j world) (f s)).semaphore m).count ≡ false)
    → (j : ℕ) → j < suc k
    → int32_pos ((after (take j (f ∷ world)) s).semaphore m).count ≡ false
not_before_later f world m s k first rest zero lt = first
not_before_later f world m s k first rest (suc j) lt = rest j (omega (arith, lt))

wait_loop-Taken :
    (world : List (System → System)) (m start : ℕ) (s : System)
    → int32_pos ((after world s).semaphore m).count ≡ true
    → Taken world m s (wait_loop world m start 0 s)
unfolding wait_loop
wait_loop-Taken [] m start s pos = take_now [] m s (wait_loop [] m start 0 s) pos (rw pos)
wait_loop-Taken (f ∷ world) m start s pos = elim (Bool-cases (int32_pos (s.semaphore m).count)) [
  | inl now ↦ take_now (f ∷ world) m s (wait_loop (f ∷ world) m start 0 s) now (rw now)
  | inr later ↦
      let t = wait_loop-Taken world m start (f s) pos in
      record {
        k = suc t.k;
        within = omega (arith, t.within);
        not_before = not_before_later f world m s t.k later t.not_before;
        positive = t.positive;
        left = t.left;
        returns = rw later t.returns;
        one_less = t.one_less;
        queue = t.queue;
        others = t.others;
        mutexes = t.mutexes;
        kernel = t.kernel;
      }
]

-- A wait without a timeout succeeds at the latest when the count is positive after all of `world`. It
-- succeeds at the first point at which it finds a positive count, and then the count is one less than
-- found there, and nothing else has changed.
pub os_semaphore_wait_lem :
    (world : List (System → System)) (m : ℕ) (s : System)
    → m ≢ null
    → int32_pos ((after world s).semaphore m).count ≡ true
    → Taken world m s (os_semaphore_wait world m 0 s)
unfolding os_semaphore_wait
os_semaphore_wait_lem world m s real pos =
    rw (ne→== m null real) (wait_loop-Taken world m s.kernel.tick_count s pos)
