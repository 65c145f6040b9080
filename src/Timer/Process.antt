-- ===== src/Timer/Process.antt =====
-- `os_timer_process` on one-shot timers.
use mathlib.Core.Path.{subst}
use tinyos_rtos.Prelude.{
  ℕ, zero, suc, ◌<◌, ◌≡◌, ◌≢◌, ◌∙◌, inl, inr, refl, true, false, some, List, [], ◌∷◌, arith, ◌==◌,
  if◌then◌else◌, length, has, Bool-cases, ==→eq, ap, sym,
}
use tinyos_rtos.Links.{null}
use tinyos_rtos.Links.Unlink.{Chain-unlink_head}
use tinyos_rtos.Timer.{
  Manager, one_shot, next_of, expiry, is_due, is_auto_reload, drop, process_from, os_timer_process,
}
use tinyos_rtos.Timer.Insert.{Lists}

-- The timers at the head of the list that are due, and what stands behind them.
pub due : ℕ → Manager → List ℕ → List ℕ
due now m [] = []
due now m (x ∷ xs) = let rest = due now m xs in if is_due now m x then x ∷ rest else []

pub not_due : ℕ → Manager → List ℕ → List ℕ
not_due now m [] = []
not_due now m (x ∷ xs) = let rest = not_due now m xs in if is_due now m x then rest else x ∷ xs

-- Timers that are one-shot and have a callback.
abbrev pub OneShot : Manager → List ℕ → Type 0
OneShot m xs =
    (y : ℕ) → has y xs ≡ true → ((m.timer y).type ≡ one_shot) × ((m.timer y).callback ≢ null)

drop-Lists : (m : Manager) (x : ℕ) (xs : List ℕ) → Lists m (x ∷ xs) → Lists (drop m null x) xs
drop-Lists m x xs l = record {
  chain =
      Chain-unlink_head (next_of m) (next_of (drop m null x)) x xs (refl, l.chain.1, l.chain.2)
        l.distinct (λ y i n. ground arith);
  distinct = l.distinct.1;
  counted = omega (arith, l.counted);
}

drop-same :
    (now : ℕ) (m : Manager) (x : ℕ) (xs : List ℕ)
    → (due now (drop m null x) xs ≡ due now m xs)
      × (not_due now (drop m null x) xs ≡ not_due now m xs)
unfolding due not_due
drop-same now m x [] = (refl, refl)
drop-same now m x (y ∷ ys) =
    let same : expiry (drop m null x) y ≡ expiry m y = ground arith in
    let (d, n) = drop-same now m x ys in (ground (arith, same, d), ground (arith, same, n))

due-first :
    (now : ℕ) (m : Manager) (x : ℕ) (xs : List ℕ)
    → is_due now m x ≡ true
    → due now m (x ∷ xs) ≡ x ∷ due now m xs
unfolding due
due-first now m x xs e = rw e

-- One round.
process-step :
    (fuel now x : ℕ) (m : Manager) (r : Manager × List ℕ)
    → x ≢ null
    → is_due now m x ≡ true
    → (m.timer x).type ≡ one_shot
    → (m.timer x).callback ≢ null
    → process_from fuel now null (next_of m x) (drop m null x) ≡ some r
    → process_from (suc fuel) now null x m ≡ some (r.0, x ∷ r.1)
unfolding process_from
process-step fuel now x m r real now_due once call rest =
    let plain : is_auto_reload (m.timer x).type ≡ false = ground arith in
    ground (arith, real, now_due, plain, rest, call)

process-Lists :
    (fuel now : ℕ) (m : Manager) (xs : List ℕ)
    → Lists m xs
    → OneShot m xs
    → length xs < fuel
    → (m' : Manager) × (process_from fuel now null m.active_timers m ≡ some (m', due now m xs))
      × Lists m' (not_due now m xs)
      × ((y : ℕ) → has y (due now m xs) ≡ true → (m'.timer y).active ≡ false)
      × ((y : ℕ) → (m.timer y).active ≡ false → (m'.timer y).active ≡ false)
unfolding process_from due not_due
process-Lists zero now m xs l once enough = absurd (omega arith)
process-Lists (suc fuel) now m [] l once enough =
    (m, ground (arith, l.chain), l, λ y i. absurd (ground arith), λ y off. off)
process-Lists (suc fuel) now m (x ∷ xs) l once enough = elim (Bool-cases (is_due now m x)) [
  | inr later ↦ (
    m,
    ground (arith, l.chain, later),
    rw later l,
    λ y i. absurd (ground (arith, later)),
    λ y off. off,
  )
  | inl now_due ↦
      let m1 = drop m null x in
      let (m', run, lists, off, stay) =
        process-Lists fuel now m1 xs (drop-Lists m x xs l) (λ y i. ground (arith, once y))
          (omega arith) in
      let (d, n) = drop-same now m x xs in
      (
        m',
        subst (λ (z : ℕ). process_from (suc fuel) now null z m ≡ some (m', due now m (x ∷ xs)))
            (sym l.chain.0)
            (subst (λ (ds : List ℕ). process_from (suc fuel) now null x m ≡ some (m', ds))
              (sym (due-first now m x xs now_due))
              (process-step fuel now x m (m', due now m xs) l.chain.1 now_due
                (once x (ground arith)).0 (once x (ground arith)).1
                (run ∙ ap (λ (ds : List ℕ). some (m', ds)) d))),
        rw now_due (rw n at lists),
        λ y i. elim (Bool-cases (y == x)) [
          | inl e ↦ rw (==→eq y x e) (stay x (ground arith))
          | inr e ↦ off y (ground (arith, d, now_due))
        ],
        λ y o. stay y (ground arith),
      )
]

-- With one-shot timers that have callbacks, a run calls the callbacks of the timers at the head of the
-- list that are due, in the order of the list, takes exactly these out of it, and leaves them inactive.
pub os_timer_process_lem :
    (fuel now : ℕ) (m : Manager) (xs : List ℕ)
    → Lists m xs
    → OneShot m xs
    → length xs < fuel
    → (m' : Manager) × (os_timer_process fuel now m ≡ some (m', due now m xs))
      × Lists m' (not_due now m xs)
      × ((y : ℕ) → has y (due now m xs) ≡ true → (m'.timer y).active ≡ false)
unfolding os_timer_process
os_timer_process_lem fuel now m xs l once enough =
    let (m', run, lists, off, _) = process-Lists fuel now m xs l once enough in
    (m', run, lists, off)
