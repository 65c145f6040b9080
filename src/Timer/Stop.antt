-- ===== src/Timer/Stop.antt =====
-- The removal from the list, and a timer that is started.
use mathlib.Core.Path.{subst, fun_ext}
use tinyos_rtos.Prelude.{
  ℕ, zero, suc, ◌+◌, ◌≤◌, ◌≡◌, ◌≢◌, ◌∙◌, inl, inr, refl, true, false, some, List, [], ◌∷◌, arith,
  ◌==◌, length, has, Distinct, Bool-cases, ==→eq, ap, sym,
}
use tinyos_rtos.Prelude.Word.{u32}
use tinyos_rtos.Kernel.{ok}
use tinyos_rtos.Links.{null, Chain, Chain-frame, behind}
use tinyos_rtos.Links.Unlink.{
  pred_of, pred_of-head, pred_of-later, pred_of-ne, erase, erase-head, erase-later, erase-not-mem,
  Distinct-erase, length-erase_mem, length-erase, erase-absent, Chain-unlink, Chain-unlink_head,
}
use tinyos_rtos.Timer.{
  Manager, SoftTimer, set_link, next_of, expiry, find_prev, take_out, deactivate, armed,
  os_timer_stop, os_timer_start, timer_insert_sorted,
}
use tinyos_rtos.Timer.Insert.{Lists, Sorted, insert_by, timer_insert_sorted_lem}

-- The walk stops at the node before the timer.
find_prev-pred_of :
    (fuel : ℕ) (next : ℕ → ℕ) (t x : ℕ) (xs : List ℕ)
    → Chain next x (x ∷ xs)
    → Distinct (x ∷ xs)
    → has t xs ≡ true
    → length xs ≤ fuel
    → (r : ℕ) × (find_prev fuel next t x ≡ some r)
      × (pred_of t x xs ≡ behind r)
      × (has r (x ∷ xs) ≡ true)
      × (r ≢ null)
unfolding find_prev
find_prev-pred_of fuel next t x [] ch d at enough = absurd (ground arith)
find_prev-pred_of zero next t x (y ∷ ys) ch d at enough = absurd (omega arith)
find_prev-pred_of (suc fuel) next t x (y ∷ ys) (e, real, (link, y_real, ch)) d at enough =
    elim (Bool-cases (y == t)) [
      | inl here ↦
          let same : y ≡ t = ==→eq y t here in
          (
            x,
            ground (arith, link),
            subst (λ (z : ℕ). pred_of t x (z ∷ ys) ≡ behind x) (sym same) (pred_of-head t x ys),
            ground arith,
            real,
          )
      | inr there ↦
          let ne : y ≢ t = ground arith in
          let (r, run, pred, i, rr) =
            find_prev-pred_of fuel next t y ys (refl, y_real, ch) d.1 (ground arith)
              (omega arith) in
          (r, ground (arith, link, run), pred_of-later t x y ys ne ∙ pred, ground (arith, i), rr)
    ]

-- A timer out of the list.
pub record Stopped (m m' : Manager) (xs : List ℕ) (t : ℕ) : Type 0 where
  pub lists : Lists m' (erase t xs)
  pub inactive : (m'.timer t).active ≡ false
  pub others :
      (y : ℕ) → y ≢ t → record (m'.timer y) { next = null } ≡ record (m.timer y) { next = null }
  pub period : (m'.timer t).period ≡ (m.timer t).period

stopped :
    (m m1 : Manager) (xs : List ℕ) (t : ℕ)
    → Lists m xs
    → has t xs ≡ true
    → Chain (next_of (deactivate m1 t)) m1.active_timers (erase t xs)
    → m1.timer_count ≡ m.timer_count
    → ((y : ℕ) → record (m1.timer y) { next = null } ≡ record (m.timer y) { next = null })
    → Stopped m (deactivate m1 t) xs t
stopped m m1 xs t l at ch count rest = record {
  lists = record {
    chain = ch;
    distinct = Distinct-erase t xs l.distinct;
    counted = omega (arith, count, l.counted, length-erase_mem t xs at);
  };
  inactive = ground arith;
  others = λ y ne. ground (arith, rest y);
  period = ground (arith, rest t);
}

-- The first timer of the list, and one further on.
stop-head :
    (m : Manager) (t : ℕ) (xs : List ℕ)
    → Lists m (t ∷ xs)
    → Stopped m (deactivate (record m { active_timers = next_of m t }) t) (t ∷ xs) t
stop-head m t xs l =
    let m1 = record m { active_timers = next_of m t } in
    let ch : Chain (next_of m) t (t ∷ xs) = (refl, l.chain.1, l.chain.2) in
    stopped m m1 (t ∷ xs) t l (ground arith)
      (rw erase-head (Chain-unlink_head (next_of m) _ t xs ch l.distinct (λ y i n. ground arith)))
      refl (λ y. refl)

stop-later :
    (m : Manager) (t x r : ℕ) (xs : List ℕ)
    → Lists m (x ∷ xs)
    → x ≢ t
    → has t xs ≡ true
    → pred_of t x xs ≡ behind r
    → r ≢ t
    → Stopped m (deactivate (set_link m r (next_of m t)) t) (x ∷ xs) t
stop-later m t x r xs l ne at pred apart =
    let m1 = set_link m r (next_of m t) in
    let ch : Chain (next_of m) x (x ∷ xs) = (refl, l.chain.1, l.chain.2) in
    stopped m m1 (x ∷ xs) t l (ground arith)
      (rw (erase-later t x xs ne, l.chain.0)
        (Chain-unlink (next_of m) _ x t r xs ch l.distinct ne pred (ground arith)
          (λ y i n k. ground arith)))
      refl (λ y. ground arith)

-- An active timer of the list is taken out of it, wherever it stands: the others keep their order, the
-- count falls by one, and the timer is not active.
pub os_timer_stop_lem :
    (fuel : ℕ) (m : Manager) (xs : List ℕ) (t : ℕ)
    → Lists m xs
    → has t xs ≡ true
    → t ≢ null
    → (m.timer t).active ≡ true
    → length xs ≤ fuel
    → (m' : Manager) × (os_timer_stop fuel t m ≡ some (ok, m')) × Stopped m m' xs t
unfolding os_timer_stop take_out
os_timer_stop_lem fuel m [] t l at real on enough = absurd (ground arith)
os_timer_stop_lem fuel m (x ∷ xs) t l at real on enough = elim (Bool-cases (x == t)) [
  | inl here ↦
      let same : x ≡ t = ==→eq x t here in
      let l' : Lists m (t ∷ xs) = subst (λ (z : ℕ). Lists m (z ∷ xs)) same l in
      let goes : os_timer_stop fuel t m
          ≡ some (ok, deactivate (record m { active_timers = next_of m t }) t) =
        ground (arith, l'.chain, on) in
      (
        deactivate (record m { active_timers = next_of m t }) t,
        goes,
        subst
            (λ (z : ℕ).
              Stopped m (deactivate (record m { active_timers = next_of m t }) t) (z ∷ xs) t)
            (sym same) (stop-head m t xs l'),
      )
  | inr there ↦
      let ne : x ≢ t = ground arith in
      let ch : Chain (next_of m) x (x ∷ xs) = (refl, l.chain.1, l.chain.2) in
      let (r, run, pred, i, r_real) =
        find_prev-pred_of fuel (next_of m) t x xs ch l.distinct (ground arith) (omega arith) in
      let apart : r ≢ t = pred_of-ne t x r xs ne pred in
      let goes : os_timer_stop fuel t m ≡ some (ok, deactivate (set_link m r (next_of m t)) t) =
        ground (arith, l.chain, on, run) in
      (
        deactivate (set_link m r (next_of m t)) t,
        goes,
        stop-later m t x r xs l ne (ground arith) pred apart,
      )
]

armed-Lists : (now t : ℕ) (m : Manager) (xs : List ℕ) → Lists m xs → Lists (armed now t m) xs
armed-Lists now t m xs l = record {
  chain =
      Chain-frame (next_of m) (next_of (armed now t m)) m.active_timers xs l.chain
        (λ y i. ground arith);
  distinct = l.distinct;
  counted = l.counted;
}

Sorted-same :
    (key key' : ℕ → ℕ) (xs : List ℕ)
    → ((y : ℕ) → has y xs ≡ true → key' y ≡ key y)
    → Sorted key xs
    → Sorted key' xs
Sorted-same key key' [] same s = tt
Sorted-same key key' (x ∷ xs) same s = (
  λ y i. ground (arith, s.0 y, same x, same y),
  Sorted-same key key' xs (λ y i. same y (ground arith)) s.1,
)

-- What a start gives: the timer is active, expires a period later, and stands in its place.
pub record Started (now : ℕ) (m m' : Manager) (xs : List ℕ) (t : ℕ) : Type 0 where
  pub lists : Lists m' (insert_by (expiry m') t (erase t xs))
  pub active : (m'.timer t).active ≡ true
  pub expires : (m'.timer t).expire_time ≡ u32 (now + (m.timer t).period)
  pub sorted :
      Sorted (expiry m) (erase t xs) → Sorted (expiry m') (insert_by (expiry m') t (erase t xs))

start_from :
    (fuel now : ℕ) (m m1 : Manager) (xs : List ℕ) (t : ℕ)
    → Lists m1 (erase t xs)
    → has t (erase t xs) ≡ false
    → t ≢ null
    → length (erase t xs) ≤ fuel
    → (m1.timer t).period ≡ (m.timer t).period
    → ((y : ℕ) → y ≢ t → expiry m1 y ≡ expiry m y)
    → (m' : Manager) × (timer_insert_sorted fuel (armed now t m1) t ≡ some m')
      × Started now m m' xs t
start_from fuel now m m1 xs t l out real enough period others =
    let m2 = armed now t m1 in
    let (m', run, i) =
      timer_insert_sorted_lem fuel m2 (erase t xs) t (armed-Lists now t m1 (erase t xs) l) real out
        enough in
    let same : expiry m' ≡ expiry m2 =
      fun_ext (λ y. ap (λ (c : SoftTimer). c.expire_time) (i.rest y)) in
    (
      m',
      run,
      record {
        lists = subst (λ (k : ℕ → ℕ). Lists m' (insert_by k t (erase t xs))) (sym same) i.lists;
        active = ap (λ (c : SoftTimer). c.active) (i.rest t) ∙ ground arith;
        expires = ground (arith, ap (λ (c : SoftTimer). c.expire_time) (i.rest t), period);
        sorted = λ s.
            subst (λ (k : ℕ → ℕ). Sorted (expiry m') (insert_by k t (erase t xs))) (sym same)
              (i.sorted (
                Sorted-same (expiry m) (expiry m2) (erase t xs) (λ y h. ground (arith, others y))
                  s));
      },
    )

-- A start of a timer, active or not, where the list holds exactly the active timers: the timer leaves
-- its old place if it had one, expires one period after now, and stands behind the timers that expire
-- no later; a list that was sorted without it is sorted with it.
pub os_timer_start_lem :
    (fuel now : ℕ) (m : Manager) (xs : List ℕ) (t : ℕ)
    → Lists m xs
    → (m.timer t).active ≡ has t xs
    → t ≢ null
    → length xs ≤ fuel
    → (m' : Manager) × (os_timer_start fuel now t m ≡ some (ok, m')) × Started now m m' xs t
unfolding os_timer_start
os_timer_start_lem fuel now m xs t l listed real enough = elim (Bool-cases (has t xs)) [
  | inl at ↦
      let (m1, stop, s) = os_timer_stop_lem fuel m xs t l at real (listed ∙ at) enough in
      let (m', run, r) =
        start_from fuel now m m1 xs t s.lists (erase-not-mem t xs l.distinct) real
          (omega (arith, length-erase t xs)) s.period
          (λ y ne. ap (λ (c : SoftTimer). c.expire_time) (s.others y ne)) in
      (m', ground (arith, listed, at, stop, run), r)
  | inr out ↦
      let e = erase-absent t xs out in
      let (m', run, r) =
        start_from fuel now m m xs t (rw e l) (rw e out) real (rw e enough) refl (λ y ne. refl) in
      (m', ground (arith, listed, out, run), r)
]
