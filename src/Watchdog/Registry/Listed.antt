-- ===== src/Watchdog/Registry/Listed.antt =====
-- The entries in use as a list of tasks, and what the loops over the table do to it.
use tinyos_rtos.Prelude.{
  ℕ, zero, suc, ◌+◌, ◌≤◌, ◌<◌, ◌≡◌, inl, inr, refl, none, some, List, [], ◌∷◌, ◌++◌, arith, leb,
  ltb, ◌&&◌, ◌==◌, if◌then◌else◌, update, has, Bool-cases,
}
use tinyos_rtos.Links.Unlink.{erase}
use tinyos_rtos.Kernel.{TaskPtr}
use tinyos_rtos.Watchdog.{Entry, WdtState, find_from}
use tinyos_rtos.Watchdog.Registry.{found, shift_from}

-- The tasks of `n` entries from `i` on.
unfoldable pub tasks_from : ℕ → ℕ → (ℕ → Entry) → List TaskPtr
tasks_from zero i es = []
tasks_from (suc n) i es = (es i).task ∷ tasks_from n (i + 1) es

abbrev pub registered : WdtState → List TaskPtr
registered g = tasks_from g.num_registered_tasks 0 g.task_entries

pub find_from-has :
    (n i : ℕ) (es : ℕ → Entry) (t : TaskPtr)
    → found (find_from n i es t) ≡ has t (tasks_from n i es)
unfolding find_from tasks_from
find_from-has zero i es t = refl
find_from-has (suc n) i es t = ground (arith, find_from-has n (i + 1) es t)

-- Where the search ends.
pub find_from-some :
    (n i : ℕ) (es : ℕ → Entry) (t : TaskPtr) (j : ℕ)
    → find_from n i es t ≡ some j
    → (i ≤ j) × (j < i + n) × ((es j).task ≡ t)
unfolding find_from
find_from-some zero i es t j e = absurd (cc)
find_from-some (suc n) i es t j e = elim (Bool-cases ((es i).task == t)) [
  | inl here ↦ let e' : some i ≡ some j = rw here at e in ground (arith, e')
  | inr there ↦
      let e' : find_from n (i + 1) es t ≡ some j = rw there at e in
      ground (arith, find_from-some n (i + 1) es t j e')
]

-- Entries outside the range do not matter.
pub tasks_from-same :
    (n i : ℕ) (es es' : ℕ → Entry)
    → ((m : ℕ) → i ≤ m → m < i + n → (es' m).task ≡ (es m).task)
    → tasks_from n i es' ≡ tasks_from n i es
unfolding tasks_from
tasks_from-same zero i es es' same = refl
tasks_from-same (suc n) i es es' same = rw (
  same i (omega arith) (omega arith),
  tasks_from-same n (i + 1) es es' (λ m ge lt. same m (omega arith) (omega arith)),
)

pub tasks_from-append :
    (n i : ℕ) (es : ℕ → Entry)
    → tasks_from (suc n) i es ≡ tasks_from n i es ++ (es (i + n)).task ∷ []
unfolding tasks_from
tasks_from-append zero i es = let e : i + 0 ≡ i = omega arith in rw e
tasks_from-append (suc n) i es =
    let e : i + 1 + n ≡ i + suc n = omega arith in rw (tasks_from-append n (i + 1) es, e)

tasks_from-shift :
    (n i : ℕ) (es es' : ℕ → Entry)
    → ((m : ℕ) → i ≤ m → m < i + n → (es' m).task ≡ (es (m + 1)).task)
    → tasks_from n i es' ≡ tasks_from n (i + 1) es
unfolding tasks_from
tasks_from-shift zero i es es' same = refl
tasks_from-shift (suc n) i es es' same = rw (
  same i (omega arith) (omega arith),
  tasks_from-shift n (i + 1) es es' (λ m ge lt. same m (omega arith) (omega arith)),
)

pub shift_from-at :
    (n j m : ℕ) (es : ℕ → Entry)
    → shift_from n j es m ≡ (if leb j m && ltb m (j + n) then es (m + 1) else es m)
unfolding shift_from
shift_from-at zero j m es = ground arith
shift_from-at (suc n) j m es = ground (arith, shift_from-at n (j + 1) m (update es j (es (j + 1))))

-- The table with the entry of a task taken out.
pub tasks_from-erase :
    (n i : ℕ) (es es' : ℕ → Entry) (t : TaskPtr) (j : ℕ)
    → find_from (suc n) i es t ≡ some j
    → ((m : ℕ) → i ≤ m → m < i + n → es' m ≡ (if leb j m then es (m + 1) else es m))
    → tasks_from n i es' ≡ erase t (tasks_from (suc n) i es)
unfolding find_from tasks_from erase
tasks_from-erase zero i es es' t j e same = elim (Bool-cases ((es i).task == t)) [
  | inl here ↦ rw here
  | inr there ↦ let e' : none ≡ some j = rw there at e in absurd cc
]
tasks_from-erase (suc n) i es es' t j e same = elim (Bool-cases ((es i).task == t)) [
  | inl here ↦
      let e' : some i ≡ some j = rw here at e in
      let at : j ≡ i = ground (arith, e') in
      rw here (tasks_from-shift (suc n) i es es' (λ m ge lt. ground (arith, same m ge lt)))
  | inr there ↦
      let e' : find_from (suc n) (i + 1) es t ≡ some j = rw there at e in
      let after : i + 1 ≤ j = (find_from-some (suc n) (i + 1) es t j e').0 in
      let first : (es' i).task ≡ (es i).task = ground (arith, same i (omega arith) (omega arith)) in
      rw (
        there,
        first,
        tasks_from-erase n (i + 1) es es' t j e' (λ m ge lt. same m (omega arith) (omega arith)),
      )
]
