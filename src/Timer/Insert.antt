-- ===== src/Timer/Insert.antt =====
-- The insertion against a sorted list.
use mathlib.Core.Path.{subst, fun_ext}
use tinyos_rtos.Prelude.{
  ℕ, zero, suc, ◌+◌, ◌≤◌, ◌<◌, ◌≡◌, ◌≢◌, inl, inr, refl, true, false, Option, some, List, [], ◌∷◌,
  arith, ltb, ◌==◌, ◌||◌, if◌then◌else◌, update, length, has, Distinct, Bool-cases, ap, sym,
}
use tinyos_rtos.Prelude.Word.{u32}
use tinyos_rtos.Links.{null, Chain, Chain-frame}
use tinyos_rtos.Timer.{
  Manager, SoftTimer, set_link, next_of, expiry, walk, count_up, timer_insert_sorted,
}

-- A new node behind all that expire no later.
pub insert_by : (ℕ → ℕ) → ℕ → List ℕ → List ℕ
insert_by key t [] = t ∷ []
insert_by key t (x ∷ xs) =
    let rest = insert_by key t xs in if ltb (key t) (key x) then t ∷ x ∷ xs else x ∷ rest

-- No node expires later than one behind it.
abbrev pub Sorted : (ℕ → ℕ) → List ℕ → Type 0
Sorted key [] = Unit {0}
Sorted key (x ∷ xs) = ((y : ℕ) → has y xs ≡ true → key x ≤ key y) × Sorted key xs

has-insert_by :
    (key : ℕ → ℕ) (t y : ℕ) (xs : List ℕ) → has y (insert_by key t xs) ≡ (y == t || has y xs)
unfolding insert_by
has-insert_by key t y [] = ground arith
has-insert_by key t y (x ∷ xs) = ground (arith, has-insert_by key t y xs)

insert_by-Sorted :
    (key : ℕ → ℕ) (t : ℕ) (xs : List ℕ) → Sorted key xs → Sorted key (insert_by key t xs)
unfolding insert_by
insert_by-Sorted key t [] s = (λ y i. absurd (ground arith), tt)
insert_by-Sorted key t (x ∷ xs) s = elim (Bool-cases (ltb (key t) (key x))) [
  | inl below ↦ rw below (
    λ y i. elim (Bool-cases (y == x)) [ inl e ↦ ground arith | inr e ↦ ground (arith, s.0 y) ],
    s,
  )
  | inr above ↦ rw above (
    λ y i. elim (Bool-cases (y == t)) [
      | inl e ↦ ground arith
      | inr e ↦ ground (arith, s.0 y, has-insert_by key t y xs)
    ],
    insert_by-Sorted key t xs s.1,
  )
]

-- The links once `t` stands behind `c`.
abbrev linked : (ℕ → ℕ) → ℕ → ℕ → ℕ → ℕ
linked next t c = update (update next t (next c)) c t

-- What the walk from `c`, in front of the nodes `rest`, finds.
record Place (next key : ℕ → ℕ) (t c : ℕ) (rest : List ℕ) (out : Option ℕ) : Type 0 where
  place : ℕ
  meets : out ≡ some place
  inside : has place (c ∷ rest) ≡ true
  chain : Chain (linked next t place) c (c ∷ insert_by key t rest)

walk-Place :
    (fuel : ℕ) (next key : ℕ → ℕ) (t c : ℕ) (rest : List ℕ)
    → Chain next c (c ∷ rest)
    → Distinct (c ∷ rest)
    → t ≢ null
    → has t (c ∷ rest) ≡ false
    → length rest < fuel
    → Place next key t c rest (walk fuel next key (key t) c)
unfolding walk insert_by
walk-Place zero next key t c rest ch d real out short = absurd (omega arith)
walk-Place (suc fuel) next key t c [] ch d real out short = record {
  place = c;
  meets = ground (arith, ch);
  inside = ground arith;
  chain = (refl, ch.1, (ground arith, real, ground (arith, ch)));
}
walk-Place (suc fuel) next key t c (x ∷ rest) (e, cr, (at, xr, ch)) d real out short =
    elim (Bool-cases (ltb (key t) (key x))) [
      | inl below ↦ record {
        place = c;
        meets = ground (arith, at);
        inside = ground arith;
        chain = rw below (
          refl,
          cr,
          (
            ground arith,
            real,
            (
              ground (arith, at),
              xr,
              subst (λ (z : ℕ). Chain (linked next t c) z rest) (ground arith)
                  (Chain-frame next (linked next t c) (next x) rest ch (λ y i. ground arith)),
            ),
          ),
        );
      }
      | inr above ↦
          let p =
            walk-Place fuel next key t x rest (refl, xr, ch) d.1 real (ground arith)
              (omega arith) in
          record {
            place = p.place;
            meets = ground (arith, at, p.meets);
            inside = ground (arith, p.inside);
            chain =
                let stay : linked next t p.place c ≡ x = ground (arith, p.inside, at) in
                rw above (refl, cr, rw stay p.chain);
          }
    ]

-- The active timers are the list `xs`, and counted.
pub record Lists (m : Manager) (xs : List ℕ) : Type 0 where
  pub chain : Chain (next_of m) m.active_timers xs
  pub distinct : Distinct xs
  pub counted : m.timer_count ≡ u32 (length xs)

length-insert_by :
    (key : ℕ → ℕ) (t : ℕ) (xs : List ℕ) → length (insert_by key t xs) ≡ suc (length xs)
unfolding insert_by
length-insert_by key t [] = refl
length-insert_by key t (x ∷ xs) = ground (arith, length-insert_by key t xs)

Distinct-insert_by :
    (key : ℕ → ℕ) (t : ℕ) (xs : List ℕ)
    → Distinct xs
    → has t xs ≡ false
    → Distinct (insert_by key t xs)
unfolding insert_by
Distinct-insert_by key t [] d out = (refl, tt)
Distinct-insert_by key t (x ∷ xs) d out = elim (Bool-cases (ltb (key t) (key x))) [
  | inl below ↦ rw below (out, d)
  | inr above ↦
      rw above
        (ground (arith, has-insert_by key t x xs), Distinct-insert_by key t xs d.1 (ground arith))
]

-- What the insertion leaves alone.
pub record Inserted (m m' : Manager) (xs : List ℕ) (t : ℕ) : Type 0 where
  pub lists : Lists m' (insert_by (expiry m) t xs)
  pub sorted : Sorted (expiry m) xs → Sorted (expiry m') (insert_by (expiry m) t xs)
  pub rest : (y : ℕ) → record (m'.timer y) { next = null } ≡ record (m.timer y) { next = null }

nil_case : (key : ℕ → ℕ) (t : ℕ) → insert_by key t [] ≡ t ∷ []
unfolding insert_by
nil_case key t = refl

first_case :
    (key : ℕ → ℕ) (t x : ℕ) (xs : List ℕ)
    → ltb (key t) (key x) ≡ true
    → insert_by key t (x ∷ xs) ≡ t ∷ x ∷ xs
unfolding insert_by
first_case key t x xs below = rw below

later_case :
    (key : ℕ → ℕ) (t x : ℕ) (xs : List ℕ)
    → ltb (key t) (key x) ≡ false
    → insert_by key t (x ∷ xs) ≡ x ∷ insert_by key t xs
unfolding insert_by
later_case key t x xs above = rw above

-- The new timer at the head.
first_chain :
    (m : Manager) (xs : List ℕ) (t : ℕ)
    → Lists m xs
    → t ≢ null
    → has t xs ≡ false
    → insert_by (expiry m) t xs ≡ t ∷ xs
    → Chain (next_of (set_link m t m.active_timers)) t (insert_by (expiry m) t xs)
first_chain m xs t l real out e = rw e (
  refl,
  real,
  subst (λ (z : ℕ). Chain (next_of (set_link m t m.active_timers)) z xs) (ground arith)
      (Chain-frame (next_of m) _ m.active_timers xs l.chain (λ y i. ground arith)),
)

inserted :
    (m m' : Manager) (xs : List ℕ) (t : ℕ)
    → Lists m xs
    → has t xs ≡ false
    → Chain (next_of m') m'.active_timers (insert_by (expiry m) t xs)
    → m'.timer_count ≡ u32 (m.timer_count + 1)
    → ((y : ℕ) → record (m'.timer y) { next = null } ≡ record (m.timer y) { next = null })
    → Inserted m m' xs t
inserted m m' xs t l out ch count rest =
    let same : expiry m' ≡ expiry m =
      fun_ext (λ y. ap (λ (c : SoftTimer). c.expire_time) (rest y)) in
    record {
      lists = record {
        chain = ch;
        distinct = Distinct-insert_by (expiry m) t xs l.distinct out;
        counted = omega (arith, count, l.counted, length-insert_by (expiry m) t xs);
      };
      sorted = λ s.
          subst (λ (k : ℕ → ℕ). Sorted k (insert_by (expiry m) t xs)) (sym same)
            (insert_by-Sorted (expiry m) t xs s);
      rest = rest;
    }

-- A timer that is not in the list goes behind the timers that expire no later and before the others:
-- the list stays sorted if it was, the count grows by one, and nothing but links changes.
pub timer_insert_sorted_lem :
    (fuel : ℕ) (m : Manager) (xs : List ℕ) (t : ℕ)
    → Lists m xs
    → t ≢ null
    → has t xs ≡ false
    → length xs ≤ fuel
    → (m' : Manager) × (timer_insert_sorted fuel m t ≡ some m') × Inserted m m' xs t
unfolding timer_insert_sorted
timer_insert_sorted_lem fuel m [] t l real out enough =
    let m' = count_up (record (set_link m t m.active_timers) { active_timers = t }) in
    (
      m',
      ground (arith, l.chain),
      inserted m m' [] t l out (first_chain m [] t l real out (nil_case (expiry m) t)) refl
          (λ y. ground arith),
    )
timer_insert_sorted_lem fuel m (x ∷ xs) t l real out enough =
    elim (Bool-cases (ltb (expiry m t) (expiry m x))) [
      | inl below ↦
          let m' = count_up (record (set_link m t m.active_timers) { active_timers = t }) in
          (
            m',
            ground (arith, l.chain, below),
            inserted m m' (x ∷ xs) t l out
                (first_chain m (x ∷ xs) t l real out (first_case (expiry m) t x xs below)) refl
                (λ y. ground arith),
          )
      | inr above ↦
          let ch : Chain (next_of m) x (x ∷ xs) = (refl, l.chain.1, l.chain.2) in
          let p =
            walk-Place fuel (next_of m) (expiry m) t x xs ch l.distinct real out (omega arith) in
          let c = p.place in
          let m' = count_up (set_link (set_link m t (next_of m c)) c t) in
          let ch' : Chain (next_of m') x (x ∷ insert_by (expiry m) t xs) =
            Chain-frame (linked (next_of m) t c) (next_of m') x (x ∷ insert_by (expiry m) t xs)
              p.chain (λ y i. ground arith) in
          let later : insert_by (expiry m) t (x ∷ xs) ≡ x ∷ insert_by (expiry m) t xs =
            later_case (expiry m) t x xs above in
          (
            m',
            ground (arith, l.chain, above, p.meets),
            inserted m m' (x ∷ xs) t l out (rw (later, l.chain.0) ch') refl (λ y. ground arith),
          )
    ]
