-- ===== src/Links/Unlink.antt =====
-- Taking a node out of a linked list.
use tinyos_rtos.Prelude.{
  ℕ, zero, suc, ◌≤◌, ◌<◌, ◌≡◌, ◌≢◌, refl, true, false, some, List, [], ◌∷◌, arith, inl, inr, ◌==◌,
  if◌then◌else◌, Bool-cases, length, has, Distinct,
}
use tinyos_rtos.Links.{null, find_node, Found, absent, behind, Chain, Chain-frame}

-- What the walk finds, as a function of the list.
pub pred_of : ℕ → ℕ → List ℕ → Found
pred_of t prev [] = absent
pred_of t prev (x ∷ xs) = if x == t then behind prev else pred_of t x xs

-- The list without the node.
unfoldable pub erase : ℕ → List ℕ → List ℕ
erase t [] = []
erase t (x ∷ xs) = if x == t then xs else x ∷ erase t xs

pub find_node-pred_of :
    (fuel : ℕ) (next : ℕ → ℕ) (prev p t : ℕ) (xs : List ℕ)
    → Chain next p xs
    → length xs < fuel
    → find_node fuel next prev p t ≡ some (pred_of t prev xs)
unfolding find_node pred_of
find_node-pred_of zero next prev p t xs c h = absurd (omega arith)
find_node-pred_of (suc fuel) next prev p t [] c h = ground arith
find_node-pred_of (suc fuel) next prev p t (x ∷ xs) (e, m, c) h =
    ground (arith, find_node-pred_of fuel next x (next x) t xs c)

pub pred_of-absent : (t prev : ℕ) (xs : List ℕ) → has t xs ≡ false → pred_of t prev xs ≡ absent
unfolding pred_of
pred_of-absent t prev [] h = refl
pred_of-absent t prev (x ∷ xs) h = ground (arith, pred_of-absent t x xs)

pub erase-absent : (t : ℕ) (xs : List ℕ) → has t xs ≡ false → erase t xs ≡ xs
unfolding erase
erase-absent t [] h = refl
erase-absent t (x ∷ xs) h = ground (arith, erase-absent t xs)

-- The node before one that is there is the head's predecessor or a node of the list.
pub pred_of-behind :
    (t prev : ℕ) (xs : List ℕ)
    → has t xs ≡ true
    → (r : ℕ) × (pred_of t prev xs ≡ behind r) × (has r (prev ∷ xs) ≡ true)
unfolding pred_of
pred_of-behind t prev [] h = cc
pred_of-behind t prev (x ∷ xs) h = elim (Bool-cases (x == t)) [
  | inl e ↦ (prev, rw e, ground arith)
  | inr e ↦
      let (r, found, at) = pred_of-behind t x xs (ground arith) in (r, rw e found, ground arith)
]

pub pred_of-mem :
    (t prev r : ℕ) (xs : List ℕ) → pred_of t prev xs ≡ behind r → has r (prev ∷ xs) ≡ true
unfolding pred_of
pred_of-mem t prev r [] h = cc
pred_of-mem t prev r (x ∷ xs) h = ground (arith, pred_of-mem t x r xs)

pub pred_of-ne : (t prev r : ℕ) (xs : List ℕ) → prev ≢ t → pred_of t prev xs ≡ behind r → r ≢ t
unfolding pred_of
pred_of-ne t prev r [] n h = cc
pred_of-ne t prev r (x ∷ xs) n h = ground (arith, pred_of-ne t x r xs)

-- At the head: the rest of the list hangs on.
pub Chain-unlink_head :
    (next next' : ℕ → ℕ) (t : ℕ) (xs : List ℕ)
    → Chain next t (t ∷ xs)
    → Distinct (t ∷ xs)
    → ((y : ℕ) → has y xs ≡ true → y ≢ t → next' y ≡ next y)
    → Chain next' (next t) xs
Chain-unlink_head next next' t xs (e, m, c) d same =
    Chain-frame next next' (next t) xs c (λ y h. same y h (ground arith))

-- Behind the head: the node before it is made to skip it.
pub Chain-unlink :
    (next next' : ℕ → ℕ) (x t r : ℕ) (xs : List ℕ)
    → Chain next x (x ∷ xs)
    → Distinct (x ∷ xs)
    → x ≢ t
    → pred_of t x xs ≡ behind r
    → next' r ≡ next t
    → ((y : ℕ) → has y (x ∷ xs) ≡ true → y ≢ r → y ≢ t → next' y ≡ next y)
    → Chain next' x (x ∷ erase t xs)
unfolding pred_of erase
Chain-unlink next next' x t r [] c d ne found skip same = cc
Chain-unlink next next' x t r (y ∷ ys) (e, m, (f, k, c)) d ne found skip same =
    elim (Bool-cases (y == t)) [
      | inl hit ↦
          let at : next' x ≡ next y = ground arith in
          rw hit (
            refl,
            m,
            rw at (
                Chain-frame next next' (next y) ys c
                  (λ z h. same z (ground arith) (ground arith) (ground arith))),
          )
      | inr miss ↦
          let deeper : pred_of t y ys ≡ behind r = ground arith in
          let apart : r ≢ x = ground (arith, pred_of-mem t y r ys deeper) in
          let rest =
            Chain-unlink next next' y t r ys (refl, k, c) d.1 (ground arith) deeper skip
              (λ z h. same z (ground arith)) in
          rw miss (refl, m, (ground (arith, same x), k, rest.2))
    ]

pub length-erase : (t : ℕ) (xs : List ℕ) → length (erase t xs) ≤ length xs
unfolding erase
length-erase t [] = omega arith
length-erase t (x ∷ xs) = ground (arith, length-erase t xs)

pub erase-mem : (t y : ℕ) (xs : List ℕ) → has y (erase t xs) ≡ true → has y xs ≡ true
unfolding erase
erase-mem t y [] h = h
erase-mem t y (x ∷ xs) h = ground (arith, erase-mem t y xs)

pub Distinct-erase : (t : ℕ) (xs : List ℕ) → Distinct xs → Distinct (erase t xs)
unfolding erase
Distinct-erase t [] d = tt
Distinct-erase t (x ∷ xs) d = elim (Bool-cases (x == t)) [
  | inl e ↦ rw e d.1
  | inr e ↦ rw e (ground (arith, erase-mem t x xs), Distinct-erase t xs d.1)
]

pub erase-not-mem : (t : ℕ) (xs : List ℕ) → Distinct xs → has t (erase t xs) ≡ false
unfolding erase
erase-not-mem t [] d = refl
erase-not-mem t (x ∷ xs) d = ground (arith, erase-not-mem t xs d.1)

pub erase-head : (t : ℕ) (xs : List ℕ) → erase t (t ∷ xs) ≡ xs
unfolding erase
erase-head t xs = ground arith

pub erase-later : (t x : ℕ) (xs : List ℕ) → x ≢ t → erase t (x ∷ xs) ≡ x ∷ erase t xs
unfolding erase
erase-later t x xs ne = ground arith

pub pred_of-head : (t prev : ℕ) (xs : List ℕ) → pred_of t prev (t ∷ xs) ≡ behind prev
unfolding pred_of
pred_of-head t prev xs = ground arith

pub pred_of-later : (t prev x : ℕ) (xs : List ℕ) → x ≢ t → pred_of t prev (x ∷ xs) ≡ pred_of t x xs
unfolding pred_of
pred_of-later t prev x xs ne = ground arith

pub erase-ne : (t y : ℕ) (xs : List ℕ) → y ≢ t → has y xs ≡ true → has y (erase t xs) ≡ true
unfolding erase
erase-ne t y [] ne h = h
erase-ne t y (x ∷ xs) ne h = ground (arith, erase-ne t y xs ne)

pub length-erase_mem :
    (t : ℕ) (xs : List ℕ) → has t xs ≡ true → suc (length (erase t xs)) ≡ length xs
unfolding erase
length-erase_mem t [] h = cc
length-erase_mem t (x ∷ xs) h = ground (arith, length-erase_mem t xs)

-- A list of one node
pub find_node-single :
    (rounds : ℕ) (next : ℕ → ℕ) (x y : ℕ)
    → x ≢ null
    → y ≢ x
    → next x ≡ null
    → find_node (suc (suc rounds)) next null x y ≡ some absent
unfolding find_node
find_node-single rounds next x y real other last = ground arith
