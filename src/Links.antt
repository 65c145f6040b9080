-- ===== src/Links.antt =====
-- Singly linked lists through a `next` field, as kernel.c and timer.c keep them: the
-- two walks that kernel.c makes, and the list of nodes that a head pointer stands for.
-- Address 0 is NULL. A walk takes fuel, and `none` says that it ran out.
pub mod Append
pub mod Unlink
use tinyos_rtos.Prelude.{
  ℕ, zero, suc, ◌≡◌, ◌≢◌, refl, Bool, true, false, Option, none, some, List, [], ◌∷◌, arith, ◌==◌,
  has,
}

abbrev pub null : ℕ
null = 0

-- `while (p->next != NULL) p = p->next;`
pub last_node : ℕ → (ℕ → ℕ) → ℕ → Option ℕ
last_node zero next p = none
last_node (suc fuel) next p = elim (next p == null) [
  | true ↦ some p
  | false ↦ last_node fuel next (next p)
]

-- Whether a walk met the node it looked for, and the node before it (NULL at the head).
pub data Found : Type 0 where
  absent : Found
  behind : ℕ → Found

-- `prev = NULL; cur = head; while (cur != NULL && cur != node) { prev = cur; cur = cur->next; }`
pub find_node : ℕ → (ℕ → ℕ) → ℕ → ℕ → ℕ → Option Found
find_node zero next prev cur node = none
find_node (suc fuel) next prev cur node = elim (cur == null) [
  | true ↦ some absent
  | false ↦ elim (cur == node) [
    | true ↦ some (behind prev)
    | false ↦ find_node fuel next cur (next cur) node
  ]
]

-- From `p` the `next` fields lead through the nodes `xs` to NULL.
abbrev pub Chain : (ℕ → ℕ) → ℕ → List ℕ → Type 0
Chain next p [] = p ≡ null
Chain next p (x ∷ xs) = (p ≡ x) × (x ≢ null) × Chain next (next x) xs

-- A chain survives a change of the fields of other nodes.
pub Chain-frame :
    (next next' : ℕ → ℕ) (p : ℕ) (xs : List ℕ)
    → Chain next p xs
    → ((y : ℕ) → has y xs ≡ true → next' y ≡ next y)
    → Chain next' p xs
Chain-frame next next' p [] c same = c
Chain-frame next next' p (x ∷ xs) c same = (
  c.0,
  c.1,
  rw (same x (ground arith))
      (Chain-frame next next' (next x) xs c.2 (λ y h. same y (ground arith))),
)

pub null-not-mem : (next : ℕ → ℕ) (p : ℕ) (xs : List ℕ) → Chain next p xs → has null xs ≡ false
null-not-mem next p [] c = refl
null-not-mem next p (x ∷ xs) c = ground (arith, null-not-mem next (next x) xs c.2)

pub head-null_iff : (next : ℕ → ℕ) (p : ℕ) (xs : List ℕ) → Chain next p xs → p ≡ null → xs ≡ []
head-null_iff next p [] c e = refl
head-null_iff next p (x ∷ xs) c e = absurd (omega arith)
