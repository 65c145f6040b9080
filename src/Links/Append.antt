-- ===== src/Links/Append.antt =====
-- Appending a node at the end of a linked list.
use tinyos_rtos.Prelude.{
  ℕ, zero, suc, ◌<◌, ◌≡◌, ◌≢◌, refl, true, some, List, [], ◌∷◌, ◌++◌, arith, length, has, Distinct,
}
use tinyos_rtos.Links.{last_node, Chain, null}

abbrev pub last_of : ℕ → List ℕ → ℕ
last_of x [] = x
last_of x (y ∷ ys) = last_of y ys

pub last_of-mem : (x : ℕ) (xs : List ℕ) → has (last_of x xs) (x ∷ xs) ≡ true
last_of-mem x [] = ground arith
last_of-mem x (y ∷ ys) = ground (arith, last_of-mem y ys)

-- The walk to the end finds the last node, given more fuel than nodes.
pub last_node-last_of :
    (fuel : ℕ) (next : ℕ → ℕ) (x : ℕ) (xs : List ℕ)
    → Chain next x (x ∷ xs)
    → length xs < fuel
    → last_node fuel next x ≡ some (last_of x xs)
unfolding last_node
last_node-last_of zero next x xs c h = absurd (omega arith)
last_node-last_of (suc fuel) next x [] c h = ground arith
last_node-last_of (suc fuel) next x (y ∷ ys) (e, n, (f, m, c)) h =
    ground (arith, last_node-last_of fuel next y ys (refl, m, c))

-- Writing `next` of the last node, and NULL into the new one, appends the new one.
pub Chain-append :
    (next next' : ℕ → ℕ) (x t : ℕ) (xs : List ℕ)
    → Chain next x (x ∷ xs)
    → Distinct (x ∷ xs)
    → t ≢ null
    → next' (last_of x xs) ≡ t
    → next' t ≡ null
    → ((y : ℕ) → has y (x ∷ xs) ≡ true → y ≢ last_of x xs → next' y ≡ next y)
    → Chain next' x (x ∷ (xs ++ t ∷ []))
Chain-append next next' x t [] c d n el et same = (refl, c.1, (el, n, et))
Chain-append next next' x t (y ∷ ys) (e, m, (f, k, c)) d n el et same =
    let apart : x ≢ last_of y ys = ground (arith, last_of-mem y ys) in
    let step : next' x ≡ y = ground (arith, same x) in
    let rest =
      Chain-append next next' y t ys (refl, k, c) d.1 n el et
        (λ y' h ne. same y' (ground arith) ne) in
    (refl, m, (step, k, rest.2))
