-- ===== src/Prelude/Memory.antt =====
-- `memcpy` from memory and to it. A memory is a function from addresses to bytes.
use Prim.Native.Nat.{ℕ, zero, suc, ◌+◌}
use mathlib.Core.Path.{◌≡◌, refl}
use mathlib.Core.Bool.{true, ◌||◌}
use mathlib.Core.List.{List, [], ◌∷◌}
use native.Mathlib.Omega.{arith}
use tinyos_rtos.Prelude.Tests.{ltb, leb, update}
use tinyos_rtos.Prelude.Lists.{length}

unfoldable pub copy_out : ℕ → ℕ → (ℕ → ℕ) → List ℕ
copy_out zero a m = []
copy_out (suc n) a m = m a ∷ copy_out n (a + 1) m

unfoldable pub copy_in : ℕ → List ℕ → (ℕ → ℕ) → ℕ → ℕ
copy_in a [] m = m
copy_in a (x ∷ xs) m = copy_in (a + 1) xs (update m a x)

pub copy_in-outside :
    (a : ℕ) (xs : List ℕ) (m : ℕ → ℕ) (b : ℕ)
    → (ltb b a || leb (a + length xs) b) ≡ true
    → copy_in a xs m b ≡ m b
unfolding copy_in
copy_in-outside a [] m b out = refl
copy_in-outside a (x ∷ xs) m b out = ground (arith, copy_in-outside (a + 1) xs (update m a x) b)

-- The bytes that were written are read.
pub copy_out-copy_in :
    (a : ℕ) (xs : List ℕ) (m : ℕ → ℕ) → copy_out (length xs) a (copy_in a xs m) ≡ xs
unfolding copy_in copy_out
copy_out-copy_in a [] m = refl
copy_out-copy_in a (x ∷ xs) m =
    let first : copy_in (a + 1) xs (update m a x) a ≡ x =
      ground (arith, copy_in-outside (a + 1) xs (update m a x) a) in
    rw (first, copy_out-copy_in (a + 1) xs (update m a x))

-- A range that the write does not touch
pub copy_out-copy_in_elsewhere :
    (n b a : ℕ) (xs : List ℕ) (m : ℕ → ℕ)
    → (leb (b + n) a || leb (a + length xs) b) ≡ true
    → copy_out n b (copy_in a xs m) ≡ copy_out n b m
unfolding copy_out
copy_out-copy_in_elsewhere zero b a xs m apart = refl
copy_out-copy_in_elsewhere (suc n) b a xs m apart = rw (
  copy_in-outside a xs m b (ground arith),
  copy_out-copy_in_elsewhere n (b + 1) a xs m (ground arith),
)
