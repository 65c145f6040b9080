-- ===== src/Flash/Bytes.antt =====
-- What the copies and the fill of memory do to each byte.
use tinyos_rtos.Prelude.{
  ℕ, zero, suc, ◌+◌, ◌≡◌, refl, true, List, [], ◌∷◌, arith, ltb, leb, ◌&&◌, if◌then◌else◌, update,
}
pub use tinyos_rtos.Prelude.Memory.{copy_in-outside, copy_out-copy_in}
use tinyos_rtos.Flash.{fill, same_bytes}

pub fill-at :
    (n a v : ℕ) (m : ℕ → ℕ) (b : ℕ) → fill n a v m b ≡ (if leb a b && ltb b (a + n) then v else m b)
unfolding fill
fill-at zero a v m b = ground arith
fill-at (suc n) a v m b = ground (arith, fill-at n (a + 1) v (update m a v) b)

pub same_bytes_refl : (xs : List ℕ) → same_bytes xs xs ≡ true
unfolding same_bytes
same_bytes_refl [] = refl
same_bytes_refl (x ∷ xs) = ground (arith, same_bytes_refl xs)
