-- ===== src/Kernel/Queue/Bitmap.antt =====
-- The bitmap of kernel.c: what marking and clearing a priority do to each bit, and that the
-- search for the first set bit finds the least marked priority.
use native.Mathlib.Nat.{pow-suc}
use tinyos_rtos.Prelude.{
  ℕ, zero, suc, ◌+◌, ◌/◌, ◌%◌, ◌^◌, ◌≤◌, ◌<◌, ◌≡◌, ◌≢◌, inl, inr, false, none, some, arith, ◌==◌,
  if◌then◌else◌, Bool-cases, ==→eq,
}
use tinyos_rtos.Prelude.Bits.{
  not_u32, bit, bit-bit_or, bit-bit_and, bit-pow, bit-not_u32, bit-lt-two, bit_or-lt, bit_and-lt,
}
use tinyos_rtos.Kernel.{Kernel}
use tinyos_rtos.Kernel.Queue.{mark, unmark, first_word, ctz}

-- 2 ^ b for a bit number of a word
pow-lt : (n b : ℕ) → b < n → 2 ^ b < 2 ^ n
pow-lt zero b h = absurd (omega arith)
pow-lt (suc n) zero h = ground (arith, pow-suc 2 n, pow-pos n)
  where
    pow-pos : (m : ℕ) → 0 < 2 ^ m
    pow-pos zero = omega arith
    pow-pos (suc m) = omega (arith, pow-suc 2 m, pow-pos m)
pow-lt (suc n) (suc b) h = omega (arith, pow-suc 2 n, pow-suc 2 b, pow-lt n b (omega arith))

-- Bit `p` of the bitmap.
abbrev marked_bit : Kernel → ℕ → ℕ
marked_bit k p = bit (k.ready_bitmap (p / 32)) (p % 32)

pub mark-bit :
    (k : Kernel) (p j : ℕ) → marked_bit (mark k p) j ≡ (if j == p then 1 else marked_bit k j)
unfolding mark
mark-bit k p j = ground (
  arith,
  bit-bit_or (k.ready_bitmap (p / 32)) (2 ^ (p % 32)) (j % 32),
  bit-pow (p % 32) (j % 32),
  bit-lt-two (k.ready_bitmap (p / 32)) (j % 32),
)

pub unmark-bit :
    (k : Kernel) (p j : ℕ) → marked_bit (unmark k p) j ≡ (if j == p then 0 else marked_bit k j)
unfolding unmark
unmark-bit k p j = ground (
  arith,
  bit-bit_and (k.ready_bitmap (p / 32)) (not_u32 (2 ^ (p % 32))) (j % 32),
  bit-not_u32 (2 ^ (p % 32)) (j % 32) (pow-lt 32 (p % 32) (omega arith)) (omega arith),
  bit-pow (p % 32) (j % 32),
  bit-lt-two (k.ready_bitmap (p / 32)) (j % 32),
)

pub mark-lt :
    (k : Kernel) (p w : ℕ)
    → ((v : ℕ) → k.ready_bitmap v < 2 ^ 32)
    → (mark k p).ready_bitmap w < 2 ^ 32
unfolding mark
mark-lt k p w h = elim (Bool-cases (w == p / 32)) [
  | inl e ↦ rw e (bit_or-lt 32 _ _ (h (p / 32)) (pow-lt 32 (p % 32) (omega arith)))
  | inr e ↦ rw e (h w)
]

pub unmark-lt :
    (k : Kernel) (p w : ℕ)
    → ((v : ℕ) → k.ready_bitmap v < 2 ^ 32)
    → (unmark k p).ready_bitmap w < 2 ^ 32
unfolding unmark
unmark-lt k p w h = elim (Bool-cases (w == p / 32)) [
  | inl e ↦ rw e (bit_and-lt 32 _ _ (h (p / 32)))
  | inr e ↦ rw e (h w)
]

below_suc :
    (w m : ℕ)
    → (w % 2 == 1) ≡ false
    → ((j : ℕ) → j < m → bit (w / 2) j ≡ 0)
    → (j : ℕ) → j < suc m
    → bit w j ≡ 0
unfolding bit
below_suc w m even h zero lt = ground arith
below_suc w m even h (suc j) lt = h j (omega arith)

-- The count of trailing zeros is the least bit that is set.
pub ctz_lem :
    (n w : ℕ)
    → w < 2 ^ n
    → w ≢ 0
    → (ctz n w < n) × (bit w (ctz n w) ≡ 1) × ((j : ℕ) → j < ctz n w → bit w j ≡ 0)
unfolding ctz bit
ctz_lem zero w h ne = absurd (omega arith)
ctz_lem (suc n) w h ne = elim (Bool-cases (w % 2 == 1)) [
  | inl e ↦ rw e (omega arith, ==→eq _ _ e, λ j lt. absurd (omega arith))
  | inr e ↦
      let (lt, at, below) = ctz_lem n (w / 2) (omega (arith, pow-suc 2 n)) (ground arith) in
      rw e (omega arith, at, below_suc w (ctz n (w / 2)) e below)
]

-- What the search over the words says when it finds none, and when it finds one.
pub first_word-none :
    (n w : ℕ) (bitmap : ℕ → ℕ)
    → first_word n w bitmap ≡ none
    → (v : ℕ) → w ≤ v
    → v < w + n
    → bitmap v ≡ 0
unfolding first_word
first_word-none zero w bitmap e v le lt = absurd (omega arith)
first_word-none (suc n) w bitmap e v le lt = elim (Bool-cases (v == w)) [
  | inl here ↦ ground arith
  | inr later ↦ first_word-none n (w + 1) bitmap (ground arith) v (ground arith) (omega arith)
]

first_below :
    (w v : ℕ) (bitmap : ℕ → ℕ)
    → bitmap w ≡ 0
    → ((u : ℕ) → w + 1 ≤ u → u < v → bitmap u ≡ 0)
    → (u : ℕ) → w ≤ u
    → u < v
    → bitmap u ≡ 0
first_below w v bitmap z h u le lt = elim (Bool-cases (u == w)) [
  | inl e ↦ rw (==→eq _ _ e) z
  | inr e ↦ h u (ground arith) lt
]

pub first_word-some :
    (n w : ℕ) (bitmap : ℕ → ℕ) (v : ℕ)
    → first_word n w bitmap ≡ some v
    → (w ≤ v) × (v < w + n) × (bitmap v ≢ 0) × ((u : ℕ) → w ≤ u → u < v → bitmap u ≡ 0)
unfolding first_word
first_word-some zero w bitmap v e = cc
first_word-some (suc n) w bitmap v e = elim (Bool-cases (bitmap w == 0)) [
  | inl z ↦
      let (le, lt, at, below) = first_word-some n (w + 1) bitmap v (rw z at e) in
      (omega arith, omega arith, at, λ u l m. first_below w v bitmap (==→eq _ _ z) below u l m)
  | inr z ↦
      let same : w ≡ v = ground arith in
      (omega arith, omega arith, ground arith, λ u l m. absurd (omega arith))
]
