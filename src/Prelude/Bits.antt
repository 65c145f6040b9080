-- ===== src/Prelude/Bits.antt =====
-- `|`, `&` and `~` of C words at variables: what each does to a single bit.
use Prim.Native.Nat.{
  ℕ, zero, suc, ◌+◌, ◌-◌, ◌*◌, ◌/◌, ◌%◌, ◌^◌, ◌≤◌, ◌<◌, min, max, digits, bitwise, bit_and, bit_or,
  bit_and-bitwise, bit_or-bitwise,
}
use mathlib.Core.Path.{◌≡◌, refl}
use native.Mathlib.Nat.{pow-suc}
use native.Mathlib.Omega.{arith}
use mathlib.Core.Bool.{Bool, true, ◌&&◌}
use mathlib.Core.Logic.{inl, inr}
use tinyos_rtos.Prelude.Tests.{Bool-cases, Bool-cases, ◌==◌, if◌then◌else◌, ==→eq}

-- `~w` on uint32_t
abbrev pub not_u32 : ℕ → ℕ
not_u32 w = 2 ^ 32 - 1 - w

-- Bit `i` of a word, as 0 or 1.
unfoldable pub bit : ℕ → ℕ → ℕ
bit w zero = w % 2
bit w (suc i) = bit (w / 2) i

-- The library computes both operations digit by digit with fuel; more fuel than digits is no harm.
spare_fuel :
    (zero_case : ℕ → ℕ) (digit : ℕ → ℕ → ℕ) (x y n m : ℕ)
    → x ≤ n
    → n ≤ m
    → digits zero_case digit m x y ≡ digits zero_case digit n x y
spare_fuel zero_case digit (suc x) y (suc n) (suc m) few fewer =
    rw (spare_fuel zero_case digit (suc x / 2) (y / 2) n m (omega arith) (omega arith))
spare_fuel zero_case digit (suc x) y (suc n) zero few fewer = absurd (omega arith)
spare_fuel zero_case digit (suc x) y zero m few fewer = absurd (omega arith)
spare_fuel zero_case digit zero y (suc n) (suc m) few fewer = refl
spare_fuel zero_case digit zero y (suc n) zero few fewer = absurd (omega arith)
spare_fuel zero_case digit zero y zero (suc m) few fewer = refl
spare_fuel zero_case digit zero y zero zero few fewer = refl

-- So the lowest digits split off.
lowest_digit :
    (zero_case : ℕ → ℕ) (digit : ℕ → ℕ → ℕ) (x y : ℕ)
    → bitwise zero_case digit (suc x) y
      ≡ bitwise zero_case digit (suc x / 2) (y / 2) * 2 + digit (suc x % 2) (y % 2)
lowest_digit zero_case digit x y =
    rw (spare_fuel zero_case digit (suc x / 2) (y / 2) (suc x / 2) x (omega arith) (omega arith))

bit_or_digit : (a b : ℕ) → bit_or a b ≡ bit_or (a / 2) (b / 2) * 2 + max (a % 2) (b % 2)
bit_or_digit zero b = omega (arith, bit_or-bitwise 0 b, bit_or-bitwise 0 (b / 2))
bit_or_digit (suc a) b = omega (
  arith,
  bit_or-bitwise (suc a) b,
  bit_or-bitwise (suc a / 2) (b / 2),
  lowest_digit (λ y. y) max a b,
)

bit_and_digit : (a b : ℕ) → bit_and a b ≡ bit_and (a / 2) (b / 2) * 2 + min (a % 2) (b % 2)
bit_and_digit zero b = omega (arith, bit_and-bitwise 0 b, bit_and-bitwise 0 (b / 2))
bit_and_digit (suc a) b = omega (
  arith,
  bit_and-bitwise (suc a) b,
  bit_and-bitwise (suc a / 2) (b / 2),
  lowest_digit (λ y. 0) min a b,
)

half-bit_or : (a b : ℕ) → bit_or a b / 2 ≡ bit_or (a / 2) (b / 2)
half-bit_or a b = omega (arith, bit_or_digit a b)

half-bit_and : (a b : ℕ) → bit_and a b / 2 ≡ bit_and (a / 2) (b / 2)
half-bit_and a b = omega (arith, bit_and_digit a b)

pub bit-bit_or : (a b i : ℕ) → bit (bit_or a b) i ≡ max (bit a i) (bit b i)
unfolding bit
bit-bit_or a b zero = omega (arith, bit_or_digit a b)
bit-bit_or a b (suc i) = rw (half-bit_or a b) (bit-bit_or (a / 2) (b / 2) i)

pub bit-bit_and : (a b i : ℕ) → bit (bit_and a b) i ≡ min (bit a i) (bit b i)
unfolding bit
bit-bit_and a b zero = omega (arith, bit_and_digit a b)
bit-bit_and a b (suc i) = rw (half-bit_and a b) (bit-bit_and (a / 2) (b / 2) i)

pub bit-lt-two : (w i : ℕ) → bit w i < 2
unfolding bit
bit-lt-two w zero = omega arith
bit-lt-two w (suc i) = bit-lt-two (w / 2) i

pub bit-zero : (i : ℕ) → bit 0 i ≡ 0
unfolding bit
bit-zero zero = refl
bit-zero (suc i) = bit-zero i

half_pow : (n : ℕ) → 2 ^ suc n / 2 ≡ 2 ^ n
half_pow n = omega (arith, pow-suc 2 n)

-- `1 << b` has the one bit `b`.
pub bit-pow : (b i : ℕ) → bit (2 ^ b) i ≡ (if i == b then 1 else 0)
unfolding bit
bit-pow zero zero = refl
bit-pow zero (suc i) = ground (arith, bit-zero i)
bit-pow (suc b) zero = ground (arith, pow-suc 2 b)
bit-pow (suc b) (suc i) = rw (half_pow b) (ground (arith, bit-pow b i))

-- The complement within `n` bits.
bit-complement : (n w i : ℕ) → w < 2 ^ n → i < n → bit (2 ^ n - 1 - w) i ≡ 1 - bit w i
unfolding bit
bit-complement zero w i h lt = absurd (omega arith)
bit-complement (suc n) w zero h lt = omega (arith, pow-suc 2 n)
bit-complement (suc n) w (suc i) h lt =
    let e : (2 ^ suc n - 1 - w) / 2 ≡ 2 ^ n - 1 - w / 2 = omega (arith, pow-suc 2 n) in
    rw e (bit-complement n (w / 2) i (omega (arith, pow-suc 2 n)) (omega arith))

pub bit-not_u32 : (w i : ℕ) → w < 2 ^ 32 → i < 32 → bit (not_u32 w) i ≡ 1 - bit w i
bit-not_u32 w i h lt = bit-complement 32 w i h lt

-- The operations keep a word within its width.
pub bit_or-lt : (n a b : ℕ) → a < 2 ^ n → b < 2 ^ n → bit_or a b < 2 ^ n
bit_or-lt zero a b h k =
    let e : a ≡ 0 = omega arith in let e' : b ≡ 0 = omega arith in rw (e, e') (omega arith)
bit_or-lt (suc n) a b h k = omega (
  arith,
  pow-suc 2 n,
  bit_or_digit a b,
  bit_or-lt n (a / 2) (b / 2) (omega (arith, pow-suc 2 n)) (omega (arith, pow-suc 2 n)),
)

pub bit_and-lt : (n a b : ℕ) → a < 2 ^ n → bit_and a b < 2 ^ n
bit_and-lt zero a b h = let e : a ≡ 0 = omega arith in rw e (omega (arith, bit_and-bitwise 0 b))
bit_and-lt (suc n) a b h = omega (
  arith,
  pow-suc 2 n,
  bit_and_digit a b,
  bit_and-lt n (a / 2) (b / 2) (omega (arith, pow-suc 2 n)),
)

-- Over a small range, every value is tried.
all_below : ℕ → (ℕ → Bool) → Bool
all_below zero p = true
all_below (suc n) p = p n && all_below n p

all_below_lem : (n : ℕ) (p : ℕ → Bool) (x : ℕ) → all_below n p ≡ true → x < n → p x ≡ true
unfolding all_below
all_below_lem zero p x h lt = absurd (omega arith)
all_below_lem (suc n) p x h lt = ground (arith, all_below_lem n p x)

nibble_table : all_below 256 (λ x. bit_or (x / 16 * 16) (x % 16) == x) ≡ true
unfolding all_below
nibble_table = refl

-- Two nibbles make a byte.
pub bit_or_nibbles : (h l : ℕ) → h < 16 → l < 16 → bit_or (h * 16) l ≡ h * 16 + l
bit_or_nibbles h l hh hl =
    let x = h * 16 + l in
    let e : x / 16 ≡ h = omega arith in
    let e' : x % 16 ≡ l = omega arith in
    let t =
      ==→eq _ x (
        all_below_lem 256 (λ y. bit_or (y / 16 * 16) (y % 16) == y) x nibble_table (omega arith)) in
    rw (e, e') at t

-- Words of `n` bits with the same bits are equal.
pub bit-ext : (n a b : ℕ) → a < 2 ^ n → b < 2 ^ n → ((i : ℕ) → bit a i ≡ bit b i) → a ≡ b
unfolding bit
bit-ext zero a b h k same = omega arith
bit-ext (suc n) a b h k same = omega (
  arith,
  same 0,
  bit-ext n (a / 2) (b / 2) (omega (arith, pow-suc 2 n)) (omega (arith, pow-suc 2 n))
      (λ i. same (suc i)),
)

-- A word of `n` bits that is not 0 has a bit.
pub some_bit : (n w : ℕ) → w < 2 ^ n → 0 < w → (i : ℕ) × (bit w i ≡ 1)
unfolding bit
some_bit zero w h pos = absurd (omega arith)
some_bit (suc n) w h pos = elim (Bool-cases (w % 2 == 1)) [
  | inl odd ↦ (0, ground (arith, odd))
  | inr even ↦
      let (i, e) = some_bit n (w / 2) (omega (arith, pow-suc 2 n)) (ground (arith, even)) in
      (suc i, e)
]

high_bit_table : all_below 128 (λ x. bit_or x 0x80 == x + 128) ≡ true
unfolding all_below
high_bit_table = refl

-- The highest bit of a byte
pub bit_or_high : (x : ℕ) → x < 128 → bit_or x 0x80 ≡ x + 128
bit_or_high x h =
    ==→eq _ (x + 128) (all_below_lem 128 (λ y. bit_or y 0x80 == y + 128) x high_bit_table h)
