-- ===== src/Mqtt/Receive/Lengths.antt =====
-- The length of a packet is encoded, read and decoded.
use tinyos_rtos.Prelude.{
  ℕ, zero, suc, ◌+◌, ◌*◌, ◌/◌, ◌%◌, ◌^◌, ◌≤◌, ◌<◌, ◌≡◌, ap, true, false, inl, inr, [], ◌∷◌, arith,
  ltb, leb, Bool-cases, length,
}
use native.Mathlib.Nat.{pow-suc}
use tinyos_rtos.Prelude.Bits.{bit_or_high}
use tinyos_rtos.Mqtt.{encode_length, mqtt_encode_remaining_length}
use tinyos_rtos.Mqtt.Receive.{decode_length, mqtt_decode_remaining_length}

-- The first byte of a length that has others
pub first_byte :
    (f n : ℕ)
    → ltb 0 (n / 128) ≡ true
    → encode_length (suc f) n ≡ (n % 128 + 128) ∷ encode_length f (n / 128)
unfolding encode_length
first_byte f n more = rw (more, bit_or_high (n % 128) (omega arith))

pub only_byte : (f n : ℕ) → ltb 0 (n / 128) ≡ false → encode_length (suc f) n ≡ n ∷ []
unfolding encode_length
only_byte f n last = let e : n % 128 ≡ n = ground (arith, last) in rw (last, e)

decode_length_lem :
    (k f m v n : ℕ) → n < 128 ^ k → k ≤ f → decode_length k m v (encode_length f n) ≡ v + n * m
unfolding decode_length encode_length
decode_length_lem zero zero m v n small enough = let e : n ≡ 0 = omega arith in rw e (omega arith)
decode_length_lem zero (suc f) m v n small enough =
    let e : n ≡ 0 = omega arith in rw (only_byte f n (ground arith), e) (omega arith)
decode_length_lem (suc k) zero m v n small enough = absurd (omega arith)
decode_length_lem (suc k) (suc f) m v n small enough = elim (Bool-cases (ltb 0 (n / 128))) [
  | inl more ↦
      let e : leb 0x80 (n % 128 + 128) ≡ true = ground arith in
      let e' : (n % 128 + 128) % 128 ≡ n % 128 = omega arith in
      let ih =
        decode_length_lem k f (m * 128) (v + n % 128 * m) (n / 128) (omega (arith, pow-suc 128 k))
          (omega arith) in
      let d : n * m ≡ (n / 128 * 128 + n % 128) * m = ap (λ (t : ℕ). t * m) (omega arith) in
      rw (first_byte f n more, e, e', ih) (grind (arith, d))
  | inr last ↦
      let small : n < 128 = ground (arith, last) in
      let e : leb 0x80 n ≡ false = ground arith in
      let e' : n % 128 ≡ n = omega arith in rw (only_byte f n last, e, e')
]

pub length-encode_length : (k f n : ℕ) → n < 128 ^ suc k → length (encode_length f n) ≤ suc k
unfolding encode_length
length-encode_length k zero n small = omega arith
length-encode_length zero (suc f) n small = rw (only_byte f n (ground arith)) (omega arith)
length-encode_length (suc k) (suc f) n small = elim (Bool-cases (ltb 0 (n / 128))) [
  | inl more ↦
      rw (first_byte f n more)
        (omega (arith, length-encode_length k f (n / 128) (omega (arith, pow-suc 128 (suc k)))))
  | inr last ↦ rw (only_byte f n last) (omega arith)
]

-- Two bytes at least, from 128 on
pub two-le-length : (n : ℕ) → 128 ≤ n → 2 ≤ length (mqtt_encode_remaining_length n)
unfolding encode_length
two-le-length n large = rw (first_byte 4 n (ground arith)) (ground arith)

-- A length below 2^28 takes at most four bytes, and is decoded to itself.
pub mqtt_decode-encode :
    (n : ℕ)
    → n < 2 ^ 28
    → (mqtt_decode_remaining_length (mqtt_encode_remaining_length n) ≡ n)
      × (length (mqtt_encode_remaining_length n) ≤ 4)
mqtt_decode-encode n small = (
  omega (arith, decode_length_lem 4 5 1 0 n small (omega arith)),
  length-encode_length 3 5 n small,
)
