-- ===== src/Mqtt/Receive/Streams.antt =====
-- What net_recv brings in pieces is put together.
use tinyos_rtos.Prelude.{
  ℕ, zero, suc, ◌+◌, ◌-◌, ◌/◌, ◌%◌, ◌^◌, ◌≤◌, ◌<◌, ◌≡◌, refl, sym, ap, ◌∙◌, Bool, true, false, inl,
  inr, none, some, List, [], ◌∷◌, ◌++◌, arith, ltb, leb, Bool-cases, length, length-append, take,
  drop,
}
use native.Mathlib.Nat.{pow-suc}
use tinyos_rtos.Mqtt.{encode_length}
use tinyos_rtos.Mqtt.Receive.{Stream, put_back, net_recv, read_length, receive_rest}
use tinyos_rtos.Mqtt.Receive.Lengths.{first_byte, only_byte}

-- The bytes arrive in pieces, none of them empty, with no error and no pause.
abbrev pub Flows : Stream → List ℕ → Type 0
Flows [] bytes = bytes ≡ []
Flows (none ∷ s) bytes = ⊥
Flows (some [] ∷ s) bytes = ⊥
Flows (some (x ∷ xs) ∷ s) bytes = (rest : List ℕ) × (bytes ≡ (x ∷ xs) ++ rest) × Flows s rest

-- A piece and the bytes that are wanted, which begin alike
split :
    (bs tail xs rest : List ℕ)
    → bs ++ tail ≡ xs ++ rest
    → (more : List ℕ) × (bs ≡ take (length bs) xs ++ more)
      × (more ++ tail ≡ drop (length bs) xs ++ rest)
split [] tail xs rest e = ([], refl, e)
split (b ∷ bs) tail [] rest e = (b ∷ bs, refl, e)
split (b ∷ bs) tail (x ∷ xs) rest e =
    let (more, p, q) = split bs tail xs rest (cc) in
    let h : b ≡ x = cc in
    (more, ap (λ (t : List ℕ). b ∷ t) p ∙ ap (λ (y : ℕ). y ∷ (take (length bs) xs ++ more)) h, q)

put_back-Flows :
    (left rest : List ℕ) (s : Stream) → Flows s rest → Flows (put_back left s) (left ++ rest)
put_back-Flows [] rest s flows = flows
put_back-Flows (x ∷ xs) rest s flows = (rest, refl, flows)

-- One call: some of the bytes, at least one.
net_recv_lem :
    (b : ℕ) (bs tail : List ℕ) (s : Stream)
    → Flows s ((b ∷ bs) ++ tail)
    → (got more : List ℕ) × (s' : Stream) × (net_recv (suc (length bs)) s ≡ (some (b ∷ got), s'))
      × (bs ≡ got ++ more)
      × Flows s' (more ++ tail)
unfolding net_recv
net_recv_lem b bs tail [] flows = cc
net_recv_lem b bs tail (none ∷ s) flows = absurd flows
net_recv_lem b bs tail (some [] ∷ s) flows = absurd flows
net_recv_lem b bs tail (some (x ∷ xs) ∷ s) (rest, e, flows) =
    let (more, p, q) = split bs tail xs rest (cc) in
    let h : x ≡ b = cc in
    (
      take (length bs) xs,
      more,
      put_back (drop (length bs) xs) s,
      rw h,
      p,
      rw q (put_back-Flows (drop (length bs) xs) rest s flows),
    )

nil-append : (xs ys : List ℕ) → [] ≡ xs ++ ys → (xs ≡ []) × (ys ≡ [])
nil-append [] ys e = (refl, sym e)
nil-append (x ∷ xs) ys e = cc

-- A call for one byte
pub net_recv_byte :
    (b : ℕ) (tail : List ℕ) (s : Stream)
    → Flows s (b ∷ tail)
    → (s' : Stream) × (net_recv 1 s ≡ (some (b ∷ []), s')) × Flows s' tail
net_recv_byte b tail s flows =
    let (got, more, s', e, p, flows') = net_recv_lem b [] tail s flows in
    let (q, r) = nil-append got more p in
    (s', e ∙ rw q refl, let back : more ++ tail ≡ tail = rw r refl in rw back at flows')

receive_rest-suc :
    (rounds w b : ℕ) (got : List ℕ) (s s' : Stream)
    → net_recv (suc w) s ≡ (some (b ∷ got), s')
    → receive_rest (suc rounds) (suc w) s ≡ (
      (receive_rest rounds (w - length got) s').0,
      b ∷ (got ++ (receive_rest rounds (w - length got) s').1),
      (receive_rest rounds (w - length got) s').2,
    )
unfolding receive_rest
receive_rest-suc rounds w b got s s' e =
    let d : suc w - suc (length got) ≡ w - length got = omega arith in
    rw (e, receive_rest) (rw e (rw d refl))

pub receive_rest_lem :
    (rounds : ℕ) (bs tail : List ℕ) (s : Stream)
    → length bs ≤ rounds
    → Flows s (bs ++ tail)
    → (s' : Stream) × (receive_rest rounds (length bs) s ≡ (true, bs, s')) × Flows s' tail
receive_rest_lem zero [] tail s enough flows = (s, unfold receive_rest in refl, flows)
receive_rest_lem zero (b ∷ bs) tail s enough flows = absurd (omega arith)
receive_rest_lem (suc rounds) [] tail s enough flows = (s, unfold receive_rest in refl, flows)
receive_rest_lem (suc rounds) (b ∷ bs) tail s enough flows =
    let (got, more, s1, e, p, flows1) = net_recv_lem b bs tail s flows in
    let size : length bs ≡ length got + length more = ap length p ∙ length-append got more in
    let left : length bs - length got ≡ length more = omega (arith, size) in
    let (s2, ih, flows2) = receive_rest_lem rounds more tail s1 (omega (arith, size)) flows1 in
    (
      s2,
      receive_rest-suc rounds (length bs) b got s s1 e
          ∙ (ap (λ (r : Bool × List ℕ × Stream). (r.0, b ∷ (got ++ r.1), r.2))
                (ap (λ (m : ℕ). receive_rest rounds m s1) left ∙ ih)
              ∙ ap (λ (t : List ℕ). (true, b ∷ t, s2)) (sym p)),
      flows2,
    )

-- A byte at the end of a length, and one before it
read_length-last :
    (k b : ℕ) (s s' : Stream)
    → net_recv 1 s ≡ (some (b ∷ []), s')
    → leb 0x80 b ≡ false
    → read_length (suc k) s ≡ (some (b ∷ []), s')
unfolding read_length
read_length-last k b s s' e low = rw (e, read_length) (rw (e, low) refl)

read_length-more :
    (k b : ℕ) (bs : List ℕ) (s s' s'' : Stream)
    → net_recv 1 s ≡ (some (b ∷ []), s')
    → leb 0x80 b ≡ true
    → read_length k s' ≡ (some bs, s'')
    → read_length (suc k) s ≡ (some (b ∷ bs), s'')
unfolding read_length
read_length-more k b bs s s' s'' e high rest = rw (e, read_length) (rw (e, high, rest) refl)

pub read_length_lem :
    (k f n : ℕ) (tail : List ℕ) (s : Stream)
    → n < 128 ^ suc k
    → k < f
    → Flows s (encode_length f n ++ tail)
    → (s' : Stream) × (read_length (suc k) s ≡ (some (encode_length f n), s')) × Flows s' tail
read_length_lem k zero n tail s small enough flows = absurd (omega arith)
read_length_lem zero (suc f) n tail s small enough flows =
    let last : ltb 0 (n / 128) ≡ false = ground arith in
    let (s1, e, flows1) = net_recv_byte n tail s (rw (only_byte f n last) at flows) in
    (s1, rw (only_byte f n last) (read_length-last 0 n s s1 e (ground arith)), flows1)
read_length_lem (suc k) (suc f) n tail s small enough flows = elim (Bool-cases (ltb 0 (n / 128))) [
  | inl more ↦
      let b = n % 128 + 128 in
      let high : leb 0x80 b ≡ true = ground arith in
      let (s1, e, flows1) =
        net_recv_byte b (encode_length f (n / 128) ++ tail) s (rw (first_byte f n more) at flows) in
      let (s2, ih, flows2) =
        read_length_lem k f (n / 128) tail s1 (omega (arith, pow-suc 128 (suc k))) (omega arith)
          flows1 in
      (
        s2,
        rw (first_byte f n more)
            (read_length-more (suc k) b (encode_length f (n / 128)) s s1 s2 e high ih),
        flows2,
      )
  | inr last ↦
      let low : leb 0x80 n ≡ false = ground (arith, last) in
      let (s1, e, flows1) = net_recv_byte n tail s (rw (only_byte f n last) at flows) in
      (s1, rw (only_byte f n last) (read_length-last (suc k) n s s1 e low), flows1)
]
