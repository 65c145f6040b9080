-- ===== src/Coap/Wire.antt =====
-- The bytes of a PDU as a plain function of it, and when the encoding gives them.
use tinyos_rtos.Prelude.{
  ℕ, ◌-◌, ◌≡◌, none, some, Option, List, [], ◌∷◌, ◌++◌, arith, ltb, leb, if◌then◌else◌, ◌>>=◌,
  length, take, length-append,
}
use mathlib.Core.List.{append_assoc}
use tinyos_rtos.Coap.{
  CoapOption, Pdu, coap_encode_option_delta_length, option_delta, option_head, encode_options,
  header, payload_bytes, coap_pdu_encode, room,
}

-- What stands before the value of an option.
abbrev pub option_prefix : ℕ → ℕ → List ℕ
option_prefix delta size =
    let (delta_nibble, delta_ext) = coap_encode_option_delta_length delta in
    let (length_nibble, length_ext) = coap_encode_option_delta_length size in
    option_head delta_nibble length_nibble ++ (delta_ext ++ length_ext)

unfoldable pub option_bytes : ℕ → List CoapOption → List ℕ
option_bytes prev [] = []
option_bytes prev (o ∷ os) =
    option_prefix (option_delta prev o.number) (length o.value)
    ++ (o.value ++ option_bytes o.number os)

unfoldable pub wire_body : Pdu → List ℕ
wire_body pdu =
    take pdu.token_length pdu.token ++ (option_bytes 0 pdu.options ++ payload_bytes pdu.payload)

abbrev pub wire : Pdu → List ℕ
wire pdu = header pdu ++ wire_body pdu

-- Four parts and what follows them fit in turn if they fit together.
parts_fit :
    (h d l v b : List ℕ) (rest : ℕ → Option (List ℕ × ℕ))
    → ((r : ℕ) → rest r ≡ (if ltb r (length b) then none else some (b, r - length b)))
    → (remaining : ℕ)
    → (room h remaining >>= λ r1. room d r1 >>= λ r2. room l r2 >>= λ r3. room v r3 >>= λ r4.
        ◌>>=◌ {B = List ℕ × ℕ}
          (rest r4)
          λ (bytes, r5). (some (h ++ (d ++ (l ++ (v ++ bytes))), r5)))
      ≡ (if ltb remaining (length (h ++ (d ++ (l ++ (v ++ b)))))
          then none
          else some (h ++ (d ++ (l ++ (v ++ b))), remaining - length (h ++ (d ++ (l ++ (v ++ b))))))
parts_fit h d l v b rest fits remaining = ground (
  arith,
  length-append h (d ++ (l ++ (v ++ b))),
  length-append d (l ++ (v ++ b)),
  length-append l (v ++ b),
  length-append v b,
  fits (remaining - length h - length d - length l - length v),
)

encode_options_lem :
    (os : List CoapOption) (prev remaining : ℕ)
    → encode_options remaining prev os ≡ (
        if ltb remaining (length (option_bytes prev os))
        then none
        else some (option_bytes prev os, remaining - length (option_bytes prev os)))
unfolding encode_options option_bytes
encode_options_lem [] prev remaining = ground arith
encode_options_lem (o ∷ os) prev remaining =
    let (delta_nibble, delta_ext) = coap_encode_option_delta_length (option_delta prev o.number) in
    let (length_nibble, length_ext) = coap_encode_option_delta_length (length o.value) in
    rw (append_assoc delta_ext length_ext (o.value ++ option_bytes o.number os)) (
      parts_fit (option_head delta_nibble length_nibble) delta_ext length_ext o.value
        (option_bytes o.number os) (λ r. encode_options r o.number os)
        (λ r. encode_options_lem os o.number r) remaining)

-- The encoding gives the bytes of the PDU in the wire format if they fit in the buffer, and -1
-- otherwise.
pub coap_pdu_encode_lem :
    (pdu : Pdu) (buffer_size : ℕ)
    → coap_pdu_encode pdu buffer_size
      ≡ (if leb (length (wire pdu)) buffer_size then some (wire pdu) else none)
unfolding coap_pdu_encode wire_body
coap_pdu_encode_lem pdu buffer_size =
    let token = take pdu.token_length pdu.token in
    let options = option_bytes 0 pdu.options in
    ground (
      arith,
      length-append token (options ++ payload_bytes pdu.payload),
      length-append options (payload_bytes pdu.payload),
      encode_options_lem pdu.options 0 (buffer_size - 4 - length token),
    )
