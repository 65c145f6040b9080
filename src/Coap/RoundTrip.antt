-- ===== src/Coap/RoundTrip.antt =====
-- What is encoded is decoded.
use tinyos_rtos.Prelude.{
  ℕ, zero, suc, ◌+◌, ◌*◌, ◌/◌, ◌%◌, ◌^◌, ◌≤◌, ◌<◌, ◌≡◌, refl, ap, ◌∙◌, false, none, some, Option,
  List, [], ◌∷◌, ◌++◌, arith, ltb, ◌==◌, ◌||◌, length, take, drop, take-append, drop-append,
  length-append, length-take, take-length, All,
}
use mathlib.Core.List.{append_assoc}
use tinyos_rtos.Prelude.Bits.{bit_or_nibbles}
use tinyos_rtos.Prelude.Word.{u8, u16}
use tinyos_rtos.Prelude.Outcome.{done}
use tinyos_rtos.Coap.{
  bit_or, CoapOption, Pdu, MsgType, con, non, ack, rst, type_value, coap_encode_option_delta_length,
  option_delta, option_head, payload_bytes, coap_pdu_encode, overwrite,
}
use tinyos_rtos.Coap.Decode.{
  coap_decode_option_delta_length, decode_option, decode_options, decode_body, coap_pdu_decode,
  type_of_value, new_payload,
}
use tinyos_rtos.Coap.Wire.{option_bytes, wire_body, wire, coap_pdu_encode_lem}

nibble_lem : (value : ℕ) → (coap_encode_option_delta_length value).0 < 15
nibble_lem value = ground arith

-- A length or a difference of 16 bits.
ext_lem :
    (value : ℕ) (rest : List ℕ)
    → value < 65536
    → coap_decode_option_delta_length
        (coap_encode_option_delta_length value).0
        ((coap_encode_option_delta_length value).1 ++ rest)
      ≡ done (value, rest)
unfolding coap_decode_option_delta_length
ext_lem value rest h = ground arith

head_lem : (d l : ℕ) → d < 15 → l < 15 → option_head d l ≡ (d * 16 + l) ∷ []
head_lem d l hd hl =
    let e : u8 (d * 16) ≡ d * 16 = omega arith in
    rw (e, bit_or_nibbles d l (omega arith) (omega arith))

-- The limits of the fields of an option.
abbrev pub IsShort : CoapOption → Type 0
IsShort o = (o.number < 65536) × (length o.value < 65536)

decode_option_lem :
    (prev : ℕ) (o : CoapOption) (rest : List ℕ)
    → prev < 65536
    → IsShort o
    → (b : ℕ)
    → b
      ≡ (coap_encode_option_delta_length (option_delta prev o.number)).0 * 16
        + (coap_encode_option_delta_length (length o.value)).0
    → decode_option prev b (
        (coap_encode_option_delta_length (option_delta prev o.number)).1
        ++ ((coap_encode_option_delta_length (length o.value)).1 ++ (o.value ++ rest)))
      ≡ done (o, rest)
unfolding decode_option
decode_option_lem prev o rest hp (hn, hl) b e =
    let delta = option_delta prev o.number in
    let size = length o.value in
    let dn = nibble_lem delta in
    let ln = nibble_lem size in
    let high : b / 16 % 16 ≡ (coap_encode_option_delta_length delta).0 = omega (arith, dn, ln) in
    let low : b % 16 ≡ (coap_encode_option_delta_length size).0 = omega (arith, dn, ln) in
    let back : u16 (prev + delta) ≡ o.number = omega arith in
    let fits : ltb (length (o.value ++ rest)) size ≡ false =
      ground (arith, length-append o.value rest) in
    rw (
      high,
      ext_lem delta ((coap_encode_option_delta_length size).1 ++ (o.value ++ rest)) (omega arith),
      low,
      ext_lem size (o.value ++ rest) hl,
      fits,
      back,
      take-append o.value rest,
      drop-append o.value rest,
    )

regroup :
    (d l v ob tail : List ℕ) → ((d ++ l) ++ (v ++ ob)) ++ tail ≡ d ++ (l ++ (v ++ (ob ++ tail)))
regroup d l v ob tail = simp append_assoc

-- An option at the head of the options
option_bytes-cons :
    (prev : ℕ) (o : CoapOption) (os : List CoapOption) (tail : List ℕ)
    → option_bytes prev (o ∷ os) ++ tail
      ≡ ((coap_encode_option_delta_length (option_delta prev o.number)).0 * 16
          + (coap_encode_option_delta_length (length o.value)).0)
        ∷ ((coap_encode_option_delta_length (option_delta prev o.number)).1
            ++ ((coap_encode_option_delta_length (length o.value)).1
                ++ (o.value ++ (option_bytes o.number os ++ tail))))
unfolding option_bytes
option_bytes-cons prev o os tail =
    let (dn, dx) = coap_encode_option_delta_length (option_delta prev o.number) in
    let (ln, lx) = coap_encode_option_delta_length (length o.value) in
    ap (λ h. ((h ++ (dx ++ lx)) ++ (o.value ++ option_bytes o.number os)) ++ tail)
      (head_lem dn ln (nibble_lem (option_delta prev o.number)) (nibble_lem (length o.value)))
    ∙ ap (λ (t : List ℕ). (dn * 16 + ln) ∷ t)
        (regroup dx lx o.value (option_bytes o.number os) tail)

abbrev payload_part : List ℕ → Option (List ℕ)
payload_part [] = none
payload_part (x ∷ xs) = some (x ∷ xs)

-- One round of the loop, and what the others give.
decode_options-cons :
    (prev : ℕ) (o : CoapOption) (os : List CoapOption) (free : ℕ) (p : List ℕ)
    → prev < 65536
    → IsShort o
    → decode_options free o.number (option_bytes o.number os ++ payload_bytes p)
      ≡ done (os, payload_part p)
    → decode_options (suc free) prev (option_bytes prev (o ∷ os) ++ payload_bytes p)
      ≡ done (o ∷ os, payload_part p)
unfolding decode_options
decode_options-cons prev o os free p hp short more =
    let (dn, dx) = coap_encode_option_delta_length (option_delta prev o.number) in
    let (ln, lx) = coap_encode_option_delta_length (length o.value) in
    let rest = option_bytes o.number os ++ payload_bytes p in
    let no_marker : (dn * 16 + ln == 255) ≡ false =
      ground (arith, nibble_lem (option_delta prev o.number), nibble_lem (length o.value)) in
    let one = decode_option_lem prev o rest hp short (dn * 16 + ln) refl in
    rw (option_bytes-cons prev o os (payload_bytes p)) (rw (no_marker, one, more) refl)

decode_options_lem :
    (os : List CoapOption) (free prev : ℕ) (p : List ℕ)
    → length os ≤ free
    → prev < 65536
    → All IsShort os
    → decode_options free prev (option_bytes prev os ++ payload_bytes p) ≡ done (os, payload_part p)
unfolding decode_options option_bytes
decode_options_lem [] zero prev [] few hp short = refl
decode_options_lem [] (suc free) prev [] few hp short = refl
decode_options_lem [] zero prev (x ∷ xs) few hp short = refl
decode_options_lem [] (suc free) prev (x ∷ xs) few hp short = refl
decode_options_lem (o ∷ os) zero prev p few hp short = absurd (omega arith)
decode_options_lem (o ∷ os) (suc free) prev p few hp (short, shorts) =
    decode_options-cons prev o os free p hp short
      (decode_options_lem os free o.number p (omega arith) short.0 shorts)

-- A PDU of version 1 whose fields are within the widths of their types, and whose payload is within the
-- buffer of a PDU.
pub record IsSendable (pdu : Pdu) : Type 0 where
  pub version_one : pdu.version ≡ 1
  pub short_token : pdu.token_length ≤ 8
  pub whole_token : length pdu.token ≡ 8
  pub message_id_u16 : pdu.message_id < 65536
  pub few_options : length pdu.options ≤ 16
  pub short_options : All IsShort pdu.options
  pub payload_fits : length pdu.payload ≤ 1152

abbrev pub kept_payload : List ℕ → List ℕ → List ℕ
kept_payload old [] = old
kept_payload old (x ∷ xs) = x ∷ xs

-- The PDU, in a structure whose token had the bytes of `old`, and whose payload was that of `old`.
abbrev pub received : Pdu → Pdu → Pdu
received pdu old = record pdu {
  token = overwrite (take pdu.token_length pdu.token) old.token;
  payload = kept_payload old.payload pdu.payload;
}

header_first :
    (t : MsgType) (n : ℕ)
    → n < 16
    → u8 (bit_or (bit_or (1 * 2 ^ 6) (type_value t * 2 ^ 4)) n) ≡ 64 + type_value t * 16 + n
header_first con n h = omega (arith, bit_or_nibbles 4 n (omega arith) h)
header_first non n h = omega (arith, bit_or_nibbles 5 n (omega arith) h)
header_first ack n h = omega (arith, bit_or_nibbles 6 n (omega arith) h)
header_first rst n h = omega (arith, bit_or_nibbles 7 n (omega arith) h)

type_of_value_lem :
    (t : MsgType) (n : ℕ) → n < 16 → type_of_value ((64 + type_value t * 16 + n) / 2 ^ 4 % 4) ≡ t
type_of_value_lem con n h = ground arith
type_of_value_lem non n h = ground arith
type_of_value_lem ack n h = ground arith
type_of_value_lem rst n h = ground arith

type_value-lt : (t : MsgType) → type_value t < 4
type_value-lt con = omega arith
type_value-lt non = omega arith
type_value-lt ack = omega arith
type_value-lt rst = omega arith

whole_payload :
    (old p : List ℕ)
    → length p ≤ 1152
    → new_payload old (payload_part p) ≡ done (kept_payload old p)
whole_payload old [] h = refl
whole_payload old (x ∷ xs) h =
    let e : u16 (length (x ∷ xs)) ≡ length (x ∷ xs) = omega arith in
    let fits : ltb 1152 (length (x ∷ xs)) ≡ false = ground arith in
    rw (e, fits) (ap (λ (l : List ℕ). done l) (take-length (x ∷ xs)))

decode_body_lem :
    (pdu h : Pdu)
    → IsSendable pdu
    → h.token_length ≡ pdu.token_length
    → decode_body h (wire_body pdu)
      ≡ done (record h {
        token = overwrite (take pdu.token_length pdu.token) h.token;
        options = pdu.options;
        payload = kept_payload h.payload pdu.payload;
      })
unfolding decode_body wire_body
decode_body_lem pdu h s e =
    let token = take pdu.token_length pdu.token in
    let rest = option_bytes 0 pdu.options ++ payload_bytes pdu.payload in
    let n : length token ≡ h.token_length =
      omega (arith, length-take pdu.token_length pdu.token (omega (arith, s)), e) in
    let fits : (ltb 8 h.token_length || ltb (length (token ++ rest)) h.token_length) ≡ false =
      ground (arith, length-append token rest, n, e, s.short_token) in
    let first : take h.token_length (token ++ rest) ≡ token = rw (← n) (take-append token rest) in
    let then_rest : drop h.token_length (token ++ rest) ≡ rest =
      rw (← n) (drop-append token rest) in
    let loop =
      decode_options_lem pdu.options 16 0 pdu.payload s.few_options (omega arith) s.short_options in
    rw (fits, then_rest, loop, first, whole_payload h.payload pdu.payload s.payload_fits)

-- The bytes of the PDU, with any first byte that holds its version, type and token length.
decode_wire :
    (pdu old : Pdu) (b : ℕ)
    → IsSendable pdu
    → b ≡ 64 + type_value pdu.type * 16 + pdu.token_length
    → coap_pdu_decode old
        (b ∷ pdu.code ∷ pdu.message_id / 256 ∷ pdu.message_id % 256 ∷ wire_body pdu)
      ≡ done (received pdu old)
unfolding coap_pdu_decode
decode_wire pdu old b s e =
    let small : pdu.token_length < 16 = omega (arith, s) in
    let one : b / 2 ^ 6 % 4 ≡ 1 = omega (arith, type_value-lt pdu.type, e, small) in
    let type : type_of_value (b / 2 ^ 4 % 4) ≡ pdu.type =
      rw e (type_of_value_lem pdu.type _ small) in
    let size : b % 16 ≡ pdu.token_length = omega (arith, e, small) in
    let id : pdu.message_id / 256 * 256 + pdu.message_id % 256 ≡ pdu.message_id = omega arith in
    let h = record old {
      version = 1;
      type = pdu.type;
      token_length = pdu.token_length;
      code = pdu.code;
      message_id = pdu.message_id;
    } in
    rw (one, type, size, id) (decode_body_lem pdu h s refl ∙ ground (arith, s.version_one))

-- A PDU of version 1 with fields in range and a payload of at most 1152 bytes that was encoded is
-- decoded to the same PDU. Where it has no payload, the structure keeps the payload that it had before.
pub coap_pdu_decode-encode :
    (pdu old : Pdu) (buffer_size : ℕ) (bytes : List ℕ)
    → IsSendable pdu
    → coap_pdu_encode pdu buffer_size ≡ some bytes
    → coap_pdu_decode old bytes ≡ done (received pdu old)
coap_pdu_decode-encode pdu old buffer_size bytes s written =
    let e : bytes ≡ wire pdu = ground (arith, written, coap_pdu_encode_lem pdu buffer_size) in
    let first = header_first pdu.type pdu.token_length (omega (arith, s)) in
    rw e (decode_wire pdu old _ s (rw s.version_one first))
