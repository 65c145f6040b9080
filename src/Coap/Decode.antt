-- ===== src/Coap/Decode.antt =====
-- coap.c: the decoding of a PDU. A message is the list of its `length` bytes, and a read past its end
-- is a fault.
use tinyos_rtos.Prelude.{
  ℕ, zero, suc, ◌+◌, ◌*◌, ◌/◌, ◌%◌, ◌^◌, not, ◌||◌, Option, none, some, List, [], ◌∷◌, ltb, ◌==◌,
  if◌then◌else◌, length, take, drop,
}
use tinyos_rtos.Prelude.Word.{u16}
use tinyos_rtos.Prelude.Outcome.{Outcome, done, failed, fault, ◌>>=◌}
use tinyos_rtos.Coap.{
  CoapError, invalid_param, invalid_message, MsgType, con, non, ack, rst, CoapOption, Pdu,
  max_option_count, max_pdu_size, payload_marker, overwrite,
}

-- A value of `coap_msg_type_t` from two bits
abbrev pub type_of_value : ℕ → MsgType
type_of_value n = if n == 0 then con else if n == 1 then non else if n == 2 then ack else rst

-- `val + 13` and `val + 269` on the bytes that follow
abbrev pub one_byte_more : List ℕ → Outcome CoapError (ℕ × List ℕ)
one_byte_more [] = fault
one_byte_more (b ∷ bs) = done (b + 13, bs)

abbrev pub two_bytes_more : List ℕ → Outcome CoapError (ℕ × List ℕ)
two_bytes_more [] = fault
two_bytes_more (b ∷ []) = fault
two_bytes_more (b ∷ c ∷ bs) = done (u16 (b * 256 + c + 269), bs)

unfoldable pub coap_decode_option_delta_length : ℕ → List ℕ → Outcome CoapError (ℕ × List ℕ)
coap_decode_option_delta_length encoded bytes =
    if ltb encoded 13
    then done (encoded, bytes)
    else (if encoded == 13
        then one_byte_more bytes
        else (if encoded == 14 then two_bytes_more bytes else done (0, bytes)))

-- One option, whose first byte is `b`.
unfoldable pub decode_option : ℕ → ℕ → List ℕ → Outcome CoapError (CoapOption × List ℕ)
unfolding coap_decode_option_delta_length
decode_option num b bytes =
    coap_decode_option_delta_length (b / 16 % 16) bytes >>= λ (delta, bytes1).
    coap_decode_option_delta_length (b % 16) bytes1 >>= λ (opt_length, bytes2).
    if ltb (length bytes2) opt_length
    then failed invalid_message
    else done (
      record { number = u16 (num + delta); value = take opt_length bytes2 },
      drop opt_length bytes2,
    )

-- The loop, with as many free places for options. The second part is what follows a payload marker.
unfoldable pub decode_options :
    ℕ → ℕ → List ℕ → Outcome CoapError (List CoapOption × Option (List ℕ))
unfolding decode_option
decode_options zero num [] = done ([], none)
decode_options zero num (b ∷ bytes) =
    if b == payload_marker then done ([], some bytes) else failed invalid_message
decode_options (suc free) num [] = done ([], none)
decode_options (suc free) num (b ∷ bytes) =
    if b == payload_marker
    then done ([], some bytes)
    else (decode_option num b bytes >>= λ (o, rest).
        decode_options free o.number rest >>= λ (os, payload). done (o ∷ os, payload))

-- With no marker the payload of `pdu` stays as it was; the length of a payload is a uint16_t. The
-- payload is copied to the 1152 bytes of `pdu->buffer`; a longer one is written behind it.
abbrev pub new_payload : List ℕ → Option (List ℕ) → Outcome CoapError (List ℕ)
new_payload old none = done old
new_payload old (some bytes) =
    if ltb max_pdu_size (u16 (length bytes)) then fault else done (take (u16 (length bytes)) bytes)

-- The bytes behind the header.
unfoldable pub decode_body : Pdu → List ℕ → Outcome CoapError Pdu
unfolding decode_options
decode_body pdu bytes =
    if ltb 8 pdu.token_length || ltb (length bytes) pdu.token_length
    then failed invalid_message
    else (decode_options max_option_count 0 (drop pdu.token_length bytes) >>= λ (options, payload).
        new_payload pdu.payload payload >>= λ kept. done (record pdu {
          token = overwrite (take pdu.token_length bytes) pdu.token;
          options = options;
          payload = kept;
        }))

-- The new PDU, from what the structure held before. What an error leaves in the structure is left out.
unfoldable pub coap_pdu_decode : Pdu → List ℕ → Outcome CoapError Pdu
unfolding decode_body
coap_pdu_decode pdu (b ∷ code ∷ id_high ∷ id_low ∷ bytes) =
    if not (b / 2 ^ 6 % 4 == 1)
    then failed invalid_message
    else decode_body
        (record pdu {
          version = b / 2 ^ 6 % 4;
          type = type_of_value (b / 2 ^ 4 % 4);
          token_length = b % 16;
          code = code;
          message_id = id_high * 256 + id_low;
        })
        bytes
coap_pdu_decode pdu bytes = failed invalid_param
