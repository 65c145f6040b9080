-- ===== src/Coap.antt =====
-- coap.c: the PDU, the calls that fill it, and its encoding. A buffer is the list of its bytes; the
-- value of an option is the list of its `length` bytes, and the payload that of its `payload_length`.
pub mod Decode
pub mod Wire
pub mod RoundTrip
pub mod Server
pub mod Client
mod Tests
use tinyos_rtos.Prelude.{
  ℕ, zero, suc, ◌+◌, ◌-◌, ◌*◌, ◌/◌, ◌%◌, ◌^◌, ◌≡◌, Bool, true, false, not, ◌&&◌, ◌||◌, Option, none,
  some, List, [], ◌∷◌, ◌++◌, ltb, leb, ◌==◌, if◌then◌else◌, ◌>>=◌, length, take, drop,
}
use Prim.Native.Nat.{bit_or}
use tinyos_rtos.Prelude.Word.{u8, u16}

-- `coap_error_t`
pub data CoapError : Type 0 where
  invalid_param no_memory timeout network parse invalid_message not_found : CoapError
  observe_failed max_retransmit : CoapError

-- `coap_msg_type_t`, and its values
pub data MsgType : Type 0 where
  con non ack rst : MsgType

abbrev pub type_value : MsgType → ℕ
type_value con = 0
type_value non = 1
type_value ack = 2
type_value rst = 3

-- `coap_option_t`
pub record CoapOption : Type 0 where
  pub number : ℕ  -- uint16_t
  pub value : List ℕ

-- `coap_pdu_t`. `token` has 8 bytes.
pub record Pdu : Type 0 where
  pub version : ℕ
  pub type : MsgType
  pub token_length : ℕ
  pub code : ℕ
  pub message_id : ℕ
  pub token : List ℕ
  pub options : List CoapOption
  pub payload : List ℕ

abbrev pub max_option_count : ℕ
max_option_count = 16

abbrev pub max_pdu_size : ℕ
max_pdu_size = 1152

abbrev pub payload_marker : ℕ
payload_marker = 255

-- `memcpy(p, source, n)` to the start of an array.
abbrev pub overwrite : List ℕ → List ℕ → List ℕ
overwrite source old = source ++ drop (length source) old

unfoldable pub coap_pdu_init : MsgType → ℕ → ℕ → Pdu
coap_pdu_init type code message_id = record {
  version = 1;
  type = type;
  token_length = 0;
  code = code;
  message_id = message_id;
  token = 0 ∷ 0 ∷ 0 ∷ 0 ∷ 0 ∷ 0 ∷ 0 ∷ 0 ∷ [];
  options = [];
  payload = [];
}

-- `none` is NULL.
unfoldable pub coap_pdu_set_token : Option (List ℕ) → ℕ → Pdu → Option CoapError × Pdu
coap_pdu_set_token none token_length pdu =
    if ltb 8 token_length
    then (some invalid_param, pdu)
    else (none, record pdu { token_length = token_length })
coap_pdu_set_token (some token) token_length pdu =
    if ltb 8 token_length then (some invalid_param, pdu) else (
      none,
      record pdu {
        token = overwrite (take token_length token) pdu.token;
        token_length = token_length;
      },
    )

unfoldable pub coap_pdu_add_option : ℕ → List ℕ → Pdu → Option CoapError × Pdu
coap_pdu_add_option number value pdu =
    if leb max_option_count (length pdu.options) then (some invalid_param, pdu) else (
      none,
      record pdu { options = pdu.options ++ (record { number = number; value = value } ∷ []) },
    )

unfoldable pub coap_pdu_set_payload : List ℕ → Pdu → Option CoapError × Pdu
coap_pdu_set_payload payload pdu =
    if ltb 1024 (length payload)
    then (some invalid_param, pdu)
    else (none, record pdu { payload = payload })

pub find_option : ℕ → List CoapOption → Option CoapOption
find_option number [] = none
find_option number (o ∷ os) = if o.number == number then some o else find_option number os

unfoldable pub coap_pdu_get_option : Pdu → ℕ → Option CoapOption
unfolding find_option
coap_pdu_get_option pdu number = find_option number pdu.options

-- The nibble, and the bytes that it announces.
abbrev pub coap_encode_option_delta_length : ℕ → ℕ × List ℕ
coap_encode_option_delta_length value =
    if ltb value 13
    then (value, [])
    else (if ltb value 269
        then (13, u8 (value - 13) ∷ [])
        else (14, u8 ((value - 269) / 256) ∷ (value - 269) % 256 ∷ []))

-- `remaining -= n`, or -1 where it is less.
abbrev pub room : List ℕ → ℕ → Option ℕ
room bytes remaining =
    if ltb remaining (length bytes) then none else some (remaining - length bytes)

-- The difference of two numbers wraps at 16 bits.
abbrev pub option_delta : ℕ → ℕ → ℕ
option_delta prev number = u16 (number + 2 ^ 16 - prev)

abbrev pub option_head : ℕ → ℕ → List ℕ
option_head delta_nibble length_nibble = bit_or (u8 (delta_nibble * 16)) length_nibble ∷ []

-- The loop over the options: the bytes that it writes, and what remains of the buffer.
pub encode_options : ℕ → ℕ → List CoapOption → Option (List ℕ × ℕ)
encode_options remaining prev [] = some ([], remaining)
encode_options remaining prev (o ∷ os) =
    let (delta_nibble, delta_ext) = coap_encode_option_delta_length (option_delta prev o.number) in
    let (length_nibble, length_ext) = coap_encode_option_delta_length (length o.value) in
    let head = option_head delta_nibble length_nibble in
    room head remaining >>= λ r1. room delta_ext r1 >>= λ r2. room length_ext r2 >>= λ r3.
    room o.value r3 >>= λ r4. encode_options r4 o.number os >>= λ (bytes, r5).
    some (head ++ (delta_ext ++ (length_ext ++ (o.value ++ bytes))), r5)

abbrev pub header : Pdu → List ℕ
header pdu =
    u8 (bit_or (bit_or (pdu.version * 2 ^ 6) (type_value pdu.type * 2 ^ 4)) pdu.token_length)
    ∷ pdu.code
    ∷ pdu.message_id / 256
    ∷ pdu.message_id % 256
    ∷ []

abbrev pub payload_bytes : List ℕ → List ℕ
payload_bytes [] = []
payload_bytes (x ∷ xs) = payload_marker ∷ x ∷ xs

-- The bytes written, or `none` for -1.
pub coap_pdu_encode : Pdu → ℕ → Option (List ℕ)
unfolding encode_options
coap_pdu_encode pdu buffer_size =
    if ltb buffer_size 4
    then none
    else (room (take pdu.token_length pdu.token) (buffer_size - 4) >>= λ r1.
        encode_options r1 0 pdu.options >>= λ (bytes, r2).
        room (payload_bytes pdu.payload) r2 >>= λ r3.
        some
          (header pdu ++ (take pdu.token_length pdu.token ++ (bytes ++ payload_bytes pdu.payload))))
