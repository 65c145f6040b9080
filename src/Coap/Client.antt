-- ===== src/Coap/Client.antt =====
-- coap.c: the client, from a path to the response.
pub mod Alias
use tinyos_rtos.Prelude.{
  ℕ, zero, suc, ◌+◌, ◌-◌, ◌/◌, ◌%◌, ◌^◌, Bool, true, false, not, ◌&&◌, ◌||◌, Option, none, some,
  List, [], ◌∷◌, ◌++◌, ltb, leb, ◌==◌, if◌then◌else◌, length, take,
}
use tinyos_rtos.Prelude.Word.{u16}
use tinyos_rtos.Prelude.Outcome.{Outcome, done, failed, fault, ◌>>=◌}
use tinyos_rtos.Coap.{
  CoapError, invalid_message, network, timeout, parse, con, CoapOption, Pdu, overwrite,
  coap_pdu_init, coap_pdu_set_token, coap_pdu_add_option, coap_pdu_set_payload, coap_pdu_get_option,
  coap_pdu_encode,
}
use tinyos_rtos.Coap.Decode.{coap_pdu_decode}
use tinyos_rtos.Coap.Server.{Context, same_string}

-- The bytes of the tick count, the lowest first.
unfoldable pub coap_generate_token : ℕ → ℕ → List ℕ
coap_generate_token zero tick = []
coap_generate_token (suc n) tick = tick % 256 ∷ coap_generate_token n (tick / 256)

-- The number before the increment, which wraps at 16 bits.
unfoldable pub coap_generate_message_id : Context → ℕ × Context
coap_generate_message_id c =
    (c.next_message_id, record c { next_message_id = u16 (c.next_message_id + 1) })

-- `if (*path == '/') path++`
unfoldable pub skip_slash : List ℕ → List ℕ
skip_slash [] = []
skip_slash (x ∷ xs) = if x == b'/' then xs else x ∷ xs

-- The rounds of the loop over the path: each takes the text to the next slash, or to the end; the flag
-- tells whether a slash ended it. `rest` gives the rounds behind the characters of the segment.
unfoldable pub segments_from : List ℕ → List ℕ → List (List ℕ × Bool)
segments_from segment [] = if length segment == 0 then [] else (segment, false) ∷ []
segments_from segment (x ∷ xs) = elim (x == b'/') [
  | true ↦ (segment, true) ∷ segments_from [] xs
  | false ↦ segments_from (segment ++ (x ∷ [])) xs
]

-- What a round leaves in the array `path_segment` of 64 characters: at most 63 of the segment and a NUL,
-- behind which `strncpy` writes NULs to the end, and `memcpy` nothing.
unfoldable pub nuls : ℕ → List ℕ
nuls zero = []
nuls (suc n) = 0 ∷ nuls n

unfoldable pub write_segment : List ℕ × Bool → List ℕ → List ℕ
write_segment (segment, true) buffer = overwrite (take 63 segment ++ (0 ∷ [])) buffer
write_segment (segment, false) buffer =
    overwrite (take 63 segment ++ nuls (64 - length (take 63 segment))) buffer

-- The lengths of the options that the loop adds, and the array after it. An empty segment adds none.
unfoldable pub path_loop : List (List ℕ × Bool) → List ℕ → List ℕ × List ℕ
unfolding nuls write_segment
path_loop [] buffer = ([], buffer)
path_loop (s ∷ ss) buffer =
    let (lengths, last) = path_loop ss (write_segment s buffer) in
    let n = length (take 63 s.0) in (if n == 0 then lengths else n ∷ lengths, last)

-- All these options point to the one array, so that each has the first bytes of what it holds last. A
-- refusal of `coap_pdu_add_option` goes unnoticed.
unfoldable pub add_path_options : List ℕ → List ℕ → Pdu → Pdu
unfolding coap_pdu_add_option
add_path_options [] buffer pdu = pdu
add_path_options (n ∷ ns) buffer pdu =
    add_path_options ns buffer (coap_pdu_add_option 11 (take n buffer) pdu).1

-- `coap_method_t`
pub data Method : Type 0 where
  get post put delete : Method

abbrev pub method_code : Method → ℕ
method_code get = 1
method_code post = 2
method_code put = 3
method_code delete = 4

abbrev pub sends_payload : Method → Bool
sends_payload get = false
sends_payload post = true
sends_payload put = true
sends_payload delete = false

-- The request. `stack` is what the array `path_segment` holds at first; `dead` is what stands, when the
-- PDU is encoded, at the address of the local `format`, whose block has ended.
unfoldable pub make_request : ℕ → ℕ → List ℕ → ℕ → Method → List ℕ → List ℕ → Pdu
unfolding coap_pdu_init coap_pdu_set_token coap_generate_token segments_from skip_slash path_loop
    add_path_options coap_pdu_add_option coap_pdu_set_payload
make_request message_id tick stack dead method uri_path payload =
    let fresh =
      (coap_pdu_set_token (some (coap_generate_token 4 tick)) 4
        (coap_pdu_init con (method_code method) message_id)).1 in
    let (lengths, last) = path_loop (segments_from [] (skip_slash uri_path)) stack in
    let routed = add_path_options lengths last fresh in
    if sends_payload method && ltb 0 (length payload)
    then (coap_pdu_set_payload payload (coap_pdu_add_option 12 (dead ∷ []) routed).1).1
    else routed

-- `coap_response_t`; `payload` is `none` for NULL.
pub record Response : Type 0 where
  pub code : ℕ
  pub success : Bool
  pub content_format : ℕ
  pub payload : Option (List ℕ)

abbrev pub first_or_zero : List ℕ → ℕ
first_or_zero [] = 0
first_or_zero (x ∷ xs) = x

abbrev pub format_of : Option CoapOption → ℕ
format_of none = 0
format_of (some o) = first_or_zero o.value

-- `has_memory` tells whether os_malloc gives the copy of the payload.
unfoldable pub fill_response : Bool → Pdu → Response
unfolding coap_pdu_get_option
fill_response has_memory pdu = record {
  code = pdu.code;
  success = pdu.code / 32 == 2;
  content_format = format_of (coap_pdu_get_option pdu 12);
  payload = if ltb 0 (length pdu.payload) && has_memory then some pdu.payload else none;
}

-- The answer to `request`, from what `net_recvfrom` gives.
unfoldable pub take_answer : Bool → Pdu → Pdu → Option (List ℕ) → Outcome CoapError Response
take_answer has_memory request old none = failed timeout
take_answer has_memory request old (some bytes) = elim (coap_pdu_decode old bytes) [
  | fault ↦ fault
  | failed e ↦ failed parse
  | done pdu ↦
      if (pdu.token_length == request.token_length)
        && same_string (take request.token_length pdu.token)
            (take request.token_length request.token)
      then done (fill_response has_memory pdu)
      else failed invalid_message
]

-- The parts of the environment: the tick count, the stack, the network.
pub record Surroundings : Type 0 where
  pub tick : ℕ
  pub stack : List ℕ
  pub dead : ℕ
  pub sends : Bool  -- `net_sendto` does not fail
  pub received : Option (List ℕ)  -- from `net_recvfrom`
  pub old : Pdu  -- what `resp_pdu` holds
  pub has_memory : Bool

-- The result, the context, and the datagram that is handed to `net_sendto`.
unfoldable pub coap_send_request_internal :
    Surroundings
    → Method
    → List ℕ
    → List ℕ
    → Context
    → Outcome CoapError Response × Context × Option (List ℕ)
unfolding coap_generate_message_id
coap_send_request_internal w method uri_path payload c =
    let (message_id, c1) = coap_generate_message_id c in
    let request = make_request message_id w.tick w.stack w.dead method uri_path payload in
    elim (coap_pdu_encode request 1152) [
      | none ↦ (failed parse, c1, none)
      | some bytes ↦
          if not w.sends
          then (failed network, c1, some bytes)
          else (take_answer w.has_memory request w.old w.received, c1, some bytes)
    ]
