-- ===== src/Coap/Tests.antt =====
-- The theorems on CoAP at small messages.
use tinyos_rtos.Prelude.{ℕ, ◌≡◌, refl, true, false, some, List, [], ◌∷◌, arith}
use tinyos_rtos.Prelude.Outcome.{done}
use tinyos_rtos.Coap.{con, non, Pdu, coap_pdu_encode}
use tinyos_rtos.Coap.Decode.{coap_pdu_decode}
use tinyos_rtos.Coap.RoundTrip.{IsSendable, received, coap_pdu_decode-encode}
use tinyos_rtos.Coap.Server.{Context, Resource, coap_process}
use tinyos_rtos.Coap.Server.Answers.{Reply, coap_process_lem, path_of}
use tinyos_rtos.Coap.Client.{make_request, get}
use tinyos_rtos.Coap.Client.Alias.{uri_path_option, two_segments}

-- GET /ab with a token of two bytes
abbrev request : Pdu
request = record {
  version = 1;
  type = con;
  token_length = 2;
  code = 1;
  message_id = 700;
  token = 5 ∷ 6 ∷ 0 ∷ 0 ∷ 0 ∷ 0 ∷ 0 ∷ 0 ∷ [];
  options =
      record { number = 11; value = 97 ∷ 98 ∷ [] } ∷ record { number = 300; value = 7 ∷ [] } ∷ [];
  payload = 104 ∷ 105 ∷ [];
}

abbrev stale : Pdu
stale = record {
  version = 0;
  type = non;
  token_length = 0;
  code = 0;
  message_id = 0;
  token = 9 ∷ 9 ∷ 9 ∷ 9 ∷ 9 ∷ 9 ∷ 9 ∷ 9 ∷ [];
  options = [];
  payload = 1 ∷ [];
}

abbrev sent : List ℕ
sent = 0x42 ∷ 1 ∷ 2 ∷ 188 ∷ 5 ∷ 6 ∷ 0xb2 ∷ 97 ∷ 98 ∷ 0xe1 ∷ 0 ∷ 20 ∷ 7 ∷ 255 ∷ 104 ∷ 105 ∷ []

request-sent : coap_pdu_encode request 1152 ≡ some sent
unfolding coap_pdu_encode
request-sent = refl

request-IsSendable : IsSendable request
request-IsSendable = ground arith

coap_pdu_decode-encode_example : coap_pdu_decode stale sent ≡ done (received request stale)
coap_pdu_decode-encode_example =
    coap_pdu_decode-encode request stale 1152 sent request-IsSendable request-sent

abbrev echo : Resource
echo = record {
  uri_path = 47 ∷ 97 ∷ 98 ∷ [];
  handler = λ q r. record r { payload = q.payload };
  observable = false;
  max_age = 60;
}

abbrev server : Context
server = record { bound = true; next_message_id = 1; is_server = true; resources = echo ∷ [] }

coap_process_lem_example :
    (response : Pdu) × Reply server.resources (47 ∷ 97 ∷ 98 ∷ []) (received request stale) response
    × (coap_process server stale (some sent) ≡ done (coap_pdu_encode response 1152))
unfolding path_of
coap_process_lem_example =
    coap_process_lem server request stale 1152 sent refl refl request-IsSendable (omega arith)
      (ground arith) (ground arith) request-sent

two_segments_example :
    (make_request 1 0 [] 0 get (97 ∷ 47 ∷ 98 ∷ 99 ∷ []) []).options
    ≡ uri_path_option (98 ∷ []) ∷ uri_path_option (98 ∷ 99 ∷ []) ∷ []
two_segments_example =
    two_segments 1 0 0 [] (97 ∷ []) (98 ∷ 99 ∷ []) (ground arith) (ground arith) (omega arith)
      (omega arith) (omega arith)
