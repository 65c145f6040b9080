-- ===== src/Coap/Server.antt =====
-- coap.c: the server, from a datagram to the reply. A C string is the list of its characters.
pub mod Answers
use tinyos_rtos.Prelude.{
  ℕ, ◌+◌, ◌/◌, ◌%◌, Bool, true, false, not, ◌&&◌, ◌||◌, Option, none, some, List, [], ◌∷◌, ◌++◌,
  ltb, ◌==◌, if◌then◌else◌, length, take,
}
use tinyos_rtos.Prelude.Outcome.{Outcome, done, failed, fault, ◌>>=◌}
use tinyos_rtos.Coap.{
  CoapError, invalid_param, invalid_message, timeout, parse, ack, CoapOption, Pdu, coap_pdu_init,
  coap_pdu_set_token, coap_pdu_encode,
}
use tinyos_rtos.Coap.Decode.{coap_pdu_decode}

-- The handler of a resource, code of the application: from the request and the response to the
-- response that it leaves.
abbrev pub Handler : Type 0
Handler = Pdu → Pdu → Pdu

-- `coap_resource_t`
pub record Resource : Type 0 where
  pub uri_path : List ℕ
  pub handler : Handler
  pub observable : Bool
  pub max_age : ℕ

-- The part of `coap_context_t` that the server and the client use. `bound` tells whether
-- `socket_fd` is not negative.
pub record Context : Type 0 where
  pub bound : Bool
  pub next_message_id : ℕ  -- uint16_t
  pub is_server : Bool
  pub resources : List Resource

-- `strncpy` of 63 characters into a cleared array; `has_memory` tells whether os_malloc succeeds.
unfoldable pub coap_resource_create : Bool → List ℕ → Handler → Context → Option Resource × Context
coap_resource_create has_memory uri_path handler c =
    if not has_memory
    then (none, c)
    else (let r : Resource = record {
      uri_path = take 63 uri_path;
      handler = handler;
      observable = false;
      max_age = 60;
    } in
        (some r, record c { resources = r ∷ c.resources }))

unfoldable pub coap_resource_set_observable : ℕ → Resource → Resource
coap_resource_set_observable max_age r = record r { observable = true; max_age = max_age }

-- `strcmp(s, t) == 0`
unfoldable pub same_string : List ℕ → List ℕ → Bool
same_string [] [] = true
same_string [] (y ∷ ys) = false
same_string (x ∷ xs) [] = false
same_string (x ∷ xs) (y ∷ ys) = (x == y) && same_string xs ys

unfoldable pub coap_find_resource : List Resource → List ℕ → Option Resource
unfolding same_string
coap_find_resource [] path = none
coap_find_resource (r ∷ rs) path =
    if same_string r.uri_path path then some r else coap_find_resource rs path

-- The array `uri_path` of 128 characters up to `path_len`, after the options.
unfoldable pub collect_path : List ℕ → List CoapOption → List ℕ
collect_path path [] = path
collect_path path (o ∷ os) =
    collect_path
      (if (o.number == 11) && ltb (length path + length o.value + 1) 128
        then path ++ (o.value ++ (b'/' ∷ []))
        else path)
      os

-- `uri_path[path_len - 1] = '\\0'` if `path_len > 1`
abbrev pub all_but_last : List ℕ → List ℕ
all_but_last [] = []
all_but_last (x ∷ []) = []
all_but_last (x ∷ y ∷ ys) = x ∷ all_but_last (y ∷ ys)

abbrev pub trim : List ℕ → List ℕ
trim [] = []
trim (x ∷ []) = x ∷ []
trim (x ∷ y ∷ ys) = all_but_last (x ∷ y ∷ ys)

-- A C string ends at its first NUL.
unfoldable pub c_string : List ℕ → List ℕ
c_string [] = []
c_string (x ∷ xs) = if x == 0 then [] else x ∷ c_string xs

abbrev pub request_path : List CoapOption → List ℕ
request_path os = c_string (trim (collect_path (b'/' ∷ []) os))

-- A resource that was found answers by its handler, with 2.05 as the code that the handler finds.
abbrev pub answer_with : Option Resource → Pdu → Pdu → Pdu
answer_with none request response = response
answer_with (some r) request response = r.handler request (record response { code = 0x45 })

-- The response to a request, before it is encoded: 4.04, or what the handler leaves.
unfoldable pub respond : Context → Pdu → Pdu
respond c request =
    answer_with (coap_find_resource c.resources (request_path request.options)) request
      (coap_pdu_set_token (some request.token) request.token_length
        (coap_pdu_init ack 0x84 request.message_id)).1

-- `received` is what `net_recvfrom` gives, `none` for nothing or an error, and `old` what the
-- structure on the stack holds. The second part is the datagram that is sent, if any.
unfoldable pub coap_process : Context → Pdu → Option (List ℕ) → Outcome CoapError (Option (List ℕ))
coap_process c old received = if not c.bound then failed invalid_param else elim received [
  | none ↦ failed timeout
  | some bytes ↦ elim (coap_pdu_decode old bytes) [
    | fault ↦ fault
    | failed e ↦ failed parse
    | done request ↦
        if c.is_server && request.code / 32 == 0
        then done (coap_pdu_encode (respond c request) 1152)
        else done none
  ]
]
