-- ===== src/Coap/Server/Answers.antt =====
-- Which resource a request reaches, and the reply.
use tinyos_rtos.Prelude.{
  ◌≤◌, suc, inl, inr, Bool-cases, All-append, All, Bool-cases, ℕ, ◌+◌, ◌/◌, ◌<◌, ◌≡◌, ◌≢◌, ==→eq,
  refl, ap, ◌∙◌, sym, true, false, some, List, [], ◌∷◌, ◌++◌, ltb, ◌==◌, if◌then◌else◌, length,
  take, length-append, arith,
}
use mathlib.Core.List.{append_assoc, append-nil}
use tinyos_rtos.Prelude.Outcome.{done}
use tinyos_rtos.Coap.{
  coap_pdu_init, coap_pdu_set_token, ack, CoapOption, Pdu, coap_pdu_encode, overwrite,
}
use tinyos_rtos.Coap.RoundTrip.{IsSendable, received, coap_pdu_decode-encode}
use tinyos_rtos.Coap.Server.{
  answer_with, Context, Resource, same_string, collect_path, all_but_last, trim, c_string,
  request_path, coap_find_resource, respond, coap_process,
}

-- The segments of the Uri-Path options, each behind a slash.
unfoldable pub path_of : List CoapOption → List ℕ
path_of [] = []
path_of (o ∷ os) = if o.number == 11 then b'/' ∷ (o.value ++ path_of os) else path_of os

-- The same with each slash behind its segment.
slash_after : List CoapOption → List ℕ
slash_after [] = []
slash_after (o ∷ os) = if o.number == 11 then o.value ++ (b'/' ∷ slash_after os) else slash_after os

slash-slash_after : (os : List CoapOption) → b'/' ∷ slash_after os ≡ path_of os ++ (b'/' ∷ [])
unfolding path_of slash_after
slash-slash_after [] = refl
slash-slash_after (o ∷ os) = elim (Bool-cases (o.number == 11)) [
  | inl e ↦ rw e (
      ap (λ (t : List ℕ). b'/' ∷ (o.value ++ t)) (slash-slash_after os)
      ∙ ap (λ (t : List ℕ). b'/' ∷ t) (sym (append_assoc o.value (path_of os) (b'/' ∷ []))))
  | inr e ↦ rw e (slash-slash_after os)
]

collect_path_lem :
    (os : List CoapOption) (path : List ℕ)
    → length path + length (slash_after os) < 128
    → collect_path path os ≡ path ++ slash_after os
unfolding collect_path slash_after
collect_path_lem [] path fits = sym (append-nil path)
collect_path_lem (o ∷ os) path fits = elim (Bool-cases (o.number == 11)) [
  | inl e ↦
      let fits' : length path + (length o.value + suc (length (slash_after os))) < 128 =
        ground (arith, e, fits, length-append o.value (b'/' ∷ slash_after os)) in
      let room : ltb (length path + length o.value + 1) 128 ≡ true = ground arith in
      rw (e, room)
        (collect_path_lem os (path ++ (o.value ++ (b'/' ∷ []))) (
            omega (
              arith,
              fits',
              length-append path (o.value ++ (b'/' ∷ [])),
              length-append o.value (b'/' ∷ []),
            ))
          ∙ simp append_assoc)
  | inr e ↦ rw e (collect_path_lem os path (rw e at fits))
]

all_but_last-append : (xs : List ℕ) (y : ℕ) → all_but_last (xs ++ (y ∷ [])) ≡ xs
all_but_last-append [] y = refl
all_but_last-append (x ∷ []) y = refl
all_but_last-append (x ∷ z ∷ zs) y = rw (all_but_last-append (z ∷ zs) y)

-- The root alone is a slash.
abbrev pub or_root : List ℕ → List ℕ
or_root [] = b'/' ∷ []
or_root (x ∷ xs) = x ∷ xs

trim-append : (xs : List ℕ) → trim (xs ++ (b'/' ∷ [])) ≡ or_root xs
trim-append [] = refl
trim-append (x ∷ []) = refl
trim-append (x ∷ z ∷ zs) = all_but_last-append (x ∷ z ∷ zs) b'/'

abbrev pub NoNul : List ℕ → Type 0
NoNul xs = All (λ x. 0 < x) xs

pub c_string_lem : (xs : List ℕ) → NoNul xs → c_string xs ≡ xs
unfolding c_string
c_string_lem [] h = refl
c_string_lem (x ∷ xs) (h, hs) = ground (arith, c_string_lem xs hs)

path_of-NoNul :
    (os : List CoapOption) → All (λ (o : CoapOption). NoNul o.value) os → NoNul (path_of os)
unfolding path_of
path_of-NoNul [] h = tt
path_of-NoNul (o ∷ os) (h, hs) = elim (Bool-cases (o.number == 11)) [
  | inl e ↦ rw e (omega arith, All-append (λ x. 0 < x) o.value (path_of os) h (path_of-NoNul os hs))
  | inr e ↦ rw e (path_of-NoNul os hs)
]

or_root-NoNul : (xs : List ℕ) → NoNul xs → NoNul (or_root xs)
or_root-NoNul [] h = omega arith
or_root-NoNul (x ∷ xs) h = h

-- The path that the server looks up, for options that fit in its array and hold no NUL.
request_path_lem :
    (os : List CoapOption)
    → All (λ (o : CoapOption). NoNul o.value) os
    → length (path_of os) < 127
    → request_path os ≡ or_root (path_of os)
request_path_lem os clean fits =
    let shifted = slash-slash_after os in
    let size = length-append (path_of os) (b'/' ∷ []) in
    let all = collect_path_lem os (b'/' ∷ []) (omega (arith, ap length shifted, size)) in
    ap c_string (ap trim (all ∙ shifted) ∙ trim-append (path_of os))
    ∙ c_string_lem _ (or_root-NoNul (path_of os) (path_of-NoNul os clean))

-- The response that the server prepares: the message and the token are those of the request.
unfoldable pub prepared : Pdu → ℕ → Pdu
prepared request code = record {
  version = 1;
  type = ack;
  token_length = request.token_length;
  code = code;
  message_id = request.message_id;
  token = overwrite (take request.token_length request.token) (0 ∷ 0 ∷ 0 ∷ 0 ∷ 0 ∷ 0 ∷ 0 ∷ 0 ∷ []);
  options = [];
  payload = [];
}

prepared_lem :
    (request : Pdu) (code : ℕ)
    → request.token_length ≤ 8
    → (coap_pdu_set_token
        (some request.token)
        request.token_length
        (coap_pdu_init ack code request.message_id)).1
      ≡ prepared request code
unfolding coap_pdu_set_token coap_pdu_init prepared
prepared_lem request code h =
    let small : ltb 8 request.token_length ≡ false = ground arith in rw small

respond_lem :
    (c : Context) (request : Pdu) (path : List ℕ)
    → request_path request.options ≡ path
    → request.token_length ≤ 8
    → respond c request
      ≡ answer_with (coap_find_resource c.resources path) request (prepared request 132)
unfolding respond
respond_lem c request path e h = rw (e, prepared_lem request 132 h)

-- What a server with these resources answers to a request for a path: 4.04, if no resource has the path,
-- else what the handler of the first resource with the path makes of a 2.05.
pub data Reply (resources : List Resource) (path : List ℕ) (request response : Pdu) : Type 0 where
  absent :
      All (λ (r : Resource). r.uri_path ≢ path) resources
      → response ≡ prepared request 0x84
      → Reply resources path request response
  found :
      (before after : List Resource) (r : Resource)
      → resources ≡ before ++ (r ∷ after)
      → All (λ (s : Resource). s.uri_path ≢ path) before
      → r.uri_path ≡ path
      → response ≡ r.handler request (prepared request 0x45)
      → Reply resources path request response

same_string_eq : (xs ys : List ℕ) → same_string xs ys ≡ true → xs ≡ ys
unfolding same_string
same_string_eq [] [] h = refl
same_string_eq [] (y ∷ ys) h = absurd (ground (arith, h))
same_string_eq (x ∷ xs) [] h = absurd (ground (arith, h))
same_string_eq (x ∷ xs) (y ∷ ys) h = elim (Bool-cases (x == y)) [
  | inl e ↦ cc (==→eq x y e, same_string_eq xs ys (rw e at h))
  | inr e ↦ absurd (ground (arith, h, e))
]

same_string_refl : (xs : List ℕ) → same_string xs xs ≡ true
unfolding same_string
same_string_refl [] = refl
same_string_refl (x ∷ xs) = ground (arith, same_string_refl xs)

same_string_ne : (xs ys : List ℕ) → same_string xs ys ≡ false → xs ≢ ys
same_string_ne xs ys h e =
    absurd (ground (arith, h, ap (same_string xs) (sym e) ∙ same_string_refl xs))

-- One more resource in front, with another path
Reply-behind :
    (r : Resource) (rs : List Resource) (path : List ℕ) (request response : Pdu)
    → r.uri_path ≢ path
    → Reply rs path request response
    → Reply (r ∷ rs) path request response
Reply-behind r rs path request response other (absent all e) = absent (other, all) e
Reply-behind r rs path request response other (found before after s e all same made) =
    found (r ∷ before) after s (ap (λ (l : List Resource). r ∷ l) e) (other, all) same made

find-Reply :
    (rs : List Resource) (path : List ℕ) (request : Pdu)
    → Reply rs path request
        (answer_with (coap_find_resource rs path) request (prepared request 0x84))
unfolding coap_find_resource prepared
find-Reply [] path request = absent tt refl
find-Reply (r ∷ rs) path request = elim (Bool-cases (same_string r.uri_path path)) [
  | inl e ↦ rw e (found [] rs r refl tt (same_string_eq r.uri_path path e) refl)
  | inr e ↦ rw e (
      Reply-behind r rs path request
        (answer_with (coap_find_resource rs path) request (prepared request 0x84))
        (same_string_ne r.uri_path path e) (find-Reply rs path request))
]

-- A request in range that was encoded reaches a bound server: it sends the encoding of the response.
-- The path is the segments of the Uri-Path options, each behind a slash, or a slash alone without
-- segments (if they hold no NUL and have at most 126 bytes with their slashes). The first resource that
-- is registered for the path answers by its handler, which gets the request and a 2.05 with the message
-- id and the token of the request; without such a resource the reply is 4.04.
pub coap_process_lem :
    (c : Context) (request old : Pdu) (size : ℕ) (bytes : List ℕ)
    → c.bound ≡ true
    → c.is_server ≡ true
    → IsSendable request
    → request.code < 32
    → All (λ (o : CoapOption). NoNul o.value) request.options
    → length (path_of request.options) < 127
    → coap_pdu_encode request size ≡ some bytes
    → (response : Pdu) × Reply c.resources
        (or_root (path_of request.options))
        (received request old)
        response
      × (coap_process c old (some bytes) ≡ done (coap_pdu_encode response 1152))
unfolding coap_process respond
coap_process_lem c request old size bytes bound server ok low clean fits sent =
    let back = coap_pdu_decode-encode request old size bytes ok sent in
    let path = request_path_lem request.options clean fits in
    let class : request.code / 32 ≡ 0 = omega arith in
    (
      answer_with (coap_find_resource c.resources (or_root (path_of request.options)))
          (received request old) (prepared (received request old) 0x84),
      find-Reply c.resources (or_root (path_of request.options)) (received request old),
      rw bound (
          rw back (
            rw server (
              rw class (
                ap (λ (r : Pdu). done (coap_pdu_encode r 1152))
                  (respond_lem c (received request old) _ path ok.short_token))))),
    )
