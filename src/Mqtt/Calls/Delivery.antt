-- ===== src/Mqtt/Calls/Delivery.antt =====
-- What a client publishes, another client receives and hands to its callback.
use tinyos_rtos.Prelude.{
  ℕ, ◌+◌, ◌-◌, ◌*◌, ◌/◌, ◌%◌, ◌≤◌, ◌<◌, ◌≡◌, refl, ap, ◌∙◌, Bool, true, false, some, List, [], ◌∷◌,
  ◌++◌, arith, ltb, leb, length, take-length, drop, take-append, drop-append,
}
use mathlib.Core.List.{append_assoc}
use tinyos_rtos.Prelude.Word.{u16}
use tinyos_rtos.Coap.Server.Answers.{NoNul, c_string_lem}
use tinyos_rtos.Mqtt.{
  ok, connected, Qos, qos_0, qos_1, qos_2, bit_or, publish_flags, Client, Net, Effect, sent,
  delivered, publish_packet, id_bytes, mqtt_encode_remaining_length, mqtt_encode_string,
}
use tinyos_rtos.Mqtt.Receive.{
  Stream, Packet, ping_due, mqtt_loop, receive_and_handle, mqtt_receive_packet, receive_length,
  receive_body, store, handle_packet, handle_message, mqtt_decode_remaining_length, net_recv,
  read_length,
}
use tinyos_rtos.Mqtt.Receive.Lengths.{mqtt_decode-encode}
use tinyos_rtos.Mqtt.Receive.Streams.{Flows, net_recv_byte, read_length_lem, receive_rest_lem}
use tinyos_rtos.Mqtt.Calls.{publish_id, mqtt_publish}
use tinyos_rtos.Mqtt.Calls.Publishing.{
  length-id_bytes, remaining, publish_body, publish_packet_lem, length-publish_body,
  length-publish_packet, mqtt_publish-ok,
}

-- A client with the bytes of a packet, received at a time
abbrev pub holding : List ℕ → ℕ → Client → Client
holding body now c = record (store body c) { rx_buffer_pos = length body; last_activity_ms = now }

receive_body_lem :
    (type : ℕ) (b : ℕ) (bs tail : List ℕ) (c : Client) (n : Net)
    → length (b ∷ bs) ≤ 1024
    → Flows n.incoming ((b ∷ bs) ++ tail)
    → (n' : Net) × (receive_body type (length (b ∷ bs)) c n
        ≡ (ok, type, holding (b ∷ bs) n.now c, n'))
      × (n'.effects ≡ n.effects)
      × Flows n'.incoming tail
unfolding receive_body
receive_body_lem type b bs tail c n fits flows =
    let (s, e, flows') =
      receive_rest_lem (length (b ∷ bs)) (b ∷ bs) tail n.incoming (omega arith) flows in
    let size : ltb 1024 (length (b ∷ bs)) ≡ false = ground arith in
    (record n { incoming = s }, rw (size, e) refl, refl, flows')

receive_length_lem :
    (type : ℕ) (bytes : List ℕ) (s : Stream) (c : Client) (n : Net)
    → read_length 4 n.incoming ≡ (some bytes, s)
    → receive_length type c n
      ≡ receive_body type (mqtt_decode_remaining_length bytes) c (record n { incoming = s })
unfolding receive_length
receive_length_lem type bytes s c n e = rw (e, receive_length) (rw e refl)

header_lem :
    (b : ℕ) (s : Stream) (c : Client) (n : Net)
    → net_recv 1 n.incoming ≡ (some (b ∷ []), s)
    → mqtt_receive_packet c n ≡ receive_length (b / 16 % 16) c (record n { incoming = s })
unfolding mqtt_receive_packet
header_lem b s c n e = rw (e, mqtt_receive_packet) (rw e refl)

receive_packet_lem :
    (first b : ℕ) (bs tail : List ℕ) (c : Client) (n : Net)
    → length (b ∷ bs) ≤ 1024
    → Flows n.incoming
        (first ∷ (mqtt_encode_remaining_length (length (b ∷ bs)) ++ ((b ∷ bs) ++ tail)))
    → (n' : Net) × (mqtt_receive_packet c n ≡ (ok, first / 16 % 16, holding (b ∷ bs) n.now c, n'))
      × (n'.effects ≡ n.effects)
      × Flows n'.incoming tail
receive_packet_lem first b bs tail c n fits flows =
    let size = length (b ∷ bs) in
    let (s1, e1, flows1) = net_recv_byte first _ n.incoming flows in
    let (s2, e2, flows2) =
      read_length_lem 3 5 size ((b ∷ bs) ++ tail) s1 (omega arith) (omega arith) flows1 in
    let (n', e3, e4, flows3) =
      receive_body_lem (first / 16 % 16) b bs tail c (record n { incoming = s2 }) fits flows2 in
    let d = (mqtt_decode-encode size (omega arith)).0 in
    (
      n',
      header_lem first s1 c n e1
          ∙ (receive_length_lem (first / 16 % 16) (mqtt_encode_remaining_length size) s2 c
                (record n { incoming = s1 }) e2
              ∙ rw d e3),
      e4,
      flows3,
    )

pub receive_lem :
    (first : ℕ) (body : List ℕ) (b : ℕ) (bs tail : List ℕ) (c : Client) (n : Net)
    → body ≡ b ∷ bs
    → length body ≤ 1024
    → Flows n.incoming (first ∷ (mqtt_encode_remaining_length (length body) ++ (body ++ tail)))
    → (n' : Net) × (mqtt_receive_packet c n ≡ (ok, first / 16 % 16, holding body n.now c, n'))
      × (n'.effects ≡ n.effects)
      × Flows n'.incoming tail
receive_lem first body b bs tail c n e fits flows =
    rw e (receive_packet_lem first b bs tail c n (rw e at fits) (rw e at flows))

-- The packet in the buffer
handle_message_lem :
    (topic payload rest : List ℕ) (c : Client) (n : Net)
    → NoNul topic
    → length topic < 128
    → c.message_callback ≡ true
    → c.rx_buffer_pos ≡ 2 + length topic + length payload
    → handle_message (mqtt_encode_string topic ++ (payload ++ rest)) c n
      ≡ (ok, c, record n { effects = n.effects ++ (delivered topic payload ∷ []) })
unfolding handle_message mqtt_encode_string
handle_message_lem topic payload rest c n clean short callback pos =
    let size : u16 (length topic) ≡ length topic = omega arith in
    let e : length topic / 256 * 256 + length topic % 256 ≡ length topic = omega arith in
    let long : leb 128 (length topic) ≡ false = ground arith in
    let cut : ltb (2 + length topic + length payload) (2 + length topic) ≡ false = ground arith in
    let left : 2 + length topic + length payload - (2 + length topic) ≡ length payload =
      omega arith in
    rw (size, take-length topic)
      (rw (e, pos)
        (rw (long, cut, callback)
          (rw (take-append topic (payload ++ rest), drop-append topic (payload ++ rest), left)
            (rw (take-append payload rest, c_string_lem topic clean) refl))))

type_lem : (qos : Qos) (retained : Bool) → bit_or 0x30 (publish_flags qos retained) / 16 % 16 ≡ 3
type_lem qos_0 true = refl
type_lem qos_0 false = refl
type_lem qos_1 true = refl
type_lem qos_1 false = refl
type_lem qos_2 true = refl
type_lem qos_2 false = refl

-- The bytes that were sent, in order
abbrev pub wire : List Effect → List ℕ
wire [] = []
wire (sent bytes ∷ es) = bytes ++ wire es
wire (other ∷ es) = wire es

one_packet : (p tail : List ℕ) (es : List Effect) → es ≡ sent p ∷ [] → wire es ++ tail ≡ p ++ tail
one_packet p tail es e = rw e (append_assoc p [] tail)

mqtt_loop_lem :
    (c : Client) (n : Net)
    → c.state ≡ connected
    → ping_due c n ≡ false
    → mqtt_loop c n ≡ receive_and_handle c n
unfolding mqtt_loop
mqtt_loop_lem c n online no_ping = rw (online, no_ping) refl

publish_body-cons :
    (topic payload : List ℕ) (qos : Qos) (id : ℕ)
    → (b : ℕ) × (bs : List ℕ) × (publish_body topic payload qos id ≡ b ∷ bs)
unfolding publish_body mqtt_encode_string
publish_body-cons topic payload qos id = (u16 (length topic) / 256, _, refl)

body_lem :
    (topic payload rest : List ℕ) (qos : Qos) (id : ℕ)
    → publish_body topic payload qos id ++ rest
      ≡ mqtt_encode_string topic ++ ((id_bytes qos id ++ payload) ++ rest)
unfolding publish_body
body_lem topic payload rest qos id =
    append_assoc (mqtt_encode_string topic) (id_bytes qos id ++ payload) rest

-- The body of the packet in the buffer
handle_body :
    (topic payload : List ℕ) (qos : Qos) (id now : ℕ) (c : Client) (n : Net)
    → c.message_callback ≡ true
    → NoNul topic
    → length topic < 128
    → handle_packet ok 3 (holding (publish_body topic payload qos id) now c) n ≡ (
      ok,
      holding (publish_body topic payload qos id) now c,
      record n { effects = n.effects ++ (delivered topic (id_bytes qos id ++ payload) ∷ []) },
    )
unfolding handle_packet
handle_body topic payload qos id now c n callback clean short =
    let body = publish_body topic payload qos id in
    let rest = drop (length body) c.rx_buffer in
    let c' = holding body now c in
    let pos : length body ≡ 2 + length topic + length (id_bytes qos id ++ payload) = omega (
      arith,
      length-publish_body topic payload qos id (omega arith),
      length-id_bytes payload qos id,
    ) in
    ap (λ (bytes : List ℕ). handle_message bytes c' n) (body_lem topic payload rest qos id)
    ∙ handle_message_lem topic (id_bytes qos id ++ payload) rest c' n clean short callback pos

module _ (topic payload tail : List ℕ) (qos : Qos) (retained : Bool) where
  -- A packet that fits in the buffer, from the stream to the callback
  loop_lem :
      (id : ℕ) (c : Client) (n : Net)
      → remaining topic payload qos ≤ 1024
      → c.message_callback ≡ true
      → NoNul topic
      → length topic < 128
      → Flows n.incoming (publish_packet topic payload qos retained id ++ tail)
      → (n' : Net) × (receive_and_handle c n
          ≡ (ok, holding (publish_body topic payload qos id) n.now c, n'))
        × (n'.effects ≡ n.effects ++ (delivered topic (id_bytes qos id ++ payload) ∷ []))
        × Flows n'.incoming tail
  loop_lem id c n fits callback clean short flows =
      let body = publish_body topic payload qos id in
      let size = length-publish_body topic payload qos id (omega arith) in
      let first = bit_or 0x30 (publish_flags qos retained) in
      let shape : publish_packet topic payload qos retained id ++ tail
          ≡ first ∷ (mqtt_encode_remaining_length (length body) ++ (body ++ tail)) =
        ap (λ (p : List ℕ). p ++ tail)
          (publish_packet_lem topic payload qos retained id (omega arith))
        ∙ rw
            (
              size,
              append_assoc (mqtt_encode_remaining_length (remaining topic payload qos)) body tail,
            )
            refl in
      let (b, bs, cons) = publish_body-cons topic payload qos id in
      let (n', e, f, rest) =
        receive_lem first body b bs tail c n cons (omega (arith, size)) (rw shape at flows) in
      let t = type_lem qos retained in
      (
        record n' { effects = n'.effects ++ (delivered topic (id_bytes qos id ++ payload) ∷ []) },
        ap (λ (p : Packet). handle_packet p.0 p.1 p.2 p.3) e
            ∙ rw t (handle_body topic payload qos id n.now c n' callback clean short),
        ap (λ (es : List Effect). es ++ (delivered topic (id_bytes qos id ++ payload) ∷ [])) f,
        rest,
      )

  -- A publish that succeeds sends exactly one packet, and does nothing else to the network. When the
  -- bytes that it sent reach a connected client that has a message callback and owes no ping, in pieces
  -- that are not empty, then one round of mqtt_loop succeeds, takes exactly these bytes, and calls the
  -- callback once, with the topic, if that has fewer than 128 characters, and the payload. With QoS
  -- above 0 the two bytes of the message id stand in front of the payload that the callback gets.
  pub publish_loop :
      (c0 c1 c : Client) (n0 n1 n : Net)
      → n0.effects ≡ []
      → mqtt_publish topic payload qos retained c0 n0 ≡ some (ok, c1, n1)
      → c.state ≡ connected
      → c.message_callback ≡ true
      → ping_due c n ≡ false
      → NoNul topic
      → length topic < 128
      → Flows n.incoming (wire n1.effects ++ tail)
      → (packet : List ℕ) × (n1.effects ≡ sent packet ∷ [])
        × (n' : Net) × (mqtt_loop c n
            ≡ (ok, holding (publish_body topic payload qos (publish_id qos c0).0) n.now c, n'))
        × (n'.effects
            ≡ n.effects ++ (delivered topic (id_bytes qos (publish_id qos c0).0 ++ payload) ∷ []))
        × Flows n'.incoming tail
  publish_loop c0 c1 c n0 n1 n fresh success online callback no_ping clean short flows =
      let id = (publish_id qos c0).0 in
      let packet = publish_packet topic payload qos retained id in
      let (fits, one) = mqtt_publish-ok topic payload qos retained c0 c1 n0 n1 success in
      let alone : n1.effects ≡ sent packet ∷ [] =
        one ∙ ap (λ (es : List Effect). es ++ (sent packet ∷ [])) fresh in
      let long = length-publish_packet topic payload qos retained id (omega arith) in
      let (n', e, f, rest) =
        loop_lem id c n (omega (arith, fits, long)) callback clean short
          (rw (one_packet packet tail n1.effects alone) at flows) in
      (packet, alone, n', mqtt_loop_lem c n online no_ping ∙ e, f, rest)
