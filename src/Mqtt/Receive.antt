-- ===== src/Mqtt/Receive.antt =====
-- mqtt.c: a packet is received and handled.
pub mod Lengths
pub mod Streams
use tinyos_rtos.Prelude.{
  ℕ, zero, suc, ◌+◌, ◌-◌, ◌*◌, ◌/◌, ◌%◌, Bool, true, false, ◌||◌, Option, none, some, List, [], ◌∷◌,
  ◌++◌, ltb, leb, ◌==◌, if◌then◌else◌, length, take, drop,
}
use tinyos_rtos.Prelude.Word.{u32, sub_u32}
use tinyos_rtos.Coap.Server.{c_string}
use tinyos_rtos.Mqtt.{
  MqttError, ok, not_connected, network, timeout, protocol, buffer_overflow, broker_refused,
  subscribe_failed, ConnectionState, connected, Client, Net, delivered, told, then_effect, Reply,
  mqtt_send_packet,
}

abbrev pub Stream : Type 0
Stream = List (Option (List ℕ))

abbrev pub put_back : List ℕ → Stream → Stream
put_back [] s = s
put_back (x ∷ xs) s = some (x ∷ xs) ∷ s

-- net_recv for at most `n` bytes gives those of the first arrival.
unfoldable pub net_recv : ℕ → Stream → Option (List ℕ) × Stream
net_recv n [] = (some [], [])
net_recv n (none ∷ s) = (none, s)
net_recv n (some xs ∷ s) = (some (take n xs), put_back (drop n xs) s)

-- The loop that reads the length, with the rounds left, at first four; `none` where a byte does not come.
unfoldable pub read_length : ℕ → Stream → Option (List ℕ) × Stream
read_length zero s = (some [], s)
read_length (suc rounds) s =
    let (byte, s') = net_recv 1 s in
    let rest = read_length rounds s' in
    elim byte [
      | none ↦ (none, s')
      | some bs ↦ elim bs [
        | [] ↦ (none, s')
        | b ∷ _ ↦
            if leb 0x80 b
            then (elim rest.0 [ none ↦ none | some more ↦ some (b ∷ more) ], rest.1)
            else (some (b ∷ []), s')
      ]
    ]

-- At most four bytes, so that nothing wraps. The bytes that were read end where this loop does.
unfoldable pub decode_length : ℕ → ℕ → ℕ → List ℕ → ℕ
decode_length rounds multiplier value [] = value
decode_length zero multiplier value (b ∷ bs) = value
decode_length (suc rounds) multiplier value (b ∷ bs) =
    let value' = value + b % 128 * multiplier in
    let rest = decode_length rounds (multiplier * 128) value' bs in
    if leb 0x80 b then rest else value'

abbrev pub mqtt_decode_remaining_length : List ℕ → ℕ
mqtt_decode_remaining_length bytes = decode_length 4 1 0 bytes

-- The loop for `wanted` bytes: whether all came, and those that did. Each round brings a byte.
unfoldable pub receive_rest : ℕ → ℕ → Stream → Bool × List ℕ × Stream
receive_rest zero wanted s = (wanted == 0, [], s)
receive_rest (suc rounds) zero s = (true, [], s)
receive_rest (suc rounds) (suc w) s =
    let (received, s') = net_recv (suc w) s in
    elim received [
      | none ↦ (false, [], s')
      | some bs ↦ elim bs [
        | [] ↦ (false, [], s')
        | b ∷ more ↦
            let (all, got, s'') = receive_rest rounds (suc w - length (b ∷ more)) s' in
            (all, b ∷ (more ++ got), s'')
      ]
    ]

-- The result, the type of the message where the result is `ok`, and what the call changed.
abbrev pub Packet : Type 0
Packet = MqttError × ℕ × Client × Net

abbrev pub store : List ℕ → Client → Client
store got c = record c { rx_buffer = got ++ drop (length got) c.rx_buffer }

unfoldable pub receive_body : ℕ → ℕ → Client → Net → Packet
receive_body type zero c n = (ok, type, record c { last_activity_ms = n.now }, n)
receive_body type (suc r) c n =
    if ltb 1024 (suc r)
    then (buffer_overflow, type, c, n)
    else (let (all, got, s) = receive_rest (suc r) (suc r) n.incoming in
        let c' = store got c in
        let n' = record n { incoming = s } in
        if all
        then (ok, type, record c' { rx_buffer_pos = suc r; last_activity_ms = n.now }, n')
        else (network, type, c', n'))

unfoldable pub receive_length : ℕ → Client → Net → Packet
unfolding read_length receive_body
receive_length type c n =
    let (bytes, s) = read_length 4 n.incoming in
    elim bytes [
      | none ↦ (network, type, c, record n { incoming = s })
      | some bs ↦ receive_body type (mqtt_decode_remaining_length bs) c (record n { incoming = s })
    ]

unfoldable pub mqtt_receive_packet : Client → Net → Packet
unfolding receive_length
mqtt_receive_packet c n =
    let (header, s) = net_recv 1 n.incoming in
    elim header [
      | none ↦ (network, 0, c, record n { incoming = s })
      | some bs ↦ elim bs [
        | [] ↦ (timeout, 0, c, record n { incoming = s })
        | b ∷ _ ↦ receive_length (b / 16 % 16) c (record n { incoming = s })
      ]
    ]

-- `return_code`, in an array of 1024 bytes
abbrev pub second : List ℕ → ℕ
second [] = 0
second (x ∷ []) = 0
second (x ∷ y ∷ ys) = y

abbrev pub third : List ℕ → ℕ
third [] = 0
third (x ∷ xs) = second xs

unfoldable pub mqtt_handle_connack : Client → Net → Reply
mqtt_handle_connack c n =
    if ltb c.rx_buffer_pos 2
    then (protocol, c, n)
    else (if second c.rx_buffer == 0
        then (
          ok,
          record c { state = connected },
          if c.connection_callback then then_effect (told true) n else n,
        )
        else (broker_refused, c, n))

-- The handling of the bytes of the buffer, which is never shorter than two bytes.
unfoldable pub handle_message : List ℕ → Client → Net → Reply
handle_message (high ∷ low ∷ bytes) c n =
    let topic_len = high * 256 + low in
    if leb 128 topic_len || ltb c.rx_buffer_pos (2 + topic_len) then (protocol, c, n) else (
      ok,
      c,
      if c.message_callback
          then then_effect
              (delivered (c_string (take topic_len bytes))
                (take (c.rx_buffer_pos - (2 + topic_len)) (drop topic_len bytes)))
              n
          else n,
    )
handle_message bytes c n = (protocol, c, n)

abbrev pub mqtt_handle_publish : Client → Net → Reply
mqtt_handle_publish c n = handle_message c.rx_buffer c n

unfoldable pub mqtt_handle_suback : Client → Net → Reply
mqtt_handle_suback c n =
    if ltb c.rx_buffer_pos 3
    then (protocol, c, n)
    else (if third c.rx_buffer == 0x80 then (subscribe_failed, c, n) else (ok, c, n))

abbrev pub ping_due : Client → Net → Bool
ping_due c n = leb (u32 (c.config.keepalive_sec * 1000)) (sub_u32 n.now c.last_ping_ms)

-- `mqtt_send_pingreq`, whose result mqtt_loop ignores
abbrev pub ping : Client → Net → Client × Net
ping c n =
    let (_, c', n') = mqtt_send_packet (0xc0 ∷ 0 ∷ []) c n in
    (record c' { last_ping_ms = n.now }, n')

-- The switch on the type of a packet that was received.
unfoldable pub handle_packet : MqttError → ℕ → Client → Net → Reply
unfolding handle_message mqtt_handle_suback
handle_packet ok type c n =
    if type == 3
    then mqtt_handle_publish c n
    else (if type == 9 then mqtt_handle_suback c n else (ok, c, n))
handle_packet timeout type c n = (ok, c, n)
handle_packet e type c n = (e, c, n)

abbrev pub receive_and_handle : Client → Net → Reply
receive_and_handle c n =
    let (e, type, c', n') = mqtt_receive_packet c n in handle_packet e type c' n'

abbrev pub is_connected : ConnectionState → Bool
is_connected connected = true
is_connected other = false

-- One round of the background task.
unfoldable pub mqtt_loop : Client → Net → Reply
unfolding mqtt_receive_packet handle_packet mqtt_send_packet
mqtt_loop c n =
    if is_connected c.state
    then (if ping_due c n
        then receive_and_handle (ping c n).0 (ping c n).1
        else receive_and_handle c n)
    else (not_connected, c, n)
